-- ===== src/Storage/Keys/Injective.antt =====
-- The keys of packages/storage/src/collections.ts determine what they are made of: no two records
-- of one collection share a key.
use authorization_core.Common.{
  ℕ, ◌/◌, ◌%◌, ◌<◌, true, false, [], ◌∷◌, ◌++◌, ◌≡◌, refl, ◌≢◌, arith, Bool-cases, inl, inr, ap,
  sym,
}
use mathlib.Core.List.{append_assoc, append-nil}
use authorization_core.Text.{Text}
use authorization_core.Contracts.{RoleAssignmentScope, application, organization}
use authorization_core.Storage.Keys.{
  is_escaped, hex_digit, escape, encode_segment, join_segments, scope_tag, RecordLocation,
  record_partition,
}

-- An escaped character is below 256.
escaped_bound : (c : ℕ) → is_escaped c ≡ true → c < 256
unfolding is_escaped
escaped_bound c h = ground arith

hex_digit_injective : (a b : ℕ) → a < 16 → b < 16 → hex_digit a ≡ hex_digit b → a ≡ b
unfolding hex_digit
hex_digit_injective a b h k e = ground arith

-- What ends a segment: the end of the key, or the separator.
unfoldable pub IsEnd : Text → Type 0
IsEnd [] = Unit
IsEnd (c ∷ s) = c ≡ b'|'

plain_lem : (c : ℕ) → is_escaped c ≡ false → (c ≢ b'|') × (c ≢ b'%')
unfolding is_escaped
plain_lem c h = ground arith

starts_escaped :
    (c : ℕ) (s : Text) → is_escaped c ≡ true → encode_segment (c ∷ s) ≡ escape c ++ encode_segment s
unfolding encode_segment
starts_escaped c s h = rw h

starts_plain :
    (c : ℕ) (s : Text) → is_escaped c ≡ false → encode_segment (c ∷ s) ≡ c ∷ encode_segment s
unfolding encode_segment
starts_plain c s h = rw h

escape_injective :
    (c d : ℕ) (x y : Text) → c < 256 → d < 256 → escape c ++ x ≡ escape d ++ y → (c ≡ d) × (x ≡ y)
unfolding escape
escape_injective c d x y h k e =
    let high = hex_digit_injective (c / 16) (d / 16) (omega arith) (omega arith) (cc) in
    let low = hex_digit_injective (c % 16) (d % 16) (omega arith) (omega arith) (cc) in
    (omega arith, cc)

not_end : (c : ℕ) (s x y : Text) → IsEnd x → ¬ (x ≡ encode_segment (c ∷ s) ++ y)
unfolding escape IsEnd
not_end c s [] y h e = elim (Bool-cases (is_escaped c)) [
  | inl esc ↦ cc (e, starts_escaped c s esc)
  | inr plain ↦ cc (e, starts_plain c s plain)
]
not_end c s (b ∷ x) y h e = elim (Bool-cases (is_escaped c)) [
  | inl esc ↦ ground (arith, e, h, starts_escaped c s esc)
  | inr plain ↦ ground (arith, e, h, starts_plain c s plain, (plain_lem c plain).0)
]

clash :
    (c d : ℕ) (s t x y : Text)
    → is_escaped c ≡ true
    → is_escaped d ≡ false
    → ¬ (encode_segment (c ∷ s) ++ x ≡ encode_segment (d ∷ t) ++ y)
unfolding escape
clash c d s t x y ec pd e =
    ground (arith, starts_escaped c s ec, starts_plain d t pd, (plain_lem d pd).1)

-- A segment that is followed by a separator or by nothing is read off its encoding.
pub encode_segment_injective :
    (s t x y : Text)
    → IsEnd x
    → IsEnd y
    → encode_segment s ++ x ≡ encode_segment t ++ y
    → (s ≡ t) × (x ≡ y)
unfolding encode_segment escape
encode_segment_injective [] [] x y h k e = (refl, e)
encode_segment_injective [] (d ∷ t) x y h k e = absurd (not_end d t x y h e)
encode_segment_injective (c ∷ s) [] x y h k e = absurd (not_end c s y x k (sym e))
encode_segment_injective (c ∷ s) (d ∷ t) x y h k e = elim (Bool-cases (is_escaped c)) [
  | inl ec ↦ elim (Bool-cases (is_escaped d)) [
    | inl ed ↦
        let (heads, tails) =
          escape_injective c d (encode_segment s ++ x) (encode_segment t ++ y) (escaped_bound c ec)
            (escaped_bound d ed) (rw (ec, ed) at e) in
        let (others, rest) = encode_segment_injective s t x y h k tails in (cc, rest)
    | inr pd ↦ absurd (clash c d s t x y ec pd e)
  ]
  | inr pc ↦ elim (Bool-cases (is_escaped d)) [
    | inl ed ↦ absurd (clash d c t s y x ed pc (sym e))
    | inr pd ↦
        let same : (c ∷ (encode_segment s ++ x)) ≡ (d ∷ (encode_segment t ++ y)) =
          (rw (pc, pd) at e) in
        let (others, rest) = encode_segment_injective s t x y h k (cc) in (cc, rest)
  ]
]

pub one_segment : (s t : Text) → encode_segment s ≡ encode_segment t → s ≡ t
unfolding IsEnd
one_segment s t e = (encode_segment_injective s t [] [] tt tt (rw (append-nil, append-nil) e)).0

pub two_segments :
    (a b c d x y : Text)
    → IsEnd x
    → IsEnd y
    → join_segments (a ∷ b ∷ []) ++ x ≡ join_segments (c ∷ d ∷ []) ++ y
    → (a ≡ c) × (b ≡ d) × (x ≡ y)
unfolding IsEnd join_segments
two_segments a b c d x y h k e =
    let (first, rest) =
      encode_segment_injective a c (b'|' ∷ (encode_segment b ++ x)) (b'|' ∷ (encode_segment d ++ y))
        refl refl (rw (append_assoc, append_assoc) at e) in
    let (second, last) = encode_segment_injective b d x y h k (cc) in (first, second, last)

pub scope_tag_injective : (s t : RoleAssignmentScope) → scope_tag s ≡ scope_tag t → s ≡ t
unfolding scope_tag
scope_tag_injective application application e = refl
scope_tag_injective application (organization j) e = cc
scope_tag_injective (organization i) application e = cc
scope_tag_injective (organization i) (organization j) e = ap organization (one_segment i j (cc))

-- Two locations with one partition are the same application, principal and scope.
pub record_partition_injective :
    (l m : RecordLocation) → record_partition l ≡ record_partition m → l ≡ m
unfolding record_partition IsEnd
record_partition_injective l m e =
    let (a, b, c) =
      two_segments l.application_id l.principal_id m.application_id m.principal_id
        (b'|' ∷ scope_tag l.scope) (b'|' ∷ scope_tag m.scope) refl refl e in
    let d = scope_tag_injective l.scope m.scope (cc) in
    λ i. record { application_id = a i; principal_id = b i; scope = d i }
