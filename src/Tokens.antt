-- ===== src/Tokens.antt =====
-- packages/tokens/src/internal.ts: the limits of the access-grant profile and the tests on its names.
-- base64url of the jose library is a parameter.
pub mod Clock
pub mod StorageKeys
pub mod Issuer
pub mod Verification
pub mod Verifier
pub mod Jwks
pub mod Replay
pub mod Consumption
pub mod Lifetime
pub mod Grants
pub mod Handover
pub mod Issuance
mod Tests
use authorization_core.Common.{
  ℕ, suc, Bool, true, false, not, ◌&&◌, ◌||◌, Option, none, some, List, [], ◌∷◌, ◌==◌, leb, ltb,
  all, any, length, Result, ok, thrown, guard, ◌>>=◌, ◌>>◌, is_nil, if◌then◌else◌,
}
use authorization_core.Text.{Text, text, same, before, sort, distinct}
use authorization_core.Js.{trim, max_safe_integer}

abbrev pub max_access_grant_lifetime_seconds : ℕ
max_access_grant_lifetime_seconds = 30

abbrev pub max_negative_verifier_offset_seconds : ℕ
max_negative_verifier_offset_seconds = 5

abbrev pub max_source_authorization_lifetime_ms : ℕ
max_source_authorization_lifetime_ms = 60000

abbrev pub max_jwks_cache_age_ms : ℕ
max_jwks_cache_age_ms = 60000

abbrev pub unknown_kid_refresh_interval_ms : ℕ
unknown_kid_refresh_interval_ms = 5000

abbrev pub max_compact_access_grant_length : ℕ
max_compact_access_grant_length = 8192

-- What returns, or throws an `AccessGrantError` with its message.
abbrev pub Checked : Type 0 → Type 0
Checked A = Result Text A

-- What a clock says: a finite number that is not negative, in whole milliseconds; or any other
-- number. Clocks that read fractions of a millisecond are left out.
pub data Reading : Type 0 where
  finite : ℕ → Reading
  invalid : Reading

is_digit : ℕ → Bool
is_digit c = leb 48 c && leb c 57

is_lower : ℕ → Bool
is_lower c = leb 97 c && leb c 122

is_upper : ℕ → Bool
is_upper c = leb 65 c && leb c 90

is_hex : ℕ → Bool
is_hex c = leb 48 c && leb c 57 || leb 97 c && leb c 102

is_alphanumeric : ℕ → Bool
unfolding is_digit is_lower is_upper
is_alphanumeric c = is_digit c || is_lower c || is_upper c

-- One character of `A-Za-z0-9` and then so many, from the first bound to the second, of a set.
named : (ℕ → Bool) → ℕ → ℕ → Text → Bool
unfolding is_alphanumeric
named allowed least most [] = false
named allowed least most (c ∷ rest) =
    is_alphanumeric c && all allowed rest && leb least (length rest) && leb (length rest) most

-- `isKid`: the characters `._:-` beside letters and digits
pub is_kid : Text → Bool
unfolding named is_alphanumeric
is_kid = named (λ c. is_alphanumeric c || c == 46 || c == 95 || c == 58 || c == 45) 15 127

-- `isPolicyVersion`
unfoldable pub is_policy_version : Text → Bool
unfolding named is_alphanumeric
is_policy_version = named (λ c. is_alphanumeric c || c == 46 || c == 95 || c == 45) 0 127

-- The text after a prefix.
after_prefix : Text → Text → Option Text
after_prefix [] t = some t
after_prefix (c ∷ p) [] = none
after_prefix (c ∷ p) (d ∷ t) = let rest = after_prefix p t in if c == d then rest else none

-- `isPolicyDigest`
pub is_policy_digest : Text → Bool
unfolding after_prefix is_hex
is_policy_digest t = elim (after_prefix (text "sha256:") t) [
  | none ↦ false
  | some digest ↦ length digest == 64 && all is_hex digest
]

-- `[...value].length`: a pair of surrogates is one code point.
unfoldable pub code_points : Text → ℕ
code_points [] = 0
code_points (c ∷ []) = 1
code_points (c ∷ d ∷ rest) =
    let one = suc (code_points (d ∷ rest)) in
    let pair = suc (code_points rest) in
    if leb 0xD800 c && leb c 0xDBFF && (leb 0xDC00 d && leb d 0xDFFF) then pair else one

-- `isBoundedIdentity`
pub is_bounded_identity : Text → Bool
unfolding code_points
is_bounded_identity t =
    not (is_nil t)
    && leb (code_points t) 255
    && same (trim t) t
    && not (any (λ c. leb c 31 || c == 127) t)

-- `isNumericDate` on a whole number that is not negative
pub is_numeric_date : ℕ → Bool
is_numeric_date n = leb n max_safe_integer && ltb 0 n

-- Where `PERMISSION_PATTERN` stands: before a segment, inside a word, after `-` or `_`.
pub data Spot : Type 0 where
  segment word joint : Spot

unfoldable pub follows : Spot → Text → Bool
unfolding is_lower is_digit
follows segment [] = false
follows segment (c ∷ rest) = is_lower c && follows word rest
follows word [] = true
follows word (c ∷ rest) =
    let inside = follows word rest in
    let joined = follows joint rest in
    let dotted = follows segment rest in
    if is_lower c || is_digit c then inside else (c == 45 || c == 95) && joined || c == 46 && dotted
follows joint [] = false
follows joint (c ∷ rest) = (is_lower c || is_digit c) && follows word rest

-- `isPermission`
pub is_permission : Text → Bool
unfolding follows
is_permission t = leb (length t) 255 && follows segment t

-- `canonicalPermissions`
unfoldable pub canonical_permissions : List Text → Checked (List Text)
canonical_permissions values = do
  guard (all is_permission values) (text "permission is malformed")
  ok (sort (distinct values))

-- Every element is a permission and comes before the next.
pub ascending : List Text → Bool
ascending [] = true
ascending (p ∷ []) = is_permission p
ascending (p ∷ q ∷ rest) = is_permission p && before p q && ascending (q ∷ rest)

-- `isCanonicalPermissions`
pub is_canonical_permissions : List Text → Bool
unfolding ascending
is_canonical_permissions permissions = not (is_nil permissions) && ascending permissions

-- A policy by its version and digest. The code compares the pairs by their JSON, which differs where
-- a component does.
pub record AcceptedAccessGrantPolicy : Type 0 where
  pub version : Text
  pub digest : Text

-- Whether the set of policy pairs has one.
pub has_policy : List AcceptedAccessGrantPolicy → Text → Text → Bool
has_policy policies version digest =
    any (λ p. same p.version version && same p.digest digest) policies

-- base64url of the jose library: `decode` gives no bytes where it throws.
pub record Base64Url : Type 0 where
  pub encode : List ℕ → Text
  pub decode : Text → Option (List ℕ)

-- `isCanonicalBase64Url32`
pub is_canonical_base64url32 : Base64Url → Text → Bool
unfolding is_alphanumeric
is_canonical_base64url32 b t =
    length t == 43 && all (λ c. is_alphanumeric c || c == 95 || c == 45) t && elim (b.decode t) [
      | none ↦ false
      | some bytes ↦ length bytes == 32 && same (b.encode bytes) t
    ]

-- `decodeCanonicalBase64Url`
pub decode_canonical_base64url : Base64Url → Text → Text → Checked (List ℕ)
unfolding is_alphanumeric
decode_canonical_base64url b value problem = do
  guard (all (λ c. is_alphanumeric c || c == 95 || c == 45) value) problem
  elim (b.decode value) [
    | none ↦ thrown problem
    | some bytes ↦ if same (b.encode bytes) value then ok bytes else thrown problem
  ]
