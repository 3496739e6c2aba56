-- ===== src/Identity/Claims.antt =====
-- packages/identity-link/src/index.ts: exactly which claims give which key.
use authorization_core.Common.{
  arith, ◌≤◌, ℕ, Bool, true, false, ◌&&◌, Option, none, some, ◌≡◌, refl, ◌∙◌, ap, subst, ◌↔◌, ◌==◌,
  length, thrown, ok, >>=-eq-ok, guard-eq-ok, ok-injective, if◌then◌else◌,
}
use authorization_core.Text.{Text, text}
use authorization_core.Js.{
  is_blank, Value, boolean, string, object, Properties, Descriptor, data_property, own,
  own_keys_count, keys_within,
}
use authorization_core.Contracts.{IdentityLinkKey}
use authorization_core.Identity.{
  has_control, is_well_formed_unicode, Refusal, claim_fields, max_issuer_length, max_subject_length,
  read_data_property, is_bounded_identifier, bounded_identifier, is_true, key_of_claims,
  identity_link_key_from_verified_identity_claims,
}

-- A nonblank string of bounded length, without control characters, whose surrogates stand in pairs.
pub IsIdentifier : Text → ℕ → Type 0
IsIdentifier s maximum =
    (length s ≤ maximum)
    × (is_blank s ≡ false)
    × (has_control s ≡ false)
    × (is_well_formed_unicode s ≡ true)

is_bounded_identifier-IsIdentifier :
    (s : Text) (maximum : ℕ) → is_bounded_identifier s maximum ≡ true → IsIdentifier s maximum
unfolding is_bounded_identifier IsIdentifier
is_bounded_identifier-IsIdentifier s maximum h =
    (ground arith, ground arith, ground arith, ground arith)

is_bounded_identifier_taken :
    (s : Text) (maximum : ℕ) → IsIdentifier s maximum → is_bounded_identifier s maximum ≡ true
unfolding is_bounded_identifier IsIdentifier
is_bounded_identifier_taken s maximum (short, filled, clean, formed) =
    ground (arith, short, filled, clean, formed)

-- The properties of claims for a key: the three fields and no other, with bounded identifiers.
pub HasClaims : Properties → IdentityLinkKey → Type 0
HasClaims ps key =
    ((own_keys_count ps == length claim_fields && keys_within ps claim_fields) ≡ true)
    × (own ps (text "issuer") ≡ some (data_property (string key.issuer) true))
    × IsIdentifier key.issuer max_issuer_length
    × (own ps (text "subject") ≡ some (data_property (string key.subject) true))
    × IsIdentifier key.subject max_subject_length
    × (own ps (text "emailVerified") ≡ some (data_property (boolean true) true))

read_data_property-eq :
    (d : Option Descriptor) (v : Value)
    → read_data_property d ≡ ok v
    → d ≡ some (data_property v true)
unfolding read_data_property
read_data_property-eq (some (data_property w true)) v h =
    ap (λ u. some (data_property u true)) (ok-injective h)
read_data_property-eq (some (data_property w false)) v h = absurd (cc)
read_data_property-eq (some (Descriptor.accessor e)) v h = absurd (cc)
read_data_property-eq none v h = absurd (cc)

taken_if :
    {A : Type 0} (passed : Bool) (a : A) (e : Refusal) (b : A)
    → (if passed then ok a else thrown e) ≡ ok b
    → (passed ≡ true) × (a ≡ b)
taken_if true a e b h = (refl, ok-injective h)
taken_if false a e b h = absurd (cc)

bounded_identifier-eq :
    (v : Value) (maximum : ℕ) (s : Text)
    → bounded_identifier v maximum ≡ ok s
    → (v ≡ string s) × (is_bounded_identifier s maximum ≡ true)
unfolding bounded_identifier
bounded_identifier-eq (string t) maximum s h =
    let (bounded, e) = taken_if (is_bounded_identifier t maximum) t _ s h in
    (ap string e, subst (λ (u : Text). is_bounded_identifier u maximum ≡ true) e bounded)
bounded_identifier-eq _ maximum s h = absurd (cc)

is_true-eq : (v : Value) → is_true v ≡ true → v ≡ boolean true
unfolding is_true
is_true-eq (boolean true) h = refl
is_true-eq _ h = absurd (cc)

field-eq :
    (d : Option Descriptor) (v : Value) (maximum : ℕ) (s : Text)
    → read_data_property d ≡ ok v
    → bounded_identifier v maximum ≡ ok s
    → (d ≡ some (data_property (string s) true)) × IsIdentifier s maximum
field-eq d v maximum s read taken =
    let (e, bounded) = bounded_identifier-eq v maximum s taken in
    (
      read_data_property-eq d v read ∙ ap (λ u. some (data_property u true)) e,
      is_bounded_identifier-IsIdentifier s maximum bounded,
    )

key_of_claims-HasClaims :
    (ps : Properties) (key : IdentityLinkKey) → key_of_claims ps ≡ ok key → HasClaims ps key
unfolding key_of_claims HasClaims
key_of_claims-HasClaims ps key h =
    let (exact, more) =
      guard-eq-ok (own_keys_count ps == length claim_fields && keys_within ps claim_fields) _ _ h in
    let (iv, has_issuer, more) = >>=-eq-ok (read_data_property (own ps (text "issuer"))) _ more in
    let (issuer, issuer_taken, more) = >>=-eq-ok (bounded_identifier iv max_issuer_length) _ more in
    let (sv, has_subject, more) = >>=-eq-ok (read_data_property (own ps (text "subject"))) _ more in
    let (subject, subject_taken, more) =
      >>=-eq-ok (bounded_identifier sv max_subject_length) _ more in
    let (ev, has_verified, more) =
      >>=-eq-ok (read_data_property (own ps (text "emailVerified"))) _ more in
    let (verified, last) = guard-eq-ok (is_true ev) _ _ more in
    let (issuer_field, issuer_bounded) =
      field-eq (own ps (text "issuer")) iv max_issuer_length issuer has_issuer issuer_taken in
    let (subject_field, subject_bounded) =
      field-eq (own ps (text "subject")) sv max_subject_length subject has_subject subject_taken in
    let e = ok-injective last in
    (
      exact,
      issuer_field ∙ ap (λ (k : IdentityLinkKey). some (data_property (string k.issuer) true)) e,
      subst (λ (k : IdentityLinkKey). IsIdentifier k.issuer max_issuer_length) e issuer_bounded,
      subject_field ∙ ap (λ (k : IdentityLinkKey). some (data_property (string k.subject) true)) e,
      subst (λ (k : IdentityLinkKey). IsIdentifier k.subject max_subject_length) e subject_bounded,
      read_data_property-eq (own ps (text "emailVerified")) ev has_verified
          ∙ ap (λ v. some (data_property v true)) (is_true-eq ev verified),
    )

key_of_claims_taken :
    (ps : Properties) (key : IdentityLinkKey) → HasClaims ps key → key_of_claims ps ≡ ok key
unfolding key_of_claims HasClaims read_data_property bounded_identifier is_true
key_of_claims_taken ps key (exact, issuer, issuer_bounded, subject, subject_bounded, verified) =
    rw (
      exact,
      issuer,
      is_bounded_identifier_taken key.issuer max_issuer_length issuer_bounded,
      subject,
      is_bounded_identifier_taken key.subject max_subject_length subject_bounded,
      verified,
    )

-- Verified identity claims give a key exactly if they are a plain object with the three fields and no other, all
-- own enumerable data: the verification of the address, and the key's issuer and subject, each a nonblank string
-- of bounded length, well formed and without control characters.
pub identity_claims_key :
    (claims : Value) (key : IdentityLinkKey)
    → (identity_link_key_from_verified_identity_claims claims ≡ ok key)
      ↔ ((ps : Properties) × (claims ≡ object true ps) × HasClaims ps key)
unfolding identity_link_key_from_verified_identity_claims
identity_claims_key claims key = (only claims, λ h. taken claims h)
  where
    only :
        (v : Value)
        → identity_link_key_from_verified_identity_claims v ≡ ok key
        → (ps : Properties) × (v ≡ object true ps) × HasClaims ps key
    only (object true ps) h = (ps, refl, key_of_claims-HasClaims ps key h)
    only _ h = absurd (cc)

    taken :
        (v : Value)
        → (ps : Properties) × (v ≡ object true ps) × HasClaims ps key
        → identity_link_key_from_verified_identity_claims v ≡ ok key
    taken v (ps, e, has) = rw e (key_of_claims_taken ps key has)
