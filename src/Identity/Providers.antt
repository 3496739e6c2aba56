-- ===== src/Identity/Providers.antt =====
-- packages/auth0/src/index.ts, packages/entra/src/index.ts: exactly which claims give which key.
use authorization_core.Common.{
  Bool, true, false, Option, some, [], ◌∷◌, ◌++◌, ◌≡◌, refl, ◌∙◌, ap, subst, ◌↔◌, arith, ok, thrown,
  >>=-eq-ok, >>-eq-ok, guard-eq-ok, ok-injective, Bool-cases, inl, inr, if◌then◌else◌,
}
use authorization_core.Text.{Text, text, same}
use authorization_core.Text.Order.{same_refl, eq_of_same}
use authorization_core.Js.{
  Value, string, object, array, Descriptor, data_property, own_of, is_blank,
}
use authorization_core.Contracts.{IdentityLinkKey}
use authorization_core.Identity.{
  Refusal, is_object, read_own_string_claim, string_claim, ends_with, v2_issuer_suffix,
  assert_v2_issuer, identity_link_key_from_verified_entra_claims,
  identity_link_key_from_verified_auth0_claims,
}

-- An own data property of the claims that holds the string, which is not blank.
pub HasString : Value → Text → Text → Type 0
HasString claims field s =
    ((enumerable : Bool) × (own_of claims field ≡ some (data_property (string s) enumerable)))
    × (is_blank s ≡ false)

taken_unless :
    (refused : Bool) (t : Text) (e : Refusal) (s : Text)
    → (if refused then thrown e else ok t) ≡ ok s
    → (refused ≡ false) × (t ≡ s)
taken_unless false t e s h = (refl, ok-injective h)
taken_unless true t e s h = absurd (cc)

string_claim-eq :
    (d : Option Descriptor) (field s : Text)
    → string_claim d field ≡ ok s
    → ((enumerable : Bool) × (d ≡ some (data_property (string s) enumerable)))
      × (is_blank s ≡ false)
unfolding string_claim
string_claim-eq (some (data_property (string t) e)) field s h =
    let (filled, t-eq) = taken_unless (is_blank t) t _ s h in
    (
      (e, ap (λ (u : Text). some (data_property (string u) e)) t-eq),
      subst (λ (u : Text). is_blank u ≡ false) t-eq filled,
    )
string_claim-eq _ field s h = absurd (cc)

claim_read :
    (claims : Value) (field s : Text)
    → read_own_string_claim claims field ≡ ok s
    → HasString claims field s
unfolding read_own_string_claim HasString
claim_read claims field s h = string_claim-eq (own_of claims field) field s h

claim_taken :
    (claims : Value) (field s : Text)
    → HasString claims field s
    → read_own_string_claim claims field ≡ ok s
unfolding read_own_string_claim HasString string_claim
claim_taken claims field s ((e, owned), filled) = rw (owned, filled)

claims_object :
    (claims : Value) (field s : Text) → HasString claims field s → is_object claims ≡ true
unfolding is_object HasString own_of
claims_object (object p ps) field s h = refl
claims_object (array p ss ps) field s h = refl
claims_object _ field s ((e, owned), filled) = absurd (cc)

-- A string that ends with another is one followed by the other.
ends_with-eq :
    (s suffix : Text) → ends_with s suffix ≡ true → (start : Text) × (s ≡ start ++ suffix)
unfolding ends_with
ends_with-eq [] suffix h = ([], eq_of_same [] suffix h)
ends_with-eq (c ∷ s) suffix h = elim (Bool-cases (same (c ∷ s) suffix)) [
  | inl whole ↦ ([], eq_of_same (c ∷ s) suffix whole)
  | inr later ↦
      let (start, e) = ends_with-eq s suffix (ground (arith, h, later)) in
      (c ∷ start, ap (λ t. c ∷ t) e)
]

ends_with-append : (start suffix : Text) → ends_with (start ++ suffix) suffix ≡ true
unfolding ends_with same
ends_with-append [] [] = refl
ends_with-append [] (d ∷ suffix) = rw (same_refl (d ∷ suffix))
ends_with-append (c ∷ start) suffix = ground (arith, ends_with-append start suffix)

accepted_only :
    (is_v2 is_v1 : Bool) (e f : Refusal)
    → (if is_v2 then ok tt else (if is_v1 then thrown e else thrown f)) ≡ ok (tt {0})
    → is_v2 ≡ true
accepted_only true is_v1 e f h = refl
accepted_only false true e f h = absurd (cc)
accepted_only false false e f h = absurd (cc)

v2_issuer :
    (issuer : Text)
    → assert_v2_issuer issuer ≡ ok tt
    → (start : Text) × (issuer ≡ start ++ v2_issuer_suffix)
unfolding assert_v2_issuer
v2_issuer issuer h =
    ends_with-eq issuer v2_issuer_suffix (accepted_only (ends_with issuer v2_issuer_suffix) _ _ _ h)

v2_issuer_taken :
    (issuer start : Text) → issuer ≡ start ++ v2_issuer_suffix → assert_v2_issuer issuer ≡ ok tt
unfolding assert_v2_issuer
v2_issuer_taken issuer start e =
    let ending : ends_with issuer v2_issuer_suffix ≡ true =
      ap (λ (u : Text). ends_with u v2_issuer_suffix) e ∙ ends_with-append start v2_issuer_suffix in
    rw ending

-- Auth0 claims give a key exactly if its issuer and its subject are nonblank strings that `iss` and `sub` hold.
pub auth0_claims_key :
    (claims : Value) (key : IdentityLinkKey)
    → (identity_link_key_from_verified_auth0_claims claims ≡ ok key)
      ↔ (HasString claims (text "iss") key.issuer × HasString claims (text "sub") key.subject)
unfolding identity_link_key_from_verified_auth0_claims
auth0_claims_key claims key = (λ h. only h, λ h. taken h.0 h.1)
  where
    only :
        identity_link_key_from_verified_auth0_claims claims ≡ ok key
        → HasString claims (text "iss") key.issuer × HasString claims (text "sub") key.subject
    only h =
        let (is_an_object, more) = guard-eq-ok (is_object claims) _ _ h in
        let (issuer, issuer_read, more) =
          >>=-eq-ok (read_own_string_claim claims (text "iss")) _ more in
        let (subject, subject_read, last) =
          >>=-eq-ok (read_own_string_claim claims (text "sub")) _ more in
        let e = ok-injective last in
        (
          claim_read claims (text "iss") key.issuer
              (issuer_read ∙ ap (λ (k : IdentityLinkKey). ok k.issuer) e),
          claim_read claims (text "sub") key.subject
              (subject_read ∙ ap (λ (k : IdentityLinkKey). ok k.subject) e),
        )

    taken :
        HasString claims (text "iss") key.issuer
        → HasString claims (text "sub") key.subject
        → identity_link_key_from_verified_auth0_claims claims ≡ ok key
    taken issuer subject = rw (
      claims_object claims (text "iss") key.issuer issuer,
      claim_taken claims (text "iss") key.issuer issuer,
      claim_taken claims (text "sub") key.subject subject,
    )

-- Entra claims give a key exactly if its issuer and its subject are nonblank strings that `iss` and `oid` hold, and
-- the issuer ends with "/v2.0".
pub entra_claims_key :
    (claims : Value) (key : IdentityLinkKey)
    → (identity_link_key_from_verified_entra_claims claims ≡ ok key) ↔ (
        HasString claims (text "iss") key.issuer
        × HasString claims (text "oid") key.subject
        × ((start : Text) × (key.issuer ≡ start ++ v2_issuer_suffix)))
unfolding identity_link_key_from_verified_entra_claims
entra_claims_key claims key = (λ h. only h, λ h. taken h.0 h.1 h.2.0 h.2.1)
  where
    only :
        identity_link_key_from_verified_entra_claims claims ≡ ok key
        → HasString claims (text "iss") key.issuer
          × HasString claims (text "oid") key.subject
          × ((start : Text) × (key.issuer ≡ start ++ v2_issuer_suffix))
    only h =
        let (is_an_object, more) = guard-eq-ok (is_object claims) _ _ h in
        let (issuer, issuer_read, more) =
          >>=-eq-ok (read_own_string_claim claims (text "iss")) _ more in
        let (subject, subject_read, more) =
          >>=-eq-ok (read_own_string_claim claims (text "oid")) _ more in
        let (accepted, last) = >>-eq-ok (assert_v2_issuer issuer) _ more in
        let e = ok-injective last in
        (
          claim_read claims (text "iss") key.issuer
              (issuer_read ∙ ap (λ (k : IdentityLinkKey). ok k.issuer) e),
          claim_read claims (text "oid") key.subject
              (subject_read ∙ ap (λ (k : IdentityLinkKey). ok k.subject) e),
          v2_issuer key.issuer
              (subst (λ (k : IdentityLinkKey). assert_v2_issuer k.issuer ≡ ok tt) e accepted),
        )

    taken :
        HasString claims (text "iss") key.issuer
        → HasString claims (text "oid") key.subject
        → (start : Text) → key.issuer ≡ start ++ v2_issuer_suffix
        → identity_link_key_from_verified_entra_claims claims ≡ ok key
    taken issuer subject start ending = rw (
      claims_object claims (text "iss") key.issuer issuer,
      claim_taken claims (text "iss") key.issuer issuer,
      claim_taken claims (text "oid") key.subject subject,
      v2_issuer_taken key.issuer start ending,
    )
