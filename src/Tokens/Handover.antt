-- ===== src/Tokens/Handover.antt =====
-- packages/tokens/src/issuer.ts against packages/tokens/src/verifier.ts: what the issuer signs is what
-- a verifier set up for it reads and accepts.
use authorization_core.Common.{
  ℕ, ◌+◌, ◌-◌, ltb, leb, ◌≤◌, ◌<◌, true, false, ◌&&◌, Option, some, List, [], ◌∷◌, ok, ◌≡◌, refl,
  subst, arith, all, is_nil,
}
use authorization_core.Text.{Text, text, includes}
use authorization_core.Text.Order.{same_refl}
use authorization_core.Text.Sorting.{IsSorted}
use authorization_core.Js.{
  Value, string, number, nonneg, object, Properties, end, property, name, data_property, own_of,
}
use authorization_core.Core.Typed.{slots_of, array_of}
use authorization_core.Tokens.{
  Base64Url, Reading, is_permission, is_policy_version, is_policy_digest, is_bounded_identity,
  is_numeric_date, ascending, is_canonical_permissions, is_canonical_base64url32,
}
use authorization_core.Tokens.Clock.{Clock}
use authorization_core.Tokens.Issuer.{
  Issuer, Claims, Window, Admitted, BoundSourceAuthorization, check_request, issue_payload,
  permissions_of, payload_of, is_bound_here, is_well_formed,
}
use authorization_core.Tokens.Verifier.{
  Verifier, strings_of, permissions_value, parse_claims, is_accepted,
}
use authorization_core.Tokens.Grants.{IsLeast, check_request-IsLeast, all_of_included}
use authorization_core.Tokens.Lifetime.{Fits, issue_payload_made}

abbrev put_text : Text → Text → Properties → Properties
put_text k t ps = property (name k) (data_property (string t) true) ps

abbrev put_number : Text → ℕ → Properties → Properties
put_number k n ps = property (name k) (data_property (number (nonneg n)) true) ps

-- The object that the issuer writes as JSON.
unfoldable pub claims_object : Claims → Value
claims_object c = object true (
    put_text (text "iss") c.iss (
      put_text (text "application_id") c.application_id (
        put_text (text "aud") c.aud (
          put_text (text "sub") c.sub (
            put_number (text "exp") c.exp (
              put_number (text "iat") c.iat (
                put_text (text "jti") c.jti (
                  put_number (text "profile_version") 1 (
                    put_text (text "policy_version") c.policy_version (
                      put_text (text "policy_digest") c.policy_digest (
                        property (name (text "permissions"))
                          (data_property (array_of c.permissions) true) end)))))))))))

strings_of-slots_of : (ps : List Text) → strings_of (slots_of ps) ≡ some ps
unfolding strings_of
strings_of-slots_of [] = refl
strings_of-slots_of (p ∷ ps) = rw (strings_of-slots_of ps)

IsSorted-ascending :
    (ps : List Text) → all is_permission ps ≡ true → IsSorted ps → ascending ps ≡ true
unfolding ascending
IsSorted-ascending [] h s = refl
IsSorted-ascending (p ∷ []) h s = ground arith
IsSorted-ascending (p ∷ q ∷ ps) h (a, s) =
    ground (arith, IsSorted-ascending (q ∷ ps) (ground arith) s, a.0)

-- The form of each claim.
pub record IsFormed (b : Base64Url) (c : Claims) : Type 0 where
  pub iss : is_nil c.iss ≡ false
  pub application_id : is_bounded_identity c.application_id ≡ true
  pub aud : is_nil c.aud ≡ false
  pub sub : is_bounded_identity c.sub ≡ true
  pub exp : is_numeric_date c.exp ≡ true
  pub iat : is_numeric_date c.iat ≡ true
  pub lasts : c.iat < c.exp
  pub short : c.exp ≤ c.iat + 30
  pub jti : is_canonical_base64url32 b c.jti ≡ true
  pub policy_version : is_policy_version c.policy_version ≡ true
  pub policy_digest : is_policy_digest c.policy_digest ≡ true
  pub permissions : is_canonical_permissions c.permissions ≡ true

permissions_value-array_of :
    (ps : List Text)
    → is_canonical_permissions ps ≡ true
    → permissions_value (array_of ps) ≡ some ps
unfolding permissions_value
permissions_value-array_of ps h = rw (strings_of-slots_of ps, permissions_value, h) refl

lifetime_lem :
    (iat exp : ℕ) → iat < exp → exp ≤ iat + 30 → (ltb iat exp && leb (exp - iat) 30) ≡ true
lifetime_lem iat exp lasts short = ground arith

parse_claims-claims_object :
    (b : Base64Url) (c : Claims) → IsFormed b c → parse_claims b (claims_object c) ≡ ok c
unfolding parse_claims claims_object own_of
parse_claims-claims_object b c f = rw (
  f.iss,
  f.application_id,
  f.aud,
  f.sub,
  f.exp,
  f.iat,
  lifetime_lem c.iat c.exp f.lasts f.short,
  f.jti,
  f.policy_version,
  f.policy_digest,
  permissions_value-array_of c.permissions f.permissions,
)

IsFormed-payload_of :
    (b : Base64Url) (i : Issuer) (a : Admitted) (asked : List Text) {n m : ℕ} {w : Window}
    → is_nil i.issuer_name ≡ false
    → is_bounded_identity i.application_id ≡ true
    → is_nil a.audience ≡ false
    → is_well_formed a.source ≡ true
    → IsLeast i a.audience asked a.source a.requested
    → is_canonical_base64url32 b a.jti ≡ true
    → Fits a.source.expires_at_monotonic_ms n m w
    → IsFormed b (payload_of i a w)
unfolding payload_of is_well_formed is_canonical_permissions
IsFormed-payload_of b i a asked named bounded heard formed least identified fits = record {
  iss = named;
  application_id = bounded;
  aud = heard;
  sub = ground arith;
  exp = ground (arith, fits.dates);
  iat = ground (arith, fits.dates);
  lasts = fits.lasts;
  short = fits.short;
  jti = identified;
  policy_version = ground arith;
  policy_digest = ground arith;
  permissions =
      ground (arith, least.some_granted, IsSorted-ascending a.requested least.formed least.sorted);
}

payload_of-is_accepted :
    (i : Issuer) (a : Admitted) (w : Window) (v : Verifier)
    → is_bound_here i a.source ≡ true
    → all (includes v.permissions) a.requested ≡ true
    → v.issuer ≡ i.issuer_name
    → v.application_id ≡ i.application_id
    → v.audience ≡ a.audience
    → v.policies ≡ i.accepted_policies
    → is_accepted v (payload_of i a w) ≡ true
unfolding is_accepted payload_of is_bound_here
payload_of-is_accepted i a w v here held e_issuer e_application e_audience e_policies =
    let one = same_refl i.issuer_name in
    let two = same_refl i.application_id in
    let three = same_refl a.audience in
    rw (e_issuer, e_application, e_audience, e_policies, one, two, three)
      (ground (arith, held, here))

-- What an issuer has admitted and dated, and a verifier reads: the verifier reads back the claims that
-- were signed; and it accepts them when it is set up with the issuer's name, application and
-- policies, with the audience of the request, and with every permission that the issuer allows for
-- it. The issuer's names are of the profile's form and its identifier is canonical.
pub handover :
    (b : Base64Url) (i : Issuer) (c before_payload : Clock)
    (found : Option BoundSourceAuthorization) (a : Admitted) (asked : List Text)
    (wall monotonic : Reading) (v : Verifier) {claims : Claims}
    → is_nil i.issuer_name ≡ false
    → is_bounded_identity i.application_id ≡ true
    → is_nil a.audience ≡ false
    → check_request i c found a.audience asked ≡ ok (a.source, a.requested)
    → is_canonical_base64url32 b a.jti ≡ true
    → (issue_payload i before_payload a (ok tt) wall monotonic).1 ≡ ok claims
    → v.issuer ≡ i.issuer_name
    → v.application_id ≡ i.application_id
    → v.audience ≡ a.audience
    → v.policies ≡ i.accepted_policies
    → ((allowed : List Text) (p : Text)
        → permissions_of i.audience_permissions a.audience ≡ some allowed
        → includes allowed p ≡ true
        → includes v.permissions p ≡ true)
    → (parse_claims b (claims_object claims) ≡ ok claims) × (is_accepted v claims ≡ true)
handover b i c before_payload found a asked wall monotonic v named bounded heard checked identified
      issued e_issuer e_application e_audience e_policies allows =
    let (of_source, own, here, formed, least) =
      check_request-IsLeast i c found a.audience asked checked in
    let (n, m, w, known, read, fits, made) =
      issue_payload_made i before_payload a (ok tt) wall monotonic issued in
    let held =
      all_of_included (includes v.permissions) a.requested
        (λ p k. allows least.allowed p least.configured (least.held p k).1) in
    subst
      (λ claims.
        (parse_claims b (claims_object claims) ≡ ok claims) × (is_accepted v claims ≡ true))
      made
      (
        parse_claims-claims_object b (payload_of i a w)
            (IsFormed-payload_of b i a asked named bounded heard formed least identified fits),
        payload_of-is_accepted i a w v here held e_issuer e_application e_audience e_policies,
      )
