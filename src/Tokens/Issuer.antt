-- ===== src/Tokens/Issuer.antt =====
-- packages/tokens/src/issuer.ts: source reads and their capabilities, and `issue` in the three parts
-- that its two awaits leave; the clock that a part starts with is what other calls have left it.
-- base64url, the sign operation and the random source are parameters.

use authorization_core.Common.{
  ℕ, ◌+◌, ◌-◌, ◌/◌, Bool, true, false, not, ◌&&◌, Option, none, some, List, [], ◌∷◌, ◌==◌, leb, ltb,
  if◌then◌else◌, all, length, thrown, ok, guard, ◌>>=◌, ◌>>◌, is_nil,
}
use authorization_core.Text.{Text, text, same, includes}
use authorization_core.Contracts.{AccessContext}
use authorization_core.Tokens.{
  Checked, Reading, finite, invalid, AcceptedAccessGrantPolicy, has_policy, Base64Url,
  is_bounded_identity, is_policy_version, is_policy_digest, is_canonical_permissions,
  is_canonical_base64url32, is_numeric_date, canonical_permissions,
  max_access_grant_lifetime_seconds, max_negative_verifier_offset_seconds,
  max_compact_access_grant_length,
}
use authorization_core.Tokens.Clock.{Clock, sample}

pub data AccessGrantSourceScope : Type 0 where
  application : AccessGrantSourceScope
  organization : Text → AccessGrantSourceScope

-- The issuer's own object and domain are one identity here: each issuer makes both.
pub record BoundSourceAuthorization : Type 0 where
  pub owner : ℕ
  pub application_id : Text
  pub context : AccessContext
  pub policy_digest : Text
  pub scope : AccessGrantSourceScope
  pub expires_at_monotonic_ms : ℕ

-- What `createAccessGrantIssuerInternal` closes over, but for its clock.
pub record Issuer : Type 0 where
  pub owner : ℕ
  pub issuer_name : Text
  pub application_id : Text
  pub audience_permissions : List (Text × List Text)
  pub accepted_policies : List AcceptedAccessGrantPolicy

pub record Window : Type 0 where
  pub iat : ℕ
  pub exp : ℕ

-- `Math.min`
unfoldable pub least_of : ℕ → ℕ → ℕ
least_of a b = if leb a b then a else b

-- `nominalLifetimeSeconds`, or 0 where that is less than 1
unfoldable pub nominal_lifetime_seconds : ℕ → ℕ
unfolding least_of
nominal_lifetime_seconds remaining_ms =
    least_of max_access_grant_lifetime_seconds
      (remaining_ms / 1000 - max_negative_verifier_offset_seconds)

-- `readGrantWindow` from its samples on
unfoldable pub window_at : Reading → ℕ → ℕ → Checked Window
unfolding is_numeric_date
window_at invalid now expires = thrown (text "source authorization deadline is invalid or expired")
window_at (finite wall_now) now expires = do
  guard (ltb now expires) (text "source authorization deadline is invalid or expired")
  let lifetime = nominal_lifetime_seconds (expires - now) in
      do
        guard (leb 1 lifetime) (text "not enough source authorization lifetime remains")
        let iat = wall_now / 1000 in
            do
              guard (is_numeric_date iat && is_numeric_date (iat + lifetime))
                  (text "issuer wall clock cannot produce a valid NumericDate")
              ok (record { iat = iat; exp = iat + lifetime })

-- `readGrantWindow`
unfoldable pub read_grant_window :
    BoundSourceAuthorization → Clock → Reading → Reading → Clock × Checked Window
unfolding window_at
read_grant_window source clock wall monotonic =
    let (after, now) = sample clock monotonic in
    (after, now >>= λ n. window_at wall n source.expires_at_monotonic_ms)

unfoldable pub permissions_of : List (Text × List Text) → Text → Option (List Text)
permissions_of [] audience = none
permissions_of ((a, ps) ∷ rest) audience =
    let later = permissions_of rest audience in if same a audience then some ps else later

unfoldable pub is_application : AccessGrantSourceScope → Bool
is_application application = true
is_application (organization o) = false

-- Whether a source that was looked up is one of this issuer, whose domain stands.
unfoldable pub accepts_source : Issuer → Clock → BoundSourceAuthorization → Bool
accepts_source i clock source = source.owner == i.owner && not clock.failed

-- The permissions of a grant: those requested, where the audience's set and the source have them all.
unfoldable pub check_permissions :
    BoundSourceAuthorization → Option (List Text) → List Text → Checked (List Text)
check_permissions source none requested_permissions =
    thrown (text "access-grant audience is not configured")
check_permissions source (some allowed) requested_permissions = do
  requested ← canonical_permissions requested_permissions
  guard (not (is_nil requested)) (text "access grant must contain at least one permission")
  guard (all (λ p. includes source.context.permissions p && includes allowed p) requested)
      (text "requested permission is not authorized")
  ok requested

-- Whether the source is for this application, of an application's scope, under an accepted policy.
unfoldable pub is_bound_here : Issuer → BoundSourceAuthorization → Bool
unfolding is_application
is_bound_here i source =
    same source.application_id i.application_id
    && not (is_nil source.context.policy_version)
    && is_application source.scope
    && has_policy i.accepted_policies source.context.policy_version source.policy_digest

-- Whether the source's names and permissions are of the profile's form.
unfoldable pub is_well_formed : BoundSourceAuthorization → Bool
is_well_formed source =
    is_bounded_identity source.context.principal_id
    && is_policy_version source.context.policy_version
    && is_policy_digest source.policy_digest
    && is_canonical_permissions source.context.permissions

-- The checks of `issue` before the first window: the source of a grant and its permissions.
unfoldable pub check_request :
    Issuer
    → Clock
    → Option BoundSourceAuthorization
    → Text
    → List Text
    → Checked (BoundSourceAuthorization × List Text)
unfolding accepts_source permissions_of is_bound_here is_well_formed check_permissions
check_request i clock none audience requested_permissions =
    thrown (text "source authorization capability is invalid")
check_request i clock (some source) audience requested_permissions = do
  guard (accepts_source i clock source) (text "source authorization capability is invalid")
  guard (is_bound_here i source) (text "source authorization binding is not accepted")
  guard (is_well_formed source) (text "source authorization snapshot is malformed")
  requested ←
      check_permissions source (permissions_of i.audience_permissions audience)
        requested_permissions
  ok (source, requested)

-- What `issue` keeps across the reservation of its identifier.
pub record Admitted : Type 0 where
  pub source : BoundSourceAuthorization
  pub audience : Text
  pub requested : List Text
  pub jti : Text

-- The identifier of a grant, from the bytes of the random source.
unfoldable pub identified :
    Base64Url → BoundSourceAuthorization → Text → List Text → List ℕ → Checked Admitted
identified b source audience requested random = do
  guard (length random == 32) (text "issuer random source returned an invalid identifier")
  guard (is_canonical_base64url32 b (b.encode random))
      (text "issuer random source returned a malformed identifier")
  ok (record { source = source; audience = audience; requested = requested; jti = b.encode random })

-- `issue` from its first window to `jtiReservations.reserve`, for a request that was checked
unfoldable pub issue_checked :
    Base64Url
    → Clock
    → Text
    → Checked (BoundSourceAuthorization × List Text)
    → Reading
    → Reading
    → List ℕ
    → Clock × Checked Admitted
unfolding read_grant_window identified
issue_checked b clock audience (thrown e) wall monotonic random = (clock, thrown e)
issue_checked b clock audience (ok (source, requested)) wall monotonic random =
    let (after, window) = read_grant_window source clock wall monotonic in
    (after, window >>= λ _. identified b source audience requested random)

-- `issue` up to `jtiReservations.reserve`: the bytes are what the random source gives.
unfoldable pub issue_admit :
    Base64Url
    → Issuer
    → Clock
    → Option BoundSourceAuthorization
    → Text
    → List Text
    → Reading
    → Reading
    → List ℕ
    → Clock × Checked Admitted
unfolding check_request issue_checked
issue_admit b i clock source audience requested_permissions wall monotonic random =
    issue_checked b clock audience (check_request i clock source audience requested_permissions)
      wall monotonic random

-- The claims of a grant.
pub record Claims : Type 0 where
  pub iss : Text
  pub application_id : Text
  pub aud : Text
  pub sub : Text
  pub exp : ℕ
  pub iat : ℕ
  pub jti : Text
  pub policy_version : Text
  pub policy_digest : Text
  pub permissions : List Text

-- `payload`
unfoldable pub payload_of : Issuer → Admitted → Window → Claims
payload_of i a w = record {
  iss = i.issuer_name;
  application_id = i.application_id;
  aud = a.audience;
  sub = a.source.context.principal_id;
  exp = w.exp;
  iat = w.iat;
  jti = a.jti;
  policy_version = a.source.context.policy_version;
  policy_digest = a.source.policy_digest;
  permissions = a.requested;
}

-- `issue` from the reservation, whose outcome it is given, to the sign operation
unfoldable pub issue_payload :
    Issuer → Clock → Admitted → Checked (Unit {0}) → Reading → Reading → Clock × Checked Claims
unfolding read_grant_window payload_of
issue_payload i clock a (thrown e) wall monotonic = (clock, thrown e)
issue_payload i clock a (ok _) wall monotonic =
    let (after, window) = read_grant_window a.source clock wall monotonic in
    (after, window >>= λ w. ok (payload_of i a w))

-- `issue` after the sign operation, which has given `compact`
unfoldable pub issue_finish :
    Clock → Admitted → Claims → Text → Reading → Reading → Clock × Checked Text
unfolding read_grant_window
issue_finish clock a claims compact wall monotonic =
    if leb (length compact) max_compact_access_grant_length
    then (let (after, window) = read_grant_window a.source clock wall monotonic in
        (
          after,
          do
            w ← window
            guard (ltb w.iat claims.exp) (text "access grant expired before issuance completed")
            ok compact,
        ))
    else (clock, thrown (text "access grant exceeds the accepted compact size"))
