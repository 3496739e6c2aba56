-- ===== src/Tokens/Issuance.antt =====
-- packages/tokens/src/issuer.ts: one call of `issue` from its input to the compact grant.
use authorization_core.Common.{
  some, false, ℕ, ◌/◌, ◌<◌, true, Option, List, ok, ◌>>=◌, ◌≡◌, leb, length,
}
use mathlib.Core.List.{Memᴰ}
use authorization_core.Text.{Text}
use authorization_core.Tokens.{
  AcceptedAccessGrantPolicy, Checked, Reading, finite, Base64Url, is_canonical_base64url32,
}
use authorization_core.Tokens.Clock.{Clock}
use authorization_core.Tokens.Issuer.{
  application, Issuer, Claims, Window, Admitted, BoundSourceAuthorization, check_request,
  issue_admit, identified, issue_payload, issue_finish,
}
use authorization_core.Tokens.Replay.{AccessGrantJtiReservation}
use authorization_core.Tokens.Grants.{IsLeast}
use authorization_core.Tokens.Lifetime.{Fits}

-- What one call meets: the clocks as each of its parts finds them, the bytes of the random source,
-- how `jtiReservations.reserve` ends for each reservation, and the sign operation.
pub record Course : Type 0 where
  pub clock : Clock
  pub wall : Reading
  pub monotonic : Reading
  pub random : List ℕ
  pub reserved : AccessGrantJtiReservation → Checked (Unit {0})
  pub clock_reserved : Clock
  pub wall_reserved : Reading
  pub monotonic_reserved : Reading
  pub sign : Claims → Text
  pub clock_signed : Clock
  pub wall_signed : Reading
  pub monotonic_signed : Reading

-- What `issue` reserves.
unfoldable pub reservation_of : Issuer → Admitted → AccessGrantJtiReservation
reservation_of i a = record {
  issuer = i.issuer_name;
  application_id = i.application_id;
  jti = a.jti;
}

-- `issue`: the input's source is what its capability stands for.
unfoldable pub issue :
    Base64Url → Issuer → Option BoundSourceAuthorization → Text → List Text → Course → Checked Text
issue b i found audience asked t = do
  a ← (issue_admit b i t.clock found audience asked t.wall t.monotonic t.random).1
  claims ←
      (issue_payload i t.clock_reserved a (t.reserved (reservation_of i a)) t.wall_reserved
        t.monotonic_reserved).1
  (issue_finish t.clock_signed a claims (t.sign claims) t.wall_signed t.monotonic_signed).1

-- What `issue` keeps across the reservation was admitted: the identifier is made of the bytes of the
-- random source, and canonical.
pub record IsAdmitted (b : Base64Url) (i : Issuer) (c : Clock)
    (found : Option BoundSourceAuthorization) (audience : Text) (asked : List Text)
    (random : List ℕ) (a : Admitted) : Type 0 where
  pub checked : check_request i c found audience asked ≡ ok (a.source, a.requested)
  pub heard : a.audience ≡ audience
  pub random_size : length random ≡ 32
  pub encoded : a.jti ≡ b.encode random
  pub identified : is_canonical_base64url32 b a.jti ≡ true

-- The claims of a grant for a principal of the source, dated by a window: the names of the issuer, the
-- audience and the identifier of the request, the policy of the source, and the permissions.
pub record IsDated (i : Issuer) (s : BoundSourceAuthorization) (audience jti : Text)
    (permissions : List Text) (w : Window) (c : Claims) : Type 0 where
  pub by_issuer : c.iss ≡ i.issuer_name
  pub for_application : c.application_id ≡ i.application_id
  pub for_audience : c.aud ≡ audience
  pub for_principal : c.sub ≡ s.context.principal_id
  pub ends : c.exp ≡ w.exp
  pub begins : c.iat ≡ w.iat
  pub named : c.jti ≡ jti
  pub under_version : c.policy_version ≡ s.context.policy_version
  pub under_digest : c.policy_digest ≡ s.policy_digest
  pub grants : c.permissions ≡ permissions

-- A source that an issuer takes: one of its own while its clock stands, for its application, of an
-- application's scope, and under one of the accepted policies.
pub record IsOwn (i : Issuer) (c : Clock) (s : BoundSourceAuthorization) : Type 0 where
  pub owned : s.owner ≡ i.owner
  pub standing : c.failed ≡ false
  pub here : s.application_id ≡ i.application_id
  pub scoped : s.scope ≡ application
  pub policy : AcceptedAccessGrantPolicy
  pub policy_accepted : Memᴰ policy i.accepted_policies
  pub version_agrees : s.context.policy_version ≡ policy.version
  pub digest_agrees : s.policy_digest ≡ policy.digest

-- What a call that returned has done; the numbers are what the clocks read when the claims were dated
-- and when the grant was returned.
pub record IsIssued (b : Base64Url) (i : Issuer) (found : Option BoundSourceAuthorization)
    (audience : Text) (asked : List Text) (t : Course) (compact : Text) (a : Admitted) (w : Window)
    : Type 0 where
  pub wall : ℕ
  pub monotonic : ℕ
  pub wall_signed : ℕ
  pub monotonic_signed : ℕ
  pub claims : Claims
  pub found_source : found ≡ some a.source
  pub own : IsOwn i t.clock a.source
  pub least : IsLeast i audience asked a.source a.requested
  pub random_size : length t.random ≡ 32
  pub canonical : is_canonical_base64url32 b (b.encode t.random) ≡ true
  pub reserved :
      t.reserved (record {
        issuer = i.issuer_name;
        application_id = i.application_id;
        jti = b.encode t.random;
      })
      ≡ ok tt
  pub fits : Fits a.source.expires_at_monotonic_ms wall monotonic w
  pub dated : IsDated i a.source audience (b.encode t.random) a.requested w claims
  pub signed : t.sign claims ≡ compact
  pub size : leb (length compact) 8192 ≡ true
  pub read_wall : t.wall_signed ≡ finite wall_signed
  pub read_monotonic : t.monotonic_signed ≡ finite monotonic_signed
  pub unexpired : wall_signed / 1000 < w.exp
  pub in_time : monotonic_signed < a.source.expires_at_monotonic_ms
