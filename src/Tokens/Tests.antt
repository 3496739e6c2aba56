-- ===== src/Tokens/Tests.antt =====
-- Examples of packages/tokens: an issuer, its source, a grant and a verifier; and a key cache.
use authorization_core.Common.{
  ℕ, zero, suc, ◌++◌, ◌-◌, ◌*◌, ◌+◌, ◌≤◌, ◌<◌, true, false, Option, none, some, List, [], ◌∷◌, ok,
  thrown, ◌≡◌, ◌≢◌, ap, refl, arith, All, if◌then◌else◌,
}
use mathlib.Core.List.{Memᴰ}
use authorization_core.Text.{Text, text, same, before, includes, sort, distinct}
use authorization_core.Js.{trim}
use authorization_core.Storage.Keys.{EntityKey}
use authorization_core.Storage.Store.{Inserts, replied, same_key}
use authorization_core.Tokens.{
  Checked, finite, has_policy, is_numeric_date, Base64Url, is_bounded_identity,
  is_canonical_base64url32, is_policy_version, is_policy_digest, is_canonical_permissions,
  is_permission, canonical_permissions,
}
use authorization_core.Tokens.Clock.{new_clock, sample, earlier}
use authorization_core.Tokens.Issuer.{
  Issuer, Claims, Admitted, BoundSourceAuthorization, application, check_request, issue_payload,
  permissions_of, nominal_lifetime_seconds,
}
use authorization_core.Tokens.Verifier.{
  Verifier, parse_claims, is_accepted, require_grant_time_window,
}
use authorization_core.Storage.Safety.KeyLaws.{same_key_refl}
use authorization_core.Tokens.StorageKeys.{access_grant_replay_key, encode_storage_key_part}
use authorization_core.Tokens.Replay.{
  AccessGrantReplayRecord, AccessGrantJtiReservation, key_of_replay, key_of_reservation,
  may_consume, consumed_by, reserved_by,
}
use authorization_core.Tokens.Replay.Once.{Step, refused, asked, lost, stop, step}
use authorization_core.Tokens.Consumption.{
  Consumptions, Reservations, SameGrant, HasUnits, consumed_by_refuses, consumed_by_fails,
  consume_once, consume_fresh, reserve_once,
}
use authorization_core.Tokens.Jwks.{
  JwksCache, Keys, new_cache, assert_active, Event, resolves, settles, run,
}
use authorization_core.Tokens.Jwks.Runs.{documents, assert_active-run}
use authorization_core.Tokens.Lifetime.{grant_within_deadline, issue_payload-taken}
use authorization_core.Tokens.Handover.{claims_object, handover}
use authorization_core.Tokens.Issuance.{Course}

abbrev pub repeated : ℕ → ℕ → Text
repeated zero c = []
repeated (suc n) c = c ∷ repeated n c

-- A base64url that knows one identifier.
abbrev one_code : Base64Url
one_code = record { encode = λ bytes. repeated 43 65; decode = λ t. some (repeated 32 0) }

abbrev pub digest : Text
digest = text "sha256:" ++ repeated 64 97

abbrev ada_source : BoundSourceAuthorization
ada_source = record {
  owner = 7;
  application_id = text "shop";
  context = record {
    principal_id = text "ada";
    policy_version = text "v1";
    roles = [];
    entitlements = [];
    permissions = text "read" ∷ text "write" ∷ [];
  };
  policy_digest = digest;
  scope = application;
  expires_at_monotonic_ms = 60000;
}

abbrev shop_issuer : Issuer
shop_issuer = record {
  owner = 7;
  issuer_name = text "https://shop";
  application_id = text "shop";
  audience_permissions = (text "api", text "read" ∷ []) ∷ [];
  accepted_policies = record { version = text "v1"; digest = digest } ∷ [];
}

abbrev ada_admitted : Admitted
ada_admitted = record {
  source = ada_source;
  audience = text "api";
  requested = text "read" ∷ [];
  jti = repeated 43 65;
}

abbrev pub ada_claims : Claims
ada_claims = record {
  iss = text "https://shop";
  application_id = text "shop";
  aud = text "api";
  sub = text "ada";
  exp = 1030;
  iat = 1000;
  jti = repeated 43 65;
  policy_version = text "v1";
  policy_digest = digest;
  permissions = text "read" ∷ [];
}

ada_issued :
    (issue_payload shop_issuer new_clock ada_admitted (ok tt) (finite 1000000) (finite 2000)).1
    ≡ ok ada_claims
unfolding issue_payload sample nominal_lifetime_seconds
ada_issued = refl

in_time : require_grant_time_window (finite 1020000) ada_claims ≡ ok tt
unfolding require_grant_time_window
in_time = refl

grant_within_deadline_example : (2000 + 25000 < 60000) × (1000 < 1030) × (1030 ≤ 1000 + 30)
grant_within_deadline_example =
    grant_within_deadline shop_issuer new_clock ada_admitted (ok tt) 1000000 2000 1020000 25000
      ada_issued (omega arith) in_time

issue_payload-taken_example :
    (claims : Claims) × ((issue_payload shop_issuer new_clock ada_admitted
        (ok tt)
        (finite 1000000)
        (finite 2000)).1
      ≡ ok claims)
    × ((v : ℕ)
        → 1000000 ≤ v + 5000
        → v ≤ 1000000 + 1000 * (20 - 1)
        → require_grant_time_window (finite v) claims ≡ ok tt)
unfolding earlier
issue_payload-taken_example =
    issue_payload-taken shop_issuer new_clock ada_admitted 1000000 2000 20 refl refl (omega arith)
      (omega arith) (omega arith) (omega arith) (omega arith)

ada_checked :
    check_request shop_issuer new_clock (some ada_source) (text "api") (text "read" ∷ [])
    ≡ ok (ada_source, text "read" ∷ [])
unfolding check_request canonical_permissions same has_policy is_bounded_identity trim
    is_policy_version is_policy_digest is_canonical_permissions is_permission before sort distinct
ada_checked = refl

ada_identified : is_canonical_base64url32 one_code (repeated 43 65) ≡ true
unfolding is_canonical_base64url32 same
ada_identified = refl

shop_named : is_bounded_identity (text "shop") ≡ true
unfolding is_bounded_identity same trim
shop_named = refl

abbrev pub api_verifier : Verifier
api_verifier = record {
  issuer = text "https://shop";
  application_id = text "shop";
  audience = text "api";
  permissions = text "read" ∷ [];
  policies = record { version = text "v1"; digest = digest } ∷ [];
}

api_allows :
    (allowed : List Text) (p : Text)
    → permissions_of shop_issuer.audience_permissions (text "api") ≡ some allowed
    → includes allowed p ≡ true
    → includes (text "read" ∷ []) p ≡ true
unfolding permissions_of same
api_allows allowed p h k = cc

handover_example :
    (parse_claims one_code (claims_object ada_claims) ≡ ok ada_claims)
    × (is_accepted api_verifier ada_claims ≡ true)
handover_example =
    handover one_code shop_issuer new_clock new_clock (some ada_source) ada_admitted
      (text "read" ∷ []) (finite 1000000) (finite 2000) api_verifier refl shop_named refl
      ada_checked ada_identified ada_issued refl refl refl refl api_allows

abbrev ada_course : Course
ada_course = record {
  clock = new_clock;
  wall = finite 999000;
  monotonic = finite 1000;
  random = repeated 32 0;
  reserved = λ reservation. ok tt;
  clock_reserved = new_clock;
  wall_reserved = finite 1000000;
  monotonic_reserved = finite 2000;
  sign = λ claims. text "compact";
  clock_signed = new_clock;
  wall_signed = finite 1001000;
  monotonic_signed = finite 3000;
}

-- Nothing is stored yet, and then the first grant is.
abbrev no_rows : EntityKey → Option AccessGrantReplayRecord
no_rows k = none

abbrev ada_consumption : AccessGrantReplayRecord
ada_consumption = record {
  issuer = text "https://shop";
  application_id = text "shop";
  audience = text "api";
  jti = repeated 43 65;
  retain_through = 1035;
}

abbrev bob_consumption : AccessGrantReplayRecord
bob_consumption = record ada_consumption { jti = repeated 43 66 }

module _ {A : Type 0} (key : EntityKey) (value : A) where
  abbrev one_row : (EntityKey → Option A) → EntityKey → Option A
  one_row rows k = if same_key key k then some value else rows k

  one_row-Inserts :
      (rows : EntityKey → Option A)
      → rows key ≡ none
      → Inserts key value rows (one_row rows) (record { inserted = true; value = value })
  one_row-Inserts rows free = record {
    stored = rw (same_key_refl key);
    free = λ h. refl;
    taken = λ x h. absurd (cc (free, h));
    flag = λ h. free;
    others = λ k other. rw other;
  }

ada_consumed :
    Step key_of_replay may_consume consumed_by consumed_by_refuses consumed_by_fails no_rows
      ada_consumption
      (ok tt)
      (one_row (key_of_replay ada_consumption) ada_consumption no_rows)
unfolding consumed_by may_consume is_numeric_date same
ada_consumed =
    asked {a = ada_consumption} (finite 1001000)
      (record { inserted = true; value = ada_consumption }) refl
      (one_row-Inserts (key_of_replay ada_consumption) ada_consumption no_rows refl)

abbrev too_late : Checked (Unit {0})
too_late = thrown (text "access-grant replay retention window has passed")

ada_run :
    Consumptions no_rows
      ((ada_consumption, ok tt) ∷ (ada_consumption, too_late) ∷ [])
      (one_row (key_of_replay ada_consumption) ada_consumption no_rows)
unfolding may_consume is_numeric_date
ada_run = step ada_consumed (
    step
      (refused {a = ada_consumption} {e = text "access-grant replay retention window has passed"}
        (finite 2000000) refl)
      stop)

consume_once_example :
    All
      (λ (e : AccessGrantReplayRecord × Checked (Unit {0})).
        SameGrant e.0 ada_consumption → e.1 ≢ ok tt)
      ((ada_consumption, too_late) ∷ [])
consume_once_example = consume_once ada_run

bob_units : HasUnits bob_consumption
bob_units = (omega arith, omega arith, omega arith)

bob_differs : ¬ SameGrant ada_consumption bob_consumption
unfolding same
bob_differs (i, a, u, j) = ground (arith, ap (λ t. same t (repeated 43 66)) j)

bob_free :
    one_row (key_of_replay ada_consumption) ada_consumption no_rows (key_of_replay bob_consumption)
    ≡ none
unfolding key_of_replay access_grant_replay_key same encode_storage_key_part
bob_free = refl

consume_fresh_example :
    consumed_by bob_consumption (replied (record { inserted = true; value = bob_consumption }))
    ≡ ok tt
consume_fresh_example =
    consume_fresh bob_consumption (record { inserted = true; value = bob_consumption }) refl ada_run
      bob_units ((bob_units, bob_differs), ((bob_units, bob_differs), tt))
      (one_row-Inserts (key_of_replay bob_consumption) bob_consumption
        (one_row (key_of_replay ada_consumption) ada_consumption no_rows) bob_free)
      (λ h. refl)

abbrev ada_reservation : AccessGrantJtiReservation
ada_reservation = record {
  issuer = text "https://shop";
  application_id = text "shop";
  jti = repeated 43 65;
}

abbrev no_reservations : EntityKey → Option AccessGrantJtiReservation
no_reservations k = none

abbrev lost_reply : Checked (Unit {0})
lost_reply = thrown (text "access-grant identifier reservation failed")

ada_reserved :
    Reservations no_reservations
      ((ada_reservation, ok tt) ∷ (ada_reservation, lost_reply) ∷ [])
      (one_row (key_of_reservation ada_reservation) ada_reservation no_reservations)
unfolding reserved_by same
ada_reserved =
    step
      (asked tt (record { inserted = true; value = ada_reservation }) refl
        (one_row-Inserts (key_of_reservation ada_reservation) ada_reservation no_reservations refl))
      (step (lost tt refl (record { kept = λ k x h. h }) (λ k h. refl)) stop)

reserve_once_example :
    All
      (λ (e : AccessGrantJtiReservation × Checked (Unit {0})). e.0 ≡ ada_reservation → e.1 ≢ ok tt)
      ((ada_reservation, lost_reply) ∷ [])
reserve_once_example = reserve_once ada_reserved

abbrev empty_cache : JwksCache
empty_cache = record {
  max_age_ms = 60000;
  keys = none;
  loaded_at_ms = none;
  last_observed_ms = none;
  clock_failed = false;
  refresh_in_flight = none;
  next_unknown_kid_refresh_at_ms = none;
}

-- A caller starts a refresh at time 1000, and the load settles.
abbrev loading : List Event
loading = resolves (text "key") (finite 1000) ∷ settles (ok ((text "key", 5) ∷ [])) ∷ []

cache_made : new_cache 60000 ≡ ok empty_cache
unfolding new_cache
cache_made = refl

cache_active : (assert_active (run empty_cache loading) (finite 2000)).1 ≡ ok tt
unfolding assert_active run earlier
cache_active = refl

assert_active-run_example :
    (n : ℕ) × (keys : Keys) × ((run empty_cache loading).keys ≡ some keys)
    × Memᴰ (n, keys) (documents empty_cache loading [])
    × ((run empty_cache loading).clock_failed ≡ false)
    × (n ≤ 2000)
    × (2000 < n + (run empty_cache loading).max_age_ms)
    × (2000 < n + 60000)
assert_active-run_example = assert_active-run 60000 loading 2000 cache_made cache_active
