-- ===== src/Tokens/Jwks.antt =====
-- packages/tokens/src/jwks.ts, `JwksCache`: the parts of its methods between their awaits. A load is
-- what `#load` does; its fetch and the validation of the document are given by their outcome.
pub mod Invariant
pub mod Runs
use authorization_core.Common.{
  ℕ, ◌+◌, ◌-◌, Bool, true, false, not, ◌&&◌, ◌||◌, Option, none, some, List, [], ◌∷◌, leb, ltb,
  if◌then◌else◌, Result, thrown, ok, guard, ◌>>◌,
}
use authorization_core.Text.{Text, text, same}
use authorization_core.Tokens.{
  Checked, Reading, finite, invalid, max_jwks_cache_age_ms, unknown_kid_refresh_interval_ms,
}
use authorization_core.Tokens.Clock.{earlier}

-- A public key, by a number.
abbrev pub Key : Type 0
Key = ℕ

-- `keysByKid`
abbrev pub Keys : Type 0
Keys = List (Text × Key)

unfoldable pub key_of_kid : Keys → Text → Option Key
key_of_kid [] kid = none
key_of_kid ((k, key) ∷ rest) kid =
    let later = key_of_kid rest kid in if same k kid then some key else later

-- A refresh that was started at a time: its load goes on, or it has settled.
pub data Refresh : Type 0 where
  pending settled : ℕ → Refresh

pub record JwksCache : Type 0 where
  pub max_age_ms : ℕ
  pub keys : Option Keys
  pub loaded_at_ms : Option ℕ
  pub last_observed_ms : Option ℕ
  pub clock_failed : Bool
  pub refresh_in_flight : Option Refresh
  pub next_unknown_kid_refresh_at_ms : Option ℕ

-- `requireCacheAge` of a whole number that is not negative
unfoldable pub require_cache_age : ℕ → Checked (Unit {0})
require_cache_age age =
    guard (leb 1 age && leb age max_jwks_cache_age_ms)
      (text "JWKS cache age must be between 1 and 60000 milliseconds")

-- The constructor, for an issuer that is not empty and an endpoint that is canonical
unfoldable pub new_cache : ℕ → Checked JwksCache
unfolding require_cache_age
new_cache age = do
  require_cache_age age
  ok (record {
    max_age_ms = age;
    keys = none;
    loaded_at_ms = none;
    last_observed_ms = none;
    clock_failed = false;
    refresh_in_flight = none;
    next_unknown_kid_refresh_at_ms = none;
  })

unfoldable pub tightened : Checked (Unit {0}) → JwksCache → ℕ → JwksCache
tightened (thrown e) c age = c
tightened (ok _) c age = record c {
  max_age_ms = if leb c.max_age_ms age then c.max_age_ms else age;
}

-- `tightenMaxAge`
unfoldable pub tighten_max_age : JwksCache → ℕ → JwksCache × Checked (Unit {0})
unfolding require_cache_age tightened
tighten_max_age c age = (tightened (require_cache_age age) c age, require_cache_age age)

-- `#sample` when the clock is no time
unfoldable pub fail_clock : JwksCache → JwksCache
fail_clock c = record c { clock_failed = true; keys = none; loaded_at_ms = none }

unfoldable pub observe_jwks : JwksCache → Reading → JwksCache × Checked ℕ
unfolding fail_clock
observe_jwks c invalid =
    (fail_clock c, thrown (text "JWKS monotonic clock is invalid or regressed"))
observe_jwks c (finite now) =
    if earlier now c.last_observed_ms
    then (fail_clock c, thrown (text "JWKS monotonic clock is invalid or regressed"))
    else (record c { last_observed_ms = some now }, ok now)

-- `#sample` on what the clock reads next
unfoldable pub sample_jwks : JwksCache → Reading → JwksCache × Checked ℕ
unfolding observe_jwks
sample_jwks c reading =
    if c.clock_failed
    then (c, thrown (text "JWKS monotonic clock domain has failed"))
    else observe_jwks c reading

-- Whether the keys were loaded less than the maximal age before a time.
unfoldable pub is_fresh : JwksCache → ℕ → Bool
is_fresh c now = elim c.keys [
  | none ↦ false
  | some keys ↦ elim c.loaded_at_ms [ none ↦ false | some loaded ↦ ltb (now - loaded) c.max_age_ms ]
]

unfoldable pub active_at : JwksCache × Checked ℕ → JwksCache × Checked (Unit {0})
unfolding is_fresh
active_at (c, thrown e) = (c, thrown e)
active_at (c, ok now) = (c, guard (is_fresh c now) (text "JWKS cache is stale"))

-- `assertActive`
unfoldable pub assert_active : JwksCache → Reading → JwksCache × Checked (Unit {0})
unfolding active_at sample_jwks
assert_active c reading = active_at (sample_jwks c reading)

-- What `resolve` keeps across the refresh that it awaits, and whether it started that refresh.
pub record Waiting : Type 0 where
  pub kid : Text
  pub now : ℕ
  pub fresh : Bool
  pub known : Bool
  pub starts : Bool

-- How far a call of `resolve` has come.
pub data Progress : Type 0 where
  failed : Text → Progress
  found : Key → Progress
  waits : Waiting → Progress

unknown_key : Text
unknown_key = text "unknown access-grant signing key"

-- `#beginUnknownKidRefresh`
unfoldable pub begin_unknown_kid_refresh : JwksCache → ℕ → JwksCache × Checked (Unit {0})
unfolding unknown_key
begin_unknown_kid_refresh c now =
    if earlier now c.next_unknown_kid_refresh_at_ms then (c, thrown unknown_key) else (
      record c { next_unknown_kid_refresh_at_ms = some (now + unknown_kid_refresh_interval_ms) },
      ok tt,
    )

-- A caller joins the refresh in flight or starts one.
unfoldable pub refresh_in :
    Option Refresh → JwksCache → Text → ℕ → Bool → Bool → JwksCache × Progress
refresh_in (some r) c kid now fresh known =
    (c, waits (record { kid = kid; now = now; fresh = fresh; known = known; starts = false }))
refresh_in none c kid now fresh known = (
  record c { refresh_in_flight = some (pending now) },
  waits (record { kid = kid; now = now; fresh = fresh; known = known; starts = true }),
)

-- `#refresh` up to its await
unfoldable pub refresh : JwksCache → Text → ℕ → Bool → Bool → JwksCache × Progress
unfolding refresh_in
refresh c kid now fresh known = refresh_in c.refresh_in_flight c kid now fresh known

unfoldable pub has_kid : Option Keys → Text → Option Key
has_kid none kid = none
has_kid (some keys) kid = key_of_kid keys kid

unfoldable pub is_some : {A : Type 0} → Option A → Bool
is_some none = false
is_some (some a) = true

unfoldable pub refresh_begun :
    JwksCache × Checked (Unit {0}) → Text → ℕ → Bool → JwksCache × Progress
unfolding refresh
refresh_begun (after, thrown e) kid now fresh = (after, failed e)
refresh_begun (after, ok _) kid now fresh = refresh after kid now fresh false

-- A refresh on account of a key that is not known.
unfoldable pub refresh_unknown : JwksCache → Text → ℕ → Bool → JwksCache × Progress
unfolding refresh_begun begin_unknown_kid_refresh
refresh_unknown c kid now fresh = refresh_begun (begin_unknown_kid_refresh c now) kid now fresh

-- The keys are fresh: a key that they lack is worth a refresh.
unfoldable pub resolve_fresh : JwksCache → Text → ℕ → Option Key → JwksCache × Progress
unfolding refresh_unknown
resolve_fresh c kid now (some key) = (c, found key)
resolve_fresh c kid now none = refresh_unknown c kid now true

unfoldable pub resolve_at : JwksCache × Checked ℕ → Text → JwksCache × Progress
unfolding refresh refresh_unknown resolve_fresh has_kid is_some is_fresh
resolve_at (c, thrown e) kid = (c, failed e)
resolve_at (c, ok now) kid =
    let known = is_some (has_kid c.keys kid) in
    let stale =
      if not known && not (is_some c.refresh_in_flight)
      then refresh_unknown c kid now false
      else refresh c kid now false known in
    if is_fresh c now then resolve_fresh c kid now (has_kid c.keys kid) else stale

-- `resolve` up to its await
unfoldable pub resolve : JwksCache → Text → Reading → JwksCache × Progress
unfolding resolve_at
resolve c kid reading = resolve_at (sample_jwks c reading) kid

-- What a load that began at a time leaves: the keys of a document that is valid, unless the clock has
-- failed.
unfoldable pub load_with : JwksCache → ℕ → Checked Keys → JwksCache
load_with c now (thrown e) = record c { refresh_in_flight = some (settled now) }
load_with c now (ok keys) =
    if c.clock_failed then record c { refresh_in_flight = some (settled now) } else record c {
      refresh_in_flight = some (settled now);
      keys = some keys;
      loaded_at_ms = some now;
    }

unfoldable pub load_in : Option Refresh → JwksCache → Checked Keys → JwksCache
unfolding load_with
load_in none c outcome = c
load_in (some (settled now)) c outcome = c
load_in (some (pending now)) c outcome = load_with c now outcome

-- `#load` from the answer of its fetch on
unfoldable pub load_settles : JwksCache → Checked Keys → JwksCache
unfolding load_in
load_settles c outcome = load_in c.refresh_in_flight c outcome

unfoldable pub forget_in : Option Refresh → JwksCache → JwksCache
forget_in none c = c
forget_in (some (pending now)) c = c
forget_in (some (settled now)) c = record c { refresh_in_flight = none }

-- The `finally` of `#refresh`: the caller that started a refresh forgets it when it has settled.
unfoldable pub forget_refresh : JwksCache → Bool → JwksCache
unfolding forget_in
forget_refresh c starts = if starts then forget_in c.refresh_in_flight c else c

-- `resolve` after its await, when the clock goes on
unfoldable pub resume_with : JwksCache → Waiting → Option Key → JwksCache × Progress
unfolding unknown_key
resume_with c w (some key) = (c, found key)
resume_with c w none =
    if not w.fresh && w.known
    then (
      record c { next_unknown_kid_refresh_at_ms = some (w.now + unknown_kid_refresh_interval_ms) },
      failed unknown_key,
    )
    else (c, failed unknown_key)

-- `resolve` after its await, with the outcome of the refresh
unfoldable pub resume : JwksCache → Waiting → Checked (Unit {0}) → JwksCache × Progress
unfolding forget_refresh resume_with has_kid
resume c w (thrown e) = (forget_refresh c w.starts, failed e)
resume c w (ok _) =
    let after = forget_refresh c w.starts in
    if c.clock_failed
    then (after, failed (text "JWKS monotonic clock domain has failed"))
    else resume_with after w (has_kid after.keys w.kid)

-- One synchronous part of one of the callers, in any order.
pub data Event : Type 0 where
  asserts : Reading → Event
  resolves : Text → Reading → Event
  settles : Checked Keys → Event
  resumes : Waiting → Checked (Unit {0}) → Event
  tightens : ℕ → Event

unfoldable pub after_event : JwksCache → Event → JwksCache
unfolding assert_active resolve load_settles resume tighten_max_age
after_event c (asserts reading) = (assert_active c reading).0
after_event c (resolves kid reading) = (resolve c kid reading).0
after_event c (settles outcome) = load_settles c outcome
after_event c (resumes w outcome) = (resume c w outcome).0
after_event c (tightens age) = (tighten_max_age c age).0

unfoldable pub run : JwksCache → List Event → JwksCache
unfolding after_event
run c [] = c
run c (e ∷ events) = run (after_event c e) events
