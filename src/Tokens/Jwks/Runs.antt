-- ===== src/Tokens/Jwks/Runs.antt =====
-- What holds of the key cache after any sequence of the parts of its callers.
use authorization_core.Common.{
  ℕ, ◌+◌, ◌-◌, ◌≤◌, ◌<◌, true, false, ◌&&◌, Option, none, some, List, [], ◌∷◌, leb, thrown, ok, ◌≡◌,
  refl, arith, inl, inr, Bool-cases, Option-cases, guard-eq-ok, guard_passed, ok-injective, subst,
  if_elim,
}
use mathlib.Core.List.{Memᴰ}
use authorization_core.Text.{Text}
use authorization_core.Tokens.{Checked, finite}
use authorization_core.Tokens.Clock.{earlier}
use authorization_core.Tokens.Jwks.{
  JwksCache, Keys, Refresh, pending, settled, new_cache, require_cache_age, tighten_max_age,
  sample_jwks, is_fresh, active_at, assert_active, observe_jwks, load_in, load_with, tightened,
  resolve_at, resolve, load_settles, Event, asserts, resolves, settles, resumes, tightens,
  after_event, run,
}
use authorization_core.Tokens.Jwks.Invariant.{
  dead, fails, reads, started, AtMost, Inv, documents_in, documents_after, Sampled,
  sample_jwks_cases, Sampled-Inv, active_at-same, SameKeys-Inv, resolve_at-SameKeys,
  resume-SameKeys,
}

load_with-Inv :
    (c : JwksCache) (now : ℕ) (outcome : Checked Keys) (ds : List (ℕ × Keys))
    → Inv c ds
    → AtMost (some now) c.last_observed_ms
    → Inv (load_with c now outcome) (elim outcome [ thrown e ↦ ds | ok keys ↦ (now, keys) ∷ ds ])
unfolding load_with
load_with-Inv c now (thrown e) ds v seen = record {
  aged = v.aged;
  loaded = v.loaded;
  observed = v.observed;
  in_flight = seen;
  dropped = v.dropped;
}
load_with-Inv c now (ok keys) ds v seen =
    if_elim (λ d. Inv d ((now, keys) ∷ ds)) c.clock_failed
      (λ dead. record {
        aged = v.aged;
        loaded = λ ks h. absurd (cc (v.dropped dead, h));
        observed = v.observed;
        in_flight = seen;
        dropped = v.dropped;
      })
      (λ alive. record {
        aged = v.aged;
        loaded = λ ks h. (now, refl, Memᴰ.head (cc));
        observed = seen;
        in_flight = seen;
        dropped = λ dead. absurd (cc (alive, dead));
      })

load_in-Inv :
    (o : Option Refresh) (c : JwksCache) (outcome : Checked Keys) (ds : List (ℕ × Keys))
    → AtMost (started o) c.last_observed_ms
    → Inv c ds
    → Inv (load_in o c outcome) (documents_in o outcome ds)
unfolding load_in
load_in-Inv none c outcome ds seen v = v
load_in-Inv (some (settled n)) c outcome ds seen v = v
load_in-Inv (some (pending n)) c (thrown e) ds seen v = load_with-Inv c n (thrown e) ds v seen
load_in-Inv (some (pending n)) c (ok keys) ds seen v = load_with-Inv c n (ok keys) ds v seen

tightened-Inv :
    (c : JwksCache) (age : ℕ) (ds : List (ℕ × Keys)) → Inv c ds → Inv (tighten_max_age c age).0 ds
unfolding tighten_max_age tightened require_cache_age
tightened-Inv c age ds v = ground arith

resolve-Inv :
    (c : JwksCache) (kid : Text) (s : JwksCache × Checked ℕ) (ds : List (ℕ × Keys))
    → Sampled c s
    → Inv c ds
    → Inv (resolve_at s kid).0 ds
unfolding resolve_at
resolve-Inv c kid _ ds (dead e) v = v
resolve-Inv c kid _ ds (fails {e = e}) v = Sampled-Inv c ds (fails {e = e}) v
resolve-Inv c kid _ ds (reads {now = now} e later) v =
    SameKeys-Inv ds
      (resolve_at-SameKeys (record c { last_observed_ms = some now }) kid now (omega arith))
      (Sampled-Inv c ds (reads e later) v)

-- Every part of every caller keeps the invariant.
after_event-Inv :
    (c : JwksCache) (e : Event) (ds : List (ℕ × Keys))
    → Inv c ds
    → Inv (after_event c e) (documents_after c e ds)
unfolding after_event assert_active resolve load_settles
after_event-Inv c (asserts r) ds v =
    rw (active_at-same (sample_jwks c r)) (Sampled-Inv c ds (sample_jwks_cases c r) v)
after_event-Inv c (resolves kid r) ds v =
    resolve-Inv c kid (sample_jwks c r) ds (sample_jwks_cases c r) v
after_event-Inv c (settles outcome) ds v =
    load_in-Inv c.refresh_in_flight c outcome ds v.in_flight v
after_event-Inv c (resumes w outcome) ds v = SameKeys-Inv ds (resume-SameKeys c w outcome) v
after_event-Inv c (tightens age) ds v = tightened-Inv c age ds v

-- A run, with the documents that it has loaded.
pub documents : JwksCache → List Event → List (ℕ × Keys) → List (ℕ × Keys)
documents c [] ds = ds
documents c (e ∷ events) ds = documents (after_event c e) events (documents_after c e ds)

run-Inv :
    (c : JwksCache) (events : List Event) (ds : List (ℕ × Keys))
    → Inv c ds
    → Inv (run c events) (documents c events ds)
unfolding run documents
run-Inv c [] ds v = v
run-Inv c (e ∷ events) ds v = run-Inv (after_event c e) events _ (after_event-Inv c e ds v)

new_cache-Inv : (age : ℕ) {c : JwksCache} → new_cache age ≡ ok c → Inv c []
unfolding new_cache require_cache_age
new_cache-Inv age {c} h =
    let (aged, made) = guard-eq-ok (leb 1 age && leb age 60000) _ _ h in
    subst (λ d. Inv d []) (ok-injective made)
      (record {
        aged = (ground arith, ground arith);
        loaded = λ keys e. absurd (cc);
        observed = tt;
        in_flight = tt;
        dropped = λ e. refl;
      })

is_fresh_lem :
    (c : JwksCache) (now : ℕ)
    → is_fresh c now ≡ true
    → (keys : Keys) × (n : ℕ) × (c.keys ≡ some keys)
      × (c.loaded_at_ms ≡ some n)
      × (now - n < c.max_age_ms)
unfolding is_fresh
is_fresh_lem c now h = elim (Option-cases c.keys) [
  | inl e ↦ absurd (cc (rw e at h))
  | inr (keys, e) ↦ elim (Option-cases c.loaded_at_ms) [
    | inl l ↦ absurd (cc (rw (e, l) at h))
    | inr (n, l) ↦ (keys, n, e, l, ground (arith, (rw (e, l) at h)))
  ]
]

active_lem :
    (c : JwksCache) (now : ℕ)
    → (assert_active c (finite now)).1 ≡ ok tt
    → (c.clock_failed ≡ false) × (earlier now c.last_observed_ms ≡ false) × (is_fresh c now ≡ true)
unfolding assert_active active_at sample_jwks observe_jwks is_fresh
active_lem c now h = elim (Bool-cases c.clock_failed) [
  | inl e ↦ absurd (cc (rw e at h))
  | inr alive ↦ elim (Bool-cases (earlier now c.last_observed_ms)) [
    | inl e ↦ absurd (cc (rw (alive, e) at h))
    | inr later ↦ (alive, later, guard_passed (is_fresh c now) _ (rw (alive, later) at h))
  ]
]

loaded_before :
    (loaded last : Option ℕ) (n now : ℕ)
    → AtMost loaded last
    → loaded ≡ some n
    → earlier now last ≡ false
    → n ≤ now
unfolding earlier
loaded_before none last n now h e later = absurd (cc)
loaded_before (some m) none n now h e later = absurd h
loaded_before (some m) (some last) n now h e later = ground arith

-- When a check that the cache is active returns, after any sequence of the parts of its callers, the
-- clock has not failed, and the keys are those of a document whose load began not after that time and
-- less than a minute before, and less than the maximal age before.
pub assert_active-run :
    (age : ℕ) (events : List Event) (now : ℕ) {c : JwksCache}
    → new_cache age ≡ ok c
    → (assert_active (run c events) (finite now)).1 ≡ ok tt
    → (n : ℕ) × (keys : Keys) × ((run c events).keys ≡ some keys)
      × Memᴰ (n, keys) (documents c events [])
      × ((run c events).clock_failed ≡ false)
      × (n ≤ now)
      × (now < n + (run c events).max_age_ms)
      × (now < n + 60000)
assert_active-run age events now {c} made h =
    let d = run c events in
    let v = run-Inv c events [] (new_cache-Inv age made) in
    let (alive, later, fresh) = active_lem d now h in
    let (keys, n, holds, at, recent) = is_fresh_lem d now fresh in
    let (m, at', among) = v.loaded keys holds in
    let before = loaded_before d.loaded_at_ms d.last_observed_ms n now v.observed at later in
    let same_time : n ≡ m = cc in
    (
      n,
      keys,
      holds,
      rw same_time among,
      alive,
      before,
      omega (arith, recent, before),
      omega (arith, recent, before, v.aged),
    )
