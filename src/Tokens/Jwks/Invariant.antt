-- ===== src/Tokens/Jwks/Invariant.antt =====
-- What each part of the key cache keeps: that its keys are of a document that was loaded in time.
use authorization_core.Common.{
  ℕ, ◌≤◌, Bool, true, false, not, ◌&&◌, Option, none, some, List, ◌∷◌, thrown, ok, ◌≡◌, refl, sym,
  ◌∙◌, arith, if_elim,
}
use mathlib.Core.List.{Memᴰ}
use authorization_core.Text.{Text}
use authorization_core.Tokens.{Checked, Reading, finite, invalid}
use authorization_core.Tokens.Clock.{earlier}
use authorization_core.Tokens.Jwks.{
  JwksCache, Keys, Refresh, pending, settled, fail_clock, sample_jwks, is_fresh, active_at, Waiting,
  begin_unknown_kid_refresh, refresh, refresh_begun, refresh_in, refresh_unknown, resolve_fresh,
  has_kid, is_some, Key, observe_jwks, forget_in, resume_with, resolve_at, forget_refresh, resume,
  Event, settles, Progress,
}

-- The time of a refresh in flight.
abbrev pub started : Option Refresh → Option ℕ
started none = none
started (some (pending n)) = some n
started (some (settled n)) = some n

abbrev pub AtMost : Option ℕ → Option ℕ → Type 0
AtMost none last = Unit
AtMost (some n) none = ⊥
AtMost (some n) (some last) = n ≤ last

-- The keys are those of a document that was loaded, and of no time after the last one read; a clock
-- that failed has dropped them.
pub record Inv (c : JwksCache) (documents : List (ℕ × Keys)) : Type 0 where
  pub aged : (1 ≤ c.max_age_ms) × (c.max_age_ms ≤ 60000)
  pub loaded :
      (keys : Keys)
      → c.keys ≡ some keys
      → (n : ℕ) × (c.loaded_at_ms ≡ some n) × Memᴰ (n, keys) documents
  pub observed : AtMost c.loaded_at_ms c.last_observed_ms
  pub in_flight : AtMost (started c.refresh_in_flight) c.last_observed_ms
  pub dropped : c.clock_failed ≡ true → c.keys ≡ none

-- The documents that a part of a caller loads, with the time that their load began.
abbrev pub documents_in : Option Refresh → Checked Keys → List (ℕ × Keys) → List (ℕ × Keys)
documents_in (some (pending now)) (ok keys) documents = (now, keys) ∷ documents
documents_in (some (pending now)) (thrown e) documents = documents
documents_in (some (settled now)) outcome documents = documents
documents_in none outcome documents = documents

abbrev pub documents_after : JwksCache → Event → List (ℕ × Keys) → List (ℕ × Keys)
documents_after c (settles outcome) documents = documents_in c.refresh_in_flight outcome documents
documents_after c _ documents = documents

AtMost-later :
    (x last : Option ℕ) (now : ℕ) → earlier now last ≡ false → AtMost x last → AtMost x (some now)
unfolding earlier
AtMost-later none last now h v = tt
AtMost-later (some n) none now h v = absurd v
AtMost-later (some n) (some last) now h v = ground arith

-- A sample either fails the clock, or leaves the cache as it is but for the time observed.
pub data Sampled (c : JwksCache) : JwksCache × Checked ℕ → Type 0 where
  dead : {e : Text} → c.clock_failed ≡ true → Sampled c (c, thrown e)
  fails : {e : Text} → Sampled c (fail_clock c, thrown e)
  reads :
      {now : ℕ}
      → c.clock_failed ≡ false
      → earlier now c.last_observed_ms ≡ false
      → Sampled c (record c { last_observed_ms = some now }, ok now)

pub sample_jwks_cases : (c : JwksCache) (r : Reading) → Sampled c (sample_jwks c r)
unfolding sample_jwks observe_jwks
sample_jwks_cases c invalid = if_elim (Sampled c) c.clock_failed dead (λ _. fails)
sample_jwks_cases c (finite now) =
    if_elim (Sampled c) c.clock_failed dead
      (λ alive. if_elim (Sampled c) (earlier now c.last_observed_ms) (λ _. fails) (reads alive))

pub Sampled-Inv :
    (c : JwksCache) (ds : List (ℕ × Keys)) {s : JwksCache × Checked ℕ}
    → Sampled c s
    → Inv c ds
    → Inv s.0 ds
unfolding fail_clock
Sampled-Inv c ds (dead e) v = v
Sampled-Inv c ds fails v = record {
  aged = v.aged;
  loaded = λ keys h. absurd (cc);
  observed = tt;
  in_flight = v.in_flight;
  dropped = λ h. refl;
}
Sampled-Inv c ds (reads {now = now} e later) v = record {
  aged = v.aged;
  loaded = v.loaded;
  observed = AtMost-later c.loaded_at_ms c.last_observed_ms now later v.observed;
  in_flight = AtMost-later (started c.refresh_in_flight) c.last_observed_ms now later v.in_flight;
  dropped = v.dropped;
}

pub active_at-same : (s : JwksCache × Checked ℕ) → (active_at s).0 ≡ s.0
unfolding active_at
active_at-same (c, thrown e) = refl
active_at-same (c, ok now) = refl

-- The parts that leave keys, times and clock alone.
pub record SameKeys (c d : JwksCache) : Type 0 where
  pub age : d.max_age_ms ≡ c.max_age_ms
  pub keys : d.keys ≡ c.keys
  pub loaded : d.loaded_at_ms ≡ c.loaded_at_ms
  pub observed : d.last_observed_ms ≡ c.last_observed_ms
  pub failed : d.clock_failed ≡ c.clock_failed
  pub flight :
      AtMost (started c.refresh_in_flight) c.last_observed_ms
      → AtMost (started d.refresh_in_flight) d.last_observed_ms

SameKeys-refl : (c : JwksCache) → SameKeys c c
SameKeys-refl c = record {
  age = refl;
  keys = refl;
  loaded = refl;
  observed = refl;
  failed = refl;
  flight = λ h. h;
}

pub SameKeys-Inv : {c d : JwksCache} (ds : List (ℕ × Keys)) → SameKeys c d → Inv c ds → Inv d ds
SameKeys-Inv {c} {d} ds e v = record {
  aged = rw e.age v.aged;
  loaded =
      λ keys h. let (n, at, among) = v.loaded keys (sym e.keys ∙ h) in (n, e.loaded ∙ at, among);
  observed = rw (e.loaded, e.observed) v.observed;
  in_flight = e.flight v.in_flight;
  dropped = λ h. e.keys ∙ v.dropped (sym e.failed ∙ h);
}

begin-SameKeys : (c : JwksCache) (now : ℕ) → SameKeys c (begin_unknown_kid_refresh c now).0
unfolding begin_unknown_kid_refresh
begin-SameKeys c now =
    if_elim (λ (s : JwksCache × Checked (Unit {0})). SameKeys c s.0)
      (earlier now c.next_unknown_kid_refresh_at_ms) (λ _. SameKeys-refl c)
      (λ _. record {
        age = refl;
        keys = refl;
        loaded = refl;
        observed = refl;
        failed = refl;
        flight = λ h. h;
      })

refresh_in-SameKeys :
    (o : Option Refresh) (c : JwksCache) (kid : Text) (now : ℕ) (fresh known : Bool)
    → AtMost (some now) c.last_observed_ms
    → SameKeys c (refresh_in o c kid now fresh known).0
unfolding refresh_in
refresh_in-SameKeys (some r) c kid now fresh known seen = SameKeys-refl c
refresh_in-SameKeys none c kid now fresh known seen = record {
  age = refl;
  keys = refl;
  loaded = refl;
  observed = refl;
  failed = refl;
  flight = λ h. seen;
}

SameKeys-trans : {c d e : JwksCache} → SameKeys c d → SameKeys d e → SameKeys c e
SameKeys-trans one two = record {
  age = two.age ∙ one.age;
  keys = two.keys ∙ one.keys;
  loaded = two.loaded ∙ one.loaded;
  observed = two.observed ∙ one.observed;
  failed = two.failed ∙ one.failed;
  flight = λ h. two.flight (one.flight h);
}

refresh_begun-SameKeys :
    (s : JwksCache × Checked (Unit {0})) (kid : Text) (now : ℕ) (fresh : Bool)
    → AtMost (some now) s.0.last_observed_ms
    → SameKeys s.0 (refresh_begun s kid now fresh).0
unfolding refresh_begun refresh
refresh_begun-SameKeys (c, thrown e) kid now fresh seen = SameKeys-refl c
refresh_begun-SameKeys (c, ok _) kid now fresh seen =
    refresh_in-SameKeys c.refresh_in_flight c kid now fresh false seen

refresh_unknown-SameKeys :
    (c : JwksCache) (kid : Text) (now : ℕ) (fresh : Bool)
    → AtMost (some now) c.last_observed_ms
    → SameKeys c (refresh_unknown c kid now fresh).0
unfolding refresh_unknown
refresh_unknown-SameKeys c kid now fresh seen =
    let begun = begin-SameKeys c now in
    SameKeys-trans begun (
      refresh_begun-SameKeys (begin_unknown_kid_refresh c now) kid now fresh
        (rw begun.observed seen))

pub resolve_at-SameKeys :
    (c : JwksCache) (kid : Text) (now : ℕ)
    → AtMost (some now) c.last_observed_ms
    → SameKeys c (resolve_at (c, ok now) kid).0
unfolding resolve_at resolve_fresh refresh
resolve_at-SameKeys c kid now seen =
    if_elim (λ (s : JwksCache × Progress). SameKeys c s.0) (is_fresh c now)
      (λ _. split (has_kid c.keys kid))
      (λ _.
        if_elim (λ (s : JwksCache × Progress). SameKeys c s.0)
          (not (is_some (has_kid c.keys kid)) && not (is_some c.refresh_in_flight))
          (λ _. refresh_unknown-SameKeys c kid now false seen)
          (λ _.
            refresh_in-SameKeys c.refresh_in_flight c kid now false (is_some (has_kid c.keys kid))
              seen))
  where
    split : (o : Option Key) → SameKeys c (resolve_fresh c kid now o).0
    split (some key) = SameKeys-refl c
    split none = refresh_unknown-SameKeys c kid now true seen

forget_in-SameKeys : (o : Option Refresh) (c : JwksCache) → SameKeys c (forget_in o c)
unfolding forget_in
forget_in-SameKeys none c = SameKeys-refl c
forget_in-SameKeys (some (pending n)) c = SameKeys-refl c
forget_in-SameKeys (some (settled n)) c = record {
  age = refl;
  keys = refl;
  loaded = refl;
  observed = refl;
  failed = refl;
  flight = λ h. tt;
}

forget_refresh-SameKeys : (c : JwksCache) (starts : Bool) → SameKeys c (forget_refresh c starts)
unfolding forget_refresh
forget_refresh-SameKeys c true = forget_in-SameKeys c.refresh_in_flight c
forget_refresh-SameKeys c false = SameKeys-refl c

resume_with-SameKeys :
    (c : JwksCache) (w : Waiting) (o : Option Key) → SameKeys c (resume_with c w o).0
unfolding resume_with
resume_with-SameKeys c w (some key) = SameKeys-refl c
resume_with-SameKeys c w none =
    if_elim (λ (s : JwksCache × Progress). SameKeys c s.0) (not w.fresh && w.known)
      (λ _. record {
        age = refl;
        keys = refl;
        loaded = refl;
        observed = refl;
        failed = refl;
        flight = λ h. h;
      })
      (λ _. SameKeys-refl c)

pub resume-SameKeys :
    (c : JwksCache) (w : Waiting) (outcome : Checked (Unit {0})) → SameKeys c (resume c w outcome).0
unfolding resume
resume-SameKeys c w (thrown e) = forget_refresh-SameKeys c w.starts
resume-SameKeys c w (ok _) =
    let forgot = forget_refresh-SameKeys c w.starts in
    if_elim (λ (s : JwksCache × Progress). SameKeys c s.0) c.clock_failed (λ _. forgot)
      (λ _. SameKeys-trans forgot (
        resume_with-SameKeys (forget_refresh c w.starts) w
          (has_kid (forget_refresh c w.starts).keys w.kid)))
