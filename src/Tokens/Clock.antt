-- ===== src/Tokens/Clock.antt =====
-- packages/tokens/src/internal.ts, `GuardedMonotonicClock`: a clock that fails for good when it reads
-- a number that is no time or lies before the last one.
use authorization_core.Common.{
  ℕ, Bool, true, false, Option, none, some, ltb, if◌then◌else◌, thrown, ok, ◌≡◌, arith, inl, inr,
  Bool-cases,
}
use authorization_core.Text.{Text, text}
use authorization_core.Tokens.{Checked, Reading, finite, invalid}

-- `onFailure` sets the flag of the issuer's domain, which is `failed` here.
pub record Clock : Type 0 where
  pub last_observed : Option ℕ
  pub failed : Bool

abbrev pub new_clock : Clock
new_clock = record { last_observed = none; failed = false }

unfoldable pub earlier : ℕ → Option ℕ → Bool
earlier now none = false
earlier now (some last) = ltb now last

abbrev broken : Clock
broken = record { last_observed = none; failed = true }

-- What a clock that has not failed does with a reading.
unfoldable pub observe : Clock → Reading → Clock × Checked ℕ
unfolding earlier
observe c invalid = (broken, thrown (text "monotonic clock is invalid or regressed"))
observe c (finite now) =
    if earlier now c.last_observed
    then (broken, thrown (text "monotonic clock is invalid or regressed"))
    else (record { last_observed = some now; failed = false }, ok now)

-- `sample` on what the clock reads next
unfoldable pub sample : Clock → Reading → Clock × Checked ℕ
unfolding observe
sample c reading =
    let observed = observe c reading in
    if c.failed then (c, thrown (text "monotonic clock domain has failed")) else observed

-- A clock that has failed never gives a time again.
pub sample_failed :
    (c : Clock) (r : Reading) → c.failed ≡ true → (t : Text) × (sample c r ≡ (c, thrown t))
unfolding sample
sample_failed c r h = (text "monotonic clock domain has failed", rw h)

observe_ok :
    (c : Clock) (r : Reading) {now : ℕ}
    → (observe c r).1 ≡ ok now
    → (r ≡ finite now)
      × (earlier now c.last_observed ≡ false)
      × ((observe c r).0 ≡ record { last_observed = some now; failed = false })
unfolding observe
observe_ok c invalid h = absurd (cc)
observe_ok c (finite n) h = ground arith

-- What follows from a sample that returned: it is what was read, not before the last, and is the last
-- from now on.
pub sample_ok :
    (c : Clock) (r : Reading) {now : ℕ}
    → (sample c r).1 ≡ ok now
    → (c.failed ≡ false)
      × (r ≡ finite now)
      × (earlier now c.last_observed ≡ false)
      × ((sample c r).0 ≡ record { last_observed = some now; failed = false })
unfolding sample
sample_ok c r h = elim (Bool-cases c.failed) [
  | inl e ↦ absurd (ground arith)
  | inr e ↦ let (read, later, after) = observe_ok c r (rw e at h) in (e, read, later, rw e after)
]

-- A clock that goes on gives what it reads.
pub sample_now :
    (c : Clock) (now : ℕ)
    → c.failed ≡ false
    → earlier now c.last_observed ≡ false
    → (sample c (finite now)).1 ≡ ok now
unfolding sample
sample_now c now alive later = rw (alive, later)
