-- ===== src/Tokens/Lifetime.antt =====
-- packages/tokens/src/issuer.ts and packages/tokens/src/verifier.ts together: how long a grant lives.
use authorization_core.Common.{
  ℕ, >>=-eq-ok, ap, sym, ◌+◌, ◌-◌, ◌*◌, ◌/◌, ◌≤◌, ◌<◌, true, false, ◌&&◌, ok, thrown, ◌≡◌, refl,
  arith, ltb, leb, ok-injective, guard-eq-ok,
}
use authorization_core.Js.{max_safe_integer}
use authorization_core.Tokens.{Checked, Reading, finite, invalid, is_numeric_date}
use authorization_core.Tokens.Clock.{Clock, sample, sample_now, sample_ok, earlier}
use authorization_core.Tokens.Issuer.{
  Issuer, Claims, Admitted, issue_payload, payload_of, BoundSourceAuthorization, Window, window_at,
  read_grant_window, nominal_lifetime_seconds, least_of,
}
use authorization_core.Tokens.Verifier.{require_grant_time_window}

nominal_lifetime_lem :
    (remaining : ℕ)
    → 1 ≤ nominal_lifetime_seconds remaining
    → (nominal_lifetime_seconds remaining ≤ 30)
      × ((nominal_lifetime_seconds remaining + 5) ≤ remaining / 1000)
unfolding nominal_lifetime_seconds least_of
nominal_lifetime_lem remaining h = ground arith

-- What a window that was given says of the readings it was made from.
pub record Fits (expires wall now : ℕ) (w : Window) : Type 0 where
  pub starts : w.iat ≡ wall / 1000
  pub lasts : w.iat < w.exp
  pub short : w.exp ≤ w.iat + 30
  pub inside : w.exp + 5 ≤ w.iat + (expires - now) / 1000
  pub before_deadline : now < expires
  pub dates : (is_numeric_date w.iat && is_numeric_date w.exp) ≡ true

window_at-Fits :
    (wall : Reading) (now expires : ℕ) {w : Window}
    → window_at wall now expires ≡ ok w
    → (n : ℕ) × (wall ≡ finite n) × Fits expires n now w
unfolding window_at
window_at-Fits invalid now expires h = absurd (cc)
window_at-Fits (finite n) now expires h =
    let lifetime = nominal_lifetime_seconds (expires - now) in
    let (in_time, h1) = guard-eq-ok (ltb now expires) _ _ h in
    let (enough, h2) = guard-eq-ok (leb 1 lifetime) _ _ h1 in
    let (dates, h3) =
      guard-eq-ok (is_numeric_date (n / 1000) && is_numeric_date (n / 1000 + lifetime)) _ _ h2 in
    let made = ok-injective h3 in
    let bounds = nominal_lifetime_lem (expires - now) (ground arith) in
    (
      n,
      refl,
      record {
        starts = ground arith;
        lasts = ground arith;
        short = ground arith;
        inside = ground arith;
        before_deadline = ground arith;
        dates = ground arith;
      },
    )

-- What a window that was given says of the clock and of its readings.
pub read_grant_window-Fits :
    (s : BoundSourceAuthorization) (c : Clock) (wall monotonic : Reading) {w : Window}
    → (read_grant_window s c wall monotonic).1 ≡ ok w
    → (n m : ℕ) × (wall ≡ finite n) × (monotonic ≡ finite m) × Fits s.expires_at_monotonic_ms n m w
unfolding read_grant_window
read_grant_window-Fits s c wall monotonic h =
    let (now, sampled, made) = >>=-eq-ok (sample c monotonic).1 _ h in
    let (alive, read, later, rest) = sample_ok c monotonic sampled in
    let (n, known, fits) = window_at-Fits wall now s.expires_at_monotonic_ms made in
    (n, now, known, read, fits)

-- What a sign operation is given is dated by a window that was given from the readings before it.
pub issue_payload_made :
    (i : Issuer) (c : Clock) (a : Admitted) (reserved : Checked (Unit {0}))
    (wall monotonic : Reading) {claims : Claims}
    → (issue_payload i c a reserved wall monotonic).1 ≡ ok claims
    → (n m : ℕ) × (w : Window) × (wall ≡ finite n)
      × (monotonic ≡ finite m)
      × Fits a.source.expires_at_monotonic_ms n m w
      × (payload_of i a w ≡ claims)
unfolding issue_payload
issue_payload_made i c a (thrown e) wall monotonic h = absurd (cc)
issue_payload_made i c a (ok _) wall monotonic h =
    let (w, given, made) = >>=-eq-ok (read_grant_window a.source c wall monotonic).1 _ h in
    let (n, m, known, read, fits) = read_grant_window-Fits a.source c wall monotonic given in
    (n, m, w, known, read, fits, ok-injective made)

finite-injective : {n m : ℕ} → finite n ≡ finite m → n ≡ m
finite-injective h = cc

dates_lem :
    (i : Issuer) (a : Admitted) (w : Window) {claims : Claims}
    → payload_of i a w ≡ claims
    → (claims.iat ≡ w.iat) × (claims.exp ≡ w.exp)
unfolding payload_of
dates_lem i a w h = (ap (λ c. c.iat) (sym h), ap (λ c. c.exp) (sym h))

window_lem :
    (v : ℕ) (claims : Claims)
    → require_grant_time_window (finite v) claims ≡ ok tt
    → (claims.iat ≤ v / 1000 + 5) × (v / 1000 < claims.exp)
unfolding require_grant_time_window
window_lem v claims h = ground arith

-- When a grant was issued at the monotonic time `m` and the wall time `n`, and a verifier whose wall
-- clock lags by at most five seconds takes it `elapsed` milliseconds later, then the deadline of the
-- source authorization has not come; the grant's times are at most thirty seconds apart.
pub grant_within_deadline :
    (i : Issuer) (c : Clock) (a : Admitted) (reserved : Checked (Unit {0})) (n m v elapsed : ℕ)
    {claims : Claims}
    → (issue_payload i c a reserved (finite n) (finite m)).1 ≡ ok claims
    → n + elapsed ≤ v + 5000
    → require_grant_time_window (finite v) claims ≡ ok tt
    → (m + elapsed < a.source.expires_at_monotonic_ms)
      × (claims.iat < claims.exp)
      × (claims.exp ≤ claims.iat + 30)
grant_within_deadline i c a reserved n m v elapsed {claims} issued lag taken =
    let (n', m', w, known, read, fits, made) = issue_payload_made i c a reserved _ _ issued in
    let (before, after) = window_lem v claims taken in
    let there = finite-injective known in
    let then = finite-injective read in
    let (dated, ended) = dates_lem i a w made in
    (
      omega
          (arith, fits.starts, fits.inside, fits.before_deadline, after, there, then, dated, ended),
      omega (arith, fits.lasts, dated, ended),
      omega (arith, fits.short, dated, ended),
    )

nominal_lifetime-ge :
    (remaining k : ℕ)
    → 1 ≤ k
    → k ≤ 30
    → 1000 * (k + 5) ≤ remaining
    → k ≤ nominal_lifetime_seconds remaining
unfolding nominal_lifetime_seconds least_of
nominal_lifetime-ge remaining k one few left = ground arith

window_at-given :
    (n m expires : ℕ)
    → m < expires
    → 1 ≤ nominal_lifetime_seconds (expires - m)
    → nominal_lifetime_seconds (expires - m) ≤ 30
    → 1000 ≤ n
    → n / 1000 + 30 ≤ max_safe_integer
    → window_at (finite n) m expires
      ≡ ok (record { iat = n / 1000; exp = n / 1000 + nominal_lifetime_seconds (expires - m) })
unfolding window_at is_numeric_date
window_at-given n m expires before enough most date fits = ground arith

window_taken :
    (n v k lifetime : ℕ) (claims : Claims)
    → claims.iat ≡ n / 1000
    → claims.exp ≡ n / 1000 + lifetime
    → 1 ≤ k
    → k ≤ lifetime
    → lifetime ≤ 30
    → n / 1000 + 30 ≤ max_safe_integer
    → n ≤ v + 5000
    → v ≤ n + 1000 * (k - 1)
    → require_grant_time_window (finite v) claims ≡ ok tt
unfolding require_grant_time_window
window_taken n v k lifetime claims starts ends one enough most fits lag soon = ground arith

-- While at least `k + 5` seconds of the source authorization remain, `k` from 1 to 30, the clock goes
-- on and the dates are in range, the grant is issued; and every verifier takes its times whose wall
-- clock reads from five seconds before the issuer's to `k - 1` seconds after.
pub issue_payload-taken :
    (i : Issuer) (c : Clock) (a : Admitted) (n m k : ℕ)
    → c.failed ≡ false
    → earlier m c.last_observed ≡ false
    → 1 ≤ k
    → k ≤ 30
    → m + 1000 * (k + 5) ≤ a.source.expires_at_monotonic_ms
    → 1000 ≤ n
    → n / 1000 + 30 ≤ max_safe_integer
    → (claims : Claims) × ((issue_payload i c a (ok tt) (finite n) (finite m)).1 ≡ ok claims)
      × ((v : ℕ)
          → n ≤ v + 5000
          → v ≤ n + 1000 * (k - 1)
          → require_grant_time_window (finite v) claims ≡ ok tt)
unfolding issue_payload payload_of read_grant_window
issue_payload-taken i c a n m k alive later one few left date fits_date =
    let lifetime = nominal_lifetime_seconds (a.source.expires_at_monotonic_ms - m) in
    let enough =
      nominal_lifetime-ge (a.source.expires_at_monotonic_ms - m) k one few (omega arith) in
    let most =
      nominal_lifetime_lem (a.source.expires_at_monotonic_ms - m) (omega (arith, enough, one)) in
    let w : Window = record { iat = n / 1000; exp = n / 1000 + lifetime } in
    let given =
      window_at-given n m a.source.expires_at_monotonic_ms (omega (arith, one, left))
        (omega (arith, one, enough)) most.0 date fits_date in
    (
      payload_of i a w,
      rw (sample_now c m alive later, given),
      λ v lag soon.
          window_taken n v k lifetime (payload_of i a w) refl refl one enough most.0 fits_date lag
            soon,
    )
