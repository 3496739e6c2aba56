-- ===== src/Tokens/Verification/Outcomes.antt =====
-- packages/tokens/src/verifier.ts: what `verifyAndConsume` asks, in which order, and how it ends.
use authorization_core.Common.{
  ℕ, ◌+◌, ◌/◌, ◌≤◌, true, List, [], ◌∷◌, ok, thrown, guard, ◌≡◌, refl, subst, sym, inl, inr, ◌⊎◌,
  arith, guard_passed, guard-eq-ok, Bool-cases,
}
use authorization_core.Text.{Text, same, includes}
use authorization_core.Text.Order.{eq_of_same}
use authorization_core.Js.{Value}
use authorization_core.Storage.Program.{Inserted}
use authorization_core.Storage.Store.{Reply, replied}
use authorization_core.Tokens.{Checked, Reading, finite, invalid, Base64Url, is_numeric_date}
use authorization_core.Tokens.Issuer.{Claims}
use authorization_core.Tokens.Jwks.{Key}
use authorization_core.Tokens.Grants.{all-includes, has_policy-Mem}
use authorization_core.Tokens.Replay.{AccessGrantReplayRecord, may_consume, consumed_by}
use authorization_core.Tokens.Consumption.{consumed_by_refuses}
use authorization_core.Tokens.Verifier.{
  Verifier, ParsedGrant, parse_compact_grant, is_accepted, require_grant_time_window,
}
use authorization_core.Tokens.Verification.{
  resolve, compact_verify, assert_active, verifier_wall_now, replay_now, insert_if_absent, Program,
  done, ◌>>=◌, consume, require_current, VerifiedAccessGrant, verified_access_grant, replay_record,
  consume_accepted, verify_steps, rejected, verify_and_consume,
}
use authorization_core.Tokens.Verification.Traces.{
  Answered, answered, Trace, Always, always_traced, after_step, after_answer, caught_always,
  always_weaken, chain_always, Then,
}
use authorization_core.Tokens.Verification.Promises.{
  InTime, IsFor, NeverInserts, IsReturned, refused, IsConsumed, Outcome,
}

window-InTime :
    (wall : Reading) (claims : Claims)
    → require_grant_time_window wall claims ≡ ok tt
    → (n : ℕ) × (wall ≡ finite n) × InTime n claims
unfolding require_grant_time_window InTime
window-InTime invalid claims h = absurd (cc)
window-InTime (finite n) claims h =
    let passed = guard_passed _ _ h in (n, refl, (ground (arith, passed), ground (arith, passed)))

is_accepted-IsFor : (v : Verifier) (claims : Claims) → is_accepted v claims ≡ true → IsFor v claims
unfolding is_accepted
is_accepted-IsFor v claims h =
    let (p, among, version, digest) =
      has_policy-Mem v.policies claims.policy_version claims.policy_digest (ground (arith, h)) in
    record {
      by_issuer = eq_of_same claims.iss v.issuer (ground (arith, h));
      for_application = eq_of_same claims.application_id v.application_id (ground (arith, h));
      for_audience = eq_of_same claims.aud v.audience (ground (arith, h));
      policy = p;
      policy_accepted = among;
      version_agrees = version;
      digest_agrees = digest;
      permitted =
          λ q k. all-includes (includes v.permissions) claims.permissions q (ground (arith, h)) k;
    }

-- The checks before and after the consumption throw without an insert, or pass at a time.
require_current_always :
    (claims : Claims) (P : List Answered → Checked (Unit {0}) → Type 0)
    → ((log : List Answered) (e : Text) → NeverInserts log → P log (thrown e))
    → ((n : ℕ)
        → InTime n claims
        → P (answered assert_active (ok tt) ∷ answered verifier_wall_now (finite n) ∷ []) (ok tt))
    → Always (require_current claims) P
unfolding require_current NeverInserts
require_current_always claims P throws goes = λ active.
    after_answer active _ (λ x log r. P (answered assert_active x ∷ log) r) (λ e. throws _ e tt)
      λ _ wall. at_wall wall (require_grant_time_window wall claims) refl
  where
    at_wall :
        (wall : Reading) (c : Checked (Unit {0}))
        → require_grant_time_window wall claims ≡ c
        → P (answered assert_active (ok tt) ∷ answered verifier_wall_now wall ∷ []) c
    at_wall wall (thrown e) h = throws _ e tt
    at_wall wall (ok tt) h =
        let (n, read, in_time) = window-InTime wall claims h in
        subst (λ w. P (answered assert_active (ok tt) ∷ answered verifier_wall_now w ∷ []) (ok tt))
          (sym read) (goes n in_time)

may_consume-retained :
    (now : Reading) (r : AccessGrantReplayRecord)
    → may_consume now r ≡ ok tt
    → (m : ℕ) × (now ≡ finite m) × (m / 1000 ≤ r.retain_through)
unfolding may_consume
may_consume-retained invalid r h = absurd (cc)
may_consume-retained (finite m) r h =
    let (dated, h1) = guard-eq-ok (is_numeric_date r.retain_through) _ _ h in
    let passed = guard_passed _ _ h1 in (m, refl, ground (arith, passed))

-- A consumption throws before it asks for an insert, or ends as the reply to its insert says.
consume_always :
    (r : AccessGrantReplayRecord) (P : List Answered → Checked (Unit {0}) → Type 0)
    → ((log : List Answered) (e : Text) → NeverInserts log → P log (thrown e))
    → ((m : ℕ) (reply : Reply (Inserted AccessGrantReplayRecord))
        → m / 1000 ≤ r.retain_through
        → P
            (answered replay_now (finite m) ∷ answered (insert_if_absent r) reply ∷ [])
            (consumed_by r reply))
    → Always (consume r) P
unfolding consume NeverInserts
consume_always r P throws goes = λ now.
    after_step (may_consume now r) _ _ (λ e. throws _ e tt)
      λ _ may reply.
        let (m, read, retained) = may_consume-retained now r may in
        subst
          (λ t.
            P (answered replay_now t ∷ answered (insert_if_absent r) reply ∷ [])
              (consumed_by r reply))
          (sym read) (goes m reply retained)

-- How a consumption ended that the Store replied to.
consumed_by-fresh :
    (r : AccessGrantReplayRecord) (reply : Reply (Inserted AccessGrantReplayRecord))
    → consumed_by r reply ≡ ok tt
    → (result : Inserted AccessGrantReplayRecord) × (reply ≡ replied result)
      × (result.inserted ≡ true)
unfolding consumed_by
consumed_by-fresh r Reply.rejected h = absurd (cc)
consumed_by-fresh r (replied result) h = elim (Bool-cases result.inserted) [
  | inl fresh ↦ (result, refl, fresh)
  | inr found ↦ absurd (consumed_by_refuses r result found h)
]

abbrev Concludes :
    Claims
    → Reply (Inserted AccessGrantReplayRecord)
    → List Answered
    → Checked VerifiedAccessGrant
    → Type 0
Concludes claims reply after r =
    ((rejected r ≡ refused) × NeverInserts after) ⊎ IsReturned claims reply after (rejected r)

-- The last checks: they throw, or the grant is returned.
returned_always :
    (claims : Claims) (reply : Reply (Inserted AccessGrantReplayRecord))
    → (result : Inserted AccessGrantReplayRecord) × (reply ≡ replied result)
      × (result.inserted ≡ true)
    → Always
        (require_current claims >>= λ _. done (ok (verified_access_grant claims)))
        (Concludes claims reply)
unfolding rejected verified_access_grant
returned_always claims reply (result, stored, fresh) = chain_always (require_current claims) _ _ (
    require_current_always claims _ (λ log e never. inl (refl, never))
      λ n in_time. inr (record {
        granted = verified_access_grant claims;
        returned = refl;
        of_claims = record {
          issuer = refl;
          application_id = refl;
          audience = refl;
          principal_id = refl;
          expires_at = refl;
          issued_at = refl;
          jti = refl;
          policy_version = refl;
          policy_digest = refl;
          permissions = refl;
        };
        result = result;
        stored = stored;
        fresh = fresh;
        later = n;
        asked = refl;
        in_time = in_time;
      }))

-- The questions of a consumption from the first check of the key cache on.
record Consumes (claims : Claims) (log : List Answered) (r : Checked VerifiedAccessGrant)
    : Type 0 where
  pub wall : ℕ
  pub store_now : ℕ
  pub reply : Reply (Inserted AccessGrantReplayRecord)
  pub after : List Answered
  pub asked :
      log
      ≡ answered assert_active (ok tt)
        ∷ answered verifier_wall_now (finite wall)
        ∷ answered replay_now (finite store_now)
        ∷ answered
            (insert_if_absent (record {
              issuer = claims.iss;
              application_id = claims.application_id;
              audience = claims.aud;
              jti = claims.jti;
              retain_through = claims.exp + 5;
            }))
            reply
        ∷ after
  pub in_time : InTime wall claims
  pub retained : store_now / 1000 ≤ claims.exp + 5
  pub concluded : ((r ≡ refused) × NeverInserts after) ⊎ IsReturned claims reply after r

abbrev Consumed : Claims → List Answered → Checked VerifiedAccessGrant → Type 0
Consumed claims log r =
    ((rejected r ≡ refused) × NeverInserts log) ⊎ Consumes claims log (rejected r)

abbrev finishing : Claims → Unit {0} → Program VerifiedAccessGrant
finishing claims _ = require_current claims >>= λ _. done (ok (verified_access_grant claims))

abbrev consuming : Claims → Unit {0} → Program VerifiedAccessGrant
consuming claims _ = consume (replay_record claims) >>= finishing claims

-- A consumption that the cache and the wall clock allowed.
abbrev Allowed : ℕ → Claims → List Answered → Checked VerifiedAccessGrant → Type 0
Allowed n claims log r =
    Consumed claims (answered assert_active (ok tt) ∷ answered verifier_wall_now (finite n) ∷ log) r

consume_accepted_always : (claims : Claims) → Always (consume_accepted claims) (Consumed claims)
unfolding consume_accepted replay_record rejected NeverInserts
consume_accepted_always claims =
    chain_always (require_current claims) (consuming claims) (Consumed claims) (
      require_current_always claims (Then (consuming claims) (Consumed claims))
        (λ log e never. inl (refl, never))
        λ n in_time.
          chain_always (consume (replay_record claims)) (finishing claims) (Allowed n claims) (
            consume_always (replay_record claims) (Then (finishing claims) (Allowed n claims))
              (λ log e never. inl (refl, never))
              λ m reply retained.
                stored n in_time m reply retained (consumed_by (replay_record claims) reply) refl))
  where
    stored :
        (n : ℕ)
        → InTime n claims
        → (m : ℕ) (reply : Reply (Inserted AccessGrantReplayRecord)) → m / 1000 ≤ claims.exp + 5
        → (c : Checked (Unit {0})) → consumed_by (replay_record claims) reply ≡ c
        → Then
            (finishing claims)
            (Allowed n claims)
            (answered replay_now (finite m)
              ∷ answered (insert_if_absent (replay_record claims)) reply
              ∷ [])
            c
    stored n in_time m reply retained (thrown e) h = inr (record {
      wall = n;
      store_now = m;
      reply = reply;
      after = [];
      asked = refl;
      in_time = in_time;
      retained = retained;
      concluded = inl (refl, tt);
    })
    stored n in_time m reply retained (ok tt) h =
        always_weaken (finishing claims tt) (Concludes claims reply)
          (λ after r.
            Consumed claims
              (answered assert_active (ok tt)
                ∷ answered verifier_wall_now (finite n)
                ∷ answered replay_now (finite m)
                ∷ answered (insert_if_absent (replay_record claims)) reply
                ∷ after)
              r)
          (λ after r concluded. inr (record {
            wall = n;
            store_now = m;
            reply = reply;
            after = after;
            asked = refl;
            in_time = in_time;
            retained = retained;
            concluded = concluded;
          }))
          (returned_always claims reply (consumed_by-fresh (replay_record claims) reply h))

module _ (b : Base64Url) (parse_strict_json : List ℕ → Text → Checked Value) (v : Verifier)
    (compact : Text) where
  prefixed :
      (g : ParsedGrant) (key : Key) (payload : List ℕ)
      → parse_compact_grant b parse_strict_json compact ≡ ok g
      → payload ≡ g.payload_bytes
      → is_accepted v g.claims ≡ true
      → (log : List Answered) (r : Checked VerifiedAccessGrant) → Consumed g.claims log r
      → Outcome b parse_strict_json v compact
          (answered (resolve g.kid) (ok key)
            ∷ answered (compact_verify compact key) (ok payload)
            ∷ log)
          (rejected r)
  unfolding Outcome NeverInserts
  prefixed g key payload parsed covered accepted log r (inl (e, never)) = inl (e, never)
  prefixed g key payload parsed covered accepted log r (inr c) = inr (record {
    grant = g;
    parsed = parsed;
    key = key;
    wall = c.wall;
    store_now = c.store_now;
    reply = c.reply;
    after = c.after;
    asked = rw (covered, c.asked) refl;
    for_verifier = is_accepted-IsFor v g.claims accepted;
    in_time = c.in_time;
    retained = c.retained;
    concluded = c.concluded;
  })

  verify_steps_always :
      Always
        (verify_steps b parse_strict_json v compact)
        (λ log r. Outcome b parse_strict_json v compact log (rejected r))
  unfolding verify_steps rejected Outcome NeverInserts
  verify_steps_always =
      after_step (parse_compact_grant b parse_strict_json compact) _ _ (λ e. inl (refl, tt))
        λ g parsed resolved.
          after_answer resolved _
            (λ x log r.
              Outcome b parse_strict_json v compact (answered (resolve g.kid) x ∷ log) (rejected r))
            (λ e. inl (refl, tt))
            λ key verified.
              after_answer verified _
                (λ x log r.
                  Outcome b parse_strict_json v compact
                    (answered (resolve g.kid) (ok key)
                      ∷ answered (compact_verify compact key) x
                      ∷ log)
                    (rejected r))
                (λ e. inl (refl, tt))
                λ payload.
                  after_step (guard (same payload g.payload_bytes) _) _ _ (λ e. inl (refl, tt))
                    λ _ unchanged.
                      after_step (guard (is_accepted v g.claims) _) _ _ (λ e. inl (refl, tt))
                        λ _ accepted.
                          always_weaken (consume_accepted g.claims) (Consumed g.claims) _
                            (prefixed g key payload parsed
                              (eq_of_same payload g.payload_bytes (guard_passed _ _ unchanged))
                              (guard_passed _ _ accepted))
                            (consume_accepted_always g.claims)

  -- Whatever is answered, a run of `verifyAndConsume` either ends with the one error that does not tell why, and
  -- the Store was not asked to insert; or it has asked, in this order, for the key of the parsed grant's id, for
  -- the signature by that key, which covers the parsed payload, for the key cache, the wall clock and the clock of
  -- the replay store, which allow the grant, and for one insert of the record that consumes it until five seconds
  -- after its end. Then it ends with the one error; or the Store has inserted, the key cache and the wall clock
  -- were asked again and allow the grant, and the claims are returned. They are for this verifier.
  pub verify_and_consume_outcomes :
      (log : List Answered) (r : Checked VerifiedAccessGrant)
      → Trace (verify_and_consume b parse_strict_json v compact) log r
      → ((r ≡ refused) × NeverInserts log) ⊎ IsConsumed b parse_strict_json v compact log r
  unfolding verify_and_consume Outcome
  verify_and_consume_outcomes log r t =
      always_traced (Outcome b parse_strict_json v compact)
        (caught_always (verify_steps b parse_strict_json v compact) _ verify_steps_always) t
