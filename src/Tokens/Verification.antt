-- ===== src/Tokens/Verification.antt =====
-- packages/tokens/src/verifier.ts and replay.ts: `verifyAndConsume` as a program of what it asks, in order: the
-- key cache, the signature check of the jose library, the clocks and the Store. Others may run between two
-- questions, and nothing is assumed of the answers.
pub mod Traces
pub mod Promises
pub mod Outcomes
mod Tests
use authorization_core.Common.{ℕ, ◌+◌, not, Bool, List, [], ◌∷◌, thrown, ok, guard}
use authorization_core.Text.{Text, text, same}
use authorization_core.Js.{Value}
use authorization_core.Storage.Program.{Inserted}
use authorization_core.Storage.Store.{Reply}
use authorization_core.Tokens.{Checked, Reading, Base64Url, max_negative_verifier_offset_seconds}
use authorization_core.Tokens.Issuer.{Claims}
use authorization_core.Tokens.Jwks.{Key}
use authorization_core.Tokens.Replay.{AccessGrantReplayRecord, may_consume, consumed_by}
use authorization_core.Tokens.Verifier.{
  Verifier, ParsedGrant, parse_compact_grant, is_accepted, require_grant_time_window,
}

-- `jwks.resolve(kid)`, `compactVerify(compact, key)` with ES256 only, `jwks.assertActive()`, the clocks of the
-- verifier and of the replay store, and `records.insertIfAbsent(record)`.
pub data Question : Type 0 where
  resolve : Text → Question
  compact_verify : Text → Key → Question
  assert_active verifier_wall_now replay_now : Question
  insert_if_absent : AccessGrantReplayRecord → Question

-- The payload that a verified signature covers, as its bytes.
abbrev pub Answer : Question → Type 0
Answer (resolve kid) = Checked Key
Answer (compact_verify compact key) = Checked (List ℕ)
Answer assert_active = Checked (Unit {0})
Answer verifier_wall_now = Reading
Answer replay_now = Reading
Answer (insert_if_absent r) = Reply (Inserted AccessGrantReplayRecord)

pub data Program (A : Type 0) : Type 0 where
  done : Checked A → Program A
  ask : (q : Question) → (Answer q → Program A) → Program A

infixl 5 ◌>>=◌
abbrev pub ◌>>=◌ : {A B : Type 0} → Program A → (A → Program B) → Program B
done (thrown e) >>= f = done (thrown e)
done (ok a) >>= f = f a
ask q k >>= f = ask q (λ x. k x >>= f)

abbrev pub call : (q : Question) → Program (Answer q)
call q = ask q (λ x. done (ok x))

-- `consume`
unfoldable pub consume : AccessGrantReplayRecord → Program (Unit {0})
consume record_of_grant = do
  now ← call replay_now
  _ ← done (may_consume now record_of_grant)
  reply ← call (insert_if_absent record_of_grant)
  done (consumed_by record_of_grant reply)

-- `jwks.assertActive(); requireGrantTimeWindow(claims);`
unfoldable pub require_current : Claims → Program (Unit {0})
require_current claims = do
  active ← call assert_active
  _ ← done active
  wall ← call verifier_wall_now
  done (require_grant_time_window wall claims)

pub record VerifiedAccessGrant : Type 0 where
  pub issuer : Text
  pub application_id : Text
  pub audience : Text
  pub principal_id : Text
  pub expires_at : ℕ
  pub issued_at : ℕ
  pub jti : Text
  pub policy_version : Text
  pub policy_digest : Text
  pub permissions : List Text

unfoldable pub verified_access_grant : Claims → VerifiedAccessGrant
verified_access_grant claims = record {
  issuer = claims.iss;
  application_id = claims.application_id;
  audience = claims.aud;
  principal_id = claims.sub;
  expires_at = claims.exp;
  issued_at = claims.iat;
  jti = claims.jti;
  policy_version = claims.policy_version;
  policy_digest = claims.policy_digest;
  permissions = claims.permissions;
}

-- The record that consumes a grant.
unfoldable pub replay_record : Claims → AccessGrantReplayRecord
replay_record claims = record {
  issuer = claims.iss;
  application_id = claims.application_id;
  audience = claims.aud;
  jti = claims.jti;
  retain_through = claims.exp + max_negative_verifier_offset_seconds;
}

-- The consumption, and the checks before and after it.
unfoldable pub consume_accepted : Claims → Program VerifiedAccessGrant
unfolding require_current consume replay_record verified_access_grant
consume_accepted claims = do
  _ ← require_current claims
  _ ← consume (replay_record claims)
  _ ← require_current claims
  done (ok (verified_access_grant claims))

-- The body of the `try`.
unfoldable pub verify_steps :
    Base64Url → (List ℕ → Text → Checked Value) → Verifier → Text → Program VerifiedAccessGrant
unfolding consume_accepted
verify_steps b parse_strict_json v compact = do
  parsed ← done (parse_compact_grant b parse_strict_json compact)
  resolved ← call (resolve parsed.kid)
  key ← done resolved
  verified ← call (compact_verify compact key)
  payload ← done verified
  _ ←
      done
        (guard (same payload parsed.payload_bytes) (text "verified access-grant payload changed"))
  _ ←
      done
        (guard (is_accepted v parsed.claims) (text "access grant is not accepted by this verifier"))
  consume_accepted parsed.claims

-- The `catch` throws one error for all.
unfoldable pub rejected : {A : Type 0} → Checked A → Checked A
rejected (thrown e) = thrown (text "access grant rejected")
rejected (ok a) = ok a

unfoldable pub caught : {A : Type 0} → Program A → Program A
unfolding rejected
caught (done r) = done (rejected r)
caught (ask q k) = ask q (λ x. caught (k x))

-- `verifyAndConsume`
unfoldable pub verify_and_consume :
    Base64Url → (List ℕ → Text → Checked Value) → Verifier → Text → Program VerifiedAccessGrant
unfolding verify_steps caught
verify_and_consume b parse_strict_json v compact =
    caught (verify_steps b parse_strict_json v compact)
