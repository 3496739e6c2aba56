-- ===== src/Tokens/Verification/Promises.antt =====
-- packages/tokens/src/verifier.ts: what the questions of a run of `verifyAndConsume`, their order and its end can be.
use authorization_core.Common.{ℕ, ◌+◌, ◌/◌, ◌≤◌, ◌<◌, true, List, [], ◌∷◌, ok, thrown, ◌≡◌, ◌⊎◌}
use mathlib.Core.List.{Memᴰ}
use authorization_core.Text.{Text, text, includes}
use authorization_core.Js.{Value}
use authorization_core.Storage.Program.{Inserted}
use authorization_core.Storage.Store.{Reply, replied}
use authorization_core.Tokens.{Checked, finite, Base64Url, AcceptedAccessGrantPolicy}
use authorization_core.Tokens.Issuer.{Claims}
use authorization_core.Tokens.Jwks.{Key}
use authorization_core.Tokens.Replay.{AccessGrantReplayRecord}
use authorization_core.Tokens.Verifier.{Verifier, ParsedGrant, parse_compact_grant}
use authorization_core.Tokens.Verification.{
  resolve, compact_verify, assert_active, verifier_wall_now, replay_now, insert_if_absent,
  VerifiedAccessGrant,
}
use authorization_core.Tokens.Verification.Traces.{Answered, answered}

-- A reading of the wall clock at which the claims are taken, five seconds allowed before their beginning.
unfoldable pub InTime : ℕ → Claims → Type 0
InTime n claims = (claims.iat ≤ n / 1000 + 5) × (n / 1000 < claims.exp)

-- Claims for a verifier: its names, one of its policies, and none but its permissions.
pub record IsFor (v : Verifier) (claims : Claims) : Type 0 where
  pub by_issuer : claims.iss ≡ v.issuer
  pub for_application : claims.application_id ≡ v.application_id
  pub for_audience : claims.aud ≡ v.audience
  pub policy : AcceptedAccessGrantPolicy
  pub policy_accepted : Memᴰ policy v.policies
  pub version_agrees : claims.policy_version ≡ policy.version
  pub digest_agrees : claims.policy_digest ≡ policy.digest
  pub permitted :
      (p : Text) → includes claims.permissions p ≡ true → includes v.permissions p ≡ true

-- The Store is not asked to insert.
unfoldable pub NeverInserts : List Answered → Type 0
NeverInserts [] = Unit
NeverInserts (answered (insert_if_absent r) x ∷ log) = ⊥
NeverInserts (answered _ x ∷ log) = NeverInserts log

-- What is returned of claims.
pub record IsGrantOf (claims : Claims) (granted : VerifiedAccessGrant) : Type 0 where
  pub issuer : granted.issuer ≡ claims.iss
  pub application_id : granted.application_id ≡ claims.application_id
  pub audience : granted.audience ≡ claims.aud
  pub principal_id : granted.principal_id ≡ claims.sub
  pub expires_at : granted.expires_at ≡ claims.exp
  pub issued_at : granted.issued_at ≡ claims.iat
  pub jti : granted.jti ≡ claims.jti
  pub policy_version : granted.policy_version ≡ claims.policy_version
  pub policy_digest : granted.policy_digest ≡ claims.policy_digest
  pub permissions : granted.permissions ≡ claims.permissions

-- The Store has inserted the record, and then the key cache and the clock were asked again.
pub record IsReturned (claims : Claims) (reply : Reply (Inserted AccessGrantReplayRecord))
    (after : List Answered) (r : Checked VerifiedAccessGrant) : Type 0 where
  pub granted : VerifiedAccessGrant
  pub returned : r ≡ ok granted
  pub of_claims : IsGrantOf claims granted
  pub result : Inserted AccessGrantReplayRecord
  pub stored : reply ≡ replied result
  pub fresh : result.inserted ≡ true
  pub later : ℕ
  pub asked :
      after ≡ answered assert_active (ok tt) ∷ answered verifier_wall_now (finite later) ∷ []
  pub in_time : InTime later claims

abbrev pub refused : Checked VerifiedAccessGrant
refused = thrown (text "access grant rejected")

-- A run that asked the Store to insert: it did so once, with the record of the parsed claims, after the key of
-- the grant's own id had verified the parsed payload, and the key cache, the wall clock and the clock of the
-- replay store had allowed it.
pub record IsConsumed (b : Base64Url) (parse_strict_json : List ℕ → Text → Checked Value)
    (v : Verifier) (compact : Text) (log : List Answered) (r : Checked VerifiedAccessGrant)
    : Type 0 where
  pub grant : ParsedGrant
  pub parsed : parse_compact_grant b parse_strict_json compact ≡ ok grant
  pub key : Key
  pub wall : ℕ
  pub store_now : ℕ
  pub reply : Reply (Inserted AccessGrantReplayRecord)
  pub after : List Answered
  pub asked :
      log
      ≡ answered (resolve grant.kid) (ok key)
        ∷ answered (compact_verify compact key) (ok grant.payload_bytes)
        ∷ answered assert_active (ok tt)
        ∷ answered verifier_wall_now (finite wall)
        ∷ answered replay_now (finite store_now)
        ∷ answered
            (insert_if_absent (record {
              issuer = grant.claims.iss;
              application_id = grant.claims.application_id;
              audience = grant.claims.aud;
              jti = grant.claims.jti;
              retain_through = grant.claims.exp + 5;
            }))
            reply
        ∷ after
  pub for_verifier : IsFor v grant.claims
  pub in_time : InTime wall grant.claims
  pub retained : store_now / 1000 ≤ grant.claims.exp + 5
  pub concluded : ((r ≡ refused) × NeverInserts after) ⊎ IsReturned grant.claims reply after r

-- How a run can end, with what it asked.
unfoldable pub Outcome :
    Base64Url
    → (List ℕ → Text → Checked Value)
    → Verifier
    → Text
    → List Answered
    → Checked VerifiedAccessGrant
    → Type 0
Outcome b parse_strict_json v compact log r =
    ((r ≡ refused) × NeverInserts log) ⊎ IsConsumed b parse_strict_json v compact log r
