-- ===== src/Tokens/Verification/Tests.antt =====
-- Examples of packages/tokens/src/verifier.ts: a grant that is consumed, and one whose signature does not hold.
use authorization_core.Common.{
  ℕ, true, some, List, [], ◌∷◌, ◌++◌, ok, thrown, ◌≡◌, refl, ◌⊎◌, if◌then◌else◌,
}
use authorization_core.Text.{Text, text, same, before, includes}
use authorization_core.Js.{Value, string, own_of, object, property, name, data_property, end, trim}
use authorization_core.Storage.Store.{replied}
use authorization_core.Tokens.{
  is_permission, is_numeric_date, decode_canonical_base64url, is_canonical_base64url32, is_kid,
  code_points, Checked, finite, Base64Url, has_policy, is_bounded_identity, is_policy_version,
  is_policy_digest,
}
use authorization_core.Tokens.Handover.{claims_object}
use authorization_core.Tokens.Replay.{AccessGrantReplayRecord, may_consume, consumed_by}
use authorization_core.Tokens.Tests.{repeated, ada_claims, api_verifier}
use authorization_core.Tokens.Verifier.{
  is_accepted, require_grant_time_window, parse_header, parse_claims, strings_of, permissions_value,
  parse_compact_grant, ParsedGrant,
}
use authorization_core.Tokens.Verification.{
  resolve, compact_verify, assert_active, verifier_wall_now, replay_now, insert_if_absent,
  verify_and_consume, verified_access_grant,
}
use authorization_core.Tokens.Verification.Traces.{Answered, answered, Trace, asks, ends}
use authorization_core.Tokens.Verification.Promises.{refused, NeverInserts, IsConsumed}
use authorization_core.Tokens.Verification.Outcomes.{verify_and_consume_outcomes}

-- A code that writes the bytes as they are, but those of the identifier.
abbrev plain_code : Base64Url
plain_code = record {
  encode = λ bytes. if same bytes (repeated 32 0) then repeated 43 65 else bytes;
  decode = λ t. some (if same t (repeated 43 65) then repeated 32 0 else t);
}

abbrev grant_header : Value
grant_header = object true (
    property (name (text "alg")) (data_property (string (text "ES256")) true) (
      property (name (text "typ")) (data_property (string (text "pegma-access-grant+jwt")) true)
        (property (name (text "kid")) (data_property (string (text "signing-key-2026")) true) end)))

abbrev grant_json : List ℕ → Text → Checked Value
grant_json bytes label =
    if same bytes (text "h") then ok grant_header else ok (claims_object ada_claims)

abbrev ada_compact : Text
ada_compact = text "h.p." ++ repeated 64 66

abbrev ada_parsed : ParsedGrant
ada_parsed = record { kid = text "signing-key-2026"; claims = ada_claims; payload_bytes = text "p" }

ada_parses : parse_compact_grant plain_code grant_json ada_compact ≡ ok ada_parsed
unfolding parse_compact_grant claims_object decode_canonical_base64url same own_of parse_header
    parse_claims is_canonical_base64url32 is_bounded_identity is_policy_version is_policy_digest
    strings_of permissions_value is_kid trim before code_points is_permission
ada_parses = refl

abbrev ada_consumption : AccessGrantReplayRecord
ada_consumption = record {
  issuer = text "https://shop";
  application_id = text "shop";
  audience = text "api";
  jti = repeated 43 65;
  retain_through = 1035;
}

abbrev ada_log : List Answered
ada_log =
    answered (resolve (text "signing-key-2026")) (ok 9)
    ∷ answered (compact_verify ada_compact 9) (ok (text "p"))
    ∷ answered assert_active (ok tt)
    ∷ answered verifier_wall_now (finite 1001000)
    ∷ answered replay_now (finite 1001500)
    ∷ answered (insert_if_absent ada_consumption)
        (replied (record { value = ada_consumption; inserted = true }))
    ∷ answered assert_active (ok tt)
    ∷ answered verifier_wall_now (finite 1002000)
    ∷ []

ada_verified :
    Trace
      (verify_and_consume plain_code grant_json api_verifier ada_compact)
      ada_log
      (ok (verified_access_grant ada_claims))
unfolding verify_and_consume same is_accepted has_policy includes require_grant_time_window
    may_consume is_numeric_date consumed_by
ada_verified = rw ada_parses (
    asks (ok 9) (
      asks (ok (text "p")) (
        asks (ok tt) (
          asks (finite 1001000) (
            asks (finite 1001500) (
              asks (replied (record { value = ada_consumption; inserted = true }))
                (asks (ok tt) (asks (finite 1002000) ends))))))))

verify_and_consume_outcomes_example :
    ((ok (verified_access_grant ada_claims) ≡ refused) × NeverInserts ada_log)
    ⊎ IsConsumed plain_code grant_json api_verifier ada_compact ada_log
        (ok (verified_access_grant ada_claims))
verify_and_consume_outcomes_example =
    verify_and_consume_outcomes plain_code grant_json api_verifier ada_compact ada_log
      (ok (verified_access_grant ada_claims)) ada_verified

-- A signature that does not hold: nothing is consumed.
forged_refused :
    Trace
      (verify_and_consume plain_code grant_json api_verifier ada_compact)
      (answered (resolve (text "signing-key-2026")) (ok 9)
        ∷ answered (compact_verify ada_compact 9) (thrown (text "signature verification failed"))
        ∷ [])
      refused
unfolding verify_and_consume same is_accepted has_policy includes require_grant_time_window
    may_consume is_numeric_date consumed_by
forged_refused =
    rw ada_parses (asks (ok 9) (asks (thrown (text "signature verification failed")) ends))
