-- ===== src/Tokens/Verifier.antt =====
-- packages/tokens/src/verifier.ts: the grant in its compact form, and the tests of a verifier. base64url
-- is a parameter, and so is the JSON of the bytes.
use authorization_core.Common.{
  ℕ, suc, ◌+◌, ◌-◌, ◌/◌, Bool, true, false, not, ◌&&◌, ◌||◌, Option, none, some, List, [], ◌∷◌,
  ◌==◌, leb, ltb, if◌then◌else◌, all, length, thrown, ok, guard, ◌>>=◌, ◌>>◌, is_nil,
}
use authorization_core.Text.{Text, text, same, includes}
use authorization_core.Js.{
  Value, undefined, string, number, object, array, nonneg, Slots, nil, slot, hole, Properties, end,
  property, name, symbol, Descriptor, data_property, accessor, own_of, max_safe_integer,
}
use authorization_core.Tokens.{
  Checked, Reading, finite, invalid, AcceptedAccessGrantPolicy, has_policy, Base64Url, is_kid,
  is_bounded_identity, is_policy_version, is_policy_digest, is_canonical_permissions,
  is_canonical_base64url32, is_numeric_date, decode_canonical_base64url,
  max_access_grant_lifetime_seconds, max_negative_verifier_offset_seconds,
  max_compact_access_grant_length,
}
use authorization_core.Tokens.Issuer.{Claims}

-- `Object.keys(value).length` of these own properties
pub keys_count : Properties → ℕ
keys_count end = 0
keys_count (property (name k) (data_property v true) ps) = suc (keys_count ps)
keys_count (property (name k) (data_property v false) ps) = keys_count ps
keys_count (property (name k) (accessor true) ps) = suc (keys_count ps)
keys_count (property (name k) (accessor false) ps) = keys_count ps
keys_count (property (symbol n) d ps) = keys_count ps

pub is_own : Option Descriptor → Bool
is_own none = false
is_own (some d) = true

-- `exactRecord`
pub exact_record : Value → List Text → Text → Checked Value
unfolding keys_count is_own
exact_record (object true ps) fields problem = do
  guard (keys_count ps == length fields && all (λ f. is_own (own_of (object true ps) f)) fields)
      problem
  ok (object true ps)
exact_record _ fields problem = thrown problem

-- `record[field]` of a data property
pub member : Option Descriptor → Value
member (some (data_property v e)) = v
member (some (accessor e)) = undefined
member none = undefined

abbrev field : Value → Text → Value
field value key = member (own_of value key)

-- A string that passes a test.
pub string_that : (Text → Bool) → Value → Option Text
string_that passes (string s) = if passes s then some s else none
string_that passes _ = none

-- `isNumericDate`
pub numeric_date_of : Value → Option ℕ
unfolding is_numeric_date
numeric_date_of (number (nonneg n)) = if is_numeric_date n then some n else none
numeric_date_of _ = none

-- The elements of an array of strings without holes.
unfoldable pub strings_of : Slots → Option (List Text)
strings_of nil = some []
strings_of (slot (data_property (string s) e) ss) = elim (strings_of ss) [
  | none ↦ none
  | some rest ↦ some (s ∷ rest)
]
strings_of (slot _ ss) = none
strings_of (hole ss) = none

-- `isCanonicalPermissions`
unfoldable pub permissions_value : Value → Option (List Text)
unfolding strings_of is_canonical_permissions
permissions_value (array p ss ps) = elim (strings_of ss) [
  | none ↦ none
  | some permissions ↦ if is_canonical_permissions permissions then some permissions else none
]
permissions_value _ = none

pub or_malformed : {A : Type 0} → Option A → Checked A
or_malformed none = thrown (text "access-grant claims are malformed")
or_malformed (some a) = ok a

abbrev header_fields : List Text
header_fields = text "alg" ∷ text "kid" ∷ text "typ" ∷ []

abbrev claim_fields : List Text
claim_fields =
    text "iss"
    ∷ text "application_id"
    ∷ text "aud"
    ∷ text "sub"
    ∷ text "exp"
    ∷ text "iat"
    ∷ text "jti"
    ∷ text "profile_version"
    ∷ text "policy_version"
    ∷ text "policy_digest"
    ∷ text "permissions"
    ∷ []

-- The key id of a protected header of the profile.
unfoldable pub parse_header : Value → Checked Text
unfolding exact_record member string_that is_kid
parse_header value = do
  _ ← exact_record value header_fields (text "protected header must contain exactly the V1 fields")
  elim (string_that (same (text "ES256")) (field value (text "alg"))) [
    | none ↦ thrown (text "protected header is not an access-grant V1 header")
    | some alg ↦
        elim (string_that (same (text "pegma-access-grant+jwt")) (field value (text "typ"))) [
          | none ↦ thrown (text "protected header is not an access-grant V1 header")
          | some typ ↦ elim (string_that is_kid (field value (text "kid"))) [
            | none ↦ thrown (text "protected header is not an access-grant V1 header")
            | some kid ↦ ok kid
          ]
        ]
  ]

is_version_one : Value → Bool
is_version_one (number (nonneg n)) = n == 1
is_version_one _ = false

-- The claims of an object with exactly the fields of the profile, each of its form. The code tests
-- them in one condition, so one error is thrown whichever test fails.
unfoldable pub parse_claims : Base64Url → Value → Checked Claims
unfolding exact_record member string_that numeric_date_of permissions_value or_malformed
    is_version_one is_bounded_identity is_policy_version is_policy_digest is_canonical_base64url32
parse_claims b value = do
  _ ← exact_record value claim_fields (text "claims must contain exactly the V1 fields")
  iss ← or_malformed (string_that (λ t. not (is_nil t)) (field value (text "iss")))
  application_id ←
      or_malformed (string_that is_bounded_identity (field value (text "application_id")))
  aud ← or_malformed (string_that (λ t. not (is_nil t)) (field value (text "aud")))
  sub ← or_malformed (string_that is_bounded_identity (field value (text "sub")))
  exp ← or_malformed (numeric_date_of (field value (text "exp")))
  iat ← or_malformed (numeric_date_of (field value (text "iat")))
  guard (ltb iat exp && leb (exp - iat) max_access_grant_lifetime_seconds)
      (text "access-grant claims are malformed")
  jti ← or_malformed (string_that (is_canonical_base64url32 b) (field value (text "jti")))
  guard (is_version_one (field value (text "profile_version")))
      (text "access-grant claims are malformed")
  policy_version ←
      or_malformed (string_that is_policy_version (field value (text "policy_version")))
  policy_digest ← or_malformed (string_that is_policy_digest (field value (text "policy_digest")))
  permissions ← or_malformed (permissions_value (field value (text "permissions")))
  ok (record {
    iss = iss;
    application_id = application_id;
    aud = aud;
    sub = sub;
    exp = exp;
    iat = iat;
    jti = jti;
    policy_version = policy_version;
    policy_digest = policy_digest;
    permissions = permissions;
  })

-- `value.split(".")`
pub split_dots : Text → List Text
split_dots [] = [] ∷ []
split_dots (c ∷ t) = elim (split_dots t) [
  | [] ↦ []
  | part ∷ parts ↦ if c == 46 then [] ∷ part ∷ parts else (c ∷ part) ∷ parts
]

pub record ParsedGrant : Type 0 where
  pub kid : Text
  pub claims : Claims
  pub payload_bytes : List ℕ

parse_segments : Base64Url → (List ℕ → Text → Checked Value) → List Text → Checked ParsedGrant
unfolding parse_header parse_claims
parse_segments b parse_strict_json (encoded_header ∷ encoded_payload ∷ encoded_signature ∷ []) = do
  guard (not (is_nil encoded_header || is_nil encoded_payload || is_nil encoded_signature))
      (text "access grant must have exactly three compact segments")
  header_bytes ←
      decode_canonical_base64url b encoded_header
        (text "protected header is not canonical base64url")
  payload_bytes ←
      decode_canonical_base64url b encoded_payload (text "payload is not canonical base64url")
  signature_bytes ←
      decode_canonical_base64url b encoded_signature (text "signature is not canonical base64url")
  guard (length signature_bytes == 64) (text "ES256 compact signature must be 64 bytes")
  header ← parse_strict_json header_bytes (text "protected header")
  kid ← parse_header header
  value ← parse_strict_json payload_bytes (text "claims")
  claims ← parse_claims b value
  ok (record { kid = kid; claims = claims; payload_bytes = payload_bytes })
parse_segments b parse_strict_json _ =
    thrown (text "access grant must have exactly three compact segments")

-- `parseCompactGrant`
unfoldable pub parse_compact_grant :
    Base64Url → (List ℕ → Text → Checked Value) → Text → Checked ParsedGrant
unfolding parse_segments split_dots
parse_compact_grant b parse_strict_json compact = do
  guard (leb (length compact) max_compact_access_grant_length)
      (text "access grant exceeds the accepted compact size")
  parse_segments b parse_strict_json (split_dots compact)

-- What `createAccessGrantVerifierInternal` closes over.
pub record Verifier : Type 0 where
  pub issuer : Text
  pub application_id : Text
  pub audience : Text
  pub permissions : List Text
  pub policies : List AcceptedAccessGrantPolicy

-- `requireGrantTimeWindow`
unfoldable pub require_grant_time_window : Reading → Claims → Checked (Unit {0})
require_grant_time_window invalid claims = thrown (text "verifier wall clock is invalid")
require_grant_time_window (finite wall_now) claims =
    let now = wall_now / 1000 in
    guard
      (leb now max_safe_integer
        && leb claims.iat (now + max_negative_verifier_offset_seconds)
        && ltb now claims.exp)
      (text "access grant is outside its time window")

-- Whether the claims are for this verifier.
unfoldable pub is_accepted : Verifier → Claims → Bool
is_accepted v claims =
    same claims.iss v.issuer
    && same claims.application_id v.application_id
    && same claims.aud v.audience
    && has_policy v.policies claims.policy_version claims.policy_digest
    && all (includes v.permissions) claims.permissions
