-- ===== src/Identity.antt =====
-- packages/identity-link/src/index.ts, packages/auth0/src/index.ts, packages/entra/src/index.ts: from claims that
-- the host has verified to the key of an identity link. A Proxy is no value of the model.
pub mod Claims
pub mod Providers
mod Tests
use authorization_core.Common.{
  ℕ, Bool, true, false, not, ◌&&◌, ◌||◌, Option, none, some, List, [], ◌∷◌, ◌==◌, leb,
  if◌then◌else◌, length, any, Result, thrown, ok, guard, ◌>>=◌, ◌>>◌,
}
use authorization_core.Text.{Text, text, same}
use authorization_core.Js.{
  Value, boolean, string, object, array, Properties, Descriptor, data_property, accessor, own,
  own_of, is_blank, own_keys_count, keys_within,
}
use authorization_core.Contracts.{IdentityLinkKey}

-- What the adapters throw: claims of another shape; a claim that is no nonblank own string; an issuer of the
-- first version's tokens, or of none.
pub data Refusal : Type 0 where
  invalid_claims claims_not_an_object v1_issuer not_a_v2_issuer : Refusal
  claim_missing : Text → Refusal

-- `CLAIM_FIELDS`
abbrev pub claim_fields : List Text
claim_fields = text "issuer" ∷ text "subject" ∷ text "emailVerified" ∷ []

abbrev pub max_issuer_length : ℕ
max_issuer_length = 1024

abbrev pub max_subject_length : ℕ
max_subject_length = 512

-- `CONTROL.test(value)`
unfoldable pub has_control : Text → Bool
has_control value = any (λ c. leb c 0x1F || leb 0x7F c && leb c 0x9F) value

-- `isWellFormedUnicode`: each surrogate stands in a pair.
unfoldable pub is_well_formed_unicode : Text → Bool
is_well_formed_unicode [] = true
is_well_formed_unicode (c ∷ []) = not (leb 0xD800 c && leb c 0xDFFF)
is_well_formed_unicode (c ∷ d ∷ rest) =
    let paired = is_well_formed_unicode rest in
    let alone = not (leb 0xD800 c && leb c 0xDFFF) && is_well_formed_unicode (d ∷ rest) in
    if leb 0xD800 c && leb c 0xDBFF && (leb 0xDC00 d && leb d 0xDFFF) then paired else alone

-- `readDataProperty`
unfoldable pub read_data_property : Option Descriptor → Result Refusal Value
read_data_property (some (data_property v true)) = ok v
read_data_property _ = thrown invalid_claims

-- The test of `boundedIdentifier`.
unfoldable pub is_bounded_identifier : Text → ℕ → Bool
unfolding has_control is_well_formed_unicode
is_bounded_identifier value maximum =
    leb (length value) maximum
    && not (is_blank value)
    && not (has_control value)
    && is_well_formed_unicode value

-- `boundedIdentifier`
unfoldable pub bounded_identifier : Value → ℕ → Result Refusal Text
unfolding is_bounded_identifier
bounded_identifier (string value) maximum =
    if is_bounded_identifier value maximum then ok value else thrown invalid_claims
bounded_identifier _ maximum = thrown invalid_claims

unfoldable pub is_true : Value → Bool
is_true (boolean true) = true
is_true _ = false

-- The claims of a plain object, from the test of its keys on.
unfoldable pub key_of_claims : Properties → Result Refusal IdentityLinkKey
unfolding read_data_property bounded_identifier is_true
key_of_claims ps = do
  guard (own_keys_count ps == length claim_fields && keys_within ps claim_fields) invalid_claims
  issuer_value ← read_data_property (own ps (text "issuer"))
  issuer ← bounded_identifier issuer_value max_issuer_length
  subject_value ← read_data_property (own ps (text "subject"))
  subject ← bounded_identifier subject_value max_subject_length
  verified ← read_data_property (own ps (text "emailVerified"))
  guard (is_true verified) invalid_claims
  ok (record { issuer = issuer; subject = subject })

-- `identityLinkKeyFromVerifiedIdentityClaims`
unfoldable pub identity_link_key_from_verified_identity_claims :
    Value → Result Refusal IdentityLinkKey
unfolding key_of_claims
identity_link_key_from_verified_identity_claims (object true ps) = key_of_claims ps
identity_link_key_from_verified_identity_claims _ = thrown invalid_claims

string_claim : Option Descriptor → Text → Result Refusal Text
string_claim (some (data_property (string s) e)) name =
    if is_blank s then thrown (claim_missing name) else ok s
string_claim _ name = thrown (claim_missing name)

-- `readOwnStringClaim`, the same in both packages
unfoldable pub read_own_string_claim : Value → Text → Result Refusal Text
unfolding string_claim
read_own_string_claim claims name = string_claim (own_of claims name) name

-- `typeof claims === "object" && claims !== null`
unfoldable pub is_object : Value → Bool
is_object (object p ps) = true
is_object (array p ss ps) = true
is_object _ = false

-- `identityLinkKeyFromVerifiedAuth0Claims`
unfoldable pub identity_link_key_from_verified_auth0_claims : Value → Result Refusal IdentityLinkKey
unfolding is_object
identity_link_key_from_verified_auth0_claims claims = do
  guard (is_object claims) claims_not_an_object
  issuer ← read_own_string_claim claims (text "iss")
  subject ← read_own_string_claim claims (text "sub")
  ok (record { issuer = issuer; subject = subject })

-- `value.startsWith(prefix)`
unfoldable pub starts_with : Text → Text → Bool
starts_with value [] = true
starts_with [] (d ∷ prefix) = false
starts_with (c ∷ value) (d ∷ prefix) = c == d && starts_with value prefix

-- `value.endsWith(suffix)`
unfoldable pub ends_with : Text → Text → Bool
ends_with [] suffix = same [] suffix
ends_with (c ∷ value) suffix = same (c ∷ value) suffix || ends_with value suffix

abbrev pub v2_issuer_suffix : Text
v2_issuer_suffix = text "/v2.0"

abbrev pub v1_issuer_prefix : Text
v1_issuer_prefix = text "https://sts.windows.net/"

-- `assertV2Issuer`
unfoldable pub assert_v2_issuer : Text → Result Refusal (Unit {0})
unfolding starts_with ends_with
assert_v2_issuer issuer =
    if ends_with issuer v2_issuer_suffix
    then ok tt
    else (if starts_with issuer v1_issuer_prefix then thrown v1_issuer else thrown not_a_v2_issuer)

-- `identityLinkKeyFromVerifiedEntraClaims`
unfoldable pub identity_link_key_from_verified_entra_claims : Value → Result Refusal IdentityLinkKey
unfolding is_object
identity_link_key_from_verified_entra_claims claims = do
  guard (is_object claims) claims_not_an_object
  issuer ← read_own_string_claim claims (text "iss")
  subject ← read_own_string_claim claims (text "oid")
  assert_v2_issuer issuer
  ok (record { issuer = issuer; subject = subject })
