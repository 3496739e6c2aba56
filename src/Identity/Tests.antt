-- ===== src/Identity/Tests.antt =====
-- Examples of packages/identity-link, packages/auth0 and packages/entra: claims that give a key, and two that do not.
use authorization_core.Common.{Bool, true, false, ◌++◌, ◌≡◌, ◌↔◌, refl, ok, thrown}
use authorization_core.Text.{Text, text}
use authorization_core.Js.{
  Value, boolean, string, object, Properties, end, property, name, data_property, own, own_of,
  is_blank, own_keys_count, keys_within,
}
use authorization_core.Contracts.{IdentityLinkKey}
use authorization_core.Identity.{
  v1_issuer, invalid_claims, v2_issuer_suffix, identity_link_key_from_verified_identity_claims,
  identity_link_key_from_verified_auth0_claims, identity_link_key_from_verified_entra_claims,
  read_own_string_claim, assert_v2_issuer,
}
use authorization_core.Identity.Claims.{HasClaims, identity_claims_key}
use authorization_core.Identity.Providers.{HasString, auth0_claims_key, entra_claims_key}

abbrev two_claims : Text → Text → Text → Text → Value
two_claims f s g t = object true (
    property (name f) (data_property (string s) true)
      (property (name g) (data_property (string t) true) end))

abbrev ada_key : Text → IdentityLinkKey
ada_key issuer = record { issuer = issuer; subject = text "ada" }

abbrev verified_claims : Bool → Value
verified_claims verified = object true (
    property (name (text "issuer")) (data_property (string (text "id")) true) (
      property (name (text "subject")) (data_property (string (text "ada")) true)
        (property (name (text "emailVerified")) (data_property (boolean verified) true) end)))

verified_projects :
    identity_link_key_from_verified_identity_claims (verified_claims true)
    ≡ ok (ada_key (text "id"))
unfolding identity_link_key_from_verified_identity_claims own is_blank own_keys_count keys_within
verified_projects = refl

unverified_refused :
    identity_link_key_from_verified_identity_claims (verified_claims false) ≡ thrown invalid_claims
unfolding identity_link_key_from_verified_identity_claims own is_blank own_keys_count keys_within
unverified_refused = refl

-- A token of the first version is told apart.
v1_refused :
    identity_link_key_from_verified_entra_claims
      (two_claims (text "iss") (text "https://sts.windows.net/t/") (text "oid") (text "ada"))
    ≡ thrown v1_issuer
unfolding identity_link_key_from_verified_entra_claims own_of is_blank read_own_string_claim
    assert_v2_issuer
v1_refused = refl

abbrev v2_claims : Value
v2_claims = two_claims (text "iss") (text "https://x/v2.0") (text "oid") (text "ada")

v2_projects :
    identity_link_key_from_verified_entra_claims v2_claims ≡ ok (ada_key (text "https://x/v2.0"))
unfolding identity_link_key_from_verified_entra_claims own_of is_blank read_own_string_claim
    assert_v2_issuer
v2_projects = refl

identity_claims_key_example :
    (identity_link_key_from_verified_identity_claims (verified_claims true)
      ≡ ok (ada_key (text "id")))
    ↔ ((ps : Properties) × (verified_claims true ≡ object true ps)
        × HasClaims ps (ada_key (text "id")))
identity_claims_key_example = identity_claims_key (verified_claims true) (ada_key (text "id"))

auth0_claims_key_example :
    (identity_link_key_from_verified_auth0_claims
        (two_claims (text "iss") (text "id") (text "sub") (text "ada"))
      ≡ ok (ada_key (text "id")))
    ↔ (HasString
          (two_claims (text "iss") (text "id") (text "sub") (text "ada"))
          (text "iss")
          (text "id")
        × HasString
            (two_claims (text "iss") (text "id") (text "sub") (text "ada"))
            (text "sub")
            (text "ada"))
auth0_claims_key_example =
    auth0_claims_key (two_claims (text "iss") (text "id") (text "sub") (text "ada"))
      (ada_key (text "id"))

entra_claims_key_example :
    (identity_link_key_from_verified_entra_claims v2_claims ≡ ok (ada_key (text "https://x/v2.0")))
    ↔ (HasString v2_claims (text "iss") (text "https://x/v2.0")
        × HasString v2_claims (text "oid") (text "ada")
        × ((start : Text) × (text "https://x/v2.0" ≡ start ++ v2_issuer_suffix)))
entra_claims_key_example = entra_claims_key v2_claims (ada_key (text "https://x/v2.0"))
