-- ===== src/Policy/Tests.antt =====
-- Examples of packages/policy/src/index.ts: a document that is a policy, and one that is not.
use authorization_core.Common.{
  true, false, none, some, List, [], ◌∷◌, ◌≡◌, ◌≢◌, refl, ◌||◌, ok, thrown,
}
use authorization_core.Text.{Text, text, includes, sort, distinct}
use authorization_core.Js.{
  Value, string, number, nonneg, object, end, property, name, data_property, own, own_of, is_blank,
  decimal,
}
use authorization_core.Contracts.{AccessPolicy, AccessSubject, AccessContext}
use authorization_core.Core.{resolve_access}
use authorization_core.Core.Reads.{lists, read}
use authorization_core.Core.Resolution.{gives}
use authorization_core.Core.Typed.{array_of, subject_object, policy_object}
use authorization_core.Tokens.{code_points}
use authorization_core.Policy.{
  is_permission_name, PolicyDiagnostic, parse_policy, duplicate_grant, unknown_field,
}
use authorization_core.Policy.Documents.{
  Means, parse_policy-Means, parse_policy_resolves, parse_policy_diagnoses,
}

abbrev house_document : Value
house_document = object true (
    property (name (text "schemaVersion")) (data_property (number (nonneg 1)) true) (
      property (name (text "version")) (data_property (string (text "v1")) true) (
        property (name (text "defaults")) (data_property (array_of (text "read" ∷ [])) true) (
          property (name (text "roles"))
            (data_property
              (object true (
                property (name (text "editor"))
                  (data_property (array_of (text "post.write" ∷ [])) true) end))
              true)
            end))))

abbrev house_policy : AccessPolicy
house_policy = record {
  version = text "v1";
  defaults = some (text "read" ∷ []);
  roles = some ((text "editor", text "post.write" ∷ []) ∷ []);
  entitlements = none;
}

house_parses : parse_policy house_document ≡ ok house_policy
unfolding parse_policy own sort distinct is_blank is_permission_name code_points
house_parses = refl

parse_policy-Means_example : Means house_document house_policy
parse_policy-Means_example = parse_policy-Means house_document house_parses

abbrev ada : AccessSubject
ada = record { principal_id = text "ada"; roles = some (text "editor" ∷ []); entitlements = none }

ada_filled : is_blank (text "ada") ≡ false
unfolding is_blank
ada_filled = refl

parse_policy_resolves_example :
    (c : AccessContext) × (resolve_access (subject_object ada) (policy_object house_policy) ≡ ok c)
    × (read (own_of house_document (text "version")) ≡ string c.policy_version)
    × ((q : Text)
        → includes c.permissions q ≡ (
            lists (own_of house_document (text "defaults")) q
            || gives house_document (text "roles") c.roles q
            || gives house_document (text "entitlements") c.entitlements q))
parse_policy_resolves_example = parse_policy_resolves house_document ada house_parses ada_filled

-- A grant that is repeated, and a field that the document may not have.
abbrev wrong_document : Value
wrong_document = object true (
    property (name (text "schemaVersion")) (data_property (number (nonneg 1)) true) (
      property (name (text "version")) (data_property (string (text "v1")) true) (
        property (name (text "defaults"))
          (data_property (array_of (text "read" ∷ text "read" ∷ [])) true)
          (property (name (text "a/b")) (data_property (number (nonneg 1)) true) end))))

abbrev wrong : List PolicyDiagnostic
wrong =
    record { code = unknown_field; path = text "/a~1b"; related_path = none }
    ∷ record {
      code = duplicate_grant;
      path = text "/defaults/1";
      related_path = some (text "/defaults/0");
    }
    ∷ []

wrong_thrown : parse_policy wrong_document ≡ thrown wrong
unfolding parse_policy own sort distinct is_blank is_permission_name decimal
wrong_thrown = refl

parse_policy_diagnoses_example : wrong ≢ []
parse_policy_diagnoses_example = parse_policy_diagnoses wrong_document wrong_thrown
