-- ===== src/Policy.antt =====
-- packages/policy/src/index.ts: the validator of policy documents. A document is a JavaScript value; a
-- Proxy, whose reflective failures `validatePolicy` catches, is left out.
pub mod Lists
pub mod Maps
pub mod Documents
mod Tests
use authorization_core.Common.{
  ℕ, suc, Bool, true, false, not, ◌&&◌, ◌||◌, Option, none, some, List, [], ◌∷◌, ◌++◌, ◌==◌, leb,
  if◌then◌else◌, length, is_nil, any, filter, Result, thrown, ok,
}
use authorization_core.Text.{Text, text, same, includes, sort, distinct}
use authorization_core.Js.{
  Value, undefined, string, number, nonneg, array, object, Slots, nil, slot, hole, Properties, end,
  property, PropertyKey, name, symbol, Descriptor, data_property, accessor, own, own_of, decimal,
  trim, is_blank,
}
use authorization_core.Contracts.{AccessPolicy}
use authorization_core.Tokens.{code_points, follows, Spot, segment, is_policy_version}

pub data PolicyDiagnosticCode : Type 0 where
  invalid_structure invalid_type missing_field unknown_field unsupported_schema_version
        invalid_policy_version empty_name invalid_name malformed_permission duplicate_grant :
      PolicyDiagnosticCode

-- The related path is none where the source leaves it out. The message follows from code and place.
pub record PolicyDiagnostic : Type 0 where
  pub code : PolicyDiagnosticCode
  pub path : Text
  pub related_path : Option Text

pub data PolicyValidationResult : Type 0 where
  valid : AccessPolicy → PolicyValidationResult
  invalid : List PolicyDiagnostic → PolicyValidationResult

pub at_path : PolicyDiagnosticCode → Text → PolicyDiagnostic
at_path code path = record { code = code; path = path; related_path = none }

-- The escapes of RFC 6901.
escaped : Text → Text
escaped [] = []
escaped (c ∷ t) =
    let rest = escaped t in
    if c == b'~' then b'~' ∷ b'0' ∷ rest else if c == b'/' then b'~' ∷ b'1' ∷ rest else c ∷ rest

-- `pointer`
pub pointer : Text → Text → Text
unfolding escaped
pointer parent token = parent ++ (b'/' ∷ escaped token)

-- Whether there is a symbol among the keys.
pub has_symbol : Properties → Bool
has_symbol end = false
has_symbol (property (name k) d ps) = has_symbol ps
has_symbol (property (symbol n) d ps) = true

pub is_plain : Descriptor → Bool
is_plain (data_property v e) = e
is_plain (accessor e) = false

-- Whether all properties are enumerable data properties.
pub all_plain : Properties → Bool
unfolding is_plain
all_plain end = true
all_plain (property k d ps) = is_plain d && all_plain ps

-- `plainRecordIssue`, as to whether there is one
unfoldable pub is_plain_record : Bool → Properties → Bool
unfolding has_symbol all_plain
is_plain_record proto ps = proto && not (has_symbol ps) && all_plain ps

slots_plain : Slots → Bool
unfolding is_plain
slots_plain nil = true
slots_plain (slot d ss) = is_plain d && slots_plain ss
slots_plain (hole ss) = slots_plain ss

-- Whether an array has own properties beside its elements and its length.
has_others : Properties → Bool
has_others end = false
has_others (property (name k) d ps) = not (same k (text "length")) || has_others ps
has_others (property (symbol n) d ps) = has_others ps

is_sparse : Slots → Bool
is_sparse nil = false
is_sparse (slot d ss) = is_sparse ss
is_sparse (hole ss) = true

-- `arrayIssue`, as to whether there is one
unfoldable pub is_plain_array : Bool → Slots → Properties → Bool
unfolding slots_plain has_others is_sparse has_symbol
is_plain_array proto ss ps =
    proto && not (has_symbol ps) && not (has_others ps) && slots_plain ss && not (is_sparse ss)

-- `validateHostName`
unfoldable pub validate_host_name : Text → Text → List PolicyDiagnostic
unfolding at_path
validate_host_name host path =
    if is_nil host
    then at_path empty_name path ∷ []
    else (if not (same (trim host) host)
          || any (λ c. leb c 31 || c == 127) host
          || not (leb (code_points host) 255)
        then at_path invalid_name path ∷ []
        else [])

-- `PERMISSION_NAME_PATTERN` and the bound on the length
unfoldable pub is_permission_name : Text → Bool
unfolding follows
is_permission_name value = leb (length value) 255 && follows segment value

-- `validatePermission`
unfoldable pub validate_permission : Text → Text → List PolicyDiagnostic
unfolding at_path
validate_permission value path =
    if is_nil value || is_blank value
    then at_path empty_name path ∷ []
    else (if is_permission_name value then [] else at_path malformed_permission path ∷ [])

-- `firstPaths.get(item)`
pub first_path : List (Text × Text) → Text → Option Text
first_path [] item = none
first_path ((k, path) ∷ rest) item =
    let later = first_path rest item in if same k item then some path else later

-- What a repeated item is told, with the path where it first stood.
pub repeated : Option Text → Text → List PolicyDiagnostic
repeated none path = []
repeated (some first) path =
    record { code = duplicate_grant; path = path; related_path = some first } ∷ []

pub noted : Option Text → Text → Text → List (Text × Text) → List (Text × Text)
noted none item path firsts = (item, path) ∷ firsts
noted (some first) item path firsts = firsts

-- The loop of `validateGrantList`, from an index on.
unfoldable pub validate_items :
    Text → ℕ → List (Text × Text) → Slots → List Text × List PolicyDiagnostic
unfolding validate_permission first_path repeated noted at_path pointer
validate_items path at firsts nil = ([], [])
validate_items path at firsts (slot (data_property (string item) e) ss) =
    let here = pointer path (decimal at) in
    let first = first_path firsts item in
    let (permissions, later) = validate_items path (suc at) (noted first item here firsts) ss in
    (item ∷ permissions, validate_permission item here ++ (repeated first here ++ later))
validate_items path at firsts (slot _ ss) =
    let (permissions, later) = validate_items path (suc at) firsts ss in
    (permissions, at_path invalid_type (pointer path (decimal at)) ∷ later)
validate_items path at firsts (hole ss) =
    let (permissions, later) = validate_items path (suc at) firsts ss in
    (permissions, at_path invalid_type (pointer path (decimal at)) ∷ later)

pub found_list : List Text × List PolicyDiagnostic → Option (List Text) × List PolicyDiagnostic
found_list (permissions, diagnostics) = (some permissions, diagnostics)

-- `validateGrantList`
unfoldable pub validate_grant_list : Value → Text → Option (List Text) × List PolicyDiagnostic
unfolding at_path is_plain_array validate_items found_list
validate_grant_list (array proto ss ps) path =
    let items = found_list (validate_items path 0 [] ss) in
    if is_plain_array proto ss ps then items else (none, at_path invalid_structure path ∷ [])
validate_grant_list _ path = (none, at_path invalid_type path ∷ [])

-- `Object.keys(record)` of properties that are all enumerable
pub names_of : Properties → List Text
names_of end = []
names_of (property (name k) d ps) = k ∷ names_of ps
names_of (property (symbol n) d ps) = names_of ps

-- `ownValue`
pub own_value_of : Option Descriptor → Value
own_value_of (some (data_property v e)) = v
own_value_of (some (accessor e)) = undefined
own_value_of none = undefined

pub added :
    Text
    → Option (List Text) × List PolicyDiagnostic
    → List (Text × List Text) × List PolicyDiagnostic
    → List (Text × List Text) × List PolicyDiagnostic
added key (none, here) (entries, later) = (entries, here ++ later)
added key (some permissions, here) (entries, later) = ((key, permissions) ∷ entries, here ++ later)

-- The loop of `validatePermissionMap` over names.
unfoldable pub validate_entries :
    Properties → Text → List Text → List (Text × List Text) × List PolicyDiagnostic
unfolding added own_value_of validate_host_name validate_grant_list pointer
validate_entries ps path [] = ([], [])
validate_entries ps path (key ∷ names) =
    let here = pointer path key in
    let (permissions, problems) = validate_grant_list (own_value_of (own ps key)) here in
    added key (permissions, validate_host_name key here ++ problems)
      (validate_entries ps path names)

pub found_map :
    List (Text × List Text) × List PolicyDiagnostic
    → Option (List (Text × List Text)) × List PolicyDiagnostic
found_map (entries, diagnostics) = (some entries, diagnostics)

-- `validatePermissionMap`; the kind of its names occurs in messages only.
unfoldable pub validate_permission_map :
    Value → Text → Option (List (Text × List Text)) × List PolicyDiagnostic
unfolding at_path is_plain_record validate_entries names_of found_map
validate_permission_map (object proto ps) path =
    let entries = found_map (validate_entries ps path (sort (distinct (names_of ps)))) in
    if is_plain_record proto ps then entries else (none, at_path invalid_structure path ∷ [])
validate_permission_map _ path = (none, at_path invalid_type path ∷ [])

abbrev policy_fields : List Text
policy_fields =
    text "schemaVersion"
    ∷ text "version"
    ∷ text "defaults"
    ∷ text "roles"
    ∷ text "entitlements"
    ∷ []

unknown_fields : List Text → List PolicyDiagnostic
unfolding at_path pointer
unknown_fields [] = []
unknown_fields (field ∷ fields) = at_path unknown_field (pointer [] field) ∷ unknown_fields fields

-- The check of `schemaVersion`.
unfoldable pub schema_problems : Option Descriptor → List PolicyDiagnostic
unfolding at_path
schema_problems none = at_path missing_field (text "/schemaVersion") ∷ []
schema_problems (some (data_property (number (nonneg n)) e)) =
    if n == 1 then [] else at_path unsupported_schema_version (text "/schemaVersion") ∷ []
schema_problems (some (data_property (number _) e)) =
    at_path unsupported_schema_version (text "/schemaVersion") ∷ []
schema_problems (some _) = at_path invalid_type (text "/schemaVersion") ∷ []

-- The check of `version`.
unfoldable pub version_found : Option Descriptor → Option Text × List PolicyDiagnostic
unfolding at_path is_policy_version
version_found none = (none, at_path missing_field (text "/version") ∷ [])
version_found (some (data_property (string version) e)) =
    if is_policy_version version
    then (some version, [])
    else (none, at_path invalid_policy_version (text "/version") ∷ [])
version_found (some _) = (none, at_path invalid_type (text "/version") ∷ [])

-- A field that may be left out.
pub optional_field :
    {A : Type 0}
    → (Value → Text → Option A × List PolicyDiagnostic)
    → Option Descriptor
    → Text
    → Option A × List PolicyDiagnostic
unfolding own_value_of
optional_field validate none path = (none, [])
optional_field validate (some d) path = validate (own_value_of (some d)) path

-- The end of `validatePolicyInternal`: a policy, when nothing was found wrong.
unfoldable pub concluded :
    List PolicyDiagnostic
    → Option Text
    → Option (List Text)
    → Option (List (Text × List Text))
    → Option (List (Text × List Text))
    → PolicyValidationResult
concluded diagnostics none defaults roles entitlements = invalid diagnostics
concluded [] (some version) defaults roles entitlements =
    valid (record {
      version = version;
      defaults = defaults;
      roles = roles;
      entitlements = entitlements;
    })
concluded (d ∷ diagnostics) (some version) defaults roles entitlements = invalid (d ∷ diagnostics)

-- `validatePolicyInternal` of a record
unfoldable pub validate_record : Properties → PolicyValidationResult
unfolding unknown_fields schema_problems version_found optional_field validate_grant_list
    validate_permission_map concluded names_of
validate_record ps =
    let unknown =
      unknown_fields
        (sort (filter (λ f. not (includes policy_fields f)) (distinct (names_of ps)))) in
    let (version, version_problems) = version_found (own ps (text "version")) in
    let (defaults, default_problems) =
      optional_field validate_grant_list (own ps (text "defaults")) (text "/defaults") in
    let (roles, role_problems) =
      optional_field validate_permission_map (own ps (text "roles")) (text "/roles") in
    let (entitlements, entitlement_problems) =
      optional_field validate_permission_map (own ps (text "entitlements"))
        (text "/entitlements") in
    concluded
      (unknown
        ++ (schema_problems (own ps (text "schemaVersion"))
            ++ (version_problems ++ (default_problems ++ (role_problems ++ entitlement_problems)))))
      version defaults roles entitlements

-- `validatePolicyInternal`, which is `validatePolicy` where nothing throws
unfoldable pub validate_policy : Value → PolicyValidationResult
unfolding at_path is_plain_record validate_record
validate_policy (object proto ps) =
    let document = validate_record ps in
    if is_plain_record proto ps then document else invalid (at_path invalid_structure [] ∷ [])
validate_policy _ = invalid (at_path invalid_type [] ∷ [])

-- `parsePolicy`, whose error carries the diagnostics
unfoldable pub parse_policy : Value → Result (List PolicyDiagnostic) AccessPolicy
unfolding validate_policy
parse_policy input = elim (validate_policy input) [
  | valid policy ↦ ok policy
  | invalid diagnostics ↦ thrown diagnostics
]
