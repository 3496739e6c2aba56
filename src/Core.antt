-- ===== src/Core.antt =====
-- packages/core/src/index.ts: the resolver, its own-property reads and the access decisions.
-- A thrown TypeError is the label of its message with what the message says of it.
pub mod Reads
pub mod Resolution
pub mod Sets
pub mod Decisions
pub mod Typed
mod Tests
use authorization_core.Common.{
  Bool, true, false, not, Option, none, some, List, [], ◌∷◌, ◌++◌, if◌then◌else◌, Result, ok,
  thrown, ◌>>=◌, ◌>>◌, guard,
}
use authorization_core.Text.{Text, text, includes, sort, distinct}
use authorization_core.Js.{
  Value, undefined, null, boolean, number, string, opaque, array, object, Slots, nil, slot, hole,
  Descriptor, data_property, accessor, own_of, is_blank,
}
use authorization_core.Contracts.{
  AccessContext, AccessResolution, AccessResolutionDiagnostics, AccessDecision, granted,
  not_granted,
}

-- What a TypeError says of the field in its label.
pub data Problem : Type 0 where
  must_not_be_empty must_be_own_data must_be_a_string must_be_an_array must_be_dense
        must_be_an_object :
      Problem

pub data Error : Type 0 where
  type_error : Text → Problem → Error

-- `requireName`
pub require_name : Text → Text → Result Error (Unit {0})
require_name value field = guard (not (is_blank value)) (type_error field must_not_be_empty)

-- `ownDataValue`
own_data : Option Descriptor → Text → Result Error Value
own_data none label = thrown (type_error label must_be_own_data)
own_data (some (accessor e)) label = thrown (type_error label must_be_own_data)
own_data (some (data_property v e)) label = ok v

own_data_value : Value → Text → Text → Result Error Value
unfolding own_data
own_data_value value field label = own_data (own_of value field) label

-- `optionalOwnDataValue`
optional_own_data : Option Descriptor → Text → Result Error Value
optional_own_data none label = ok undefined
optional_own_data (some (accessor e)) label = thrown (type_error label must_be_own_data)
optional_own_data (some (data_property v e)) label = ok v

optional_own_data_value : Value → Text → Text → Result Error Value
unfolding optional_own_data
optional_own_data_value value field label = optional_own_data (own_of value field) label

-- `requiredString`
as_string : Value → Text → Result Error Text
as_string (string s) label = ok s
as_string _ label = thrown (type_error label must_be_a_string)

pub required_string : Value → Text → Text → Result Error Text
unfolding own_data_value as_string require_name
required_string value field label = do
  candidate ← own_data_value value field label
  s ← as_string candidate label
  require_name s label
  ok s

-- The loop of `copyStringArrayValue` over the indices of an array.
copy_slots : Slots → Text → Result Error (List Text)
copy_slots nil label = ok []
copy_slots (slot (data_property (string s) e) ss) label = do
  rest ← copy_slots ss label
  ok (s ∷ rest)
copy_slots _ label = thrown (type_error label must_be_dense)

-- `copyStringArrayValue`. An array's `length` is always an own data property that holds a safe
-- integer, so the test of it passes.
copy_string_array_value : Value → Text → Result Error (List Text)
unfolding copy_slots
copy_string_array_value (array p ss ps) label = copy_slots ss label
copy_string_array_value _ label = thrown (type_error label must_be_an_array)

-- `copyStringArray`
pub copy_string_array : Value → Text → Result Error (List Text)
unfolding own_data_value copy_string_array_value
copy_string_array value field = do
  candidate ← own_data_value value field field
  copy_string_array_value candidate field

-- `copyOptionalStringArray`
copy_unless_undefined : Value → Text → Result Error (List Text)
unfolding copy_string_array_value
copy_unless_undefined undefined label = ok []
copy_unless_undefined candidate label = copy_string_array_value candidate label

pub copy_optional_string_array : Value → Text → Text → Result Error (List Text)
unfolding optional_own_data_value copy_unless_undefined
copy_optional_string_array value field label = do
  candidate ← optional_own_data_value value field label
  copy_unless_undefined candidate label

-- `uniqueSorted`
pub unique_sorted : List Text → List Text
unique_sorted values = sort (distinct values)

-- `ownPermissions`: `none` where the name is unknown
permissions_at : Option Descriptor → Text → Result Error (Option (List Text))
unfolding copy_unless_undefined
permissions_at none label = ok none
permissions_at (some (accessor e)) label = thrown (type_error label must_be_own_data)
permissions_at (some (data_property v e)) label = do
  values ← copy_unless_undefined v label
  ok (some values)

pub own_permissions : Option Value → Text → Text → Result Error (Option (List Text))
unfolding permissions_at
own_permissions none name label = ok none
own_permissions (some assignments) name label =
    permissions_at (own_of assignments name) (label ++ (text "." ++ name))

-- `optionalPermissionMap`
as_map : Value → Text → Result Error (Option Value)
as_map undefined label = ok none
as_map (array p ss ps) label = ok (some (array p ss ps))
as_map (object p ps) label = ok (some (object p ps))
as_map _ label = thrown (type_error label must_be_an_object)

pub optional_permission_map : Value → Text → Result Error (Option Value)
unfolding optional_own_data_value as_map
optional_permission_map policy field = do
  candidate ← optional_own_data_value policy field (text "policy." ++ field)
  as_map candidate (text "policy." ++ field)

-- `granted.add(permission)` and the loop of it; a Set is its elements in the order of insertion
add : List Text → Text → List Text
add set value = if includes set value then set else set ++ (value ∷ [])

add_all : List Text → List Text → List Text
unfolding add
add_all set [] = set
add_all set (value ∷ values) = add_all (add set value) values

-- What a loop over names has gathered: the permissions granted and the names unknown.
pub record Tally : Type 0 where
  pub granted : List Text
  pub unknown : List Text

record_name : Tally → Text → Option (List Text) → Tally
unfolding add_all
record_name t name none = record t { unknown = t.unknown ++ (name ∷ []) }
record_name t name (some permissions) = record t { granted = add_all t.granted permissions }

-- The two loops of `resolveAccessInternal`, over roles and over entitlements.
pub grant_names : Option Value → Text → List Text → Tally → Result Error Tally
unfolding own_permissions record_name
grant_names assignments label [] t = ok t
grant_names assignments label (name ∷ names) t = do
  found ← own_permissions assignments name label
  grant_names assignments label names (record_name t name found)

-- `resolveAccessInternal`, and so `resolveAccessWithDiagnostics`
pub resolve_access_with_diagnostics : Value → Value → Result Error AccessResolution
unfolding required_string copy_optional_string_array unique_sorted optional_permission_map
    grant_names
resolve_access_with_diagnostics subject policy = do
  principal_id ← required_string subject (text "principalId") (text "principalId")
  policy_version ← required_string policy (text "version") (text "policy.version")
  role_names ← copy_optional_string_array subject (text "roles") (text "roles")
  entitlement_names ← copy_optional_string_array subject (text "entitlements") (text "entitlements")
  defaults ← copy_optional_string_array policy (text "defaults") (text "policy.defaults")
  role_assignments ← optional_permission_map policy (text "roles")
  entitlement_assignments ← optional_permission_map policy (text "entitlements")
  let roles = unique_sorted role_names
  let entitlements = unique_sorted entitlement_names
  by_role ←
      grant_names role_assignments (text "policy.roles") roles
        (record { granted = distinct defaults; unknown = [] })
  by_entitlement ←
      grant_names entitlement_assignments (text "policy.entitlements") entitlements
        (record { granted = by_role.granted; unknown = [] })
  ok (record {
    context = record {
      principal_id = principal_id;
      policy_version = policy_version;
      roles = roles;
      entitlements = entitlements;
      permissions = unique_sorted by_entitlement.granted;
    };
    diagnostics = record {
      unknown_roles = by_role.unknown;
      unknown_entitlements = by_entitlement.unknown;
    };
  })

-- `resolveAccess`
pub resolve_access : Value → Value → Result Error AccessContext
unfolding resolve_access_with_diagnostics
resolve_access subject policy = do
  resolution ← resolve_access_with_diagnostics subject policy
  ok resolution.context

-- `hasPermission`
pub has_permission : AccessContext → Text → Result Error Bool
unfolding require_name
has_permission context permission = do
  require_name permission (text "permission")
  ok (includes context.permissions permission)

-- `decideAccess`
pub decide_access : AccessContext → Text → Result Error AccessDecision
unfolding has_permission
decide_access context permission = do
  allowed ← has_permission context permission
  ok (record {
    allowed = allowed;
    permission = permission;
    reason = if allowed then granted else not_granted;
  })
