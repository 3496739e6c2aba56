-- ===== src/Core/Reads.antt =====
-- What the own-property reads of packages/core/src/index.ts return, said by the input object alone.
use authorization_core.Common.{
  Bool, true, false, Option, none, some, List, ◌∷◌, ◌++◌, ◌≡◌, ◌||◌, ok, ◌>>=◌, ◌>>◌, arith,
  >>=-eq-ok, ok_step, ap, ◌∙◌,
}
use authorization_core.Text.{Text, text, same, includes}
use authorization_core.Js.{
  Value, undefined, string, array, object, Slots, nil, slot, hole, Descriptor, data_property,
  accessor, own_of, is_blank,
}
use authorization_core.Core.{
  require_name, own_data, own_data_value, optional_own_data, optional_own_data_value, as_string,
  required_string, copy_slots, copy_unless_undefined, copy_optional_string_array, permissions_at,
  own_permissions, as_map, optional_permission_map,
}

-- Whether an array has the string among its elements.
unfoldable pub slot_has : Slots → Text → Bool
slot_has nil p = false
slot_has (slot (data_property (string s) e) ss) p = same s p || slot_has ss p
slot_has (slot _ ss) p = slot_has ss p
slot_has (hole ss) p = slot_has ss p

-- Whether the property is an own data property that holds an array with the string.
unfoldable pub lists : Option Descriptor → Text → Bool
unfolding slot_has
lists (some (data_property (array q ss ps) e)) p = slot_has ss p
lists _ p = false

-- The value of an own data property.
unfoldable pub read : Option Descriptor → Value
read (some (data_property v e)) = v
read _ = undefined

-- Whether the name is an own property of the map; a map left out has none.
abbrev pub is_some : Option Descriptor → Bool
is_some none = false
is_some (some d) = true

unfoldable pub known : Value → Text → Bool
known assignments name = is_some (own_of assignments name)

includes-copy_slots :
    (ss : Slots) (label p : Text) {values : List Text}
    → copy_slots ss label ≡ ok values
    → includes values p ≡ slot_has ss p
unfolding copy_slots slot_has includes
includes-copy_slots nil label p h = ground arith
includes-copy_slots (slot (data_property (string s) e) ss) label p h =
    let (rest, copied, same_values) = >>=-eq-ok (copy_slots ss label) (λ r. ok (s ∷ r)) h in
    let ih = includes-copy_slots ss label p copied in ground arith
includes-copy_slots _ label p h = cc

includes-copy_unless_undefined :
    (v : Value) (e : Bool) (label p : Text) {values : List Text}
    → copy_unless_undefined v label ≡ ok values
    → includes values p ≡ lists (some (data_property v e)) p
unfolding copy_unless_undefined lists includes
includes-copy_unless_undefined undefined e label p h = ground arith
includes-copy_unless_undefined (array q ss ps) e label p h = includes-copy_slots ss label p h
includes-copy_unless_undefined _ e label p h = cc

includes-optional :
    (d : Option Descriptor) (label p : Text) {values : List Text}
    → (optional_own_data d label >>= λ v. copy_unless_undefined v label) ≡ ok values
    → includes values p ≡ lists d p
unfolding optional_own_data copy_unless_undefined lists includes
includes-optional none label p h = ground arith
includes-optional (some (accessor e)) label p h = cc
includes-optional (some (data_property v e)) label p h =
    includes-copy_unless_undefined v e label p h

-- An optional list has the strings of the array that the property holds.
pub includes-copy_optional_string_array :
    (value : Value) (field label p : Text) {values : List Text}
    → copy_optional_string_array value field label ≡ ok values
    → includes values p ≡ lists (own_of value field) p
unfolding copy_optional_string_array
includes-copy_optional_string_array value field label p h =
    includes-optional (own_of value field) label p h

-- The value of `own_permissions`: the permissions of a known name.
abbrev pub of_found : Option (List Text) → Text → Bool
of_found none p = false
of_found (some values) p = includes values p

abbrev pub was_found : Option (List Text) → Bool
was_found none = false
was_found (some values) = true

abbrev pub map_or_empty : Option Value → Value
map_or_empty none = undefined
map_or_empty (some v) = v

includes-permissions_at :
    (d : Option Descriptor) (label p : Text) {found : Option (List Text)}
    → permissions_at d label ≡ ok found
    → (of_found found p ≡ lists d p) × (was_found found ≡ is_some d)
unfolding permissions_at lists
includes-permissions_at none label p h = ground arith
includes-permissions_at (some (accessor e)) label p h = cc
includes-permissions_at (some (data_property v e)) label p h =
    let (values, copied, same_values) =
      >>=-eq-ok (copy_unless_undefined v label) (λ r. ok (some r)) h in
    let ih = includes-copy_unless_undefined v e label p copied in ground arith

pub includes-own_permissions :
    (assignments : Option Value) (name label p : Text) {found : Option (List Text)}
    → own_permissions assignments name label ≡ ok found
    → (of_found found p ≡ lists (own_of (map_or_empty assignments) name) p)
      × (was_found found ≡ known (map_or_empty assignments) name)
unfolding own_permissions own_of lists known
includes-own_permissions none name label p h = ground arith
includes-own_permissions (some a) name label p h =
    includes-permissions_at (own_of a name) (label ++ (text "." ++ name)) p h

as_map-read :
    (v : Value) (label : Text) {m : Option Value} → as_map v label ≡ ok m → map_or_empty m ≡ v
unfolding as_map
as_map-read undefined label h = ground arith
as_map-read (array q ss ps) label h = ground arith
as_map-read (object q ps) label h = ground arith
as_map-read _ label h = cc

optional-read :
    (d : Option Descriptor) (label : Text) {v : Value}
    → optional_own_data d label ≡ ok v
    → v ≡ read d
unfolding optional_own_data read
optional-read none label h = ground arith
optional-read (some (accessor e)) label h = cc
optional-read (some (data_property v e)) label h = ground arith

pub optional_permission_map-read :
    (policy : Value) (field : Text) {m : Option Value}
    → optional_permission_map policy field ≡ ok m
    → map_or_empty m ≡ read (own_of policy field)
unfolding optional_permission_map optional_own_data_value
optional_permission_map-read policy field h =
    let label = text "policy." ++ field in
    let (v, got, mapped) =
      >>=-eq-ok (optional_own_data (own_of policy field) label) (λ c. as_map c label) h in
    cc (as_map-read v label mapped, optional-read (own_of policy field) label got)

as_string-ok : (v : Value) (label : Text) {s : Text} → as_string v label ≡ ok s → v ≡ string s
unfolding as_string
as_string-ok (string t) label h = cc
as_string-ok _ label h = cc

own_data-ok :
    (d : Option Descriptor) (label : Text) {v : Value} → own_data d label ≡ ok v → read d ≡ v
unfolding own_data read
own_data-ok none label h = cc
own_data-ok (some (accessor e)) label h = cc
own_data-ok (some (data_property v e)) label h = cc

-- A required string is the value of the own data property, and is not blank.
pub required_string-ok :
    (value : Value) (field label : Text) {s : Text}
    → required_string value field label ≡ ok s
    → (read (own_of value field) ≡ string s) × (is_blank s ≡ false)
unfolding required_string own_data_value require_name
required_string-ok value field label {s} h =
    ok_step (own_data (own_of value field) label) _ h λ v got more.
      ok_step (as_string v label) _ more λ t is_string last. (
        own_data-ok (own_of value field) label got
            ∙ as_string-ok v label is_string
            ∙ ap string (finish t last).0,
        (finish t last).1,
      )
  where
    finish : (t : Text) → (require_name t label >> ok t) ≡ ok s → (t ≡ s) × (is_blank s ≡ false)
    finish t e = ground arith
