-- ===== src/Core/Typed.antt =====
-- The objects that a TypeScript caller passes to packages/core/src/index.ts: an `AccessSubject` and
-- an `AccessPolicy` as plain objects with own enumerable data properties. On these the resolver
-- returns.
use authorization_core.Common.{
  Bool, true, false, Option, none, some, List, [], ◌∷◌, ◌++◌, ◌≡◌, refl, ◌||◌, ok, ◌>>=◌, arith,
  any, if◌then◌else◌, Bool-cases, inl, inr,
}
use mathlib.Core.Path.{fun_ext}
use authorization_core.Text.{Text, text, same, includes, distinct}
use authorization_core.Js.{
  Value, string, array, object, Slots, nil, slot, Properties, end, property, name, data_property,
  own, own_of, is_blank,
}
use authorization_core.Contracts.{AccessSubject, AccessPolicy, AccessContext}
use authorization_core.Core.{
  Tally, required_string, copy_slots, copy_optional_string_array, optional_permission_map,
  permissions_at, optional_own_data, copy_unless_undefined, unique_sorted, own_permissions,
  record_name, grant_names, resolve_access,
}
use authorization_core.Core.Reads.{slot_has, lists, read, includes-copy_optional_string_array}
use authorization_core.Core.Resolution.{gives, resolve_access-permissions}

abbrev pub slots_of : List Text → Slots
slots_of [] = nil
slots_of (s ∷ ss) = slot (data_property (string s) true) (slots_of ss)

abbrev pub array_of : List Text → Value
array_of ss = array true (slots_of ss) end

-- A property that is left out where the optional field is.
abbrev pub put_list : Text → Option (List Text) → Properties → Properties
put_list k none ps = ps
put_list k (some ss) ps = property (name k) (data_property (array_of ss) true) ps

abbrev pub entries_of : List (Text × List Text) → Properties
entries_of [] = end
entries_of ((k, ss) ∷ m) = property (name k) (data_property (array_of ss) true) (entries_of m)

abbrev pub put_map : Text → Option (List (Text × List Text)) → Properties → Properties
put_map k none ps = ps
put_map k (some m) ps = property (name k) (data_property (object true (entries_of m)) true) ps

unfoldable pub subject_object : AccessSubject → Value
subject_object s = object true (
    property (name (text "principalId")) (data_property (string s.principal_id) true)
      (put_list (text "roles") s.roles (put_list (text "entitlements") s.entitlements end)))

unfoldable pub policy_object : AccessPolicy → Value
policy_object p = object true (
    property (name (text "version")) (data_property (string p.version) true) (
      put_list (text "defaults") p.defaults
        (put_map (text "roles") p.roles (put_map (text "entitlements") p.entitlements end))))

copy_slots_of : (ss : List Text) (label : Text) → copy_slots (slots_of ss) label ≡ ok ss
unfolding copy_slots
copy_slots_of [] label = refl
copy_slots_of (s ∷ ss) label = rw (copy_slots_of ss label)

permissions_at_entry :
    (m : List (Text × List Text)) (n label : Text)
    → (found : Option (List Text)) × (permissions_at (own (entries_of m) n) label ≡ ok found)
unfolding own permissions_at
permissions_at_entry [] n label = (none, refl)
permissions_at_entry ((k, ss) ∷ m) n label = elim (Bool-cases (same k n)) [
  | inl here ↦ (some ss, rw (here, copy_slots_of))
  | inr there ↦ rw there (permissions_at_entry m n label)
]

abbrev map_value : Option (List (Text × List Text)) → Option Value
map_value none = none
map_value (some m) = some (object true (entries_of m))

grant_names_typed :
    (m : Option (List (Text × List Text))) (label : Text) (names : List Text) (t : Tally)
    → (t' : Tally) × (grant_names (map_value m) label names t ≡ ok t')
unfolding grant_names own_permissions own_of
grant_names_typed m label [] t = (t, refl)
grant_names_typed none label (n ∷ names) t =
    grant_names_typed none label names (record_name t n none)
grant_names_typed (some m) label (n ∷ names) t =
    let (found, e) = permissions_at_entry m n (label ++ (text "." ++ n)) in
    rw e (grant_names_typed (some m) label names (record_name t n found))

abbrev pub or_empty : Option (List Text) → List Text
or_empty none = []
or_empty (some ss) = ss

module _ (s : AccessSubject) where
  read_principal :
      is_blank s.principal_id ≡ false
      → required_string (subject_object s) (text "principalId") (text "principalId")
        ≡ ok s.principal_id
  unfolding required_string subject_object own_of
  read_principal h = rw h

  read_roles :
      copy_optional_string_array (subject_object s) (text "roles") (text "roles")
      ≡ ok (or_empty s.roles)
  unfolding copy_optional_string_array subject_object own_of
  read_roles = split s.roles s.entitlements
    where
      split :
          (rs es : Option (List Text))
          → copy_optional_string_array
              (object true (
                property
                  (name (text "principalId"))
                  (data_property (string s.principal_id) true)
                  (put_list (text "roles") rs (put_list (text "entitlements") es end))))
              (text "roles")
              (text "roles")
            ≡ ok (or_empty rs)
      split none none = refl
      split none (some es) = refl
      split (some rs) es = rw copy_slots_of

  read_entitlements :
      copy_optional_string_array (subject_object s) (text "entitlements") (text "entitlements")
      ≡ ok (or_empty s.entitlements)
  unfolding copy_optional_string_array subject_object own_of
  read_entitlements = split s.roles s.entitlements
    where
      split :
          (rs es : Option (List Text))
          → copy_optional_string_array
              (object true (
                property
                  (name (text "principalId"))
                  (data_property (string s.principal_id) true)
                  (put_list (text "roles") rs (put_list (text "entitlements") es end))))
              (text "entitlements")
              (text "entitlements")
            ≡ ok (or_empty es)
      split none none = refl
      split (some rs) none = refl
      split none (some es) = rw copy_slots_of
      split (some rs) (some es) = rw copy_slots_of

module _ (p : AccessPolicy) where
  read_version :
      is_blank p.version ≡ false
      → required_string (policy_object p) (text "version") (text "policy.version") ≡ ok p.version
  unfolding required_string policy_object own_of
  read_version h = rw h

  -- The descriptors of the three optional fields.
  own_defaults :
      own_of (policy_object p) (text "defaults")
      ≡ elim p.defaults [ none ↦ none | some ss ↦ some (data_property (array_of ss) true) ]
  unfolding policy_object own_of
  own_defaults = split p.defaults p.roles p.entitlements
    where
      split :
          (d : Option (List Text)) (r e : Option (List (Text × List Text)))
          → own
              (put_list
                (text "defaults")
                d
                (put_map (text "roles") r (put_map (text "entitlements") e end)))
              (text "defaults")
            ≡ elim d [ none ↦ none | some ss ↦ some (data_property (array_of ss) true) ]
      split none none none = refl
      split none none (some e) = refl
      split none (some r) none = refl
      split none (some r) (some e) = refl
      split (some d) r e = refl

  own_roles : own_of (policy_object p) (text "roles") ≡ elim p.roles [
    | none ↦ none
    | some m ↦ some (data_property (object true (entries_of m)) true)
  ]
  unfolding policy_object own_of
  own_roles = split p.defaults p.roles p.entitlements
    where
      split :
          (d : Option (List Text)) (r e : Option (List (Text × List Text)))
          → own
              (put_list
                (text "defaults")
                d
                (put_map (text "roles") r (put_map (text "entitlements") e end)))
              (text "roles")
            ≡ elim r [
              | none ↦ none
              | some m ↦ some (data_property (object true (entries_of m)) true)
            ]
      split none none none = refl
      split none none (some e) = refl
      split (some d) none none = refl
      split (some d) none (some e) = refl
      split none (some r) e = refl
      split (some d) (some r) e = refl

  own_entitlements : own_of (policy_object p) (text "entitlements") ≡ elim p.entitlements [
    | none ↦ none
    | some m ↦ some (data_property (object true (entries_of m)) true)
  ]
  unfolding policy_object own_of
  own_entitlements = split p.defaults p.roles p.entitlements
    where
      split :
          (d : Option (List Text)) (r e : Option (List (Text × List Text)))
          → own
              (put_list
                (text "defaults")
                d
                (put_map (text "roles") r (put_map (text "entitlements") e end)))
              (text "entitlements")
            ≡ elim e [
              | none ↦ none
              | some m ↦ some (data_property (object true (entries_of m)) true)
            ]
      split none none none = refl
      split none none (some e) = refl
      split (some d) none none = refl
      split (some d) none (some e) = refl
      split none (some r) none = refl
      split none (some r) (some e) = refl
      split (some d) (some r) none = refl
      split (some d) (some r) (some e) = refl

  read_defaults :
      copy_optional_string_array (policy_object p) (text "defaults") (text "policy.defaults")
      ≡ ok (or_empty p.defaults)
  unfolding copy_optional_string_array
  read_defaults = rw own_defaults (split p.defaults)
    where
      split :
          (d : Option (List Text))
          → (optional_own_data
                (elim d [ none ↦ none | some ss ↦ some (data_property (array_of ss) true) ])
                (text "policy.defaults")
              >>= λ v. copy_unless_undefined v (text "policy.defaults"))
            ≡ ok (or_empty d)
      split none = refl
      split (some ss) = rw copy_slots_of

  read_map :
      (field : Text) (m : Option (List (Text × List Text)))
      → own_of (policy_object p) field
        ≡ elim m [ none ↦ none | some es ↦ some (data_property (object true (entries_of es)) true) ]
      → optional_permission_map (policy_object p) field ≡ ok (map_value m)
  unfolding optional_permission_map
  read_map field none e = rw e
  read_map field (some m) e = rw e

-- Whether a map of names lists the permission under the name; its first entry for a name is the one
-- that an object has.
unfoldable pub assigns : List (Text × List Text) → Text → Text → Bool
assigns [] n q = false
assigns ((k, ss) ∷ m) n q = if same k n then includes ss q else assigns m n q

abbrev pub assigned : Option (List (Text × List Text)) → List Text → Text → Bool
assigned none names q = false
assigned (some m) names q = any (λ n. assigns m n q) names

slot_has_of : (ss : List Text) (q : Text) → slot_has (slots_of ss) q ≡ includes ss q
unfolding slot_has includes
slot_has_of [] q = refl
slot_has_of (s ∷ ss) q = rw (slot_has_of ss q)

lists_entry :
    (m : List (Text × List Text)) (n q : Text) → lists (own (entries_of m) n) q ≡ assigns m n q
unfolding own lists assigns
lists_entry [] n q = refl
lists_entry ((k, ss) ∷ m) n q = ground (arith, lists_entry m n q, slot_has_of ss q)

pub any-false : (names : List Text) → any (λ n. false) names ≡ false
any-false [] = refl
any-false (n ∷ names) = any-false names

gives-assigned :
    (p : AccessPolicy) (field : Text) (m : Option (List (Text × List Text))) (names : List Text)
    (q : Text)
    → own_of (policy_object p) field
      ≡ elim m [ none ↦ none | some es ↦ some (data_property (object true (entries_of es)) true) ]
    → gives (policy_object p) field names q ≡ assigned m names q
unfolding gives lists read own_of
gives-assigned p field none names q e = rw e (any-false names)
gives-assigned p field (some m) names q e = rw e (rw (fun_ext (λ n. lists_entry m n q)))

-- On a typed subject and policy whose principal and version are not blank the resolver returns; the
-- context has that principal and that version, its roles and entitlements are those of the subject,
-- and it holds a permission exactly when it is a default, or the policy assigns it to one of the
-- context's roles, or to one of its entitlements.
pub resolve_access_typed :
    (s : AccessSubject) (p : AccessPolicy)
    → is_blank s.principal_id ≡ false
    → is_blank p.version ≡ false
    → (c : AccessContext) × (resolve_access (subject_object s) (policy_object p) ≡ ok c)
      × (c.principal_id ≡ s.principal_id)
      × (c.policy_version ≡ p.version)
      × (c.roles ≡ unique_sorted (or_empty s.roles))
      × (c.entitlements ≡ unique_sorted (or_empty s.entitlements))
      × ((q : Text)
          → includes c.permissions q ≡ (
              includes (or_empty p.defaults) q
              || assigned p.roles c.roles q
              || assigned p.entitlements c.entitlements q))
unfolding resolve_access
resolve_access_typed s p hs hp =
    let roles = unique_sorted (or_empty s.roles) in
    let entitlements = unique_sorted (or_empty s.entitlements) in
    let (by_role, one) =
      grant_names_typed p.roles (text "policy.roles") roles
        (record { granted = distinct (or_empty p.defaults); unknown = [] }) in
    let (by_entitlement, two) =
      grant_names_typed p.entitlements (text "policy.entitlements") entitlements
        (record { granted = by_role.granted; unknown = [] }) in
    let c : AccessContext = record {
      principal_id = s.principal_id;
      policy_version = p.version;
      roles = roles;
      entitlements = entitlements;
      permissions = unique_sorted by_entitlement.granted;
    } in
    let returns : resolve_access (subject_object s) (policy_object p) ≡ ok c = rw (
      read_principal s hs,
      read_version p hp,
      read_roles s,
      read_entitlements s,
      read_defaults p,
      read_map p (text "roles") p.roles (own_roles p),
      read_map p (text "entitlements") p.entitlements (own_entitlements p),
      one,
      two,
    ) in
    (
      c,
      returns,
      refl,
      refl,
      refl,
      refl,
      λ q. rw (
        resolve_access-permissions (subject_object s) (policy_object p) q returns,
        gives-assigned p (text "roles") p.roles roles q (own_roles p),
        gives-assigned p (text "entitlements") p.entitlements entitlements q (own_entitlements p),
        ← includes-copy_optional_string_array (policy_object p) _ _ q (read_defaults p),
      ),
    )
