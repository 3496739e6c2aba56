-- ===== src/Policy/Maps.antt =====
-- What `validatePermissionMap` of packages/policy/src/index.ts finds right.
use authorization_core.Common.{
  true, false, ◌&&◌, Option, none, some, List, [], ◌∷◌, ◌++◌, ◌≡◌, refl, sym, ap, ◌∙◌, ◌⊎◌, arith,
  all, inl, inr, Bool-cases, All,
}
use authorization_core.Text.{Text, same, includes, sort, distinct}
use authorization_core.Text.Order.{eq_of_same}
use authorization_core.Text.Sorting.{includes-sort, includes-distinct}
use authorization_core.Js.{
  object, Properties, end, property, name, symbol, Descriptor, data_property, accessor, own, own_of,
}
use authorization_core.Core.Reads.{lists, read}
use authorization_core.Core.Typed.{assigns}
use authorization_core.Policy.{
  PolicyDiagnostic, pointer, validate_host_name, validate_grant_list, validate_entries, added,
  validate_permission_map, is_plain_record, names_of, found_map, own_value_of, is_permission_name,
}
use authorization_core.Policy.Lists.{both_empty, IsGrantList, validate_grant_list-IsGrantList}

-- A map without problems, of the properties of an object, for the names that were gone through.
pub record IsRightMap (ps : Properties) (names : List Text) (m : List (Text × List Text))
    : Type 0 where
  pub named : All (λ (e : Text × List Text). all is_permission_name e.1 ≡ true) m
  pub hosts : All (λ n. (path : Text) × (validate_host_name n path ≡ [])) names
  pub assigned : (n q : Text) → assigns m n q ≡ (includes names n && lists (own ps n) q)

entry-IsRightMap :
    (ps : Properties) (key path : Text) (names permissions : List Text)
    (m : List (Text × List Text))
    → IsGrantList (own ps key) permissions
    → validate_host_name key path ≡ []
    → IsRightMap ps names m
    → IsRightMap ps (key ∷ names) ((key, permissions) ∷ m)
unfolding assigns includes
entry-IsRightMap ps key path names permissions m g host r = record {
  named = (g.named, r.named);
  hosts = ((path, host), r.hosts);
  assigned = λ n q. at n q (Bool-cases (same key n));
}
  where
    at :
        (n q : Text)
        → (same key n ≡ true) ⊎ (same key n ≡ false)
        → assigns ((key, permissions) ∷ m) n q ≡ (includes (key ∷ names) n && lists (own ps n) q)
    at n q (inl here) = rw here (g.listed q ∙ ap (λ k. lists (own ps k) q) (eq_of_same key n here))
    at n q (inr there) = rw there (r.assigned n q)

added_lem :
    (key : Text) (g : Option (List Text) × List PolicyDiagnostic)
    (r : List (Text × List Text) × List PolicyDiagnostic)
    → (added key g r).1 ≡ []
    → (g.1 ≡ []) × (r.1 ≡ [])
unfolding added
added_lem key (none, here) (entries, later) h = both_empty here later h
added_lem key (some permissions, here) (entries, later) h = both_empty here later h

added-found :
    (key : Text) (g : Option (List Text) × List PolicyDiagnostic)
    (r : List (Text × List Text) × List PolicyDiagnostic) {permissions : List Text}
    → g.0 ≡ some permissions
    → (added key g r).0 ≡ (key, permissions) ∷ r.0
unfolding added
added-found key (none, here) (entries, later) h = absurd (cc)
added-found key (some permissions, here) (entries, later) h = cc

validate_entries-IsRightMap :
    (ps : Properties) (path : Text) (names : List Text)
    → (validate_entries ps path names).1 ≡ []
    → IsRightMap ps names (validate_entries ps path names).0
unfolding validate_entries assigns includes
validate_entries-IsRightMap ps path [] h = record { named = tt; hosts = tt; assigned = λ n q. refl }
validate_entries-IsRightMap ps path (key ∷ names) h =
    let here = pointer path key in
    let found = validate_grant_list (own_value_of (own ps key)) here in
    let (mine, later) =
      added_lem key (found.0, validate_host_name key here ++ found.1)
        (validate_entries ps path names) h in
    let (host, problems) = both_empty (validate_host_name key here) _ mine in
    let (permissions, is, right) = validate_grant_list-IsGrantList (own ps key) here problems in
    rw
      (added-found key (found.0, validate_host_name key here ++ found.1)
        (validate_entries ps path names) is)
      (entry-IsRightMap ps key here names permissions _ right host
        (validate_entries-IsRightMap ps path names later))

not_own : (ps : Properties) (n : Text) → includes (names_of ps) n ≡ false → own ps n ≡ none
unfolding names_of own includes
not_own end n h = refl
not_own (property (name k) d ps) n h = ground (arith, not_own ps n)
not_own (property (symbol s) d ps) n h = not_own ps n h

-- A map without problems, of the value of a property.
pub record IsPermissionMap (d : Option Descriptor) (m : List (Text × List Text)) : Type 0 where
  pub named : All (λ (e : Text × List Text). all is_permission_name e.1 ≡ true) m
  pub assigned : (n q : Text) → assigns m n q ≡ lists (own_of (read d) n) q

pub validate_permission_map-IsPermissionMap :
    (d : Option Descriptor) (path : Text)
    → (validate_permission_map (own_value_of d) path).1 ≡ []
    → (m : List (Text × List Text)) × ((validate_permission_map (own_value_of d) path).0 ≡ some m)
      × IsPermissionMap d m
unfolding validate_permission_map own_value_of found_map read own_of lists
validate_permission_map-IsPermissionMap (some (data_property (object proto ps) e)) path h =
    elim (Bool-cases (is_plain_record proto ps)) [
      | inl plain ↦
          let names = sort (distinct (names_of ps)) in
          let r = validate_entries-IsRightMap ps path names (rw plain at h) in
          (
            _,
            rw plain,
            record {
              named = r.named;
              assigned = λ n q. r.assigned n q ∙ all_names n q (Bool-cases (includes names n));
            },
          )
      | inr issue ↦ absurd (cc (rw issue at h))
    ]
  where
    all_names :
        (n q : Text)
        → (includes (sort (distinct (names_of ps))) n ≡ true)
          ⊎ (includes (sort (distinct (names_of ps))) n ≡ false)
        → (includes (sort (distinct (names_of ps))) n && lists (own ps n) q) ≡ lists (own ps n) q
    all_names n q (inl h) = rw h
    all_names n q (inr h) =
        let absent = not_own ps n (
          sym (includes-distinct (names_of ps) n)
          ∙ sym (includes-sort (distinct (names_of ps)) n)
          ∙ h) in
        rw (h, absent)
validate_permission_map-IsPermissionMap (some (data_property _ e)) path h = absurd (cc)
validate_permission_map-IsPermissionMap (some (accessor e)) path h = absurd (cc)
validate_permission_map-IsPermissionMap none path h = absurd (cc)
