-- ===== src/Policy/Lists.antt =====
-- What `validateGrantList` of packages/policy/src/index.ts finds right.
use authorization_core.Common.{
  ℕ, suc, Bool, true, false, Option, none, some, List, [], ◌∷◌, ◌++◌, ◌≡◌, refl, ◌⊎◌, arith, all,
  inl, inr, Bool-cases,
}
use authorization_core.Text.{Text, includes}
use authorization_core.Text.Order.{same_refl, eq_of_same}
use authorization_core.Text.Sorting.{IsDistinct}
use authorization_core.Js.{
  string, array, Slots, nil, slot, hole, Descriptor, data_property, accessor, decimal,
}
use authorization_core.Core.Reads.{slot_has, lists}
use authorization_core.Policy.{
  pointer, validate_permission, is_permission_name, first_path, repeated, noted, validate_items,
  validate_grant_list, is_plain_array, found_list, own_value_of,
}

-- Two lists that together are empty.
pub both_empty : {A : Type 0} (xs ys : List A) → xs ++ ys ≡ [] → (xs ≡ []) × (ys ≡ [])
both_empty [] ys h = (refl, h)
both_empty (x ∷ xs) ys h = absurd (cc)

validate_permission_lem :
    (value path : Text) → validate_permission value path ≡ [] → is_permission_name value ≡ true
unfolding validate_permission
validate_permission_lem value path h = ground arith

repeated_lem : (o : Option Text) (path : Text) → repeated o path ≡ [] → o ≡ none
unfolding repeated
repeated_lem none path h = refl
repeated_lem (some f) path h = absurd (cc)

-- What a list without problems has: names of permissions, none twice, none of those seen before, and
-- exactly the strings of the array.
pub record IsRight (firsts : List (Text × Text)) (ss : Slots) (permissions : List Text)
    : Type 0 where
  pub named : all is_permission_name permissions ≡ true
  pub distinct : IsDistinct permissions
  pub fresh : (q : Text) → includes permissions q ≡ true → first_path firsts q ≡ none
  pub listed : (q : Text) → includes permissions q ≡ slot_has ss q

item-IsRight :
    (firsts : List (Text × Text)) (item here : Text) (e : Bool) (ss : Slots)
    (permissions : List Text)
    → is_permission_name item ≡ true
    → first_path firsts item ≡ none
    → IsRight ((item, here) ∷ firsts) ss permissions
    → IsRight firsts (slot (data_property (string item) e) ss) (item ∷ permissions)
unfolding first_path includes slot_has
item-IsRight firsts item here e ss permissions good new r = record {
  named = ground (arith, r.named);
  distinct = (unseen (Bool-cases (includes permissions item)), r.distinct);
  fresh = λ q h. ground (arith, r.fresh q, eq_of_same item q);
  listed = λ q. ground (arith, r.listed q);
}
  where
    unseen :
        (includes permissions item ≡ true) ⊎ (includes permissions item ≡ false)
        → includes permissions item ≡ false
    unseen (inl h) = ground (arith, r.fresh item h, same_refl item)
    unseen (inr h) = h

validate_items-IsRight :
    (path : Text) (at : ℕ) (firsts : List (Text × Text)) (ss : Slots)
    → (validate_items path at firsts ss).1 ≡ []
    → IsRight firsts ss (validate_items path at firsts ss).0
unfolding validate_items noted slot_has includes
validate_items-IsRight path at firsts nil h = record {
  named = refl;
  distinct = tt;
  fresh = λ q k. absurd (cc);
  listed = λ q. refl;
}
validate_items-IsRight path at firsts (slot (data_property (string item) e) ss) h =
    let here = pointer path (decimal at) in
    let first = first_path firsts item in
    let (one, rest) = both_empty (validate_permission item here) _ h in
    let (two, three) = both_empty (repeated first here) _ rest in
    let new = repeated_lem first here two in
    item-IsRight firsts item here e ss _ (validate_permission_lem item here one) new
      (rw new (validate_items-IsRight path (suc at) ((item, here) ∷ firsts) ss (rw new at three)))
validate_items-IsRight path at firsts (slot _ ss) h = absurd (cc)
validate_items-IsRight path at firsts (hole ss) h = absurd (cc)

-- A list without problems, of the value of a property.
pub record IsGrantList (d : Option Descriptor) (permissions : List Text) : Type 0 where
  pub named : all is_permission_name permissions ≡ true
  pub distinct : IsDistinct permissions
  pub listed : (q : Text) → includes permissions q ≡ lists d q

pub validate_grant_list-IsGrantList :
    (d : Option Descriptor) (path : Text)
    → (validate_grant_list (own_value_of d) path).1 ≡ []
    → (permissions : List Text) × ((validate_grant_list (own_value_of d) path).0 ≡ some permissions)
      × IsGrantList d permissions
unfolding validate_grant_list own_value_of found_list lists
validate_grant_list-IsGrantList (some (data_property (array proto ss ps) e)) path h =
    elim (Bool-cases (is_plain_array proto ss ps)) [
      | inl plain ↦
          let r = validate_items-IsRight path 0 [] ss (rw plain at h) in
          (_, rw plain, record { named = r.named; distinct = r.distinct; listed = r.listed })
      | inr issue ↦ absurd (cc (rw issue at h))
    ]
validate_grant_list-IsGrantList (some (data_property _ e)) path h = absurd (cc)
validate_grant_list-IsGrantList (some (accessor e)) path h = absurd (cc)
validate_grant_list-IsGrantList none path h = absurd (cc)
