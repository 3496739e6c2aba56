-- ===== src/Core/Sets.antt =====
-- The loops of the resolver: what `granted` and the unknown names hold after them.
use authorization_core.Common.{
  Bool, true, false, not, Option, none, some, List, [], ◌∷◌, ◌++◌, ◌≡◌, refl, ◌∙◌, ◌||◌, ok, arith,
  >>=-eq-ok, any, filter,
}
use mathlib.Core.List.{append_assoc, append-nil}
use authorization_core.Text.{Text, same, includes, distinct}
use authorization_core.Text.Order.{same_iff}
use authorization_core.Text.Sorting.{
  IsSorted, sort-IsSorted, distinct-IsDistinct, includes-sort, includes-distinct,
}
use authorization_core.Js.{Value, own_of}
use authorization_core.Core.{
  add, add_all, Tally, record_name, own_permissions, grant_names, unique_sorted,
}
use authorization_core.Core.Reads.{
  lists, known, of_found, was_found, map_or_empty, includes-own_permissions,
}

pub unique_sorted-IsSorted : (values : List Text) → IsSorted (unique_sorted values)
unfolding unique_sorted
unique_sorted-IsSorted values = sort-IsSorted (distinct values) (distinct-IsDistinct values)

pub includes-unique_sorted :
    (values : List Text) (p : Text) → includes (unique_sorted values) p ≡ includes values p
unfolding unique_sorted
includes-unique_sorted values p = includes-sort (distinct values) p ∙ includes-distinct values p

pub includes-append :
    (xs ys : List Text) (p : Text) → includes (xs ++ ys) p ≡ (includes xs p || includes ys p)
unfolding includes
includes-append [] ys p = refl
includes-append (x ∷ xs) ys p = ground (arith, includes-append xs ys p)

includes-add :
    (set : List Text) (value p : Text)
    → includes (add set value) p ≡ (includes set p || same value p)
unfolding add includes
includes-add set value p = ground (arith, includes-append set (value ∷ []) p, same_iff value p)

includes-add_all :
    (set values : List Text) (p : Text)
    → includes (add_all set values) p ≡ (includes set p || includes values p)
unfolding add_all includes
includes-add_all set [] p = ground arith
includes-add_all set (value ∷ values) p =
    ground (arith, includes-add_all (add set value) values p, includes-add set value p)

granted-record_name :
    (t : Tally) (name p : Text) (found : Option (List Text))
    → includes (record_name t name found).granted p ≡ (includes t.granted p || of_found found p)
unfolding record_name
granted-record_name t name p none = ground arith
granted-record_name t name p (some values) = includes-add_all t.granted values p

-- A loop over names grants what the map lists under one of them, and nothing else.
pub granted-grant_names :
    (assignments : Option Value) (label : Text) (names : List Text) (t : Tally) (p : Text)
    {t' : Tally}
    → grant_names assignments label names t ≡ ok t'
    → includes t'.granted p
      ≡ (includes t.granted p || any (λ n. lists (own_of (map_or_empty assignments) n) p) names)
unfolding grant_names
granted-grant_names assignments label [] t p h = ground arith
granted-grant_names assignments label (name ∷ names) t p h =
    let (found, got, rest) = >>=-eq-ok (own_permissions assignments name label) _ h in
    let ih = granted-grant_names assignments label names (record_name t name found) p rest in
    let here = granted-record_name t name p found in
    let (same_permissions, _) = includes-own_permissions assignments name label p got in
    ground arith

unknown-record_name :
    (t : Tally) (name : Text) (found : Option (List Text))
    → (record_name t name found).unknown
      ≡ (t.unknown ++ filter (λ n. not (was_found found)) (name ∷ []))
unfolding record_name
unknown-record_name t name none = refl
unknown-record_name t name (some values) = ground (arith, append-nil t.unknown)

-- The names that a loop reports as unknown are those that the map does not own, in their order.
pub unknown-grant_names :
    (assignments : Option Value) (label : Text) (names : List Text) (t : Tally) {t' : Tally}
    → grant_names assignments label names t ≡ ok t'
    → t'.unknown ≡ (t.unknown ++ filter (λ n. not (known (map_or_empty assignments) n)) names)
unfolding grant_names
unknown-grant_names assignments label [] t h = ground (arith, append-nil t.unknown)
unknown-grant_names assignments label (name ∷ names) t h =
    let (found, got, rest) = >>=-eq-ok (own_permissions assignments name label) _ h in
    let ih = unknown-grant_names assignments label names (record_name t name found) rest in
    let here = unknown-record_name t name found in
    let (_, same_known) = includes-own_permissions assignments name label [] got in
    rw (ih, here) (rw (same_known) (split (known (map_or_empty assignments) name)))
  where
    split :
        (b : Bool)
        → ((t.unknown ++ filter (λ n. not b) (name ∷ []))
            ++ filter (λ n. not (known (map_or_empty assignments) n)) names)
          ≡ (t.unknown ++ (elim (not b) [
            | true ↦ name ∷ filter (λ n. not (known (map_or_empty assignments) n)) names
            | false ↦ filter (λ n. not (known (map_or_empty assignments) n)) names
          ]))
    split true = rw append-nil
    split false = rw append_assoc
