-- ===== src/Storage/RoleStore/Ordering.antt =====
-- packages/storage/src/role-store.ts: the order of a listing, `.sort(byGrantThenId)`.
use authorization_core.Common.{
  ◌<◌, ◌⊎◌, All, true, false, List, [], ◌∷◌, ◌≡◌, Bool-cases, inl, inr, arith,
}
use mathlib.Core.List.{Perm}
use mathlib.Core.List.Perm
use authorization_core.Text.{Text, before}
use authorization_core.Text.Order.{before_trans, before_asym, before_total}
use authorization_core.Contracts.{RoleAssignment, grant_of}
use authorization_core.Storage.Checks.{by_grant_then_id}
use authorization_core.Storage.RoleStore.{place_assignment, sort_assignments}

not_before_trans : (s t u : Text) → before t s ≡ false → before u t ≡ false → before u s ≡ false
not_before_trans s t u h k = elim (Bool-cases (before u s)) [
  | inl e ↦ elim (Bool-cases (before s t)) [
    | inl f ↦ cc (before_trans u s t e f)
    | inr f ↦ cc (before_total s t f h)
  ]
  | inr e ↦ e
]

later_trans :
    (a b c : RoleAssignment)
    → by_grant_then_id b a ≡ false
    → by_grant_then_id c b ≡ false
    → by_grant_then_id c a ≡ false
unfolding by_grant_then_id
later_trans a b c h k =
    let ids = not_before_trans (grant_of a).id (grant_of b).id (grant_of c).id in
    ground (arith, ids)

later_asym : (a b : RoleAssignment) → by_grant_then_id b a ≡ true → by_grant_then_id a b ≡ false
unfolding by_grant_then_id
later_asym a b h = let ids = before_asym (grant_of b).id (grant_of a).id in ground (arith, ids)

-- No later element comes before the first, by the comparison of the sort.
IsFirst : RoleAssignment → List RoleAssignment → Type 0
IsFirst a [] = Unit
IsFirst a (b ∷ bs) = (by_grant_then_id b a ≡ false) × IsFirst a bs

IsSorted : List RoleAssignment → Type 0
unfolding IsFirst
IsSorted [] = Unit
IsSorted (a ∷ bs) = IsFirst a bs × IsSorted bs

IsFirst-trans :
    (a b : RoleAssignment) (cs : List RoleAssignment)
    → by_grant_then_id b a ≡ false
    → IsFirst b cs
    → IsFirst a cs
unfolding IsFirst
IsFirst-trans a b [] h f = tt
IsFirst-trans a b (c ∷ cs) h (k, f) = (later_trans a b c h k, IsFirst-trans a b cs h f)

IsFirst-place :
    (a b : RoleAssignment) (cs : List RoleAssignment)
    → by_grant_then_id a b ≡ false
    → IsFirst b cs
    → IsFirst b (place_assignment a cs)
unfolding IsFirst place_assignment
IsFirst-place a b [] h f = (h, tt)
IsFirst-place a b (c ∷ cs) h (k, f) = elim (Bool-cases (by_grant_then_id c a)) [
  | inl e ↦ rw e (k, IsFirst-place a b cs h f)
  | inr e ↦ rw e (h, (k, f))
]

IsSorted-place :
    (a : RoleAssignment) (bs : List RoleAssignment) → IsSorted bs → IsSorted (place_assignment a bs)
unfolding IsSorted place_assignment
IsSorted-place a [] o = (tt, tt)
IsSorted-place a (b ∷ bs) (f, o) = elim (Bool-cases (by_grant_then_id b a)) [
  | inl e ↦ rw e (IsFirst-place a b bs (later_asym a b e) f, IsSorted-place a bs o)
  | inr e ↦ rw e ((e, IsFirst-trans a b bs e f), (f, o))
]

place_assignment-perm :
    (a : RoleAssignment) (bs : List RoleAssignment) → Perm (place_assignment a bs) (a ∷ bs)
unfolding place_assignment
place_assignment-perm a [] = Perm.refl _
place_assignment-perm a (b ∷ bs) = elim (Bool-cases (by_grant_then_id b a)) [
  | inl e ↦ rw e (Perm.trans (Perm.cons b (place_assignment-perm a bs)) (Perm.swap _ _ _))
  | inr e ↦ rw e (Perm.refl _)
]

-- An assignment that was granted before another, or at its time with an id that does not come after.
pub IsBefore : RoleAssignment → RoleAssignment → Type 0
IsBefore a b =
    ((grant_of a).granted_at_epoch_ms < (grant_of b).granted_at_epoch_ms)
    ⊎ (((grant_of a).granted_at_epoch_ms ≡ (grant_of b).granted_at_epoch_ms)
        × (before (grant_of b).id (grant_of a).id ≡ false))

-- Each assignment is before all later ones.
pub IsOrdered : List RoleAssignment → Type 0
IsOrdered [] = Unit
IsOrdered (a ∷ bs) = All (IsBefore a) bs × IsOrdered bs

by_grant_then_id-IsBefore : (a b : RoleAssignment) → by_grant_then_id b a ≡ false → IsBefore a b
unfolding by_grant_then_id IsBefore
by_grant_then_id-IsBefore a b h = ground arith

IsFirst-IsBefore :
    (a : RoleAssignment) (bs : List RoleAssignment) → IsFirst a bs → All (IsBefore a) bs
unfolding IsFirst
IsFirst-IsBefore a [] f = tt
IsFirst-IsBefore a (b ∷ bs) (h, f) = (by_grant_then_id-IsBefore a b h, IsFirst-IsBefore a bs f)

IsSorted-IsOrdered : (rs : List RoleAssignment) → IsSorted rs → IsOrdered rs
unfolding IsSorted IsOrdered
IsSorted-IsOrdered [] s = tt
IsSorted-IsOrdered (a ∷ rs) (f, s) = (IsFirst-IsBefore a rs f, IsSorted-IsOrdered rs s)

sort_assignments-IsSorted :
    (rs : List RoleAssignment) → IsSorted (sort_assignments rs) × Perm (sort_assignments rs) rs
unfolding IsSorted sort_assignments
sort_assignments-IsSorted [] = (tt, Perm.refl [])
sort_assignments-IsSorted (a ∷ rs) =
    let (ordered, same_rows) = sort_assignments-IsSorted rs in
    (
      IsSorted-place a (sort_assignments rs) ordered,
      Perm.trans (place_assignment-perm a (sort_assignments rs)) (Perm.cons a same_rows),
    )

-- The sort of a listing has the listed assignments, each as often, and each was granted before every
-- later one, or at its time with an id that does not come after the later one's.
pub sort_assignments-IsOrdered :
    (rs : List RoleAssignment) → IsOrdered (sort_assignments rs) × Perm (sort_assignments rs) rs
sort_assignments-IsOrdered rs =
    let (ordered, same_rows) = sort_assignments-IsSorted rs in
    (IsSorted-IsOrdered (sort_assignments rs) ordered, same_rows)
