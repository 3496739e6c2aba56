-- ===== src/Text/Sorting.antt =====
-- Sorting and removing duplicates keep the members and leave a strictly sorted list, which is
-- determined by its members.
use authorization_core.Common.{
  true, false, ◌≡◌, refl, ◌∙◌, inl, inr, ◌||◌, ◌&&◌, not, List, [], ◌∷◌, arith, Bool-cases, All,
}
use authorization_core.Text.{Text, same, before, includes, place, sort, distinct_from, distinct}
use authorization_core.Text.Order.{
  same_refl, eq_of_same, same_iff, before_irrefl, before_trans, before_total,
}

-- Every element comes before all that follow it; so no element occurs twice.
abbrev pub IsSorted : List Text → Type 0
IsSorted [] = Unit
IsSorted (s ∷ ss) = All (λ t. before s t ≡ true) ss × IsSorted ss

-- No element occurs twice.
abbrev pub IsDistinct : List Text → Type 0
IsDistinct [] = Unit
IsDistinct (s ∷ ss) = (includes ss s ≡ false) × IsDistinct ss

pub includes-place :
    (s u : Text) (ts : List Text) → includes (place s ts) u ≡ (same s u || includes ts u)
unfolding place includes
includes-place s u [] = refl
includes-place s u (t ∷ ts) = ground (arith, includes-place s u ts)

pub includes-sort : (ss : List Text) (u : Text) → includes (sort ss) u ≡ includes ss u
unfolding sort includes
includes-sort [] u = refl
includes-sort (s ∷ ss) u = ground (arith, includes-place s u (sort ss), includes-sort ss u)

All-after-place :
    (r s : Text) (ts : List Text)
    → before r s ≡ true
    → All (λ t. before r t ≡ true) ts
    → All (λ t. before r t ≡ true) (place s ts)
unfolding place
All-after-place r s [] h a = (h, tt)
All-after-place r s (t ∷ ts) h a = ground (arith, All-after-place r s ts h a.1)

All-after_trans :
    (r s : Text) (ts : List Text)
    → before r s ≡ true
    → All (λ t. before s t ≡ true) ts
    → All (λ t. before r t ≡ true) ts
All-after_trans r s [] h a = tt
All-after_trans r s (t ∷ ts) h (b, a) = (before_trans r s t h b, All-after_trans r s ts h a)

pub place-IsSorted :
    (s : Text) (ts : List Text) → IsSorted ts → includes ts s ≡ false → IsSorted (place s ts)
unfolding place includes
place-IsSorted s [] h n = (tt, tt)
place-IsSorted s (t ∷ ts) (a, h) n = elim (Bool-cases (before t s)) [
  | inl later ↦ rw later (All-after-place t s ts later a, place-IsSorted s ts h (ground arith))
  | inr sooner ↦ elim (Bool-cases (before s t)) [
    | inl first ↦ rw sooner ((first, All-after_trans s t ts first a), (a, h))
    | inr neither ↦ cc (before_total s t neither sooner, same_refl s, n)
  ]
]

pub sort-IsSorted : (ss : List Text) → IsDistinct ss → IsSorted (sort ss)
unfolding sort
sort-IsSorted [] h = tt
sort-IsSorted (s ∷ ss) (n, h) =
    place-IsSorted s (sort ss) (sort-IsSorted ss h) (includes-sort ss s ∙ n)

-- The members that `seen` has not.
includes-distinct_from :
    (seen ss : List Text) (u : Text)
    → includes (distinct_from seen ss) u ≡ (includes ss u && not (includes seen u))
unfolding distinct_from includes
includes-distinct_from seen [] u = refl
includes-distinct_from seen (s ∷ ss) u =
    ground (
      arith,
      includes-distinct_from seen ss u,
      includes-distinct_from (s ∷ seen) ss u,
      same_iff s u,
    )

pub includes-distinct : (ss : List Text) (u : Text) → includes (distinct ss) u ≡ includes ss u
unfolding distinct includes
includes-distinct ss u = ground (arith, includes-distinct_from [] ss u)

distinct_from-IsDistinct : (seen ss : List Text) → IsDistinct (distinct_from seen ss)
unfolding distinct_from includes
distinct_from-IsDistinct seen [] = tt
distinct_from-IsDistinct seen (s ∷ ss) = elim (Bool-cases (includes seen s)) [
  | inl old ↦ rw old (distinct_from-IsDistinct seen ss)
  | inr new ↦ rw new (
    ground (arith, includes-distinct_from (s ∷ seen) ss s, same_refl s),
    distinct_from-IsDistinct (s ∷ seen) ss,
  )
]

pub distinct-IsDistinct : (ss : List Text) → IsDistinct (distinct ss)
unfolding distinct
distinct-IsDistinct ss = distinct_from-IsDistinct [] ss

-- What comes before all elements is none of them.
pub not_included :
    (s : Text) (ts : List Text) → All (λ t. before s t ≡ true) ts → includes ts s ≡ false
unfolding includes
not_included s [] a = refl
not_included s (t ∷ ts) (b, a) =
    ground (arith, not_included s ts a, eq_of_same t s, before_irrefl s)

same_head :
    (s t : Text) (ss ts : List Text)
    → IsSorted (s ∷ ss)
    → IsSorted (t ∷ ts)
    → includes (t ∷ ts) s ≡ true
    → before s t ≡ false
unfolding includes
same_head s t ss ts h k m = elim (Bool-cases (before s t)) [
  | inl e ↦ cc (not_included s (t ∷ ts) (e, All-after_trans s t ts e k.0), m)
  | inr e ↦ e
]

-- A strictly sorted list is determined by its members.
pub IsSorted-ext :
    (ss ts : List Text)
    → IsSorted ss
    → IsSorted ts
    → ((u : Text) → includes ss u ≡ includes ts u)
    → ss ≡ ts
unfolding includes
IsSorted-ext [] [] h k e = refl
IsSorted-ext [] (t ∷ ts) h k e = ground (arith, e t, same_refl t)
IsSorted-ext (s ∷ ss) [] h k e = ground (arith, e s, same_refl s)
IsSorted-ext (s ∷ ss) (t ∷ ts) h k e =
    let one = same_head s t ss ts h k (ground (arith, e s, same_refl s)) in
    let two = same_head t s ts ss k h (ground (arith, e t, same_refl t)) in
    let heads = before_total s t one two in
    let rest = IsSorted-ext ss ts h.1 k.1 (λ u. tails u heads) in cc
  where
    tails : (u : Text) → s ≡ t → includes ss u ≡ includes ts u
    tails u p =
        ground
          (arith, e u, not_included s ss h.0, not_included t ts k.0, eq_of_same s u, eq_of_same t u)
