-- ===== src/Text/Order.antt =====
-- Equality of strings is decided by `same`, and `before` is a strict total order.
use authorization_core.Common.{true, false, ◌≡◌, refl, inl, inr, ◌↔◌, [], ◌∷◌, arith, Bool-cases}
use authorization_core.Text.{Text, same, before}

pub same_refl : (s : Text) → same s s ≡ true
unfolding same
same_refl [] = refl
same_refl (c ∷ s) = ground (arith, same_refl s)

pub eq_of_same : (s t : Text) → same s t ≡ true → s ≡ t
unfolding same
eq_of_same [] [] h = refl
eq_of_same [] (d ∷ t) h = cc
eq_of_same (c ∷ s) [] h = cc
eq_of_same (c ∷ s) (d ∷ t) h = ground (arith, eq_of_same s t)

pub same_iff : (s t : Text) → (same s t ≡ true) ↔ (s ≡ t)
same_iff s t = (eq_of_same s t, λ e. rw e (same_refl t))

pub before_irrefl : (s : Text) → before s s ≡ false
unfolding before
before_irrefl [] = refl
before_irrefl (c ∷ s) = ground (arith, before_irrefl s)

pub before_trans : (s t u : Text) → before s t ≡ true → before t u ≡ true → before s u ≡ true
unfolding before
before_trans s t [] h k = cc
before_trans s [] (e ∷ u) h k = cc
before_trans [] (d ∷ t) (e ∷ u) h k = refl
before_trans (c ∷ s) (d ∷ t) (e ∷ u) h k = ground (arith, before_trans s t u)

pub before_asym : (s t : Text) → before s t ≡ true → before t s ≡ false
before_asym s t h = elim (Bool-cases (before t s)) [
  | inl e ↦ cc (before_trans s t s h e, before_irrefl s)
  | inr e ↦ e
]

-- Of two different strings one comes first.
pub before_total : (s t : Text) → before s t ≡ false → before t s ≡ false → s ≡ t
unfolding before
before_total [] [] h k = refl
before_total [] (d ∷ t) h k = cc
before_total (c ∷ s) [] h k = cc
before_total (c ∷ s) (d ∷ t) h k = ground (arith, before_total s t)
