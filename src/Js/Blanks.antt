-- ===== src/Js/Blanks.antt =====
-- Strings that start with no white space are not blank.
use mathlib.Core.List.{reverse, reverse-cons, ◌++◌}
use authorization_core.Common.{false, [], ◌∷◌, ◌≡◌, refl, is_nil, Bool-cases, inl, inr, ℕ}
use authorization_core.Text.{Text}
use authorization_core.Js.{trim_start, trim, is_space, is_blank}

ends : (xs : Text) (c : ℕ) → is_space c ≡ false → is_nil (trim_start (xs ++ (c ∷ []))) ≡ false
unfolding trim_start
ends [] c h = rw h
ends (x ∷ xs) c h = elim (Bool-cases (is_space x)) [ inl e ↦ rw e (ends xs c h) | inr e ↦ rw e ]

is_nil-reverse : (xs : Text) → is_nil xs ≡ false → is_nil (reverse xs) ≡ false
is_nil-reverse [] h = absurd (cc)
is_nil-reverse (x ∷ xs) h = rw (reverse-cons x xs) (filled (reverse xs))
  where
    filled : (ys : Text) → is_nil (ys ++ (x ∷ [])) ≡ false
    filled [] = refl
    filled (y ∷ ys) = refl

kept_start : (c : ℕ) (s : Text) → is_space c ≡ false → trim_start (c ∷ s) ≡ c ∷ s
unfolding trim_start
kept_start c s h = rw h

-- A string whose first unit is no white space is not blank.
pub is_blank_head : (c : ℕ) (s : Text) → is_space c ≡ false → is_blank (c ∷ s) ≡ false
unfolding is_blank trim
is_blank_head c s h =
    simp (kept_start c s h, reverse-cons c s)
      (is_nil-reverse (trim_start (reverse s ++ (c ∷ []))) (ends (reverse s) c h))
