-- ===== src/Storage/Keys/RecordIds.antt =====
-- The record ids of packages/storage/src/collections.ts: the three kinds are disjoint, and an id
-- determines the assignment or the role.
use authorization_core.Common.{ℕ, ◌≡◌, [], ◌∷◌, ap, arith}
use authorization_core.Text.{Text}
use authorization_core.Storage.Keys.{assignment_record_id, tuple_record_id, audit_record_id}
use authorization_core.Storage.Keys.Injective.{one_segment}

pub assignment_id_injective : (s t : Text) → assignment_record_id s ≡ assignment_record_id t → s ≡ t
unfolding assignment_record_id
assignment_id_injective s t e = one_segment s t (cc)

pub tuple_id_injective : (s t : Text) → tuple_record_id s ≡ tuple_record_id t → s ≡ t
unfolding tuple_record_id
tuple_id_injective s t e = one_segment s t (cc)

abbrev first_unit : Text → ℕ
first_unit [] = 0
first_unit (c ∷ s) = c

abbrev second_unit : Text → ℕ
second_unit [] = 0
second_unit (c ∷ s) = first_unit s

pub assignment_not_tuple : (s t : Text) → ¬ (assignment_record_id s ≡ tuple_record_id t)
unfolding assignment_record_id tuple_record_id
assignment_not_tuple s t e = let units : 97 ≡ 116 = ap first_unit e in absurd (omega (arith, units))

pub assignment_not_audit : (s t : Text) (n : ℕ) → ¬ (assignment_record_id s ≡ audit_record_id t n)
unfolding assignment_record_id audit_record_id
assignment_not_audit s t n e =
    let units : 115 ≡ 117 = ap second_unit e in absurd (omega (arith, units))

pub tuple_not_audit : (s t : Text) (n : ℕ) → ¬ (tuple_record_id s ≡ audit_record_id t n)
unfolding tuple_record_id audit_record_id
tuple_not_audit s t n e = let units : 116 ≡ 97 = ap first_unit e in absurd (omega (arith, units))
