-- ===== src/Admin/Guard.antt =====
-- packages/admin/src/index.ts: what the guard of `revokeRole` has seen when a revocation is reported.
use authorization_core.Common.{
  Bool, true, false, ◌&&◌, Option, none, some, List, [], ◌∷◌, ◌++◌, ◌≡◌, ◌≢◌, refl, sym, ◌∙◌, ◌⊎◌,
  arith, inl, inr, if◌then◌else◌,
}
use mathlib.Core.List.{Memᴰ}
use authorization_core.Text.{Text, same}
use authorization_core.Text.Order.{eq_of_same, same_refl}
use authorization_core.Contracts.{
  RoleAssignment, RoleAssignmentGrant, RoleAssignmentScope, active, revoked,
}
use authorization_core.Storage.Ports.{VersionedRoleAssignment}
use authorization_core.Admin.{
  Program, Administration, RoleHolderIndexRow, get_role_assignment, confirms, same_scope,
  verify_candidates, candidates_of, another_active_holder_exists,
}
use authorization_core.Admin.Traces.{Answered, answered, Trace, seen, chained}

-- The store has answered that an assignment of the role in the exact scope is active, of a principal
-- other than the one left out.
pub record Confirmed (log : List Answered) (role : Text) (scope : RoleAssignmentScope)
    (excluding : Text) : Type 0 where
  pub id : Text
  pub found : VersionedRoleAssignment
  pub grant : RoleAssignmentGrant
  pub asked : Memᴰ (answered (get_role_assignment id) (some found)) log
  pub is_active : found.assignment ≡ active grant
  pub of_role : grant.role ≡ role
  pub in_scope : same_scope grant.scope scope ≡ true
  pub other : grant.principal_id ≢ excluding

pub in_right :
    {x : Answered} (front : List Answered) {log : List Answered}
    → Memᴰ x log
    → Memᴰ x (front ++ log)
in_right [] m = m
in_right (y ∷ front) m = Memᴰ.tail (in_right front m)

pub in_left :
    {x : Answered} {log : List Answered} (back : List Answered) → Memᴰ x log → Memᴰ x (log ++ back)
in_left back (Memᴰ.head e) = Memᴰ.head e
in_left back (Memᴰ.tail m) = Memᴰ.tail (in_left back m)

-- What was confirmed in a part of a log was confirmed in the log.
pub Confirmed-within :
    {log whole : List Answered} {role : Text} {scope : RoleAssignmentScope} {excluding : Text}
    → ((x : Answered) → Memᴰ x log → Memᴰ x whole)
    → Confirmed log role scope excluding
    → Confirmed whole role scope excluding
Confirmed-within within c = record {
  id = c.id;
  found = c.found;
  grant = c.grant;
  asked = within _ c.asked;
  is_active = c.is_active;
  of_role = c.of_role;
  in_scope = c.in_scope;
  other = c.other;
}

confirms-Confirmed :
    (current : Option VersionedRoleAssignment) (candidate : RoleHolderIndexRow) (role : Text)
    (scope : RoleAssignmentScope) (excluding : Text) (log : List Answered)
    → confirms current candidate role scope ≡ true
    → same candidate.principal_id excluding ≡ false
    → Confirmed
        (answered (get_role_assignment candidate.assignment_id) current ∷ log)
        role
        scope
        excluding
unfolding confirms
confirms-Confirmed none candidate role scope excluding log h n = absurd (cc)
confirms-Confirmed (some v) candidate role scope excluding log h n = split v.assignment refl h
  where
    split :
        (a : RoleAssignment)
        → v.assignment ≡ a
        → ◌≡◌ {A = Bool}
            (elim a [
              | revoked g r ↦ false
              | active g ↦
                  same g.role role
                  && same g.principal_id candidate.principal_id
                  && same_scope g.scope scope
            ])
            true
        → Confirmed
            (answered (get_role_assignment candidate.assignment_id) (some v) ∷ log)
            role
            scope
            excluding
    split (revoked g r) e k = absurd (cc)
    split (active g) e k = record {
      id = candidate.assignment_id;
      found = v;
      grant = g;
      asked = Memᴰ.head refl;
      is_active = e;
      of_role = eq_of_same g.role role (ground arith);
      in_scope = ground arith;
      other = λ p.
          let q = eq_of_same g.principal_id candidate.principal_id (ground arith) in
          absurd (cc (n, same_refl excluding, sym q ∙ p));
    }

-- A trace of a choice is one of the branch taken.
pub chosen :
    {A : Type 0} (b : Bool) {x y : Program A} {log : List Answered} {a : A}
    → Trace (if b then x else y) log a
    → ((b ≡ true) × Trace x log a) ⊎ ((b ≡ false) × Trace y log a)
chosen true t = inl (refl, t)
chosen false t = inr (refl, t)

verify_candidates-Confirmed :
    (candidates : List RoleHolderIndexRow) (role : Text) (scope : RoleAssignmentScope)
    (excluding : Text) {log : List Answered}
    → Trace (verify_candidates candidates role scope excluding) log true
    → Confirmed log role scope excluding
unfolding verify_candidates
verify_candidates-Confirmed [] role scope excluding t = absurd (cc (seen t).0)
verify_candidates-Confirmed (candidate ∷ candidates) role scope excluding t =
    elim (chosen (same candidate.principal_id excluding) t) [
      | inl (here, t') ↦ verify_candidates-Confirmed candidates role scope excluding t'
      | inr (n, t') ↦
          let (current, rest, t2, is) = seen t' in
          rw is (elim (chosen (confirms current candidate role scope) t2) [
            | inl (good, _) ↦ confirms-Confirmed current candidate role scope excluding rest good n
            | inr (_, t3) ↦
                Confirmed-within (λ x m. Memᴰ.tail m)
                  (verify_candidates-Confirmed candidates role scope excluding t3)
          ])
    ]

-- When the service says that another active holder exists, the store has confirmed one.
pub another-Confirmed :
    (policy : Administration) (role : Text) (scope : RoleAssignmentScope) (excluding : Text)
    {log : List Answered}
    → Trace (another_active_holder_exists policy role scope excluding) log true
    → Confirmed log role scope excluding
unfolding another_active_holder_exists
another-Confirmed policy role scope excluding t =
    let c =
      chained (candidates_of policy role scope)
        (λ candidates. verify_candidates candidates role scope excluding) t in
    rw c.split (
      Confirmed-within (λ x m. in_right c.before m)
        (verify_candidates-Confirmed c.value role scope excluding c.rest))
