-- ===== src/Storage/RoleStore/Mutations/Requests.antt =====
-- packages/storage/src/role-store.ts: the grant and the revoke only make the requests that a
-- lifecycle change allows, whatever the Store replies.
use authorization_core.Common.{
  Bool, true, false, Option, none, some, ◌≡◌, refl, sym, ap, ◌∙◌, inl, inr, Bool-cases,
  if◌then◌else◌, ◌&&◌,
}
use authorization_core.Text.{Text, same}
use authorization_core.Text.Order.{eq_of_same}
use authorization_core.Contracts.{
  RoleAssignmentGrant, grant_of, application, organization, RoleAssignmentScope,
}
use authorization_core.Storage.Keys.{RecordLocation}
use authorization_core.Storage.Records.{
  AuthorizationRecord, assignment, tuple, audit, StoredAssignment, StoredTuple,
}
use authorization_core.Storage.Checks.{
  locations_equal, scopes_equal, require_tuple, require_assignment,
}
use authorization_core.Storage.Program.{
  Program, ◌>>=◌, Versioned, TransactionOutcome, committed, refused, exists, changed, missing,
}
use authorization_core.Storage.RoleStore.{Found, found_record, read_assignment}
use authorization_core.Storage.RoleStore.Mutations.{
  occupied, occupant, grant_unless_found, grant_guarded, after_grant, granted_as,
}
use authorization_core.Storage.Safety.{
  Named, Grows, MayTake, granting, guard_key, assignment_key, IsCareful, careful_bind,
}

-- Nothing is asked of a result.
abbrev pub Any : {A : Type 0} → Named → A → Type 0
Any w a = Unit

all_three : (a b c : Bool) → (a && b && c) ≡ true → (a ≡ true) × (b ≡ true) × (c ≡ true)
all_three true true c h = (refl, refl, h)
all_three true false c h = cc
all_three false b c h = cc

first_of_four : (a b c d : Bool) → (a && b && c && d) ≡ true → a ≡ true
first_of_four true b c d h = refl
first_of_four false b c d h = cc

scopes_equal-eq : (a b : RoleAssignmentScope) → scopes_equal a b ≡ true → a ≡ b
unfolding scopes_equal
scopes_equal-eq application application h = refl
scopes_equal-eq application (organization j) h = cc
scopes_equal-eq (organization i) application h = cc
scopes_equal-eq (organization i) (organization j) h = ap organization (eq_of_same i j h)

locations_equal-eq : (l m : RecordLocation) → locations_equal l m ≡ true → l ≡ m
unfolding locations_equal
locations_equal-eq l m h =
    let (apps, principals, scopes) =
      all_three (same l.application_id m.application_id) (same l.principal_id m.principal_id)
        (scopes_equal l.scope m.scope) h in
    let a = eq_of_same l.application_id m.application_id apps in
    let p = eq_of_same l.principal_id m.principal_id principals in
    let s = scopes_equal-eq l.scope m.scope scopes in
    λ i. record { application_id = a i; principal_id = p i; scope = s i }

-- A tuple that `requireTuple` returned is the record, in its location, for its role.
abbrev pub IsGuard : AuthorizationRecord → RecordLocation → Text → StoredTuple → Type 0
IsGuard r location role t = (r ≡ tuple t) × (t.location ≡ location) × (t.role ≡ role)

pub require_tuple-IsGuard :
    (w : Named) (r : AuthorizationRecord) (location : RecordLocation) (role : Text)
    → IsCareful w (require_tuple r location role) (λ w' t. IsGuard r location role t)
unfolding require_tuple
require_tuple-IsGuard w (assignment s) location role = tt
require_tuple-IsGuard w (audit a) location role = tt
require_tuple-IsGuard w (tuple t) location role =
    elim (Bool-cases (locations_equal t.location location)) [
      | inl here ↦ elim (Bool-cases (same t.role role)) [
        | inl named ↦ rw (here, named) (refl, locations_equal-eq _ _ here, eq_of_same _ _ named)
        | inr other ↦ rw (here, other) tt
      ]
      | inr there ↦ rw there tt
    ]

-- A record that was read with a version that names it.
abbrev pub IsRead : Named → RecordLocation → Text → Option Found → Type 0
IsRead w location id o =
    (f : Found)
    → o ≡ some f
    → (w (assignment_key location id) f.version ≡ some (assignment f.stored))
      × (f.stored.location ≡ location)
      × ((grant_of f.stored.assignment).id ≡ id)

abbrev IsAsked : AuthorizationRecord → RecordLocation → Text → StoredAssignment → Type 0
IsAsked r location id s =
    (r ≡ assignment s) × (s.location ≡ location) × ((grant_of s.assignment).id ≡ id)

abbrev agrees : StoredAssignment → RecordLocation → Text → Text → Bool
agrees s location id role =
    same (grant_of s.assignment).id id
    && same (grant_of s.assignment).principal_id location.principal_id
    && scopes_equal (grant_of s.assignment).scope location.scope
    && same (grant_of s.assignment).role role

require_assignment-IsAsked :
    (w : Named) (r : AuthorizationRecord) (location : RecordLocation) (id role : Text)
    → IsCareful w (require_assignment r location id role) (λ w' a. IsAsked r location id a)
unfolding require_assignment
require_assignment-IsAsked w (tuple t) location id role = tt
require_assignment-IsAsked w (audit a) location id role = tt
require_assignment-IsAsked w (assignment s) location id role =
    elim (Bool-cases (locations_equal s.location location)) [
      | inl here ↦ elim (Bool-cases (agrees s location id role)) [
        | inl named ↦
            rw (here, named)
              (
                refl,
                locations_equal-eq _ _ here,
                eq_of_same (grant_of s.assignment).id id (first_of_four _ _ _ _ named),
              )
        | inr other ↦ rw (here, other) tt
      ]
      | inr there ↦ rw there tt
    ]

pub read_assignment-IsRead :
    (w : Named) (location : RecordLocation) (id role : Text)
    → IsCareful w (read_assignment location id role) (λ w' o. IsRead w' location id o)
unfolding read_assignment
read_assignment-IsRead w location id role = (λ w' more. tt, λ w' more x told. found w' x told)
  where
    found :
        (w' : Named) (x : Option (Versioned AuthorizationRecord))
        → ((v : Versioned AuthorizationRecord)
            → x ≡ some v
            → w' (assignment_key location id) v.version ≡ some v.value)
        → IsCareful w' (found_record x location id role) (λ u o. IsRead u location id o)
    found w' none told = λ f never. absurd (cc)
    found w' (some v) told =
        careful_bind w' (require_assignment v.value location id role) _
          (λ u a. IsAsked v.value location id a) (λ u o. IsRead u location id o)
          (require_assignment-IsAsked w' v.value location id role)
          (λ u a more (same_value, at, named) f e.
            let is_stored : f.stored ≡ a =
              ap (λ o. elim o [ none ↦ a | some g ↦ g.stored ]) (sym e) in
            let is_version : f.version ≡ v.version =
              ap (λ o. elim o [ none ↦ v.version | some g ↦ g.version ]) (sym e) in
            rw (is_stored, is_version) (more _ _ _ (told v refl) ∙ ap some same_value, at, named))

MayTake-Grows :
    (w w' : Named) (location : RecordLocation) (g : RoleAssignmentGrant)
    (guard : Option (Versioned AuthorizationRecord))
    → Grows w w'
    → MayTake w location g guard
    → MayTake w' location g guard
MayTake-Grows w w' location g none more take = tt
MayTake-Grows w w' location g (some v) more (t, names, free) = (t, more _ _ _ names, free)

-- A program that only reads the record again.
pub careful_read :
    {B : Type 0} (w : Named) (location : RecordLocation) (id role : Text)
    (f : Option Found → Program B)
    → ((u : Named) (o : Option Found) → IsCareful u (f o) Any)
    → IsCareful w (read_assignment location id role >>= f) Any
careful_read w location id role f next =
    careful_bind w (read_assignment location id role) f (λ u o. IsRead u location id o) Any
      (read_assignment-IsRead w location id role) (λ u o more read. next u o)

granted_as-IsCareful : (w : Named) (o : Option Found) → IsCareful w (granted_as o) Any
unfolding granted_as
granted_as-IsCareful w none = tt
granted_as-IsCareful w (some f) = tt

after_grant-IsCareful :
    (w : Named) (outcome : TransactionOutcome) (location : RecordLocation) (g : RoleAssignmentGrant)
    (event_id : Text)
    → IsCareful w (after_grant outcome location g event_id) Any
unfolding after_grant
after_grant-IsCareful w committed location g event_id = careful_read w _ _ _ _ granted_as-IsCareful
after_grant-IsCareful w (refused exists) location g event_id = careful_read w _ _ _ _ (λ u o. tt)
after_grant-IsCareful w (refused changed) location g event_id = tt
after_grant-IsCareful w (refused missing) location g event_id = tt

grant_unless_found-IsCareful :
    (w : Named) (o : Option Found) (location : RecordLocation) (g : RoleAssignmentGrant)
    (event_id : Text) (guard : Option (Versioned AuthorizationRecord))
    → MayTake w location g guard
    → IsCareful w (grant_unless_found o location g event_id guard) Any
unfolding grant_unless_found
grant_unless_found-IsCareful w (some f) location g event_id guard take = tt
grant_unless_found-IsCareful w none location g event_id guard take = (
  λ w' more. granting location g event_id guard (MayTake-Grows w w' location g guard more take),
  λ w' more outcome told. after_grant-IsCareful w' outcome location g event_id,
)

-- What the guard's occupant tells.
IsOccupant : Option (Versioned AuthorizationRecord) → RecordLocation → Text → Option Text → Type 0
IsOccupant none location role held = held ≡ none
IsOccupant (some v) location role held =
    (t : StoredTuple) × IsGuard v.value location role t × (held ≡ t.active_assignment_id)

occupant-IsOccupant :
    (w : Named) (guard : Option (Versioned AuthorizationRecord)) (location : RecordLocation)
    (role : Text)
    → IsCareful w (occupant guard location role) (λ u held. IsOccupant guard location role held)
unfolding occupant IsOccupant
occupant-IsOccupant w none location role = refl
occupant-IsOccupant w (some v) location role =
    careful_bind w (require_tuple v.value location role) _ (λ u t. IsGuard v.value location role t)
      _ (require_tuple-IsGuard w v.value location role) (λ u t more is_guard. (t, is_guard, refl))

occupant-MayTake :
    (w : Named) (guard : Option (Versioned AuthorizationRecord)) (location : RecordLocation)
    (g : RoleAssignmentGrant) (held : Option Text)
    → ((v : Versioned AuthorizationRecord)
        → guard ≡ some v
        → w (guard_key location g.role) v.version ≡ some v.value)
    → IsOccupant guard location g.role held
    → occupied held g.id ≡ false
    → MayTake w location g guard
unfolding IsOccupant
occupant-MayTake w none location g held told is_occupant free = tt
occupant-MayTake w (some v) location g held told (t, (value, at, role), same_held) free =
    (t, told v refl ∙ ap some value, ap (λ o. occupied o g.id) (sym same_held) ∙ free)

pub careful_if :
    {A : Type 0} (w : Named) (b : Bool) (m n : Program A) (Q : Named → A → Type 0)
    → (b ≡ true → IsCareful w m Q)
    → (b ≡ false → IsCareful w n Q)
    → IsCareful w (if b then m else n) Q
careful_if w true m n Q one two = one refl
careful_if w false m n Q one two = two refl

pub grant_guarded-IsCareful :
    (w : Named) (location : RecordLocation) (g : RoleAssignmentGrant) (event_id : Text)
    → IsCareful w (grant_guarded location g event_id) Any
unfolding grant_guarded
grant_guarded-IsCareful w location g event_id = (
  λ w' more. tt,
  λ w' more guard told.
      careful_bind w' (occupant guard location g.role) _
        (λ u held. IsOccupant guard location g.role held) Any
        (occupant-IsOccupant w' guard location g.role)
        (λ u held further is_occupant.
          careful_if u (occupied held g.id) _ _ Any (λ taken. tt)
            (λ free.
              careful_bind u (read_assignment location g.id g.role) _
                (λ x o. IsRead x location g.id o) Any
                (read_assignment-IsRead u location g.id g.role)
                (λ x o later read. grant_unless_found-IsCareful x o location g event_id guard (
                  occupant-MayTake x guard location g held
                    (λ v e. later _ _ _ (further _ _ _ (told v e))) is_occupant free)))),
)
