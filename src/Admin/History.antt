-- ===== src/Admin/History.antt =====
-- packages/admin/src/index.ts, `listHistory`: the events of a principal, by time.
use authorization_core.Common.{
  none, ℕ, ◌≤◌, true, false, List, [], ◌∷◌, ◌≡◌, arith, leb, Bool-cases, inl, inr, refl, subst,
}
use mathlib.Core.List.{Perm}
use mathlib.Core.List.Perm
use authorization_core.Text.{Text}
use authorization_core.Contracts.{
  RoleAssignment, RoleAssignmentGrant, RoleAssignmentScope, Revocation, active, revoked,
}
use authorization_core.Admin.{
  RoleAdministrationEvent, event_granted, event_revoked, events_of_history, place_event,
  sort_events, list_history, list_role_assignments,
}
use authorization_core.Admin.Traces.{Answered, answered, Trace, seen}

-- No event is earlier than one before it.
pub NoneBefore : ℕ → List RoleAdministrationEvent → Type 0
NoneBefore at [] = Unit
NoneBefore at (e ∷ events) = (at ≤ e.at_epoch_ms) × NoneBefore at events

pub IsTimed : List RoleAdministrationEvent → Type 0
unfolding NoneBefore
IsTimed [] = Unit
IsTimed (e ∷ events) = NoneBefore e.at_epoch_ms events × IsTimed events

NoneBefore-trans :
    (at later : ℕ) (events : List RoleAdministrationEvent)
    → at ≤ later
    → NoneBefore later events
    → NoneBefore at events
unfolding NoneBefore
NoneBefore-trans at later [] h n = tt
NoneBefore-trans at later (e ∷ events) h (k, n) =
    (omega (arith, h, k), NoneBefore-trans at later events h n)

NoneBefore-place :
    (at : ℕ) (e : RoleAdministrationEvent) (events : List RoleAdministrationEvent)
    → at ≤ e.at_epoch_ms
    → NoneBefore at events
    → NoneBefore at (place_event e events)
unfolding NoneBefore place_event
NoneBefore-place at e [] h n = (h, tt)
NoneBefore-place at e (f ∷ events) h (k, n) = elim (Bool-cases (leb e.at_epoch_ms f.at_epoch_ms)) [
  | inl first ↦ rw first (h, (k, n))
  | inr later ↦ rw later (k, NoneBefore-place at e events h n)
]

IsTimed-place :
    (e : RoleAdministrationEvent) (events : List RoleAdministrationEvent)
    → IsTimed events
    → IsTimed (place_event e events)
unfolding IsTimed place_event
IsTimed-place e [] t = (tt, tt)
IsTimed-place e (f ∷ events) (n, t) = elim (Bool-cases (leb e.at_epoch_ms f.at_epoch_ms)) [
  | inl first ↦ rw first (
    (leb_lem first, NoneBefore-trans e.at_epoch_ms f.at_epoch_ms events (leb_lem first) n),
    (n, t),
  )
  | inr later ↦
      rw later
        (NoneBefore-place f.at_epoch_ms e events (after_lem later) n, IsTimed-place e events t)
]
  where
    leb_lem : leb e.at_epoch_ms f.at_epoch_ms ≡ true → e.at_epoch_ms ≤ f.at_epoch_ms
    leb_lem h = ground arith

    after_lem : leb e.at_epoch_ms f.at_epoch_ms ≡ false → f.at_epoch_ms ≤ e.at_epoch_ms
    after_lem h = ground arith

place_event-perm :
    (e : RoleAdministrationEvent) (events : List RoleAdministrationEvent)
    → Perm (place_event e events) (e ∷ events)
unfolding place_event
place_event-perm e [] = Perm.refl _
place_event-perm e (f ∷ events) = elim (Bool-cases (leb e.at_epoch_ms f.at_epoch_ms)) [
  | inl first ↦ rw first (Perm.refl _)
  | inr later ↦ rw later (Perm.trans (Perm.cons f (place_event-perm e events)) (Perm.swap _ _ _))
]

sort_events-IsTimed :
    (events : List RoleAdministrationEvent)
    → IsTimed (sort_events events) × Perm (sort_events events) events
unfolding IsTimed sort_events
sort_events-IsTimed [] = (tt, Perm.refl [])
sort_events-IsTimed (e ∷ events) =
    let (timed, same_events) = sort_events-IsTimed events in
    (
      IsTimed-place e (sort_events events) timed,
      Perm.trans (place_event-perm e (sort_events events)) (Perm.cons e same_events),
    )

-- The event of a grant, and the event of a revocation.
pub IsGrantOf : RoleAssignmentGrant → RoleAdministrationEvent → Type 0
IsGrantOf g e =
    (e.assignment_id ≡ g.id)
    × (e.role ≡ g.role)
    × (e.kind ≡ event_granted)
    × (e.actor ≡ g.granted_by)
    × (e.at_epoch_ms ≡ g.granted_at_epoch_ms)
    × (e.reason ≡ none)

pub IsRevocationOf : RoleAssignmentGrant → Revocation → RoleAdministrationEvent → Type 0
IsRevocationOf g r e =
    (e.assignment_id ≡ g.id)
    × (e.role ≡ g.role)
    × (e.kind ≡ event_revoked)
    × (e.actor ≡ r.revoked_by)
    × (e.at_epoch_ms ≡ r.revoked_at_epoch_ms)
    × (e.reason ≡ r.reason)

-- The events of assignments, one after the other: one of each active one, two of each revoked one.
pub data Told : List RoleAssignment → List RoleAdministrationEvent → Type 0 where
  told_nothing : Told [] []
  told_active :
      {g : RoleAssignmentGrant} {e : RoleAdministrationEvent} {held : List RoleAssignment}
      {events : List RoleAdministrationEvent}
      → IsGrantOf g e
      → Told held events
      → Told (active g ∷ held) (e ∷ events)
  told_revoked :
      {g : RoleAssignmentGrant} {r : Revocation} {e f : RoleAdministrationEvent}
      {held : List RoleAssignment} {events : List RoleAdministrationEvent}
      → IsGrantOf g e
      → IsRevocationOf g r f
      → Told held events
      → Told (revoked g r ∷ held) (e ∷ f ∷ events)

events_of_history-Told : (held : List RoleAssignment) → Told held (events_of_history held)
unfolding events_of_history IsGrantOf IsRevocationOf
events_of_history-Told [] = told_nothing
events_of_history-Told (active g ∷ held) =
    told_active (refl, refl, refl, refl, refl, refl) (events_of_history-Told held)
events_of_history-Told (revoked g r ∷ held) =
    told_revoked (refl, refl, refl, refl, refl, refl) (refl, refl, refl, refl, refl, refl)
      (events_of_history-Told held)

-- `listHistory` asks for the principal's assignments once, and returns the grant event of each and the
-- revocation event of each that is revoked, each as often, no event before an earlier one. An event has
-- the assignment's id and role, and the actor, the time and the reason of the grant or the revocation.
pub list_history-IsTimed :
    (principal_id : Text) (scope : RoleAssignmentScope) (log : List Answered)
    (events : List RoleAdministrationEvent)
    → Trace (list_history principal_id scope) log events
    → (held : List RoleAssignment) × (told : List RoleAdministrationEvent) × (log
        ≡ answered (list_role_assignments principal_id scope) held ∷ [])
      × Told held told
      × Perm events told
      × IsTimed events
unfolding list_history
list_history-IsTimed principal_id scope log events t =
    let (held, rest, t1, e) = seen t in
    let (returned, stopped) = seen t1 in
    let (timed, same_events) = sort_events-IsTimed (events_of_history held) in
    (
      held,
      events_of_history held,
      rw e (rw stopped refl),
      events_of_history-Told held,
      subst (λ l. Perm l (events_of_history held)) returned same_events,
      subst IsTimed returned timed,
    )
