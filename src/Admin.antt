-- ===== src/Admin.antt =====
-- packages/admin/src/index.ts: the administration service as programs of requests to the ports that it is
-- given. Other clients may run between two requests. The queue that keeps the revocations of one process
-- apart is left out: what is said here holds without it.
pub mod Traces
pub mod Guard
pub mod Revocations
pub mod History
mod Tests
use authorization_core.Common.{
  ℕ, Bool, true, false, not, ◌&&◌, ◌||◌, Option, none, some, List, [], ◌∷◌, ◌++◌, if◌then◌else◌,
  any, map, leb, ltb,
}
use authorization_core.Text.{Text, text, same, includes}
use authorization_core.Contracts.{
  RoleAssignment, RoleAssignmentGrant, RoleAssignmentActor, RoleAssignmentScope, Revocation, active,
  revoked, application, organization, principal, system,
}
use authorization_core.Storage.Ports.{
  VersionedRoleAssignment, GrantRoleAssignmentResult, AuditedRevokeRoleAssignmentResult, granted,
  unchanged, conflict, active_tuple, GrantConflict,
}

pub record RoleHolderIndexRow : Type 0 where
  pub principal_id : Text
  pub assignment_id : Text
  pub role : Text

-- `RoleManagementPolicy`, and whether the host keeps an index of its own.
pub record Administration : Type 0 where
  pub administrator_role : Text
  pub one_time_system_actors : List Text
  pub host_index : Bool

pub data ManagedBy : Type 0 where
  by_system by_human : ManagedBy

pub record AdministeredAssignment : Type 0 where
  pub assignment : RoleAssignmentGrant
  pub managed_by : ManagedBy

pub data EventKind : Type 0 where
  event_granted event_revoked : EventKind

pub record RoleAdministrationEvent : Type 0 where
  pub assignment_id : Text
  pub role : Text
  pub kind : EventKind
  pub actor : RoleAssignmentActor
  pub at_epoch_ms : ℕ
  pub reason : Option Text

pub record AssignRoleCommand : Type 0 where
  pub principal_id : Text
  pub role : Text
  pub scope : RoleAssignmentScope
  pub actor : RoleAssignmentActor

pub data AssignRoleResult : Type 0 where
  assigned : VersionedRoleAssignment → AssignRoleResult
  assign_duplicate assign_conflict : AssignRoleResult

pub record RevokeRoleCommand : Type 0 where
  pub assignment_id : Text
  pub actor : RoleAssignmentActor
  pub reason : Option Text

-- `role_revoked` says whether the guard compensated.
pub data RevokeRoleResult : Type 0 where
  role_revoked : Bool → RevokeRoleResult
  role_not_found already_revoked system_managed last_administrator revoke_conflict :
      RevokeRoleResult

-- What the service writes by the two audited mutations.
pub record Grant : Type 0 where
  pub assignment : RoleAssignmentGrant
  pub audit_event_id : Text

pub record Revoke : Type 0 where
  pub assignment_id : Text
  pub expected_concurrency_token : Text
  pub revoked_by : RoleAssignmentActor
  pub revoked_at_epoch_ms : ℕ
  pub reason : Option Text
  pub audit_event_id : Text

-- The ports: the store, the host's index, the clock and the source of ids.
pub data Request : Type 0 where
  get_role_assignment : Text → Request
  list_active_role_assignments list_role_assignments : Text → RoleAssignmentScope → Request
  list_active_role_assignments_by_role : Text → RoleAssignmentScope → Request
  grant_role_assignment_with_audit : Grant → Request
  revoke_role_assignment_with_audit : Revoke → Request
  record_row : RoleHolderIndexRow → Request
  list_by_role : Text → Request
  now generate_id : Request

abbrev pub Response : Request → Type 0
Response (get_role_assignment id) = Option VersionedRoleAssignment
Response (list_active_role_assignments p s) = List RoleAssignmentGrant
Response (list_role_assignments p s) = List RoleAssignment
Response (list_active_role_assignments_by_role r s) = List RoleAssignmentGrant
Response (grant_role_assignment_with_audit g) = GrantRoleAssignmentResult
Response (revoke_role_assignment_with_audit r) = AuditedRevokeRoleAssignmentResult
Response (record_row row) = Unit
Response (list_by_role r) = List RoleHolderIndexRow
Response now = ℕ
Response generate_id = Text

pub data Program (A : Type 0) : Type 0 where
  done : A → Program A
  fail_compensation : Program A
  request : (r : Request) → (Response r → Program A) → Program A

infixl 5 ◌>>=◌
abbrev pub ◌>>=◌ : {A B : Type 0} → Program A → (A → Program B) → Program B
done a >>= f = f a
fail_compensation >>= f = fail_compensation
request r k >>= f = request r (λ x. k x >>= f)

-- `await` of one request
abbrev pub call : (r : Request) → Program (Response r)
call r = request r done

abbrev guard_compensation_system_id : Text
guard_compensation_system_id = text "last-administrator-guard"

abbrev seed_system_id : Text
seed_system_id = text "bootstrap"

-- `assignmentManagedBy`
unfoldable pub assignment_managed_by : RoleAssignmentActor → Administration → ManagedBy
assignment_managed_by (principal id) policy = by_human
assignment_managed_by (system id) policy =
    if includes (guard_compensation_system_id ∷ seed_system_id ∷ []) id
      || includes policy.one_time_system_actors id
    then by_human
    else by_system

-- `sameScope`
unfoldable pub same_scope : RoleAssignmentScope → RoleAssignmentScope → Bool
same_scope application application = true
same_scope application (organization j) = false
same_scope (organization i) application = false
same_scope (organization i) (organization j) = same j i

-- `recordHolder`
unfoldable pub record_holder : Administration → RoleHolderIndexRow → Program (Unit {0})
record_holder policy row = if policy.host_index then call (record_row row) else done tt

pub seed_outcome : GrantRoleAssignmentResult → Text
seed_outcome (granted v e) = text "granted"
seed_outcome (unchanged v e) = text "already"
seed_outcome (conflict c) = text "conflict"

pub role_of : RoleAssignment → Text
role_of (active g) = g.role
role_of (revoked g r) = g.role

-- `ensureSeededAssignment`, for the system actor `system_id`
unfoldable pub ensure_seeded_assignment :
    Administration → Text → Text → RoleAssignmentScope → Text → Text → Text → Program Text
unfolding seed_outcome role_of record_holder
ensure_seeded_assignment policy principal_id role scope assignment_id audit_event_id system_id = do
  history ← call (list_role_assignments principal_id scope)
  if any (λ a. same (role_of a) role) history then done (text "already") else (do
    _ ←
        record_holder policy
          (record { principal_id = principal_id; assignment_id = assignment_id; role = role })
    at ← call now
    result ← call (
        grant_role_assignment_with_audit (record {
          assignment = record {
            id = assignment_id;
            principal_id = principal_id;
            role = role;
            scope = scope;
            granted_by = system system_id;
            granted_at_epoch_ms = at;
          };
          audit_event_id = audit_event_id;
        }))
    done (seed_outcome result))

-- Whether what the store holds is an active assignment of the role to the candidate in the exact scope.
unfoldable pub confirms :
    Option VersionedRoleAssignment → RoleHolderIndexRow → Text → RoleAssignmentScope → Bool
confirms none candidate role scope = false
confirms (some v) candidate role scope = elim v.assignment [
  | revoked g r ↦ false
  | active g ↦
      same g.role role && same g.principal_id candidate.principal_id && same_scope g.scope scope
]

-- The loop of `anotherActiveHolderExists` over its candidates.
unfoldable pub verify_candidates :
    List RoleHolderIndexRow → Text → RoleAssignmentScope → Text → Program Bool
unfolding confirms
verify_candidates [] role scope excluding = done false
verify_candidates (candidate ∷ candidates) role scope excluding =
    let rest = verify_candidates candidates role scope excluding in
    if same candidate.principal_id excluding then rest else (do
      current ← call (get_role_assignment candidate.assignment_id)
      if confirms current candidate role scope then done true else rest)

pub row_of : RoleAssignmentGrant → RoleHolderIndexRow
row_of g = record { principal_id = g.principal_id; assignment_id = g.id; role = g.role }

-- The candidates: the rows of the host's index, or what the store lists.
unfoldable pub candidates_of :
    Administration → Text → RoleAssignmentScope → Program (List RoleHolderIndexRow)
unfolding row_of
candidates_of policy role scope = if policy.host_index then call (list_by_role role) else (do
  holders ← call (list_active_role_assignments_by_role role scope)
  done (map row_of holders))

-- `anotherActiveHolderExists`
unfoldable pub another_active_holder_exists :
    Administration → Text → RoleAssignmentScope → Text → Program Bool
unfolding candidates_of verify_candidates
another_active_holder_exists policy role scope excluding = do
  candidates ← candidates_of policy role scope
  verify_candidates candidates role scope excluding

-- `revokeRole` when the compensation met a conflict
unfoldable pub decline_compensation :
    Administration → RoleAssignmentGrant → Program RevokeRoleResult
unfolding another_active_holder_exists
decline_compensation policy g = do
  held ← another_active_holder_exists policy g.role g.scope []
  if held then done (role_revoked false) else fail_compensation

unfoldable pub after_compensation :
    Administration → RoleAssignmentGrant → GrantRoleAssignmentResult → Program RevokeRoleResult
unfolding decline_compensation
after_compensation policy g (granted v e) = done (role_revoked true)
after_compensation policy g (unchanged v e) = done (role_revoked true)
after_compensation policy g (conflict c) = decline_compensation policy g

-- `revokeRole` when no active administrator remains
unfoldable pub compensate : Administration → RoleAssignmentGrant → Program RevokeRoleResult
unfolding record_holder after_compensation
compensate policy g = do
  compensation_id ← call generate_id
  _ ←
      record_holder policy
        (record { principal_id = g.principal_id; assignment_id = compensation_id; role = g.role })
  at ← call now
  event ← call generate_id
  result ← call (
      grant_role_assignment_with_audit (record {
        assignment = record {
          id = compensation_id;
          principal_id = g.principal_id;
          role = g.role;
          scope = g.scope;
          granted_by = system guard_compensation_system_id;
          granted_at_epoch_ms = at;
        };
        audit_event_id = event;
      }))
  after_compensation policy g result

-- `revokeRole` after a revocation that was committed, of an administrator
unfoldable pub verify_after : Administration → RoleAssignmentGrant → Program RevokeRoleResult
unfolding another_active_holder_exists compensate
verify_after policy g = do
  held ← another_active_holder_exists policy g.role g.scope []
  if held then done (role_revoked false) else compensate policy g

unfoldable pub after_revocation :
    Administration
    → RoleAssignmentGrant
    → Bool
    → AuditedRevokeRoleAssignmentResult
    → Program RevokeRoleResult
unfolding verify_after
after_revocation policy g guarded AuditedRevokeRoleAssignmentResult.not_found = done role_not_found
after_revocation policy g guarded (AuditedRevokeRoleAssignmentResult.conflict c) =
    done revoke_conflict
after_revocation policy g guarded (AuditedRevokeRoleAssignmentResult.revoked v e) =
    if guarded then verify_after policy g else done (role_revoked false)
after_revocation policy g guarded (AuditedRevokeRoleAssignmentResult.unchanged v e) =
    if guarded then verify_after policy g else done (role_revoked false)

-- `revokeRole` from its guard on
unfoldable pub revoke_permitted :
    Administration → RevokeRoleCommand → RoleAssignmentGrant → Text → Program RevokeRoleResult
unfolding after_revocation
revoke_permitted policy command g token = do
  at ← call now
  event ← call generate_id
  outcome ← call (
      revoke_role_assignment_with_audit (record {
        assignment_id = g.id;
        expected_concurrency_token = token;
        revoked_by = command.actor;
        revoked_at_epoch_ms = at;
        reason = command.reason;
        audit_event_id = event;
      }))
  after_revocation policy g (same g.role policy.administrator_role) outcome

-- The guard: the last administrator stays.
unfoldable pub revoke_guarded_role :
    Administration → RevokeRoleCommand → RoleAssignmentGrant → Text → Program RevokeRoleResult
unfolding another_active_holder_exists revoke_permitted
revoke_guarded_role policy command g token =
    if same g.role policy.administrator_role
    then (do
      another ← another_active_holder_exists policy g.role g.scope g.principal_id
      if another then revoke_permitted policy command g token else done last_administrator)
    else revoke_permitted policy command g token

unfoldable pub revoke_current :
    Administration → RevokeRoleCommand → Option VersionedRoleAssignment → Program RevokeRoleResult
unfolding revoke_guarded_role assignment_managed_by
revoke_current policy command none = done role_not_found
revoke_current policy command (some v) = elim v.assignment [
  | revoked g r ↦ done already_revoked
  | active g ↦ elim (assignment_managed_by g.granted_by policy) [
    | by_system ↦ done system_managed
    | by_human ↦ revoke_guarded_role policy command g v.concurrency_token
  ]
]

-- `revokeRole`
unfoldable pub revoke_role : Administration → RevokeRoleCommand → Program RevokeRoleResult
unfolding revoke_current
revoke_role policy command = do
  current ← call (get_role_assignment command.assignment_id)
  revoke_current policy command current

-- The host's index learns of what the store reports.
unfoldable pub heal : Administration → Text → List RoleAssignmentGrant → Program (Unit {0})
unfolding record_holder
heal policy principal_id [] = done tt
heal policy principal_id (g ∷ gs) = do
  _ ←
      record_holder policy
        (record { principal_id = principal_id; assignment_id = g.id; role = g.role })
  heal policy principal_id gs

pub administered : Administration → RoleAssignmentGrant → AdministeredAssignment
unfolding assignment_managed_by
administered policy g = record {
  assignment = g;
  managed_by = assignment_managed_by g.granted_by policy;
}

-- `viewGrants`
unfoldable pub view_grants :
    Administration → Text → RoleAssignmentScope → Program (List AdministeredAssignment)
unfolding heal administered
view_grants policy principal_id scope = do
  held ← call (list_active_role_assignments principal_id scope)
  _ ← heal policy principal_id held
  done (map (administered policy) held)

pub granted_event : RoleAssignmentGrant → RoleAdministrationEvent
granted_event g = record {
  assignment_id = g.id;
  role = g.role;
  kind = event_granted;
  actor = g.granted_by;
  at_epoch_ms = g.granted_at_epoch_ms;
  reason = none;
}

unfoldable pub events_of_assignment : RoleAssignment → List RoleAdministrationEvent
unfolding granted_event
events_of_assignment (active g) = granted_event g ∷ []
events_of_assignment (revoked g r) =
    granted_event g
    ∷ record {
      assignment_id = g.id;
      role = g.role;
      kind = event_revoked;
      actor = r.revoked_by;
      at_epoch_ms = r.revoked_at_epoch_ms;
      reason = r.reason;
    }
    ∷ []

unfoldable pub events_of_history : List RoleAssignment → List RoleAdministrationEvent
unfolding events_of_assignment
events_of_history [] = []
events_of_history (a ∷ held) = events_of_assignment a ++ events_of_history held

-- `events.sort((left, right) => left.atEpochMs - right.atEpochMs)`, which is stable
unfoldable pub place_event :
    RoleAdministrationEvent → List RoleAdministrationEvent → List RoleAdministrationEvent
place_event e [] = e ∷ []
place_event e (f ∷ fs) =
    let later = place_event e fs in
    if leb e.at_epoch_ms f.at_epoch_ms then e ∷ f ∷ fs else f ∷ later

unfoldable pub sort_events : List RoleAdministrationEvent → List RoleAdministrationEvent
unfolding place_event
sort_events [] = []
sort_events (e ∷ events) = place_event e (sort_events events)

-- `listHistory`
unfoldable pub list_history : Text → RoleAssignmentScope → Program (List RoleAdministrationEvent)
unfolding events_of_history sort_events
list_history principal_id scope = do
  held ← call (list_role_assignments principal_id scope)
  done (sort_events (events_of_history held))

pub assign_outcome : GrantRoleAssignmentResult → AssignRoleResult
assign_outcome (granted v e) = assigned v
assign_outcome (unchanged v e) = assign_conflict
assign_outcome (conflict active_tuple) = assign_duplicate
assign_outcome (conflict GrantConflict.assignment_id) = assign_conflict
assign_outcome (conflict GrantConflict.event_id) = assign_conflict

-- `assignRole`
unfoldable pub assign_role : Administration → AssignRoleCommand → Program AssignRoleResult
unfolding record_holder assign_outcome
assign_role policy command = do
  held ← call (list_active_role_assignments command.principal_id command.scope)
  if any (λ g. same g.role command.role) held then done assign_duplicate else (do
    assignment_id ← call generate_id
    _ ← record_holder policy (record {
      principal_id = command.principal_id;
      assignment_id = assignment_id;
      role = command.role;
    })
    at ← call now
    event ← call generate_id
    result ← call (
        grant_role_assignment_with_audit (record {
          assignment = record {
            id = assignment_id;
            principal_id = command.principal_id;
            role = command.role;
            scope = command.scope;
            granted_by = command.actor;
            granted_at_epoch_ms = at;
          };
          audit_event_id = event;
        }))
    done (assign_outcome result))
