-- ===== src/Storage/RoleStore/Mutations.antt =====
-- packages/storage/src/role-store.ts: the audited grant and the audited revoke.
pub mod Effects
pub mod Requests
pub mod Careful
use authorization_core.Common.{
  Bool, false, not, Option, none, some, List, [], ◌∷◌, ltb, if◌then◌else◌, ◌||◌, ◌&&◌,
}
use authorization_core.Text.{Text, same}
use authorization_core.Contracts.{RoleAssignment, RoleAssignmentGrant, Revocation, active, revoked}
use authorization_core.Storage.Keys.{
  RecordLocation, record_partition, tuple_record_id, grant_sequence, revoke_sequence,
}
use authorization_core.Storage.Records.{
  AuthorizationRecord, assignment, tuple, audit, StoredTuple, StoredAssignmentPointer,
  StoredRoleHolder,
}
use authorization_core.Storage.Ports.{
  GrantRoleAssignmentCommand, GrantRoleAssignmentResult, GrantConflict,
  AuditedRevokeRoleAssignmentCommand, AuditedRevokeRoleAssignmentResult, RevokeConflict,
}
use authorization_core.Storage.Program.{
  corrupt, Program, done, throw, call, ◌>>=◌, Versioned, get_record, insert_pointer, insert_holder,
  transact, TransactionAction, insert, put_if_unchanged, TransactionOutcome, committed, refused,
  Refusal, exists, changed, missing, Inserted,
}
use authorization_core.Storage.Checks.{
  snapshot_active, snapshot_revocation, points_elsewhere, revocations_equal, same_option,
  require_pointer_key, require_holder_key, require_tuple, grant_audit_record, revoke_audit_record,
}
use authorization_core.Storage.RoleStore.{Found, read_assignment}
use authorization_core.Storage.RoleStore.Reads.{locate}

-- `unchanged` of `grantRoleAssignmentWithAudit`
unchanged_grant : Found → GrantRoleAssignmentResult
unchanged_grant found =
    GrantRoleAssignmentResult.unchanged
      (record { assignment = found.stored.assignment; concurrency_token = found.version })
      (grant_audit_record found.stored)

-- The answer to a grant whose record exists already: unchanged for the same event, else a conflict.
replay : Found → Text → GrantConflict → GrantRoleAssignmentResult
unfolding unchanged_grant
replay found event_id other =
    if same found.stored.grant_event_id event_id
    then unchanged_grant found
    else GrantRoleAssignmentResult.conflict other

-- The three actions of a grant.
pub grant_actions :
    RecordLocation
    → RoleAssignmentGrant
    → Text
    → Option (Versioned AuthorizationRecord)
    → List TransactionAction
grant_actions location g event_id guard =
    let claimed : AuthorizationRecord =
      tuple (record { location = location; role = g.role; active_assignment_id = some g.id }) in
    insert (
      assignment (record {
        location = location;
        assignment = active g;
        grant_event_id = event_id;
        revoke_event_id = none;
      }))
    ∷ (elim guard [ none ↦ insert claimed | some v ↦ put_if_unchanged claimed v.version ])
    ∷ insert (
        audit (record {
          location = location;
          assignment_id = g.id;
          sequence = grant_sequence;
          event_id = event_id;
        }))
    ∷ []

-- What the grant reads after a transaction that was committed, and after one refused because a row
-- exists.
granted_as : Option Found → Program GrantRoleAssignmentResult
granted_as none = throw corrupt
granted_as (some f) = done (
    GrantRoleAssignmentResult.granted
      (record { assignment = f.stored.assignment; concurrency_token = f.version })
      (grant_audit_record f.stored))

landed_as : Option Found → Text → GrantRoleAssignmentResult
unfolding replay
landed_as none event_id = GrantRoleAssignmentResult.conflict GrantConflict.active_tuple
landed_as (some f) event_id = replay f event_id GrantConflict.assignment_id

after_grant :
    TransactionOutcome
    → RecordLocation
    → RoleAssignmentGrant
    → Text
    → Program GrantRoleAssignmentResult
unfolding granted_as landed_as
after_grant committed location g event_id = do
  written ← read_assignment location g.id g.role
  granted_as written
after_grant (refused exists) location g event_id = do
  landed ← read_assignment location g.id g.role
  done (landed_as landed event_id)
after_grant (refused _) location g event_id =
    done (GrantRoleAssignmentResult.conflict GrantConflict.active_tuple)

-- The grant from the record read behind the guard.
grant_unless_found :
    Option Found
    → RecordLocation
    → RoleAssignmentGrant
    → Text
    → Option (Versioned AuthorizationRecord)
    → Program GrantRoleAssignmentResult
unfolding replay grant_actions after_grant
grant_unless_found (some f) location g event_id guard =
    done (replay f event_id GrantConflict.event_id)
grant_unless_found none location g event_id guard = do
  outcome ← call (transact (record_partition location) (grant_actions location g event_id guard))
  after_grant outcome location g event_id

-- The occupant of the tuple.
occupant : Option (Versioned AuthorizationRecord) → RecordLocation → Text → Program (Option Text)
occupant none location role = done none
occupant (some v) location role = do
  t ← require_tuple v.value location role
  done t.active_assignment_id

-- `occupant !== null && occupant !== assignment.id`
unfoldable pub occupied : Option Text → Text → Bool
occupied none id = false
occupied (some other) id = not (same other id)

pub grant_guarded : RecordLocation → RoleAssignmentGrant → Text → Program GrantRoleAssignmentResult
unfolding occupant occupied grant_unless_found
grant_guarded location g event_id = do
  guard ←
      call
        (get_record (record { partition = record_partition location; id = tuple_record_id g.role }))
  held ← occupant guard location g.role
  if occupied held g.id
      then done (GrantRoleAssignmentResult.conflict GrantConflict.active_tuple)
      else (do
        existing ← read_assignment location g.id g.role
        grant_unless_found existing location g event_id guard)

-- The grant from the pointer that was inserted or found.
grant_pointed :
    Inserted StoredAssignmentPointer
    → RecordLocation
    → RoleAssignmentGrant
    → Text
    → Program GrantRoleAssignmentResult
unfolding grant_guarded
grant_pointed pointer location g event_id =
    if not pointer.inserted && points_elsewhere pointer.value location g.role
    then done (GrantRoleAssignmentResult.conflict GrantConflict.assignment_id)
    else (do
      let expected : StoredRoleHolder = record {
        location = location;
        assignment_id = g.id;
        role = g.role;
      }
      holder ← call (insert_holder expected)
      _ ← require_holder_key holder.value expected
      grant_guarded location g event_id)

-- `grantRoleAssignmentWithAudit`
unfoldable pub grant_role_assignment_with_audit :
    Text → GrantRoleAssignmentCommand → Program GrantRoleAssignmentResult
unfolding grant_pointed
grant_role_assignment_with_audit application_id input = do
  g ← snapshot_active input.assignment
  let location : RecordLocation = record {
    application_id = application_id;
    principal_id = g.principal_id;
    scope = g.scope;
  }
  pointer ←
      call (insert_pointer (record { location = location; assignment_id = g.id; role = g.role }))
  _ ← require_pointer_key pointer.value application_id g.id
  grant_pointed pointer location g input.audit_event_id

-- The tuple that a revoke writes back: retired, if it holds this assignment.
retire : StoredTuple → Text → StoredTuple
retire held assignment_id = record held {
  active_assignment_id =
      if same_option held.active_assignment_id (some assignment_id)
      then none
      else held.active_assignment_id;
}

-- The three actions of a revoke.
pub revoke_actions :
    RecordLocation
    → Found
    → RoleAssignmentGrant
    → Revocation
    → AuditedRevokeRoleAssignmentCommand
    → StoredTuple
    → Text
    → List TransactionAction
unfolding retire
revoke_actions location existing g revocation command held guard_version =
    put_if_unchanged
      (assignment (record {
        location = location;
        assignment = revoked g revocation;
        grant_event_id = existing.stored.grant_event_id;
        revoke_event_id = some command.audit_event_id;
      }))
      existing.version
    ∷ put_if_unchanged (tuple (retire held command.assignment_id)) guard_version
    ∷ insert (
        audit (record {
          location = location;
          assignment_id = command.assignment_id;
          sequence = revoke_sequence;
          event_id = command.audit_event_id;
        }))
    ∷ []

-- The result of a revoke that stands: the record with its revoke event.
revoked_as : Option Found → Program AuditedRevokeRoleAssignmentResult
revoked_as none = throw corrupt
revoked_as (some f) = do
  event ← revoke_audit_record f.stored
  done (
      AuditedRevokeRoleAssignmentResult.revoked
        (record { assignment = f.stored.assignment; concurrency_token = f.version }) event)

refusal_conflict : Refusal → RevokeConflict
refusal_conflict changed = RevokeConflict.concurrency
refusal_conflict exists = RevokeConflict.event_id
refusal_conflict missing = RevokeConflict.lifecycle

after_revoke :
    TransactionOutcome → StoredAssignmentPointer → Text → Program AuditedRevokeRoleAssignmentResult
unfolding revoked_as refusal_conflict
after_revoke committed pointer assignment_id = do
  written ← read_assignment pointer.location assignment_id pointer.role
  revoked_as written
after_revoke (refused reason) pointer assignment_id =
    done (AuditedRevokeRoleAssignmentResult.conflict (refusal_conflict reason))

-- The revoke of an active record, from its guard.
revoke_guarded :
    Option (Versioned AuthorizationRecord)
    → StoredAssignmentPointer
    → Found
    → RoleAssignmentGrant
    → AuditedRevokeRoleAssignmentCommand
    → Revocation
    → Program AuditedRevokeRoleAssignmentResult
unfolding revoke_actions after_revoke
revoke_guarded none pointer existing g command revocation = throw corrupt
revoke_guarded (some guard) pointer existing g command revocation = do
  held ← require_tuple guard.value pointer.location g.role
  outcome ← call (
      transact (record_partition pointer.location)
        (revoke_actions pointer.location existing g revocation command held guard.version))
  after_revoke outcome pointer command.assignment_id

-- The revoke of a record in either state.
revoke_found :
    RoleAssignment
    → StoredAssignmentPointer
    → Found
    → AuditedRevokeRoleAssignmentCommand
    → Revocation
    → Program AuditedRevokeRoleAssignmentResult
unfolding revoke_guarded
revoke_found (revoked g r) pointer existing command revocation =
    if not (same_option existing.stored.revoke_event_id (some command.audit_event_id))
      || not (revocations_equal r revocation)
    then done (AuditedRevokeRoleAssignmentResult.conflict RevokeConflict.lifecycle)
    else (do
      event ← revoke_audit_record existing.stored
      done (
          AuditedRevokeRoleAssignmentResult.unchanged
            (record { assignment = revoked g r; concurrency_token = existing.version }) event))
revoke_found (active g) pointer existing command revocation =
    if not (same existing.version command.expected_concurrency_token)
    then done (AuditedRevokeRoleAssignmentResult.conflict RevokeConflict.concurrency)
    else if ltb revocation.revoked_at_epoch_ms g.granted_at_epoch_ms
    then done (AuditedRevokeRoleAssignmentResult.conflict RevokeConflict.lifecycle)
    else (do
      guard ← call (
          get_record
            (record { partition = record_partition pointer.location; id = tuple_record_id g.role }))
      revoke_guarded guard pointer existing g command revocation)

revoke_read :
    Option Found
    → StoredAssignmentPointer
    → AuditedRevokeRoleAssignmentCommand
    → Revocation
    → Program AuditedRevokeRoleAssignmentResult
unfolding revoke_found
revoke_read none pointer command revocation = done AuditedRevokeRoleAssignmentResult.not_found
revoke_read (some f) pointer command revocation =
    revoke_found f.stored.assignment pointer f command revocation

revoke_located :
    Option StoredAssignmentPointer
    → AuditedRevokeRoleAssignmentCommand
    → Revocation
    → Program AuditedRevokeRoleAssignmentResult
unfolding revoke_read
revoke_located none command revocation = done AuditedRevokeRoleAssignmentResult.not_found
revoke_located (some pointer) command revocation = do
  existing ← read_assignment pointer.location command.assignment_id pointer.role
  revoke_read existing pointer command revocation

-- `revokeRoleAssignmentWithAudit`
unfoldable pub revoke_role_assignment_with_audit :
    Text → AuditedRevokeRoleAssignmentCommand → Program AuditedRevokeRoleAssignmentResult
unfolding revoke_located
revoke_role_assignment_with_audit application_id input = do
  revocation ← snapshot_revocation input
  location ← locate application_id input.assignment_id
  revoke_located location input revocation
