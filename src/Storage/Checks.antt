-- ===== src/Storage/Checks.antt =====
-- packages/storage/src/role-store.ts: snapshots of the commands, and the tests of what the Store
-- returned against what was asked for.
use authorization_core.Common.{
  ℕ, Bool, true, false, not, Option, none, some, ◌==◌, ltb, if◌then◌else◌, ◌||◌, ◌&&◌, List, [],
  ◌∷◌, length,
}
use authorization_core.Text.{Text, text, same, before}
use authorization_core.Js.{
  Number, safe_nonneg, Value, null, string, number, nonneg, PropertyKey, name, symbol, Descriptor,
  data_property, own,
}
use authorization_core.Contracts.{
  RoleAssignmentScope, application, organization, RoleAssignmentActor, principal, system,
  RoleAssignmentGrant, Revocation, RoleAssignment, revoked, grant_of,
}
use authorization_core.Storage.Keys.{RecordLocation, grant_sequence, revoke_sequence}
use authorization_core.Storage.Records.{
  AuthorizationRecord, assignment, tuple, audit, StoredAssignment, StoredTuple, StoredAudit,
  StoredAssignmentPointer, StoredRoleHolder,
}
use authorization_core.Storage.Fields.{StoredRecord, own_keys}
use authorization_core.Storage.Ports.{
  ScopeInput, ActorInput, AssignmentInput, AuditedRevokeRoleAssignmentCommand,
  SequencedRoleAssignmentAuditEvent, RoleAssignmentAuditEvent,
}
use authorization_core.Storage.Program.{
  type_error, range_error, corrupt, Program, done, throw, check, ◌>>=◌, ◌>>◌,
}

-- `snapshotScope`
unfoldable pub snapshot_scope : ScopeInput → Program RoleAssignmentScope
snapshot_scope ScopeInput.application = done application
snapshot_scope (ScopeInput.organization id) = done (organization id)
snapshot_scope ScopeInput.unknown_kind = throw type_error

-- `snapshotActor`
unfoldable pub snapshot_actor : ActorInput → Program RoleAssignmentActor
snapshot_actor (ActorInput.principal id) = done (principal id)
snapshot_actor (ActorInput.system id) = done (system id)
snapshot_actor ActorInput.unknown_kind = throw type_error

-- `requireLifecycleTimestamp`
unfoldable pub or_range_error : Option ℕ → Program ℕ
or_range_error none = throw range_error
or_range_error (some n) = done n

unfoldable pub require_lifecycle_timestamp : Number → Program ℕ
unfolding or_range_error
require_lifecycle_timestamp value = or_range_error (safe_nonneg value)

-- `snapshotActive`
unfoldable pub snapshot_active : AssignmentInput → Program RoleAssignmentGrant
unfolding snapshot_scope snapshot_actor require_lifecycle_timestamp
snapshot_active a = do
  check (same a.status (text "active")) type_error
  scope ← snapshot_scope a.scope
  granted_by ← snapshot_actor a.granted_by
  granted_at ← require_lifecycle_timestamp a.granted_at_epoch_ms
  done (record {
    id = a.id;
    principal_id = a.principal_id;
    role = a.role;
    scope = scope;
    granted_by = granted_by;
    granted_at_epoch_ms = granted_at;
  })

-- `snapshotRevokeCommand`: the revocation that the command asks for
unfoldable pub snapshot_revocation : AuditedRevokeRoleAssignmentCommand → Program Revocation
unfolding snapshot_actor require_lifecycle_timestamp
snapshot_revocation c = do
  revoked_by ← snapshot_actor c.revoked_by
  revoked_at ← require_lifecycle_timestamp c.revoked_at_epoch_ms
  done (record { revoked_by = revoked_by; revoked_at_epoch_ms = revoked_at; reason = c.reason })

-- `byGrantThenId(left, right) < 0`
unfoldable pub by_grant_then_id : RoleAssignment → RoleAssignment → Bool
by_grant_then_id left right =
    let l = (grant_of left).granted_at_epoch_ms in
    let r = (grant_of right).granted_at_epoch_ms in
    if l == r then before (grant_of left).id (grant_of right).id else ltb l r

-- `scopesEqual`
unfoldable pub scopes_equal : RoleAssignmentScope → RoleAssignmentScope → Bool
scopes_equal application application = true
scopes_equal application (organization j) = false
scopes_equal (organization i) application = false
scopes_equal (organization i) (organization j) = same i j

-- The test of `requireLocation`, and of the first three fields of `pointsElsewhere`.
unfoldable pub locations_equal : RecordLocation → RecordLocation → Bool
unfolding scopes_equal
locations_equal l m =
    same l.application_id m.application_id
    && same l.principal_id m.principal_id
    && scopes_equal l.scope m.scope

-- `pointsElsewhere`
unfoldable pub points_elsewhere : StoredAssignmentPointer → RecordLocation → Text → Bool
unfolding locations_equal
points_elsewhere pointer location role =
    not (locations_equal pointer.location location) || not (same pointer.role role)

-- `actorsEqual`
unfoldable pub actors_equal : RoleAssignmentActor → RoleAssignmentActor → Bool
actors_equal (principal i) (principal j) = same i j
actors_equal (principal i) (system j) = false
actors_equal (system i) (principal j) = false
actors_equal (system i) (system j) = same i j

-- Equality of two optional texts, `===`.
unfoldable pub same_option : Option Text → Option Text → Bool
same_option none none = true
same_option none (some t) = false
same_option (some s) none = false
same_option (some s) (some t) = same s t

-- `revocationsEqual`
unfoldable pub revocations_equal : Revocation → Revocation → Bool
unfolding actors_equal same_option
revocations_equal held asked =
    actors_equal held.revoked_by asked.revoked_by
    && held.revoked_at_epoch_ms == asked.revoked_at_epoch_ms
    && same_option held.reason asked.reason

-- `===` on the primitive values that codecs write; other values are not compared.
same_primitive : Value → Value → Bool
same_primitive null null = true
same_primitive (string s) (string t) = same s t
same_primitive (number (nonneg m)) (number (nonneg n)) = m == n
same_primitive _ _ = false

same_field : Option Descriptor → Option Descriptor → Bool
unfolding same_primitive
same_field (some (data_property v e)) (some (data_property w f)) = same_primitive v w
same_field _ _ = false

each_same : List PropertyKey → StoredRecord → StoredRecord → Bool
unfolding same_field
each_same [] l r = true
each_same (name k ∷ ks) l r = same_field (own l k) (own r k) && each_same ks l r
each_same (symbol n ∷ ks) l r = false

only_names : List PropertyKey → Bool
only_names [] = true
only_names (name k ∷ ks) = only_names ks
only_names (symbol n ∷ ks) = false

-- `storedRecordsEqual`
unfoldable pub stored_records_equal : StoredRecord → StoredRecord → Bool
unfolding each_same only_names own_keys
stored_records_equal left right =
    only_names (own_keys left)
    && only_names (own_keys right)
    && length (own_keys left) == length (own_keys right)
    && each_same (own_keys left) left right

-- `requireLocation`
unfoldable pub require_location : RecordLocation → RecordLocation → Program (Unit {0})
require_location actual expected = check (locations_equal actual expected) corrupt

-- `requirePointerKey`
unfoldable pub require_pointer_key :
    StoredAssignmentPointer → Text → Text → Program StoredAssignmentPointer
require_pointer_key pointer application_id assignment_id = do
  check
      (same pointer.location.application_id application_id
        && same pointer.assignment_id assignment_id)
      corrupt
  done pointer

-- `requireHolderKey`
unfoldable pub require_holder_key : StoredRoleHolder → StoredRoleHolder → Program StoredRoleHolder
unfolding require_location
require_holder_key holder expected = do
  require_location holder.location expected.location
  check (same holder.assignment_id expected.assignment_id && same holder.role expected.role) corrupt
  done holder

-- `requireAssignment`
unfoldable pub require_assignment :
    AuthorizationRecord → RecordLocation → Text → Text → Program StoredAssignment
unfolding require_location
require_assignment (assignment s) location assignment_id role = do
  require_location s.location location
  check
      (same (grant_of s.assignment).id assignment_id
        && same (grant_of s.assignment).principal_id location.principal_id
        && scopes_equal (grant_of s.assignment).scope location.scope
        && same (grant_of s.assignment).role role)
      corrupt
  done s
require_assignment _ location assignment_id role = throw corrupt

-- `requireTuple`
unfoldable pub require_tuple : AuthorizationRecord → RecordLocation → Text → Program StoredTuple
unfolding require_location
require_tuple (tuple t) location role = do
  require_location t.location location
  check (same t.role role) corrupt
  done t
require_tuple _ location role = throw corrupt

-- `requireLifecyclePosition`
unfoldable pub require_lifecycle_position :
    Option AuthorizationRecord → RecordLocation → Text → ℕ → Text → Program StoredAudit
unfolding require_location
require_lifecycle_position (some (audit a)) location assignment_id sequence event_id = do
  require_location a.location location
  check (same a.assignment_id assignment_id && a.sequence == sequence && same a.event_id event_id)
      corrupt
  done a
require_lifecycle_position _ location assignment_id sequence event_id = throw corrupt

-- `grantAuditRecord`
unfoldable pub grant_audit_record : StoredAssignment → SequencedRoleAssignmentAuditEvent
grant_audit_record s = record {
  sequence = grant_sequence;
  event = RoleAssignmentAuditEvent.granted s.grant_event_id (grant_of s.assignment);
}

-- `revokeAuditRecord`
unfoldable pub revoke_event :
    RoleAssignment → Option Text → Program SequencedRoleAssignmentAuditEvent
revoke_event (revoked g r) (some e) =
    done (record { sequence = revoke_sequence; event = RoleAssignmentAuditEvent.revoked e g r })
revoke_event _ _ = throw corrupt

unfoldable pub revoke_audit_record : StoredAssignment → Program SequencedRoleAssignmentAuditEvent
unfolding revoke_event
revoke_audit_record s = revoke_event s.assignment s.revoke_event_id
