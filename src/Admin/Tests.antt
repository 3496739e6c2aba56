-- ===== src/Admin/Tests.antt =====
-- Examples of packages/admin/src/index.ts: the revocation of one of two administrators, and a history.
use authorization_core.Common.{false, none, some, List, [], ◌∷◌, ◌≡◌}
use mathlib.Core.List.{Perm}
use authorization_core.Text.{text, same}
use authorization_core.Contracts.{
  RoleAssignment, RoleAssignmentGrant, active, revoked, application, principal,
}
use authorization_core.Storage.Ports.{
  VersionedRoleAssignment, SequencedRoleAssignmentAuditEvent, AuditedRevokeRoleAssignmentResult,
  RoleAssignmentAuditEvent,
}
use authorization_core.Admin.{
  Administration, RevokeRoleCommand, Revoke, revoke_role, role_revoked, get_role_assignment,
  list_active_role_assignments_by_role, list_role_assignments, revoke_role_assignment_with_audit,
  now, generate_id, list_history, RoleAdministrationEvent, event_granted, event_revoked,
  another_active_holder_exists, confirms, same_scope,
}
use authorization_core.Admin.Traces.{Answered, answered, Trace, ends, asks}
use authorization_core.Admin.Revocations.{Reported, revoke_role-Reported}
use authorization_core.Admin.History.{IsTimed, Told, list_history-IsTimed}

abbrev house : Administration
house = record {
  administrator_role = text "admin";
  one_time_system_actors = [];
  host_index = false;
}

abbrev ada_grant : RoleAssignmentGrant
ada_grant = record {
  id = text "a1";
  principal_id = text "ada";
  role = text "admin";
  scope = application;
  granted_by = principal (text "root");
  granted_at_epoch_ms = 100;
}

abbrev bob_grant : RoleAssignmentGrant
bob_grant = record ada_grant {
  id = text "b1";
  principal_id = text "bob";
  granted_at_epoch_ms = 200;
}

abbrev versioned : RoleAssignmentGrant → VersionedRoleAssignment
versioned g = record { assignment = active g; concurrency_token = text "t" }

abbrev ada_leaves : RevokeRoleCommand
ada_leaves = record { assignment_id = text "a1"; actor = principal (text "root"); reason = none }

abbrev revocation_event : SequencedRoleAssignmentAuditEvent
revocation_event = record {
  sequence = 2;
  event =
      RoleAssignmentAuditEvent.revoked (text "e1") ada_grant
        (record { revoked_by = principal (text "root"); revoked_at_epoch_ms = 300; reason = none });
}

abbrev outcome : AuditedRevokeRoleAssignmentResult
outcome = AuditedRevokeRoleAssignmentResult.revoked (versioned ada_grant) revocation_event

abbrev ada_revocation : Revoke
ada_revocation = record {
  assignment_id = text "a1";
  expected_concurrency_token = text "t";
  revoked_by = principal (text "root");
  revoked_at_epoch_ms = 300;
  reason = none;
  audit_event_id = text "e1";
}

abbrev ada_log : List Answered
ada_log =
    answered (get_role_assignment (text "a1")) (some (versioned ada_grant))
    ∷ answered (list_active_role_assignments_by_role (text "admin") application)
        (ada_grant ∷ bob_grant ∷ [])
    ∷ answered (get_role_assignment (text "b1")) (some (versioned bob_grant))
    ∷ answered now 300
    ∷ answered generate_id (text "e1")
    ∷ answered (revoke_role_assignment_with_audit ada_revocation) outcome
    ∷ answered (list_active_role_assignments_by_role (text "admin") application) (bob_grant ∷ [])
    ∷ answered (get_role_assignment (text "b1")) (some (versioned bob_grant))
    ∷ []

revoke_role-Trace : Trace (revoke_role house ada_leaves) ada_log (role_revoked false)
unfolding revoke_role another_active_holder_exists confirms same same_scope
revoke_role-Trace = asks (some (versioned ada_grant)) (
    asks (ada_grant ∷ bob_grant ∷ []) (
      asks (some (versioned bob_grant)) (
        asks 300 (
          asks (text "e1")
            (asks outcome (asks (bob_grant ∷ []) (asks (some (versioned bob_grant)) ends)))))))

revoke_role-Reported_example : Reported house ada_leaves ada_log false
revoke_role-Reported_example = revoke_role-Reported house ada_leaves ada_log false revoke_role-Trace

abbrev ada_history : List RoleAssignment
ada_history =
    revoked ada_grant
      (record { revoked_by = principal (text "root"); revoked_at_epoch_ms = 300; reason = none })
    ∷ active bob_grant
    ∷ []

abbrev history_log : List Answered
history_log = answered (list_role_assignments (text "ada") application) ada_history ∷ []

abbrev told_history : List RoleAdministrationEvent
told_history =
    record {
      assignment_id = ada_grant.id;
      role = ada_grant.role;
      kind = event_granted;
      actor = ada_grant.granted_by;
      at_epoch_ms = ada_grant.granted_at_epoch_ms;
      reason = none;
    }
    ∷ record {
      assignment_id = bob_grant.id;
      role = bob_grant.role;
      kind = event_granted;
      actor = bob_grant.granted_by;
      at_epoch_ms = bob_grant.granted_at_epoch_ms;
      reason = none;
    }
    ∷ record {
      assignment_id = ada_grant.id;
      role = ada_grant.role;
      kind = event_revoked;
      actor = principal (text "root");
      at_epoch_ms = 300;
      reason = none;
    }
    ∷ []

list_history-Trace : Trace (list_history (text "ada") application) history_log told_history
unfolding list_history
list_history-Trace = asks ada_history ends

list_history-IsTimed_example :
    (held : List RoleAssignment) × (told : List RoleAdministrationEvent) × (history_log
      ≡ answered (list_role_assignments (text "ada") application) held ∷ [])
    × Told held told
    × Perm told_history told
    × IsTimed told_history
list_history-IsTimed_example =
    list_history-IsTimed (text "ada") application history_log told_history list_history-Trace
