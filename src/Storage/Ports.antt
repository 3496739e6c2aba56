-- ===== src/Storage/Ports.antt =====
-- packages/storage/src/index.ts: the commands and results of the persistence ports.
-- A command comes from an untyped caller: its times are any numbers, and its scope and actors may
-- name no known kind, which the code tests.
use authorization_core.Common.{ℕ, Option}
use authorization_core.Text.{Text}
use authorization_core.Js.{Number}
use authorization_core.Contracts.{RoleAssignment, RoleAssignmentGrant, Revocation, IdentityLink}

pub data ScopeInput : Type 0 where
  application : ScopeInput
  organization : Text → ScopeInput
  unknown_kind : ScopeInput

pub data ActorInput : Type 0 where
  principal system : Text → ActorInput
  unknown_kind : ActorInput

-- The assignment of a grant command, with its `status`.
pub record AssignmentInput : Type 0 where
  pub id : Text
  pub principal_id : Text
  pub role : Text
  pub scope : ScopeInput
  pub granted_by : ActorInput
  pub granted_at_epoch_ms : Number
  pub status : Text

pub record GrantRoleAssignmentCommand : Type 0 where
  pub assignment : AssignmentInput
  pub audit_event_id : Text

pub record AuditedRevokeRoleAssignmentCommand : Type 0 where
  pub assignment_id : Text
  pub expected_concurrency_token : Text
  pub revoked_by : ActorInput
  pub revoked_at_epoch_ms : Number
  pub reason : Option Text
  pub audit_event_id : Text

pub record VersionedRoleAssignment : Type 0 where
  pub assignment : RoleAssignment
  pub concurrency_token : Text

pub data RoleAssignmentAuditEvent : Type 0 where
  granted : Text → RoleAssignmentGrant → RoleAssignmentAuditEvent
  revoked : Text → RoleAssignmentGrant → Revocation → RoleAssignmentAuditEvent

pub record SequencedRoleAssignmentAuditEvent : Type 0 where
  pub sequence : ℕ
  pub event : RoleAssignmentAuditEvent

pub data GrantConflict : Type 0 where
  assignment_id active_tuple event_id : GrantConflict

pub data GrantRoleAssignmentResult : Type 0 where
  granted unchanged :
      VersionedRoleAssignment → SequencedRoleAssignmentAuditEvent → GrantRoleAssignmentResult
  conflict : GrantConflict → GrantRoleAssignmentResult

pub data RevokeConflict : Type 0 where
  concurrency lifecycle event_id : RevokeConflict

pub data AuditedRevokeRoleAssignmentResult : Type 0 where
  revoked unchanged :
      VersionedRoleAssignment
      → SequencedRoleAssignmentAuditEvent
      → AuditedRevokeRoleAssignmentResult
  not_found : AuditedRevokeRoleAssignmentResult
  conflict : RevokeConflict → AuditedRevokeRoleAssignmentResult

pub data LinkIdentityResult : Type 0 where
  linked unchanged : IdentityLink → LinkIdentityResult
  conflict : LinkIdentityResult
