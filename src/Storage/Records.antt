-- ===== src/Storage/Records.antt =====
-- packages/storage/src/collections.ts: the stored records and the key of each.
use authorization_core.Common.{ℕ, Option}
use authorization_core.Text.{Text}
use authorization_core.Contracts.{IdentityLink, RoleAssignment, grant_of}
use authorization_core.Storage.Keys.{
  RecordLocation, EntityKey, record_partition, assignment_record_id, tuple_record_id,
  audit_record_id, pointer_key, role_holder_partition, encode_segment, identity_link_key,
}

-- The authoritative lifecycle record.
pub record StoredAssignment : Type 0 where
  pub location : RecordLocation
  pub assignment : RoleAssignment
  pub grant_event_id : Text
  pub revoke_event_id : Option Text

-- The guard of one role in a location; `none` once its assignment is revoked.
pub record StoredTuple : Type 0 where
  pub location : RecordLocation
  pub role : Text
  pub active_assignment_id : Option Text

-- One position in the history of an assignment.
pub record StoredAudit : Type 0 where
  pub location : RecordLocation
  pub assignment_id : Text
  pub sequence : ℕ
  pub event_id : Text

pub data AuthorizationRecord : Type 0 where
  assignment : StoredAssignment → AuthorizationRecord
  tuple : StoredTuple → AuthorizationRecord
  audit : StoredAudit → AuthorizationRecord

pub record StoredAssignmentPointer : Type 0 where
  pub location : RecordLocation
  pub assignment_id : Text
  pub role : Text

pub record StoredRoleHolder : Type 0 where
  pub location : RecordLocation
  pub assignment_id : Text
  pub role : Text

pub record StoredIdentityLink : Type 0 where
  pub application_id : Text
  pub link : IdentityLink

abbrev pub location_of : AuthorizationRecord → RecordLocation
location_of (assignment s) = s.location
location_of (tuple t) = t.location
location_of (audit a) = a.location

abbrev pub record_id : AuthorizationRecord → Text
record_id (assignment s) = assignment_record_id (grant_of s.assignment).id
record_id (tuple t) = tuple_record_id t.role
record_id (audit a) = audit_record_id a.assignment_id a.sequence

-- `authorizationRecords.key`
abbrev pub record_key : AuthorizationRecord → EntityKey
record_key r = record { partition = record_partition (location_of r); id = record_id r }

-- `assignmentPointers.key`
abbrev pub key_of_pointer : StoredAssignmentPointer → EntityKey
key_of_pointer p = pointer_key p.location.application_id p.assignment_id

-- `roleHolders.key`
abbrev pub key_of_holder : StoredRoleHolder → EntityKey
key_of_holder h = record {
  partition = role_holder_partition h.location.application_id h.role h.location.scope;
  id = encode_segment h.assignment_id;
}

-- `identityLinks.key`
abbrev pub key_of_link : StoredIdentityLink → EntityKey
key_of_link l = identity_link_key l.application_id l.link.key.issuer l.link.key.subject
