-- ===== src/Storage/Codec.antt =====
-- packages/storage/src/collections.ts: the codecs of the four collections.
pub mod RoundTrip
use authorization_core.Common.{
  ℕ, Bool, true, false, not, Option, none, some, List, [], ◌∷◌, ◌++◌, ◌==◌, ltb, if◌then◌else◌,
  Result, ok, thrown, ◌>>=◌, ◌>>◌, guard, length, ◌||◌, ◌&&◌,
}
use authorization_core.Text.{Text, text, same, includes}
use authorization_core.Js.{
  Number, nonneg, Value, null, string, number, PropertyKey, name, symbol, Properties, end, property,
  Descriptor, data_property, accessor, own, safe_nonneg,
}
use authorization_core.Contracts.{
  RoleAssignmentScope, application, organization, RoleAssignmentActor, principal, system,
  RoleAssignmentGrant, Revocation, RoleAssignment, active, revoked,
}
use authorization_core.Storage.Keys.{RecordLocation, grant_sequence, revoke_sequence}
use authorization_core.Storage.Records.{
  AuthorizationRecord, assignment, tuple, audit, StoredAssignment, StoredTuple, StoredAudit,
  StoredAssignmentPointer, StoredRoleHolder, StoredIdentityLink,
}
use authorization_core.Storage.Fields.{
  Malformed, malformed, StoredRecord, read_own_value, assert_exact_fields, read_string,
  read_nullable_string, read_nonneg_safe_integer, require_null, field, nullable, assignment_fields,
  tuple_fields, audit_fields, pointer_fields, identity_link_fields,
}

-- `encodeActor`, before the fields that follow
encode_actor : RoleAssignmentActor → Text → Properties → Properties
encode_actor (principal id) prefix rest =
    field (prefix ++ text "Kind") (string (text "principal")) (
      field (prefix ++ text "PrincipalId") (string id)
        (field (prefix ++ text "SystemId") null rest))
encode_actor (system id) prefix rest =
    field (prefix ++ text "Kind") (string (text "system")) (
      field (prefix ++ text "PrincipalId") null
        (field (prefix ++ text "SystemId") (string id) rest))

-- `decodeActor`
decode_actor : StoredRecord → Text → Result Malformed RoleAssignmentActor
decode_actor r prefix = do
  kind ← read_string r (prefix ++ text "Kind")
  if same kind (text "system")
      then (do
        require_null r (prefix ++ text "PrincipalId")
        id ← read_string r (prefix ++ text "SystemId")
        ok (system id))
      else if same kind (text "principal")
      then (do
        require_null r (prefix ++ text "SystemId")
        id ← read_string r (prefix ++ text "PrincipalId")
        ok (principal id))
      else thrown malformed

-- `encodeLocation`
encode_scope : RoleAssignmentScope → Properties → Properties
encode_scope application rest =
    field (text "scopeKind") (string (text "application")) (field (text "organizationId") null rest)
encode_scope (organization id) rest =
    field (text "scopeKind") (string (text "organization"))
      (field (text "organizationId") (string id) rest)

encode_location : RecordLocation → Properties → Properties
unfolding encode_scope
encode_location l rest =
    field (text "applicationId") (string l.application_id)
      (field (text "principalId") (string l.principal_id) (encode_scope l.scope rest))

-- `decodeScope`
decode_scope : StoredRecord → Result Malformed RoleAssignmentScope
decode_scope r = do
  kind ← read_string r (text "scopeKind")
  if same kind (text "organization")
      then (do id ← read_string r (text "organizationId"); ok (organization id))
      else if same kind (text "application")
      then (do require_null r (text "organizationId"); ok application)
      else thrown malformed

-- `decodeLocation`
decode_location : StoredRecord → Result Malformed RecordLocation
unfolding decode_scope
decode_location r = do
  application_id ← read_string r (text "applicationId")
  principal_id ← read_string r (text "principalId")
  scope ← decode_scope r
  ok (record { application_id = application_id; principal_id = principal_id; scope = scope })

-- `encodeAssignment`
encode_lifecycle : RoleAssignment → Properties → Properties
unfolding encode_actor
encode_lifecycle (active g) rest = field (text "assignmentId") (string g.id) (
    field (text "role") (string g.role) (
      field (text "status") (string (text "active")) (
        field (text "grantedAtEpochMs") (number (nonneg g.granted_at_epoch_ms)) (
          encode_actor g.granted_by (text "grantedBy") (
            field (text "revokedAtEpochMs") null (
              field (text "revokedByKind") null (
                field (text "revokedByPrincipalId") null
                  (field (text "revokedBySystemId") null (field (text "reason") null rest)))))))))
encode_lifecycle (revoked g r) rest = field (text "assignmentId") (string g.id) (
    field (text "role") (string g.role) (
      field (text "status") (string (text "revoked")) (
        field (text "grantedAtEpochMs") (number (nonneg g.granted_at_epoch_ms)) (
          encode_actor g.granted_by (text "grantedBy") (
            field (text "revokedAtEpochMs") (number (nonneg r.revoked_at_epoch_ms)) (
              encode_actor r.revoked_by (text "revokedBy")
                (field (text "reason") (nullable r.reason) rest)))))))

encode_assignment : StoredAssignment → StoredRecord
unfolding encode_location encode_lifecycle
encode_assignment s = field (text "kind") (string (text "assignment")) (
    encode_location s.location (
      encode_lifecycle s.assignment (
        field (text "grantEventId") (string s.grant_event_id)
          (field (text "revokeEventId") (nullable s.revoke_event_id) end))))

-- `decodeAssignment`, once the location and the grant are read: the two statuses.
decode_active : StoredRecord → RoleAssignmentGrant → Result Malformed (RoleAssignment × Option Text)
decode_active r g = do
  require_null r (text "revokedAtEpochMs")
  require_null r (text "revokedByKind")
  require_null r (text "revokedByPrincipalId")
  require_null r (text "revokedBySystemId")
  require_null r (text "reason")
  require_null r (text "revokeEventId")
  ok (active g, none)

decode_revoked :
    StoredRecord → RoleAssignmentGrant → Result Malformed (RoleAssignment × Option Text)
unfolding decode_actor
decode_revoked r g = do
  revoked_at ← read_nonneg_safe_integer r (text "revokedAtEpochMs")
  guard (not (ltb revoked_at g.granted_at_epoch_ms)) malformed
  reason ← read_nullable_string r (text "reason")
  revoke_event_id ← read_string r (text "revokeEventId")
  revoked_by ← decode_actor r (text "revokedBy")
  ok (
    revoked g
        (record { revoked_by = revoked_by; revoked_at_epoch_ms = revoked_at; reason = reason }),
    some revoke_event_id,
  )

decode_status : StoredRecord → RoleAssignmentGrant → Result Malformed (RoleAssignment × Option Text)
unfolding decode_active decode_revoked
decode_status r g = do
  status ← read_string r (text "status")
  if same status (text "active")
      then decode_active r g
      else if same status (text "revoked")
      then decode_revoked r g
      else thrown malformed

-- `decodeAssignment`
decode_assignment : StoredRecord → Result Malformed StoredAssignment
unfolding decode_location decode_actor decode_status
decode_assignment r = do
  assert_exact_fields r assignment_fields
  location ← decode_location r
  granted_at ← read_nonneg_safe_integer r (text "grantedAtEpochMs")
  id ← read_string r (text "assignmentId")
  role ← read_string r (text "role")
  granted_by ← decode_actor r (text "grantedBy")
  lifecycle ← decode_status r (record {
    id = id;
    principal_id = location.principal_id;
    role = role;
    scope = location.scope;
    granted_by = granted_by;
    granted_at_epoch_ms = granted_at;
  })
  grant_event_id ← read_string r (text "grantEventId")
  ok (record {
    location = location;
    assignment = lifecycle.0;
    grant_event_id = grant_event_id;
    revoke_event_id = lifecycle.1;
  })

encode_tuple : StoredTuple → StoredRecord
unfolding encode_location
encode_tuple t = field (text "kind") (string (text "tuple")) (
    encode_location t.location (
      field (text "role") (string t.role)
        (field (text "activeAssignmentId") (nullable t.active_assignment_id) end)))

decode_tuple : StoredRecord → Result Malformed StoredTuple
unfolding decode_location
decode_tuple r = do
  assert_exact_fields r tuple_fields
  location ← decode_location r
  role ← read_string r (text "role")
  active_assignment_id ← read_nullable_string r (text "activeAssignmentId")
  ok (record { location = location; role = role; active_assignment_id = active_assignment_id })

encode_audit : StoredAudit → StoredRecord
unfolding encode_location
encode_audit a = field (text "kind") (string (text "audit")) (
    encode_location a.location (
      field (text "assignmentId") (string a.assignment_id) (
        field (text "sequence") (number (nonneg a.sequence))
          (field (text "eventId") (string a.event_id) end))))

decode_audit : StoredRecord → Result Malformed StoredAudit
unfolding decode_location
decode_audit r = do
  assert_exact_fields r audit_fields
  sequence ← read_nonneg_safe_integer r (text "sequence")
  guard (sequence == grant_sequence || sequence == revoke_sequence) malformed
  location ← decode_location r
  assignment_id ← read_string r (text "assignmentId")
  event_id ← read_string r (text "eventId")
  ok (record {
    location = location;
    assignment_id = assignment_id;
    sequence = sequence;
    event_id = event_id;
  })

-- `authorizationRecords.codec`
pub encode : AuthorizationRecord → StoredRecord
unfolding encode_assignment encode_tuple encode_audit
encode (assignment s) = encode_assignment s
encode (tuple t) = encode_tuple t
encode (audit a) = encode_audit a

pub decode : StoredRecord → Result Malformed AuthorizationRecord
unfolding decode_assignment decode_tuple decode_audit
decode r = do
  kind ← read_string r (text "kind")
  if same kind (text "assignment")
      then (do s ← decode_assignment r; ok (assignment s))
      else if same kind (text "tuple")
      then (do t ← decode_tuple r; ok (tuple t))
      else if same kind (text "audit")
      then (do a ← decode_audit r; ok (audit a))
      else thrown malformed

-- `assignmentPointers.codec`; that of `roleHolders` is the same text
pub encode_pointer : StoredAssignmentPointer → StoredRecord
unfolding encode_location
encode_pointer p =
    encode_location p.location (
      field (text "assignmentId") (string p.assignment_id)
        (field (text "role") (string p.role) end))

pub decode_pointer : StoredRecord → Result Malformed StoredAssignmentPointer
unfolding decode_location
decode_pointer r = do
  assert_exact_fields r pointer_fields
  location ← decode_location r
  assignment_id ← read_string r (text "assignmentId")
  role ← read_string r (text "role")
  ok (record { location = location; assignment_id = assignment_id; role = role })

-- `roleHolders.codec`
pub encode_holder : StoredRoleHolder → StoredRecord
unfolding encode_location
encode_holder h =
    encode_location h.location (
      field (text "assignmentId") (string h.assignment_id)
        (field (text "role") (string h.role) end))

pub decode_holder : StoredRecord → Result Malformed StoredRoleHolder
unfolding decode_location
decode_holder r = do
  assert_exact_fields r pointer_fields
  location ← decode_location r
  assignment_id ← read_string r (text "assignmentId")
  role ← read_string r (text "role")
  ok (record { location = location; assignment_id = assignment_id; role = role })

-- `identityLinks.codec`
pub encode_link : StoredIdentityLink → StoredRecord
encode_link l = field (text "applicationId") (string l.application_id) (
    field (text "issuer") (string l.link.key.issuer) (
      field (text "subject") (string l.link.key.subject)
        (field (text "principalId") (string l.link.principal_id) end)))

pub decode_link : StoredRecord → Result Malformed StoredIdentityLink
decode_link r = do
  assert_exact_fields r identity_link_fields
  application_id ← read_string r (text "applicationId")
  issuer ← read_string r (text "issuer")
  subject ← read_string r (text "subject")
  principal_id ← read_string r (text "principalId")
  ok (record {
    application_id = application_id;
    link = record {
      key = record { issuer = issuer; subject = subject };
      principal_id = principal_id;
    };
  })
