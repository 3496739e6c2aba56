-- ===== src/Storage/RoleStore/Reads/History.antt =====
-- packages/storage/src/role-store.ts: `listRoleAssignmentAuditEvents` asks the Store for no
-- transaction.
use authorization_core.Common.{ℕ, not, Option, none, some, ◌==◌, ◌&&◌}
use authorization_core.Text.{Text, same}
use authorization_core.Contracts.{RoleAssignment, active, revoked}
use authorization_core.Storage.Keys.{RecordLocation, revoke_sequence, grant_sequence}
use authorization_core.Storage.Records.{
  AuthorizationRecord, assignment, tuple, audit, StoredAssignmentPointer,
}
use authorization_core.Storage.Program.{corrupt}
use authorization_core.Storage.Checks.{
  require_location, locations_equal, require_lifecycle_position, revoke_audit_record,
}
use authorization_core.Storage.RoleStore.{Found, value_of, has_position}
use authorization_core.Storage.RoleStore.Reads.{
  or_corrupt, is_none, locate, history, history_at, events_of, list_role_assignment_audit_events,
}
use authorization_core.Storage.RoleStore.Reads.Careful.{tested}
use authorization_core.Storage.RoleStore.Mutations.Requests.{Any, careful_read}
use authorization_core.Storage.RoleStore.Mutations.Careful.{
  careful_step, revoke_audit_record-IsCareful, locate-IsCareful,
}
use authorization_core.Storage.Safety.{Named, IsCareful}

or_corrupt-IsCareful : (w : Named) (o : Option Text) → IsCareful w (or_corrupt o) Any
unfolding or_corrupt
or_corrupt-IsCareful w none = tt
or_corrupt-IsCareful w (some e) = tt

require_lifecycle_position-IsCareful :
    (w : Named) (o : Option AuthorizationRecord) (l : RecordLocation) (id : Text) (n : ℕ) (e : Text)
    → IsCareful w (require_lifecycle_position o l id n e) Any
unfolding require_lifecycle_position require_location
require_lifecycle_position-IsCareful w none l id n e = tt
require_lifecycle_position-IsCareful w (some (assignment s)) l id n e = tt
require_lifecycle_position-IsCareful w (some (tuple t)) l id n e = tt
require_lifecycle_position-IsCareful w (some (audit a)) l id n e =
    tested w (locations_equal a.location l) corrupt _
      (tested w (same a.assignment_id id && a.sequence == n && same a.event_id e) corrupt _ tt)

module _ (application_id : Text) where
  history-IsCareful :
      (w : Named) (a : RoleAssignment) (f : Found) (l : RecordLocation) (id : Text)
      (o : Option AuthorizationRecord)
      → IsCareful w (history application_id a f l id o) Any
  unfolding history
  history-IsCareful w (active g) f l id o = tested w (is_none o) corrupt _ tt
  history-IsCareful w (revoked g r) f l id o =
      careful_step w (or_corrupt f.stored.revoke_event_id) _
        (or_corrupt-IsCareful w f.stored.revoke_event_id)
        λ u e.
          careful_step u (require_lifecycle_position o l id revoke_sequence e) _
            (require_lifecycle_position-IsCareful u o l id revoke_sequence e)
            λ u2 p.
              careful_step u2 (revoke_audit_record f.stored) _
                (revoke_audit_record-IsCareful u2 f.stored) λ u3 event. tt

  history_at-IsCareful :
      (w : Named) (o : Option Found) (l : RecordLocation) (id : Text)
      → IsCareful w (history_at application_id o l id) Any
  unfolding history_at
  history_at-IsCareful w none l id =
      (λ w' more. tt, λ w' more rows told. tested w' (not (has_position id rows)) corrupt _ tt)
  history_at-IsCareful w (some f) l id = (
    λ w' more. tt,
    λ w' more one told.
        careful_step w'
          (require_lifecycle_position (value_of one) l id grant_sequence f.stored.grant_event_id) _
          (require_lifecycle_position-IsCareful w' (value_of one) l id grant_sequence
            f.stored.grant_event_id)
          λ u p. (
            λ u2 more2. tt,
            λ u2 more2 two told2. history-IsCareful u2 f.stored.assignment f l id (value_of two),
          ),
  )

  events_of-IsCareful :
      (w : Named) (o : Option StoredAssignmentPointer) (id : Text)
      → IsCareful w (events_of application_id o id) Any
  unfolding events_of
  events_of-IsCareful w none id = tt
  events_of-IsCareful w (some p) id =
      careful_read w p.location id p.role _ (λ u o. history_at-IsCareful u o p.location id)

  pub list_role_assignment_audit_events-IsCareful :
      (w : Named) (id : Text)
      → IsCareful w (list_role_assignment_audit_events application_id id) Any
  unfolding list_role_assignment_audit_events
  list_role_assignment_audit_events-IsCareful w id =
      careful_step w (locate application_id id) _ (locate-IsCareful w application_id id)
        λ u o. events_of-IsCareful u o id
