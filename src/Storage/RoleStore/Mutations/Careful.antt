-- ===== src/Storage/RoleStore/Mutations/Careful.antt =====
-- packages/storage/src/role-store.ts: the whole grant and the whole revoke, from their snapshots on,
-- only make the requests that a lifecycle change allows.
use authorization_core.Common.{
  ℕ, Bool, true, false, not, Option, none, some, ◌≡◌, refl, sym, ap, ◌∙◌, ltb, ◌||◌, ◌&&◌,
}
use authorization_core.Text.{Text, text, same}
use authorization_core.Js.{Number, safe_nonneg}
use authorization_core.Contracts.{
  RoleAssignment, RoleAssignmentGrant, Revocation, active, revoked, grant_of,
}
use authorization_core.Storage.Keys.{RecordLocation}
use authorization_core.Storage.Records.{
  AuthorizationRecord, assignment, StoredAssignment, StoredAssignmentPointer, StoredRoleHolder,
}
use authorization_core.Storage.Ports.{
  ScopeInput, ActorInput, AssignmentInput, AuditedRevokeRoleAssignmentCommand,
  GrantRoleAssignmentCommand,
}
use authorization_core.Storage.Checks.{
  snapshot_active, snapshot_revocation, snapshot_scope, snapshot_actor, require_lifecycle_timestamp,
  or_range_error, require_pointer_key, require_holder_key, revoke_audit_record, same_option,
  revocations_equal, revoke_event, locations_equal, require_location, points_elsewhere,
  require_tuple,
}
use authorization_core.Storage.Program.{
  Error, type_error, corrupt, Program, ◌>>=◌, Versioned, TransactionOutcome, committed, refused,
  check, Inserted,
}
use authorization_core.Storage.RoleStore.{Found, read_assignment}
use authorization_core.Storage.RoleStore.Reads.{locate, locate_in}
use authorization_core.Storage.RoleStore.Mutations.{
  grant_pointed, grant_role_assignment_with_audit, revoke_role_assignment_with_audit, after_revoke,
  revoked_as, revoke_guarded, revoke_found, revoke_read, revoke_located,
}
use authorization_core.Storage.RoleStore.Mutations.Requests.{
  Any, careful_if, careful_read, grant_guarded-IsCareful, IsRead, read_assignment-IsRead, IsGuard,
  require_tuple-IsGuard,
}
use authorization_core.Storage.Safety.{
  Named, revoking, guard_key, assignment_key, IsCareful, careful_bind,
}

-- A step of which nothing is known but that it is careful.
pub careful_step :
    {A B : Type 0} (w : Named) (m : Program A) (f : A → Program B)
    → IsCareful w m Any
    → ((u : Named) (a : A) → IsCareful u (f a) Any)
    → IsCareful w (m >>= f) Any
careful_step w m f c next = careful_bind w m f Any Any c (λ u a more q. next u a)

pub check-IsCareful : (w : Named) (b : Bool) (e : Error) → IsCareful w (check b e) Any
check-IsCareful w true e = tt
check-IsCareful w false e = tt

pub snapshot_scope-IsCareful : (w : Named) (s : ScopeInput) → IsCareful w (snapshot_scope s) Any
unfolding snapshot_scope
snapshot_scope-IsCareful w ScopeInput.application = tt
snapshot_scope-IsCareful w (ScopeInput.organization i) = tt
snapshot_scope-IsCareful w ScopeInput.unknown_kind = tt

snapshot_actor-IsCareful : (w : Named) (a : ActorInput) → IsCareful w (snapshot_actor a) Any
unfolding snapshot_actor
snapshot_actor-IsCareful w (ActorInput.principal i) = tt
snapshot_actor-IsCareful w (ActorInput.system i) = tt
snapshot_actor-IsCareful w ActorInput.unknown_kind = tt

timestamp-IsCareful : (w : Named) (n : Number) → IsCareful w (require_lifecycle_timestamp n) Any
unfolding require_lifecycle_timestamp or_range_error
timestamp-IsCareful w n = split (safe_nonneg n)
  where
    split : (o : Option ℕ) → IsCareful w (or_range_error o) Any
    split none = tt
    split (some m) = tt

snapshot_active-IsCareful : (w : Named) (a : AssignmentInput) → IsCareful w (snapshot_active a) Any
unfolding snapshot_active
snapshot_active-IsCareful w a =
    careful_step w (check (same a.status (text "active")) type_error) _ (check-IsCareful w _ _)
      λ u b. careful_step u (snapshot_scope a.scope) _ (snapshot_scope-IsCareful u a.scope) λ u2 s.
        careful_step u2 (snapshot_actor a.granted_by) _ (snapshot_actor-IsCareful u2 a.granted_by)
          λ u3 by.
            careful_step u3 (require_lifecycle_timestamp a.granted_at_epoch_ms) _
              (timestamp-IsCareful u3 a.granted_at_epoch_ms) λ u4 n. tt

snapshot_revocation-IsCareful :
    (w : Named) (c : AuditedRevokeRoleAssignmentCommand) → IsCareful w (snapshot_revocation c) Any
unfolding snapshot_revocation
snapshot_revocation-IsCareful w c =
    careful_step w (snapshot_actor c.revoked_by) _ (snapshot_actor-IsCareful w c.revoked_by) λ u by.
      careful_step u (require_lifecycle_timestamp c.revoked_at_epoch_ms) _
        (timestamp-IsCareful u c.revoked_at_epoch_ms) λ u2 n. tt

pub require_pointer_key-IsCareful :
    (w : Named) (p : StoredAssignmentPointer) (a i : Text)
    → IsCareful w (require_pointer_key p a i) Any
unfolding require_pointer_key
require_pointer_key-IsCareful w p a i =
    careful_step w (check (same p.location.application_id a && same p.assignment_id i) corrupt) _
      (check-IsCareful w _ _) λ u b. tt

pub require_holder_key-IsCareful :
    (w : Named) (h k : StoredRoleHolder) → IsCareful w (require_holder_key h k) Any
unfolding require_holder_key require_location
require_holder_key-IsCareful w h k =
    careful_step w (check (locations_equal h.location k.location) corrupt) _ (check-IsCareful w _ _)
      λ u b.
        careful_step u (check (same h.assignment_id k.assignment_id && same h.role k.role) corrupt)
          _ (check-IsCareful u _ _) λ u2 c. tt

grant_pointed-IsCareful :
    (w : Named) (pointer : Inserted StoredAssignmentPointer) (location : RecordLocation)
    (g : RoleAssignmentGrant) (event_id : Text)
    → IsCareful w (grant_pointed pointer location g event_id) Any
unfolding grant_pointed
grant_pointed-IsCareful w pointer location g event_id =
    careful_if w (not pointer.inserted && points_elsewhere pointer.value location g.role) _ _ Any
      (λ elsewhere. tt)
      (λ here. (
        λ w' more. tt,
        λ w' more holder told.
            careful_step w'
              (require_holder_key holder.value
                (record { location = location; assignment_id = g.id; role = g.role }))
              _ (require_holder_key-IsCareful w' _ _)
              λ u h. grant_guarded-IsCareful u location g event_id,
      ))

-- A grant is careful from the start.
pub grant-IsCareful :
    (w : Named) (application_id : Text) (input : GrantRoleAssignmentCommand)
    → IsCareful w (grant_role_assignment_with_audit application_id input) Any
unfolding grant_role_assignment_with_audit
grant-IsCareful w application_id input =
    careful_step w (snapshot_active input.assignment) _
      (snapshot_active-IsCareful w input.assignment)
      λ u g. (
        λ w' more. tt,
        λ w' more pointer told.
            careful_step w' (require_pointer_key pointer.value application_id g.id) _
              (require_pointer_key-IsCareful w' _ _ _)
              λ u2 p. grant_pointed-IsCareful u2 pointer _ g input.audit_event_id,
      )

pub revoke_audit_record-IsCareful :
    (w : Named) (s : StoredAssignment) → IsCareful w (revoke_audit_record s) Any
unfolding revoke_audit_record revoke_event
revoke_audit_record-IsCareful w s = split s.assignment s.revoke_event_id
  where
    split : (a : RoleAssignment) (e : Option Text) → IsCareful w (revoke_event a e) Any
    split (active g) e = tt
    split (revoked g r) none = tt
    split (revoked g r) (some e) = tt

revoked_as-IsCareful : (w : Named) (o : Option Found) → IsCareful w (revoked_as o) Any
unfolding revoked_as
revoked_as-IsCareful w none = tt
revoked_as-IsCareful w (some f) =
    careful_step w (revoke_audit_record f.stored) _ (revoke_audit_record-IsCareful w f.stored)
      λ u e. tt

after_revoke-IsCareful :
    (w : Named) (outcome : TransactionOutcome) (pointer : StoredAssignmentPointer) (id : Text)
    → IsCareful w (after_revoke outcome pointer id) Any
unfolding after_revoke
after_revoke-IsCareful w committed pointer id = careful_read w _ _ _ _ revoked_as-IsCareful
after_revoke-IsCareful w (refused why) pointer id = tt

-- The record that a revoke has read, by the id of its command.
abbrev Reads : Named → RecordLocation → Text → Found → Type 0
Reads w location id f =
    (w (assignment_key location id) f.version ≡ some (assignment f.stored))
    × (f.stored.location ≡ location)
    × ((grant_of f.stored.assignment).id ≡ id)

revoke_guarded-IsCareful :
    (w : Named) (guard : Option (Versioned AuthorizationRecord)) (pointer : StoredAssignmentPointer)
    (f : Found) (g : RoleAssignmentGrant) (command : AuditedRevokeRoleAssignmentCommand)
    (r : Revocation)
    → ((v : Versioned AuthorizationRecord)
        → guard ≡ some v
        → w (guard_key pointer.location g.role) v.version ≡ some v.value)
    → f.stored.assignment ≡ active g
    → Reads w pointer.location command.assignment_id f
    → IsCareful w (revoke_guarded guard pointer f g command r) Any
unfolding revoke_guarded
revoke_guarded-IsCareful w none pointer f g command r told is_active reads = tt
revoke_guarded-IsCareful w (some guard) pointer f g command r told is_active (reads, at, same_id) =
    let id : g.id ≡ command.assignment_id = ap (λ a. (grant_of a).id) (sym is_active) ∙ same_id in
    careful_bind w (require_tuple guard.value pointer.location g.role) _
      (λ u t. IsGuard guard.value pointer.location g.role t) Any
      (require_tuple-IsGuard w guard.value pointer.location g.role)
      (λ u held more (value, held_at, held_role). (
        λ w' further.
            revoking pointer.location f g r command held guard.version
              (ap (λ i. w' (assignment_key pointer.location i) f.version) id
                ∙ further _ _ _ (more _ _ _ reads))
              at is_active id (further _ _ _ (more _ _ _ (told guard refl)) ∙ ap some value) held_at
              held_role,
        λ w' further outcome heard. after_revoke-IsCareful w' outcome pointer command.assignment_id,
      ))

revoke_found-IsCareful :
    (w : Named) (a : RoleAssignment) (pointer : StoredAssignmentPointer) (f : Found)
    (command : AuditedRevokeRoleAssignmentCommand) (r : Revocation)
    → f.stored.assignment ≡ a
    → Reads w pointer.location command.assignment_id f
    → IsCareful w (revoke_found a pointer f command r) Any
unfolding revoke_found
revoke_found-IsCareful w (revoked g done_before) pointer f command r is_revoked reads =
    careful_if w
      (not (same_option f.stored.revoke_event_id (some command.audit_event_id))
        || not (revocations_equal done_before r))
      _ _ Any (λ other. tt)
      (λ same_event.
        careful_step w (revoke_audit_record f.stored) _ (revoke_audit_record-IsCareful w f.stored)
          λ u e. tt)
revoke_found-IsCareful w (active g) pointer f command r is_active (reads, at, id) =
    careful_if w (not (same f.version command.expected_concurrency_token)) _ _ Any (λ moved. tt)
      (λ current.
        careful_if w (ltb r.revoked_at_epoch_ms g.granted_at_epoch_ms) _ _ Any (λ early. tt)
          (λ late. (
            λ w' more. tt,
            λ w' more guard told.
                revoke_guarded-IsCareful w' guard pointer f g command r told is_active
                  (more _ _ _ reads, at, id),
          )))

revoke_located-IsCareful :
    (w : Named) (o : Option StoredAssignmentPointer) (command : AuditedRevokeRoleAssignmentCommand)
    (r : Revocation)
    → IsCareful w (revoke_located o command r) Any
unfolding revoke_located revoke_read
revoke_located-IsCareful w none command r = tt
revoke_located-IsCareful w (some pointer) command r =
    careful_bind w (read_assignment pointer.location command.assignment_id pointer.role) _
      (λ u o. IsRead u pointer.location command.assignment_id o) Any
      (read_assignment-IsRead w pointer.location command.assignment_id pointer.role)
      (λ u o more read. from u o read)
  where
    from :
        (u : Named) (o : Option Found)
        → IsRead u pointer.location command.assignment_id o
        → IsCareful u (revoke_read o pointer command r) Any
    from u none read = tt
    from u (some f) read =
        revoke_found-IsCareful u f.stored.assignment pointer f command r refl (read f refl)

pub locate-IsCareful : (w : Named) (a i : Text) → IsCareful w (locate a i) Any
unfolding locate locate_in
locate-IsCareful w a i = (λ w' more. tt, λ w' more o told. from w' o)
  where
    from : (u : Named) (o : Option StoredAssignmentPointer) → IsCareful u (locate_in a o i) Any
    from u none = tt
    from u (some p) =
        careful_step u (require_pointer_key p a i) _ (require_pointer_key-IsCareful u p a i)
          λ u2 q. tt

-- A revoke is careful from the start.
pub revoke-IsCareful :
    (w : Named) (application_id : Text) (input : AuditedRevokeRoleAssignmentCommand)
    → IsCareful w (revoke_role_assignment_with_audit application_id input) Any
unfolding revoke_role_assignment_with_audit
revoke-IsCareful w application_id input =
    careful_step w (snapshot_revocation input) _ (snapshot_revocation-IsCareful w input) λ u r.
      careful_step u (locate application_id input.assignment_id) _
        (locate-IsCareful u application_id input.assignment_id)
        λ u2 o. revoke_located-IsCareful u2 o input r
