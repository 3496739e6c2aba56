-- ===== src/Storage/RoleStore/Mutations/Effects.antt =====
-- packages/storage/src/role-store.ts: what a committed transaction of a grant or of a revoke does to
-- consistent rows.
use authorization_core.Common.{
  false, Option, none, some, List, ◌≡◌, refl, sym, ap, ◌∙◌, inl, inr, Bool-cases,
}
use authorization_core.Text.{Text, same}
use authorization_core.Text.Order.{eq_of_same}
use authorization_core.Contracts.{RoleAssignmentGrant, Revocation, active, revoked}
use authorization_core.Storage.Keys.{
  grant_sequence, revoke_sequence, EntityKey, RecordLocation, record_partition, tuple_record_id,
}
use authorization_core.Storage.Records.{
  AuthorizationRecord, assignment, tuple, audit, StoredAssignment, StoredTuple, StoredAudit,
  record_key,
}
use authorization_core.Storage.Ports.{AuditedRevokeRoleAssignmentCommand}
use authorization_core.Storage.Checks.{same_option}
use authorization_core.Storage.Program.{Versioned, TransactionAction}
use authorization_core.Storage.Store.{Rows, Versions, Commits}
use authorization_core.Storage.RoleStore.{Found}
use authorization_core.Storage.RoleStore.Mutations.{grant_actions, revoke_actions, occupied, retire}
use authorization_core.Storage.Safety.{
  MayTake, IsLifecycleChange, granting, revoking, guard_key, assignment_key,
}
use authorization_core.Storage.Safety.Changes.{IsConsistent, Change, after_three, was_revoked}
use authorization_core.Storage.Safety.KeyLaws.{key_ext}

-- A row that holds a version holds the value that the version names.
same_value :
    (s : Rows)
    → IsConsistent s
    → (k : EntityKey) (x y : AuthorizationRecord) (z w : Text) (u : AuthorizationRecord)
    → s.records k ≡ some (record { value = x; version = w })
    → s.records k ≡ some (record { value = y; version = z })
    → s.written k w ≡ some u
    → y ≡ u
same_value s consistent k x y z w u one two three =
    let a = consistent.named k _ one in let b = consistent.named k _ two in cc

-- An assignment that a guard holds, where the guard may be taken, is the one that takes it.
same_occupant : (i j : Text) → occupied (some i) j ≡ false → i ≡ j
unfolding occupied
same_occupant i j h = elim (Bool-cases (same i j)) [
  | inl e ↦ eq_of_same i j e
  | inr n ↦ absurd (cc)
]

-- No row at a key that is free.
no_row :
    (s : Rows) (k : EntityKey) (x : Versioned AuthorizationRecord)
    → s.records k ≡ none
    → ¬ (s.records k ≡ some x)
no_row s k x free found = cc

-- The rows that a grant writes.
abbrev granted_assignment : RecordLocation → RoleAssignmentGrant → Text → StoredAssignment
granted_assignment location g event_id = record {
  location = location;
  assignment = active g;
  grant_event_id = event_id;
  revoke_event_id = none;
}

abbrev claimed_guard : RecordLocation → RoleAssignmentGrant → StoredTuple
claimed_guard location g = record {
  location = location;
  role = g.role;
  active_assignment_id = some g.id;
}

abbrev grant_position : RecordLocation → RoleAssignmentGrant → Text → StoredAudit
grant_position location g event_id = record {
  location = location;
  assignment_id = g.id;
  sequence = grant_sequence;
  event_id = event_id;
}

granted-Change :
    (s t : Rows) (location : RecordLocation) (g : RoleAssignmentGrant) (event_id : Text)
    (version : EntityKey → Text)
    → s.records (record_key (assignment (granted_assignment location g event_id))) ≡ none
    → ((k : EntityKey)
        → t.records k
          ≡ after_three
              (assignment (granted_assignment location g event_id))
              (tuple (claimed_guard location g))
              (audit (grant_position location g event_id))
              version
              s.records
              k)
    → Versions s t
    → ((held : StoredTuple) (v id : Text)
        → s.records (record_key (tuple (claimed_guard location g)))
          ≡ some (record { value = tuple held; version = v })
        → held.active_assignment_id ≡ some id
        → id ≡ g.id)
    → Change s t
granted-Change s t location g event_id version free records versions alone = record {
  written_assignment = granted_assignment location g event_id;
  written_guard = claimed_guard location g;
  position = grant_position location g event_id;
  version = version;
  guard_location = refl;
  guard_role = refl;
  records = records;
  versions = versions;
  claims = λ h same_grant. cc;
  keeps = λ held v id found holds other. absurd (other (alone held v id found holds));
  follows = λ old v found. absurd (no_row s _ _ free found);
}

granting-Change :
    (s t : Rows) (location : RecordLocation) (g : RoleAssignmentGrant) (event_id : Text)
    (guard : Option (Versioned AuthorizationRecord))
    → IsConsistent s
    → MayTake s.written location g guard
    → Commits (grant_actions location g event_id guard) s t
    → Change s t
unfolding grant_actions
granting-Change s t location g event_id none consistent take c =
    granted-Change s t location g event_id c.version c.applied.0 c.records c.versions
      (λ held v id found holds. absurd (no_row s _ _ c.applied.1.0 found))
granting-Change s t location g event_id (some v) consistent (u, names, free) c =
    granted-Change s t location g event_id c.version c.applied.0 c.records c.versions
      (λ held w id found holds.
        let same_tuple : tuple held ≡ tuple u =
          same_value s consistent _ _ _ w v.version _ c.applied.1.0.1 found names in
        let same_held : held ≡ u = cc in
        same_occupant id g.id (
          ap (λ o. occupied o g.id) (sym holds ∙ ap (λ h. h.active_assignment_id) same_held)
          ∙ free))

-- The guard of a revoke keeps another assignment.
retire-keeps :
    (held : StoredTuple) (cid id : Text)
    → held.active_assignment_id ≡ some id
    → ¬ (id ≡ cid)
    → (retire held cid).active_assignment_id ≡ some id
unfolding retire same_option
retire-keeps held cid id holds other = elim (Bool-cases (same id cid)) [
  | inl e ↦ absurd (other (eq_of_same id cid e))
  | inr n ↦ rw (holds, n) refl
]

revoking-Change :
    (s t : Rows) (location : RecordLocation) (existing : Found) (g : RoleAssignmentGrant)
    (r : Revocation) (command : AuditedRevokeRoleAssignmentCommand) (held : StoredTuple)
    (guard_version : Text)
    → IsConsistent s
    → s.written (assignment_key location g.id) existing.version ≡ some (assignment existing.stored)
    → existing.stored.location ≡ location
    → existing.stored.assignment ≡ active g
    → g.id ≡ command.assignment_id
    → s.written (guard_key location g.role) guard_version ≡ some (tuple held)
    → held.location ≡ location
    → held.role ≡ g.role
    → Commits (revoke_actions location existing g r command held guard_version) s t
    → Change s t
unfolding revoke_actions
revoking-Change s t location existing g r command held guard_version consistent reads at is_active
      same_id guards held_at held_role c =
    record {
      written_assignment = record {
        location = location;
        assignment = revoked g r;
        grant_event_id = existing.stored.grant_event_id;
        revoke_event_id = some command.audit_event_id;
      };
      written_guard = retire held command.assignment_id;
      position = record {
        location = location;
        assignment_id = command.assignment_id;
        sequence = revoke_sequence;
        event_id = command.audit_event_id;
      };
      version = c.version;
      guard_location = held_at;
      guard_role = held_role;
      records = c.records;
      versions = c.versions;
      claims = λ h never. absurd (cc);
      keeps = λ old v id found holds other.
          let key : record_key (tuple (retire held command.assignment_id))
              ≡ guard_key location g.role =
            key_ext _ _ (ap record_partition held_at) (ap tuple_record_id held_role) in
          let same_tuple : tuple old ≡ tuple held =
            same_value s consistent _ _ _ v guard_version _ c.applied.1.0.1 found
              (ap (λ k. s.written k guard_version) key ∙ guards) in
          let same_held : old ≡ held = cc in
          retire-keeps held command.assignment_id id
            (ap (λ h. h.active_assignment_id) (sym same_held) ∙ holds)
            (λ e. other (e ∙ sym same_id));
      follows = λ old v found.
          let same_record : assignment old ≡ assignment existing.stored =
            same_value s consistent _ _ _ v existing.version _ c.applied.0.1 found reads in
          let same_old : old ≡ existing.stored = cc in
          was_revoked _ g r (ap (λ a. a.assignment) same_old ∙ is_active) refl
            (sym at ∙ ap (λ a. a.location) (sym same_old))
            (ap (λ a. a.grant_event_id) (sym same_old));
    }

-- A committed lifecycle change is a change of the three rows.
pub Commits-Change :
    (s t : Rows) (actions : List TransactionAction)
    → IsConsistent s
    → IsLifecycleChange s.written actions
    → Commits actions s t
    → Change s t
Commits-Change s t _ consistent (granting location g event_id guard take) c =
    granting-Change s t location g event_id guard consistent take c
Commits-Change s t _ consistent
      (revoking location existing g r command held v reads at is_active same_id guards held_at
        held_role)
      c =
    revoking-Change s t location existing g r command held v consistent reads at is_active same_id
      guards held_at held_role c
