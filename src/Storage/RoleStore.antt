-- ===== src/Storage/RoleStore.antt =====
-- packages/storage/src/role-store.ts: `createRoleStore`, whose methods take the application id that
-- they are bound to. The helpers of the
-- methods stand here; the children hold the reads and the mutations.
pub mod Reads
pub mod Mutations
pub mod Methods
pub mod Ordering
use authorization_core.Common.{
  ℕ, ◌+◌, Bool, true, false, not, Option, none, some, List, [], ◌∷◌, ◌==◌, if◌then◌else◌, ◌||◌,
  ◌&&◌, is_nil, length, filter,
}
use authorization_core.Text.{Text, same, includes}
use authorization_core.Contracts.{
  RoleAssignment, RoleAssignmentGrant, active, revoked, grant_of, IdentityLinkKey, IdentityLink,
  RoleAssignmentScope,
}
use authorization_core.Storage.Keys.{
  RecordLocation, EntityKey, record_partition, assignment_record_id, audit_record_id, pointer_key,
  pointer_partition, role_holder_partition, identity_link_key, grant_sequence, revoke_sequence,
}
use authorization_core.Storage.Records.{
  AuthorizationRecord, assignment, tuple, audit, StoredAssignment, StoredAssignmentPointer,
  StoredRoleHolder, StoredIdentityLink, location_of, record_key, key_of_pointer, key_of_holder,
}
use authorization_core.Storage.Codec.{encode, encode_pointer, encode_holder}
use authorization_core.Storage.Fields.{StoredRecord}
use authorization_core.Storage.Ports.{
  ScopeInput, VersionedRoleAssignment, SequencedRoleAssignmentAuditEvent, LinkIdentityResult,
  linked, unchanged, conflict,
}
use authorization_core.Storage.Program.{
  Error, corrupt, changed_during_read, Program, done, throw, request, call, check, ◌>>=◌, ◌>>◌,
  Versioned, Request, get_record, list_records, get_pointer, list_pointers, get_holder,
  insert_holder, list_holders, get_link, insert_link,
}
use authorization_core.Storage.Checks.{
  snapshot_scope, by_grant_then_id, scopes_equal, stored_records_equal, require_location,
  require_pointer_key, require_holder_key, require_assignment, require_lifecycle_position,
  grant_audit_record, revoke_audit_record,
}

-- One lifecycle record with its version: what `readAssignment` returns.
pub record Found : Type 0 where
  pub stored : StoredAssignment
  pub version : Text

-- `readAssignment`
unfoldable pub found_record :
    Option (Versioned AuthorizationRecord) → RecordLocation → Text → Text → Program (Option Found)
found_record none location assignment_id role = done none
found_record (some v) location assignment_id role = do
  stored ← require_assignment v.value location assignment_id role
  done (some (record { stored = stored; version = v.version }))

unfoldable pub read_assignment : RecordLocation → Text → Text → Program (Option Found)
unfolding found_record
read_assignment location assignment_id role = do
  versioned ← call (
      get_record
        (record { partition = record_partition location; id = assignment_record_id assignment_id }))
  found_record versioned location assignment_id role

-- Whether a confirmed row is there and encodes as the listed one.
confirms : {A : Type 0} → (A → StoredRecord) → A → Option A → Bool
confirms encoded listed none = false
confirms encoded listed (some found) = stored_records_equal (encoded listed) (encoded found)

-- The keys of a listing: in its partition, and no id twice.
keys_agree : Text → List Text → List EntityKey → Bool
keys_agree partition ids [] = true
keys_agree partition ids (k ∷ ks) =
    same k.partition partition && not (includes ids k.id) && keys_agree partition (k.id ∷ ids) ks

keys_of : List AuthorizationRecord → List EntityKey
keys_of [] = []
keys_of (r ∷ rs) = record_key r ∷ keys_of rs

abbrev pub value_of : Option (Versioned AuthorizationRecord) → Option AuthorizationRecord
value_of none = none
value_of (some v) = some v.value

confirm_records : List AuthorizationRecord → Program (Unit {0})
unfolding confirms
confirm_records [] = done tt
confirm_records (r ∷ rs) = do
  found ← call (get_record (record_key r))
  check (confirms encode r (value_of found)) changed_during_read
  confirm_records rs

-- `confirmRecordListing`. The point reads of a batch of 16 are concurrent in the source; here they
-- are made in the order of the listing.
pub confirm_record_listing : Text → List AuthorizationRecord → Program (Unit {0})
unfolding keys_agree keys_of confirm_records
confirm_record_listing partition found = do
  check (keys_agree partition [] (keys_of found)) corrupt
  confirm_records found

-- `confirmHolderListing`; `ids` are those seen before
pub confirm_holders : Text → List Text → List StoredRoleHolder → Program (Unit {0})
unfolding confirms
confirm_holders partition ids [] = done tt
confirm_holders partition ids (h ∷ hs) = do
  check (same (key_of_holder h).partition partition && not (includes ids (key_of_holder h).id))
      corrupt
  found ← call (get_holder (key_of_holder h))
  check (confirms encode_holder h found) changed_during_read
  confirm_holders partition ((key_of_holder h).id ∷ ids) hs

-- `confirmPointerListing`
pub confirm_pointers : Text → List Text → List StoredAssignmentPointer → Program (Unit {0})
unfolding confirms
confirm_pointers partition ids [] = done tt
confirm_pointers partition ids (p ∷ ps) = do
  check (same (key_of_pointer p).partition partition && not (includes ids (key_of_pointer p).id))
      corrupt
  found ← call (get_pointer (key_of_pointer p))
  check (confirms encode_pointer p found) changed_during_read
  confirm_pointers partition ((key_of_pointer p).id ∷ ids) ps

-- The loop of `requireLocation` over a listing.
pub require_locations : List AuthorizationRecord → RecordLocation → Program (Unit {0})
require_locations [] expected = done tt
require_locations (r ∷ rs) expected = do
  require_location (location_of r) expected
  require_locations rs expected

pub active_only : List AuthorizationRecord → List RoleAssignmentGrant
active_only [] = []
active_only (assignment s ∷ rs) =
    let rest = active_only rs in elim s.assignment [ active g ↦ g ∷ rest | revoked g r ↦ rest ]
active_only (tuple t ∷ rs) = active_only rs
active_only (audit a ∷ rs) = active_only rs

pub assignments_only : List AuthorizationRecord → List RoleAssignment
assignments_only [] = []
assignments_only (assignment s ∷ rs) = s.assignment ∷ assignments_only rs
assignments_only (tuple t ∷ rs) = assignments_only rs
assignments_only (audit a ∷ rs) = assignments_only rs

-- `.sort(byGrantThenId)`, which is stable
place_assignment : RoleAssignment → List RoleAssignment → List RoleAssignment
place_assignment a [] = a ∷ []
place_assignment a (b ∷ bs) =
    let rest = place_assignment a bs in if by_grant_then_id b a then b ∷ rest else a ∷ b ∷ bs

pub sort_assignments : List RoleAssignment → List RoleAssignment
unfolding place_assignment
sort_assignments [] = []
sort_assignments (a ∷ as') = place_assignment a (sort_assignments as')

-- `listRoleAssignmentAuditEvents` where no record stands behind the pointer: the positions left.
is_position : Text → AuthorizationRecord → Bool
is_position assignment_id (audit a) = same a.assignment_id assignment_id
is_position assignment_id _ = false

pub has_position : Text → List AuthorizationRecord → Bool
unfolding is_position
has_position assignment_id [] = false
has_position assignment_id (r ∷ rs) = is_position assignment_id r || has_position assignment_id rs
