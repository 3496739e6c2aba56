-- ===== src/Storage/RoleStore/Reads.antt =====
-- packages/storage/src/role-store.ts: the methods of `createRoleStore` that only read or index.
pub mod Careful
pub mod Listings
pub mod History
use authorization_core.Common.{
  ℕ, ◌+◌, Bool, true, false, not, Option, none, some, List, [], ◌∷◌, ◌++◌, if◌then◌else◌, ◌&&◌,
}
use authorization_core.Text.{Text, same}
use authorization_core.Contracts.{
  RoleAssignment, RoleAssignmentGrant, active, revoked, grant_of, IdentityLinkKey, IdentityLink,
  RoleAssignmentScope,
}
use authorization_core.Storage.Keys.{
  RecordLocation, record_partition, audit_record_id, pointer_key, pointer_partition,
  role_holder_partition, identity_link_key, grant_sequence, revoke_sequence,
}
use authorization_core.Storage.Records.{
  AuthorizationRecord, StoredAssignmentPointer, StoredRoleHolder, StoredIdentityLink,
}
use authorization_core.Storage.Ports.{
  ScopeInput, VersionedRoleAssignment, SequencedRoleAssignmentAuditEvent, LinkIdentityResult,
  linked, unchanged, conflict,
}
use authorization_core.Storage.Program.{
  corrupt, Program, done, throw, call, check, ◌>>=◌, ◌>>◌, get_record, list_records, get_pointer,
  list_pointers, insert_holder, list_holders, get_link, insert_link,
}
use authorization_core.Storage.Checks.{
  snapshot_scope, scopes_equal, require_location, require_pointer_key, require_holder_key,
  require_lifecycle_position, grant_audit_record, revoke_audit_record,
}
use authorization_core.Storage.RoleStore.{
  Found, read_assignment, confirm_record_listing, confirm_holders, confirm_pointers,
  require_locations, value_of, active_only, assignments_only, sort_assignments, has_position,
}

or_corrupt : Option Text → Program Text
or_corrupt none = throw corrupt
or_corrupt (some e) = done e

abbrev is_none : Option AuthorizationRecord → Bool
is_none none = true
is_none (some r) = false

module _ (application_id : Text) where
  -- `locate`
  unfoldable pub locate_in :
      Option StoredAssignmentPointer → Text → Program (Option StoredAssignmentPointer)
  locate_in none assignment_id = done none
  locate_in (some pointer) assignment_id = do
    p ← require_pointer_key pointer application_id assignment_id
    done (some p)

  unfoldable pub locate : Text → Program (Option StoredAssignmentPointer)
  unfolding locate_in
  locate assignment_id = do
    pointer ← call (get_pointer (pointer_key application_id assignment_id))
    locate_in pointer assignment_id

  -- `resolvePrincipalId`
  resolved : Option StoredIdentityLink → IdentityLinkKey → Program (Option Text)
  resolved none key = done none
  resolved (some l) key = do
    check
        (same l.application_id application_id
          && same l.link.key.issuer key.issuer
          && same l.link.key.subject key.subject)
        corrupt
    done (some l.link.principal_id)

  pub resolve_principal_id : IdentityLinkKey → Program (Option Text)
  unfolding resolved
  resolve_principal_id key = do
    stored ← call (get_link (identity_link_key application_id key.issuer key.subject))
    resolved stored key

  -- `linkIdentity`
  pub link_identity : IdentityLink → Program LinkIdentityResult
  link_identity link = do
    result ← call (insert_link (record { application_id = application_id; link = link }))
    let stored = result.value.link
    check
        (same result.value.application_id application_id
          && same stored.key.issuer link.key.issuer
          && same stored.key.subject link.key.subject)
        corrupt
    done (
        if same stored.principal_id link.principal_id
        then (if result.inserted then linked stored else unchanged stored)
        else conflict)

  -- `getRoleAssignment`
  versioned : Option Found → Option VersionedRoleAssignment
  versioned none = none
  versioned (some f) =
      some (record { assignment = f.stored.assignment; concurrency_token = f.version })

  get_at : Option StoredAssignmentPointer → Text → Program (Option VersionedRoleAssignment)
  unfolding versioned
  get_at none assignment_id = done none
  get_at (some p) assignment_id = do
    current ← read_assignment p.location assignment_id p.role
    done (versioned current)

  pub get_role_assignment : Text → Program (Option VersionedRoleAssignment)
  unfolding get_at
  get_role_assignment assignment_id = do
    location ← locate assignment_id
    get_at location assignment_id

  -- The confirmed listing that both principal listings begin with.
  list_confirmed : Text → ScopeInput → Program (List AuthorizationRecord)
  list_confirmed principal_id scope = do
    exact ← snapshot_scope scope
    let expected : RecordLocation = record {
      application_id = application_id;
      principal_id = principal_id;
      scope = exact;
    }
    found ← call (list_records (record_partition expected))
    confirm_record_listing (record_partition expected) found
    require_locations found expected
    done found

  -- `listActiveRoleAssignments`
  pub list_active_role_assignments : Text → ScopeInput → Program (List RoleAssignmentGrant)
  unfolding list_confirmed
  list_active_role_assignments principal_id scope = do
    found ← list_confirmed principal_id scope
    done (active_only found)

  -- `listRoleAssignments`
  pub list_role_assignments : Text → ScopeInput → Program (List RoleAssignment)
  unfolding list_confirmed
  list_role_assignments principal_id scope = do
    found ← list_confirmed principal_id scope
    done (sort_assignments (assignments_only found))

  -- `verify` of `listActiveRoleAssignmentsByRole`, on the record behind a candidate
  verify_current :
      Option Found → StoredRoleHolder → Text → RoleAssignmentScope → Program (List RoleAssignment)
  verify_current none candidate role exact = done []
  verify_current (some f) candidate role exact = do
    let g = grant_of f.stored.assignment
    check
        (same g.principal_id candidate.location.principal_id
          && same g.role role
          && scopes_equal g.scope exact)
        corrupt
    done (elim f.stored.assignment [ active h ↦ f.stored.assignment ∷ [] | revoked h r ↦ [] ])

  verify_located :
      Option StoredAssignmentPointer
      → StoredRoleHolder
      → Text
      → RoleAssignmentScope
      → Program (List RoleAssignment)
  unfolding verify_current
  verify_located none candidate role exact = throw corrupt
  verify_located (some pointer) candidate role exact = do
    require_location candidate.location pointer.location
    check (same candidate.role pointer.role) corrupt
    current ← read_assignment pointer.location candidate.assignment_id pointer.role
    verify_current current candidate role exact

  verify : StoredRoleHolder → Text → RoleAssignmentScope → Program (List RoleAssignment)
  unfolding verify_located
  verify candidate role exact = do
    check
        (same candidate.location.application_id application_id
          && same candidate.role role
          && scopes_equal candidate.location.scope exact)
        corrupt
    pointer ← locate candidate.assignment_id
    verify_located pointer candidate role exact

  verify_all : List StoredRoleHolder → Text → RoleAssignmentScope → Program (List RoleAssignment)
  unfolding verify
  verify_all [] role exact = done []
  verify_all (c ∷ cs) role exact = do
    here ← verify c role exact
    rest ← verify_all cs role exact
    done (here ++ rest)

  -- `listActiveRoleAssignmentsByRole`. The candidates of a batch of 16 are verified concurrently in
  -- the source; here in the order of the listing.
  pub list_active_role_assignments_by_role : Text → ScopeInput → Program (List RoleAssignment)
  unfolding verify_all
  list_active_role_assignments_by_role role scope = do
    exact ← snapshot_scope scope
    let partition = role_holder_partition application_id role exact
    candidates ← call (list_holders partition)
    confirm_holders partition [] candidates
    verified ← verify_all candidates role exact
    done (sort_assignments verified)

  -- `rebuildRoleHolderIndex`
  rebuild_one : Option Found → StoredAssignmentPointer → ℕ → Program ℕ
  rebuild_one none pointer recorded = done recorded
  rebuild_one (some f) pointer recorded = do
    let expected : StoredRoleHolder = record {
      location = record {
        application_id = application_id;
        principal_id = pointer.location.principal_id;
        scope = pointer.location.scope;
      };
      assignment_id = pointer.assignment_id;
      role = pointer.role;
    }
    written ← call (insert_holder expected)
    _ ← require_holder_key written.value expected
    done (if written.inserted then recorded + 1 else recorded)

  rebuild_each : List StoredAssignmentPointer → ℕ → Program ℕ
  unfolding rebuild_one
  rebuild_each [] recorded = done recorded
  rebuild_each (p ∷ ps) recorded = do
    check (same p.location.application_id application_id) corrupt
    current ← read_assignment p.location p.assignment_id p.role
    next ← rebuild_one current p recorded
    rebuild_each ps next

  pub rebuild_role_holder_index : Program ℕ
  unfolding rebuild_each
  rebuild_role_holder_index = do
    let partition = pointer_partition application_id
    pointers ← call (list_pointers partition)
    confirm_pointers partition [] pointers
    rebuild_each pointers 0

  -- `listRoleAssignmentAuditEvents`, once the record and both positions are read
  history :
      RoleAssignment
      → Found
      → RecordLocation
      → Text
      → Option AuthorizationRecord
      → Program (List SequencedRoleAssignmentAuditEvent)
  unfolding or_corrupt
  history (active g) current location assignment_id position = do
    check (is_none position) corrupt
    done (grant_audit_record current.stored ∷ [])
  history (revoked g r) current location assignment_id position = do
    event_id ← or_corrupt current.stored.revoke_event_id
    _ ← require_lifecycle_position position location assignment_id revoke_sequence event_id
    revocation ← revoke_audit_record current.stored
    done (grant_audit_record current.stored ∷ revocation ∷ [])

  history_at :
      Option Found → RecordLocation → Text → Program (List SequencedRoleAssignmentAuditEvent)
  unfolding history
  history_at none location assignment_id = do
    rows ← call (list_records (record_partition location))
    check (not (has_position assignment_id rows)) corrupt
    done []
  history_at (some current) location assignment_id = do
    let partition = record_partition location
    first ← call (
        get_record
          (record { partition = partition; id = audit_record_id assignment_id grant_sequence }))
    _ ←
        require_lifecycle_position (value_of first) location assignment_id grant_sequence
          current.stored.grant_event_id
    second ← call (
        get_record
          (record { partition = partition; id = audit_record_id assignment_id revoke_sequence }))
    history current.stored.assignment current location assignment_id (value_of second)

  events_of :
      Option StoredAssignmentPointer → Text → Program (List SequencedRoleAssignmentAuditEvent)
  unfolding history_at
  events_of none assignment_id = done []
  events_of (some p) assignment_id = do
    current ← read_assignment p.location assignment_id p.role
    history_at current p.location assignment_id

  -- `listRoleAssignmentAuditEvents`
  pub list_role_assignment_audit_events : Text → Program (List SequencedRoleAssignmentAuditEvent)
  unfolding events_of
  list_role_assignment_audit_events assignment_id = do
    location ← locate assignment_id
    events_of location assignment_id
