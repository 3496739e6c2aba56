-- ===== src/Storage/RoleStore/Reads/Listings.antt =====
-- packages/storage/src/role-store.ts: the listings and the rebuild of the role-holder index ask the
-- Store for no transaction.
use authorization_core.Common.{ℕ, not, Option, none, some, List, [], ◌∷◌, ◌&&◌}
use authorization_core.Text.{Text, same, includes}
use authorization_core.Contracts.{grant_of, RoleAssignmentScope}
use authorization_core.Storage.Keys.{RecordLocation}
use authorization_core.Storage.Records.{
  AuthorizationRecord, StoredAssignmentPointer, StoredRoleHolder, key_of_holder, key_of_pointer,
  location_of,
}
use authorization_core.Storage.Codec.{encode, encode_pointer, encode_holder}
use authorization_core.Storage.Ports.{ScopeInput}
use authorization_core.Storage.Program.{corrupt, changed_during_read}
use authorization_core.Storage.Checks.{
  require_location, require_holder_key, locations_equal, snapshot_scope, scopes_equal,
}
use authorization_core.Storage.RoleStore.{
  Found, confirm_record_listing, confirm_records, confirm_holders, confirm_pointers, confirms,
  keys_agree, keys_of, require_locations, value_of,
}
use authorization_core.Storage.RoleStore.Reads.{
  locate, list_confirmed, list_active_role_assignments, list_role_assignments, verify, verify_all,
  verify_current, verify_located, list_active_role_assignments_by_role, rebuild_one, rebuild_each,
  rebuild_role_holder_index,
}
use authorization_core.Storage.RoleStore.Mutations.Requests.{Any, careful_read}
use authorization_core.Storage.RoleStore.Mutations.Careful.{
  careful_step, require_holder_key-IsCareful, locate-IsCareful, snapshot_scope-IsCareful,
}
use authorization_core.Storage.Safety.{Named, IsCareful}
use authorization_core.Storage.RoleStore.Reads.Careful.{tested}

confirm_records-IsCareful :
    (w : Named) (rs : List AuthorizationRecord) → IsCareful w (confirm_records rs) Any
unfolding confirm_records
confirm_records-IsCareful w [] = tt
confirm_records-IsCareful w (r ∷ rs) = (
  λ w' more. tt,
  λ w' more o told.
      tested w' (confirms encode r (value_of o)) changed_during_read (confirm_records rs)
        (confirm_records-IsCareful w' rs),
)

confirm_record_listing-IsCareful :
    (w : Named) (partition : Text) (rs : List AuthorizationRecord)
    → IsCareful w (confirm_record_listing partition rs) Any
unfolding confirm_record_listing
confirm_record_listing-IsCareful w partition rs =
    tested w (keys_agree partition [] (keys_of rs)) corrupt (confirm_records rs)
      (confirm_records-IsCareful w rs)

confirm_holders-IsCareful :
    (w : Named) (partition : Text) (ids : List Text) (hs : List StoredRoleHolder)
    → IsCareful w (confirm_holders partition ids hs) Any
unfolding confirm_holders
confirm_holders-IsCareful w partition ids [] = tt
confirm_holders-IsCareful w partition ids (h ∷ hs) =
    tested w (same (key_of_holder h).partition partition && not (includes ids (key_of_holder h).id))
      corrupt _
      (
        λ w' more. tt,
        λ w' more o told.
            tested w' (confirms encode_holder h o) changed_during_read
              (confirm_holders partition ((key_of_holder h).id ∷ ids) hs)
              (confirm_holders-IsCareful w' partition ((key_of_holder h).id ∷ ids) hs),
      )

confirm_pointers-IsCareful :
    (w : Named) (partition : Text) (ids : List Text) (ps : List StoredAssignmentPointer)
    → IsCareful w (confirm_pointers partition ids ps) Any
unfolding confirm_pointers
confirm_pointers-IsCareful w partition ids [] = tt
confirm_pointers-IsCareful w partition ids (p ∷ ps) =
    tested w
      (same (key_of_pointer p).partition partition && not (includes ids (key_of_pointer p).id))
      corrupt _
      (
        λ w' more. tt,
        λ w' more o told.
            tested w' (confirms encode_pointer p o) changed_during_read
              (confirm_pointers partition ((key_of_pointer p).id ∷ ids) ps)
              (confirm_pointers-IsCareful w' partition ((key_of_pointer p).id ∷ ids) ps),
      )

require_locations-IsCareful :
    (w : Named) (rs : List AuthorizationRecord) (l : RecordLocation)
    → IsCareful w (require_locations rs l) Any
unfolding require_locations require_location
require_locations-IsCareful w [] l = tt
require_locations-IsCareful w (r ∷ rs) l =
    tested w (locations_equal (location_of r) l) corrupt (require_locations rs l)
      (require_locations-IsCareful w rs l)

module _ (application_id : Text) where
  list_confirmed-IsCareful :
      (w : Named) (principal_id : Text) (scope : ScopeInput)
      → IsCareful w (list_confirmed application_id principal_id scope) Any
  unfolding list_confirmed
  list_confirmed-IsCareful w principal_id scope =
      careful_step w (snapshot_scope scope) _ (snapshot_scope-IsCareful w scope) λ u exact. (
        λ w' more. tt,
        λ w' more found told.
            careful_step w' (confirm_record_listing _ found) _
              (confirm_record_listing-IsCareful w' _ found)
              λ u2 b.
                careful_step u2 (require_locations found _) _
                  (require_locations-IsCareful u2 found _) λ u3 c. tt,
      )

  pub list_active_role_assignments-IsCareful :
      (w : Named) (principal_id : Text) (scope : ScopeInput)
      → IsCareful w (list_active_role_assignments application_id principal_id scope) Any
  unfolding list_active_role_assignments
  list_active_role_assignments-IsCareful w principal_id scope =
      careful_step w (list_confirmed application_id principal_id scope) _
        (list_confirmed-IsCareful w principal_id scope) λ u found. tt

  pub list_role_assignments-IsCareful :
      (w : Named) (principal_id : Text) (scope : ScopeInput)
      → IsCareful w (list_role_assignments application_id principal_id scope) Any
  unfolding list_role_assignments
  list_role_assignments-IsCareful w principal_id scope =
      careful_step w (list_confirmed application_id principal_id scope) _
        (list_confirmed-IsCareful w principal_id scope) λ u found. tt

  verify_current-IsCareful :
      (w : Named) (o : Option Found) (h : StoredRoleHolder) (role : Text)
      (scope : RoleAssignmentScope)
      → IsCareful w (verify_current application_id o h role scope) Any
  unfolding verify_current
  verify_current-IsCareful w none h role scope = tt
  verify_current-IsCareful w (some f) h role scope =
      tested w
        (same (grant_of f.stored.assignment).principal_id h.location.principal_id
          && same (grant_of f.stored.assignment).role role
          && scopes_equal (grant_of f.stored.assignment).scope scope)
        corrupt _ tt

  verify-IsCareful :
      (w : Named) (h : StoredRoleHolder) (role : Text) (scope : RoleAssignmentScope)
      → IsCareful w (verify application_id h role scope) Any
  unfolding verify verify_located require_location
  verify-IsCareful w h role scope =
      tested w
        (same h.location.application_id application_id
          && same h.role role
          && scopes_equal h.location.scope scope)
        corrupt _
        (careful_step w (locate application_id h.assignment_id) _
          (locate-IsCareful w application_id h.assignment_id) located)
    where
      located :
          (u : Named) (o : Option StoredAssignmentPointer)
          → IsCareful u (verify_located application_id o h role scope) Any
      located u none = tt
      located u (some p) = tested u (locations_equal h.location p.location) corrupt _ (
          tested u (same h.role p.role) corrupt _ (
            careful_read u p.location h.assignment_id p.role _
              (λ u2 o. verify_current-IsCareful u2 o h role scope)))

  verify_all-IsCareful :
      (w : Named) (hs : List StoredRoleHolder) (role : Text) (scope : RoleAssignmentScope)
      → IsCareful w (verify_all application_id hs role scope) Any
  unfolding verify_all
  verify_all-IsCareful w [] role scope = tt
  verify_all-IsCareful w (h ∷ hs) role scope =
      careful_step w (verify application_id h role scope) _ (verify-IsCareful w h role scope)
        λ u here.
          careful_step u (verify_all application_id hs role scope) _
            (verify_all-IsCareful u hs role scope) λ u2 rest. tt

  pub list_active_role_assignments_by_role-IsCareful :
      (w : Named) (role : Text) (scope : ScopeInput)
      → IsCareful w (list_active_role_assignments_by_role application_id role scope) Any
  unfolding list_active_role_assignments_by_role
  list_active_role_assignments_by_role-IsCareful w role scope =
      careful_step w (snapshot_scope scope) _ (snapshot_scope-IsCareful w scope) λ u exact. (
        λ w' more. tt,
        λ w' more hs told.
            careful_step w' (confirm_holders _ [] hs) _ (confirm_holders-IsCareful w' _ [] hs)
              λ u2 b.
                careful_step u2 (verify_all application_id hs role exact) _
                  (verify_all-IsCareful u2 hs role exact) λ u3 found. tt,
      )

  rebuild_one-IsCareful :
      (w : Named) (o : Option Found) (p : StoredAssignmentPointer) (n : ℕ)
      → IsCareful w (rebuild_one application_id o p n) Any
  unfolding rebuild_one
  rebuild_one-IsCareful w none p n = tt
  rebuild_one-IsCareful w (some f) p n = (
    λ w' more. tt,
    λ w' more h told.
        careful_step w' (require_holder_key h.value expected) _
          (require_holder_key-IsCareful w' h.value expected) λ u b. tt,
  )
    where
      expected : StoredRoleHolder
      expected = record {
        location = record {
          application_id = application_id;
          principal_id = p.location.principal_id;
          scope = p.location.scope;
        };
        assignment_id = p.assignment_id;
        role = p.role;
      }

  rebuild_each-IsCareful :
      (w : Named) (ps : List StoredAssignmentPointer) (n : ℕ)
      → IsCareful w (rebuild_each application_id ps n) Any
  unfolding rebuild_each
  rebuild_each-IsCareful w [] n = tt
  rebuild_each-IsCareful w (p ∷ ps) n =
      tested w (same p.location.application_id application_id) corrupt _ (
        careful_read w p.location p.assignment_id p.role _ λ u o.
          careful_step u (rebuild_one application_id o p n) _ (rebuild_one-IsCareful u o p n)
            λ u2 m. rebuild_each-IsCareful u2 ps m)

  pub rebuild_role_holder_index-IsCareful :
      (w : Named) → IsCareful w (rebuild_role_holder_index application_id) Any
  unfolding rebuild_role_holder_index
  rebuild_role_holder_index-IsCareful w = (
    λ w' more. tt,
    λ w' more ps told.
        careful_step w' (confirm_pointers _ [] ps) _ (confirm_pointers-IsCareful w' _ [] ps)
          λ u b. rebuild_each-IsCareful u ps 0,
  )
