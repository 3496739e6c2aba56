-- ===== src/Storage/RoleStore/Methods.antt =====
-- packages/storage/src/role-store.ts: the methods of the adapter that `createRoleStore` returns, each
-- with its arguments.
use authorization_core.Text.{Text}
use authorization_core.Contracts.{IdentityLinkKey, IdentityLink}
use authorization_core.Storage.Ports.{
  ScopeInput, GrantRoleAssignmentCommand, AuditedRevokeRoleAssignmentCommand,
}
use authorization_core.Storage.Program.{Program, done, ◌>>=◌}
use authorization_core.Storage.RoleStore.Reads.{
  resolve_principal_id, link_identity, get_role_assignment, list_active_role_assignments,
  list_role_assignments, list_active_role_assignments_by_role, rebuild_role_holder_index,
  list_role_assignment_audit_events,
}
use authorization_core.Storage.RoleStore.Reads.Careful.{
  resolve_principal_id-IsCareful, link_identity-IsCareful, get_role_assignment-IsCareful,
}
use authorization_core.Storage.RoleStore.Reads.Listings.{
  list_active_role_assignments-IsCareful, list_role_assignments-IsCareful,
  list_active_role_assignments_by_role-IsCareful, rebuild_role_holder_index-IsCareful,
}
use authorization_core.Storage.RoleStore.Reads.History.{list_role_assignment_audit_events-IsCareful}
use authorization_core.Storage.RoleStore.Mutations.{
  grant_role_assignment_with_audit, revoke_role_assignment_with_audit,
}
use authorization_core.Storage.RoleStore.Mutations.Requests.{Any}
use authorization_core.Storage.RoleStore.Mutations.Careful.{grant-IsCareful, revoke-IsCareful}
use authorization_core.Storage.Safety.{Named, IsCareful, careful_bind}

pub data Method : Type 0 where
  resolving : IdentityLinkKey → Method
  linking : IdentityLink → Method
  getting : Text → Method
  listing_active : Text → ScopeInput → Method
  listing : Text → ScopeInput → Method
  listing_by_role : Text → ScopeInput → Method
  rebuilding : Method
  listing_events : Text → Method
  granting : GrantRoleAssignmentCommand → Method
  revoking : AuditedRevokeRoleAssignmentCommand → Method

-- A program whose result nobody keeps.
abbrev pub forget : {A : Type 0} → Program A → Program (Unit {0})
forget m = m >>= λ _. done tt

-- What a client of an application runs.
abbrev pub program_of : Text → Method → Program (Unit {0})
program_of application_id (resolving key) = forget (resolve_principal_id application_id key)
program_of application_id (linking link) = forget (link_identity application_id link)
program_of application_id (getting id) = forget (get_role_assignment application_id id)
program_of application_id (listing_active p scope) =
    forget (list_active_role_assignments application_id p scope)
program_of application_id (listing p scope) = forget (list_role_assignments application_id p scope)
program_of application_id (listing_by_role role scope) =
    forget (list_active_role_assignments_by_role application_id role scope)
program_of application_id rebuilding = forget (rebuild_role_holder_index application_id)
program_of application_id (listing_events id) =
    forget (list_role_assignment_audit_events application_id id)
program_of application_id (granting input) =
    forget (grant_role_assignment_with_audit application_id input)
program_of application_id (revoking input) =
    forget (revoke_role_assignment_with_audit application_id input)

forget-IsCareful :
    {A : Type 0} (w : Named) (m : Program A) → IsCareful w m Any → IsCareful w (forget m) Any
forget-IsCareful w m c = careful_bind w m _ Any Any c (λ u a more q. tt)

-- Every method only makes the requests that a lifecycle change allows.
pub program_of-IsCareful :
    (w : Named) (application_id : Text) (m : Method) → IsCareful w (program_of application_id m) Any
program_of-IsCareful w a (resolving key) =
    forget-IsCareful w (resolve_principal_id a key) (resolve_principal_id-IsCareful a w key)
program_of-IsCareful w a (linking link) =
    forget-IsCareful w (link_identity a link) (link_identity-IsCareful a w link)
program_of-IsCareful w a (getting id) =
    forget-IsCareful w (get_role_assignment a id) (get_role_assignment-IsCareful a w id)
program_of-IsCareful w a (listing_active p scope) =
    forget-IsCareful w (list_active_role_assignments a p scope)
      (list_active_role_assignments-IsCareful a w p scope)
program_of-IsCareful w a (listing p scope) =
    forget-IsCareful w (list_role_assignments a p scope)
      (list_role_assignments-IsCareful a w p scope)
program_of-IsCareful w a (listing_by_role role scope) =
    forget-IsCareful w (list_active_role_assignments_by_role a role scope)
      (list_active_role_assignments_by_role-IsCareful a w role scope)
program_of-IsCareful w a rebuilding =
    forget-IsCareful w (rebuild_role_holder_index a) (rebuild_role_holder_index-IsCareful a w)
program_of-IsCareful w a (listing_events id) =
    forget-IsCareful w (list_role_assignment_audit_events a id)
      (list_role_assignment_audit_events-IsCareful a w id)
program_of-IsCareful w a (granting input) =
    forget-IsCareful w (grant_role_assignment_with_audit a input) (grant-IsCareful w a input)
program_of-IsCareful w a (revoking input) =
    forget-IsCareful w (revoke_role_assignment_with_audit a input) (revoke-IsCareful w a input)
