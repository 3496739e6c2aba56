-- ===== src/Storage/RoleStore/Reads/Careful.antt =====
-- packages/storage/src/role-store.ts: the reads of one assignment and the methods on identity links
-- ask the Store for no transaction.
use authorization_core.Common.{Bool, true, false, Option, none, some, ◌&&◌}
use authorization_core.Text.{Text, same}
use authorization_core.Contracts.{IdentityLinkKey, IdentityLink}
use authorization_core.Storage.Records.{StoredAssignmentPointer, StoredIdentityLink}
use authorization_core.Storage.Program.{Error, corrupt, Program, done, check, ◌>>◌}
use authorization_core.Storage.RoleStore.Reads.{
  locate, resolved, resolve_principal_id, link_identity, get_at, get_role_assignment,
}
use authorization_core.Storage.RoleStore.Mutations.Requests.{Any, careful_read}
use authorization_core.Storage.RoleStore.Mutations.Careful.{careful_step, locate-IsCareful}
use authorization_core.Storage.Safety.{Named, IsCareful}

-- A test, then a program.
pub tested :
    {A : Type 0} (w : Named) (b : Bool) (e : Error) (m : Program A)
    → IsCareful w m Any
    → IsCareful w (check b e >> m) Any
tested w true e m c = c
tested w false e m c = tt

module _ (application_id : Text) where
  resolved-IsCareful :
      (w : Named) (o : Option StoredIdentityLink) (key : IdentityLinkKey)
      → IsCareful w (resolved application_id o key) Any
  unfolding resolved
  resolved-IsCareful w none key = tt
  resolved-IsCareful w (some l) key =
      tested w
        (same l.application_id application_id
          && same l.link.key.issuer key.issuer
          && same l.link.key.subject key.subject)
        corrupt (done (some l.link.principal_id)) tt

  pub resolve_principal_id-IsCareful :
      (w : Named) (key : IdentityLinkKey)
      → IsCareful w (resolve_principal_id application_id key) Any
  unfolding resolve_principal_id
  resolve_principal_id-IsCareful w key =
      (λ w' more. tt, λ w' more o told. resolved-IsCareful w' o key)

  pub link_identity-IsCareful :
      (w : Named) (link : IdentityLink) → IsCareful w (link_identity application_id link) Any
  unfolding link_identity
  link_identity-IsCareful w link = (
    λ w' more. tt,
    λ w' more r told.
        tested w'
          (same r.value.application_id application_id
            && same r.value.link.key.issuer link.key.issuer
            && same r.value.link.key.subject link.key.subject)
          corrupt _ tt,
  )

  get_at-IsCareful :
      (w : Named) (o : Option StoredAssignmentPointer) (id : Text)
      → IsCareful w (get_at application_id o id) Any
  unfolding get_at
  get_at-IsCareful w none id = tt
  get_at-IsCareful w (some p) id = careful_read w p.location id p.role _ (λ u o. tt)

  pub get_role_assignment-IsCareful :
      (w : Named) (id : Text) → IsCareful w (get_role_assignment application_id id) Any
  unfolding get_role_assignment
  get_role_assignment-IsCareful w id =
      careful_step w (locate application_id id) _ (locate-IsCareful w application_id id)
        λ u o. get_at-IsCareful u o id
