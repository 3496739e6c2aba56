-- ===== src/Core/Resolution.antt =====
-- What `resolveAccess` of packages/core/src/index.ts grants, whatever objects it is called with.
use authorization_core.Common.{
  Bool, false, not, Option, List, [], ◌≡◌, refl, sym, ◌∙◌, ◌||◌, ok, ok_step, ok-injective, subst,
  any, filter, ap,
}
use authorization_core.Text.{Text, text, includes, distinct}
use authorization_core.Text.Sorting.{IsSorted, IsSorted-ext, includes-distinct}
use authorization_core.Js.{Value, string, own_of, is_blank}
use authorization_core.Contracts.{AccessContext, AccessResolution}
use authorization_core.Core.{
  Tally, required_string, copy_optional_string_array, optional_permission_map, grant_names,
  unique_sorted, resolve_access_with_diagnostics, resolve_access,
}
use authorization_core.Core.Reads.{
  lists, read, known, includes-copy_optional_string_array, optional_permission_map-read,
  required_string-ok,
}
use authorization_core.Core.Sets.{
  unique_sorted-IsSorted, includes-unique_sorted, granted-grant_names, unknown-grant_names,
}

-- The steps of a resolution that returned.
record Steps (subject policy : Value) (r : AccessResolution) : Type 0 where
  role_names : List Text
  entitlement_names : List Text
  defaults : List Text
  role_map : Option Value
  entitlement_map : Option Value
  by_role : Tally
  by_entitlement : Tally
  read_principal :
      required_string subject (text "principalId") (text "principalId") ≡ ok r.context.principal_id
  read_version :
      required_string policy (text "version") (text "policy.version") ≡ ok r.context.policy_version
  read_roles : copy_optional_string_array subject (text "roles") (text "roles") ≡ ok role_names
  read_entitlements :
      copy_optional_string_array subject (text "entitlements") (text "entitlements")
      ≡ ok entitlement_names
  read_defaults :
      copy_optional_string_array policy (text "defaults") (text "policy.defaults") ≡ ok defaults
  read_role_map : optional_permission_map policy (text "roles") ≡ ok role_map
  read_entitlement_map : optional_permission_map policy (text "entitlements") ≡ ok entitlement_map
  grant_roles :
      grant_names role_map
        (text "policy.roles")
        r.context.roles
        (record { granted = distinct defaults; unknown = [] })
      ≡ ok by_role
  grant_entitlements :
      grant_names entitlement_map
        (text "policy.entitlements")
        r.context.entitlements
        (record { granted = by_role.granted; unknown = [] })
      ≡ ok by_entitlement
  roles_sorted : r.context.roles ≡ unique_sorted role_names
  entitlements_sorted : r.context.entitlements ≡ unique_sorted entitlement_names
  permissions_sorted : r.context.permissions ≡ unique_sorted by_entitlement.granted
  unknown_roles : r.diagnostics.unknown_roles ≡ by_role.unknown
  unknown_entitlements : r.diagnostics.unknown_entitlements ≡ by_entitlement.unknown

steps :
    (subject policy : Value) {r : AccessResolution}
    → resolve_access_with_diagnostics subject policy ≡ ok r
    → Steps subject policy r
unfolding resolve_access_with_diagnostics
steps subject policy {r} h = ok_step (required_string subject _ _) _ h λ principal a h1.
    ok_step (required_string policy _ _) _ h1 λ version b h2.
      ok_step (copy_optional_string_array subject _ _) _ h2 λ role_names c h3.
        ok_step (copy_optional_string_array subject _ _) _ h3 λ entitlement_names d h4.
          ok_step (copy_optional_string_array policy _ _) _ h4 λ defaults e h5.
            ok_step (optional_permission_map policy _) _ h5 λ role_map f h6.
              ok_step (optional_permission_map policy _) _ h6 λ entitlement_map g h7.
                ok_step (grant_names role_map _ _ _) _ h7 λ by_role i h8.
                  ok_step (grant_names entitlement_map _ _ _) _ h8 λ by_entitlement j h9.
                    subst (Steps subject policy) (ok-injective h9) (record {
                      role_names = role_names;
                      entitlement_names = entitlement_names;
                      defaults = defaults;
                      role_map = role_map;
                      entitlement_map = entitlement_map;
                      by_role = by_role;
                      by_entitlement = by_entitlement;
                      read_principal = a;
                      read_version = b;
                      read_roles = c;
                      read_entitlements = d;
                      read_defaults = e;
                      read_role_map = f;
                      read_entitlement_map = g;
                      grant_roles = i;
                      grant_entitlements = j;
                      roles_sorted = refl;
                      entitlements_sorted = refl;
                      permissions_sorted = refl;
                      unknown_roles = refl;
                      unknown_entitlements = refl;
                    })

context_step :
    (subject policy : Value) {c : AccessContext}
    → resolve_access subject policy ≡ ok c
    → (r : AccessResolution) × (resolve_access_with_diagnostics subject policy ≡ ok r)
      × (r.context ≡ c)
unfolding resolve_access
context_step subject policy h =
    ok_step (resolve_access_with_diagnostics subject policy) _ h λ r e h1. (r, e, ok-injective h1)

-- The permissions that a policy object gives to the names of a subject, read off the object itself.
unfoldable pub gives : Value → Text → List Text → Text → Bool
unfolding lists read
gives policy field names p = any (λ n. lists (own_of (read (own_of policy field)) n) p) names

-- A returned context holds a permission exactly when the policy's own `defaults` array lists it, or
-- the policy's own `roles` or `entitlements` map has, under one of the context's names, an own array
-- that lists it; whatever else the two objects hold.
pub resolve_access-permissions :
    (subject policy : Value) (p : Text) {c : AccessContext}
    → resolve_access subject policy ≡ ok c
    → includes c.permissions p ≡ (
        lists (own_of policy (text "defaults")) p
        || gives policy (text "roles") c.roles p
        || gives policy (text "entitlements") c.entitlements p)
unfolding gives
resolve_access-permissions subject policy p h =
    let (r, e, same_context) = context_step subject policy h in
    subst
      (λ c. includes c.permissions p ≡ (
        lists (own_of policy (text "defaults")) p
        || gives policy (text "roles") c.roles p
        || gives policy (text "entitlements") c.entitlements p))
      same_context (permissions-steps (steps subject policy e))
  where
    permissions-steps :
        {r : AccessResolution}
        → Steps subject policy r
        → includes r.context.permissions p ≡ (
            lists (own_of policy (text "defaults")) p
            || gives policy (text "roles") r.context.roles p
            || gives policy (text "entitlements") r.context.entitlements p)
    permissions-steps {r} s =
        let d = includes-copy_optional_string_array policy _ _ p s.read_defaults in
        let one = granted-grant_names s.role_map _ r.context.roles _ p s.grant_roles in
        let two =
          granted-grant_names s.entitlement_map _ r.context.entitlements _ p s.grant_entitlements in
        rw (
          s.permissions_sorted,
          includes-unique_sorted,
          two,
          one,
          includes-distinct,
          d,
          ← optional_permission_map-read policy _ s.read_role_map,
          ← optional_permission_map-read policy _ s.read_entitlement_map,
        )

-- What a context says of the subject: the names in the subject's own array, strictly sorted.
pub record IsCanonical (subject : Value) (c : AccessContext) : Type 0 where
  pub principal : read (own_of subject (text "principalId")) ≡ string c.principal_id
  pub not_blank : is_blank c.principal_id ≡ false
  pub roles : (n : Text) → includes c.roles n ≡ lists (own_of subject (text "roles")) n
  pub entitlements :
      (n : Text) → includes c.entitlements n ≡ lists (own_of subject (text "entitlements")) n
  pub roles_sorted : IsSorted c.roles
  pub entitlements_sorted : IsSorted c.entitlements
  pub permissions_sorted : IsSorted c.permissions

-- A returned context names the subject's own principal, which is not blank; its roles and
-- entitlements are the strings of the subject's own arrays; and its three lists are strictly sorted
-- by code units, so that no name occurs twice.
pub resolve_access-IsCanonical :
    (subject policy : Value) {c : AccessContext}
    → resolve_access subject policy ≡ ok c
    → IsCanonical subject c
resolve_access-IsCanonical subject policy h =
    let (r, e, same_context) = context_step subject policy h in
    subst (IsCanonical subject) same_context (canonical (steps subject policy e))
  where
    canonical : {r : AccessResolution} → Steps subject policy r → IsCanonical subject r.context
    canonical {r} s =
        let (one, two) = required_string-ok subject _ _ s.read_principal in
        record {
          principal = one;
          not_blank = two;
          roles = λ n.
              rw (s.roles_sorted, includes-unique_sorted)
                (includes-copy_optional_string_array subject _ _ n s.read_roles);
          entitlements = λ n.
              rw (s.entitlements_sorted, includes-unique_sorted)
                (includes-copy_optional_string_array subject _ _ n s.read_entitlements);
          roles_sorted = rw s.roles_sorted (unique_sorted-IsSorted s.role_names);
          entitlements_sorted =
              rw s.entitlements_sorted (unique_sorted-IsSorted s.entitlement_names);
          permissions_sorted =
              rw s.permissions_sorted (unique_sorted-IsSorted s.by_entitlement.granted);
        }

-- The diagnostics are exactly the context's names that the policy's own map does not own, in order;
-- and each of them gives no permission.
pub resolve_access_with_diagnostics-unknown :
    (subject policy : Value) {r : AccessResolution}
    → resolve_access_with_diagnostics subject policy ≡ ok r
    → (r.diagnostics.unknown_roles
        ≡ filter (λ n. not (known (read (own_of policy (text "roles"))) n)) r.context.roles)
      × (r.diagnostics.unknown_entitlements
          ≡ filter
              (λ n. not (known (read (own_of policy (text "entitlements"))) n))
              r.context.entitlements)
resolve_access_with_diagnostics-unknown subject policy {r} h =
    let s = steps subject policy h in
    (
      rw (
        s.unknown_roles,
        unknown-grant_names s.role_map _ r.context.roles _ s.grant_roles,
        optional_permission_map-read policy _ s.read_role_map,
      ),
      rw (
        s.unknown_entitlements,
        unknown-grant_names s.entitlement_map _ r.context.entitlements _ s.grant_entitlements,
        optional_permission_map-read policy _ s.read_entitlement_map,
      ),
    )

-- A context depends on the names of the subject as sets: two subjects whose own arrays have the same
-- strings, in whatever order and however often, get the same roles, entitlements and permissions.
pub resolve_access-ext :
    (one two policy : Value) {c d : AccessContext}
    → resolve_access one policy ≡ ok c
    → resolve_access two policy ≡ ok d
    → ((n : Text) → lists (own_of one (text "roles")) n ≡ lists (own_of two (text "roles")) n)
    → ((n : Text)
        → lists (own_of one (text "entitlements")) n ≡ lists (own_of two (text "entitlements")) n)
    → (c.roles ≡ d.roles) × (c.entitlements ≡ d.entitlements) × (c.permissions ≡ d.permissions)
resolve_access-ext one two policy {c} {d} h k same_roles same_entitlements =
    let v = resolve_access-IsCanonical one policy h in
    let w = resolve_access-IsCanonical two policy k in
    let roles =
      IsSorted-ext c.roles d.roles v.roles_sorted w.roles_sorted
        (λ n. v.roles n ∙ same_roles n ∙ sym (w.roles n)) in
    let entitlements =
      IsSorted-ext c.entitlements d.entitlements v.entitlements_sorted w.entitlements_sorted
        (λ n. v.entitlements n ∙ same_entitlements n ∙ sym (w.entitlements n)) in
    let permissions =
      IsSorted-ext c.permissions d.permissions v.permissions_sorted w.permissions_sorted (λ p.
        resolve_access-permissions one policy p h
        ∙ ap
            (λ (ns : List Text).
              lists (own_of policy (text "defaults")) p
              || gives policy (text "roles") ns p
              || gives policy (text "entitlements") c.entitlements p)
            roles
        ∙ ap
            (λ (ns : List Text).
              lists (own_of policy (text "defaults")) p
              || gives policy (text "roles") d.roles p
              || gives policy (text "entitlements") ns p)
            entitlements
        ∙ sym (resolve_access-permissions two policy p k)) in
    (roles, entitlements, permissions)
