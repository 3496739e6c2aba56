-- ===== src/Core/Tests.antt =====
-- Examples of packages/core/src/index.ts: a subject with repeated roles, and a policy.
use authorization_core.Common.{
  false, not, none, some, [], ◌∷◌, ◌≡◌, refl, ◌||◌, ok, thrown, filter, inl, inr, Bool-cases,
  if◌then◌else◌,
}
use authorization_core.Text.{Text, text, same, includes, sort, distinct}
use authorization_core.Js.{own_of, is_blank}
use authorization_core.Contracts.{
  AccessSubject, AccessPolicy, AccessContext, AccessResolution, granted, not_granted,
}
use authorization_core.Core.{
  resolve_access, resolve_access_with_diagnostics, decide_access, type_error, must_not_be_empty,
  unique_sorted,
}
use authorization_core.Core.Reads.{lists, read, known}
use authorization_core.Core.Resolution.{
  gives, resolve_access-permissions, resolve_access-IsCanonical, IsCanonical,
  resolve_access_with_diagnostics-unknown, resolve_access-ext,
}
use authorization_core.Core.Decisions.{decide_access_resolved}
use authorization_core.Core.Typed.{subject_object, policy_object, assigned, resolve_access_typed}

abbrev ada : AccessSubject
ada = record {
  principal_id = text "ada";
  roles = some (text "editor" ∷ text "admin" ∷ text "editor" ∷ []);
  entitlements = none;
}

abbrev house_policy : AccessPolicy
house_policy = record {
  version = text "v1";
  defaults = some (text "read" ∷ []);
  roles = some ((text "editor", text "write" ∷ text "read" ∷ []) ∷ []);
  entitlements = none;
}

abbrev ada_context : AccessContext
ada_context = record {
  principal_id = text "ada";
  policy_version = text "v1";
  roles = text "admin" ∷ text "editor" ∷ [];
  entitlements = [];
  permissions = text "read" ∷ text "write" ∷ [];
}

ada_resolves : resolve_access (subject_object ada) (policy_object house_policy) ≡ ok ada_context
unfolding resolve_access subject_object policy_object own_of is_blank sort distinct
ada_resolves = refl

resolve_access-permissions_example : includes ada_context.permissions (text "write") ≡ (
    lists (own_of (policy_object house_policy) (text "defaults")) (text "write")
    || gives (policy_object house_policy) (text "roles") ada_context.roles (text "write")
    || gives (policy_object house_policy) (text "entitlements") [] (text "write"))
resolve_access-permissions_example =
    resolve_access-permissions (subject_object ada) (policy_object house_policy) (text "write")
      ada_resolves

resolve_access-IsCanonical_example : IsCanonical (subject_object ada) ada_context
resolve_access-IsCanonical_example =
    resolve_access-IsCanonical (subject_object ada) (policy_object house_policy) ada_resolves

abbrev ada_resolution : AccessResolution
ada_resolution = record {
  context = ada_context;
  diagnostics = record { unknown_roles = text "admin" ∷ []; unknown_entitlements = [] };
}

ada_diagnosed :
    resolve_access_with_diagnostics (subject_object ada) (policy_object house_policy)
    ≡ ok ada_resolution
unfolding resolve_access_with_diagnostics subject_object policy_object own_of is_blank sort distinct
ada_diagnosed = refl

resolve_access_with_diagnostics-unknown_example :
    ((text "admin" ∷ [])
      ≡ filter
          (λ n. not (known (read (own_of (policy_object house_policy) (text "roles"))) n))
          ada_context.roles)
    × ([]
        ≡ filter
            (λ n. not (known (read (own_of (policy_object house_policy) (text "entitlements"))) n))
            [])
resolve_access_with_diagnostics-unknown_example =
    resolve_access_with_diagnostics-unknown (subject_object ada) (policy_object house_policy)
      ada_diagnosed

decide_access_resolved_example : decide_access ada_context (text "write") ≡ (
    let allowed =
      lists (own_of (policy_object house_policy) (text "defaults")) (text "write")
      || gives (policy_object house_policy) (text "roles") ada_context.roles (text "write")
      || gives (policy_object house_policy) (text "entitlements") [] (text "write") in
    if is_blank (text "write")
    then thrown (type_error (text "permission") must_not_be_empty)
    else ok (record {
      allowed = allowed;
      permission = text "write";
      reason = if allowed then granted else not_granted;
    }))
decide_access_resolved_example =
    decide_access_resolved (subject_object ada) (policy_object house_policy) (text "write")
      ada_resolves

-- The same roles in another order, without the repetition.
abbrev ada_again : AccessSubject
ada_again = record ada { roles = some (text "admin" ∷ text "editor" ∷ []) }

ada_again_resolves :
    resolve_access (subject_object ada_again) (policy_object house_policy) ≡ ok ada_context
unfolding resolve_access subject_object policy_object own_of is_blank sort distinct
ada_again_resolves = refl

same_roles :
    (n : Text)
    → lists (own_of (subject_object ada) (text "roles")) n
      ≡ lists (own_of (subject_object ada_again) (text "roles")) n
unfolding lists own_of subject_object
same_roles n = elim (Bool-cases (same (text "editor") n)) [
  | inl h ↦ elim (Bool-cases (same (text "admin") n)) [
    | inl k ↦ rw (h, k) refl
    | inr k ↦ rw (h, k) refl
  ]
  | inr h ↦ elim (Bool-cases (same (text "admin") n)) [
    | inl k ↦ rw (h, k) refl
    | inr k ↦ rw (h, k) refl
  ]
]

same_entitlements :
    (n : Text)
    → lists (own_of (subject_object ada) (text "entitlements")) n
      ≡ lists (own_of (subject_object ada_again) (text "entitlements")) n
unfolding lists own_of subject_object
same_entitlements n = refl

resolve_access-ext_example :
    (ada_context.roles ≡ ada_context.roles)
    × (ada_context.entitlements ≡ ada_context.entitlements)
    × (ada_context.permissions ≡ ada_context.permissions)
resolve_access-ext_example =
    resolve_access-ext (subject_object ada) (subject_object ada_again) (policy_object house_policy)
      ada_resolves ada_again_resolves same_roles same_entitlements

ada_filled : (is_blank (text "ada") ≡ false) × (is_blank (text "v1") ≡ false)
unfolding is_blank
ada_filled = (refl, refl)

resolve_access_typed_example :
    (c : AccessContext) × (resolve_access (subject_object ada) (policy_object house_policy) ≡ ok c)
    × (c.principal_id ≡ text "ada")
    × (c.policy_version ≡ text "v1")
    × (c.roles ≡ unique_sorted (text "editor" ∷ text "admin" ∷ text "editor" ∷ []))
    × (c.entitlements ≡ unique_sorted [])
    × ((q : Text)
        → includes c.permissions q ≡ (
            includes (text "read" ∷ []) q
            || assigned house_policy.roles c.roles q
            || assigned none c.entitlements q))
resolve_access_typed_example = resolve_access_typed ada house_policy ada_filled.0 ada_filled.1
