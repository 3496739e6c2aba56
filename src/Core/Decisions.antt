-- ===== src/Core/Decisions.antt =====
-- `hasPermission` and `decideAccess` of packages/core/src/index.ts on a resolved context.
use authorization_core.Common.{◌≡◌, refl, ◌||◌, ok, thrown, arith, if◌then◌else◌}
use authorization_core.Text.{Text, text, includes}
use authorization_core.Js.{Value, own_of, is_blank}
use authorization_core.Contracts.{AccessContext, granted, not_granted}
use authorization_core.Core.{type_error, must_not_be_empty, resolve_access, decide_access}
use authorization_core.Core.Reads.{lists}
use authorization_core.Core.Resolution.{gives, resolve_access-permissions}

decide_access_lem :
    (c : AccessContext) (p : Text)
    → decide_access c p ≡ (
        if is_blank p
        then thrown (type_error (text "permission") must_not_be_empty)
        else ok (record {
          allowed = includes c.permissions p;
          permission = p;
          reason = if includes c.permissions p then granted else not_granted;
        }))
unfolding decide_access
decide_access_lem c p = ground arith

-- The decision on a resolved context: a blank permission throws a TypeError; any other returns the
-- permission asked for, allowed with the reason `granted` exactly when the policy object gives it by
-- its defaults, to a role or to an entitlement of the context, and else refused as `not_granted`.
pub decide_access_resolved :
    (subject policy : Value) (p : Text) {c : AccessContext}
    → resolve_access subject policy ≡ ok c
    → decide_access c p ≡ (
        let allowed =
          lists (own_of policy (text "defaults")) p
          || gives policy (text "roles") c.roles p
          || gives policy (text "entitlements") c.entitlements p in
        if is_blank p
        then thrown (type_error (text "permission") must_not_be_empty)
        else ok (record {
          allowed = allowed;
          permission = p;
          reason = if allowed then granted else not_granted;
        }))
decide_access_resolved subject policy p {c} h =
    rw (decide_access_lem c p, resolve_access-permissions subject policy p h) refl
