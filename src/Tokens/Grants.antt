-- ===== src/Tokens/Grants.antt =====
-- packages/tokens/src/issuer.ts: which permissions and which policy a grant has.
use authorization_core.Common.{
  Option-cases, Bool, true, false, not, ◌&&◌, Option, none, some, List, [], ◌∷◌, ok, ◌≡◌, refl,
  subst, inl, inr, ◌∙◌, sym, arith, all, is_nil, >>=-eq-ok, guard-eq-ok, ok-injective, Bool-cases,
}
use authorization_core.Text.{Text, same, includes, sort, distinct}
use authorization_core.Text.Order.{eq_of_same, same_refl}
use authorization_core.Text.Sorting.{
  IsSorted, sort-IsSorted, distinct-IsDistinct, includes-sort, includes-distinct,
}
use mathlib.Core.List.{Memᴰ}
use authorization_core.Tokens.{
  AcceptedAccessGrantPolicy, has_policy, canonical_permissions, is_permission,
}
use authorization_core.Tokens.Clock.{Clock}
use authorization_core.Tokens.Issuer.{
  Issuer, BoundSourceAuthorization, check_request, check_permissions, accepts_source,
  permissions_of, is_bound_here, is_well_formed,
}

-- An element of a list whose elements all pass a test passes it.
pub all-includes :
    (passes : Text → Bool) (ts : List Text) (u : Text)
    → all passes ts ≡ true
    → includes ts u ≡ true
    → passes u ≡ true
unfolding includes
all-includes passes [] u h k = absurd (cc)
all-includes passes (t ∷ ts) u h k = elim (Bool-cases (same t u)) [
  | inl e ↦ rw (← eq_of_same t u e) (ground arith)
  | inr e ↦ all-includes passes ts u (ground arith) (ground arith)
]

pub all_of_included :
    (passes : Text → Bool) (ts : List Text)
    → ((u : Text) → includes ts u ≡ true → passes u ≡ true)
    → all passes ts ≡ true
unfolding includes
all_of_included passes [] h = refl
all_of_included passes (t ∷ ts) h =
    let here = h t (ground (arith, same_refl t)) in
    let rest = all_of_included passes ts (λ u k. h u (ground arith)) in ground arith

-- A pair that is accepted is one of the policies.
pub has_policy-Mem :
    (policies : List AcceptedAccessGrantPolicy) (version digest : Text)
    → has_policy policies version digest ≡ true
    → (p : AcceptedAccessGrantPolicy) × Memᴰ p policies
      × (version ≡ p.version)
      × (digest ≡ p.digest)
unfolding has_policy
has_policy-Mem [] version digest h = absurd (cc)
has_policy-Mem (p ∷ policies) version digest h =
    elim (Bool-cases (same p.version version && same p.digest digest)) [
      | inl here ↦ (
        p,
        Memᴰ.head refl,
        sym (eq_of_same p.version version (ground (arith, here))),
        sym (eq_of_same p.digest digest (ground (arith, here))),
      )
      | inr later ↦
          let (q, among, v, d) =
            has_policy-Mem policies version digest (ground (arith, h, later)) in
          (q, Memᴰ.tail among, v, d)
    ]

canonical_permissions_lem :
    (values : List Text) {permissions : List Text}
    → canonical_permissions values ≡ ok permissions
    → (all is_permission permissions ≡ true)
      × IsSorted permissions
      × ((p : Text) → includes permissions p ≡ includes values p)
unfolding canonical_permissions
canonical_permissions_lem values h =
    let (formed, made) = guard-eq-ok (all is_permission values) _ _ h in
    let is = ok-injective made in
    let members = λ (p : Text). includes-sort (distinct values) p ∙ includes-distinct values p in
    (
      rw (← is) (
          all_of_included is_permission (sort (distinct values))
            (λ u k. all-includes is_permission values u formed (sym (members u) ∙ k))),
      subst IsSorted is (sort-IsSorted (distinct values) (distinct-IsDistinct values)),
      λ p. rw (← is) (members p),
    )

-- The permissions are names of permissions, those asked for, in strict order, at least one, and each is one of the source
-- and one that the issuer allows for the audience.
pub record IsLeast (i : Issuer) (audience : Text) (asked : List Text) (s : BoundSourceAuthorization)
    (granted : List Text) : Type 0 where
  pub formed : all is_permission granted ≡ true
  pub some_granted : is_nil granted ≡ false
  pub sorted : IsSorted granted
  pub as_asked : (p : Text) → includes granted p ≡ includes asked p
  pub allowed : List Text
  pub configured : permissions_of i.audience_permissions audience ≡ some allowed
  pub held :
      (p : Text)
      → includes granted p ≡ true
      → (includes s.context.permissions p ≡ true) × (includes allowed p ≡ true)

check_permissions-IsLeast :
    (i : Issuer) (audience : Text) (asked : List Text) (s : BoundSourceAuthorization)
    {granted : List Text}
    → check_permissions s (permissions_of i.audience_permissions audience) asked ≡ ok granted
    → IsLeast i audience asked s granted
unfolding check_permissions
check_permissions-IsLeast i audience asked s h =
    elim (Option-cases (permissions_of i.audience_permissions audience)) [
      | inl missing ↦ absurd (cc (rw missing at h))
      | inr (allowed, configured) ↦
          let (requested, canonical, h1) =
            >>=-eq-ok (canonical_permissions asked) _ (rw configured at h) in
          let (filled, h2) = guard-eq-ok (not (is_nil requested)) _ _ h1 in
          let (within, h3) =
            guard-eq-ok
              (all (λ p. includes s.context.permissions p && includes allowed p) requested) _ _
              h2 in
          let (formed, sorted, members) = canonical_permissions_lem asked canonical in
          subst (IsLeast i audience asked s) (ok-injective h3) (record {
            formed = formed;
            some_granted = ground arith;
            sorted = sorted;
            as_asked = members;
            allowed = allowed;
            configured = configured;
            held = λ p k. ground (arith, all-includes _ requested p within k);
          })
    ]

-- What a request that passed the checks of `issue` is granted: its source is the capability's, one of
-- this issuer, bound to its application and an accepted policy and of
-- the profile's form, and the issuer's clock has not
-- failed; the permissions are those requested, in strict order, at least one, and each is one of
-- the source and one that the issuer allows for the audience.
pub check_request-IsLeast :
    (i : Issuer) (c : Clock) (found : Option BoundSourceAuthorization) (audience : Text)
    (asked : List Text) {s : BoundSourceAuthorization} {granted : List Text}
    → check_request i c found audience asked ≡ ok (s, granted)
    → (found ≡ some s)
      × (accepts_source i c s ≡ true)
      × (is_bound_here i s ≡ true)
      × (is_well_formed s ≡ true)
      × IsLeast i audience asked s granted
unfolding check_request
check_request-IsLeast i c none audience asked h = absurd (cc)
check_request-IsLeast i c (some source) audience asked h =
    let (own, h1) = guard-eq-ok (accepts_source i c source) _ _ h in
    let (here, h2) = guard-eq-ok (is_bound_here i source) _ _ h1 in
    let (formed, h3) = guard-eq-ok (is_well_formed source) _ _ h2 in
    let (requested, checked, h4) =
      >>=-eq-ok (check_permissions source (permissions_of i.audience_permissions audience) asked) _
        h3 in
    subst
      (λ r.
        (some source ≡ some r.0)
        × (accepts_source i c r.0 ≡ true)
        × (is_bound_here i r.0 ≡ true)
        × (is_well_formed r.0 ≡ true)
        × IsLeast i audience asked r.0 r.1)
      (ok-injective h4)
      (refl, own, here, formed, check_permissions-IsLeast i audience asked source checked)
