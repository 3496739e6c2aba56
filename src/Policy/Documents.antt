-- ===== src/Policy/Documents.antt =====
-- packages/policy/src/index.ts with packages/core/src/index.ts: a document that validates means, as a
-- policy, what its own properties say, and the resolver takes it.
use authorization_core.Common.{
  ℕ, true, false, ◌&&◌, ◌||◌, Option, none, some, List, [], ◌∷◌, ◌≡◌, ◌≢◌, refl, sym, ap, ◌∙◌, ◌⊎◌,
  arith, all, any, inl, inr, Bool-cases, Result, ok, thrown, subst, ok-injective, leb,
}
use mathlib.Core.Path.{fun_ext}
use authorization_core.Text.{Text, text, includes}
use authorization_core.Text.Sorting.{IsDistinct}
use authorization_core.Js.{
  Value, string, object, Properties, Descriptor, data_property, accessor, own, own_of, is_blank,
  is_space,
}
use authorization_core.Js.Blanks.{is_blank_head}
use authorization_core.Contracts.{AccessPolicy, AccessSubject, AccessContext}
use authorization_core.Tokens.{is_policy_version}
use authorization_core.Core.{resolve_access}
use authorization_core.Core.Reads.{lists, read}
use authorization_core.Core.Resolution.{gives}
use authorization_core.Core.Typed.{
  assigned, any-false, or_empty, subject_object, policy_object, resolve_access_typed,
}
use authorization_core.Policy.{
  PolicyDiagnostic, PolicyValidationResult, valid, invalid, is_plain_record, optional_field,
  schema_problems, version_found, concluded, validate_record, validate_policy, parse_policy,
  validate_grant_list, validate_permission_map, is_permission_name,
}
use authorization_core.Policy.Lists.{both_empty, validate_grant_list-IsGrantList}
use authorization_core.Policy.Maps.{validate_permission_map-IsPermissionMap}

-- A policy that a document means: it is the document's, and its permissions are names of permissions.
pub record Means (document : Value) (p : AccessPolicy) : Type 0 where
  pub version : read (own_of document (text "version")) ≡ string p.version
  pub version_named : is_policy_version p.version ≡ true
  pub schema : schema_problems (own_of document (text "schemaVersion")) ≡ []
  pub defaults :
      (q : Text) → includes (or_empty p.defaults) q ≡ lists (own_of document (text "defaults")) q
  pub defaults_named : all is_permission_name (or_empty p.defaults) ≡ true
  pub defaults_distinct : IsDistinct (or_empty p.defaults)
  pub roles :
      (names : List Text) (q : Text)
      → assigned p.roles names q ≡ gives document (text "roles") names q
  pub entitlements :
      (names : List Text) (q : Text)
      → assigned p.entitlements names q ≡ gives document (text "entitlements") names q

concluded_lem :
    (ds : List PolicyDiagnostic) (v : Option Text) (defaults : Option (List Text))
    (roles entitlements : Option (List (Text × List Text))) {p : AccessPolicy}
    → concluded ds v defaults roles entitlements ≡ valid p
    → (ds ≡ [])
      × (v ≡ some p.version)
      × (p.defaults ≡ defaults)
      × (p.roles ≡ roles)
      × (p.entitlements ≡ entitlements)
unfolding concluded
concluded_lem ds none defaults roles entitlements h = absurd (cc)
concluded_lem (d ∷ ds) (some version) defaults roles entitlements h = absurd (cc)
concluded_lem [] (some version) defaults roles entitlements {p} h =
    let e = valid-injective h in
    (
      refl,
      ap (λ q. some q.version) e,
      ap (λ q. q.defaults) (sym e),
      ap (λ q. q.roles) (sym e),
      ap (λ q. q.entitlements) (sym e),
    )
  where
    valid-injective : {q : AccessPolicy} → valid q ≡ valid p → q ≡ p
    valid-injective k = cc

version_found_lem :
    (d : Option Descriptor) {v : Text}
    → (version_found d).0 ≡ some v
    → (is_policy_version v ≡ true) × (read d ≡ string v)
unfolding version_found read
version_found_lem none h = absurd (cc)
version_found_lem (some (accessor e)) h = absurd (cc)
version_found_lem (some (data_property (string s) e)) {v} h =
    elim (Bool-cases (is_policy_version s)) [
      | inl good ↦
          let is : s ≡ v = some-injective (rw good at h) in
          (subst (λ t. is_policy_version t ≡ true) is good, ap string is)
      | inr bad ↦ absurd (cc (rw bad at h))
    ]
  where
    some-injective : {a b : Text} → some a ≡ some b → a ≡ b
    some-injective k = cc
version_found_lem (some (data_property _ e)) h = absurd (cc)

optional_list :
    (d : Option Descriptor) (path : Text)
    → (optional_field validate_grant_list d path).1 ≡ []
    → (all is_permission_name (or_empty (optional_field validate_grant_list d path).0) ≡ true)
      × IsDistinct (or_empty (optional_field validate_grant_list d path).0)
      × ((q : Text)
          → includes (or_empty (optional_field validate_grant_list d path).0) q ≡ lists d q)
unfolding optional_field lists includes
optional_list none path h = (refl, tt, λ q. refl)
optional_list (some d) path h =
    let (l, is, right) = validate_grant_list-IsGrantList (some d) path h in
    rw is (right.named, right.distinct, right.listed)

optional_map :
    (d : Option Descriptor) (path : Text) (names : List Text) (q : Text)
    → (optional_field validate_permission_map d path).1 ≡ []
    → assigned (optional_field validate_permission_map d path).0 names q
      ≡ any (λ n. lists (own_of (read d) n) q) names
unfolding optional_field read own_of lists
optional_map none path names q h = sym (any-false names)
optional_map (some d) path names q h =
    let (m, is, right) = validate_permission_map-IsPermissionMap (some d) path h in
    rw is (ap (λ f. any f names) (fun_ext (λ n. right.assigned n q)))

validate_record-Means :
    (ps : Properties) {p : AccessPolicy} → validate_record ps ≡ valid p → Means (object true ps) p
unfolding validate_record gives own_of
validate_record-Means ps {p} h =
    let found = version_found (own ps (text "version")) in
    let defaults =
      optional_field validate_grant_list (own ps (text "defaults")) (text "/defaults") in
    let roles = optional_field validate_permission_map (own ps (text "roles")) (text "/roles") in
    let entitlements =
      optional_field validate_permission_map (own ps (text "entitlements"))
        (text "/entitlements") in
    let (none_left, version, is_defaults, is_roles, is_entitlements) =
      concluded_lem _ found.0 defaults.0 roles.0 entitlements.0 h in
    let (named, reads) = version_found_lem (own ps (text "version")) version in
    let (unknown, h1) = both_empty _ _ none_left in
    let (schema, h2) = both_empty (schema_problems (own ps (text "schemaVersion"))) _ h1 in
    let (in_version, h3) = both_empty found.1 _ h2 in
    let (in_defaults, h4) = both_empty defaults.1 _ h3 in
    let (in_roles, in_entitlements) = both_empty roles.1 entitlements.1 h4 in
    let (l_named, l_distinct, l_listed) = optional_list (own ps (text "defaults")) _ in_defaults in
    record {
      version = reads;
      version_named = named;
      schema = schema;
      defaults = λ q. rw is_defaults (l_listed q);
      defaults_named = rw is_defaults l_named;
      defaults_distinct = rw is_defaults l_distinct;
      roles = λ names q. rw is_roles (optional_map (own ps (text "roles")) _ names q in_roles);
      entitlements = λ names q.
          rw is_entitlements
            (optional_map (own ps (text "entitlements")) _ names q in_entitlements);
    }

validate_policy-Means :
    (document : Value) {p : AccessPolicy} → validate_policy document ≡ valid p → Means document p
unfolding validate_policy is_plain_record
validate_policy-Means (object true ps) {p} h = elim (Bool-cases (is_plain_record true ps)) [
  | inl plain ↦ validate_record-Means ps (rw plain at h)
  | inr issue ↦ absurd (cc (rw issue at h))
]
validate_policy-Means (object false ps) h = absurd (cc)
validate_policy-Means _ h = absurd (cc)

version_not_blank : (v : Text) → is_policy_version v ≡ true → is_blank v ≡ false
unfolding is_policy_version is_space
version_not_blank [] h = absurd (cc)
version_not_blank (c ∷ rest) h = is_blank_head c rest (first c (ground arith))
  where
    first :
        (c : ℕ)
        → ((leb 48 c && leb c 57) || (leb 97 c && leb c 122) || (leb 65 c && leb c 90)) ≡ true
        → is_space c ≡ false
    first c k = ground arith

-- A document that `parsePolicy` accepts means the policy that it returns: the version is the
-- document's, and of the profile's form; the defaults are what the document's own `defaults` array
-- lists, all names of permissions and none twice; and each role and entitlement has exactly the
-- permissions that the document's own maps list under it.
pub parse_policy-Means :
    (document : Value) {p : AccessPolicy} → parse_policy document ≡ ok p → Means document p
unfolding parse_policy
parse_policy-Means document {p} h = split (validate_policy document) refl h
  where
    split :
        (r : PolicyValidationResult)
        → validate_policy document ≡ r
        → ◌≡◌ {A = Result (List PolicyDiagnostic) AccessPolicy}
            (elim r [ valid policy ↦ ok policy | invalid ds ↦ thrown ds ])
            (ok p)
        → Means document p
    split (valid policy) is k = validate_policy-Means document (is ∙ ap valid (ok-injective k))
    split (invalid ds) is k = absurd (cc)

-- The resolver takes every policy that `parsePolicy` returns: for a typed subject whose principal is
-- not blank it returns, under the document's version, and its context holds a permission exactly when
-- the document's own `defaults` list it, or its own maps list it under a role or an entitlement of
-- the context.
pub parse_policy_resolves :
    (document : Value) (s : AccessSubject) {p : AccessPolicy}
    → parse_policy document ≡ ok p
    → is_blank s.principal_id ≡ false
    → (c : AccessContext) × (resolve_access (subject_object s) (policy_object p) ≡ ok c)
      × (read (own_of document (text "version")) ≡ string c.policy_version)
      × ((q : Text)
          → includes c.permissions q ≡ (
              lists (own_of document (text "defaults")) q
              || gives document (text "roles") c.roles q
              || gives document (text "entitlements") c.entitlements q))
parse_policy_resolves document s {p} h filled =
    let means = parse_policy-Means document h in
    let (c, returns, principal, version, roles, entitlements, permissions) =
      resolve_access_typed s p filled (version_not_blank p.version means.version_named) in
    (
      c,
      returns,
      rw version means.version,
      λ q.
          permissions q
          ∙ rw (means.defaults q, means.roles c.roles q, means.entitlements c.entitlements q),
    )

version_missing : (d : Option Descriptor) → (version_found d).0 ≡ none → (version_found d).1 ≢ []
unfolding version_found
version_missing none h k = absurd (cc)
version_missing (some (accessor e)) h k = absurd (cc)
version_missing (some (data_property (string s) e)) h k = elim (Bool-cases (is_policy_version s)) [
  | inl good ↦ absurd (cc (rw good at h))
  | inr bad ↦ absurd (cc (rw bad at k))
]
version_missing (some (data_property _ e)) h k = absurd (cc)

concluded_invalid :
    (ds : List PolicyDiagnostic) (v : Option Text) (defaults : Option (List Text))
    (roles entitlements : Option (List (Text × List Text))) {es : List PolicyDiagnostic}
    → concluded ds v defaults roles entitlements ≡ invalid es
    → (ds ≡ es) × ((v ≡ none) ⊎ (es ≢ []))
unfolding concluded
concluded_invalid ds none defaults roles entitlements h = (cc, inl refl)
concluded_invalid (d ∷ ds) (some version) defaults roles entitlements h =
    (cc, inr (λ e. absurd (cc (h, e))))
concluded_invalid [] (some version) defaults roles entitlements h = absurd (cc)

validate_record_diagnoses :
    (ps : Properties) {ds : List PolicyDiagnostic} → validate_record ps ≡ invalid ds → ds ≢ []
unfolding validate_record
validate_record_diagnoses ps h nothing =
    let found = version_found (own ps (text "version")) in
    let (all_of_them, why) = concluded_invalid _ found.0 _ _ _ h in
    elim why [
      | inr some_left ↦ some_left nothing
      | inl missing ↦
          let (unknown, h1) = both_empty _ _ (all_of_them ∙ nothing) in
          let (schema, h2) = both_empty (schema_problems (own ps (text "schemaVersion"))) _ h1 in
          version_missing (own ps (text "version")) missing (both_empty found.1 _ h2).0
    ]

validate_policy_diagnoses :
    (document : Value) {ds : List PolicyDiagnostic}
    → validate_policy document ≡ invalid ds
    → ds ≢ []
unfolding validate_policy
validate_policy_diagnoses (object proto ps) h e = elim (Bool-cases (is_plain_record proto ps)) [
  | inl plain ↦ validate_record_diagnoses ps (rw plain at h) e
  | inr issue ↦ absurd (cc (rw issue at h, e))
]
validate_policy_diagnoses _ h e = absurd (cc)

-- `parsePolicy` never throws without saying what is wrong: its error has a diagnostic.
pub parse_policy_diagnoses :
    (document : Value) {ds : List PolicyDiagnostic} → parse_policy document ≡ thrown ds → ds ≢ []
unfolding parse_policy
parse_policy_diagnoses document {ds} h = split (validate_policy document) refl h
  where
    split :
        (r : PolicyValidationResult)
        → validate_policy document ≡ r
        → ◌≡◌ {A = Result (List PolicyDiagnostic) AccessPolicy}
            (elim r [ valid policy ↦ ok policy | invalid es ↦ thrown es ])
            (thrown ds)
        → ds ≢ []
    split (valid policy) is k = absurd (cc)
    split (invalid es) is k = λ e. validate_policy_diagnoses document is (cc (k, e))
