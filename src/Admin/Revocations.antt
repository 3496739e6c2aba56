-- ===== src/Admin/Revocations.antt =====
-- packages/admin/src/index.ts: what stands behind a revocation that `revokeRole` reports.
use authorization_core.Common.{
  Bool, true, false, Option, none, some, List, [], ◌∷◌, ◌++◌, ◌≡◌, ◌≢◌, refl, sym, ◌∙◌, ap, subst,
  inl, inr, if◌then◌else◌,
}
use mathlib.Core.List.{Memᴰ, append_assoc}
use authorization_core.Text.{Text, same}
use authorization_core.Contracts.{RoleAssignment, RoleAssignmentGrant, active, revoked}
use authorization_core.Storage.Ports.{
  VersionedRoleAssignment, GrantRoleAssignmentResult, AuditedRevokeRoleAssignmentResult,
  RevokeConflict, granted, unchanged, conflict, GrantConflict,
}
use authorization_core.Admin.{
  Program, done, fail_compensation, ◌>>=◌, Administration, Grant, Revoke, RevokeRoleCommand,
  RevokeRoleResult, role_revoked, get_role_assignment, grant_role_assignment_with_audit,
  revoke_role_assignment_with_audit, another_active_holder_exists, decline_compensation,
  after_compensation, compensate, verify_after, after_revocation, revoke_permitted,
  revoke_guarded_role, revoke_current, revoke_role, assignment_managed_by, ManagedBy, now,
  generate_id, by_system, by_human, record_holder,
}
use authorization_core.Admin.Traces.{Answered, answered, Trace, seen, chained}
use authorization_core.Admin.Guard.{
  Confirmed, Confirmed-within, in_left, in_right, chosen, another-Confirmed,
}

-- An active administrator exists after all, or was restored.
pub data Remains (log : List Answered) (g : RoleAssignmentGrant) : Bool → Type 0 where
  confirmed : Confirmed log g.role g.scope [] → Remains log g false
  restored :
      (written : Grant) (answer : GrantRoleAssignmentResult)
      → Memᴰ (answered (grant_role_assignment_with_audit written) answer) log
      → written.assignment.principal_id ≡ g.principal_id
      → written.assignment.role ≡ g.role
      → written.assignment.scope ≡ g.scope
      → ((c : GrantConflict) → answer ≢ conflict c)
      → Remains log g true

Remains-later :
    (front : List Answered) {log : List Answered} {g : RoleAssignmentGrant} {compensated : Bool}
    → Remains log g compensated
    → Remains (front ++ log) g compensated
Remains-later front (confirmed c) = confirmed (Confirmed-within (λ x m. in_right front m) c)
Remains-later front (restored w a m p r s n) = restored w a (in_right front m) p r s n

role_revoked-injective : {a b : Bool} → role_revoked a ≡ role_revoked b → a ≡ b
role_revoked-injective h = cc

another-Remains :
    (policy : Administration) (g : RoleAssignmentGrant) (otherwise : Program RevokeRoleResult)
    {log : List Answered} {compensated : Bool}
    → ((rest : List Answered)
        → Trace otherwise rest (role_revoked compensated)
        → Remains rest g compensated)
    → Trace
        (another_active_holder_exists policy g.role g.scope [] >>= λ held.
          if held then done (role_revoked false) else otherwise)
        log
        (role_revoked compensated)
    → Remains log g compensated
another-Remains policy g otherwise {compensated = compensated} remains t =
    let c =
      chained (another_active_holder_exists policy g.role g.scope [])
        (λ held. if held then done (role_revoked false) else otherwise) t in
    rw c.split (elim (chosen c.value c.rest) [
      | inl (held, t2) ↦
          let first =
            subst (λ b. Trace (another_active_holder_exists policy g.role g.scope []) c.before b)
              held c.first in
          let seen_here =
            Confirmed-within (λ x m. in_left c.after m)
              (another-Confirmed policy g.role g.scope [] first) in
          subst (Remains (c.before ++ c.after) g) (role_revoked-injective (seen t2).0)
            (confirmed seen_here)
      | inr (none_held, t2) ↦ Remains-later c.before (remains _ t2)
    ])

after_compensation-Remains :
    (policy : Administration) (g : RoleAssignmentGrant) (written : Grant)
    (answer : GrantRoleAssignmentResult) {log : List Answered} {compensated : Bool}
    → written.assignment.principal_id ≡ g.principal_id
    → written.assignment.role ≡ g.role
    → written.assignment.scope ≡ g.scope
    → Trace (after_compensation policy g answer) log (role_revoked compensated)
    → Remains (answered (grant_role_assignment_with_audit written) answer ∷ log) g compensated
unfolding after_compensation decline_compensation
after_compensation-Remains policy g written (granted v e) p r s t =
    subst (Remains _ g) (role_revoked-injective (seen t).0)
      (restored written (granted v e) (Memᴰ.head refl) p r s (λ c h. absurd (cc)))
after_compensation-Remains policy g written (unchanged v e) p r s t =
    subst (Remains _ g) (role_revoked-injective (seen t).0)
      (restored written (unchanged v e) (Memᴰ.head refl) p r s (λ c h. absurd (cc)))
after_compensation-Remains policy g written (conflict c) p r s t =
    Remains-later (answered (grant_role_assignment_with_audit written) (conflict c) ∷ [])
      (another-Remains policy g fail_compensation (λ rest k. absurd (seen k)) t)

compensate-Remains :
    (policy : Administration) (g : RoleAssignmentGrant) {log : List Answered} {compensated : Bool}
    → Trace (compensate policy g) log (role_revoked compensated)
    → Remains log g compensated
unfolding compensate
compensate-Remains policy g {compensated = compensated} t =
    let (id, log1, t1, e1) = seen t in
    let c =
      chained
        (record_holder policy
          (record { principal_id = g.principal_id; assignment_id = id; role = g.role }))
        _ t1 in
    let (at, log2, t2, e2) = seen c.rest in
    let (event, log3, t3, e3) = seen t2 in
    let (answer, log4, t4, e4) = seen t3 in
    let grant_remains : Remains log3 g compensated =
      rw e4 (after_compensation-Remains policy g _ answer refl refl refl t4) in
    rw e1 (
      Remains-later (answered generate_id id ∷ []) (
        rw c.split (
          Remains-later c.before (
            rw e2 (
              Remains-later (answered now at ∷ [])
                (rw e3 (Remains-later (answered generate_id event ∷ []) grant_remains)))))))

verify_after-Remains :
    (policy : Administration) (g : RoleAssignmentGrant) {log : List Answered} {compensated : Bool}
    → Trace (verify_after policy g) log (role_revoked compensated)
    → Remains log g compensated
unfolding verify_after
verify_after-Remains policy g t =
    another-Remains policy g (compensate policy g) (λ rest k. compensate-Remains policy g k) t

-- What stands behind a revocation that was reported: the assignment was found active and is managed by
-- humans, its revocation with the token that was read was committed; and when the role is the
-- administrators', another holder had been confirmed before that, and one was confirmed, or this
-- one's principal restored, after it.
pub record Reported (policy : Administration) (command : RevokeRoleCommand) (log : List Answered)
    (compensated : Bool) : Type 0 where
  pub found : VersionedRoleAssignment
  pub grant : RoleAssignmentGrant
  pub asked : Memᴰ (answered (get_role_assignment command.assignment_id) (some found)) log
  pub is_active : found.assignment ≡ active grant
  pub human : assignment_managed_by grant.granted_by policy ≡ by_human
  pub before : List Answered
  pub after : List Answered
  pub revocation : Revoke
  pub outcome : AuditedRevokeRoleAssignmentResult
  pub split :
      log ≡ before ++ (answered (revoke_role_assignment_with_audit revocation) outcome ∷ after)
  pub revokes :
      (revocation.assignment_id ≡ grant.id)
      × (revocation.expected_concurrency_token ≡ found.concurrency_token)
      × (revocation.revoked_by ≡ command.actor)
      × (revocation.reason ≡ command.reason)
  pub committed :
      (outcome ≢ AuditedRevokeRoleAssignmentResult.not_found)
      × ((c : RevokeConflict) → outcome ≢ AuditedRevokeRoleAssignmentResult.conflict c)
  pub guarded :
      same grant.role policy.administrator_role ≡ true
      → Confirmed before grant.role grant.scope grant.principal_id × Remains after grant compensated
  pub unguarded : same grant.role policy.administrator_role ≡ false → compensated ≡ false

-- The part from the revocation on.
record Committed (policy : Administration) (command : RevokeRoleCommand) (g : RoleAssignmentGrant)
    (token : Text) (log : List Answered) (compensated : Bool) : Type 0 where
  pub before : List Answered
  pub after : List Answered
  pub revocation : Revoke
  pub outcome : AuditedRevokeRoleAssignmentResult
  pub split :
      log ≡ before ++ (answered (revoke_role_assignment_with_audit revocation) outcome ∷ after)
  pub revokes :
      (revocation.assignment_id ≡ g.id)
      × (revocation.expected_concurrency_token ≡ token)
      × (revocation.revoked_by ≡ command.actor)
      × (revocation.reason ≡ command.reason)
  pub committed :
      (outcome ≢ AuditedRevokeRoleAssignmentResult.not_found)
      × ((c : RevokeConflict) → outcome ≢ AuditedRevokeRoleAssignmentResult.conflict c)
  pub remains : same g.role policy.administrator_role ≡ true → Remains after g compensated
  pub unguarded : same g.role policy.administrator_role ≡ false → compensated ≡ false

after_revocation_lem :
    (policy : Administration) (g : RoleAssignmentGrant)
    (outcome : AuditedRevokeRoleAssignmentResult) {log : List Answered} {compensated : Bool}
    → Trace
        (after_revocation policy g (same g.role policy.administrator_role) outcome)
        log
        (role_revoked compensated)
    → (outcome ≢ AuditedRevokeRoleAssignmentResult.not_found)
      × ((c : RevokeConflict) → outcome ≢ AuditedRevokeRoleAssignmentResult.conflict c)
      × (same g.role policy.administrator_role ≡ true → Remains log g compensated)
      × (same g.role policy.administrator_role ≡ false → compensated ≡ false)
unfolding after_revocation
after_revocation_lem policy g AuditedRevokeRoleAssignmentResult.not_found t = absurd (cc (seen t).0)
after_revocation_lem policy g (AuditedRevokeRoleAssignmentResult.conflict c) t =
    absurd (cc (seen t).0)
after_revocation_lem policy g (AuditedRevokeRoleAssignmentResult.revoked v e) t =
    elim (chosen (same g.role policy.administrator_role) t) [
      | inl (yes_guarded, t2) ↦ (
        λ h. absurd (cc),
        λ c h. absurd (cc),
        λ h. verify_after-Remains policy g t2,
        λ h. absurd (cc (h, yes_guarded)),
      )
      | inr (not_guarded, t2) ↦ (
        λ h. absurd (cc),
        λ c h. absurd (cc),
        λ h. absurd (cc (h, not_guarded)),
        λ h. sym (role_revoked-injective (seen t2).0),
      )
    ]
after_revocation_lem policy g (AuditedRevokeRoleAssignmentResult.unchanged v e) t =
    elim (chosen (same g.role policy.administrator_role) t) [
      | inl (yes_guarded, t2) ↦ (
        λ h. absurd (cc),
        λ c h. absurd (cc),
        λ h. verify_after-Remains policy g t2,
        λ h. absurd (cc (h, yes_guarded)),
      )
      | inr (not_guarded, t2) ↦ (
        λ h. absurd (cc),
        λ c h. absurd (cc),
        λ h. absurd (cc (h, not_guarded)),
        λ h. sym (role_revoked-injective (seen t2).0),
      )
    ]

revoke_permitted-Committed :
    (policy : Administration) (command : RevokeRoleCommand) (g : RoleAssignmentGrant) (token : Text)
    {log : List Answered} {compensated : Bool}
    → Trace (revoke_permitted policy command g token) log (role_revoked compensated)
    → Committed policy command g token log compensated
unfolding revoke_permitted
revoke_permitted-Committed policy command g token t =
    let (at, log1, t1, e1) = seen t in
    let (event, log2, t2, e2) = seen t1 in
    let (outcome, log3, t3, e3) = seen t2 in
    let (found_it, went_well, remains, unguarded) = after_revocation_lem policy g outcome t3 in
    record {
      before = answered now at ∷ answered generate_id event ∷ [];
      after = log3;
      revocation = record {
        assignment_id = g.id;
        expected_concurrency_token = token;
        revoked_by = command.actor;
        revoked_at_epoch_ms = at;
        reason = command.reason;
        audit_event_id = event;
      };
      outcome = outcome;
      split = e1 ∙ ap (λ l. answered now at ∷ l) (e2 ∙ ap (λ l. answered generate_id event ∷ l) e3);
      revokes = (refl, refl, refl, refl);
      committed = (found_it, went_well);
      remains = remains;
      unguarded = unguarded;
    }

guarded-Committed :
    (policy : Administration) (command : RevokeRoleCommand) (g : RoleAssignmentGrant) (token : Text)
    {log : List Answered} {compensated : Bool}
    → Trace (revoke_guarded_role policy command g token) log (role_revoked compensated)
    → (c : Committed policy command g token log compensated) × (same g.role
            policy.administrator_role
          ≡ true
        → Confirmed c.before g.role g.scope g.principal_id)
unfolding revoke_guarded_role
guarded-Committed policy command g token {compensated = compensated} t =
    elim (chosen (same g.role policy.administrator_role) t) [
      | inr (not_guarded, t1) ↦
          (revoke_permitted-Committed policy command g token t1, λ h. absurd (cc (h, not_guarded)))
      | inl (yes_guarded, t1) ↦
          let c =
            chained (another_active_holder_exists policy g.role g.scope g.principal_id)
              (λ another.
                if another
                then revoke_permitted policy command g token
                else done RevokeRoleResult.last_administrator)
              t1 in
          elim (chosen c.value c.rest) [
            | inr (none_held, t2) ↦ absurd (cc (seen t2).0)
            | inl (held, t2) ↦
                let first =
                  subst
                    (λ b.
                      Trace (another_active_holder_exists policy g.role g.scope g.principal_id)
                        c.before b)
                    held c.first in
                let d = revoke_permitted-Committed policy command g token t2 in
                (
                  record {
                    before = c.before ++ d.before;
                    after = d.after;
                    revocation = d.revocation;
                    outcome = d.outcome;
                    split =
                        c.split
                        ∙ ap (λ l. c.before ++ l) d.split
                        ∙ sym (append_assoc c.before d.before _);
                    revokes = d.revokes;
                    committed = d.committed;
                    remains = d.remains;
                    unguarded = d.unguarded;
                  },
                  λ h.
                      Confirmed-within (λ x m. in_left d.before m)
                        (another-Confirmed policy g.role g.scope g.principal_id first),
                )
          ]
    ]

revoke_current-Reported :
    (policy : Administration) (command : RevokeRoleCommand)
    (current : Option VersionedRoleAssignment) {log : List Answered} {compensated : Bool}
    → Trace (revoke_current policy command current) log (role_revoked compensated)
    → Reported policy command
        (answered (get_role_assignment command.assignment_id) current ∷ log)
        compensated
unfolding revoke_current
revoke_current-Reported policy command none t = absurd (cc (seen t).0)
revoke_current-Reported policy command (some v) {log} {compensated} t = by_state v.assignment refl t
  where
    by_manager :
        (g : RoleAssignmentGrant) (m : ManagedBy)
        → v.assignment ≡ active g
        → assignment_managed_by g.granted_by policy ≡ m
        → Trace {A = RevokeRoleResult}
            (elim m [
              | by_system ↦ done RevokeRoleResult.system_managed
              | by_human ↦ revoke_guarded_role policy command g v.concurrency_token
            ])
            log
            (role_revoked compensated)
        → Reported policy command
            (answered (get_role_assignment command.assignment_id) (some v) ∷ log)
            compensated
    by_manager g by_system is_active manager t1 = absurd (cc (seen t1).0)
    by_manager g by_human is_active manager t1 =
        let (c, before_it) = guarded-Committed policy command g v.concurrency_token t1 in
        let read = answered (get_role_assignment command.assignment_id) (some v) in
        record {
          found = v;
          grant = g;
          asked = Memᴰ.head refl;
          is_active = is_active;
          human = manager;
          before = read ∷ c.before;
          after = c.after;
          revocation = c.revocation;
          outcome = c.outcome;
          split = ap (λ l. read ∷ l) c.split;
          revokes = c.revokes;
          committed = c.committed;
          guarded = λ h. (Confirmed-within (λ x m. Memᴰ.tail m) (before_it h), c.remains h);
          unguarded = c.unguarded;
        }

    by_state :
        (a : RoleAssignment)
        → v.assignment ≡ a
        → Trace {A = RevokeRoleResult}
            (elim a [
              | revoked g r ↦ done RevokeRoleResult.already_revoked
              | active g ↦ elim (assignment_managed_by g.granted_by policy) [
                | by_system ↦ done RevokeRoleResult.system_managed
                | by_human ↦ revoke_guarded_role policy command g v.concurrency_token
              ]
            ])
            log
            (role_revoked compensated)
        → Reported policy command
            (answered (get_role_assignment command.assignment_id) (some v) ∷ log)
            compensated
    by_state (revoked g r) e t1 = absurd (cc (seen t1).0)
    by_state (active g) e t1 = by_manager g (assignment_managed_by g.granted_by policy) e refl t1

-- Whatever the ports answer, and whoever else runs in between: a `revokeRole` that reports a revocation
-- found the assignment active and managed by humans, and its revocation with the token read was
-- committed; when the role is the administrators', the store had confirmed before that another active
-- holder in the exact scope, and after it either confirmed an active holder or took a grant that
-- restores the principal, which the result says; of another role, nothing is restored.
pub revoke_role-Reported :
    (policy : Administration) (command : RevokeRoleCommand) (log : List Answered)
    (compensated : Bool)
    → Trace (revoke_role policy command) log (role_revoked compensated)
    → Reported policy command log compensated
unfolding revoke_role
revoke_role-Reported policy command log compensated t =
    let (current, rest, t1, e) = seen t in rw e (revoke_current-Reported policy command current t1)
