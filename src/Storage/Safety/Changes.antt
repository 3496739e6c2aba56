-- ===== src/Storage/Safety/Changes.antt =====
-- What the transactions of a grant and of a revoke do to the rows of a partition: an invariant of the
-- rows, and what a change of them keeps.
use authorization_core.Common.{
  Option, none, some, ◌≡◌, refl, sym, ap, inl, inr, Bool-cases, if◌then◌else◌,
}
use authorization_core.Text.{Text}
use authorization_core.Contracts.{RoleAssignmentGrant, Revocation, active, revoked, grant_of}
use authorization_core.Storage.Keys.{EntityKey, RecordLocation}
use authorization_core.Storage.Records.{
  AuthorizationRecord, assignment, tuple, audit, StoredAssignment, StoredTuple, StoredAudit,
  record_key,
}
use authorization_core.Storage.Program.{Versioned}
use authorization_core.Storage.Store.{Rows, Versions, same_key}
use authorization_core.Storage.Safety.{guard_key}
use authorization_core.Storage.Safety.KeyLaws.{
  same_key-eq, same_key_refl, same_key-neq, same_key-not,
}

-- The guard of a role holds the assignment.
pub record Guards (t : Rows) (location : RecordLocation) (role id : Text) : Type 0 where
  pub guard : StoredTuple
  pub version : Text
  pub found :
      t.records (guard_key location role) ≡ some (record { value = tuple guard; version = version })
  pub holds : guard.active_assignment_id ≡ some id

-- Every row lies at its own key, its version names its value, and the guard of an active assignment's
-- role holds that assignment.
pub record IsConsistent (t : Rows) : Type 0 where
  pub named :
      (k : EntityKey) (x : Versioned AuthorizationRecord)
      → t.records k ≡ some x
      → t.written k x.version ≡ some x.value
  pub placed :
      (k : EntityKey) (x : Versioned AuthorizationRecord)
      → t.records k ≡ some x
      → record_key x.value ≡ k
  pub guarded :
      (k : EntityKey) (s : StoredAssignment) (v : Text) (g : RoleAssignmentGrant)
      → t.records k ≡ some (record { value = assignment s; version = v })
      → s.assignment ≡ active g
      → Guards t s.location g.role g.id

-- A record that may follow another: the same one, or the revoked form of an active one, with the
-- evidence of its grant.
pub data Follows (s : StoredAssignment) : StoredAssignment → Type 0 where
  unchanged : Follows s s
  was_revoked :
      (t : StoredAssignment) (g : RoleAssignmentGrant) (r : Revocation)
      → s.assignment ≡ active g
      → t.assignment ≡ revoked g r
      → t.location ≡ s.location
      → t.grant_event_id ≡ s.grant_event_id
      → Follows s t

-- The rows after three writes, each at its own key.
abbrev pub after_three :
    AuthorizationRecord
    → AuthorizationRecord
    → AuthorizationRecord
    → (EntityKey → Text)
    → (EntityKey → Option (Versioned AuthorizationRecord))
    → EntityKey
    → Option (Versioned AuthorizationRecord)
after_three a b c version rows k =
    if same_key (record_key a) k
    then some (record { value = a; version = version k })
    else if same_key (record_key b) k
    then some (record { value = b; version = version k })
    else if same_key (record_key c) k
    then some (record { value = c; version = version k })
    else rows k

-- The three rows that a lifecycle change writes: the assignment, the guard of its role, and the
-- audit position.
pub record Change (s t : Rows) : Type 0 where
  pub written_assignment : StoredAssignment
  pub written_guard : StoredTuple
  pub position : StoredAudit
  pub version : EntityKey → Text
  pub guard_location : written_guard.location ≡ written_assignment.location
  pub guard_role : written_guard.role ≡ (grant_of written_assignment.assignment).role
  pub records :
      (k : EntityKey)
      → t.records k
        ≡ after_three
            (assignment written_assignment)
            (tuple written_guard)
            (audit position)
            version
            s.records
            k
  pub versions : Versions s t
  -- an active assignment takes the guard
  pub claims :
      (g : RoleAssignmentGrant)
      → written_assignment.assignment ≡ active g
      → written_guard.active_assignment_id ≡ some g.id
  -- another assignment that the guard held is still held
  pub keeps :
      (held : StoredTuple) (v id : Text)
      → s.records (record_key (tuple written_guard))
        ≡ some (record { value = tuple held; version = v })
      → held.active_assignment_id ≡ some id
      → ¬ (id ≡ (grant_of written_assignment.assignment).id)
      → written_guard.active_assignment_id ≡ some id
  -- the record that was there, if any, is followed
  pub follows :
      (old : StoredAssignment) (v : Text)
      → s.records (record_key (assignment written_assignment))
        ≡ some (record { value = assignment old; version = v })
      → Follows old written_assignment

-- Where a row comes from, after the three writes.
pub data Origin (a b c : AuthorizationRecord)
    (rows : EntityKey → Option (Versioned AuthorizationRecord)) (k : EntityKey)
    (x : Versioned AuthorizationRecord) : Type 0 where
  first : record_key a ≡ k → x.value ≡ a → Origin a b c rows k x
  second : record_key b ≡ k → x.value ≡ b → Origin a b c rows k x
  third : record_key c ≡ k → x.value ≡ c → Origin a b c rows k x
  kept : ¬ (record_key a ≡ k) → ¬ (record_key b ≡ k) → rows k ≡ some x → Origin a b c rows k x

pub origin :
    (a b c : AuthorizationRecord) (version : EntityKey → Text)
    (rows : EntityKey → Option (Versioned AuthorizationRecord)) (k : EntityKey)
    (x : Versioned AuthorizationRecord)
    → after_three a b c version rows k ≡ some x
    → Origin a b c rows k x
origin a b c version rows k x h = elim (Bool-cases (same_key (record_key a) k)) [
  | inl p ↦ first (same_key-eq _ _ p) (written a (rw p at h))
  | inr p ↦ elim (Bool-cases (same_key (record_key b) k)) [
    | inl q ↦ second (same_key-eq _ _ q) (written b (rw (p, q) at h))
    | inr q ↦ elim (Bool-cases (same_key (record_key c) k)) [
      | inl r ↦ third (same_key-eq _ _ r) (written c (rw (p, q, r) at h))
      | inr r ↦ kept (same_key-neq _ _ p) (same_key-neq _ _ q) (rw (p, q, r) at h)
    ]
  ]
]
  where
    written :
        (d : AuthorizationRecord)
        → ◌≡◌ {A = Option (Versioned AuthorizationRecord)}
            (some (record { value = d; version = version k }))
            (some x)
        → x.value ≡ d
    written d e = sym (ap (λ o. elim o [ none ↦ d | some v ↦ v.value ]) e)

-- A row that none of the three keys is.
pub unwritten :
    (a b c : AuthorizationRecord) (version : EntityKey → Text)
    (rows : EntityKey → Option (Versioned AuthorizationRecord)) (k : EntityKey)
    → ¬ (record_key a ≡ k)
    → ¬ (record_key b ≡ k)
    → ¬ (record_key c ≡ k)
    → after_three a b c version rows k ≡ rows k
unwritten a b c version rows k p q r =
    rw
      (
        same_key-not (record_key a) k p,
        same_key-not (record_key b) k q,
        same_key-not (record_key c) k r,
      )
      refl

-- The row of the second write.
pub second_written :
    (a b c : AuthorizationRecord) (version : EntityKey → Text)
    (rows : EntityKey → Option (Versioned AuthorizationRecord))
    → ¬ (record_key a ≡ record_key b)
    → after_three a b c version rows (record_key b)
      ≡ some (record { value = b; version = version (record_key b) })
second_written a b c version rows p =
    rw (same_key-not (record_key a) (record_key b) p, same_key_refl (record_key b)) refl

-- The row of the first write.
pub first_written :
    (a b c : AuthorizationRecord) (version : EntityKey → Text)
    (rows : EntityKey → Option (Versioned AuthorizationRecord))
    → after_three a b c version rows (record_key a)
      ≡ some (record { value = a; version = version (record_key a) })
first_written a b c version rows = rw (same_key_refl (record_key a)) refl
