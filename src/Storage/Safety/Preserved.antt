-- ===== src/Storage/Safety/Preserved.antt =====
-- A lifecycle change of the rows keeps them consistent, and each record is followed by the record
-- that stands at its key afterwards.
use authorization_core.Common.{some, ◌≡◌, sym, ap, ◌∙◌, inl, inr}
use authorization_core.Text.{Text}
use authorization_core.Contracts.{RoleAssignmentGrant, active, grant_of}
use authorization_core.Storage.Keys.{
  EntityKey, record_partition, tuple_record_id, assignment_record_id,
}
use authorization_core.Storage.Keys.RecordIds.{
  assignment_not_tuple, assignment_not_audit, tuple_not_audit,
}
use authorization_core.Storage.Records.{
  AuthorizationRecord, assignment, tuple, audit, StoredAssignment, record_key,
}
use authorization_core.Storage.Program.{Versioned}
use authorization_core.Storage.Store.{Rows}
use authorization_core.Storage.Safety.{guard_key}
use authorization_core.Storage.Safety.KeyLaws.{key_ext, key_cases}
use authorization_core.Storage.Safety.Changes.{
  IsConsistent, Change, Guards, Follows, unchanged, Origin, first, second, third, kept, origin,
  unwritten, first_written, second_written,
}

module _ (s t : Rows) (consistent : IsConsistent s) (c : Change s t) where
  at_guard :
      guard_key c.written_assignment.location (grant_of c.written_assignment.assignment).role
      ≡ record_key (tuple c.written_guard)
  at_guard =
      key_ext _ _ (ap record_partition (sym c.guard_location))
        (ap tuple_record_id (sym c.guard_role))

  guard_found :
      t.records (record_key (tuple c.written_guard))
      ≡ some (record {
        value = tuple c.written_guard;
        version = c.version (record_key (tuple c.written_guard));
      })
  guard_found =
      c.records _
      ∙ second_written (assignment c.written_assignment) (tuple c.written_guard) (audit c.position)
          c.version s.records (λ e. assignment_not_tuple _ _ (ap (λ k. k.id) e))

  -- An assignment that was written is the one that the change writes.
  of_written : (a b : StoredAssignment) → assignment a ≡ assignment b → a ≡ b
  of_written a b e = cc

  guarded_written :
      (a : StoredAssignment) (g : RoleAssignmentGrant)
      → a ≡ c.written_assignment
      → a.assignment ≡ active g
      → Guards t a.location g.role g.id
  guarded_written a g same_record is_active =
      let act : c.written_assignment.assignment ≡ active g =
        ap (λ b. b.assignment) (sym same_record) ∙ is_active in
      let key : guard_key a.location g.role ≡ record_key (tuple c.written_guard) =
        key_ext _ _
          (ap (λ b. record_partition b.location) same_record
            ∙ ap record_partition (sym c.guard_location))
          (ap tuple_record_id (sym (c.guard_role ∙ ap (λ b. (grant_of b).role) act))) in
      record {
        guard = c.written_guard;
        version = c.version (record_key (tuple c.written_guard));
        found = ap t.records key ∙ guard_found;
        holds = c.claims g act;
      }

  guarded_kept :
      (k : EntityKey) (a : StoredAssignment) (v : Text) (g : RoleAssignmentGrant)
      → ¬ (record_key (assignment c.written_assignment) ≡ k)
      → s.records k ≡ some (record { value = assignment a; version = v })
      → a.assignment ≡ active g
      → Guards t a.location g.role g.id
  guarded_kept k a v g elsewhere found is_active =
      let old = consistent.guarded k a v g found is_active in
      let here = consistent.placed k _ found in
      elim (key_cases (record_key (tuple c.written_guard)) (guard_key a.location g.role)) [
        | inl e ↦ record {
          guard = c.written_guard;
          version = c.version (record_key (tuple c.written_guard));
          found = ap t.records (sym e) ∙ guard_found;
          holds =
              c.keeps old.guard old.version g.id (ap s.records e ∙ old.found) old.holds (λ same_id.
                elsewhere (
                  key_ext _ _ (ap record_partition (sym c.guard_location) ∙ ap (λ l. l.partition) e)
                    (ap assignment_record_id
                      (sym same_id ∙ ap (λ b. (grant_of b).id) (sym is_active)))
                  ∙ here));
        }
        | inr n ↦ record {
          guard = old.guard;
          version = old.version;
          found =
              c.records _
              ∙ unwritten (assignment c.written_assignment) (tuple c.written_guard)
                  (audit c.position) c.version s.records (guard_key a.location g.role)
                  (λ e. assignment_not_tuple _ _ (ap (λ l. l.id) e)) n
                  (λ e. tuple_not_audit _ _ _ (ap (λ l. l.id) (sym e)))
              ∙ old.found;
          holds = old.holds;
        }
      ]

  came :
      (k : EntityKey) (x : Versioned AuthorizationRecord)
      → t.records k ≡ some x
      → Origin
          (assignment c.written_assignment)
          (tuple c.written_guard)
          (audit c.position)
          s.records
          k
          x
  came k x found =
      origin (assignment c.written_assignment) (tuple c.written_guard) (audit c.position) c.version
        s.records k x (sym (c.records k) ∙ found)

  pub Change-IsConsistent : IsConsistent t
  Change-IsConsistent = record {
    named = c.versions.named;
    placed = λ k x found. placed k x (came k x found);
    guarded = λ k a v g found is_active. guarded k a v g is_active (came k _ found);
  }
    where
      placed :
          (k : EntityKey) (x : Versioned AuthorizationRecord)
          → Origin
              (assignment c.written_assignment)
              (tuple c.written_guard)
              (audit c.position)
              s.records
              k
              x
          → record_key x.value ≡ k
      placed k x (first at value) = ap record_key value ∙ at
      placed k x (second at value) = ap record_key value ∙ at
      placed k x (third at value) = ap record_key value ∙ at
      placed k x (kept p q found) = consistent.placed k x found

      guarded :
          (k : EntityKey) (a : StoredAssignment) (v : Text) (g : RoleAssignmentGrant)
          → a.assignment ≡ active g
          → Origin
              (assignment c.written_assignment)
              (tuple c.written_guard)
              (audit c.position)
              s.records
              k
              (record { value = assignment a; version = v })
          → Guards t a.location g.role g.id
      guarded k a v g is_active (first at value) =
          guarded_written a g (of_written _ _ value) is_active
      guarded k a v g is_active (second at value) = absurd (cc)
      guarded k a v g is_active (third at value) = absurd (cc)
      guarded k a v g is_active (kept p q found) = guarded_kept k a v g p found is_active

  pub Change-Follows :
      (k : EntityKey) (a : StoredAssignment) (v : Text)
      → s.records k ≡ some (record { value = assignment a; version = v })
      → (b : StoredAssignment) × (w : Text) × (t.records k
          ≡ some (record { value = assignment b; version = w }))
        × Follows a b
  Change-Follows k a v found =
      let here = consistent.placed k _ found in
      elim (key_cases (record_key (assignment c.written_assignment)) k) [
        | inl e ↦ (
          c.written_assignment,
          c.version (record_key (assignment c.written_assignment)),
          ap t.records (sym e)
              ∙ c.records _
              ∙ first_written (assignment c.written_assignment) (tuple c.written_guard)
                  (audit c.position) c.version s.records,
          c.follows a v (ap s.records e ∙ found),
        )
        | inr n ↦ (
          a,
          v,
          c.records k
              ∙ unwritten (assignment c.written_assignment) (tuple c.written_guard)
                  (audit c.position) c.version s.records k n
                  (λ e. assignment_not_tuple _ _ (ap (λ l. l.id) (here ∙ sym e)))
                  (λ e. assignment_not_audit _ _ _ (ap (λ l. l.id) (here ∙ sym e)))
              ∙ found,
          unchanged,
        )
      ]
