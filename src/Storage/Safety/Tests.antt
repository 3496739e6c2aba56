-- ===== src/Storage/Safety/Tests.antt =====
-- A grant and a revoke run to their ends in memory, with the methods of
-- packages/storage/src/role-store.ts.
use authorization_core.Common.{ℕ, zero, suc, none, some, List, [], ◌∷◌, ◌≡◌, refl}
use authorization_core.Text.{Text, text, same}
use authorization_core.Js.{nonneg}
use authorization_core.Contracts.{RoleAssignmentGrant, active, revoked, application, system}
use authorization_core.Storage.Checks.{
  snapshot_active, snapshot_revocation, require_assignment, require_tuple, require_pointer_key,
  require_holder_key, locations_equal,
}
use authorization_core.Storage.RoleStore.{read_assignment}
use authorization_core.Storage.RoleStore.Reads.{locate}
use authorization_core.Storage.Keys.{
  RecordLocation, record_partition, assignment_record_id, tuple_record_id, audit_record_id,
  pointer_key, role_holder_partition, encode_segment, join_segments, scope_tag, pointer_partition,
}
use authorization_core.Storage.Records.{assignment, StoredAssignment}
use authorization_core.Storage.Ports.{
  ScopeInput, ActorInput, GrantRoleAssignmentCommand, AuditedRevokeRoleAssignmentCommand,
}
use authorization_core.Storage.Program.{Program, done, throw, request, Response, Request}
use authorization_core.Storage.Store.{Store, Reply, replied, rejected}
use authorization_core.Storage.RoleStore.Mutations.{
  grant_role_assignment_with_audit, revoke_role_assignment_with_audit,
}
use authorization_core.Storage.RoleStore.Methods.{granting, revoking, program_of}
use authorization_core.Storage.Safety.{assignment_key}
use authorization_core.Storage.Safety.Changes.{Follows, Guards}
use authorization_core.Storage.Safety.Runs.{
  World, Run, stay, and_then, IsFresh, starts, answered, lost, Run-one_active, Run-Guards,
  Run-Follows,
}
use authorization_core.Storage.Safety.Memory.{memory_store, empty_memory, answer, rows_of, next}

-- The first client's next request.
module _ (store : Store) where
  on_reply :
      (r : Request)
      → (Response r → Program (Unit {0}))
      → List (Program (Unit {0}))
      → store.State
      → Reply (Response r)
      → World store
  on_reply r k ps s (replied x) = record { state = s; clients = k x ∷ ps }
  on_reply r k ps s rejected = record { state = s; clients = ps }

  advance_at : store.State → List (Program (Unit {0})) → World store
  unfolding on_reply
  advance_at s (request r k ∷ ps) = on_reply r k ps (store.answer r s).1 (store.answer r s).0
  advance_at s ps = record { state = s; clients = ps }

  -- So many requests of the first client.
  advance : ℕ → World store → World store
  unfolding advance_at
  advance zero w = w
  advance (suc n) w = let v = advance n w in advance_at v.state v.clients

  replied-Run :
      (first : World store) (s : store.State) (r : Request) (k : Response r → Program (Unit {0}))
      (ps : List (Program (Unit {0}))) (y : Reply (Response r))
      → (store.answer r s).0 ≡ y
      → Run store first (record { state = s; clients = request r k ∷ ps })
      → Run store first (on_reply r k ps (store.answer r s).1 y)
  unfolding on_reply
  replied-Run first s r k ps (replied x) e run = and_then run (answered s [] ps r k x e)
  replied-Run first s r k ps rejected e run = and_then run (lost s [] ps r k e)

  advance_at-Run :
      (first : World store) (s : store.State) (ps : List (Program (Unit {0})))
      → Run store first (record { state = s; clients = ps })
      → Run store first (advance_at s ps)
  unfolding advance_at
  advance_at-Run first s [] run = run
  advance_at-Run first s (done a ∷ ps) run = run
  advance_at-Run first s (throw e ∷ ps) run = run
  advance_at-Run first s (request r k ∷ ps) run =
      replied-Run first s r k ps (store.answer r s).0 refl run

  advance-Run :
      (first : World store) (n : ℕ) (w : World store)
      → Run store first w
      → Run store first (advance n w)
  unfolding advance
  advance-Run first zero w run = run
  advance-Run first (suc n) w run =
      advance_at-Run first (advance n w).state (advance n w).clients (advance-Run first n w run)

abbrev grant_editor : GrantRoleAssignmentCommand
grant_editor = record {
  assignment = record {
    id = text "a";
    principal_id = text "u";
    role = text "r";
    scope = ScopeInput.application;
    granted_by = ActorInput.system (text "s");
    status = text "active";
    granted_at_epoch_ms = nonneg 5;
  };
  audit_event_id = text "e";
}

abbrev editor : RoleAssignmentGrant
editor = record {
  id = text "a";
  principal_id = text "u";
  role = text "r";
  scope = application;
  granted_by = system (text "s");
  granted_at_epoch_ms = 5;
}

abbrev location : RecordLocation
location = record { application_id = text "p"; principal_id = text "u"; scope = application }

abbrev granted_row : StoredAssignment
granted_row = record {
  location = location;
  assignment = active editor;
  grant_event_id = text "e";
  revoke_event_id = none;
}

-- The grant, through to its last read.
fresh : World memory_store
fresh = record { state = empty_memory; clients = [] }

grant_called : World memory_store
grant_called = record {
  state = empty_memory;
  clients = program_of (text "p") (granting grant_editor) ∷ [];
}

has_granted : World memory_store
unfolding advance grant_called
has_granted = advance memory_store 6 grant_called

fresh-IsFresh : IsFresh memory_store fresh
unfolding fresh empty_memory rows_of
fresh-IsFresh = record { no_records = λ k. refl; no_clients = refl }

grant-Run : Run memory_store fresh has_granted
unfolding has_granted fresh grant_called
grant-Run =
    advance-Run memory_store fresh 6 grant_called
      (and_then stay (starts fresh (text "p") (granting grant_editor)))

-- What a run of the methods computes with.
runs : Unit {0}
unfolding rows_of grant_role_assignment_with_audit revoke_role_assignment_with_audit snapshot_active
    snapshot_revocation same answer require_pointer_key empty_memory require_holder_key
    locations_equal read_assignment record_partition assignment_record_id tuple_record_id
    audit_record_id pointer_key role_holder_partition encode_segment join_segments scope_tag next
    locate pointer_partition require_assignment require_tuple
runs = tt

row_granted :
    (memory_store.rows has_granted.state).records (assignment_key location (text "a"))
    ≡ some (record { value = assignment granted_row; version = [] })
unfolding has_granted runs
row_granted = refl

Run-one_active_example :
    (text "a" ≡ text "a")
    × (assignment_key location (text "a") ≡ assignment_key location (text "a"))
Run-one_active_example =
    Run-one_active memory_store fresh has_granted (assignment_key location (text "a"))
      (assignment_key location (text "a")) granted_row granted_row [] [] editor editor fresh-IsFresh
      grant-Run row_granted row_granted refl refl refl refl

Run-Guards_example : Guards (memory_store.rows has_granted.state) location (text "r") (text "a")
Run-Guards_example =
    Run-Guards memory_store fresh has_granted (assignment_key location (text "a")) granted_row []
      editor fresh-IsFresh grant-Run row_granted refl

-- The revoke that follows, by the token that the grant returned.
abbrev revoke_editor : AuditedRevokeRoleAssignmentCommand
revoke_editor = record {
  assignment_id = text "a";
  expected_concurrency_token = [];
  revoked_by = ActorInput.system (text "s");
  revoked_at_epoch_ms = nonneg 7;
  reason = none;
  audit_event_id = text "f";
}

abbrev revoked_row : StoredAssignment
revoked_row = record {
  location = location;
  assignment =
      revoked editor
        (record { revoked_by = system (text "s"); revoked_at_epoch_ms = 7; reason = none });
  grant_event_id = text "e";
  revoke_event_id = some (text "f");
}

revoke_called : World memory_store
revoke_called = record has_granted {
  clients = program_of (text "p") (revoking revoke_editor) ∷ has_granted.clients;
}

has_revoked : World memory_store
unfolding advance revoke_called
has_revoked = advance memory_store 5 revoke_called

revoke-Run : Run memory_store has_granted has_revoked
unfolding has_revoked revoke_called
revoke-Run =
    advance-Run memory_store has_granted 5 revoke_called
      (and_then stay (starts has_granted (text "p") (revoking revoke_editor)))

row_revoked :
    (memory_store.rows has_revoked.state).records (assignment_key location (text "a"))
    ≡ some (record { value = assignment revoked_row; version = text "x" })
unfolding has_revoked has_granted runs
row_revoked = refl

Run-Follows_example :
    (b : StoredAssignment) × (x : Text) × ((memory_store.rows has_revoked.state).records
        (assignment_key location (text "a"))
      ≡ some (record { value = assignment b; version = x }))
    × Follows granted_row b
Run-Follows_example =
    Run-Follows memory_store fresh has_granted has_revoked (assignment_key location (text "a"))
      granted_row [] fresh-IsFresh grant-Run revoke-Run row_granted
