-- ===== src/Storage/Safety/Runs.antt =====
-- The methods of packages/storage/src/role-store.ts called by many clients of one Store, in any
-- interleaving of their requests, with replies that may be lost.
use authorization_core.Common.{none, some, List, [], ◌∷◌, ◌++◌, ◌≡◌, sym, ap, ◌∙◌, subst}
use authorization_core.Text.{Text}
use authorization_core.Contracts.{RoleAssignmentGrant, active, grant_of}
use authorization_core.Storage.Keys.{EntityKey, record_partition, assignment_record_id}
use authorization_core.Storage.Records.{AuthorizationRecord, assignment, tuple, StoredAssignment}
use authorization_core.Storage.Program.{Versioned, Program, request, Request, Response}
use authorization_core.Storage.Store.{Store, Rows, Reply, replied, rejected, Behaves}
use authorization_core.Storage.RoleStore.Mutations.Requests.{Any}
use authorization_core.Storage.RoleStore.Methods.{Method, program_of, program_of-IsCareful}
use authorization_core.Storage.Safety.{Named, Grows, IsCareful, IsCareful-Grows, guard_key}
use authorization_core.Storage.Safety.KeyLaws.{key_ext}
use authorization_core.Storage.Safety.Changes.{
  IsConsistent, Follows, unchanged, was_revoked, Guards,
}
use authorization_core.Storage.Safety.Requests.{Evolves, Behaves-Serves, Behaves-Tells}

-- The Store's state, and what each client has still to do.
pub record World (store : Store) : Type 0 where
  pub state : store.State
  pub clients : List (Program (Unit {0}))

-- One step: a client of some application calls a method; or one client's next request is answered;
-- or it is served and the answer is lost, which ends the client.
pub data Step (store : Store) : World store → World store → Type 0 where
  starts :
      (w : World store) (application_id : Text) (m : Method)
      → Step store w (record w { clients = program_of application_id m ∷ w.clients })
  answered :
      (state : store.State) (before after : List (Program (Unit {0}))) (r : Request)
      (k : Response r → Program (Unit {0})) (x : Response r)
      → (store.answer r state).0 ≡ replied x
      → Step store
          (record { state = state; clients = before ++ (request r k ∷ after) })
          (record { state = (store.answer r state).1; clients = before ++ (k x ∷ after) })
  lost :
      (state : store.State) (before after : List (Program (Unit {0}))) (r : Request)
      (k : Response r → Program (Unit {0}))
      → (store.answer r state).0 ≡ rejected
      → Step store
          (record { state = state; clients = before ++ (request r k ∷ after) })
          (record { state = (store.answer r state).1; clients = before ++ after })

-- Any number of steps.
pub data Run (store : Store) (first : World store) : World store → Type 0 where
  stay : Run store first first
  and_then : {v w : World store} → Run store first v → Step store v w → Run store first w

-- A world before any client, over a Store with no authorization record.
pub record IsFresh (store : Store) (w : World store) : Type 0 where
  pub no_records : (k : EntityKey) → (store.rows w.state).records k ≡ none
  pub no_clients : w.clients ≡ []

abbrev AllCareful : Named → List (Program (Unit {0})) → Type 0
AllCareful w [] = Unit
AllCareful w (p ∷ ps) = IsCareful w p Any × AllCareful w ps

AllCareful-Grows :
    (w w' : Named) (ps : List (Program (Unit {0})))
    → Grows w w'
    → AllCareful w ps
    → AllCareful w' ps
AllCareful-Grows w w' [] g c = tt
AllCareful-Grows w w' (p ∷ ps) g (c, cs) =
    (IsCareful-Grows p Any w w' (λ a u u' more h. tt) g c, AllCareful-Grows w w' ps g cs)

focused :
    (w : Named) (before after : List (Program (Unit {0}))) (p : Program (Unit {0}))
    → AllCareful w (before ++ (p ∷ after))
    → IsCareful w p Any
focused w [] after p (c, cs) = c
focused w (q ∷ before) after p (c, cs) = focused w before after p cs

replaced :
    (w : Named) (before after : List (Program (Unit {0}))) (p q : Program (Unit {0}))
    → AllCareful w (before ++ (p ∷ after))
    → IsCareful w q Any
    → AllCareful w (before ++ (q ∷ after))
replaced w [] after p q (c, cs) d = (d, cs)
replaced w (o ∷ before) after p q (c, cs) d = (c, replaced w before after p q cs d)

removed :
    (w : Named) (before after : List (Program (Unit {0}))) (p : Program (Unit {0}))
    → AllCareful w (before ++ (p ∷ after))
    → AllCareful w (before ++ after)
removed w [] after p (c, cs) = cs
removed w (o ∷ before) after p (c, cs) = (c, removed w before after p cs)

-- What every reachable world satisfies.
record IsSound (store : Store) (w : World store) : Type 0 where
  consistent : IsConsistent (store.rows w.state)
  careful : AllCareful (store.rows w.state).written w.clients

-- What a step leaves.
record Keeps (store : Store) (v w : World store) : Type 0 where
  sound : IsSound store w
  evolves : Evolves (store.rows v.state) (store.rows w.state)

still : (s : Rows) → Evolves s s
still s k a v found = (a, v, found, unchanged)

Behaves-as :
    (store : Store) (state : store.State) (r : Request) (y : Reply (Response r))
    → (store.answer r state).0 ≡ y
    → Behaves r (store.rows state) y (store.rows (store.answer r state).1)
Behaves-as store state r y e =
    subst (λ z. Behaves r (store.rows state) z (store.rows (store.answer r state).1)) e
      (store.behaves r state)

Step-Keeps :
    (store : Store) {v w : World store} → Step store v w → IsSound store v → Keeps store v w
Step-Keeps store (starts v a m) s = record {
  sound = record { consistent = s.consistent; careful = (program_of-IsCareful _ a m, s.careful) };
  evolves = still (store.rows v.state);
}
Step-Keeps store (answered state before after r k x e) s =
    let b = Behaves-as store state r (replied x) e in
    let c = focused _ before after (request r k) s.careful in
    let h = Behaves-Serves r _ _ (replied x) b s.consistent (c.0 _ (λ q u y named. named)) in
    let told = Behaves-Tells r _ _ x b h.consistent in
    record {
      sound = record {
        consistent = h.consistent;
        careful =
            replaced _ before after (request r k) (k x)
              (AllCareful-Grows _ _ (before ++ (request r k ∷ after)) h.grows s.careful)
              (c.1 _ h.grows x told);
      };
      evolves = h.evolves;
    }
Step-Keeps store (lost state before after r k e) s =
    let b = Behaves-as store state r rejected e in
    let c = focused _ before after (request r k) s.careful in
    let h = Behaves-Serves r _ _ rejected b s.consistent (c.0 _ (λ q u y named. named)) in
    record {
      sound = record {
        consistent = h.consistent;
        careful =
            removed _ before after (request r k)
              (AllCareful-Grows _ _ (before ++ (request r k ∷ after)) h.grows s.careful);
      };
      evolves = h.evolves;
    }

fresh-IsSound : (store : Store) (w : World store) → IsFresh store w → IsSound store w
fresh-IsSound store w fresh = record {
  consistent = record {
    named = λ k x found. absurd (no_row k x found);
    placed = λ k x found. absurd (no_row k x found);
    guarded = λ k a v g found is_active. absurd (no_row k _ found);
  };
  careful = subst (AllCareful (store.rows w.state).written) (sym fresh.no_clients) tt;
}
  where
    no_row :
        (k : EntityKey) (x : Versioned AuthorizationRecord)
        → ¬ ((store.rows w.state).records k ≡ some x)
    no_row k x found = let free = fresh.no_records k in cc

Run-IsSound :
    (store : Store) (first : World store) {w : World store}
    → IsFresh store first
    → Run store first w
    → IsSound store w
Run-IsSound store first fresh stay = fresh-IsSound store first fresh
Run-IsSound store first fresh (and_then run step) =
    (Step-Keeps store step (Run-IsSound store first fresh run)).sound

Run-Evolves :
    (store : Store) {v w : World store} → IsSound store v → Run store v w → Keeps store v w
Run-Evolves store {v} sound stay = record { sound = sound; evolves = still (store.rows v.state) }
Run-Evolves store {v} sound (and_then run step) =
    let before = Run-Evolves store sound run in
    let after = Step-Keeps store step before.sound in
    record {
      sound = after.sound;
      evolves = λ k a u found.
          let (b, x, found_b, follows_b) = before.evolves k a u found in
          let (c, y, found_c, follows_c) = after.evolves k b x found_b in
          (c, y, found_c, follows_trans a b c follows_b follows_c);
    }
  where
    follows_trans : (a b c : StoredAssignment) → Follows a b → Follows b c → Follows a c
    follows_trans a _ c unchanged g = g
    follows_trans a b _ f unchanged = f
    follows_trans a b c (was_revoked _ g r x y p q) (was_revoked _ g' r' x' y' p' q') = absurd (cc)

-- However many clients call the methods of the role store on one Store that has no authorization
-- record at first, in whatever interleaving of requests, and whichever replies are lost: two stored assignments that are active in one location for one role are one
-- assignment, at one key.
pub Run-one_active :
    (store : Store) (first w : World store) (k l : EntityKey) (a b : StoredAssignment) (u v : Text)
    (g h : RoleAssignmentGrant)
    → IsFresh store first
    → Run store first w
    → (store.rows w.state).records k ≡ some (record { value = assignment a; version = u })
    → (store.rows w.state).records l ≡ some (record { value = assignment b; version = v })
    → a.assignment ≡ active g
    → b.assignment ≡ active h
    → a.location ≡ b.location
    → g.role ≡ h.role
    → (g.id ≡ h.id) × (k ≡ l)
Run-one_active store first w k l a b u v g h fresh run found_a found_b active_a active_b at role =
    let c = (Run-IsSound store first fresh run).consistent in
    let one = c.guarded k a u g found_a active_a in
    let two = c.guarded l b v h found_b active_b in
    let same_key : guard_key a.location g.role ≡ guard_key b.location h.role =
      λ i. guard_key (at i) (role i) in
    let rows : some (record { value = tuple one.guard; version = one.version })
        ≡ some (record { value = tuple two.guard; version = two.version }) =
      sym one.found ∙ ap (store.rows w.state).records same_key ∙ two.found in
    let guards : tuple one.guard ≡ tuple two.guard = cc in
    let same_guard : one.guard ≡ two.guard = cc in
    let ids : some g.id ≡ some h.id =
      sym one.holds ∙ ap (λ t. t.active_assignment_id) same_guard ∙ two.holds in
    let same_id : g.id ≡ h.id = cc in
    (
      same_id,
      sym (c.placed k _ found_a)
          ∙ key_ext _ _ (ap record_partition at) (
              ap assignment_record_id (
                ap (λ x. (grant_of x).id) active_a
                ∙ same_id
                ∙ ap (λ x. (grant_of x).id) (sym active_b)))
          ∙ c.placed l _ found_b,
    )

-- In a reachable world every active assignment is held by the guard of its role in its location, as
-- a later grant of the role reads it.
pub Run-Guards :
    (store : Store) (first w : World store) (k : EntityKey) (a : StoredAssignment) (v : Text)
    (g : RoleAssignmentGrant)
    → IsFresh store first
    → Run store first w
    → (store.rows w.state).records k ≡ some (record { value = assignment a; version = v })
    → a.assignment ≡ active g
    → Guards (store.rows w.state) a.location g.role g.id
Run-Guards store first w k a v g fresh run found is_active =
    (Run-IsSound store first fresh run).consistent.guarded k a v g found is_active

-- From a reachable world on, whatever clients do: an assignment record is never deleted or replaced.
-- At its key there stands the same record, or, if it was active, its revoked form with the evidence
-- of the same grant; so a revoked record never changes again.
pub Run-Follows :
    (store : Store) (first v w : World store) (k : EntityKey) (a : StoredAssignment) (u : Text)
    → IsFresh store first
    → Run store first v
    → Run store v w
    → (store.rows v.state).records k ≡ some (record { value = assignment a; version = u })
    → (b : StoredAssignment) × (x : Text) × ((store.rows w.state).records k
        ≡ some (record { value = assignment b; version = x }))
      × Follows a b
Run-Follows store first v w k a u fresh run more found =
    (Run-Evolves store (Run-IsSound store first fresh run) more).evolves k a u found
