-- ===== src/Storage/Safety.antt =====
-- What a program of packages/storage may ask of the Store, given what it has read.
-- A version names one value for good, so what a reader knows of a version stays true while other
-- clients write.
pub mod KeyLaws
pub mod Changes
pub mod Preserved
pub mod Requests
pub mod Runs
pub mod Memory
mod Tests
use authorization_core.Common.{
  ℕ, Bool, true, false, Option, none, some, List, [], ◌∷◌, ◌≡◌, refl, ◌⊎◌,
}
use authorization_core.Text.{Text}
use authorization_core.Contracts.{RoleAssignmentGrant, Revocation, active, revoked}
use authorization_core.Storage.Keys.{
  EntityKey, RecordLocation, record_partition, tuple_record_id, assignment_record_id,
}
use authorization_core.Storage.Records.{AuthorizationRecord, assignment, tuple, StoredTuple}
use authorization_core.Storage.Ports.{AuditedRevokeRoleAssignmentCommand}
use authorization_core.Storage.Program.{
  Request, Response, get_record, list_records, transact, get_pointer, insert_pointer, list_pointers,
  get_holder, insert_holder, list_holders, get_link, insert_link, Versioned, TransactionAction,
  Program, done, throw, request, ◌>>=◌, Error, check,
}
use authorization_core.Storage.RoleStore.{Found}
use authorization_core.Storage.RoleStore.Mutations.{grant_actions, revoke_actions, occupied}

-- The value that each version of a row names.
abbrev pub Named : Type 0
Named = EntityKey → Text → Option AuthorizationRecord

abbrev pub Grows : Named → Named → Type 0
Grows w w' = (k : EntityKey) (v : Text) (x : AuthorizationRecord) → w k v ≡ some x → w' k v ≡ some x

abbrev pub guard_key : RecordLocation → Text → EntityKey
guard_key location role = record {
  partition = record_partition location;
  id = tuple_record_id role;
}

abbrev pub assignment_key : RecordLocation → Text → EntityKey
assignment_key location id = record {
  partition = record_partition location;
  id = assignment_record_id id;
}

-- A guard that was read is absent, or a tuple that the assignment may take.
abbrev pub MayTake :
    Named → RecordLocation → RoleAssignmentGrant → Option (Versioned AuthorizationRecord) → Type 0
MayTake w location g none = Unit
MayTake w location g (some v) =
    (t : StoredTuple) × (w (guard_key location g.role) v.version ≡ some (tuple t))
    × (occupied t.active_assignment_id g.id ≡ false)

-- The transactions of the role store: those of a grant whose guard may be taken, and those of a
-- revoke of an active record that was read.
pub data IsLifecycleChange (w : Named) : List TransactionAction → Type 0 where
  granting :
      (location : RecordLocation) (g : RoleAssignmentGrant) (event_id : Text)
      (guard : Option (Versioned AuthorizationRecord))
      → MayTake w location g guard
      → IsLifecycleChange w (grant_actions location g event_id guard)
  revoking :
      (location : RecordLocation) (existing : Found) (g : RoleAssignmentGrant) (r : Revocation)
      (command : AuditedRevokeRoleAssignmentCommand) (held : StoredTuple) (guard_version : Text)
      → w (assignment_key location g.id) existing.version ≡ some (assignment existing.stored)
      → existing.stored.location ≡ location
      → existing.stored.assignment ≡ active g
      → g.id ≡ command.assignment_id
      → w (guard_key location g.role) guard_version ≡ some (tuple held)
      → held.location ≡ location
      → held.role ≡ g.role
      → IsLifecycleChange w (revoke_actions location existing g r command held guard_version)

abbrev pub Permitted : Named → Request → Type 0
Permitted w (transact p actions) = IsLifecycleChange w actions
Permitted w _ = Unit

-- What a reply tells of the versions.
abbrev pub Tells : Named → (r : Request) → Response r → Type 0
Tells w (get_record k) x =
    (v : Versioned AuthorizationRecord) → x ≡ some v → w k v.version ≡ some v.value
Tells w _ x = Unit

-- A program that only makes permitted requests, whatever the Store replies and whatever is written
-- meanwhile, and whose result satisfies Q.
abbrev pub IsCareful : {A : Type 0} → Named → Program A → (Named → A → Type 0) → Type 0
IsCareful w (done a) Q = Q w a
IsCareful w (throw e) Q = Unit
IsCareful w (request r k) Q =
    ((w' : Named) → Grows w w' → Permitted w' r)
    × ((w' : Named) → Grows w w' → (x : Response r) → Tells w' r x → IsCareful w' (k x) Q)

pub Grows-trans : (a b c : Named) → Grows a b → Grows b c → Grows a c
Grows-trans a b c f g k v x h = g k v x (f k v x h)

-- What holds of a program still holds once more is written.
pub IsCareful-Grows :
    {A : Type 0} (m : Program A) (Q : Named → A → Type 0) (w w' : Named)
    → ((a : A) (u u' : Named) → Grows u u' → Q u a → Q u' a)
    → Grows w w'
    → IsCareful w m Q
    → IsCareful w' m Q
IsCareful-Grows (done a) Q w w' stable g c = stable a w w' g c
IsCareful-Grows (throw e) Q w w' stable g c = tt
IsCareful-Grows (request r k) Q w w' stable g (p, c) = (
  λ u more. p u (Grows-trans w w' u g more),
  λ u more x told. c u (Grows-trans w w' u g more) x told,
)

pub careful_bind :
    {A B : Type 0} (w : Named) (m : Program A) (f : A → Program B) (Q : Named → A → Type 0)
    (R : Named → B → Type 0)
    → IsCareful w m Q
    → ((w' : Named) (a : A) → Grows w w' → Q w' a → IsCareful w' (f a) R)
    → IsCareful w (m >>= f) R
careful_bind w (done a) f Q R c next = next w a (λ k v x h. h) c
careful_bind w (throw e) f Q R c next = tt
careful_bind w (request r k) f Q R (p, c) next = (
  p,
  λ w' more x told.
      careful_bind w' (k x) f Q R (c w' more x told)
        (λ u a further q. next u a (Grows-trans w w' u more further) q),
)

-- A test that fails throws.
pub careful_check :
    {A : Type 0} (w : Named) (b : Bool) (e : Error) (f : Unit {0} → Program A)
    (R : Named → A → Type 0)
    → (b ≡ true → IsCareful w (f tt) R)
    → IsCareful w (check b e >>= f) R
careful_check w true e f R next = next refl
careful_check w false e f R next = tt
