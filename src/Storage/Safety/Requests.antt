-- ===== src/Storage/Safety/Requests.antt =====
-- What one permitted request to the Store of packages/storage leaves of consistent rows, however the
-- Store answers it.
use authorization_core.Common.{Option, some, List, ◌≡◌, sym, ap, ◌∙◌, inl, inr, subst}
use authorization_core.Text.{Text}
use authorization_core.Storage.Keys.{EntityKey}
use authorization_core.Storage.Records.{
  assignment, StoredAssignment, StoredAssignmentPointer, StoredRoleHolder, StoredIdentityLink,
}
use authorization_core.Storage.Program.{
  Request, Response, get_record, list_records, transact, get_pointer, insert_pointer, list_pointers,
  get_holder, insert_holder, list_holders, get_link, insert_link, committed, refused,
  TransactionAction,
}
use authorization_core.Storage.Store.{Rows, Reply, replied, rejected, Behaves, Commits}
use authorization_core.Storage.Safety.{Grows, Permitted, Tells}
use authorization_core.Storage.Safety.Changes.{IsConsistent, Follows, unchanged}
use authorization_core.Storage.Safety.Preserved.{Change-IsConsistent, Change-Follows}
use authorization_core.Storage.RoleStore.Mutations.Effects.{Commits-Change}

-- Every assignment record still stands at its key, or its revoked form does.
abbrev pub Evolves : Rows → Rows → Type 0
Evolves s t =
    (k : EntityKey) (a : StoredAssignment) (v : Text)
    → s.records k ≡ some (record { value = assignment a; version = v })
    → (b : StoredAssignment) × (w : Text) × (t.records k
        ≡ some (record { value = assignment b; version = w }))
      × Follows a b

-- The rows after a request, against those before.
pub record Serves (s t : Rows) : Type 0 where
  pub consistent : IsConsistent t
  pub grows : Grows s.written t.written
  pub evolves : Evolves s t

-- A request that leaves the authorization records alone.
aside :
    (s t : Rows) (pointers : EntityKey → Option StoredAssignmentPointer)
    (holders : EntityKey → Option StoredRoleHolder) (links : EntityKey → Option StoredIdentityLink)
    → t ≡ record s { pointers = pointers; holders = holders; links = links }
    → IsConsistent s
    → Serves s t
aside s t pointers holders links e c = subst (Serves s) (sym e) (record {
  consistent = record {
    named = c.named;
    placed = c.placed;
    guarded = λ k a v g found is_active.
        let old = c.guarded k a v g found is_active in
        record { guard = old.guard; version = old.version; found = old.found; holds = old.holds };
  };
  grows = λ k v x named. named;
  evolves = λ k a v found. (a, v, found, unchanged);
})

-- A committed transaction.
Commits-Serves :
    (s t : Rows) (p : Text) (actions : List TransactionAction)
    → IsConsistent s
    → Permitted s.written (transact p actions)
    → Commits actions s t
    → Serves s t
Commits-Serves s t p actions c permitted done_at =
    let change = Commits-Change s t actions c permitted done_at in
    record {
      consistent = Change-IsConsistent s t c change;
      grows = done_at.versions.kept;
      evolves = Change-Follows s t c change;
    }

pub Behaves-Serves :
    (r : Request) (s t : Rows) (reply : Reply (Response r))
    → Behaves r s reply t
    → IsConsistent s
    → Permitted s.written r
    → Serves s t
Behaves-Serves (get_record k) s t (replied x) (h, e) c p =
    aside s t s.pointers s.holders s.links e c
Behaves-Serves (get_record k) s t rejected e c p = aside s t s.pointers s.holders s.links e c
Behaves-Serves (list_records q) s t (replied x) e c p = aside s t s.pointers s.holders s.links e c
Behaves-Serves (list_records q) s t rejected e c p = aside s t s.pointers s.holders s.links e c
Behaves-Serves (transact q actions) s t (replied committed) h c p =
    Commits-Serves s t q actions c p h
Behaves-Serves (transact q actions) s t (replied (refused why)) e c p =
    aside s t s.pointers s.holders s.links e c
Behaves-Serves (transact q actions) s t rejected (inl e) c p =
    aside s t s.pointers s.holders s.links e c
Behaves-Serves (transact q actions) s t rejected (inr h) c p = Commits-Serves s t q actions c p h
Behaves-Serves (get_pointer k) s t (replied x) (h, e) c p =
    aside s t s.pointers s.holders s.links e c
Behaves-Serves (get_pointer k) s t rejected e c p = aside s t s.pointers s.holders s.links e c
Behaves-Serves (insert_pointer v) s t (replied x) (h, e) c p =
    aside s t t.pointers s.holders s.links e c
Behaves-Serves (insert_pointer v) s t rejected (h, e) c p =
    aside s t t.pointers s.holders s.links e c
Behaves-Serves (list_pointers q) s t (replied x) e c p = aside s t s.pointers s.holders s.links e c
Behaves-Serves (list_pointers q) s t rejected e c p = aside s t s.pointers s.holders s.links e c
Behaves-Serves (get_holder k) s t (replied x) (h, e) c p =
    aside s t s.pointers s.holders s.links e c
Behaves-Serves (get_holder k) s t rejected e c p = aside s t s.pointers s.holders s.links e c
Behaves-Serves (insert_holder v) s t (replied x) (h, e) c p =
    aside s t s.pointers t.holders s.links e c
Behaves-Serves (insert_holder v) s t rejected (h, e) c p =
    aside s t s.pointers t.holders s.links e c
Behaves-Serves (list_holders q) s t (replied x) e c p = aside s t s.pointers s.holders s.links e c
Behaves-Serves (list_holders q) s t rejected e c p = aside s t s.pointers s.holders s.links e c
Behaves-Serves (get_link k) s t (replied x) (h, e) c p = aside s t s.pointers s.holders s.links e c
Behaves-Serves (get_link k) s t rejected e c p = aside s t s.pointers s.holders s.links e c
Behaves-Serves (insert_link v) s t (replied x) (h, e) c p =
    aside s t s.pointers s.holders t.links e c
Behaves-Serves (insert_link v) s t rejected (h, e) c p = aside s t s.pointers s.holders t.links e c

-- A reply tells what its version names.
pub Behaves-Tells :
    (r : Request) (s t : Rows) (x : Response r)
    → Behaves r s (replied x) t
    → IsConsistent t
    → Tells t.written r x
Behaves-Tells (get_record k) s t x (h, e) c =
    λ v is_some. c.named k v (ap (λ u. u.records k) e ∙ sym h ∙ is_some)
Behaves-Tells (list_records q) s t x h c = tt
Behaves-Tells (transact q actions) s t x h c = tt
Behaves-Tells (get_pointer k) s t x h c = tt
Behaves-Tells (insert_pointer v) s t x h c = tt
Behaves-Tells (list_pointers q) s t x h c = tt
Behaves-Tells (get_holder k) s t x h c = tt
Behaves-Tells (insert_holder v) s t x h c = tt
Behaves-Tells (list_holders q) s t x h c = tt
Behaves-Tells (get_link k) s t x h c = tt
Behaves-Tells (insert_link v) s t x h c = tt
