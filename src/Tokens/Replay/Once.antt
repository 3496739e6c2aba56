-- ===== src/Tokens/Replay/Once.antt =====
-- packages/tokens/src/replay.ts and jti-reservation.ts over one Store, whichever calls come in between:
-- each asks the Store once, so a run is a sequence of calls.
use authorization_core.Common.{
  false, Option, none, some, List, [], ◌∷◌, thrown, ok, ◌≡◌, ◌≢◌, refl, sym, ◌∙◌, subst, inl, inr,
  Bool-cases, All,
}
use authorization_core.Text.{Text}
use authorization_core.Storage.Keys.{EntityKey}
use authorization_core.Storage.Program.{Inserted}
use authorization_core.Storage.Safety.KeyLaws.{same_key-eq, same_key-not}
use authorization_core.Storage.Store.{Reply, replied, rejected, Inserts, MayInsert, same_key}
use authorization_core.Tokens.{Checked}

-- What a call needs: its key, the test before it asks, and what it makes of the reply; the laws say that
-- it returns only when its record was inserted.
module _ {A C : Type 0} (key_of : A → EntityKey) (permits : C → A → Checked (Unit {0}))
    (outcome : A → Reply (Inserted A) → Checked (Unit {0}))
    (refuses : (a : A) (r : Inserted A) → r.inserted ≡ false → outcome a (replied r) ≢ ok tt)
    (fails : (a : A) → outcome a rejected ≢ ok tt) where
  -- One call: it is refused before it asks the Store, or it asks and the Store behaves as documented.
  pub data Step
      : (EntityKey → Option A) → A → Checked (Unit {0}) → (EntityKey → Option A) → Type 0 where
    refused :
        {s : EntityKey → Option A} {a : A} {e : Text} (c : C)
        → permits c a ≡ thrown e
        → Step s a (thrown e) s
    asked :
        {s t : EntityKey → Option A} {a : A} (c : C) (r : Inserted A)
        → permits c a ≡ ok tt
        → Inserts (key_of a) a s t r
        → Step s a (outcome a (replied r)) t
    lost :
        {s t : EntityKey → Option A} {a : A} (c : C)
        → permits c a ≡ ok tt
        → MayInsert (key_of a) a s t
        → ((k : EntityKey) → same_key (key_of a) k ≡ false → t k ≡ s k)
        → Step s a (outcome a rejected) t

  -- The calls of a run, with what each of them returned.
  pub data Run
      : (EntityKey → Option A)
        → List (A × Checked (Unit {0}))
        → (EntityKey → Option A)
        → Type 0 where
    stop : {s : EntityKey → Option A} → Run s [] s
    step :
        {s t u : EntityKey → Option A} {a : A} {result : Checked (Unit {0})}
        {rest : List (A × Checked (Unit {0}))}
        → Step s a result t
        → Run t rest u
        → Run s ((a, result) ∷ rest) u

  -- A call that returned has taken its key, which was free.
  took :
      {s t : EntityKey → Option A} {a : A} {result : Checked (Unit {0})}
      → Step s a result t
      → result ≡ ok tt
      → (s (key_of a) ≡ none) × (x : A) × (t (key_of a) ≡ some x)
  took (refused c p) e = absurd (cc)
  took {a = a} (asked c r p i) e = elim (Bool-cases r.inserted) [
    | inl new ↦ (i.flag new, r.value, i.stored)
    | inr old ↦ absurd (refuses a r old e)
  ]
  took {a = a} (lost c p m i) e = absurd (fails a e)

  -- A key that is taken stays taken.
  stays :
      {s t : EntityKey → Option A} {a : A} {result : Checked (Unit {0})} (k : EntityKey)
      → Step s a result t
      → ((x : A) × (s k ≡ some x))
      → (y : A) × (t k ≡ some y)
  stays k (refused c p) h = h
  stays {t = t} {a = a} k (asked c r p i) (x, h) = elim (Bool-cases (same_key (key_of a) k)) [
    | inl one ↦ (r.value, subst (λ j. t j ≡ some r.value) (same_key-eq (key_of a) k one) i.stored)
    | inr other ↦ (x, i.others k other ∙ h)
  ]
  stays k (lost c p m i) (x, h) = (x, m.kept k x h)

  none_return :
      {s t : EntityKey → Option A} {log : List (A × Checked (Unit {0}))} (k : EntityKey)
      → ((x : A) × (s k ≡ some x))
      → Run s log t
      → All (λ e. key_of e.0 ≡ k → e.1 ≢ ok tt) log
  none_return k taken stop = tt
  none_return {s = s} k taken (step {a = a} one rest) = (
    λ here returned.
        let free = subst (λ j. s j ≡ none) here (took one returned).0 in
        let held = taken.1 in absurd (cc (sym held ∙ free)),
    none_return k (stays k one taken) rest,
  )

  -- Once a call with a key has returned, no later call with that key returns.
  pub once :
      {s t : EntityKey → Option A} {a : A} {log : List (A × Checked (Unit {0}))}
      → Run s ((a, ok tt) ∷ log) t
      → All (λ e. key_of e.0 ≡ key_of a → e.1 ≢ ok tt) log
  once {a = a} (step one rest) =
      let (free, x, stored) = took one refl in none_return (key_of a) (x, stored) rest

  -- A key that was free and is taken after a run was the key of one of its calls.
  pub taken_by :
      {s t : EntityKey → Option A} {log : List (A × Checked (Unit {0}))} (k : EntityKey)
      → s k ≡ none
      → Run s log t
      → All (λ e. key_of e.0 ≢ k) log
      → t k ≡ none
  taken_by k free stop others = free
  taken_by k free (step (refused c p) rest) (o, others) = taken_by k free rest others
  taken_by k free (step {a = a} (asked c r p i) rest) (o, others) =
      taken_by k (i.others k (same_key-not (key_of a) k o) ∙ free) rest others
  taken_by k free (step {a = a} (lost c p m i) rest) (o, others) =
      taken_by k (i k (same_key-not (key_of a) k o) ∙ free) rest others
