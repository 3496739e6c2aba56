-- ===== src/Tokens/Verification/Traces.antt =====
-- What a run of a program of packages/tokens/src/verifier.ts has asked, with the answers, and what holds of
-- every run.
use authorization_core.Common.{List, [], ◌∷◌, ◌++◌, ◌≡◌, refl, thrown, ok}
use authorization_core.Text.{Text}
use authorization_core.Tokens.{Checked}
use authorization_core.Tokens.Verification.{
  Question, Answer, Program, done, ask, ◌>>=◌, caught, rejected,
}

-- One question with its answer.
pub data Answered : Type 0 where
  answered : (q : Question) → Answer q → Answered

-- A program that ended, with all its questions and their answers, and how it ended.
pub data Trace {A : Type 0} : Program A → List Answered → Checked A → Type 0 where
  ends : {r : Checked A} → Trace (done r) [] r
  asks :
      {q : Question} {next : Answer q → Program A} {log : List Answered} {r : Checked A}
      (x : Answer q)
      → Trace (next x) log r
      → Trace (ask q next) (answered q x ∷ log) r

-- Whatever the answers are, the property holds of the questions asked and of the end.
abbrev pub Always {ℓ} : {A : Type 0} → Program A → (List Answered → Checked A → Type ℓ) → Type ℓ
Always (done r) P = P [] r
Always (ask q k) P = (x : Answer q) → Always (k x) (λ log r. P (answered q x ∷ log) r)

pub always_traced {ℓ} :
    {A : Type 0} {m : Program A} {log : List Answered} {r : Checked A}
    (P : List Answered → Checked A → Type ℓ)
    → Always m P
    → Trace m log r
    → P log r
always_traced P h ends = h
always_traced P h (asks {q} x t) = always_traced (λ log r. P (answered q x ∷ log) r) (h x) t

-- A step that asks nothing: it throws, or goes on with what it gives.
pub after_step {ℓ} :
    {A B : Type 0} (c : Checked A) (next : A → Program B) (P : List Answered → Checked B → Type ℓ)
    → ((e : Text) → P [] (thrown e))
    → ((a : A) → c ≡ ok a → Always (next a) P)
    → Always (done c >>= next) P
after_step (thrown e) next P throws goes = throws e
after_step (ok a) next P throws goes = goes a refl

-- The same for an answer, which the log has.
pub after_answer {ℓ} :
    {A B : Type 0} (c : Checked A) (next : A → Program B)
    (P : Checked A → List Answered → Checked B → Type ℓ)
    → ((e : Text) → P (thrown e) [] (thrown e))
    → ((a : A) → Always (next a) (P (ok a)))
    → Always (done c >>= next) (P c)
after_answer (thrown e) next P throws goes = throws e
after_answer (ok a) next P throws goes = goes a

-- What is left to show of a chain when its first program has ended.
abbrev pub Then {ℓ} :
    {A B : Type 0}
    → (A → Program B)
    → (List Answered → Checked B → Type ℓ)
    → List Answered
    → Checked A
    → Type ℓ
Then next P log (thrown e) = P log (thrown e)
Then next P log (ok a) = Always (next a) (λ rest r. P (log ++ rest) r)

pub always_weaken {ℓ} :
    {A : Type 0} (m : Program A) (P Q : List Answered → Checked A → Type ℓ)
    → ((log : List Answered) (r : Checked A) → P log r → Q log r)
    → Always m P
    → Always m Q
always_weaken (done r) P Q f h = f [] r h
always_weaken (ask q k) P Q f h = λ x.
    always_weaken (k x) (λ log r. P (answered q x ∷ log) r) (λ log r. Q (answered q x ∷ log) r)
      (λ log r. f (answered q x ∷ log) r) (h x)

Then-answered {ℓ} :
    {A B : Type 0} (next : A → Program B) (P : List Answered → Checked B → Type ℓ)
    (first : Answered) (log : List Answered) (r : Checked A)
    → Then next P (first ∷ log) r
    → Then next (λ rest s. P (first ∷ rest) s) log r
Then-answered next P first log (thrown e) h = h
Then-answered next P first log (ok a) h = h

pub chain_always {ℓ} :
    {A B : Type 0} (m : Program A) (next : A → Program B) (P : List Answered → Checked B → Type ℓ)
    → Always m (Then next P)
    → Always (m >>= next) P
chain_always (done (thrown e)) next P h = h
chain_always (done (ok a)) next P h = h
chain_always (ask q k) next P h = λ x.
    chain_always (k x) next (λ log r. P (answered q x ∷ log) r)
      (always_weaken (k x) _ _ (Then-answered next P (answered q x)) (h x))

-- What holds of a caught program, when it holds with the error that is thrown for all.
pub caught_always {ℓ} :
    {A : Type 0} (m : Program A) (P : List Answered → Checked A → Type ℓ)
    → Always m (λ log r. P log (rejected r))
    → Always (caught m) P
unfolding caught
caught_always (done r) P h = h
caught_always (ask q k) P h = λ x. caught_always (k x) (λ log r. P (answered q x ∷ log) r) (h x)
