-- ===== src/Admin/Traces.antt =====
-- What a program of packages/admin has asked its ports, and what they answered, in order.
use authorization_core.Common.{List, [], ◌∷◌, ◌++◌, ◌≡◌, refl, ap}
use authorization_core.Admin.{Program, done, fail_compensation, request, Request, Response, ◌>>=◌}

-- One request with its answer.
pub data Answered : Type 0 where
  answered : (r : Request) → Response r → Answered

-- A program that returned, with all its requests and their answers.
pub data Trace {A : Type 0} : Program A → List Answered → A → Type 0 where
  ends : {a : A} → Trace (done a) [] a
  asks :
      {r : Request} {next : Response r → Program A} {log : List Answered} {a : A} (x : Response r)
      → Trace (next x) log a
      → Trace (request r next) (answered r x ∷ log) a

module _ {A B : Type 0} where
  -- A chain that returned: its first program returned, and then what follows.
  pub record Chained (m : Program A) (next : A → Program B) (log : List Answered) (b : B)
      : Type 0 where
    pub value : A
    pub before : List Answered
    pub after : List Answered
    pub first : Trace m before value
    pub rest : Trace (next value) after b
    pub split : log ≡ before ++ after

  pub chained :
      (m : Program A) (next : A → Program B) {log : List Answered} {b : B}
      → Trace (m >>= next) log b
      → Chained m next log b
  chained (done a) next t = record {
    value = a;
    before = [];
    after = _;
    first = ends;
    rest = t;
    split = refl;
  }
  chained fail_compensation next t = absurd (elim t [ ])
  chained (request r k) next (asks x t) =
      let c = chained (k x) next t in
      record {
        value = c.value;
        before = answered r x ∷ c.before;
        after = c.after;
        first = asks x c.first;
        rest = c.rest;
        split = ap (λ l. answered r x ∷ l) c.split;
      }

-- What a trace says of the program's head.
abbrev pub Seen : {A : Type 0} → Program A → List Answered → A → Type 0
Seen (done x) log a = (x ≡ a) × (log ≡ [])
Seen fail_compensation log a = ⊥
Seen (request r next) log a =
    (x : Response r) × (rest : List Answered) × Trace (next x) rest a × (log ≡ answered r x ∷ rest)

pub seen : {A : Type 0} {m : Program A} {log : List Answered} {a : A} → Trace m log a → Seen m log a
seen ends = (refl, refl)
seen (asks x t) = (x, _, t, refl)
