-- ===== src/Common/Results.antt =====
-- Computations that may throw: `thrown` carries the error, `ok` what is returned.
use mathlib.Core.Path.{◌≡◌, refl}
use mathlib.Core.Bool.{Bool, true, false}

pub data Result {ℓ} (E : Type ℓ) (A : Type ℓ) : Type ℓ where
  thrown : E → Result E A
  ok : A → Result E A

-- Throws unless the test passes.
abbrev pub guard {ℓ} : {E : Type ℓ} → Bool → E → Result E (Unit {ℓ})
guard passed e = elim passed [ true ↦ ok tt | false ↦ thrown e ]

infixl 5 ◌>>=◌ ◌>>◌
abbrev pub ◌>>=◌ {ℓ} : {E A B : Type ℓ} → Result E A → (A → Result E B) → Result E B
thrown e >>= next = thrown e
ok x >>= next = next x

abbrev pub ◌>>◌ {ℓ} : {E B : Type ℓ} → Result E (Unit {ℓ}) → Result E B → Result E B
thrown e >> next = thrown e
ok _ >> next = next

pub ok-injective {ℓ} : {E A : Type ℓ} {a b : A} → ◌≡◌ {A = Result E A} (ok a) (ok b) → a ≡ b
ok-injective h = cc

-- A chain that returned has a first step that returned, with what follows from it last.
pub ok_step {ℓ κ} :
    {E A B : Type ℓ} {C : Type κ} (first : Result E A) (next : A → Result E B) {b : B}
    → (first >>= next) ≡ ok b
    → ((a : A) → first ≡ ok a → next a ≡ ok b → C)
    → C
ok_step (thrown e) next h k = absurd (cc)
ok_step (ok x) next h k = k x refl h

pub >>=-eq-ok {ℓ} :
    {E A B : Type ℓ} (first : Result E A) (next : A → Result E B) {b : B}
    → (first >>= next) ≡ ok b
    → (a : A) × (first ≡ ok a) × (next a ≡ ok b)
>>=-eq-ok first next h = ok_step first next h (λ a returned rest. (a, returned, rest))

pub >>-eq-ok {ℓ} :
    {E B : Type ℓ} (first : Result E (Unit {ℓ})) (next : Result E B) {b : B}
    → (first >> next) ≡ ok b
    → (first ≡ ok tt) × (next ≡ ok b)
>>-eq-ok (thrown e) next h = absurd (cc)
>>-eq-ok (ok tt) next h = (refl, h)

-- What follows from a guarded computation that returned.
pub guard-eq-ok {ℓ} :
    {E B : Type ℓ} (passed : Bool) (e : E) (next : Result E B) {b : B}
    → (guard passed e >> next) ≡ ok b
    → (passed ≡ true) × (next ≡ ok b)
guard-eq-ok true e next h = (refl, h)
guard-eq-ok false e next h = absurd (cc)

pub guard_passed {ℓ} :
    {E : Type ℓ} (passed : Bool) (e : E) → guard passed e ≡ ok (tt {ℓ}) → passed ≡ true
guard_passed true e h = refl
guard_passed false e h = absurd (cc)
