-- ===== src/Stripe/Freshness.antt =====
-- packages/stripe/src/index.ts: whose persisted state the adapter translates, and how old it may be.
use authorization_core.Common.{
  ℕ, ◌+◌, ◌-◌, ◌≤◌, List, [], ◌∷◌, ◌≡◌, refl, ◌∙◌, ap, arith, leb, ok, ◌>>=◌, >>=-eq-ok, >>-eq-ok,
  guard-eq-ok, ok-injective, subst,
}
use authorization_core.Text.{Text, text, same}
use authorization_core.Text.Order.{eq_of_same}
use authorization_core.Js.{Value, Properties}
use authorization_core.Stripe.{
  Checked, CompiledRule, create_stripe_entitlement_adapter, compile_rules,
  require_positive_safe_integer, refused_unless, translate, resolve_entitlements,
  read_stripe_entitlement_request, read_persisted_entitlement_state,
  require_nonnegative_safe_integer, require_plain_record, require_own_enumerable_data_value,
  require_exact_fields, require_nonblank_string,
}

-- What a field of a state holds, as a reader takes it.
pub field_as : {A : Type 0} → (Value → Checked A) → Value → Text → Checked A
field_as read state field = do
  ps ← require_plain_record state (text "persisted state")
  value ← require_own_enumerable_data_value ps field (text "persisted state")
  read value

pub as_principal : Value → Checked Text
as_principal value = require_nonblank_string value (text "persisted state.principalId")

pub as_instant : Value → Checked ℕ
as_instant value =
    require_nonnegative_safe_integer value (text "persisted state.refreshedAtEpochMs")

field_as-eq :
    {A : Type 0} (read : Value → Checked A) (state : Value) (field : Text) (ps : Properties)
    (v : Value) (a : A)
    → require_plain_record state (text "persisted state") ≡ ok ps
    → require_own_enumerable_data_value ps field (text "persisted state") ≡ ok v
    → read v ≡ ok a
    → field_as read state field ≡ ok a
unfolding field_as
field_as-eq read state field ps v a plain has held = rw (plain, has, held)

-- A state that was refreshed for the principal, at most the maximum age before the instant.
pub IsFresh : Value → Text → ℕ → ℕ → Type 0
IsFresh state principal current maximum_age =
    (field_as as_principal state (text "principalId") ≡ ok principal)
    × ((refreshed : ℕ) × (field_as as_instant state (text "refreshedAtEpochMs") ≡ ok refreshed)
        × (refreshed ≤ current)
        × (current ≤ refreshed + maximum_age))

state-IsFresh :
    (state : Value) (requested : Text) (current maximum_age : ℕ) (facts : Value)
    → read_persisted_entitlement_state state requested current maximum_age ≡ ok facts
    → IsFresh state requested current maximum_age × (field_as ok state (text "facts") ≡ ok facts)
unfolding read_persisted_entitlement_state refused_unless IsFresh as_principal as_instant
state-IsFresh state requested current maximum_age facts h =
    let (ps, plain, more) = >>=-eq-ok (require_plain_record state (text "persisted state")) _ h in
    let (exact, more) =
      >>-eq-ok
        (require_exact_fields ps
          (text "principalId" ∷ text "refreshedAtEpochMs" ∷ text "facts" ∷ [])
          (text "persisted state"))
        _ more in
    let (pv, has_principal, more) =
      >>=-eq-ok (require_own_enumerable_data_value ps (text "principalId") (text "persisted state"))
        _ more in
    let (persisted, is_string, more) =
      >>=-eq-ok (require_nonblank_string pv (text "persisted state.principalId")) _ more in
    let (matches, more) = guard-eq-ok (same persisted requested) _ _ more in
    let (tv, has_time, more) =
      >>=-eq-ok
        (require_own_enumerable_data_value ps (text "refreshedAtEpochMs") (text "persisted state"))
        _ more in
    let (refreshed, is_instant, more) =
      >>=-eq-ok (require_nonnegative_safe_integer tv (text "persisted state.refreshedAtEpochMs")) _
        more in
    let (past, more) = guard-eq-ok (leb refreshed current) _ _ more in
    let (recent, last) = guard-eq-ok (leb (current - refreshed) maximum_age) _ _ more in
    (
      (
        field_as-eq as_principal state (text "principalId") ps pv requested plain has_principal
            (is_string ∙ ap ok (eq_of_same persisted requested matches)),
        (
          refreshed,
          field_as-eq as_instant state (text "refreshedAtEpochMs") ps tv refreshed plain has_time
              is_instant,
          ground arith,
          ground arith,
        ),
      ),
      field_as-eq ok state (text "facts") ps facts facts plain last refl,
    )

positive_integer :
    (v : Value) (label : Text) (n : ℕ) → require_positive_safe_integer v label ≡ ok n → 1 ≤ n
unfolding require_positive_safe_integer refused_unless
positive_integer v label n h =
    let (i, read, more) = >>=-eq-ok (require_nonnegative_safe_integer v label) _ h in
    let (positive, last) = guard-eq-ok (leb 1 i) _ _ more in
    let i-eq = ok-injective last in ground arith

created_from :
    (rules_value maximum : Value) (rules : List CompiledRule) (maximum_age : ℕ)
    → create_stripe_entitlement_adapter rules_value maximum ≡ ok (rules, maximum_age)
    → (compile_rules rules_value ≡ ok rules) × (1 ≤ maximum_age)
unfolding create_stripe_entitlement_adapter
created_from rules_value maximum rules maximum_age h =
    let (age, positive, more) =
      >>=-eq-ok (require_positive_safe_integer maximum (text "maximumStateAgeMs")) _ h in
    let (compiled, made, last) = >>=-eq-ok (compile_rules rules_value) _ more in
    let e = ok-injective last in
    (
      made ∙ ap (λ (pair : List CompiledRule × ℕ). ok pair.0) e,
      subst (λ (pair : List CompiledRule × ℕ). 1 ≤ pair.1) e
          (positive_integer maximum (text "maximumStateAgeMs") age positive),
    )

-- A created adapter has the compiled rules and a positive maximum age; it answers only for
-- the principal of the request, from a state that the loader answered for that principal, whose own
-- principal it is and whose age by the clock is at most the maximum; what it answers is the translation
-- of the facts of that state.
pub resolve_entitlements-IsFresh :
    (rules_value maximum : Value) (rules : List CompiledRule) (maximum_age : ℕ)
    (load : Text → Checked Value) (clock request : Value) (entitlements : List Text)
    → create_stripe_entitlement_adapter rules_value maximum ≡ ok (rules, maximum_age)
    → resolve_entitlements rules maximum_age load clock request ≡ ok entitlements
    → (compile_rules rules_value ≡ ok rules)
      × (1 ≤ maximum_age)
      × (principal : Text) × (state facts : Value) × (current : ℕ)
      × (read_stripe_entitlement_request request ≡ ok principal)
      × (load principal ≡ ok state)
      × (require_nonnegative_safe_integer clock (text "trustedClock result") ≡ ok current)
      × IsFresh state principal current maximum_age
      × (field_as ok state (text "facts") ≡ ok facts)
      × (translate rules facts ≡ ok entitlements)
unfolding resolve_entitlements
resolve_entitlements-IsFresh rules_value maximum rules maximum_age load clock request entitlements
      created h =
    let (compiled, positive) = created_from rules_value maximum rules maximum_age created in
    let (principal, requested, more) = >>=-eq-ok (read_stripe_entitlement_request request) _ h in
    let (state, loaded, more) = >>=-eq-ok (load principal) _ more in
    let (current, read, more) =
      >>=-eq-ok (require_nonnegative_safe_integer clock (text "trustedClock result")) _ more in
    let (facts, taken, last) =
      >>=-eq-ok (read_persisted_entitlement_state state principal current maximum_age) _ more in
    let (fresh, has_facts) = state-IsFresh state principal current maximum_age facts taken in
    (
      compiled, positive, principal, state, facts, current, requested, loaded, read, fresh,
      has_facts, last,
    )
