-- ===== src/Stripe/Tests.antt =====
-- Examples of packages/stripe/src/index.ts: a subscription to one price, fresh and stale, and a repeated rule.
use authorization_core.Common.{ℕ, true, List, [], ◌∷◌, ◌≡◌, refl, ok, thrown, any, ◌≤◌}
use authorization_core.Text.{Text, text, includes, sort, distinct}
use authorization_core.Text.Sorting.{IsSorted}
use authorization_core.Js.{
  Value, string, number, nonneg, array, object, slot, nil, end, property, name, data_property, own,
  is_blank, decimal, safe_nonneg, slots_length,
}
use authorization_core.Core.Typed.{array_of}
use authorization_core.Stripe.{
  Checked, Kind, price, CompiledRule, duplicate_identifier, exceeds_the_maximum_age, compile_rules,
  translate, read_active_facts, resolve_entitlements, read_stripe_entitlement_request,
  require_nonnegative_safe_integer, read_dense_array, compile_rule, require_plain_record,
  require_exact_fields, require_own_enumerable_data_value, require_nonblank_string,
  read_string_array, granted_by, namespace_get, same_kind, create_stripe_entitlement_adapter,
  require_positive_safe_integer, read_persisted_entitlement_state,
}
use authorization_core.Stripe.Rules.{gives, translate_grants}
use authorization_core.Stripe.Freshness.{IsFresh, field_as, resolve_entitlements-IsFresh}

abbrev pro_rule : Value
pro_rule = object true (
    property (name (text "kind")) (data_property (string (text "price")) true) (
      property (name (text "id")) (data_property (string (text "p1")) true) (
        property (name (text "entitlements"))
          (data_property (array_of (text "pro" ∷ text "base" ∷ text "pro" ∷ [])) true) end)))

abbrev one_rule : Value
one_rule = array true (slot (data_property pro_rule true) nil) end

abbrev one_compiled : List CompiledRule
one_compiled =
    record {
      kind = price;
      id = text "p1";
      entitlements = text "pro" ∷ text "base" ∷ text "pro" ∷ [];
    }
    ∷ []

one_compiles : compile_rules one_rule ≡ ok one_compiled
unfolding compile_rules own is_blank decimal includes read_dense_array slots_length compile_rule
    require_plain_record require_exact_fields require_own_enumerable_data_value
    require_nonblank_string read_string_array
one_compiles = refl

-- A rule that is given twice is refused.
rule_repeated :
    compile_rules
      (array true (slot (data_property pro_rule true) (slot (data_property pro_rule true) nil)) end)
    ≡ thrown (record { label = text "rules"; problem = duplicate_identifier })
unfolding compile_rules own is_blank decimal includes read_dense_array slots_length compile_rule
    require_plain_record require_exact_fields require_own_enumerable_data_value
    require_nonblank_string read_string_array
rule_repeated = refl

abbrev subscribed : Value
subscribed = object true (
    property (name (text "mode")) (data_property (string (text "price")) true) (
      property (name (text "activePriceIds"))
        (data_property (array_of (text "p1" ∷ text "p2" ∷ [])) true) end))

subscribed_translates : translate one_compiled subscribed ≡ ok (text "base" ∷ text "pro" ∷ [])
unfolding translate read_active_facts granted_by namespace_get same_kind own is_blank decimal
    includes read_dense_array slots_length require_plain_record require_exact_fields
    require_own_enumerable_data_value require_nonblank_string read_string_array sort distinct
subscribed_translates = refl

translate_grants_example :
    (kind : Kind) × (ids : List Text) × (read_active_facts subscribed ≡ ok (kind, ids))
    × IsSorted (text "base" ∷ text "pro" ∷ [])
    × ((p : Text)
        → includes (text "base" ∷ text "pro" ∷ []) p ≡ any (λ id. gives one_compiled kind id p) ids)
translate_grants_example =
    translate_grants one_rule subscribed one_compiled (text "base" ∷ text "pro" ∷ []) one_compiles
      subscribed_translates

abbrev stored_state : Value
stored_state = object true (
    property (name (text "principalId")) (data_property (string (text "ada")) true) (
      property (name (text "refreshedAtEpochMs")) (data_property (number (nonneg 1000)) true)
        (property (name (text "facts")) (data_property subscribed true) end)))

abbrev load_state : Text → Checked Value
load_state principal = ok stored_state

abbrev ada_request : Value
ada_request =
    object true
      (property (name (text "principalId")) (data_property (string (text "ada")) true) end)

resolved_in_time :
    resolve_entitlements one_compiled 500 load_state (number (nonneg 1500)) ada_request
    ≡ ok (text "base" ∷ text "pro" ∷ [])
unfolding resolve_entitlements read_stripe_entitlement_request read_persisted_entitlement_state
    require_nonnegative_safe_integer safe_nonneg translate read_active_facts granted_by
    namespace_get same_kind own is_blank decimal includes read_dense_array slots_length
    require_plain_record require_exact_fields require_own_enumerable_data_value
    require_nonblank_string read_string_array sort distinct
resolved_in_time = refl

-- One millisecond later the state is too old.
resolved_too_late :
    resolve_entitlements one_compiled 500 load_state (number (nonneg 1501)) ada_request
    ≡ thrown (record { label = text "persisted state"; problem = exceeds_the_maximum_age })
unfolding resolve_entitlements read_stripe_entitlement_request read_persisted_entitlement_state
    require_nonnegative_safe_integer safe_nonneg translate read_active_facts granted_by
    namespace_get same_kind own is_blank decimal includes read_dense_array slots_length
    require_plain_record require_exact_fields require_own_enumerable_data_value
    require_nonblank_string read_string_array
resolved_too_late = refl

one_created :
    create_stripe_entitlement_adapter one_rule (number (nonneg 500)) ≡ ok (one_compiled, 500)
unfolding create_stripe_entitlement_adapter require_positive_safe_integer
    require_nonnegative_safe_integer safe_nonneg
one_created = rw one_compiles

resolve_entitlements-IsFresh_example :
    (compile_rules one_rule ≡ ok one_compiled)
    × (1 ≤ 500)
    × (principal : Text) × (state facts : Value) × (current : ℕ) × (read_stripe_entitlement_request
          ada_request
        ≡ ok principal)
    × (load_state principal ≡ ok state)
    × (require_nonnegative_safe_integer (number (nonneg 1500)) (text "trustedClock result")
        ≡ ok current)
    × IsFresh state principal current 500
    × (field_as ok state (text "facts") ≡ ok facts)
    × (translate one_compiled facts ≡ ok (text "base" ∷ text "pro" ∷ []))
resolve_entitlements-IsFresh_example =
    resolve_entitlements-IsFresh one_rule (number (nonneg 500)) one_compiled 500 load_state
      (number (nonneg 1500)) ada_request (text "base" ∷ text "pro" ∷ []) one_created
      resolved_in_time
