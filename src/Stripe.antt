-- ===== src/Stripe.antt =====
-- packages/stripe/src/index.ts: the translator from trusted Stripe facts to entitlements, and the adapter
-- that reads the facts from the host's persistence. What the loader and the clock answer is given; a
-- Proxy, which the code rejects, is no value of the model.
pub mod Freshness
pub mod Rules
mod Tests
use authorization_core.Common.{
  ℕ, suc, ◌+◌, ◌-◌, Bool, true, false, not, ◌&&◌, ◌||◌, Option, none, some, List, [], ◌∷◌, ◌++◌,
  ◌==◌, leb, if◌then◌else◌, length, Result, thrown, ok, guard, ◌>>=◌, ◌>>◌,
}
use authorization_core.Text.{Text, text, same, includes, sort, distinct}
use authorization_core.Js.{
  own_keys_count, keys_within, Value, string, number, Number, array, object, Slots, nil, slot, hole,
  Properties, end, property, name, symbol, Descriptor, data_property, accessor, own, decimal,
  slots_length, safe_nonneg, is_blank,
}

-- What a TypeError says of the field in its label.
pub data Problem : Type 0 where
  must_be_a_plain_object must_be_own_enumerable_data must_have_exact_fields must_be_nonblank
        must_be_a_nonnegative_safe_integer must_be_positive must_be_a_plain_array must_be_dense
        must_be_feature_or_price duplicate_identifier must_match_the_principal
        must_not_be_future_dated exceeds_the_maximum_age :
      Problem

pub record TypeError : Type 0 where
  pub label : Text
  pub problem : Problem

abbrev pub Checked : Type 0 → Type 0
Checked A = Result TypeError A

pub refuse : {A : Type 0} → Text → Problem → Checked A
refuse label problem = thrown (record { label = label; problem = problem })

pub refused_unless : Bool → Text → Problem → Checked (Unit {0})
refused_unless passed label problem = guard passed (record { label = label; problem = problem })

-- `describeField`
pub describe_field : Text → Text → Text
describe_field label field = label ++ (b'.' ∷ field)

-- `requirePlainRecord`
unfoldable pub require_plain_record : Value → Text → Checked Properties
unfolding refuse
require_plain_record (object true ps) label = ok ps
require_plain_record _ label = refuse label must_be_a_plain_object

enumerable_data : Option Descriptor → Text → Checked Value
unfolding refuse
enumerable_data (some (data_property v true)) label = ok v
enumerable_data _ label = refuse label must_be_own_enumerable_data

-- `requireOwnEnumerableDataValue`
unfoldable pub require_own_enumerable_data_value : Properties → Text → Text → Checked Value
unfolding enumerable_data describe_field
require_own_enumerable_data_value ps field label =
    enumerable_data (own ps field) (describe_field label field)

-- `requireExactFields`
unfoldable pub require_exact_fields : Properties → List Text → Text → Checked (Unit {0})
unfolding own_keys_count keys_within refused_unless
require_exact_fields ps expected label =
    refused_unless (own_keys_count ps == length expected && keys_within ps expected) label
      must_have_exact_fields

-- `requireNonblankString`
unfoldable pub require_nonblank_string : Value → Text → Checked Text
unfolding refused_unless refuse
require_nonblank_string (string s) label =
    if is_blank s then refuse label must_be_nonblank else ok s
require_nonblank_string _ label = refuse label must_be_nonblank

-- `requireNonnegativeSafeInteger`
unfoldable pub require_nonnegative_safe_integer : Value → Text → Checked ℕ
unfolding refuse
require_nonnegative_safe_integer (number n) label = elim (safe_nonneg n) [
  | none ↦ refuse label must_be_a_nonnegative_safe_integer
  | some i ↦ ok i
]
require_nonnegative_safe_integer _ label = refuse label must_be_a_nonnegative_safe_integer

-- `requirePositiveSafeInteger`
unfoldable pub require_positive_safe_integer : Value → Text → Checked ℕ
unfolding refused_unless
require_positive_safe_integer value label = do
  integer ← require_nonnegative_safe_integer value label
  refused_unless (leb 1 integer) label must_be_positive
  ok integer

-- The own keys of an array that are indices.
filled_count : Slots → ℕ
filled_count nil = 0
filled_count (slot d ss) = suc (filled_count ss)
filled_count (hole ss) = filled_count ss

indexed : Text → ℕ → Text
indexed label at = label ++ (b'[' ∷ (decimal at ++ (b']' ∷ [])))

-- The elements, from an index on.
dense_from : Text → ℕ → Slots → Checked (List Value)
unfolding enumerable_data indexed
dense_from label at nil = ok []
dense_from label at (slot d ss) = do
  value ← enumerable_data (some d) (indexed label at)
  rest ← dense_from label (suc at) ss
  ok (value ∷ rest)
dense_from label at (hole ss) = enumerable_data none (indexed label at) >>= λ _. ok []

-- `readDenseArray`
unfoldable pub read_dense_array : Value → Text → Checked (List Value)
unfolding refuse refused_unless filled_count own_keys_count dense_from
read_dense_array (array true ss ps) label = do
  refused_unless (filled_count ss + own_keys_count ps == slots_length ss) label must_be_dense
  dense_from label 0 ss
read_dense_array _ label = refuse label must_be_a_plain_array

strings_from : Text → ℕ → List Value → Checked (List Text)
unfolding indexed
strings_from label at [] = ok []
strings_from label at (value ∷ values) = do
  item ← require_nonblank_string value (indexed label at)
  rest ← strings_from label (suc at) values
  ok (item ∷ rest)

-- `readStringArray`
unfoldable pub read_string_array : Value → Text → Checked (List Text)
unfolding read_dense_array strings_from
read_string_array value label = do
  values ← read_dense_array value label
  strings_from label 0 values

pub data Kind : Type 0 where
  feature price : Kind

unfoldable pub same_kind : Kind → Kind → Bool
same_kind feature feature = true
same_kind feature price = false
same_kind price feature = false
same_kind price price = true

pub record CompiledRule : Type 0 where
  pub kind : Kind
  pub id : Text
  pub entitlements : List Text

pub kind_of : Value → Text → Checked Kind
unfolding refuse
kind_of (string s) label =
    if same s (text "feature")
    then ok feature
    else (if same s (text "price") then ok price else refuse label must_be_feature_or_price)
kind_of _ label = refuse label must_be_feature_or_price

-- `compileRule`
unfoldable pub compile_rule : Value → ℕ → Checked CompiledRule
unfolding indexed describe_field kind_of
compile_rule value index =
    let label = indexed (text "rules") index in
    do
      ps ← require_plain_record value label
      require_exact_fields ps (text "kind" ∷ text "id" ∷ text "entitlements" ∷ []) label
      named ← require_own_enumerable_data_value ps (text "kind") label
      kind ← kind_of named (describe_field label (text "kind"))
      id_value ← require_own_enumerable_data_value ps (text "id") label
      id ← require_nonblank_string id_value (describe_field label (text "id"))
      list ← require_own_enumerable_data_value ps (text "entitlements") label
      entitlements ← read_string_array list (describe_field label (text "entitlements"))
      ok (record { kind = kind; id = id; entitlements = entitlements })

compile_from : ℕ → List Value → Checked (List CompiledRule)
compile_from index [] = ok []
compile_from index (value ∷ values) = do
  rule ← compile_rule value index
  rest ← compile_from (suc index) values
  ok (rule ∷ rest)

-- The identifiers of a kind that were seen so far.
unfoldable pub ids_of : Kind → List Text → List Text → List Text
ids_of feature feature_ids price_ids = feature_ids
ids_of price feature_ids price_ids = price_ids

-- The loop of `compileRules` that looks for a repeated identifier.
unfoldable pub check_duplicates : List Text → List Text → List CompiledRule → Checked (Unit {0})
unfolding refused_unless ids_of
check_duplicates feature_ids price_ids [] = ok tt
check_duplicates feature_ids price_ids (rule ∷ rules) = do
  refused_unless (not (includes (ids_of rule.kind feature_ids price_ids) rule.id)) (text "rules")
      duplicate_identifier
  elim rule.kind [
    | feature ↦ check_duplicates (rule.id ∷ feature_ids) price_ids rules
    | price ↦ check_duplicates feature_ids (rule.id ∷ price_ids) rules
  ]

-- `compileRules`
unfoldable pub compile_rules : Value → Checked (List CompiledRule)
unfolding compile_from check_duplicates
compile_rules rules = do
  supplied ← read_dense_array rules (text "rules")
  compiled ← compile_from 0 supplied
  check_duplicates [] [] compiled
  ok compiled

-- `compileNamespace`: later rules replace earlier ones, as `set` does.
unfoldable pub namespace_get : List CompiledRule → Kind → Text → Option (List Text)
unfolding same_kind
namespace_get [] kind id = none
namespace_get (rule ∷ rules) kind id = elim (namespace_get rules kind id) [
  | some entitlements ↦ some entitlements
  | none ↦ if same_kind rule.kind kind && same rule.id id then some rule.entitlements else none
]

active_field : Kind → Text
active_field feature = text "activeFeatureIds"
active_field price = text "activePriceIds"

-- `readActiveFacts`
unfoldable pub read_active_facts : Value → Checked (Kind × List Text)
unfolding kind_of active_field
read_active_facts facts = do
  ps ← require_plain_record facts (text "facts")
  mode ← require_own_enumerable_data_value ps (text "mode") (text "facts")
  kind ← kind_of mode (text "facts.mode")
  require_exact_fields ps (text "mode" ∷ active_field kind ∷ []) (text "facts")
  list ← require_own_enumerable_data_value ps (active_field kind) (text "facts")
  ids ← read_string_array list (describe_field (text "facts") (active_field kind))
  ok (kind, ids)

pub or_nothing : Option (List Text) → List Text
or_nothing none = []
or_nothing (some entitlements) = entitlements

-- What the active identifiers grant, in the order of the additions to the set.
unfoldable pub granted_by : List CompiledRule → Kind → List Text → List Text
unfolding or_nothing
granted_by rules kind [] = []
granted_by rules kind (id ∷ ids) =
    or_nothing (namespace_get rules kind id) ++ granted_by rules kind ids

-- The translator of `createStripeEntitlementTranslator`, for compiled rules
unfoldable pub translate : List CompiledRule → Value → Checked (List Text)
unfolding granted_by
translate rules facts = do
  active ← read_active_facts facts
  ok (sort (distinct (granted_by rules active.0 active.1)))

-- `readStripeEntitlementRequest`
unfoldable pub read_stripe_entitlement_request : Value → Checked Text
read_stripe_entitlement_request request = do
  ps ← require_plain_record request (text "request")
  require_exact_fields ps (text "principalId" ∷ []) (text "request")
  value ← require_own_enumerable_data_value ps (text "principalId") (text "request")
  require_nonblank_string value (text "request.principalId")

-- `readPersistedEntitlementState`
unfoldable pub read_persisted_entitlement_state : Value → Text → ℕ → ℕ → Checked Value
unfolding refused_unless
read_persisted_entitlement_state state requested current maximum_age = do
  ps ← require_plain_record state (text "persisted state")
  require_exact_fields ps (text "principalId" ∷ text "refreshedAtEpochMs" ∷ text "facts" ∷ [])
      (text "persisted state")
  principal_value ←
      require_own_enumerable_data_value ps (text "principalId") (text "persisted state")
  persisted ← require_nonblank_string principal_value (text "persisted state.principalId")
  refused_unless (same persisted requested) (text "persisted state principalId")
      must_match_the_principal
  time ← require_own_enumerable_data_value ps (text "refreshedAtEpochMs") (text "persisted state")
  refreshed ← require_nonnegative_safe_integer time (text "persisted state.refreshedAtEpochMs")
  refused_unless (leb refreshed current) (text "persisted state.refreshedAtEpochMs")
      must_not_be_future_dated
  refused_unless (leb (current - refreshed) maximum_age) (text "persisted state")
      exceeds_the_maximum_age
  require_own_enumerable_data_value ps (text "facts") (text "persisted state")

-- `resolveEntitlements` of `createStripeEntitlementAdapter`: `load` is what the loader answers for a
-- principal, `clock` what the trusted clock returns.
unfoldable pub resolve_entitlements :
    List CompiledRule → ℕ → (Text → Checked Value) → Value → Value → Checked (List Text)
resolve_entitlements rules maximum_age load clock request = do
  principal ← read_stripe_entitlement_request request
  state ← load principal
  current ← require_nonnegative_safe_integer clock (text "trustedClock result")
  facts ← read_persisted_entitlement_state state principal current maximum_age
  translate rules facts

-- What `createStripeEntitlementAdapter` compiles: the maximum age first, then the rules.
unfoldable pub create_stripe_entitlement_adapter : Value → Value → Checked (List CompiledRule × ℕ)
create_stripe_entitlement_adapter rules maximum_state_age_ms = do
  maximum_age ← require_positive_safe_integer maximum_state_age_ms (text "maximumStateAgeMs")
  compiled ← compile_rules rules
  ok (compiled, maximum_age)
