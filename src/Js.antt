-- ===== src/Js.antt =====
-- The JavaScript values that reach the library from untyped callers: own properties with their
-- descriptors, arrays with holes, prototypes as far as the code asks for them. A Proxy is left out.
pub mod Blanks
use mathlib.Core.List.{reverse, List}
use authorization_core.Common.{
  ℕ, suc, zero, ◌+◌, ◌-◌, ◌^◌, Bool, true, false, ◌||◌, ◌&&◌, Option, none, some, [], ◌∷◌, ◌==◌,
  leb, if◌then◌else◌, ◌/◌, ◌%◌, ltb, ◌≡◌, refl, is_nil,
}
use authorization_core.Text.{Text, text, same, includes}

-- A number: 0, 1, 2, …; -1, -2, … (`negative n` is -(n + 1)); or one that is no integer, which is a
-- fraction, an infinity or NaN. The code asks of these only that they are no integers.
pub data Number : Type 0 where
  nonneg negative other : ℕ → Number

abbrev pub max_safe_integer : ℕ
max_safe_integer = 2 ^ 53 - 1

-- `Number.isSafeInteger(value) && value >= 0`, with the integer
abbrev pub safe_nonneg : Number → Option ℕ
safe_nonneg (nonneg n) = if leb n max_safe_integer then some n else none
safe_nonneg (negative n) = none
safe_nonneg (other n) = none

pub data PropertyKey : Type 0 where
  name : Text → PropertyKey
  symbol : ℕ → PropertyKey

mutual
  pub data Value : Type 0 where
    undefined null : Value
    boolean : Bool → Value
    number : Number → Value
    string : Text → Value
    -- a function, a symbol or a bigint
    opaque : Value
    -- whether the prototype is `Array.prototype`, the elements, the other own properties
    array : Bool → Slots → Properties → Value
    -- whether the prototype is `Object.prototype` or null, the own properties
    object : Bool → Properties → Value

  pub data Slots : Type 0 where
    nil : Slots
    slot : Descriptor → Slots → Slots
    hole : Slots → Slots

  pub data Properties : Type 0 where
    end : Properties
    property : PropertyKey → Descriptor → Properties → Properties

  -- the value, and whether the property is enumerable
  pub data Descriptor : Type 0 where
    data_property : Value → Bool → Descriptor
    accessor : Bool → Descriptor

-- `Object.getOwnPropertyDescriptor(value, field)` of an object with these properties
unfoldable pub own : Properties → Text → Option Descriptor
unfolding same
own end field = none
own (property (name k) d ps) field =
    let rest = own ps field in if same k field then some d else rest
own (property (symbol n) d ps) field = own ps field

-- `Reflect.ownKeys(record).length`
unfoldable pub own_keys_count : Properties → ℕ
own_keys_count end = 0
own_keys_count (property k d ps) = suc (own_keys_count ps)

-- Whether each own key is an expected field.
unfoldable pub keys_within : Properties → List Text → Bool
unfolding includes
keys_within end expected = true
keys_within (property (name k) d ps) expected = includes expected k && keys_within ps expected
keys_within (property (symbol n) d ps) expected = false

-- the slot at an index, counted from `at`, that is written as `field`
slot_named : (ℕ → Text) → ℕ → Slots → Text → Option Descriptor
slot_named write at nil field = none
slot_named write at (slot d ss) field =
    let rest = slot_named write (suc at) ss field in if same (write at) field then some d else rest
slot_named write at (hole ss) field = slot_named write (suc at) ss field

unfoldable pub slots_length : Slots → ℕ
slots_length nil = 0
slots_length (slot d ss) = suc (slots_length ss)
slots_length (hole ss) = suc (slots_length ss)

-- `String(n)`: the decimal digits. The number falls by a factor of ten, so `suc n` rounds are enough.
decimal_from : ℕ → ℕ → Text → Text
decimal_from zero n tail = tail
decimal_from (suc rounds) n tail =
    let rest = decimal_from rounds (n / 10) ((n % 10 + 48) ∷ tail) in
    if ltb n 10 then (n + 48) ∷ tail else rest

unfoldable pub decimal : ℕ → Text
unfolding decimal_from
decimal n = decimal_from (suc n) n []

-- `Object.getOwnPropertyDescriptor(value, field)` of an array or an object; other values have none
unfoldable pub own_of : Value → Text → Option Descriptor
unfolding own slot_named decimal slots_length
own_of (object p ps) field = own ps field
own_of (array p ss ps) field =
    if same field (text "length")
    then some (data_property (number (nonneg (slots_length ss))) false)
    else elim (slot_named decimal 0 ss field) [ none ↦ own ps field | some d ↦ some d ]
own_of _ field = none

-- White space and line terminators, which `trim` removes.
unfoldable pub is_space : ℕ → Bool
is_space c =
    leb 9 c && leb c 13
    || c == 32
    || c == 0xA0
    || c == 0x1680
    || leb 0x2000 c && leb c 0x200A
    || c == 0x2028
    || c == 0x2029
    || c == 0x202F
    || c == 0x205F
    || c == 0x3000
    || c == 0xFEFF

trim_start : Text → Text
trim_start [] = []
trim_start (c ∷ s) = let rest = trim_start s in if is_space c then rest else c ∷ s

-- `value.trim()`
unfoldable pub trim : Text → Text
unfolding trim_start is_space
trim s = reverse (trim_start (reverse (trim_start s)))

-- `value.trim().length === 0`
unfoldable pub is_blank : Text → Bool
unfolding trim
is_blank s = is_nil (trim s)

own_of_array :
    own_of (array true (hole (slot (data_property null true) nil)) end) (text "1")
    ≡ some (data_property null true)
unfolding own_of
own_of_array = refl

blank_tests :
    (is_blank (text "  ") ≡ true) × (is_blank (text " a ") ≡ false) × (decimal 120 ≡ text "120")
unfolding is_blank decimal
blank_tests = (refl, refl, refl)
