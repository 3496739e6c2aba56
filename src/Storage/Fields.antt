-- ===== src/Storage/Fields.antt =====
-- packages/storage/src/collections.ts: reading the fields of a flat stored record.
-- A stored record is an object's own properties; every decoding error is the same StorageError.
use authorization_core.Common.{
  ℕ, Bool, true, false, Option, none, some, List, [], ◌∷◌, ◌++◌, ◌==◌, Result, ok, thrown, ◌>>=◌,
  ◌>>◌, guard, length, ◌&&◌,
}
use authorization_core.Text.{Text, text, includes}
use authorization_core.Js.{
  Value, null, string, number, PropertyKey, name, symbol, Properties, end, property, Descriptor,
  data_property, own, safe_nonneg,
}

-- `StorageError` of a corrupt record
pub data Malformed : Type 0 where
  malformed : Malformed

abbrev pub StoredRecord : Type 0
StoredRecord = Properties

-- `readOwnValue`
unfoldable pub own_value : Option Descriptor → Result Malformed Value
own_value (some (data_property v e)) = ok v
own_value _ = thrown malformed

unfoldable pub read_own_value : StoredRecord → Text → Result Malformed Value
unfolding own_value
read_own_value r field = own_value (own r field)

-- `Reflect.ownKeys`
unfoldable pub own_keys : Properties → List PropertyKey
own_keys end = []
own_keys (property k d ps) = k ∷ own_keys ps

unfoldable pub all_in : List PropertyKey → List Text → Bool
all_in [] expected = true
all_in (name k ∷ ks) expected = includes expected k && all_in ks expected
all_in (symbol n ∷ ks) expected = false

-- The last loop of `assertExactFields`.
unfoldable pub read_each : StoredRecord → List Text → Result Malformed (Unit {0})
unfolding read_own_value
read_each r [] = ok tt
read_each r (f ∷ fs) = do _ ← read_own_value r f; read_each r fs

-- `assertExactFields`
unfoldable pub assert_exact_fields : StoredRecord → List Text → Result Malformed (Unit {0})
unfolding own_keys all_in read_each
assert_exact_fields r expected = do
  guard (length (own_keys r) == length expected && all_in (own_keys r) expected) malformed
  read_each r expected

-- `readString`
unfoldable pub as_text : Value → Result Malformed Text
as_text (string s) = ok s
as_text _ = thrown malformed

unfoldable pub read_string : StoredRecord → Text → Result Malformed Text
unfolding read_own_value as_text
read_string r field = do v ← read_own_value r field; as_text v

-- `readNullableString`
unfoldable pub as_nullable : Value → Result Malformed (Option Text)
as_nullable null = ok none
as_nullable (string s) = ok (some s)
as_nullable _ = thrown malformed

unfoldable pub read_nullable_string : StoredRecord → Text → Result Malformed (Option Text)
unfolding read_own_value as_nullable
read_nullable_string r field = do v ← read_own_value r field; as_nullable v

-- `readNonNegativeSafeInteger`
unfoldable pub or_malformed : Option ℕ → Result Malformed ℕ
or_malformed none = thrown malformed
or_malformed (some n) = ok n

unfoldable pub as_safe_nonneg : Value → Result Malformed ℕ
unfolding or_malformed
as_safe_nonneg (number n) = or_malformed (safe_nonneg n)
as_safe_nonneg _ = thrown malformed

unfoldable pub read_nonneg_safe_integer : StoredRecord → Text → Result Malformed ℕ
unfolding read_own_value as_safe_nonneg
read_nonneg_safe_integer r field = do v ← read_own_value r field; as_safe_nonneg v

-- `requireNull`
unfoldable pub is_null : Value → Bool
is_null null = true
is_null _ = false

unfoldable pub require_null : StoredRecord → Text → Result Malformed (Unit {0})
unfolding read_own_value is_null
require_null r field = do v ← read_own_value r field; guard (is_null v) malformed

abbrev pub field : Text → Value → Properties → Properties
field k v ps = property (name k) (data_property v true) ps

abbrev pub nullable : Option Text → Value
nullable none = null
nullable (some s) = string s

abbrev location_fields : List Text
location_fields =
    text "applicationId" ∷ text "principalId" ∷ text "scopeKind" ∷ text "organizationId" ∷ []

abbrev pub assignment_fields : List Text
assignment_fields =
    text "kind"
    ∷ (location_fields
        ++ (text "assignmentId"
            ∷ text "role"
            ∷ text "status"
            ∷ text "grantedAtEpochMs"
            ∷ text "grantedByKind"
            ∷ text "grantedByPrincipalId"
            ∷ text "grantedBySystemId"
            ∷ text "revokedAtEpochMs"
            ∷ text "revokedByKind"
            ∷ text "revokedByPrincipalId"
            ∷ text "revokedBySystemId"
            ∷ text "reason"
            ∷ text "grantEventId"
            ∷ text "revokeEventId"
            ∷ []))

abbrev pub tuple_fields : List Text
tuple_fields = text "kind" ∷ (location_fields ++ (text "role" ∷ text "activeAssignmentId" ∷ []))

abbrev pub audit_fields : List Text
audit_fields =
    text "kind" ∷ (location_fields ++ (text "assignmentId" ∷ text "sequence" ∷ text "eventId" ∷ []))

abbrev pub pointer_fields : List Text
pointer_fields = location_fields ++ (text "assignmentId" ∷ text "role" ∷ [])

abbrev pub identity_link_fields : List Text
identity_link_fields =
    text "applicationId" ∷ text "issuer" ∷ text "subject" ∷ text "principalId" ∷ []
