-- ===== src/Storage/Keys.antt =====
-- packages/storage/src/collections.ts: the keys of the stored records.
-- A storage key is a partition and a record id; both are strings that join escaped segments.
pub mod Injective
pub mod RecordIds
pub mod Tables
use authorization_core.Common.{
  ℕ, ◌+◌, ◌/◌, ◌%◌, Bool, true, false, ◌||◌, ◌&&◌, List, [], ◌∷◌, ◌++◌, ◌==◌, leb, ltb, ◌≡◌, refl,
  if◌then◌else◌,
}
use authorization_core.Text.{Text, text}
use authorization_core.Contracts.{RoleAssignmentScope, application, organization}

-- The characters of `KEY_ESCAPES`.
pub is_escaped : ℕ → Bool
is_escaped c =
    c == b'%'
    || c == b'|'
    || c == b'/'
    || c == b'\\'
    || c == b'#'
    || c == b'?'
    || leb c 0x1F
    || leb 0x7F c && leb c 0x9F

-- An upper-case hexadecimal digit.
pub hex_digit : ℕ → ℕ
hex_digit d = if ltb d 10 then d + 48 else d + 55

-- The replacement of one character: those escaped are below 256, so two digits hold them.
pub escape : ℕ → Text
unfolding hex_digit
escape c = b'%' ∷ hex_digit (c / 16) ∷ hex_digit (c % 16) ∷ []

-- `encodeSegment`
unfoldable pub encode_segment : Text → Text
unfolding is_escaped escape
encode_segment [] = []
encode_segment (c ∷ s) =
    let rest = encode_segment s in if is_escaped c then escape c ++ rest else c ∷ rest

-- `joinSegments`
unfoldable pub join_segments : List Text → Text
join_segments [] = []
join_segments (s ∷ []) = encode_segment s
join_segments (s ∷ t ∷ ss) = encode_segment s ++ (b'|' ∷ join_segments (t ∷ ss))

-- `scopeTag`
unfoldable pub scope_tag : RoleAssignmentScope → Text
scope_tag application = text "application"
scope_tag (organization id) = text "organization|" ++ encode_segment id

-- The application, principal and scope of a record, which are its partition: `RecordLocation`.
pub record RecordLocation : Type 0 where
  pub application_id : Text
  pub principal_id : Text
  pub scope : RoleAssignmentScope

-- `GRANT_SEQUENCE` and `REVOKE_SEQUENCE`
abbrev pub grant_sequence : ℕ
grant_sequence = 1

abbrev pub revoke_sequence : ℕ
revoke_sequence = 2

-- `recordPartition`
unfoldable pub record_partition : RecordLocation → Text
unfolding join_segments scope_tag
record_partition location =
    join_segments (location.application_id ∷ location.principal_id ∷ [])
    ++ (b'|' ∷ scope_tag location.scope)

-- `assignmentRecordId`
unfoldable pub assignment_record_id : Text → Text
assignment_record_id assignment_id = text "assignment|" ++ encode_segment assignment_id

-- `tupleRecordId`
unfoldable pub tuple_record_id : Text → Text
tuple_record_id role = text "tuple|" ++ encode_segment role

-- `String(sequence).padStart(4, "0")`; the sequences are 1 and 2, and one below 10000 has at most
-- four digits
abbrev four_digits : ℕ → Text
four_digits n = (n / 1000 % 10 + 48) ∷ (n / 100 % 10 + 48) ∷ (n / 10 % 10 + 48) ∷ (n % 10 + 48) ∷ []

-- `auditRecordId`, at a sequence below 10000
unfoldable pub audit_record_id : Text → ℕ → Text
audit_record_id assignment_id sequence =
    text "audit|" ++ (encode_segment assignment_id ++ (b'|' ∷ four_digits sequence))

-- storage-core's `EntityKey`
pub record EntityKey : Type 0 where
  pub partition : Text
  pub id : Text

-- `pointerPartition`
unfoldable pub pointer_partition : Text → Text
pointer_partition application_id = encode_segment application_id

-- `pointerKey`
unfoldable pub pointer_key : Text → Text → EntityKey
pointer_key application_id assignment_id = record {
  partition = pointer_partition application_id;
  id = encode_segment assignment_id;
}

-- `roleHolderPartition`
unfoldable pub role_holder_partition : Text → Text → RoleAssignmentScope → Text
unfolding join_segments scope_tag
role_holder_partition application_id role scope =
    join_segments (application_id ∷ role ∷ []) ++ (b'|' ∷ scope_tag scope)

-- `identityLinkKey`
pub identity_link_key : Text → Text → Text → EntityKey
identity_link_key application_id issuer subject = record {
  partition = encode_segment application_id;
  id = join_segments (issuer ∷ subject ∷ []);
}
