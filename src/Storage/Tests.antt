-- ===== src/Storage/Tests.antt =====
-- Examples of the records and keys of packages/storage.
use authorization_core.Common.{none, some, ◌∷◌, ◌≡◌, refl, ok, arith, []}
use authorization_core.Text.{text}
use authorization_core.Contracts.{
  RoleAssignment, active, application, organization, principal, revoked, system,
}
use mathlib.Core.List.{Perm}
use authorization_core.Storage.RoleStore.{sort_assignments}
use authorization_core.Storage.RoleStore.Ordering.{IsOrdered, sort_assignments-IsOrdered}
use authorization_core.Storage.Keys.{encode_segment, RecordLocation}
use authorization_core.Storage.Keys.Injective.{
  record_partition_injective, encode_segment_injective, IsEnd,
}
use authorization_core.Storage.Keys.Tables.{
  record_key_injective, IsSameRecord, key_of_pointer_injective, key_of_holder_injective,
  key_of_link_injective,
}
use authorization_core.Storage.Records.{StoredRoleHolder}
use authorization_core.Storage.Records.{
  AuthorizationRecord, assignment, StoredAssignmentPointer, StoredIdentityLink,
}
use authorization_core.Storage.Codec.{
  encode, decode, encode_pointer, decode_pointer, encode_link, decode_link,
}
use authorization_core.Storage.Codec.RoundTrip.{
  decode-encode, decode_pointer-encode_pointer, decode_link-encode_link,
}

-- An organization whose name has the separator and the escape character.
abbrev pub at_acme : RecordLocation
at_acme = record {
  application_id = text "shop";
  principal_id = text "ada";
  scope = organization (text "acme|%");
}

record_partition_injective_example : at_acme ≡ at_acme
record_partition_injective_example = record_partition_injective at_acme at_acme refl

encode_segment_injective_example :
    (text "a|b" ≡ text "a|b") × ((b'|' ∷ text "c") ≡ (b'|' ∷ text "c"))
unfolding IsEnd
encode_segment_injective_example =
    encode_segment_injective (text "a|b") (text "a|b") (b'|' ∷ text "c") (b'|' ∷ text "c") refl refl
      refl

abbrev revoked_editor : AuthorizationRecord
revoked_editor = assignment (record {
  location = at_acme;
  assignment =
      revoked
        (record {
          id = text "ra-1";
          principal_id = text "ada";
          role = text "editor";
          scope = organization (text "acme|%");
          granted_by = system (text "seed");
          granted_at_epoch_ms = 5;
        })
        (record { revoked_by = principal (text "bob"); revoked_at_epoch_ms = 9; reason = none });
  grant_event_id = text "e-1";
  revoke_event_id = some (text "e-2");
})

decode-encode_example : decode (encode revoked_editor) ≡ ok revoked_editor
decode-encode_example =
    decode-encode revoked_editor (refl, refl, (omega arith, omega arith, (text "e-2", refl)))

abbrev pointer_of_editor : StoredAssignmentPointer
pointer_of_editor = record { location = at_acme; assignment_id = text "ra-1"; role = text "editor" }

decode_pointer-encode_pointer_example :
    decode_pointer (encode_pointer pointer_of_editor) ≡ ok pointer_of_editor
decode_pointer-encode_pointer_example = decode_pointer-encode_pointer pointer_of_editor

abbrev link_of_ada : StoredIdentityLink
link_of_ada = record {
  application_id = text "shop";
  link = record {
    key = record { issuer = text "https://id.example"; subject = text "s-1" };
    principal_id = text "ada";
  };
}

decode_link-encode_link_example : decode_link (encode_link link_of_ada) ≡ ok link_of_ada
decode_link-encode_link_example = decode_link-encode_link link_of_ada

record_key_injective_example : IsSameRecord revoked_editor revoked_editor
record_key_injective_example = record_key_injective revoked_editor revoked_editor tt tt refl

key_of_pointer_injective_example : (text "shop" ≡ text "shop") × (text "ra-1" ≡ text "ra-1")
key_of_pointer_injective_example = key_of_pointer_injective pointer_of_editor pointer_of_editor refl

abbrev holder_of_editor : StoredRoleHolder
holder_of_editor = record { location = at_acme; assignment_id = text "ra-1"; role = text "editor" }

key_of_holder_injective_example :
    (text "shop" ≡ text "shop")
    × (text "editor" ≡ text "editor")
    × (organization (text "acme|%") ≡ organization (text "acme|%"))
    × (text "ra-1" ≡ text "ra-1")
key_of_holder_injective_example = key_of_holder_injective holder_of_editor holder_of_editor refl

key_of_link_injective_example :
    (text "shop" ≡ text "shop")
    × (text "https://id.example" ≡ text "https://id.example")
    × (text "s-1" ≡ text "s-1")
key_of_link_injective_example = key_of_link_injective link_of_ada link_of_ada refl

escape_test : encode_segment (text "a|b%") ≡ text "a%7Cb%25"
unfolding encode_segment
escape_test = refl

abbrev later_grant : RoleAssignment
later_grant = active (record {
  id = text "ra-2";
  principal_id = text "ada";
  role = text "reader";
  scope = application;
  granted_by = system (text "seed");
  granted_at_epoch_ms = 7;
})

abbrev earlier_grant : RoleAssignment
earlier_grant = active (record {
  id = text "ra-3";
  principal_id = text "ada";
  role = text "author";
  scope = application;
  granted_by = system (text "seed");
  granted_at_epoch_ms = 5;
})

sort_assignments-IsOrdered_example :
    IsOrdered (sort_assignments (later_grant ∷ earlier_grant ∷ []))
    × Perm (sort_assignments (later_grant ∷ earlier_grant ∷ [])) (later_grant ∷ earlier_grant ∷ [])
sort_assignments-IsOrdered_example = sort_assignments-IsOrdered (later_grant ∷ earlier_grant ∷ [])
