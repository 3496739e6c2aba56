-- ===== src/Storage/Keys/Tables.antt =====
-- The keys of the four collections of packages/storage/src/collections.ts: two values with one key
-- are about the same thing.
use authorization_core.Common.{ℕ, ◌<◌, ◌≡◌, [], ◌∷◌, ap, arith, refl, sym}
use mathlib.Core.List.{append-nil}
use authorization_core.Text.{Text}
use authorization_core.Contracts.{grant_of}
use authorization_core.Storage.Keys.{
  four_digits, pointer_partition, scope_tag, audit_record_id, pointer_key, role_holder_partition,
  identity_link_key,
}
use authorization_core.Storage.Keys.Injective.{
  IsEnd, encode_segment_injective, one_segment, two_segments, scope_tag_injective,
  record_partition_injective,
}
use authorization_core.Storage.Keys.RecordIds.{
  assignment_id_injective, tuple_id_injective, assignment_not_tuple, assignment_not_audit,
  tuple_not_audit,
}
use authorization_core.Storage.Records.{
  AuthorizationRecord, assignment, tuple, audit, StoredAssignmentPointer, StoredRoleHolder,
  StoredIdentityLink, record_key, key_of_pointer, key_of_holder, key_of_link,
}

digits_injective : (n m : ℕ) → n < 10000 → m < 10000 → four_digits n ≡ four_digits m → n ≡ m
digits_injective n m h k e = ground arith

audit_id_injective :
    (i j : Text) (n m : ℕ)
    → n < 10000
    → m < 10000
    → audit_record_id i n ≡ audit_record_id j m
    → (i ≡ j) × (n ≡ m)
unfolding audit_record_id IsEnd
audit_id_injective i j n m h k e =
    let (ids, rest) =
      encode_segment_injective i j (b'|' ∷ four_digits n) (b'|' ∷ four_digits m) refl refl (cc) in
    (ids, digits_injective n m h k (cc))

-- Two records about the same thing: one assignment, the guard of one role, or one audit position.
abbrev pub IsSameRecord : AuthorizationRecord → AuthorizationRecord → Type 0
IsSameRecord (assignment a) (assignment b) =
    (a.location ≡ b.location) × ((grant_of a.assignment).id ≡ (grant_of b.assignment).id)
IsSameRecord (tuple t) (tuple u) = (t.location ≡ u.location) × (t.role ≡ u.role)
IsSameRecord (audit a) (audit b) =
    (a.location ≡ b.location) × (a.assignment_id ≡ b.assignment_id) × (a.sequence ≡ b.sequence)
IsSameRecord _ _ = ⊥

-- An audit position that four digits hold.
abbrev pub HasDigits : AuthorizationRecord → Type 0
HasDigits (audit a) = a.sequence < 10000
HasDigits _ = Unit

-- Two authorization records with one key, whose audit sequences are below 10000, are of one kind, in
-- one location, and of one assignment, role or audit position.
pub record_key_injective :
    (r q : AuthorizationRecord)
    → HasDigits r
    → HasDigits q
    → record_key r ≡ record_key q
    → IsSameRecord r q
record_key_injective (assignment a) (assignment b) h k e = (
  record_partition_injective _ _ (ap (λ x. x.partition) e),
  assignment_id_injective _ _ (ap (λ x. x.id) e),
)
record_key_injective (assignment a) (tuple u) h k e = assignment_not_tuple _ _ (ap (λ x. x.id) e)
record_key_injective (assignment a) (audit b) h k e = assignment_not_audit _ _ _ (ap (λ x. x.id) e)
record_key_injective (tuple t) (assignment b) h k e =
    assignment_not_tuple _ _ (ap (λ x. x.id) (sym e))
record_key_injective (tuple t) (tuple u) h k e = (
  record_partition_injective _ _ (ap (λ x. x.partition) e),
  tuple_id_injective _ _ (ap (λ x. x.id) e),
)
record_key_injective (tuple t) (audit b) h k e = tuple_not_audit _ _ _ (ap (λ x. x.id) e)
record_key_injective (audit a) (assignment b) h k e =
    assignment_not_audit _ _ _ (ap (λ x. x.id) (sym e))
record_key_injective (audit a) (tuple u) h k e = tuple_not_audit _ _ _ (ap (λ x. x.id) (sym e))
record_key_injective (audit a) (audit b) h k e =
    let (ids, sequences) = audit_id_injective _ _ _ _ h k (ap (λ x. x.id) e) in
    (record_partition_injective _ _ (ap (λ x. x.partition) e), ids, sequences)

-- Two assignment pointers with one key are of one application and one assignment id.
pub key_of_pointer_injective :
    (p q : StoredAssignmentPointer)
    → key_of_pointer p ≡ key_of_pointer q
    → (p.location.application_id ≡ q.location.application_id) × (p.assignment_id ≡ q.assignment_id)
unfolding pointer_key pointer_partition
key_of_pointer_injective p q e =
    (one_segment _ _ (ap (λ x. x.partition) e), one_segment _ _ (ap (λ x. x.id) e))

-- Two role holders with one key are of one application, role, scope and assignment id.
pub key_of_holder_injective :
    (h k : StoredRoleHolder)
    → key_of_holder h ≡ key_of_holder k
    → (h.location.application_id ≡ k.location.application_id)
      × (h.role ≡ k.role)
      × (h.location.scope ≡ k.location.scope)
      × (h.assignment_id ≡ k.assignment_id)
unfolding role_holder_partition IsEnd
key_of_holder_injective h k e =
    let (apps, roles, scopes) =
      two_segments h.location.application_id h.role k.location.application_id k.role
        (b'|' ∷ scope_tag h.location.scope) (b'|' ∷ scope_tag k.location.scope) refl refl
        (ap (λ x. x.partition) e) in
    (apps, roles, scope_tag_injective _ _ (cc), one_segment _ _ (ap (λ x. x.id) e))

-- Two identity links with one key are of one application, issuer and subject.
pub key_of_link_injective :
    (l m : StoredIdentityLink)
    → key_of_link l ≡ key_of_link m
    → (l.application_id ≡ m.application_id)
      × (l.link.key.issuer ≡ m.link.key.issuer)
      × (l.link.key.subject ≡ m.link.key.subject)
unfolding identity_link_key IsEnd
key_of_link_injective l m e =
    let (issuers, subjects, ends) =
      two_segments l.link.key.issuer l.link.key.subject m.link.key.issuer m.link.key.subject [] []
        tt tt (rw (append-nil, append-nil) (ap (λ x. x.id) e)) in
    (one_segment _ _ (ap (λ x. x.partition) e), issuers, subjects)
