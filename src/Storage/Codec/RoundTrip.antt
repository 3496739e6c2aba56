-- ===== src/Storage/Codec/RoundTrip.antt =====
-- What a codec of packages/storage/src/collections.ts encodes it decodes again.
use authorization_core.Common.{
  ℕ, true, false, Option, none, some, ltb, ok, ◌≡◌, refl, ◌≤◌, arith, ◌⊎◌, inl, inr, leb,
}
use authorization_core.Text.{Text, includes}
use authorization_core.Js.{own, max_safe_integer}
use authorization_core.Contracts.{
  RoleAssignmentScope, application, organization, RoleAssignmentActor, principal, system,
  RoleAssignment, active, revoked, grant_of,
}
use authorization_core.Storage.Keys.{RecordLocation, grant_sequence, revoke_sequence}
use authorization_core.Storage.Records.{
  AuthorizationRecord, assignment, tuple, audit, StoredAssignmentPointer, StoredIdentityLink,
}
use authorization_core.Storage.Fields.{
  assert_exact_fields, read_string, read_nullable_string, read_nonneg_safe_integer, require_null,
}
use authorization_core.Storage.Codec.{
  encode, decode, encode_link, decode_link, decode_pointer, encode_pointer,
}

-- What the codecs carry: an assignment repeats its location, its times are safe integers in order,
-- and it has a revoke event exactly when it is revoked; an audit row has one of the two sequences.
abbrev pub IsLifecycle : RoleAssignment → Option Text → Type 0
IsLifecycle (active g) e = (g.granted_at_epoch_ms ≤ max_safe_integer) × (e ≡ none)
IsLifecycle (revoked g r) e =
    (g.granted_at_epoch_ms ≤ r.revoked_at_epoch_ms)
    × (r.revoked_at_epoch_ms ≤ max_safe_integer)
    × ((i : Text) × (e ≡ some i))

abbrev pub IsStorable : AuthorizationRecord → Type 0
IsStorable (assignment s) =
    ((grant_of s.assignment).principal_id ≡ s.location.principal_id)
    × ((grant_of s.assignment).scope ≡ s.location.scope)
    × IsLifecycle s.assignment s.revoke_event_id
IsStorable (tuple t) = Unit
IsStorable (audit a) = (a.sequence ≡ grant_sequence) ⊎ (a.sequence ≡ revoke_sequence)

codecs : Unit {0}
unfolding decode encode assert_exact_fields read_string read_nullable_string
    read_nonneg_safe_integer require_null own includes
codecs = tt

tuple_round_trip :
    (a p : Text) (s : RoleAssignmentScope) (r : Text) (i : Option Text)
    → let t : AuthorizationRecord = tuple (record {
      location = record { application_id = a; principal_id = p; scope = s };
      role = r;
      active_assignment_id = i;
    }) in
      decode (encode t) ≡ ok t
unfolding codecs
tuple_round_trip a p application r none = refl
tuple_round_trip a p application r (some i) = refl
tuple_round_trip a p (organization o) r none = refl
tuple_round_trip a p (organization o) r (some i) = refl

audit_round_trip :
    (a p : Text) (s : RoleAssignmentScope) (i : Text) (n : ℕ) (e : Text)
    → (n ≡ grant_sequence) ⊎ (n ≡ revoke_sequence)
    → let t : AuthorizationRecord = audit (record {
      location = record { application_id = a; principal_id = p; scope = s };
      assignment_id = i;
      sequence = n;
      event_id = e;
    }) in
      decode (encode t) ≡ ok t
unfolding codecs
audit_round_trip a p application i n e (inl h) = rw h
audit_round_trip a p application i n e (inr h) = rw h
audit_round_trip a p (organization o) i n e (inl h) = rw h
audit_round_trip a p (organization o) i n e (inr h) = rw h

safe_nonneg_lem : (n : ℕ) → n ≤ max_safe_integer → leb n max_safe_integer ≡ true
safe_nonneg_lem n h = ground arith

active_round_trip :
    (a p : Text) (s : RoleAssignmentScope) (i r : Text) (by : RoleAssignmentActor) (n : ℕ)
    (g : Text)
    → n ≤ max_safe_integer
    → let t : AuthorizationRecord = assignment (record {
      location = record { application_id = a; principal_id = p; scope = s };
      assignment = active (record {
        id = i;
        principal_id = p;
        role = r;
        scope = s;
        granted_by = by;
        granted_at_epoch_ms = n;
      });
      grant_event_id = g;
      revoke_event_id = none;
    }) in
      decode (encode t) ≡ ok t
unfolding codecs
active_round_trip a p application i r (principal b) n g h = rw (safe_nonneg_lem n h)
active_round_trip a p application i r (system b) n g h = rw (safe_nonneg_lem n h)
active_round_trip a p (organization o) i r (principal b) n g h = rw (safe_nonneg_lem n h)
active_round_trip a p (organization o) i r (system b) n g h = rw (safe_nonneg_lem n h)

not_earlier : (n m : ℕ) → n ≤ m → ltb m n ≡ false
not_earlier n m h = ground arith

revoked_round_trip :
    (a p : Text) (s : RoleAssignmentScope) (i r : Text) (by : RoleAssignmentActor) (n : ℕ)
    (whom : RoleAssignmentActor) (m : ℕ) (why : Option Text) (g e : Text)
    → n ≤ m
    → m ≤ max_safe_integer
    → let t : AuthorizationRecord = assignment (record {
      location = record { application_id = a; principal_id = p; scope = s };
      assignment =
          revoked
            (record {
              id = i;
              principal_id = p;
              role = r;
              scope = s;
              granted_by = by;
              granted_at_epoch_ms = n;
            })
            (record { revoked_by = whom; revoked_at_epoch_ms = m; reason = why });
      grant_event_id = g;
      revoke_event_id = some e;
    }) in
      decode (encode t) ≡ ok t
unfolding codecs
revoked_round_trip a p application i r (principal b) n (principal c) m none g e h k =
    rw (safe_nonneg_lem n (omega arith), safe_nonneg_lem m k, not_earlier n m h)
revoked_round_trip a p application i r (principal b) n (principal c) m (some w) g e h k =
    rw (safe_nonneg_lem n (omega arith), safe_nonneg_lem m k, not_earlier n m h)
revoked_round_trip a p application i r (principal b) n (system c) m none g e h k =
    rw (safe_nonneg_lem n (omega arith), safe_nonneg_lem m k, not_earlier n m h)
revoked_round_trip a p application i r (principal b) n (system c) m (some w) g e h k =
    rw (safe_nonneg_lem n (omega arith), safe_nonneg_lem m k, not_earlier n m h)
revoked_round_trip a p application i r (system b) n (principal c) m none g e h k =
    rw (safe_nonneg_lem n (omega arith), safe_nonneg_lem m k, not_earlier n m h)
revoked_round_trip a p application i r (system b) n (principal c) m (some w) g e h k =
    rw (safe_nonneg_lem n (omega arith), safe_nonneg_lem m k, not_earlier n m h)
revoked_round_trip a p application i r (system b) n (system c) m none g e h k =
    rw (safe_nonneg_lem n (omega arith), safe_nonneg_lem m k, not_earlier n m h)
revoked_round_trip a p application i r (system b) n (system c) m (some w) g e h k =
    rw (safe_nonneg_lem n (omega arith), safe_nonneg_lem m k, not_earlier n m h)
revoked_round_trip a p (organization o) i r (principal b) n (principal c) m none g e h k =
    rw (safe_nonneg_lem n (omega arith), safe_nonneg_lem m k, not_earlier n m h)
revoked_round_trip a p (organization o) i r (principal b) n (principal c) m (some w) g e h k =
    rw (safe_nonneg_lem n (omega arith), safe_nonneg_lem m k, not_earlier n m h)
revoked_round_trip a p (organization o) i r (principal b) n (system c) m none g e h k =
    rw (safe_nonneg_lem n (omega arith), safe_nonneg_lem m k, not_earlier n m h)
revoked_round_trip a p (organization o) i r (principal b) n (system c) m (some w) g e h k =
    rw (safe_nonneg_lem n (omega arith), safe_nonneg_lem m k, not_earlier n m h)
revoked_round_trip a p (organization o) i r (system b) n (principal c) m none g e h k =
    rw (safe_nonneg_lem n (omega arith), safe_nonneg_lem m k, not_earlier n m h)
revoked_round_trip a p (organization o) i r (system b) n (principal c) m (some w) g e h k =
    rw (safe_nonneg_lem n (omega arith), safe_nonneg_lem m k, not_earlier n m h)
revoked_round_trip a p (organization o) i r (system b) n (system c) m none g e h k =
    rw (safe_nonneg_lem n (omega arith), safe_nonneg_lem m k, not_earlier n m h)
revoked_round_trip a p (organization o) i r (system b) n (system c) m (some w) g e h k =
    rw (safe_nonneg_lem n (omega arith), safe_nonneg_lem m k, not_earlier n m h)

assignment_round_trip :
    (l : RecordLocation) (a : RoleAssignment) (g : Text) (e : Option Text)
    → (grant_of a).principal_id ≡ l.principal_id
    → (grant_of a).scope ≡ l.scope
    → IsLifecycle a e
    → let t : AuthorizationRecord =
        assignment
          (record { location = l; assignment = a; grant_event_id = g; revoke_event_id = e }) in
      decode (encode t) ≡ ok t
assignment_round_trip l (active grant) g e hp hs (bound, he) =
    rw (he, ← hp, ← hs)
      (active_round_trip l.application_id grant.principal_id grant.scope grant.id grant.role
        grant.granted_by grant.granted_at_epoch_ms g bound)
assignment_round_trip l (revoked grant r) g e hp hs (order, bound, (i, he)) =
    rw (he, ← hp, ← hs)
      (revoked_round_trip l.application_id grant.principal_id grant.scope grant.id grant.role
        grant.granted_by grant.granted_at_epoch_ms r.revoked_by r.revoked_at_epoch_ms r.reason g i
        order bound)

-- Decoding what was encoded returns the record, for every assignment, guard and audit row that the
-- store writes: one that is storable as above.
pub decode-encode : (r : AuthorizationRecord) → IsStorable r → decode (encode r) ≡ ok r
decode-encode (assignment s) (hp, hs, h) =
    assignment_round_trip s.location s.assignment s.grant_event_id s.revoke_event_id hp hs h
decode-encode (tuple t) h =
    tuple_round_trip t.location.application_id t.location.principal_id t.location.scope t.role
      t.active_assignment_id
decode-encode (audit a) h =
    audit_round_trip a.location.application_id a.location.principal_id a.location.scope
      a.assignment_id a.sequence a.event_id h

-- Decoding an encoded assignment pointer returns the pointer.
pub decode_pointer-encode_pointer :
    (p : StoredAssignmentPointer) → decode_pointer (encode_pointer p) ≡ ok p
decode_pointer-encode_pointer p = split p.location.scope
  where
    split :
        (s : RoleAssignmentScope)
        → let q : StoredAssignmentPointer = record {
          location = record {
            application_id = p.location.application_id;
            principal_id = p.location.principal_id;
            scope = s;
          };
          assignment_id = p.assignment_id;
          role = p.role;
        } in
          decode_pointer (encode_pointer q) ≡ ok q
    split application = unfold codecs decode_pointer encode_pointer in refl
    split (organization o) = unfold codecs decode_pointer encode_pointer in refl

-- Decoding an encoded identity link returns the link.
pub decode_link-encode_link : (l : StoredIdentityLink) → decode_link (encode_link l) ≡ ok l
unfolding codecs decode_link encode_link
decode_link-encode_link l = refl
