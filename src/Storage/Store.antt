-- ===== src/Storage/Store.antt =====
-- The storage-core Store that packages/storage is given, as an interface: its requests, and the
-- documented behaviour of each (docs/STORAGE.md) in terms of the rows that the Store holds.
-- A row is read as the record that was written, which is what the codecs' round trips say.
use authorization_core.Common.{
  Bool, true, false, Option, none, some, List, [], ◌∷◌, ◌≡◌, ◌⊎◌, ◌&&◌, if◌then◌else◌,
}
use authorization_core.Text.{Text, same}
use authorization_core.Storage.Keys.{EntityKey}
use authorization_core.Storage.Records.{
  AuthorizationRecord, StoredAssignmentPointer, StoredRoleHolder, StoredIdentityLink, record_key,
  key_of_pointer, key_of_holder, key_of_link,
}
use authorization_core.Storage.Program.{
  Request, Response, get_record, list_records, transact, get_pointer, insert_pointer, list_pointers,
  get_holder, insert_holder, list_holders, get_link, insert_link, Inserted, Versioned,
  TransactionAction, insert, put_if_unchanged, committed, refused,
}

-- `===` of two keys
abbrev pub same_key : EntityKey → EntityKey → Bool
same_key k l = same k.partition l.partition && same k.id l.id

-- The rows of the four collections, by their physical keys; and every value that a version of a row
-- has ever named.
pub record Rows : Type 0 where
  pub records : EntityKey → Option (Versioned AuthorizationRecord)
  pub pointers : EntityKey → Option StoredAssignmentPointer
  pub holders : EntityKey → Option StoredRoleHolder
  pub links : EntityKey → Option StoredIdentityLink
  pub written : EntityKey → Text → Option AuthorizationRecord

-- A reply, or a rejected promise.
pub data Reply (A : Type 0) : Type 0 where
  replied : A → Reply A
  rejected : Reply A

-- The value that an action writes.
abbrev pub value_of_action : TransactionAction → AuthorizationRecord
value_of_action (insert r) = r
value_of_action (put_if_unchanged r v) = r

-- What an action asks of the rows: an insert wants its key free, a put wants the version it names.
abbrev pub Applies : TransactionAction → Rows → Type 0
Applies (insert r) s = s.records (record_key r) ≡ none
Applies (put_if_unchanged r v) s =
    (x : AuthorizationRecord) × (s.records (record_key r)
      ≡ some (record { value = x; version = v }))

abbrev pub AllApply : List TransactionAction → Rows → Type 0
AllApply [] s = Unit
AllApply (a ∷ actions) s = Applies a s × AllApply actions s

-- The rows after the actions, where `version` gives the version of each row that they write.
abbrev pub after_actions :
    (EntityKey → Text)
    → List TransactionAction
    → (EntityKey → Option (Versioned AuthorizationRecord))
    → EntityKey
    → Option (Versioned AuthorizationRecord)
after_actions version [] rows k = rows k
after_actions version (a ∷ actions) rows k =
    if same_key (record_key (value_of_action a)) k
    then some (record { value = value_of_action a; version = version k })
    else after_actions version actions rows k

-- Nothing that a version named is forgotten, and every row's version names its value.
pub record Versions (s t : Rows) : Type 0 where
  pub kept :
      (k : EntityKey) (v : Text) (x : AuthorizationRecord)
      → s.written k v ≡ some x
      → t.written k v ≡ some x
  pub named :
      (k : EntityKey) (x : Versioned AuthorizationRecord)
      → t.records k ≡ some x
      → t.written k x.version ≡ some x.value

-- A committed transaction: each action applied to the rows before, and all wrote together.
pub record Commits (actions : List TransactionAction) (s t : Rows) : Type 0 where
  pub version : EntityKey → Text
  pub applied : AllApply actions s
  pub records : (k : EntityKey) → t.records k ≡ after_actions version actions s.records k
  pub pointers : t.pointers ≡ s.pointers
  pub holders : t.holders ≡ s.holders
  pub links : t.links ≡ s.links
  pub versions : Versions s t

-- `insertIfAbsent` of a value at a key: it is stored if the key was free; the reply is what is stored.
pub record Inserts {A : Type 0} (key : EntityKey) (value : A) (before after : EntityKey → Option A)
    (reply : Inserted A) : Type 0 where
  pub stored : after key ≡ some reply.value
  pub free : before key ≡ none → reply.value ≡ value
  pub taken : (x : A) → before key ≡ some x → reply.value ≡ x
  pub flag : reply.inserted ≡ true → before key ≡ none
  pub others : (k : EntityKey) → same_key key k ≡ false → after k ≡ before k

-- An insert whose reply was lost may have been stored or not.
pub record MayInsert {A : Type 0} (key : EntityKey) (value : A)
    (before after : EntityKey → Option A) : Type 0 where
  pub kept : (k : EntityKey) (x : A) → before k ≡ some x → after k ≡ some x

-- The documented behaviour of one request: the rows before, the reply, the rows after. A listing is no
-- snapshot, and nothing is assumed of what it lists.
abbrev pub Behaves : (r : Request) → Rows → Reply (Response r) → Rows → Type 0
Behaves (get_record k) s (replied x) t = (x ≡ s.records k) × (t ≡ s)
Behaves (get_record k) s rejected t = t ≡ s
Behaves (list_records p) s (replied xs) t = t ≡ s
Behaves (list_records p) s rejected t = t ≡ s
Behaves (transact p actions) s (replied committed) t = Commits actions s t
Behaves (transact p actions) s (replied (refused why)) t = t ≡ s
Behaves (transact p actions) s rejected t = (t ≡ s) ⊎ Commits actions s t
Behaves (get_pointer k) s (replied x) t = (x ≡ s.pointers k) × (t ≡ s)
Behaves (get_pointer k) s rejected t = t ≡ s
Behaves (insert_pointer v) s (replied x) t =
    Inserts (key_of_pointer v) v s.pointers t.pointers x × (t ≡ record s { pointers = t.pointers })
Behaves (insert_pointer v) s rejected t =
    MayInsert (key_of_pointer v) v s.pointers t.pointers × (t ≡ record s { pointers = t.pointers })
Behaves (list_pointers p) s (replied xs) t = t ≡ s
Behaves (list_pointers p) s rejected t = t ≡ s
Behaves (get_holder k) s (replied x) t = (x ≡ s.holders k) × (t ≡ s)
Behaves (get_holder k) s rejected t = t ≡ s
Behaves (insert_holder v) s (replied x) t =
    Inserts (key_of_holder v) v s.holders t.holders x × (t ≡ record s { holders = t.holders })
Behaves (insert_holder v) s rejected t =
    MayInsert (key_of_holder v) v s.holders t.holders × (t ≡ record s { holders = t.holders })
Behaves (list_holders p) s (replied xs) t = t ≡ s
Behaves (list_holders p) s rejected t = t ≡ s
Behaves (get_link k) s (replied x) t = (x ≡ s.links k) × (t ≡ s)
Behaves (get_link k) s rejected t = t ≡ s
Behaves (insert_link v) s (replied x) t =
    Inserts (key_of_link v) v s.links t.links x × (t ≡ record s { links = t.links })
Behaves (insert_link v) s rejected t =
    MayInsert (key_of_link v) v s.links t.links × (t ≡ record s { links = t.links })

-- A Store: its own state, how it answers, and the rows that stand for its state.
pub record Store : Type 1 where
  pub State : Type 0
  pub answer : (r : Request) → State → Reply (Response r) × State
  pub rows : State → Rows
  pub behaves : (r : Request) (s : State) → Behaves r (rows s) (answer r s).0 (rows (answer r s).1)
