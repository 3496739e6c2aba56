-- ===== src/Storage/Program.antt =====
-- The asynchronous programs of packages/storage: between two requests to the storage-core Store
-- other clients may run, so a program is a tree of requests, each with what follows on its reply.
use authorization_core.Common.{Bool, true, false, Option, List}
use authorization_core.Text.{Text}
use authorization_core.Storage.Keys.{EntityKey}
use authorization_core.Storage.Records.{
  AuthorizationRecord, StoredAssignmentPointer, StoredRoleHolder, StoredIdentityLink,
}

-- What a rejected promise carries: the errors that the code throws, and a failure of the Store.
pub data Error : Type 0 where
  type_error range_error corrupt changed_during_read unavailable : Error

-- `insertIfAbsent`: whether it inserted, and the value that is stored now.
pub record Inserted (A : Type 0) : Type 0 where
  pub inserted : Bool
  pub value : A

-- `getVersioned`
pub record Versioned (A : Type 0) : Type 0 where
  pub value : A
  pub version : Text

pub data TransactionAction : Type 0 where
  insert : AuthorizationRecord → TransactionAction
  put_if_unchanged : AuthorizationRecord → Text → TransactionAction

-- Why a transaction was refused: a row to insert exists, a version moved, a row to put is missing.
pub data Refusal : Type 0 where
  exists changed missing : Refusal

pub data TransactionOutcome : Type 0 where
  committed : TransactionOutcome
  refused : Refusal → TransactionOutcome

pub data Request : Type 0 where
  get_record : EntityKey → Request
  list_records : Text → Request
  transact : Text → List TransactionAction → Request
  get_pointer : EntityKey → Request
  insert_pointer : StoredAssignmentPointer → Request
  list_pointers : Text → Request
  get_holder : EntityKey → Request
  insert_holder : StoredRoleHolder → Request
  list_holders : Text → Request
  get_link : EntityKey → Request
  insert_link : StoredIdentityLink → Request

abbrev pub Response : Request → Type 0
Response (get_record k) = Option (Versioned AuthorizationRecord)
Response (list_records p) = List AuthorizationRecord
Response (transact p actions) = TransactionOutcome
Response (get_pointer k) = Option StoredAssignmentPointer
Response (insert_pointer v) = Inserted StoredAssignmentPointer
Response (list_pointers p) = List StoredAssignmentPointer
Response (get_holder k) = Option StoredRoleHolder
Response (insert_holder v) = Inserted StoredRoleHolder
Response (list_holders p) = List StoredRoleHolder
Response (get_link k) = Option StoredIdentityLink
Response (insert_link v) = Inserted StoredIdentityLink

pub data Program (A : Type 0) : Type 0 where
  done : A → Program A
  throw : Error → Program A
  request : (r : Request) → (Response r → Program A) → Program A

infixl 5 ◌>>=◌ ◌>>◌
abbrev pub ◌>>=◌ : {A B : Type 0} → Program A → (A → Program B) → Program B
done a >>= f = f a
throw e >>= f = throw e
request r k >>= f = request r (λ x. k x >>= f)

abbrev pub ◌>>◌ : {B : Type 0} → Program (Unit {0}) → Program B → Program B
m >> k = m >>= λ _. k

-- `await` of one request
abbrev pub call : (r : Request) → Program (Response r)
call r = request r done

abbrev pub check : Bool → Error → Program (Unit {0})
check true e = done tt
check false e = throw e
