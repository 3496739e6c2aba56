-- ===== src/Storage/Safety/Memory.antt =====
-- A Store with the documented behaviour, in memory, on which the methods of
-- packages/storage/src/role-store.ts can be run. Versions count the committed transactions, and the
-- log has what each of them left. Listings are answered by a failure.
use authorization_core.Common.{
  Bool, true, false, Option, none, some, List, [], ◌∷◌, ◌++◌, ◌≡◌, refl, sym, ap, ◌∙◌, ◌⊎◌, inl,
  inr, if◌then◌else◌, Bool-cases,
}
use authorization_core.Text.{Text, same}
use authorization_core.Text.Order.{eq_of_same}
use authorization_core.Storage.Keys.{EntityKey}
use authorization_core.Storage.Records.{
  AuthorizationRecord, StoredAssignmentPointer, StoredRoleHolder, StoredIdentityLink, record_key,
  key_of_pointer, key_of_holder, key_of_link,
}
use authorization_core.Storage.Program.{
  Request, Response, get_record, list_records, transact, get_pointer, insert_pointer, list_pointers,
  get_holder, insert_holder, list_holders, get_link, insert_link, Inserted, Versioned,
  TransactionAction, insert, put_if_unchanged, TransactionOutcome, committed, refused, changed,
}
use authorization_core.Storage.Store.{
  Store, Rows, Reply, replied, rejected, Behaves, Inserts, Applies, AllApply, after_actions,
  same_key, value_of_action,
}
use authorization_core.Storage.Safety.KeyLaws.{same_key_refl}

-- The values of a table, without their versions.
abbrev values :
    (EntityKey → Option (Versioned AuthorizationRecord)) → EntityKey → Option AuthorizationRecord
values table k = elim (table k) [ none ↦ none | some v ↦ some v.value ]

abbrev pub Log : Type 0
Log = List (EntityKey → Option AuthorizationRecord)

unfoldable pub nth : Log → Text → EntityKey → Option AuthorizationRecord
nth [] v k = none
nth (e ∷ es) [] k = e k
nth (e ∷ es) (c ∷ v) k = nth es v k

unfoldable pub next : Log → Text
next [] = []
next (e ∷ es) = b'x' ∷ next es

pub nth-kept :
    (es : Log) (e : EntityKey → Option AuthorizationRecord) (v : Text) (k : EntityKey)
    (x : AuthorizationRecord)
    → nth es v k ≡ some x
    → nth (es ++ (e ∷ [])) v k ≡ some x
unfolding nth
nth-kept [] e v k x h = cc
nth-kept (d ∷ es) e [] k x h = h
nth-kept (d ∷ es) e (c ∷ v) k x h = nth-kept es e v k x h

pub nth-next :
    (es : Log) (e : EntityKey → Option AuthorizationRecord) (k : EntityKey)
    → nth (es ++ (e ∷ [])) (next es) k ≡ e k
unfolding nth next
nth-next [] e k = refl
nth-next (d ∷ es) e k = nth-next es e k

-- The tables, and the log that names the version of every record.
pub record Memory : Type 0 where
  pub records : EntityKey → Option (Versioned AuthorizationRecord)
  pub pointers : EntityKey → Option StoredAssignmentPointer
  pub holders : EntityKey → Option StoredRoleHolder
  pub links : EntityKey → Option StoredIdentityLink
  pub log : Log
  pub named :
      (k : EntityKey) (x : Versioned AuthorizationRecord)
      → records k ≡ some x
      → nth log x.version k ≡ some x.value

unfoldable pub rows_of : Memory → Rows
rows_of m = record {
  records = m.records;
  pointers = m.pointers;
  holders = m.holders;
  links = m.links;
  written = λ k v. nth m.log v k;
}

pub written_or_kept :
    (n : Text) (actions : List TransactionAction)
    (rows : EntityKey → Option (Versioned AuthorizationRecord)) (k : EntityKey)
    (x : Versioned AuthorizationRecord)
    → after_actions (λ l. n) actions rows k ≡ some x
    → (x.version ≡ n) ⊎ (rows k ≡ some x)
written_or_kept n [] rows k x h = inr h
written_or_kept n (a ∷ actions) rows k x h =
    elim (Bool-cases (same_key (record_key (value_of_action a)) k)) [
      | inl e ↦ inl (sym (ap (λ o. elim o [ none ↦ n | some v ↦ v.version ]) (rw e at h)))
      | inr e ↦ written_or_kept n actions rows k x (rw e at h)
    ]

unfoldable pub commit : List TransactionAction → Memory → Memory
commit actions m =
    let after = after_actions (λ l. next m.log) actions m.records in
    record m {
      records = after;
      log = m.log ++ (values after ∷ []);
      named = λ k x found. elim (written_or_kept (next m.log) actions m.records k x found) [
        | inl at ↦
            ap (λ v. nth (m.log ++ (values after ∷ [])) v k) at
            ∙ nth-next m.log (values after) k
            ∙ ap (λ o. elim o [ none ↦ none | some v ↦ some v.value ]) found
        | inr old ↦ nth-kept m.log (values after) x.version k x.value (m.named k x old)
      ];
    }

unfoldable pub applies : (a : TransactionAction) (m : Memory) → Option (Applies a (rows_of m))
unfolding rows_of
applies (insert r) m = free (m.records (record_key r)) refl
  where
    free :
        (o : Option (Versioned AuthorizationRecord))
        → m.records (record_key r) ≡ o
        → Option (m.records (record_key r) ≡ none)
    free none e = some e
    free (some x) e = none
applies (put_if_unchanged r v) m = current (m.records (record_key r)) refl
  where
    at_version :
        (x : Versioned AuthorizationRecord) (b : Bool)
        → same x.version v ≡ b
        → m.records (record_key r) ≡ some x
        → Option (Applies (put_if_unchanged r v) (rows_of m))
    at_version x true e found = some (
      x.value,
      found ∙ ap (λ u. some (record { value = x.value; version = u })) (eq_of_same _ _ e),
    )
    at_version x false e found = none

    current :
        (o : Option (Versioned AuthorizationRecord))
        → m.records (record_key r) ≡ o
        → Option (Applies (put_if_unchanged r v) (rows_of m))
    current none e = none
    current (some x) e = at_version x (same x.version v) refl e

unfoldable pub all_apply :
    (actions : List TransactionAction) (m : Memory) → Option (AllApply actions (rows_of m))
unfolding applies
all_apply [] m = some tt
all_apply (a ∷ actions) m =
    let rest = all_apply actions m in
    elim (applies a m) [ none ↦ none | some h ↦ elim rest [ none ↦ none | some hs ↦ some (h, hs) ] ]

unfoldable pub answer_transact :
    (actions : List TransactionAction) (m : Memory)
    → Option (AllApply actions (rows_of m))
    → Reply TransactionOutcome × Memory
unfolding commit
answer_transact actions m none = (replied (refused changed), m)
answer_transact actions m (some h) = (replied committed, commit actions m)

unfoldable pub insert_in :
    {A : Type 0}
    → EntityKey
    → A
    → (EntityKey → Option A)
    → Option A
    → Inserted A × (EntityKey → Option A)
insert_in key v table none =
    (record { inserted = true; value = v }, λ k. if same_key key k then some v else table k)
insert_in key v table (some x) = (record { inserted = false; value = x }, table)

insert_in-Inserts :
    {A : Type 0} (key : EntityKey) (v : A) (table : EntityKey → Option A) (o : Option A)
    → table key ≡ o
    → Inserts key v table (insert_in key v table o).1 (insert_in key v table o).0
unfolding insert_in
insert_in-Inserts key v table none e = record {
  stored = rw (same_key_refl key) refl;
  free = λ h. refl;
  taken = λ x h. absurd (cc);
  flag = λ h. e;
  others = λ k other. rw other refl;
}
insert_in-Inserts key v table (some x) e = record {
  stored = e;
  free = λ h. absurd (cc);
  taken = λ y h. cc;
  flag = λ h. absurd (cc);
  others = λ k other. refl;
}

unfoldable pub answer : (r : Request) → Memory → Reply (Response r) × Memory
unfolding all_apply answer_transact insert_in
answer (get_record k) m = (replied (m.records k), m)
answer (list_records p) m = (rejected, m)
answer (transact p actions) m = answer_transact actions m (all_apply actions m)
answer (get_pointer k) m = (replied (m.pointers k), m)
answer (insert_pointer v) m =
    let (reply, table) =
      insert_in (key_of_pointer v) v m.pointers (m.pointers (key_of_pointer v)) in
    (replied reply, record m { pointers = table })
answer (list_pointers p) m = (rejected, m)
answer (get_holder k) m = (replied (m.holders k), m)
answer (insert_holder v) m =
    let (reply, table) = insert_in (key_of_holder v) v m.holders (m.holders (key_of_holder v)) in
    (replied reply, record m { holders = table })
answer (list_holders p) m = (rejected, m)
answer (get_link k) m = (replied (m.links k), m)
answer (insert_link v) m =
    let (reply, table) = insert_in (key_of_link v) v m.links (m.links (key_of_link v)) in
    (replied reply, record m { links = table })

answer_transact-Behaves :
    (p : Text) (actions : List TransactionAction) (m : Memory)
    (o : Option (AllApply actions (rows_of m)))
    → Behaves
        (transact p actions)
        (rows_of m)
        (answer_transact actions m o).0
        (rows_of (answer_transact actions m o).1)
unfolding rows_of answer_transact
answer_transact-Behaves p actions m none = refl
answer_transact-Behaves p actions m (some h) = record {
  version = λ k. next m.log;
  applied = h;
  records = λ k. refl;
  pointers = refl;
  holders = refl;
  links = refl;
  versions = record {
    kept = λ k v x named. nth-kept m.log _ v k x named;
    named = (commit actions m).named;
  };
}

pub behaves :
    (r : Request) (m : Memory) → Behaves r (rows_of m) (answer r m).0 (rows_of (answer r m).1)
unfolding rows_of answer
behaves (get_record k) m = (refl, refl)
behaves (list_records p) m = refl
behaves (transact p actions) m = answer_transact-Behaves p actions m (all_apply actions m)
behaves (get_pointer k) m = (refl, refl)
behaves (insert_pointer v) m =
    (insert_in-Inserts _ v m.pointers (m.pointers (key_of_pointer v)) refl, refl)
behaves (list_pointers p) m = refl
behaves (get_holder k) m = (refl, refl)
behaves (insert_holder v) m =
    (insert_in-Inserts _ v m.holders (m.holders (key_of_holder v)) refl, refl)
behaves (list_holders p) m = refl
behaves (get_link k) m = (refl, refl)
behaves (insert_link v) m = (insert_in-Inserts _ v m.links (m.links (key_of_link v)) refl, refl)

abbrev pub memory_store : Store
memory_store = record { State = Memory; answer = answer; rows = rows_of; behaves = behaves }

-- Nothing stored.
unfoldable pub empty_memory : Memory
empty_memory = record {
  records = λ k. none;
  pointers = λ k. none;
  holders = λ k. none;
  links = λ k. none;
  log = [];
  named = λ k x found. absurd (cc);
}
