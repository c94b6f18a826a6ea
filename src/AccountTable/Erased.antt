-- ===== src/AccountTable/Erased.antt =====
-- The database-wide invariant of account deletion: an account that is closed has no data left,
-- and none can be written for it again.
use appbase.Prelude.{
  ℕ, String, ◌≡◌, ◌≢◌, refl, sym, subst, inl, inr, true, false, ◌&&◌, none, List, [], ◌∷◌, ◌++◌,
  arith, ◌==◌, eq_iff, any, All, All-append, All-map, All-mono, Bool-cases, if◌then◌else◌,
}
use appbase.Database.{Database, Account, AccountStatus, active, deleting, deleted, status_eq}
use appbase.Database.Fence.{is_active}
use appbase.Records.{AppendVersionInput, append}
use appbase.Records.Append.{append-Outcome, appended}
use appbase.AccountTable.{
  clashes, insert_account, new_account, begun, begin_batch, completed, complete,
  complete_billing_identity, postponed, postpone,
}
use appbase.AccountTable.Absent.{
  Absent, erase-Absent, select-Absent, append-Absent, any-Absent, fenced-Absent,
}

-- No record, key, grant or usage of the owner.
abbrev pub NoData : String → Database → Type 0
NoData id db =
    Absent (λ r. r.owner_sub) id db.records
    × Absent (λ r. r.owner_sub) id db.user_keys
    × Absent (λ r. r.owner_sub) id db.grants
    × Absent (λ r. r.owner_sub) id db.usage

-- A closed account has no data; a deleted one has no billing identity either, and its identity at
-- the provider is forgotten.
pub record IsErased (db : Database) (a : Account) : Type 0 where
  pub closed : is_active a.status ≡ false → NoData a.id db
  pub finished :
      a.status ≡ deleted → Absent (λ b. b.owner_sub) a.id db.billing_accounts × (a.subject ≡ none)

-- The accounts do not matter to it, only the rows.
for_accounts :
    (accounts : List Account) (db : Database) (a : Account)
    → IsErased db a
    → IsErased (record db { accounts = accounts }) a
for_accounts accounts db a h = record { closed = h.closed; finished = h.finished }

abbrev pub AreErased : Database → Type 0
AreErased db = All (IsErased db) db.accounts

-- A record version is written only for an owner that is no closed account, so `append` keeps closed
-- accounts without data.
pub append-AreErased :
    (input : AppendVersionInput) (db : Database) → AreErased db → AreErased (append input db).1
append-AreErased input db h = elim (append-Outcome input db) [
  | inl (a, e) ↦
      subst (λ r. AreErased r.1) (sym e)
        (both db.accounts (fenced-Absent db.accounts input.owner_sub a.open_account) h)
  | inr (_, inl e) ↦ subst (λ r. AreErased r.1) (sym e) h
  | inr (_, inr (_, e)) ↦ subst (λ r. AreErased r.1) (sym e) h
]
  where
    both :
        (accounts : List Account)
        → All (λ a. is_active a.status ≡ false → input.owner_sub ≢ a.id) accounts
        → All (IsErased db) accounts
        → All (IsErased (appended input db)) accounts
    both [] other h = tt
    both (a ∷ accounts) other h = (
      record {
        closed = λ shut.
            let (records, keys, grants, usage) = h.0.closed shut in
            (
              append-Absent (λ r. r.owner_sub) a.id db.records _ (other.0 shut) records,
              keys,
              grants,
              usage,
            );
        finished = h.0.finished;
      },
      both accounts other.1 h.1,
    )

pub insert_account-AreErased :
    (id subject : String) (now : ℕ) (db : Database)
    → AreErased db
    → AreErased (insert_account id subject now db)
unfolding insert_account
insert_account-AreErased id subject now db h = elim (Bool-cases (clashes id subject db.accounts)) [
  | inl taken ↦ rw taken h
  | inr free ↦ rw free (
      All-mono (for_accounts _ db) (db.accounts ++ new_account id subject now ∷ [])
        (All-append (IsErased db) db.accounts (new_account id subject now ∷ []) h (fresh, tt)))
]
  where
    fresh : IsErased db (new_account id subject now)
    fresh = record { closed = λ shut. cc shut; finished = λ done. cc done }

still-NoData :
    (id owner : String) (clock : ℕ) (db : Database)
    → NoData owner db
    → NoData owner (begin_batch id clock db)
unfolding begin_batch
still-NoData id owner clock db (records, keys, grants, usage) = (
  select-Absent (λ r. r.owner_sub) owner _ db.records records,
  select-Absent (λ r. r.owner_sub) owner _ db.user_keys keys,
  select-Absent (λ r. r.owner_sub) owner _ db.grants grants,
  select-Absent (λ r. r.owner_sub) owner _ db.usage usage,
)

pub begin_batch-NoData :
    (id : String) (clock : ℕ) (db : Database) → NoData id (begin_batch id clock db)
unfolding begin_batch
begin_batch-NoData id clock db = (
  erase-Absent (λ r. r.owner_sub) id db.records,
  erase-Absent (λ r. r.owner_sub) id db.user_keys,
  erase-Absent (λ r. r.owner_sub) id db.grants,
  erase-Absent (λ r. r.owner_sub) id db.usage,
)

same_account :
    (id : String) (s : AccountStatus) (a : Account)
    → (a.id == id && status_eq a.status s) ≡ true
    → (a.id ≡ id) × (status_eq a.status s ≡ true)
same_account id s a h = ground (arith, eq_iff a.id id)

batch-IsErased :
    (id : String) (clock : ℕ) (db : Database) (a : Account)
    → IsErased db a
    → IsErased
        (begin_batch id clock db)
        (if a.id == id && status_eq a.status active then begun clock a else a)
batch-IsErased id clock db a h = elim (Bool-cases (a.id == id && status_eq a.status active)) [
  | inl chosen ↦ rw chosen (record {
    closed = λ shut.
        subst (λ i. NoData i (begin_batch id clock db)) (sym (same_account id active a chosen).0)
          (begin_batch-NoData id clock db);
    finished = λ done. cc done;
  })
  | inr other ↦ rw other (record {
    closed = λ shut. still-NoData id a.id clock db (h.closed shut);
    finished = unfold begin_batch in h.finished;
  })
]

pub begin_batch-AreErased :
    (id : String) (clock : ℕ) (db : Database) → AreErased db → AreErased (begin_batch id clock db)
begin_batch-AreErased id clock db h =
    unfold begin_batch in
    All-map (IsErased db) (IsErased (begin_batch id clock db))
      (λ a. if a.id == id && status_eq a.status active then begun clock a else a)
      (batch-IsErased id clock db) db.accounts h

pub complete_billing_identity-AreErased :
    (id identity : String) (db : Database)
    → AreErased db
    → AreErased (complete_billing_identity id identity db)
unfolding complete_billing_identity
complete_billing_identity-AreErased id identity db =
    All-mono
      (λ a h. record {
        closed = h.closed;
        finished = λ done.
            let (billing, forgotten) = h.finished done in
            (select-Absent (λ b. b.owner_sub) a.id _ db.billing_accounts billing, forgotten);
      })
      db.accounts

closing : (s : AccountStatus) → status_eq s deleting ≡ true → is_active s ≡ false
closing active h = cc h
closing deleting h = refl
closing deleted h = refl

complete-IsErased :
    (id : String) (clock : ℕ) (db : Database) (a : Account)
    → Absent (λ b. b.owner_sub) id db.billing_accounts
    → IsErased db a
    → IsErased db (if a.id == id && status_eq a.status deleting then completed clock a else a)
complete-IsErased id clock db a billing h =
    elim (Bool-cases (a.id == id && status_eq a.status deleting)) [
      | inl chosen ↦
          let (same, going) = same_account id deleting a chosen in
          rw chosen (record {
            closed = λ shut. h.closed (closing a.status going);
            finished = λ done. (
              subst (λ i. Absent (λ b. b.owner_sub) i db.billing_accounts) (sym same) billing,
              refl,
            );
          })
      | inr other ↦ rw other h
    ]

pub complete-AreErased :
    (id : String) (clock : ℕ) (db : Database) → AreErased db → AreErased (complete id clock db)
unfolding complete
complete-AreErased id clock db h =
    elim (Bool-cases (any (λ b. b.owner_sub == id) db.billing_accounts)) [
      | inl left ↦ rw left h
      | inr none_left ↦ rw none_left (
          All-map (IsErased db) (IsErased _)
            (λ a. if a.id == id && status_eq a.status deleting then completed clock a else a)
            (λ a x. for_accounts _ db _ (
              complete-IsErased id clock db a
                (any-Absent (λ b. b.owner_sub) id db.billing_accounts none_left) x))
            db.accounts h)
    ]

postpone-IsErased :
    (id : String) (now : ℕ) (db : Database) (a : Account)
    → IsErased db a
    → IsErased db (if a.id == id && status_eq a.status deleting then postponed now a else a)
postpone-IsErased id now db a h = elim (Bool-cases (a.id == id && status_eq a.status deleting)) [
  | inl chosen ↦ rw chosen (record { closed = h.closed; finished = h.finished })
  | inr other ↦ rw other h
]

pub postpone-AreErased :
    (id : String) (now : ℕ) (db : Database) → AreErased db → AreErased (postpone id now db)
unfolding postpone
postpone-AreErased id now db h =
    All-map (IsErased db) (IsErased _)
      (λ a. if a.id == id && status_eq a.status deleting then postponed now a else a)
      (λ a x. for_accounts _ db _ (postpone-IsErased id now db a x)) db.accounts h
