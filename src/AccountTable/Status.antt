-- ===== src/AccountTable/Status.antt =====
-- The life of an account: active, deleting, deleted, and never back.
use appbase.Prelude.{
  ℕ, suc, ◌≤◌, String, ◌≡◌, refl, sym, ap, subst, inl, inr, true, ◌&&◌, not, some, List, map, arith,
  ◌==◌, eq_iff, find?-sound, find?-append, find?-map, any, Bool-cases, if◌then◌else◌,
}
use appbase.Database.{AccountStatus, active, deleting, deleted, status_eq, Account, Database}
use appbase.AccountTable.{
  find_account, clashes, insert_account, update_account, begun, begin_batch, completed, complete,
  complete_billing_identity, postponed, postpone, is_deleted,
}
use appbase.AccountTable.Keeping.{Respects}

abbrev pub rank : AccountStatus → ℕ
rank active = 0
rank deleting = 1
rank deleted = 2

-- The account exists and is at least this far in its life.
abbrev pub Passed : ℕ → String → Database → Type 0
Passed k id db = (a : Account) × (find_account id db.accounts ≡ some a) × (k ≤ rank a.status)

module _ (id : String) (change : Account → Account)
    (same : (a : Account) → (change a).id ≡ a.id) where
  find-map :
      (accounts : List Account) (a : Account)
      → find_account id accounts ≡ some a
      → find_account id (map change accounts) ≡ some (change a)
  unfolding find_account
  find-map = find?-map (λ a. a.id == id) change (λ a. ap (λ t. t == id) (same a))

  pub map-Passed :
      (k : ℕ) (db : Database)
      → ((a : Account) → rank a.status ≤ rank (change a).status)
      → Passed k id db
      → Passed k id (record db { accounts = map change db.accounts })
  map-Passed k db up (a, found, far) = (change a, find-map db.accounts a found, omega (arith, up a))

-- What an UPDATE does to each row.
abbrev pub step : String → AccountStatus → (Account → Account) → Account → Account
step id s f a = if a.id == id && status_eq a.status s then f a else a

step_id :
    (id : String) (s : AccountStatus) (f : Account → Account)
    → ((a : Account) → (f a).id ≡ a.id)
    → (a : Account) → (step id s f a).id ≡ a.id
step_id id s f same a = elim (Bool-cases (a.id == id && status_eq a.status s)) [
  | inl hit ↦ rw hit (same a)
  | inr miss ↦ rw miss refl
]

equal_status : (s t : AccountStatus) → status_eq s t ≡ true → s ≡ t
equal_status active active h = refl
equal_status deleting deleting h = refl
equal_status deleted deleted h = refl
equal_status active deleting h = cc h
equal_status active deleted h = cc h
equal_status deleting active h = cc h
equal_status deleting deleted h = cc h
equal_status deleted active h = cc h
equal_status deleted deleting h = cc h

rank-step :
    (id : String) (s : AccountStatus) (f : Account → Account)
    → ((a : Account) → a.status ≡ s → rank s ≤ rank (f a).status)
    → (a : Account) → rank a.status ≤ rank (step id s f a).status
rank-step id s f up a = elim (Bool-cases (a.id == id && status_eq a.status s)) [
  | inl hit ↦
      let e : a.status ≡ s = equal_status a.status s (ground arith) in
      rw hit (subst (λ t. rank t ≤ rank (f a).status) (sym e) (up a e))
  | inr miss ↦ rw miss (omega arith)
]

pub found_id :
    (id : String) (accounts : List Account) (a : Account)
    → find_account id accounts ≡ some a
    → a.id ≡ id
unfolding find_account
found_id id accounts a found =
    ground (arith, eq_iff a.id id, find?-sound (λ b. b.id == id) accounts a found)

pub find-step :
    (id other : String) (s : AccountStatus) (f : Account → Account) (accounts : List Account)
    (a : Account)
    → ((b : Account) → (f b).id ≡ b.id)
    → find_account id accounts ≡ some a
    → find_account id (update_account other s f accounts) ≡ some (step other s f a)
find-step id other s f accounts a same found =
    find-map id (step other s f) (step_id other s f same) accounts a found

update-Passed :
    (k : ℕ) (id other : String) (s : AccountStatus) (f : Account → Account) (db : Database)
    → ((a : Account) → (f a).id ≡ a.id)
    → ((a : Account) → a.status ≡ s → rank s ≤ rank (f a).status)
    → Passed k id db
    → Passed k id (record db { accounts = update_account other s f db.accounts })
update-Passed k id other s f db same up =
    map-Passed id (step other s f) (step_id other s f same) k db (rank-step other s f up)

insert-Passed :
    (k : ℕ) (id other subject : String) (now : ℕ) (db : Database)
    → Passed k id db
    → Passed k id (insert_account other subject now db)
unfolding insert_account
insert-Passed k id other subject now db (a, found, far) =
    elim (Bool-cases (clashes other subject db.accounts)) [
      | inl taken ↦ rw taken (a, found, far)
      | inr free ↦
          rw free
            (a, unfold find_account in find?-append (λ b. b.id == id) db.accounts _ a found, far)
    ]

complete-Passed :
    (k : ℕ) (id other : String) (clock : ℕ) (db : Database)
    → Passed k id db
    → Passed k id (complete other clock db)
unfolding complete
complete-Passed k id other clock db h =
    elim (Bool-cases (any (λ b. b.owner_sub == other) db.billing_accounts)) [
      | inl left ↦ rw left h
      | inr gone ↦ rw gone (
          update-Passed k id other deleting (completed clock) db (λ a. refl) (λ a e. omega arith) h)
    ]

-- No statement takes an account back.
pub calls-Passed : (k : ℕ) (id : String) → Respects (Passed k id)
calls-Passed k id = record {
  inserts = insert-Passed k id;
  sessions = λ devices db h. h;
  begins = λ other clock db h.
      let (a, found, far) =
        update-Passed k id other active (begun clock) db (λ a. refl) (λ a e. omega arith) h in
      (a, unfold begin_batch in found, far);
  identities = λ other identity db h. unfold complete_billing_identity in h;
  completes = complete-Passed k id;
  postpones = λ other now db h.
      unfold postpone in
      update-Passed k id other deleting (postponed now) db (λ a. refl)
        (λ a e. omega (arith, ap rank e)) h;
}

pub Passed-closed :
    (k : ℕ) (id : String) (db : Database) → Passed (suc k) id db → is_deleted id db ≡ true
unfolding is_deleted
Passed-closed k id db (a, found, far) = rw found (shut a.status far)
  where
    shut : (s : AccountStatus) → suc k ≤ rank s → not (status_eq s active) ≡ true
    shut active h = ground (arith, h)
    shut deleting h = refl
    shut deleted h = refl
