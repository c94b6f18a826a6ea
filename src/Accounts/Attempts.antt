-- ===== src/Accounts/Attempts.antt =====
-- What the clean-up comes to for an account that is being deleted, when nothing disturbs it.
use appbase.Prelude.{
  ℕ, suc, ◌≤◌, String, ◌≡◌, refl, sym, ap, ◌∙◌, subst, ◌⊎◌, inl, inr, true, ◌&&◌, some, List, [],
  ◌∷◌, arith, ◌==◌, eq_refl, find?-append, any, Bool-cases,
}
use appbase.Action.{Result, ok, err}
use appbase.Database.{AccountStatus, active, deleting, deleted, status_eq, Account, Database}
use appbase.AccountTable.{
  find_account, clashes, insert_account, update_account, begun, begin_batch, completed, complete,
  complete_billing_identity, postponed, postpone, due, expire_sessions,
}
use appbase.AccountTable.Keeping.{Respects, Respected}
use appbase.AccountTable.Status.{Passed, rank, step, find-step, found_id}
use appbase.Deletion.{AccountWorld, delete}
use appbase.Deletion.Keeping.{delete-Keeps}
use appbase.Deletion.Finish.{Among, finished_deletion}
use appbase.Accounts.{process, process_due}
use appbase.Accounts.Keeping.{process-Keeps}
use appbase.Accounts.Cleanup.{after_all, process_due-all, process_failed}

-- Deleted, or being deleted and tried at least `k` times.
abbrev pub IsTried : ℕ → Account → Type 0
IsTried k a = (a.status ≡ deleted) ⊎ ((a.status ≡ deleting) × (k ≤ a.cleanup_attempts))

abbrev pub Tried : ℕ → String → Database → Type 0
Tried k id db = (a : Account) × (find_account id db.accounts ≡ some a) × IsTried k a

module _ (k : ℕ) (id : String) where
  update-Tried :
      (other : String) (s : AccountStatus) (f : Account → Account) (db : Database)
      → ((a : Account) → (f a).id ≡ a.id)
      → ((a : Account) → status_eq a.status s ≡ true → IsTried k a → IsTried k (f a))
      → Tried k id db
      → Tried k id (record db { accounts = update_account other s f db.accounts })
  update-Tried other s f db same good (a, found, h) =
      (step other s f a, find-step id other s f db.accounts a same found, stepped)
    where
      stepped : IsTried k (step other s f a)
      stepped = elim (Bool-cases (a.id == other && status_eq a.status s)) [
        | inl hit ↦ rw hit (good a (ground arith) h)
        | inr miss ↦ rw miss h
      ]

  not_active : (a : Account) → status_eq a.status active ≡ true → IsTried k a → ⊥
  not_active a now (inl e) = cc (now, ap (λ s. status_eq s active) e)
  not_active a now (inr (e, _)) = cc (now, ap (λ s. status_eq s active) e)

  insert-Tried :
      (other subject : String) (now : ℕ) (db : Database)
      → Tried k id db
      → Tried k id (insert_account other subject now db)
  unfolding insert_account
  insert-Tried other subject now db (a, found, h) =
      elim (Bool-cases (clashes other subject db.accounts)) [
        | inl taken ↦ rw taken (a, found, h)
        | inr free ↦
            rw free
              (a, unfold find_account in find?-append (λ b. b.id == id) db.accounts _ a found, h)
      ]

  complete-Tried :
      (other : String) (clock : ℕ) (db : Database)
      → Tried k id db
      → Tried k id (complete other clock db)
  unfolding complete
  complete-Tried other clock db h =
      elim (Bool-cases (any (λ b. b.owner_sub == other) db.billing_accounts)) [
        | inl left ↦ rw left h
        | inr gone ↦
            rw gone
              (update-Tried other deleting (completed clock) db (λ a. refl) (λ a e t. inl refl) h)
      ]

  calls-Tried : Respects (Tried k id)
  calls-Tried = record {
    inserts = insert-Tried;
    sessions = λ devices db h. h;
    begins = λ other clock db h.
        let (a, found, t) =
          update-Tried other active (begun clock) db (λ a. refl)
            (λ a e t. absurd (not_active a e t)) h in
        (a, unfold begin_batch in found, t);
    identities = λ other identity db h. unfold complete_billing_identity in h;
    completes = complete-Tried;
    postpones = λ other now db h.
        unfold postpone in
        update-Tried other deleting (postponed now) db (λ a. refl) (λ a e t. once_more now a t) h;
  }
    where
      once_more : (now : ℕ) (a : Account) → IsTried k a → IsTried k (postponed now a)
      once_more now a (inl e) = inl e
      once_more now a (inr (e, far)) = inr (e, omega (arith, far))

-- Nothing runs between the calls.
abbrev pub Undisturbed : AccountWorld → Type 0
Undisturbed world = (n : ℕ) (db : Database) → world.others n db ≡ db

module _ (world : AccountWorld) (calm : Undisturbed world) (id : String) where
  kept : (k : ℕ) (other : String) → Respected (Tried k other) world.others
  kept k other n db h = subst (Tried k other) (sym (calm n db)) h

  put_off-Tried :
      (k : ℕ) (db : Database) → Tried k id db → Tried (suc k) id (postpone id (world.now 0) db)
  unfolding postpone
  put_off-Tried k db (a, found, inl e) = (
    step id deleting (postponed (world.now 0)) a,
    find-step id id deleting (postponed (world.now 0)) db.accounts a (λ b. refl) found,
    elim (Bool-cases (a.id == id && status_eq a.status deleting)) [
      | inl hit ↦ rw hit (inl e)
      | inr miss ↦ rw miss (inl e)
    ],
  )
  put_off-Tried k db (a, found, inr (e, far)) = (
    step id deleting (postponed (world.now 0)) a,
    find-step id id deleting (postponed (world.now 0)) db.accounts a (λ b. refl) found,
    rw (found_id id db.accounts a found, eq_refl id, e) (inr (refl, omega (arith, far))),
  )

  gone-Tried : (k : ℕ) (db : Database) → Passed 2 id db → Tried k id db
  gone-Tried k db (a, found, far) = (a, found, inl (last a.status far))
    where
      last : (s : AccountStatus) → 2 ≤ rank s → s ≡ deleted
      last active low = absurd (omega (arith, low))
      last deleting low = absurd (omega (arith, low))
      last deleted low = refl

  -- One attempt: the account is deleted, or it has been tried once more.
  process-Tried : (k : ℕ) (db : Database) → Tried k id db → Tried (suc k) id (process world id db).1
  process-Tried k db (a, found, t) =
      go (delete world id db) refl (
        (delete-Keeps (Tried k id) (calls-Tried k id) world (kept k id) id).leaves db (a, found, t))
    where
      go :
          (outcome : Result (Unit {0}) × Database)
          → delete world id db ≡ outcome
          → Tried k id (delete world id db).1
          → Tried (suc k) id (process world id db).1
      go (ok u, mid) run h =
          let done : Passed 2 id mid =
            (finished_deletion world id calm a u db mid found run).status in
          unfold process in rw run (gone-Tried (suc k) mid done)
      go (err e, mid) run h =
          let before : Tried k id mid = subst (λ o. Tried k id o.1) run h in
          subst (λ o. Tried (suc k) id o.1) (sym (process_failed world id e db mid run))
            (subst (λ d. Tried (suc k) id (postpone id (world.now 0) d)) (sym (calm 0 mid))
              (put_off-Tried k mid before))

module _ (worlds : ℕ → AccountWorld) (calm : (n : ℕ) → Undisturbed (worlds n)) (id : String) where
  others-Tried :
      (k n : ℕ) (other : String) (db : Database)
      → Tried k id db
      → Tried k id (process (worlds n) other db).1
  others-Tried k n other db h =
      (process-Keeps (Tried k id) (calls-Tried k id) (worlds n) (kept (worlds n) (calm n) id k id)
          other).leaves
        db h

  all-Tried :
      (k n : ℕ) (ids : List String) (db : Database)
      → Tried k id db
      → Tried k id (after_all worlds n ids db)
  all-Tried k n [] db h = h
  all-Tried k n (other ∷ ids) db h =
      all-Tried k (suc n) ids (process (worlds n) other db).1 (others-Tried k n other db h)

  among-Tried :
      (k n : ℕ) (ids : List String) (db : Database)
      → Among id ids
      → Tried k id db
      → Tried (suc k) id (after_all worlds n ids db)
  among-Tried k n [] db there h = absurd there
  among-Tried k n (other ∷ ids) db (inl e) h =
      all-Tried (suc k) (suc n) ids (process (worlds n) other db).1 (
        subst (λ t. Tried (suc k) id (process (worlds n) t db).1) e
          (process-Tried (worlds n) (calm n) id k db h))
  among-Tried k n (other ∷ ids) db (inr there) h =
      among-Tried k (suc n) ids (process (worlds n) other db).1 there (others-Tried k n other db h)

-- If no other request comes between, the clean-up returns, and by then each account that it found
-- due and `deleting` is `deleted`, or it is still `deleting` and counted as tried at least once more
-- than before, whatever came of the deletions of the accounts before it.
pub process_due-Tried :
    (world : AccountWorld) (worlds : ℕ → AccountWorld) (id : String) (a : Account) (db : Database)
    → Undisturbed world
    → ((n : ℕ) → Undisturbed (worlds n))
    → find_account id db.accounts ≡ some a
    → a.status ≡ deleting
    → Among id (due (world.now 1) 20 (expire_sessions (world.now 0) db))
    → (db' : Database) × (process_due world worlds db ≡ (ok tt, db'))
      × Tried (suc a.cleanup_attempts) id db'
process_due-Tried world worlds id a db calm each found going there =
    let start : Database = expire_sessions (world.now 0) db in
    let run : process_due world worlds db
        ≡ (ok tt, after_all worlds 0 (due (world.now 1) 20 start) start) =
      process_due-all world worlds db
      ∙ ap (λ d. (ok tt, after_all worlds 0 (due (world.now 1) 20 d) d)) (calm 1 start) in
    (
      after_all worlds 0 (due (world.now 1) 20 start) start,
      run,
      among-Tried worlds each id a.cleanup_attempts 0 (due (world.now 1) 20 start) start there
          (a, unfold expire_sessions in found, inr (going, omega arith)),
    )
