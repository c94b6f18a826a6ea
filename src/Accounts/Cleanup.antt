-- ===== src/Accounts/Cleanup.antt =====
-- Requests for deletion, and the clean-up that the worker's schedule runs.
use appbase.Prelude.{
  ℕ, suc, ◌+◌, ◌*◌, min, ◌<◌, ◌≤◌, String, ◌≡◌, refl, ap, subst, ◌∙◌, inl, inr, Option, none, some,
  List, [], ◌∷◌, arith, eq_refl, Option-cases,
}
use appbase.Action.{Failure, Result, ok, err, plain, pure, catch, >>=-eq-ok}
use appbase.Database.{deleting, Account, Database, Db}
use appbase.AccountTable.{
  Others, find_account, begin, begin_batch, postpone, postponed, due, expire_sessions,
}
use appbase.AccountTable.Erased.{NoData, begin_batch-NoData}
use appbase.AccountTable.Status.{step, find-step, found_id}
use appbase.Deletion.{AccountWorld, delete}
use appbase.Accounts.{
  Principal, given, request_deletion, request_for, process, put_off, process_all, process_due,
}

begin_absent :
    (others : Others) (id : String) (clock : ℕ) (db : Database)
    → find_account id db.accounts ≡ none
    → begin others id clock db ≡ (err (plain "Application account does not exist."), db)
unfolding begin
begin_absent others id clock db h = rw h refl

begin_runs :
    (others : Others) (id : String) (clock : ℕ) (a : Account) (db : Database)
    → find_account id db.accounts ≡ some a
    → begin others id clock db ≡ (ok tt, begin_batch id clock (others 1 db))
unfolding begin
begin_runs others id clock a db h = rw h refl

begin_erases :
    (others : Others) (id : String) (clock : ℕ) (db db' : Database) (u : Unit {0})
    → begin others id clock db ≡ (ok u, db')
    → NoData id db'
begin_erases others id clock db db' u h = elim (Option-cases (find_account id db.accounts)) [
  | inl absent ↦ absurd (cc (h, begin_absent others id clock db absent))
  | inr (a, found) ↦
      let there : begin_batch id clock (others 1 db) ≡ db' =
        cc (h, begin_runs others id clock a db found) in
      subst (NoData id) there (begin_batch-NoData id clock (others 1 db))
]

request_erases :
    (world : AccountWorld) (o : Option String) (id : String) (db db' : Database)
    → request_for world o db ≡ (ok id, db')
    → (o ≡ some id) × NoData id db'
unfolding request_for
request_erases world none id db db' h = cc h
request_erases world (some named) id db db' h =
    let (u, mid, begun, done) =
      >>=-eq-ok (begin world.others named (world.unixepoch 0)) (λ _. pure named) db id db' h in
    let same : named ≡ id = cc done in
    let there : mid ≡ db' = cc done in
    (
      ap some same,
      subst (NoData id) there (
          subst (λ n. NoData n mid) same
            (begin_erases world.others named (world.unixepoch 0) db mid u begun)),
    )

-- When a request for deletion is answered, it was for the principal's own account, and at that
-- moment the account has no record, key, grant or usage, whatever other requests wrote meanwhile.
pub request_deletion-NoData :
    (world : AccountWorld) (principal : Principal) (id : String) (db db' : Database)
    → request_deletion world principal db ≡ (ok id, db')
    → (given principal.account_id ≡ some id) × NoData id db'
unfolding request_deletion
request_deletion-NoData world principal id db db' h =
    request_erases world (given principal.account_id) id db db' h

-- The database after every one of the accounts was processed, in order, whatever came of each.
abbrev pub after_all : (ℕ → AccountWorld) → ℕ → List String → Database → Database
after_all worlds n [] db = db
after_all worlds n (id ∷ ids) db = after_all worlds (suc n) ids (process (worlds n) id db).1

both_ways :
    (r : Result (Unit {0})) (rest : Db (Unit {0})) (db : Database)
    → catch r (λ _. rest) (λ _. rest) db ≡ rest db
both_ways (ok u) rest db = refl
both_ways (err e) rest db = refl

process_all-all :
    (worlds : ℕ → AccountWorld) (n : ℕ) (ids : List String) (db : Database)
    → process_all worlds n ids db ≡ (ok tt, after_all worlds n ids db)
unfolding process_all
process_all-all worlds n [] db = refl
process_all-all worlds n (id ∷ ids) db =
    both_ways (process (worlds n) id db).0 (process_all worlds (suc n) ids)
      (process (worlds n) id db).1
    ∙ process_all-all worlds (suc n) ids (process (worlds n) id db).1

-- The clean-up always returns, and by then it has processed every account that was due, up to
-- twenty, one after the other, whether the deletions of those before it succeeded or failed.
pub process_due-all :
    (world : AccountWorld) (worlds : ℕ → AccountWorld) (db : Database)
    → let found = world.others 1 (expire_sessions (world.now 0) db) in
      process_due world worlds db ≡ (ok tt, after_all worlds 0 (due (world.now 1) 20 found) found)
unfolding process_due
process_due-all world worlds db = process_all-all worlds 0 _ _

pub process_failed :
    (world : AccountWorld) (id : String) (e : Failure) (db mid : Database)
    → delete world id db ≡ (err e, mid)
    → process world id db ≡ (err e, postpone id (world.now 0) (world.others 0 mid))
unfolding process put_off
process_failed world id e db mid h = rw h refl

-- What a failed deletion leaves of an account that is being deleted.
pub record IsPostponed (id : String) (now : ℕ) (a : Account) (db : Database) : Type 0 where
  pub next : ℕ
  pub found :
      find_account id db.accounts
      ≡ some (record a { cleanup_attempts = suc a.cleanup_attempts; next_cleanup_at = some next })
  pub later : now < next
  pub soon : next ≤ now + 3600

-- If the deletion of an account throws, `process` throws the same, and the account, if it is
-- `deleting` and no other request comes between, is tried again after at most an hour, and not at
-- once.
pub process-IsPostponed :
    (world : AccountWorld) (id : String) (e : Failure) (a : Account) (db mid : Database)
    → delete world id db ≡ (err e, mid)
    → world.others 0 mid ≡ mid
    → find_account id mid.accounts ≡ some a
    → a.status ≡ deleting
    → (db' : Database) × (process world id db ≡ (err e, db')) × IsPostponed id (world.now 0) a db'
unfolding postpone
process-IsPostponed world id e a db mid failed quiet found going = (
  postpone id (world.now 0) mid,
  process_failed world id e db mid failed ∙ ap (λ d. (err e, postpone id (world.now 0) d)) quiet,
  record {
    next = world.now 0 + min 3600 (60 * suc a.cleanup_attempts);
    found =
        find-step id id deleting (postponed (world.now 0)) mid.accounts a (λ b. refl) found ∙ taken;
    later = omega arith;
    soon = omega arith;
  },
)
  where
    taken : some (step id deleting (postponed (world.now 0)) a) ≡ some (postponed (world.now 0) a)
    taken = rw (found_id id mid.accounts a found, eq_refl id, going) refl
