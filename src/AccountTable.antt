-- ===== src/AccountTable.antt =====
-- packages/server/src/adapters/d1_accounts.ts: application accounts and device sessions in D1.
-- A method that is one statement is a function here; the order of statements in a method that has
-- several is kept, and other requests run before each but the first.
pub mod Absent
pub mod Status
pub mod Sessions
pub mod Keeping
pub mod Erased
use Prim.Native.Nat.{Ordering}
use Prim.Native.String.{compare}
use appbase.Prelude.{
  ℕ, zero, suc, ◌+◌, ◌*◌, min, String, Bool, true, false, not, ◌&&◌, ◌||◌, Option, none, some, List,
  [], ◌∷◌, ◌++◌, map, ◌==◌, ltb, leb, nat_eq, option_eq, get_or, find?, select, any, take,
  if◌then◌else◌,
}
use appbase.Action.{plain, rejected, pure, gets, modify, or_throw, require, ◌>>=◌, ◌>>◌}
use appbase.Domain.Sync.{StoredVersion}
use appbase.Database.{
  UserKey, GrantRow, UsageRow, BillingAccount, AccountStatus, active, deleting, deleted, status_eq,
  Account, Device, Database, Db,
}
use appbase.Database.Fence.{is_active, guard_device}

-- What other requests do to the database before the n-th call of it.
abbrev pub Others : Type 0
Others = ℕ → Database → Database

abbrev pub await : Others → ℕ → Db (Unit {0})
await others n = modify (others n)

-- `find`. A table's row stands for the columns that are selected of it.
unfoldable pub find_account : String → List Account → Option Account
find_account id accounts = find? (λ a. a.id == id) accounts

unfoldable pub current : String → List Account → Option Account
current subject accounts = find? (λ a. option_eq a.subject (some subject)) accounts

abbrev pub new_account : String → String → ℕ → Account
new_account id subject now = record {
  id = id;
  subject = some subject;
  status = active;
  legacy = false;
  created_at = now;
  deletion_requested_at = none;
  deleted_at = none;
  next_cleanup_at = none;
  cleanup_attempts = 0;
}

-- The primary key and the unique index appbase_accounts_current_identity.
unfoldable pub clashes : String → String → List Account → Bool
clashes id subject accounts = any (λ a. a.id == id || option_eq a.subject (some subject)) accounts

-- ON CONFLICT DO NOTHING
unfoldable pub insert_account : String → String → ℕ → Database → Database
unfolding clashes
insert_account id subject now db =
    if clashes id subject db.accounts
    then db
    else record db { accounts = db.accounts ++ new_account id subject now ∷ [] }

unfoldable pub register : Others → String → String → ℕ → Db Account
unfolding insert_account
register others subject id now = do
  await others 1
  modify (insert_account id subject now)
  await others 2
  account ← gets (λ db. current subject db.accounts)
  or_throw account (plain "Account registration did not persist.")

-- `DeviceSession`
pub record DeviceSession : Type 0 where
  pub account_id : String
  pub device_id : String
  pub subject : String
  pub scopes : List String
  pub expires_at : ℕ

abbrev pub device_row : String → DeviceSession → ℕ → Device
device_row hash s now = record {
  token_hash = hash;
  account_id = s.account_id;
  device_id = s.device_id;
  scopes = s.scopes;
  created_at = now;
  expires_at = s.expires_at;
}

-- The primary key is the hash.
unfoldable pub save_session : String → DeviceSession → ℕ → Db (Unit {0})
save_session hash s now = do
  guard_device s.account_id
  known ← gets (λ db. any (λ d. d.token_hash == hash) db.devices)
  require (not known) (rejected "appbase_devices")
  modify (λ db. record db { devices = db.devices ++ device_row hash s now ∷ [] })

join_account : Device → Option Account → Option DeviceSession
join_account d none = none
join_account d (some a) = some (record {
  account_id = d.account_id;
  device_id = d.device_id;
  subject = get_or a.subject "";
  scopes = d.scopes;
  expires_at = d.expires_at;
})

session_of : Option Device → List Account → Option DeviceSession
unfolding join_account
session_of none accounts = none
session_of (some d) accounts = join_account d (find_account d.account_id accounts)

unfoldable pub session : String → Database → Option DeviceSession
unfolding session_of
session hash db = session_of (find? (λ d. d.token_hash == hash) db.devices) db.accounts

unfoldable pub revoke_session : String → Database → Database
revoke_session hash db = record db { devices = select (λ d. not (d.token_hash == hash)) db.devices }

-- `!!account && account.status !== "active"`
abbrev pub is_closed : Option Account → Bool
is_closed none = false
is_closed (some a) = not (is_active a.status)

unfoldable pub is_deleted : String → Database → Bool
unfolding find_account
is_deleted id db = is_closed (find_account id db.accounts)

-- UPDATE … WHERE id=? AND status=?
abbrev pub update_account :
    String → AccountStatus → (Account → Account) → List Account → List Account
update_account id status f accounts =
    map (λ a. if a.id == id && status_eq a.status status then f a else a) accounts

abbrev pub begun : ℕ → Account → Account
begun clock a = record a {
  status = deleting;
  deletion_requested_at = some (get_or a.deletion_requested_at clock);
  next_cleanup_at = some 0;
}

-- DELETE FROM … WHERE owner_sub=?
abbrev pub erase {ℓ} : {A : Type ℓ} → (A → String) → String → List A → List A
erase owner id rows = select (λ r. not (owner r == id)) rows

-- The batch, a transaction.
unfoldable pub begin_batch : String → ℕ → Database → Database
begin_batch id clock db = record db {
  accounts = update_account id active (begun clock) db.accounts;
  records = erase (λ r. r.owner_sub) id db.records;
  user_keys = erase (λ r. r.owner_sub) id db.user_keys;
  grants = erase (λ r. r.owner_sub) id db.grants;
  usage = erase (λ r. r.owner_sub) id db.usage;
}

unfoldable pub begin : Others → String → ℕ → Db (Unit {0})
unfolding begin_batch
begin others id clock = do
  account ← gets (λ db. find_account id db.accounts)
  or_throw account (plain "Application account does not exist.")
  await others 1
  modify (begin_batch id clock)

unfoldable pub pending_billing_identities : String → Database → List String
pending_billing_identities id db =
    map (λ b. b.app_user_id) (select (λ b. b.owner_sub == id) db.billing_accounts)

unfoldable pub complete_billing_identity : String → String → Database → Database
complete_billing_identity id identity db = record db {
  billing_accounts =
      select (λ b. not (b.owner_sub == id && b.app_user_id == identity)) db.billing_accounts;
}

abbrev pub completed : ℕ → Account → Account
completed clock a = record a {
  status = deleted;
  subject = none;
  deleted_at = some clock;
  next_cleanup_at = none;
}

unfoldable pub complete : String → ℕ → Database → Database
complete id clock db =
    if any (λ b. b.owner_sub == id) db.billing_accounts
    then db
    else record db { accounts = update_account id deleting (completed clock) db.accounts }

-- ORDER BY next_cleanup_at,id; a comparison with NULL is not true.
unfoldable pub is_due : ℕ → Account → Bool
is_due now a =
    status_eq a.status deleting && elim a.next_cleanup_at [ none ↦ false | some t ↦ leb t now ]

abbrev cleanup_at : Account → ℕ
cleanup_at a = get_or a.next_cleanup_at 0

abbrev text_before : String → String → Bool
text_before s t = elim (compare s t) [ Ordering.lt ↦ true | _ ↦ false ]

unfoldable pub comes_before : Account → Account → Bool
comes_before a b =
    ltb (cleanup_at a) (cleanup_at b)
    || (nat_eq (cleanup_at a) (cleanup_at b) && text_before a.id b.id)

unfoldable pub insert_sorted : Account → List Account → List Account
unfolding comes_before
insert_sorted a [] = a ∷ []
insert_sorted a (b ∷ bs) = if comes_before b a then b ∷ insert_sorted a bs else a ∷ b ∷ bs

unfoldable pub sort_due : List Account → List Account
unfolding insert_sorted
sort_due [] = []
sort_due (a ∷ accounts) = insert_sorted a (sort_due accounts)

unfoldable pub due : ℕ → ℕ → Database → List String
unfolding sort_due is_due
due now limit db = map (λ a. a.id) (take limit (sort_due (select (is_due now) db.accounts)))

abbrev pub postponed : ℕ → Account → Account
postponed now a = record a {
  cleanup_attempts = suc a.cleanup_attempts;
  next_cleanup_at = some (now + min 3600 (60 * suc a.cleanup_attempts));
}

unfoldable pub postpone : String → ℕ → Database → Database
postpone id now db = record db { accounts = update_account id deleting (postponed now) db.accounts }

unfoldable pub expire_sessions : ℕ → Database → Database
expire_sessions now db = record db { devices = select (λ d. ltb now d.expires_at) db.devices }
