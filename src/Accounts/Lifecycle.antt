-- ===== src/Accounts/Lifecycle.antt =====
-- An account that is closed stays closed: no request takes it back, and none is served for it.
use appbase.Prelude.{ℕ, suc, String, ◌≡◌, refl, ap, ◌∙◌, Bool, true, false, not, Option, none, some}
use appbase.Action.{Result, ok, err, account_deleted, require, continue, pure}
use appbase.Database.{Database}
use appbase.AccountTable.{is_deleted, find_account}
use appbase.MembershipTable.{release_usage}
use appbase.Accounts.Writes.{Allows}
use appbase.AccountTable.Status.{Passed, calls-Passed, Passed-closed}
use appbase.Deletion.{require_active}
use appbase.Accounts.{Principal, given, require_account, require_for}
use appbase.Accounts.Erasure.{Request, serve, serve-Keeps, Among}

-- Writes for other services leave the accounts.
allows-Passed : (k : ℕ) (id : String) → Allows (Passed k id)
allows-Passed k id = record {
  writes = λ owner db later only free (a, found, far).
      (a, ap (find_account id) only.accounts ∙ found, far);
  releases = λ key item db h. unfold release_usage in h;
}

-- An account that has reached `deleting` or `deleted` (`k` is 1 or 2) is there and no further back
-- after an opening of a session, a request for deletion, the scheduled clean-up, a batch of
-- mutations, a claim or release of a use, a grant or a synchronization of purchases, whoever asks
-- for it, returning or throwing, if what runs between its calls keeps the account so too.
pub serve-Passed :
    (k : ℕ) (id : String) (hash : String → String) (request : Request) (db : Database)
    → Among (Passed k id) request
    → Passed k id db
    → Passed k id (serve hash request db)
serve-Passed k id hash request db kept h =
    serve-Keeps (Passed k id) hash request db (calls-Passed k id) (allows-Passed k id) kept h

require_refused :
    (principal : Principal) (id : String) (db : Database)
    → is_deleted id db ≡ true
    → require_for principal (some id) db ≡ (err account_deleted, db)
unfolding require_for require_active
require_refused principal id db shut = rw shut refl

-- The bearer of a session of a closed account is refused.
pub require_account-Passed :
    (k : ℕ) (principal : Principal) (id : String) (db : Database)
    → given principal.account_id ≡ some id
    → Passed (suc k) id db
    → require_account principal db ≡ (err account_deleted, db)
unfolding require_account
require_account-Passed k principal id db named h =
    ap (λ o. require_for principal o db) named
    ∙ require_refused principal id db (Passed-closed k id db h)

-- The checks of an account only read.
pub require_active-reads : (owner : String) (db : Database) → (require_active owner db).1 ≡ db
unfolding require_active
require_active-reads owner db = go (not (is_deleted owner db))
  where
    go : (passes : Bool) → (require passes account_deleted db).1 ≡ db
    go true = refl
    go false = refl

require_for-reads :
    (principal : Principal) (o : Option String) (db : Database)
    → (require_for principal o db).1 ≡ db
unfolding require_for
require_for-reads principal none db = refl
require_for-reads principal (some id) db = go (require_active id db) (require_active-reads id db)
  where
    go :
        (outcome : Result (Unit {0}) × Database)
        → outcome.1 ≡ db
        → (continue outcome.0 (λ _. pure principal) outcome.1).1 ≡ db
    go (ok u, d) same = same
    go (err e, d) same = same

pub require_account-reads :
    (principal : Principal) (db : Database) → (require_account principal db).1 ≡ db
unfolding require_account
require_account-reads principal db = require_for-reads principal (given principal.account_id) db
