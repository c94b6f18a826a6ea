-- ===== src/Database/Fence.antt =====
-- packages/server/migrations/0008_application_accounts.sql: the triggers that keep the data of an
-- account that is not active from being written.
use appbase.Prelude.{String, Bool, not, ◌&&◌, any, List, ◌==◌}
use appbase.Action.{Failure, rejected, require}
use appbase.Database.{Account, AccountStatus, active, status_eq, Db}

abbrev pub is_active : AccountStatus → Bool
is_active s = status_eq s active

-- EXISTS(SELECT 1 FROM appbase_accounts WHERE id = owner AND status <> 'active')
unfoldable pub fenced : List Account → String → Bool
fenced accounts owner = any (λ a. a.id == owner && not (is_active a.status)) accounts

-- EXISTS(SELECT 1 FROM appbase_accounts WHERE id = owner AND status = 'active')
unfoldable pub has_active : List Account → String → Bool
has_active accounts owner = any (λ a. a.id == owner && is_active a.status) accounts

abbrev pub deleted_abort : Failure
deleted_abort = rejected "APPBASE_ACCOUNT_DELETED"

-- The trigger of a table whose rows an account owns, before an insert or an update.
unfoldable pub guard_owner : String → Db (Unit {0})
unfolding fenced
guard_owner owner db = require (not (fenced db.accounts owner)) deleted_abort db

-- The trigger of appbase_devices, before an insert.
unfoldable pub guard_device : String → Db (Unit {0})
unfolding has_active
guard_device id db = require (has_active db.accounts id) deleted_abort db
