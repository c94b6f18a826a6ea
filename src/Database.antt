-- ===== src/Database.antt =====
-- packages/server/migrations: the tables of the D1 database, as the last migration leaves them.
-- A JSON column holds the value that its text stands for. The migration of an older database is
-- not modelled; nor are the indexes that only make queries fast.
pub mod Fence
use appbase.Prelude.{ℕ, String, Bool, true, false, Option, List, []}
use appbase.Action.{Action}
use appbase.Domain.Sync.{StoredVersion}
use appbase.Domain.Billing.{BillingEnvironment, BillingCatalog, BillingState}

-- appbase_user_keys
pub record UserKey : Type 0 where
  pub owner_sub : String
  pub key_version : ℕ
  pub wrapped_key : String
  pub wrap_nonce : String
  pub created_at : ℕ

-- appbase_membership_grants
pub record GrantRow : Type 0 where
  pub environment : BillingEnvironment
  pub id : String
  pub owner_sub : String
  pub plan_id : String
  pub source : String
  pub starts_at : ℕ
  pub ends_at : Option ℕ
  pub created_at : ℕ

-- appbase_membership_usage
pub record UsageRow : Type 0 where
  pub environment : BillingEnvironment
  pub owner_sub : String
  pub capability : String
  pub period_key : String
  pub item_key : String
  pub created_at : ℕ

-- appbase_billing_catalog; the check on `id` leaves one row for each environment.
pub record CatalogRow : Type 0 where
  pub environment : BillingEnvironment
  pub revision : ℕ
  pub catalog : BillingCatalog

-- appbase_billing_accounts
pub record BillingAccount : Type 0 where
  pub environment : BillingEnvironment
  pub owner_sub : String
  pub app_user_id : String
  pub generation : ℕ
  pub state : Option BillingState

-- appbase_billing_events
pub record EventRow : Type 0 where
  pub environment : BillingEnvironment
  pub id : String
  pub processed_at : ℕ

-- appbase_accounts
pub data AccountStatus : Type 0 where
  active deleting deleted : AccountStatus

abbrev pub status_eq : AccountStatus → AccountStatus → Bool
status_eq active active = true
status_eq deleting deleting = true
status_eq deleted deleted = true
status_eq _ _ = false

pub record Account : Type 0 where
  pub id : String
  pub subject : Option String
  pub status : AccountStatus
  pub legacy : Bool
  pub created_at : ℕ
  pub deletion_requested_at : Option ℕ
  pub deleted_at : Option ℕ
  pub next_cleanup_at : Option ℕ
  pub cleanup_attempts : ℕ

-- appbase_devices
pub record Device : Type 0 where
  pub token_hash : String
  pub account_id : String
  pub device_id : String
  pub scopes : List String
  pub created_at : ℕ
  pub expires_at : ℕ

-- `last_sequence` is the counter of AUTOINCREMENT: numbers of deleted records are not used again.
pub record Database : Type 0 where
  pub records : List StoredVersion
  pub last_sequence : ℕ
  pub user_keys : List UserKey
  pub grants : List GrantRow
  pub usage : List UsageRow
  pub catalogs : List CatalogRow
  pub billing_accounts : List BillingAccount
  pub events : List EventRow
  pub accounts : List Account
  pub devices : List Device

abbrev pub empty_database : Database
empty_database = record {
  records = [];
  last_sequence = 0;
  user_keys = [];
  grants = [];
  usage = [];
  catalogs = [];
  billing_accounts = [];
  events = [];
  accounts = [];
  devices = [];
}

-- A function of an adapter or of a use case over the database.
abbrev pub Db : Type 0 → Type 0
Db A = Action Database A
