-- ===== src/Accounts/Erasure.antt =====
-- Requests of every kind keep closed accounts without data.
use appbase.Prelude.{
  ℕ, String, ◌≡◌, ◌≢◌, refl, sym, subst, false, Option, List, [], ◌∷◌, All, All-mono,
}
use appbase.Prelude.Int.{ℤ}
use appbase.Domain.Billing.{BillingEnvironment}
use appbase.Domain.Sync.{SyncMutation}
use appbase.Database.{Database, Device, GrantRow, Account, AccountStatus, deleted}
use appbase.Database.Fence.{fenced, is_active}
use appbase.AccountTable.{Others}
use appbase.AccountTable.Absent.{select-Absent, fenced-Absent}
use appbase.Keyring.{Platform, MasterKeyring}
use appbase.Envelope.{KeyWorld, KeyPoint, envelope_codec}
use appbase.Sync.{World, Point, push_mutations}
use appbase.MembershipTable.{UsageKey, claim_unique_usage, release_usage, put_grant}
use appbase.Purchases.{BillingService, BillingWorld, synchronize}
use appbase.Accounts.Writes.{OnlyOf, Allows, claim-Keeps, put_grant-Keeps}
use appbase.Accounts.Data.{batch-Keeps, synchronize-Keeps}
use appbase.AccountTable.Erased.{
  AreErased, IsErased, NoData, insert_account-AreErased, begin_batch-AreErased,
  complete_billing_identity-AreErased, complete-AreErased, postpone-AreErased,
}
use appbase.AccountTable.Keeping.{Respects, Respected}
use appbase.Deletion.{AccountWorld}
use appbase.Accounts.{Principal, OpenInput, open_account, request_deletion, process_due}
use appbase.Accounts.Keeping.{open_account-Keeps, request-Keeps, process_due-Keeps}

only_devices :
    (devices : List Device) (db : Database)
    → AreErased db
    → AreErased (record db { devices = devices })
only_devices devices db =
    All-mono (λ a h. record { closed = h.closed; finished = h.finished }) db.accounts

pub calls-AreErased : Respects AreErased
calls-AreErased = record {
  inserts = insert_account-AreErased;
  sessions = only_devices;
  begins = begin_batch-AreErased;
  identities = complete_billing_identity-AreErased;
  completes = complete-AreErased;
  postpones = postpone-AreErased;
}

-- Nothing but rows of an owner that is not fenced is written, so closed accounts get no data.
writes-AreErased :
    (owner : String) (db later : Database)
    → OnlyOf owner db later
    → fenced db.accounts owner ≡ false
    → AreErased db
    → AreErased later
writes-AreErased owner db later only free h =
    subst (All (IsErased later)) (sym only.accounts)
      (both db.accounts (fenced-Absent db.accounts owner free) h)
  where
    shut : (s : AccountStatus) → s ≡ deleted → is_active s ≡ false
    shut s e = subst (λ t. is_active t ≡ false) (sym e) refl

    both :
        (accounts : List Account)
        → All (λ a. is_active a.status ≡ false → owner ≢ a.id) accounts
        → All (IsErased db) accounts
        → All (IsErased later) accounts
    both [] other h = tt
    both (a ∷ accounts) other h = (
      record {
        closed = λ closed. only.rows a.id (other.0 closed) (h.0.closed closed);
        finished = λ done.
            let (billing, forgotten) = h.0.finished done in
            (only.billing a.id (other.0 (shut a.status done)) billing, forgotten);
      },
      both accounts other.1 h.1,
    )

released :
    (key : UsageKey) (item id : String) (db : Database)
    → NoData id db
    → NoData id (release_usage key item db)
unfolding release_usage
released key item id db (records, keys, grants, usage) =
    (records, keys, grants, select-Absent (λ u. u.owner_sub) id _ db.usage usage)

pub allows-AreErased : Allows AreErased
allows-AreErased = record {
  writes = writes-AreErased;
  releases = λ key item db.
      unfold release_usage in
      All-mono
        (λ a h. record {
          closed = λ shut. released key item a.id db (h.closed shut);
          finished = h.finished;
        })
        db.accounts;
}

-- What is asked of the server and writes to the database, and the clean-up that the worker's
-- schedule makes, each with what surrounds it: the requests of accounts, a batch of mutations over
-- the encrypting codec, a claim or a release of a capability's use, a grant, and a synchronization
-- of purchases.
pub data Request : Type 0 where
  opening : (world : AccountWorld) → Principal → OpenInput → Request
  requesting : (world : AccountWorld) → Principal → Request
  cleaning : (world : AccountWorld) (worlds : ℕ → AccountWorld) → Request
  pushing :
      (platform : Platform) (keyring : MasterKeyring) (keys : KeyWorld) (worlds : ℕ → World)
      → Option ℕ
      → String
      → List SyncMutation
      → Request
  claiming : (others : Others) → UsageKey → String → ℤ → ℕ → Request
  releasing : UsageKey → String → Request
  granting : BillingEnvironment → GrantRow → Request
  synchronizing : BillingService → (world : BillingWorld) → String → Request

pub serve : (String → String) → Request → Database → Database
serve hash (opening world principal input) db = (open_account hash world principal input db).1
serve hash (requesting world principal) db = (request_deletion world principal db).1
serve hash (cleaning world worlds) db = (process_due world worlds db).1
serve hash (pushing platform keyring keys worlds retries owner ms) db =
    (push_mutations
      (record {
        secret_codec = envelope_codec platform keyring keys;
        max_conflict_retries = retries;
      })
      owner worlds 0 ms db).1
serve hash (claiming others key item limit now) db =
    (claim_unique_usage others key item limit now db).1
serve hash (releasing key item) db = release_usage key item db
serve hash (granting environment input) db = (put_grant environment input db).1
serve hash (synchronizing service world owner) db = (synchronize service world owner db).1

-- What runs between the request's calls keeps `P`.
abbrev pub Among : (Database → Type 0) → Request → Type 0
Among P (opening world principal input) = Respected P world.others
Among P (requesting world principal) = Respected P world.others
Among P (cleaning world worlds) =
    Respected P world.others × ((n : ℕ) → Respected P (worlds n).others)
Among P (pushing platform keyring keys worlds retries owner ms) =
    ((p : KeyPoint) (db : Database) → P db → P (keys.others p db))
    × ((n : ℕ) (p : Point) (db : Database) → P db → P ((worlds n).others p db))
Among P (claiming others key item limit now) = Respected P others
Among P (releasing key item) = Unit
Among P (granting environment input) = Unit
Among P (synchronizing service world owner) = Respected P world.others

pub serve-Keeps :
    (P : Database → Type 0) (hash : String → String) (request : Request) (db : Database)
    → Respects P
    → Allows P
    → Among P request
    → P db
    → P (serve hash request db)
unfolding serve
serve-Keeps P hash (opening world principal input) db calls allows kept h =
    (open_account-Keeps P calls world kept hash principal input).leaves db h
serve-Keeps P hash (requesting world principal) db calls allows kept h =
    (request-Keeps P calls world kept principal).leaves db h
serve-Keeps P hash (cleaning world worlds) db calls allows (kept, each) h =
    (process_due-Keeps P calls world worlds kept each).leaves db h
serve-Keeps P hash (pushing platform keyring keys worlds retries owner ms) db calls allows
      (kept, each) h =
    (batch-Keeps P allows platform keyring keys kept owner retries worlds ms each).leaves db h
serve-Keeps P hash (claiming others key item limit now) db calls allows kept h =
    (claim-Keeps P allows others kept key item limit now).leaves db h
serve-Keeps P hash (releasing key item) db calls allows kept h = allows.releases key item db h
serve-Keeps P hash (granting environment input) db calls allows kept h =
    (put_grant-Keeps P allows environment input).leaves db h
serve-Keeps P hash (synchronizing service world owner) db calls allows kept h =
    (synchronize-Keeps P allows service world kept owner).leaves db h

-- Whichever of these is served, returning or throwing, and whatever keeps the same runs between its
-- calls: an opening of a session, a request for deletion, the scheduled clean-up, a batch of
-- mutations with the keys that its encryption makes, a claim or release of a use, a grant, or a
-- synchronization of purchases. If no closed account had a record, a key, a grant or a usage, and
-- no deleted one a billing identity or a subject, this is so afterwards.
pub serve-AreErased :
    (hash : String → String) (request : Request) (db : Database)
    → Among AreErased request
    → AreErased db
    → AreErased (serve hash request db)
serve-AreErased hash request db kept h =
    serve-Keeps AreErased hash request db calls-AreErased allows-AreErased kept h
