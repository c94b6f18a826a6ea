-- ===== src/Lib.antt =====
-- The server of AppBase: a store of versioned JSON records that devices synchronize, over the D1
-- database of a Cloudflare worker.
--
-- The parts and their files. All source paths are under packages/server/src unless they say more.
--   Prelude    numbers, lists and options that all modules share.
--   Json       domain/sync.ts, the JSON values and `jsonEquals`.
--   Domain     domain/sync.ts, domain/membership.ts and domain/billing.ts, the types.
--   Action     asynchronous functions that read and write a state and may throw.
--   Database   packages/server/migrations: the tables, and the triggers that fence an account.
--   Merge      domain/sync.ts: `defaultThreeWayMerge`, `preferredPayload`.
--   Base64     domain/cursor.ts: `bytesToBase64Url`, `base64UrlToBytes`.
--   Cursor     domain/cursor.ts: `encodeCursor`, `decodeCursor`.
--   Keyring    adapters/envelope_secret_codec.ts, its functions without the database: keyring,
--              envelopes, associated data.
--   Envelope   adapters/envelope_secret_codec.ts: `seal`, `open` and `userKey`.
--   Rotation   adapters/envelope_secret_codec.ts: `reencryptBatch`, `retireUserKeys`, `keyUsage`.
--   Http       http/app.ts: the routes, their guards and their answers.
--   Records    adapters/d1_sync_repository.ts: `D1SyncRepository`, over the table appbase_records.
--   Sync       usecases/sync.ts: `pushMutations` and what it calls.
--   Pull       usecases/sync.ts: `pullChanges`.
--   AccountTable  adapters/d1_accounts.ts: `D1AccountRepository`, over appbase_accounts and
--              appbase_devices.
--   Deletion   usecases/account_deletion.ts: `AccountDeletionService`.
--   Accounts   usecases/accounts.ts: `AccountService`; adapters/account_auth_verifier.ts.
--   MembershipTable  adapters/d1_membership_repository.ts: `D1MembershipRepository`.
--   Membership usecases/membership.ts: `MembershipService`, over any repository.
--   Billing    domain/billing.ts: `billingGrant`.
--   BillingTable  adapters/d1_billing_repository.ts: `D1BillingRepository`.
--   Purchases  usecases/billing.ts: `BillingService`, synchronization and notifications;
--              usecases/billing_membership_repository.ts.
--   Catalogs   domain/billing.ts: `validateCatalog`; usecases/billing.ts: `replaceCatalog`.
-- A push reads versions through Records, merges them by Merge, seals payloads by a `SecretCodec`,
-- and writes them by `append`, whose statement tests and inserts at once. A pull reads a page by
-- `list_changes` and names its end by a cursor. Accounts registers an account and issues sessions
-- through AccountTable; a request for deletion closes the account and erases its rows at once, the
-- triggers in Database/Fence refuse every later write for it, and the scheduled clean-up runs
-- Deletion until the payment provider's data is gone too. Purchases stores the snapshots that the
-- provider gives of a user's purchases, Billing chooses a plan's grant from them, and Membership
-- counts the use of the plan's capabilities through MembershipTable.
--
-- Http checks a request, calls these services, and answers with what they return or with the problem
-- that stands for what they throw.
--
-- State. `Database` has a field for each table, a list of its rows. An asynchronous function is an
-- `Action` on it: it gives a value or an error, and the database that it leaves, which stays
-- changed when an error is thrown. Where a push awaits the database, a `World` says what other
-- requests do to the database there (also while the codec reads a key), and what the clock and the random revisions give; an
-- `AccountWorld` says so for the account service, an `HttpWorld` for a request, a `BillingWorld` for a synchronization, and a
-- `KeyWorld` for the making of a user's key.
--
-- Bounds. Numbers of the code are natural numbers where the code keeps them so; a number in a JSON
-- value is an integer, a multiple of some unit: the merge only compares them, so that the unit may
-- be the 2^-1074 that every finite double is a multiple of; the version in an envelope is in ones,
-- and versions that are not whole are left out. The loop of a push has as
-- many rounds as the code, at least one. The digits of a number n are made with fuel n + 1, which
-- is enough since each division by ten makes n smaller, as the round trip of cursors shows.
-- Instants, ISO texts in the code, are numbers: texts of one format are ordered as their instants.
--
-- The texts of numbers are made with such fuel too. A limit is a whole number. The loops over
-- identities, accounts, plans and users are recursions on their lists.
--
-- Not modelled: the administration, OIDC and RevenueCat modules and http/billing.ts; of http/app.ts
-- the headers of responses and the report of requests; the
-- text of JSON columns, which holds the value it stands for; the order of
-- properties with integer names; unpaired surrogates; failures of the database itself. AES-GCM is
-- a parameter with its documented laws, in Envelope/Laws; the synchronization takes any codec with
-- the laws in Sync/Codec, which Envelope/Laws proves of the one in use.
pub mod AccountTable
pub mod Accounts
pub mod Action
pub mod Base64
pub mod Billing
pub mod BillingTable
pub mod Catalogs
pub mod Cursor
pub mod Database
pub mod Deletion
pub mod Domain
pub mod Envelope
pub mod Http
pub mod Json
pub mod Keyring
pub mod Membership
pub mod MembershipTable
pub mod Merge
pub mod Prelude
pub mod Pull
pub mod Purchases
pub mod Records
pub mod Rotation
pub mod Sync
