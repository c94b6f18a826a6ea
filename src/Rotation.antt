-- ===== src/Rotation.antt =====
-- packages/server/src/adapters/envelope_secret_codec.ts: what an operator calls to replace a master
-- key. `open` and `seal` are those of any codec here. A JSON column holds the value that its text
-- stands for, so the texts of two payloads are equal when their structures are; the version of a
-- payload is that of an envelope, a number.
pub mod Counting
pub mod Progress
pub mod Retirement
mod Tests
pub mod Kept
pub mod Reads
pub mod Batches
use appbase.Prelude.{
  ℕ, zero, suc, ◌+◌, ◌-◌, String, Bool, true, false, ◌&&◌, not, Option, none, some, List, [], ◌∷◌,
  leb, ltb, nat_eq, length, select, any, take, map, lookup, if◌then◌else◌,
}
use appbase.Prelude.Int.{ℤ, pos}
use appbase.Action.{plain, pure, gets, modify, require, ◌>>=◌, ◌>>◌}
use appbase.Json.{JsonObject, json_eq, obj, fields}
use appbase.Domain.Sync.{StoredVersion}
use appbase.Database.{Database, UserKey, Db}
use appbase.Database.Fence.{fenced, deleted_abort}
use appbase.Keyring.{number_at}
use appbase.Envelope.{require_version}
use appbase.Sync.{SecretCodec}

pub record KeyVersionUsage : Type 0 where
  pub key_version : ℕ
  pub envelope_count : ℕ
  pub user_key_count : ℕ

pub record KeyRotationBatchResult : Type 0 where
  pub from_version : ℕ
  pub to_version : ℕ
  pub selected : ℕ
  pub migrated : ℕ
  pub skipped : ℕ
  pub remaining : ℕ

abbrev pub as_version : Option ℤ → Option ℕ
as_version (some (pos n)) = some n
as_version _ = none

-- CAST(json_extract(payload_json, '$.keyVersion') AS INTEGER)
unfoldable pub payload_version : Option JsonObject → Option ℕ
payload_version none = none
payload_version (some e) = as_version (number_at (lookup "keyVersion" e))

abbrev pub is_at : ℕ → Option ℕ → Bool
is_at version none = false
is_at version (some v) = nat_eq v version

-- payload_json IS NOT NULL AND its version = ?1
unfoldable pub is_under : ℕ → StoredVersion → Bool
unfolding payload_version
is_under version v = is_at version (payload_version v.payload)

-- `envelopeCount`
unfoldable pub envelope_count : ℕ → List StoredVersion → ℕ
unfolding is_under
envelope_count version records = length (select (is_under version) records)

abbrev pub is_payload : JsonObject → Option JsonObject → Bool
is_payload old none = false
is_payload old (some p) = json_eq (obj (fields p)) (obj (fields old))

-- WHERE sequence = ?2 AND payload_json = ?3
unfoldable pub holds : ℕ → JsonObject → StoredVersion → Bool
holds sequence old v = nat_eq v.sequence sequence && is_payload old v.payload

unfoldable pub replaced : ℕ → JsonObject → JsonObject → StoredVersion → StoredVersion
unfolding holds
replaced sequence old new v = if holds sequence old v then record v { payload = some new } else v

-- The update, with its trigger; it returns the number of rows that changed.
unfoldable pub replace_payload : ℕ → JsonObject → JsonObject → Db ℕ
unfolding replaced holds fenced
replace_payload sequence old new db =
    (do
      require (not (any (λ v. holds sequence old v && fenced db.accounts v.owner_sub) db.records))
          deleted_abort
      modify (λ d. record d { records = map (replaced sequence old new) d.records })
      pure (length (select (holds sequence old) db.records)))
      db

-- The tests of a batch's arguments.
unfoldable pub check_batch : ℕ → ℕ → ℕ → Db (Unit {0})
unfolding require_version
check_batch current_version from_version limit = do
  require_version from_version
  require (not (nat_eq from_version current_version))
      (plain "The current AppBase master key cannot be migrated.")
  require (leb 1 limit && leb limit 1000)
      (plain "AppBase rotation batch size must be from 1 to 1000.")

module _ (codec : SecretCodec) (others : ℕ → Database → Database) where
  -- Other requests may write between the reading of a payload and its replacement.
  unfoldable pub reencrypt_payload : ℕ → StoredVersion → Option JsonObject → Db ℕ
  unfolding replace_payload
  reencrypt_payload n row none = pure 0
  reencrypt_payload n row (some envelope) = do
    payload ← codec.unseal row.owner_sub row.collection row.record_id envelope
    rotated ← codec.seal row.owner_sub row.collection row.record_id payload
    modify (others n)
    replace_payload row.sequence envelope rotated

  -- The loop over the rows, which sums the changes.
  unfoldable pub reencrypt_rows : ℕ → List StoredVersion → Db ℕ
  unfolding reencrypt_payload
  reencrypt_rows n [] = pure 0
  reencrypt_rows n (row ∷ rest) = do
    changes ← reencrypt_payload n row row.payload
    more ← reencrypt_rows (suc n) rest
    pure (changes + more)

  unfoldable pub run_batch : ℕ → ℕ → ℕ → Db KeyRotationBatchResult
  unfolding reencrypt_rows is_under envelope_count
  run_batch current_version from_version limit = do
    rows ← gets (λ db. take limit (select (is_under from_version) db.records))
    migrated ← reencrypt_rows 0 rows
    remaining ← gets (λ db. envelope_count from_version db.records)
    pure (record {
      from_version = from_version;
      to_version = current_version;
      selected = length rows;
      migrated = migrated;
      skipped = length rows - migrated;
      remaining = remaining;
    })

  unfoldable pub reencrypt_batch : ℕ → ℕ → ℕ → Db KeyRotationBatchResult
  unfolding check_batch run_batch
  reencrypt_batch current_version from_version limit = do
    check_batch current_version from_version limit
    run_batch current_version from_version limit

-- DELETE FROM appbase_user_keys WHERE key_version = ?1
unfoldable pub delete_keys : ℕ → Db ℕ
delete_keys version db =
    (modify (λ d. record d {
      user_keys = select (λ k. not (nat_eq k.key_version version)) d.user_keys;
    })
        >> pure (length (select (λ k. nat_eq k.key_version version) db.user_keys)))
      db

-- Other requests may write between the count and the deletion.
unfoldable pub retire_user_keys : (Database → Database) → ℕ → ℕ → Db ℕ
unfolding require_version envelope_count delete_keys
retire_user_keys others current_version version = do
  require_version version
  require (not (nat_eq version current_version))
      (plain "The current AppBase master key cannot be retired.")
  count ← gets (λ db. envelope_count version db.records)
  require (nat_eq count 0) (plain "AppBase key version still encrypts stored payloads.")
  modify others
  delete_keys version

-- COUNT(*) … GROUP BY, as a count for each version.
add_count : ℕ → List (ℕ × ℕ) → List (ℕ × ℕ)
add_count version [] = (version, 1) ∷ []
add_count version ((v, n) ∷ rest) =
    if nat_eq v version then (v, suc n) ∷ rest else (v, n) ∷ add_count version rest

unfoldable pub group_counts : List ℕ → List (ℕ × ℕ)
unfolding add_count
group_counts [] = []
group_counts (version ∷ rest) = add_count version (group_counts rest)

payload_versions : List StoredVersion → List ℕ
unfolding payload_version
payload_versions [] = []
payload_versions (v ∷ rest) = elim (payload_version v.payload) [
  | none ↦ payload_versions rest
  | some n ↦ n ∷ payload_versions rest
]

-- `usage.set(key_version, { …, userKeyCount })`
set_user_keys : ℕ → ℕ → List KeyVersionUsage → List KeyVersionUsage
set_user_keys version count [] =
    record { key_version = version; envelope_count = 0; user_key_count = count } ∷ []
set_user_keys version count (u ∷ rest) =
    if nat_eq u.key_version version
    then record u { user_key_count = count } ∷ rest
    else u ∷ set_user_keys version count rest

add_user_keys : List (ℕ × ℕ) → List KeyVersionUsage → List KeyVersionUsage
unfolding set_user_keys
add_user_keys [] usage = usage
add_user_keys ((version, count) ∷ rest) usage =
    add_user_keys rest (set_user_keys version count usage)

insert_usage : KeyVersionUsage → List KeyVersionUsage → List KeyVersionUsage
insert_usage u [] = u ∷ []
insert_usage u (w ∷ rest) =
    if leb u.key_version w.key_version then u ∷ w ∷ rest else w ∷ insert_usage u rest

-- `sort((left, right) => left.keyVersion - right.keyVersion)`
sort_usage : List KeyVersionUsage → List KeyVersionUsage
unfolding insert_usage
sort_usage [] = []
sort_usage (u ∷ rest) = insert_usage u (sort_usage rest)

unfoldable pub key_usage : Database → List KeyVersionUsage
unfolding payload_versions group_counts add_user_keys sort_usage
key_usage db = sort_usage (
    add_user_keys (group_counts (map (λ k. k.key_version) db.user_keys)) (
      map (λ (v, n). record { key_version = v; envelope_count = n; user_key_count = 0 })
        (group_counts (payload_versions db.records))))
