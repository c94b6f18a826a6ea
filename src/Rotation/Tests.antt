-- ===== src/Rotation/Tests.antt =====
-- Runs of the codec and of the rotation, and the theorems about them at a table with one envelope.
use appbase.Prelude.{ap, ◌⊎◌, ◌≤◌, ◌+◌, ℕ, ◌≡◌, ◌≢◌, refl, none, some, [], ◌∷◌, false, true}
use appbase.Action.{Result, ok, err}
use appbase.Json.{bool, JsonObject, json_eq}
use appbase.Domain.Sync.{StoredVersion}
use appbase.Database.{Database, empty_database}
use appbase.Prelude.Text.{codes, from_codes}
use appbase.Database.Fence.{guard_owner, fenced}
use appbase.Base64.{bytes_to_base64_url, base64_url_to_bytes}
use appbase.Keyring.{master_key, from_base64_url}
use appbase.Envelope.{find_key, seal, unseal, envelope_codec}
use appbase.Envelope.Postfix.{stringify, parse, scalar?}
use appbase.Envelope.Samples.{
  unary, read_unary, open_cipher, alone, zeros, first_keyring, second_keyring, second-Setting,
}
use appbase.Sync.{SyncDeps}
use appbase.Sync.Codec.{CodecLaws}
use appbase.Envelope.Laws.{envelope-CodecLaws}
use appbase.Envelope.Returns.{seal_then_open}
use appbase.Envelope.Moved.{unseal_moved}
use appbase.Rotation.{
  KeyVersionUsage, key_usage, reencrypt_batch, retire_user_keys, KeyRotationBatchResult,
  envelope_count,
}
use appbase.Rotation.Batches.{batch-Advances}
use appbase.Rotation.Reads.{ReadsAs, KeysGrow-refl}
use appbase.Rotation.Kept.{batch-ReadsAs}
use appbase.Rotation.Retirement.{IsRetired, retire-IsRetired}

abbrev payload : JsonObject
payload = ("a", bool true) ∷ []

abbrev sealed_or_none : Result JsonObject → JsonObject
sealed_or_none (ok e) = e
sealed_or_none (err e) = []

-- What the first keyring writes.
written : Result JsonObject × Database
unfolding seal unary stringify bytes_to_base64_url
written = seal open_cipher first_keyring alone "ann" "notes" "n1" payload empty_database

opened :
    unseal open_cipher first_keyring alone "ann" "notes" "n1" (sealed_or_none written.0) written.1
    ≡ (ok payload, written.1)
unfolding written unseal unary read_unary parse scalar? codes from_codes base64_url_to_bytes
    guard_owner
opened = refl

abbrev old_row : StoredVersion
old_row = record {
  sequence = 1;
  owner_sub = "ann";
  collection = "notes";
  record_id = "n1";
  device_id = "phone";
  mutation_id = "m1";
  revision = "r1";
  base_revision = none;
  payload = some (sealed_or_none written.0);
  deleted = false;
  created_at = 50;
}

abbrev stored : Database
stored = record written.1 { records = old_row ∷ []; last_sequence = 1 }

-- The row is encrypted again.
abbrev rotated : Result KeyRotationBatchResult × Database
rotated =
    reencrypt_batch (envelope_codec open_cipher second_keyring alone) (λ i db. db) 2 1 100 stored

abbrev report : KeyRotationBatchResult
report = record {
  from_version = 1;
  to_version = 2;
  selected = 1;
  migrated = 1;
  skipped = 0;
  remaining = 0;
}

rotates : rotated.0 ≡ ok report
unfolding written reencrypt_batch seal unseal unary read_unary parse stringify scalar? codes
    from_codes bytes_to_base64_url base64_url_to_bytes guard_owner json_eq
rotates = refl

batch-Advances_example :
    (report.migrated + report.remaining ≡ envelope_count 1 stored.records)
    × ((envelope_count 1 stored.records ≡ 0) ⊎ (1 ≤ report.migrated))
batch-Advances_example =
    batch-Advances open_cipher second_keyring alone second-Setting 1 100 report stored rotated.1
      (ap (λ x. (x, rotated.1)) rotates)

abbrev deps : SyncDeps
deps = record {
  secret_codec = envelope_codec open_cipher second_keyring alone;
  max_conflict_retries = none;
}

batch-ReadsAs_example : ReadsAs deps stored rotated.1
batch-ReadsAs_example =
    batch-ReadsAs deps (envelope-CodecLaws open_cipher second_keyring alone second-Setting) stored
      (tt, tt) (λ i db. db) (λ i db h. (h, KeysGrow-refl db)) 2 1 100

envelope-CodecLaws_example : CodecLaws (envelope_codec open_cipher second_keyring alone)
envelope-CodecLaws_example = envelope-CodecLaws open_cipher second_keyring alone second-Setting

-- After the rotation the first version can be retired.
abbrev last : Result ℕ × Database
last = retire_user_keys (λ db. db) 2 1 rotated.1

retires : last.0 ≡ ok 1
unfolding written retire_user_keys reencrypt_batch seal unseal unary read_unary parse stringify
    scalar? codes from_codes bytes_to_base64_url base64_url_to_bytes guard_owner json_eq
retires = refl

retire-IsRetired_example :
    (envelope_count 1 rotated.1.records ≡ 0)
    × IsRetired open_cipher second_keyring alone 1 rotated.1 last.1
    × (1 ≢ second_keyring.current_version)
retire-IsRetired_example =
    retire-IsRetired open_cipher second_keyring alone 1 (λ db. db) 1 rotated.1 last.1 (λ none. none)
      (ap (λ x. (x, last.1)) retires)

abbrev usage : ℕ → ℕ → ℕ → KeyVersionUsage
usage version envelopes keys = record {
  key_version = version;
  envelope_count = envelopes;
  user_key_count = keys;
}

counts_keys : key_usage rotated.1 ≡ usage 1 0 1 ∷ usage 2 1 1 ∷ []
unfolding written key_usage reencrypt_batch seal unseal unary read_unary parse stringify scalar?
    codes from_codes bytes_to_base64_url base64_url_to_bytes guard_owner json_eq
counts_keys = refl

unseal_moved_example :
    unseal open_cipher second_keyring alone "ann" "notes:old" "n1" (sealed_or_none written.0) stored
    ≡ unseal open_cipher second_keyring alone "ann" "notes" "old:n1"
        (sealed_or_none written.0)
        stored
unseal_moved_example =
    unseal_moved open_cipher second_keyring alone "ann" "notes" "old" "n1"
      (sealed_or_none written.0) stored

second_master : master_key open_cipher second_keyring 2 ≡ ok (zeros 32)
unfolding master_key from_base64_url codes base64_url_to_bytes
second_master = refl

no_key : find_key "ann" 2 empty_database.user_keys ≡ none
unfolding find_key
no_key = refl

seal_then_open_example :
    (e : JsonObject) × (later : Database) × (seal open_cipher second_keyring alone "ann" "notes"
        "n1" payload empty_database
      ≡ (ok e, later))
    × (unseal open_cipher second_keyring alone "ann" "notes" "n1" e later ≡ (ok payload, later))
unfolding fenced
seal_then_open_example =
    seal_then_open open_cipher second_keyring alone second-Setting "ann" (zeros 32) empty_database
      (λ p d. refl) second_master (λ d. refl) refl no_key "notes" "n1" payload
