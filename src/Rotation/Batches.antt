-- ===== src/Rotation/Batches.antt =====
-- The rotation of envelopes: every batch that returns brings it nearer to its end.
use appbase.Prelude.{ℕ, ◌+◌, ◌≤◌, String, ◌≡◌, ap, ◌∙◌, ◌⊎◌, some}
use appbase.Action.{ok, >>=-eq-ok}
use appbase.Json.{JsonObject}
use appbase.Database.{Database}
use appbase.Keyring.{Platform, MasterKeyring, envelope_to_json}
use appbase.Envelope.{KeyWorld, seal, sealed, envelope_codec}
use appbase.Envelope.Laws.{Setting, seal-eq-ok, key_version, envelope-CodecLaws}
use appbase.Rotation.{
  payload_version, envelope_count, check_batch, reencrypt_batch, KeyRotationBatchResult,
}
use appbase.Rotation.Progress.{check_batch-eq-ok, batch_progress}

module _ (platform : Platform) (keyring : MasterKeyring) (world : KeyWorld)
    (setting : Setting platform keyring world) where
  -- An envelope carries the current version.
  pub seal_stamps :
      (o c r : String) (p e : JsonObject) (db db' : Database)
      → seal platform keyring world o c r p db ≡ (ok e, db')
      → payload_version (some e) ≡ some keyring.current_version
  unfolding payload_version sealed envelope_to_json
  seal_stamps o c r p e db db' h =
      let (key, row, made) = seal-eq-ok platform keyring world setting o c r p e db db' h in
      ap (λ x. payload_version (some x)) made
      ∙ ap some (key_version platform keyring o keyring.current_version key db' row)

  -- A batch that no other request disturbs and that returns replaces the envelopes that it counts
  -- as migrated and leaves the others: together they are those that were there. It replaces one at
  -- least unless there was none, so repeated batches end.
  pub batch-Advances :
      (from limit : ℕ) (r : KeyRotationBatchResult) (db db' : Database)
      → reencrypt_batch
          (envelope_codec platform keyring world)
          (λ i d. d)
          keyring.current_version
          from
          limit
          db
        ≡ (ok r, db')
      → (r.migrated + r.remaining ≡ envelope_count from db.records)
        × ((envelope_count from db.records ≡ 0) ⊎ (1 ≤ r.migrated))
  unfolding reencrypt_batch
  batch-Advances from limit r db db' h =
      let (_, d1, checked, _) =
        >>=-eq-ok (check_batch keyring.current_version from limit) _ db r db' h in
      let (_, apart, _) = check_batch-eq-ok from keyring.current_version limit db d1 checked in
      batch_progress from keyring.current_version apart (envelope_codec platform keyring world)
        (envelope-CodecLaws platform keyring world setting) seal_stamps limit r db db' h
