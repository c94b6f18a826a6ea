-- ===== src/Accounts/Data.antt =====
-- The operations of the other services, built of those statements: a batch of mutations over the
-- encrypting codec, and the synchronization of a user's purchases.
use appbase.Prelude.{ℕ, String, Option, List}
use appbase.Prelude.Int.{ℤ, pos, negsuc}
use appbase.Action.{gets, lift, require, billing}
use appbase.Action.Keeps.{
  Keeps, Keeps-pure, Keeps-throw, Keeps-gets, Keeps-lift, Keeps-or_throw, Keeps-modify,
  Keeps-require, Keeps-bind,
}
use appbase.Json.{JsonObject}
use appbase.Domain.Billing.{configuration_missing, sync_superseded}
use appbase.Domain.Sync.{SyncMutation}
use appbase.Database.{Database}
use appbase.AccountTable.{await}
use appbase.AccountTable.Keeping.{Respected}
use appbase.Keyring.{Platform, MasterKeyring, SecretEnvelope, parse_envelope}
use appbase.Envelope.{
  KeyWorld, KeyPoint, payload_nonce, user_key, seal, sealed, open_parsed, unseal, envelope_codec,
  unavailable,
}
use appbase.Envelope.Keys.{user_key-Keeps}
use appbase.Sync.{SyncDeps, World, push_mutations}
use appbase.Sync.Soundness.{Respects, push_mutations-Keeps}
use appbase.Sync.Soundness
use appbase.BillingTable.{identity, begin_sync, commit_sync}
use appbase.Purchases.{
  BillingWorld, BillingService, administration_catalog, catalog_for, synchronize,
}
use appbase.Accounts.Writes.{Allows, insert_key-Keeps, append-Keeps}
use appbase.Accounts.BillingWrites.{identity-Keeps, begin_sync-Keeps, commit_sync-Keeps}

module _ (P : Database → Type 0) (allows : Allows P) where
  module _ (platform : Platform) (keyring : MasterKeyring) (world : KeyWorld)
      (kept : (p : KeyPoint) (db : Database) → P db → P (world.others p db)) where
    key-Keeps :
        (owner : String) (version : ℕ) → Keeps P (user_key platform keyring world owner version)
    key-Keeps = user_key-Keeps platform keyring world P (insert_key-Keeps P allows) kept

    seal-Keeps :
        (owner c r : String) (p : JsonObject) → Keeps P (seal platform keyring world owner c r p)
    unfolding seal
    seal-Keeps owner c r p =
        Keeps-bind (user_key platform keyring world owner keyring.current_version) _
          (key-Keeps owner keyring.current_version)
          λ key.
            Keeps-bind (gets (world.random_bytes payload_nonce)) _
              (Keeps-gets (world.random_bytes payload_nonce))
              λ nonce. Keeps-pure (sealed platform keyring world owner c r p key nonce)

    open_parsed-Keeps :
        (o c r : String) (parsed : SecretEnvelope) (v : ℤ)
        → Keeps P (open_parsed platform keyring world o c r parsed v)
    unfolding open_parsed
    open_parsed-Keeps o c r parsed (negsuc v) = Keeps-throw unavailable
    open_parsed-Keeps o c r parsed (pos v) =
        Keeps-bind (user_key platform keyring world o v) _ (key-Keeps o v)
          λ key. record { leaves = λ db h. h }

    unseal-Keeps :
        (o c r : String) (e : JsonObject) → Keeps P (unseal platform keyring world o c r e)
    unfolding unseal
    unseal-Keeps o c r e =
        Keeps-bind (lift (parse_envelope e)) _ (Keeps-lift (parse_envelope e))
          λ parsed. open_parsed-Keeps o c r parsed parsed.key_version

    calls : (owner : String) → Respects P (envelope_codec platform keyring world) owner
    calls owner = record {
      seals = seal-Keeps owner;
      unseals = unseal-Keeps;
      appends = λ input mine same. append-Keeps P allows input;
    }

    abbrev pub deps_of : Option ℕ → SyncDeps
    deps_of retries = record {
      secret_codec = envelope_codec platform keyring world;
      max_conflict_retries = retries;
    }

    pub batch-Keeps :
        (owner : String) (retries : Option ℕ) (worlds : ℕ → World) (ms : List SyncMutation)
        → ((n : ℕ) → appbase.Sync.Soundness.Respected P (worlds n))
        → Keeps P (push_mutations (deps_of retries) owner worlds 0 ms)
    batch-Keeps owner retries worlds ms others =
        push_mutations-Keeps P (deps_of retries) owner (calls owner) worlds others 0 ms

  pub synchronize-Keeps :
      (service : BillingService) (world : BillingWorld)
      → Respected P world.others
      → (owner : String) → Keeps P (synchronize service world owner)
  unfolding synchronize catalog_for
  synchronize-Keeps service world kept owner =
      Keeps-bind (catalog_for service) _
        (Keeps-bind (gets (administration_catalog service)) _
          (Keeps-gets (administration_catalog service))
          λ result. Keeps-or_throw result (billing configuration_missing))
        λ _. Keeps-bind (await world.others 1) _ (Keeps-modify (world.others 1) (kept 1)) λ _.
          Keeps-bind (identity world.others service.environment owner world.random) _
            (identity-Keeps P allows world.others kept service.environment owner world.random)
            λ id. Keeps-bind (await world.others 3) _ (Keeps-modify (world.others 3) (kept 3)) λ _.
              Keeps-bind (begin_sync service.environment owner) _
                (begin_sync-Keeps P allows service.environment owner)
                λ g.
                  Keeps-bind (lift (world.subscriber id)) _ (Keeps-lift (world.subscriber id))
                    λ state.
                      Keeps-bind (await world.others 4) _ (Keeps-modify (world.others 4) (kept 4))
                        λ _.
                          Keeps-bind (commit_sync service.environment owner g state) _
                            (commit_sync-Keeps P allows service.environment owner g state)
                            λ committed.
                              Keeps-bind (require committed (billing sync_superseded)) _
                                (Keeps-require committed (billing sync_superseded))
                                λ _. Keeps-pure state
