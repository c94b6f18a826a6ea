-- ===== src/Envelope.antt =====
-- packages/server/src/adapters/envelope_secret_codec.ts: payloads encrypted under a key for each
-- user, which the table appbase_user_keys holds wrapped by the master keys of the keyring.
pub mod Keys
pub mod Postfix
pub mod Moved
pub mod Returns
pub mod Samples
pub mod Laws
use appbase.Prelude.{
  ℕ, String, Bool, ◌&&◌, Option, none, some, List, [], ◌∷◌, ◌++◌, ◌==◌, nat_eq, find?, any,
  if◌then◌else◌,
}
use appbase.Prelude.Int.{ℤ, pos, negsuc}
use appbase.Action.{Failure, plain, pure, throw, gets, lift, or_throw, modify, require, ◌>>=◌, ◌>>◌}
use appbase.Json.{JsonObject}
use appbase.Database.{Database, UserKey, Db}
use appbase.Database.Fence.{guard_owner}
use appbase.Keyring.{
  Platform, MasterKeyring, is_version, or_err, aad, to_base64_url, SecretEnvelope, envelope_to_json,
  parse_envelope, UsableKey, decrypt_payload, master_key, unwrap, wrapped_row, authenticated,
}
use appbase.Sync.{SecretCodec}

-- What `randomBytes` is called for.
pub data Draw : Type 0 where
  user_key_bytes wrap_nonce_bytes payload_nonce : Draw

-- Where the making of a user's key awaits the database.
pub data KeyPoint : Type 0 where
  before_insert before_reread : KeyPoint

-- What surrounds a call: other requests, the clock and the random bytes.
pub record KeyWorld : Type 0 where
  pub others : KeyPoint → Database → Database
  pub now : Database → ℕ
  pub random_bytes : Draw → Database → List ℕ

unfoldable pub require_version : ℕ → Db (Unit {0})
require_version value =
    require (is_version value) (plain "AppBase key version must be a positive integer.")

-- WHERE owner_sub = ?1 AND key_version = ?2
abbrev pub of_key : String → ℕ → UserKey → Bool
of_key owner version k = k.owner_sub == owner && nat_eq k.key_version version

unfoldable pub find_key : String → ℕ → List UserKey → Option UserKey
find_key owner version keys = find? (of_key owner version) keys

-- INSERT OR IGNORE under the unique index on owner and version; the trigger comes first.
unfoldable pub insert_key : UserKey → Db (Unit {0})
insert_key k = do
  guard_owner k.owner_sub
  modify λ db.
      if any (of_key k.owner_sub k.key_version) db.user_keys
      then db
      else record db { user_keys = db.user_keys ++ k ∷ [] }

abbrev pub not_stored : Failure
not_stored = plain "The user credential key could not be stored."

abbrev pub unavailable : Failure
unavailable = plain "The payload key version is unavailable."

module _ (platform : Platform) (keyring : MasterKeyring) (world : KeyWorld) where
  -- A new key, wrapped.
  unfoldable pub new_key : String → ℕ → Db UserKey
  unfolding wrapped_row master_key
  new_key owner version = do
    raw_key ← gets (world.random_bytes user_key_bytes)
    wrap_nonce ← gets (world.random_bytes wrap_nonce_bytes)
    master ← lift (master_key platform keyring version)
    created_at ← gets world.now
    pure (wrapped_row platform keyring owner version raw_key wrap_nonce master created_at)

  -- The row is read again, so that of two requests that make a key both use the first.
  unfoldable pub store_key : String → ℕ → UserKey → Db UserKey
  unfolding insert_key find_key
  store_key owner version k = do
    modify (world.others before_insert)
    insert_key k
    modify (world.others before_reread)
    row ← gets (λ db. find_key owner version db.user_keys)
    or_throw row not_stored

  unfoldable pub create_key : String → ℕ → Db UserKey
  unfolding new_key store_key
  create_key owner version = do k ← new_key owner version; store_key owner version k

  unfoldable pub ensure_key : String → ℕ → Option UserKey → Db UserKey
  unfolding create_key
  ensure_key owner version (some row) = pure row
  ensure_key owner version none = do
    require (nat_eq version keyring.current_version) unavailable
    create_key owner version

  unfoldable pub user_key : String → ℕ → Db UsableKey
  unfolding find_key ensure_key unwrap
  user_key owner version = do
    found ← gets (λ db. find_key owner version db.user_keys)
    row ← ensure_key owner version found
    lift (unwrap platform keyring owner row)

  unfoldable pub sealed : String → String → String → JsonObject → UsableKey → List ℕ → JsonObject
  unfolding aad to_base64_url envelope_to_json
  sealed owner collection record_id payload key nonce = envelope_to_json (record {
    ciphertext = to_base64_url (
        platform.encrypt key.crypto_key nonce (aad owner collection record_id key.version)
          (platform.stringify payload));
    nonce = to_base64_url nonce;
    key_version = pos key.version;
  })

  unfoldable pub seal : String → String → String → JsonObject → Db JsonObject
  unfolding user_key sealed
  seal owner collection record_id payload = do
    key ← user_key owner keyring.current_version
    nonce ← gets (world.random_bytes payload_nonce)
    pure (sealed owner collection record_id payload key nonce)

  unfoldable pub open_parsed : String → String → String → SecretEnvelope → ℤ → Db JsonObject
  unfolding user_key aad decrypt_payload
  open_parsed owner collection record_id parsed (pos version) = do
    key ← user_key owner version
    lift (
        authenticated (
          decrypt_payload platform key.crypto_key (aad owner collection record_id version)
            parsed.nonce parsed.ciphertext))
  -- No key has a negative version.
  open_parsed owner collection record_id parsed (negsuc v) = throw unavailable

  -- `open`
  unfoldable pub unseal : String → String → String → JsonObject → Db JsonObject
  unfolding parse_envelope open_parsed
  unseal owner collection record_id envelope = do
    parsed ← lift (parse_envelope envelope)
    open_parsed owner collection record_id parsed parsed.key_version

  abbrev pub envelope_codec : SecretCodec
  envelope_codec = record { seal = seal; unseal = unseal }
