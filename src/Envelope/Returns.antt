-- ===== src/Envelope/Returns.antt =====
-- The first payload of a user: its key is made, and what is sealed under it is opened.
use appbase.Prelude.{
  ℕ, String, ◌≡◌, refl, ◌∙◌, inl, inr, true, false, none, some, [], ◌∷◌, ◌++◌, List, nat_eq_iff,
  eq_refl, length, any, any-true, find?-append_new, Bool-cases,
}
use appbase.Action.{ok}
use appbase.Json.{JsonObject}
use appbase.Database.{Database, UserKey}
use appbase.Database.Fence.{fenced, guard_owner}
use appbase.Base64.RoundTrip.{AreBytes}
use appbase.Keyring.{
  Platform, MasterKeyring, UsableKey, import_aes_key, master_key, unwrapped_key, unwrap,
  wrapped_row, user_key_aad,
}
use appbase.Keyring.Texts.{from_base64_url-to_base64_url}
use appbase.Envelope.{
  KeyPoint, before_insert, before_reread, user_key_bytes, wrap_nonce_bytes, payload_nonce, KeyWorld,
  of_key, find_key, insert_key, new_key, store_key, create_key, ensure_key, user_key, sealed, seal,
  unseal,
}
use appbase.Envelope.Keys.{KeyRow}
use appbase.Envelope.Laws.{Setting, opens_sealed}

module _ (platform : Platform) (keyring : MasterKeyring) (world : KeyWorld)
    (setting : Setting platform keyring world) where
  unwraps_wrapped :
      (owner : String) (version created_at : ℕ) (raw nonce master : List ℕ)
      → length raw ≡ 32
      → AreBytes nonce
      → master_key platform keyring version ≡ ok master
      → unwrap platform keyring owner
          (wrapped_row platform keyring owner version raw nonce master created_at)
        ≡ ok (record { crypto_key = raw; version = version })
  unfolding unwrap unwrapped_key wrapped_row import_aes_key
  unwraps_wrapped owner version created_at raw nonce master size bytes known =
      rw
        (
          known,
          from_base64_url-to_base64_url nonce bytes,
          from_base64_url-to_base64_url
              (platform.encrypt master nonce (user_key_aad owner version) raw)
              (setting.laws.encrypt-AreBytes master nonce (user_key_aad owner version) raw),
          setting.laws.decrypt-encrypt master nonce (user_key_aad owner version) raw,
          (nat_eq_iff (length raw) 32).1 size,
        )
        refl

  module _ (owner : String) (master : List ℕ) (db : Database)
      (quiet : (p : KeyPoint) (d : Database) → world.others p d ≡ d)
      (known : master_key platform keyring keyring.current_version ≡ ok master)
      (size : (d : Database) → length (world.random_bytes user_key_bytes d) ≡ 32)
      (active : fenced db.accounts owner ≡ false)
      (new : find_key owner keyring.current_version db.user_keys ≡ none) where
    abbrev first_row : UserKey
    first_row =
        wrapped_row platform keyring owner keyring.current_version
          (world.random_bytes user_key_bytes db) (world.random_bytes wrap_nonce_bytes db) master
          (world.now db)

    abbrev with_key : Database
    with_key = record db { user_keys = db.user_keys ++ first_row ∷ [] }

    abbrev first_key : UsableKey
    first_key = record {
      crypto_key = world.random_bytes user_key_bytes db;
      version = keyring.current_version;
    }

    first_row_matches : of_key owner keyring.current_version first_row ≡ true
    unfolding wrapped_row
    first_row_matches =
        rw (eq_refl owner, (nat_eq_iff keyring.current_version keyring.current_version).1 refl) refl

    absent : any (of_key owner keyring.current_version) db.user_keys ≡ false
    absent = elim (Bool-cases (any (of_key owner keyring.current_version) db.user_keys)) [
      | inl h ↦
          absurd (
            any-true (of_key owner keyring.current_version) db.user_keys h (unfold find_key in new))
      | inr h ↦ h
    ]

    finds_first : find_key owner keyring.current_version with_key.user_keys ≡ some first_row
    unfolding find_key
    finds_first =
        find?-append_new (of_key owner keyring.current_version) db.user_keys (first_row ∷ []) new
        ∙ rw first_row_matches refl

    inserts_first : insert_key first_row db ≡ (ok tt, with_key)
    unfolding insert_key guard_owner wrapped_row
    inserts_first = rw (active, absent) refl

    unwraps_first : unwrap platform keyring owner first_row ≡ ok first_key
    unwraps_first =
        unwraps_wrapped owner keyring.current_version (world.now db)
          (world.random_bytes user_key_bytes db) (world.random_bytes wrap_nonce_bytes db) master
          (size db) (setting.laws.random-AreBytes wrap_nonce_bytes db) known

    first-KeyRow : KeyRow platform keyring owner keyring.current_version first_key with_key
    first-KeyRow = record { row = first_row; found = finds_first; unwrapped = unwraps_first }

    makes_key :
        user_key platform keyring world owner keyring.current_version db ≡ (ok first_key, with_key)
    unfolding user_key ensure_key create_key new_key store_key
    makes_key =
        rw
          (
            new,
            (nat_eq_iff keyring.current_version keyring.current_version).1 refl,
            known,
            quiet before_insert db,
            inserts_first,
            quiet before_reread with_key,
            finds_first,
            unwraps_first,
          )
          refl

    -- For an active account that has no key of the current version yet, and with no other request
    -- meanwhile, `seal` returns an envelope, and `open` returns the payload from it.
    pub seal_then_open :
        (collection record_id : String) (p : JsonObject)
        → (e : JsonObject) × (later : Database) × (seal platform keyring world owner collection
              record_id p db
            ≡ (ok e, later))
          × (unseal platform keyring world owner collection record_id e later ≡ (ok p, later))
    unfolding seal
    seal_then_open collection record_id p = (
      sealed platform keyring world owner collection record_id p first_key
          (world.random_bytes payload_nonce with_key),
      with_key,
      rw makes_key refl,
      opens_sealed platform keyring world setting owner collection record_id p first_key
          (world.random_bytes payload_nonce with_key) with_key first-KeyRow
          (setting.laws.random-AreBytes payload_nonce with_key),
    )
