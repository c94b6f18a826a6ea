-- ===== src/Envelope/Laws.antt =====
-- The codec meets the laws that the synchronization relies on.
use appbase.Prelude.{
  ℕ, String, ◌≡◌, refl, sym, ap, subst, ◌∙◌, true, some, List, arith, leb, nat_eq, nat_eq_iff,
  find?-sound,
}
use appbase.Prelude.Int.{ℤ, pos, negsuc}
use appbase.Action.{ok, lift, gets, >>=-eq-ok, lift-eq-ok}
use appbase.Action.Keeps.{Keeps, Keeps-bind, Keeps-lift, Keeps-gets, Keeps-pure}
use appbase.Json.{JsonObject, obj, fields}
use appbase.Database.{Database, UserKey}
use appbase.Cursor.{max_safe_integer}
use appbase.Base64.RoundTrip.{AreBytes}
use appbase.Keyring.{
  Platform, MasterKeyring, UsableKey, SecretEnvelope, aad, to_base64_url, envelope_to_json,
  parse_envelope, decrypt_payload, unwrapped_key, unwrap, validate_keyring,
}
use appbase.Keyring.{>>=-eq-ok as result_bind}
use appbase.Keyring.Texts.{from_base64_url-to_base64_url, props-fields}
use appbase.Envelope.{
  KeyPoint, payload_nonce, Draw, KeyWorld, user_key, find_key, of_key, sealed, seal, open_parsed,
  unseal, envelope_codec,
}
use appbase.Envelope.Keys.{
  AddsKeys, AddsKeys-refl, user_key-AddsKeys, KeyRow, user_key_again, KeyRow-grows, user_key-KeyRow,
}
use appbase.Sync.Codec.{KeysGrow, CodecLaws}

-- What AES-GCM, JSON and the random source are documented to do.
pub record PlatformLaws (platform : Platform) (world : KeyWorld) : Type 0 where
  pub decrypt-encrypt :
      (key iv : List ℕ) (associated : String) (plaintext : List ℕ)
      → platform.decrypt key iv associated (platform.encrypt key iv associated plaintext)
        ≡ some plaintext
  pub encrypt-AreBytes :
      (key iv : List ℕ) (associated : String) (plaintext : List ℕ)
      → AreBytes (platform.encrypt key iv associated plaintext)
  pub random-AreBytes : (d : Draw) (db : Database) → AreBytes (world.random_bytes d db)
  pub parse-stringify :
      (p : JsonObject) → platform.parse (platform.stringify p) ≡ some (obj (fields p))

-- What the codec is used under: a keyring that its constructor accepts, and other requests that add
-- keys at most while one is made.
pub record Setting (platform : Platform) (keyring : MasterKeyring) (world : KeyWorld) : Type 0 where
  pub laws : PlatformLaws platform world
  pub accepted : validate_keyring keyring ≡ ok keyring
  pub only_adds : (p : KeyPoint) (db : Database) → AddsKeys db (world.others p db)

current_safe :
    (keyring : MasterKeyring)
    → validate_keyring keyring ≡ ok keyring
    → leb keyring.current_version max_safe_integer ≡ true
unfolding validate_keyring
current_safe keyring h = ground arith

module _ (platform : Platform) (keyring : MasterKeyring) (owner : String) where
  unwrap-version :
      (row : UserKey) (key : UsableKey)
      → unwrap platform keyring owner row ≡ ok key
      → key.version ≡ row.key_version
  unfolding unwrap
  unwrap-version row key h =
      let (bytes, _, done) =
        result_bind (unwrapped_key platform keyring owner row)
          (λ k. ok (record { crypto_key = k; version = row.key_version })) key h in
      cc done

  pub key_version :
      (version : ℕ) (key : UsableKey) (db : Database)
      → KeyRow platform keyring owner version key db
      → key.version ≡ version
  unfolding find_key
  key_version version key db r =
      let matching : of_key owner version r.row ≡ true =
        find?-sound (of_key owner version) db.user_keys r.row r.found in
      let versions : nat_eq r.row.key_version version ≡ true = ground arith in
      unwrap-version r.row key r.unwrapped ∙ (nat_eq_iff r.row.key_version version).0 versions

module _ (platform : Platform) (keyring : MasterKeyring) (world : KeyWorld)
    (setting : Setting platform keyring world) where
  seal-AddsKeys :
      (owner collection record_id : String) (payload : JsonObject) (db : Database)
      → Keeps (AddsKeys db) (seal platform keyring world owner collection record_id payload)
  unfolding seal
  seal-AddsKeys owner collection record_id payload db =
      Keeps-bind (user_key platform keyring world owner keyring.current_version) _
        (user_key-AddsKeys platform keyring world setting.only_adds db owner
          keyring.current_version)
        λ key.
          Keeps-bind (gets (world.random_bytes payload_nonce)) _
            (Keeps-gets (world.random_bytes payload_nonce))
            λ nonce.
              Keeps-pure
                (sealed platform keyring world owner collection record_id payload key nonce)

  open_parsed-AddsKeys :
      (owner collection record_id : String) (parsed : SecretEnvelope) (v : ℤ) (db : Database)
      → Keeps (AddsKeys db) (open_parsed platform keyring world owner collection record_id parsed v)
  unfolding open_parsed
  open_parsed-AddsKeys owner collection record_id parsed (pos v) db =
      Keeps-bind (user_key platform keyring world owner v) _
        (user_key-AddsKeys platform keyring world setting.only_adds db owner v)
        λ key. record { leaves = λ later held. held }
  open_parsed-AddsKeys owner collection record_id parsed (negsuc v) db = record {
    leaves = λ later held. held;
  }

  unseal-AddsKeys :
      (owner collection record_id : String) (e : JsonObject) (db : Database)
      → Keeps (AddsKeys db) (unseal platform keyring world owner collection record_id e)
  unfolding unseal
  unseal-AddsKeys owner collection record_id e db =
      Keeps-bind (lift (parse_envelope e)) _ (Keeps-lift (parse_envelope e))
        λ parsed. open_parsed-AddsKeys owner collection record_id parsed parsed.key_version db

  open_again :
      (owner collection record_id : String) (parsed : SecretEnvelope) (v : ℤ) (p : JsonObject)
      (db db' later : Database)
      → open_parsed platform keyring world owner collection record_id parsed v db ≡ (ok p, db')
      → KeysGrow db' later
      → open_parsed platform keyring world owner collection record_id parsed v later ≡ (ok p, later)
  unfolding open_parsed
  open_again owner collection record_id parsed (negsuc v) p db db' later h keys = cc h
  open_again owner collection record_id parsed (pos v) p db db' later h keys =
      let (key, mid, found, done) =
        >>=-eq-ok (user_key platform keyring world owner v) _ db p db' h in
      let same : db' ≡ mid = cc done in
      let row : KeyRow platform keyring owner v key later =
        KeyRow-grows platform keyring world owner v key mid later
          (user_key-KeyRow platform keyring world owner v key db mid found)
          (subst (λ d. KeysGrow d later) same keys) in
      rw (user_key_again platform keyring world owner v key later row) (cc done)

  unseal_again :
      (owner collection record_id : String) (p e : JsonObject) (db db' later : Database)
      → unseal platform keyring world owner collection record_id e db ≡ (ok p, db')
      → KeysGrow db' later
      → unseal platform keyring world owner collection record_id e later ≡ (ok p, later)
  unfolding unseal
  unseal_again owner collection record_id p e db db' later h keys =
      let (parsed, valid, opened) = lift-eq-ok (parse_envelope e) _ db p db' h in
      rw valid
        (open_again owner collection record_id parsed parsed.key_version p db db' later opened keys)

  decrypts_sealed :
      (key nonce : List ℕ) (associated : String) (p : JsonObject)
      → AreBytes nonce
      → decrypt_payload platform key associated
          (to_base64_url nonce)
          (to_base64_url (platform.encrypt key nonce associated (platform.stringify p)))
        ≡ ok p
  unfolding decrypt_payload
  decrypts_sealed key nonce associated p bytes =
      rw
        (
          from_base64_url-to_base64_url nonce bytes,
          from_base64_url-to_base64_url
              (platform.encrypt key nonce associated (platform.stringify p))
              (setting.laws.encrypt-AreBytes key nonce associated (platform.stringify p)),
          setting.laws.decrypt-encrypt key nonce associated (platform.stringify p),
          setting.laws.parse-stringify p,
        )
        (ap ok (props-fields p))

  parse_sealed :
      (owner collection record_id : String) (p : JsonObject) (key : UsableKey) (nonce : List ℕ)
      → leb key.version max_safe_integer ≡ true
      → parse_envelope (sealed platform keyring world owner collection record_id p key nonce)
        ≡ ok (record {
          ciphertext = to_base64_url (
              platform.encrypt key.crypto_key nonce
                (aad owner collection record_id key.version)
                (platform.stringify p));
          nonce = to_base64_url nonce;
          key_version = pos key.version;
        })
  unfolding parse_envelope sealed envelope_to_json
  parse_sealed owner collection record_id p key nonce safe = rw safe refl

  -- A sealed payload is opened while the key is in the table.
  pub opens_sealed :
      (owner collection record_id : String) (p : JsonObject) (key : UsableKey) (nonce : List ℕ)
      (later : Database)
      → KeyRow platform keyring owner keyring.current_version key later
      → AreBytes nonce
      → unseal platform keyring world owner collection record_id
          (sealed platform keyring world owner collection record_id p key nonce)
          later
        ≡ (ok p, later)
  unfolding unseal open_parsed
  opens_sealed owner collection record_id p key nonce later row bytes =
      let version : key.version ≡ keyring.current_version =
        key_version platform keyring owner keyring.current_version key later row in
      let safe : leb key.version max_safe_integer ≡ true =
        subst (λ v. leb v max_safe_integer ≡ true) (sym version)
          (current_safe keyring setting.accepted) in
      rw
        (
          parse_sealed owner collection record_id p key nonce safe,
          user_key_again platform keyring world owner key.version key later
              (subst (λ v. KeyRow platform keyring owner v key later) (sym version) row),
          decrypts_sealed key.crypto_key nonce (aad owner collection record_id key.version) p bytes,
        )
        refl

  -- A seal that returns has its key in the table.
  pub seal-eq-ok :
      (owner collection record_id : String) (p e : JsonObject) (db db' : Database)
      → seal platform keyring world owner collection record_id p db ≡ (ok e, db')
      → (key : UsableKey) × (KeyRow platform keyring owner keyring.current_version key db')
        × (e
            ≡ sealed platform keyring world owner collection record_id p key
                (world.random_bytes payload_nonce db'))
  unfolding seal
  seal-eq-ok owner collection record_id p e db db' h =
      let (key, mid, found, done) =
        >>=-eq-ok (user_key platform keyring world owner keyring.current_version) _ db e db' h in
      let same : mid ≡ db' = cc done in
      (
        key,
        subst (KeyRow platform keyring owner keyring.current_version key) same
            (user_key-KeyRow platform keyring world owner keyring.current_version key db mid found),
        cc (done, same),
      )

  -- The codec of envelopes meets the laws that the synchronization relies on, with AES-GCM, the
  -- texts of JSON values and the random source as documented, a keyring that its constructor
  -- accepts, and other requests that only add keys while one is made: what it sealed is opened as
  -- long as the keys stay, what was opened once is opened again, and it changes nothing but keys.
  pub envelope-CodecLaws : CodecLaws (envelope_codec platform keyring world)
  envelope-CodecLaws = record {
    seal_frame = λ o c r p db. ((seal-AddsKeys o c r p db).leaves db (AddsKeys-refl db)).frame;
    unseal_frame = λ o c r e db. ((unseal-AddsKeys o c r e db).leaves db (AddsKeys-refl db)).frame;
    seal_grows = λ o c r p db. ((seal-AddsKeys o c r p db).leaves db (AddsKeys-refl db)).grows;
    unseal_grows = λ o c r e db. ((unseal-AddsKeys o c r e db).leaves db (AddsKeys-refl db)).grows;
    unseal-seal = λ o c r p e db db' later h keys.
        let (key, row, made) = seal-eq-ok o c r p e db db' h in
        subst (λ x. unseal platform keyring world o c r x later ≡ (ok p, later)) (sym made)
          (opens_sealed o c r p key (world.random_bytes payload_nonce db') later
            (KeyRow-grows platform keyring world o keyring.current_version key db' later row keys)
            (setting.laws.random-AreBytes payload_nonce db'));
    unseal_stable = unseal_again;
  }
