-- ===== src/Rotation/Retirement.antt =====
-- A master key is retired only when no stored payload needs it.
use appbase.Prelude.{
  ℕ, String, ◌≡◌, ◌≢◌, refl, sym, ap, subst, ◌∙◌, inl, inr, Bool, true, false, not, Option, none,
  some, List, [], ◌∷◌, arith, nat_eq, nat_eq_iff, length, find?-select, select, All, Bool-cases,
  if◌then◌else◌,
}
use appbase.Prelude.Int.{ℤ, pos, negsuc}
use appbase.Action.{Failure, require-eq-ok, ok, pure, require, >>=-eq-ok, lift-eq-ok, ◌>>=◌}
use appbase.Json.{JsonObject}
use appbase.Domain.Sync.{StoredVersion, SyncChange}
use appbase.Database.{Database, UserKey}
use appbase.Records.History.{Row}
use appbase.Keyring.{
  Platform, MasterKeyring, SecretEnvelope, is_version, checked_envelope, or_err, parse_envelope,
  UsableKey,
}
use appbase.Envelope.{
  KeyWorld, of_key, find_key, user_key, open_parsed, unseal, envelope_codec, require_version,
}
use appbase.Envelope.Keys.{KeyRow, user_key_again, user_key-KeyRow}
use appbase.Sync.{SyncDeps, unseal_version, logical_payload, public_change, change_of}
use appbase.Rotation.{
  as_version, payload_version, is_at, is_under, envelope_count, delete_keys, retire_user_keys,
}

-- The version that `open` reads is the version that the queries read.
checked-version :
    (a c n : Option String) (v : Option ℤ) (parsed : SecretEnvelope)
    → checked_envelope a c n v ≡ some parsed
    → v ≡ some parsed.key_version
unfolding checked_envelope
checked-version (some a) (some c) (some n) (some v) parsed h = ground arith
checked-version none c n v parsed h = cc h
checked-version (some a) none n v parsed h = cc h
checked-version (some a) (some c) none v parsed h = cc h
checked-version (some a) (some c) (some n) none parsed h = cc h

or_err-eq-ok : {A : Type 0} (o : Option A) (e : Failure) (a : A) → or_err o e ≡ ok a → o ≡ some a
or_err-eq-ok none e a h = cc h
or_err-eq-ok (some b) e a h = cc h

parsed-version :
    (e : JsonObject) (parsed : SecretEnvelope)
    → parse_envelope e ≡ ok parsed
    → payload_version (some e) ≡ as_version (some parsed.key_version)
unfolding parse_envelope payload_version
parsed-version e parsed h =
    ap as_version (checked-version _ _ _ _ parsed (or_err-eq-ok _ _ parsed h))

differ : (a b : ℕ) → a ≡ b → not (nat_eq a b) ≡ true → ⊥
differ a b e h = ground arith

abbrev pub without : ℕ → Database → Database
without version db = record db {
  user_keys = select (λ k. not (nat_eq k.key_version version)) db.user_keys;
}

module _ (platform : Platform) (keyring : MasterKeyring) (world : KeyWorld) (version : ℕ) where
  KeyRow-without :
      (owner : String) (v : ℕ) (key : UsableKey) (db : Database)
      → v ≢ version
      → KeyRow platform keyring owner v key db
      → KeyRow platform keyring owner v key (without version db)
  unfolding find_key
  KeyRow-without owner v key db apart r = record {
    row = r.row;
    found =
        find?-select (of_key owner v) (λ k. not (nat_eq k.key_version version)) db.user_keys
          (λ k h. ground arith)
        ∙ r.found;
    unwrapped = r.unwrapped;
  }

  open_without :
      (o c r : String) (parsed : SecretEnvelope) (v : ℤ) (p : JsonObject) (db : Database)
      → as_version (some v) ≢ some version
      → open_parsed platform keyring world o c r parsed v db ≡ (ok p, db)
      → open_parsed platform keyring world o c r parsed v (without version db)
        ≡ (ok p, without version db)
  unfolding open_parsed
  open_without o c r parsed (negsuc v) p db apart h = cc h
  open_without o c r parsed (pos v) p db apart h =
      let (key, mid, found, done) = >>=-eq-ok (user_key platform keyring world o v) _ db p db h in
      let same : mid ≡ db = cc done in
      let row : KeyRow platform keyring o v key db =
        subst (KeyRow platform keyring o v key) same
          (user_key-KeyRow platform keyring world o v key db mid found) in
      rw
        (user_key_again platform keyring world o v key (without version db)
          (KeyRow-without o v key db (λ e. apart (ap some e)) row))
        (cc done)

  unseal_without :
      (o c r : String) (e p : JsonObject) (db : Database)
      → payload_version (some e) ≢ some version
      → unseal platform keyring world o c r e db ≡ (ok p, db)
      → unseal platform keyring world o c r e (without version db) ≡ (ok p, without version db)
  unfolding unseal
  unseal_without o c r e p db apart h =
      let (parsed, valid, opened) = lift-eq-ok (parse_envelope e) _ db p db h in
      rw valid (
        open_without o c r parsed parsed.key_version p db
          (λ k. apart (parsed-version e parsed valid ∙ k)) opened)

  abbrev deps : SyncDeps
  deps = record {
    secret_codec = envelope_codec platform keyring world;
    max_conflict_retries = none;
  }

  public_without :
      (v : StoredVersion) (c : SyncChange) (db : Database)
      → payload_version v.payload ≢ some version
      → public_change deps v db ≡ (ok c, db)
      → public_change deps v (without version db) ≡ (ok c, without version db)
  unfolding public_change logical_payload unseal_version
  public_without v c db apart read = go v.deleted v.payload apart read
    where
      go :
          (d : Bool) (o : Option JsonObject)
          → payload_version o ≢ some version
          → (unseal_version deps d o v >>= λ x. pure (change_of v x)) db ≡ (ok c, db)
          → (unseal_version deps d o v >>= λ x. pure (change_of v x)) (without version db)
            ≡ (ok c, without version db)
      go d none other k = cc k
      go true (some e) other k = cc k
      go false (some e) other k =
          let (p, mid, opened, done) =
            >>=-eq-ok
              (unseal platform keyring world v.owner_sub v.collection v.record_id e >>= λ p.
                pure (some p))
              (λ x. pure (change_of v x)) db c db k in
          let (p', mid', opened', done') =
            >>=-eq-ok (unseal platform keyring world v.owner_sub v.collection v.record_id e)
              (λ p. pure (some p)) db p mid opened in
          let payload : some p' ≡ p = cc (sym done') in
          let after : mid ≡ db = cc done in
          let same : mid' ≡ db = ap (λ x. x.1) done' ∙ after in
          rw
            (unseal_without v.owner_sub v.collection v.record_id e p' db other (cc (opened', same)))
            (cc (payload, done))

  -- No row's envelope is under a version that none is counted for.
  none_under :
      (vs : List StoredVersion) (v : StoredVersion)
      → envelope_count version vs ≡ 0
      → Row v vs
      → payload_version v.payload ≢ some version
  unfolding envelope_count is_under
  none_under (u ∷ vs) v count (inl e) under =
      go (is_at version (payload_version u.payload))
        (subst (λ x. is_at version (payload_version x.payload) ≡ true) e
          (rw under ((nat_eq_iff version version).1 refl)))
        count
    where
      go :
          (b : Bool)
          → b ≡ true
          → length (if b then u ∷ select (is_under version) vs else select (is_under version) vs)
            ≡ 0
          → ⊥
      go true h k = omega (arith, k)
      go false h k = cc h
  none_under (u ∷ vs) v count (inr there) under =
      none_under vs v (go (is_at version (payload_version u.payload)) count) there under
    where
      go :
          (b : Bool)
          → length (if b then u ∷ select (is_under version) vs else select (is_under version) vs)
            ≡ 0
          → length (select (is_under version) vs) ≡ 0
      go true k = absurd (omega (arith, k))
      go false k = k
  none_under [] v count there under = absurd there

  keys_gone :
      (ks : List UserKey)
      → All
          (λ k. nat_eq k.key_version version ≡ false)
          (select (λ k. not (nat_eq k.key_version version)) ks)
  keys_gone [] = tt
  keys_gone (k ∷ ks) = elim (Bool-cases (nat_eq k.key_version version)) [
    | inl h ↦ rw h (keys_gone ks)
    | inr h ↦ rw h (h, keys_gone ks)
  ]

  -- Retired: no key of the version is left, and every version of a record that could be read
  -- still reads the same.
  pub record IsRetired (before later : Database) : Type 0 where
    pub gone : All (λ k. nat_eq k.key_version version ≡ false) later.user_keys
    pub reads :
        (v : StoredVersion) (c : SyncChange)
        → Row v before.records
        → public_change deps v before ≡ (ok c, before)
        → public_change deps v later ≡ (ok c, later)

  retired :
      (db : Database) → envelope_count version db.records ≡ 0 → IsRetired db (without version db)
  retired db count = record {
    gone = keys_gone db.user_keys;
    reads = λ v c there read. public_without v c db (none_under db.records v count there) read;
  }

  -- The retirement of a key version that returns had no stored payload under that version when it
  -- counted. If the requests between the count and the deletion write none under it where there was
  -- none, all its keys are deleted and every record that could be read just before still reads the
  -- same. It never returns for the current version.
  pub retire-IsRetired :
      (others : Database → Database) (n : ℕ) (db db' : Database)
      → (envelope_count version db.records ≡ 0 → envelope_count version (others db).records ≡ 0)
      → retire_user_keys others keyring.current_version version db ≡ (ok n, db')
      → (envelope_count version db.records ≡ 0)
        × IsRetired (others db) db'
        × (version ≢ keyring.current_version)
  unfolding retire_user_keys require_version delete_keys
  retire-IsRetired others n db db' writes_none h =
      let (_, d1, p1, h1) = >>=-eq-ok (require_version version) _ db n db' h in
      let (_, d2, p2, h2) =
        >>=-eq-ok (require (not (nat_eq version keyring.current_version)) _) _ d1 n db' h1 in
      let (_, d3, p3, h3) =
        >>=-eq-ok (require (nat_eq (envelope_count version d2.records) 0) _) _ d2 n db' h2 in
      let (same1, _) = require-eq-ok (is_version version) _ db d1 p1 in
      let (same2, other) =
        require-eq-ok (not (nat_eq version keyring.current_version)) _ d1 d2 p2 in
      let (same3, none_left) =
        require-eq-ok (nat_eq (envelope_count version d2.records) 0) _ d2 d3 p3 in
      let count : envelope_count version db.records ≡ 0 =
        ap (λ d. envelope_count version d.records) (sym (same2 ∙ same1))
        ∙ (nat_eq_iff (envelope_count version d2.records) 0).0 none_left in
      let last : db' ≡ without version (others db) =
        sym (ap (λ x. x.1) h3) ∙ ap (λ d. without version (others d)) (same3 ∙ same2 ∙ same1) in
      (
        count,
        subst (IsRetired (others db)) (sym last) (retired (others db) (writes_none count)),
        λ e. absurd (differ version keyring.current_version e other),
      )
