-- ===== src/Envelope/Keys.antt =====
-- The keys of the users: once a key is there, every later use finds the same one.
use mathlib.Core.List.{append-nil, append_assoc}
use appbase.Prelude.{
  ℕ, String, ◌≡◌, refl, sym, ap, subst, ◌∙◌, inl, inr, Bool, not, Option-cases, true, false, Option,
  none, some, [], ◌∷◌, ◌++◌, nat_eq, any, find?, find?-append, if◌then◌else◌,
}
use appbase.Action.{require, ok, gets, lift, or_throw, modify, >>=-eq-ok}
use appbase.Action.Keeps.{
  Keeps, Keeps-pure, Keeps-gets, Keeps-lift, Keeps-or_throw, Keeps-modify, Keeps-require,
  Keeps-bind,
}
use appbase.Database.{Database, UserKey}
use appbase.Database.Fence.{guard_owner, fenced, deleted_abort}
use appbase.Keyring.{Platform, MasterKeyring, UsableKey, unwrap, wrapped_row, master_key}
use appbase.Envelope.{
  KeyPoint, before_insert, before_reread, user_key_bytes, wrap_nonce_bytes, not_stored, unavailable,
  new_key, store_key, KeyWorld, of_key, find_key, insert_key, create_key, ensure_key, user_key,
}
use appbase.Sync.Codec.{KeysGrow}

-- Nothing happened between the two but that keys were added.
pub record AddsKeys (db later : Database) : Type 0 where
  pub frame : record later { user_keys = db.user_keys } ≡ db
  pub grows : KeysGrow db later

pub AddsKeys-refl : (db : Database) → AddsKeys db db
AddsKeys-refl db = record { frame = refl; grows = ([], sym (append-nil db.user_keys)) }

pub AddsKeys-trans : (a b c : Database) → AddsKeys a b → AddsKeys b c → AddsKeys a c
AddsKeys-trans a b c first second = record {
  frame =
      ap {A = Database} {B = Database} (λ d. record d { user_keys = a.user_keys }) second.frame
      ∙ first.frame;
  grows = (
    first.grows.0 ++ second.grows.0,
    second.grows.1
        ∙ ap (λ ks. ks ++ second.grows.0) first.grows.1
        ∙ append_assoc a.user_keys first.grows.0 second.grows.0,
  );
}

add_key-AddsKeys :
    (db : Database) (k : UserKey) → AddsKeys db (record db { user_keys = db.user_keys ++ k ∷ [] })
add_key-AddsKeys db k = record { frame = refl; grows = (k ∷ [], refl) }

module _ (db : Database) where
  insert_key-AddsKeys : (k : UserKey) → Keeps (AddsKeys db) (insert_key k)
  unfolding insert_key guard_owner
  insert_key-AddsKeys k =
      Keeps-bind (guard_owner k.owner_sub) _
        (record {
          leaves = λ later held.
              (Keeps-require {P = AddsKeys db} (not (fenced later.accounts k.owner_sub))
                  deleted_abort).leaves
                later held;
        })
        (λ _.
          Keeps-modify _
            (λ later held. go (any (of_key k.owner_sub k.key_version) later.user_keys) later held))
    where
      go :
          (known : Bool) (later : Database)
          → AddsKeys db later
          → AddsKeys db
              (if known then later else record later { user_keys = later.user_keys ++ k ∷ [] })
      go true later held = held
      go false later held = AddsKeys-trans db later _ held (add_key-AddsKeys later k)

  -- Other requests add keys at most while a key is made.
  abbrev pub OnlyAdds : KeyWorld → Type 0
  OnlyAdds world = (p : KeyPoint) (later : Database) → AddsKeys later (world.others p later)

-- What the insertion of a key and the other requests keep, the making of a key keeps.
module _ (platform : Platform) (keyring : MasterKeyring) (world : KeyWorld) (P : Database → Type 0)
    (inserts : (k : UserKey) → Keeps P (insert_key k))
    (kept : (p : KeyPoint) (db : Database) → P db → P (world.others p db)) where
  others-Keeps : (p : KeyPoint) → Keeps P (modify (world.others p))
  others-Keeps p = Keeps-modify (world.others p) (kept p)

  new_key-Keeps :
      (owner : String) (version : ℕ) → Keeps P (new_key platform keyring world owner version)
  unfolding new_key
  new_key-Keeps owner version =
      Keeps-bind (gets (world.random_bytes user_key_bytes)) _
        (Keeps-gets (world.random_bytes user_key_bytes))
        λ raw.
          Keeps-bind (gets (world.random_bytes wrap_nonce_bytes)) _
            (Keeps-gets (world.random_bytes wrap_nonce_bytes))
            λ nonce. Keeps-bind (lift (master_key platform keyring version)) _ (Keeps-lift _) λ key.
              Keeps-bind (gets world.now) _ (Keeps-gets world.now)
                λ now. Keeps-pure (wrapped_row platform keyring owner version raw nonce key now)

  store_key-Keeps :
      (owner : String) (version : ℕ) (k : UserKey)
      → Keeps P (store_key platform keyring world owner version k)
  unfolding store_key
  store_key-Keeps owner version k =
      Keeps-bind (modify (world.others before_insert)) _ (others-Keeps before_insert) λ _.
        Keeps-bind (insert_key k) _ (inserts k) λ _.
          Keeps-bind (modify (world.others before_reread)) _ (others-Keeps before_reread) λ _.
            Keeps-bind (gets (λ d. find_key owner version d.user_keys)) _
              (Keeps-gets (λ d. find_key owner version d.user_keys))
              λ row. Keeps-or_throw row not_stored

  create_key-Keeps :
      (owner : String) (version : ℕ) → Keeps P (create_key platform keyring world owner version)
  unfolding create_key
  create_key-Keeps owner version =
      Keeps-bind (new_key platform keyring world owner version) _ (new_key-Keeps owner version)
        (store_key-Keeps owner version)

  ensure_key-Keeps :
      (owner : String) (version : ℕ) (found : Option UserKey)
      → Keeps P (ensure_key platform keyring world owner version found)
  unfolding ensure_key
  ensure_key-Keeps owner version (some row) = Keeps-pure row
  ensure_key-Keeps owner version none =
      Keeps-bind (require (nat_eq version keyring.current_version) unavailable) _
        (Keeps-require (nat_eq version keyring.current_version) unavailable)
        (λ _. create_key-Keeps owner version)

  pub user_key-Keeps :
      (owner : String) (version : ℕ) → Keeps P (user_key platform keyring world owner version)
  unfolding user_key
  user_key-Keeps owner version =
      Keeps-bind (gets (λ d. find_key owner version d.user_keys)) _
        (Keeps-gets (λ d. find_key owner version d.user_keys))
        (λ found.
          Keeps-bind (ensure_key platform keyring world owner version found) _
            (ensure_key-Keeps owner version found)
            (λ row. Keeps-lift (unwrap platform keyring owner row)))

pub user_key-AddsKeys :
    (platform : Platform) (keyring : MasterKeyring) (world : KeyWorld)
    → ((p : KeyPoint) (db : Database) → AddsKeys db (world.others p db))
    → (db : Database) (owner : String) (version : ℕ)
    → Keeps (AddsKeys db) (user_key platform keyring world owner version)
user_key-AddsKeys platform keyring world only db =
    user_key-Keeps platform keyring world (AddsKeys db) (insert_key-AddsKeys db)
      (λ p later held. AddsKeys-trans db later _ held (only p later))

module _ (platform : Platform) (keyring : MasterKeyring) (owner : String) (version : ℕ) where
  -- The row that a key came from.
  pub record KeyRow (key : UsableKey) (db : Database) : Type 0 where
    pub row : UserKey
    pub found : find_key owner version db.user_keys ≡ some row
    pub unwrapped : unwrap platform keyring owner row ≡ ok key

module _ (platform : Platform) (keyring : MasterKeyring) (world : KeyWorld) (owner : String)
    (version : ℕ) where
  pub user_key_again :
      (key : UsableKey) (db : Database)
      → KeyRow platform keyring owner version key db
      → user_key platform keyring world owner version db ≡ (ok key, db)
  unfolding user_key ensure_key
  user_key_again key db r = rw (r.found, r.unwrapped) refl

  pub KeyRow-grows :
      (key : UsableKey) (db later : Database)
      → KeyRow platform keyring owner version key db
      → KeysGrow db later
      → KeyRow platform keyring owner version key later
  unfolding find_key
  KeyRow-grows key db later r grows = record {
    row = r.row;
    found =
        ap (find? (of_key owner version)) grows.1
        ∙ find?-append (of_key owner version) db.user_keys grows.0 r.row r.found;
    unwrapped = r.unwrapped;
  }

  last_read :
      (row : UserKey) (db db' : Database)
      → or_throw (find_key owner version db.user_keys) not_stored db ≡ (ok row, db')
      → find_key owner version db'.user_keys ≡ some row
  last_read row db db' h = elim (Option-cases (find_key owner version db.user_keys)) [
    | inl e ↦ cc (subst (λ o. or_throw o not_stored db ≡ (ok row, db')) e h)
    | inr (r, e) ↦ cc (e, subst (λ o. or_throw o not_stored db ≡ (ok row, db')) e h)
  ]

  ensure_key_finds :
      (o : Option UserKey) (row : UserKey) (db db' : Database)
      → find_key owner version db.user_keys ≡ o
      → ensure_key platform keyring world owner version o db ≡ (ok row, db')
      → find_key owner version db'.user_keys ≡ some row
  unfolding ensure_key create_key store_key
  ensure_key_finds (some r) row db db' e h = cc (e, h)
  ensure_key_finds none row db db' e h =
      let (_, d1, _, h1) =
        >>=-eq-ok (require (nat_eq version keyring.current_version) unavailable) _ db row db' h in
      let (k, d2, _, h2) =
        >>=-eq-ok (new_key platform keyring world owner version) _ d1 row db' h1 in
      let (_, d3, _, h3) = >>=-eq-ok (insert_key k) _ (world.others before_insert d2) row db' h2 in
      last_read row (world.others before_reread d3) db' h3

  -- A key that was given out is in the table.
  pub user_key-KeyRow :
      (key : UsableKey) (db db' : Database)
      → user_key platform keyring world owner version db ≡ (ok key, db')
      → KeyRow platform keyring owner version key db'
  unfolding user_key
  user_key-KeyRow key db db' h =
      let (row, mid, made, h1) =
        >>=-eq-ok
          (ensure_key platform keyring world owner version (find_key owner version db.user_keys)) _
          db key db' h in
      let same : mid ≡ db' = cc h1 in
      record {
        row = row;
        found =
            subst (λ d. find_key owner version d.user_keys ≡ some row) same
              (ensure_key_finds (find_key owner version db.user_keys) row db mid refl made);
        unwrapped = cc h1;
      }
