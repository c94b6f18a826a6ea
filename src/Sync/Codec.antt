-- ===== src/Sync/Codec.antt =====
-- What the synchronization relies on in the codec of payloads.
use appbase.Prelude.{String, ◌≡◌, List, ◌++◌}
use appbase.Action.{ok}
use appbase.Json.{JsonObject}
use appbase.Database.{Database, UserKey}
use appbase.Sync.{SecretCodec}

-- Keys are added and none is taken away.
abbrev pub KeysGrow : Database → Database → Type 0
KeysGrow db later = (more : List UserKey) × (later.user_keys ≡ db.user_keys ++ more)

pub record CodecLaws (codec : SecretCodec) : Type 0 where
  -- Sealing writes at most a key.
  pub seal_frame :
      (o c r : String) (p : JsonObject) (db : Database)
      → record (codec.seal o c r p db).1 { user_keys = db.user_keys } ≡ db
  -- So does unsealing, which creates a missing current key before it fails with it.
  pub unseal_frame :
      (o c r : String) (e : JsonObject) (db : Database)
      → record (codec.unseal o c r e db).1 { user_keys = db.user_keys } ≡ db
  -- Neither takes a key away.
  pub seal_grows :
      (o c r : String) (p : JsonObject) (db : Database) → KeysGrow db (codec.seal o c r p db).1
  pub unseal_grows :
      (o c r : String) (e : JsonObject) (db : Database) → KeysGrow db (codec.unseal o c r e db).1
  -- What was sealed can be read while the keys are kept.
  pub unseal-seal :
      (o c r : String) (p e : JsonObject) (db db' later : Database)
      → codec.seal o c r p db ≡ (ok e, db')
      → KeysGrow db' later
      → codec.unseal o c r e later ≡ (ok p, later)
  -- What could be read once can be read again, and then reading writes nothing.
  pub unseal_stable :
      (o c r : String) (p e : JsonObject) (db db' later : Database)
      → codec.unseal o c r e db ≡ (ok p, db')
      → KeysGrow db' later
      → codec.unseal o c r e later ≡ (ok p, later)
