-- ===== src/Envelope/Moved.antt =====
-- What the associated data do not tell apart: identifiers may hold the sign that separates them.
use Prim.Native.String.{◌++◌}
use text.Mathlib.TextLemmas.{append_assoc}
use appbase.Prelude.{ℕ, String, ◌≡◌, refl}
use appbase.Prelude.Int.{ℤ, pos, negsuc}
use appbase.Action.{Result, ok, err, lift, ◌>>=◌}
use appbase.Json.{JsonObject}
use appbase.Database.{Database}
use appbase.Keyring.{Platform, MasterKeyring, SecretEnvelope, aad, parse_envelope}
use appbase.Envelope.{KeyWorld, open_parsed, unseal}

aad_moved :
    (o c d r : String) (version : ℕ)
    → aad o (c ++ ":" ++ d) r version ≡ aad o c (d ++ ":" ++ r) version
unfolding aad
aad_moved o c d r version = simp append_assoc

module _ (platform : Platform) (keyring : MasterKeyring) (world : KeyWorld) where
  parsed_moved :
      (o c d r : String) (parsed : SecretEnvelope) (v : ℤ) (db : Database)
      → open_parsed platform keyring world o (c ++ ":" ++ d) r parsed v db
        ≡ open_parsed platform keyring world o c (d ++ ":" ++ r) parsed v db
  unfolding open_parsed
  parsed_moved o c d r parsed (pos v) db = rw (aad_moved o c d r v) refl
  parsed_moved o c d r parsed (negsuc v) db = refl

  -- An envelope is opened alike for two records of one owner whose collection and identifier,
  -- joined by a colon, are the same text.
  pub unseal_moved :
      (o c d r : String) (e : JsonObject) (db : Database)
      → unseal platform keyring world o (c ++ ":" ++ d) r e db
        ≡ unseal platform keyring world o c (d ++ ":" ++ r) e db
  unfolding unseal
  unseal_moved o c d r e db = go (parse_envelope e)
    where
      go :
          (outcome : Result SecretEnvelope)
          → (lift outcome >>= λ p.
                open_parsed platform keyring world o (c ++ ":" ++ d) r p p.key_version)
              db
            ≡ (lift outcome >>= λ p.
                  open_parsed platform keyring world o c (d ++ ":" ++ r) p p.key_version)
                db
      go (ok p) = parsed_moved o c d r p p.key_version db
      go (err x) = refl
