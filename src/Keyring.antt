-- ===== src/Keyring.antt =====
-- packages/server/src/adapters/envelope_secret_codec.ts, what its class calls without the database:
-- the keyring, the keys and the envelopes. AES-GCM and the texts of JSON values are the platform's
-- and come as parameters; associated data stand as the texts whose UTF-8 bytes they are.
pub mod Texts
use Prim.Native.String.{◌++◌}
use appbase.Prelude.{
  ℕ, suc, String, ◌≡◌, refl, Bool, true, false, ◌&&◌, not, Option, none, some, List, [], ◌∷◌, ◌==◌,
  leb, nat_eq, length, lookup, if◌then◌else◌,
}
use appbase.Prelude.Int.{ℤ, pos, negsuc}
use appbase.Prelude.Text.{text_of, codes, from_codes}
use appbase.Action.{Failure, plain, Result, ok, err}
use appbase.Json.{Json, str, num, obj, JsonObject, props}
use appbase.Database.{UserKey}
use appbase.Base64.{bytes_to_base64_url, base64_url_to_bytes}
use appbase.Cursor.{max_safe_integer}

-- `crypto.subtle.encrypt` and `decrypt` for AES-GCM: key, nonce, associated data, text. The bytes
-- of `JSON.stringify`, and `JSON.parse` of bytes. `none` is an exception.
pub record Platform : Type 0 where
  pub encrypt : List ℕ → List ℕ → String → List ℕ → List ℕ
  pub decrypt : List ℕ → List ℕ → String → List ℕ → Option (List ℕ)
  pub stringify : JsonObject → List ℕ
  pub parse : List ℕ → Option Json

pub record MasterKeyring : Type 0 where
  pub current_version : ℕ
  pub keys : List (ℕ × String)

-- `keyring.keys[version]`
abbrev pub version_key : ℕ → List (ℕ × String) → Option String
version_key version [] = none
version_key version ((v, key) ∷ rest) =
    if nat_eq v version then some key else version_key version rest

-- `Number.isSafeInteger(value) && value >= 1`
abbrev pub is_version : ℕ → Bool
is_version value = leb 1 value && leb value max_safe_integer

is_some : {A : Type 0} → Option A → Bool
is_some none = false
is_some (some a) = true

unfoldable pub validate_keyring : MasterKeyring → Result MasterKeyring
unfolding is_some
validate_keyring value =
    if not (is_version value.current_version)
    then err (plain "AppBase current master key version must be a positive integer.")
    else if not (is_some (version_key value.current_version value.keys))
    then err (plain "AppBase keyring does not contain its current master key.")
    else ok value

-- The next step of a function that touches no state.
infixl 5 ◌>>=◌
abbrev pub ◌>>=◌ : {A B : Type 0} → Result A → (A → Result B) → Result B
ok a >>= f = f a
err e >>= f = err e

abbrev pub or_err : {A : Type 0} → Option A → Failure → Result A
or_err none e = err e
or_err (some a) e = ok a

pub >>=-eq-ok :
    {A B : Type 0} (m : Result A) (f : A → Result B) (b : B)
    → (m >>= f) ≡ ok b
    → (a : A) × (m ≡ ok a) × (f a ≡ ok b)
>>=-eq-ok (ok a) f b h = (a, refl, h)
>>=-eq-ok (err e) f b h = cc h

unfoldable pub import_aes_key : List ℕ → Result (List ℕ)
import_aes_key raw =
    if nat_eq (length raw) 32
    then ok raw
    else err (plain "AppBase encryption keys must contain 32 bytes.")

unfoldable pub aad : String → String → String → ℕ → String
aad owner collection record_id version =
    "appbase:secret:" ++ owner ++ ":" ++ collection ++ ":" ++ record_id ++ ":" ++ text_of version

unfoldable pub user_key_aad : String → ℕ → String
user_key_aad owner version = "appbase:user-key:" ++ owner ++ ":" ++ text_of version

unfoldable pub to_base64_url : List ℕ → String
to_base64_url bytes = from_codes (bytes_to_base64_url bytes)

unfoldable pub from_base64_url : String → Option (List ℕ)
from_base64_url value = base64_url_to_bytes (codes value)

-- `SecretEnvelope`, without the algorithm, which is always the same.
pub record SecretEnvelope : Type 0 where
  pub ciphertext : String
  pub nonce : String
  pub key_version : ℤ

unfoldable pub envelope_to_json : SecretEnvelope → JsonObject
envelope_to_json envelope =
    ("algorithm", str "A256GCM")
    ∷ ("ciphertext", str envelope.ciphertext)
    ∷ ("nonce", str envelope.nonce)
    ∷ ("keyVersion", num envelope.key_version)
    ∷ []

abbrev pub is_safe : ℤ → Bool
is_safe (pos n) = leb n max_safe_integer
is_safe (negsuc n) = leb (suc n) max_safe_integer

abbrev pub string_at : Option Json → Option String
string_at (some (str s)) = some s
string_at _ = none

abbrev pub number_at : Option Json → Option ℤ
number_at (some (num v)) = some v
number_at _ = none

unfoldable pub checked_envelope :
    Option String → Option String → Option String → Option ℤ → Option SecretEnvelope
checked_envelope (some algorithm) (some ciphertext) (some nonce) (some v) =
    if algorithm == "A256GCM" && is_safe v
    then some (record { ciphertext = ciphertext; nonce = nonce; key_version = v })
    else none
checked_envelope none _ _ _ = none
checked_envelope (some _) none _ _ = none
checked_envelope (some _) (some _) none _ = none
checked_envelope (some _) (some _) (some _) none = none

unfoldable pub parse_envelope : JsonObject → Result SecretEnvelope
unfolding checked_envelope
parse_envelope value =
    or_err
      (checked_envelope (string_at (lookup "algorithm" value))
        (string_at (lookup "ciphertext" value)) (string_at (lookup "nonce" value))
        (number_at (lookup "keyVersion" value)))
      (plain "The encrypted credential envelope is invalid.")

pub record UsableKey : Type 0 where
  pub crypto_key : List ℕ
  pub version : ℕ

module _ (platform : Platform) where
  -- The test of what was decrypted.
  object_of : Json → Result JsonObject
  object_of (obj fs) = ok (props fs)
  object_of _ = err (plain "Decrypted credential payload is invalid.")

  -- The block whose exceptions are all replaced.
  unfoldable pub decrypt_payload : List ℕ → String → String → String → Result JsonObject
  unfolding object_of from_base64_url
  decrypt_payload key associated nonce ciphertext = do
    iv ← or_err (from_base64_url nonce) (plain "InvalidCharacterError")
    sealed ← or_err (from_base64_url ciphertext) (plain "InvalidCharacterError")
    plaintext ← or_err (platform.decrypt key iv associated sealed) (plain "OperationError")
    value ← or_err (platform.parse plaintext) (plain "SyntaxError")
    object_of value

module _ (platform : Platform) (keyring : MasterKeyring) where
  unfoldable pub master_key : ℕ → Result (List ℕ)
  unfolding import_aes_key from_base64_url
  master_key version = do
    encoded ←
        or_err (version_key version keyring.keys)
          (plain ("AppBase master key version " ++ text_of version ++ " is unavailable."))
    raw ← or_err (from_base64_url encoded) (plain "InvalidCharacterError")
    import_aes_key raw

  unfoldable pub unwrapped_key : String → UserKey → Result (List ℕ)
  unfolding master_key from_base64_url import_aes_key user_key_aad
  unwrapped_key owner row = do
    master ← master_key row.key_version
    nonce ← or_err (from_base64_url row.wrap_nonce) (plain "InvalidCharacterError")
    wrapped ← or_err (from_base64_url row.wrapped_key) (plain "InvalidCharacterError")
    raw ←
        or_err (platform.decrypt master nonce (user_key_aad owner row.key_version) wrapped)
          (plain "OperationError")
    import_aes_key raw

  -- The end of `userKey`: the row's key, unwrapped.
  unfoldable pub unwrap : String → UserKey → Result UsableKey
  unfolding unwrapped_key
  unwrap owner row = do
    key ← unwrapped_key owner row
    ok (record { crypto_key = key; version = row.key_version })

  -- The row that wraps a new key.
  unfoldable pub wrapped_row : String → ℕ → List ℕ → List ℕ → List ℕ → ℕ → UserKey
  unfolding to_base64_url user_key_aad
  wrapped_row owner version raw_key wrap_nonce master created_at = record {
    owner_sub = owner;
    key_version = version;
    wrapped_key =
        to_base64_url (platform.encrypt master wrap_nonce (user_key_aad owner version) raw_key);
    wrap_nonce = to_base64_url wrap_nonce;
    created_at = created_at;
  }

-- The `catch` around it.
abbrev pub authenticated : Result JsonObject → Result JsonObject
authenticated (ok value) = ok value
authenticated (err e) = err (plain "The encrypted credential payload could not be authenticated.")
