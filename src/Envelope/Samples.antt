-- ===== src/Envelope/Samples.antt =====
-- For the tests: a cipher that writes each number of a text as so many bytes, keyrings and a world.
use appbase.Prelude.{ℕ, zero, suc, ◌+◌, String, ◌≡◌, refl, ap, ◌∙◌, some, List, [], ◌∷◌, arith}
use appbase.Base64.RoundTrip.{AreBytes}
use appbase.Keyring.{Platform, MasterKeyring, validate_keyring}
use appbase.Envelope.{Draw, user_key_bytes, wrap_nonce_bytes, payload_nonce, KeyWorld}
use appbase.Envelope.Keys.{AddsKeys-refl}
use appbase.Envelope.Laws.{PlatformLaws, Setting}
use appbase.Envelope.Postfix.{stringify, parse, parse-stringify}

ones : ℕ → List ℕ → List ℕ
ones zero later = later
ones (suc n) later = 1 ∷ ones n later

unfoldable pub unary : List ℕ → List ℕ
unfolding ones
unary [] = []
unary (n ∷ ns) = ones n (0 ∷ unary ns)

unfoldable pub read_unary : ℕ → List ℕ → List ℕ
read_unary n [] = []
read_unary n (zero ∷ rest) = n ∷ read_unary 0 rest
read_unary n (suc m ∷ rest) = read_unary (suc n) rest

read-ones :
    (n m : ℕ) (later : List ℕ) → read_unary m (ones n (0 ∷ later)) ≡ (m + n) ∷ read_unary 0 later
unfolding read_unary ones
read-ones zero m later = ap (λ k. k ∷ read_unary 0 later) (omega arith)
read-ones (suc n) m later =
    read-ones n (suc m) later ∙ ap (λ k. k ∷ read_unary 0 later) (omega arith)

read-unary : (ns : List ℕ) → read_unary 0 (unary ns) ≡ ns
unfolding read_unary unary
read-unary [] = refl
read-unary (n ∷ ns) = read-ones n 0 (unary ns) ∙ cc (read-unary ns, zero_add n)
  where
    zero_add : (n : ℕ) → 0 + n ≡ n
    zero_add n = omega arith

ones-AreBytes : (n : ℕ) (later : List ℕ) → AreBytes later → AreBytes (ones n later)
unfolding ones
ones-AreBytes zero later h = h
ones-AreBytes (suc n) later h = (omega arith, ones-AreBytes n later h)

unary-AreBytes : (ns : List ℕ) → AreBytes (unary ns)
unfolding unary
unary-AreBytes [] = tt
unary-AreBytes (n ∷ ns) = ones-AreBytes n (0 ∷ unary ns) (omega arith, unary-AreBytes ns)

abbrev pub open_cipher : Platform
open_cipher = record {
  encrypt = λ key iv associated plaintext. unary plaintext;
  decrypt = λ key iv associated ciphertext. some (read_unary 0 ciphertext);
  stringify = stringify;
  parse = parse;
}

abbrev pub zeros : ℕ → List ℕ
zeros zero = []
zeros (suc n) = 0 ∷ zeros n

zeros-AreBytes : (n : ℕ) → AreBytes (zeros n)
zeros-AreBytes zero = tt
zeros-AreBytes (suc n) = (omega arith, zeros-AreBytes n)

abbrev pub drawn : Draw → List ℕ
drawn user_key_bytes = zeros 32
drawn wrap_nonce_bytes = zeros 12
drawn payload_nonce = zeros 12

drawn-AreBytes : (d : Draw) → AreBytes (drawn d)
drawn-AreBytes user_key_bytes = zeros-AreBytes 32
drawn-AreBytes wrap_nonce_bytes = zeros-AreBytes 12
drawn-AreBytes payload_nonce = zeros-AreBytes 12

abbrev pub alone : KeyWorld
alone = record { others = λ p db. db; now = λ db. 7; random_bytes = λ d db. drawn d }

-- 32 bytes, in base64url
abbrev pub master : String
master = "AAAAAAAAAAAAAAAAAAAAAAAAAAAAAAAAAAAAAAAAAAA"

abbrev pub first_keyring : MasterKeyring
first_keyring = record { current_version = 1; keys = (1, master) ∷ [] }

abbrev pub second_keyring : MasterKeyring
second_keyring = record { current_version = 2; keys = (1, master) ∷ (2, master) ∷ [] }

cipher_laws : PlatformLaws open_cipher alone
cipher_laws = record {
  decrypt-encrypt = λ key iv associated plaintext. ap some (read-unary plaintext);
  encrypt-AreBytes = λ key iv associated plaintext. unary-AreBytes plaintext;
  random-AreBytes = λ d db. drawn-AreBytes d;
  parse-stringify = parse-stringify;
}

pub first-Setting : Setting open_cipher first_keyring alone
unfolding validate_keyring
first-Setting = record { laws = cipher_laws; accepted = refl; only_adds = λ p db. AddsKeys-refl db }

pub second-Setting : Setting open_cipher second_keyring alone
unfolding validate_keyring
second-Setting = record {
  laws = cipher_laws;
  accepted = refl;
  only_adds = λ p db. AddsKeys-refl db;
}
