-- ===== src/Base64/RoundTrip.antt =====
-- Bytes written as base64url text and read again.
use appbase.Prelude.{
  ℕ, zero, suc, ◌+◌, ◌*◌, ◌/◌, ◌%◌, ◌<◌, ◌≤◌, ◌≡◌, refl, ap, ◌∙◌, false, not, some, List, [], ◌∷◌,
  ◌++◌, map, arith, nat_eq, length, length-append, select, All,
}
use appbase.Base64.{
  sextet_char, btoa, to_url, from_url, strip_equals, bytes_to_base64_url, equals_signs, pad_end,
  is_white, unpad, sextets, bytes_of, decode_sextets, atob, base64_url_to_bytes,
}
use appbase.Base64.Alphabet.{
  char_sextet-sextet_char, from_url-to_url, not_equals, url_not_equals, not_white,
}

abbrev pub AreBytes : List ℕ → Type 0
AreBytes = All (λ b. b < 256)

abbrev AreSextets : List ℕ → Type 0
AreSextets = All (λ v. v < 64)

-- The six-bit groups of the bytes, and the padding after them.
values : List ℕ → List ℕ
values (a ∷ b ∷ c ∷ rest) =
    (a / 4) ∷ (a % 4 * 16 + b / 16) ∷ (b % 16 * 4 + c / 64) ∷ (c % 64) ∷ values rest
values (a ∷ b ∷ []) = (a / 4) ∷ (a % 4 * 16 + b / 16) ∷ (b % 16 * 4) ∷ []
values (a ∷ []) = (a / 4) ∷ (a % 4 * 16) ∷ []
values [] = []

pad_length : List ℕ → ℕ
pad_length (a ∷ b ∷ c ∷ rest) = pad_length rest
pad_length (a ∷ b ∷ []) = 1
pad_length (a ∷ []) = 2
pad_length [] = 0

abbrev chars : List ℕ → List ℕ
chars = map sextet_char

btoa-values :
    (bytes : List ℕ) → btoa bytes ≡ chars (values bytes) ++ equals_signs (pad_length bytes)
unfolding btoa values pad_length equals_signs
btoa-values (a ∷ b ∷ c ∷ rest) = rw (btoa-values rest) refl
btoa-values (a ∷ b ∷ []) = refl
btoa-values (a ∷ []) = refl
btoa-values [] = refl

values-AreSextets : (bytes : List ℕ) → AreBytes bytes → AreSextets (values bytes)
unfolding values
values-AreSextets (a ∷ b ∷ c ∷ rest) (ha, (hb, (hc, h))) =
    (omega arith, (omega arith, (omega arith, (omega arith, values-AreSextets rest h))))
values-AreSextets (a ∷ b ∷ []) (ha, (hb, h)) = omega arith
values-AreSextets (a ∷ []) (ha, h) = omega arith
values-AreSextets [] h = tt

-- The three bytes of four groups.
first_byte : (a b : ℕ) → b < 256 → a / 4 * 4 + (a % 4 * 16 + b / 16) / 16 ≡ a
first_byte a b h = omega arith

second_byte :
    (a b c : ℕ)
    → b < 256
    → c < 256
    → (a % 4 * 16 + b / 16) % 16 * 16 + (b % 16 * 4 + c / 64) / 4 ≡ b
second_byte a b c hb hc = omega arith

third_byte : (b c : ℕ) → c < 256 → (b % 16 * 4 + c / 64) % 4 * 64 + c % 64 ≡ c
third_byte b c h = omega arith

bytes_of-values : (bytes : List ℕ) → AreBytes bytes → bytes_of (values bytes) ≡ some bytes
unfolding bytes_of values
bytes_of-values (a ∷ b ∷ c ∷ rest) (ha, (hb, (hc, h))) =
    rw (bytes_of-values rest h, first_byte a b hb, second_byte a b c hb hc, third_byte b c hc) refl
bytes_of-values (a ∷ b ∷ []) (ha, (hb, h)) =
    let one : a / 4 * 4 + (a % 4 * 16 + b / 16) / 16 ≡ a = first_byte a b hb in
    let two : (a % 4 * 16 + b / 16) % 16 * 16 + b % 16 * 4 / 4 ≡ b = omega arith in
    rw (one, two) refl
bytes_of-values (a ∷ []) (ha, h) =
    let one : a / 4 * 4 + a % 4 * 16 / 16 ≡ a = omega arith in rw one refl
bytes_of-values [] h = refl

sextets-chars : (vs : List ℕ) → AreSextets vs → sextets (chars vs) ≡ some vs
unfolding sextets
sextets-chars [] h = refl
sextets-chars (v ∷ vs) h = rw (char_sextet-sextet_char v h.0, sextets-chars vs h.1) refl

urls : (vs : List ℕ) → AreSextets vs → map from_url (map to_url (chars vs)) ≡ chars vs
urls [] h = refl
urls (v ∷ vs) h = rw (from_url-to_url v h.0, urls vs h.1) refl

strip-equals_signs : (n : ℕ) → strip_equals (map to_url (equals_signs n)) ≡ []
unfolding strip_equals equals_signs to_url
strip-equals_signs zero = refl
strip-equals_signs (suc n) = rw (strip-equals_signs n) refl

strip-chars :
    (vs : List ℕ) (n : ℕ)
    → AreSextets vs
    → strip_equals (map to_url (chars vs ++ equals_signs n)) ≡ map to_url (chars vs)
unfolding strip_equals
strip-chars [] n h = strip-equals_signs n
strip-chars (v ∷ vs) n h = rw (url_not_equals v h.0, strip-chars vs n h.1) refl

unpad-cons : (c : ℕ) (cs : List ℕ) → nat_eq c b'=' ≡ false → unpad (c ∷ cs) ≡ c ∷ unpad cs
unfolding unpad
unpad-cons c [] h = rw h refl
unpad-cons c (d ∷ []) h = ground arith
unpad-cons c (d ∷ e ∷ cs) h = refl

unpad-padding : (bytes : List ℕ) → unpad (equals_signs (pad_length bytes)) ≡ []
unfolding unpad equals_signs pad_length
unpad-padding (a ∷ b ∷ c ∷ rest) = unpad-padding rest
unpad-padding (a ∷ b ∷ []) = refl
unpad-padding (a ∷ []) = refl
unpad-padding [] = refl

unpad-chars :
    (vs : List ℕ) (bytes : List ℕ)
    → AreSextets vs
    → unpad (chars vs ++ equals_signs (pad_length bytes)) ≡ chars vs
unpad-chars [] bytes h = unpad-padding bytes
unpad-chars (v ∷ vs) bytes h =
    unpad-cons (sextet_char v) (chars vs ++ equals_signs (pad_length bytes)) (not_equals v h.0)
    ∙ ap (◌∷◌ (sextet_char v)) (unpad-chars vs bytes h.1)

dense-equals : (n : ℕ) → select (λ c. not (is_white c)) (equals_signs n) ≡ equals_signs n
unfolding equals_signs is_white
dense-equals zero = refl
dense-equals (suc n) = ap (◌∷◌ b'=') (dense-equals n)

dense-chars :
    (vs : List ℕ) (n : ℕ)
    → AreSextets vs
    → select (λ c. not (is_white c)) (chars vs ++ equals_signs n) ≡ chars vs ++ equals_signs n
dense-chars [] n h = dense-equals n
dense-chars (v ∷ vs) n h = rw (not_white v h.0, dense-chars vs n h.1) refl

-- The length of the padded text.
length-values :
    (bytes : List ℕ) → length (chars (values bytes)) + pad_length bytes ≡ (length bytes + 2) / 3 * 4
unfolding values pad_length
length-values (a ∷ b ∷ c ∷ rest) = omega (arith, length-values rest)
length-values (a ∷ b ∷ []) = refl
length-values (a ∷ []) = refl
length-values [] = refl

pad_length-le : (bytes : List ℕ) → pad_length bytes ≤ 2
unfolding pad_length
pad_length-le (a ∷ b ∷ c ∷ rest) = pad_length-le rest
pad_length-le (a ∷ b ∷ []) = omega arith
pad_length-le (a ∷ []) = omega arith
pad_length-le [] = omega arith

pad-values :
    (bytes : List ℕ)
    → pad_end (chars (values bytes)) ≡ chars (values bytes) ++ equals_signs (pad_length bytes)
unfolding pad_end
pad-values bytes =
    ap (λ n. chars (values bytes) ++ equals_signs n)
      (omega (arith, length-values bytes, pad_length-le bytes))

length-equals_signs : (n : ℕ) → length (equals_signs n) ≡ n
unfolding equals_signs
length-equals_signs zero = refl
length-equals_signs (suc n) = ap suc (length-equals_signs n)

whole_groups :
    (bytes : List ℕ) → length (chars (values bytes) ++ equals_signs (pad_length bytes)) % 4 ≡ 0
whole_groups bytes = omega (
  arith,
  length-append (chars (values bytes)) (equals_signs (pad_length bytes)),
  length-equals_signs (pad_length bytes),
  length-values bytes,
)

atob-btoa : (bytes : List ℕ) → AreBytes bytes → atob (btoa bytes) ≡ some bytes
unfolding atob decode_sextets
atob-btoa bytes h =
    rw
      (
        btoa-values bytes,
        dense-chars (values bytes) (pad_length bytes) (values-AreSextets bytes h),
        whole_groups bytes,
        unpad-chars (values bytes) bytes (values-AreSextets bytes h),
        sextets-chars (values bytes) (values-AreSextets bytes h),
      )
      (bytes_of-values bytes h)

-- Any bytes, written as a base64url text without padding, are read back from it.
pub base64_round_trip :
    (bytes : List ℕ) → AreBytes bytes → base64_url_to_bytes (bytes_to_base64_url bytes) ≡ some bytes
unfolding base64_url_to_bytes bytes_to_base64_url
base64_round_trip bytes h =
    rw
      (
        btoa-values bytes,
        strip-chars (values bytes) (pad_length bytes) (values-AreSextets bytes h),
        urls (values bytes) (values-AreSextets bytes h),
        pad-values bytes,
        ← btoa-values bytes,
      )
      (atob-btoa bytes h)
