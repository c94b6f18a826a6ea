-- ===== src/Cursor/RoundTrip.antt =====
-- A page token is read back as the sequence number that it was made from, and as no other.
use appbase.Prelude.{
  ℕ, ◌≤◌, ◌≡◌, ◌≢◌, refl, ap, ◌∙◌, true, Option, none, some, List, [], ◌∷◌, arith, leb,
}
use appbase.Prelude.Int.{ℤ, pos, negsuc}
use appbase.Action.{ok}
use appbase.Base64.{bytes_to_base64_url, base64_url_to_bytes}
use appbase.Base64.RoundTrip.{base64_round_trip}
use appbase.Cursor.{
  max_safe_integer, to_decimal, parse_int, encode_cursor, check_value, decode_bytes, decode_cursor,
}
use appbase.Cursor.Decimal.{parse_int-to_decimal, to_decimal-AreBytes, to_decimal-ne-nil}

decode_text :
    (text : List ℕ)
    → text ≢ []
    → decode_cursor (some text) ≡ decode_bytes (base64_url_to_bytes text)
unfolding decode_cursor
decode_text [] h = absurd (h refl)
decode_text (c ∷ cs) h = refl

token_ne_nil :
    (bytes : List ℕ)
    → bytes ≢ []
    → base64_url_to_bytes (bytes_to_base64_url bytes) ≡ some bytes
    → bytes_to_base64_url bytes ≢ []
token_ne_nil bytes h back e = h (cc (back, nothing, ap base64_url_to_bytes e))
  where
    nothing : base64_url_to_bytes [] ≡ some []
    nothing = unfold base64_url_to_bytes in refl

encoded :
    (sequence : ℕ) (cursor : List ℕ)
    → encode_cursor sequence ≡ ok cursor
    → (sequence ≤ max_safe_integer) × (cursor ≡ bytes_to_base64_url (to_decimal sequence))
unfolding encode_cursor
encoded sequence cursor h = ground arith

decode_written :
    (sequence : ℕ)
    → sequence ≤ max_safe_integer
    → decode_cursor (some (bytes_to_base64_url (to_decimal sequence))) ≡ ok sequence
unfolding decode_bytes check_value
decode_written sequence small =
    decode_text (bytes_to_base64_url (to_decimal sequence))
      (token_ne_nil (to_decimal sequence) (to_decimal-ne-nil sequence) back)
    ∙ rw (back, parse_int-to_decimal sequence, safe) refl
  where
    back :
        base64_url_to_bytes (bytes_to_base64_url (to_decimal sequence)) ≡ some (to_decimal sequence)
    back = base64_round_trip (to_decimal sequence) (to_decimal-AreBytes sequence)

    safe : leb sequence max_safe_integer ≡ true
    safe = ground arith

-- The token that `encodeCursor` gives for a sequence number decodes to that number.
pub decode-encode :
    (sequence : ℕ) (cursor : List ℕ)
    → encode_cursor sequence ≡ ok cursor
    → decode_cursor (some cursor) ≡ ok sequence
decode-encode sequence cursor h =
    let (small, same) = encoded sequence cursor h in
    ap (λ c. decode_cursor (some c)) same ∙ decode_written sequence small

checked_safe : (o : Option ℤ) (n : ℕ) → check_value o ≡ ok n → n ≤ max_safe_integer
unfolding check_value
checked_safe none n h = cc h
checked_safe (some (negsuc k)) n h = cc h
checked_safe (some (pos k)) n h = ground arith

decode_bytes_safe : (o : Option (List ℕ)) (n : ℕ) → decode_bytes o ≡ ok n → n ≤ max_safe_integer
unfolding decode_bytes
decode_bytes_safe none n h = cc h
decode_bytes_safe (some bytes) n h = checked_safe (parse_int bytes) n h

pub decode_le :
    (cursor : Option (List ℕ)) (n : ℕ) → decode_cursor cursor ≡ ok n → n ≤ max_safe_integer
unfolding decode_cursor
decode_le none n h = ground arith
decode_le (some []) n h = ground arith
decode_le (some (c ∷ cs)) n h = decode_bytes_safe (base64_url_to_bytes (c ∷ cs)) n h

-- A safe integer has a token.
pub encode_small :
    (n : ℕ) → n ≤ max_safe_integer → encode_cursor n ≡ ok (bytes_to_base64_url (to_decimal n))
unfolding encode_cursor
encode_small n small = ground arith

-- Whatever token a client sends, a number that it decodes to is a safe integer, which can be
-- encoded again.
pub decode_safe :
    (cursor : Option (List ℕ)) (n : ℕ)
    → decode_cursor cursor ≡ ok n
    → encode_cursor n ≡ ok (bytes_to_base64_url (to_decimal n))
decode_safe cursor n h = encode_small n (decode_le cursor n h)
