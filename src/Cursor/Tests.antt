-- ===== src/Cursor/Tests.antt =====
-- Page tokens at concrete inputs, and the theorems at inputs that meet their hypotheses.
use appbase.Prelude.{ℕ, ◌≡◌, refl, none, some, List, [], ◌∷◌}
use appbase.Action.{ok, err, invalid_cursor}
use appbase.Base64.{bytes_to_base64_url}
use appbase.Cursor.{to_decimal, encode_cursor, decode_cursor, cursor_run}
use appbase.Cursor.RoundTrip.{decode-encode, decode_safe}

-- "NDI", the token of 42
abbrev token : List ℕ
token = b'N' ∷ b'D' ∷ b'I' ∷ []

encode_42 : encode_cursor 42 ≡ ok token
unfolding cursor_run
encode_42 = refl

decode_42 : decode_cursor (some token) ≡ ok 42
unfolding cursor_run
decode_42 = refl

decode_none : decode_cursor none ≡ ok 0
unfolding cursor_run
decode_none = refl

-- "LTE" is the text "-1".
decode_negative : decode_cursor (some (b'L' ∷ b'T' ∷ b'E' ∷ [])) ≡ err invalid_cursor
unfolding cursor_run
decode_negative = refl

decode-encode_example : decode_cursor (some token) ≡ ok 42
decode-encode_example = decode-encode 42 token encode_42

decode_safe_example : encode_cursor 42 ≡ ok (bytes_to_base64_url (to_decimal 42))
decode_safe_example = decode_safe (some token) 42 decode_42
