-- ===== src/Base64/Tests.antt =====
-- Texts of bytes at concrete inputs, and the round trip at one of them.
use appbase.Prelude.{◌≡◌, refl, none, some, [], ◌∷◌, arith}
use appbase.Base64.{bytes_to_base64_url, base64_url_to_bytes}
use appbase.Base64.RoundTrip.{base64_round_trip}

-- "-_8" is the text of the bytes 251 and 255.
url_characters : bytes_to_base64_url (251 ∷ 255 ∷ []) ≡ b'-' ∷ b'_' ∷ b'8' ∷ []
unfolding bytes_to_base64_url
url_characters = refl

lone_character : base64_url_to_bytes (b'A' ∷ []) ≡ none
unfolding base64_url_to_bytes
lone_character = refl

foreign_character : base64_url_to_bytes (b'A' ∷ b'!' ∷ []) ≡ none
unfolding base64_url_to_bytes
foreign_character = refl

base64_round_trip_example :
    base64_url_to_bytes (bytes_to_base64_url (251 ∷ 255 ∷ [])) ≡ some (251 ∷ 255 ∷ [])
base64_round_trip_example = base64_round_trip (251 ∷ 255 ∷ []) (omega arith, (omega arith, tt))
