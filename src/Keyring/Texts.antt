-- ===== src/Keyring/Texts.antt =====
-- Bytes written as a base64url text, a native one, and read again.
use appbase.Prelude.{
  ℕ, ◌+◌, ◌<◌, ◌≡◌, refl, ap, ◌∙◌, Bool, true, false, some, List, [], ◌∷◌, ◌/◌, ◌%◌, ◌*◌, ◌&&◌, map,
  arith, nat_eq, All, All-map, if◌then◌else◌,
}
use appbase.Prelude.Text.{codes-from_codes}
use appbase.Json.{JsonObject, props, fields}
use appbase.Base64.{
  sextet_char, btoa, to_url, strip_equals, bytes_to_base64_url, base64_url_to_bytes, is_empty,
}
use appbase.Base64.RoundTrip.{AreBytes, base64_round_trip}
use appbase.Keyring.{to_base64_url, from_base64_url}

abbrev AreAscii : List ℕ → Type 0
AreAscii = All (λ n. n < 128)

sextet_char_ascii : (v : ℕ) → sextet_char v < 128
unfolding sextet_char
sextet_char_ascii v = ground arith

to_url_ascii : (c : ℕ) → c < 128 → to_url c < 128
unfolding to_url
to_url_ascii c h = ground arith

btoa-AreAscii : (bytes : List ℕ) → AreAscii (btoa bytes)
unfolding btoa
btoa-AreAscii (a ∷ b ∷ c ∷ rest) = (
  sextet_char_ascii (a / 4),
  (
    sextet_char_ascii (a % 4 * 16 + b / 16),
    (sextet_char_ascii (b % 16 * 4 + c / 64), (sextet_char_ascii (c % 64), btoa-AreAscii rest)),
  ),
)
btoa-AreAscii (a ∷ b ∷ []) = (
  sextet_char_ascii (a / 4),
  (sextet_char_ascii (a % 4 * 16 + b / 16), (sextet_char_ascii (b % 16 * 4), (omega arith, tt))),
)
btoa-AreAscii (a ∷ []) =
    (sextet_char_ascii (a / 4), (sextet_char_ascii (a % 4 * 16), (omega arith, (omega arith, tt))))
btoa-AreAscii [] = tt

strip-AreAscii : (cs : List ℕ) → AreAscii cs → AreAscii (strip_equals cs)
unfolding strip_equals
strip-AreAscii [] h = tt
strip-AreAscii (c ∷ cs) h =
    go (nat_eq c b'=' && is_empty (strip_equals cs)) (h.0, strip-AreAscii cs h.1)
  where
    go :
        (b : Bool)
        → AreAscii (c ∷ strip_equals cs)
        → AreAscii (if b then [] else c ∷ strip_equals cs)
    go true k = tt
    go false k = k

pub from_base64_url-to_base64_url :
    (bytes : List ℕ) → AreBytes bytes → from_base64_url (to_base64_url bytes) ≡ some bytes
unfolding from_base64_url to_base64_url bytes_to_base64_url
from_base64_url-to_base64_url bytes h =
    ap base64_url_to_bytes (
      codes-from_codes (strip_equals (map to_url (btoa bytes))) (
        strip-AreAscii (map to_url (btoa bytes)) (
          All-map (λ n. n < 128) (λ n. n < 128) to_url to_url_ascii (btoa bytes)
            (btoa-AreAscii bytes))))
    ∙ (unfold bytes_to_base64_url in base64_round_trip bytes h)

pub props-fields : (ps : JsonObject) → props (fields ps) ≡ ps
props-fields [] = refl
props-fields ((k, v) ∷ ps) = ap (◌∷◌ (k, v)) (props-fields ps)
