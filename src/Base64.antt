-- ===== src/Base64.antt =====
-- packages/server/src/domain/cursor.ts and adapters/envelope_secret_codec.ts, the texts of bytes:
-- `bytesToBase64Url` and `base64UrlToBytes`, alike in both files. A text is the list of its
-- characters' codes. `btoa` and `atob` are the platform's, as the HTML standard defines them.
pub mod Alphabet
pub mod RoundTrip
mod Tests
use appbase.Prelude.{
  ℕ, zero, suc, ◌+◌, ◌-◌, ◌*◌, ◌/◌, ◌%◌, Bool, true, false, not, ◌&&◌, ◌||◌, Option, none, some,
  List, [], ◌∷◌, ◌++◌, map, ltb, leb, nat_eq, length, select, if◌then◌else◌,
}

-- The base64 alphabet.
unfoldable pub sextet_char : ℕ → ℕ
sextet_char v =
    if ltb v 26
    then v + 65
    else if ltb v 52
    then v + 71
    else if ltb v 62
    then v - 4
    else if nat_eq v 62
    then b'+'
    else b'/'

unfoldable pub char_sextet : ℕ → Option ℕ
char_sextet c =
    if leb b'A' c && leb c b'Z'
    then some (c - 65)
    else if leb b'a' c && leb c b'z'
    then some (c - 71)
    else if leb b'0' c && leb c b'9'
    then some (c + 4)
    else if nat_eq c b'+'
    then some 62
    else if nat_eq c b'/'
    then some 63
    else none

-- `btoa`
unfoldable pub btoa : List ℕ → List ℕ
unfolding sextet_char
btoa (a ∷ b ∷ c ∷ rest) =
    sextet_char (a / 4)
    ∷ sextet_char (a % 4 * 16 + b / 16)
    ∷ sextet_char (b % 16 * 4 + c / 64)
    ∷ sextet_char (c % 64)
    ∷ btoa rest
btoa (a ∷ b ∷ []) =
    sextet_char (a / 4) ∷ sextet_char (a % 4 * 16 + b / 16) ∷ sextet_char (b % 16 * 4) ∷ b'=' ∷ []
btoa (a ∷ []) = sextet_char (a / 4) ∷ sextet_char (a % 4 * 16) ∷ b'=' ∷ b'=' ∷ []
btoa [] = []

-- `.replaceAll("+", "-").replaceAll("/", "_")`
unfoldable pub to_url : ℕ → ℕ
to_url c = if nat_eq c b'+' then b'-' else if nat_eq c b'/' then b'_' else c

-- `.replaceAll("-", "+").replaceAll("_", "/")`
unfoldable pub from_url : ℕ → ℕ
from_url c = if nat_eq c b'-' then b'+' else if nat_eq c b'_' then b'/' else c

pub is_empty : List ℕ → Bool
is_empty [] = true
is_empty (c ∷ cs) = false

-- `.replace(/=+$/u, "")`
unfoldable pub strip_equals : List ℕ → List ℕ
unfolding is_empty
strip_equals [] = []
strip_equals (c ∷ cs) =
    let rest = strip_equals cs in if nat_eq c b'=' && is_empty rest then [] else c ∷ rest

unfoldable pub bytes_to_base64_url : List ℕ → List ℕ
unfolding btoa to_url strip_equals
bytes_to_base64_url bytes = strip_equals (map to_url (btoa bytes))

unfoldable pub equals_signs : ℕ → List ℕ
equals_signs zero = []
equals_signs (suc n) = b'=' ∷ equals_signs n

-- `padEnd(Math.ceil(length / 4) * 4, "=")`
unfoldable pub pad_end : List ℕ → List ℕ
unfolding equals_signs
pad_end text = text ++ equals_signs ((length text + 3) / 4 * 4 - length text)

-- `atob` drops ASCII white space.
pub is_white : ℕ → Bool
is_white c = nat_eq c 9 || (nat_eq c 10 || (nat_eq c 12 || (nat_eq c 13 || nat_eq c 32)))

-- Then it drops one or two `=` at the end of a text whose length is a multiple of four.
unfoldable pub unpad : List ℕ → List ℕ
unpad [] = []
unpad (c ∷ []) = if nat_eq c b'=' then [] else c ∷ []
unpad (c ∷ d ∷ []) =
    if nat_eq c b'=' && nat_eq d b'=' then [] else if nat_eq d b'=' then c ∷ [] else c ∷ d ∷ []
unpad (c ∷ d ∷ e ∷ rest) = c ∷ unpad (d ∷ e ∷ rest)

-- It fails at any character that is left and not of the alphabet.
prepend : Option ℕ → Option (List ℕ) → Option (List ℕ)
prepend (some v) (some vs) = some (v ∷ vs)
prepend _ _ = none

unfoldable pub sextets : List ℕ → Option (List ℕ)
unfolding prepend char_sextet
sextets [] = some []
sextets (c ∷ cs) = prepend (char_sextet c) (sextets cs)

-- Four sextets are three bytes. A single sextet at the end is a failure.
add_bytes : List ℕ → Option (List ℕ) → Option (List ℕ)
add_bytes bs (some rest) = some (bs ++ rest)
add_bytes bs none = none

unfoldable pub bytes_of : List ℕ → Option (List ℕ)
unfolding add_bytes
bytes_of [] = some []
bytes_of (a ∷ []) = none
bytes_of (a ∷ b ∷ []) = some ((a * 4 + b / 16) ∷ [])
bytes_of (a ∷ b ∷ c ∷ []) = some ((a * 4 + b / 16) ∷ (b % 16 * 16 + c / 4) ∷ [])
bytes_of (a ∷ b ∷ c ∷ d ∷ rest) =
    add_bytes ((a * 4 + b / 16) ∷ (b % 16 * 16 + c / 4) ∷ (c % 4 * 64 + d) ∷ []) (bytes_of rest)

decode_sextets : Option (List ℕ) → Option (List ℕ)
unfolding bytes_of
decode_sextets none = none
decode_sextets (some vs) = bytes_of vs

unfoldable pub atob : List ℕ → Option (List ℕ)
unfolding is_white unpad sextets decode_sextets
atob text =
    let dense = select (λ c. not (is_white c)) text in
    decode_sextets (sextets (if nat_eq (length dense % 4) 0 then unpad dense else dense))

unfoldable pub base64_url_to_bytes : List ℕ → Option (List ℕ)
unfolding from_url pad_end atob
base64_url_to_bytes value = atob (pad_end (map from_url value))
