-- ===== src/Cursor.antt =====
-- packages/server/src/domain/cursor.ts: the opaque page tokens.
-- Texts are lists of character codes. Of `TextDecoder` the ASCII part is modelled: a byte of 128 or
-- more ends the number, and tokens that begin with other Unicode white space are left out.
pub mod Decimal
pub mod RoundTrip
mod Tests
use appbase.Prelude.{
  ℕ, zero, suc, ◌+◌, ◌-◌, ◌*◌, ◌/◌, ◌%◌, Bool, ◌&&◌, ◌||◌, Option, none, some, List, [], ◌∷◌, ltb,
  leb, nat_eq, if◌then◌else◌,
}
use appbase.Prelude.Int.{ℤ, pos, negsuc}
use appbase.Action.{Result, ok, err, invalid_cursor, plain}
use appbase.Base64.{bytes_to_base64_url, base64_url_to_bytes}

-- `Number.MAX_SAFE_INTEGER`
abbrev pub max_safe_integer : ℕ
max_safe_integer = 9007199254740991

-- `String(n)`: the digits before those in `later`, with fuel for the divisions.
digits_before : ℕ → ℕ → List ℕ → List ℕ
digits_before zero n later = later
digits_before (suc fuel) n later =
    let rest = digits_before fuel (n / 10) ((n % 10 + b'0') ∷ later) in
    if ltb n 10 then (n + b'0') ∷ later else rest

pub to_decimal : ℕ → List ℕ
unfolding digits_before
to_decimal n = digits_before (suc n) n []

is_digit : ℕ → Bool
is_digit c = leb b'0' c && leb c b'9'

-- `Number.parseInt(text, 10)`: the digits at the front.
parse_digits : ℕ → List ℕ → ℕ
unfolding is_digit
parse_digits value [] = value
parse_digits value (c ∷ cs) =
    if is_digit c then parse_digits (value * 10 + (c - b'0')) cs else value

-- `none` is NaN.
parse_unsigned : List ℕ → Option ℕ
unfolding parse_digits
parse_unsigned [] = none
parse_unsigned (c ∷ cs) = if is_digit c then some (parse_digits 0 (c ∷ cs)) else none

negate : Option ℕ → Option ℤ
negate none = none
negate (some zero) = some (pos 0)
negate (some (suc n)) = some (negsuc n)

positive : Option ℕ → Option ℤ
positive none = none
positive (some n) = some (pos n)

parse_signed : List ℕ → Option ℤ
unfolding parse_unsigned negate positive
parse_signed [] = none
parse_signed (c ∷ cs) =
    if nat_eq c b'-'
    then negate (parse_unsigned cs)
    else if nat_eq c b'+'
    then positive (parse_unsigned cs)
    else positive (parse_unsigned (c ∷ cs))

is_space : ℕ → Bool
is_space c = leb 9 c && leb c 13 || nat_eq c 32

skip_space : List ℕ → List ℕ
unfolding is_space
skip_space [] = []
skip_space (c ∷ cs) = if is_space c then skip_space cs else c ∷ cs

pub parse_int : List ℕ → Option ℤ
unfolding parse_signed skip_space
parse_int text = parse_signed (skip_space text)

pub encode_cursor : ℕ → Result (List ℕ)
unfolding to_decimal
encode_cursor sequence =
    if leb sequence max_safe_integer
    then ok (bytes_to_base64_url (to_decimal sequence))
    else err (plain "cursor sequence must be a non-negative safe integer")

check_value : Option ℤ → Result ℕ
check_value none = err invalid_cursor
check_value (some (negsuc n)) = err invalid_cursor
check_value (some (pos n)) = if leb n max_safe_integer then ok n else err invalid_cursor

-- `atob` throws where it gives no bytes.
decode_bytes : Option (List ℕ) → Result ℕ
unfolding check_value parse_int
decode_bytes none = err invalid_cursor
decode_bytes (some bytes) = check_value (parse_int bytes)

pub decode_cursor : Option (List ℕ) → Result ℕ
unfolding decode_bytes
decode_cursor none = ok 0
decode_cursor (some []) = ok 0
decode_cursor (some (c ∷ cs)) = decode_bytes (base64_url_to_bytes (c ∷ cs))

-- Opens the cursors for a run.
unfoldable pub cursor_run : Unit {0}
unfolding encode_cursor decode_cursor bytes_to_base64_url base64_url_to_bytes
cursor_run = tt
