-- ===== src/Prelude/Text.antt =====
-- Numbers as texts, and the calendar of UTC.
use Prim.Native.Nat.{ℕ, zero, suc, ◌+◌, ◌-◌, ◌*◌, ◌/◌, ◌%◌, ◌<◌, Ordering, compare}
use Prim.Native.Char.{Char, code, char, nul}
use Prim.Native.String.{String, [], ◌∷◌, ◌++◌}
use mathlib.Core.Bool.{Bool, true, ◌&&◌, ◌||◌}
use mathlib.Core.List.{List}
use mathlib.Core.Path.{◌≡◌, refl}
use native.Mathlib.Omega.{arith}
use appbase.Prelude.Lists.{All}
use appbase.Prelude.Tests.{ltb, leb, nat_eq, if◌then◌else◌}

digit : ℕ → String
digit zero = "0"
digit (suc zero) = "1"
digit (suc (suc zero)) = "2"
digit (suc (suc (suc zero))) = "3"
digit (suc (suc (suc (suc zero)))) = "4"
digit (suc (suc (suc (suc (suc zero))))) = "5"
digit (suc (suc (suc (suc (suc (suc zero)))))) = "6"
digit (suc (suc (suc (suc (suc (suc (suc zero))))))) = "7"
digit (suc (suc (suc (suc (suc (suc (suc (suc zero)))))))) = "8"
digit (suc (suc (suc (suc (suc (suc (suc (suc (suc n))))))))) = "9"

digits : ℕ → ℕ → String → String
unfolding digit
digits zero n later = later
digits (suc fuel) n later =
    let rest = digits fuel (n / 10) (digit (n % 10) ++ later) in
    if ltb n 10 then digit n ++ later else rest

-- `String(n)`; each division takes a digit away, so n + 1 rounds are enough.
unfoldable pub text_of : ℕ → String
unfolding digits
text_of n = digits (suc n) n ""

-- `.padStart(2, "0")` of a number's text
unfoldable pub two_digits : ℕ → String
unfolding text_of
two_digits n = if ltb n 10 then "0" ++ text_of n else text_of n

pub record Month : Type 0 where
  pub year : ℕ
  pub month : ℕ

month_of_day : ℕ → ℕ → ℕ → Month
month_of_day era year_of_era day_of_era =
    let day_of_year = day_of_era - (365 * year_of_era + year_of_era / 4 - year_of_era / 100) in
    let shifted = (5 * day_of_year + 2) / 153 in
    let year = year_of_era + era * 400 in
    if ltb shifted 10
    then record { year = year; month = shifted + 3 }
    else record { year = year + 1; month = shifted - 9 }

civil : ℕ → Month
unfolding month_of_day
civil day =
    let day_of_era = day % 146097 in
    month_of_day (day / 146097)
      ((day_of_era - day_of_era / 1460 + day_of_era / 36524 - day_of_era / 146096) / 365) day_of_era

-- `getUTCFullYear` and `getUTCMonth() + 1` of an instant in milliseconds since 1970. The day
-- 719468 of the proleptic calendar that starts on 1 March of the year 0 is the first of them.
unfoldable pub utc_month_of : ℕ → Month
unfolding civil
utc_month_of instant = civil (instant / 86400000 + 719468)

-- The white space that `trim` takes away.
is_trimmed : Char → Bool
is_trimmed c =
    let n = code c in
    (leb 9 n && leb n 13)
    || (nat_eq n 32
        || (nat_eq n 160
            || (nat_eq n 5760
                || ((leb 8192 n && leb n 8202)
                    || (nat_eq n 8232
                        || (nat_eq n 8233
                            || (nat_eq n 8239
                                || (nat_eq n 8287 || (nat_eq n 12288 || nat_eq n 65279)))))))))

-- `!text.trim()`
unfoldable pub is_blank : String → Bool
unfolding is_trimmed
is_blank [] = true
is_blank (c ∷ s) = is_trimmed c && is_blank s

-- `text.length`, in units of UTF-16
unfoldable pub text_length : String → ℕ
text_length [] = 0
text_length (c ∷ s) = (if ltb (code c) 65536 then 1 else 2) + text_length s

-- `text.trim()`
drop_blanks : String → String
unfolding is_trimmed
drop_blanks [] = []
drop_blanks (c ∷ s) = if is_trimmed c then drop_blanks s else c ∷ s

drop_last_blanks : String → String
unfolding is_trimmed is_blank
drop_last_blanks [] = []
drop_last_blanks (c ∷ s) =
    let rest = drop_last_blanks s in if is_trimmed c && is_blank s then [] else c ∷ rest

unfoldable pub trim : String → String
unfolding drop_blanks drop_last_blanks
trim s = drop_last_blanks (drop_blanks s)

-- The character codes of a text, and the text of codes below the surrogates.
unfoldable pub codes : String → List ℕ
codes [] = List.[]
codes (c ∷ s) = List.◌∷◌ (code c) (codes s)

char_when : (n : ℕ) (o : Ordering) → compare n 55296 ≡ o → Char
char_when n Ordering.lt e = char n (rw e tt)
char_when n Ordering.eq e = nul
char_when n Ordering.gt e = nul

unfoldable pub from_codes : List ℕ → String
unfolding char_when
from_codes List.[] = []
from_codes (List.◌∷◌ n ns) = char_when n (compare n 55296) refl ∷ from_codes ns

code-char_when :
    (n : ℕ) (o : Ordering) (e : compare n 55296 ≡ o) → n < 128 → code (char_when n o e) ≡ n
unfolding char_when
code-char_when n Ordering.lt e h = refl
code-char_when n Ordering.eq e h = ground arith
code-char_when n Ordering.gt e h = ground arith

pub codes-from_codes : (ns : List ℕ) → All (λ n. n < 128) ns → codes (from_codes ns) ≡ ns
unfolding codes from_codes
codes-from_codes List.[] h = refl
codes-from_codes (List.◌∷◌ n ns) h =
    cc (code-char_when n (compare n 55296) refl h.0, codes-from_codes ns h.1)
