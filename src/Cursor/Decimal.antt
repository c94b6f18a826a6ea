-- ===== src/Cursor/Decimal.antt =====
-- Numbers printed and parsed.
use appbase.Prelude.{
  ℕ, zero, suc, ◌+◌, ◌-◌, ◌*◌, ◌/◌, ◌%◌, ◌<◌, ◌≤◌, ◌≡◌, refl, ◌∙◌, true, false, nat_eq, ap, subst,
  ◌≢◌, inl, inr, some, List, [], ◌∷◌, arith, ltb, All, Bool-cases,
}
use appbase.Prelude.Int.{pos}
use appbase.Cursor.{
  digits_before, to_decimal, is_digit, parse_digits, parse_signed, is_space, parse_int,
}

digit_range : (c : ℕ) → 48 ≤ c → c ≤ 57 → is_digit c ≡ true
unfolding is_digit
digit_range c lo hi = ground arith

read_digit :
    (value d : ℕ) (cs : List ℕ)
    → d < 10
    → parse_digits value ((d + b'0') ∷ cs) ≡ parse_digits (value * 10 + d) cs
unfolding parse_digits
read_digit value d cs h =
    let shift : d + 48 - 48 ≡ d = omega arith in
    rw (digit_range (d + 48) (omega arith) (omega arith), shift) refl

-- What comes before `later` is read as the number.
parse-digits_before :
    (fuel n : ℕ) (later : List ℕ)
    → n < fuel
    → parse_digits 0 (digits_before fuel n later) ≡ parse_digits n later
unfolding digits_before
parse-digits_before zero n later h = elim h [ ]
parse-digits_before (suc fuel) n later h = elim (Bool-cases (ltb n 10)) [
  | inl small ↦
      rw small (read_digit 0 n later (ground arith) ∙ ap (λ v. parse_digits v later) (omega arith))
  | inr large ↦ rw large (
      parse-digits_before fuel (n / 10) ((n % 10 + b'0') ∷ later) (ground arith)
      ∙ read_digit (n / 10) (n % 10) later (omega arith)
      ∙ ap (λ v. parse_digits v later) (omega arith))
]

-- A text that begins with a digit.
abbrev pub StartsWithDigit : List ℕ → Type 0
StartsWithDigit [] = ⊥
StartsWithDigit (c ∷ cs) = (48 ≤ c) × (c ≤ 57)

digits_before-StartsWithDigit :
    (fuel n : ℕ) (later : List ℕ) → n < fuel → StartsWithDigit (digits_before fuel n later)
unfolding digits_before
digits_before-StartsWithDigit zero n later h = elim h [ ]
digits_before-StartsWithDigit (suc fuel) n later h = elim (Bool-cases (ltb n 10)) [
  | inl small ↦ rw small (ground arith)
  | inr large ↦
      rw large
        (digits_before-StartsWithDigit fuel (n / 10) ((n % 10 + b'0') ∷ later) (ground arith))
]

digits_before-AreBytes :
    (fuel n : ℕ) (later : List ℕ)
    → All (λ c. c < 256) later
    → All (λ c. c < 256) (digits_before fuel n later)
unfolding digits_before
digits_before-AreBytes zero n later h = h
digits_before-AreBytes (suc fuel) n later h = elim (Bool-cases (ltb n 10)) [
  | inl small ↦ rw small (ground arith, h)
  | inr large ↦
      rw large (digits_before-AreBytes fuel (n / 10) ((n % 10 + b'0') ∷ later) (omega arith, h))
]

no_space :
    (c : ℕ) (cs : List ℕ) → StartsWithDigit (c ∷ cs) → parse_int (c ∷ cs) ≡ parse_signed (c ∷ cs)
unfolding parse_int
no_space c cs h = let seen : is_space c ≡ false = unfold is_space in ground arith in rw seen refl

no_sign :
    (c : ℕ) (cs : List ℕ)
    → StartsWithDigit (c ∷ cs)
    → parse_signed (c ∷ cs) ≡ some (pos (parse_digits 0 (c ∷ cs)))
unfolding parse_signed
no_sign c cs h =
    let minus : nat_eq c b'-' ≡ false = ground arith in
    let plus : nat_eq c b'+' ≡ false = ground arith in rw (minus, plus, digit_range c h.0 h.1) refl

parse_int_digits :
    (text : List ℕ) → StartsWithDigit text → parse_int text ≡ some (pos (parse_digits 0 text))
parse_int_digits [] h = absurd h
parse_int_digits (c ∷ cs) h = no_space c cs h ∙ no_sign c cs h

pub parse_int-to_decimal : (n : ℕ) → parse_int (to_decimal n) ≡ some (pos n)
unfolding to_decimal
parse_int-to_decimal n =
    parse_int_digits (digits_before (suc n) n [])
      (digits_before-StartsWithDigit (suc n) n [] (omega arith))
    ∙ rw (parse-digits_before (suc n) n [] (omega arith)) (unfold parse_digits in refl)

pub to_decimal-AreBytes : (n : ℕ) → All (λ c. c < 256) (to_decimal n)
unfolding to_decimal
to_decimal-AreBytes n = digits_before-AreBytes (suc n) n [] tt

pub to_decimal-ne-nil : (n : ℕ) → to_decimal n ≢ []
unfolding to_decimal
to_decimal-ne-nil n e =
    subst StartsWithDigit e (digits_before-StartsWithDigit (suc n) n [] (omega arith))
