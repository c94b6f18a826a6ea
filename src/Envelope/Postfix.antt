-- ===== src/Envelope/Postfix.antt =====
-- For the tests: a text of numbers for every JSON value, in postfix order.
use Prim.Native.Nat.{Ordering, compare}
use Prim.Native.Char.{Char, code, char, nul}
use Prim.Native.String.{[] as end_text, ◌∷◌ as ◌▹◌}
use appbase.Prelude.{
  ℕ, String, ◌≡◌, refl, ap, ◌∙◌, true, false, Option, none, some, List, [], ◌∷◌, nat_eq,
  if◌then◌else◌,
}
use appbase.Prelude.Int.{pos, negsuc}
use appbase.Json.{
  Json, null, bool, num, str, arr, obj, Elems, nil, cons, Fields, end, field, JsonObject, fields,
}

-- A number is a character's code: the type that the character's proof has.
abbrev pub Both : Ordering → Ordering → Type 0
Both Ordering.lt Ordering.lt = Unit
Both Ordering.lt Ordering.eq = ⊥
Both Ordering.lt Ordering.gt = ⊥
Both Ordering.eq _ = ⊥
Both Ordering.gt _ = ⊥

abbrev pub Scalar : Ordering → Ordering → Ordering → Type 0
Scalar Ordering.lt _ _ = Unit
Scalar Ordering.eq o p = Both o p
Scalar Ordering.gt o p = Both o p

pub both? : (a b : Ordering) → Option (Both a b)
both? Ordering.lt Ordering.lt = some tt
both? _ _ = none

unfoldable pub scalar? : (a b c : Ordering) → Option (Scalar a b c)
unfolding both?
scalar? Ordering.lt _ _ = some tt
scalar? Ordering.eq o p = both? o p
scalar? Ordering.gt o p = both? o p

both?-some : (a b : Ordering) (p : Both a b) → both? a b ≡ some p
unfolding both?
both?-some Ordering.lt Ordering.lt p = refl
both?-some Ordering.lt Ordering.eq p = absurd p
both?-some Ordering.lt Ordering.gt p = absurd p
both?-some Ordering.eq _ p = absurd p
both?-some Ordering.gt _ p = absurd p

scalar?-some : (a b c : Ordering) (p : Scalar a b c) → scalar? a b c ≡ some p
unfolding scalar?
scalar?-some Ordering.lt _ _ p = refl
scalar?-some Ordering.eq o r p = both?-some o r p
scalar?-some Ordering.gt o r p = both?-some o r p

char_with : (n : ℕ) → Option (Scalar (compare n 55296) (compare 57343 n) (compare n 1114112)) → Char
char_with n none = nul
char_with n (some p) = char n p

char_of : ℕ → Char
unfolding char_with
char_of n = char_with n (scalar? (compare n 55296) (compare 57343 n) (compare n 1114112))

char_of-code : (c : Char) → char_of (code c) ≡ c
unfolding char_of
char_of-code (char n p) =
    ap (char_with n) (scalar?-some (compare n 55296) (compare 57343 n) (compare n 1114112) p)

-- Each value puts its numbers, two for a step, before those that follow.
text_steps : String → List ℕ → List ℕ
text_steps end_text later = 4 ∷ 0 ∷ later
text_steps (c ▹ s) later = text_steps s (5 ∷ code c ∷ later)

mutual
  unfolding text_steps

  steps : Json → List ℕ → List ℕ
  steps null later = 0 ∷ 0 ∷ later
  steps (bool true) later = 1 ∷ 1 ∷ later
  steps (bool false) later = 1 ∷ 0 ∷ later
  steps (num (pos n)) later = 2 ∷ n ∷ later
  steps (num (negsuc n)) later = 3 ∷ n ∷ later
  steps (str s) later = text_steps s (6 ∷ 0 ∷ later)
  steps (arr vs) later = elem_steps vs (7 ∷ 0 ∷ later)
  steps (obj fs) later = field_steps fs (8 ∷ 0 ∷ later)

  elem_steps : Elems → List ℕ → List ℕ
  elem_steps nil later = 9 ∷ 0 ∷ later
  elem_steps (cons v vs) later = elem_steps vs (steps v (10 ∷ 0 ∷ later))

  pub field_steps : Fields → List ℕ → List ℕ
  field_steps end later = 11 ∷ 0 ∷ later
  field_steps (field key v fs) later = field_steps fs (steps v (text_steps key (12 ∷ 0 ∷ later)))

-- The steps build values on a stack.
pub data Item : Type 0 where
  value : Json → Item
  elements : Elems → Item
  members : Fields → Item
  text : String → Item

push_char : ℕ → List Item → List Item
unfolding char_of
push_char n (text s ∷ stack) = text (char_of n ▹ s) ∷ stack
push_char n stack = stack

close_text : List Item → List Item
close_text (text s ∷ stack) = value (str s) ∷ stack
close_text stack = stack

close_elements : List Item → List Item
close_elements (elements vs ∷ stack) = value (arr vs) ∷ stack
close_elements stack = stack

close_members : List Item → List Item
close_members (members fs ∷ stack) = value (obj fs) ∷ stack
close_members stack = stack

add_element : List Item → List Item
add_element (value v ∷ elements vs ∷ stack) = elements (cons v vs) ∷ stack
add_element stack = stack

add_member : List Item → List Item
add_member (text key ∷ value v ∷ members fs ∷ stack) = members (field key v fs) ∷ stack
add_member stack = stack

step : ℕ → ℕ → List Item → List Item
unfolding push_char close_text close_elements close_members add_element add_member
step tag n stack =
    if nat_eq tag 0
    then value null ∷ stack
    else if nat_eq tag 1
    then value (bool (nat_eq n 1)) ∷ stack
    else if nat_eq tag 2
    then value (num (pos n)) ∷ stack
    else if nat_eq tag 3
    then value (num (negsuc n)) ∷ stack
    else if nat_eq tag 4
    then text end_text ∷ stack
    else if nat_eq tag 5
    then push_char n stack
    else if nat_eq tag 6
    then close_text stack
    else if nat_eq tag 7
    then close_elements stack
    else if nat_eq tag 8
    then close_members stack
    else if nat_eq tag 9
    then elements nil ∷ stack
    else if nat_eq tag 10
    then add_element stack
    else if nat_eq tag 11
    then members end ∷ stack
    else add_member stack

run : List ℕ → List Item → List Item
unfolding step
run (tag ∷ n ∷ later) stack = run later (step tag n stack)
run _ stack = stack

top : List Item → Option Json
top (value v ∷ stack) = some v
top _ = none

unfoldable pub stringify : JsonObject → List ℕ
unfolding steps
stringify p = steps (obj (fields p)) []

unfoldable pub parse : List ℕ → Option Json
unfolding run top
parse ns = top (run ns [])

run-text :
    (s : String) (later : List ℕ) (stack : List Item)
    → run (text_steps s later) stack ≡ run later (text s ∷ stack)
unfolding run text_steps
run-text end_text later stack = refl
run-text (c ▹ s) later stack =
    run-text s (5 ∷ code c ∷ later) stack
    ∙ ap (λ d. run later (text (d ▹ s) ∷ stack)) (char_of-code c)

mutual
  unfolding run steps

  run-steps :
      (v : Json) (later : List ℕ) (stack : List Item)
      → run (steps v later) stack ≡ run later (value v ∷ stack)
  run-steps null later stack = refl
  run-steps (bool true) later stack = refl
  run-steps (bool false) later stack = refl
  run-steps (num (pos n)) later stack = refl
  run-steps (num (negsuc n)) later stack = refl
  run-steps (str s) later stack = run-text s (6 ∷ 0 ∷ later) stack
  run-steps (arr vs) later stack = run-elems vs (7 ∷ 0 ∷ later) stack
  run-steps (obj fs) later stack = run-fields fs (8 ∷ 0 ∷ later) stack

  run-elems :
      (vs : Elems) (later : List ℕ) (stack : List Item)
      → run (elem_steps vs later) stack ≡ run later (elements vs ∷ stack)
  run-elems nil later stack = refl
  run-elems (cons v vs) later stack =
      run-elems vs (steps v (10 ∷ 0 ∷ later)) stack
      ∙ run-steps v (10 ∷ 0 ∷ later) (elements vs ∷ stack)

  run-fields :
      (fs : Fields) (later : List ℕ) (stack : List Item)
      → run (field_steps fs later) stack ≡ run later (members fs ∷ stack)
  run-fields end later stack = refl
  run-fields (field key v fs) later stack =
      run-fields fs (steps v (text_steps key (12 ∷ 0 ∷ later))) stack
      ∙ run-steps v (text_steps key (12 ∷ 0 ∷ later)) (members fs ∷ stack)
      ∙ run-text key (12 ∷ 0 ∷ later) (value v ∷ members fs ∷ stack)

pub parse-stringify : (p : JsonObject) → parse (stringify p) ≡ some (obj (fields p))
unfolding parse stringify
parse-stringify p = ap top (run-steps (obj (fields p)) [] [])
