-- ===== src/Prelude/Lists.antt =====
-- Lists as the sources use them: `slice`, `filter`, `find`, `length`, and properties as a record.
use Prim.Native.Nat.{ℕ, zero, suc, ◌+◌}
use Prim.Native.String.{String}
use mathlib.Core.Bool.{Bool, true, false, ◌&&◌, ◌||◌}
use mathlib.Core.List.{List, [], ◌∷◌, ◌++◌, map}
use mathlib.Core.Logic.{◌≢◌}
use mathlib.Core.Option.{Option, none, some}
use mathlib.Core.Path.{◌≡◌, refl, sym, subst, ap}
use native.Mathlib.Omega.{arith}
use text.Mathlib.Text.{◌==◌}
use appbase.Prelude.Tests.{if◌then◌else◌}

module _ {ℓ} {A : Type ℓ} where
  abbrev pub length : List A → ℕ
  length [] = 0
  length (x ∷ xs) = suc (length xs)

  -- `slice(0, n)`, `LIMIT n`
  abbrev pub take : ℕ → List A → List A
  take zero xs = []
  take (suc n) [] = []
  take (suc n) (x ∷ xs) = x ∷ take n xs

  abbrev pub drop : ℕ → List A → List A
  drop zero xs = xs
  drop (suc n) [] = []
  drop (suc n) (x ∷ xs) = drop n xs

  -- `at(-1)`
  abbrev pub last? : List A → Option A
  last? [] = none
  last? (x ∷ []) = some x
  last? (x ∷ y ∷ xs) = last? (y ∷ xs)

  -- `find`, and the first row of a query
  abbrev pub find? : (A → Bool) → List A → Option A
  find? p [] = none
  find? p (x ∷ xs) = if p x then some x else find? p xs

  -- `filter`, and a `WHERE` clause
  abbrev pub select : (A → Bool) → List A → List A
  select p [] = []
  select p (x ∷ xs) = if p x then x ∷ select p xs else select p xs

  abbrev pub any : (A → Bool) → List A → Bool
  any p [] = false
  any p (x ∷ xs) = p x || any p xs

  abbrev pub all : (A → Bool) → List A → Bool
  all p [] = true
  all p (x ∷ xs) = p x && all p xs

  pub length-append : (xs ys : List A) → length (xs ++ ys) ≡ length xs + length ys
  length-append [] ys = omega arith
  length-append (x ∷ xs) ys = omega (arith, length-append xs ys)

  pub take-append-drop : (n : ℕ) (xs : List A) → take n xs ++ drop n xs ≡ xs
  take-append-drop zero xs = refl
  take-append-drop (suc n) [] = refl
  take-append-drop (suc n) (x ∷ xs) = ap (◌∷◌ x) (take-append-drop n xs)

  pub select-append :
      (p : A → Bool) (xs ys : List A) → select p (xs ++ ys) ≡ select p xs ++ select p ys
  select-append p [] ys = refl
  select-append p (x ∷ xs) ys = ground (arith, select-append p xs ys)

  pub find?-append :
      (p : A → Bool) (xs ys : List A) (a : A) → find? p xs ≡ some a → find? p (xs ++ ys) ≡ some a
  find?-append p [] ys a h = cc
  find?-append p (x ∷ xs) ys a h = ground (arith, find?-append p xs ys a)

  pub find?-append_new :
      (p : A → Bool) (xs ys : List A) → find? p xs ≡ none → find? p (xs ++ ys) ≡ find? p ys
  find?-append_new p [] ys h = refl
  find?-append_new p (x ∷ xs) ys h = ground (arith, find?-append_new p xs ys)

  pub find?-sound : (p : A → Bool) (xs : List A) (a : A) → find? p xs ≡ some a → p a ≡ true
  find?-sound p [] a h = cc
  find?-sound p (x ∷ xs) a h = ground (arith, find?-sound p xs a)

  -- A row that a query finds is found among the rows that are kept.
  pub find?-select :
      (p q : A → Bool) (xs : List A)
      → ((x : A) → p x ≡ true → q x ≡ true)
      → find? p (select q xs) ≡ find? p xs
  find?-select p q [] h = refl
  find?-select p q (x ∷ xs) h = ground (arith, h x, find?-select p q xs h)

  pub any-append : (p : A → Bool) (xs ys : List A) → any p (xs ++ ys) ≡ (any p xs || any p ys)
  any-append p [] ys = refl
  any-append p (x ∷ xs) ys = ground (arith, any-append p xs ys)

  pub any-false : (p : A → Bool) (xs : List A) → any p xs ≡ false → find? p xs ≡ none
  any-false p [] h = refl
  any-false p (x ∷ xs) h = ground (arith, any-false p xs)

  pub any-true : (p : A → Bool) (xs : List A) → any p xs ≡ true → find? p xs ≢ none
  any-true p [] h = cc
  any-true p (x ∷ xs) h = ground (arith, any-true p xs)

-- A predicate by recursion computes to tuples, which the tactics read and build.
module _ {ℓ κ} {A : Type ℓ} (P : A → Type κ) where
  abbrev pub All : List A → Type κ
  All [] = Unit
  All (x ∷ xs) = P x × All xs

  pub All-append : (xs ys : List A) → All xs → All ys → All (xs ++ ys)
  All-append [] ys _ k = k
  All-append (x ∷ xs) ys h k = (h.0, All-append xs ys h.1 k)

  pub All-select : (p : A → Bool) (xs : List A) → All xs → All (select p xs)
  All-select p [] h = tt
  All-select p (x ∷ xs) h = ground (arith, All-select p xs h.1)

module _ {ℓ κ ι} {A : Type ℓ} {P : A → Type κ} {Q : A → Type ι} (f : (x : A) → P x → Q x) where
  pub All-mono : (xs : List A) → All P xs → All Q xs
  All-mono [] h = tt
  All-mono (x ∷ xs) h = (f x h.0, All-mono xs h.1)

-- What holds of each element holds after a `map` that carries it over.
module _ {ℓ κ ι ν} {A : Type ℓ} {B : Type ν} (P : A → Type κ) (Q : B → Type ι) (f : A → B)
    (carry : (x : A) → P x → Q (f x)) where
  pub All-map : (xs : List A) → All P xs → All Q (map f xs)
  All-map (x ∷ xs) h = (carry x h.0, All-map xs h.1)
  All-map [] h = tt

-- A change of the elements that the test does not see.
module _ {ℓ} {A : Type ℓ} (p : A → Bool) (f : A → A) (same : (x : A) → p (f x) ≡ p x) where
  pub find?-map : (xs : List A) (a : A) → find? p xs ≡ some a → find? p (map f xs) ≡ some (f a)
  find?-map [] a h = cc h
  find?-map (x ∷ xs) a h =
      subst (λ t. (if t then some (f x) else find? p (map f xs)) ≡ some (f a)) (sym (same x))
        (go (p x) h (find?-map xs a))
    where
      go :
          (test : Bool)
          → (if test then some x else find? p xs) ≡ some a
          → (find? p xs ≡ some a → find? p (map f xs) ≡ some (f a))
          → (if test then some (f x) else find? p (map f xs)) ≡ some (f a)
      go true e later = cc e
      go false e later = later e

-- An object used as a map: `o[key]`, and the assignment `o[key] = v`, which keeps the place of a
-- key that is there and adds any other at the end.
module _ {ℓ} {V : Type ℓ} where
  abbrev pub lookup : String → List (String × V) → Option V
  lookup key ((name, value) ∷ rest) = if name == key then some value else lookup key rest
  lookup key [] = none

  abbrev pub insert : String → V → List (String × V) → List (String × V)
  insert key value ((name, old) ∷ rest) =
      if name == key then (key, value) ∷ rest else (name, old) ∷ insert key value rest
  insert key value [] = (key, value) ∷ []
