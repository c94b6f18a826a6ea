-- ===== src/Action/Keeps.antt =====
-- Invariants of actions: `m` keeps `P` if `P` holds of the state it leaves, whether it returns or
-- throws, whenever it held before. One rule for each way to build an action.
use appbase.Prelude.{Bool, true, false, Option, none, some, if◌then◌else◌}
use appbase.Action.{
  Failure, Result, ok, err, Action, pure, throw, gets, lift, modify, continue, require, or_throw,
  catch, ◌>>=◌,
}

pub record Keeps {S A : Type 0} (P : S → Type 0) (m : Action S A) : Type 0 where
  pub leaves : (before : S) → P before → P (m before).1

module _ {S : Type 0} {P : S → Type 0} where
  pub Keeps-modify : (f : S → S) → ((s : S) → P s → P (f s)) → Keeps P (modify f)
  Keeps-modify f kept = record { leaves = kept }

  pub Keeps-require : (test : Bool) (failure : Failure) → Keeps P (require test failure)
  Keeps-require false failure = record { leaves = λ before held. held }
  Keeps-require true failure = record { leaves = λ before held. held }

module _ {S A : Type 0} {P : S → Type 0} where
  pub Keeps-lift : (outcome : Result A) → Keeps P (lift outcome)
  Keeps-lift outcome = record { leaves = λ before held. held }

  pub Keeps-throw : (failure : Failure) → Keeps P (throw {A = A} failure)
  Keeps-throw failure = record { leaves = λ before held. held }

  pub Keeps-pure : (value : A) → Keeps P (pure value)
  Keeps-pure value = record { leaves = λ before held. held }

  pub Keeps-or_throw : (found : Option A) (failure : Failure) → Keeps P (or_throw found failure)
  Keeps-or_throw (some value) failure = record { leaves = λ before held. held }
  Keeps-or_throw none failure = record { leaves = λ before held. held }

  pub Keeps-gets : (query : S → A) → Keeps P (gets query)
  Keeps-gets query = record { leaves = λ before held. held }

  pub Keeps-branch :
      (test : Bool) {yes no : Action S A}
      → Keeps P yes
      → Keeps P no
      → Keeps P (if test then yes else no)
  Keeps-branch false left right = right
  Keeps-branch true left right = left

module _ {S A B : Type 0} {P : S → Type 0} where
  Keeps-continue :
      (outcome : Result A) (next : A → Action S B)
      → ((value : A) → Keeps P (next value))
      → Keeps P (continue outcome next)
  Keeps-continue (err failure) next each = record { leaves = λ before held. held }
  Keeps-continue (ok value) next each = each value

  pub Keeps-bind :
      (m : Action S A) (next : A → Action S B)
      → Keeps P m
      → ((value : A) → Keeps P (next value))
      → Keeps P (m >>= next)
  Keeps-bind m next first each = record {
    leaves = λ before held.
        (Keeps-continue (m before).0 next each).leaves (m before).1 (first.leaves before held);
  }

  pub Keeps-catch :
      (outcome : Result A) (next : A → Action S B) (handler : Failure → Action S B)
      → ((value : A) → Keeps P (next value))
      → ((failure : Failure) → Keeps P (handler failure))
      → Keeps P (catch outcome next handler)
  Keeps-catch (err failure) next handler each handled = handled failure
  Keeps-catch (ok value) next handler each handled = each value
