-- ===== src/Action.antt =====
-- What the asynchronous functions of the server do: they read and write a state and may throw.
-- What was written before a throw stays written, so the state comes back beside the error too.
pub mod Keeps
use appbase.Prelude.{ℕ, String, ◌≡◌, refl, Bool, true, false, Option, none, some}
use appbase.Domain.Billing.{BillingCode}
use appbase.Prelude.Int.{ℤ}

-- The codes of `AccountLifecycleError` (usecases/accounts.ts).
pub data LifecycleCode : Type 0 where
  account_exists : LifecycleCode
  registration_required : LifecycleCode
  account_deleting : LifecycleCode
  account_session_required : LifecycleCode
  account_session_invalid : LifecycleCode

-- The error classes of the sources. `plain` is a bare `Error`; `rejected` is what the database
-- throws for a statement that a unique index or a trigger aborts.
pub data Failure : Type 0 where
  authentication authorization account_deleted invalid_cursor : Failure
  lifecycle : LifecycleCode → Failure
  sync_conflict : String → String → Failure
  membership_limit : String → ℤ → ℕ → String → Failure
  billing : BillingCode → Failure
  plain : String → Failure
  rejected : String → Failure

pub data Result (A : Type 0) : Type 0 where
  ok : A → Result A
  err : Failure → Result A

abbrev pub Action : Type 0 → Type 0 → Type 0
Action S A = S → Result A × S

module _ {S A : Type 0} where
  abbrev pub pure : A → Action S A
  pure a s = (ok a, s)

  abbrev pub throw : Failure → Action S A
  throw e s = (err e, s)

  abbrev pub gets : (S → A) → Action S A
  gets f s = (ok (f s), s)

  -- A function that may throw and touches no state.
  abbrev pub lift : Result A → Action S A
  lift r s = (r, s)

  -- `if (o === null) throw e`
  abbrev pub or_throw : Option A → Failure → Action S A
  or_throw none e s = (err e, s)
  or_throw (some a) e s = (ok a, s)

abbrev pub modify : {S : Type 0} → (S → S) → Action S (Unit {0})
modify f s = (ok tt, f s)

-- `if (!b) throw e`
abbrev pub require : {S : Type 0} → Bool → Failure → Action S (Unit {0})
require true e s = (ok tt, s)
require false e s = (err e, s)

module _ {S A B : Type 0} where
  abbrev pub continue : Result A → (A → Action S B) → Action S B
  continue (ok a) f s = f a s
  continue (err e) f s = (err e, s)

  infixl 5 ◌>>=◌ ◌>>◌
  abbrev pub ◌>>=◌ : Action S A → (A → Action S B) → Action S B
  ◌>>=◌ m f s = continue (m s).0 f (m s).1

  abbrev pub ◌>>◌ : Action S A → Action S B → Action S B
  m >> n = m >>= λ _. n

  -- `try { m } catch { … }`
  abbrev pub catch : Result A → (A → Action S B) → (Failure → Action S B) → Action S B
  catch (ok a) f g s = f a s
  catch (err e) f g s = g e s

  -- Inversion of a step that did not throw, for proofs where the step stays shut.
  pub >>=-eq-ok :
      (m : Action S A) (f : A → Action S B) (s : S) (b : B) (s' : S)
      → (m >>= f) s ≡ (ok b, s')
      → (a : A) × (mid : S) × (m s ≡ (ok a, mid)) × (f a mid ≡ (ok b, s'))
  >>=-eq-ok m f s b s' h = go (m s) refl h
    where
      go :
          (r : Result A × S)
          → m s ≡ r
          → continue r.0 f r.1 ≡ (ok b, s')
          → (a : A) × (mid : S) × (m s ≡ (ok a, mid)) × (f a mid ≡ (ok b, s'))
      go (ok a, mid) e k = (a, mid, e, k)
      go (err x, mid) e k = cc

  pub lift-eq-ok :
      (r : Result A) (f : A → Action S B) (s : S) (b : B) (s' : S)
      → (lift r >>= f) s ≡ (ok b, s')
      → (a : A) × (r ≡ ok a) × (f a s ≡ (ok b, s'))
  lift-eq-ok (ok a) f s b s' h = (a, refl, h)
  lift-eq-ok (err e) f s b s' h = cc h

-- A guard that was passed.
pub require-eq-ok :
    {S : Type 0} (test : Bool) (failure : Failure) (s s' : S) {u : Unit {0}}
    → require test failure s ≡ (ok u, s')
    → (s' ≡ s) × (test ≡ true)
require-eq-ok true failure s s' h = (cc h, refl)
require-eq-ok false failure s s' h = cc h
