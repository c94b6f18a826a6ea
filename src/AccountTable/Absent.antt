-- ===== src/AccountTable/Absent.antt =====
-- Tables that hold no row of an owner.
use appbase.Prelude.{
  String, ◌≡◌, ◌≢◌, refl, Bool, false, List, [], ◌∷◌, ◌++◌, arith, ◌==◌, eq_iff, select, any, All,
  All-append, All-select,
}
use appbase.Database.{Account}
use appbase.Database.Fence.{fenced, is_active}
use appbase.AccountTable.{erase}

module _ {A : Type 0} (owner : A → String) (id : String) where
  abbrev pub Absent : List A → Type 0
  Absent = All (λ r. owner r ≢ id)

  pub erase-Absent : (rows : List A) → Absent (erase owner id rows)
  erase-Absent [] = tt
  erase-Absent (r ∷ rows) = ground (arith, eq_iff (owner r) id, erase-Absent rows)

  pub select-Absent : (p : A → Bool) (rows : List A) → Absent rows → Absent (select p rows)
  select-Absent p rows h = All-select (λ r. owner r ≢ id) p rows h

  pub append-Absent : (rows : List A) (r : A) → owner r ≢ id → Absent rows → Absent (rows ++ r ∷ [])
  append-Absent rows r other h = All-append (λ r. owner r ≢ id) rows (r ∷ []) h (other, tt)

  pub any-Absent : (rows : List A) → any (λ r. owner r == id) rows ≡ false → Absent rows
  any-Absent [] h = tt
  any-Absent (r ∷ rows) h = ground (arith, eq_iff (owner r) id, any-Absent rows)

  pub Absent-any : (rows : List A) → Absent rows → any (λ r. owner r == id) rows ≡ false
  Absent-any [] h = refl
  Absent-any (r ∷ rows) h = ground (arith, eq_iff (owner r) id, Absent-any rows h.1)

-- An owner that is not fenced is none of the closed accounts.
pub fenced-Absent :
    (accounts : List Account) (owner : String)
    → fenced accounts owner ≡ false
    → All (λ a. is_active a.status ≡ false → owner ≢ a.id) accounts
unfolding fenced
fenced-Absent [] owner h = tt
fenced-Absent (a ∷ accounts) owner h =
    ground (arith, eq_iff a.id owner, fenced-Absent accounts owner)
