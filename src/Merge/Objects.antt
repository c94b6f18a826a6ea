-- ===== src/Merge/Objects.antt =====
-- Objects as maps: `lookup` after `insert`, and what distinct keys give.
use appbase.Prelude.{
  String, ◌≡◌, refl, none, some, List, [], ◌∷◌, arith, ◌==◌, eq_iff, lookup, insert, if◌then◌else◌,
}

module _ {V : Type 0} where
  pub lookup-insert :
      (written read : String) (value : V) (entries : List (String × V))
      → lookup read (insert written value entries)
        ≡ (if written == read then some value else lookup read entries)
  lookup-insert written read value ((name, old) ∷ rest) =
      let later = lookup-insert written read value rest in
      ground (arith, eq_iff name written, eq_iff name read, eq_iff written read, later)
  lookup-insert written read value [] = refl

  -- The keys of an object are distinct.
  abbrev pub IsObject : List (String × V) → Type 0
  IsObject [] = Unit
  IsObject ((k, v) ∷ m) = (lookup k m ≡ none) × IsObject m

  pub lookup_later :
      (k j : String) (v w : V) (m : List (String × V))
      → lookup j m ≡ none
      → lookup k m ≡ some w
      → lookup k ((j, v) ∷ m) ≡ some w
  lookup_later k j v w m missing found = ground (arith, eq_iff j k)
