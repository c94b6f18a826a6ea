-- ===== src/Json.antt =====
-- packages/server/src/domain/sync.ts, lines 1 to 6: JSON values, and `jsonEquals`.
-- `JSON.stringify` gives two values the same text exactly when they have the same structure, with
-- the properties in the same order, so the comparison of texts is one of structures.
pub mod Equality
use appbase.Prelude.{String, Bool, true, false, ◌&&◌, Option, none, some, List, [], ◌∷◌, ◌==◌}
use appbase.Prelude.Int.{ℤ, pos, negsuc}
use appbase.Prelude.{nat_eq}

mutual
  pub data Json : Type 0 where
    null : Json
    bool : Bool → Json
    num : ℤ → Json
    str : String → Json
    arr : Elems → Json
    obj : Fields → Json

  pub data Elems : Type 0 where
    nil : Elems
    cons : Json → Elems → Elems

  pub data Fields : Type 0 where
    end : Fields
    field : String → Json → Fields → Fields

-- `JsonObject`
abbrev pub JsonObject : Type 0
JsonObject = List (String × Json)

abbrev pub elems : Elems → List Json
elems (cons item items) = item ∷ elems items
elems nil = []

abbrev pub props : Fields → JsonObject
props end = []
props (field k v fs) = (k, v) ∷ props fs

abbrev pub fields : JsonObject → Fields
fields [] = end
fields ((k, v) ∷ ps) = field k v (fields ps)

abbrev pub int_eq : ℤ → ℤ → Bool
int_eq (pos a) (pos b) = nat_eq a b
int_eq (negsuc a) (negsuc b) = nat_eq a b
int_eq _ _ = false

abbrev pub bool_eq : Bool → Bool → Bool
bool_eq true true = true
bool_eq false false = true
bool_eq _ _ = false

unfoldable mutual
  pub json_eq : Json → Json → Bool
  json_eq null null = true
  json_eq (bool a) (bool b) = bool_eq a b
  json_eq (num a) (num b) = int_eq a b
  json_eq (str a) (str b) = a == b
  json_eq (arr a) (arr b) = elems_eq a b
  json_eq (obj a) (obj b) = fields_eq a b
  json_eq _ _ = false

  pub elems_eq : Elems → Elems → Bool
  elems_eq nil nil = true
  elems_eq (cons v vs) (cons w ws) = json_eq v w && elems_eq vs ws
  elems_eq _ _ = false

  pub fields_eq : Fields → Fields → Bool
  fields_eq end end = true
  fields_eq (field k v fs) (field j w gs) = k == j && (json_eq v w && fields_eq fs gs)
  fields_eq _ _ = false

-- `jsonEquals`; `none` is `undefined`, whose text is `undefined`.
unfoldable pub json_equals : Option Json → Option Json → Bool
unfolding json_eq
json_equals none none = true
json_equals (some v) (some w) = json_eq v w
json_equals _ _ = false
