-- ===== src/Json/Equality.antt =====
-- `json_equals` decides equality.
use mathlib.Core.Bool.{and-eq-true_iff}
use appbase.Prelude.{
  ◌==◌, ◌&&◌, ◌≡◌, refl, ap, Bool, true, Option, none, some, arith, eq_iff, ◌↔◌, subst,
}
use appbase.Prelude.Int.{ℤ, pos, negsuc}
use appbase.Json.{
  Json, null, bool, num, str, arr, obj, Elems, nil, cons, Fields, end, field, json_eq, elems_eq,
  fields_eq, json_equals, int_eq, bool_eq,
}

int_eq_sound : (a b : ℤ) → int_eq a b ≡ true → a ≡ b
int_eq_sound (pos a) (pos b) h = ground arith
int_eq_sound (negsuc a) (negsuc b) h = ground arith
int_eq_sound (pos a) (negsuc b) h = cc
int_eq_sound (negsuc a) (pos b) h = cc

bool_eq_sound : (a b : Bool) → bool_eq a b ≡ true → a ≡ b
bool_eq_sound a b h = ground arith

mutual
  unfolding json_eq

  pub json_eq_sound : (v w : Json) → json_eq v w ≡ true → v ≡ w
  json_eq_sound null null h = refl
  json_eq_sound (bool a) (bool b) h = ap bool (bool_eq_sound a b h)
  json_eq_sound (num a) (num b) h = ap num (int_eq_sound a b h)
  json_eq_sound (str a) (str b) h = ap str ((eq_iff a b).0 h)
  json_eq_sound (arr a) (arr b) h = ap arr (elems_eq_sound a b h)
  json_eq_sound (obj a) (obj b) h = ap obj (fields_eq_sound a b h)
  json_eq_sound _ _ h = cc

  elems_eq_sound : (v w : Elems) → elems_eq v w ≡ true → v ≡ w
  elems_eq_sound nil nil h = refl
  elems_eq_sound (cons v vs) (cons w ws) h =
      let (same_value, same_rest) = (and-eq-true_iff (json_eq v w) (elems_eq vs ws)).0 h in
      cc (json_eq_sound v w same_value, elems_eq_sound vs ws same_rest)
  elems_eq_sound _ _ h = cc

  fields_eq_sound : (v w : Fields) → fields_eq v w ≡ true → v ≡ w
  fields_eq_sound end end h = refl
  fields_eq_sound (field k v fs) (field j w gs) h =
      let (same_key, rest) = (and-eq-true_iff (k == j) (json_eq v w && fields_eq fs gs)).0 h in
      let (same_value, same_rest) = (and-eq-true_iff (json_eq v w) (fields_eq fs gs)).0 rest in
      cc ((eq_iff k j).0 same_key, json_eq_sound v w same_value, fields_eq_sound fs gs same_rest)
  fields_eq_sound _ _ h = cc

int_eq_refl : (a : ℤ) → int_eq a a ≡ true
int_eq_refl (pos a) = ground arith
int_eq_refl (negsuc a) = ground arith

mutual
  unfolding json_eq

  pub json_eq_refl : (v : Json) → json_eq v v ≡ true
  json_eq_refl null = refl
  json_eq_refl (bool a) = ground arith
  json_eq_refl (num a) = int_eq_refl a
  json_eq_refl (str a) = (eq_iff a a).1 refl
  json_eq_refl (arr a) = elems_eq_refl a
  json_eq_refl (obj a) = fields_eq_refl a

  elems_eq_refl : (v : Elems) → elems_eq v v ≡ true
  elems_eq_refl nil = refl
  elems_eq_refl (cons v vs) = ground (arith, json_eq_refl v, elems_eq_refl vs)

  fields_eq_refl : (v : Fields) → fields_eq v v ≡ true
  fields_eq_refl end = refl
  fields_eq_refl (field k v fs) = ground (arith, eq_iff k k, json_eq_refl v, fields_eq_refl fs)

json_equals_sound : (v w : Option Json) → json_equals v w ≡ true → v ≡ w
unfolding json_equals
json_equals_sound none none h = refl
json_equals_sound none (some w) h = cc
json_equals_sound (some v) none h = cc
json_equals_sound (some v) (some w) h = ap some (json_eq_sound v w h)

json_equals_refl : (v : Option Json) → json_equals v v ≡ true
unfolding json_equals
json_equals_refl none = refl
json_equals_refl (some v) = json_eq_refl v

pub json_equals_iff : (v w : Option Json) → (json_equals v w ≡ true) ↔ (v ≡ w)
json_equals_iff v w =
    (json_equals_sound v w, λ e. subst (λ o. json_equals v o ≡ true) e (json_equals_refl v))
