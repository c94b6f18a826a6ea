-- ===== src/Rotation/Counting.antt =====
-- The rows under a key version, and how the replacement of an envelope changes their number.
use appbase.Prelude.{
  ℕ, zero, suc, ◌+◌, ◌≤◌, ◌≡◌, refl, sym, ap, subst, ◌∙◌, inl, inr, Bool, true, false, Option, none,
  some, List, [], ◌∷◌, arith, nat_eq, nat_eq_iff, length, select, map, take, Bool-cases, All,
  Option-cases, if◌then◌else◌,
}
use appbase.Json.{JsonObject, obj, fields, Fields, props}
use appbase.Json.Equality.{json_eq_sound, json_eq_refl}
use appbase.Keyring.Texts.{props-fields}
use appbase.Domain.Sync.{StoredVersion}
use appbase.Rotation.{payload_version, is_at, is_under, envelope_count, is_payload, holds, replaced}

fields_injective : (p q : JsonObject) → fields p ≡ fields q → p ≡ q
fields_injective p q h = sym (props-fields p) ∙ ap props h ∙ props-fields q

obj-fields_of : (f g : Fields) → obj f ≡ obj g → f ≡ g
obj-fields_of f g h = cc h

pub is_payload-eq :
    (old : JsonObject) (o : Option JsonObject) → is_payload old o ≡ true → o ≡ some old
is_payload-eq old none h = cc h
is_payload-eq old (some p) h = ap some (
    fields_injective p old
      (obj-fields_of (fields p) (fields old) (json_eq_sound (obj (fields p)) (obj (fields old)) h)))

pub holds-payload :
    (sequence : ℕ) (old : JsonObject) (v : StoredVersion)
    → holds sequence old v ≡ true
    → (v.sequence ≡ sequence) × (v.payload ≡ some old)
unfolding holds
holds-payload sequence old v h =
    let left : nat_eq v.sequence sequence ≡ true = ground arith in
    let right : is_payload old v.payload ≡ true = ground arith in
    ((nat_eq_iff v.sequence sequence).0 left, is_payload-eq old v.payload right)

pub holds_self :
    (v : StoredVersion) (e : JsonObject) → v.payload ≡ some e → holds v.sequence e v ≡ true
unfolding holds
holds_self v e h =
    rw (h, json_eq_refl (obj (fields e)), (nat_eq_iff v.sequence v.sequence).1 refl) refl

module _ (from to sequence : ℕ) (old new : JsonObject)
    (before : payload_version (some old) ≡ some from) (after : payload_version (some new) ≡ some to)
    (apart : nat_eq to from ≡ false) where
  pub counts :
      (vs : List StoredVersion)
      → length (select (holds sequence old) vs)
          + envelope_count from (map (replaced sequence old new) vs)
        ≡ envelope_count from vs
  unfolding envelope_count replaced is_under
  counts [] = refl
  counts (v ∷ vs) = elim (Bool-cases (holds sequence old v)) [
    | inl h ↦
        let under : payload_version v.payload ≡ some from =
          ap payload_version (holds-payload sequence old v h).1 ∙ before in
        rw (h, under, after, apart, (nat_eq_iff from from).1 refl) (omega (arith, counts vs))
    | inr h ↦ rw h (go (is_at from (payload_version v.payload)) (counts vs))
  ]
    where
      go :
          (b : Bool)
          → length (select (holds sequence old) vs)
              + envelope_count from (map (replaced sequence old new) vs)
            ≡ envelope_count from vs
          → length (select (holds sequence old) vs)
              + length (
                  if b
                  then v ∷ select (is_under from) (map (replaced sequence old new) vs)
                  else select (is_under from) (map (replaced sequence old new) vs))
            ≡ length (if b then v ∷ select (is_under from) vs else select (is_under from) vs)
      go true h = omega (arith, h)
      go false h = h

module _ (from : ℕ) where
  -- The first of the selected rows is in the table.
  pub found_first :
      (vs : List StoredVersion) (v : StoredVersion) (ws : List StoredVersion) (e : JsonObject)
      → select (is_under from) vs ≡ v ∷ ws
      → v.payload ≡ some e
      → 1 ≤ length (select (holds v.sequence e) vs)
  found_first [] v ws e h payload = cc h
  found_first (u ∷ vs) v ws e h payload =
      go (is_under from u) (holds v.sequence e u) refl h (found_first vs v ws e)
    where
      go :
          (b found : Bool)
          → holds v.sequence e u ≡ found
          → (if b then u ∷ select (is_under from) vs else select (is_under from) vs) ≡ v ∷ ws
          → (select (is_under from) vs ≡ v ∷ ws
              → v.payload ≡ some e
              → 1 ≤ length (select (holds v.sequence e) vs))
          → 1
            ≤ length (
                if found
                then u ∷ select (holds v.sequence e) vs
                else select (holds v.sequence e) vs)
      go true true w k later = omega arith
      go true false w k later =
          let same : u ≡ v = cc k in
          cc (w, subst (λ x. holds v.sequence e x ≡ true) (sym same) (holds_self v e payload))
      go false true w k later = omega arith
      go false false w k later = later k payload

  under_payload :
      (v : StoredVersion) → is_under from v ≡ true → payload_version v.payload ≡ some from
  unfolding is_under
  under_payload v h = elim (Option-cases (payload_version v.payload)) [
    | inl e ↦ cc (subst (λ o. is_at from o ≡ true) e h)
    | inr (n, e) ↦ e ∙ ap some ((nat_eq_iff n from).0 (subst (λ o. is_at from o ≡ true) e h))
  ]

  abbrev pub Under : List StoredVersion → Type 0
  Under = All (λ v. payload_version v.payload ≡ some from)

  pub take-Under : (n : ℕ) (vs : List StoredVersion) → Under vs → Under (take n vs)
  take-Under zero vs h = tt
  take-Under (suc n) [] h = tt
  take-Under (suc n) (v ∷ vs) h = (h.0, take-Under n vs h.1)

  pub select-Under : (vs : List StoredVersion) → Under (select (is_under from) vs)
  select-Under [] = tt
  select-Under (v ∷ vs) = elim (Bool-cases (is_under from v)) [
    | inl h ↦ rw h (under_payload v h, select-Under vs)
    | inr h ↦ rw h (select-Under vs)
  ]
