-- ===== src/Merge/Preference.antt =====
-- The conflict order: which of two payloads it prefers, and that both sides agree on it.
use appbase.Prelude.{
  String, ◌≡◌, refl, sym, ap, ◌∙◌, ◌⊎◌, inl, inr, ◌↔◌, Option, none, some, List, [], ◌∷◌, arith,
  lookup, Option-cases,
}
use appbase.Prelude.Int.{ℤ, ◌<ℤ◌, eq_of_parts}
use appbase.Json.{Json, num, str, JsonObject}
use appbase.Merge.{
  number_of, decide_field, prefer, conflict_order, preferred_payload, default_three_way_merge,
}

-- `winner` comes after `loser` in the lexicographic order of the named fields.
pub data Outranks (winner loser : JsonObject) : List Json → Type 0 where
  greater :
      (f : String) (order : List Json) (a b : ℤ)
      → lookup f winner ≡ some (num a)
      → lookup f loser ≡ some (num b)
      → b <ℤ a
      → Outranks winner loser (str f ∷ order)
  level :
      (f : String) (order : List Json) (a : ℤ)
      → lookup f winner ≡ some (num a)
      → lookup f loser ≡ some (num a)
      → Outranks winner loser order
      → Outranks winner loser (str f ∷ order)

number_of_sound : (v : Option Json) (n : ℤ) → number_of v ≡ some n → v ≡ some (num n)
unfolding number_of
number_of_sound v n h = ground arith

-- What the two values of a field decide.
decide_field_cases :
    (s c : Option ℤ) (server client : JsonObject) (rest : Option JsonObject) (r : JsonObject)
    → decide_field s c server client rest ≡ some r
    → (a : ℤ) × (b : ℤ) × (s ≡ some a)
      × (c ≡ some b)
      × (((a <ℤ b) × (r ≡ client)) ⊎ ((b <ℤ a) × (r ≡ server)) ⊎ ((a ≡ b) × (rest ≡ some r)))
unfolding decide_field
decide_field_cases (some a) (some b) server client rest r h =
    (a, b, refl, refl, ground (arith, eq_of_parts a b))
decide_field_cases none c server client rest r h = cc
decide_field_cases (some a) none server client rest r h = cc

decide_field_comm :
    (s c : Option ℤ) (server client : JsonObject) (rest : Option JsonObject)
    → decide_field s c server client rest ≡ decide_field c s client server rest
unfolding decide_field
decide_field_comm s c server client rest = ground arith

-- Both sides of a conflict prefer the same payload.
prefer_comm :
    (order : List Json) (server client : JsonObject)
    → prefer order server client ≡ prefer order client server
unfolding prefer
prefer_comm [] server client = refl
prefer_comm (str f ∷ order) server client = rw (prefer_comm order server client) (
    decide_field_comm (number_of (lookup f server)) (number_of (lookup f client)) server client
      (prefer order client server))
prefer_comm (_ ∷ order) server client = refl

module _ (server client : JsonObject) where
  -- `r` is the payload that comes later in the order.
  abbrev pub IsPreferred : List Json → JsonObject → Type 0
  IsPreferred order r =
      (Outranks client server order × (r ≡ client)) ⊎ (Outranks server client order × (r ≡ server))

  level_field :
      (f : String) (order : List Json) (a : ℤ) (r : JsonObject)
      → lookup f server ≡ some (num a)
      → lookup f client ≡ some (num a)
      → IsPreferred order r
      → IsPreferred (str f ∷ order) r
  level_field f order a r s c (inl (o, e)) = inl (level f order a c s o, e)
  level_field f order a r s c (inr (o, e)) = inr (level f order a s c o, e)

  prefer-IsPreferred :
      (order : List Json) (r : JsonObject)
      → prefer order server client ≡ some r
      → IsPreferred order r
  unfolding prefer
  prefer-IsPreferred [] r h = cc
  prefer-IsPreferred (str f ∷ order) r h =
      let (a, b, s, c, decided) =
        decide_field_cases (number_of (lookup f server)) (number_of (lookup f client)) server client
          (prefer order server client) r h in
      let has_a : lookup f server ≡ some (num a) = number_of_sound (lookup f server) a s in
      let has_b : lookup f client ≡ some (num b) = number_of_sound (lookup f client) b c in
      elim decided [
        | inl (lt, e) ↦ inl (greater f order b a has_b has_a lt, e)
        | inr (inl (lt, e)) ↦ inr (greater f order a b has_a has_b lt, e)
        | inr (inr (same, e)) ↦
            level_field f order a r has_a (has_b ∙ ap (λ n. some (num n)) (sym same))
              (prefer-IsPreferred order r e)
      ]
  prefer-IsPreferred (_ ∷ order) r h = cc

  prefer_client :
      (order : List Json) → Outranks client server order → prefer order server client ≡ some client
  unfolding prefer decide_field number_of
  prefer_client order (greater f rest a b w l lt) = rw (w, l) (ground arith)
  prefer_client order (level f rest a w l later) =
      rw (w, l) (ground (arith, prefer_client rest later))

module _ (server client : JsonObject) where
  prefer_server :
      (order : List Json) → Outranks server client order → prefer order server client ≡ some server
  prefer_server order o = prefer_comm order server client ∙ prefer_client client server order o

  prefer_of_IsPreferred :
      (order : List Json) (r : JsonObject)
      → IsPreferred server client order r
      → prefer order server client ≡ some r
  prefer_of_IsPreferred order r (inl (o, e)) = prefer_client server client order o ∙ ap some (sym e)
  prefer_of_IsPreferred order r (inr (o, e)) = prefer_server order o ∙ ap some (sym e)

  -- Under a client's conflict order the code prefers a payload exactly when it is the one that
  -- comes later in the lexicographic order of the fields up to the first that differs, whatever
  -- stands in the fields after it.
  pub IsPreferred-iff :
      (order : List Json) (r : JsonObject)
      → conflict_order client ≡ some order
      → (preferred_payload server client ≡ some r) ↔ IsPreferred server client order r
  unfolding preferred_payload
  IsPreferred-iff order r directed =
      rw (directed, preferred_payload)
        (prefer-IsPreferred server client order r, prefer_of_IsPreferred order r)

  preferred_comm :
      conflict_order server ≡ conflict_order client
      → preferred_payload server client ≡ preferred_payload client server
  unfolding preferred_payload
  preferred_comm same = elim (Option-cases (conflict_order client)) [
    | inl free ↦ rw (free, same ∙ free, preferred_payload) refl
    | inr (order, directed) ↦
        rw (directed, same ∙ directed, preferred_payload) (prefer_comm order server client)
  ]

  decided_by_preference :
      (ancestor : Option JsonObject) (r : JsonObject)
      → preferred_payload server client ≡ some r
      → default_three_way_merge
          (record { ancestor = ancestor; server = some server; client = some client })
        ≡ some r
  unfolding default_three_way_merge
  decided_by_preference ancestor r h = rw h

module _ (server client r : JsonObject) (ancestor ancestor' : Option JsonObject) where
  -- Two payloads with the same directive that decides between them: whichever arrives first, and
  -- whatever ancestor each was edited from, the merge keeps the same one.
  pub merge_converges :
      conflict_order server ≡ conflict_order client
      → preferred_payload server client ≡ some r
      → (default_three_way_merge
            (record { ancestor = ancestor; server = some server; client = some client })
          ≡ some r)
        × (default_three_way_merge
              (record { ancestor = ancestor'; server = some client; client = some server })
            ≡ some r)
  merge_converges same decided = (
    decided_by_preference server client ancestor r decided,
    decided_by_preference client server ancestor' r
        (sym (preferred_comm server client same) ∙ decided),
  )
