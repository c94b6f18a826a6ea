-- ===== src/Records/History.antt =====
-- What the table of record versions is: a history that only grows, each version written on top of
-- the newest one of its record. The migrations' indexes and the statement of `append` maintain it.
use mathlib.Core.List.{append-nil}
use appbase.Prelude.{
  ◌<◌, ◌≤◌, String, ◌≡◌, refl, sym, ◌∙◌, subst, ◌⊎◌, inl, inr, Bool, true, false, Option, none,
  some, List, [], ◌∷◌, ◌++◌, arith, eq_iff, last?, select, All, All-append, find?-append,
  find?-append_new, select-append, if◌then◌else◌, eq_refl,
}
use appbase.Domain.Sync.{StoredVersion}
use appbase.Database.{Database}
use appbase.Records.{of_record, of_mutation, find_mutation, get_current, get_version, revision_of}

pub data History : List StoredVersion → Type 0 where
  nothing : History []
  grow :
      (older : List StoredVersion) (v : StoredVersion) (records : List StoredVersion)
      → History older
      → records ≡ older ++ v ∷ []
      → All (λ r. r.sequence < v.sequence) older
      → find_mutation v.owner_sub v.device_id v.mutation_id older ≡ none
      → get_version v.owner_sub v.collection v.record_id v.revision older ≡ none
      → v.base_revision ≡ revision_of (get_current v.owner_sub v.collection v.record_id older)
      → History records

-- The state of the table and of its AUTOINCREMENT counter.
pub record IsSound (db : Database) : Type 0 where
  pub history : History db.records
  pub counted : All (λ r. r.sequence ≤ db.last_sequence) db.records

-- A row of the table.
abbrev pub Row : StoredVersion → List StoredVersion → Type 0
Row v [] = ⊥
Row v (r ∷ rs) = (v ≡ r) ⊎ Row v rs

Row-append :
    (v : StoredVersion) (rs ss : List StoredVersion) → Row v (rs ++ ss) → Row v rs ⊎ Row v ss
Row-append v [] ss h = inr h
Row-append v (r ∷ rs) ss (inl e) = inl (inl e)
Row-append v (r ∷ rs) ss (inr h) = elim (Row-append v rs ss h) [
  | inl old ↦ inl (inr old)
  | inr new ↦ inr new
]

-- Versions that follow one another: each names its predecessor's revision as its base.
abbrev pub IsLinked : Option String → List StoredVersion → Type 0
IsLinked base [] = Unit
IsLinked base (v ∷ vs) = (v.base_revision ≡ base) × IsLinked (some v.revision) vs

-- Sequence numbers that rise.
abbrev pub IsRising : List StoredVersion → Type 0
IsRising [] = Unit
IsRising (v ∷ vs) = All (λ w. v.sequence < w.sequence) vs × IsRising vs

-- `revision_of (last? vs)`, or `base` of the empty list
tip : Option String → List StoredVersion → Option String
tip base [] = base
tip base (v ∷ vs) = tip (some v.revision) vs

tip-last? :
    (base : Option String) (v : StoredVersion) (vs : List StoredVersion)
    → tip base (v ∷ vs) ≡ revision_of (last? (v ∷ vs))
unfolding tip
tip-last? base v [] = refl
tip-last? base v (w ∷ vs) = tip-last? (some v.revision) w vs

tip-none : (vs : List StoredVersion) → tip none vs ≡ revision_of (last? vs)
unfolding tip
tip-none [] = refl
tip-none (v ∷ vs) = tip-last? none v vs

IsLinked-append :
    (base : Option String) (vs : List StoredVersion) (v : StoredVersion)
    → IsLinked base vs
    → v.base_revision ≡ tip base vs
    → IsLinked base (vs ++ v ∷ [])
unfolding tip
IsLinked-append base [] v h e = (e, tt)
IsLinked-append base (w ∷ vs) v h e = (h.0, IsLinked-append (some w.revision) vs v h.1 e)

IsRising-append :
    (vs : List StoredVersion) (v : StoredVersion)
    → IsRising vs
    → All (λ r. r.sequence < v.sequence) vs
    → IsRising (vs ++ v ∷ [])
IsRising-append [] v h below = (tt, tt)
IsRising-append (w ∷ vs) v h below = (
  All-append (λ r. w.sequence < r.sequence) vs (v ∷ []) h.0 (below.0, tt),
  IsRising-append vs v h.1 below.1,
)

-- The rows stand by rising sequence number.
pub History-IsRising : {records : List StoredVersion} → History records → IsRising records
History-IsRising nothing = tt
History-IsRising (grow older v records h e below _ _ _) =
    subst IsRising (sym e) (IsRising-append older v (History-IsRising h) below)

pub of_record_sound :
    (o c r : String) (v : StoredVersion)
    → of_record o c r v ≡ true
    → (v.owner_sub ≡ o) × (v.collection ≡ c) × (v.record_id ≡ r)
of_record_sound o c r v h =
    ground (arith, eq_iff v.owner_sub o, eq_iff v.collection c, eq_iff v.record_id r)

pub of_mutation_self :
    (v : StoredVersion) → of_mutation v.owner_sub v.device_id v.mutation_id v ≡ true
of_mutation_self v = simp eq_refl

IsLinked-grow :
    (o c r : String) (older : List StoredVersion) (v : StoredVersion)
    → IsLinked none (select (of_record o c r) older)
    → v.base_revision ≡ revision_of (get_current v.owner_sub v.collection v.record_id older)
    → IsLinked none (select (of_record o c r) (older ++ v ∷ []))
unfolding get_current
IsLinked-grow o c r older v linked base =
    rw (select-append (of_record o c r) older (v ∷ [])) (go (of_record o c r v) refl)
  where
    go :
        (b : Bool)
        → of_record o c r v ≡ b
        → IsLinked none (select (of_record o c r) older ++ (if b then v ∷ [] else []))
    go true h =
        let (same_o, same_c, same_r) = of_record_sound o c r v h in
        IsLinked-append none (select (of_record o c r) older) v linked
          (base ∙ cc (same_o, same_c, same_r) ∙ sym (tip-none (select (of_record o c r) older)))
    go false h = rw append-nil linked

-- Of each record, the first version has no base, and every later one has the version before it as
-- its base: no version was written over one that its writer had not seen.
pub History-IsLinked :
    (owner collection record_id : String) {records : List StoredVersion}
    → History records
    → IsLinked none (select (of_record owner collection record_id) records)
History-IsLinked o c r nothing = tt
History-IsLinked o c r (grow older v records h e below _ _ base) =
    subst (λ rs. IsLinked none (select (of_record o c r) rs)) (sym e)
      (IsLinked-grow o c r older v (History-IsLinked o c r h) base)

pub found_new :
    (older : List StoredVersion) (w : StoredVersion)
    → find_mutation w.owner_sub w.device_id w.mutation_id older ≡ none
    → find_mutation w.owner_sub w.device_id w.mutation_id (older ++ w ∷ []) ≡ some w
unfolding find_mutation
found_new older w fresh =
    find?-append_new (of_mutation w.owner_sub w.device_id w.mutation_id) older (w ∷ []) fresh
    ∙ rw (of_mutation_self w)

-- What was found stays found when the table grows.
pub find_mutation-append :
    (o d m : String) (older newer : List StoredVersion) (v : StoredVersion)
    → find_mutation o d m older ≡ some v
    → find_mutation o d m (older ++ newer) ≡ some v
unfolding find_mutation
find_mutation-append o d m older newer v h = find?-append (of_mutation o d m) older newer v h

-- A mutation is identified by its owner, device and id: the query for that identity finds the
-- very row that was written for it.
pub find_mutation-Row :
    (v : StoredVersion) {records : List StoredVersion}
    → History records
    → Row v records
    → find_mutation v.owner_sub v.device_id v.mutation_id records ≡ some v
find_mutation-Row v nothing h = absurd h
find_mutation-Row v (grow older w records h e below fresh _ _) row =
    elim (Row-append v older (w ∷ []) (subst (Row v) e row)) [
      | inl old ↦ rw e (
          find_mutation-append v.owner_sub v.device_id v.mutation_id older (w ∷ []) v
            (find_mutation-Row v h old))
      | inr (inl new) ↦ rw e (
          subst
            (λ u. find_mutation u.owner_sub u.device_id u.mutation_id (older ++ w ∷ []) ≡ some u)
            (sym new) (found_new older w fresh))
      | inr (inr absent) ↦ absurd absent
    ]
