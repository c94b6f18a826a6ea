-- ===== src/Merge/Tests.antt =====
-- Runs of the merge at concrete objects, and the theorems at inputs that meet their hypotheses.
use appbase.Prelude.{◌≡◌, refl, ◌↔◌, inl, inr, none, some, [], ◌∷◌, lookup}
use appbase.Prelude.Int.{pos, negsuc}
use appbase.Json.{num, str, arr, obj, cons, nil, field, end, JsonObject}
use appbase.Merge.{default_three_way_merge, preferred_payload, conflict_order, merge_run}
use appbase.Merge.ThreeWay.{input, IsMerged, merge-IsMerged, merge_comm}
use appbase.Merge.Preference.{IsPreferred, IsPreferred-iff, merge_converges}

abbrev ancestor_note : JsonObject
ancestor_note = ("title", str "a") ∷ ("body", str "x") ∷ []

abbrev server_note : JsonObject
server_note = ("title", str "a") ∷ ("body", str "y") ∷ []

abbrev client_note : JsonObject
client_note = ("title", str "b") ∷ ("body", str "x") ∷ ("tag", num (pos 1)) ∷ []

abbrev merged_note : JsonObject
merged_note = ("title", str "b") ∷ ("body", str "y") ∷ ("tag", num (pos 1)) ∷ []

merge_keeps_both :
    default_three_way_merge (input (some ancestor_note) server_note client_note) ≡ some merged_note
unfolding merge_run
merge_keeps_both = refl

merge_absent :
    (default_three_way_merge (record { ancestor = none; server = some server_note; client = none })
      ≡ none)
    × (default_three_way_merge
          (record { ancestor = none; server = none; client = some client_note })
        ≡ some client_note)
unfolding merge_run
merge_absent = (refl, refl)

abbrev directive : JsonObject
directive =
    (
      "_sync",
      obj (field "conflictOrder" (arr (cons (str "epoch") (cons (str "position") nil))) end),
    )
    ∷ []

abbrev placed : JsonObject
placed = ("epoch", num (pos 2)) ∷ ("position", num (negsuc 4)) ∷ directive

abbrev moved : JsonObject
moved = ("epoch", num (pos 2)) ∷ ("position", num (pos 7)) ∷ directive

-- The second field is no number in either payload, and the first decides.
abbrev unplaced : JsonObject
unplaced = ("epoch", num (pos 3)) ∷ ("position", str "top") ∷ directive

moved_wins : preferred_payload placed moved ≡ some moved
unfolding merge_run
moved_wins = refl

unplaced_wins : preferred_payload unplaced placed ≡ some unplaced
unfolding merge_run
unplaced_wins = refl

directed : conflict_order moved ≡ some (str "epoch" ∷ str "position" ∷ [])
unfolding merge_run
directed = refl

undecided : preferred_payload server_note client_note ≡ none
unfolding merge_run
undecided = refl

free : conflict_order client_note ≡ none
unfolding merge_run
free = refl

server_free : conflict_order server_note ≡ none
unfolding merge_run
server_free = refl

merge-IsMerged_example :
    IsMerged (some (str "x")) (some (str "y")) (some (str "x")) (some (str "y"))
merge-IsMerged_example =
    merge-IsMerged (some ancestor_note) server_note client_note merged_note "body"
      (refl, (refl, (refl, tt))) undecided merge_keeps_both

merged_twice :
    default_three_way_merge (input (some ancestor_note) merged_note client_note) ≡ some merged_note
unfolding merge_run
merged_twice = refl

abbrev client_first : JsonObject
client_first = ("title", str "b") ∷ ("body", str "x") ∷ ("tag", num (pos 1)) ∷ []

client_first_merged :
    default_three_way_merge (input (some ancestor_note) ancestor_note client_note)
    ≡ some client_first
unfolding merge_run
client_first_merged = refl

then_server :
    default_three_way_merge (input (some ancestor_note) client_first server_note) ≡ some merged_note
unfolding merge_run
then_server = refl

server_first_merged :
    default_three_way_merge (input (some ancestor_note) ancestor_note server_note)
    ≡ some server_note
unfolding merge_run
server_first_merged = refl

merge_comm_example : lookup "body" merged_note ≡ lookup "body" merged_note
merge_comm_example =
    merge_comm (some ancestor_note) ancestor_note client_note server_note "body" client_first
      server_note merged_note merged_note (refl, (refl, (refl, tt))) (refl, (refl, tt)) free
      server_free (inl (inr refl)) client_first_merged then_server server_first_merged
      merge_keeps_both

IsPreferred-iff_example :
    (preferred_payload placed moved ≡ some moved)
    ↔ IsPreferred placed moved (str "epoch" ∷ str "position" ∷ []) moved
IsPreferred-iff_example =
    IsPreferred-iff placed moved (str "epoch" ∷ str "position" ∷ []) moved directed

same_directive : conflict_order placed ≡ conflict_order moved
unfolding merge_run
same_directive = refl

merge_converges_example :
    (default_three_way_merge (input none placed moved) ≡ some moved)
    × (default_three_way_merge (input (some placed) moved placed) ≡ some moved)
merge_converges_example =
    merge_converges placed moved moved none (some placed) same_directive moved_wins
