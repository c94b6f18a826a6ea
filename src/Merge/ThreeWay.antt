-- ===== src/Merge/ThreeWay.antt =====
-- What the three-way merge gives for each property, when no conflict order decides.
use appbase.Prelude.{
  String, ◌≡◌, ◌≢◌, refl, ◌⊎◌, inl, inr, Option, none, some, [], ◌∷◌, arith, ◌==◌, eq_iff, sym, ◌∙◌,
  subst, lookup, get_or, if◌then◌else◌, Bool-cases, ap,
}
use appbase.Json.{Json, JsonObject, json_equals}
use appbase.Json.Equality.{json_equals_iff}
use appbase.Domain.Sync.{MergeInput}
use appbase.Merge.{
  takes_client, merge_entry, merge_entries, merge_objects, preferred_payload, conflict_order,
  default_three_way_merge,
}
use appbase.Merge.Objects.{lookup-insert, IsObject}

-- The value of one property: the client's if the client changed it, else the server's.
abbrev pub merged_value : Option Json → Option Json → Option Json → Option Json
merged_value ancestor server none = server
merged_value ancestor server (some v) = if json_equals (some v) ancestor then server else some v

takes_client_value :
    (ancestor server : Option Json) (v : Json)
    → (if takes_client ancestor server v then some v else server)
      ≡ merged_value ancestor server (some v)
unfolding takes_client
takes_client_value ancestor server v = ground (
  arith,
  json_equals_iff (some v) ancestor,
  json_equals_iff server ancestor,
  json_equals_iff (some v) server,
)

module _ (ancestor server : JsonObject) (k : String) where
  lookup-merge_entry :
      (j : String) (v : Json) (merged : JsonObject)
      → lookup k (merge_entry ancestor server j v merged) ≡ (
          if j == k
          then (if takes_client (lookup k ancestor) (lookup k server) v
              then some v
              else lookup k merged)
          else lookup k merged)
  unfolding merge_entry
  lookup-merge_entry j v merged = elim (Bool-cases (j == k)) [
    | inl same ↦
        rw (sym ((eq_iff j k).0 same)) (ground (arith, eq_iff j j, lookup-insert j j v merged))
    | inr other ↦ ground (arith, lookup-insert j k v merged)
  ]

  merge_entries_other :
      (client merged : JsonObject)
      → lookup k client ≡ none
      → lookup k (merge_entries ancestor server client merged) ≡ lookup k merged
  unfolding merge_entries
  merge_entries_other [] merged h = refl
  merge_entries_other ((j, v) ∷ rest) merged h =
      merge_entries_other rest (merge_entry ancestor server j v merged) (ground arith)
      ∙ ground (arith, lookup-merge_entry j v merged)

  -- The loop leaves each property at its merged value.
  lookup-merge_entries :
      (client merged : JsonObject)
      → IsObject client
      → lookup k merged ≡ lookup k server
      → lookup k (merge_entries ancestor server client merged)
        ≡ merged_value (lookup k ancestor) (lookup k server) (lookup k client)
  unfolding merge_entries
  lookup-merge_entries [] merged distinct same = same
  lookup-merge_entries ((j, v) ∷ rest) merged distinct same = elim (Bool-cases (j == k)) [
    | inl here ↦
        merge_entries_other rest (merge_entry ancestor server j v merged)
          (subst (λ i. lookup i rest ≡ none) ((eq_iff j k).0 here) distinct.0)
        ∙ lookup-merge_entry j v merged
        ∙ rw (here, same) (takes_client_value (lookup k ancestor) (lookup k server) v)
    | inr other ↦ rw other (
        lookup-merge_entries rest (merge_entry ancestor server j v merged) distinct.1
          (lookup-merge_entry j v merged ∙ rw (other, same)))
  ]

-- The client sends no new value for a property: it does not send the property at all (so also when
-- it has removed it), or it sends the ancestor's value.
abbrev pub Untouched : Option Json → Option Json → Type 0
Untouched ancestor client = (client ≡ none) ⊎ (client ≡ ancestor)

-- What a merge makes of one property: the server's value where the client sends no new one, and the
-- client's where it does.
abbrev pub IsMerged : (ancestor server client result : Option Json) → Type 0
IsMerged ancestor server client result =
    (Untouched ancestor client × (result ≡ server))
    ⊎ ((client ≢ none) × (client ≢ ancestor) × (result ≡ client))

merged_value-IsMerged :
    (ancestor server client : Option Json)
    → IsMerged ancestor server client (merged_value ancestor server client)
merged_value-IsMerged ancestor server none = inl (inl refl, refl)
merged_value-IsMerged ancestor server (some v) = elim (Bool-cases (json_equals (some v) ancestor)) [
  | inl same ↦ inl (inr ((json_equals_iff (some v) ancestor).0 same), rw same)
  | inr other ↦
      inr ((λ e. cc), (λ e. cc (other, (json_equals_iff (some v) ancestor).1 e)), rw other)
]

abbrev pub input : Option JsonObject → JsonObject → JsonObject → MergeInput
input ancestor server client = record {
  ancestor = ancestor;
  server = some server;
  client = some client;
}

module _ (ancestor : Option JsonObject) (server client merged : JsonObject) (k : String) where
  made_by_loop :
      preferred_payload server client ≡ none
      → default_three_way_merge (input ancestor server client)
        ≡ some (merge_objects ancestor server client)
  unfolding default_three_way_merge
  made_by_loop undecided = rw undecided

  lookup-merge :
      IsObject client
      → preferred_payload server client ≡ none
      → default_three_way_merge (input ancestor server client) ≡ some merged
      → lookup k merged
        ≡ merged_value (lookup k (get_or ancestor [])) (lookup k server) (lookup k client)
  lookup-merge distinct undecided made =
      ap (lookup k) same
      ∙ unfold merge_objects in
        lookup-merge_entries (get_or ancestor []) server k client server distinct refl
    where
      same : merged ≡ merge_objects ancestor server client
      same = cc (made, made_by_loop undecided)

  -- If no conflict order decides, every property of the merged object is the client's where the
  -- client sends a value other than the ancestor's, whatever the server did, and the server's where
  -- it sends the ancestor's value or does not send the property; so a property that the client has
  -- removed from its payload stays as the server has it.
  pub merge-IsMerged :
      IsObject client
      → preferred_payload server client ≡ none
      → default_three_way_merge (input ancestor server client) ≡ some merged
      → IsMerged
          (lookup k (get_or ancestor []))
          (lookup k server)
          (lookup k client)
          (lookup k merged)
  merge-IsMerged distinct undecided made =
      rw (lookup-merge distinct undecided made) (merged_value-IsMerged _ _ _)

merged_value_twice :
    (ancestor server client : Option Json)
    → merged_value ancestor (merged_value ancestor server client) client
      ≡ merged_value ancestor server client
merged_value_twice ancestor server none = refl
merged_value_twice ancestor server (some v) = ground arith

merged_value_comm :
    (ancestor server one other : Option Json)
    → Untouched ancestor one ⊎ Untouched ancestor other
    → merged_value ancestor (merged_value ancestor server one) other
      ≡ merged_value ancestor (merged_value ancestor server other) one
merged_value_comm ancestor server none other h = refl
merged_value_comm ancestor server one none h = refl
merged_value_comm ancestor server (some v) (some w) h =
    ground (arith, json_equals_iff (some v) ancestor, json_equals_iff (some w) ancestor)

-- Without a directive no other payload makes the client's order decide.
undirected :
    (server client : JsonObject)
    → conflict_order client ≡ none
    → preferred_payload server client ≡ none
unfolding preferred_payload
undirected server client h = rw (h, preferred_payload)

module _ (ancestor : Option JsonObject) (server merged again client : JsonObject) (k : String) where
  -- Merging the same client payload once more, into the result, changes no property: a retried
  -- write is stable.
  pub merge_again :
      IsObject client
      → conflict_order client ≡ none
      → default_three_way_merge (input ancestor server client) ≡ some merged
      → default_three_way_merge (input ancestor merged client) ≡ some again
      → lookup k again ≡ lookup k merged
  merge_again distinct free first second =
      lookup-merge ancestor merged client again k distinct (undirected merged client free) second
      ∙ rw
          (lookup-merge ancestor server client merged k distinct (undirected server client free)
            first)
          (merged_value_twice (lookup k (get_or ancestor [])) (lookup k server) (lookup k client))

module _ (ancestor : Option JsonObject) (server one other : JsonObject) (k : String) where
  -- Two clients that edit from one ancestor, where no conflict order decides: at each property for
  -- which one of them sends the ancestor's value or none, the order in which their payloads arrive
  -- does not matter.
  pub merge_comm :
      (a b ab ba : JsonObject)
      → IsObject one
      → IsObject other
      → conflict_order one ≡ none
      → conflict_order other ≡ none
      → Untouched (lookup k (get_or ancestor [])) (lookup k one)
        ⊎ Untouched (lookup k (get_or ancestor [])) (lookup k other)
      → default_three_way_merge (input ancestor server one) ≡ some a
      → default_three_way_merge (input ancestor a other) ≡ some ab
      → default_three_way_merge (input ancestor server other) ≡ some b
      → default_three_way_merge (input ancestor b one) ≡ some ba
      → lookup k ab ≡ lookup k ba
  merge_comm a b ab ba d d' f f' apart ma mab mb mba =
      rw
        (
          lookup-merge ancestor a other ab k d' (undirected a other f') mab,
          lookup-merge ancestor server one a k d (undirected server one f) ma,
          lookup-merge ancestor b one ba k d (undirected b one f) mba,
          lookup-merge ancestor server other b k d' (undirected server other f') mb,
        )
        (merged_value_comm (lookup k (get_or ancestor [])) (lookup k server) (lookup k one)
          (lookup k other) apart)
