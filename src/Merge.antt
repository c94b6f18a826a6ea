-- ===== src/Merge.antt =====
-- packages/server/src/domain/sync.ts, `defaultThreeWayMerge` and `preferredPayload`.
-- A property that an object inherits, such as `toString`, is a function, which has no text and is
-- no number: the code treats it as a missing one. A property named `__proto__` is left out; the
-- request schema drops it.
pub mod Objects
pub mod ThreeWay
pub mod Preference
mod Tests
use appbase.Prelude.{
  ℕ, String, Bool, not, ◌&&◌, ◌||◌, Option, none, some, List, [], ◌∷◌, length, ltb, leb, nat_eq,
  lookup, insert, get_or, if◌then◌else◌,
}
use appbase.Prelude.Int.{ℤ, ltb_ℤ}
use appbase.Json.{Json, num, str, arr, obj, JsonObject, elems, props, json_equals}
use appbase.Domain.Sync.{MergeInput}

-- `directive.conflictOrder`, where it has one to eight entries
order_of : Option Json → Option (List Json)
order_of (some (arr es)) =
    if nat_eq (length (elems es)) 0 || ltb 8 (length (elems es)) then none else some (elems es)
order_of _ = none

-- `client._sync`, an object that is no array
directive_order : Option Json → Option (List Json)
unfolding order_of
directive_order (some (obj fs)) = order_of (lookup "conflictOrder" (props fs))
directive_order _ = none

pub conflict_order : JsonObject → Option (List Json)
unfolding directive_order
conflict_order client = directive_order (lookup "_sync" client)

-- `typeof value === "number"`
number_of : Option Json → Option ℤ
number_of (some (num n)) = some n
number_of _ = none

-- One round of the loop, from the two values of the field. `rest` is the loop's next rounds.
decide_field : Option ℤ → Option ℤ → JsonObject → JsonObject → Option JsonObject → Option JsonObject
decide_field (some s) (some c) server client rest =
    if ltb_ℤ s c then some client else if ltb_ℤ c s then some server else rest
decide_field _ _ server client rest = none

-- The loop over `order`.
prefer : List Json → JsonObject → JsonObject → Option JsonObject
unfolding decide_field number_of
prefer [] server client = none
prefer (str field ∷ order) server client =
    decide_field (number_of (lookup field server)) (number_of (lookup field client)) server client
      (prefer order server client)
prefer (_ ∷ order) server client = none

pub preferred_payload : JsonObject → JsonObject → Option JsonObject
preferred_payload server client = elim (conflict_order client) [
  | none ↦ none
  | some order ↦ prefer order server client
]

-- `clientChanged && (!serverChanged || !jsonEquals(clientValue, serverValue))`
takes_client : Option Json → Option Json → Json → Bool
takes_client ancestor server client =
    let client_changed = not (json_equals (some client) ancestor) in
    let server_changed = not (json_equals server ancestor) in
    client_changed && (not server_changed || not (json_equals (some client) server))

-- One round of the loop over the client's entries.
merge_entry : JsonObject → JsonObject → String → Json → JsonObject → JsonObject
unfolding takes_client
merge_entry ancestor server key value merged =
    if takes_client (lookup key ancestor) (lookup key server) value
    then insert key value merged
    else merged

merge_entries : JsonObject → JsonObject → JsonObject → JsonObject → JsonObject
unfolding merge_entry
merge_entries ancestor server [] merged = merged
merge_entries ancestor server ((key, value) ∷ rest) merged =
    merge_entries ancestor server rest (merge_entry ancestor server key value merged)

merge_objects : Option JsonObject → JsonObject → JsonObject → JsonObject
merge_objects ancestor server client = merge_entries (get_or ancestor []) server client server

merge_present : Option JsonObject → JsonObject → JsonObject → JsonObject
merge_present ancestor server client =
    get_or (preferred_payload server client) (merge_objects ancestor server client)

-- `input.client === null`, `input.server === null`
merge_payloads : Option JsonObject → Option JsonObject → Option JsonObject → Option JsonObject
unfolding merge_present
merge_payloads ancestor server none = none
merge_payloads ancestor none (some client) = some client
merge_payloads ancestor (some server) (some client) = some (merge_present ancestor server client)

pub default_three_way_merge : MergeInput → Option JsonObject
unfolding merge_payloads
default_three_way_merge input = merge_payloads input.ancestor input.server input.client

-- Opens the merge for a run.
unfoldable pub merge_run : Unit {0}
unfolding default_three_way_merge preferred_payload conflict_order prefer merge_objects
    merge_entries json_equals
merge_run = tt
