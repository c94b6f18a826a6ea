-- ===== src/Http/Bodies.antt =====
-- packages/server/src/http/app.ts: the schemas of requests, `readJson` and the limits. What the zod
-- package accepts as a UUID and as a whole number is a parameter, and so is the size of a text.
use appbase.Prelude.{
  ℕ, ◌+◌, ◌*◌, ◌-◌, ◌^◌, String, Bool, true, false, not, ◌&&◌, ◌||◌, Option, none, some, List, [],
  ◌∷◌, ◌==◌, map, min, ltb, leb, nat_eq, length, any, all, lookup, get_or, if◌then◌else◌,
}
use appbase.Prelude.Int.{ℤ, pos, ltb_ℤ}
use appbase.Prelude.Text.{codes, trim, text_length}
use appbase.Action.{Result, ok, err, plain}
use appbase.Json.{Json, null, str, arr, obj, JsonObject, Elems, nil, cons, props}
use appbase.Domain.Sync.{Operation, put, delete, SyncMutation}
use appbase.Cursor.{max_safe_integer, parse_int}
use appbase.Http.{PublicConfig, Request, Step, next, thrown, payload_too_large}
use appbase.Http.Problems.{lower}

pub record Libraries : Type 0 where
  -- `z.string().uuid()`
  pub is_uuid : String → Bool
  -- `z.coerce.number().int()`
  pub whole_number : String → Option ℤ
  -- `new TextEncoder().encode(JSON.stringify(value)).byteLength`
  pub json_bytes : JsonObject → ℕ

abbrev pub protocol_version : String
protocol_version = "2026-08-17"

-- `[A-Za-z0-9._:-]`
abbrev pub is_identifier_char : ℕ → Bool
is_identifier_char c =
    (leb b'A' c && leb c b'Z')
    || ((leb b'a' c && leb c b'z')
        || ((leb b'0' c && leb c b'9')
            || (nat_eq c b'.' || (nat_eq c b'_' || (nat_eq c b':' || nat_eq c b'-')))))

-- What `identifierSchema` demands of a trimmed text.
unfoldable pub is_identifier : String → Bool
unfolding codes text_length
is_identifier text =
    leb 1 (text_length text) && (leb (text_length text) 200 && all is_identifier_char (codes text))

-- `identifierSchema`
unfoldable pub identifier : String → Option String
unfolding trim is_identifier
identifier text = if is_identifier (trim text) then some (trim text) else none

infixl 5 ◌>>=◌ ◌>>◌
abbrev pub ◌>>=◌ : {A B : Type 0} → Option A → (A → Option B) → Option B
none >>= f = none
some a >>= f = f a

abbrev pub ◌>>◌ : {A B : Type 0} → Option A → Option B → Option B
m >> n = m >>= λ _. n

abbrev pub check : Bool → Option (Unit {0})
check true = some tt
check false = none

unfoldable pub identifier_at : Option Json → Option String
unfolding identifier
identifier_at (some (str text)) = identifier text
identifier_at _ = none

-- `identifierSchema.optional()`
unfoldable pub optional_identifier_at : Option Json → Option (Option String)
unfolding identifier_at
optional_identifier_at none = some none
optional_identifier_at (some v) = do id ← identifier_at (some v); some (some id)

-- `z.enum(["put", "delete"])`
operation_at : Option Json → Option Operation
operation_at (some (str text)) =
    if text == "put" then some put else if text == "delete" then some delete else none
operation_at _ = none

-- `z.record(z.string(), z.json()).optional()`
payload_at : Option Json → Option (Option JsonObject)
payload_at none = some none
payload_at (some (obj fs)) = some (some (props fs))
payload_at _ = none

-- The refinement: a payload belongs to a put.
abbrev pub fits : Operation → Option JsonObject → Bool
fits put none = false
fits put (some p) = true
fits delete none = true
fits delete (some p) = false

-- `z.object({ deviceId, accountId }).strict()`
only_keys : List String → JsonObject → Bool
only_keys names [] = true
only_keys names ((key, v) ∷ rest) = any (λ n. n == key) names && only_keys names rest

pub record SessionInput : Type 0 where
  pub device_id : String
  pub account_id : Option String

unfoldable pub session_input : Option Json → Option SessionInput
unfolding only_keys identifier_at optional_identifier_at
session_input (some (obj fs)) = do
  check (only_keys ("deviceId" ∷ "accountId" ∷ []) (props fs))
  device ← identifier_at (lookup "deviceId" (props fs))
  account ← optional_identifier_at (lookup "accountId" (props fs))
  some (record { device_id = device; account_id = account })
session_input _ = none

module _ (libraries : Libraries) where
  -- `z.string().uuid().nullable()`
  base_at : Option Json → Option (Option String)
  base_at (some null) = some none
  base_at (some (str text)) = if libraries.is_uuid text then some (some text) else none
  base_at _ = none

  -- `mutationSchema`, then `toMutation`
  unfoldable pub mutation : Json → Option SyncMutation
  unfolding identifier_at base_at operation_at payload_at
  mutation (obj fs) = do
    mutation_id ← identifier_at (lookup "mutationId" (props fs))
    device_id ← identifier_at (lookup "deviceId" (props fs))
    collection ← identifier_at (lookup "collection" (props fs))
    record_id ← identifier_at (lookup "recordId" (props fs))
    base_revision ← base_at (lookup "baseRevision" (props fs))
    operation ← operation_at (lookup "operation" (props fs))
    payload ← payload_at (lookup "payload" (props fs))
    check (fits operation payload)
    some (record {
      mutation_id = mutation_id;
      device_id = device_id;
      collection = collection;
      record_id = record_id;
      base_revision = base_revision;
      operation = operation;
      payload = payload;
    })
  mutation _ = none

  unfoldable pub mutations : Elems → Option (List SyncMutation)
  unfolding mutation
  mutations nil = some []
  mutations (cons v vs) = do m ← mutation v; ms ← mutations vs; some (m ∷ ms)

  mutations_at : Option Json → Option (List SyncMutation)
  unfolding mutations
  mutations_at (some (arr vs)) = do ms ← mutations vs; check (leb 1 (length ms)); some ms
  mutations_at _ = none

  -- `batchSchema`
  unfoldable pub batch : Option Json → Option (List SyncMutation)
  unfolding mutations_at
  batch (some (obj fs)) = mutations_at (lookup "mutations" (props fs))
  batch _ = none

  abbrev pub is_oversized : ℕ → SyncMutation → Bool
  is_oversized limit m = elim m.payload [
    | none ↦ false
    | some p ↦ ltb limit (libraries.json_bytes p)
  ]

  unfoldable pub page_number : ℕ → Option ℤ → Option ℕ
  page_number limit (some (pos n)) = if leb 1 n && leb n limit then some n else none
  page_number limit _ = none

  -- `pageSizeSchema.max(max).default(Math.min(200, max))`
  unfoldable pub page_size : ℕ → Option String → Option ℕ
  unfolding page_number
  page_size limit none = some (min 200 limit)
  page_size limit (some text) = page_number limit (libraries.whole_number text)

starts : List ℕ → List ℕ → Bool
starts [] text = true
starts (c ∷ cs) [] = false
starts (c ∷ cs) (d ∷ ds) = nat_eq c d && starts cs ds

-- `text.includes(part)`
includes : List ℕ → List ℕ → Bool
unfolding starts
includes part [] = starts part []
includes part (c ∷ cs) = starts part (c ∷ cs) || includes part cs

unfoldable pub is_json : Request → Bool
unfolding includes codes
is_json request =
    includes (codes "application/json") (map lower (codes (get_or request.content_type "")))

-- The first whole number that `Number.parseInt` rounds to infinity.
first_infinite : ℕ
first_infinite = 2 ^ 1024 - 2 ^ 970

-- `Number.isFinite(declared) && declared > maximumBytes`
pub declares_more : ℕ → Option ℤ → Bool
unfolding first_infinite
declares_more limit none = false
declares_more limit (some n) = ltb_ℤ n (pos first_infinite) && ltb_ℤ (pos limit) n

-- `readJson`; the length of the text counts too, whatever was declared.
unfoldable pub read_json : Request → ℕ → Step (Option Json)
unfolding is_json declares_more codes
read_json request limit =
    if not (is_json request)
    then next none
    else if declares_more limit (parse_int (codes (get_or request.content_length "0")))
    then thrown payload_too_large
    else if ltb limit request.body_bytes
    then thrown payload_too_large
    else next request.body

abbrev pub max_batch_bytes : PublicConfig → ℕ
max_batch_bytes config = config.max_mutations_per_batch * config.max_payload_bytes + 65536

is_positive : ℕ → Bool
is_positive n = leb 1 n && leb n max_safe_integer

-- `validateConfig`
unfoldable pub validate_config : PublicConfig → Result (Unit {0})
unfolding is_positive
validate_config config =
    if not (any (λ v. v == protocol_version) config.protocol_versions)
    then err (plain "AppBase public configuration must support 2026-08-17.")
    else if not (is_positive config.max_mutations_per_batch)
    then err (plain "maxMutationsPerBatch must be a positive integer.")
    else if not (is_positive config.max_changes_per_page)
    then err (plain "maxChangesPerPage must be a positive integer.")
    else if not (is_positive config.max_payload_bytes)
    then err (plain "maxPayloadBytes must be a positive integer.")
    else ok tt
