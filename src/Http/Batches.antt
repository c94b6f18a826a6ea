-- ===== src/Http/Batches.antt =====
-- What the route of mutations does on every branch.
use appbase.Prelude.{
  ℕ, ◌≤◌, String, ◌≡◌, ◌≢◌, refl, ap, subst, ◌⊎◌, inl, inr, Bool, true, false, not, Option, none,
  some, List, ltb, leb, length, any, arith, if◌then◌else◌,
}
use appbase.Action.{Failure, Result, ok, err}
use appbase.Json.{Json}
use appbase.Domain.Sync.{SyncMutation, MutationResult}
use appbase.Database.{Database}
use appbase.Deletion.{require_active}
use appbase.Accounts.{Principal, require_account, account_owner}
use appbase.Accounts.Lifecycle.{require_active-reads, require_account-reads}
use appbase.Sync.{push_mutations}
use appbase.Http.{
  Request, Capability, sync_write, no_errors, Response, Thrown, failure, Step, next, stop, thrown,
  payload_too_large, proceed, ◌>>◌, continue_with, call, step_of, Options, HttpWorld,
  batch as batch_body,
}
use appbase.Http.Problems.{problem, validation_problem}
use appbase.Http.Bodies.{
  Libraries, identifier, batch, is_oversized, read_json, is_json, declares_more, max_batch_bytes,
}
use appbase.Prelude.Text.{codes}
use appbase.Cursor.{parse_int}
use appbase.Prelude.{get_or}
use appbase.Http.Guards.{
  respond, or_return, unless, step, require_protocol_version, authorized, account_of, still_active,
  authorized_principal,
}
use appbase.Http.SyncRoutes.{admitted_batch, put_mutation_batch}
use appbase.Http.Steps.{ReadsOnly, bind_read, bind-ReadsOnly}

pub or_return-ReadsOnly :
    {A : Type 0} (o : Option A) (r : Response) (db : Database) → ReadsOnly (or_return o r) db
or_return-ReadsOnly none r db = refl
or_return-ReadsOnly (some a) r db = refl

pub or_return-next :
    {A : Type 0} (o : Option A) (r : Response) (db : Database) (a : A)
    → (or_return o r db).0 ≡ next a
    → o ≡ some a
or_return-next none r db a h = cc h
or_return-next (some b) r db a h = cc h

unless-ReadsOnly : (b : Bool) (r : Response) (db : Database) → ReadsOnly (unless b r) db
unless-ReadsOnly true r db = refl
unless-ReadsOnly false r db = refl

unless-next :
    (b : Bool) (r : Response) (db : Database) (u : Unit {0})
    → (unless b r db).0 ≡ next u
    → b ≡ false
unless-next true r db u h = cc h
unless-next false r db u h = refl

module _ (options : Options) (request : Request) where
  account_of-ReadsOnly :
      (identity : Principal) (db : Database) → ReadsOnly (account_of options request identity) db
  unfolding account_of
  account_of-ReadsOnly identity db = go options.has_accounts
    where
      go :
          (b : Bool)
          → ((if b then call (require_account identity) else continue_with identity) db).1 ≡ db
      go true = require_account-reads identity db
      go false = refl

  still_active-ReadsOnly :
      (p : Principal) (db : Database) → ReadsOnly (still_active options request p) db
  unfolding still_active
  still_active-ReadsOnly p db = go options.has_account_deletion
    where
      go :
          (b : Bool)
          → ((if b then call (require_active (account_owner p)) else continue_with tt) db).1 ≡ db
      go true = require_active-reads (account_owner p) db
      go false = refl

  pub authorized_principal-ReadsOnly :
      (capability : Capability) (db : Database)
      → ReadsOnly (authorized_principal options request capability) db
  unfolding authorized_principal authorized
  authorized_principal-ReadsOnly capability db =
      bind-ReadsOnly (step (step_of (options.principal request))) _ db refl λ identity _.
        bind-ReadsOnly (account_of options request identity) _ db (account_of-ReadsOnly identity db)
          λ p _. bind-ReadsOnly (authorized options request capability p) _ db refl λ _ _.
            bind-ReadsOnly (still_active options request p) _ db (still_active-ReadsOnly p db)
              λ _ _. refl

module _ (options : Options) (libraries : Libraries) (world : HttpWorld) (request : Request)
    (batch_id : String) (db : Database) where
  -- A batch that the route lets through.
  pub record IsAdmitted (principal : Principal) (ms : List SyncMutation) : Type 0 where
    pub allowed : authorized_principal options request sync_write db ≡ (next principal, db)
    pub parsed : batch libraries request.body ≡ some ms
    pub sized : leb request.body_bytes (max_batch_bytes options.public_config) ≡ true
    pub counted : length ms ≤ options.public_config.max_mutations_per_batch
    pub small : any (is_oversized libraries options.public_config.max_payload_bytes) ms ≡ false

  -- The three ends: refused with nothing written; pushed and reported; pushed up to an error.
  pub data Outcome : Step Response × Database → Type 0 where
    refused : (r : Response) → Outcome (stop r, db)
    denied : (t : Thrown) → Outcome (thrown t, db)
    pushed :
        (principal : Principal) (ms : List SyncMutation) (id : String)
        (results : List MutationResult) (later : Database)
        → IsAdmitted principal ms
        → identifier batch_id ≡ some id
        → push_mutations options.sync_deps (account_owner principal) world.mutations 0 ms db
          ≡ (ok results, later)
        → Outcome (next (respond 200 (batch_body id results)), later)
    broken :
        (principal : Principal) (ms : List SyncMutation) (e : Failure) (later : Database)
        → IsAdmitted principal ms
        → push_mutations options.sync_deps (account_owner principal) world.mutations 0 ms db
          ≡ (err e, later)
        → Outcome (thrown (failure e), later)

  read_end :
      (json more long : Bool) (body : Option Json)
      → (if not json
          then next none
          else if more
          then thrown payload_too_large
          else if long
          then thrown payload_too_large
          else next request.body)
        ≡ next body
      → (body ≡ none) ⊎ ((body ≡ request.body) × (long ≡ false))
  read_end false more long body h = inl (cc h)
  read_end true true long body h = cc h
  read_end true false true body h = cc h
  read_end true false false body h = inr (cc h, refl)

  no_batch : (ms : List SyncMutation) → batch libraries none ≢ some ms
  unfolding batch
  no_batch ms h = cc h

  read_json-next :
      (limit : ℕ) (body : Option Json) (ms : List SyncMutation)
      → read_json request limit ≡ next body
      → batch libraries body ≡ some ms
      → (batch libraries request.body ≡ some ms) × (leb request.body_bytes limit ≡ true)
  unfolding read_json
  read_json-next limit body ms h parsed =
      elim (read_end (is_json request)
        (declares_more limit (parse_int (codes (get_or request.content_length "0"))))
        (ltb limit request.body_bytes) body h) [
          | inl missing ↦
              absurd (no_batch ms (subst (λ b. batch libraries b ≡ some ms) missing parsed))
          | inr (same, within) ↦
              (subst (λ b. batch libraries b ≡ some ms) same parsed, ground arith)
        ]

  admitted-ReadsOnly :
      (parsed : Option (List SyncMutation)) (r : Response)
      → ReadsOnly (admitted_batch options libraries world request parsed r) db
  unfolding admitted_batch
  admitted-ReadsOnly parsed r =
      bind-ReadsOnly (or_return parsed (validation_problem options world request)) _ db
        (or_return-ReadsOnly parsed _ db)
        λ ms _.
          bind-ReadsOnly (unless (ltb options.public_config.max_mutations_per_batch (length ms)) r)
            _ db (unless-ReadsOnly _ r db) λ _ _. refl

  admitted-next :
      (parsed : Option (List SyncMutation)) (r : Response) (ms : List SyncMutation)
      → (admitted_batch options libraries world request parsed r db).0 ≡ next ms
      → (parsed ≡ some ms) × (length ms ≤ options.public_config.max_mutations_per_batch)
  unfolding admitted_batch
  admitted-next none r ms h = cc h
  admitted-next (some xs) r ms h =
      go (ltb options.public_config.max_mutations_per_batch (length xs)) refl h
    where
      go :
          (many : Bool)
          → ltb options.public_config.max_mutations_per_batch (length xs) ≡ many
          → ((unless many r >> continue_with xs) db).0 ≡ next ms
          → (some xs ≡ some ms) × (length ms ≤ options.public_config.max_mutations_per_batch)
      go true e k = cc k
      go false e k =
          let same : xs ≡ ms = cc k in
          (
            ap some same,
            subst (λ ys. length ys ≤ options.public_config.max_mutations_per_batch) same
                (ground arith),
          )

  ending :
      (principal : Principal) (ms : List SyncMutation) (id : String)
      → IsAdmitted principal ms
      → identifier batch_id ≡ some id
      → (out : Result (List MutationResult) × Database)
      → push_mutations options.sync_deps (account_owner principal) world.mutations 0 ms db ≡ out
      → Outcome (
          proceed
            (step_of out.0)
            (λ results. continue_with (respond 200 (batch_body id results)))
            out.1)
  ending principal ms id admitted named (ok results, later) e =
      pushed principal ms id results later admitted named e
  ending principal ms id admitted named (err f, later) e = broken principal ms f later admitted e

  -- The route of mutations refuses a request and writes nothing, or it pushes the mutations of a
  -- batch that it admits, for an authorized principal, within the limits of the configuration, and
  -- answers with the results of the push, or with the error that ends it.
  pub put_batch-Outcome : Outcome (put_mutation_batch options libraries world request batch_id db)
  unfolding put_mutation_batch
  put_batch-Outcome =
      bind_read Outcome (require_protocol_version options request) _ db refl refused denied λ _ _.
        bind_read Outcome (authorized_principal options request sync_write) _ db
          (authorized_principal-ReadsOnly options request sync_write db) refused denied
          λ principal allowed.
            bind_read Outcome
              (or_return (identifier batch_id) (validation_problem options world request)) _ db
              (or_return-ReadsOnly (identifier batch_id) _ db) refused denied
              λ id named.
                bind_read Outcome (step (read_json request (max_batch_bytes options.public_config)))
                  _ db refl refused denied
                  λ body read.
                    bind_read Outcome
                      (admitted_batch options libraries world request (batch libraries body)
                        (validation_problem options world request))
                      _ db (admitted-ReadsOnly (batch libraries body) _) refused denied
                      λ ms admitted.
                        bind_read Outcome
                          (unless
                            (any (is_oversized libraries options.public_config.max_payload_bytes)
                              ms)
                            (problem options world request 413 "PAYLOAD_TOO_LARGE" no_errors))
                          _ db (unless-ReadsOnly _ _ db) refused denied
                          λ u fits.
                            let (parsed, sized) =
                              read_json-next (max_batch_bytes options.public_config) body ms read
                                (admitted-next (batch libraries body) _ ms admitted).0 in
                            ending principal ms id
                              (record {
                                allowed = cc (
                                  allowed,
                                  authorized_principal-ReadsOnly options request sync_write db,
                                );
                                parsed = parsed;
                                sized = sized;
                                counted = (admitted-next (batch libraries body) _ ms admitted).1;
                                small = unless-next _ _ db u fits;
                              })
                              (or_return-next (identifier batch_id) _ db id named)
                              (push_mutations options.sync_deps (account_owner principal)
                                world.mutations 0 ms db)
                              refl
