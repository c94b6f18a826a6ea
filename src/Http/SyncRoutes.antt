-- ===== src/Http/SyncRoutes.antt =====
-- packages/server/src/http/app.ts: the routes of mutations and changes, those of version 1 included.
use appbase.Prelude.{ℕ, String, Option, none, some, List, ltb, length, any, lookup, if◌then◌else◌}
use appbase.Domain.Sync.{SyncMutation, PullResult}
use appbase.Accounts.{Principal, account_owner}
use appbase.Sync.{push_mutations}
use appbase.Pull.{pull_changes}
use appbase.Prelude.Text.{codes}
use appbase.Http.{
  Request, sync_read, sync_write, no_errors, Page, batch as batch_body, legacy_batch, page,
  legacy_page, Response, Handler, ◌>>=◌, ◌>>◌, continue_with, call, Options, HttpWorld,
}
use appbase.Http.Problems.{problem, validation_problem}
use appbase.Http.Bodies.{
  Libraries, identifier, batch, is_oversized, page_size, read_json, max_batch_bytes,
}
use appbase.Http.Guards.{
  respond, or_return, unless, step, require_protocol_version, authorized_principal,
}

module _ (options : Options) (libraries : Libraries) (world : HttpWorld) (request : Request) where
  -- `!parsed.success || parsed.data.mutations.length > maxMutationsPerBatch`
  unfoldable pub admitted_batch :
      Option (List SyncMutation) → Response → Handler (List SyncMutation)
  admitted_batch parsed too_many = do
    ms ← or_return parsed (validation_problem options world request)
    unless (ltb options.public_config.max_mutations_per_batch (length ms)) too_many
    continue_with ms

  unfoldable pub put_mutation_batch : String → Handler Response
  unfolding require_protocol_version authorized_principal identifier read_json batch admitted_batch
  put_mutation_batch batch_id = do
    require_protocol_version options request
    principal ← authorized_principal options request sync_write
    id ← or_return (identifier batch_id) (validation_problem options world request)
    body ← step (read_json request (max_batch_bytes options.public_config))
    ms ← admitted_batch (batch libraries body) (validation_problem options world request)
    unless (any (is_oversized libraries options.public_config.max_payload_bytes) ms)
        (problem options world request 413 "PAYLOAD_TOO_LARGE" no_errors)
    results ← call (push_mutations options.sync_deps (account_owner principal) world.mutations 0 ms)
    continue_with (respond 200 (batch_body id results))

  unfoldable pub page_of : ℕ → PullResult → Page
  page_of size result = record {
    items = result.changes;
    page_size = size;
    next_page_token = if result.has_more then some result.cursor else none;
    checkpoint = result.cursor;
  }

  -- A page of changes, by the names of its two parameters.
  unfoldable pub pulled : Principal → String → String → Handler (ℕ × PullResult)
  unfolding page_size codes
  pulled principal size_name token_name = do
    size ←
        or_return
          (page_size libraries options.public_config.max_changes_per_page
            (lookup size_name request.query))
          (validation_problem options world request)
    result ← call (
        pull_changes options.sync_deps (account_owner principal)
          (elim (lookup token_name request.query) [ none ↦ none | some t ↦ some (codes t) ]) size)
    continue_with (size, result)

  unfoldable pub get_changes : Handler Response
  unfolding require_protocol_version authorized_principal pulled page_of
  get_changes = do
    require_protocol_version options request
    principal ← authorized_principal options request sync_read
    found ← pulled principal "pageSize" "pageToken"
    continue_with (respond 200 (page (page_of found.0 found.1)))

  -- Version 1 asks for no protocol version and does not limit the single payload.
  unfoldable pub post_legacy_mutations : Handler Response
  unfolding authorized_principal read_json batch admitted_batch
  post_legacy_mutations = do
    principal ← authorized_principal options request sync_write
    body ← step (read_json request (max_batch_bytes options.public_config))
    ms ←
        admitted_batch (batch libraries body)
          (problem options world request 422 "VALIDATION_ERROR" no_errors)
    results ← call (push_mutations options.sync_deps (account_owner principal) world.mutations 0 ms)
    continue_with (respond 200 (legacy_batch results))

  unfoldable pub get_legacy_changes : Handler Response
  unfolding authorized_principal pulled
  get_legacy_changes = do
    principal ← authorized_principal options request sync_read
    found ← pulled principal "limit" "cursor"
    continue_with (respond 200 (legacy_page found.1))
