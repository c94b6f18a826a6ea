-- ===== src/Http/AccountRoutes.antt =====
-- packages/server/src/http/app.ts: the routes of accounts and of their sessions.
use Prim.Native.String.{slice, len}
use appbase.Prelude.{String, Bool, Option, none, some, get_or}
use appbase.Action.{ok}
use appbase.AccountTable.{revoke_session}
use appbase.Deletion.{delete}
use appbase.Accounts.{status, open_account, request_deletion, process, account_owner}
use appbase.Http.{
  Request, sync_write, nothing, account, opened, deletion, Response, next, zod_error, Handler,
  ◌>>=◌, ◌>>◌, continue_with, fail, call, step_of, Options, HttpWorld,
}
use appbase.Http.Bodies.{Libraries, SessionInput, session_input, read_json}
use appbase.Http.Guards.{respond, step, require_protocol_version, authorized, provider_identity}

-- `.slice(7)`, of a text that begins with ASCII
bearer_token : String → String
bearer_token text = slice text 7 (len text)

-- The background work's exceptions are dropped.
unfoldable pub in_background : HttpWorld → String → Handler (Unit {0})
in_background world id db = (next tt, (process world.background id db).1)

module _ (options : Options) (libraries : Libraries) (world : HttpWorld) (request : Request) where
  unfoldable pub get_account : Handler Response
  unfolding provider_identity
  get_account = do
    principal ← provider_identity options request
    found ← call (status principal)
    continue_with (respond 200 (account found))

  unfoldable pub valid_session_input : Option SessionInput → Handler SessionInput
  valid_session_input none = fail zod_error
  valid_session_input (some input) = continue_with input

  -- `register` is whether the path is that of the account.
  unfoldable pub post_session : Bool → Handler Response
  unfolding provider_identity read_json session_input valid_session_input
  post_session register = do
    principal ← provider_identity options request
    body ← step (read_json request 4096)
    input ← valid_session_input (session_input body)
    result ← call (
        open_account options.hash world.accounts principal (record {
          device_id = input.device_id;
          register = register;
          account_id = input.account_id;
        }))
    continue_with (respond 201 (opened result))

  unfoldable pub delete_account : Handler Response
  unfolding require_protocol_version authorized in_background
  delete_account = do
    require_protocol_version options request
    principal ← step (step_of (options.principal request))
    authorized options request sync_write principal
    id ← call (request_deletion world.accounts principal)
    in_background world id
    continue_with (respond 202 (deletion id))

  unfoldable pub delete_session : Handler Response
  unfolding require_protocol_version bearer_token
  delete_session = do
    require_protocol_version options request
    call (λ db.
        (ok tt, revoke_session (options.hash (bearer_token (get_or request.authorization ""))) db))
    continue_with (respond 204 nothing)

  -- Without accounts, the owner's data are deleted at once.
  unfoldable pub delete_owner : Handler Response
  unfolding require_protocol_version authorized
  delete_owner = do
    require_protocol_version options request
    principal ← step (step_of (options.principal request))
    authorized options request sync_write principal
    call (delete world.accounts (account_owner principal))
    continue_with (respond 204 nothing)
