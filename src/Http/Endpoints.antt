-- ===== src/Http/Endpoints.antt =====
-- packages/server/src/http/app.ts: the other routes, and `createAppBase`, which registers all.
use appbase.Prelude.{String, Bool, true, false, none, some, if◌then◌else◌}
use appbase.Domain.Membership.{MembershipSnapshot}
use appbase.Database.{Database, Db}
use appbase.Accounts.{account_owner}
use appbase.Http.{
  Request, membership_read, plain_text, configuration, legacy_configuration, membership,
  legacy_membership, Response, Step, next, stop, thrown, Handler, ◌>>=◌, ◌>>◌, continue_with,
  return_now, call, Options, HttpWorld,
}
use appbase.Http.Problems.{on_error}
use appbase.Http.Bodies.{Libraries}
use appbase.Http.Guards.{respond, require_protocol_version, authorized_principal}
use appbase.Http.AccountRoutes.{
  get_account, post_session, delete_account, delete_session, delete_owner,
}
use appbase.Http.SyncRoutes.{
  put_mutation_batch, get_changes, post_legacy_mutations, get_legacy_changes,
}

module _ (options : Options) (libraries : Libraries) (world : HttpWorld) (request : Request) where
  unfoldable pub client_configuration : Handler Response
  client_configuration = continue_with (respond 200 (configuration options.public_config))

  -- The routes of the membership are there when the host has one.
  unfoldable pub get_membership : (String → Db MembershipSnapshot) → Handler Response
  unfolding require_protocol_version authorized_principal
  get_membership snapshot = do
    require_protocol_version options request
    principal ← authorized_principal options request membership_read
    found ← call (snapshot (account_owner principal))
    continue_with (respond 200 (membership found))

  unfoldable pub get_legacy_config : Handler Response
  get_legacy_config = continue_with (respond 200 (legacy_configuration options.public_config))

  unfoldable pub get_legacy_membership : (String → Db MembershipSnapshot) → Handler Response
  unfolding authorized_principal
  get_legacy_membership snapshot = do
    principal ← authorized_principal options request membership_read
    found ← call (snapshot (account_owner principal))
    continue_with (respond 200 (legacy_membership found))

-- What a request asks for, by its method and path; a batch has its identifier in the path.
pub data Endpoint : Type 0 where
  read_configuration read_account register_account open_session close_account : Endpoint
  close_session read_changes read_membership : Endpoint
  write_batch : String → Endpoint
  legacy_configuration_v1 legacy_mutations_v1 legacy_changes_v1 legacy_membership_v1 : Endpoint

module _ (options : Options) (libraries : Libraries) (world : HttpWorld) (request : Request) where
  -- Hono's answer to a path that no route takes; the application does not replace it.
  abbrev pub not_found : Handler Response
  not_found = return_now (respond 404 (plain_text "404 Not Found"))

  unfoldable pub only_if : Bool → Handler Response → Handler Response
  only_if true handler = handler
  only_if false handler = not_found

  unfoldable pub with_membership :
      ((String → Db MembershipSnapshot) → Handler Response) → Handler Response
  with_membership handler = elim options.membership_snapshot [
    | none ↦ not_found
    | some snapshot ↦ handler snapshot
  ]

  unfoldable pub close_route : Handler Response
  unfolding delete_account delete_owner
  close_route =
      if options.has_accounts
      then delete_account options libraries world request
      else if options.has_account_deletion
      then delete_owner options libraries world request
      else not_found

  -- The routes that are registered under the host's options.
  unfoldable pub dispatch : Endpoint → Handler Response
  unfolding client_configuration get_account post_session delete_session put_mutation_batch
      get_changes get_membership get_legacy_config post_legacy_mutations get_legacy_changes
      get_legacy_membership only_if with_membership close_route
  dispatch read_configuration = client_configuration options libraries world request
  dispatch read_account = only_if options.has_accounts (get_account options libraries world request)
  dispatch register_account =
      only_if options.has_accounts (post_session options libraries world request true)
  dispatch open_session =
      only_if options.has_accounts (post_session options libraries world request false)
  dispatch close_account = close_route
  dispatch close_session =
      only_if options.has_accounts (delete_session options libraries world request)
  dispatch (write_batch id) = put_mutation_batch options libraries world request id
  dispatch read_changes = get_changes options libraries world request
  dispatch read_membership = with_membership (get_membership options libraries world request)
  dispatch legacy_configuration_v1 =
      only_if options.legacy_v1 (get_legacy_config options libraries world request)
  dispatch legacy_mutations_v1 =
      only_if options.legacy_v1 (post_legacy_mutations options libraries world request)
  dispatch legacy_changes_v1 =
      only_if options.legacy_v1 (get_legacy_changes options libraries world request)
  dispatch legacy_membership_v1 =
      only_if options.legacy_v1
        (with_membership (get_legacy_membership options libraries world request))

  -- A response that was returned at once counts as any other; what was thrown goes to `onError`.
  unfoldable pub answered : Step Response → Response
  unfolding on_error
  answered (next r) = r
  answered (stop r) = r
  answered (thrown t) = on_error options world request t

  unfoldable pub handle : Endpoint → Database → Response × Database
  unfolding dispatch answered
  handle endpoint db = (answered (dispatch endpoint db).0, (dispatch endpoint db).1)
