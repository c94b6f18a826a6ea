-- ===== src/Http/Guards.antt =====
-- packages/server/src/http/app.ts: what the routes check before they act.
use appbase.Prelude.{ℕ, Bool, true, false, Option, none, some, ◌==◌, any, if◌then◌else◌}
use appbase.Action.{authentication, authorization}
use appbase.Deletion.{require_active}
use appbase.Accounts.{Principal, given, status, require_account, account_owner}
use appbase.Http.{
  Request, Capability, sync_write, Body, Response, Step, next, thrown, unsupported_version, failure,
  Handler, ◌>>=◌, ◌>>◌, continue_with, return_now, fail, call, step_of, Options,
}

abbrev pub respond : ℕ → Body → Response
respond status body = record { status = status; body = body }

-- `if (!value) return response`
abbrev pub or_return : {A : Type 0} → Option A → Response → Handler A
or_return none r = return_now r
or_return (some a) r = continue_with a

abbrev pub unless : Bool → Response → Handler (Unit {0})
unless false r = continue_with tt
unless true r = return_now r

abbrev pub step : {A : Type 0} → Step A → Handler A
step s db = (s, db)

module _ (options : Options) (request : Request) where
  -- `requireProtocolVersion`
  unfoldable pub require_protocol_version : Handler (Unit {0})
  require_protocol_version = step (elim request.api_version [
    | none ↦ thrown (unsupported_version options.public_config.protocol_versions)
    | some version ↦
        if any (λ v. v == version) options.public_config.protocol_versions
        then next tt
        else thrown (unsupported_version options.public_config.protocol_versions)
  ])

  -- `if (options.authorize && !options.authorize(principal, capability)) throw`
  unfoldable pub authorized : Capability → Principal → Handler (Unit {0})
  authorized capability principal = step (elim options.authorize [
    | none ↦ next tt
    | some allows ↦ if allows principal capability then next tt else thrown (failure authorization)
  ])

  unfoldable pub account_of : Principal → Handler Principal
  account_of identity =
      if options.has_accounts then call (require_account identity) else continue_with identity

  unfoldable pub still_active : Principal → Handler (Unit {0})
  still_active principal =
      if options.has_account_deletion
      then call (require_active (account_owner principal))
      else continue_with tt

  -- `authorizedPrincipal`
  unfoldable pub authorized_principal : Capability → Handler Principal
  unfolding account_of authorized still_active
  authorized_principal capability = do
    identity ← step (step_of (options.principal request))
    principal ← account_of identity
    authorized capability principal
    still_active principal
    continue_with principal

  -- `identity`: only a token of the identity provider registers or opens a session.
  unfoldable pub refuse_session : Principal → Handler (Unit {0})
  refuse_session principal = elim (given principal.account_id) [
    | none ↦ continue_with tt
    | some id ↦ fail (failure authentication)
  ]

  unfoldable pub provider_identity : Handler Principal
  unfolding require_protocol_version refuse_session authorized
  provider_identity = do
    require_protocol_version
    principal ← step (step_of (options.principal request))
    refuse_session principal
    authorized sync_write principal
    continue_with principal
