-- ===== src/Http/Schema.antt =====
-- Every route answers with the status that belongs to what it carries.
pub mod Checks
pub mod Accounts
pub mod Sync
use appbase.Prelude.{
  ◌≡◌, refl, inl, inr, ◌≤◌, arith, Bool, true, false, Option, none, some, String, ℕ, any, lookup,
  List, length, ltb, ◌==◌, if◌then◌else◌,
}
use appbase.Action.{Failure, Result, ok, err, authentication, authorization}
use appbase.Accounts.{
  Principal, given, status, open_account, require_account, request_deletion, account_owner,
}
use appbase.Deletion.{require_active, delete}
use appbase.Domain.Sync.{SyncMutation}
use appbase.Domain.Membership.{MembershipSnapshot}
use appbase.Database.{Database, Db}
use appbase.Json.{Json}
use appbase.Sync.{push_mutations}
use appbase.Pull.{pull_changes}
use appbase.Http.{
  Request, legacy_batch, legacy_page, membership, legacy_membership, return_now, deletion, nothing,
  plain_text, account, opened, batch as batch_body, Capability, sync_read, sync_write,
  membership_read, no_errors, Response, Step, next, stop, thrown, Handler, ◌>>=◌, continue_with,
  fail, call, step_of, Options, HttpWorld, zod_error, unsupported_version, failure,
  payload_too_large,
}
use appbase.Prelude.Text.{codes}
use appbase.Cursor.{parse_int}
use appbase.Prelude.{get_or, not}
use appbase.Http.Problems.{problem, validation_problem}
use appbase.Http.Bodies.{
  Libraries, SessionInput, session_input, identifier, batch, is_oversized, page_size, read_json,
  max_batch_bytes, is_json, declares_more,
}
use appbase.Http.Guards.{
  respond, or_return, unless, step, require_protocol_version, authorized, account_of, still_active,
  authorized_principal, refuse_session,
}
use appbase.Http.AccountRoutes.{
  get_account, valid_session_input, post_session, in_background, delete_account, delete_session,
  delete_owner,
}
use appbase.Http.SyncRoutes.{
  admitted_batch, put_mutation_batch, pulled, get_changes, post_legacy_mutations,
  get_legacy_changes,
}
use appbase.Http.Endpoints.{
  client_configuration, get_membership, get_legacy_config, get_legacy_membership, Endpoint,
  read_configuration, read_account, register_account, open_session, close_account, close_session,
  write_batch, read_changes, read_membership, legacy_configuration_v1, legacy_mutations_v1,
  legacy_changes_v1, legacy_membership_v1, dispatch, only_if, with_membership, close_route, handle,
  answered,
}
use appbase.Http.Answers.{
  IsAnswer, Ends, Answers, Any, Answers-bind, Answers-value, Answers-fail, Answers-call,
  Answers-step_of, Answers-or_return, Answers-branch, Answers-unless, problem-IsAnswer,
  validation-IsAnswer, on_error-IsAnswer, Reports, on_error-Reports,
}
use appbase.Http.Schema.Accounts.{
  get_account-Answers, post_session-Answers, delete_account-Answers, delete_session-Answers,
  delete_owner-Answers,
}
use appbase.Http.Schema.Sync.{
  put_batch-Answers, get_changes-Answers, legacy_mutations-Answers, legacy_changes-Answers,
  membership-Answers, legacy_membership-Answers,
}

module _ (options : Options) (libraries : Libraries) (world : HttpWorld) (request : Request) where
  only_if-Answers :
      (b : Bool) (h : Handler Response)
      → Answers IsAnswer h
      → Answers IsAnswer (only_if options libraries world request b h)
  unfolding only_if
  only_if-Answers true h k = k
  only_if-Answers false h k = record { ends = λ db. (refl, refl) }

  with_membership-Answers :
      (f : (String → Db MembershipSnapshot) → Handler Response)
      → ((snapshot : String → Db MembershipSnapshot) → Answers IsAnswer (f snapshot))
      → Answers IsAnswer (with_membership options libraries world request f)
  unfolding with_membership
  with_membership-Answers f each = go options.membership_snapshot
    where
      go :
          (o : Option (String → Db MembershipSnapshot))
          → Answers IsAnswer (elim o [
            | none ↦ return_now (respond 404 (plain_text "404 Not Found"))
            | some snapshot ↦ f snapshot
          ])
      go none = record { ends = λ db. (refl, refl) }
      go (some snapshot) = each snapshot

  close_route-Answers : Answers IsAnswer (close_route options libraries world request)
  unfolding close_route
  close_route-Answers =
      Answers-branch options.has_accounts (delete_account-Answers options libraries world request) (
        Answers-branch options.has_account_deletion
          (delete_owner-Answers options libraries world request)
          (record { ends = λ db. (refl, refl) }))

  dispatch-Answers : (e : Endpoint) → Answers IsAnswer (dispatch options libraries world request e)
  unfolding dispatch client_configuration get_legacy_config
  dispatch-Answers read_configuration = record { ends = λ db. refl }
  dispatch-Answers read_account =
      only_if-Answers options.has_accounts _ (get_account-Answers options libraries world request)
  dispatch-Answers register_account =
      only_if-Answers options.has_accounts _
        ((post_session-Answers options libraries world request) true)
  dispatch-Answers open_session =
      only_if-Answers options.has_accounts _
        ((post_session-Answers options libraries world request) false)
  dispatch-Answers close_account = close_route-Answers
  dispatch-Answers close_session =
      only_if-Answers options.has_accounts _
        (delete_session-Answers options libraries world request)
  dispatch-Answers (write_batch id) = (put_batch-Answers options libraries world request) id
  dispatch-Answers read_changes = (get_changes-Answers options libraries world request)
  dispatch-Answers read_membership =
      with_membership-Answers _ (membership-Answers options libraries world request)
  dispatch-Answers legacy_configuration_v1 =
      only_if-Answers options.legacy_v1 _ (record { ends = λ db. refl })
  dispatch-Answers legacy_mutations_v1 =
      only_if-Answers options.legacy_v1 _ (legacy_mutations-Answers options libraries world request)
  dispatch-Answers legacy_changes_v1 =
      only_if-Answers options.legacy_v1 _ (legacy_changes-Answers options libraries world request)
  dispatch-Answers legacy_membership_v1 =
      only_if-Answers options.legacy_v1 _
        (with_membership-Answers _ (legacy_membership-Answers options libraries world request))

  answered-IsAnswer :
      (s : Step Response) → Ends IsAnswer s → IsAnswer (answered options libraries world request s)
  unfolding answered
  answered-IsAnswer (next r) h = h
  answered-IsAnswer (stop r) h = h
  answered-IsAnswer (thrown t) h = on_error-IsAnswer options world request t

  -- How the end of a handler shows in the response: what it returns is sent as it is, and an error
  -- is reported.
  abbrev pub Shows : Step Response → Response → Type 0
  Shows (next r) sent = sent ≡ r
  Shows (stop r) sent = sent ≡ r
  Shows (thrown t) sent = Reports t sent

  answered-Shows : (s : Step Response) → Shows s (answered options libraries world request s)
  unfolding answered
  answered-Shows (next r) = refl
  answered-Shows (stop r) = refl
  answered-Shows (thrown t) = on_error-Reports options world request t

  -- Every request, whatever it asks for and however its handling ends, is answered with the status
  -- that belongs to what the response carries: 200, 201 or 202 with the kind of value that has it,
  -- 204 with nothing, 404 with the text of a path that has no route, and an error status with a
  -- problem that names this status and has one of the server's codes, with the status and title of
  -- the code. What a handler returns is sent as it is, and what it throws is reported with the
  -- status and code of that error.
  pub handle-IsAnswer :
      (e : Endpoint) (db : Database)
      → IsAnswer (handle options libraries world request e db).0
        × Shows
            (dispatch options libraries world request e db).0
            (handle options libraries world request e db).0
  unfolding handle
  handle-IsAnswer e db = (answered-IsAnswer _ ((dispatch-Answers e).ends db), answered-Shows _)
