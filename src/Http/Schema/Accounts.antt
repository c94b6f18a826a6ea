-- ===== src/Http/Schema/Accounts.antt =====
-- So do the routes of accounts.
use appbase.Prelude.{refl, Bool, Option, none, some}
use appbase.Accounts.{status, open_account, request_deletion, account_owner}
use appbase.Deletion.{delete}
use appbase.Http.{
  Request, deletion, nothing, account, opened, sync_write, call, step_of, Options, HttpWorld,
  zod_error,
}
use appbase.Http.Bodies.{Libraries, SessionInput, session_input, read_json}
use appbase.Http.Guards.{respond, step, require_protocol_version, authorized, provider_identity}
use appbase.Http.AccountRoutes.{
  get_account, valid_session_input, post_session, in_background, delete_account, delete_session,
  delete_owner,
}
use appbase.Http.Answers.{
  IsAnswer, Answers, Any, Answers-bind, Answers-value, Answers-fail, Answers-call, Answers-step_of,
}
use appbase.Http.Schema.Checks.{
  version-Answers, authorized-Answers, provider_identity-Answers, read_json-Answers,
}

module _ (options : Options) (libraries : Libraries) (world : HttpWorld) (request : Request) where
  pub get_account-Answers : Answers IsAnswer (get_account options libraries world request)
  unfolding get_account
  get_account-Answers =
      Answers-bind (provider_identity options request) _ (provider_identity-Answers options request)
        λ p.
          Answers-bind (call (status p)) _ (Answers-call (status p))
            λ found. Answers-value (respond 200 (account found)) refl

  pub valid-Answers :
      (o : Option SessionInput)
      → Answers Any (valid_session_input options libraries world request o)
  unfolding valid_session_input
  valid-Answers none = Answers-fail zod_error
  valid-Answers (some input) = Answers-value input tt

  pub post_session-Answers :
      (register : Bool) → Answers IsAnswer (post_session options libraries world request register)
  unfolding post_session
  post_session-Answers register =
      Answers-bind (provider_identity options request) _ (provider_identity-Answers options request)
        λ p.
          Answers-bind (step (read_json request 4096)) _
            (read_json-Answers options libraries world request 4096)
            λ body.
              Answers-bind
                (valid_session_input options libraries world request (session_input body)) _
                (valid-Answers (session_input body))
                λ input.
                  Answers-bind (call (open_account options.hash world.accounts p _)) _
                    (Answers-call (open_account options.hash world.accounts p _))
                    λ result. Answers-value (respond 201 (opened result)) refl

  pub delete_account-Answers : Answers IsAnswer (delete_account options libraries world request)
  unfolding delete_account
  delete_account-Answers =
      Answers-bind (require_protocol_version options request) _ (version-Answers options request)
        λ _.
          Answers-bind (step (step_of (options.principal request))) _
            (Answers-step_of (options.principal request))
            λ p.
              Answers-bind (authorized options request sync_write p) _
                (authorized-Answers options request sync_write p)
                λ _.
                  Answers-bind (call (request_deletion world.accounts p)) _
                    (Answers-call (request_deletion world.accounts p))
                    λ id.
                      Answers-bind (in_background world id) _ (record { ends = λ db. tt })
                        λ _. Answers-value (respond 202 (deletion id)) refl

  pub delete_session-Answers : Answers IsAnswer (delete_session options libraries world request)
  unfolding delete_session
  delete_session-Answers =
      Answers-bind (require_protocol_version options request) _ (version-Answers options request)
        λ _. record { ends = λ db. refl }

  pub delete_owner-Answers : Answers IsAnswer (delete_owner options libraries world request)
  unfolding delete_owner
  delete_owner-Answers =
      Answers-bind (require_protocol_version options request) _ (version-Answers options request)
        λ _.
          Answers-bind (step (step_of (options.principal request))) _
            (Answers-step_of (options.principal request))
            λ p.
              Answers-bind (authorized options request sync_write p) _
                (authorized-Answers options request sync_write p)
                λ _.
                  Answers-bind (call (delete world.accounts (account_owner p))) _
                    (Answers-call (delete world.accounts (account_owner p)))
                    λ _. Answers-value (respond 204 nothing) refl
