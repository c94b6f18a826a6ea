-- ===== src/Http/Schema/Sync.antt =====
-- So do the routes of mutations, changes and memberships.
use appbase.Prelude.{refl, Option, String, any, lookup, List, length, ltb}
use appbase.Accounts.{Principal, account_owner}
use appbase.Domain.Sync.{SyncMutation}
use appbase.Domain.Membership.{MembershipSnapshot}
use appbase.Database.{Db}
use appbase.Sync.{push_mutations}
use appbase.Pull.{pull_changes}
use appbase.Http.{
  Request, legacy_batch, legacy_page, membership, legacy_membership, batch as batch_body, sync_read,
  sync_write, membership_read, no_errors, Response, call, Options, HttpWorld,
}
use appbase.Http.Problems.{problem, validation_problem}
use appbase.Http.Bodies.{
  Libraries, identifier, batch, is_oversized, page_size, read_json, max_batch_bytes,
}
use appbase.Http.Guards.{
  respond, or_return, unless, step, require_protocol_version, authorized_principal,
}
use appbase.Http.SyncRoutes.{
  admitted_batch, put_mutation_batch, pulled, get_changes, post_legacy_mutations,
  get_legacy_changes,
}
use appbase.Http.Endpoints.{get_membership, get_legacy_membership}
use appbase.Http.Answers.{
  IsAnswer, Answers, Any, Answers-bind, Answers-value, Answers-call, Answers-or_return,
  Answers-unless, oversized-IsAnswer, legacy_batch-IsAnswer, validation-IsAnswer,
}
use appbase.Http.Schema.Checks.{version-Answers, principal-Answers, read_json-Answers}

module _ (options : Options) (libraries : Libraries) (world : HttpWorld) (request : Request) where
  pub admitted-Answers :
      (parsed : Option (List SyncMutation)) (r : Response)
      → IsAnswer r
      → Answers Any (admitted_batch options libraries world request parsed r)
  unfolding admitted_batch
  admitted-Answers parsed r h =
      Answers-bind (or_return parsed (validation_problem options world request)) _
        (Answers-or_return parsed _ (validation-IsAnswer options world request))
        λ ms.
          Answers-bind (unless (ltb options.public_config.max_mutations_per_batch (length ms)) r) _
            (Answers-unless _ r h) λ _. Answers-value ms tt

  pub put_batch-Answers :
      (id : String) → Answers IsAnswer (put_mutation_batch options libraries world request id)
  unfolding put_mutation_batch
  put_batch-Answers id =
      Answers-bind (require_protocol_version options request) _ (version-Answers options request)
        λ _.
          Answers-bind (authorized_principal options request sync_write) _
            (principal-Answers options request sync_write)
            λ p.
              Answers-bind (or_return (identifier id) (validation_problem options world request)) _
                (Answers-or_return (identifier id) _ (validation-IsAnswer options world request))
                λ name.
                  Answers-bind (step (read_json request (max_batch_bytes options.public_config))) _
                    (read_json-Answers options libraries world request _)
                    λ body.
                      Answers-bind
                        (admitted_batch options libraries world request (batch libraries body)
                          (validation_problem options world request))
                        _
                        (admitted-Answers (batch libraries body) _
                          (validation-IsAnswer options world request))
                        λ ms.
                          Answers-bind
                            (unless
                              (any (is_oversized libraries options.public_config.max_payload_bytes)
                                ms)
                              (problem options world request 413 "PAYLOAD_TOO_LARGE" no_errors))
                            _ (Answers-unless _ _ (oversized-IsAnswer options world request))
                            λ _.
                              Answers-bind
                                (call (
                                  push_mutations options.sync_deps (account_owner p) world.mutations
                                    0 ms))
                                _
                                (Answers-call (
                                  push_mutations options.sync_deps (account_owner p) world.mutations
                                    0 ms))
                                λ results.
                                  Answers-value (respond 200 (batch_body name results)) refl

  pub pulled-Answers :
      (p : Principal) (a b : String) → Answers Any (pulled options libraries world request p a b)
  unfolding pulled
  pulled-Answers p a b =
      Answers-bind
        (or_return
          (page_size libraries options.public_config.max_changes_per_page (lookup a request.query))
          (validation_problem options world request))
        _ (Answers-or_return _ _ (validation-IsAnswer options world request))
        λ size.
          Answers-bind (call (pull_changes options.sync_deps (account_owner p) _ size)) _
            (Answers-call (pull_changes options.sync_deps (account_owner p) _ size))
            λ result. Answers-value (size, result) tt

  pub get_changes-Answers : Answers IsAnswer (get_changes options libraries world request)
  unfolding get_changes
  get_changes-Answers =
      Answers-bind (require_protocol_version options request) _ (version-Answers options request)
        λ _.
          Answers-bind (authorized_principal options request sync_read) _
            (principal-Answers options request sync_read)
            λ p.
              Answers-bind (pulled options libraries world request p "pageSize" "pageToken") _
                (pulled-Answers p "pageSize" "pageToken") λ found. Answers-value _ refl

  pub legacy_mutations-Answers :
      Answers IsAnswer (post_legacy_mutations options libraries world request)
  unfolding post_legacy_mutations
  legacy_mutations-Answers =
      Answers-bind (authorized_principal options request sync_write) _
        (principal-Answers options request sync_write)
        λ p.
          Answers-bind (step (read_json request (max_batch_bytes options.public_config))) _
            (read_json-Answers options libraries world request _)
            λ body.
              Answers-bind
                (admitted_batch options libraries world request (batch libraries body)
                  (problem options world request 422 "VALIDATION_ERROR" no_errors))
                _
                (admitted-Answers (batch libraries body) _
                  (legacy_batch-IsAnswer options world request))
                λ ms.
                  Answers-bind
                    (call (push_mutations options.sync_deps (account_owner p) world.mutations 0 ms))
                    _
                    (Answers-call
                      (push_mutations options.sync_deps (account_owner p) world.mutations 0 ms))
                    λ results. Answers-value (respond 200 (legacy_batch results)) refl

  pub legacy_changes-Answers : Answers IsAnswer (get_legacy_changes options libraries world request)
  unfolding get_legacy_changes
  legacy_changes-Answers =
      Answers-bind (authorized_principal options request sync_read) _
        (principal-Answers options request sync_read)
        λ p.
          Answers-bind (pulled options libraries world request p "limit" "cursor") _
            (pulled-Answers p "limit" "cursor")
            λ found. Answers-value (respond 200 (legacy_page found.1)) refl

  pub membership-Answers :
      (snapshot : String → Db MembershipSnapshot)
      → Answers IsAnswer (get_membership options libraries world request snapshot)
  unfolding get_membership
  membership-Answers snapshot =
      Answers-bind (require_protocol_version options request) _ (version-Answers options request)
        λ _.
          Answers-bind (authorized_principal options request membership_read) _
            (principal-Answers options request membership_read)
            λ p.
              Answers-bind (call (snapshot (account_owner p))) _
                (Answers-call (snapshot (account_owner p)))
                λ found. Answers-value (respond 200 (membership found)) refl

  pub legacy_membership-Answers :
      (snapshot : String → Db MembershipSnapshot)
      → Answers IsAnswer (get_legacy_membership options libraries world request snapshot)
  unfolding get_legacy_membership
  legacy_membership-Answers snapshot =
      Answers-bind (authorized_principal options request membership_read) _
        (principal-Answers options request membership_read)
        λ p.
          Answers-bind (call (snapshot (account_owner p))) _
            (Answers-call (snapshot (account_owner p)))
            λ found. Answers-value (respond 200 (legacy_membership found)) refl
