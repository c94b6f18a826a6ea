-- ===== src/Http/Schema/Checks.antt =====
-- The checks before a route answer as they should.
use appbase.Prelude.{
  Bool, true, false, Option, none, some, String, ℕ, any, ltb, ◌==◌, if◌then◌else◌,
}
use appbase.Action.{authentication, authorization}
use appbase.Accounts.{Principal, given, require_account, account_owner}
use appbase.Deletion.{require_active}
use appbase.Http.{
  Request, Capability, sync_write, next, thrown, continue_with, fail, step_of, Options, HttpWorld,
  unsupported_version, failure, payload_too_large,
}
use appbase.Prelude.Text.{codes}
use appbase.Cursor.{parse_int}
use appbase.Prelude.{get_or, not}
use appbase.Http.Bodies.{Libraries, read_json, is_json, declares_more}
use appbase.Http.Guards.{
  step, require_protocol_version, authorized, account_of, still_active, authorized_principal,
  refuse_session, provider_identity,
}
use appbase.Http.Answers.{
  Ends, Answers, Any, Answers-bind, Answers-value, Answers-fail, Answers-call, Answers-step_of,
  Answers-branch,
}

module _ (options : Options) (request : Request) where
  pub version-Answers : Answers Any (require_protocol_version options request)
  unfolding require_protocol_version
  version-Answers = record { ends = λ db. go request.api_version }
    where
      check :
          (b : Bool)
          → Ends Any (
              if b
              then next tt
              else thrown (unsupported_version options.public_config.protocol_versions))
      check true = tt
      check false = tt

      go :
          (o : Option String)
          → Ends Any (elim o [
            | none ↦ thrown (unsupported_version options.public_config.protocol_versions)
            | some version ↦
                if any (λ v. v == version) options.public_config.protocol_versions
                then next tt
                else thrown (unsupported_version options.public_config.protocol_versions)
          ])
      go none = tt
      go (some version) = check (any (λ v. v == version) options.public_config.protocol_versions)

  pub authorized-Answers :
      (c : Capability) (p : Principal) → Answers Any (authorized options request c p)
  unfolding authorized
  authorized-Answers c p = record { ends = λ db. go options.authorize }
    where
      check : (b : Bool) → Ends Any (if b then next tt else thrown (failure authorization))
      check true = tt
      check false = tt

      go :
          (o : Option (Principal → Capability → Bool))
          → Ends Any (elim o [
            | none ↦ next tt
            | some allows ↦ if allows p c then next tt else thrown (failure authorization)
          ])
      go none = tt
      go (some allows) = check (allows p c)

  pub principal-Answers : (c : Capability) → Answers Any (authorized_principal options request c)
  unfolding authorized_principal account_of still_active
  principal-Answers c =
      Answers-bind (step (step_of (options.principal request))) _
        (Answers-step_of (options.principal request))
        λ id.
          Answers-bind (account_of options request id) _
            (Answers-branch options.has_accounts (Answers-call (require_account id))
              (Answers-value id tt))
            λ p. Answers-bind (authorized options request c p) _ (authorized-Answers c p) λ _.
              Answers-bind (still_active options request p) _
                (Answers-branch options.has_account_deletion
                  (Answers-call (require_active (account_owner p))) (Answers-value tt tt))
                λ _. Answers-value p tt

  pub refuse-Answers : (p : Principal) → Answers Any (refuse_session options request p)
  unfolding refuse_session
  refuse-Answers p = go (given p.account_id)
    where
      go :
          (o : Option String)
          → Answers Any
              (elim o [ none ↦ continue_with tt | some id ↦ fail (failure authentication) ])
      go none = Answers-value tt tt
      go (some id) = Answers-fail (failure authentication)

  pub provider_identity-Answers : Answers Any (provider_identity options request)
  unfolding provider_identity
  provider_identity-Answers =
      Answers-bind (require_protocol_version options request) _ version-Answers λ _.
        Answers-bind (step (step_of (options.principal request))) _
          (Answers-step_of (options.principal request))
          λ p. Answers-bind (refuse_session options request p) _ (refuse-Answers p) λ _.
            Answers-bind (authorized options request sync_write p) _
              (authorized-Answers sync_write p) λ _. Answers-value p tt

module _ (options : Options) (libraries : Libraries) (world : HttpWorld) (request : Request) where
  pub read_json-Answers : (limit : ℕ) → Answers Any (step (read_json request limit))
  unfolding read_json
  read_json-Answers limit = record {
    ends = λ db.
        go (is_json request)
          (declares_more limit (parse_int (codes (get_or request.content_length "0"))))
          (ltb limit request.body_bytes);
  }
    where
      go :
          (a b c : Bool)
          → Ends Any (
              if not a
              then next none
              else if b
              then thrown payload_too_large
              else if c
              then thrown payload_too_large
              else next request.body)
      go false b c = tt
      go true true c = tt
      go true false true = tt
      go true false false = tt
