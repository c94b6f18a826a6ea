-- ===== src/Http/Closed.antt =====
-- A closed account is refused by every route of data.
use appbase.Prelude.{ℕ, String, ◌≡◌, ◌⊎◌}
use appbase.Action.{account_deleted}
use appbase.Database.{Database}
use appbase.Accounts.{Principal}
use appbase.Http.{
  Request, Response, Step, next, stop, thrown, unsupported_version, failure, Options, HttpWorld,
}
use appbase.Http.Bodies.{Libraries}
use appbase.Http.Endpoints.{
  Endpoint, read_configuration, read_account, register_account, open_session, close_account,
  close_session, read_changes, read_membership, write_batch, legacy_configuration_v1,
  legacy_mutations_v1, legacy_changes_v1, legacy_membership_v1,
}

-- The routes that read or write the data of an account.
abbrev pub OfData : Endpoint → Type 0
OfData (write_batch id) = Unit
OfData read_changes = Unit
OfData read_membership = Unit
OfData legacy_mutations_v1 = Unit
OfData legacy_changes_v1 = Unit
OfData legacy_membership_v1 = Unit
OfData read_configuration = ⊥
OfData read_account = ⊥
OfData register_account = ⊥
OfData open_session = ⊥
OfData close_account = ⊥
OfData close_session = ⊥
OfData legacy_configuration_v1 = ⊥

module _ (options : Options) (libraries : Libraries) (world : HttpWorld) (request : Request) (k : ℕ)
    (principal : Principal) (id : String) (db : Database) where
  abbrev IsRefusal : Step Response → Type 0
  IsRefusal (next r) = ⊥
  IsRefusal (stop r) = r.status ≡ 404
  IsRefusal (thrown t) =
      (t ≡ failure account_deleted)
      ⊎ (t ≡ unsupported_version options.public_config.protocol_versions)

  abbrev Refused : Step Response × Database → Type 0
  Refused out = (out.1 ≡ db) × IsRefusal out.0
