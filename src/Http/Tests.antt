-- ===== src/Http/Tests.antt =====
-- Requests to the routes, and the theorems about them at such requests.
use appbase.Prelude.{◌≡◌, ◌↔◌, refl, true, false, none, some, [], ◌∷◌}
use appbase.Prelude.Int.{pos}
use appbase.Prelude.Text.{codes, trim, text_length}
use appbase.Action.{ok, plain}
use appbase.Json.{Json, null, str, arr, obj, cons, nil, fields}
use appbase.Database.{Database}
use appbase.AccountTable.{new_account, begun}
use appbase.Deletion.{AccountWorld}
use appbase.Accounts.{Principal}
use appbase.Cursor.{cursor_run}
use appbase.Sync.{push_run, change_of}
use appbase.Sync.Samples.{deps, calm, first_version, before, after}
use appbase.Http.{Request, PublicConfig, Options, HttpWorld, Response, page, failure}
use appbase.Http.Problems.{on_error}
use appbase.Http.Bodies.{Libraries}
use appbase.Http.Answers.{IsAnswer, IsUnexpected, on_error-500_iff}
use appbase.Http.SyncRoutes.{put_mutation_batch}
use appbase.Http.Endpoints.{write_batch, dispatch, handle}
use appbase.Http.Schema.{Shows, handle-IsAnswer}
use appbase.Http.Batches.{Outcome, put_batch-Outcome}

abbrev config : PublicConfig
config = record {
  protocol_versions = "2026-08-17" ∷ [];
  issuer = "https://id.example";
  client_id = "app";
  audience = "api";
  uses_resource_indicator = false;
  max_mutations_per_batch = 2;
  max_changes_per_page = 1;
  max_payload_bytes = 100;
}

abbrev ann : Principal
ann = record { sub = "ann"; scopes = []; account_id = none }

abbrev options : Options
options = record {
  public_config = config;
  principal = λ r. ok ann;
  authorize = none;
  sync_deps = deps;
  membership_snapshot = none;
  has_accounts = false;
  has_account_deletion = false;
  hash = λ s. s;
  legacy_v1 = false;
  problem_type_base = none;
}

abbrev libraries : Libraries
libraries = record { is_uuid = λ s. true; whole_number = λ s. some (pos 1); json_bytes = λ p. 20 }

abbrev accounts_world : AccountWorld
accounts_world = record {
  others = λ n db. db;
  now = λ n. 100;
  unixepoch = λ n. 100;
  random = λ n. "x";
  delete_product_data = λ id. ok tt;
  delete_billing_identity = λ id. ok tt;
}

abbrev world : HttpWorld
world = record {
  uuid = "u";
  mutations = λ n. calm;
  accounts = accounts_world;
  background = accounts_world;
}

abbrev json_note : Json
json_note = obj (
    fields (
      ("mutationId", str "m2")
      ∷ ("deviceId", str "tablet")
      ∷ ("collection", str "notes")
      ∷ ("recordId", str "n1")
      ∷ ("baseRevision", null)
      ∷ ("operation", str "put")
      ∷ ("payload", obj (fields (("title", str "b") ∷ [])))
      ∷ []))

abbrev request : Request
request = record {
  path = "/mutation-batches/b1";
  request_id = none;
  api_version = some "2026-08-17";
  authorization = none;
  content_type = some "Application/JSON; charset=utf-8";
  content_length = some "200";
  body_bytes = 200;
  body = some (obj (fields (("mutations", arr (cons json_note nil)) ∷ [])));
  query = ("pageSize", "1") ∷ [];
}

-- The batch is stored and answered.
writes : (handle options libraries world request (write_batch "b1") before).0.status ≡ 200
unfolding handle push_run cursor_run codes trim text_length
writes = refl

stores : (handle options libraries world request (write_batch "b1") before).1 ≡ after
unfolding handle push_run cursor_run codes trim text_length
stores = refl

-- A body that is longer than the limit is refused.
too_long :
    (handle options libraries world
      (record request { body_bytes = 70000 })
      (write_batch "b1")
      before).0.status
    ≡ 413
unfolding handle push_run cursor_run codes trim text_length
too_long = refl

put_batch-Outcome_example :
    Outcome options libraries world request "b1" before
      (put_mutation_batch options libraries world request "b1" before)
put_batch-Outcome_example = put_batch-Outcome options libraries world request "b1" before

handle-IsAnswer_example :
    IsAnswer (handle options libraries world request (write_batch "b1") before).0
    × Shows options libraries world request
        (dispatch options libraries world request (write_batch "b1") before).0
        (handle options libraries world request (write_batch "b1") before).0
handle-IsAnswer_example = handle-IsAnswer options libraries world request (write_batch "b1") before

on_error-500_iff_example :
    ((on_error options world request (failure (plain "x"))).status ≡ 500)
    ↔ IsUnexpected options world request (failure (plain "x"))
on_error-500_iff_example = on_error-500_iff options world request (failure (plain "x"))

abbrev first_page : Response
first_page = record {
  status = 200;
  body = page (record {
    items = change_of first_version first_version.payload ∷ [];
    page_size = 1;
    next_page_token = some (b'M' ∷ b'Q' ∷ []);
    checkpoint = b'M' ∷ b'Q' ∷ [];
  });
}

abbrev shut : Database
shut = record after { accounts = begun 100 (new_account "ann" "ann" 100) ∷ [] }

abbrev holder : Principal
holder = record ann { account_id = some "ann" }

abbrev with_accounts : Options
with_accounts = record options { principal = λ r. ok holder; has_accounts = true }
