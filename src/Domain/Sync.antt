-- ===== src/Domain/Sync.antt =====
-- packages/server/src/domain/sync.ts: mutations, stored versions and what a client receives.
use appbase.Prelude.{ℕ, String, Bool, Option, List}
use appbase.Json.{JsonObject}

pub data Operation : Type 0 where
  put delete : Operation

pub record SyncMutation : Type 0 where
  pub mutation_id : String
  pub device_id : String
  pub collection : String
  pub record_id : String
  pub base_revision : Option String
  pub operation : Operation
  pub payload : Option JsonObject

pub record StoredVersion : Type 0 where
  pub sequence : ℕ
  pub owner_sub : String
  pub collection : String
  pub record_id : String
  pub device_id : String
  pub mutation_id : String
  pub revision : String
  pub base_revision : Option String
  pub payload : Option JsonObject
  pub deleted : Bool
  pub created_at : ℕ

pub record SyncChange : Type 0 where
  pub sequence : ℕ
  pub collection : String
  pub record_id : String
  pub revision : String
  pub payload : Option JsonObject
  pub deleted : Bool
  pub created_at : ℕ

pub data Status : Type 0 where
  applied merged replayed : Status

pub record MutationResult : Type 0 where
  pub mutation_id : String
  pub status : Status
  pub change : SyncChange

pub record PullResult : Type 0 where
  pub changes : List SyncChange
  -- the codes of its characters
  pub cursor : List ℕ
  pub has_more : Bool

pub record MergeInput : Type 0 where
  pub ancestor : Option JsonObject
  pub server : Option JsonObject
  pub client : Option JsonObject
