-- ===== src/Store.antt =====
-- coordinator/internal/store: the usage records, and the file that keeps them where no database
-- is configured.
pub mod Jsonl
pub mod Lines
pub mod Once
pub mod Migrations
mod Tests
use gridlink.Prelude.{ℕ, String, Bool, is_empty, if◌then◌else◌, Time, Result, ok, err, List}

pub record UsageRecord : Type 0 where
  pub request_id : String
  pub timestamp : Time
  pub served_model_name : String
  pub node_id : String
  pub deployment_id : String
  pub api_key_id : String
  pub prompt_tokens : ℕ
  pub completion_tokens : ℕ

pub record Totals : Type 0 where
  pub key : String
  pub requests : ℕ
  pub prompt_tokens : ℕ
  pub completion_tokens : ℕ

pub record Summary : Type 0 where
  pub from : Time
  pub to : Time
  pub total : Totals
  pub by_node : List Totals
  pub by_api_key : List Totals

-- `ErrInvalidRecord`, the errors that wrap the file system's, and that of a sink that cannot
-- aggregate.
pub data StoreError : Type 0 where
  invalid_record open_failed append_failed not_supported query_failed : StoreError

unfoldable pub validate : UsageRecord → Result StoreError (Unit {0})
validate r =
    if is_empty r.request_id
    then err invalid_record
    else if is_empty r.node_id
    then err invalid_record
    else ok tt
