-- ===== src/Protocol.antt =====
-- src/protocol.rs: the wire types.
use fing.Base.{ℕ, List, Bool, Option}
use fing.Base.Text.{Text}
use fing.Schema.{Schema}
use fing.Value.{Value}

pub data SystemCommand : Type 0 where
  create connect reset shutdown close_connection : SystemCommand
  quiet_mode show_databases test help : SystemCommand

pub data DbCommand : Type 0 where
  execute_sql register_query run_query_full run_query_partial convert_query : DbCommand
  show_tables show_queries generate import commit : DbCommand

pub data Command : Type 0 where
  system : SystemCommand → Command
  db : DbCommand → Command

pub record CommandWithArgs : Type 0 where
  pub command : Command
  pub args : List Text

-- `CommandWithArgs::system` and `CommandWithArgs::db`
unfoldable pub system_command : SystemCommand → List Text → CommandWithArgs
system_command c args = record { command = system c; args = args }

unfoldable pub db_command : DbCommand → List Text → CommandWithArgs
db_command c args = record { command = db c; args = args }

pub record ValueId : Type 0 where
  pub container_id : ℕ
  pub segment_id : Option ℕ
  pub page_id : Option ℕ
  pub slot_id : Option ℕ

pub record Tuple : Type 0 where
  pub tid : ℕ
  pub value_id : Option ValueId
  pub field_vals : List Value

pub record PagingInfo : Type 0 where
  pub current_page : ℕ
  pub total_pages : ℕ
  pub has_next_page : Bool
  pub page_size : ℕ

pub data QueryResult : Type 0 where
  message_only : Text → QueryResult
  select : (schema : Schema) → List Tuple → Option PagingInfo → QueryResult
  insert : (inserted : ℕ) → (table_name : Text) → QueryResult

pub data Response : Type 0 where
  ok : Response
  system_msg : Text → Response
  system_err : Text → Response
  query_result : QueryResult → Response
  query_execution_error : Text → Response
  shutdown : Bool → Response
  quiet_ok : Response
  quiet_err : Response
