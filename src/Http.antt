-- ===== src/Http.antt =====
-- shard/server/http_handler.go and messaging/client.go: the HTTP endpoints of a shard, and the client
-- that calls them. A request and an answer are what the handlers and the client read of them; the
-- decoding of JSON, of numbers and of queries is that of Go's library and a parameter.
pub mod Handlers
pub mod Serve
pub mod Guards
pub mod Client
pub mod Transport
pub mod Creation
mod Tests
use software_course_project.Prelude.{ℕ, Bool, true, false, Option, String, List}
use software_course_project.Prelude.Int.{ℤ}
use software_course_project.Dict.{Dict}
use software_course_project.Model.{
  Transaction, TransactionResult, OperationType, ShardMetrics, TxnSummary,
}
use software_course_project.Wal.{WalError}
use software_course_project.Server.State.{ShardServer, ServerError}
use software_course_project.Server.Metrics.{WalPage}

pub data Method : Type 0 where
  get post other_method : Method

abbrev pub is_post : Method → Bool
is_post post = true
is_post _ = false

abbrev pub is_get : Method → Bool
is_get get = true
is_get _ = false

-- `query` gives a parameter's value, and the empty text for one that is not there.
pub record Request : Type 0 where
  pub method : Method
  pub body : String
  pub query : String → String

-- The body of PREPARE, COMMIT and ABORT.
pub record PhaseRequest : Type 0 where
  pub txn_id : String
  pub op_type : OperationType
  pub account_id : String
  pub amount : ℤ

-- The decoders, each with none for a text that it refuses.
pub record Decoders : Type 0 where
  pub phase : String → Option PhaseRequest
  pub transaction : String → Option Transaction
  pub partition_id : String → Option ℤ
  pub partition : String → Option (ℤ × Dict String ℤ)
  pub account : String → Option (String × ℤ)
  pub atoi : String → Option ℤ

pub data Failure : Type 0 where
  method_not_allowed invalid_body missing_account account_id_required not_found : Failure
  server_failed : ServerError → Failure
  wal_failed : WalError → Failure

-- What an answer says.
pub data Body : Type 0 where
  failure : Failure → Body
  status : String → Body
  account_status : String → String → Body
  result : TransactionResult → Body
  balance_of : String → ℤ → Bool → Body
  health promoted : String → Body
  metrics prometheus : ShardMetrics → Body
  balances : Dict String ℤ → Body
  log_index : ℕ → Body
  wal_page : String → WalPage → Body
  transactions : String → List TxnSummary → ℕ → Body

pub record Response : Type 0 where
  pub code : ℕ
  pub says : Body

-- The answer of a handler, with the server after it.
abbrev pub Handled : Type 0
Handled = Response × ShardServer

abbrev pub respond : ℕ → Body → Response
respond code says = record { code = code; says = says }

abbrev pub fail_with : ℕ → Failure → Response
fail_with code why = respond code (failure why)
