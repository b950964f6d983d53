-- ===== src/Model.antt =====
-- shared/constants/states.go and shared/models: the types that the components exchange. Go's string
-- enumerations are data types; an operation type can be any text, since it is decoded from JSON.
-- Times are left out: no operation that is modelled reads one.
use software_course_project.Prelude.{ℕ, Bool, String, List}
use software_course_project.Prelude.Int.{ℤ}
use software_course_project.Ledger.{LedgerError}

pub data TransactionState : Type 0 where
  pending prepared committed aborted : TransactionState

pub data OperationType : Type 0 where
  op_debit op_credit op_prepared op_committed op_aborted op_create_account op_checkpoint :
      OperationType
  op_other : String → OperationType

pub data Role : Type 0 where
  primary follower : Role
  other_role : String → Role

pub record Transaction : Type 0 where
  pub txn_id : String
  pub source : String
  pub destination : String
  pub amount : ℤ
  pub state : TransactionState

-- The texts of `Message`, with what they show.
pub data Message : Type 0 where
  success already_processed committed_on_all_shards shards_rejected : Message
  rejected : LedgerError → Message
  apply_failed : LedgerError → Message

pub record TransactionResult : Type 0 where
  pub txn_id : String
  pub state : TransactionState
  pub message : Message

pub record WalEntry : Type 0 where
  pub log_id : ℕ
  pub txn_id : String
  pub op_type : OperationType
  pub account_id : String
  pub amount : ℤ
  pub committed : Bool
  pub checkpoint_log_id : ℕ

pub record TxnSummary : Type 0 where
  pub txn_id : String
  pub source : String
  pub destination : String
  pub amount : ℤ
  pub type : String
  pub state : TransactionState
  pub shard_id : String
  pub shards : List String

-- The numbers that are times or quotients of times, and those that the code sets to constants, are
-- left out.
pub record ShardMetrics : Type 0 where
  pub shard_id : String
  pub role : Role
  pub queue_depth : ℕ
  pub wal_index : ℕ
  pub follower_count : ℤ
  pub account_count : ℕ
  pub total_balance : ℤ
  pub committed_count : ℤ
  pub aborted_count : ℤ
  pub prepared_count : ℤ
