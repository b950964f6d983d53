-- ===== src/Server/State.antt =====
-- The fields of `ShardServer` and its helpers on them. The locks are left out: a handler holds its
-- transaction's lock throughout, and is one step here.
use software_course_project.Prelude.{
  ℕ, false, Option, none, some, List, [], ◌∷◌, ◌++◌, String, string_eq, Result, ok, if◌then◌else◌,
  length, leb, drop,
}
use software_course_project.Prelude.Int.{ℤ, pos}
use software_course_project.Int64.{add64}
use software_course_project.Dict.{Dict, lookup, insert, erase}
use software_course_project.Ledger.{Ledger, LedgerError}
use software_course_project.Hash.{PartitionMapper}
use software_course_project.Partition.{Manager, PartitionError}
use software_course_project.Model.{TransactionState, Role, TxnSummary, WalEntry, OperationType}
use software_course_project.Wal.{Wal, WalError, mark_aborted}
use software_course_project.Replication.{PrimaryReplicator, ReplicationError, replicate_entry}
use software_course_project.Storage.{JsonStore, StorageError}

pub record ShardServer : Type 0 where
  pub shard_id : String
  pub wal_log : Wal
  pub ledger : Ledger
  pub store : Option JsonStore
  pub replicator : Option PrimaryReplicator
  pub part_mgr : Option Manager
  pub mapper : Option PartitionMapper
  pub role : Role
  pub seen_txns : Dict String TransactionState
  pub committed_count : ℤ
  pub aborted_count : ℤ
  pub prepared_count : ℤ
  pub recent_txns : List TxnSummary
  pub follower_count : ℤ

pub data ServerError : Type 0 where
  wal_append_failed wal_commit_failed wal_abort_failed wal_prepare_failed : WalError → ServerError
  wal_open_failed recovery_failed checkpoint_wal_failed : WalError → ServerError
  replication_failed : ReplicationError → ServerError
  prepare_rejected prepare_reserve_failed ledger_failed : LedgerError → ServerError
  account_not_found account_exists : String → ServerError
  already_in_state : String → TransactionState → ServerError
  cannot_commit_aborted : String → ServerError
  checkpoint_storage_failed : StorageError → ServerError
  partition_failed : PartitionError → ServerError
  no_storage no_partition_manager : ServerError

-- What a method that may fail returns, with the server after it.
abbrev pub Reply : Type 0 → Type 0
Reply A = Result ServerError A × ShardServer

unfoldable pub set_txn_state : String → TransactionState → ShardServer → ShardServer
set_txn_state txn_id state s = record s { seen_txns = insert txn_id state s.seen_txns }

unfoldable pub delete_txn_state : String → ShardServer → ShardServer
delete_txn_state txn_id s = record s { seen_txns = erase txn_id s.seen_txns }

unfoldable pub get_txn_state : String → ShardServer → Option TransactionState
get_txn_state txn_id s = lookup txn_id s.seen_txns

unfoldable pub count_committed : ShardServer → ShardServer
count_committed s = record s { committed_count = add64 s.committed_count (pos 1) }

unfoldable pub count_aborted : ShardServer → ShardServer
count_aborted s = record s { aborted_count = add64 s.aborted_count (pos 1) }

unfoldable pub count_prepared : ShardServer → ShardServer
count_prepared s = record s { prepared_count = add64 s.prepared_count (pos 1) }

-- The history keeps the last 500 transactions.
unfoldable pub add_recent_txn : TxnSummary → ShardServer → ShardServer
add_recent_txn t s =
    let kept = if leb 500 (length s.recent_txns) then drop 1 s.recent_txns else s.recent_txns in
    record s { recent_txns = kept ++ t ∷ [] }

-- The entry that `ExecuteSingleShard` and `CommitTransaction` send to the followers.
abbrev pub replicated_entry : ℕ → String → OperationType → String → ℤ → WalEntry
replicated_entry log_id txn_id op_type account_id amount = record {
  log_id = log_id;
  txn_id = txn_id;
  op_type = op_type;
  account_id = account_id;
  amount = amount;
  committed = false;
  checkpoint_log_id = 0;
}

abbrev replicate_by :
    Option PrimaryReplicator
    → WalEntry
    → ShardServer
    → Result ReplicationError (Unit {0}) × ShardServer
replicate_by none e s = (ok tt, s)
replicate_by (some p) e s =
    let (r, p') = replicate_entry e p in (r, record s { replicator = some p' })

-- `if s.replicator != nil { err = s.replicator.Replicate(...) }`
unfoldable pub replicate_if_set :
    WalEntry → ShardServer → Result ReplicationError (Unit {0}) × ShardServer
replicate_if_set e s = replicate_by s.replicator e s

-- A log operation whose error is dropped.
unfoldable pub mark_aborted_quietly : String → ShardServer → ShardServer
mark_aborted_quietly txn_id s = record s { wal_log = (mark_aborted txn_id s.wal_log).1 }
