-- ===== src/Server/Single.antt =====
-- `ExecuteSingleShard` (Algorithm 1), one function for each leg.
use software_course_project.Prelude.{none, some, [], String, ok, err}
use software_course_project.Ledger.{validate_debit, apply_transfer}
use software_course_project.Model.{
  TransactionState, pending, committed, aborted, op_debit, op_credit, Transaction,
  TransactionResult, success, already_processed, rejected, apply_failed, TxnSummary, Message,
}
use software_course_project.Wal.{append, mark_committed}
use software_course_project.Server.State.{
  ShardServer, ServerError, wal_append_failed, wal_commit_failed, replication_failed, Reply,
  set_txn_state, delete_txn_state, get_txn_state, count_committed, count_aborted, add_recent_txn,
  replicated_entry, replicate_if_set, mark_aborted_quietly,
}

abbrev pub result_of : Transaction → TransactionState → Message → TransactionResult
result_of txn state message = record { txn_id = txn.txn_id; state = state; message = message }

abbrev pub summary_of : Transaction → String → TxnSummary
summary_of txn shard_id = record {
  txn_id = txn.txn_id;
  source = txn.source;
  destination = txn.destination;
  amount = txn.amount;
  type = "single";
  state = committed;
  shard_id = shard_id;
  shards = [];
}

-- The deferred `deleteTxnState` of a return that leaves the transaction unfinished.
abbrev give_up : Transaction → ServerError → ShardServer → Reply TransactionResult
give_up txn e s = (err e, delete_txn_state txn.txn_id s)

-- Step 4: the COMMITTED record.
unfoldable pub commit_leg : Transaction → ShardServer → Reply TransactionResult
commit_leg txn s =
    let (r, w) = mark_committed txn.txn_id s.wal_log in
    let s' = set_txn_state txn.txn_id committed (record s { wal_log = w }) in
    elim r [
      | err e ↦ (err (wal_commit_failed e), s')
      | ok _ ↦ (
        ok (result_of txn committed success),
        add_recent_txn (summary_of txn s.shard_id) (count_committed s'),
      )
    ]

-- Step 3: the balances.
unfoldable pub apply_leg : Transaction → ShardServer → Reply TransactionResult
apply_leg txn s =
    let (r, l) = apply_transfer s.ledger txn.source txn.destination txn.amount in
    elim r [
      | err e ↦ (
        ok (result_of txn aborted (apply_failed e)),
        count_aborted (set_txn_state txn.txn_id aborted (mark_aborted_quietly txn.txn_id s)),
      )
      | ok _ ↦ commit_leg txn (record s { ledger = l })
    ]

-- Step 2, second half: the CREDIT record and its replication.
unfoldable pub credit_leg : Transaction → ShardServer → Reply TransactionResult
credit_leg txn s =
    let (r, w) = append txn.txn_id op_credit txn.destination txn.amount s.wal_log in
    let s' = record s { wal_log = w } in
    elim r [
      | err e ↦ give_up txn (wal_append_failed e) s'
      | ok id ↦
          let entry = replicated_entry id txn.txn_id op_credit txn.destination txn.amount in
          let (q, s'') = replicate_if_set entry s' in
          elim q [ err e ↦ give_up txn (replication_failed e) s'' | ok _ ↦ apply_leg txn s'' ]
    ]

-- Step 2, first half: the DEBIT record and its replication.
unfoldable pub debit_leg : Transaction → ShardServer → Reply TransactionResult
debit_leg txn s =
    let (r, w) = append txn.txn_id op_debit txn.source txn.amount s.wal_log in
    let s' = record s { wal_log = w } in
    elim r [
      | err e ↦ give_up txn (wal_append_failed e) s'
      | ok id ↦
          let entry = replicated_entry id txn.txn_id op_debit txn.source txn.amount in
          let (q, s'') = replicate_if_set entry s' in
          elim q [ err e ↦ give_up txn (replication_failed e) s'' | ok _ ↦ credit_leg txn s'' ]
    ]

-- Step 1: the balance of the source.
unfoldable pub validate_leg : Transaction → ShardServer → Reply TransactionResult
validate_leg txn s = elim (validate_debit s.ledger txn.source txn.amount) [
  | err e ↦ (
    ok (result_of txn aborted (rejected e)),
    mark_aborted_quietly txn.txn_id (count_aborted (set_txn_state txn.txn_id aborted s)),
  )
  | ok _ ↦ debit_leg txn s
]

unfoldable pub execute_single_shard : Transaction → ShardServer → Reply TransactionResult
execute_single_shard txn s = elim (get_txn_state txn.txn_id s) [
  | some state ↦ (ok (result_of txn state already_processed), s)
  | none ↦ validate_leg txn (set_txn_state txn.txn_id pending s)
]
