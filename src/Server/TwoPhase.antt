-- ===== src/Server/TwoPhase.antt =====
-- The participant's side of the two-phase commit: `PrepareTransaction`, `CommitTransaction` and
-- `AbortTransaction`.
use software_course_project.Prelude.{
  Bool, true, false, Option, none, some, [], String, string_eq, Result, ok, err, if◌then◌else◌,
}
use software_course_project.Prelude.Int.{ℤ}
use software_course_project.Ledger.{
  LedgerError, Ledger, validate_debit, apply_debit, apply_credit, rollback_debit, account_exists,
}
use software_course_project.Model.{
  TransactionState, pending, prepared, committed, aborted, OperationType, op_debit, op_credit,
  op_prepared, TxnSummary,
}
use software_course_project.Wal.{append, mark_committed, mark_aborted}
use software_course_project.Server.State.{
  ShardServer, ServerError, wal_append_failed, wal_commit_failed, wal_abort_failed,
  wal_prepare_failed, prepare_rejected, prepare_reserve_failed, ledger_failed, account_not_found,
  already_in_state, cannot_commit_aborted, Reply, set_txn_state, delete_txn_state, get_txn_state,
  count_committed, count_aborted, count_prepared, add_recent_txn, replicated_entry,
  replicate_if_set, mark_aborted_quietly,
}

-- The answer no: an ABORTED record, and the transaction is remembered as aborted.
abbrev refuse : String → ServerError → ShardServer → Reply (Unit {0})
refuse txn_id e s = (err e, set_txn_state txn_id aborted (mark_aborted_quietly txn_id s))

-- The balance check of the first phase; a DEBIT is applied at once, to reserve the funds.
unfoldable pub reserve :
    String → OperationType → String → ℤ → ShardServer → Result ServerError (Unit {0}) × Ledger
reserve txn_id op_debit account_id amount s = elim (validate_debit s.ledger account_id amount) [
  | err e ↦ (err (prepare_rejected e), s.ledger)
  | ok _ ↦
      let (r, l) = apply_debit s.ledger account_id amount in
      elim r [ err e ↦ (err (prepare_reserve_failed e), l) | ok _ ↦ (ok tt, l) ]
]
reserve txn_id op_credit account_id amount s =
    if account_exists s.ledger account_id
    then (ok tt, s.ledger)
    else (err (account_not_found account_id), s.ledger)
reserve txn_id _ account_id amount s = (ok tt, s.ledger)

-- The rollback of a reservation whose PREPARED record could not be written.
unfoldable pub undo_reserve : OperationType → String → ℤ → Ledger → Ledger
undo_reserve op_debit account_id amount l = (rollback_debit l account_id amount).1
undo_reserve _ account_id amount l = l

unfoldable pub log_prepared : String → OperationType → String → ℤ → ShardServer → Reply (Unit {0})
log_prepared txn_id op_type account_id amount s =
    let (r, w) = append txn_id op_prepared account_id amount s.wal_log in
    let s' = record s { wal_log = w } in
    elim r [
      | err e ↦ (
        err (wal_prepare_failed e),
        delete_txn_state txn_id
            (record s' { ledger = undo_reserve op_type account_id amount s.ledger }),
      )
      | ok _ ↦ (ok tt, count_prepared (set_txn_state txn_id prepared s'))
    ]

unfoldable pub prepare_new : String → OperationType → String → ℤ → ShardServer → Reply (Unit {0})
prepare_new txn_id op_type account_id amount s =
    let (r, l) = reserve txn_id op_type account_id amount s in
    let s' = record s { ledger = l } in
    elim r [ err e ↦ refuse txn_id e s' | ok _ ↦ log_prepared txn_id op_type account_id amount s' ]

abbrev pub agreed : TransactionState → Bool
agreed prepared = true
agreed committed = true
agreed _ = false

unfoldable pub prepare_transaction :
    String → OperationType → String → ℤ → ShardServer → Reply (Unit {0})
prepare_transaction txn_id op_type account_id amount s = elim (get_txn_state txn_id s) [
  | some state ↦ if agreed state then (ok tt, s) else (err (already_in_state txn_id state), s)
  | none ↦ prepare_new txn_id op_type account_id amount (set_txn_state txn_id pending s)
]

abbrev cross_summary : String → String → ℤ → String → TxnSummary
cross_summary txn_id account_id amount shard_id = record {
  txn_id = txn_id;
  source = account_id;
  destination = "";
  amount = amount;
  type = "cross";
  state = committed;
  shard_id = shard_id;
  shards = [];
}

-- The balance change of the second phase: a debit was made in the first.
unfoldable pub deliver_funds :
    OperationType → String → ℤ → Ledger → Result LedgerError (Unit {0}) × Ledger
deliver_funds op_credit account_id amount l = apply_credit l account_id amount
deliver_funds _ account_id amount l = (ok tt, l)

unfoldable pub log_committed : String → String → ℤ → ShardServer → Reply (Unit {0})
log_committed txn_id account_id amount s =
    let (r, w) = mark_committed txn_id s.wal_log in
    let s' = set_txn_state txn_id committed (record s { wal_log = w }) in
    elim r [
      | err e ↦ (err (wal_commit_failed e), s')
      | ok _ ↦ (
        ok tt,
        add_recent_txn (cross_summary txn_id account_id amount s.shard_id) (count_committed s'),
      )
    ]

-- The followers' answer is only logged.
unfoldable pub commit_new : String → OperationType → String → ℤ → ShardServer → Reply (Unit {0})
commit_new txn_id op_type account_id amount s =
    let (r, w) = append txn_id op_type account_id amount s.wal_log in
    let s' = record s { wal_log = w } in
    elim r [
      | err e ↦ (err (wal_append_failed e), s')
      | ok id ↦
          let s'' =
            (replicate_if_set (replicated_entry id txn_id op_type account_id amount) s').1 in
          let (q, l) = deliver_funds op_type account_id amount s''.ledger in
          elim q [
            | err e ↦ (err (ledger_failed e), record s'' { ledger = l })
            | ok _ ↦ log_committed txn_id account_id amount (record s'' { ledger = l })
          ]
    ]

unfoldable pub commit_transaction :
    String → OperationType → String → ℤ → ShardServer → Reply (Unit {0})
commit_transaction txn_id op_type account_id amount s = elim (get_txn_state txn_id s) [
  | some committed ↦ (ok tt, s)
  | some aborted ↦ (err (cannot_commit_aborted txn_id), s)
  | _ ↦ commit_new txn_id op_type account_id amount s
]

-- The reservation is given back only if this shard made it.
unfoldable pub give_back : Option TransactionState → OperationType → String → ℤ → Ledger → Ledger
give_back (some prepared) op_debit account_id amount l =
    if account_exists l account_id then (rollback_debit l account_id amount).1 else l
give_back _ _ account_id amount l = l

unfoldable pub abort_new : String → OperationType → String → ℤ → ShardServer → Reply (Unit {0})
abort_new txn_id op_type account_id amount s =
    let l = give_back (get_txn_state txn_id s) op_type account_id amount s.ledger in
    let (r, w) = mark_aborted txn_id s.wal_log in
    let s' = record s { ledger = l; wal_log = w } in
    elim r [
      | err e ↦ (err (wal_abort_failed e), s')
      | ok _ ↦ (ok tt, count_aborted (set_txn_state txn_id aborted s'))
    ]

unfoldable pub abort_transaction :
    String → OperationType → String → ℤ → ShardServer → Reply (Unit {0})
abort_transaction txn_id op_type account_id amount s = elim (get_txn_state txn_id s) [
  | some aborted ↦ (ok tt, s)
  | _ ↦ abort_new txn_id op_type account_id amount s
]
