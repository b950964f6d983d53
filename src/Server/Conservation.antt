-- ===== src/Server/Conservation.antt =====
-- Executing a transaction inside the shard keeps the shard's money, whatever the disk and the
-- followers do.
use software_course_project.Prelude.{◌≡◌, refl, ◌⊎◌, inl, inr, arith, Result-cases}
use software_course_project.Ledger.{apply_transfer, total_balance}
use software_course_project.Ledger.Funds.{IsSound}
use software_course_project.Ledger.Transfers.{apply_transfer_conserves, apply_transfer-IsSound}
use software_course_project.Model.{Transaction, WalEntry, pending, op_debit, op_credit}
use software_course_project.Wal.{append}
use software_course_project.Server.State.{
  ShardServer, replicate_if_set, set_txn_state, replicated_entry, mark_aborted_quietly,
  count_committed, count_aborted, delete_txn_state, add_recent_txn,
}
use software_course_project.Server.Single.{
  commit_leg, apply_leg, credit_leg, debit_leg, validate_leg, execute_single_shard,
}

pub ledger-replicate_if_set :
    (e : WalEntry) (s : ShardServer) → (replicate_if_set e s).1.ledger ≡ s.ledger
unfolding replicate_if_set
ledger-replicate_if_set e s = ground arith

-- The ledger is as it was, or as the one transfer left it.
abbrev Effect : Transaction → ShardServer → ShardServer → Type 0
Effect txn s s' =
    (s'.ledger ≡ s.ledger)
    ⊎ (s'.ledger ≡ (apply_transfer s.ledger txn.source txn.destination txn.amount).1)

ledger-commit_leg : (txn : Transaction) (s : ShardServer) → (commit_leg txn s).1.ledger ≡ s.ledger
unfolding commit_leg set_txn_state count_committed add_recent_txn
ledger-commit_leg txn s = ground arith

apply_leg-Effect : (txn : Transaction) (s : ShardServer) → Effect txn s (apply_leg txn s).1
unfolding apply_leg mark_aborted_quietly set_txn_state count_aborted
apply_leg-Effect txn s =
    let l = (apply_transfer s.ledger txn.source txn.destination txn.amount).1 in
    ground (arith, ledger-commit_leg txn (record s { ledger = l }))

credit_leg-Effect : (txn : Transaction) (s : ShardServer) → Effect txn s (credit_leg txn s).1
unfolding credit_leg delete_txn_state
credit_leg-Effect txn s =
    let (r, w) = append txn.txn_id op_credit txn.destination txn.amount s.wal_log in
    let s' = record s { wal_log = w } in
    elim (Result-cases r) [
      | inl (id, done) ↦
          let e = replicated_entry id txn.txn_id op_credit txn.destination txn.amount in
          rw (done, credit_leg)
            (ground
              (arith, ledger-replicate_if_set e s', apply_leg-Effect txn (replicate_if_set e s').1))
      | inr (x, failed) ↦ rw (failed, credit_leg) (inl refl)
    ]

debit_leg-Effect : (txn : Transaction) (s : ShardServer) → Effect txn s (debit_leg txn s).1
unfolding debit_leg delete_txn_state
debit_leg-Effect txn s =
    let (r, w) = append txn.txn_id op_debit txn.source txn.amount s.wal_log in
    let s' = record s { wal_log = w } in
    elim (Result-cases r) [
      | inl (id, done) ↦
          let e = replicated_entry id txn.txn_id op_debit txn.source txn.amount in
          rw (done, debit_leg)
            (ground (
              arith,
              ledger-replicate_if_set e s',
              credit_leg-Effect txn (replicate_if_set e s').1,
            ))
      | inr (x, failed) ↦ rw (failed, debit_leg) (inl refl)
    ]

execute-Effect : (txn : Transaction) (s : ShardServer) → Effect txn s (execute_single_shard txn s).1
unfolding execute_single_shard validate_leg set_txn_state mark_aborted_quietly count_aborted
execute-Effect txn s = ground (arith, debit_leg-Effect txn (set_txn_state txn.txn_id pending s))

-- Whatever the transaction and the state of the shard, and whichever disk write or follower fails,
-- executing it leaves the shard's total balance as it was.
pub execute_single_shard_conserves :
    (txn : Transaction) (s : ShardServer)
    → total_balance (execute_single_shard txn s).1.ledger ≡ total_balance s.ledger
execute_single_shard_conserves txn s =
    let kept = apply_transfer_conserves s.ledger txn.source txn.destination txn.amount in
    elim (execute-Effect txn s) [ inl same ↦ rw same | inr moved ↦ rw moved kept ]

-- Executing a transaction keeps the shard free of negative balances and within 64 bits.
pub execute_single_shard-IsSound :
    (txn : Transaction) (s : ShardServer)
    → IsSound s.ledger
    → IsSound (execute_single_shard txn s).1.ledger
execute_single_shard-IsSound txn s h = elim (execute-Effect txn s) [
  | inl same ↦ rw same h
  | inr moved ↦ rw moved (apply_transfer-IsSound s.ledger h txn.source txn.destination txn.amount)
]
