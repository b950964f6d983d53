-- ===== src/Server/Idempotence.antt =====
-- A transaction ID is executed once: the shard remembers the answer.
use software_course_project.Prelude.{
  ◌≡◌, refl, inl, inr, none, some, String, string_eq, ok, err, arith, Result-cases,
}
use mathlib.Core.Path.{subst}
use software_course_project.Prelude.Int.{ℤ}
use software_course_project.Dict.{lookup}
use software_course_project.Dict.Laws.{lookup-insert_self}
use software_course_project.Ledger.{apply_transfer, validate_debit}
use software_course_project.Model.{
  Transaction, TransactionResult, already_processed, OperationType, TransactionState, pending,
  prepared, committed, aborted, op_debit, op_credit,
}
use software_course_project.Wal.{append}
use software_course_project.Server.State.{
  ShardServer, Reply, replicate_if_set, set_txn_state, get_txn_state, replicated_entry,
  mark_aborted_quietly, count_committed, count_aborted, add_recent_txn,
}
use software_course_project.Server.TwoPhase.{
  log_committed, deliver_funds, commit_new, commit_transaction, prepare_transaction,
}
use software_course_project.Server.Single.{
  result_of, commit_leg, apply_leg, credit_leg, debit_leg, validate_leg, execute_single_shard,
}

-- An answer that is no error is remembered under the transaction's ID.
abbrev Settled : Transaction → Reply TransactionResult → Type 0
Settled txn (ok r, s) = lookup txn.txn_id s.seen_txns ≡ some r.state
Settled txn (err e, s) = Unit {0}

commit_leg-Settled : (txn : Transaction) (s : ShardServer) → Settled txn (commit_leg txn s)
unfolding commit_leg set_txn_state count_committed add_recent_txn
commit_leg-Settled txn s = ground (arith, lookup-insert_self txn.txn_id committed s.seen_txns)

apply_leg-Settled : (txn : Transaction) (s : ShardServer) → Settled txn (apply_leg txn s)
unfolding apply_leg mark_aborted_quietly set_txn_state count_aborted
apply_leg-Settled txn s =
    let (r, l) = apply_transfer s.ledger txn.source txn.destination txn.amount in
    elim (Result-cases r) [
      | inl (_, done) ↦ rw (done, apply_leg) (commit_leg-Settled txn (record s { ledger = l }))
      | inr (x, failed) ↦ rw (failed, apply_leg) (lookup-insert_self txn.txn_id aborted s.seen_txns)
    ]

credit_leg-Settled : (txn : Transaction) (s : ShardServer) → Settled txn (credit_leg txn s)
unfolding credit_leg
credit_leg-Settled txn s =
    let (r, w) = append txn.txn_id op_credit txn.destination txn.amount s.wal_log in
    let s' = record s { wal_log = w } in
    elim (Result-cases r) [
      | inl (id, done) ↦
          let e = replicated_entry id txn.txn_id op_credit txn.destination txn.amount in
          rw (done, credit_leg)
            (elim (Result-cases (replicate_if_set e s').0) [
              | inl (_, acked) ↦ rw acked (apply_leg-Settled txn (replicate_if_set e s').1)
              | inr (x, failed) ↦ rw failed tt
            ])
      | inr (x, failed) ↦ rw (failed, credit_leg) tt
    ]

debit_leg-Settled : (txn : Transaction) (s : ShardServer) → Settled txn (debit_leg txn s)
unfolding debit_leg
debit_leg-Settled txn s =
    let (r, w) = append txn.txn_id op_debit txn.source txn.amount s.wal_log in
    let s' = record s { wal_log = w } in
    elim (Result-cases r) [
      | inl (id, done) ↦
          let e = replicated_entry id txn.txn_id op_debit txn.source txn.amount in
          rw (done, debit_leg)
            (elim (Result-cases (replicate_if_set e s').0) [
              | inl (_, acked) ↦ rw acked (credit_leg-Settled txn (replicate_if_set e s').1)
              | inr (x, failed) ↦ rw failed tt
            ])
      | inr (x, failed) ↦ rw (failed, debit_leg) tt
    ]

validate_leg-Settled : (txn : Transaction) (s : ShardServer) → Settled txn (validate_leg txn s)
unfolding validate_leg mark_aborted_quietly set_txn_state count_aborted
validate_leg-Settled txn s = elim (Result-cases (validate_debit s.ledger txn.source txn.amount)) [
  | inl (_, valid) ↦ rw (valid, validate_leg) (debit_leg-Settled txn s)
  | inr (x, failed) ↦ rw (failed, validate_leg) (lookup-insert_self txn.txn_id aborted s.seen_txns)
]

execute-Settled : (txn : Transaction) (s : ShardServer) → Settled txn (execute_single_shard txn s)
unfolding execute_single_shard get_txn_state
execute-Settled txn s =
    elim (lookup txn.txn_id s.seen_txns)
        as (λ found.
          lookup txn.txn_id s.seen_txns ≡ found → Settled txn (execute_single_shard txn s)) [
            | none ↦ λ new.
                rw (new, execute_single_shard)
                  (validate_leg-Settled txn (set_txn_state txn.txn_id pending s))
            | some state ↦ λ seen. rw (seen, execute_single_shard) seen
          ]
      refl

-- A transaction that was answered, with any outcome, can be sent again: the second execution changes
-- nothing at all, and answers with the state of the first.
pub execute_single_shard_twice :
    (txn : Transaction) (s : ShardServer) (r : TransactionResult) (s' : ShardServer)
    → execute_single_shard txn s ≡ (ok r, s')
    → execute_single_shard txn s' ≡ (ok (result_of txn r.state already_processed), s')
unfolding execute_single_shard get_txn_state
execute_single_shard_twice txn s r s' done =
    let remembered : lookup txn.txn_id s'.seen_txns ≡ some r.state =
      subst (Settled txn) done (execute-Settled txn s) in
    rw (remembered, execute_single_shard)

-- The three answers of the two-phase commit are remembered too.
module _ (txn_id : String) (op_type : OperationType) (account_id : String) (amount : ℤ) where
  abbrev Remembered : TransactionState → Reply (Unit {0}) → Type 0
  Remembered state (ok _, s) = lookup txn_id s.seen_txns ≡ some state
  Remembered state (err e, s) = Unit {0}

  log_committed-Remembered :
      (s : ShardServer) → Remembered committed (log_committed txn_id account_id amount s)
  unfolding log_committed set_txn_state count_committed add_recent_txn
  log_committed-Remembered s = ground (arith, lookup-insert_self txn_id committed s.seen_txns)

  commit_new-Remembered :
      (s : ShardServer) → Remembered committed (commit_new txn_id op_type account_id amount s)
  unfolding commit_new
  commit_new-Remembered s =
      let (r, w) = append txn_id op_type account_id amount s.wal_log in
      elim (Result-cases r) [
        | inr (x, failed) ↦ rw (failed, commit_new) tt
        | inl (id, done) ↦
            let e = replicated_entry id txn_id op_type account_id amount in
            let s' = (replicate_if_set e (record s { wal_log = w })).1 in
            let (q, l) = deliver_funds op_type account_id amount s'.ledger in
            rw (done, commit_new)
              (elim (Result-cases q) [
                | inl (_, paid) ↦ rw paid (log_committed-Remembered (record s' { ledger = l }))
                | inr (x, failed) ↦ rw failed tt
              ])
      ]

  commit-Remembered :
      (s : ShardServer)
      → Remembered committed (commit_transaction txn_id op_type account_id amount s)
  unfolding commit_transaction get_txn_state
  commit-Remembered s =
      elim (lookup txn_id s.seen_txns)
          as (λ found.
            lookup txn_id s.seen_txns ≡ found
            → Remembered committed (commit_transaction txn_id op_type account_id amount s)) [
              | none ↦ λ e. rw (e, commit_transaction) (commit_new-Remembered s)
              | some pending ↦ λ e. rw (e, commit_transaction) (commit_new-Remembered s)
              | some prepared ↦ λ e. rw (e, commit_transaction) (commit_new-Remembered s)
              | some committed ↦ λ e. rw (e, commit_transaction) e
              | some aborted ↦ λ e. rw (e, commit_transaction) tt
            ]
        refl

  -- A COMMIT that succeeded can be sent again, as the coordinator does when an answer is lost: it
  -- succeeds again and changes nothing. A late PREPARE of that transaction is answered yes, and
  -- changes nothing either.
  pub commit_transaction_twice :
      (s s' : ShardServer)
      → commit_transaction txn_id op_type account_id amount s ≡ (ok tt, s')
      → (commit_transaction txn_id op_type account_id amount s' ≡ (ok tt, s'))
        × (prepare_transaction txn_id op_type account_id amount s' ≡ (ok tt, s'))
  unfolding commit_transaction prepare_transaction get_txn_state
  commit_transaction_twice s s' done =
      let remembered : lookup txn_id s'.seen_txns ≡ some committed =
        subst (Remembered committed) done (commit-Remembered s) in
      (rw (remembered, commit_transaction), rw (remembered, prepare_transaction))
