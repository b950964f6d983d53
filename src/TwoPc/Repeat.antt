-- ===== src/TwoPc/Repeat.antt =====
-- A transaction that is delivered again, as a queue may do, after the two-phase commit has ended.
use software_course_project.Server.Idempotence.{commit_transaction_twice}
use software_course_project.Server.Reservation.Ending.{commit_debit, commit_credit}
use software_course_project.TwoPc.Atomic.{IsReady, execute_when, retry_reliable, reliable}
use software_course_project.TwoPc.{
  answered, Shards, call, commit_attempts, commit_with_retry, send_prepares, commit_all, abort_all,
  execute,
}
use software_course_project.Server.Reservation.{
  Prepared, Refused, prepare_debit-cases, prepare_credit-cases, IsReserved,
}
use software_course_project.Server.TwoPhase.{
  reserve, log_prepared, prepare_new, prepare_transaction, commit_transaction, abort_new,
  abort_transaction,
}
use software_course_project.Server.State.{
  ShardServer, ServerError, already_in_state, get_txn_state, set_txn_state, count_aborted,
  mark_aborted_quietly,
}
use software_course_project.Wal.Working.{IsWorking, append_working, mark_aborted_working}
use software_course_project.Model.{
  Transaction, TransactionResult, TransactionState, Message, pending, committed, aborted,
  OperationType, op_debit, op_credit, op_prepared, committed_on_all_shards, shards_rejected,
}
use software_course_project.Ledger.{Ledger}
use software_course_project.Dict.Laws.{lookup-insert_self}
use software_course_project.Dict.{lookup, insert}
use software_course_project.Prelude.Int.{pos, ◌≤ℤ◌, ℤ}
use software_course_project.Prelude.{
  true, false, refl, ap, inl, inr, none, some, String, string_eq, ok, err, Result-cases, ◌≡◌,
}

abbrev IsAborted : String → ShardServer → Type 0
IsAborted t s = lookup t s.seen_txns ≡ some aborted

module _ (t : String) (id : String) (a : ℤ) where
  refused-IsAborted :
      (op : OperationType) (s : ShardServer) (e : ServerError)
      → lookup t s.seen_txns ≡ none
      → IsWorking s.wal_log
      → (prepare_transaction t op id a s).0 ≡ err e
      → IsAborted t (prepare_transaction t op id a s).1
  unfolding prepare_transaction prepare_new log_prepared get_txn_state set_txn_state
      mark_aborted_quietly
  refused-IsAborted op s e unseen works refused =
      let (r, l) = reserve t op id a (set_txn_state t pending s) in
      elim (Result-cases r) [
        | inr (x, rejected) ↦
            rw (unseen, prepare_transaction, rejected, prepare_new)
              (lookup-insert_self t aborted (insert t pending s.seen_txns))
        | inl (done, accepted) ↦
            let wrote = append_working s.wal_log works t op_prepared id a in
            let agreed : (prepare_transaction t op id a s).0 ≡ ok tt =
              rw
                (
                  unseen,
                  prepare_transaction,
                  accepted,
                  prepare_new,
                  ap (λ x. x.0) wrote,
                  log_prepared,
                )
                refl in
            absurd (cc)
      ]

  abort-IsAborted :
      (op : OperationType) (l : Ledger) (s : ShardServer)
      → IsReserved t id a l s
      → IsAborted t (abort_transaction t op id a s).1
  unfolding abort_transaction abort_new get_txn_state set_txn_state count_aborted
  abort-IsAborted op l s h =
      rw
        (
          h.agreed_state,
          abort_transaction,
          ap (λ x. x.0) (mark_aborted_working s.wal_log h.working t),
          abort_new,
        )
        (lookup-insert_self t aborted s.seen_txns)

  again_refused :
      (op : OperationType) (s : ShardServer)
      → IsAborted t s
      → prepare_transaction t op id a s ≡ (err (already_in_state t aborted), s)
  unfolding prepare_transaction get_txn_state
  again_refused op s known = rw (known, prepare_transaction) refl

module _ (txn : Transaction) where
  -- The shards as they are once more after the same transaction.
  abbrev IsRepeated : TransactionResult × Shards → Type 0
  IsRepeated x = execute txn x.1 ≡ x

  abbrev ends : TransactionState → Message → ShardServer → ShardServer → TransactionResult × Shards
  ends state message s d =
      (record { txn_id = txn.txn_id; state = state; message = message }, (reliable s, reliable d))

  committed_again :
      (s d : ShardServer)
      → (commit_transaction txn.txn_id op_debit txn.source txn.amount s ≡ (ok tt, s))
        × (prepare_transaction txn.txn_id op_debit txn.source txn.amount s ≡ (ok tt, s))
      → (commit_transaction txn.txn_id op_credit txn.destination txn.amount d ≡ (ok tt, d))
        × (prepare_transaction txn.txn_id op_credit txn.destination txn.amount d ≡ (ok tt, d))
      → IsRepeated (ends committed committed_on_all_shards s d)
  unfolding execute send_prepares call commit_all commit_with_retry commit_attempts
  committed_again s d (paid, agrees) (received, agrees') = rw (agrees, agrees', paid, received) refl

  aborted_again :
      (s d : ShardServer)
      → IsAborted txn.txn_id s
      → IsAborted txn.txn_id d
      → IsRepeated (ends aborted shards_rejected s d)
  unfolding execute send_prepares call abort_all
  aborted_again s d hs hd =
      rw
        (
          again_refused txn.txn_id txn.source txn.amount op_debit s hs,
          again_refused txn.txn_id txn.destination txn.amount op_credit d hd,
        )
        refl

  module _ (src dst : ShardServer) where
    abbrev first : ShardServer
    first = (prepare_transaction txn.txn_id op_debit txn.source txn.amount src).1

    abbrev second : ShardServer
    second = (prepare_transaction txn.txn_id op_credit txn.destination txn.amount dst).1

    both-IsRepeated :
        (l : Ledger)
        → Prepared txn.txn_id txn.source txn.amount op_debit l src
        → (v : ℤ) → lookup txn.destination dst.ledger.balances ≡ some v
        → pos 1 ≤ℤ txn.amount
        → Prepared txn.txn_id txn.destination txn.amount op_credit dst.ledger dst
        → IsRepeated (execute txn (reliable src, reliable dst))
    unfolding commit_all
    both-IsRepeated l (d, held) v known positive (c, agreed) =
        let debit_ok = (commit_debit txn.txn_id txn.source txn.amount l first held).0 in
        let credit_ok =
          (commit_credit txn.txn_id txn.destination txn.amount dst.ledger second v agreed known
            positive).0 in
        let s = (commit_transaction txn.txn_id op_debit txn.source txn.amount first).1 in
        let s' = (commit_transaction txn.txn_id op_credit txn.destination txn.amount second).1 in
        rw
          (
            execute_when txn src dst true true (ap answered d) (ap answered c),
            retry_reliable txn.txn_id op_debit txn.source txn.amount first debit_ok,
            retry_reliable txn.txn_id op_credit txn.destination txn.amount second credit_ok,
          )
          (committed_again s s'
            (commit_transaction_twice txn.txn_id op_debit txn.source txn.amount first s
              (ap (λ r. (r, s)) debit_ok))
            (commit_transaction_twice txn.txn_id op_credit txn.destination txn.amount second s'
              (ap (λ r. (r, s')) credit_ok)))

    source-IsRepeated :
        (l : Ledger)
        → Prepared txn.txn_id txn.source txn.amount op_debit l src
        → IsReady txn.txn_id dst
        → Refused txn.txn_id txn.destination txn.amount op_credit dst
        → IsRepeated (execute txn (reliable src, reliable dst))
    unfolding abort_all call
    source-IsRepeated l (d, held) hd ((e, c), same) =
        rw (execute_when txn src dst true false (ap answered d) (ap answered c)) (
          aborted_again _ second
            (abort-IsAborted txn.txn_id txn.source txn.amount op_debit l first held)
            (refused-IsAborted txn.txn_id txn.destination txn.amount op_credit dst e hd.unseen
              hd.working c))

    dest-IsRepeated :
        IsReady txn.txn_id src
        → Refused txn.txn_id txn.source txn.amount op_debit src
        → Prepared txn.txn_id txn.destination txn.amount op_credit dst.ledger dst
        → IsRepeated (execute txn (reliable src, reliable dst))
    unfolding abort_all call
    dest-IsRepeated hs ((e, d), same) (c, agreed) =
        rw (execute_when txn src dst false true (ap answered d) (ap answered c)) (
          aborted_again first _
            (refused-IsAborted txn.txn_id txn.source txn.amount op_debit src e hs.unseen hs.working
              d)
            (abort-IsAborted txn.txn_id txn.destination txn.amount op_credit dst.ledger second
              agreed))

    neither-IsRepeated :
        IsReady txn.txn_id src
        → IsReady txn.txn_id dst
        → Refused txn.txn_id txn.source txn.amount op_debit src
        → Refused txn.txn_id txn.destination txn.amount op_credit dst
        → IsRepeated (execute txn (reliable src, reliable dst))
    unfolding abort_all call
    neither-IsRepeated hs hd ((e, d), same) ((e', c), same') =
        rw (execute_when txn src dst false false (ap answered d) (ap answered c)) (
          aborted_again first second
            (refused-IsAborted txn.txn_id txn.source txn.amount op_debit src e hs.unseen hs.working
              d)
            (refused-IsAborted txn.txn_id txn.destination txn.amount op_credit dst e' hd.unseen
              hd.working c))

    -- A transaction that is delivered again after its two-phase commit has ended, as a queue may do,
    -- gets the same answer and leaves both shards exactly as they are, if at the first time neither
    -- had seen it, the disks worked, the balances were `int64`s and the network lost nothing.
    pub execute_twice :
        IsReady txn.txn_id src
        → IsReady txn.txn_id dst
        → execute txn (execute txn (reliable src, reliable dst)).1
          ≡ execute txn (reliable src, reliable dst)
    execute_twice hs hd =
        let source_answer =
          prepare_debit-cases txn.txn_id txn.source txn.amount src hs.unseen hs.working in
        let dest_answer =
          prepare_credit-cases txn.txn_id txn.destination txn.amount dst hd.unseen hd.working in
        elim source_answer [
          | inl d ↦ elim dest_answer [
            | inl c ↦ neither-IsRepeated hs hd d c
            | inr (_, c) ↦ dest-IsRepeated hs d c
          ]
          | inr (p, d) ↦ elim dest_answer [
            | inl c ↦ source-IsRepeated _ d hd c
            | inr ((v, known), c) ↦ both-IsRepeated _ d v known p.positive c
          ]
        ]
