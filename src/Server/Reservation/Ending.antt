-- ===== src/Server/Reservation/Ending.antt =====
-- The second phase on a shard that has agreed to the transaction: COMMIT and ABORT.
use software_course_project.Server.Reservation.{IsReserved, debited, credited}
use mathlib.Core.Path.{subst}
use software_course_project.Prelude.{
  ◌≡◌, ◌∙◌, refl, sym, ap, true, some, String, string_eq, ok, arith,
}
use software_course_project.Prelude.Int.{ℤ, pos, ◌≤ℤ◌}
use software_course_project.Int64.{InRange, sub64}
use software_course_project.Dict.{lookup, contains}
use software_course_project.Dict.Laws.{lookup-insert_self}
use software_course_project.Ledger.{
  Ledger, rollback_debit, subtract, account_exists, balance_or_zero,
}
use software_course_project.Ledger.Reserve.{
  CanDebit, apply_debit_done, apply_credit_done, debit_then_rollback,
}
use software_course_project.Model.{WalEntry, OperationType, op_debit, op_credit, prepared}
use software_course_project.Wal.{append}
use software_course_project.Wal.Working.{
  IsWorking, logged-IsWorking, append_working, mark_committed_working, mark_aborted_working,
}
use software_course_project.Server.State.{
  ShardServer, get_txn_state, set_txn_state, count_committed, count_aborted, add_recent_txn,
  replicate_if_set, replicated_entry,
}
use software_course_project.Server.TwoPhase.{
  deliver_funds, log_committed, commit_new, commit_transaction, give_back, abort_new,
  abort_transaction,
}
use software_course_project.Server.Conservation.{ledger-replicate_if_set}

module _ (t : String) (id : String) (a : ℤ) where
  commit_as_new :
      (op : OperationType) (l : Ledger) (s : ShardServer)
      → IsReserved t id a l s
      → commit_transaction t op id a s ≡ commit_new t op id a s
  unfolding commit_transaction get_txn_state
  commit_as_new op l s h = rw (h.agreed_state, commit_transaction)

  wal_log-replicate_if_set :
      (e : WalEntry) (s : ShardServer) → (replicate_if_set e s).1.wal_log ≡ s.wal_log
  unfolding replicate_if_set
  wal_log-replicate_if_set e s = ground arith

  -- The last step of a commit whose balance change is done.
  log_committed_working :
      (s : ShardServer)
      → IsWorking s.wal_log
      → ((log_committed t id a s).0 ≡ ok tt) × ((log_committed t id a s).1.ledger ≡ s.ledger)
  unfolding log_committed set_txn_state count_committed add_recent_txn
  log_committed_working s h =
      rw (ap (λ x. x.0) (mark_committed_working s.wal_log h t), log_committed) (refl, refl)

  -- A commit on a reservation delivers what `deliver_funds` makes of the ledger.
  commit_delivers :
      (op : OperationType) (l l' : Ledger) (s : ShardServer)
      → IsReserved t id a l s
      → deliver_funds op id a l ≡ (ok tt, l')
      → let (r, s') = commit_transaction t op id a s in (r ≡ ok tt) × (s'.ledger ≡ l')
  unfolding commit_new
  commit_delivers op l l' s h delivers =
      let done = append_working s.wal_log h.working t op id a in
      let s1 = record s { wal_log = (append t op id a s.wal_log).1 } in
      let e = replicated_entry s.wal_log.next_log_id t op id a in
      let s2 = (replicate_if_set e s1).1 in
      let same : s2.ledger ≡ l = ledger-replicate_if_set e s1 ∙ h.reserved_ledger in
      let delivers' : deliver_funds op id a s2.ledger ≡ (ok tt, l') =
        ap (λ x. deliver_funds op id a x) same ∙ delivers in
      let s3 = record s2 { ledger = (deliver_funds op id a s2.ledger).1 } in
      let works : IsWorking s3.wal_log =
        subst IsWorking (sym (wal_log-replicate_if_set e s1 ∙ ap (λ x. x.1) done))
          (logged-IsWorking _ s.wal_log h.working) in
      let (nil, kept) = log_committed_working s3 works in
      rw (commit_as_new op l s h, ap (λ x. x.0) done, commit_new, ap (λ x. x.0) delivers')
        (nil, kept ∙ ap (λ x. x.1) delivers')

  pub commit_debit :
      (l : Ledger) (s : ShardServer)
      → IsReserved t id a l s
      → let (r, s') = commit_transaction t op_debit id a s in (r ≡ ok tt) × (s'.ledger ≡ l)
  unfolding deliver_funds
  commit_debit l s h = commit_delivers op_debit l l s h refl

  pub commit_credit :
      (l : Ledger) (s : ShardServer) (v : ℤ)
      → IsReserved t id a l s
      → lookup id l.balances ≡ some v
      → pos 1 ≤ℤ a
      → let (r, s') = commit_transaction t op_credit id a s in
        (r ≡ ok tt) × (s'.ledger ≡ credited t id a l)
  unfolding deliver_funds
  commit_credit l s v h known positive =
      commit_delivers op_credit l (credited t id a l) s h (apply_credit_done l id a known positive)

  abort_gives :
      (op : OperationType) (l : Ledger) (s : ShardServer)
      → IsReserved t id a l s
      → (abort_transaction t op id a s).1.ledger ≡ give_back (some prepared) op id a l
  unfolding abort_transaction abort_new get_txn_state set_txn_state count_aborted
  abort_gives op l s h =
      let done = mark_aborted_working s.wal_log h.working t in
      rw (
        h.agreed_state,
        abort_transaction,
        ap (λ x. x.0) done,
        abort_new,
        h.agreed_state,
        h.reserved_ledger,
      )

  pub abort_credit :
      (l : Ledger) (s : ShardServer)
      → IsReserved t id a l s
      → (abort_transaction t op_credit id a s).1.ledger ≡ l
  unfolding give_back
  abort_credit l s h = abort_gives op_credit l s h

  debited-account_exists : (l : Ledger) → account_exists (debited t id a l) id ≡ true
  unfolding account_exists contains subtract
  debited-account_exists l =
      ground
        (arith, lookup-insert_self id (sub64 (balance_or_zero (lookup id l.balances)) a) l.balances)

  pub abort_debit :
      (l : Ledger) (s : ShardServer) (p : CanDebit l id a)
      → InRange p.held
      → IsReserved t id a (debited t id a l) s
      → (abort_transaction t op_debit id a s).1.ledger ≡ l
  unfolding give_back
  abort_debit l s p fits h =
      let back : (rollback_debit (debited t id a l) id a).1 ≡ l =
        subst (λ x. (rollback_debit x.1 id a).1 ≡ l) (apply_debit_done l id a p)
          (ap (λ x. x.1) (debit_then_rollback l id a p fits)) in
      abort_gives op_debit (debited t id a l) s h ∙ rw (debited-account_exists l, give_back) back
