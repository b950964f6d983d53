-- ===== src/Server/Reservation.antt =====
-- The participant of the two-phase commit on a disk that works: a PREPARE reserves, a COMMIT
-- delivers, an ABORT gives back.
pub mod Ending
use mathlib.Core.Path.{subst}
use software_course_project.Prelude.{
  ◌≡◌, ◌∙◌, refl, sym, ap, inl, inr, ◌⊎◌, true, none, some, String, string_eq, ok, err, arith,
  Option-cases,
}
use software_course_project.Prelude.Int.{ℤ, pos, ◌≤ℤ◌}
use software_course_project.Int64.{InRange, sub64}
use software_course_project.Dict.{lookup, contains}
use software_course_project.Dict.Laws.{lookup-insert_self}
use software_course_project.Ledger.{
  Ledger, rollback_debit, subtract, add, account_exists, balance_or_zero,
}
use software_course_project.Ledger.Reserve.{
  CanDebit, validate_debit-apply_debit, apply_debit-cases, apply_debit_done, apply_credit_done,
  debit_then_rollback,
}
use software_course_project.Model.{
  WalEntry, OperationType, op_debit, op_credit, op_prepared, pending, prepared,
}
use software_course_project.Wal.{plain_entry, append}
use software_course_project.Wal.Working.{
  logged, IsWorking, logged-IsWorking, append_working, mark_committed_working, mark_aborted_working,
}
use software_course_project.Server.State.{
  ShardServer, ServerError, prepare_rejected, account_not_found, get_txn_state, set_txn_state,
  count_prepared, count_committed, count_aborted, add_recent_txn, mark_aborted_quietly,
  replicate_if_set, replicated_entry,
}
use software_course_project.Server.TwoPhase.{
  reserve, log_prepared, prepare_new, prepare_transaction, deliver_funds, log_committed, commit_new,
  commit_transaction, give_back, abort_new, abort_transaction,
}
use software_course_project.Server.Conservation.{ledger-replicate_if_set}

module _ (t : String) (id : String) (a : ℤ) where
  -- The shard has agreed to transaction `t`, and holds the ledger `l`.
  pub record IsReserved (l : Ledger) (s : ShardServer) : Type 0 where
    pub reserved_ledger : s.ledger ≡ l
    pub agreed_state : lookup t s.seen_txns ≡ some prepared
    pub working : IsWorking s.wal_log

  abbrev pub debited : Ledger → Ledger
  debited l = record { balances = subtract id a l.balances }

  abbrev pub credited : Ledger → Ledger
  credited l = record { balances = add id a l.balances }

  log_prepared_working :
      (op : OperationType) (s : ShardServer)
      → IsWorking s.wal_log
      → ((log_prepared t op id a s).0 ≡ ok tt) × IsReserved s.ledger (log_prepared t op id a s).1
  unfolding log_prepared set_txn_state count_prepared
  log_prepared_working op s h =
      let done = append_working s.wal_log h t op_prepared id a in
      rw (ap (λ x. x.0) done, log_prepared)
        (
          refl,
          record {
            reserved_ledger = refl;
            agreed_state = lookup-insert_self t prepared s.seen_txns;
            working = subst (λ x. IsWorking x.1) (sym done) (logged-IsWorking _ s.wal_log h);
          },
        )

  -- What a PREPARE answers: a refusal that leaves the balances alone, or a reservation.
  abbrev pub Prepared : OperationType → Ledger → ShardServer → Type 0
  Prepared op l s = let (r, s') = prepare_transaction t op id a s in (r ≡ ok tt) × IsReserved l s'

  abbrev pub Refused : OperationType → ShardServer → Type 0
  Refused op s =
      let (r, s') = prepare_transaction t op id a s in
      ((e : ServerError) × (r ≡ err e)) × (s'.ledger ≡ s.ledger)

  prepare_reserved :
      (op : OperationType) (s : ShardServer) (l : Ledger)
      → lookup t s.seen_txns ≡ none
      → IsWorking s.wal_log
      → reserve t op id a (set_txn_state t pending s) ≡ (ok tt, l)
      → Prepared op l s
  unfolding prepare_transaction prepare_new get_txn_state set_txn_state
  prepare_reserved op s l unseen h accepted =
      let s' = record (set_txn_state t pending s) {
        ledger = (reserve t op id a (set_txn_state t pending s)).1;
      } in
      rw (unseen, prepare_transaction, ap (λ x. x.0) accepted, prepare_new)
        (subst
          (λ x.
            ((log_prepared t op id a s').0 ≡ ok tt) × IsReserved x.1 (log_prepared t op id a s').1)
          accepted (log_prepared_working op s' h))

  wal_log-log_prepared :
      (op : OperationType) (s : ShardServer)
      → IsWorking s.wal_log
      → (log_prepared t op id a s).1.wal_log
        ≡ logged (plain_entry s.wal_log.next_log_id t op_prepared id a) s.wal_log
  unfolding log_prepared set_txn_state count_prepared
  wal_log-log_prepared op s h =
      let done = append_working s.wal_log h t op_prepared id a in
      rw (ap (λ x. x.0) done, log_prepared) (ap (λ x. x.1) done)

  -- What a PREPARE that is accepted puts in the log.
  pub wal_log-prepare_transaction :
      (op : OperationType) (s : ShardServer) (l : Ledger)
      → lookup t s.seen_txns ≡ none
      → IsWorking s.wal_log
      → reserve t op id a (set_txn_state t pending s) ≡ (ok tt, l)
      → (prepare_transaction t op id a s).1.wal_log
        ≡ logged (plain_entry s.wal_log.next_log_id t op_prepared id a) s.wal_log
  unfolding prepare_transaction prepare_new get_txn_state set_txn_state
  wal_log-prepare_transaction op s l unseen h accepted =
      rw (unseen, prepare_transaction, ap (λ x. x.0) accepted, prepare_new)
        (wal_log-log_prepared op
          (record (set_txn_state t pending s) {
            ledger = (reserve t op id a (set_txn_state t pending s)).1;
          })
          h)

  prepare-Refused :
      (op : OperationType) (s : ShardServer) (e : ServerError)
      → lookup t s.seen_txns ≡ none
      → reserve t op id a (set_txn_state t pending s) ≡ (err e, s.ledger)
      → Refused op s
  unfolding prepare_transaction prepare_new get_txn_state set_txn_state mark_aborted_quietly
  prepare-Refused op s e unseen rejected =
      rw (unseen, prepare_transaction, ap (λ x. x.0) rejected, prepare_new)
        ((e, refl), ap (λ x. x.1) rejected)

  pub reserve_debit_done :
      (s : ShardServer)
      → CanDebit s.ledger id a
      → reserve t op_debit id a (set_txn_state t pending s) ≡ (ok tt, debited s.ledger)
  unfolding reserve set_txn_state
  reserve_debit_done s p =
      let accepted = apply_debit_done s.ledger id a p in
      rw
        (
          validate_debit-apply_debit s.ledger id a ∙ ap (λ x. x.0) accepted,
          reserve,
          ap (λ x. x.0) accepted,
        )
        (ap (λ x. (ok tt, x.1)) accepted)

  -- A debit that is covered, of a transaction that is new, is prepared.
  pub prepare_debit_done :
      (s : ShardServer)
      → lookup t s.seen_txns ≡ none
      → IsWorking s.wal_log
      → CanDebit s.ledger id a
      → Prepared op_debit (debited s.ledger) s
  prepare_debit_done s unseen h p =
      prepare_reserved op_debit s (debited s.ledger) unseen h (reserve_debit_done s p)

  -- So is a credit of a known account.
  pub prepare_credit_done :
      (s : ShardServer) (v : ℤ)
      → lookup t s.seen_txns ≡ none
      → IsWorking s.wal_log
      → lookup id s.ledger.balances ≡ some v
      → Prepared op_credit s.ledger s
  unfolding reserve set_txn_state account_exists contains
  prepare_credit_done s v unseen h known =
      prepare_reserved op_credit s s.ledger unseen h (ground (arith, known))

  pub prepare_debit-cases :
      (s : ShardServer)
      → lookup t s.seen_txns ≡ none
      → IsWorking s.wal_log
      → Refused op_debit s ⊎ (CanDebit s.ledger id a × Prepared op_debit (debited s.ledger) s)
  unfolding reserve set_txn_state
  prepare_debit-cases s unseen h = elim (apply_debit-cases s.ledger id a) [
    | inl (e, rejected) ↦ inl (
        prepare-Refused op_debit s (prepare_rejected e) unseen
          (rw (validate_debit-apply_debit s.ledger id a ∙ ap (λ x. x.0) rejected, reserve)))
    | inr (p, accepted) ↦ inr (p, prepare_debit_done s unseen h p)
  ]

  pub prepare_credit-cases :
      (s : ShardServer)
      → lookup t s.seen_txns ≡ none
      → IsWorking s.wal_log
      → Refused op_credit s
        ⊎ (((v : ℤ) × (lookup id s.ledger.balances ≡ some v)) × Prepared op_credit s.ledger s)
  unfolding reserve set_txn_state account_exists contains
  prepare_credit-cases s unseen h = elim (Option-cases (lookup id s.ledger.balances)) [
    | inl absent ↦
        inl (prepare-Refused op_credit s (account_not_found id) unseen (ground (arith, absent)))
    | inr (v, known) ↦ inr ((v, known), prepare_credit_done s v unseen h known)
  ]
