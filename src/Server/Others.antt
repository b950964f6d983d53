-- ===== src/Server/Others.antt =====
-- What a transaction leaves of the others: a shard that has not seen a transaction, and whose disk
-- works, is so after any method for another transaction.
pub mod Phases
use software_course_project.Server.Single.{
  commit_leg, apply_leg, credit_leg, debit_leg, validate_leg, execute_single_shard,
}
use software_course_project.Server.State.{
  ShardServer, replicate_if_set, replicated_entry, set_txn_state, delete_txn_state, get_txn_state,
  count_committed, count_aborted, add_recent_txn, mark_aborted_quietly,
}
use software_course_project.Wal.Working.{
  IsWorking, logged-IsWorking, append_working, mark_committed_working, mark_aborted_working,
}
use software_course_project.Wal.{Wal, append, mark_committed, mark_aborted}
use software_course_project.Model.{
  TransactionState, OperationType, WalEntry, Transaction, pending, committed, aborted, op_debit,
  op_credit,
}
use software_course_project.Ledger.{apply_transfer, validate_debit}
use software_course_project.Dict.Laws.{lookup-insert_ne, lookup-erase_ne}
use software_course_project.Dict.{Dict, lookup, insert, erase}
use software_course_project.Prelude.Int.{ℤ}
use software_course_project.Prelude.{
  ◌≡◌, ◌≢◌, ◌∙◌, sym, inl, inr, none, String, string_eq, Option-cases, Result-cases,
}
use mathlib.Core.Path.{subst}

-- The shard has not seen the transaction, and its disk works.
pub record IsClean (t : String) (seen : Dict String TransactionState) (w : Wal) : Type 0 where
  pub unseen : lookup t seen ≡ none
  pub working : IsWorking w

abbrev pub IsFresh : String → ShardServer → Type 0
IsFresh t s = IsClean t s.seen_txns s.wal_log

module _ (t u : String) (other : t ≢ u) where
  pub insert-IsClean :
      (state : TransactionState) (seen : Dict String TransactionState) (w : Wal)
      → IsClean t seen w
      → IsClean t (insert u state seen) w
  insert-IsClean state seen w h = record {
    unseen = lookup-insert_ne t u state seen other ∙ h.unseen;
    working = h.working;
  }

  pub erase-IsClean :
      (seen : Dict String TransactionState) (w : Wal)
      → IsClean t seen w
      → IsClean t (erase u seen) w
  erase-IsClean seen w h = record {
    unseen = lookup-erase_ne t u seen other ∙ h.unseen;
    working = h.working;
  }

  pub append-IsClean :
      (op : OperationType) (id : String) (a : ℤ) (seen : Dict String TransactionState) (w : Wal)
      → IsClean t seen w
      → IsClean t seen (append u op id a w).1
  append-IsClean op id a seen w h = record {
    unseen = h.unseen;
    working =
        subst (λ x. IsWorking x.1) (sym (append_working w h.working u op id a))
          (logged-IsWorking _ w h.working);
  }

  pub mark_committed-IsClean :
      (seen : Dict String TransactionState) (w : Wal)
      → IsClean t seen w
      → IsClean t seen (mark_committed u w).1
  mark_committed-IsClean seen w h = record {
    unseen = h.unseen;
    working =
        subst (λ x. IsWorking x.1) (sym (mark_committed_working w h.working u))
          (logged-IsWorking _ w h.working);
  }

  pub mark_aborted-IsClean :
      (seen : Dict String TransactionState) (w : Wal)
      → IsClean t seen w
      → IsClean t seen (mark_aborted u w).1
  mark_aborted-IsClean seen w h = record {
    unseen = h.unseen;
    working =
        subst (λ x. IsWorking x.1) (sym (mark_aborted_working w h.working u))
          (logged-IsWorking _ w h.working);
  }

  pub replicate_if_set-IsFresh :
      (e : WalEntry) (s : ShardServer) → IsFresh t s → IsFresh t (replicate_if_set e s).1
  unfolding replicate_if_set
  replicate_if_set-IsFresh e s h = elim (Option-cases s.replicator) [
    | inl single ↦ rw single h
    | inr (p, set) ↦ rw set h
  ]

module _ (t : String) (txn : Transaction) (other : t ≢ txn.txn_id) where
  commit_leg-IsFresh : (s : ShardServer) → IsFresh t s → IsFresh t (commit_leg txn s).1
  unfolding commit_leg set_txn_state count_committed add_recent_txn
  commit_leg-IsFresh s h =
      let marked = mark_committed-IsClean t txn.txn_id other s.seen_txns s.wal_log h in
      let ends = insert-IsClean t txn.txn_id other committed s.seen_txns _ marked in
      elim (Result-cases (mark_committed txn.txn_id s.wal_log).0) [
        | inl (done, e) ↦ rw (e, commit_leg) ends
        | inr (x, e) ↦ rw (e, commit_leg) ends
      ]

  apply_leg-IsFresh : (s : ShardServer) → IsFresh t s → IsFresh t (apply_leg txn s).1
  unfolding apply_leg set_txn_state count_aborted mark_aborted_quietly
  apply_leg-IsFresh s h =
      let marked = mark_aborted-IsClean t txn.txn_id other s.seen_txns s.wal_log h in
      let moved = apply_transfer s.ledger txn.source txn.destination txn.amount in
      elim (Result-cases moved.0) [
        | inl (done, e) ↦ rw (e, apply_leg) (commit_leg-IsFresh (record s { ledger = moved.1 }) h)
        | inr (x, e) ↦
            rw (e, apply_leg) (insert-IsClean t txn.txn_id other aborted s.seen_txns _ marked)
      ]

  -- A leg that logs an entry and sends it to the followers, before the leg after it.
  leg-IsFresh :
      (op : OperationType) (id : String) (s : ShardServer)
      → IsFresh t s
      → IsFresh t (record s { wal_log = (append txn.txn_id op id txn.amount s.wal_log).1 })
  leg-IsFresh op id s h = append-IsClean t txn.txn_id other op id txn.amount s.seen_txns s.wal_log h

  credit_leg-IsFresh : (s : ShardServer) → IsFresh t s → IsFresh t (credit_leg txn s).1
  unfolding credit_leg delete_txn_state
  credit_leg-IsFresh s h =
      let (r, w) = append txn.txn_id op_credit txn.destination txn.amount s.wal_log in
      let s' = record s { wal_log = w } in
      let wrote = leg-IsFresh op_credit txn.destination s h in
      elim (Result-cases r) [
        | inr (x, e) ↦ rw (e, credit_leg) (erase-IsClean t txn.txn_id other s.seen_txns w wrote)
        | inl (n, e) ↦
            let entry = replicated_entry n txn.txn_id op_credit txn.destination txn.amount in
            let sent = replicate_if_set-IsFresh t txn.txn_id other entry s' wrote in
            elim (Result-cases (replicate_if_set entry s').0) [
              | inr (x, e') ↦ rw (e, credit_leg, e') (erase-IsClean t txn.txn_id other _ _ sent)
              | inl (done, e') ↦ rw (e, credit_leg, e') (apply_leg-IsFresh _ sent)
            ]
      ]

  debit_leg-IsFresh : (s : ShardServer) → IsFresh t s → IsFresh t (debit_leg txn s).1
  unfolding debit_leg delete_txn_state
  debit_leg-IsFresh s h =
      let (r, w) = append txn.txn_id op_debit txn.source txn.amount s.wal_log in
      let s' = record s { wal_log = w } in
      let wrote = leg-IsFresh op_debit txn.source s h in
      elim (Result-cases r) [
        | inr (x, e) ↦ rw (e, debit_leg) (erase-IsClean t txn.txn_id other s.seen_txns w wrote)
        | inl (n, e) ↦
            let entry = replicated_entry n txn.txn_id op_debit txn.source txn.amount in
            let sent = replicate_if_set-IsFresh t txn.txn_id other entry s' wrote in
            elim (Result-cases (replicate_if_set entry s').0) [
              | inr (x, e') ↦ rw (e, debit_leg, e') (erase-IsClean t txn.txn_id other _ _ sent)
              | inl (done, e') ↦ rw (e, debit_leg, e') (credit_leg-IsFresh _ sent)
            ]
      ]

  pub execute_single_shard-IsFresh :
      (s : ShardServer) → IsFresh t s → IsFresh t (execute_single_shard txn s).1
  unfolding execute_single_shard validate_leg get_txn_state set_txn_state count_aborted
      mark_aborted_quietly
  execute_single_shard-IsFresh s h =
      let waits = insert-IsClean t txn.txn_id other pending s.seen_txns s.wal_log h in
      let ends =
        insert-IsClean t txn.txn_id other aborted (insert txn.txn_id pending s.seen_txns) s.wal_log
          waits in
      elim (Option-cases (lookup txn.txn_id s.seen_txns)) [
        | inr (state, known) ↦ rw (known, execute_single_shard) h
        | inl new ↦ elim (Result-cases (validate_debit s.ledger txn.source txn.amount)) [
          | inr (x, e) ↦
              rw (new, execute_single_shard, e, validate_leg)
                (mark_aborted-IsClean t txn.txn_id other _ s.wal_log ends)
          | inl (done, e) ↦
              rw (new, execute_single_shard, e, validate_leg)
                (debit_leg-IsFresh (record s { seen_txns = insert txn.txn_id pending s.seen_txns })
                  waits)
        ]
      ]
