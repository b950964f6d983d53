-- ===== src/Server/Others/Phases.antt =====
-- What the two phases of a transaction leave of the others.
use software_course_project.Server.Others.{
  IsFresh, insert-IsClean, erase-IsClean, append-IsClean, mark_committed-IsClean,
  mark_aborted-IsClean, replicate_if_set-IsFresh,
}
use software_course_project.Server.TwoPhase.{
  reserve, log_prepared, prepare_new, agreed, prepare_transaction, deliver_funds, log_committed,
  commit_new, commit_transaction, abort_new, abort_transaction,
}
use software_course_project.Server.State.{
  ShardServer, replicate_if_set, replicated_entry, set_txn_state, delete_txn_state, get_txn_state,
  count_committed, count_aborted, count_prepared, add_recent_txn, mark_aborted_quietly,
}
use software_course_project.Wal.{append, mark_committed, mark_aborted}
use software_course_project.Model.{
  OperationType, pending, prepared, committed, aborted, op_prepared,
}
use software_course_project.Dict.{lookup}
use software_course_project.Prelude.Int.{ℤ}
use software_course_project.Prelude.{
  ◌≢◌, inl, inr, String, string_eq, Option-cases, Result-cases, Bool-cases,
}

module _ (t u : String) (other : t ≢ u) (id : String) (a : ℤ) where
  log_prepared-IsFresh :
      (op : OperationType) (s : ShardServer) → IsFresh t s → IsFresh t (log_prepared u op id a s).1
  unfolding log_prepared set_txn_state delete_txn_state count_prepared
  log_prepared-IsFresh op s h =
      let wrote = append-IsClean t u other op_prepared id a s.seen_txns s.wal_log h in
      elim (Result-cases (append u op_prepared id a s.wal_log).0) [
        | inl (n, e) ↦ rw (e, log_prepared) (insert-IsClean t u other prepared s.seen_txns _ wrote)
        | inr (x, e) ↦ rw (e, log_prepared) (erase-IsClean t u other s.seen_txns _ wrote)
      ]

  prepare_new-IsFresh :
      (op : OperationType) (s : ShardServer) → IsFresh t s → IsFresh t (prepare_new u op id a s).1
  unfolding prepare_new set_txn_state mark_aborted_quietly
  prepare_new-IsFresh op s h =
      let (r, l) = reserve u op id a s in
      let marked = mark_aborted-IsClean t u other s.seen_txns s.wal_log h in
      elim (Result-cases r) [
        | inl (done, e) ↦ rw (e, prepare_new) (log_prepared-IsFresh op (record s { ledger = l }) h)
        | inr (x, e) ↦ rw (e, prepare_new) (insert-IsClean t u other aborted s.seen_txns _ marked)
      ]

  pub prepare_transaction-IsFresh :
      (op : OperationType) (s : ShardServer)
      → IsFresh t s
      → IsFresh t (prepare_transaction u op id a s).1
  unfolding prepare_transaction get_txn_state set_txn_state
  prepare_transaction-IsFresh op s h =
      let waits = insert-IsClean t u other pending s.seen_txns s.wal_log h in
      elim (Option-cases (lookup u s.seen_txns)) [
        | inl new ↦
            rw (new, prepare_transaction) (prepare_new-IsFresh op (set_txn_state u pending s) waits)
        | inr (state, known) ↦ elim (Bool-cases (agreed state)) [
          | inl same ↦ rw (known, prepare_transaction, same) h
          | inr apart ↦ rw (known, prepare_transaction, apart) h
        ]
      ]

  log_committed-IsFresh : (s : ShardServer) → IsFresh t s → IsFresh t (log_committed u id a s).1
  unfolding log_committed set_txn_state count_committed add_recent_txn
  log_committed-IsFresh s h =
      let marked = mark_committed-IsClean t u other s.seen_txns s.wal_log h in
      let ends = insert-IsClean t u other committed s.seen_txns _ marked in
      elim (Result-cases (mark_committed u s.wal_log).0) [
        | inl (done, e) ↦ rw (e, log_committed) ends
        | inr (x, e) ↦ rw (e, log_committed) ends
      ]

  commit_new-IsFresh :
      (op : OperationType) (s : ShardServer) → IsFresh t s → IsFresh t (commit_new u op id a s).1
  unfolding commit_new
  commit_new-IsFresh op s h =
      let (r, w) = append u op id a s.wal_log in
      let wrote = append-IsClean t u other op id a s.seen_txns s.wal_log h in
      elim (Result-cases r) [
        | inr (x, e) ↦ rw (e, commit_new) wrote
        | inl (n, e) ↦
            let s' = record s { wal_log = w } in
            let s'' = (replicate_if_set (replicated_entry n u op id a) s').1 in
            let sent = replicate_if_set-IsFresh t u other (replicated_entry n u op id a) s' wrote in
            let (q, l) = deliver_funds op id a s''.ledger in
            elim (Result-cases q) [
              | inr (x, e') ↦ rw (e, commit_new, e') sent
              | inl (done, e') ↦
                  rw (e, commit_new, e') (log_committed-IsFresh (record s'' { ledger = l }) sent)
            ]
      ]

  pub commit_transaction-IsFresh :
      (op : OperationType) (s : ShardServer)
      → IsFresh t s
      → IsFresh t (commit_transaction u op id a s).1
  unfolding commit_transaction get_txn_state
  commit_transaction-IsFresh op s h =
      let again = commit_new-IsFresh op s h in
      elim (Option-cases (lookup u s.seen_txns)) [
        | inl new ↦ rw (new, commit_transaction) again
        | inr (committed, known) ↦ rw (known, commit_transaction) h
        | inr (aborted, known) ↦ rw (known, commit_transaction) h
        | inr (pending, known) ↦ rw (known, commit_transaction) again
        | inr (prepared, known) ↦ rw (known, commit_transaction) again
      ]

  abort_new-IsFresh :
      (op : OperationType) (s : ShardServer) → IsFresh t s → IsFresh t (abort_new u op id a s).1
  unfolding abort_new set_txn_state count_aborted
  abort_new-IsFresh op s h =
      let marked = mark_aborted-IsClean t u other s.seen_txns s.wal_log h in
      elim (Result-cases (mark_aborted u s.wal_log).0) [
        | inl (done, e) ↦ rw (e, abort_new) (insert-IsClean t u other aborted s.seen_txns _ marked)
        | inr (x, e) ↦ rw (e, abort_new) marked
      ]

  pub abort_transaction-IsFresh :
      (op : OperationType) (s : ShardServer)
      → IsFresh t s
      → IsFresh t (abort_transaction u op id a s).1
  unfolding abort_transaction get_txn_state
  abort_transaction-IsFresh op s h =
      let again = abort_new-IsFresh op s h in
      elim (Option-cases (lookup u s.seen_txns)) [
        | inl new ↦ rw (new, abort_transaction) again
        | inr (aborted, known) ↦ rw (known, abort_transaction) h
        | inr (committed, known) ↦ rw (known, abort_transaction) again
        | inr (pending, known) ↦ rw (known, abort_transaction) again
        | inr (prepared, known) ↦ rw (known, abort_transaction) again
      ]
