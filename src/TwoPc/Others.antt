-- ===== src/TwoPc/Others.antt =====
-- What the two-phase commit of a transaction leaves on its shards for the ones that come next.
use software_course_project.TwoPc.Atomic.{reliable, call-reliable, IsReady, Atomic, execute-Atomic}
use software_course_project.TwoPc.{
  Remote, Shards, call, commit_attempts, commit_with_retry, send_prepares, commit_all, abort_all,
  execute,
}
use software_course_project.Server.Others.Phases.{
  prepare_transaction-IsFresh, commit_transaction-IsFresh, abort_transaction-IsFresh,
}
use software_course_project.Server.Others.{IsFresh}
use software_course_project.Server.TwoPhase.{
  prepare_transaction, commit_transaction, abort_transaction,
}
use software_course_project.Server.State.{ShardServer, Reply}
use software_course_project.Model.{
  OperationType, op_debit, op_credit, Transaction, TransactionResult,
}
use software_course_project.Ledger.Exact.{
  sum-subtract, sum-add, subtract-NoNegative, add-NoNegative,
}
use software_course_project.Ledger.Funds.{sum, IsSound, lookup-le-sum, lookup_nonneg}
use software_course_project.Ledger.{subtract, add}
use software_course_project.Int64.{max_int64}
use software_course_project.Prelude.Int.{ℤ, ◌+ℤ◌, ◌-ℤ◌, ◌≤ℤ◌, int_laws}
use mathlib.Core.Path.{subst}
use software_course_project.Prelude.{
  ◌≢◌, refl, sym, inl, inr, String, string_eq, Bool, Bool-cases, true, false, ◌&&◌, ℕ, zero, suc,
  if◌then◌else◌, arith, ◌≡◌,
}

-- The network loses nothing, and the shard has not seen the transaction, has a disk that works, no
-- negative balance and at most 2^63 - 1 in all.
pub record IsQuiet (t : String) (r : Remote) : Type 0 where
  pub calm : r ≡ reliable r.server
  pub fresh : IsFresh t r.server
  pub sound : IsSound r.server.ledger

pub quiet-IsReady : (t : String) (r : Remote) → IsQuiet t r → IsReady t r.server
quiet-IsReady t r h = record {
  unseen = h.fresh.unseen;
  working = h.fresh.working;
  fits = λ id {v} known. record {
    lower = omega (arith, lookup_nonneg id v r.server.ledger.balances h.sound.no_negative known);
    upper = omega (
      arith,
      h.sound.bounded,
      lookup-le-sum id v r.server.ledger.balances h.sound.no_negative known,
    );
  };
}

module _ (t : String) where
  -- The network loses nothing, and the shard has not seen the transaction.
  abbrev pub IsUntouched : Remote → Type 0
  IsUntouched r = (r ≡ reliable r.server) × IsFresh t r.server

  call-IsUntouched :
      (f : ShardServer → Reply (Unit {0}))
      → ((s : ShardServer) → IsFresh t s → IsFresh t (f s).1)
      → (r : Remote) → IsUntouched r
      → IsUntouched (call f r).1
  call-IsUntouched f keeps r (calm, fresh) =
      subst (λ x. IsUntouched (call f x).1) (sym calm)
        (subst (λ x. IsUntouched x.1) (sym (call-reliable f r.server)) (refl, keeps r.server fresh))

  module _ (u : String) (other : t ≢ u) (op : OperationType) (id : String) (a : ℤ) where
    commit_attempts-IsUntouched :
        (n : ℕ) (r : Remote) → IsUntouched r → IsUntouched (commit_attempts n u op id a r).1
    unfolding commit_attempts
    commit_attempts-IsUntouched zero r h = h
    commit_attempts-IsUntouched (suc n) r h =
        let (nil, r') = call (commit_transaction u op id a) r in
        let once =
          call-IsUntouched (commit_transaction u op id a)
            (commit_transaction-IsFresh t u other id a op) r h in
        elim (Bool-cases nil) [
          | inl served ↦ rw served once
          | inr failed ↦ rw failed (commit_attempts-IsUntouched n r' once)
        ]

    commit_with_retry-IsUntouched :
        (r : Remote) → IsUntouched r → IsUntouched (commit_with_retry u op id a r).1
    unfolding commit_with_retry
    commit_with_retry-IsUntouched = commit_attempts-IsUntouched 3

    prepared-IsUntouched :
        (r : Remote) → IsUntouched r → IsUntouched (call (prepare_transaction u op id a) r).1
    prepared-IsUntouched =
        call-IsUntouched (prepare_transaction u op id a)
          (prepare_transaction-IsFresh t u other id a op)

    aborted_if :
        (sent : Bool) (r : Remote)
        → IsUntouched r
        → IsUntouched (if sent then (call (abort_transaction u op id a) r).1 else r)
    aborted_if true r h =
        call-IsUntouched (abort_transaction u op id a) (abort_transaction-IsFresh t u other id a op)
          r h
    aborted_if false r h = h

  module _ (txn : Transaction) (other : t ≢ txn.txn_id) where
    execute-IsUntouched :
        (p : Shards)
        → IsUntouched p.0
        → IsUntouched p.1
        → IsUntouched (execute txn p).1.0 × IsUntouched (execute txn p).1.1
    unfolding execute send_prepares commit_all abort_all
    execute-IsUntouched p hs hd =
        let (b, s) = call (prepare_transaction txn.txn_id op_debit txn.source txn.amount) p.0 in
        let (c, d) =
          call (prepare_transaction txn.txn_id op_credit txn.destination txn.amount) p.1 in
        let ks = prepared-IsUntouched txn.txn_id other op_debit txn.source txn.amount p.0 hs in
        let kd =
          prepared-IsUntouched txn.txn_id other op_credit txn.destination txn.amount p.1 hd in
        elim (Bool-cases (b && c)) [
          | inl agreed ↦ rw agreed (
            commit_with_retry-IsUntouched txn.txn_id other op_debit txn.source txn.amount s ks,
            commit_with_retry-IsUntouched txn.txn_id other op_credit txn.destination txn.amount d
                kd,
          )
          | inr refused ↦ rw refused (
            aborted_if txn.txn_id other op_debit txn.source txn.amount b s ks,
            aborted_if txn.txn_id other op_credit txn.destination txn.amount c d kd,
          )
        ]

module _ (txn : Transaction) (src dst : ShardServer) (ss : IsSound src.ledger)
    (sd : IsSound dst.ledger)
    (room : sum src.ledger.balances +ℤ sum dst.ledger.balances ≤ℤ max_int64) where
  -- The two-phase commit leaves sound ledgers sound.
  Atomic-IsSound :
      (x : TransactionResult × Shards)
      → Atomic txn src dst x
      → IsSound x.1.0.server.ledger × IsSound x.1.1.server.ledger
  Atomic-IsSound (r, (src', dst')) (inr (state, same, same')) =
      (subst IsSound (sym same) ss, subst IsSound (sym same') sd)
  Atomic-IsSound (r, (src', dst')) (inl (state, p, (v, known), paid, received)) =
      let a = txn.amount in
      let fits : sum dst.ledger.balances +ℤ a ≤ℤ max_int64 = omega (
        int_laws,
        room,
        p.covered,
        lookup-le-sum txn.source p.held src.ledger.balances ss.no_negative p.known,
      ) in
      let taken : sum (subtract txn.source a src.ledger.balances) ≡ sum src.ledger.balances -ℤ a =
        sum-subtract txn.source a src.ledger.balances p.known ss.no_negative p.positive ss.bounded
          p.covered in
      let given : sum (add txn.destination a dst.ledger.balances) ≡ sum dst.ledger.balances +ℤ a =
        sum-add txn.destination a dst.ledger.balances known sd.no_negative p.positive fits in
      (
        subst IsSound (sym paid) (record {
          no_negative =
              subtract-NoNegative txn.source a src.ledger.balances p.known ss.no_negative p.positive
                ss.bounded p.covered;
          bounded = rw taken (omega (int_laws, ss.bounded, p.positive));
        }),
        subst IsSound (sym received) (record {
          no_negative =
              add-NoNegative txn.destination a dst.ledger.balances known sd.no_negative p.positive
                fits;
          bounded = rw given fits;
        }),
      )

module _ (t : String) (txn : Transaction) (other : t ≢ txn.txn_id) (s d : Remote) (hs : IsQuiet t s)
    (hd : IsQuiet t d) (ms : IsReady txn.txn_id s.server) (md : IsReady txn.txn_id d.server)
    (room : sum s.server.ledger.balances +ℤ sum d.server.ledger.balances ≤ℤ max_int64) where
  -- After it, both shards are ready for another transaction that they were ready for.
  pub execute-IsQuiet : IsQuiet t (execute txn (s, d)).1.0 × IsQuiet t (execute txn (s, d)).1.1
  execute-IsQuiet =
      let ((calm, fresh), (calm', fresh')) =
        execute-IsUntouched t txn other (s, d) (hs.calm, hs.fresh) (hd.calm, hd.fresh) in
      let both : Path Shards (reliable s.server, reliable d.server) (s, d) =
        λ i. (sym hs.calm i, sym hd.calm i) in
      let (sound, sound') =
        subst
          (λ p.
            IsSound (execute txn p).1.0.server.ledger × IsSound (execute txn p).1.1.server.ledger)
          both
          (Atomic-IsSound txn s.server d.server hs.sound hd.sound room
            (execute txn (reliable s.server, reliable d.server))
            (execute-Atomic txn s.server d.server ms md)) in
      (
        record { calm = calm; fresh = fresh; sound = sound },
        record { calm = calm'; fresh = fresh'; sound = sound' },
      )
