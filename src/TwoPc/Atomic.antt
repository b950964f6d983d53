-- ===== src/TwoPc/Atomic.antt =====
-- Atomicity of the two-phase commit over a network that loses nothing.
use software_course_project.Prelude.{
  ◌≡◌, ◌∙◌, refl, ap, inl, inr, ◌⊎◌, Bool, true, false, ◌&&◌, none, some, [], String, string_eq, ok,
  if◌then◌else◌,
}
use software_course_project.Prelude.Int.{ℤ, ◌+ℤ◌, ◌-ℤ◌, ◌≤ℤ◌, int_laws}
use software_course_project.Int64.{max_int64, InRange}
use software_course_project.Dict.{lookup}
use software_course_project.Ledger.{subtract, add}
use software_course_project.Ledger.Funds.{sum, IsSound, lookup-le-sum}
use software_course_project.Ledger.Exact.{sum-subtract, sum-add}
use software_course_project.Ledger.Reserve.{CanDebit}
use software_course_project.Model.{
  Transaction, TransactionResult, committed, aborted, op_debit, op_credit,
}
use software_course_project.Wal.Working.{IsWorking}
use software_course_project.Server.State.{ShardServer, Reply}
use software_course_project.Server.TwoPhase.{prepare_transaction, commit_transaction}
use software_course_project.Server.Reservation.{
  debited, credited, Prepared, Refused, prepare_debit-cases, prepare_credit-cases,
}
use software_course_project.Server.Reservation.Ending.{
  commit_debit, commit_credit, abort_debit, abort_credit,
}
use software_course_project.TwoPc.{
  Remote, Shards, call, answered, commit_attempts, commit_with_retry, send_prepares, commit_all,
  abort_all, execute,
}

-- Nothing is lost on the way to the shard.
abbrev pub reliable : ShardServer → Remote
reliable s = record { server = s; network = [] }

pub call-reliable :
    (f : ShardServer → Reply (Unit {0})) (s : ShardServer)
    → call f (reliable s) ≡ (answered (f s).0, reliable (f s).1)
unfolding call
call-reliable f s = refl

pub retry_reliable :
    (t : String) (op : _) (id : String) (a : ℤ) (s : ShardServer)
    → (commit_transaction t op id a s).0 ≡ ok tt
    → (commit_with_retry t op id a (reliable s)).1 ≡ reliable (commit_transaction t op id a s).1
unfolding commit_with_retry commit_attempts call
retry_reliable t op id a s served = rw served

-- A shard that has not seen the transaction, whose disk works and whose balances are `int64`s.
pub record IsReady (t : String) (s : ShardServer) : Type 0 where
  pub unseen : lookup t s.seen_txns ≡ none
  pub working : IsWorking s.wal_log
  pub fits : (id : String) {v : ℤ} → lookup id s.ledger.balances ≡ some v → InRange v

module _ (txn : Transaction) (src dst : ShardServer) where
  -- Both shards move the money, or neither ledger changes.
  abbrev pub Atomic : TransactionResult × Shards → Type 0
  Atomic (r, (src', dst')) =
      ((r.state ≡ committed)
        × CanDebit src.ledger txn.source txn.amount
        × ((v : ℤ) × (lookup txn.destination dst.ledger.balances ≡ some v))
        × (src'.server.ledger ≡ debited txn.txn_id txn.source txn.amount src.ledger)
        × (dst'.server.ledger ≡ credited txn.txn_id txn.destination txn.amount dst.ledger))
      ⊎ ((r.state ≡ aborted)
          × (src'.server.ledger ≡ src.ledger)
          × (dst'.server.ledger ≡ dst.ledger))

  abbrev first : ShardServer
  first = (prepare_transaction txn.txn_id op_debit txn.source txn.amount src).1

  abbrev second : ShardServer
  second = (prepare_transaction txn.txn_id op_credit txn.destination txn.amount dst).1

  pub execute_when :
      (b c : Bool)
      → answered (prepare_transaction txn.txn_id op_debit txn.source txn.amount src).0 ≡ b
      → answered (prepare_transaction txn.txn_id op_credit txn.destination txn.amount dst).0 ≡ c
      → execute txn (reliable src, reliable dst) ≡ (
          if b && c
          then commit_all txn (reliable first, reliable second)
          else abort_all txn b c (reliable first, reliable second))
  unfolding execute send_prepares call
  execute_when b c eb ec = rw (eb, ec)

  both-Prepared :
      CanDebit src.ledger txn.source txn.amount
      → Prepared txn.txn_id txn.source txn.amount op_debit
          (debited txn.txn_id txn.source txn.amount src.ledger)
          src
      → (v : ℤ) → lookup txn.destination dst.ledger.balances ≡ some v
      → Prepared txn.txn_id txn.destination txn.amount op_credit dst.ledger dst
      → Atomic (execute txn (reliable src, reliable dst))
  unfolding commit_all
  both-Prepared p (d, held) v known (c, agreed) =
      let (debit_ok, paid) =
        commit_debit txn.txn_id txn.source txn.amount
          (debited txn.txn_id txn.source txn.amount src.ledger) first held in
      let (credit_ok, received) =
        commit_credit txn.txn_id txn.destination txn.amount dst.ledger second v agreed known
          p.positive in
      rw (execute_when true true (ap answered d) (ap answered c)) (
        inl (
          refl,
          p,
          (v, known),
          ap (λ r. r.server.ledger)
                (retry_reliable txn.txn_id op_debit txn.source txn.amount first debit_ok)
              ∙ paid,
          ap (λ r. r.server.ledger)
                (retry_reliable txn.txn_id op_credit txn.destination txn.amount second credit_ok)
              ∙ received,
        ))

  source_alone :
      (p : CanDebit src.ledger txn.source txn.amount)
      → InRange p.held
      → Prepared txn.txn_id txn.source txn.amount op_debit
          (debited txn.txn_id txn.source txn.amount src.ledger)
          src
      → Refused txn.txn_id txn.destination txn.amount op_credit dst
      → Atomic (execute txn (reliable src, reliable dst))
  unfolding abort_all call
  source_alone p fits (d, held) ((e, c), same) =
      rw (execute_when true false (ap answered d) (ap answered c)) (
        inr (refl, abort_debit txn.txn_id txn.source txn.amount src.ledger first p fits held, same))

  dest_alone :
      Refused txn.txn_id txn.source txn.amount op_debit src
      → Prepared txn.txn_id txn.destination txn.amount op_credit dst.ledger dst
      → Atomic (execute txn (reliable src, reliable dst))
  unfolding abort_all call
  dest_alone ((e, d), same) (c, agreed) =
      rw (execute_when false true (ap answered d) (ap answered c)) (
        inr
          (refl, same, abort_credit txn.txn_id txn.destination txn.amount dst.ledger second agreed))

  both-Refused :
      Refused txn.txn_id txn.source txn.amount op_debit src
      → Refused txn.txn_id txn.destination txn.amount op_credit dst
      → Atomic (execute txn (reliable src, reliable dst))
  unfolding abort_all call
  both-Refused ((e, d), same) ((e', c), same') =
      rw (execute_when false false (ap answered d) (ap answered c)) (inr (refl, same, same'))

  Atomic-conserves :
      IsSound src.ledger
      → IsSound dst.ledger
      → sum src.ledger.balances +ℤ sum dst.ledger.balances ≤ℤ max_int64
      → (x : TransactionResult × Shards) → Atomic x
      → sum x.1.0.server.ledger.balances +ℤ sum x.1.1.server.ledger.balances
        ≡ sum src.ledger.balances +ℤ sum dst.ledger.balances
  Atomic-conserves ss sd room (r, (src', dst')) (inr (state, same, same')) = rw (same, same')
  Atomic-conserves ss sd room (r, (src', dst')) (inl (state, p, (v, known), paid, received)) =
      let a = txn.amount in
      let taken : sum (subtract txn.source a src.ledger.balances) ≡ sum src.ledger.balances -ℤ a =
        sum-subtract txn.source a src.ledger.balances p.known ss.no_negative p.positive ss.bounded
          p.covered in
      let given : sum (add txn.destination a dst.ledger.balances) ≡ sum dst.ledger.balances +ℤ a =
        sum-add txn.destination a dst.ledger.balances known sd.no_negative p.positive (
          omega (
            int_laws,
            room,
            p.covered,
            lookup-le-sum txn.source p.held src.ledger.balances ss.no_negative p.known,
          )) in
      rw (paid, received, taken, given) (omega int_laws)

  -- The two-phase commit is atomic: on two shards that have not seen the transaction and whose disks
  -- work, over a network that loses nothing, it answers COMMITTED, and the source pays and the
  -- destination receives the amount, or it answers ABORTED, and both ledgers are as before. The
  -- shards may have followers that do not answer.
  pub execute-Atomic :
      IsReady txn.txn_id src
      → IsReady txn.txn_id dst
      → Atomic (execute txn (reliable src, reliable dst))
  execute-Atomic hs hd =
      let source_answer =
        prepare_debit-cases txn.txn_id txn.source txn.amount src hs.unseen hs.working in
      let dest_answer =
        prepare_credit-cases txn.txn_id txn.destination txn.amount dst hd.unseen hd.working in
      elim source_answer [
        | inl d ↦ elim dest_answer [ inl c ↦ both-Refused d c | inr (_, c) ↦ dest_alone d c ]
        | inr (p, d) ↦ elim dest_answer [
          | inl c ↦ source_alone p (hs.fits txn.source p.known) d c
          | inr ((v, known), c) ↦ both-Prepared p d v known c
        ]
      ]

  -- Money is neither made nor lost between the shards: on sound ledgers whose common total is within
  -- 64 bits, a two-phase commit over a network that loses nothing leaves that total as it was, with
  -- whichever answer.
  pub execute_conserves :
      IsReady txn.txn_id src
      → IsReady txn.txn_id dst
      → IsSound src.ledger
      → IsSound dst.ledger
      → sum src.ledger.balances +ℤ sum dst.ledger.balances ≤ℤ max_int64
      → let (r, (src', dst')) = execute txn (reliable src, reliable dst) in
        sum src'.server.ledger.balances +ℤ sum dst'.server.ledger.balances
        ≡ sum src.ledger.balances +ℤ sum dst.ledger.balances
  execute_conserves hs hd ss sd room =
      Atomic-conserves ss sd room (execute txn (reliable src, reliable dst)) (execute-Atomic hs hd)
