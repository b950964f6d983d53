-- ===== src/TwoPc/Reuse.antt =====
-- A transaction ID that comes a second time, for a transfer to another shard.
use software_course_project.TwoPc.Atomic.{reliable, retry_reliable, IsReady, execute_when}
use software_course_project.TwoPc.{answered, commit_with_retry, commit_all, execute}
use software_course_project.Server.Reservation.Ending.{commit_credit}
use software_course_project.Server.Reservation.{credited, prepare_credit_done}
use software_course_project.Server.TwoPhase.{prepare_transaction, commit_transaction}
use software_course_project.Server.State.{ShardServer, get_txn_state}
use software_course_project.Model.{Transaction, committed, op_debit, op_credit}
use software_course_project.Dict.{lookup}
use software_course_project.Prelude.Int.{ℤ, pos, ◌≤ℤ◌}
use software_course_project.Prelude.{◌∙◌, refl, ap, true, some, string_eq, ok, ◌≡◌}

module _ (txn : Transaction) (src dst : ShardServer) where
  source_agrees :
      lookup txn.txn_id src.seen_txns ≡ some committed
      → prepare_transaction txn.txn_id op_debit txn.source txn.amount src ≡ (ok tt, src)
  unfolding prepare_transaction get_txn_state
  source_agrees known = rw (known, prepare_transaction) refl

  source_ends :
      lookup txn.txn_id src.seen_txns ≡ some committed
      → commit_transaction txn.txn_id op_debit txn.source txn.amount src ≡ (ok tt, src)
  unfolding commit_transaction get_txn_state
  source_ends known = rw (known, commit_transaction) refl

  source_unmoved :
      lookup txn.txn_id src.seen_txns ≡ some committed
      → (commit_with_retry txn.txn_id op_debit txn.source txn.amount
          (reliable (prepare_transaction txn.txn_id op_debit txn.source txn.amount src).1)).1
        ≡ reliable src
  source_unmoved known =
      let again = source_ends known in
      rw (ap (λ x. x.1) (source_agrees known)) (
        retry_reliable txn.txn_id op_debit txn.source txn.amount src (ap (λ x. x.0) again)
        ∙ ap (λ x. reliable x.1) again)

  -- A shard remembers of a transaction its ID and state alone. If the ID is that of a transaction
  -- that the source's shard has committed, and the destination's shard has not seen it, whose disk
  -- works and where the account exists, then the two-phase commit of any positive amount, covered or
  -- not, over a network that loses nothing, answers COMMITTED: the destination receives the amount,
  -- and nothing is taken from the source.
  pub execute_reused_id :
      lookup txn.txn_id src.seen_txns ≡ some committed
      → IsReady txn.txn_id dst
      → (v : ℤ) → lookup txn.destination dst.ledger.balances ≡ some v
      → pos 1 ≤ℤ txn.amount
      → let (r, (src', dst')) = execute txn (reliable src, reliable dst) in
        (r.state ≡ committed)
        × (src'.server ≡ src)
        × (dst'.server.ledger ≡ credited txn.txn_id txn.destination txn.amount dst.ledger)
  unfolding commit_all
  execute_reused_id known hd v account positive =
      let second = (prepare_transaction txn.txn_id op_credit txn.destination txn.amount dst).1 in
      let (accepts, held) =
        prepare_credit_done txn.txn_id txn.destination txn.amount dst v hd.unseen hd.working
          account in
      let (credit_ok, received) =
        commit_credit txn.txn_id txn.destination txn.amount dst.ledger second v held account
          positive in
      rw
        (execute_when txn src dst true true (ap (λ x. answered x.0) (source_agrees known))
          (ap answered accepts))
        (
          refl,
          ap (λ r. r.server) (source_unmoved known),
          ap (λ r. r.server.ledger)
                (retry_reliable txn.txn_id op_credit txn.destination txn.amount second credit_ok)
              ∙ received,
        )
