-- ===== src/TwoPc/Tests.antt =====
-- Two shards with one account each.
use software_course_project.TwoPc.Reuse.{execute_reused_id}
use software_course_project.TwoPc.Repeat.{execute_twice}
use software_course_project.Server.Reservation.{debited, credited}
use software_course_project.TwoPc.Progress.{behind, execute_gets_through}
use software_course_project.Fixtures.{alices, bobs, alice_to_bob, alices-IsReady, bobs-IsReady}
use software_course_project.Prelude.{◌≡◌, refl, [], ◌∷◌, string_eq, arith, if◌then◌else◌}
use software_course_project.Prelude.Int.{pos}
use software_course_project.Dict.{contains, lookup}
use software_course_project.Ledger.{apply_credit}
use software_course_project.Model.{Transaction, committed, op_credit}
use software_course_project.Server.State.{replicate_if_set, get_txn_state, ShardServer}
use software_course_project.Server.TwoPhase.{
  log_committed, deliver_funds, commit_new, commit_transaction,
}
use software_course_project.TwoPc.{reply_lost, request_lost, commit_with_retry, execute}
use software_course_project.TwoPc.Retry.{reaches, commit_with_retry_once}
use software_course_project.TwoPc.Atomic.{reliable, Atomic, execute-Atomic}
use software_course_project.Wal.{mark_committed, write_entry, log_entry, append}

execute-Atomic_example :
    Atomic alice_to_bob alices bobs (execute alice_to_bob (reliable alices, reliable bobs))
execute-Atomic_example =
    execute-Atomic alice_to_bob alices bobs (alices-IsReady "x1") (bobs-IsReady "x1")

abbrev bobs_paid : ShardServer
bobs_paid = (commit_transaction "x1" op_credit "bob" (pos 30) bobs).1

-- The first request is lost, the answer to the second too.
commit_with_retry_once_example :
    (commit_with_retry "x1" op_credit "bob"
      (pos 30)
      (record { server = bobs; network = request_lost ∷ reply_lost ∷ [] })).1.server
    ≡ (if reaches 3 (request_lost ∷ reply_lost ∷ []) then bobs_paid else bobs)
unfolding commit_transaction get_txn_state lookup commit_new append log_entry write_entry
    deliver_funds apply_credit contains replicate_if_set log_committed mark_committed
commit_with_retry_once_example =
    commit_with_retry_once "x1" op_credit "bob" (pos 30) bobs bobs_paid refl
      (request_lost ∷ reply_lost ∷ [])

-- One COMMIT to the source is lost, and the answers of two to the destination.
execute_gets_through_example :
    let (r, (src', dst')) =
      execute alice_to_bob
        (behind alices (request_lost ∷ []), behind bobs (reply_lost ∷ reply_lost ∷ [])) in
    (r.state ≡ committed)
    × (src'.server.ledger ≡ debited "x1" "alice" (pos 30) alices.ledger)
    × (dst'.server.ledger ≡ credited "x1" "bob" (pos 30) bobs.ledger)
unfolding lookup reaches
execute_gets_through_example =
    execute_gets_through alice_to_bob alices bobs (request_lost ∷ []) (reply_lost ∷ reply_lost ∷ [])
      (alices-IsReady "x1") (bobs-IsReady "x1")
      (record { held = pos 100; known = refl; positive = omega arith; covered = omega arith }) refl
      refl refl

execute_twice_example :
    execute alice_to_bob (execute alice_to_bob (reliable alices, reliable bobs)).1
    ≡ execute alice_to_bob (reliable alices, reliable bobs)
execute_twice_example =
    execute_twice alice_to_bob alices bobs (alices-IsReady "x1") (bobs-IsReady "x1")

-- Alice's shard has committed a transaction with the same ID.
abbrev alices_before : ShardServer
alices_before = record alices { seen_txns = ("x1", committed) ∷ [] }

-- More than Alice has.
abbrev too_much : Transaction
too_much = record alice_to_bob { amount = pos 500 }

execute_reused_id_example :
    let (r, (src', dst')) = execute too_much (reliable alices_before, reliable bobs) in
    (r.state ≡ committed)
    × (src'.server ≡ alices_before)
    × (dst'.server.ledger ≡ credited "x1" "bob" (pos 500) bobs.ledger)
unfolding lookup
execute_reused_id_example =
    execute_reused_id too_much alices_before bobs refl (bobs-IsReady "x1") (pos 50) refl
      (omega arith)
