-- ===== src/TwoPc/Progress.antt =====
-- A transaction that can be paid gets through, also where the network loses some of the requests.
use software_course_project.Prelude.{
  ◌≡◌, ◌∙◌, refl, ap, true, some, List, ◌∷◌, String, string_eq, ok,
}
use software_course_project.Prelude.Int.{ℤ}
use software_course_project.Dict.{lookup}
use software_course_project.Ledger.Reserve.{CanDebit}
use software_course_project.Model.{Transaction, OperationType, committed, op_debit, op_credit}
use software_course_project.Server.State.{ShardServer}
use software_course_project.Server.TwoPhase.{prepare_transaction, commit_transaction}
use software_course_project.Server.Reservation.{
  debited, credited, prepare_debit_done, prepare_credit_done,
}
use software_course_project.Server.Reservation.Ending.{commit_debit, commit_credit}
use software_course_project.TwoPc.{
  Delivery, delivered, Remote, call, answered, commit_with_retry, send_prepares, commit_all,
  execute,
}
use software_course_project.TwoPc.Retry.{reaches, commit_with_retry_once}
use software_course_project.TwoPc.Atomic.{IsReady}

-- A shard behind a network that delivers the next request and then does as `later` says.
abbrev pub behind : ShardServer → List Delivery → Remote
behind s later = record { server = s; network = delivered ∷ later }

-- A commit that the shard would serve is served if one of the three requests gets through.
commit_arrives :
    (t : String) (op : OperationType) (id : String) (a : ℤ) (s : ShardServer)
    (network : List Delivery)
    → (commit_transaction t op id a s).0 ≡ ok tt
    → reaches 3 network ≡ true
    → (commit_with_retry t op id a (record { server = s; network = network })).1.server
      ≡ (commit_transaction t op id a s).1
commit_arrives t op id a s network serves through =
    commit_with_retry_once t op id a s (commit_transaction t op id a s).1
      (ap (λ r. (r, (commit_transaction t op id a s).1)) serves) network
    ∙ rw through refl

module _ (txn : Transaction) (src dst : ShardServer) (n m : List Delivery) where
  -- A transfer between two shards that have not seen the transaction, whose disks work, of an amount
  -- that the source covers to an account that exists, is COMMITTED and done on both shards, if the
  -- network delivers both PREPAREs with their answers and, on each side, at least one of the three
  -- COMMITs, with or without its answer; nothing else is asked of the network.
  pub execute_gets_through :
      {v : ℤ}
      → IsReady txn.txn_id src
      → IsReady txn.txn_id dst
      → CanDebit src.ledger txn.source txn.amount
      → lookup txn.destination dst.ledger.balances ≡ some v
      → reaches 3 n ≡ true
      → reaches 3 m ≡ true
      → let (r, (src', dst')) = execute txn (behind src n, behind dst m) in
        (r.state ≡ committed)
        × (src'.server.ledger ≡ debited txn.txn_id txn.source txn.amount src.ledger)
        × (dst'.server.ledger ≡ credited txn.txn_id txn.destination txn.amount dst.ledger)
  unfolding execute send_prepares call commit_all
  execute_gets_through {v} hs hd p known through through' =
      let (d, held) =
        prepare_debit_done txn.txn_id txn.source txn.amount src hs.unseen hs.working p in
      let (c, agreed) =
        prepare_credit_done txn.txn_id txn.destination txn.amount dst v hd.unseen hd.working
          known in
      let first = (prepare_transaction txn.txn_id op_debit txn.source txn.amount src).1 in
      let second = (prepare_transaction txn.txn_id op_credit txn.destination txn.amount dst).1 in
      let (debit_ok, paid) =
        commit_debit txn.txn_id txn.source txn.amount
          (debited txn.txn_id txn.source txn.amount src.ledger) first held in
      let (credit_ok, received) =
        commit_credit txn.txn_id txn.destination txn.amount dst.ledger second v agreed known
          p.positive in
      rw (ap answered d, ap answered c)
        (
          refl,
          ap (λ s. s.ledger)
                (commit_arrives txn.txn_id op_debit txn.source txn.amount first n debit_ok through)
              ∙ paid,
          ap (λ s. s.ledger)
                (commit_arrives txn.txn_id op_credit txn.destination txn.amount second m credit_ok
                  through')
              ∙ received,
        )
