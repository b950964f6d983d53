-- ===== src/Consumer.antt =====
-- coordinator/consumer/consumer.go: the coordinator's endpoints. Decoding is Go's, as in Http.antt, and
-- times, latencies and rates are left out.
pub mod Answers
pub mod History
pub mod Kafka
pub mod Money
mod Tests
use software_course_project.Prelude.{
  ℕ, ◌+◌, ◌-◌, Bool, true, false, not, ◌||◌, Option, none, some, List, [], ◌∷◌, ◌++◌, String,
  string_eq, Result, ok, err, if◌then◌else◌, ◌==◌, length, leb, ltb, drop,
}
use software_course_project.Prelude.Int.{ℤ, pos, leb_ℤ}
use software_course_project.Dict.{Dict, lookup, insert}
use software_course_project.Model.{
  TransactionState, pending, committed, aborted, Transaction, TransactionResult, Message,
  TxnSummary,
}
use software_course_project.Http.{Method, is_post, is_get, Request}
use software_course_project.Http.Handlers.{limit_or}
use software_course_project.Router.{Router, RouterError, Cluster, route}

pub record Consumer : Type 0 where
  pub router : Router
  pub results : Dict String TransactionResult
  pub recent_txns : List TxnSummary

pub data Invalid : Type 0 where
  no_txn_id no_source no_destination same_accounts amount_not_positive : Invalid

pub data Refusal : Type 0 where
  method_not_allowed invalid_body missing_txn_id txn_not_found : Refusal
  invalid : Invalid → Refusal
  routing_failed : RouterError → Refusal

-- The two counters of the metrics.
pub record Counts : Type 0 where
  pub committed_count : ℕ
  pub aborted_count : ℕ

pub data Says : Type 0 where
  refused : Refusal → Says
  result : TransactionResult → Says
  transfer : String → TransactionState → Message → Says
  history : List TxnSummary → ℕ → Says
  metrics : ℕ → Counts → Says

pub record Answer : Type 0 where
  pub code : ℕ
  pub says : Says

abbrev pub answer : ℕ → Says → Answer
answer code says = record { code = code; says = says }

unfoldable pub new_consumer : Router → Consumer
new_consumer router = record { router = router; results = []; recent_txns = [] }

unfoldable pub validate_transaction : Transaction → Option Invalid
validate_transaction txn =
    if txn.txn_id == ""
    then some no_txn_id
    else if txn.source == ""
    then some no_source
    else if txn.destination == ""
    then some no_destination
    else if txn.source == txn.destination
    then some same_accounts
    else if leb_ℤ txn.amount (pos 0)
    then some amount_not_positive
    else none

-- The history keeps the last 1000 transactions.
unfoldable pub add_recent_txn : TxnSummary → Consumer → Consumer
add_recent_txn t c =
    let kept = if leb 1000 (length c.recent_txns) then drop 1 c.recent_txns else c.recent_txns in
    record c { recent_txns = kept ++ t ∷ [] }

unfoldable pub get_recent_txns : ℕ → Consumer → List TxnSummary
get_recent_txns limit c =
    let n = length c.recent_txns in
    let limit' : ℕ = if ltb n limit then n else limit in drop (n - limit') c.recent_txns

abbrev pub summary_of : String → Transaction → TransactionResult → TxnSummary
summary_of type txn done = record {
  txn_id = txn.txn_id;
  source = txn.source;
  destination = txn.destination;
  amount = txn.amount;
  type = type;
  state = done.state;
  shard_id = "";
  shards = [];
}

-- The result is kept for the polling of its status, and the transaction goes into the history.
unfoldable pub remember : String → Transaction → TransactionResult → Consumer → Consumer
remember type txn done c =
    add_recent_txn (summary_of type txn done)
      (record c { results = insert txn.txn_id done c.results })

abbrev pub as_pending : Transaction → Transaction
as_pending txn = record txn { state = pending }

-- `type` is what the history calls the transaction, `say` what the answer shows of its result.
module _ (sha256 : String → List ℕ) (decode : String → Option Transaction) (type : String)
    (say : Transaction → TransactionResult → Says) where
  abbrev pub after_route :
      Transaction
      → Consumer
      → Result RouterError TransactionResult × Cluster
      → Answer × (Consumer × Cluster)
  after_route txn c (err e, cluster) = (answer 500 (refused (routing_failed e)), (c, cluster))
  after_route txn c (ok done, cluster) =
      (answer 200 (say txn done), (remember type txn done c, cluster))

  -- What `handleSubmit` and `HandleTransferDirect` share.
  unfoldable pub accept_transaction : Request → Consumer → Cluster → Answer × (Consumer × Cluster)
  accept_transaction r c cluster =
      if not (is_post r.method)
      then (answer 405 (refused method_not_allowed), (c, cluster))
      else elim (decode r.body) [
        | none ↦ (answer 400 (refused invalid_body), (c, cluster))
        | some txn ↦ elim (validate_transaction txn) [
          | some e ↦ (answer 400 (refused (invalid e)), (c, cluster))
          | none ↦ after_route (as_pending txn) c (route sha256 c.router (as_pending txn) cluster)
        ]
      ]

module _ (sha256 : String → List ℕ) (decode : String → Option Transaction) where
  unfoldable pub handle_submit : Request → Consumer → Cluster → Answer × (Consumer × Cluster)
  handle_submit = accept_transaction sha256 decode "coordinator" (λ txn done. result done)

  unfoldable pub handle_transfer : Request → Consumer → Cluster → Answer × (Consumer × Cluster)
  handle_transfer =
      accept_transaction sha256 decode "transfer"
        (λ txn done. transfer txn.txn_id done.state done.message)

abbrev found : Option TransactionResult → Answer
found none = answer 404 (refused txn_not_found)
found (some done) = answer 200 (result done)

unfoldable pub handle_status : Request → Consumer → Answer
handle_status r c =
    let txn_id = r.query "txn_id" in
    if not (is_get r.method)
    then answer 405 (refused method_not_allowed)
    else if txn_id == ""
    then answer 400 (refused missing_txn_id)
    else found (lookup txn_id c.results)

unfoldable pub handle_transactions : (String → Option ℤ) → Request → Consumer → Answer
handle_transactions atoi r c =
    let text = r.query "limit" in
    let limit = if text == "" then 50 else limit_or 50 (atoi text) in
    let txns = get_recent_txns limit c in
    if not (is_get r.method)
    then answer 405 (refused method_not_allowed)
    else answer 200 (history txns (length txns))

abbrev counts_as : TransactionState → Counts → Counts
counts_as committed n = record n { committed_count = n.committed_count + 1 }
counts_as aborted n = record n { aborted_count = n.aborted_count + 1 }
counts_as _ n = n

-- The counting loop of the metrics.
unfoldable pub count_states : List TxnSummary → Counts → Counts
count_states [] n = n
count_states (t ∷ rest) n = count_states rest (counts_as t.state n)

unfoldable pub handle_metrics : Request → Consumer → Answer
unfolding count_states
handle_metrics r c =
    if not (is_get r.method)
    then answer 405 (refused method_not_allowed)
    else answer 200 (
        metrics (length c.results)
          (count_states c.recent_txns (record { committed_count = 0; aborted_count = 0 })))

-- The same counters as text; the total is that of the history.
unfoldable pub handle_prometheus_metrics : Consumer → Answer
unfolding count_states
handle_prometheus_metrics c = answer 200 (
    metrics (length c.recent_txns)
      (count_states c.recent_txns (record { committed_count = 0; aborted_count = 0 })))
