-- ===== src/Consumer/History.antt =====
-- The history of the coordinator.
use software_course_project.Prelude.{
  ℕ, ◌≡◌, ◌≤◌, ◌-◌, List, [], ◌∷◌, String, Option, Result, ok, err, arith, length, leb, drop,
  length-append, length-drop, if◌then◌else◌, Bool-cases, inl, inr, Option-cases,
}
use software_course_project.Model.{Transaction, TransactionResult, TxnSummary}
use software_course_project.Http.{Request, is_post}
use software_course_project.Router.{Router, RouterError, Cluster, route}
use software_course_project.Consumer.{
  new_consumer, Consumer, Says, add_recent_txn, get_recent_txns, remember, as_pending, after_route,
  accept_transaction, validate_transaction, handle_submit, handle_transfer,
}

abbrev pub IsBounded : Consumer → Type 0
IsBounded c = length c.recent_txns ≤ 1000

add_recent_txn-IsBounded :
    (t : TxnSummary) (c : Consumer) → IsBounded c → IsBounded (add_recent_txn t c)
unfolding add_recent_txn
add_recent_txn-IsBounded t c h = ground (
  arith,
  length-append (drop 1 c.recent_txns) (t ∷ []),
  length-append c.recent_txns (t ∷ []),
  length-drop 1 c.recent_txns,
)

pub data Call : Type 0 where
  submits transfers : Request → Call

module _ (sha256 : String → List ℕ) (decode : String → Option Transaction) where
  after_route-IsBounded :
      (type : String) (say : Transaction → TransactionResult → Says) (txn : Transaction)
      (c : Consumer) (q : Result RouterError TransactionResult × Cluster)
      → IsBounded c
      → IsBounded (after_route sha256 decode type say txn c q).1.0
  unfolding remember
  after_route-IsBounded type say txn c (ok done, cluster) h = add_recent_txn-IsBounded _ _ h
  after_route-IsBounded type say txn c (err e, cluster) h = h

  accept_transaction-IsBounded :
      (type : String) (say : Transaction → TransactionResult → Says) (r : Request) (c : Consumer)
      (cluster : Cluster)
      → IsBounded c
      → IsBounded (accept_transaction sha256 decode type say r c cluster).1.0
  unfolding accept_transaction
  accept_transaction-IsBounded type say r c cluster h = elim (Bool-cases (is_post r.method)) [
    | inr other ↦ rw (other, accept_transaction) h
    | inl posts ↦ elim (Option-cases (decode r.body)) [
      | inl bad ↦ rw (posts, accept_transaction, bad) h
      | inr (txn, reads) ↦ elim (Option-cases (validate_transaction txn)) [
        | inr (e, invalid) ↦ rw (posts, accept_transaction, reads, invalid) h
        | inl valid ↦
            rw (posts, accept_transaction, reads, valid)
              (after_route-IsBounded type say (as_pending txn) c
                (route sha256 c.router (as_pending txn) cluster) h)
      ]
    ]
  ]

  -- The requests that change the coordinator, in the order in which they are served.
  unfoldable pub run_requests : List Call → Consumer → Cluster → Consumer × Cluster
  run_requests [] c cluster = (c, cluster)
  run_requests (submits r ∷ rest) c cluster =
      let (c', cluster') = (handle_submit sha256 decode r c cluster).1 in
      run_requests rest c' cluster'
  run_requests (transfers r ∷ rest) c cluster =
      let (c', cluster') = (handle_transfer sha256 decode r c cluster).1 in
      run_requests rest c' cluster'

  run_requests-IsBounded :
      (calls : List Call) (c : Consumer) (cluster : Cluster)
      → IsBounded c
      → IsBounded (run_requests calls c cluster).0
  unfolding run_requests handle_submit handle_transfer
  run_requests-IsBounded [] c cluster h = h
  run_requests-IsBounded (submits r ∷ rest) c cluster h =
      run_requests-IsBounded rest _ _ (accept_transaction-IsBounded _ _ r c cluster h)
  run_requests-IsBounded (transfers r ∷ rest) c cluster h =
      run_requests-IsBounded rest _ _ (accept_transaction-IsBounded _ _ r c cluster h)

  -- Over any sequence of requests to a new coordinator, its history keeps at most 1000 transactions,
  -- and a request for the last ones gets as many as it asks for, or all where there are fewer.
  pub history-IsBounded :
      (calls : List Call) (router : Router) (cluster : Cluster) (limit : ℕ)
      → let c = (run_requests calls (new_consumer router) cluster).0 in
        IsBounded c
        × (length (get_recent_txns limit c)
            ≡ (if leb limit (length c.recent_txns) then limit else length c.recent_txns))
  unfolding get_recent_txns new_consumer
  history-IsBounded calls router cluster limit =
      let c = (run_requests calls (new_consumer router) cluster).0 in
      (
        run_requests-IsBounded calls (new_consumer router) cluster (omega arith),
        ground (
          arith,
          length-drop (length c.recent_txns - limit) c.recent_txns,
          length-drop (length c.recent_txns - length c.recent_txns) c.recent_txns,
        ),
      )
