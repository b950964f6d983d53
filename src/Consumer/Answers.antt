-- ===== src/Consumer/Answers.antt =====
-- What the coordinator answers, and what it keeps.
use software_course_project.Prelude.{
  ℕ, ◌≡◌, ◌∙◌, refl, sym, ap, inl, inr, true, false, Option, none, some, List, String, string_eq,
  Result, ok, err, arith, ◌==◌, Bool-cases, Option-cases,
}
use software_course_project.Prelude.Int.{pos, ◌≤ℤ◌}
use software_course_project.Dict.Laws.{lookup-insert_self}
use software_course_project.Model.{Transaction, TransactionResult}
use software_course_project.Http.{Request, is_post, is_get}
use software_course_project.Router.{RouterError, Cluster, route}
use software_course_project.Consumer.{
  Consumer, answer, Says, result, validate_transaction, add_recent_txn, remember, as_pending,
  after_route, accept_transaction, handle_submit, handle_status,
}

-- What a valid transaction is.
pub record Valid (txn : Transaction) : Type 0 where
  pub named : (txn.txn_id == "") ≡ false
  pub from : (txn.source == "") ≡ false
  pub onto : (txn.destination == "") ≡ false
  pub different : (txn.source == txn.destination) ≡ false
  pub positive : pos 1 ≤ℤ txn.amount

validate_transaction-Valid : (txn : Transaction) → validate_transaction txn ≡ none → Valid txn
unfolding validate_transaction
validate_transaction-Valid txn h = record {
  named = ground arith;
  from = ground arith;
  onto = ground arith;
  different = ground arith;
  positive = ground arith;
}

routed-code :
    (sha256 : String → List ℕ) (decode : String → Option Transaction) (type : String)
    (say : Transaction → TransactionResult → Says) (txn : Transaction) (c : Consumer)
    (q : Result RouterError TransactionResult × Cluster)
    → (after_route sha256 decode type say txn c q).0.code ≡ 200
    → (done : TransactionResult) × (q.0 ≡ ok done)
routed-code sha256 decode type say txn c (ok done, cluster) h = (done, refl)
routed-code sha256 decode type say txn c (err e, cluster) h = absurd (ground arith)

status_remembered :
    (txn : Transaction) (q : Request) (c : Consumer) (done : TransactionResult)
    → is_get q.method ≡ true
    → q.query "txn_id" ≡ txn.txn_id
    → (txn.txn_id == "") ≡ false
    → handle_status q (remember "coordinator" (as_pending txn) done c) ≡ answer 200 (result done)
unfolding handle_status remember add_recent_txn
status_remembered txn q c done asks names named =
    rw (asks, names, named, lookup-insert_self txn.txn_id done c.results) refl

module _ (sha256 : String → List ℕ) (decode : String → Option Transaction) (r : Request)
    (c : Consumer) (cluster : Cluster) where
  -- What a transaction that is answered with 200 has passed.
  record Accepted (type : String) (say : Transaction → TransactionResult → Says) (txn : Transaction)
      : Type 0 where
    pub valid : Valid txn
    pub done : TransactionResult
    pub routed : (route sha256 c.router (as_pending txn) cluster).0 ≡ ok done
    pub handled : accept_transaction sha256 decode type say r c cluster ≡ (
      answer 200 (say (as_pending txn) done),
      (remember type (as_pending txn) done c, (route sha256 c.router (as_pending txn) cluster).1),
    )

  goes_on :
      (type : String) (say : Transaction → TransactionResult → Says) (txn : Transaction)
      → is_post r.method ≡ true
      → decode r.body ≡ some txn
      → validate_transaction txn ≡ none
      → accept_transaction sha256 decode type say r c cluster
        ≡ after_route sha256 decode type say
            (as_pending txn)
            c
            (route sha256 c.router (as_pending txn) cluster)
  unfolding accept_transaction
  goes_on type say txn posts reads valid = rw (posts, reads, valid) refl

  to-Accepted :
      (type : String) (say : Transaction → TransactionResult → Says) (txn : Transaction)
      → decode r.body ≡ some txn
      → (accept_transaction sha256 decode type say r c cluster).0.code ≡ 200
      → Accepted type say txn
  unfolding accept_transaction
  to-Accepted type say txn reads h = elim (Bool-cases (is_post r.method)) [
    | inr other ↦ absurd (ground arith)
    | inl posts ↦ elim (Option-cases (validate_transaction txn)) [
      | inr (e, bad) ↦ absurd (ground arith)
      | inl valid ↦
          let q = route sha256 c.router (as_pending txn) cluster in
          let same = goes_on type say txn posts reads valid in
          let (done, routed) =
            routed-code sha256 decode type say (as_pending txn) c q
              (sym (ap (λ x. x.0.code) same) ∙ h) in
          record {
            valid = validate_transaction-Valid txn valid;
            done = done;
            routed = routed;
            handled =
                same
                ∙ ap (λ x. after_route sha256 decode type say (as_pending txn) c (x, q.1)) routed;
          }
    ]
  ]

  -- A transaction that was answered with 200 was valid, and a request for its status that comes next
  -- gets the very same answer.
  pub handle_submit-handle_status :
      (txn : Transaction) (q : Request)
      → decode r.body ≡ some txn
      → (handle_submit sha256 decode r c cluster).0.code ≡ 200
      → is_get q.method ≡ true
      → q.query "txn_id" ≡ txn.txn_id
      → Valid txn
        × (handle_status q (handle_submit sha256 decode r c cluster).1.0
            ≡ (handle_submit sha256 decode r c cluster).0)
  unfolding handle_submit
  handle_submit-handle_status txn q reads h asks names =
      let a = to-Accepted "coordinator" (λ t done. result done) txn reads h in
      (
        a.valid,
        ap (λ x. handle_status q x.1.0) a.handled
            ∙ status_remembered txn q c a.done asks names a.valid.named
            ∙ sym (ap (λ x. x.0) a.handled),
      )
