-- ===== src/Http/Transport.antt =====
-- The coordinator's requests over HTTP do what the calls of the shard's methods do.
use software_course_project.Prelude.{
  Bool-cases, inl, inr, ℕ, ◌≡◌, ◌∙◌, refl, ap, Bool, true, false, not, Option, none, some, List, [],
  ◌∷◌, String, string_eq, Result, ok, err, ◌>>=◌, leb,
}
use software_course_project.Prelude.Int.{ℤ}
use software_course_project.Dict.{lookup}
use software_course_project.Model.{Transaction, TransactionResult, OperationType}
use software_course_project.Server.State.{ShardServer, Reply}
use software_course_project.Server.Single.{execute_single_shard}
use software_course_project.Server.TwoPhase.{
  prepare_transaction, commit_transaction, abort_transaction,
}
use software_course_project.TwoPc.{
  Delivery, delivered, request_lost, reply_lost, Remote, answered, answer_of, call, call_for,
}
use software_course_project.Http.{PhaseRequest, Decoders, Response, Handled}
use software_course_project.Http.Handlers.{
  execute_answer, phase_answer, handle_prepare, handle_commit, handle_abort, handle_execute,
}
use software_course_project.Http.Serve.{handle, serve_request}
use software_course_project.Http.Client.{
  ClientError, Encoders, accept, posted, send, do_post, post_json, phase_request, client_prepare,
  client_commit, client_abort, as_result, client_execute,
}

-- Did the client's method return nil?
abbrev pub nil : Result ClientError (Unit {0}) × Remote → Bool × Remote
nil (answer, r) = (answered answer, r)

abbrev as_option : {A : Type 0} → Result ClientError A → Option A
as_option (ok a) = some a
as_option (err e) = none

abbrev pub value : {A : Type 0} → Result ClientError A × Remote → Option A × Remote
value (answer, r) = (as_option answer, r)

abbrev accepted : Handled → Bool × ShardServer
accepted h = (not (leb 400 h.0.code), h.1)

phase_accepted :
    (code : ℕ) (done : String) (q : Reply (Unit {0}))
    → leb 400 code ≡ true
    → accepted (phase_answer code done q) ≡ (answered q.0, q.1)
phase_accepted code done (ok _, s) h = refl
phase_accepted code done (err e, s) h = rw h refl

answered-accept :
    (resp : Response) → answered (accept resp >>= λ _. ok tt) ≡ not (leb 400 resp.code)
answered-accept resp = elim (Bool-cases (leb 400 resp.code)) [
  | inl refused ↦ rw refused refl
  | inr taken ↦ rw taken refl
]

abbrev taken : Handled → Option TransactionResult × ShardServer
taken h = (as_option (accept h.0 >>= as_result), h.1)

taken-execute_answer : (q : Reply TransactionResult) → taken (execute_answer q) ≡ (answer_of q, q.1)
taken-execute_answer (ok _, s) = refl
taken-execute_answer (err e, s) = refl

module _ (sha256 : String → List ℕ) (create_id : String → String) (decode : Decoders)
    (encode : Encoders) where
  -- A handler that accepts exactly what the method does, over the network.
  module _ (path : String) (req : PhaseRequest) (f : ShardServer → Reply (Unit {0}))
      (same : (s : ShardServer)
        → accepted (serve_request sha256 create_id path decode (posted (encode.phase req)) s)
          ≡ (answered (f s).0, (f s).1)) where
    post-call_over :
        (s : ShardServer) (network : List Delivery)
        → nil (
            post_json sha256 create_id decode encode path req
              (record { server = s; network = network }))
          ≡ call f (record { server = s; network = network })
    unfolding post_json do_post send call
    post-call_over s [] =
        let h = serve_request sha256 create_id path decode (posted (encode.phase req)) s in
        ap (λ b. (b, record { server = h.1; network = [] })) (answered-accept h.0)
        ∙ ap (λ x. (x.0, record { server = x.1; network = [] })) (same s)
    post-call_over s (delivered ∷ rest) =
        let h = serve_request sha256 create_id path decode (posted (encode.phase req)) s in
        ap (λ b. (b, record { server = h.1; network = rest })) (answered-accept h.0)
        ∙ ap (λ x. (x.0, record { server = x.1; network = rest })) (same s)
    post-call_over s (request_lost ∷ rest) = refl
    post-call_over s (reply_lost ∷ rest) =
        ap (λ x. (false, record { server = x.1; network = rest })) (same s)

    post-call : (r : Remote) → nil (post_json sha256 create_id decode encode path req r) ≡ call f r
    post-call r = post-call_over r.server r.network

  module _ (txn : Transaction)
      (reads : decode.transaction (encode.transaction txn) ≡ some txn) where
    execute_taken :
        (s : ShardServer)
        → taken
            (serve_request sha256 create_id "/execute" decode (posted (encode.transaction txn)) s)
          ≡ (answer_of (execute_single_shard txn s), (execute_single_shard txn s).1)
    unfolding serve_request handle handle_execute lookup
    execute_taken s = rw reads (taken-execute_answer (execute_single_shard txn s))

    execute_over :
        (s : ShardServer) (network : List Delivery)
        → value (
            client_execute sha256 create_id decode encode txn
              (record { server = s; network = network }))
          ≡ call_for (execute_single_shard txn) (record { server = s; network = network })
    unfolding client_execute do_post send call_for
    execute_over s [] = ap (λ x. (x.0, record { server = x.1; network = [] })) (execute_taken s)
    execute_over s (delivered ∷ rest) =
        ap (λ x. (x.0, record { server = x.1; network = rest })) (execute_taken s)
    execute_over s (request_lost ∷ rest) = refl
    execute_over s (reply_lost ∷ rest) =
        ap (λ x. (none, record { server = x.1; network = rest })) (execute_taken s)

    -- The same for a transaction of one shard: its result is returned where the request and its answer
    -- arrive and the shard's method returns it.
    pub execute-call_for :
        (r : Remote)
        → value (client_execute sha256 create_id decode encode txn r)
          ≡ call_for (execute_single_shard txn) r
    execute-call_for r = execute_over r.server r.network

  module _ (txn_id : String) (op_type : OperationType) (account_id : String) (amount : ℤ)
      (reads : decode.phase (encode.phase (phase_request txn_id op_type account_id amount))
        ≡ some (phase_request txn_id op_type account_id amount)) where
    abbrev body : String
    body = encode.phase (phase_request txn_id op_type account_id amount)

    abbrev Accepts : String → (ShardServer → Reply (Unit {0})) → Type 0
    Accepts path f =
        (s : ShardServer)
        → accepted (serve_request sha256 create_id path decode (posted body) s)
          ≡ (answered (f s).0, (f s).1)

    prepare_accepted : Accepts "/prepare" (prepare_transaction txn_id op_type account_id amount)
    unfolding serve_request handle handle_prepare lookup
    prepare_accepted s = rw reads (
        phase_accepted 409 "PREPARED" (prepare_transaction txn_id op_type account_id amount s) refl)

    commit_accepted : Accepts "/commit" (commit_transaction txn_id op_type account_id amount)
    unfolding serve_request handle handle_commit lookup
    commit_accepted s = rw reads (
        phase_accepted 409 "COMMITTED" (commit_transaction txn_id op_type account_id amount s) refl)

    abort_accepted : Accepts "/abort" (abort_transaction txn_id op_type account_id amount)
    unfolding serve_request handle handle_abort lookup
    abort_accepted s =
        rw reads
          (phase_accepted 500 "ABORTED" (abort_transaction txn_id op_type account_id amount s) refl)

    -- Where the server reads back what the client encodes, a PREPARE, a COMMIT and an ABORT over HTTP
    -- return nil exactly when the request and its answer arrive and the shard's method returns nil,
    -- and leave the shard as the method does where the request arrives and as it was where it does
    -- not.
    pub phases-call :
        (r : Remote)
        → (nil (client_prepare sha256 create_id decode encode txn_id op_type account_id amount r)
            ≡ call (prepare_transaction txn_id op_type account_id amount) r)
          × (nil (client_commit sha256 create_id decode encode txn_id op_type account_id amount r)
              ≡ call (commit_transaction txn_id op_type account_id amount) r)
          × (nil (client_abort sha256 create_id decode encode txn_id op_type account_id amount r)
              ≡ call (abort_transaction txn_id op_type account_id amount) r)
    unfolding client_prepare client_commit client_abort
    phases-call r =
        let req = phase_request txn_id op_type account_id amount in
        (
          post-call "/prepare" req _ prepare_accepted r,
          post-call "/commit" req _ commit_accepted r,
          post-call "/abort" req _ abort_accepted r,
        )
