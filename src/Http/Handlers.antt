-- ===== src/Http/Handlers.antt =====
-- The handlers of the shard's endpoints.
use software_course_project.Prelude.{
  ℕ, not, Option, none, some, List, String, string_eq, ok, err, if◌then◌else◌, ◌==◌, length,
}
use software_course_project.Prelude.Int.{ℤ, pos, pos_part, ltb_ℤ}
use software_course_project.Ledger.{get_balance, account_exists, balance_or_zero}
use software_course_project.Model.{OperationType, TransactionResult}
use software_course_project.Server.State.{ShardServer, Reply, account_exists as exists_already}
use software_course_project.Server.Single.{execute_single_shard}
use software_course_project.Server.TwoPhase.{
  prepare_transaction, commit_transaction, abort_transaction,
}
use software_course_project.Server.Accounts.{
  create_account_with_wal, get_recent_txns, promote, halt_and_snapshot_partition, receive_partition,
  resume_own_partition,
}
use software_course_project.Server.Metrics.{get_metrics, get_wal_entries}
use software_course_project.Http.{
  promoted, Request, is_post, is_get, Decoders, method_not_allowed, invalid_body, missing_account,
  account_id_required, server_failed, wal_failed, status, account_status, result, balance_of,
  health, metrics, prometheus, balances, log_index, wal_page, transactions, Handled, respond,
  fail_with,
}

-- A phase of the two-phase commit, answered with this code where it fails.
abbrev pub phase_answer : ℕ → String → Reply (Unit {0}) → Handled
phase_answer code done (err e, s) = (fail_with code (server_failed e), s)
phase_answer code done (ok _, s) = (respond 200 (status done), s)

-- The guards of the handlers of the three phases: the method, then the body.
abbrev phase_handler :
    ℕ
    → String
    → (String → OperationType → String → ℤ → ShardServer → Reply (Unit {0}))
    → Decoders
    → Request
    → ShardServer
    → Handled
phase_handler code done act decode r s =
    if not (is_post r.method)
    then (fail_with 405 method_not_allowed, s)
    else elim (decode.phase r.body) [
      | none ↦ (fail_with 400 invalid_body, s)
      | some req ↦ phase_answer code done (act req.txn_id req.op_type req.account_id req.amount s)
    ]

unfoldable pub handle_prepare : Decoders → Request → ShardServer → Handled
handle_prepare = phase_handler 409 "PREPARED" prepare_transaction

unfoldable pub handle_commit : Decoders → Request → ShardServer → Handled
handle_commit = phase_handler 409 "COMMITTED" commit_transaction

unfoldable pub handle_abort : Decoders → Request → ShardServer → Handled
handle_abort = phase_handler 500 "ABORTED" abort_transaction

abbrev pub execute_answer : Reply TransactionResult → Handled
execute_answer (err e, s) = (fail_with 500 (server_failed e), s)
execute_answer (ok done, s) = (respond 200 (result done), s)

unfoldable pub handle_execute : Decoders → Request → ShardServer → Handled
handle_execute decode r s =
    if not (is_post r.method)
    then (fail_with 405 method_not_allowed, s)
    else elim (decode.transaction r.body) [
      | none ↦ (fail_with 400 invalid_body, s)
      | some txn ↦ execute_answer (execute_single_shard txn s)
    ]

unfoldable pub handle_balance : Request → ShardServer → Handled
handle_balance r s =
    let account_id = r.query "account" in
    if not (is_get r.method)
    then (fail_with 405 method_not_allowed, s)
    else if account_id == ""
    then (fail_with 400 missing_account, s)
    else (
      respond 200 (
          balance_of account_id (balance_or_zero (get_balance s.ledger account_id))
            (account_exists s.ledger account_id)),
      s,
    )

unfoldable pub handle_health : ShardServer → Handled
handle_health s = (respond 200 (health s.shard_id), s)

unfoldable pub handle_metrics : Request → ShardServer → Handled
handle_metrics r s =
    if not (is_get r.method)
    then (fail_with 405 method_not_allowed, s)
    else (respond 200 (metrics (get_metrics s)), s)

unfoldable pub handle_prometheus_metrics : ShardServer → Handled
handle_prometheus_metrics s = (respond 200 (prometheus (get_metrics s)), s)

module _ (sha256 : String → List ℕ) where
  unfoldable pub handle_halt_partition : Decoders → Request → ShardServer → Handled
  handle_halt_partition decode r s = elim (decode.partition_id r.body) [
    | none ↦ (fail_with 400 invalid_body, s)
    | some id ↦
        let (answer, s') = halt_and_snapshot_partition sha256 id s in
        elim answer [
          | err e ↦ (fail_with 500 (server_failed e), s')
          | ok snapshot ↦ (respond 200 (balances snapshot), s')
        ]
  ]

unfoldable pub handle_receive_partition : Decoders → Request → ShardServer → Handled
handle_receive_partition decode r s = elim (decode.partition r.body) [
  | none ↦ (fail_with 400 invalid_body, s)
  | some (id, received) ↦ phase_answer 500 "received" (receive_partition id received s)
]

unfoldable pub handle_resume_partition : Decoders → Request → ShardServer → Handled
handle_resume_partition decode r s = elim (decode.partition_id r.body) [
  | none ↦ (fail_with 400 invalid_body, s)
  | some id ↦ phase_answer 500 "resumed" (resume_own_partition id s)
]

unfoldable pub handle_promote : Request → ShardServer → Handled
handle_promote r s =
    if not (is_post r.method)
    then (fail_with 405 method_not_allowed, s)
    else (respond 200 (promoted s.shard_id), promote s)

unfoldable pub handle_log_index : ShardServer → Handled
handle_log_index s = (respond 200 (log_index s.wal_log.next_log_id), s)

-- The `limit` of a query: a positive number, else the default.
unfoldable pub limit_or : ℕ → Option ℤ → ℕ
limit_or default none = default
limit_or default (some v) = if ltb_ℤ (pos 0) v then pos_part v else default

unfoldable pub query_limit : ℕ → Decoders → Request → ℕ
unfolding limit_or
query_limit default decode r =
    let text = r.query "limit" in
    if text == "" then default else limit_or default (decode.atoi text)

unfoldable pub handle_wal : Decoders → Request → ShardServer → Handled
handle_wal decode r s = elim (get_wal_entries (query_limit 50 decode r) s) [
  | err e ↦ (fail_with 500 (wal_failed e), s)
  | ok page ↦ (respond 200 (wal_page s.shard_id page), s)
]

unfoldable pub handle_transactions : Decoders → Request → ShardServer → Handled
handle_transactions decode r s =
    let txns = get_recent_txns (query_limit 25 decode r) s in
    (respond 200 (transactions s.shard_id txns (length txns)), s)

abbrev pub create_answer : String → Reply (Unit {0}) → Handled
create_answer account_id (ok _, s) = (respond 201 (account_status "created" account_id), s)
create_answer account_id (err (exists_already _), s) =
    (respond 200 (account_status "exists" account_id), s)
create_answer account_id (err e, s) = (fail_with 500 (server_failed e), s)

module _ (create_id : String → String) where
  unfoldable pub handle_create_account : Decoders → Request → ShardServer → Handled
  handle_create_account decode r s =
      if not (is_post r.method)
      then (fail_with 405 method_not_allowed, s)
      else elim (decode.account r.body) [
        | none ↦ (fail_with 400 invalid_body, s)
        | some (account_id, opening_balance) ↦
            if account_id == ""
            then (fail_with 400 account_id_required, s)
            else create_answer account_id
                (create_account_with_wal create_id account_id opening_balance s)
      ]
