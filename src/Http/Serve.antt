-- ===== src/Http/Serve.antt =====
-- The table of the endpoints, and the answer to any request.
use software_course_project.Prelude.{ℕ, Option, none, some, List, [], ◌∷◌, String, string_eq}
use software_course_project.Dict.{Dict, lookup}
use software_course_project.Server.State.{ShardServer}
use software_course_project.Http.{Request, Decoders, not_found, Handled, fail_with}
use software_course_project.Http.Handlers.{
  handle_prepare, handle_commit, handle_abort, handle_execute, handle_balance, handle_health,
  handle_metrics, handle_prometheus_metrics, handle_wal, handle_transactions, handle_halt_partition,
  handle_receive_partition, handle_resume_partition, handle_promote, handle_log_index,
  handle_create_account,
}

pub data Endpoint : Type 0 where
  prepare commit abort execute balance health metrics prometheus wal transactions : Endpoint
  halt_partition receive_partition resume_partition promote log_index create_account : Endpoint

abbrev pub routes : Dict String Endpoint
routes =
    ("/prepare", prepare)
    ∷ ("/commit", commit)
    ∷ ("/abort", abort)
    ∷ ("/execute", execute)
    ∷ ("/balance", balance)
    ∷ ("/health", health)
    ∷ ("/metrics", metrics)
    ∷ ("/metrics/prometheus", prometheus)
    ∷ ("/wal", wal)
    ∷ ("/transactions", transactions)
    ∷ ("/halt-partition", halt_partition)
    ∷ ("/receive-partition", receive_partition)
    ∷ ("/resume-partition", resume_partition)
    ∷ ("/promote", promote)
    ∷ ("/log-index", log_index)
    ∷ ("/create-account", create_account)
    ∷ []

module _ (sha256 : String → List ℕ) (create_id : String → String) where
  unfoldable pub handle : Endpoint → Decoders → Request → ShardServer → Handled
  handle prepare decode r s = handle_prepare decode r s
  handle commit decode r s = handle_commit decode r s
  handle abort decode r s = handle_abort decode r s
  handle execute decode r s = handle_execute decode r s
  handle balance decode r s = handle_balance r s
  handle health decode r s = handle_health s
  handle metrics decode r s = handle_metrics r s
  handle prometheus decode r s = handle_prometheus_metrics s
  handle wal decode r s = handle_wal decode r s
  handle transactions decode r s = handle_transactions decode r s
  handle halt_partition decode r s = handle_halt_partition sha256 decode r s
  handle receive_partition decode r s = handle_receive_partition decode r s
  handle resume_partition decode r s = handle_resume_partition decode r s
  handle promote decode r s = handle_promote r s
  handle log_index decode r s = handle_log_index s
  handle create_account decode r s = handle_create_account create_id decode r s

  -- The mux answers 404 for a path that is not in the table.
  abbrev pub serve_at : Option Endpoint → Decoders → Request → ShardServer → Handled
  serve_at none decode r s = (fail_with 404 not_found, s)
  serve_at (some endpoint) decode r s = handle endpoint decode r s

  unfoldable pub serve_request : String → Decoders → Request → ShardServer → Handled
  serve_request path decode r s = serve_at (lookup path routes) decode r s
