-- ===== src/Http/Guards.antt =====
-- Which requests leave the shard as it was.
use software_course_project.Prelude.{
  ℕ, ◌≡◌, refl, Bool, true, false, ◌||◌, Option, none, some, List, String, string_eq, arith,
  nat_beq,
}
use software_course_project.Dict.{lookup}
use software_course_project.Server.State.{ShardServer}
use software_course_project.Http.{Request, Decoders}
use software_course_project.Http.Handlers.{
  handle_prepare, handle_commit, handle_abort, handle_execute, handle_balance, handle_health,
  handle_metrics, handle_prometheus_metrics, handle_wal, handle_transactions, handle_halt_partition,
  handle_receive_partition, handle_resume_partition, handle_promote, handle_log_index,
  handle_create_account,
}
use software_course_project.Http.Serve.{
  serve_at, Endpoint, prepare, commit, abort, execute, balance, health, metrics, prometheus, wal,
  transactions, halt_partition, receive_partition, resume_partition, promote, log_index,
  create_account, routes, handle, serve_request,
}

-- The answer blames the request: 400, 404 or 405.
abbrev pub blames_request : ℕ → Bool
blames_request code = nat_beq code 400 || (nat_beq code 404 || nat_beq code 405)

-- The endpoints that only read.
abbrev pub reads_only : Option Endpoint → Bool
reads_only (some balance) = true
reads_only (some health) = true
reads_only (some metrics) = true
reads_only (some prometheus) = true
reads_only (some wal) = true
reads_only (some transactions) = true
reads_only (some log_index) = true
reads_only _ = false

module _ (sha256 : String → List ℕ) (create_id : String → String) (decode : Decoders) (r : Request)
    (s : ShardServer) where
  handle_refused :
      (e : Endpoint)
      → blames_request (handle sha256 create_id e decode r s).0.code ≡ true
      → (handle sha256 create_id e decode r s).1 ≡ s
  unfolding handle handle_prepare handle_commit handle_abort handle_execute handle_balance
      handle_health handle_metrics handle_prometheus_metrics handle_wal handle_transactions
      handle_halt_partition handle_receive_partition handle_resume_partition handle_promote
      handle_log_index handle_create_account
  handle_refused prepare h = ground arith
  handle_refused commit h = ground arith
  handle_refused abort h = ground arith
  handle_refused execute h = ground arith
  handle_refused balance h = ground arith
  handle_refused health h = refl
  handle_refused metrics h = ground arith
  handle_refused prometheus h = refl
  handle_refused wal h = ground arith
  handle_refused transactions h = refl
  handle_refused halt_partition h = ground arith
  handle_refused receive_partition h = ground arith
  handle_refused resume_partition h = ground arith
  handle_refused promote h = ground arith
  handle_refused log_index h = refl
  handle_refused create_account h = ground arith

  handle_read :
      (e : Endpoint) → reads_only (some e) ≡ true → (handle sha256 create_id e decode r s).1 ≡ s
  unfolding handle handle_balance handle_health handle_metrics handle_prometheus_metrics handle_wal
      handle_transactions handle_log_index
  handle_read balance h = ground arith
  handle_read metrics h = ground arith
  handle_read wal h = ground arith
  handle_read e h = ground arith

  serve_at_unchanged :
      (o : Option Endpoint)
      → (blames_request (serve_at sha256 create_id o decode r s).0.code || reads_only o) ≡ true
      → (serve_at sha256 create_id o decode r s).1 ≡ s
  serve_at_unchanged none h = refl
  serve_at_unchanged (some e) h = ground (arith, handle_refused e, handle_read e)

  -- Whatever the path, the method and the body, a request that is answered with 400, 404 or 405 left
  -- the shard as it was, and so did every request to an endpoint that reads.
  pub serve_request_unchanged :
      (path : String)
      → (blames_request (serve_request sha256 create_id path decode r s).0.code
          || reads_only (lookup path routes))
        ≡ true
      → (serve_request sha256 create_id path decode r s).1 ≡ s
  unfolding serve_request
  serve_request_unchanged path h = serve_at_unchanged (lookup path routes) h
