-- ===== src/Http/Tests.antt =====
-- Requests to small shards.
use software_course_project.Prelude.{ℕ, ◌≡◌, refl, none, some, [], ◌∷◌, List, String, string_eq}
use software_course_project.Prelude.Int.{pos}
use software_course_project.Dict.{contains, lookup}
use software_course_project.Model.{op_debit}
use software_course_project.Server.TwoPhase.{
  prepare_transaction, commit_transaction, abort_transaction,
}
use software_course_project.TwoPc.{Remote, call, reply_lost}
use software_course_project.Fixtures.{alices, alice_to_bob}
use software_course_project.Http.{post, get, Request, Decoders, respond, account_status}
use software_course_project.Http.Handlers.{handle_prepare, handle_create_account}
use software_course_project.Http.Serve.{handle, serve_request}
use software_course_project.Http.Guards.{serve_request_unchanged}
use software_course_project.Http.Client.{
  Encoders, phase_request, client_prepare, client_commit, client_abort,
}
use software_course_project.Http.Transport.{nil, phases-call}
use software_course_project.Http.Creation.{handle_create_account_twice}
use software_course_project.Server.Accounts.{create_account_with_wal}
use software_course_project.Ledger.{create_account, account_exists}
use software_course_project.Wal.{mark_committed, write_entry, log_entry, append}

abbrev no_digest : String → List ℕ
no_digest text = []

abbrev as_id : String → String
as_id account_id = account_id

-- Decoders for one request of each kind.
abbrev fixed : Decoders
fixed = record {
  phase = λ text. some (phase_request "t1" op_debit "alice" (pos 30));
  transaction = λ text. some alice_to_bob;
  partition_id = λ text. none;
  partition = λ text. none;
  account = λ text. some ("carol", pos 5);
  atoi = λ text. none;
}

abbrev constant : Encoders
constant = record { phase = λ req. "{}"; transaction = λ txn. "{}"; account_query = λ id name. id }

abbrev posting : Request
posting = record { method = post; body = "{}"; query = λ name. "" }

abbrev getting : Request
getting = record { method = get; body = ""; query = λ name. "" }

abbrev losing : Remote
losing = record { server = alices; network = reply_lost ∷ [] }

phases-call_example :
    (nil (client_prepare no_digest as_id fixed constant "t1" op_debit "alice" (pos 30) losing)
      ≡ call (prepare_transaction "t1" op_debit "alice" (pos 30)) losing)
    × (nil (client_commit no_digest as_id fixed constant "t1" op_debit "alice" (pos 30) losing)
        ≡ call (commit_transaction "t1" op_debit "alice" (pos 30)) losing)
    × (nil (client_abort no_digest as_id fixed constant "t1" op_debit "alice" (pos 30) losing)
        ≡ call (abort_transaction "t1" op_debit "alice" (pos 30)) losing)
phases-call_example =
    phases-call no_digest as_id fixed constant "t1" op_debit "alice" (pos 30) refl losing

-- A PREPARE by GET.
serve_request_unchanged_example :
    (serve_request no_digest as_id "/prepare" fixed getting alices).1 ≡ alices
unfolding serve_request lookup handle handle_prepare
serve_request_unchanged_example =
    serve_request_unchanged no_digest as_id fixed getting alices "/prepare" refl

handle_create_account_twice_example :
    (id : String) × (handle_create_account as_id fixed posting
        (handle_create_account as_id fixed posting alices).1
      ≡ (
        respond 200 (account_status "exists" id),
        (handle_create_account as_id fixed posting alices).1,
      ))
unfolding handle_create_account create_account_with_wal account_exists contains append log_entry
    write_entry create_account mark_committed
handle_create_account_twice_example = handle_create_account_twice as_id fixed posting alices refl
