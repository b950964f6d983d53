-- ===== src/Http/Client.antt =====
-- messaging/client.go: the coordinator's client of the shards, over the endpoints of the shards.
use software_course_project.Prelude.{
  nat_beq, ℕ, Bool, List, [], ◌∷◌, String, string_eq, Result, ok, err, ◌>>=◌, if◌then◌else◌, leb,
}
use software_course_project.Prelude.Int.{ℤ}
use software_course_project.Model.{Transaction, TransactionResult, OperationType}
use software_course_project.Server.State.{ShardServer}
use software_course_project.TwoPc.{delivered, request_lost, reply_lost, Remote}
use software_course_project.Http.{
  post, get, Request, PhaseRequest, Decoders, Body, result, Response, Handled, balance_of,
}
use software_course_project.Http.Serve.{serve_request}

pub data ClientError : Type 0 where
  request_failed not_decoded : ClientError
  returned : ℕ → Body → ClientError

abbrev pub accept : Response → Result ClientError Body
accept resp = if leb 400 resp.code then err (returned resp.code resp.says) else ok resp.says

-- One request of the client, by what the network does to it.
unfoldable pub send : (ShardServer → Handled) → Remote → Result ClientError Response × Remote
send request r =
    let (resp, served) = request r.server in
    elim r.network [
      | [] ↦ (ok resp, record r { server = served })
      | delivered ∷ rest ↦ (ok resp, record { server = served; network = rest })
      | request_lost ∷ rest ↦ (err request_failed, record r { network = rest })
      | reply_lost ∷ rest ↦ (err request_failed, record { server = served; network = rest })
    ]

-- What the encoder makes of the two kinds of body, and the library of a query.
pub record Encoders : Type 0 where
  pub phase : PhaseRequest → String
  pub transaction : Transaction → String
  pub account_query : String → String → String

abbrev pub posted : String → Request
posted body = record { method = post; body = body; query = λ name. "" }

abbrev pub asked : (String → String) → Request
asked query = record { method = get; body = ""; query = query }

abbrev pub as_result : Body → Result ClientError TransactionResult
as_result (result done) = ok done
as_result _ = err not_decoded

abbrev balance_in : Body → Result ClientError (ℤ × Bool)
balance_in (balance_of account_id balance exists) = ok (balance, exists)
balance_in _ = err not_decoded

abbrev as_balance : Response → Result ClientError (ℤ × Bool)
as_balance resp =
    if nat_beq resp.code 200 then balance_in resp.says else err (returned resp.code resp.says)

abbrev pub phase_request : String → OperationType → String → ℤ → PhaseRequest
phase_request txn_id op_type account_id amount = record {
  txn_id = txn_id;
  op_type = op_type;
  account_id = account_id;
  amount = amount;
}

module _ (sha256 : String → List ℕ) (create_id : String → String) (decode : Decoders)
    (encode : Encoders) where
  unfoldable pub do_post : String → String → Remote → Result ClientError Body × Remote
  do_post path body r =
      let (answer, r') = send (serve_request sha256 create_id path decode (posted body)) r in
      (answer >>= accept, r')

  unfoldable pub post_json : String → PhaseRequest → Remote → Result ClientError (Unit {0}) × Remote
  unfolding do_post
  post_json path req r =
      let (answer, r') = do_post path (encode.phase req) r in (answer >>= λ _. ok tt, r')

  module _ (txn_id : String) (op_type : OperationType) (account_id : String) (amount : ℤ) where
    unfoldable pub client_prepare : Remote → Result ClientError (Unit {0}) × Remote
    client_prepare = post_json "/prepare" (phase_request txn_id op_type account_id amount)

    unfoldable pub client_commit : Remote → Result ClientError (Unit {0}) × Remote
    client_commit = post_json "/commit" (phase_request txn_id op_type account_id amount)

    unfoldable pub client_abort : Remote → Result ClientError (Unit {0}) × Remote
    client_abort = post_json "/abort" (phase_request txn_id op_type account_id amount)

  unfoldable pub client_execute :
      Transaction → Remote → Result ClientError TransactionResult × Remote
  client_execute txn r =
      let (answer, r') = do_post "/execute" (encode.transaction txn) r in (answer >>= as_result, r')

  unfoldable pub client_balance : String → Remote → Result ClientError (ℤ × Bool) × Remote
  client_balance account_id r =
      let request = asked (encode.account_query account_id) in
      let (answer, r') = send (serve_request sha256 create_id "/balance" decode request) r in
      (answer >>= as_balance, r')

  unfoldable pub health_check : Remote → Result ClientError (Unit {0}) × Remote
  health_check r =
      let (answer, r') =
        send (serve_request sha256 create_id "/health" decode (asked (λ name. ""))) r in
      (
        answer >>= λ resp.
            if nat_beq resp.code 200 then ok tt else err (returned resp.code resp.says),
        r',
      )
