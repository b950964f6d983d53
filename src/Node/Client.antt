-- ===== src/Node/Client.antt =====
-- shard/replication/client.go: the leader's requests to the process of a follower.
use software_course_project.Prelude.{
  ℕ, Option, List, [], ◌∷◌, String, Result, ok, err, ◌>>=◌, if◌then◌else◌, nat_beq,
}
use software_course_project.Model.{WalEntry}
use software_course_project.TwoPc.{Delivery, delivered, request_lost, reply_lost}
use software_course_project.Http.{Response, Decoders, Body, log_index}
use software_course_project.Http.Client.{
  ClientError, request_failed, not_decoded, returned, posted, asked,
}
use software_course_project.Node.{Node, serve_node}

-- A node, and what the network does to the next requests to it.
pub record Peer : Type 0 where
  pub node : Node
  pub network : List Delivery

unfoldable pub send_peer : (Node → Response × Node) → Peer → Result ClientError Response × Peer
send_peer request p =
    let (resp, served) = request p.node in
    elim p.network [
      | [] ↦ (ok resp, record p { node = served })
      | delivered ∷ rest ↦ (ok resp, record { node = served; network = rest })
      | request_lost ∷ rest ↦ (err request_failed, record p { network = rest })
      | reply_lost ∷ rest ↦ (err request_failed, record { node = served; network = rest })
    ]

abbrev pub accept_ack : Response → Result ClientError (Unit {0})
accept_ack resp = if nat_beq resp.code 200 then ok tt else err (returned resp.code resp.says)

-- No code of the answer is looked at: a JSON object of numbers is taken, and nothing else.
abbrev index_in : Body → Result ClientError ℕ
index_in (log_index n) = ok n
index_in _ = err not_decoded

module _ (sha256 : String → List ℕ) (create_id : String → String) (decode : Decoders)
    (decode_entry : String → Option WalEntry) (encode_entry : WalEntry → String) where
  unfoldable pub send_entry : WalEntry → Peer → Result ClientError (Unit {0}) × Peer
  send_entry e p =
      let (answer, p') =
        send_peer
          (serve_node sha256 create_id decode decode_entry "/replicate" (posted (encode_entry e)))
          p in
      (answer >>= accept_ack, p')

  unfoldable pub get_log_index : Peer → Result ClientError ℕ × Peer
  get_log_index p =
      let (answer, p') =
        send_peer
          (serve_node sha256 create_id decode decode_entry "/log-index" (asked (λ name. ""))) p in
      (answer >>= λ resp. index_in resp.says, p')

  -- The entries of a leader, one after the other, whether they arrive or not.
  unfoldable pub send_all : List WalEntry → Peer → Peer
  unfolding send_entry
  send_all [] p = p
  send_all (e ∷ rest) p = send_all rest (send_entry e p).1
