-- ===== src/Node/Transport.antt =====
-- An entry that the leader sends over HTTP arrives as the receiver's method takes it.
use mathlib.Core.Path.{subst}
use software_course_project.Http.Serve.{serve_request}
use software_course_project.Prelude.{
  if◌then◌else◌, ℕ, ◌≡◌, refl, Bool, true, false, ◌&&◌, Option, some, List, [], ◌∷◌, String, Result,
  ok, err, ap, sym, string_eq,
}
use software_course_project.Model.{WalEntry}
use software_course_project.Wal.{append, WalError}
use software_course_project.TwoPc.{Delivery, delivered, request_lost, reply_lost}
use software_course_project.Replication.{FollowerReceiver, after_append, receive_entry}
use software_course_project.Replication.Delivery.{is_persisted, deliver}
use software_course_project.Http.{Response, Decoders}
use software_course_project.Http.Client.{ClientError, posted}
use software_course_project.Node.{
  Node, receiver, with_receiver, replicate_answer, handle_replicate, serve_node,
}
use software_course_project.Node.Client.{Peer, send_peer, accept_ack, send_entry}

-- The request arrives, and the answer does too.
abbrev pub reaches : List Delivery → Bool
reaches (request_lost ∷ rest) = false
reaches _ = true

abbrev pub returns : List Delivery → Bool
returns (request_lost ∷ rest) = false
returns (reply_lost ∷ rest) = false
returns _ = true

abbrev pub is_ack : Result ClientError (Unit {0}) → Bool
is_ack (ok _) = true
is_ack (err e) = false

is_ack-replicate_answer :
    (r : Result WalError (Unit {0})) → is_ack (accept_ack (replicate_answer r)) ≡ is_persisted r
is_ack-replicate_answer (ok _) = refl
is_ack-replicate_answer (err e) = refl

after_append-shard_id :
    (r : Result WalError ℕ) (e : WalEntry) (f : FollowerReceiver)
    → (after_append r e f).1.shard_id ≡ f.shard_id
after_append-shard_id (ok _) e f = refl
after_append-shard_id (err x) e f = refl

receive_entry-shard_id :
    (e : WalEntry) (f : FollowerReceiver) → (receive_entry e f).1.shard_id ≡ f.shard_id
unfolding receive_entry
receive_entry-shard_id e f =
    let (r, w) = append e.txn_id e.op_type e.account_id e.amount f.wal in
    after_append-shard_id r e (record f { wal = w })

module _ (sha256 : String → List ℕ) (create_id : String → String) (decode : Decoders)
    (decode_entry : String → Option WalEntry) (encode_entry : WalEntry → String) (e : WalEntry)
    (reads : decode_entry (encode_entry e) ≡ some e) where
  abbrev send : Peer → Result ClientError (Unit {0}) × Peer
  send = send_entry sha256 create_id decode decode_entry encode_entry e

  pub replicate_served :
      (n : Node)
      → n.receives ≡ true
      → serve_node sha256 create_id decode decode_entry "/replicate" (posted (encode_entry e)) n ≡ (
        replicate_answer (receive_entry e (receiver n)).0,
        with_receiver (receive_entry e (receiver n)).1 n,
      )
  unfolding serve_node handle_replicate
  replicate_served n on =
      let r = posted (encode_entry e) in
      let f = receive_entry e (receiver n) in
      let (answer, s) = serve_request sha256 create_id "/replicate" decode r n.server in
      let other : Response × Node = (answer, record n { server = s }) in
      let taken : Response × Node = (replicate_answer f.0, with_receiver f.1 n) in
      let handled : handle_replicate decode_entry r n ≡ taken = rw reads refl in
      subst (λ b. (if b then handle_replicate decode_entry r n else other) ≡ taken) (sym on) handled

  receiver-with_receiver :
      (n : Node)
      → receiver (with_receiver (receive_entry e (receiver n)).1 n)
        ≡ (receive_entry e (receiver n)).1
  receiver-with_receiver n =
      let f = (receive_entry e (receiver n)).1 in
      ap (λ id. let g : FollowerReceiver = record f { shard_id = id } in g)
        (sym (receive_entry-shard_id e (receiver n)))

  send_over :
      (n : Node) (network : List Delivery)
      → n.receives ≡ true
      → (is_ack (send (record { node = n; network = network })).0
          ≡ returns network && (deliver e (true, receiver n)).0)
        × (receiver (send (record { node = n; network = network })).1.node
            ≡ (deliver e (reaches network, receiver n)).1)
        × ((send (record { node = n; network = network })).1.node.server.ledger ≡ n.server.ledger)
  unfolding send_entry send_peer deliver
  send_over n [] on =
      rw (replicate_served n on)
        (is_ack-replicate_answer (receive_entry e (receiver n)).0, receiver-with_receiver n, refl)
  send_over n (delivered ∷ rest) on =
      rw (replicate_served n on)
        (is_ack-replicate_answer (receive_entry e (receiver n)).0, receiver-with_receiver n, refl)
  send_over n (request_lost ∷ rest) on = (refl, refl, refl)
  send_over n (reply_lost ∷ rest) on =
      rw (replicate_served n on) (refl, receiver-with_receiver n, refl)

  -- SendEntry to a follower, where the follower reads back what the leader encodes, returns nil
  -- exactly when the request and its answer arrive and the follower has persisted the entry. The
  -- follower has taken the entry exactly as ReceiveEntry does where the request arrives, also when
  -- the answer is lost, and is as before where it does not; its balances are as before.
  pub send_entry-deliver :
      (p : Peer)
      → p.node.receives ≡ true
      → (is_ack (send p).0 ≡ returns p.network && (deliver e (true, receiver p.node)).0)
        × (receiver (send p).1.node ≡ (deliver e (reaches p.network, receiver p.node)).1)
        × ((send p).1.node.server.ledger ≡ p.node.server.ledger)
  send_entry-deliver p on = send_over p.node p.network on
