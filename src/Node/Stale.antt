-- ===== src/Node/Stale.antt =====
-- What a follower that is promoted holds of the transactions of its leader.
use mathlib.Core.List.{append_assoc, append-nil}
use software_course_project.Prelude.{
  Bool, ap, All-append, ℕ, ◌≡◌, ◌∙◌, refl, sym, true, false, Option, some, List, [], ◌∷◌, ◌++◌,
  String, arith, All, string_eq,
}
use mathlib.Core.Path.{subst}
use software_course_project.Dict.{lookup}
use software_course_project.Ledger.{Ledger, new_ledger, get_balance}
use software_course_project.Model.{OperationType, primary, WalEntry}
use software_course_project.Wal.{plain_entry}
use software_course_project.Wal.Append.{Holds, read_all-Holds}
use software_course_project.Wal.Working.{
  IsWorking, logged, logged-IsWorking, logged-Holds, append_working,
}
use software_course_project.Recovery.{recover, recover_entries}
use software_course_project.Recovery.Status.{any_entry, commits}
use software_course_project.Recovery.Balances.{moves}
use software_course_project.Recovery.Quiet.{IsQuiet, recover_entries-quiet}
use software_course_project.TwoPc.{Delivery, delivered, request_lost, reply_lost}
use software_course_project.Replication.{receive_entry}
use software_course_project.Server.Accounts.{promote}
use software_course_project.Http.{Decoders}
use software_course_project.Http.Client.{posted}
use software_course_project.Http.Handlers.{handle_promote}
use software_course_project.Http.Serve.{handle, serve_request}
use software_course_project.Node.{Node, receiver, with_receiver, serve_node}
use software_course_project.Node.Client.{Peer, send_peer, send_entry, send_all}
use software_course_project.Node.Transport.{replicate_served}

-- What a leader sends for its transactions: a DEBIT or a CREDIT of a transaction that the log of the
-- follower has not committed, which the follower reads back as it was sent, and which a scanner
-- reads under any ID that the follower gives it.
pub record IsSent (decode_entry : String → Option WalEntry) (encode_entry : WalEntry → String)
    (fits : WalEntry → Bool) (es : List WalEntry) (e : WalEntry) : Type 0 where
  pub reads : decode_entry (encode_entry e) ≡ some e
  pub moving : moves e.op_type ≡ true
  pub short : (n : ℕ) → fits (plain_entry n e.txn_id e.op_type e.account_id e.amount) ≡ true
  pub open_in_log : any_entry commits e.txn_id es ≡ false

-- A follower that started with this log and these balances.
record Follows (fits : WalEntry → Bool) (es : List WalEntry) (l : Ledger) (n : Node) : Type 0 where
  pub new : List WalEntry
  pub same_fits : n.server.wal_log.fits ≡ fits
  pub holds : Holds n.server.wal_log (es ++ new)
  pub working : IsWorking n.server.wal_log
  pub quiet : IsQuiet es new
  pub same : n.server.ledger ≡ l
  pub on : n.receives ≡ true

moves_not-commits : (op : OperationType) → moves op ≡ true → commits op ≡ false
moves_not-commits op h = ground arith

module _ (sha256 : String → List ℕ) (create_id : String → String) (decode : Decoders)
    (decode_entry : String → Option WalEntry) (encode_entry : WalEntry → String)
    (fits : WalEntry → Bool) (es : List WalEntry) (l : Ledger) where
  received-Follows :
      (e : WalEntry) (n : Node)
      → IsSent decode_entry encode_entry fits es e
      → Follows fits es l n
      → Follows fits es l (with_receiver (receive_entry e (receiver n)).1 n)
  unfolding receive_entry
  received-Follows e n sent h =
      let w = n.server.wal_log in
      let taken = plain_entry w.next_log_id e.txn_id e.op_type e.account_id e.amount in
      rw (append_working w h.working e.txn_id e.op_type e.account_id e.amount) (record {
        new = h.new ++ taken ∷ [];
        same_fits = h.same_fits;
        holds = subst (Holds (logged taken w)) (append_assoc es h.new (taken ∷ [])) (
            logged-Holds taken w (ap (λ f. f taken) h.same_fits ∙ sent.short w.next_log_id)
              h.holds);
        working = logged-IsWorking taken w h.working;
        quiet =
            All-append _ h.new (taken ∷ []) h.quiet
              ((moves_not-commits e.op_type sent.moving, sent.open_in_log), tt);
        same = h.same;
        on = h.on;
      })

  send_over-Follows :
      (e : WalEntry) (n : Node) (network : List Delivery)
      → IsSent decode_entry encode_entry fits es e
      → Follows fits es l n
      → Follows fits es l
          (send_entry sha256 create_id decode decode_entry encode_entry e
            (record { node = n; network = network })).1.node
  unfolding send_entry send_peer
  send_over-Follows e n [] sent h =
      rw (replicate_served sha256 create_id decode decode_entry encode_entry e sent.reads n h.on)
        (received-Follows e n sent h)
  send_over-Follows e n (delivered ∷ rest) sent h =
      rw (replicate_served sha256 create_id decode decode_entry encode_entry e sent.reads n h.on)
        (received-Follows e n sent h)
  send_over-Follows e n (request_lost ∷ rest) sent h = h
  send_over-Follows e n (reply_lost ∷ rest) sent h =
      rw (replicate_served sha256 create_id decode decode_entry encode_entry e sent.reads n h.on)
        (received-Follows e n sent h)

  send_all-Follows :
      (sent : List WalEntry) (p : Peer)
      → All (IsSent decode_entry encode_entry fits es) sent
      → Follows fits es l p.node
      → Follows fits es l (send_all sha256 create_id decode decode_entry encode_entry sent p).node
  unfolding send_all
  send_all-Follows [] p all h = h
  send_all-Follows (e ∷ sent) p all h =
      let p' = (send_entry sha256 create_id decode decode_entry encode_entry e p).1 in
      send_all-Follows sent p' all.1 (send_over-Follows e p.node p.network all.0 h)

  Follows-recover :
      (n : Node) (k : String)
      → Follows fits es l n
      → get_balance (recover n.server.wal_log new_ledger).1 k
        ≡ get_balance (recover_entries es new_ledger).1 k
  unfolding recover get_balance
  Follows-recover n k h =
      rw (read_all-Holds n.server.wal_log h.holds, recover)
        (recover_entries-quiet es h.new h.quiet k new_ledger)

module _ (sha256 : String → List ℕ) (create_id : String → String) (decode : Decoders)
    (decode_entry : String → Option WalEntry) (encode_entry : WalEntry → String)
    (es sent : List WalEntry) (p : Peer) where
  -- The follower after the entries and a request to take over.
  abbrev pub promoted : Node
  promoted =
      (serve_node sha256 create_id decode decode_entry "/promote" (posted "")
        (send_all sha256 create_id decode decode_entry encode_entry sent p).node).1

  -- A follower whose disk works, and whose log holds some entries, is sent DEBIT and CREDIT entries
  -- of transactions that are not committed in its own log, each at most 65535 bytes long as JSON, over
  -- any network, and then asked to take over. It is the primary then; it holds every balance as
  -- before the first of these entries, and a restart from its log gives every balance that a restart
  -- before the first of them gave: none of the transactions that its leader replicated is done on it.
  pub promoted-IsStale :
      Holds p.node.server.wal_log es
      → IsWorking p.node.server.wal_log
      → p.node.receives ≡ true
      → All (IsSent decode_entry encode_entry p.node.server.wal_log.fits es) sent
      → (promoted.server.role ≡ primary)
        × (promoted.server.ledger ≡ p.node.server.ledger)
        × ((k : String)
            → get_balance (recover promoted.server.wal_log new_ledger).1 k
              ≡ get_balance (recover p.node.server.wal_log new_ledger).1 k)
  unfolding serve_node serve_request handle handle_promote promote lookup
  promoted-IsStale holds working on all =
      let l = p.node.server.ledger in
      let start : Follows p.node.server.wal_log.fits es l p.node = record {
        new = [];
        same_fits = refl;
        holds = subst (Holds p.node.server.wal_log) (sym (append-nil es)) holds;
        working = working;
        quiet = tt;
        same = refl;
        on = on;
      } in
      let n = (send_all sha256 create_id decode decode_entry encode_entry sent p).node in
      let h =
        send_all-Follows sha256 create_id decode decode_entry encode_entry
          p.node.server.wal_log.fits es l sent p all start in
      (
        refl,
        h.same,
        λ k.
            Follows-recover sha256 create_id decode decode_entry encode_entry
              p.node.server.wal_log.fits es l n k h
            ∙ sym (
                Follows-recover sha256 create_id decode decode_entry encode_entry
                  p.node.server.wal_log.fits es l p.node k start),
      )
