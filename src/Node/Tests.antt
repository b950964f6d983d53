-- ===== src/Node/Tests.antt =====
-- A follower, started from its environment, that is sent a transfer of its leader.
use software_course_project.Prelude.{
  ◌≡◌, refl, true, false, ◌&&◌, Option, none, some, [], ◌∷◌, String, string_eq, ◌==◌, if◌then◌else◌,
}
use software_course_project.Prelude.Int.{pos}
use software_course_project.Env.{split, env_or_default, Texts}
use software_course_project.Ledger.{get_balance, new_ledger}
use software_course_project.Model.{WalEntry, follower, primary, op_debit, op_credit}
use software_course_project.Partition.{new_manager}
use software_course_project.Recovery.{recover}
use software_course_project.Replication.{new_primary_replicator}
use software_course_project.Replication.Delivery.{deliver}
use software_course_project.Server.State.{get_txn_state, ShardServer, replicated_entry}
use software_course_project.Server.Single.{execute_single_shard}
use software_course_project.Server.Accounts.{rebuild_seen, replay_log, new_shard_server, promote}
use software_course_project.Storage.{opened, no_data, missing, new_json_store}
use software_course_project.TwoPc.{delivered, reply_lost}
use software_course_project.Http.{Decoders}
use software_course_project.Fixtures.{shard_with, by_name, alice_to_bob}
use software_course_project.Node.{node_of, settings, Node, receiver, start_node}
use software_course_project.Node.Client.{Peer, send_entry}
use software_course_project.Node.Transport.{is_ack, reaches, returns, send_entry-deliver}
use software_course_project.Node.Stale.{promoted, promoted-IsStale}
use software_course_project.Node.Refusal.{says_committed, promoted_refuses}
use software_course_project.Wal.{decode, read_all, open_wal}
use software_course_project.Hash.{new_partition_mapper}
use software_course_project.Dict.{lookup}

abbrev numbers : Texts
numbers = record {
  trim_space = λ s. s;
  atoi = λ s. if s == "2" then some (pos 2) else if s == "30" then some (pos 30) else some (pos 0);
}

abbrev follower_env : String → String
follower_env name =
    if name == "SHARD_ROLE" then "FOLLOWER" else if name == "SHARD_PARTITIONS" then "0" else ""

abbrev follower_server : ShardServer
follower_server = record (shard_with "shard1" "" (pos 0)) {
  ledger = new_ledger;
  store = some (opened no_data []);
  replicator = some (new_primary_replicator "shard1" (pos 2));
  part_mgr = some (new_manager "shard1" (pos 0 ∷ []));
  mapper = some (record { num_partitions = pos 30 });
  role = follower;
}

abbrev follower_node : Node
follower_node = record { server = follower_server; receives = true; last_log_id = 0 }

promoted_refuses_example :
    (says_committed (execute_single_shard alice_to_bob (promote follower_server)).0 ≡ false)
    × ((execute_single_shard alice_to_bob (promote follower_server)).1.ledger
        ≡ follower_server.ledger)
unfolding start_node settings env_or_default split new_shard_server open_wal replay_log recover
    read_all new_partition_mapper node_of rebuild_seen get_txn_state lookup new_json_store
promoted_refuses_example =
    promoted_refuses (λ e. true) numbers (settings follower_env) (pos 2) refl missing [] [] []
      follower_node refl alice_to_bob refl refl refl

-- The entries of a transfer on the leader, and a text for each.
abbrev debit : WalEntry
debit = replicated_entry 0 "x1" op_debit "alice" (pos 30)

abbrev credit : WalEntry
credit = replicated_entry 1 "x1" op_credit "bob" (pos 30)

abbrev encode_entry : WalEntry → String
encode_entry e = if e.account_id == "alice" then "debit" else "credit"

abbrev decode_entry : String → Option WalEntry
decode_entry s = if s == "debit" then some debit else some credit

abbrev decoders : Decoders
decoders = record {
  phase = λ s. none;
  transaction = λ s. none;
  partition_id = λ s. none;
  partition = λ s. none;
  account = λ s. none;
  atoi = λ s. none;
}

abbrev over_network : Peer
over_network = record { node = follower_node; network = delivered ∷ reply_lost ∷ [] }

promoted-IsStale_example :
    ((promoted by_name
        (λ s. s)
        decoders
        decode_entry
        encode_entry
        []
        (debit ∷ credit ∷ [])
        over_network).server.role
      ≡ primary)
    × ((promoted by_name
          (λ s. s)
          decoders
          decode_entry
          encode_entry
          []
          (debit ∷ credit ∷ [])
          over_network).server.ledger
        ≡ new_ledger)
    × ((k : String)
        → get_balance
            (recover
              (promoted by_name
                (λ s. s)
                decoders
                decode_entry
                encode_entry
                []
                (debit ∷ credit ∷ [])
                over_network).server.wal_log
              new_ledger).1
            k
          ≡ get_balance (recover follower_server.wal_log new_ledger).1 k)
unfolding decode
promoted-IsStale_example =
    promoted-IsStale by_name (λ s. s) decoders decode_entry encode_entry [] (debit ∷ credit ∷ [])
      over_network (record { decodes = refl; working = refl })
      (record { no_failures = refl; not_failed = refl }) refl
      (
        record { reads = refl; moving = refl; short = λ n. refl; open_in_log = refl },
        (record { reads = refl; moving = refl; short = λ n. refl; open_in_log = refl }, tt),
      )

send_entry-deliver_example :
    (is_ack (send_entry by_name (λ s. s) decoders decode_entry encode_entry debit over_network).0
      ≡ returns over_network.network && (deliver debit (true, receiver follower_node)).0)
    × (receiver
          (send_entry by_name (λ s. s) decoders decode_entry encode_entry debit over_network).1.node
        ≡ (deliver debit (reaches over_network.network, receiver follower_node)).1)
    × ((send_entry by_name
          (λ s. s)
          decoders
          decode_entry
          encode_entry
          debit
          over_network).1.node.server.ledger
        ≡ follower_server.ledger)
send_entry-deliver_example =
    send_entry-deliver by_name (λ s. s) decoders decode_entry encode_entry debit refl over_network
      refl
