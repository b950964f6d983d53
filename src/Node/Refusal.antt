-- ===== src/Node/Refusal.antt =====
-- Single-shard transactions on a follower that is promoted.
use software_course_project.Recovery.{state_is_committed}
use software_course_project.Prelude.{
  ◌≡◌, ◌∙◌, refl, ap, inl, inr, Bool, true, false, none, some, List, [], String, Result, ok, err,
  arith, string_eq, ◌==◌, ==_iff, Result-cases,
}
use software_course_project.Prelude.Int.{ℤ, pos, leb_ℤ}
use software_course_project.Model.{pending, Transaction, TransactionResult, WalEntry, op_debit}
use software_course_project.Storage.{StoreFile}
use software_course_project.Wal.{WriteOutcome, Line, append}
use software_course_project.Ledger.{Ledger, validate_debit}
use software_course_project.Replication.{
  ReplicationError, no_followers, PrimaryReplicator, new_primary_replicator, quorum,
  replicate_entry,
}
use software_course_project.Server.State.{
  replicated_entry, ShardServer, ServerError, get_txn_state, set_txn_state, delete_txn_state,
  replicate_if_set, mark_aborted_quietly, count_aborted,
}
use software_course_project.Server.Single.{debit_leg, validate_leg, execute_single_shard}
use software_course_project.Server.Accounts.{promote}
use software_course_project.Node.{Texts, Settings, Node, start_node, node_of, replicator_of}

-- The server replicates to no follower, and its quorum wants one.
abbrev IsAlone : ShardServer → Type 0
IsAlone s =
    (p : PrimaryReplicator) × (s.replicator ≡ some p)
    × (p.followers ≡ [])
    × (leb_ℤ p.quorum_size (pos 1) ≡ false)

abbrev pub says_committed : Result ServerError TransactionResult → Bool
says_committed (ok r) = state_is_committed r.state
says_committed (err e) = false

-- An answer that commits nothing, with a server whose balances are those of before.
abbrev Refused : Ledger → Result ServerError TransactionResult × ShardServer → Type 0
Refused l q = (says_committed q.0 ≡ false) × (q.1.ledger ≡ l)

replicate_alone :
    (e : WalEntry) (s : ShardServer)
    → IsAlone s
    → (x : ReplicationError) × (p : PrimaryReplicator) × (replicate_if_set e s
        ≡ (err x, record s { replicator = some p }))
unfolding replicate_if_set replicate_entry quorum
replicate_alone e s (p, is_set, none_left, more) =
    (no_followers p.quorum_size, (replicate_entry e p).1, rw (is_set, none_left, more) refl)

debit_leg-Refused :
    (txn : Transaction) (s : ShardServer) → IsAlone s → Refused s.ledger (debit_leg txn s)
unfolding debit_leg delete_txn_state
debit_leg-Refused txn s alone =
    let (answer, w) = append txn.txn_id op_debit txn.source txn.amount s.wal_log in
    elim (Result-cases answer) [
      | inr (e, failed) ↦ rw (failed, debit_leg) (refl, refl)
      | inl (id, logged) ↦
          let entry = replicated_entry id txn.txn_id op_debit txn.source txn.amount in
          let (x, p, refused) = replicate_alone entry (record s { wal_log = w }) alone in
          rw (logged, refused, debit_leg) (refl, ap (λ q. q.1.ledger) refused)
    ]

validate_leg-Refused :
    (txn : Transaction) (s : ShardServer) → IsAlone s → Refused s.ledger (validate_leg txn s)
unfolding validate_leg count_aborted set_txn_state mark_aborted_quietly
validate_leg-Refused txn s alone =
    elim (Result-cases (validate_debit s.ledger txn.source txn.amount)) [
      | inr (e, bad) ↦ rw (bad, validate_leg) (refl, refl)
      | inl (done, good) ↦ rw (good, validate_leg) (debit_leg-Refused txn s alone)
    ]

execute-Refused :
    (txn : Transaction) (s : ShardServer)
    → IsAlone s
    → get_txn_state txn.txn_id s ≡ none
    → Refused s.ledger (execute_single_shard txn s)
unfolding execute_single_shard set_txn_state
execute-Refused txn s alone new =
    rw (new, execute_single_shard)
      (validate_leg-Refused txn (set_txn_state txn.txn_id pending s) alone)

module _ (fits : WalEntry → Bool) (texts : Texts) (c : Settings) (quorum_size : ℤ)
    (reads : texts.atoi c.quorum_size ≡ some quorum_size) (stored : StoreFile) (saves : List Bool)
    (disk : List WriteOutcome) (file : List Line) (n : Node)
    (runs : start_node fits texts c stored saves disk file ≡ ok n) where
  started_replicator : n.server.replicator ≡ some (replicator_of texts c quorum_size)
  unfolding start_node node_of
  started_replicator = ground arith

  -- A process that was started as a FOLLOWER, on any log and any disk, with a quorum of at least 2,
  -- and is asked to take over, commits no new transaction that is given to `ExecuteSingleShard`, and
  -- that call changes no balance: the process has no followers of its own, and each such transaction
  -- fails on its replication or before.
  pub promoted_refuses :
      (txn : Transaction)
      → (c.role == "FOLLOWER") ≡ true
      → leb_ℤ quorum_size (pos 1) ≡ false
      → get_txn_state txn.txn_id n.server ≡ none
      → (says_committed (execute_single_shard txn (promote n.server)).0 ≡ false)
        × ((execute_single_shard txn (promote n.server)).1.ledger ≡ n.server.ledger)
  unfolding promote replicator_of new_primary_replicator get_txn_state
  promoted_refuses txn is_follower more new =
      let s = promote n.server in
      let other : (c.role == "PRIMARY") ≡ false = ground (
        arith,
        ==_iff c.role "PRIMARY",
        ==_iff c.role "FOLLOWER",
        ==_iff {K = String} "PRIMARY" "FOLLOWER",
      ) in
      let alone : IsAlone s = (
        new_primary_replicator c.shard_id quorum_size,
        started_replicator ∙ rw other refl,
        refl,
        more,
      ) in
      execute-Refused txn s alone new
