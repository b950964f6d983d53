-- ===== src/Server/Accounts.antt =====
-- The rest of `ShardServer`: start and recovery, the creation of accounts, the checkpoint, the
-- partitions that move, and the role.
use software_course_project.Prelude.{
  Bool, ℕ, Option, none, some, List, [], ◌∷◌, String, string_eq, Result, ok, err, if◌then◌else◌,
  ◌==◌, nat_beq, length, drop, ◌-◌, ltb,
}
use software_course_project.Prelude.Int.{ℤ, pos, int_eq}
use software_course_project.Dict.{Dict, insert}
use software_course_project.Ledger.{
  Ledger, new_ledger, create_account, account_exists, snapshot, set_balance,
}
use software_course_project.Hash.{PartitionMapper, get_partition}
use software_course_project.Partition.{Manager, halt_partition, resume_partition, add_partition}
use software_course_project.Model.{
  WalEntry, TransactionState, prepared, committed, aborted, op_create_account, primary, other_role,
  TxnSummary,
}
use software_course_project.Wal.{
  Wal, WalError, Line, WriteOutcome, open_wal, append, mark_committed, write_checkpoint,
}
use software_course_project.Recovery.{RecoveryResult, recover}
use software_course_project.Storage.{JsonStore, batch_set_balances, set_checkpoint_log_id}
use software_course_project.Server.State.{
  ShardServer, ServerError, wal_append_failed, wal_commit_failed, wal_open_failed, recovery_failed,
  checkpoint_wal_failed, checkpoint_storage_failed, ledger_failed, account_exists as exists_already,
  partition_failed, no_storage, no_partition_manager, Reply, set_txn_state, mark_aborted_quietly,
}

-- The CREATE_ACCOUNT records of the first start; Go walks the map in any order.
unfoldable pub log_initial : Dict String ℤ → Wal → Result WalError (Unit {0}) × Wal
log_initial [] w = mark_committed "__init__" w
log_initial ((account_id, balance) ∷ rest) w =
    let (r, w') = append "__init__" op_create_account account_id balance w in
    let later = log_initial rest w' in elim r [ err e ↦ (err e, w') | ok _ ↦ later ]

unfoldable pub first_start : Dict String ℤ → Wal → Result WalError (Unit {0}) × Wal
unfolding log_initial
first_start [] w = (ok tt, w)
first_start (entry ∷ rest) w =
    if nat_beq w.next_log_id 0 then log_initial (entry ∷ rest) w else (ok tt, w)

unfoldable pub note_all :
    TransactionState → List String → Dict String TransactionState → Dict String TransactionState
note_all state [] seen = seen
note_all state (txn_id ∷ rest) seen = note_all state rest (insert txn_id state seen)

-- The idempotency map after a restart.
unfoldable pub rebuild_seen : RecoveryResult → Dict String TransactionState
unfolding note_all
rebuild_seen r =
    note_all aborted r.aborted_txns
      (note_all committed r.committed_txns (note_all prepared r.pending_txns []))

abbrev pub started : String → Wal → Ledger → RecoveryResult → ShardServer
started shard_id w l r = record {
  shard_id = shard_id;
  wal_log = w;
  ledger = l;
  store = none;
  replicator = none;
  part_mgr = none;
  mapper = none;
  role = other_role "";
  seen_txns = rebuild_seen r;
  committed_count = pos 0;
  aborted_count = pos 0;
  prepared_count = pos 0;
  recent_txns = [];
  follower_count = pos 0;
}

unfoldable pub replay_log : String → Wal → Result ServerError ShardServer
replay_log shard_id w =
    let (r, l) = recover w new_ledger in
    elim r [ err e ↦ err (recovery_failed e) | ok result ↦ ok (started shard_id w l result) ]

unfoldable pub new_shard_server :
    (WalEntry → Bool)
    → String
    → List WriteOutcome
    → List Line
    → Dict String ℤ
    → Result ServerError ShardServer
unfolding first_start
new_shard_server fits shard_id disk file initial_balances = elim (open_wal fits disk file) [
  | err e ↦ err (wal_open_failed e)
  | ok w ↦
      let (r, w') = first_start initial_balances w in
      elim r [ err e ↦ err (wal_append_failed e) | ok _ ↦ replay_log shard_id w' ]
]

-- `fmt.Sprintf("create-%s", accountID)` is a parameter.
module _ (create_id : String → String) where
  unfoldable pub create_account_with_wal : String → ℤ → ShardServer → Reply (Unit {0})
  create_account_with_wal account_id opening_balance s =
      if account_exists s.ledger account_id
      then (err (exists_already account_id), s)
      else let txn_id = create_id account_id in
        let (r, w) = append txn_id op_create_account account_id opening_balance s.wal_log in
        let s' = record s { wal_log = w } in
        elim r [
          | err e ↦ (err (wal_append_failed e), s')
          | ok _ ↦
              let (q, l) = create_account s.ledger account_id opening_balance in
              elim q [
                | err e ↦ (
                  err (
                      if account_exists s.ledger account_id
                      then exists_already account_id
                      else ledger_failed e),
                  mark_aborted_quietly txn_id s',
                )
                | ok _ ↦
                    let (c, w') = mark_committed txn_id w in
                    let s'' =
                      set_txn_state txn_id committed (record s { ledger = l; wal_log = w' }) in
                    elim c [ err e ↦ (err (wal_commit_failed e), s'') | ok _ ↦ (ok tt, s'') ]
              ]
        ]

unfoldable pub checkpoint_in : JsonStore → ShardServer → Reply (Unit {0})
checkpoint_in store s =
    let (r, store') = batch_set_balances store (snapshot s.ledger) in
    let s' = record s { store = some store' } in
    let last_log_id = s.wal_log.next_log_id in
    elim r [
      | err e ↦ (err (checkpoint_storage_failed e), s')
      | ok _ ↦
          let (q, w) = write_checkpoint last_log_id s.wal_log in
          let s'' = record s' { wal_log = w } in
          elim q [
            | err e ↦ (err (checkpoint_wal_failed e), s'')
            | ok _ ↦
                let (t, store'') = set_checkpoint_log_id store' last_log_id in
                let s''' = record s'' { store = some store'' } in
                elim t [ err e ↦ (err (checkpoint_storage_failed e), s''') | ok _ ↦ (ok tt, s''') ]
          ]
    ]

unfoldable pub checkpoint : ShardServer → Reply (Unit {0})
checkpoint s = elim s.store [ none ↦ (err no_storage, s) | some store ↦ checkpoint_in store s ]

-- The returned part of `GetRecentTxns`.
unfoldable pub get_recent_txns : ℕ → ShardServer → List TxnSummary
get_recent_txns limit s =
    let n = length s.recent_txns in
    let limit' : ℕ = if ltb n limit then n else limit in drop (n - limit') s.recent_txns

unfoldable pub promote : ShardServer → ShardServer
promote s = record s { role = primary }

module _ (sha256 : String → List ℕ) where
  unfoldable pub in_partition : PartitionMapper → ℤ → Dict String ℤ → Dict String ℤ
  in_partition mapper id [] = []
  in_partition mapper id ((account_id, balance) ∷ rest) =
      if get_partition sha256 mapper account_id == id
      then (account_id, balance) ∷ in_partition mapper id rest
      else in_partition mapper id rest

  abbrev halt_with :
      Option Manager → Option PartitionMapper → ℤ → ShardServer → Reply (Dict String ℤ)
  halt_with (some mgr) (some mapper) id s =
      let (r, mgr') = halt_partition mgr id in
      let s' = record s { part_mgr = some mgr' } in
      elim r [
        | err e ↦ (err (partition_failed e), s')
        | ok _ ↦ (ok (in_partition mapper id (snapshot s.ledger)), s')
      ]
  halt_with _ _ id s = (err no_partition_manager, s)

  unfoldable pub halt_and_snapshot_partition : ℤ → ShardServer → Reply (Dict String ℤ)
  unfolding in_partition
  halt_and_snapshot_partition id s = halt_with s.part_mgr s.mapper id s

unfoldable pub set_all : Dict String ℤ → Ledger → Ledger
set_all [] l = l
set_all ((account_id, balance) ∷ rest) l = set_all rest (set_balance l account_id balance)

unfoldable pub receive_partition : ℤ → Dict String ℤ → ShardServer → Reply (Unit {0})
unfolding set_all
receive_partition id balances s = elim s.part_mgr [
  | none ↦ (err no_partition_manager, s)
  | some mgr ↦ (
    ok tt,
    record s { ledger = set_all balances s.ledger; part_mgr = some (add_partition mgr id) },
  )
]

unfoldable pub resume_own_partition : ℤ → ShardServer → Reply (Unit {0})
resume_own_partition id s = elim s.part_mgr [
  | none ↦ (err no_partition_manager, s)
  | some mgr ↦
      let (r, mgr') = resume_partition mgr id in
      let s' = record s { part_mgr = some mgr' } in
      elim r [ err e ↦ (err (partition_failed e), s') | ok _ ↦ (ok tt, s') ]
]
