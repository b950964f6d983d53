-- ===== src/Server/Metrics.antt =====
-- What a shard reports of itself, and the setters of its parts.
use software_course_project.Prelude.{
  ℕ, ◌+◌, ◌-◌, Bool, true, false, ◌&&◌, Option, none, some, List, [], ◌∷◌, String, Result, ok,
  ◌>>=◌, if◌then◌else◌, ltb, length, drop, ◌==◌,
}
use software_course_project.Prelude.Int.{ℤ, pos, int_eq}
use software_course_project.Dict.{Dict}
use software_course_project.Hash.{PartitionMapper}
use software_course_project.Partition.{Manager}
use software_course_project.Ledger.{account_count, total_balance}
use software_course_project.Model.{
  TransactionState, pending, prepared, Role, WalEntry, ShardMetrics,
}
use software_course_project.Wal.{WalError, read_all}
use software_course_project.Replication.{PrimaryReplicator}
use software_course_project.Storage.{JsonStore}
use software_course_project.Server.State.{ShardServer}

unfoldable pub set_storage : JsonStore → ShardServer → ShardServer
set_storage store s = record s { store = some store }

unfoldable pub set_partitioning : Manager → PartitionMapper → ShardServer → ShardServer
set_partitioning mgr mapper s = record s { part_mgr = some mgr; mapper = some mapper }

unfoldable pub set_replicator : PrimaryReplicator → ShardServer → ShardServer
set_replicator replicator s = record s { replicator = some replicator }

unfoldable pub set_role : Role → ShardServer → ShardServer
set_role role s = record s { role = role }

unfoldable pub set_follower_count : ℤ → ShardServer → ShardServer
set_follower_count n s = record s { follower_count = n }

abbrev is_open : TransactionState → Bool
is_open pending = true
is_open prepared = true
is_open _ = false

-- The loop that counts the pending and prepared transactions.
unfoldable pub pending_count : Dict String TransactionState → ℕ
pending_count [] = 0
pending_count ((txn_id, state) ∷ rest) =
    let later = pending_count rest in if is_open state then later + 1 else later

-- A shard with a replicator that has not been told its followers reports two.
abbrev reported_followers : Option PrimaryReplicator → ℤ → ℤ
reported_followers none n = n
reported_followers (some p) n = if n == pos 0 then pos 2 else n

unfoldable pub get_metrics : ShardServer → ShardMetrics
get_metrics s = record {
  shard_id = s.shard_id;
  role = s.role;
  queue_depth = pending_count s.seen_txns;
  wal_index = s.wal_log.next_log_id;
  follower_count = reported_followers s.replicator s.follower_count;
  account_count = account_count s.ledger;
  total_balance = total_balance s.ledger;
  committed_count = s.committed_count;
  aborted_count = s.aborted_count;
  prepared_count = s.prepared_count;
}

-- The search from the end for a checkpoint.
unfoldable pub last_checkpoint : List WalEntry → ℕ
last_checkpoint [] = 0
last_checkpoint (e ∷ rest) =
    let later = last_checkpoint rest in if ltb 0 later then later else e.checkpoint_log_id

pub record WalPage : Type 0 where
  pub entries : List WalEntry
  pub total : ℕ
  pub last_checkpoint_id : ℕ

abbrev last_entries : ℕ → List WalEntry → List WalEntry
last_entries limit all =
    if ltb 0 limit && ltb limit (length all) then drop (length all - limit) all else all

-- A limit that is negative is like 0 in the source.
unfoldable pub get_wal_entries : ℕ → ShardServer → Result WalError WalPage
get_wal_entries limit s = read_all s.wal_log >>= λ all. ok (record {
  entries = last_entries limit all;
  total = length all;
  last_checkpoint_id = last_checkpoint all;
})
