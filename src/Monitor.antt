-- ===== src/Monitor.antt =====
-- load-monitor/monitor.go: the load monitor, which watches how fast the shards commit and moves
-- partitions in the shard map. Times are numbers of milliseconds of one clock.
pub mod Migration
pub mod Rates
pub mod Hotspot
mod Tests
use software_course_project.Prelude.{
  ◌/◌, ◌+◌, ℕ, ◌-◌, Bool, true, false, not, ◌&&◌, Option, none, some, List, [], ◌∷◌, ◌++◌, String,
  string_eq, Result, ok, err, if◌then◌else◌, ◌==◌, ltb,
}
use software_course_project.Prelude.Int.{◌-ℤ◌, int_eq, ℤ, pos, negsuc, ltb_ℤ}
use software_course_project.Int64.{sub64}
use software_course_project.Dict.{Dict, lookup, insert}
use software_course_project.Ledger.{balance_or_zero}
use software_course_project.Model.{ShardMetrics}
use software_course_project.ShardMap.{
  ShardInfo, ShardMap, all_shards, get_partitions_for_shard, update_partition,
}

pub record MigrationEvent : Type 0 where
  pub partition_id : ℤ
  pub from_shard : String
  pub to_shard : String
  pub triggered_at : ℕ
  pub completed_at : ℕ
  pub trigger_queue_depth : ℤ
  pub success : Bool

pub record LoadMonitor : Type 0 where
  pub shard_map : ShardMap
  pub metrics : Dict String ShardMetrics
  pub prev_committed : Dict String ℤ
  pub threshold_depth : ℤ
  pub cooldown : ℕ
  pub migrations : List MigrationEvent

unfoldable pub new_load_monitor : ShardMap → ℤ → ℕ → LoadMonitor
new_load_monitor shard_map threshold cooldown = record {
  shard_map = shard_map;
  metrics = [];
  prev_committed = [];
  threshold_depth = threshold;
  cooldown = cooldown;
  migrations = [];
}

-- What the shards answer to the request for their metrics; none for one that does not.
abbrev pub Answers : Type 0
Answers = ShardInfo → Option ShardMetrics

abbrev note_metrics :
    String → Option ShardMetrics → Dict String ShardMetrics → Dict String ShardMetrics
note_metrics shard_id none metrics = metrics
note_metrics shard_id (some m) metrics = insert shard_id m metrics

unfoldable pub poll_all :
    Answers → List ShardInfo → Dict String ShardMetrics → Dict String ShardMetrics
poll_all answers [] metrics = metrics
poll_all answers (shard ∷ rest) metrics =
    poll_all answers rest (note_metrics shard.shard_id (answers shard) metrics)

unfoldable pub poll_shards : Answers → LoadMonitor → LoadMonitor
unfolding poll_all
poll_shards answers m = record m { metrics = poll_all answers (all_shards m.shard_map) m.metrics }

-- The state of the loop over the shards. The rates are `int64`s.
pub record Scan : Type 0 where
  pub hot : Option ShardInfo
  pub cool : Option ShardInfo
  pub max_rate : ℤ
  pub min_rate : ℤ
  pub prev : Dict String ℤ

abbrev pub start_scan : Dict String ℤ → Scan
start_scan prev = record {
  hot = none;
  cool = none;
  max_rate = negsuc 0;
  min_rate = pos 999999999;
  prev = prev;
}

-- Transactions that the shard committed since the last look.
unfoldable pub rate_of : ShardInfo → ShardMetrics → Dict String ℤ → ℤ
rate_of shard m prev = sub64 m.committed_count (balance_or_zero (lookup shard.shard_id prev))

abbrev pub note_hot : ShardInfo → ℤ → Scan → Scan
note_hot shard rate scan =
    if ltb_ℤ scan.max_rate rate then record scan { hot = some shard; max_rate = rate } else scan

abbrev pub note_cool : ShardInfo → ℤ → Scan → Scan
note_cool shard rate scan =
    if ltb_ℤ rate scan.min_rate then record scan { cool = some shard; min_rate = rate } else scan

abbrev pub scan_shard : ShardInfo → Option ShardMetrics → Scan → Scan
scan_shard shard none scan = scan
scan_shard shard (some m) scan =
    let rate = rate_of shard m scan.prev in
    let scan' = record scan { prev = insert shard.shard_id m.committed_count scan.prev } in
    note_cool shard rate (note_hot shard rate scan')

unfoldable pub scan_shards : Dict String ShardMetrics → List ShardInfo → Scan → Scan
scan_shards metrics [] scan = scan
scan_shards metrics (shard ∷ rest) scan =
    scan_shards metrics rest (scan_shard shard (lookup shard.shard_id metrics) scan)

-- Go's `/ 2`, which rounds towards zero.
abbrev half : ℤ → ℤ
half (pos n) = pos (n / 2)
half (negsuc n) = pos 0 -ℤ pos ((n + 1) / 2)

-- Is the gap between the fastest and the slowest shard large enough?
abbrev pub is_imbalanced : ℤ → ℤ → ℤ → Bool
is_imbalanced threshold max_rate min_rate =
    ltb_ℤ threshold max_rate && ltb_ℤ (half threshold) (sub64 max_rate min_rate)

abbrev pub last_event : List MigrationEvent → Option MigrationEvent
last_event [] = none
last_event (e ∷ []) = some e
last_event (e ∷ f ∷ rest) = last_event (f ∷ rest)

-- Less than the cooldown since the last migration.
abbrev pub is_cooling : ℕ → ℕ → Option MigrationEvent → Bool
is_cooling now cooldown none = false
is_cooling now cooldown (some e) = ltb (now - e.completed_at) cooldown

abbrev pub chosen : ℤ → Scan → Option ShardInfo → Option ShardInfo → Option (ShardInfo × ShardInfo)
chosen threshold scan (some hot) (some cool) =
    if is_imbalanced threshold scan.max_rate scan.min_rate && not (hot.shard_id == cool.shard_id)
    then some (hot, cool)
    else none
chosen threshold scan _ _ = none

-- The shards between which a partition is to move, and the monitor after the look.
unfoldable pub check_hotspots : ℕ → LoadMonitor → Option (ShardInfo × ShardInfo) × LoadMonitor
unfolding scan_shards
check_hotspots now m =
    let scan = scan_shards m.metrics (all_shards m.shard_map) (start_scan m.prev_committed) in
    (
      if is_cooling now m.cooldown (last_event m.migrations)
          then none
          else chosen m.threshold_depth scan scan.hot scan.cool,
      record m { prev_committed = scan.prev },
    )

abbrev committed_of : Option ShardMetrics → ℤ
committed_of none = pos 0
committed_of (some m) = m.committed_count

unfoldable pub record_migration : MigrationEvent → LoadMonitor → LoadMonitor
record_migration e m = record m { migrations = m.migrations ++ e ∷ [] }

-- The first of the hot shard's partitions; the error of the map is dropped.
abbrev pub move_first : ℕ → ℕ → ShardInfo → ShardInfo → List ℤ → LoadMonitor → LoadMonitor
move_first started finished hot cool [] m = m
move_first started finished hot cool (id ∷ rest) m =
    let event : MigrationEvent = record {
      partition_id = id;
      from_shard = hot.shard_id;
      to_shard = cool.shard_id;
      triggered_at = started;
      completed_at = finished;
      trigger_queue_depth = committed_of (lookup hot.shard_id m.metrics);
      success = true;
    } in
    record_migration event (record m { shard_map = (update_partition m.shard_map id cool).1 })

unfoldable pub migrate_partition : ℕ → ℕ → ShardInfo → ShardInfo → LoadMonitor → LoadMonitor
unfolding record_migration
migrate_partition started finished hot cool m =
    move_first started finished hot cool (get_partitions_for_shard m.shard_map hot.shard_id) m

-- `HandleShardMap`: which shard has each partition.
abbrev give_all : String → List ℤ → Dict ℤ String → Dict ℤ String
give_all shard_id [] table = table
give_all shard_id (id ∷ rest) table = give_all shard_id rest (insert id shard_id table)

unfoldable pub owners : ShardMap → List ShardInfo → Dict ℤ String → Dict ℤ String
owners m [] table = table
owners m (shard ∷ rest) table =
    owners m rest (give_all shard.shard_id (get_partitions_for_shard m shard.shard_id) table)

unfoldable pub handle_shard_map : LoadMonitor → Dict ℤ String
unfolding owners
handle_shard_map m = owners m.shard_map (all_shards m.shard_map) []
