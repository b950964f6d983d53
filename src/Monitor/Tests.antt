-- ===== src/Monitor/Tests.antt =====
-- A partition of the first of two shards moves to the second.
use software_course_project.Model.{ShardMetrics, primary}
use software_course_project.Monitor.Hotspot.{IsHottest, check_hotspots-IsHottest}
use software_course_project.Prelude.{err, ◌∷◌, String, false, ◌≡◌, refl, [], ok, ◌==◌, string_eq}
use software_course_project.Prelude.Int.{◌-ℤ◌, ℤ, pos, int_eq}
use software_course_project.ShardMap.{
  ShardMapError, update_partition, file_of, all_shards, get_partitions_for_shard,
}
use software_course_project.Monitor.{
  rate_of, check_hotspots, is_cooling, last_event, LoadMonitor, migrate_partition,
}
use software_course_project.Monitor.Migration.{Reroutes, migrate_partition-load_shard_map}
use software_course_project.Fixtures.{
  print_tally, scan_tally, scan_tally-print_tally, two_router, by_name, first_info, second_info,
}
use software_course_project.Dict.{insert, lookup}
use software_course_project.Int64.{wrap64, sub64}

abbrev watching : LoadMonitor
watching = record {
  shard_map = two_router.shard_map;
  metrics = [];
  prev_committed = [];
  threshold_depth = pos 5;
  cooldown = 2000;
  migrations = [];
}

migrate_partition-load_shard_map_example :
    ((update_partition watching.shard_map (pos 0) second_info).0 ≡ ok tt
      → Reroutes by_name two_router.mapper scan_tally
          (file_of print_tally (migrate_partition 10 20 first_info second_info watching).shard_map)
          []
          watching.shard_map
          (pos 0)
          second_info)
    × ((e : ShardMapError)
        → (update_partition watching.shard_map (pos 0) second_info).0 ≡ err e
        → file_of print_tally (migrate_partition 10 20 first_info second_info watching).shard_map
          ≡ file_of print_tally watching.shard_map)
unfolding get_partitions_for_shard
migrate_partition-load_shard_map_example =
    migrate_partition-load_shard_map 10 20 first_info second_info watching by_name two_router.mapper
      print_tally scan_tally scan_tally-print_tally (pos 0) [] [] refl

abbrev reporting : String → ℤ → ShardMetrics
reporting shard_id n = record {
  shard_id = shard_id;
  role = primary;
  queue_depth = 0;
  wal_index = 0;
  follower_count = pos 0;
  account_count = 1;
  total_balance = pos 0;
  committed_count = n;
  aborted_count = pos 0;
  prepared_count = pos 0;
}

abbrev busy : LoadMonitor
busy = record watching {
  metrics = ("shard1", reporting "shard1" (pos 40)) ∷ ("shard2", reporting "shard2" (pos 12)) ∷ [];
  prev_committed = ("shard1", pos 20) ∷ ("shard2", pos 10) ∷ [];
}

check_hotspots-IsHottest_example :
    IsHottest busy first_info
    × ((first_info.shard_id == second_info.shard_id) ≡ false)
    × (is_cooling 100 busy.cooldown (last_event busy.migrations) ≡ false)
unfolding check_hotspots all_shards lookup rate_of sub64 wrap64 ◌-ℤ◌ insert
check_hotspots-IsHottest_example = check_hotspots-IsHottest 100 busy first_info second_info refl
