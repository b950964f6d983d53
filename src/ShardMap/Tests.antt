-- ===== src/ShardMap/Tests.antt =====
-- A map of five partitions over two shards.
use software_course_project.Fixtures.{print_tally, scan_tally, scan_tally-print_tally}
use software_course_project.ShardMap.File.{Reloads}
use software_course_project.Prelude.{refl, some, [], ◌∷◌, ◌==◌, if◌then◌else◌}
use software_course_project.Prelude.Int.{pos, int_eq}
use software_course_project.ShardMap.{ShardInfo, ShardMap, get_shard, update_partition, assign}
use software_course_project.ShardMap.Routes.{update_partition-load_shard_map}

abbrev shard1 : ShardInfo
shard1 = record { shard_id = "shard1"; address = "host1:8081"; role = "PRIMARY" }

abbrev shard2 : ShardInfo
shard2 = record { shard_id = "shard2"; address = "host2:8082"; role = "PRIMARY" }

abbrev five : ShardMap
five = record {
  partitions = assign 5 0 shard1 (shard2 ∷ []) [];
  saved = assign 5 0 shard1 (shard2 ∷ []) [];
  saves = [];
}

abbrev moved : ShardMap
moved = (update_partition five (pos 3) shard1).1

update_partition-load_shard_map_example :
    Reloads print_tally scan_tally moved []
      (λ q. if q == pos 3 then some shard1 else get_shard five q)
unfolding update_partition
update_partition-load_shard_map_example =
    update_partition-load_shard_map print_tally scan_tally scan_tally-print_tally five moved (pos 3)
      shard1 [] refl
