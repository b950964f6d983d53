-- ===== src/Failover/Tests.antt =====
-- An election among three replicas, one of which does not answer, and rounds of pings.
use software_course_project.Prelude.{
  ℕ, ◌≡◌, refl, true, Option, none, some, List, [], ◌∷◌, String, if◌then◌else◌,
}
use software_course_project.Prelude.Int.{pos, int_eq}
use software_course_project.Dict.{lookup}
use software_course_project.ShardMap.{ShardInfo, ShardMap}
use software_course_project.Failover.{
  best_of, promote_best, elect_among, Candidate, candidates_of, new_primary, trigger_election,
}
use software_course_project.Prelude.{String, Bool, true, false}
use software_course_project.Failover.Heartbeat.{HeartbeatMonitor}
use software_course_project.Failover.Election.{Answered, Beats, is_of, trigger_election-Beats}

abbrev old_primary : ShardInfo
old_primary = record { shard_id = "shard1"; address = "host1:8081"; role = "PRIMARY" }

abbrev other_shard : ShardInfo
other_shard = record { shard_id = "shard2"; address = "host9:8089"; role = "PRIMARY" }

abbrev before : ShardMap
before = record {
  partitions = (pos 0, old_primary) ∷ (pos 1, other_shard) ∷ [];
  saved = [];
  saves = [];
}

abbrev replicas : List (String × Option ℕ)
replicas = ("host1:8081", none) ∷ ("host2:8082", some 7) ∷ ("host3:8083", some 9) ∷ []

abbrev winner : Candidate
winner = record { addr = "host3:8083"; log_index = 9 }

abbrev after : ShardMap
after = (trigger_election "shard1" replicas (λ addr. true) before).1

trigger_election-Beats_example :
    Answered winner replicas
    × Beats winner (candidates_of replicas)
    × (lookup (pos 0) after.partitions ≡ (
        if is_of "shard1" (lookup (pos 0) before.partitions)
        then some (new_primary "shard1" winner)
        else lookup (pos 0) before.partitions))
unfolding lookup trigger_election elect_among candidates_of promote_best best_of
trigger_election-Beats_example =
    trigger_election-Beats "shard1" replicas (λ addr. true) before after winner (pos 0)
      (refl, (refl, tt)) refl

abbrev watching : HeartbeatMonitor
watching = record {
  shard_id = "shard1";
  miss_limit = pos 3;
  miss_count = ("host1:8081", pos 0) ∷ ("host2:8082", pos 0) ∷ [];
  has_callback = true;
}

abbrev rounds : List (String × Bool)
rounds =
    ("host1:8081", true)
    ∷ ("host2:8082", false)
    ∷ ("host1:8081", false)
    ∷ ("host2:8082", false)
    ∷ []
