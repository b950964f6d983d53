-- ===== src/Failover.antt =====
-- shard/failover/election.go: the election of a new primary of a shard. What the replicas answer is
-- an input.
pub mod Election
pub mod Heartbeat
mod Tests
use software_course_project.Prelude.{
  ℕ, Bool, true, false, Option, none, some, List, [], ◌∷◌, String, Result, ok, err, if◌then◌else◌,
  ltb,
}
use software_course_project.Prelude.Int.{ℤ}
use software_course_project.ShardMap.{
  ShardInfo, ShardMap, get_partitions_for_shard, update_partition,
}

pub record Candidate : Type 0 where
  pub addr : String
  pub log_index : ℕ

-- A replica that cannot be reached, or answers no log index, is no candidate.
unfoldable pub candidates_of : List (String × Option ℕ) → List Candidate
candidates_of [] = []
candidates_of ((addr, none) ∷ rest) = candidates_of rest
candidates_of ((addr, some log_index) ∷ rest) =
    record { addr = addr; log_index = log_index } ∷ candidates_of rest

-- The loop over the candidates after the first.
unfoldable pub best_of : Candidate → List Candidate → Candidate
best_of best [] = best
best_of best (c ∷ rest) =
    let higher = best_of c rest in
    let same = best_of best rest in if ltb best.log_index c.log_index then higher else same

-- A write of the shard map that fails is only logged.
unfoldable pub update_all : ShardInfo → List ℤ → ShardMap → ShardMap
update_all info [] m = m
update_all info (partition_id ∷ rest) m =
    update_all info rest (update_partition m partition_id info).1

pub data ElectionError : Type 0 where
  no_reachable_replicas : String → ElectionError
  promote_failed : String → ElectionError

abbrev pub new_primary : String → Candidate → ShardInfo
new_primary shard_id best = record { shard_id = shard_id; address = best.addr; role = "PRIMARY" }

-- The winner, and the shard map after; `promotes` says whether a replica answers the promotion with
-- 200.
unfoldable pub promote_best :
    String → Candidate → (String → Bool) → ShardMap → Result ElectionError Candidate × ShardMap
unfolding update_all
promote_best shard_id best promotes m =
    if promotes best.addr
    then (ok best, update_all (new_primary shard_id best) (get_partitions_for_shard m shard_id) m)
    else (err (promote_failed best.addr), m)

unfoldable pub elect_among :
    String → List Candidate → (String → Bool) → ShardMap → Result ElectionError Candidate × ShardMap
elect_among shard_id [] promotes m = (err (no_reachable_replicas shard_id), m)
elect_among shard_id (first ∷ rest) promotes m =
    promote_best shard_id (best_of first rest) promotes m

unfoldable pub trigger_election :
    String
    → List (String × Option ℕ)
    → (String → Bool)
    → ShardMap
    → Result ElectionError Candidate × ShardMap
trigger_election shard_id replicas promotes m =
    elect_among shard_id (candidates_of replicas) promotes m
