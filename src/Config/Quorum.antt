-- ===== src/Config/Quorum.antt =====
-- The quorum of a configuration, against the followers that it gives each shard.
use software_course_project.Prelude.{◌+◌, ◌≡◌, ◌∙◌, Bool, false, none, List, length, arith}
use software_course_project.Prelude.Int.{pos, ◌≤ℤ◌}
use software_course_project.Int64.{max_int64}
use software_course_project.Replication.{FollowerConn, quorum}
use software_course_project.Replication.Quorum.{is_ok, count_acks-le-length, quorum-count_acks}
use software_course_project.Config.{Config, validate}

-- The check accepts a configuration whose other settings are in order, with a quorum of more than its
-- followers and the leader, and then no replication succeeds: whichever of its followers answer, and
-- however.
pub validate-quorum :
    (c : Config) (followers : List FollowerConn)
    → pos 1 ≤ℤ c.cluster.num_shards
    → pos 1 ≤ℤ c.cluster.total_partitions
    → pos 1 ≤ℤ c.replication.heartbeat_interval_ms
    → pos 1 ≤ℤ c.replication.heartbeat_miss_limit
    → c.shard.replica_count ≡ pos (length followers)
    → pos (length followers + 2) ≤ℤ c.shard.quorum_size
    → c.shard.quorum_size ≤ℤ max_int64
    → (validate c ≡ none)
      × ((answers : List Bool)
          → length answers ≡ length followers
          → is_ok (quorum c.shard.quorum_size followers answers) ≡ false)
unfolding validate
validate-quorum c followers shards partitions interval misses counts large high = (
  ground arith,
  λ answers same.
      let low : pos 0 ≤ℤ c.shard.quorum_size = omega arith in
      quorum-count_acks c.shard.quorum_size followers answers low high same
      ∙ ground (arith, count_acks-le-length answers),
)
