-- ===== src/Config/Tests.antt =====
-- The default configuration, and a quorum of four with two followers.
use software_course_project.Prelude.{Bool, length, ◌≡◌, refl, false, none, [], ◌∷◌, List, arith}
use software_course_project.Prelude.Int.{pos}
use software_course_project.Replication.{FollowerConn, quorum}
use software_course_project.Replication.Quorum.{is_ok}
use software_course_project.Config.{Config, default_config, validate}
use software_course_project.Config.Quorum.{validate-quorum}

default_config_valid : validate default_config ≡ none
unfolding validate default_config
default_config_valid = refl

abbrev quorum_of_four : Config
quorum_of_four = record {
  cluster = record { num_shards = pos 3; partitions_per_shard = pos 10; total_partitions = pos 30 };
  shard = record {
    wal_dir = "./data/wal";
    data_dir = "./data/storage";
    replica_count = pos 2;
    quorum_size = pos 4;
  };
  replication = record { heartbeat_interval_ms = pos 5000; heartbeat_miss_limit = pos 3 };
  coordinator = record { listen_addr = ":8080"; shard_map_path = "./config/shard_map.json" };
  performance = record {
    min_tps_per_shard = pos 100;
    single_shard_latency_p99_ms = pos 50;
    cross_shard_latency_p99_ms = pos 200;
  };
}

abbrev two_followers : List FollowerConn
two_followers =
    record { follower_id = "f1"; address = "host1" }
    ∷ record { follower_id = "f2"; address = "host2" }
    ∷ []

validate-quorum_example :
    (validate quorum_of_four ≡ none)
    × ((answers : List Bool)
        → length answers ≡ length two_followers
        → is_ok (quorum (pos 4) two_followers answers) ≡ false)
validate-quorum_example =
    validate-quorum quorum_of_four two_followers (omega arith) (omega arith) (omega arith)
      (omega arith) refl (omega arith) (omega arith)
