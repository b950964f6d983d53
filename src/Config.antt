-- ===== src/Config.antt =====
-- internal/config/config.go: the settings, their defaults, their check, and the reading of the file.
-- Decoding JSON over the defaults is Go's and a parameter.
pub mod Quorum
mod Tests
use software_course_project.Prelude.{Option, none, some, String, Result, ok, err, if◌then◌else◌}
use software_course_project.Prelude.Int.{ℤ, pos, leb_ℤ, ltb_ℤ}

pub record ClusterConfig : Type 0 where
  pub num_shards : ℤ
  pub partitions_per_shard : ℤ
  pub total_partitions : ℤ

pub record ShardConfig : Type 0 where
  pub wal_dir : String
  pub data_dir : String
  pub replica_count : ℤ
  pub quorum_size : ℤ

pub record ReplicationConfig : Type 0 where
  pub heartbeat_interval_ms : ℤ
  pub heartbeat_miss_limit : ℤ

pub record CoordinatorConfig : Type 0 where
  pub listen_addr : String
  pub shard_map_path : String

pub record PerformanceConfig : Type 0 where
  pub min_tps_per_shard : ℤ
  pub single_shard_latency_p99_ms : ℤ
  pub cross_shard_latency_p99_ms : ℤ

pub record Config : Type 0 where
  pub cluster : ClusterConfig
  pub shard : ShardConfig
  pub replication : ReplicationConfig
  pub coordinator : CoordinatorConfig
  pub performance : PerformanceConfig

pub data ConfigError : Type 0 where
  bad_num_shards bad_total_partitions bad_replica_count bad_quorum_size : ℤ → ConfigError
  bad_heartbeat_interval bad_heartbeat_miss_limit : ℤ → ConfigError

unfoldable pub default_config : Config
default_config = record {
  cluster = record { num_shards = pos 3; partitions_per_shard = pos 10; total_partitions = pos 30 };
  shard = record {
    wal_dir = "./data/wal";
    data_dir = "./data/storage";
    replica_count = pos 2;
    quorum_size = pos 2;
  };
  replication = record { heartbeat_interval_ms = pos 5000; heartbeat_miss_limit = pos 3 };
  coordinator = record { listen_addr = ":8080"; shard_map_path = "./config/shard_map.json" };
  performance = record {
    min_tps_per_shard = pos 100;
    single_shard_latency_p99_ms = pos 50;
    cross_shard_latency_p99_ms = pos 200;
  };
}

unfoldable pub validate : Config → Option ConfigError
validate c =
    if leb_ℤ c.cluster.num_shards (pos 0)
    then some (bad_num_shards c.cluster.num_shards)
    else if leb_ℤ c.cluster.total_partitions (pos 0)
    then some (bad_total_partitions c.cluster.total_partitions)
    else if ltb_ℤ c.shard.replica_count (pos 0)
    then some (bad_replica_count c.shard.replica_count)
    else if leb_ℤ c.shard.quorum_size (pos 0)
    then some (bad_quorum_size c.shard.quorum_size)
    else if leb_ℤ c.replication.heartbeat_interval_ms (pos 0)
    then some (bad_heartbeat_interval c.replication.heartbeat_interval_ms)
    else if leb_ℤ c.replication.heartbeat_miss_limit (pos 0)
    then some (bad_heartbeat_miss_limit c.replication.heartbeat_miss_limit)
    else none

pub data LoadError : Type 0 where
  read_failed parse_failed : LoadError
  validation_failed : ConfigError → LoadError

-- `file` is what the file holds, or none where it cannot be read; `unmarshal` puts a text over a
-- configuration, with none for a text that does not decode.
unfoldable pub load : (String → Config → Option Config) → Option String → Result LoadError Config
unfolding default_config validate
load unmarshal none = err read_failed
load unmarshal (some file) = elim (unmarshal file default_config) [
  | none ↦ err parse_failed
  | some c ↦ elim (validate c) [ some e ↦ err (validation_failed e) | none ↦ ok c ]
]
