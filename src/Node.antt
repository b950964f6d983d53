-- ===== src/Node.antt =====
-- cmd/shard/main.go: the process of one shard, a server with the replication endpoint of a follower
-- (shard/replication/follower.go) beside it. The receiver of a follower writes to the log of the
-- server: the node holds the log once, and the receiver is put together from it for each request.
pub mod Client
pub mod Transport
pub mod Stale
pub mod Refusal
mod Tests
use software_course_project.Prelude.{
  ℕ, Bool, true, false, not, ◌&&◌, Option, none, some, List, [], ◌∷◌, String, string_eq, Result, ok,
  err, ◌>>=◌, if◌then◌else◌, ◌==◌,
}
use software_course_project.Prelude.Int.{ℤ}
use software_course_project.Env.{Texts, env_or_default, split}
use software_course_project.Model.{Role, primary, follower, other_role, WalEntry}
use software_course_project.Wal.{WalError, WriteOutcome, Line}
use software_course_project.Hash.{new_partition_mapper, PartitionMapper}
use software_course_project.Partition.{new_manager}
use software_course_project.Storage.{StoreFile, StorageError, StoreData, JsonStore, new_json_store}
use software_course_project.Replication.{
  PrimaryReplicator, new_primary_replicator, add_follower, FollowerReceiver, receive_entry,
}
use software_course_project.Server.State.{ShardServer, ServerError}
use software_course_project.Server.Accounts.{new_shard_server}
use software_course_project.Server.Metrics.{set_storage, set_role, set_partitioning, set_replicator}
use software_course_project.Http.{
  Request, Response, Decoders, is_post, respond, fail_with, method_not_allowed, invalid_body,
  wal_failed, status,
}
use software_course_project.Http.Serve.{serve_request}

pub record Settings : Type 0 where
  pub shard_id : String
  pub role : String
  pub follower_addrs : String
  pub partitions : String
  pub quorum_size : String
  pub total_partitions : String

-- The addresses and the paths of the files have no part in what follows.
unfoldable pub settings : (String → String) → Settings
settings env = record {
  shard_id = env_or_default env "SHARD_ID" "shard1";
  role = env_or_default env "SHARD_ROLE" "PRIMARY";
  follower_addrs = env_or_default env "SHARD_FOLLOWER_ADDRS" "";
  partitions = env_or_default env "SHARD_PARTITIONS" "0,1,2,3,4,5,6,7,8,9";
  quorum_size = env_or_default env "SHARD_QUORUM_SIZE" "2";
  total_partitions = env_or_default env "SHARD_TOTAL_PARTITIONS" "30";
}

-- Why the process ends before it listens.
pub data Fatal : Type 0 where
  invalid_quorum_size invalid_total_partitions : Fatal
  storage_failed : StorageError → Fatal
  invalid_partition : String → Fatal
  server_failed : ServerError → Fatal
  no_partitions : Fatal

abbrev as_number : Fatal → Option ℤ → Result Fatal ℤ
as_number e none = err e
as_number e (some n) = ok n

unfoldable pub partition_ids : Texts → List String → Result Fatal (List ℤ)
partition_ids texts [] = ok []
partition_ids texts (part ∷ rest) =
    let s = texts.trim_space part in
    let later = partition_ids texts rest in
    if s == ""
    then later
    else as_number (invalid_partition s) (texts.atoi s) >>= λ id. later >>= λ ids. ok (id ∷ ids)

unfoldable pub add_followers : Texts → List String → PrimaryReplicator → PrimaryReplicator
add_followers texts [] p = p
add_followers texts (part ∷ rest) p =
    let address = texts.trim_space part in
    add_followers texts rest (if address == "" then p else add_follower p address address)

-- Followers are added on a primary that names any.
unfoldable pub replicator_of : Texts → Settings → ℤ → PrimaryReplicator
unfolding add_followers
replicator_of texts c quorum_size =
    let p = new_primary_replicator c.shard_id quorum_size in
    if (c.role == "PRIMARY") && not (c.follower_addrs == "")
    then add_followers texts (split b',' c.follower_addrs) p
    else p

unfoldable pub role_of : String → Role
role_of role =
    if role == "PRIMARY" then primary else if role == "FOLLOWER" then follower else other_role role

-- `last_log_id` is the receiver's; the endpoint is registered on a follower only, once for all.
pub record Node : Type 0 where
  pub server : ShardServer
  pub receives : Bool
  pub last_log_id : ℕ

abbrev as_opened : Result StorageError JsonStore → Result Fatal JsonStore
as_opened (err e) = err (storage_failed e)
as_opened (ok store) = ok store

abbrev as_started : Result ServerError ShardServer → Result Fatal ShardServer
as_started (err e) = err (server_failed e)
as_started (ok s) = ok s

-- A mapper over no partitions is a panic.
abbrev as_mapper : Option PartitionMapper → Result Fatal PartitionMapper
as_mapper none = err no_partitions
as_mapper (some mapper) = ok mapper

-- The server with all that `main` sets, and the endpoint of a follower.
unfoldable pub node_of :
    Texts → Settings → ℤ → JsonStore → List ℤ → PartitionMapper → ShardServer → Node
unfolding replicator_of role_of set_storage set_role set_partitioning set_replicator
node_of texts c quorum_size store ids mapper s = record {
  server = set_replicator (replicator_of texts c quorum_size) (
      set_partitioning (new_manager c.shard_id ids) mapper
        (set_role (role_of c.role) (set_storage store s)));
  receives = c.role == "FOLLOWER";
  last_log_id = 0;
}

unfoldable pub start_node :
    (WalEntry → Bool)
    → Texts
    → Settings
    → StoreFile
    → List Bool
    → List WriteOutcome
    → List Line
    → Result Fatal Node
unfolding partition_ids
start_node fits texts c stored saves disk lines =
    as_number invalid_quorum_size (texts.atoi c.quorum_size) >>= λ quorum_size.
    as_number invalid_total_partitions (texts.atoi c.total_partitions) >>= λ total.
    partition_ids texts (split b',' c.partitions) >>= λ ids.
    as_opened (new_json_store stored saves) >>= λ store.
    as_started (new_shard_server fits c.shard_id disk lines []) >>= λ s.
    as_mapper (new_partition_mapper total) >>= λ mapper.
    ok (node_of texts c quorum_size store ids mapper s)

-- `FollowerReceiver`, over the log of the server.
abbrev pub receiver : Node → FollowerReceiver
receiver n = record {
  shard_id = n.server.shard_id;
  wal = n.server.wal_log;
  last_log_id = n.last_log_id;
}

abbrev pub with_receiver : FollowerReceiver → Node → Node
with_receiver f n = record n {
  server = record n.server { wal_log = f.wal };
  last_log_id = f.last_log_id;
}

abbrev pub replicate_answer : Result WalError (Unit {0}) → Response
replicate_answer (err e) = fail_with 500 (wal_failed e)
replicate_answer (ok _) = respond 200 (status "ACK")

unfoldable pub handle_replicate : (String → Option WalEntry) → Request → Node → Response × Node
handle_replicate decode_entry r n =
    if not (is_post r.method)
    then (fail_with 405 method_not_allowed, n)
    else elim (decode_entry r.body) [
      | none ↦ (fail_with 400 invalid_body, n)
      | some e ↦
          let (answer, f) = receive_entry e (receiver n) in
          (replicate_answer answer, with_receiver f n)
    ]

-- Any request to the process, at a path.
unfoldable pub serve_node :
    (String → List ℕ)
    → (String → String)
    → Decoders
    → (String → Option WalEntry)
    → String
    → Request
    → Node
    → Response × Node
serve_node sha256 create_id decode decode_entry path r n =
    let (answer, s) = serve_request sha256 create_id path decode r n.server in
    if (path == "/replicate") && n.receives
    then handle_replicate decode_entry r n
    else (answer, record n { server = s })
