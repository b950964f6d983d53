-- ===== src/Lib.antt =====
-- The ledger service: a sharded ledger of account balances. A coordinator takes transactions and
-- sends each to the shard that holds both accounts, or runs a two-phase commit between two shards. A
-- shard writes its log before it changes its balances, sends the log's entries to followers, and
-- rebuilds its balances from the log when it starts.
--
-- The files and the code that they are about (paths from the repository's root):
-- - Prelude, Int64, Dict: shared names, Go's `int64` with its wrap-around, and Go's maps as
--   association lists. Where the code walks a map, the model walks the list.
-- - Model: shared/constants/states.go and shared/models: transactions, log entries, results.
-- - Ledger: shard/ledger/ledger.go, each method a function from the ledger to a result and the
--   ledger after it. Ledger/Funds has the exact sum and the soundness of a ledger, Ledger/Exact the
--   arithmetic, Ledger/Transfers, Ledger/Reserve and Ledger/Snapshots the methods' properties.
-- - Hash: shared/utils/hash.go, with SHA-256 as a parameter.
-- - Partition: shard/partition/partition.go.
-- - Wal: shard/wal/wal.go. The file is a list of lines, an entry or a line that was cut off. What the
--   disk does to each write is a list of outcomes in the state of the log: written, written without
--   `Sync`, lost, or cut; past its end every write succeeds. `fits` says which entries are at most
--   65535 bytes long as JSON: `ReadAll` fails at a longer one, which the `Scanner` does not read, while
--   `Append` and findNextLogID take it. Wal/Append is about `Append`,
--   Wal/Working about a disk that works, Wal/Restart about `Open`, `Truncate` and crashes.
-- - Recovery: shard/recovery/recovery.go, its two passes and the balance changes that it applies at
--   the end. Recovery/Status describes the first pass, Recovery/Balances and Recovery/Replayed the
--   second, Recovery/Extension and Recovery/Commit what the entries of one more transaction change,
--   and Recovery/Quiet what entries without a COMMITTED record do not.
-- - Replication: shard/replication/primary.go and follower.go. The order in which the answers of the
--   followers arrive is a schedule in the state of the primary. Replication/Quorum is about the wait
--   for the quorum, Replication/Delivery about what the followers then hold.
-- - Storage: storage/json_store.go, with a schedule of which writes of the file succeed.
-- - Server: shard/server/shard_server.go. Server/State has the fields, Server/Single the function
--   `ExecuteSingleShard` in legs, Server/TwoPhase the functions `PrepareTransaction`,
--   `CommitTransaction` and `AbortTransaction`, Server/Accounts the start, the creation of accounts,
--   the checkpoint and the partitions. Server/Conservation and Server/Idempotence hold for every
--   disk and every follower; Server/Durability, Server/Paid, Server/Growth, Server/Progress and
--   Server/Runs relate the log to the balances. Server/Restart is the start on a file that an earlier
--   process left, Server/Opening the first start, Server/Settled one step as clients see it, and
--   Server/Refinement runs of transactions, stops and starts. Server/Lost is a stop between the two
--   phases of a commit. Server/Others is what one transaction leaves of another. Server/Reservation and
--   Server/Reservation/Ending are the two-phase participant on a working disk, Server/Checkpoint
--   relates the store to the balances, and Server/Metrics has the reports and the setters.
-- - Bank: what a shard without followers promises, as a specification that knows no log.
-- - Http: shard/server/http_handler.go and messaging/client.go. Http/Handlers has one function for
--   each endpoint, Http/Serve the table of the paths, Http/Client the client's requests.
--   Http/Guards, Http/Creation and Http/Transport are about refused requests, the creation of an
--   account, and the two-phase commit over HTTP.
-- - TwoPc: coordinator/twopc/coordinator.go, with the requests of messaging/client.go. What the
--   network does to each request to a shard is a schedule: delivered, request lost, or answer lost.
--   TwoPc/Retry is about the retries of a COMMIT, TwoPc/Atomic about the whole protocol,
--   TwoPc/Progress about a network that loses requests, TwoPc/Others about what it leaves for other
--   transactions, and TwoPc/Repeat and TwoPc/Reuse about an ID that comes again.
-- - Router: coordinator/router/router.go, over the shards behind their addresses. Router/Total sums
--   what they hold, Router/Conservation is about one transaction in the whole system, Router/Runs about
--   several.
-- - Consumer: coordinator/consumer/consumer.go, the coordinator's endpoints with the results and the
--   history that they keep (Consumer/Answers, Consumer/History). Consumer/Kafka is
--   coordinator/consumer/kafka_consumer.go, the loop over the queue, which Consumer/Money is about.
-- - Gateway: api/handlers/transaction.go, api/kafka/producer.go and api/middleware. The queue is a
--   list of messages, with a schedule of which of the next ones are written. Gateway/Queue follows
--   transactions through it to the shards, Gateway/Limits is about the limits of the clients.
-- - ShardMap: coordinator/shardmap/shard_map.go, with a schedule of which writes of the file succeed.
--   ShardMap/File is about the keys of the file, and ShardMap/Routes about the routing of accounts and
--   the restart of the coordinator.
-- - Failover: shard/failover/election.go, with the answers of the replicas as inputs.
--   Failover/Election is about the winner and the shard map after. Failover/Heartbeat is
--   shard/failover/heartbeat.go, with the answers of the peers as inputs.
-- - Env, Node: cmd/shard/main.go, the settings and the process of one shard, with the endpoint of a
--   follower beside those of the server; the log that both write is one field. Node/Client is
--   shard/replication/client.go, Node/Transport is about an entry on its way to a follower, and
--   Node/Stale and Node/Refusal about a follower that is promoted.
-- - Coordinator: cmd/coordinator/main.go, the process that serves the coordinator's endpoints and reads
--   the queue. Coordinator/Status is the status request of api/handlers/transaction.go, and
--   Coordinator/Unknown is about what it can find.
-- - Seed: cmd/seed/main.go. Seed/Grown and Seed/Accounts are about one account, Seed/Run about a whole
--   run, Seed/Progress about lost requests, and Seed/Backoff about the waiting between two of them.
-- - FaultProxy: cmd/fault-proxy/main.go, over Docker. FaultProxy/Reach is about what a request can do
--   to the containers, FaultProxy/Foreign about containers of other projects.
-- - Monitor: load-monitor/monitor.go, with the answers of the shards and the clock as inputs.
--   Monitor/Rates and Monitor/Hotspot are about the choice of the shards, Monitor/Migration about the
--   accounts of a partition that was moved.
-- - Config: internal/config/config.go, with the reading of the file. Config/Quorum is about quorums that
--   cannot be reached.
-- - Fixtures and the Tests modules: small concrete shards, and runs on them.
--
-- Modelling choices. A method that holds a lock is one step, and a transaction's lock makes a handler
-- one step for its transaction. Errors are values that carry what the code's messages show. `int64`
-- and `uint64` arithmetic wraps around as written out in Int64 and Wal. Every loop is structural
-- recursion on the list that it walks, and the attempts of `commitWithRetry` and `seedAccount` count
-- down from their limit; no definition runs on fuel. Timestamps, latencies and log messages are left
-- out.
--
-- What the program takes from elsewhere is a parameter: SHA-256, Docker, the encoding and decoding of
-- JSON and the length of an entry's, the parsing of numbers, queries and headers, signed tokens, the rate limiter of one client, and
-- the formatting of an account's transaction ID.
--
-- Not modelled: the wiring of the gateway and of the load monitor (cmd/api, cmd/load-monitor), the load
-- test of cmd/loadgen, which runs against the clock, the text format of the metrics, and the frontend.
pub mod Prelude
pub mod Int64
pub mod Dict
pub mod Model
pub mod Ledger
pub mod Hash
pub mod Partition
pub mod Wal
pub mod Recovery
pub mod Replication
pub mod Storage
pub mod Bank
pub mod Server
pub mod TwoPc
pub mod ShardMap
pub mod Failover
pub mod Http
pub mod Fixtures
pub mod Gateway
pub mod Router
pub mod Consumer
pub mod Monitor
pub mod Config
pub mod Env
pub mod Node
pub mod Seed
pub mod FaultProxy
pub mod Coordinator
