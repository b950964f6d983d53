-- ===== src/Server.antt =====
-- shard/server/shard_server.go: one shard node. `State` has its fields, `Single` the execution of a
-- transaction inside the shard, `TwoPhase` the participant of the two-phase commit, `Accounts` the
-- start, the creation of accounts, the checkpoint and the partitions.
pub mod State
pub mod Single
pub mod TwoPhase
pub mod Accounts
pub mod Conservation
pub mod Idempotence
pub mod Durability
pub mod Paid
pub mod Growth
pub mod Progress
pub mod Runs
pub mod Restart
pub mod Metrics
pub mod Settled
pub mod Opening
pub mod Refinement
pub mod Lost
pub mod Others
pub mod Reservation
pub mod Checkpoint
mod Tests
