-- ===== src/Replication.antt =====
-- shard/replication: the leader's quorum (primary.go) and the follower's receiver (follower.go). The
-- network is a schedule: for each replicated entry, which of the followers' answers are ACKs, in the
-- order in which they arrive.
pub mod Quorum
pub mod Delivery
mod Tests
use software_course_project.Prelude.{
  ℕ, ◌+◌, Bool, true, false, List, [], ◌∷◌, ◌++◌, String, Result, ok, err, if◌then◌else◌, length,
  replicate,
}
use software_course_project.Prelude.Int.{ℤ, pos, leb_ℤ, ltb_ℤ}
use software_course_project.Int64.{sub64}
use software_course_project.Model.{WalEntry}
use software_course_project.Wal.{Wal, WalError, append}

pub data ReplicationError : Type 0 where
  no_followers : ℤ → ReplicationError
  quorum_impossible : ℤ → ℕ → ℕ → ReplicationError
  quorum_not_met : ℤ → ℕ → ReplicationError

pub record FollowerConn : Type 0 where
  pub follower_id : String
  pub address : String

-- `quorum_size` counts the leader.
pub record PrimaryReplicator : Type 0 where
  pub shard_id : String
  pub followers : List FollowerConn
  pub quorum_size : ℤ
  pub arrivals : List (List Bool)

unfoldable pub new_primary_replicator : String → ℤ → PrimaryReplicator
new_primary_replicator shard_id quorum_size = record {
  shard_id = shard_id;
  followers = [];
  quorum_size = quorum_size;
  arrivals = [];
}

unfoldable pub add_follower : PrimaryReplicator → String → String → PrimaryReplicator
add_follower p follower_id address = record p {
  followers = p.followers ++ record { follower_id = follower_id; address = address } ∷ [];
}

-- The loop that waits for the answers that are still to come.
unfoldable pub wait_for_quorum : ℤ → ℕ → List Bool → Result ReplicationError (Unit {0})
wait_for_quorum needed acks [] =
    if leb_ℤ needed (pos acks) then ok tt else err (quorum_not_met needed acks)
wait_for_quorum needed acks (ack ∷ rest) =
    let acks' : ℕ = if ack then acks + 1 else acks in
    let later = wait_for_quorum needed acks' rest in
    if leb_ℤ needed (pos acks')
    then ok tt
    else if ltb_ℤ (pos (acks' + length rest)) needed
    then err (quorum_impossible needed acks' (length rest))
    else later

unfoldable pub quorum : ℤ → List FollowerConn → List Bool → Result ReplicationError (Unit {0})
unfolding wait_for_quorum
quorum quorum_size [] answers =
    if leb_ℤ quorum_size (pos 1) then ok tt else err (no_followers quorum_size)
quorum quorum_size (f ∷ fs) answers =
    let needed = sub64 quorum_size (pos 1) in
    if leb_ℤ needed (pos 0) then ok tt else wait_for_quorum needed 0 answers

-- An entry that the schedule does not mention is acknowledged by every follower.
abbrev pub next_answers : List (List Bool) → ℕ → List Bool
next_answers [] n = replicate n true
next_answers (answers ∷ rest) n = answers

abbrev pub later_answers : List (List Bool) → List (List Bool)
later_answers [] = []
later_answers (answers ∷ rest) = rest

unfoldable pub replicate_entry :
    WalEntry → PrimaryReplicator → Result ReplicationError (Unit {0}) × PrimaryReplicator
unfolding quorum
replicate_entry e p = (
  quorum p.quorum_size p.followers (next_answers p.arrivals (length p.followers)),
  record p { arrivals = later_answers p.arrivals },
)

unfoldable pub follower_count : PrimaryReplicator → ℕ
follower_count p = length p.followers

pub record FollowerReceiver : Type 0 where
  pub shard_id : String
  pub wal : Wal
  pub last_log_id : ℕ

abbrev pub after_append :
    Result WalError ℕ → WalEntry → FollowerReceiver → Result WalError (Unit {0}) × FollowerReceiver
after_append (ok _) e f = (ok tt, record f { last_log_id = e.log_id })
after_append (err x) e f = (err x, f)

unfoldable pub receive_entry :
    WalEntry → FollowerReceiver → Result WalError (Unit {0}) × FollowerReceiver
receive_entry e f =
    let (r, w) = append e.txn_id e.op_type e.account_id e.amount f.wal in
    after_append r e (record f { wal = w })
