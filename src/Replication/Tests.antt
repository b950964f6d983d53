-- ===== src/Replication/Tests.antt =====
-- A primary with two followers, one of which cannot be reached.
use software_course_project.Prelude.{◌+◌, refl, true, false, List, [], ◌∷◌, arith, length, All}
use software_course_project.Prelude.Int.{◌-ℤ◌, pos, ◌≤ℤ◌}
use software_course_project.Model.{WalEntry, op_debit}
use software_course_project.Wal.{write_entry, log_entry, append, decode, Wal, plain_entry}
use software_course_project.Replication.{receive_entry, FollowerConn, FollowerReceiver, quorum}
use software_course_project.Replication.Delivery.{
  answers_of, acknowledged, Persisted, quorum_is_durable,
}
use software_course_project.Int64.{wrap64, sub64}

abbrev followers : List FollowerConn
followers =
    record { follower_id = "f1"; address = "host1:9001" }
    ∷ record { follower_id = "f2"; address = "host2:9002" }
    ∷ []

abbrev empty_wal : Wal
empty_wal = record {
  fits = λ e. true;
  lines = [];
  next_log_id = 0;
  writer_failed = false;
  disk = [];
}

abbrev receiver : FollowerReceiver
receiver = record { shard_id = "shard1"; wal = empty_wal; last_log_id = 0 }

abbrev sent : WalEntry
sent = plain_entry 7 "t1" op_debit "alice" (pos 30)

quorum_is_durable_example :
    (pos 2 ≤ℤ pos (1 + length (acknowledged sent ((false, receiver) ∷ (true, receiver) ∷ []))))
    × All (Persisted sent) (acknowledged sent ((false, receiver) ∷ (true, receiver) ∷ []))
unfolding decode quorum sub64 wrap64 ◌-ℤ◌ answers_of receive_entry append log_entry write_entry
quorum_is_durable_example =
    quorum_is_durable sent (pos 2) followers ((false, receiver) ∷ (true, receiver) ∷ []) refl
      (
        (([], record { decodes = refl; working = refl }), refl),
        ((([], record { decodes = refl; working = refl }), refl), tt),
      )
      (omega arith) (omega arith) refl
