-- ===== src/Replication/Quorum.antt =====
-- The quorum rule: which answers let `Replicate` succeed.
use software_course_project.Prelude.{
  ℕ, ◌+◌, ◌≤◌, ◌≡◌, Bool, true, false, List, [], ◌∷◌, Result, ok, err, arith, length, if◌then◌else◌,
}
use software_course_project.Prelude.Int.{ℤ, pos, pos_part, neg_part, ◌≤ℤ◌, leb_ℤ, ◌-ℤ◌, int_laws}
use software_course_project.Int64.{max_int64, sub64, sub64_exact}
use software_course_project.Replication.{ReplicationError, FollowerConn, wait_for_quorum, quorum}

abbrev pub is_ok : Result ReplicationError (Unit {0}) → Bool
is_ok (ok _) = true
is_ok (err _) = false

-- The ACKs among the answers.
abbrev pub count_acks : List Bool → ℕ
count_acks [] = 0
count_acks (ack ∷ rest) = (if ack then 1 else 0) + count_acks rest

pub count_acks-le-length : (answers : List Bool) → count_acks answers ≤ length answers
count_acks-le-length [] = omega arith
count_acks-le-length (ack ∷ rest) = ground (arith, count_acks-le-length rest)

wait_for_quorum-count_acks :
    (needed : ℤ) (acks : ℕ) (answers : List Bool)
    → is_ok (wait_for_quorum needed acks answers) ≡ leb_ℤ needed (pos (acks + count_acks answers))
unfolding wait_for_quorum
wait_for_quorum-count_acks needed acks [] = ground arith
wait_for_quorum-count_acks needed acks (true ∷ rest) =
    ground (arith, wait_for_quorum-count_acks needed (acks + 1) rest, count_acks-le-length rest)
wait_for_quorum-count_acks needed acks (false ∷ rest) =
    ground (arith, wait_for_quorum-count_acks needed acks rest, count_acks-le-length rest)

-- With one answer from each follower, replication succeeds exactly when the leader and the
-- followers that acknowledged make up the quorum: neither the early success nor the early failure
-- changes the outcome, nor does the order of the answers.
pub quorum-count_acks :
    (quorum_size : ℤ) (followers : List FollowerConn) (answers : List Bool)
    → pos 0 ≤ℤ quorum_size
    → quorum_size ≤ℤ max_int64
    → length answers ≡ length followers
    → is_ok (quorum quorum_size followers answers)
      ≡ leb_ℤ quorum_size (pos (1 + count_acks answers))
unfolding quorum
quorum-count_acks quorum_size [] [] low high same = ground arith
quorum-count_acks quorum_size [] (x ∷ answers) low high same = absurd (omega arith)
quorum-count_acks quorum_size (f ∷ fs) answers low high same =
    let needed = sub64 quorum_size (pos 1) in
    let exact : needed ≡ quorum_size -ℤ pos 1 = sub64_exact quorum_size (pos 1) (omega int_laws) in
    let one_less : pos_part needed + neg_part quorum_size + 1
        ≡ neg_part needed + pos_part quorum_size =
      rw exact (omega int_laws) in
    ground (arith, wait_for_quorum-count_acks needed 0 answers)
