-- ===== src/Replication/Delivery.antt =====
-- One entry sent to every follower: what an ACK, and so a quorum, means for the followers' logs.
use software_course_project.Prelude.{
  ◌∙◌, ℕ, ◌+◌, ◌≡◌, refl, inl, inr, Bool, true, false, List, [], ◌∷◌, ◌++◌, Result, ok, err, arith,
  length, if◌then◌else◌, All, Bool-cases,
}
use software_course_project.Prelude.Int.{ℤ, pos, ◌≤ℤ◌}
use software_course_project.Int64.{max_int64}
use software_course_project.Model.{WalEntry}
use software_course_project.Wal.{WalError, read_all, plain_entry}
use software_course_project.Wal.Append.{Holds, append-Written}
use software_course_project.Replication.{
  FollowerConn, FollowerReceiver, receive_entry, after_append, quorum,
}
use software_course_project.Replication.Quorum.{count_acks, quorum-count_acks}

abbrev pub is_persisted : Result WalError (Unit {0}) → Bool
is_persisted (ok _) = true
is_persisted (err _) = false

-- `SendEntry` to a follower that can be reached or not: the ACK is the answer 200 of
-- `handleReplicate`, which is given after `ReceiveEntry` succeeded.
unfoldable pub deliver : WalEntry → Bool × FollowerReceiver → Bool × FollowerReceiver
deliver e (false, f) = (false, f)
deliver e (true, f) = let (r, f') = receive_entry e f in (is_persisted r, f')

-- The answers, and the followers that gave an ACK, with their new state.
unfoldable pub answers_of : WalEntry → List (Bool × FollowerReceiver) → List Bool
unfolding deliver
answers_of e [] = []
answers_of e (f ∷ fs) = (deliver e f).0 ∷ answers_of e fs

unfoldable pub acknowledged : WalEntry → List (Bool × FollowerReceiver) → List FollowerReceiver
unfolding deliver
acknowledged e [] = []
acknowledged e (f ∷ fs) =
    let (ack, f') = deliver e f in let rest = acknowledged e fs in if ack then f' ∷ rest else rest

-- The follower's log can be read, and a scanner reads the entry that it makes of this one.
abbrev pub IsReadable : WalEntry → Bool × FollowerReceiver → Type 0
IsReadable e (reachable, f) =
    ((es : List WalEntry) × Holds f.wal es)
    × (f.wal.fits (plain_entry f.wal.next_log_id e.txn_id e.op_type e.account_id e.amount) ≡ true)

-- The follower's log can be read back, and ends with the operation of the entry; the follower
-- reports the leader's ID for it.
abbrev pub Persisted : WalEntry → FollowerReceiver → Type 0
Persisted e f =
    (es : List WalEntry) × (n : ℕ) × (read_all f.wal
      ≡ ok (es ++ plain_entry n e.txn_id e.op_type e.account_id e.amount ∷ []))
    × (f.last_log_id ≡ e.log_id)

receive_entry-Persisted :
    (e : WalEntry) (f : FollowerReceiver) {es : List WalEntry}
    → Holds f.wal es
    → f.wal.fits (plain_entry f.wal.next_log_id e.txn_id e.op_type e.account_id e.amount) ≡ true
    → is_persisted (receive_entry e f).0 ≡ true
    → Persisted e (receive_entry e f).1
unfolding receive_entry
receive_entry-Persisted e f {es} h short acked =
    elim (append-Written e.txn_id e.op_type e.account_id e.amount f.wal h) [
      | inl (accepted, _, reads, moved, written) ↦
          rw (accepted, after_append) (es, f.wal.next_log_id, reads ∙ rw short refl, refl)
      | inr (x, refused, kept) ↦ absurd (ground (arith, refused))
    ]

length-answers_of :
    (e : WalEntry) (fs : List (Bool × FollowerReceiver)) → length (answers_of e fs) ≡ length fs
unfolding answers_of
length-answers_of e [] = refl
length-answers_of e (f ∷ fs) = omega (arith, length-answers_of e fs)

length-acknowledged :
    (e : WalEntry) (fs : List (Bool × FollowerReceiver))
    → length (acknowledged e fs) ≡ count_acks (answers_of e fs)
unfolding answers_of acknowledged
length-acknowledged e [] = refl
length-acknowledged e (f ∷ fs) = ground (arith, length-acknowledged e fs)

acknowledged-Persisted :
    (e : WalEntry) (fs : List (Bool × FollowerReceiver))
    → All (IsReadable e) fs
    → All (Persisted e) (acknowledged e fs)
unfolding acknowledged
acknowledged-Persisted e [] h = tt
acknowledged-Persisted e ((false, f) ∷ fs) h = acknowledged-Persisted e fs h.1
acknowledged-Persisted e ((true, f) ∷ fs) h =
    elim (Bool-cases (is_persisted (receive_entry e f).0)) [
      | inl acked ↦
          rw acked
            (receive_entry-Persisted e f h.0.0.1 h.0.1 acked, acknowledged-Persisted e fs h.1)
      | inr refused ↦ rw refused (acknowledged-Persisted e fs h.1)
    ]

-- Where the followers' logs can be read, and the entry that each would write is at most 65535 bytes
-- long as JSON: with one answer from each follower and a quorum size that is an int64 of at least
-- 0, where `Replicate` succeeds, the leader and the followers that gave an ACK make up the quorum, and
-- each of these followers can read the entry back from the end of its log.
pub quorum_is_durable :
    (e : WalEntry) (quorum_size : ℤ) (conns : List FollowerConn)
    (fs : List (Bool × FollowerReceiver))
    → length fs ≡ length conns
    → All (IsReadable e) fs
    → pos 0 ≤ℤ quorum_size
    → quorum_size ≤ℤ max_int64
    → quorum quorum_size conns (answers_of e fs) ≡ ok tt
    → (quorum_size ≤ℤ pos (1 + length (acknowledged e fs))) × All (Persisted e) (acknowledged e fs)
quorum_is_durable e quorum_size conns fs same readable low high done =
    let rule =
      quorum-count_acks quorum_size conns (answers_of e fs) low high
        (omega (arith, length-answers_of e fs)) in
    (ground (arith, rule, length-acknowledged e fs), acknowledged-Persisted e fs readable)
