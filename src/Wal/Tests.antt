-- ===== src/Wal/Tests.antt =====
-- A log of one entry, and the theorems on it.
use software_course_project.Prelude.{true, ◌≡◌, refl, false, List, [], ◌∷◌, ◌++◌, ok, arith}
use software_course_project.Prelude.Int.{pos}
use software_course_project.Model.{WalEntry, op_debit, op_credit}
use software_course_project.Wal.{
  write_entry, log_entry, decode, Wal, entry, synced, unsynced, plain_entry, next_id, append,
  read_all,
}
use software_course_project.Wal.Append.{
  read_back, Holds, Increasing, append_durable, append-Increasing,
}

abbrev debit0 : WalEntry
debit0 = plain_entry 0 "t1" op_debit "alice" (pos 30)

abbrev one_entry : Wal
one_entry = record {
  fits = λ e. true;
  lines = entry debit0 ∷ [];
  next_log_id = 1;
  writer_failed = false;
  disk = [];
}

one_entry-Holds : Holds one_entry (debit0 ∷ [])
unfolding decode
one_entry-Holds = record { decodes = refl; working = refl }

abbrev two_entries : Wal
two_entries = (append "t1" op_credit "bob" (pos 30) one_entry).1

append_durable_example :
    (1 ≡ one_entry.next_log_id)
    × (read_all two_entries
        ≡ read_back true ((debit0 ∷ []) ++ plain_entry 1 "t1" op_credit "bob" (pos 30) ∷ []))
    × (two_entries.next_log_id ≡ next_id 1)
unfolding append log_entry write_entry
append_durable_example =
    append_durable "t1" op_credit "bob" (pos 30) one_entry one_entry-Holds {id = 1}
      {w' = two_entries} refl

append-Increasing_example :
    (all : List WalEntry) × (read_all two_entries ≡ ok all)
    × Increasing 0 all two_entries.next_log_id
unfolding append log_entry write_entry
append-Increasing_example =
    append-Increasing "t1" op_credit "bob" (pos 30) one_entry {id = 1} {w' = two_entries}
      one_entry-Holds (omega arith, omega arith) (omega arith) refl refl

abbrev failing_sync : Wal
failing_sync = record one_entry { disk = unsynced ∷ synced ∷ [] }
