-- ===== src/Wal/Working.antt =====
-- Writes on a disk that works: each entry is put at the end of the file.
use software_course_project.Prelude.{ℕ, ◌≡◌, true, false, List, [], ◌∷◌, ◌++◌, String, ok, arith}
use software_course_project.Prelude.Int.{ℤ, pos}
use software_course_project.Model.{OperationType, op_committed, op_aborted, WalEntry}
use software_course_project.Wal.{
  Wal, entry, write_line, write_entry, log_entry, append, mark_committed, mark_aborted, next_id,
  plain_entry,
}
use software_course_project.Wal.Append.{Holds, decode-append}

-- The disk has no failure ahead, and the writer has met none.
pub record IsWorking (w : Wal) : Type 0 where
  pub no_failures : w.disk ≡ []
  pub not_failed : w.writer_failed ≡ false

abbrev pub logged : WalEntry → Wal → Wal
logged e w = record w { lines = w.lines ++ entry e ∷ []; next_log_id = next_id w.next_log_id }

abbrev pub committed_entry : ℕ → String → WalEntry
committed_entry n txn_id = record (plain_entry n txn_id op_committed "" (pos 0)) {
  committed = true;
}

pub logged-IsWorking : (e : WalEntry) (w : Wal) → IsWorking w → IsWorking (logged e w)
logged-IsWorking e w h = record { no_failures = h.no_failures; not_failed = h.not_failed }

pub logged-Holds :
    (e : WalEntry) (w : Wal) {es : List WalEntry}
    → w.fits e ≡ true
    → Holds w es
    → Holds (logged e w) (es ++ e ∷ [])
logged-Holds e w {es} short h = record {
  decodes = decode-append w.fits w.lines es e short h.decodes;
  working = h.working;
}

module _ (w : Wal) (h : IsWorking w) where
  log_entry_working : {A : Type 0} (e : WalEntry) (a : A) → log_entry e a w ≡ (ok a, logged e w)
  unfolding log_entry write_entry write_line
  log_entry_working e a = ground (arith, h.no_failures, h.not_failed)

  pub append_working :
      (txn_id : String) (op_type : OperationType) (account_id : String) (amount : ℤ)
      → append txn_id op_type account_id amount w
        ≡ (ok w.next_log_id, logged (plain_entry w.next_log_id txn_id op_type account_id amount) w)
  unfolding append
  append_working txn_id op_type account_id amount =
      log_entry_working (plain_entry w.next_log_id txn_id op_type account_id amount) w.next_log_id

  pub mark_committed_working :
      (txn_id : String)
      → mark_committed txn_id w ≡ (ok tt, logged (committed_entry w.next_log_id txn_id) w)
  unfolding mark_committed
  mark_committed_working txn_id = log_entry_working (committed_entry w.next_log_id txn_id) tt

  pub mark_aborted_working :
      (txn_id : String)
      → mark_aborted txn_id w
        ≡ (ok tt, logged (plain_entry w.next_log_id txn_id op_aborted "" (pos 0)) w)
  unfolding mark_aborted
  mark_aborted_working txn_id =
      log_entry_working (plain_entry w.next_log_id txn_id op_aborted "" (pos 0)) tt
