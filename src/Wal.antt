-- ===== src/Wal.antt =====
-- shard/wal/wal.go: the write-ahead log of one shard, a file of one JSON line for each entry behind
-- a `bufio.Writer`. The disk decides what becomes of each write: `disk` lists the outcomes of the
-- next writes, and a write that it does not mention succeeds.
pub mod Append
pub mod Working
pub mod Restart
mod Tests
use software_course_project.Prelude.{
  ℕ, ◌+◌, ◌%◌, ◌^◌, Bool, true, false, List, [], ◌∷◌, ◌++◌, String, Result, ok, err, ◌>>=◌,
  if◌then◌else◌, leb,
}
use software_course_project.Prelude.Int.{ℤ, pos}
use software_course_project.Model.{OperationType, op_committed, op_aborted, op_checkpoint, WalEntry}

-- A line of the file: an entry, or the beginning of one that was cut off.
pub data Line : Type 0 where
  entry : WalEntry → Line
  torn : Line

-- What becomes of a write: it reaches the disk; it reaches the file but `Sync` fails; `Flush` fails
-- with nothing of the line in the file, or with a part of it. A `bufio.Writer` that has failed
-- once refuses every later write.
pub data WriteOutcome : Type 0 where
  synced unsynced lost cut : WriteOutcome

pub data WalError : Type 0 where
  flush_failed fsync_failed decode_failed scan_failed rewrite_failed : WalError

-- `fits` says of an entry whether its JSON, which the encoder makes, is at most 65535 bytes long: a
-- `bufio.Scanner` reads no longer line. The model has no timestamps, so `fits` takes them to be of one
-- length.
pub record Wal : Type 0 where
  pub fits : WalEntry → Bool
  pub lines : List Line
  pub next_log_id : ℕ
  pub writer_failed : Bool
  pub disk : List WriteOutcome

abbrev pub next_outcome : List WriteOutcome → WriteOutcome
next_outcome [] = synced
next_outcome (o ∷ rest) = o

abbrev pub later_outcomes : List WriteOutcome → List WriteOutcome
later_outcomes [] = []
later_outcomes (o ∷ rest) = rest

unfoldable pub write_line : WriteOutcome → WalEntry → Wal → Result WalError (Unit {0}) × Wal
write_line synced e w = (ok tt, record w { lines = w.lines ++ entry e ∷ [] })
write_line unsynced e w = (err fsync_failed, record w { lines = w.lines ++ entry e ∷ [] })
write_line lost e w = (err flush_failed, record w { writer_failed = true })
write_line cut e w =
    (err flush_failed, record w { lines = w.lines ++ torn ∷ []; writer_failed = true })

unfoldable pub write_entry : WalEntry → Wal → Result WalError (Unit {0}) × Wal
unfolding write_line
write_entry e w =
    if w.writer_failed
    then (err flush_failed, w)
    else write_line (next_outcome w.disk) e (record w { disk = later_outcomes w.disk })

-- `nextLogID++` on a `uint64`, after a write that succeeded.
abbrev pub next_id : ℕ → ℕ
next_id n = (n + 1) % 2 ^ 64

abbrev pub advance : {A : Type 0} → Result WalError (Unit {0}) → A → Wal → Result WalError A × Wal
advance (ok _) a w = (ok a, record w { next_log_id = next_id w.next_log_id })
advance (err e) a w = (err e, w)

-- A write that assigns the next log ID and returns `a` if it succeeds.
unfoldable pub log_entry : {A : Type 0} → WalEntry → A → Wal → Result WalError A × Wal
log_entry e a w = let (r, w') = write_entry e w in advance r a w'

abbrev pub plain_entry : ℕ → String → OperationType → String → ℤ → WalEntry
plain_entry log_id txn_id op_type account_id amount = record {
  log_id = log_id;
  txn_id = txn_id;
  op_type = op_type;
  account_id = account_id;
  amount = amount;
  committed = false;
  checkpoint_log_id = 0;
}

unfoldable pub append : String → OperationType → String → ℤ → Wal → Result WalError ℕ × Wal
append txn_id op_type account_id amount w =
    log_entry (plain_entry w.next_log_id txn_id op_type account_id amount) w.next_log_id w

unfoldable pub mark_committed : String → Wal → Result WalError (Unit {0}) × Wal
mark_committed txn_id w =
    log_entry
      (record (plain_entry w.next_log_id txn_id op_committed "" (pos 0)) { committed = true }) tt w

unfoldable pub mark_aborted : String → Wal → Result WalError (Unit {0}) × Wal
mark_aborted txn_id w = log_entry (plain_entry w.next_log_id txn_id op_aborted "" (pos 0)) tt w

unfoldable pub write_checkpoint : ℕ → Wal → Result WalError (Unit {0}) × Wal
write_checkpoint last_log_id w =
    log_entry
      (record (plain_entry w.next_log_id "" op_checkpoint "" (pos 0)) {
        checkpoint_log_id = last_log_id;
      })
      tt w

-- The scanning loop: the first line that does not decode ends it with an error, and so does the first
-- that the scanner does not read.
unfoldable pub decode : (WalEntry → Bool) → List Line → Result WalError (List WalEntry)
decode fits [] = ok []
decode fits (entry e ∷ rest) =
    let later = decode fits rest in
    if fits e then (later >>= λ entries. ok (e ∷ entries)) else err scan_failed
decode fits (torn ∷ rest) = err decode_failed

-- `writer.Flush` returns the error that the writer met before.
unfoldable pub read_all : Wal → Result WalError (List WalEntry)
unfolding decode
read_all w = if w.writer_failed then err flush_failed else decode w.fits w.lines

-- The loop of `ReadFrom` and the filter of `Truncate`.
unfoldable pub keep_from : ℕ → List WalEntry → List WalEntry
keep_from start [] = []
keep_from start (e ∷ rest) =
    if leb start e.log_id then e ∷ keep_from start rest else keep_from start rest

unfoldable pub read_from : ℕ → Wal → Result WalError (List WalEntry)
unfolding keep_from
read_from start w = read_all w >>= λ all. ok (keep_from start all)

unfoldable pub as_lines : List WalEntry → List Line
as_lines [] = []
as_lines (e ∷ rest) = entry e ∷ as_lines rest

-- What becomes of the rewriting: the file is replaced and opened again; it is not replaced, and the
-- old one is closed; it is replaced and cannot be opened again. A closed file refuses every write.
pub data Rewrite : Type 0 where
  replaced not_replaced not_reopened : Rewrite

unfoldable pub rewrite : Rewrite → List WalEntry → Wal → Result WalError (Unit {0}) × Wal
unfolding as_lines
rewrite replaced keep w = (ok tt, record w { lines = as_lines keep; writer_failed = false })
rewrite not_replaced keep w = (err rewrite_failed, record w { writer_failed = true })
rewrite not_reopened keep w =
    (err rewrite_failed, record w { lines = as_lines keep; writer_failed = true })

unfoldable pub truncate : Rewrite → ℕ → Wal → Result WalError (Unit {0}) × Wal
unfolding keep_from rewrite
truncate outcome before_log_id w = elim (read_all w) [
  | err e ↦ (err e, w)
  | ok all ↦ rewrite outcome (keep_from before_log_id all) w
]

-- The tail of the file gives the next log ID. It is read without a scanner.
unfoldable pub find_next_log_id : List Line → Result WalError ℕ
find_next_log_id [] = ok 0
find_next_log_id (entry e ∷ []) = ok (next_id e.log_id)
find_next_log_id (torn ∷ []) = err decode_failed
find_next_log_id (x ∷ y ∷ rest) = find_next_log_id (y ∷ rest)

-- Opening the file that a log has left, on a disk that will do as `disk` says.
unfoldable pub open_wal : (WalEntry → Bool) → List WriteOutcome → List Line → Result WalError Wal
unfolding find_next_log_id
open_wal fits disk lines = find_next_log_id lines >>= λ n.
    ok (record { fits = fits; lines = lines; next_log_id = n; writer_failed = false; disk = disk })
