-- ===== src/Wal/Restart.antt =====
-- Reading, truncating and opening again a log.
use mathlib.Core.Path.{subst}
use software_course_project.Prelude.{
  Bool, true, Result-cases, All, leb, Bool-cases, ℕ, ◌≤◌, ◌≡◌, refl, inl, inr, List, [], ◌∷◌, ◌++◌,
  String, ok, err, arith, false,
}
use software_course_project.Prelude.Int.{ℤ}
use software_course_project.Model.{OperationType, WalEntry}
use software_course_project.Wal.{
  Wal, Line, entry, torn, WriteOutcome, synced, unsynced, decode_failed, fsync_failed, append,
  decode, read_from, truncate, replaced, keep_from, as_lines, find_next_log_id, open_wal,
  plain_entry, write_line, write_entry, log_entry,
}
use software_course_project.Wal.Append.{Holds, read_all-Holds}

find_next_log_id-torn :
    (lines : List Line) → find_next_log_id (lines ++ torn ∷ []) ≡ err decode_failed
unfolding find_next_log_id
find_next_log_id-torn [] = refl
find_next_log_id-torn (entry x ∷ []) = refl
find_next_log_id-torn (torn ∷ []) = refl
find_next_log_id-torn (x ∷ y ∷ lines) = find_next_log_id-torn (y ∷ lines)

-- A log whose last line was cut off by a crash cannot be opened again.
pub open_wal-torn :
    (fits : WalEntry → Bool) (disk : List WriteOutcome) (lines : List Line)
    → open_wal fits disk (lines ++ torn ∷ []) ≡ err decode_failed
unfolding open_wal
open_wal-torn fits disk lines = rw find_next_log_id-torn

-- The scanner reads all of these.
abbrev pub AllFit : (WalEntry → Bool) → List WalEntry → Type 0
AllFit fits = All (λ e. fits e ≡ true)

decode-AllFit :
    (fits : WalEntry → Bool) (lines : List Line) (es : List WalEntry)
    → decode fits lines ≡ ok es
    → AllFit fits es
unfolding decode
decode-AllFit fits [] [] h = tt
decode-AllFit fits [] (e ∷ es) h = absurd (cc)
decode-AllFit fits (torn ∷ lines) es h = absurd (ground arith)
decode-AllFit fits (entry x ∷ lines) es h = elim (Bool-cases (fits x)) [
  | inr long ↦ cc (rw long at h)
  | inl reads ↦ elim (Result-cases (decode fits lines)) [
    | inl (rest, known) ↦
        let first : x ∷ rest ≡ es = cc (rw (reads, known) at h) in
        subst (AllFit fits) first (reads, decode-AllFit fits lines rest known)
    | inr (y, failed) ↦ cc (rw (reads, failed) at h)
  ]
]

keep_from-AllFit :
    (fits : WalEntry → Bool) (m : ℕ) (es : List WalEntry)
    → AllFit fits es
    → AllFit fits (keep_from m es)
unfolding keep_from
keep_from-AllFit fits m [] h = tt
keep_from-AllFit fits m (e ∷ es) (own, later) = elim (Bool-cases (leb m e.log_id)) [
  | inl keeps ↦ rw keeps (own, keep_from-AllFit fits m es later)
  | inr drops ↦ rw drops (keep_from-AllFit fits m es later)
]

decode-as_lines :
    (fits : WalEntry → Bool) (es : List WalEntry)
    → AllFit fits es
    → decode fits (as_lines es) ≡ ok es
unfolding decode as_lines
decode-as_lines fits [] h = refl
decode-as_lines fits (e ∷ es) (own, later) = rw (own, decode-as_lines fits es later) refl

keep_from-keep_from :
    (m n : ℕ) (es : List WalEntry) → m ≤ n → keep_from n (keep_from m es) ≡ keep_from n es
unfolding keep_from
keep_from-keep_from m n [] h = refl
keep_from-keep_from m n (e ∷ es) h = ground (arith, keep_from-keep_from m n es h)

truncate-Holds :
    (m : ℕ) (w : Wal) {es : List WalEntry}
    → Holds w es
    → Holds (truncate replaced m w).1 (keep_from m es)
unfolding truncate
truncate-Holds m w {es} h =
    rw (read_all-Holds w h, truncate)
      (record {
        decodes =
            decode-as_lines w.fits (keep_from m es)
              (keep_from-AllFit w.fits m es (decode-AllFit w.fits w.lines es h.decodes));
        working = refl;
      })

-- Truncating the log before `m` loses no entry with an ID from `m` on.
pub read_from-truncate :
    (m n : ℕ) (w : Wal) {es : List WalEntry}
    → m ≤ n
    → Holds w es
    → read_from n (truncate replaced m w).1 ≡ read_from n w
unfolding read_from
read_from-truncate m n w {es} le h = rw (
  read_all-Holds w h,
  read_all-Holds (truncate replaced m w).1 (truncate-Holds m w h),
  keep_from-keep_from m n es le,
)

-- After a write that reached the file and whose `Sync` failed, the next append gives the same log
-- ID to another entry.
pub unsynced_repeats_log_id :
    (txn_id other : String) (op_type : OperationType) (account_id : String) (amount : ℤ) (w : Wal)
    (later : List WriteOutcome)
    → w.writer_failed ≡ false
    → w.disk ≡ unsynced ∷ synced ∷ later
    → let (first, w') = append txn_id op_type account_id amount w in
      let (second, w'') = append other op_type account_id amount w' in
      (first ≡ err fsync_failed)
      × (second ≡ ok w.next_log_id)
      × (w''.lines
          ≡ (w.lines ++ entry (plain_entry w.next_log_id txn_id op_type account_id amount) ∷ [])
            ++ entry (plain_entry w.next_log_id other op_type account_id amount) ∷ [])
unfolding append log_entry write_entry write_line
unsynced_repeats_log_id txn_id other op_type account_id amount w later ok_writer outcomes =
    ground arith
