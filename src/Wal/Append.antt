-- ===== src/Wal/Append.antt =====
-- What a write leaves in the log: durability of the entries that were acknowledged.
use software_course_project.Prelude.{
  ap, Bool-cases, Bool, true, if◌then◌else◌, ◌∙◌, ℕ, ◌+◌, ◌≤◌, ◌<◌, ◌≡◌, ◌⊎◌, refl, suc, ◌^◌, inl,
  inr, false, List, [], ◌∷◌, ◌++◌, String, Result, ok, err, arith, Result-cases,
}
use software_course_project.Prelude.Int.{ℤ}
use software_course_project.Model.{OperationType, WalEntry}
use software_course_project.Wal.{
  scan_failed, Wal, Line, entry, torn, WalError, WriteOutcome, synced, unsynced, lost, cut, next_id,
  next_outcome, later_outcomes, advance, write_line, write_entry, log_entry, append, decode,
  read_all, plain_entry, fsync_failed, flush_failed,
}

-- The log decodes to these entries, and its writer works.
pub record Holds (w : Wal) (entries : List WalEntry) : Type 0 where
  pub decodes : decode w.fits w.lines ≡ ok entries
  pub working : w.writer_failed ≡ false

pub decode-append :
    (fits : WalEntry → Bool) (lines : List Line) (es : List WalEntry) (e : WalEntry)
    → fits e ≡ true
    → decode fits lines ≡ ok es
    → decode fits (lines ++ entry e ∷ []) ≡ ok (es ++ e ∷ [])
unfolding decode
decode-append fits [] es e short h = ground arith
decode-append fits (torn ∷ lines) es e short h = ground arith
decode-append fits (entry x ∷ lines) es e short h = elim (Bool-cases (fits x)) [
  | inr long ↦ cc (rw long at h)
  | inl reads ↦ elim (Result-cases (decode fits lines)) [
    | inl (rest, known) ↦
        let first : es ≡ x ∷ rest = cc (rw (reads, known) at h) in
        rw (reads, decode-append fits lines rest e short known, first) refl
    | inr (y, failed) ↦ cc (rw (reads, failed) at h)
  ]
]

decode-long :
    (fits : WalEntry → Bool) (lines : List Line) (es : List WalEntry) (e : WalEntry)
    → fits e ≡ false
    → decode fits lines ≡ ok es
    → decode fits (lines ++ entry e ∷ []) ≡ err scan_failed
unfolding decode
decode-long fits [] es e long h = rw long refl
decode-long fits (torn ∷ lines) es e long h = ground arith
decode-long fits (entry x ∷ lines) es e long h = elim (Bool-cases (fits x)) [
  | inr other ↦ cc (rw other at h)
  | inl reads ↦ elim (Result-cases (decode fits lines)) [
    | inl (rest, known) ↦ rw (reads, decode-long fits lines rest e long known) refl
    | inr (y, failed) ↦ cc (rw (reads, failed) at h)
  ]
]

-- What is read back after a write that was acknowledged, of an entry that a scanner reads or not.
abbrev pub read_back : Bool → List WalEntry → Result WalError (List WalEntry)
read_back fits es = if fits then ok es else err scan_failed

pub read_all-Holds : (w : Wal) {es : List WalEntry} → Holds w es → read_all w ≡ ok es
unfolding read_all
read_all-Holds w h = rw h.working h.decodes

-- How a write ends: acknowledged, with the entry last in the log and the next ID moved on; or
-- refused, with the ID as it was. An entry that a scanner does not read is acknowledged too, and then the log
-- cannot be read.
abbrev pub Written :
    {A : Type 0} → A → WalEntry → List WalEntry → Wal → Result WalError A × Wal → Type 0
Written a e es w (r, w') =
    ((r ≡ ok a)
      × (w.fits e ≡ true → Holds w' (es ++ e ∷ []))
      × (read_all w' ≡ read_back (w.fits e) (es ++ e ∷ []))
      × (w'.next_log_id ≡ next_id w.next_log_id)
      × (w'.lines ≡ w.lines ++ entry e ∷ []))
    ⊎ ((x : WalError) × (r ≡ err x) × (w'.next_log_id ≡ w.next_log_id))

write_line-Written :
    {A : Type 0} (o : WriteOutcome) (e : WalEntry) (a : A) (w : Wal) {es : List WalEntry}
    → Holds w es
    → let (r, w') = write_line o e w in Written a e es w (advance r a w')
unfolding write_line read_all
write_line-Written synced e a w {es} h = inl (
  refl,
  (λ short. record {
    decodes = decode-append w.fits w.lines es e short h.decodes;
    working = h.working;
  }),
  rw h.working (elim (Bool-cases (w.fits e)) [
    | inl short ↦ rw short (decode-append w.fits w.lines es e short h.decodes)
    | inr long ↦ rw long (decode-long w.fits w.lines es e long h.decodes)
  ]),
  refl,
  refl,
)
write_line-Written unsynced e a w h = inr (fsync_failed, refl, refl)
write_line-Written lost e a w h = inr (flush_failed, refl, refl)
write_line-Written cut e a w h = inr (flush_failed, refl, refl)

write_entry_working :
    (e : WalEntry) (w : Wal)
    → w.writer_failed ≡ false
    → write_entry e w
      ≡ write_line (next_outcome w.disk) e (record w { disk = later_outcomes w.disk })
unfolding write_entry
write_entry_working e w h = simp h

pub log_entry-Written :
    {A : Type 0} (e : WalEntry) (a : A) (w : Wal) {es : List WalEntry}
    → Holds w es
    → Written a e es w (log_entry e a w)
unfolding log_entry
log_entry-Written e a w h = rw (write_entry_working e w h.working) (
    write_line-Written (next_outcome w.disk) e a (record w { disk = later_outcomes w.disk })
      (record { decodes = h.decodes; working = h.working }))

module _ (txn_id : String) (op_type : OperationType) (account_id : String) (amount : ℤ) (w : Wal)
    {es : List WalEntry} (h : Holds w es) where
  pub append-Written :
      Written w.next_log_id
        (plain_entry w.next_log_id txn_id op_type account_id amount)
        es
        w
        (append txn_id op_type account_id amount w)
  unfolding append
  append-Written =
      log_entry-Written (plain_entry w.next_log_id txn_id op_type account_id amount) w.next_log_id w
        h

  -- An append that is acknowledged returned the log's next ID and moved it on. If the JSON of the
  -- entry is at most 65535 bytes long, the whole log is read back with the entry, under that
  -- ID, at its end; if it is longer, the log cannot be read any more.
  pub append_durable :
      {id : ℕ} {w' : Wal}
      → append txn_id op_type account_id amount w ≡ (ok id, w')
      → (id ≡ w.next_log_id)
        × (read_all w'
            ≡ read_back
                (w.fits (plain_entry id txn_id op_type account_id amount))
                (es ++ plain_entry id txn_id op_type account_id amount ∷ []))
        × (w'.next_log_id ≡ next_id id)
  append_durable {id} {w'} done = elim (append-Written) [
    | inl (accepted, _, reads, moved, _) ↦
        let same : id ≡ w.next_log_id = cc (done, accepted) in
        let state : (append txn_id op_type account_id amount w).1 ≡ w' = cc done in
        rw same (refl, cc (state, reads), cc (moved, state))
    | inr (x, refused, kept) ↦ cc (done, refused)
  ]

-- The IDs grow strictly from `lo` on and stay below `hi`.
abbrev pub Increasing : ℕ → List WalEntry → ℕ → Type 0
Increasing lo [] hi = lo ≤ hi
Increasing lo (e ∷ es) hi = (lo ≤ e.log_id) × Increasing (suc e.log_id) es hi

Increasing-append :
    (lo : ℕ) (es : List WalEntry) (e : WalEntry) (hi : ℕ)
    → Increasing lo es hi
    → e.log_id ≡ hi
    → Increasing lo (es ++ e ∷ []) (hi + 1)
Increasing-append lo [] e hi h same = omega arith
Increasing-append lo (x ∷ es) e hi h same = (h.0, Increasing-append (suc x.log_id) es e hi h.1 same)

-- An acknowledged append of an entry whose JSON is at most 65535 bytes long keeps the log readable and its IDs strictly increasing and below the next one, until 2^64 of them have been
-- given out.
pub append-Increasing :
    (txn_id : String) (op_type : OperationType) (account_id : String) (amount : ℤ) (w : Wal)
    {es : List WalEntry} {id : ℕ} {w' : Wal}
    → Holds w es
    → Increasing 0 es w.next_log_id
    → w.next_log_id + 1 < 2 ^ 64
    → w.fits (plain_entry w.next_log_id txn_id op_type account_id amount) ≡ true
    → append txn_id op_type account_id amount w ≡ (ok id, w')
    → (all : List WalEntry) × (read_all w' ≡ ok all) × Increasing 0 all w'.next_log_id
append-Increasing txn_id op_type account_id amount w {es} {id} {w'} h grows room short done =
    let e = plain_entry id txn_id op_type account_id amount in
    let (same, read, moved) = append_durable txn_id op_type account_id amount w h done in
    let next : w'.next_log_id ≡ w.next_log_id + 1 = omega arith in
    let reads : w.fits e ≡ true =
      ap (λ n. w.fits (plain_entry n txn_id op_type account_id amount)) same ∙ short in
    (
      es ++ e ∷ [],
      read ∙ rw reads refl,
      rw next (Increasing-append 0 es e w.next_log_id grows same),
    )
