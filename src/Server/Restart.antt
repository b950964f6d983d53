-- ===== src/Server/Restart.antt =====
-- The start of a shard on the file that an earlier process left.
use software_course_project.Prelude.{
  Bool-cases, Bool, Result-cases, inl, inr, ℕ, ◌≡◌, ◌∙◌, refl, ap, false, some, List, [], ◌∷◌,
  String, string_eq, Result, ok, arith, if◌then◌else◌,
}
use software_course_project.Dict.{Dict, lookup, insert}
use software_course_project.Dict.Laws.{lookup-insert}
use software_course_project.Ledger.{Ledger, new_ledger}
use software_course_project.Model.{TransactionState, WalEntry, prepared, committed, aborted}
use software_course_project.Wal.{Wal, Line, entry, torn, decode, find_next_log_id, open_wal}
use software_course_project.Wal.Append.{Holds, read_all-Holds}
use software_course_project.Recovery.{recover, recover_entries}
use software_course_project.Recovery.Ended.{
  listed, remembered_as, listed-committed_txns, listed-aborted_txns, listed-pending_txns,
}
use software_course_project.Server.State.{ShardServer, ServerError}
use software_course_project.Server.Accounts.{
  replay_log, note_all, rebuild_seen, started, new_shard_server,
}

-- The process stops, and a new one starts on its file, without initial balances.
unfoldable pub restart : ShardServer → Result ServerError ShardServer
restart s = new_shard_server s.wal_log.fits s.shard_id [] s.wal_log.lines []

lookup-note_all :
    (t : String) (state : TransactionState) (us : List String) (seen : Dict String TransactionState)
    → lookup t (note_all state us seen) ≡ (if listed t us then some state else lookup t seen)
unfolding note_all
lookup-note_all t state [] seen = refl
lookup-note_all t state (u ∷ us) seen =
    lookup-note_all t state us (insert u state seen)
    ∙ rw (lookup-insert t u state seen) (ground arith)

-- A restart remembers the transactions by the log alone: committed where any COMMITTED entry names
-- it, else aborted where any ABORTED entry does, else prepared where any PREPARED entry does, and
-- nothing of the others.
pub lookup-rebuild_seen :
    (t : String) (es : List WalEntry) (l : Ledger)
    → lookup t (rebuild_seen (recover_entries es l).0) ≡ remembered_as t es
unfolding rebuild_seen lookup
lookup-rebuild_seen t es l =
    let r = (recover_entries es l).0 in
    let first = note_all prepared r.pending_txns [] in
    let second = note_all committed r.committed_txns first in
    lookup-note_all t aborted r.aborted_txns second
    ∙ rw
        (
          lookup-note_all t committed r.committed_txns first,
          lookup-note_all t prepared r.pending_txns [],
          listed-aborted_txns t es l,
          listed-committed_txns t es l,
          listed-pending_txns t es l,
        )
        (ground arith)

find_next_log_id-decode :
    (fits : WalEntry → Bool) (lines : List Line) {es : List WalEntry}
    → decode fits lines ≡ ok es
    → (n : ℕ) × (find_next_log_id lines ≡ ok n)
unfolding decode find_next_log_id
find_next_log_id-decode fits [] h = (0, refl)
find_next_log_id-decode fits (entry e ∷ []) h = (_, refl)
find_next_log_id-decode fits (torn ∷ []) h = absurd (ground arith)
find_next_log_id-decode fits (torn ∷ y ∷ rest) h = absurd (ground arith)
find_next_log_id-decode fits (entry e ∷ y ∷ rest) h = elim (Bool-cases (fits e)) [
  | inr long ↦ cc (rw long at h)
  | inl reads ↦ elim (Result-cases (decode fits (y ∷ rest))) [
    | inl (es', known) ↦ find_next_log_id-decode fits (y ∷ rest) known
    | inr (x, failed) ↦ cc (rw (reads, failed) at h)
  ]
]

-- The log as the new process has it.
abbrev pub reopened : ℕ → Wal → Wal
reopened n w = record w { next_log_id = n; writer_failed = false; disk = [] }

open_wal-Holds :
    (w : Wal) {es : List WalEntry}
    → Holds w es
    → (n : ℕ) × (open_wal w.fits [] w.lines ≡ ok (reopened n w))
unfolding open_wal
open_wal-Holds w h =
    let (n, next) = find_next_log_id-decode w.fits w.lines h.decodes in (n, rw next)

pub reopened-Holds : (n : ℕ) (w : Wal) {es : List WalEntry} → Holds w es → Holds (reopened n w) es
reopened-Holds n w h = record { decodes = h.decodes; working = refl }

recover-Holds :
    (w : Wal) {es : List WalEntry}
    → Holds w es
    → recover w new_ledger
      ≡ (ok (recover_entries es new_ledger).0, (recover_entries es new_ledger).1)
unfolding recover
recover-Holds w h = rw (read_all-Holds w h, recover) refl

pub replay_log-Holds :
    (shard_id : String) (w : Wal) {es : List WalEntry}
    → Holds w es
    → replay_log shard_id w
      ≡ ok (started shard_id w (recover_entries es new_ledger).1 (recover_entries es new_ledger).0)
unfolding replay_log
replay_log-Holds shard_id w {es} h =
    rw (ap (λ x. x.0) (recover-Holds w h), replay_log)
      (ap (λ x. ok (started shard_id w x.1 (recover_entries es new_ledger).0)) (recover-Holds w h))

abbrev pub restarted : ShardServer → List WalEntry → ℕ → ShardServer
restarted s es n =
    let (result, l) = recover_entries es new_ledger in
    started s.shard_id (reopened n s.wal_log) l result

-- A log that can be read is enough to start.
pub restart-restarted :
    (s : ShardServer) {es : List WalEntry}
    → Holds s.wal_log es
    → (n : ℕ) × (restart s ≡ ok (restarted s es n))
unfolding restart new_shard_server
restart-restarted s h =
    let (n, opened) = open_wal-Holds s.wal_log h in
    (
      n,
      rw (opened, new_shard_server)
          (replay_log-Holds s.shard_id (reopened n s.wal_log) (reopened-Holds n s.wal_log h)),
    )
