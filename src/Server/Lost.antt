-- ===== src/Server/Lost.antt =====
-- A reservation over a stop of the shard: the log has the PREPARED record, and not what it reserved.
use mathlib.Core.Path.{subst}
use software_course_project.Prelude.{
  true, ◌≡◌, ◌∙◌, refl, sym, ap, none, some, [], ◌∷◌, ◌++◌, String, string_eq, ok, arith, ==_iff,
}
use software_course_project.Prelude.Int.{ℤ}
use software_course_project.Dict.{lookup}
use software_course_project.Ledger.{new_ledger}
use software_course_project.Ledger.Reserve.{CanDebit}
use software_course_project.Model.{prepared, op_debit, op_prepared, WalEntry}
use software_course_project.Wal.{plain_entry}
use software_course_project.Wal.Append.{Holds}
use software_course_project.Wal.Working.{logged-Holds}
use software_course_project.Recovery.Commit.{recover_entries-uncommitted}
use software_course_project.Server.State.{ShardServer}
use software_course_project.Server.TwoPhase.{prepare_transaction, commit_transaction}
use software_course_project.Server.Reservation.{
  IsReserved, debited, prepare_debit_done, reserve_debit_done, wal_log-prepare_transaction,
}
use software_course_project.Server.Reservation.Ending.{commit_debit}
use software_course_project.Server.Restart.{
  restart, restarted, restart-restarted, lookup-rebuild_seen,
}
use software_course_project.Server.Runs.{IsDurable}
use software_course_project.Server.Settled.{remembered_as-own}

-- The PREPARE of a debit was answered with yes, the shard was stopped and started, and the COMMIT was
-- answered with yes; no balance is other than before the PREPARE.
pub record IsLost (t : String) (id : String) (a : ℤ) (s : ShardServer) : Type 0 where
  pub prepares : (prepare_transaction t op_debit id a s).0 ≡ ok tt
  pub back : ShardServer
  pub starts : restart (prepare_transaction t op_debit id a s).1 ≡ ok back
  pub commits : (commit_transaction t op_debit id a back).0 ≡ ok tt
  pub kept :
      (k : String)
      → lookup k (commit_transaction t op_debit id a back).1.ledger.balances
        ≡ lookup k s.ledger.balances

module _ (t : String) (id : String) (a : ℤ) (s : ShardServer) (d : IsDurable s)
    (unseen : lookup t s.seen_txns ≡ none) (p : CanDebit s.ledger id a)
    (short : s.wal_log.fits (plain_entry s.wal_log.next_log_id t op_prepared id a) ≡ true) where
  abbrev e : WalEntry
  e = plain_entry s.wal_log.next_log_id t op_prepared id a

  -- On a shard that can be rebuilt from its log, whose disk works and which has no followers, a
  -- debit of a new transaction that is covered, whose PREPARED entry is at most 65535 bytes long as
  -- JSON, is lost if the shard is stopped and started between its PREPARE and its COMMIT: all three
  -- succeed, and the running shard holds every balance as before the PREPARE.
  pub prepared_debit-IsLost : IsLost t id a s
  prepared_debit-IsLost =
      let r = d.recoverable in
      let fresh = r.remembered t unseen in
      let (prepares, held) = prepare_debit_done t id a s unseen d.alone.working p in
      let written =
        wal_log-prepare_transaction t id a op_debit s (debited t id a s.ledger) unseen
          d.alone.working (reserve_debit_done t id a s p) in
      let holds =
        subst (λ w. Holds w (d.entries ++ e ∷ [])) (sym written)
          (logged-Holds e s.wal_log short r.holds) in
      let after = (prepare_transaction t op_debit id a s).1 in
      let (n, starts) = restart-restarted after holds in
      let back = restarted after (d.entries ++ e ∷ []) n in
      let agreed : lookup t back.seen_txns ≡ some prepared =
        lookup-rebuild_seen t (d.entries ++ e ∷ []) new_ledger
        ∙ remembered_as-own t d.entries (e ∷ []) (refl, tt) fresh
        ∙ ground (arith, ==_iff t t) in
      let reserved : IsReserved t id a back.ledger back = record {
        reserved_ledger = refl;
        agreed_state = agreed;
        working = record { no_failures = refl; not_failed = refl };
      } in
      let (commits, same) = commit_debit t id a back.ledger back reserved in
      record {
        prepares = prepares;
        back = back;
        starts = starts;
        commits = commits;
        kept = λ k.
            ap (λ l. lookup k l.balances) same
            ∙ recover_entries-uncommitted t d.entries (e ∷ []) fresh (refl, tt) k new_ledger
                (ground arith)
            ∙ r.agrees k;
      }
