-- ===== src/Server/Refinement.antt =====
-- What clients see of a shard without followers whose disk works: a bank that answers each
-- transaction once, and that does not notice when the process is stopped and started again.
use software_course_project.Wal.Restart.{AllFit}
use software_course_project.Server.Growth.{IsShort}
use software_course_project.Server.Opening.{opening_entries, opening_bank, new_shard_server-Starts}
use software_course_project.Server.Accounts.{new_shard_server}
use software_course_project.Dict.{Dict, IsMap}
use software_course_project.Prelude.Int.{ℤ}
use software_course_project.Server.Settled.{
  view, IsSettled, execute_single_shard-submit, restart_settled,
}
use mathlib.Core.Path.{subst}
use software_course_project.Prelude.{
  Bool, sym, String, ◌>>=◌, ◌≡◌, refl, List, [], ◌∷◌, string_eq, Result, ok,
}
use software_course_project.Model.{WalEntry, TransactionState}
use software_course_project.Bank.{Bank, submit, Event, arrives, restarts, bank_run}
use software_course_project.Server.State.{ShardServer, ServerError}
use software_course_project.Server.Single.{execute_single_shard}
use software_course_project.Server.Restart.{restart}

-- What clients are told, one state for each transaction that arrives, and the shard at the end. A
-- transaction that ends with an error of the log or of the replication, or a start that fails,
-- ends the run.
unfoldable pub serve :
    List Event → ShardServer → Result ServerError (List TransactionState × ShardServer)
serve [] s = ok ([], s)
serve (arrives txn ∷ rest) s =
    let (r, s') = execute_single_shard txn s in
    r >>= λ result. serve rest s' >>= λ served. ok (result.state ∷ served.0, served.1)
serve (restarts ∷ rest) s = restart s >>= λ s'. serve rest s'

pub record Serves (evs : List Event) (s : ShardServer) (want : List TransactionState × Bank)
    : Type 0 where
  pub end : ShardServer
  pub told : serve evs s ≡ ok (want.0, end)
  pub stands_for : view end ≡ want.1
  pub settled_end : IsSettled end

-- A scanner reads the entries of the transactions that arrive.
abbrev pub AllShort : (WalEntry → Bool) → List Event → Type 0
AllShort fits [] = Unit
AllShort fits (arrives txn ∷ rest) = IsShort fits txn × AllShort fits rest
AllShort fits (restarts ∷ rest) = AllShort fits rest

pub serve_refines :
    (evs : List Event) (s : ShardServer)
    → IsSettled s
    → AllShort s.wal_log.fits evs
    → Serves evs s (bank_run evs (view s))
unfolding serve bank_run
serve_refines [] s x short = record { end = s; told = refl; stands_for = refl; settled_end = x }
serve_refines (restarts ∷ rest) s x short =
    let (s', back) = restart_settled s x in
    let later =
      serve_refines rest s' back.settled_again
        (subst (λ fits. AllShort fits rest) (sym back.fits_again) short) in
    subst (λ b. Serves (restarts ∷ rest) s (bank_run rest b)) back.same
      (record {
        end = later.end;
        told = rw back.starts later.told;
        stands_for = later.stands_for;
        settled_end = later.settled_end;
      })
serve_refines (arrives txn ∷ rest) s x (own, short) =
    let a = execute_single_shard-submit txn s x own in
    let later =
      serve_refines rest (execute_single_shard txn s).1 a.settled_after
        (subst (λ fits. AllShort fits rest) (sym a.same_fits) short) in
    let state = (submit txn (view s)).0 in
    subst (λ b. Serves (arrives txn ∷ rest) s (state ∷ (bank_run rest b).0, (bank_run rest b).1))
      a.shows
      (record {
        end = later.end;
        told = rw a.answer (rw later.told refl);
        stands_for = later.stands_for;
        settled_end = later.settled_end;
      })

-- What a shard is told, from its first start on an empty file.
pub record ServesFromStart (fits : WalEntry → Bool) (shard_id : String) (initial : Dict String ℤ)
    (evs : List Event) : Type 0 where
  pub first : ShardServer
  pub started_as : new_shard_server fits shard_id [] [] initial ≡ ok first
  pub served : Serves evs first (bank_run evs (opening_bank initial))

-- If the log entries of the initial balances and of the transactions are at most 65535 bytes long as
-- JSON, whatever the log IDs of the latter: a shard that is started on an empty file, with initial
-- balances for distinct accounts, a disk that works and no followers, is the bank that opens with
-- these balances: over any sequence of transactions, stops and starts, every start succeeds, each
-- transaction is told the state that the bank gives it, and at the end the shard holds the bank's
-- balances and outcomes. A transaction that
-- is new is thus done whole or refused without a trace on the balances, one that is sent again gets
-- its first answer and moves no money, and a stop between two transactions changes nothing.
pub serve_from_start :
    (fits : WalEntry → Bool) (shard_id : String) (initial : Dict String ℤ) (evs : List Event)
    → IsMap initial
    → AllFit fits (opening_entries initial)
    → AllShort fits evs
    → ServesFromStart fits shard_id initial evs
serve_from_start fits shard_id initial evs h opening short =
    let s = new_shard_server-Starts fits shard_id initial h opening in
    record {
      first = s.first;
      started_as = s.started_as;
      served =
          subst (λ b. Serves evs s.first (bank_run evs b)) s.holds_initial
            (serve_refines evs s.first s.settled_first
              (subst (λ f. AllShort f evs) (sym s.first_fits) short));
    }
