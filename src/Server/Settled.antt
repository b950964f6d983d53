-- ===== src/Server/Settled.antt =====
-- What one transaction, and one stop and start, do to a shard without followers whose disk works, as
-- its clients see it.
use software_course_project.Server.Growth.{IsShort}
use mathlib.Core.Path.{subst}
use software_course_project.Recovery.Commit.{any_entry-IsFresh}
use software_course_project.Prelude.{
  Bool, Bool-cases, ◌≡◌, ◌∙◌, refl, sym, ap, inl, inr, true, false, Option, none, some, List, ◌++◌,
  String, string_eq, ok, arith, ◌==◌, ==_iff, Option-cases,
}
use software_course_project.Prelude.Int.{ℤ}
use software_course_project.Int64.{add64, sub64}
use software_course_project.Dict.{lookup, insert}
use software_course_project.Dict.Laws.{lookup-insert}
use software_course_project.Ledger.{Ledger, new_ledger, subtract, add, balance_or_zero}
use software_course_project.Ledger.Transfers.{Payable, transferred}
use software_course_project.Model.{
  already_processed, success, Message, TransactionState, committed, aborted, Transaction,
  TransactionResult, WalEntry,
}
use software_course_project.Recovery.Status.{commits, aborts}
use software_course_project.Recovery.Extension.{
  any_entry-append, any_entry-Belongs, IsFresh, Belongs,
}
use software_course_project.Recovery.Ended.{prepares, remembered_as}
use software_course_project.Bank.{
  Bank, Bank-eq, covers, held_in, moved, settled, submit_new, submit,
}
use software_course_project.Server.State.{ShardServer, Reply, get_txn_state}
use software_course_project.Server.Single.{result_of, execute_single_shard}
use software_course_project.Server.Progress.{Finished, unpaid, paid, execute_single_shard-Finished}
use software_course_project.Server.Runs.{IsDurable, Settles, Finished-Settles}
use software_course_project.Server.Restart.{
  restart, restarted, restart-restarted, reopened-Holds, lookup-rebuild_seen,
}

-- The bank that a shard stands for.
abbrev pub view : ShardServer → Bank
view s = record { balance = λ k. lookup k s.ledger.balances; outcome = λ t. lookup t s.seen_txns }

-- A durable shard whose memory of the transactions is what its log says of them.
pub record IsSettled (s : ShardServer) : Type 0 where
  pub durable : IsDurable s
  pub known : (t : String) → lookup t s.seen_txns ≡ remembered_as t durable.entries

held_in-balance_or_zero : (v : Option ℤ) → balance_or_zero v ≡ held_in v
held_in-balance_or_zero none = refl
held_in-balance_or_zero (some v) = refl

-- What a ledger transfer does to the table of balances.
transferred-moved :
    (l : Ledger) (txn : Transaction) (k : String)
    → lookup k (transferred l txn.source txn.destination txn.amount).balances
      ≡ moved txn (λ j. lookup j l.balances) k
unfolding transferred add subtract
transferred-moved l txn k =
    let v = sub64 (balance_or_zero (lookup txn.source l.balances)) txn.amount in
    let once = insert txn.source v l.balances in
    rw
      (
        lookup-insert k txn.destination
            (add64 (balance_or_zero (lookup txn.destination once)) txn.amount) once,
        lookup-insert k txn.source v l.balances,
        held_in-balance_or_zero (lookup txn.destination once),
        lookup-insert txn.destination txn.source v l.balances,
        held_in-balance_or_zero (lookup txn.source l.balances),
      )
      refl

module _ (t : String) (es new : List WalEntry) (own : Belongs t new) where
  remembered_as-others :
      (u : String) → (u == t) ≡ false → remembered_as u (es ++ new) ≡ remembered_as u es
  remembered_as-others u other =
      rw
        (
          any_entry-append commits u es new,
          any_entry-append aborts u es new,
          any_entry-append prepares u es new,
        )
        (ground (
          arith,
          ==_iff u t,
          ==_iff t u,
          any_entry-Belongs commits t u new own,
          any_entry-Belongs aborts t u new own,
          any_entry-Belongs prepares t u new own,
        ))

  pub remembered_as-own : IsFresh t es → remembered_as t (es ++ new) ≡ remembered_as t new
  remembered_as-own fresh =
      rw
        (
          any_entry-append commits t es new,
          any_entry-append aborts t es new,
          any_entry-append prepares t es new,
          any_entry-IsFresh commits t es fresh,
          any_entry-IsFresh aborts t es fresh,
          any_entry-IsFresh prepares t es fresh,
        )
        refl

Payable-covers :
    (l : Ledger) (txn : Transaction)
    → Payable l txn.source txn.destination txn.amount
    → covers txn.amount (lookup txn.source l.balances) (lookup txn.destination l.balances) ≡ true
Payable-covers l txn p = rw (p.source_known, p.destination_known) (ground arith)

-- The shard answers with the state that the bank gives, and stands for the bank as it is then.
pub record Answers (txn : Transaction) (fits : WalEntry → Bool) (q : Reply TransactionResult)
    (want : TransactionState × Bank) : Type 0 where
  pub message : Message
  pub answer : q.0 ≡ ok (result_of txn want.0 message)
  pub shows : view q.1 ≡ want.1
  pub settled_after : IsSettled q.1
  pub same_fits : q.1.wal_log.fits ≡ fits

-- A new transaction: the shard answers and changes as the bank does, and is settled afterwards.
module _ (txn : Transaction) (s : ShardServer) (x : IsSettled s)
    (unseen : lookup txn.txn_id s.seen_txns ≡ none) where
  Settles-IsSettled : (s' : ShardServer) → Settles txn s x.durable.entries s' → IsSettled s'
  Settles-IsSettled s' z = record {
    durable = record {
      entries = x.durable.entries ++ z.new;
      recoverable = z.recoverable;
      alone = z.grown.alone;
    };
    known = λ u. elim (Bool-cases (u == txn.txn_id)) [
      | inl mine ↦
          rw (z.grown.tracked u, mine, (==_iff u txn.txn_id).0 mine)
            (sym (
              remembered_as-own txn.txn_id x.durable.entries z.new z.grown.own
                (x.durable.recoverable.remembered txn.txn_id unseen)
              ∙ z.marked))
      | inr other ↦
          rw (z.grown.tracked u, other)
            (x.known u
              ∙ sym (remembered_as-others txn.txn_id x.durable.entries z.new z.grown.own u other))
    ];
  }

  Finished-Answers :
      (q : Reply TransactionResult)
      → Finished txn s q
      → IsSettled q.1
      → q.1.wal_log.fits ≡ s.wal_log.fits
      → Answers txn s.wal_log.fits q (submit_new txn (view s))
  Finished-Answers q (unpaid new m unfinished ended short answer same g) after fits = record {
    message = m;
    answer = rw short answer;
    shows = rw short (
        Bank-eq (view q.1) (settled aborted txn (view s)) (λ k. ap (λ l. lookup k l.balances) same)
          g.tracked);
    settled_after = after;
    same_fits = fits;
  }
  Finished-Answers q (paid i j n p answer done g) after fits =
      let covered = Payable-covers s.ledger txn p in
      let end : Bank =
        settled committed txn (record (view s) { balance = moved txn (view s).balance }) in
      record {
        message = success;
        answer = rw covered answer;
        shows = rw covered (
            Bank-eq (view q.1) end
              (λ k. ap (λ l. lookup k l.balances) done ∙ transferred-moved s.ledger txn k)
              g.tracked);
        settled_after = after;
        same_fits = fits;
      }

  new_transaction :
      (q : Reply TransactionResult)
      → Finished txn s q
      → Answers txn s.wal_log.fits q (submit_new txn (view s))
  new_transaction q f =
      let z = Finished-Settles txn s x.durable q unseen f in
      Finished-Answers q f (Settles-IsSettled q.1 z) z.grown.same_fits

pub execute_single_shard-submit :
    (txn : Transaction) (s : ShardServer)
    → IsSettled s
    → IsShort s.wal_log.fits txn
    → Answers txn s.wal_log.fits (execute_single_shard txn s) (submit txn (view s))
unfolding execute_single_shard get_txn_state submit
execute_single_shard-submit txn s x short = elim (Option-cases (lookup txn.txn_id s.seen_txns)) [
  | inl unseen ↦
      subst (Answers txn s.wal_log.fits (execute_single_shard txn s)) (rw (unseen, submit) refl) (
        new_transaction txn s x unseen (execute_single_shard txn s)
          (execute_single_shard-Finished txn s x.durable.alone unseen short))
  | inr (state, seen) ↦
      rw (seen, execute_single_shard, submit)
        (record {
          message = already_processed;
          answer = refl;
          shows = refl;
          settled_after = x;
          same_fits = refl;
        })
]

-- A shard that came back after a stop.
pub record ComesBack (s s' : ShardServer) : Type 0 where
  pub starts : restart s ≡ ok s'
  pub same : view s' ≡ view s
  pub settled_again : IsSettled s'
  pub fits_again : s'.wal_log.fits ≡ s.wal_log.fits

pub restart_settled : (s : ShardServer) → IsSettled s → (s' : ShardServer) × ComesBack s s'
restart_settled s x =
    let es = x.durable.entries in
    let r = x.durable.recoverable in
    let (n, starts) = restart-restarted s r.holds in
    let remembers : (t : String) → lookup t (restarted s es n).seen_txns ≡ remembered_as t es =
      λ t. lookup-rebuild_seen t es new_ledger in
    (
      restarted s es n,
      record {
        starts = starts;
        same =
            Bank-eq (view (restarted s es n)) (view s) r.agrees
              (λ t. remembers t ∙ sym (x.known t));
        settled_again = record {
          durable = record {
            entries = es;
            recoverable = record {
              holds = reopened-Holds n s.wal_log r.holds;
              remembered = λ t unseen. r.remembered t (x.known t ∙ (sym (remembers t) ∙ unseen));
              agrees = λ k. refl;
            };
            alone = record {
              working = record { no_failures = refl; not_failed = refl };
              no_replicator = refl;
            };
          };
          known = remembers;
        };
        fits_again = refl;
      },
    )
