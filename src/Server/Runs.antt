-- ===== src/Server/Runs.antt =====
-- Any sequence of transactions on a shard without followers whose disk works: the log keeps up with
-- the ledger.
use mathlib.Core.Path.{subst}
use software_course_project.Recovery.Ended.{remembered_as}
use software_course_project.Recovery.Status.{any_entry, commits, aborts}
use software_course_project.Prelude.{
  sym, refl, All, ℕ, some, true, false, ◌++◌, arith, ==_iff, String, ◌≡◌, inl, inr, none, List, [],
  ◌∷◌, string_eq, Option-cases,
}
use software_course_project.Dict.{lookup}
use software_course_project.Model.{
  committed, aborted, TransactionResult, TransactionState, Transaction, WalEntry,
}
use software_course_project.Server.State.{Reply, ShardServer, get_txn_state}
use software_course_project.Server.Single.{execute_single_shard}
use software_course_project.Server.Durability.{
  IsRecoverable, Extends, uncommitted-IsRecoverable, transfer_entries,
}
use software_course_project.Server.Paid.{transfer-IsRecoverable}
use software_course_project.Server.Growth.{IsShort, Grown-remembers, IsAlone, GrownTo}
use software_course_project.Server.Progress.{Finished, unpaid, paid, execute_single_shard-Finished}

-- The server can be rebuilt from its log, its disk works and it has no followers.
pub record IsDurable (s : ShardServer) : Type 0 where
  pub entries : List WalEntry
  pub recoverable : IsRecoverable s entries
  pub alone : IsAlone s.wal_log s.replicator

-- A new transaction has put `new` in the log and is remembered in the state that these entries
-- give it.
pub record Settles (txn : Transaction) (s : ShardServer) (es : List WalEntry) (s' : ShardServer)
    : Type 0 where
  pub new : List WalEntry
  pub st : TransactionState
  pub marked : remembered_as txn.txn_id new ≡ some st
  pub grown : GrownTo txn.txn_id s new st s'
  pub recoverable : IsRecoverable s' (es ++ new)

marked_committed :
    (i j n : ℕ) (txn : Transaction)
    → remembered_as txn.txn_id (transfer_entries i j n txn) ≡ some committed
marked_committed i j n txn = ground (arith, ==_iff txn.txn_id txn.txn_id)

marked_aborted :
    (t : String) (new : List WalEntry)
    → any_entry commits t new ≡ false
    → any_entry aborts t new ≡ true
    → remembered_as t new ≡ some aborted
marked_aborted t new unfinished ended = rw (unfinished, ended)

module _ (txn : Transaction) (s : ShardServer) (d : IsDurable s) where
  extends :
      (new : List WalEntry) (s' : ShardServer)
      → lookup txn.txn_id s.seen_txns ≡ none
      → {st : TransactionState} → GrownTo txn.txn_id s new st s'
      → Extends txn.txn_id new s s' d.entries
  extends new s' unseen g = record {
    unseen = unseen;
    own = g.own;
    written = g.written d.entries d.recoverable.holds;
    seen = Grown-remembers txn.txn_id s new _ _ _ _ g;
  }

  pub Finished-Settles :
      (q : Reply TransactionResult)
      → lookup txn.txn_id s.seen_txns ≡ none
      → Finished txn s q
      → Settles txn s d.entries q.1
  Finished-Settles q unseen (unpaid new m unfinished ended short answer same g) = record {
    new = new;
    st = aborted;
    marked = marked_aborted txn.txn_id new unfinished ended;
    grown = g;
    recoverable =
        uncommitted-IsRecoverable txn.txn_id new s q.1 d.entries d.recoverable
          (extends new q.1 unseen g) unfinished same;
  }
  Finished-Settles q unseen (paid i j n p answer moved g) = record {
    new = transfer_entries i j n txn;
    st = committed;
    marked = marked_committed i j n txn;
    grown = g;
    recoverable =
        transfer-IsRecoverable i j n txn s q.1 d.entries d.recoverable
          (extends (transfer_entries i j n txn) q.1 unseen g) p moved;
  }

  Finished-IsDurable :
      (q : Reply TransactionResult)
      → lookup txn.txn_id s.seen_txns ≡ none
      → Finished txn s q
      → IsDurable q.1 × (q.1.wal_log.fits ≡ s.wal_log.fits)
  Finished-IsDurable q unseen f =
      let x = Finished-Settles q unseen f in
      (
        record { entries = d.entries ++ x.new; recoverable = x.recoverable; alone = x.grown.alone },
        x.grown.same_fits,
      )

  execute_single_shard-IsDurable :
      IsShort s.wal_log.fits txn
      → IsDurable (execute_single_shard txn s).1
        × ((execute_single_shard txn s).1.wal_log.fits ≡ s.wal_log.fits)
  unfolding execute_single_shard get_txn_state
  execute_single_shard-IsDurable short = elim (Option-cases (lookup txn.txn_id s.seen_txns)) [
    | inl unseen ↦
        Finished-IsDurable (execute_single_shard txn s) unseen
          (execute_single_shard-Finished txn s d.alone unseen short)
    | inr (state, seen) ↦ rw (seen, execute_single_shard) (d, refl)
  ]

-- The transactions in the order in which they reach the shard.
unfoldable pub run : List Transaction → ShardServer → ShardServer
run [] s = s
run (txn ∷ rest) s = run rest (execute_single_shard txn s).1

-- A shard that is durable stays durable over any sequence of transactions, whatever their IDs,
-- accounts and amounts, whose entries a scanner reads: the log can be read back, and recovery from it gives every account the
-- balance that the running shard holds.
pub run-IsDurable :
    (txns : List Transaction) (s : ShardServer)
    → IsDurable s
    → All (IsShort s.wal_log.fits) txns
    → IsDurable (run txns s)
unfolding run
run-IsDurable [] s d short = d
run-IsDurable (txn ∷ rest) s d (own, later) =
    let (durable, same) = execute_single_shard-IsDurable txn s d own in
    run-IsDurable rest (execute_single_shard txn s).1 durable
      (subst (λ fits. All (IsShort fits) rest) (sym same) later)
