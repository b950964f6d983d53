-- ===== src/Server/Growth.antt =====
-- The log of a shard without followers whose disk works, as one transaction adds its entries.
use mathlib.Core.Path.{subst}
use software_course_project.Prelude.{
  ℕ, Bool, true, ◌∙◌, ◌≡◌, refl, sym, ap, false, if◌then◌else◌, some, Option, none, List, [], ◌∷◌,
  ◌++◌, String, string_eq, ok, arith, ◌==◌, All-append,
}
use software_course_project.Prelude.Int.{pos}
use software_course_project.Dict.{Dict, lookup, insert}
use software_course_project.Dict.Laws.{lookup-insert}
use software_course_project.Model.{
  Transaction, op_debit, op_credit, WalEntry, TransactionState, op_aborted, pending,
}
use software_course_project.Wal.{Wal, plain_entry, mark_committed, mark_aborted}
use software_course_project.Wal.Append.{Holds}
use software_course_project.Wal.Working.{
  IsWorking, logged, committed_entry, logged-IsWorking, logged-Holds, mark_committed_working,
  mark_aborted_working,
}
use software_course_project.Replication.{PrimaryReplicator}
use software_course_project.Recovery.Extension.{Belongs}
use software_course_project.Server.State.{ShardServer, set_txn_state, replicate_if_set}

-- The disk works and there are no followers.
pub record IsAlone (w : Wal) (p : Option PrimaryReplicator) : Type 0 where
  pub working : IsWorking w
  pub no_replicator : p ≡ none

pub replicate_alone :
    (e : WalEntry) (s : ShardServer) → s.replicator ≡ none → replicate_if_set e s ≡ (ok tt, s)
unfolding replicate_if_set
replicate_alone e s alone = rw alone

-- A scanner reads the entries of this transaction, whatever their log IDs.
pub record IsShort (fits : WalEntry → Bool) (txn : Transaction) : Type 0 where
  pub debit_fits : (n : ℕ) → fits (plain_entry n txn.txn_id op_debit txn.source txn.amount) ≡ true
  pub credit_fits :
      (n : ℕ) → fits (plain_entry n txn.txn_id op_credit txn.destination txn.amount) ≡ true
  pub commit_fits : (n : ℕ) → fits (committed_entry n txn.txn_id) ≡ true
  pub abort_fits : (n : ℕ) → fits (plain_entry n txn.txn_id op_aborted "" (pos 0)) ≡ true

-- Since the server `b`, transaction `t` has put `new` in the log, and is remembered in this state.
pub record Grown (t : String) (b : ShardServer) (new : List WalEntry) (st : TransactionState)
    (w : Wal) (p : Option PrimaryReplicator) (seen : Dict String TransactionState) : Type 0 where
  pub alone : IsAlone w p
  pub own : Belongs t new
  pub same_fits : w.fits ≡ b.wal_log.fits
  pub written : (es : List WalEntry) → Holds b.wal_log es → Holds w (es ++ new)
  pub tracked : (u : String) → lookup u seen ≡ (if u == t then some st else lookup u b.seen_txns)

abbrev pub GrownTo : String → ShardServer → List WalEntry → TransactionState → ShardServer → Type 0
GrownTo t b new st s = Grown t b new st s.wal_log s.replicator s.seen_txns

pub append_assoc {ℓ} : {A : Type ℓ} (xs ys zs : List A) → (xs ++ ys) ++ zs ≡ xs ++ (ys ++ zs)
append_assoc [] ys zs = refl
append_assoc (x ∷ xs) ys zs = ap (λ r. x ∷ r) (append_assoc xs ys zs)

append_nil {ℓ} : {A : Type ℓ} (xs : List A) → xs ++ [] ≡ xs
append_nil [] = refl
append_nil (x ∷ xs) = ap (λ r. x ∷ r) (append_nil xs)

module _ (t : String) (b : ShardServer) (new : List WalEntry) (st : TransactionState) (w : Wal)
    (p : Option PrimaryReplicator) (seen : Dict String TransactionState)
    (g : Grown t b new st w p seen) where
  pub Grown-remembers :
      (u : String) → lookup u seen ≡ none → ((u == t) ≡ false) × (lookup u b.seen_txns ≡ none)
  Grown-remembers u absent = ground (arith, g.tracked u)

  pub Grown-logged :
      (e : WalEntry)
      → e.txn_id ≡ t
      → b.wal_log.fits e ≡ true
      → Grown t b (new ++ e ∷ []) st (logged e w) p seen
  Grown-logged e mine short = record {
    alone = record {
      working = logged-IsWorking e w g.alone.working;
      no_replicator = g.alone.no_replicator;
    };
    own = All-append (λ x. x.txn_id ≡ t) new (e ∷ []) g.own (mine, tt);
    same_fits = g.same_fits;
    written = λ es h.
        subst (Holds (logged e w)) (append_assoc es new (e ∷ []))
          (logged-Holds e w (ap (λ f. f e) g.same_fits ∙ short) (g.written es h));
    tracked = g.tracked;
  }

  pub Grown-insert : (state : TransactionState) → Grown t b new state w p (insert t state seen)
  Grown-insert state = record {
    alone = g.alone;
    own = g.own;
    same_fits = g.same_fits;
    written = g.written;
    tracked = λ u. ground (arith, lookup-insert u t state seen, g.tracked u);
  }

  pub Grown-mark_committed :
      b.wal_log.fits (committed_entry w.next_log_id t) ≡ true
      → Grown t b (new ++ committed_entry w.next_log_id t ∷ []) st (mark_committed t w).1 p seen
  Grown-mark_committed short =
      subst (λ x. Grown t b (new ++ committed_entry w.next_log_id t ∷ []) st x p seen)
        (sym (ap (λ x. x.1) (mark_committed_working w g.alone.working t)))
        (Grown-logged (committed_entry w.next_log_id t) refl short)

  pub Grown-mark_aborted :
      b.wal_log.fits (plain_entry w.next_log_id t op_aborted "" (pos 0)) ≡ true
      → Grown t b
          (new ++ plain_entry w.next_log_id t op_aborted "" (pos 0) ∷ [])
          st
          (mark_aborted t w).1
          p
          seen
  Grown-mark_aborted short =
      subst
        (λ x. Grown t b (new ++ plain_entry w.next_log_id t op_aborted "" (pos 0) ∷ []) st x p seen)
        (sym (ap (λ x. x.1) (mark_aborted_working w g.alone.working t)))
        (Grown-logged (plain_entry w.next_log_id t op_aborted "" (pos 0)) refl short)

pub grown_start :
    (t : String) (s : ShardServer)
    → IsAlone s.wal_log s.replicator
    → GrownTo t s [] pending (set_txn_state t pending s)
unfolding set_txn_state
grown_start t s alone = record {
  alone = alone;
  own = tt;
  same_fits = refl;
  written = λ es h. subst (Holds s.wal_log) (sym (append_nil es)) h;
  tracked = λ u. lookup-insert u t pending s.seen_txns;
}
