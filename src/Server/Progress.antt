-- ===== src/Server/Progress.antt =====
-- The steps of `ExecuteSingleShard` on a shard without followers whose disk works: which entries they
-- put in the log.
use software_course_project.Bank.{covers}
use mathlib.Core.Path.{subst}
use software_course_project.Prelude.{
  true, String, ok, err, ==_iff, ℕ, ◌≡◌, ◌∙◌, refl, ap, inl, inr, false, none, List, [], ◌∷◌, ◌++◌,
  string_eq, arith, Result-cases,
}
use software_course_project.Prelude.Int.{ℤ, pos}
use software_course_project.Dict.{lookup}
use software_course_project.Ledger.{Ledger, LedgerError, apply_transfer, validate_debit}
use software_course_project.Ledger.Transfers.{Payable, transferred, apply_transfer-cases}
use software_course_project.Model.{
  Message, TransactionResult, success, rejected, apply_failed, Transaction, WalEntry, op_debit,
  op_credit, op_aborted, pending, committed, aborted,
}
use software_course_project.Wal.{plain_entry, append}
use software_course_project.Wal.Working.{logged, append_working, mark_committed_working}
use software_course_project.Recovery.Status.{aborts, any_entry, commits}
use software_course_project.Server.State.{
  Reply, ShardServer, set_txn_state, get_txn_state, mark_aborted_quietly, count_aborted,
  count_committed, add_recent_txn, replicated_entry,
}
use software_course_project.Server.Single.{
  result_of, commit_leg, apply_leg, credit_leg, debit_leg, validate_leg, execute_single_shard,
}
use software_course_project.Server.Durability.{transfer_entries}
use software_course_project.Server.Growth.{
  IsShort, IsAlone, replicate_alone, GrownTo, Grown-logged, Grown-insert, Grown-mark_committed,
  Grown-mark_aborted, grown_start,
}

-- What a leg answers and leaves behind: for a transaction that is not covered, its entries with no
-- commit among them and the ledger of before; for one that is, the entries of a whole transfer and
-- the ledger after it.
pub data Finished (txn : Transaction) (b : ShardServer) (q : Reply TransactionResult) : Type 0 where
  unpaid :
      (new : List WalEntry) (m : Message)
      → any_entry commits txn.txn_id new ≡ false
      → any_entry aborts txn.txn_id new ≡ true
      → covers txn.amount
          (lookup txn.source b.ledger.balances)
          (lookup txn.destination b.ledger.balances)
        ≡ false
      → q.0 ≡ ok (result_of txn aborted m)
      → q.1.ledger ≡ b.ledger
      → GrownTo txn.txn_id b new aborted q.1
      → Finished txn b q
  paid :
      (i j n : ℕ)
      → Payable b.ledger txn.source txn.destination txn.amount
      → q.0 ≡ ok (result_of txn committed success)
      → q.1.ledger ≡ transferred b.ledger txn.source txn.destination txn.amount
      → GrownTo txn.txn_id b (transfer_entries i j n txn) committed q.1
      → Finished txn b q

refused_transfer :
    (l : Ledger) (s d : String) (a : ℤ) {e : LedgerError}
    → apply_transfer l s d a ≡ (err e, l)
    → covers a (lookup s l.balances) (lookup d l.balances) ≡ false
unfolding apply_transfer
refused_transfer l s d a refused = ground arith

refused_debit :
    (l : Ledger) (s d : String) (a : ℤ) {e : LedgerError}
    → validate_debit l s a ≡ err e
    → covers a (lookup s l.balances) (lookup d l.balances) ≡ false
unfolding validate_debit
refused_debit l s d a refused = ground arith

module _ (txn : Transaction) (b : ShardServer) (short : IsShort b.wal_log.fits txn) where
  abbrev with_entry : WalEntry → ShardServer → ShardServer
  with_entry e s = record s { wal_log = logged e s.wal_log }

  abbrev legs : ℕ → ℕ → List WalEntry
  legs i j =
      plain_entry i txn.txn_id op_debit txn.source txn.amount
      ∷ plain_entry j txn.txn_id op_credit txn.destination txn.amount
      ∷ []

  commit_leg-Finished :
      (i j : ℕ) (s : ShardServer)
      → Payable b.ledger txn.source txn.destination txn.amount
      → s.ledger ≡ transferred b.ledger txn.source txn.destination txn.amount
      → GrownTo txn.txn_id b (legs i j) pending s
      → Finished txn b (commit_leg txn s)
  unfolding commit_leg set_txn_state count_committed add_recent_txn
  commit_leg-Finished i j s p moved g =
      let n = s.wal_log.next_log_id in
      rw (ap (λ x. x.0) (mark_committed_working s.wal_log g.alone.working txn.txn_id), commit_leg)
        (paid i j n p refl moved (
          Grown-insert txn.txn_id b _ _ _ _ _
            (Grown-mark_committed txn.txn_id b _ _ _ _ _ g (short.commit_fits _)) committed))

  apply_leg-Finished :
      (i j : ℕ) (s : ShardServer)
      → s.ledger ≡ b.ledger
      → GrownTo txn.txn_id b (legs i j) pending s
      → Finished txn b (apply_leg txn s)
  unfolding apply_leg mark_aborted_quietly set_txn_state count_aborted
  apply_leg-Finished i j s same g =
      elim (apply_transfer-cases s.ledger txn.source txn.destination txn.amount) [
        | inl (x, refused) ↦
            let e = plain_entry s.wal_log.next_log_id txn.txn_id op_aborted "" (pos 0) in
            rw (refused, apply_leg)
              (unpaid (legs i j ++ e ∷ []) (apply_failed x) (ground arith)
                (ground (arith, ==_iff txn.txn_id txn.txn_id))
                (subst
                  (λ l.
                    covers txn.amount (lookup txn.source l.balances)
                      (lookup txn.destination l.balances)
                    ≡ false)
                  same (refused_transfer s.ledger txn.source txn.destination txn.amount refused))
                refl same
                (Grown-insert txn.txn_id b _ _ _ _ _
                  (Grown-mark_aborted txn.txn_id b _ _ _ _ _ g (short.abort_fits _)) aborted))
        | inr (p, done) ↦
            rw (ap (λ x. x.0) done, apply_leg)
              (commit_leg-Finished i j
                (record s {
                  ledger = (apply_transfer s.ledger txn.source txn.destination txn.amount).1;
                })
                (subst (λ l. Payable l txn.source txn.destination txn.amount) same p)
                (ap (λ x. x.1) done
                  ∙ ap (λ l. transferred l txn.source txn.destination txn.amount) same)
                g)
      ]

  credit_leg_alone :
      (s : ShardServer)
      → IsAlone s.wal_log s.replicator
      → credit_leg txn s
        ≡ apply_leg txn (
            with_entry
              (plain_entry s.wal_log.next_log_id txn.txn_id op_credit txn.destination txn.amount)
              s)
  unfolding credit_leg
  credit_leg_alone s h =
      let done =
        append_working s.wal_log h.working txn.txn_id op_credit txn.destination txn.amount in
      let w = (append txn.txn_id op_credit txn.destination txn.amount s.wal_log).1 in
      let e =
        replicated_entry s.wal_log.next_log_id txn.txn_id op_credit txn.destination txn.amount in
      let acked = replicate_alone e (record s { wal_log = w }) h.no_replicator in
      rw (ap (λ x. x.0) done, credit_leg, ap (λ x. x.0) acked)
        (ap (λ x. apply_leg txn x.1) acked
          ∙ ap (λ x. apply_leg txn (record s { wal_log = x.1 })) done)

  debit_leg_alone :
      (s : ShardServer)
      → IsAlone s.wal_log s.replicator
      → debit_leg txn s
        ≡ credit_leg txn (
            with_entry
              (plain_entry s.wal_log.next_log_id txn.txn_id op_debit txn.source txn.amount)
              s)
  unfolding debit_leg
  debit_leg_alone s h =
      let done = append_working s.wal_log h.working txn.txn_id op_debit txn.source txn.amount in
      let w = (append txn.txn_id op_debit txn.source txn.amount s.wal_log).1 in
      let e = replicated_entry s.wal_log.next_log_id txn.txn_id op_debit txn.source txn.amount in
      let acked = replicate_alone e (record s { wal_log = w }) h.no_replicator in
      rw (ap (λ x. x.0) done, debit_leg, ap (λ x. x.0) acked)
        (ap (λ x. credit_leg txn x.1) acked
          ∙ ap (λ x. credit_leg txn (record s { wal_log = x.1 })) done)

  debit_leg-Finished :
      (s : ShardServer)
      → s.ledger ≡ b.ledger
      → GrownTo txn.txn_id b [] pending s
      → Finished txn b (debit_leg txn s)
  debit_leg-Finished s same g =
      let i = s.wal_log.next_log_id in
      let d = plain_entry i txn.txn_id op_debit txn.source txn.amount in
      let g' = Grown-logged txn.txn_id b _ _ _ _ _ g d refl (short.debit_fits i) in
      let s' = with_entry d s in
      let j = s'.wal_log.next_log_id in
      let c = plain_entry j txn.txn_id op_credit txn.destination txn.amount in
      rw (debit_leg_alone s g.alone, credit_leg_alone s' g'.alone)
        (apply_leg-Finished i j (with_entry c s') same
          (Grown-logged txn.txn_id b _ _ _ _ _ g' c refl (short.credit_fits j)))

  validate_leg-Finished :
      (s : ShardServer)
      → s.ledger ≡ b.ledger
      → GrownTo txn.txn_id b [] pending s
      → Finished txn b (validate_leg txn s)
  unfolding validate_leg mark_aborted_quietly set_txn_state count_aborted
  validate_leg-Finished s same g =
      elim (Result-cases (validate_debit s.ledger txn.source txn.amount)) [
        | inl (_, valid) ↦ rw (valid, validate_leg) (debit_leg-Finished s same g)
        | inr (x, refused) ↦
            let e = plain_entry s.wal_log.next_log_id txn.txn_id op_aborted "" (pos 0) in
            rw (refused, validate_leg)
              (unpaid (e ∷ []) (rejected x) (ground arith)
                (ground (arith, ==_iff txn.txn_id txn.txn_id))
                (subst
                  (λ l.
                    covers txn.amount (lookup txn.source l.balances)
                      (lookup txn.destination l.balances)
                    ≡ false)
                  same (refused_debit s.ledger txn.source txn.destination txn.amount refused))
                refl same
                (Grown-insert txn.txn_id b _ _ _ _ _
                  (Grown-mark_aborted txn.txn_id b _ _ _ _ _ g (short.abort_fits _)) aborted))
      ]

pub execute_single_shard-Finished :
    (txn : Transaction) (s : ShardServer)
    → IsAlone s.wal_log s.replicator
    → lookup txn.txn_id s.seen_txns ≡ none
    → IsShort s.wal_log.fits txn
    → Finished txn s (execute_single_shard txn s)
unfolding execute_single_shard get_txn_state set_txn_state
execute_single_shard-Finished txn s alone new short =
    rw (new, execute_single_shard)
      (validate_leg-Finished txn s short (set_txn_state txn.txn_id pending s) refl
        (grown_start txn.txn_id s alone))
