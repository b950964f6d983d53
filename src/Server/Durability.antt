-- ===== src/Server/Durability.antt =====
-- What the log says is what the ledger holds: after transactions that met no failure of the disk,
-- recovery from the log rebuilds every balance.
use software_course_project.Prelude.{
  ℕ, ◌≡◌, ◌∙◌, ap, true, false, ◌||◌, none, some, List, [], ◌∷◌, ◌++◌, String, string_eq, arith,
  ◌==◌, ==_iff, All-append, if◌then◌else◌,
}
use software_course_project.Prelude.Int.{ℤ, pos, ◌+ℤ◌, ◌-ℤ◌, int_laws}
use software_course_project.Int64.{add64, sub64, wrap64, wrap64-eq, bits-wrap64, bits-+ℤ}
use software_course_project.Dict.{Dict, lookup, insert}
use software_course_project.Dict.Laws.{lookup-insert}
use software_course_project.Ledger.{new_ledger, subtract, add, balance_or_zero}
use software_course_project.Model.{Transaction, WalEntry, op_debit, op_credit}
use software_course_project.Wal.{plain_entry}
use software_course_project.Wal.Append.{Holds}
use software_course_project.Wal.Working.{committed_entry}
use software_course_project.Recovery.{recover_entries}
use software_course_project.Recovery.Status.{any_entry, commits}
use software_course_project.Recovery.Balances.{created, touched, net}
use software_course_project.Recovery.Extension.{IsFresh, Belongs}
use software_course_project.Recovery.Commit.{recover_entries-uncommitted}
use software_course_project.Server.State.{ShardServer}

-- The balances that a restart with this log would give.
abbrev pub recovered : List WalEntry → Dict String ℤ
recovered es = (recover_entries es new_ledger).1.balances

-- The log can be read, holds only transactions that the shard remembers, and replays to the
-- balances of the ledger.
pub record IsRecoverable (s : ShardServer) (entries : List WalEntry) : Type 0 where
  pub holds : Holds s.wal_log entries
  pub remembered : (t : String) → lookup t s.seen_txns ≡ none → IsFresh t entries
  pub agrees : (k : String) → lookup k (recovered entries) ≡ lookup k s.ledger.balances

pub IsFresh-Belongs :
    (t u : String) (new : List WalEntry) → Belongs t new → (u == t) ≡ false → IsFresh u new
IsFresh-Belongs t u [] h other = tt
IsFresh-Belongs t u (e ∷ new) h other = (rw h.0 other, IsFresh-Belongs t u new h.1 other)

-- A step that puts the entries of one new transaction at the end of the log.
pub record Extends (t : String) (new : List WalEntry) (s s' : ShardServer) (old : List WalEntry)
    : Type 0 where
  pub unseen : lookup t s.seen_txns ≡ none
  pub own : Belongs t new
  pub written : Holds s'.wal_log (old ++ new)
  pub seen :
      (u : String)
      → lookup u s'.seen_txns ≡ none
      → ((u == t) ≡ false) × (lookup u s.seen_txns ≡ none)

module _ (t : String) (new : List WalEntry) (s s' : ShardServer) (es : List WalEntry)
    (r : IsRecoverable s es) (x : Extends t new s s' es) where
  pub still_remembered : (u : String) → lookup u s'.seen_txns ≡ none → IsFresh u (es ++ new)
  still_remembered u none_seen =
      let (other, unseen) = x.seen u none_seen in
      All-append (λ e. (u == e.txn_id) ≡ false) es new (r.remembered u unseen)
        (IsFresh-Belongs t u new x.own other)

  pub uncommitted-IsRecoverable :
      any_entry commits t new ≡ false → s'.ledger ≡ s.ledger → IsRecoverable s' (es ++ new)
  uncommitted-IsRecoverable unfinished same = record {
    holds = x.written;
    remembered = still_remembered;
    agrees = λ k. rw same (
        recover_entries-uncommitted t es new (r.remembered t x.unseen) x.own k new_ledger unfinished
        ∙ r.agrees k);
  }

-- The entries of a transfer that went through, under the IDs that they were given.
abbrev pub transfer_entries : ℕ → ℕ → ℕ → Transaction → List WalEntry
transfer_entries i j n txn =
    plain_entry i txn.txn_id op_debit txn.source txn.amount
    ∷ plain_entry j txn.txn_id op_credit txn.destination txn.amount
    ∷ committed_entry n txn.txn_id
    ∷ []

only_source : (v a : ℤ) → sub64 v a ≡ wrap64 (v +ℤ ((pos 0 -ℤ a) +ℤ (pos 0 +ℤ (pos 0 +ℤ pos 0))))
unfolding sub64
only_source v a = ap wrap64 (omega int_laws)

only_destination : (v a : ℤ) → add64 v a ≡ wrap64 (v +ℤ (pos 0 +ℤ (a +ℤ (pos 0 +ℤ pos 0))))
unfolding add64
only_destination v a = ap wrap64 (omega int_laws)

source_and_destination :
    (v a : ℤ) → add64 (sub64 v a) a ≡ wrap64 (v +ℤ ((pos 0 -ℤ a) +ℤ (a +ℤ (pos 0 +ℤ pos 0))))
unfolding add64 sub64
source_and_destination v a =
    let whole : v +ℤ ((pos 0 -ℤ a) +ℤ (a +ℤ (pos 0 +ℤ pos 0))) ≡ v -ℤ a +ℤ a = omega int_laws in
    rw whole (
      wrap64-eq (wrap64 (v -ℤ a) +ℤ a) (v -ℤ a +ℤ a)
        (rw (bits-+ℤ (wrap64 (v -ℤ a)) a, bits-+ℤ (v -ℤ a) a, bits-wrap64 (v -ℤ a))))

module _ (i j n : ℕ) (txn : Transaction) (k : String) where
  pub transfer_creates_nothing : created (λ _. true) k (transfer_entries i j n txn) ≡ none
  transfer_creates_nothing = ground arith

  pub transfer_touched :
      touched (λ _. true) k (transfer_entries i j n txn) ≡ (k == txn.source || k == txn.destination)
  transfer_touched = ground arith

  transfer_net :
      net (λ _. true) k (transfer_entries i j n txn)
      ≡ (if k == txn.source then pos 0 -ℤ txn.amount else pos 0)
        +ℤ ((if k == txn.destination then txn.amount else pos 0) +ℤ (pos 0 +ℤ pos 0))
  transfer_net = ground arith

  -- The balance after the transfer, live and replayed, of an account that holds `v`.
  pub live_and_replayed :
      (m : Dict String ℤ) (v : ℤ)
      → lookup k m ≡ some v
      → (k == txn.source || k == txn.destination) ≡ true
      → lookup k (add txn.destination txn.amount (subtract txn.source txn.amount m))
        ≡ some (wrap64 (v +ℤ net (λ _. true) k (transfer_entries i j n txn)))
  unfolding add subtract
  live_and_replayed m v known named =
      let a = txn.amount in
      let once = insert txn.source (sub64 (balance_or_zero (lookup txn.source m)) a) m in
      rw
        (
          lookup-insert k txn.destination (add64 (balance_or_zero (lookup txn.destination once)) a)
              once,
          lookup-insert k txn.source (sub64 (balance_or_zero (lookup txn.source m)) a) m,
          lookup-insert txn.destination txn.source (sub64 (balance_or_zero (lookup txn.source m)) a)
              m,
          transfer_net,
        )
        (ground (
          arith,
          ==_iff k txn.source,
          ==_iff k txn.destination,
          ==_iff txn.destination txn.source,
          only_source v a,
          only_destination v a,
          source_and_destination v a,
        ))

  pub live_unnamed :
      (m : Dict String ℤ)
      → (k == txn.source || k == txn.destination) ≡ false
      → lookup k (add txn.destination txn.amount (subtract txn.source txn.amount m)) ≡ lookup k m
  unfolding add subtract
  live_unnamed m unnamed =
      let a = txn.amount in
      let once = insert txn.source (sub64 (balance_or_zero (lookup txn.source m)) a) m in
      rw
        (
          lookup-insert k txn.destination (add64 (balance_or_zero (lookup txn.destination once)) a)
              once,
          lookup-insert k txn.source (sub64 (balance_or_zero (lookup txn.source m)) a) m,
        )
        (ground arith)
