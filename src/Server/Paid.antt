-- ===== src/Server/Paid.antt =====
-- The end of a transfer that went through: what the log replays to is what the ledger holds.
use software_course_project.Prelude.{
  List, ℕ, ◌≡◌, ◌∙◌, sym, inl, inr, true, ◌||◌, some, ◌++◌, String, string_eq, arith, Bool-cases,
  ◌==◌, ==_iff,
}
use software_course_project.Prelude.Int.{ℤ}
use software_course_project.Dict.{lookup}
use software_course_project.Ledger.{new_ledger, add, subtract}
use software_course_project.Ledger.Transfers.{Payable, transferred}
use software_course_project.Model.{WalEntry, Transaction}
use software_course_project.Recovery.Status.{any_entry, commits}
use software_course_project.Recovery.Replayed.{replayed, recover_entries-replayed}
use software_course_project.Recovery.Commit.{replayed-unnamed, replayed-named}
use software_course_project.Server.State.{ShardServer}
use software_course_project.Server.Durability.{
  IsRecoverable, Extends, still_remembered, transfer_entries, transfer_creates_nothing,
  transfer_touched, live_and_replayed, live_unnamed,
}

transfer_commits :
    (i j n : ℕ) (txn : Transaction)
    → any_entry commits txn.txn_id (transfer_entries i j n txn) ≡ true
transfer_commits i j n txn = ground (arith, ==_iff txn.txn_id txn.txn_id)

module _ (i j n : ℕ) (txn : Transaction) (s s' : ShardServer) (es : List WalEntry)
    (r : IsRecoverable s es) (x : Extends txn.txn_id (transfer_entries i j n txn) s s' es)
    (p : Payable s.ledger txn.source txn.destination txn.amount) where
  named_known :
      (k : String)
      → (k == txn.source || k == txn.destination) ≡ true
      → (v : ℤ) × (lookup k s.ledger.balances ≡ some v)
  named_known k named = elim (Bool-cases (k == txn.source)) [
    | inl same ↦ (p.held, rw ((==_iff k txn.source).0 same) p.source_known)
    | inr other ↦ (p.received, rw ((==_iff k txn.destination).0 (ground arith)) p.destination_known)
  ]

  replayed_as_live :
      (k : String)
      → replayed k (es ++ transfer_entries i j n txn) (lookup k new_ledger.balances)
        ≡ lookup k
            (add txn.destination txn.amount (subtract txn.source txn.amount s.ledger.balances))
  replayed_as_live k =
      let new = transfer_entries i j n txn in
      let fresh = r.remembered txn.txn_id x.unseen in
      let before = lookup k new_ledger.balances in
      let old = sym (recover_entries-replayed k es new_ledger) ∙ r.agrees k in
      elim (Bool-cases (k == txn.source || k == txn.destination)) [
        | inl named ↦
            let (v, known) = named_known k named in
            replayed-named txn.txn_id es new fresh x.own (transfer_commits i j n txn) k before
              (old ∙ known) (transfer_creates_nothing i j n txn k)
              (transfer_touched i j n txn k ∙ named)
            ∙ sym (live_and_replayed i j n txn k s.ledger.balances v known named)
        | inr unnamed ↦
            replayed-unnamed txn.txn_id es new fresh x.own (transfer_commits i j n txn) k before
              (transfer_creates_nothing i j n txn k) (transfer_touched i j n txn k ∙ unnamed)
            ∙ old
            ∙ sym (live_unnamed i j n txn k s.ledger.balances unnamed)
      ]

  pub transfer-IsRecoverable :
      s'.ledger ≡ transferred s.ledger txn.source txn.destination txn.amount
      → IsRecoverable s' (es ++ transfer_entries i j n txn)
  unfolding transferred
  transfer-IsRecoverable moved = record {
    holds = x.written;
    remembered = still_remembered txn.txn_id (transfer_entries i j n txn) s s' es r x;
    agrees = λ k. rw moved (
        recover_entries-replayed k (es ++ transfer_entries i j n txn) new_ledger
        ∙ replayed_as_live k);
  }
