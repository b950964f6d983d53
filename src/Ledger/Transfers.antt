-- ===== src/Ledger/Transfers.antt =====
-- `ApplyTransfer`: when it goes through, what it writes, and that it keeps the money.
use software_course_project.Prelude.{
  ◌≡◌, ◌≢◌, ◌⊎◌, refl, sym, ◌∙◌, inl, inr, some, String, arith, string_eq, ok, err, Option-cases,
  Bool-cases, ◌==◌,
}
use software_course_project.Prelude.Int.{ℤ, pos, ◌+ℤ◌, ◌-ℤ◌, ◌≤ℤ◌, int_laws, leb_ℤ, ltb_ℤ}
use software_course_project.Int64.{max_int64, sub64}
use software_course_project.Dict.{Dict, lookup, insert}
use software_course_project.Dict.Laws.{lookup-insert, lookup-insert_self, lookup-insert_ne}
use software_course_project.Ledger.{
  Ledger, LedgerError, not_positive, source_not_found, destination_not_found, insufficient_balance,
  balance_or_zero, apply_transfer, total_balance, subtract, add,
}
use software_course_project.Ledger.Exact.{
  subtract_exact, subtract-NoNegative, sum-subtract, add_exact, add-NoNegative, sum-add,
}
use software_course_project.Ledger.Funds.{
  sum, NoNegative, IsSound, total_balance-eq_of_bits, bits-sum-subtract, bits-sum-add,
}

-- The guards that a transfer passes: both accounts are there, and the source covers a positive
-- amount.
pub record Payable (l : Ledger) (s d : String) (a : ℤ) : Type 0 where
  pub held : ℤ
  pub received : ℤ
  pub source_known : lookup s l.balances ≡ some held
  pub destination_known : lookup d l.balances ≡ some received
  pub positive : pos 1 ≤ℤ a
  pub covered : a ≤ℤ held

module _ (l : Ledger) (s d : String) (a : ℤ) where
  unfoldable pub transferred : Ledger
  transferred = record { balances = add d a (subtract s a l.balances) }

  -- A transfer that passes the guards is done.
  pub apply_transfer_done : Payable l s d a → apply_transfer l s d a ≡ (ok tt, transferred)
  unfolding apply_transfer transferred
  apply_transfer_done p = rw (p.source_known, p.destination_known) (ground arith)

  -- The outcome of a transfer: refused with the ledger as it was, or done.
  pub apply_transfer-cases :
      ((e : LedgerError) × (apply_transfer l s d a ≡ (err e, l)))
      ⊎ (Payable l s d a × (apply_transfer l s d a ≡ (ok tt, transferred)))
  unfolding apply_transfer
  apply_transfer-cases = elim (Bool-cases (leb_ℤ a (pos 0))) [
    | inl small ↦ inl (not_positive a, rw small)
    | inr large ↦ elim (Option-cases (lookup s l.balances)) [
      | inl absent ↦ inl (source_not_found s, rw (large, absent))
      | inr (u, es) ↦ elim (Option-cases (lookup d l.balances)) [
        | inl absent ↦ inl (destination_not_found d, rw (large, es, absent))
        | inr (v, ed) ↦ elim (Bool-cases (ltb_ℤ u a)) [
          | inl short ↦ inl (insufficient_balance s u a, rw (large, es, ed, short))
          | inr enough ↦
              let p : Payable l s d a = record {
                held = u;
                received = v;
                source_known = es;
                destination_known = ed;
                positive = ground arith;
                covered = ground arith;
              } in
              inr (p, apply_transfer_done p)
        ]
      ]
    ]
  ]

lookup_after_subtract :
    (s d : String) (a : ℤ) (m : Dict String ℤ) {v : ℤ}
    → lookup d m ≡ some v
    → (w : ℤ) × (lookup d (subtract s a m) ≡ some w)
unfolding subtract
lookup_after_subtract s d a m {v} k = elim (Bool-cases (d == s)) [
  | inl same ↦ (sub64 (balance_or_zero (lookup s m)) a, rw lookup-insert (rw same))
  | inr other ↦ (v, rw lookup-insert (rw other k))
]

-- A transfer, refused or done, does not change what `TotalBalance` returns, also where a balance
-- wraps around.
pub apply_transfer_conserves :
    (l : Ledger) (s d : String) (a : ℤ) → total_balance (apply_transfer l s d a).1 ≡ total_balance l
unfolding transferred
apply_transfer_conserves l s d a = elim (apply_transfer-cases l s d a) [
  | inl (e, refused) ↦ rw refused
  | inr (p, done) ↦
      let after = lookup_after_subtract s d a l.balances p.destination_known in
      rw done (
        total_balance-eq_of_bits (transferred l s d a) l (
          omega (
            arith,
            bits-sum-subtract s a l.balances p.source_known,
            bits-sum-add d a (subtract s a l.balances) after.1,
          )))
]

module _ (l : Ledger) (sound : IsSound l) (s d : String) (a : ℤ) where
  after_debit-bounded :
      (p : Payable l s d a)
      → NoNegative (subtract s a l.balances) × (sum (subtract s a l.balances) +ℤ a ≡ sum l.balances)
  after_debit-bounded p =
      let exact =
        sum-subtract s a l.balances p.source_known sound.no_negative p.positive sound.bounded
          p.covered in
      (
        subtract-NoNegative s a l.balances p.source_known sound.no_negative p.positive sound.bounded
            p.covered,
        rw exact (omega int_laws),
      )

  transferred-IsSound : Payable l s d a → IsSound (transferred l s d a)
  unfolding transferred
  transferred-IsSound p =
      let (nonneg, total) = after_debit-bounded p in
      let after = lookup_after_subtract s d a l.balances p.destination_known in
      let room : sum (subtract s a l.balances) +ℤ a ≤ℤ max_int64 = rw total sound.bounded in
      record {
        no_negative = add-NoNegative d a (subtract s a l.balances) after.1 nonneg p.positive room;
        bounded = rw (sum-add d a (subtract s a l.balances) after.1 nonneg p.positive room) room;
      }

  -- A transfer, refused or done, leaves no balance negative and the shard within 64 bits, if the
  -- ledger was so before.
  pub apply_transfer-IsSound : IsSound (apply_transfer l s d a).1
  unfolding transferred
  apply_transfer-IsSound = elim (apply_transfer-cases l s d a) [
    | inl (e, refused) ↦ rw refused sound
    | inr (p, done) ↦ rw done (transferred-IsSound p)
  ]

  -- Between two different accounts that pass the guards, exactly the amount moves, and an
  -- account other than the two does not change.
  pub apply_transfer_moves :
      s ≢ d
      → (p : Payable l s d a) → (t : String) → t ≢ s
      → t ≢ d
      → let (r, after) = apply_transfer l s d a in
        (r ≡ ok tt)
        × (lookup s after.balances ≡ some (p.held -ℤ a))
        × (lookup d after.balances ≡ some (p.received +ℤ a))
        × (lookup t after.balances ≡ lookup t l.balances)
  unfolding transferred
  apply_transfer_moves differ p t ts td =
      let (nonneg, total) = after_debit-bounded p in
      let m = l.balances in
      let once =
        subtract_exact s a m p.source_known sound.no_negative p.positive sound.bounded p.covered in
      let there : lookup d (subtract s a m) ≡ some p.received =
        rw (once, lookup-insert_ne d s (p.held -ℤ a) m (λ e. differ (sym e))) p.destination_known in
      let twice : add d a (subtract s a m) ≡ insert d (p.received +ℤ a) (insert s (p.held -ℤ a) m) =
        rw
          (add_exact d a (subtract s a m) there nonneg p.positive (rw total sound.bounded), once) in
      rw (apply_transfer_done l s d a p, twice)
        (
          refl,
          rw (lookup-insert_ne s d (p.received +ℤ a) (insert s (p.held -ℤ a) m) differ)
              (lookup-insert_self s (p.held -ℤ a) m),
          lookup-insert_self d (p.received +ℤ a) (insert s (p.held -ℤ a) m),
          lookup-insert_ne t d (p.received +ℤ a) (insert s (p.held -ℤ a) m) td
              ∙ lookup-insert_ne t s (p.held -ℤ a) m ts,
        )
