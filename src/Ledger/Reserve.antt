-- ===== src/Ledger/Reserve.antt =====
-- The operations of the two-phase commit on one ledger: validating, debiting, crediting and
-- rolling back.
use software_course_project.Prelude.{
  ◌≡◌, ◌⊎◌, ◌∙◌, refl, inl, inr, some, [], ◌∷◌, String, arith, string_eq, ok, err, Option-cases,
  Bool-cases,
}
use software_course_project.Prelude.Int.{ℤ, pos, ◌+ℤ◌, ◌-ℤ◌, ◌≤ℤ◌, ◌<ℤ◌, int_laws, leb_ℤ, ltb_ℤ}
use software_course_project.Int64.{
  InRange, max_int64, add64, sub64, bits-injective, bits-add64, bits-sub64, add64-InRange,
}
use software_course_project.Dict.{Dict, lookup, contains, insert}
use software_course_project.Dict.Laws.{lookup-insert_self}
use software_course_project.Ledger.{
  Ledger, LedgerError, not_positive, account_not_found, insufficient_balance, apply_debit,
  apply_credit, rollback_debit, validate_debit, subtract, add, balance_or_zero,
}
use software_course_project.Ledger.Exact.{
  subtract-NoNegative, sum-subtract, add-NoNegative, sum-add,
}
use software_course_project.Ledger.Funds.{sum, IsSound}

-- The account is there and covers a positive amount.
pub record CanDebit (l : Ledger) (id : String) (a : ℤ) : Type 0 where
  pub held : ℤ
  pub known : lookup id l.balances ≡ some held
  pub positive : pos 1 ≤ℤ a
  pub covered : a ≤ℤ held

module _ (l : Ledger) (id : String) (a : ℤ) where
  -- `ValidateDebit` accepts exactly what `ApplyDebit` does, and gives the same error otherwise.
  pub validate_debit-apply_debit : validate_debit l id a ≡ (apply_debit l id a).0
  unfolding validate_debit apply_debit
  validate_debit-apply_debit = ground arith

  pub apply_debit-cases :
      ((e : LedgerError) × (apply_debit l id a ≡ (err e, l)))
      ⊎ (CanDebit l id a
          × (apply_debit l id a ≡ (ok tt, record { balances = subtract id a l.balances })))
  unfolding apply_debit
  apply_debit-cases = elim (Bool-cases (leb_ℤ a (pos 0))) [
    | inl small ↦ inl (not_positive a, rw small)
    | inr large ↦ elim (Option-cases (lookup id l.balances)) [
      | inl absent ↦ inl (account_not_found id, rw (large, absent))
      | inr (u, known) ↦ elim (Bool-cases (ltb_ℤ u a)) [
        | inl short ↦ inl (insufficient_balance id u a, rw (large, known, short))
        | inr enough ↦ inr (
          record { held = u; known = known; positive = ground arith; covered = ground arith },
          rw (large, known, enough),
        )
      ]
    ]
  ]

  pub apply_debit_done :
      CanDebit l id a → apply_debit l id a ≡ (ok tt, record { balances = subtract id a l.balances })
  unfolding apply_debit
  apply_debit_done p = rw p.known (ground arith)

  pub apply_credit_done :
      {v : ℤ}
      → lookup id l.balances ≡ some v
      → pos 1 ≤ℤ a
      → apply_credit l id a ≡ (ok tt, record { balances = add id a l.balances })
  unfolding apply_credit contains add
  apply_credit_done known positive = rw known (ground arith)

  -- The rollback writes what the credit writes.
  pub rollback_debit-eq-apply_credit : rollback_debit l id a ≡ apply_credit l id a
  unfolding rollback_debit apply_credit
  rollback_debit-eq-apply_credit = refl

insert_back :
    (id : String) (v old : ℤ) (m : Dict String ℤ)
    → lookup id m ≡ some old
    → insert id old (insert id v m) ≡ m
unfolding lookup insert
insert_back id v old [] e = cc
insert_back id v old ((j, w) ∷ m) e = ground (arith, insert_back id v old m)

add64-sub64 : (v a : ℤ) → InRange v → add64 (sub64 v a) a ≡ v
add64-sub64 v a h =
    bits-injective (add64 (sub64 v a) a) v (add64-InRange (sub64 v a) a) h
      (bits-add64 (sub64 v a) a ∙ bits-sub64 v a)

-- A debit that was applied can be rolled back, and the rollback gives back the very ledger, as
-- long as the balance was an `int64`.
pub debit_then_rollback :
    (l : Ledger) (id : String) (a : ℤ) (p : CanDebit l id a)
    → InRange p.held
    → rollback_debit (apply_debit l id a).1 id a ≡ (ok tt, l)
unfolding subtract add
debit_then_rollback l id a p h =
    let m = l.balances in
    let v = sub64 p.held a in
    rw (apply_debit_done l id a p) (
      rollback_debit-eq-apply_credit (record { balances = subtract id a m }) id a
      ∙ apply_credit_done (record { balances = subtract id a m }) id a
          (lookup-insert_self id (sub64 (balance_or_zero (lookup id m)) a) m) p.positive
      ∙ rw (
        p.known,
        lookup-insert_self id v m,
        add64-sub64 p.held a h,
        insert_back id v p.held m p.known,
      ))

module _ (l : Ledger) (sound : IsSound l) (id : String) (a : ℤ) where
  debited-IsSound : CanDebit l id a → IsSound (record { balances = subtract id a l.balances })
  debited-IsSound p = record {
    no_negative =
        subtract-NoNegative id a l.balances p.known sound.no_negative p.positive sound.bounded
          p.covered;
    bounded =
        rw
          (sum-subtract id a l.balances p.known sound.no_negative p.positive sound.bounded
            p.covered)
          (omega (int_laws, sound.bounded));
  }

  -- A debit, refused or done, leaves no balance negative.
  pub apply_debit-IsSound : IsSound (apply_debit l id a).1
  apply_debit-IsSound = elim (apply_debit-cases l id a) [
    | inl (e, refused) ↦ rw refused sound
    | inr (p, done) ↦ rw done (debited-IsSound p)
  ]

  -- A debit that is done takes exactly its amount out of the shard.
  pub sum-apply_debit : CanDebit l id a → sum (apply_debit l id a).1.balances ≡ sum l.balances -ℤ a
  sum-apply_debit p =
      rw (apply_debit_done l id a p)
        (sum-subtract id a l.balances p.known sound.no_negative p.positive sound.bounded p.covered)

  module _ {v : ℤ} (known : lookup id l.balances ≡ some v) (positive : pos 1 ≤ℤ a) where
    -- A credit brings exactly its amount in, if the shard stays within 64 bits.
    pub sum-apply_credit :
        sum l.balances +ℤ a ≤ℤ max_int64
        → sum (apply_credit l id a).1.balances ≡ sum l.balances +ℤ a
    sum-apply_credit room =
        rw (apply_credit_done l id a known positive)
          (sum-add id a l.balances known sound.no_negative positive room)

    pub apply_credit-IsSound : sum l.balances +ℤ a ≤ℤ max_int64 → IsSound (apply_credit l id a).1
    apply_credit-IsSound room = rw (apply_credit_done l id a known positive) (record {
      no_negative = add-NoNegative id a l.balances known sound.no_negative positive room;
      bounded = rw (sum-add id a l.balances known sound.no_negative positive room) room;
    })

-- A credit that passes the largest `int64` is accepted, and leaves the account with a negative
-- balance.
pub apply_credit_overflow :
    (l : Ledger) (id : String) (a v : ℤ)
    → lookup id l.balances ≡ some v
    → pos 1 ≤ℤ a
    → InRange v
    → InRange a
    → max_int64 <ℤ v +ℤ a
    → let (r, after) = apply_credit l id a in
      (r ≡ ok tt) × (lookup id after.balances ≡ some (add64 v a)) × (add64 v a <ℤ pos 0)
unfolding add
apply_credit_overflow l id a v known positive hv ha over =
    rw (apply_credit_done l id a known positive) (
      refl,
      rw known (lookup-insert_self id (add64 v a) l.balances),
      omega (
        int_laws,
        bits-add64 v a,
        (add64-InRange v a).lower,
        (add64-InRange v a).upper,
        hv.lower,
        hv.upper,
        ha.upper,
      ),
    )
