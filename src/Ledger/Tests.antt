-- ===== src/Ledger/Tests.antt =====
-- Small ledgers, and the theorems on them.
use software_course_project.Prelude.{
  ◌≡◌, ◌≢◌, refl, false, [], ◌∷◌, String, string_eq, arith, ◌==◌, ==_iff,
}
use software_course_project.Prelude.Int.{pos, ◌+ℤ◌}
use software_course_project.Dict.{lookup, IsMap}
use software_course_project.Ledger.{Ledger, apply_debit, apply_credit}
use software_course_project.Ledger.Funds.{IsSound}
use software_course_project.Ledger.Transfers.{Payable}
use software_course_project.Ledger.Reserve.{CanDebit, apply_debit-IsSound, apply_credit-IsSound}

abbrev small : Ledger
small = record { balances = ("alice", pos 100) ∷ ("bob", pos 50) ∷ [] }

small-IsSound : IsSound small
unfolding ◌+ℤ◌
small-IsSound = record { no_negative = omega arith; bounded = omega arith }

small-Payable : Payable small "alice" "bob" (pos 30)
unfolding lookup
small-Payable = record {
  held = pos 100;
  received = pos 50;
  source_known = refl;
  destination_known = refl;
  positive = omega arith;
  covered = omega arith;
}

small-CanDebit : CanDebit small "alice" (pos 30)
unfolding lookup
small-CanDebit = record {
  held = pos 100;
  known = refl;
  positive = omega arith;
  covered = omega arith;
}

small-IsMap : IsMap small.balances
unfolding lookup
small-IsMap = (refl, (refl, tt))

apart : (a b : String) → (a == b) ≡ false → a ≢ b
apart a b differ same = ground (arith, ==_iff a b)

apply_debit-IsSound_example : IsSound (apply_debit small "alice" (pos 30)).1
apply_debit-IsSound_example = apply_debit-IsSound small small-IsSound "alice" (pos 30)

apply_credit-IsSound_example : IsSound (apply_credit small "bob" (pos 30)).1
unfolding lookup ◌+ℤ◌
apply_credit-IsSound_example =
    apply_credit-IsSound small small-IsSound "bob" (pos 30) {v = pos 50} refl (omega arith)
      (omega arith)
