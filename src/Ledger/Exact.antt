-- ===== src/Ledger/Exact.antt =====
-- On a sound ledger the `-=` and `+=` of ledger.go do not wrap around.
use software_course_project.Prelude.{◌≡◌, some, String, string_eq}
use software_course_project.Prelude.Int.{ℤ, pos, ◌+ℤ◌, ◌-ℤ◌, ◌≤ℤ◌, int_laws, cancel_sub, cancel_add}
use software_course_project.Int64.{max_int64, add64_exact, sub64_exact}
use software_course_project.Dict.{Dict, lookup, insert}
use software_course_project.Ledger.{subtract, add}
use software_course_project.Ledger.Funds.{
  sum, NoNegative, sum-insert, insert-NoNegative, lookup_nonneg, lookup-le-sum,
}

module _ (id : String) (a : ℤ) (m : Dict String ℤ) {bal : ℤ} (known : lookup id m ≡ some bal)
    (sound : NoNegative m) (positive : pos 1 ≤ℤ a) where
  pub subtract_exact : sum m ≤ℤ max_int64 → a ≤ℤ bal → subtract id a m ≡ insert id (bal -ℤ a) m
  unfolding subtract
  subtract_exact bounded covered =
      rw (known, sub64_exact bal a (omega (int_laws, lookup-le-sum id bal m sound known)))

  pub subtract-NoNegative : sum m ≤ℤ max_int64 → a ≤ℤ bal → NoNegative (subtract id a m)
  subtract-NoNegative bounded covered =
      rw (subtract_exact bounded covered) (insert-NoNegative id (bal -ℤ a) m sound (omega int_laws))

  pub sum-subtract : sum m ≤ℤ max_int64 → a ≤ℤ bal → sum (subtract id a m) ≡ sum m -ℤ a
  sum-subtract bounded covered =
      rw (subtract_exact bounded covered)
        (cancel_sub _ (sum m) bal a (sum-insert id (bal -ℤ a) bal m known))

  pub add_exact : sum m +ℤ a ≤ℤ max_int64 → add id a m ≡ insert id (bal +ℤ a) m
  unfolding add
  add_exact bounded = rw (
    known,
    add64_exact bal a
        (omega (int_laws, lookup-le-sum id bal m sound known, lookup_nonneg id bal m sound known)),
  )

  pub add-NoNegative : sum m +ℤ a ≤ℤ max_int64 → NoNegative (add id a m)
  add-NoNegative bounded = rw (add_exact bounded) (
      insert-NoNegative id (bal +ℤ a) m sound
        (omega (int_laws, lookup_nonneg id bal m sound known)))

  pub sum-add : sum m +ℤ a ≤ℤ max_int64 → sum (add id a m) ≡ sum m +ℤ a
  sum-add bounded =
      rw (add_exact bounded) (cancel_add _ (sum m) bal a (sum-insert id (bal +ℤ a) bal m known))
