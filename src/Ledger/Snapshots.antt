-- ===== src/Ledger/Snapshots.antt =====
-- Copies of the balances: `Snapshot`, `LoadBalances` and `NewLedgerWithAccounts`.
use software_course_project.Prelude.{
  ◌≡◌, ◌∙◌, refl, Option, none, some, [], ◌∷◌, String, arith, string_eq, ==_iff,
}
use software_course_project.Prelude.Int.{ℤ}
use software_course_project.Dict.{Dict, lookup, insert, IsMap}
use software_course_project.Dict.Laws.{lookup-insert, insert-IsMap}
use software_course_project.Ledger.{Ledger, get_balance, copy_balances, snapshot, load_balances}

-- What a copy into `target` holds: the copied map's entry, if it has one.
abbrev first_of_two : Option ℤ → Option ℤ → Option ℤ
first_of_two none other = other
first_of_two (some v) other = some v

lookup-copy_balances :
    (k : String) (m target : Dict String ℤ)
    → IsMap m
    → lookup k (copy_balances m target) ≡ first_of_two (lookup k m) (lookup k target)
unfolding lookup copy_balances
lookup-copy_balances k [] target h = refl
lookup-copy_balances k ((j, w) ∷ m) target h =
    lookup-copy_balances k m (insert j w target) h.1
    ∙ rw (lookup-insert k j w target) (ground (arith, ==_iff k j))

copy_balances-IsMap : (m target : Dict String ℤ) → IsMap target → IsMap (copy_balances m target)
unfolding copy_balances
copy_balances-IsMap [] target h = h
copy_balances-IsMap ((j, w) ∷ m) target h =
    copy_balances-IsMap m (insert j w target) (insert-IsMap j w target h)

pub lookup-snapshot :
    (l : Ledger) (k : String) → IsMap l.balances → lookup k (snapshot l) ≡ get_balance l k
unfolding snapshot get_balance lookup
lookup-snapshot l k h = rw (lookup-copy_balances k l.balances [] h) (ground arith)

-- Loading a snapshot into any ledger gives back every balance of the ledger that was copied, and
-- no other account.
pub load_balances-snapshot :
    (l other : Ledger) (k : String)
    → IsMap l.balances
    → get_balance (load_balances other (snapshot l)) k ≡ get_balance l k
unfolding load_balances get_balance lookup copy_balances snapshot
load_balances-snapshot l other k h =
    lookup-snapshot (record { balances = snapshot l }) k
      (unfold snapshot in copy_balances-IsMap l.balances [] tt)
    ∙ lookup-snapshot l k h
