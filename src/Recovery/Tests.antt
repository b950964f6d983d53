-- ===== src/Recovery/Tests.antt =====
-- A log with a committed transfer and an unfinished one.
use software_course_project.Prelude.{◌≡◌, refl, List, [], ◌∷◌, ◌++◌, string_eq}
use software_course_project.Prelude.Int.{pos}
use software_course_project.Dict.{lookup}
use software_course_project.Ledger.{new_ledger}
use software_course_project.Model.{WalEntry, op_create_account, op_debit, op_credit, op_prepared}
use software_course_project.Wal.{plain_entry}
use software_course_project.Wal.Working.{committed_entry}
use software_course_project.Recovery.{build_final_state_map, recover_entries}
use software_course_project.Recovery.Status.{fate, build_final_state_map-fate}
use software_course_project.Recovery.Replayed.{replayed, recover_entries-replayed}
use software_course_project.Recovery.Commit.{recover_entries-uncommitted}

abbrev written : List WalEntry
written =
    plain_entry 0 "__init__" op_create_account "alice" (pos 100)
    ∷ plain_entry 1 "__init__" op_create_account "bob" (pos 50)
    ∷ committed_entry 2 "__init__"
    ∷ plain_entry 3 "t1" op_debit "alice" (pos 30)
    ∷ plain_entry 4 "t1" op_credit "bob" (pos 30)
    ∷ committed_entry 5 "t1"
    ∷ plain_entry 6 "t2" op_debit "alice" (pos 10)
    ∷ []

build_final_state_map-fate_example : lookup "t2" (build_final_state_map written) ≡ fate "t2" written
build_final_state_map-fate_example = build_final_state_map-fate "t2" written

recover_entries-replayed_example :
    lookup "alice" (recover_entries written new_ledger).1.balances
    ≡ replayed "alice" written (lookup "alice" new_ledger.balances)
recover_entries-replayed_example = recover_entries-replayed "alice" written new_ledger

abbrev unfinished : List WalEntry
unfinished = plain_entry 7 "t3" op_prepared "alice" (pos 5) ∷ []

recover_entries-uncommitted_example :
    lookup "alice" (recover_entries (written ++ unfinished) new_ledger).1.balances
    ≡ lookup "alice" (recover_entries written new_ledger).1.balances
recover_entries-uncommitted_example =
    recover_entries-uncommitted "t3" written unfinished
      (refl, (refl, (refl, (refl, (refl, (refl, (refl, tt))))))) (refl, tt) "alice" new_ledger refl
