-- ===== src/Recovery/Status.antt =====
-- `buildFinalStateMap` against a description of a transaction's fate that has no loop state.
use software_course_project.Prelude.{
  ◌≡◌, ◌∙◌, refl, Bool, true, false, ◌&&◌, ◌||◌, Option, none, some, List, [], ◌∷◌, String,
  string_eq, arith, ◌==◌, ==_iff, if◌then◌else◌,
}
use software_course_project.Dict.{lookup, contains}
use software_course_project.Dict.Laws.{lookup-insert}
use software_course_project.Model.{
  TransactionState, pending, prepared, committed, aborted, OperationType, op_debit, op_credit,
  op_prepared, op_committed, op_aborted, op_create_account, WalEntry,
}
use software_course_project.Recovery.{
  States, is_committed, note_state, final_state_loop, build_final_state_map,
}

abbrev pub commits : OperationType → Bool
commits op_committed = true
commits _ = false

abbrev pub aborts : OperationType → Bool
aborts op_aborted = true
aborts _ = false

-- The state in which an operation leaves a transaction that was not seen before.
abbrev pub opens : OperationType → Option TransactionState
opens op_prepared = some prepared
opens op_debit = some pending
opens op_credit = some pending
opens op_create_account = some pending
opens _ = none

-- Some entry of the transaction has an operation that passes the test.
abbrev pub any_entry : (OperationType → Bool) → String → List WalEntry → Bool
any_entry test t [] = false
any_entry test t (e ∷ rest) = (t == e.txn_id && test e.op_type) || any_entry test t rest

abbrev first_some : Option TransactionState → Option TransactionState → Option TransactionState
first_some none other = other
first_some (some s) other = some s

-- The state of the first entry of the transaction that opens it.
abbrev pub first_state : String → List WalEntry → Option TransactionState
first_state t [] = none
first_state t (e ∷ rest) =
    first_some (if t == e.txn_id then opens e.op_type else none) (first_state t rest)

-- Committed if any entry says so; else aborted if any entry says so; else what the first entry
-- makes it.
abbrev pub fate : String → List WalEntry → Option TransactionState
fate t es =
    if any_entry commits t es
    then some committed
    else if any_entry aborts t es
    then some aborted
    else first_state t es

abbrev is_aborted : Option TransactionState → Bool
is_aborted (some aborted) = true
is_aborted _ = false

-- The same, from a state that earlier entries have left.
abbrev fate_from : Option TransactionState → String → List WalEntry → Option TransactionState
fate_from s t es =
    if is_committed s || any_entry commits t es
    then some committed
    else if is_aborted s || any_entry aborts t es
    then some aborted
    else first_some s (first_state t es)

-- One entry's effect on the state of its own transaction.
abbrev step_state : OperationType → Option TransactionState → Option TransactionState
step_state op s =
    if is_committed s || commits op
    then some committed
    else if is_aborted s || aborts op
    then some aborted
    else first_some s (opens op)

lookup-note_state :
    (op : OperationType) (id t : String) (m : States)
    → lookup t (note_state op id m) ≡ (if t == id then step_state op (lookup t m) else lookup t m)
unfolding note_state contains
lookup-note_state op_debit id t m = ground (arith, lookup-insert t id pending m, ==_iff t id)
lookup-note_state op id t m = ground (
  arith,
  lookup-insert t id pending m,
  lookup-insert t id prepared m,
  lookup-insert t id committed m,
  lookup-insert t id aborted m,
  ==_iff t id,
)

fate_from-step :
    (op : OperationType) (s : Option TransactionState) (t : String) (e : WalEntry)
    (rest : List WalEntry)
    → op ≡ e.op_type
    → fate_from (if t == e.txn_id then step_state op s else s) t rest ≡ fate_from s t (e ∷ rest)
fate_from-step op_debit s t e rest same = ground arith
fate_from-step op s t e rest same = ground arith

final_state_loop-fate_from :
    (t : String) (es : List WalEntry) (m : States)
    → lookup t (final_state_loop es m) ≡ fate_from (lookup t m) t es
unfolding final_state_loop
final_state_loop-fate_from t [] m = ground arith
final_state_loop-fate_from t (e ∷ rest) m =
    final_state_loop-fate_from t rest (note_state e.op_type e.txn_id m)
    ∙ rw (lookup-note_state e.op_type e.txn_id t m)
        (fate_from-step e.op_type (lookup t m) t e rest refl)

-- The map that the first pass builds holds, for every transaction, its fate over the whole log:
-- committed if a COMMITTED entry names it; else aborted if an ABORTED entry does; else PREPARED or
-- PENDING, as its first PREPARED, DEBIT, CREDIT or CREATE_ACCOUNT entry says; else nothing.
pub build_final_state_map-fate :
    (t : String) (es : List WalEntry) → lookup t (build_final_state_map es) ≡ fate t es
unfolding build_final_state_map lookup
build_final_state_map-fate t es = final_state_loop-fate_from t es []

opens_no_commit : (op : OperationType) → is_committed (opens op) ≡ false
opens_no_commit op_debit = refl
opens_no_commit op = refl

first_state_no_commit : (t : String) (es : List WalEntry) → is_committed (first_state t es) ≡ false
first_state_no_commit t [] = refl
first_state_no_commit t (e ∷ rest) =
    ground (arith, opens_no_commit e.op_type, first_state_no_commit t rest)

pub is_committed-fate :
    (t : String) (es : List WalEntry) → is_committed (fate t es) ≡ any_entry commits t es
is_committed-fate t es = ground (arith, first_state_no_commit t es)
