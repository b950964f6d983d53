-- ===== src/Recovery/Ended.antt =====
-- The lists of the result of `Recover`: which transactions it gives as committed, aborted and
-- pending.
use software_course_project.Prelude.{
  ◌≡◌, ◌∙◌, refl, Bool, true, false, not, ◌&&◌, ◌||◌, Option, none, some, List, [], ◌∷◌, ◌++◌,
  String, string_eq, arith, ◌==◌, ==_iff, if◌then◌else◌,
}
use software_course_project.Dict.{lookup, IsMap}
use software_course_project.Dict.Laws.{insert-IsMap}
use software_course_project.Ledger.{Ledger}
use software_course_project.Model.{
  TransactionState, pending, prepared, committed, aborted, OperationType, op_debit, op_prepared,
  WalEntry,
}
use software_course_project.Recovery.{
  States, note_state, final_state_loop, build_final_state_map, in_state, state_is_committed,
  state_is_aborted, is_ended, Replay, replay_entry, replay_loop, recover_entries,
}
use software_course_project.Recovery.Status.{
  opens, first_state, any_entry, commits, aborts, fate, build_final_state_map-fate,
}

-- Is the transaction in the list?
abbrev pub listed : String → List String → Bool
listed t [] = false
listed t (u ∷ us) = t == u || listed t us

abbrev pub prepares : OperationType → Bool
prepares op_prepared = true
prepares _ = false

abbrev passes : (TransactionState → Bool) → Option TransactionState → Bool
passes test none = false
passes test (some s) = test s

listed-in_state :
    (test : TransactionState → Bool) (t : String) (m : States)
    → IsMap m
    → listed t (in_state test m) ≡ passes test (lookup t m)
unfolding in_state lookup
listed-in_state test t [] h = refl
listed-in_state test t ((u, s) ∷ m) h = ground (arith, listed-in_state test t m h.1, ==_iff t u)

note_state-IsMap :
    (op : OperationType) (t : String) (m : States) → IsMap m → IsMap (note_state op t m)
unfolding note_state
note_state-IsMap op_debit t m h = ground (arith, insert-IsMap t pending m h)
note_state-IsMap op t m h = ground (
  arith,
  insert-IsMap t pending m h,
  insert-IsMap t prepared m h,
  insert-IsMap t committed m h,
  insert-IsMap t aborted m h,
)

final_state_loop-IsMap : (es : List WalEntry) (m : States) → IsMap m → IsMap (final_state_loop es m)
unfolding final_state_loop
final_state_loop-IsMap [] m h = h
final_state_loop-IsMap (e ∷ es) m h =
    final_state_loop-IsMap es (note_state e.op_type e.txn_id m)
      (note_state-IsMap e.op_type e.txn_id m h)

build_final_state_map-IsMap : (es : List WalEntry) → IsMap (build_final_state_map es)
unfolding build_final_state_map
build_final_state_map-IsMap es = final_state_loop-IsMap es [] tt

listed-append :
    (t : String) (us : List String) (u : String) → listed t (us ++ u ∷ []) ≡ listed t us || t == u
listed-append t [] u = ground arith
listed-append t (v ∷ us) u = rw (listed-append t us u) (ground arith)

-- One entry's effect on the list of the pending transactions.
pending-replay_entry :
    (t : String) (final : States) (op : OperationType) (e : WalEntry) (r : Replay)
    → listed t (replay_entry final op e r).pending_ids
      ≡ listed t r.pending_ids || (t == e.txn_id && prepares op && not (is_ended (lookup t final)))
unfolding replay_entry
pending-replay_entry t final op_debit e r = ground arith
pending-replay_entry t final op_prepared e r =
    ground (arith, listed-append t r.pending_ids e.txn_id, ==_iff t e.txn_id)
pending-replay_entry t final op e r = ground arith

pending-replay_loop :
    (t : String) (final : States) (es : List WalEntry) (r : Replay)
    → listed t (replay_loop final es r).pending_ids
      ≡ listed t r.pending_ids || (any_entry prepares t es && not (is_ended (lookup t final)))
unfolding replay_loop
pending-replay_loop t final [] r = ground arith
pending-replay_loop t final (e ∷ es) r =
    pending-replay_loop t final es (replay_entry final e.op_type e r)
    ∙ rw (pending-replay_entry t final e.op_type e r) (ground arith)

-- What is known of a transaction after a restart.
abbrev pub remembered_as : String → List WalEntry → Option TransactionState
remembered_as t es =
    if any_entry commits t es
    then some committed
    else if any_entry aborts t es
    then some aborted
    else if any_entry prepares t es
    then some prepared
    else none

opens_open : (op : OperationType) → is_ended (opens op) ≡ false
opens_open op_debit = refl
opens_open op_prepared = refl
opens_open op = refl

first_state_open : (t : String) (es : List WalEntry) → is_ended (first_state t es) ≡ false
first_state_open t [] = refl
first_state_open t (e ∷ es) = ground (arith, opens_open e.op_type, first_state_open t es)

open_passes :
    (s : Option TransactionState)
    → is_ended s ≡ false
    → (passes state_is_committed s ≡ false) × (passes state_is_aborted s ≡ false)
open_passes s h = ground arith

fate_lists :
    (t : String) (es : List WalEntry)
    → (passes state_is_committed (fate t es) ≡ any_entry commits t es)
      × (passes state_is_aborted (fate t es)
          ≡ not (any_entry commits t es) && any_entry aborts t es)
      × (is_ended (fate t es) ≡ any_entry commits t es || any_entry aborts t es)
fate_lists t es =
    ground (arith, first_state_open t es, open_passes (first_state t es) (first_state_open t es))

module _ (t : String) (es : List WalEntry) (l : Ledger) where
  pub listed-committed_txns :
      listed t (recover_entries es l).0.committed_txns ≡ any_entry commits t es
  unfolding recover_entries
  listed-committed_txns =
      listed-in_state state_is_committed t (build_final_state_map es)
        (build_final_state_map-IsMap es)
      ∙ rw (build_final_state_map-fate t es) (fate_lists t es).0

  pub listed-aborted_txns :
      listed t (recover_entries es l).0.aborted_txns
      ≡ not (any_entry commits t es) && any_entry aborts t es
  unfolding recover_entries
  listed-aborted_txns =
      listed-in_state state_is_aborted t (build_final_state_map es) (build_final_state_map-IsMap es)
      ∙ rw (build_final_state_map-fate t es) (fate_lists t es).1

  pub listed-pending_txns :
      listed t (recover_entries es l).0.pending_txns
      ≡ any_entry prepares t es && not (any_entry commits t es || any_entry aborts t es)
  unfolding recover_entries
  listed-pending_txns =
      pending-replay_loop t (build_final_state_map es) es
        (record { ledger = l; deltas = []; applied = 0; skipped = 0; pending_ids = [] })
      ∙ rw (build_final_state_map-fate t es, (fate_lists t es).2)
