-- ===== src/Recovery.antt =====
-- shard/recovery/recovery.go: the replay of the log into a ledger when a shard starts.
pub mod Status
pub mod Balances
pub mod Replayed
pub mod Extension
pub mod Commit
pub mod Quiet
pub mod Ended
mod Tests
use software_course_project.Prelude.{
  ℕ, ◌+◌, Bool, true, false, Option, none, some, List, [], ◌∷◌, ◌++◌, String, string_eq, Result, ok,
  err, ◌>>=◌, if◌then◌else◌,
}
use software_course_project.Prelude.Int.{ℤ, pos}
use software_course_project.Int64.{add64, sub64}
use software_course_project.Dict.{Dict, lookup, contains, insert}
use software_course_project.Ledger.{
  Ledger, balance_or_zero, subtract, add, set_balance, get_balance,
}
use software_course_project.Model.{
  TransactionState, pending, prepared, committed, aborted, OperationType, op_debit, op_credit,
  op_prepared, op_committed, op_aborted, op_create_account, op_checkpoint, op_other, WalEntry,
}
use software_course_project.Wal.{Wal, WalError, read_all}

abbrev pub States : Type 0
States = Dict String TransactionState

abbrev is_committed : Option TransactionState → Bool
is_committed (some committed) = true
is_committed _ = false

-- The body of the loop in `buildFinalStateMap`.
unfoldable pub note_state : OperationType → String → States → States
note_state op_committed txn_id states = insert txn_id committed states
note_state op_aborted txn_id states =
    if is_committed (lookup txn_id states) then states else insert txn_id aborted states
note_state op_prepared txn_id states =
    if contains txn_id states then states else insert txn_id prepared states
note_state op_checkpoint txn_id states = states
note_state (op_other _) txn_id states = states
note_state _ txn_id states = if contains txn_id states then states else insert txn_id pending states

unfoldable pub final_state_loop : List WalEntry → States → States
unfolding note_state
final_state_loop [] states = states
final_state_loop (e ∷ rest) states = final_state_loop rest (note_state e.op_type e.txn_id states)

unfoldable pub build_final_state_map : List WalEntry → States
unfolding final_state_loop
build_final_state_map entries = final_state_loop entries []

pub record RecoveryResult : Type 0 where
  pub applied_count : ℕ
  pub skipped_count : ℕ
  pub pending_txns : List String
  pub committed_txns : List String
  pub aborted_txns : List String

-- The first loop of `Recover`, which sorts the transactions that have ended.
unfoldable pub in_state : (TransactionState → Bool) → States → List String
in_state test [] = []
in_state test ((txn_id, state) ∷ rest) =
    if test state then txn_id ∷ in_state test rest else in_state test rest

abbrev pub state_is_committed : TransactionState → Bool
state_is_committed committed = true
state_is_committed _ = false

abbrev pub state_is_aborted : TransactionState → Bool
state_is_aborted aborted = true
state_is_aborted _ = false

-- The variables of the second loop.
pub record Replay : Type 0 where
  pub ledger : Ledger
  pub deltas : Dict String ℤ
  pub applied : ℕ
  pub skipped : ℕ
  pub pending_ids : List String

abbrev skip : Replay → Replay
skip r = record r { skipped = r.skipped + 1 }

abbrev pub is_ended : Option TransactionState → Bool
is_ended (some committed) = true
is_ended (some aborted) = true
is_ended _ = false

-- The body of the second loop, by the operation type of the entry.
unfoldable pub replay_entry : States → OperationType → WalEntry → Replay → Replay
replay_entry final op_create_account e r =
    if is_committed (lookup e.txn_id final)
    then record r { ledger = set_balance r.ledger e.account_id e.amount; applied = r.applied + 1 }
    else skip r
replay_entry final op_debit e r =
    if is_committed (lookup e.txn_id final)
    then record r { deltas = subtract e.account_id e.amount r.deltas; applied = r.applied + 1 }
    else skip r
replay_entry final op_credit e r =
    if is_committed (lookup e.txn_id final)
    then record r { deltas = add e.account_id e.amount r.deltas; applied = r.applied + 1 }
    else skip r
replay_entry final op_prepared e r =
    if is_ended (lookup e.txn_id final)
    then r
    else record r { pending_ids = r.pending_ids ++ e.txn_id ∷ [] }
replay_entry final op_committed e r = r
replay_entry final op_aborted e r = r
replay_entry final op_checkpoint e r = r
replay_entry final (op_other _) e r = skip r

unfoldable pub replay_loop : States → List WalEntry → Replay → Replay
unfolding replay_entry
replay_loop final [] r = r
replay_loop final (e ∷ rest) r = replay_loop final rest (replay_entry final e.op_type e r)

-- The last loop: the accumulated changes are applied to the balances.
unfoldable pub apply_deltas : Dict String ℤ → Ledger → Ledger
apply_deltas [] l = l
apply_deltas ((account_id, delta) ∷ rest) l =
    apply_deltas rest
      (set_balance l account_id (add64 (balance_or_zero (get_balance l account_id)) delta))

unfoldable pub recover_entries : List WalEntry → Ledger → RecoveryResult × Ledger
unfolding build_final_state_map in_state replay_loop apply_deltas
recover_entries entries l =
    let final = build_final_state_map entries in
    let r =
      replay_loop final entries
        (record { ledger = l; deltas = []; applied = 0; skipped = 0; pending_ids = [] }) in
    (
      record {
        applied_count = r.applied;
        skipped_count = r.skipped;
        pending_txns = r.pending_ids;
        committed_txns = in_state state_is_committed final;
        aborted_txns = in_state state_is_aborted final;
      },
      apply_deltas r.deltas r.ledger,
    )

-- A log that cannot be read is an error, and the ledger is not touched.
unfoldable pub recover : Wal → Ledger → Result WalError RecoveryResult × Ledger
unfolding recover_entries
recover w l = elim (read_all w) [
  | err e ↦ (err e, l)
  | ok entries ↦ let (result, l') = recover_entries entries l in (ok result, l')
]
