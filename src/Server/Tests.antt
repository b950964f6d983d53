-- ===== src/Server/Tests.antt =====
-- Small shards, and runs of the theorems on them.
use software_course_project.Server.Growth.{IsShort}
use software_course_project.Server.Lost.{IsLost, prepared_debit-IsLost}
use software_course_project.Server.Opening.{opening_bank}
use software_course_project.Server.Refinement.{serve_from_start, ServesFromStart}
use software_course_project.Bank.{arrives, restarts, bank_run, submit}
use software_course_project.Prelude.{
  true, some, ◌≡◌, refl, false, ◌==◌, none, List, [], ◌∷◌, String, string_eq, ok, arith,
}
use software_course_project.Prelude.Int.{◌-ℤ◌, ◌+ℤ◌, ℤ, pos}
use software_course_project.Dict.{Dict, IsMap, contains, insert, lookup}
use software_course_project.Ledger.{
  snapshot, copy_balances, get_balance, apply_transfer, validate_debit, set_balance, Ledger,
  total_balance,
}
use software_course_project.Ledger.Funds.{IsSound}
use software_course_project.Model.{
  aborted, Transaction, WalEntry, pending, committed, op_create_account, op_credit, primary,
  success, already_processed,
}
use software_course_project.Wal.{
  write_checkpoint, mark_committed, write_entry, log_entry, append, decode, entry, plain_entry,
}
use software_course_project.Wal.Working.{committed_entry}
use software_course_project.Recovery.{recover_entries}
use software_course_project.Storage.{
  opened, holds, no_data, set_checkpoint_log_id, batch_set_balances, JsonStore, new_json_store,
  get_balance as stored_balance, get_checkpoint_log_id,
}
use software_course_project.Server.Accounts.{checkpoint_in, checkpoint}
use software_course_project.Server.Checkpoint.{checkpoint-new_json_store}
use software_course_project.Server.State.{
  replicate_if_set, set_txn_state, get_txn_state, ShardServer,
}
use software_course_project.Server.Single.{
  commit_leg, apply_leg, credit_leg, debit_leg, validate_leg, execute_single_shard, result_of,
}
use software_course_project.Server.TwoPhase.{commit_transaction}
use software_course_project.Server.Conservation.{execute_single_shard_conserves}
use software_course_project.Server.Idempotence.{execute_single_shard_twice}
use software_course_project.Server.Runs.{IsDurable}
use software_course_project.Int64.{wrap64, sub64}

-- The log of a shard that was started with two accounts.
abbrev opening : List WalEntry
opening =
    plain_entry 0 "__init__" op_create_account "alice" (pos 100)
    ∷ plain_entry 1 "__init__" op_create_account "bob" (pos 50)
    ∷ committed_entry 2 "__init__"
    ∷ []

abbrev pub opening_ledger : Ledger
opening_ledger = record { balances = ("alice", pos 100) ∷ ("bob", pos 50) ∷ [] }

abbrev pub opening_shard : ShardServer
opening_shard = record {
  shard_id = "shard1";
  wal_log = record {
    fits = λ e. true;
    lines =
        entry (plain_entry 0 "__init__" op_create_account "alice" (pos 100))
        ∷ entry (plain_entry 1 "__init__" op_create_account "bob" (pos 50))
        ∷ entry (committed_entry 2 "__init__")
        ∷ [];
    next_log_id = 3;
    writer_failed = false;
    disk = [];
  };
  ledger = opening_ledger;
  store = none;
  replicator = none;
  part_mgr = none;
  mapper = none;
  role = primary;
  seen_txns = ("__init__", committed) ∷ [];
  committed_count = pos 0;
  aborted_count = pos 0;
  prepared_count = pos 0;
  recent_txns = [];
  follower_count = pos 0;
}

every-IsShort : (txn : Transaction) → IsShort (λ e. true) txn
every-IsShort txn = record {
  debit_fits = λ n. refl;
  credit_fits = λ n. refl;
  commit_fits = λ n. refl;
  abort_fits = λ n. refl;
}

abbrev pub pay : String → ℤ → Transaction
pay txn_id amount = record {
  txn_id = txn_id;
  source = "alice";
  destination = "bob";
  amount = amount;
  state = pending;
}

only_init : (t : String) → lookup t opening_shard.seen_txns ≡ none → (t == "__init__") ≡ false
unfolding lookup
only_init t unseen = ground arith

opening-IsDurable : IsDurable opening_shard
unfolding decode recover_entries lookup insert contains set_balance
opening-IsDurable = record {
  entries = opening;
  recoverable = record {
    holds = record { decodes = refl; working = refl };
    remembered = λ t unseen. let other = only_init t unseen in (other, (other, (other, tt)));
    agrees = λ k. refl;
  };
  alone = record {
    working = record { no_failures = refl; not_failed = refl };
    no_replicator = refl;
  };
}

pub opening-IsSound : IsSound opening_ledger
unfolding ◌+ℤ◌
opening-IsSound = record { no_negative = omega arith; bounded = omega arith }

execute_single_shard_conserves_example :
    total_balance (execute_single_shard (pay "t1" (pos 30)) opening_shard).1.ledger
    ≡ total_balance opening_ledger
execute_single_shard_conserves_example =
    execute_single_shard_conserves (pay "t1" (pos 30)) opening_shard

abbrev after_t1 : ShardServer
after_t1 = (execute_single_shard (pay "t1" (pos 30)) opening_shard).1

execute_single_shard_twice_example :
    execute_single_shard (pay "t1" (pos 30)) after_t1
    ≡ (ok (result_of (pay "t1" (pos 30)) committed already_processed), after_t1)
unfolding execute_single_shard get_txn_state lookup validate_leg validate_debit set_txn_state
    debit_leg append log_entry write_entry replicate_if_set credit_leg apply_leg apply_transfer
    commit_leg mark_committed
execute_single_shard_twice_example =
    execute_single_shard_twice (pay "t1" (pos 30)) opening_shard
      (result_of (pay "t1" (pos 30)) committed success) after_t1 refl

abbrev after_c1 : ShardServer
after_c1 = (commit_transaction "c1" op_credit "bob" (pos 30) opening_shard).1

abbrev stored_shard : ShardServer
stored_shard = record opening_shard { store = some (opened no_data []) }

abbrev checkpointed_store : JsonStore
checkpointed_store = record {
  current = record { balances = opening_ledger.balances; checkpoint_log_id = 3 };
  saved = record { balances = opening_ledger.balances; checkpoint_log_id = 3 };
  saves = [];
}

checkpoint-new_json_store_example :
    let reopened = opened checkpointed_store.saved [] in
    (new_json_store (holds checkpointed_store.saved) [] ≡ ok reopened)
    × (stored_balance reopened "bob" ≡ get_balance opening_ledger "bob")
    × (get_checkpoint_log_id reopened ≡ 3)
    × ((checkpoint stored_shard).1.ledger ≡ opening_ledger)
unfolding lookup checkpoint checkpoint_in batch_set_balances new_json_store write_checkpoint
    log_entry write_entry set_checkpoint_log_id copy_balances snapshot insert
checkpoint-new_json_store_example =
    checkpoint-new_json_store stored_shard "bob" (refl, (refl, tt)) (checkpoint stored_shard).1
      checkpointed_store [] refl refl

abbrev two_accounts : Dict String ℤ
two_accounts = ("alice", pos 100) ∷ ("bob", pos 50) ∷ []

two_accounts-IsMap : IsMap two_accounts
unfolding lookup
two_accounts-IsMap = (refl, (refl, tt))

-- A payment, a stop, the payment again, and one that is not covered.
serve_from_start_example :
    ServesFromStart
      (λ e. true)
      "shard1"
      two_accounts
      (arrives (pay "t1" (pos 30))
        ∷ restarts
        ∷ arrives (pay "t1" (pos 30))
        ∷ arrives (pay "t2" (pos 500))
        ∷ [])
serve_from_start_example =
    serve_from_start (λ e. true) "shard1" two_accounts
      (arrives (pay "t1" (pos 30))
        ∷ restarts
        ∷ arrives (pay "t1" (pos 30))
        ∷ arrives (pay "t2" (pos 500))
        ∷ [])
      two_accounts-IsMap (refl, (refl, (refl, tt)))
      (
        every-IsShort (pay "t1" (pos 30)),
        (every-IsShort (pay "t1" (pos 30)), (every-IsShort (pay "t2" (pos 500)), tt)),
      )

bank_answers :
    (bank_run
      (arrives (pay "t1" (pos 30))
        ∷ restarts
        ∷ arrives (pay "t1" (pos 30))
        ∷ arrives (pay "t2" (pos 500))
        ∷ [])
      (opening_bank two_accounts)).0
    ≡ committed ∷ committed ∷ aborted ∷ []
unfolding bank_run submit lookup sub64 wrap64 ◌-ℤ◌
bank_answers = refl

prepared_debit-IsLost_example : IsLost "x1" "alice" (pos 30) opening_shard
unfolding lookup
prepared_debit-IsLost_example =
    prepared_debit-IsLost "x1" "alice" (pos 30) opening_shard opening-IsDurable refl
      (record { held = pos 100; known = refl; positive = omega arith; covered = omega arith }) refl
