-- ===== src/Storage.antt =====
-- storage/engine.go and storage/json_store.go: the store of balances beside the log, which is kept in
-- memory and written to one JSON file. `saves` says which of the next writes of the file succeed;
-- a write that it does not mention does.
use software_course_project.Prelude.{
  ℕ, Bool, true, Option, List, [], ◌∷◌, String, string_eq, Result, ok, err, if◌then◌else◌,
}
use software_course_project.Prelude.Int.{ℤ}
use software_course_project.Dict.{Dict, lookup, insert}
use software_course_project.Ledger.{copy_balances}

pub data StorageError : Type 0 where
  persist_failed read_failed parse_failed : StorageError

pub record StoreData : Type 0 where
  pub balances : Dict String ℤ
  pub checkpoint_log_id : ℕ

-- `current` is in memory, `saved` in the file.
pub record JsonStore : Type 0 where
  pub current : StoreData
  pub saved : StoreData
  pub saves : List Bool

abbrev next_save : List Bool → Bool
next_save [] = true
next_save (b ∷ rest) = b

abbrev later_saves : List Bool → List Bool
later_saves [] = []
later_saves (b ∷ rest) = rest

-- The file is replaced by a rename, so a failed write leaves it as it was.
unfoldable pub persist : JsonStore → Result StorageError (Unit {0}) × JsonStore
persist s =
    if next_save s.saves
    then (ok tt, record s { saved = s.current; saves = later_saves s.saves })
    else (err persist_failed, record s { saves = later_saves s.saves })

-- What `NewJSONStore` finds: no file, one that cannot be read, an empty one, one that is no JSON of the
-- right form, or the data, with an empty table where the file has none.
pub data StoreFile : Type 0 where
  missing unreadable empty unparsed : StoreFile
  holds : StoreData → StoreFile

abbrev pub opened : StoreData → List Bool → JsonStore
opened file saves = record { current = file; saved = file; saves = saves }

abbrev pub no_data : StoreData
no_data = record { balances = []; checkpoint_log_id = 0 }

unfoldable pub new_json_store : StoreFile → List Bool → Result StorageError JsonStore
new_json_store missing saves = ok (opened no_data saves)
new_json_store unreadable saves = err read_failed
new_json_store empty saves = ok (opened no_data saves)
new_json_store unparsed saves = err parse_failed
new_json_store (holds file) saves = ok (opened file saves)

unfoldable pub get_balance : JsonStore → String → Option ℤ
get_balance s account_id = lookup account_id s.current.balances

unfoldable pub set_balance : JsonStore → String → ℤ → Result StorageError (Unit {0}) × JsonStore
unfolding persist
set_balance s account_id balance = persist (record s {
  current = record {
    balances = insert account_id balance s.current.balances;
    checkpoint_log_id = s.current.checkpoint_log_id;
  };
})

unfoldable pub get_all_balances : JsonStore → Dict String ℤ
get_all_balances s = copy_balances s.current.balances []

unfoldable pub batch_set_balances :
    JsonStore → Dict String ℤ → Result StorageError (Unit {0}) × JsonStore
unfolding persist
batch_set_balances s balances = persist (record s {
  current = record {
    balances = copy_balances balances [];
    checkpoint_log_id = s.current.checkpoint_log_id;
  };
})

unfoldable pub get_checkpoint_log_id : JsonStore → ℕ
get_checkpoint_log_id s = s.current.checkpoint_log_id

unfoldable pub set_checkpoint_log_id : JsonStore → ℕ → Result StorageError (Unit {0}) × JsonStore
unfolding persist
set_checkpoint_log_id s log_id =
    persist
      (record s { current = record { balances = s.current.balances; checkpoint_log_id = log_id } })
