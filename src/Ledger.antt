-- ===== src/Ledger.antt =====
-- shard/ledger/ledger.go: the account balances of one shard. Every method holds the ledger's lock
-- for its whole body, so each is one function here. An error value carries what its message shows.
pub mod Funds
pub mod Exact
pub mod Transfers
pub mod Reserve
pub mod Snapshots
mod Tests
use software_course_project.Prelude.{
  ℕ, Bool, Option, none, some, [], ◌∷◌, String, Result, ok, err, string_eq, if◌then◌else◌, length,
}
use software_course_project.Prelude.Int.{ℤ, pos, ltb_ℤ, leb_ℤ}
use software_course_project.Int64.{add64, sub64}
use software_course_project.Dict.{Dict, lookup, contains, insert}

pub data LedgerError : Type 0 where
  negative_initial : String → ℤ → LedgerError
  negative_opening : LedgerError
  already_exists : String → LedgerError
  not_positive : ℤ → LedgerError
  source_not_found : String → LedgerError
  destination_not_found : String → LedgerError
  account_not_found : String → LedgerError
  insufficient_balance : String → ℤ → ℤ → LedgerError

pub record Ledger : Type 0 where
  pub balances : Dict String ℤ

-- A method that may fail returns the new ledger beside its error, as the receiver is a pointer.
abbrev pub Update : Type 0
Update = Result LedgerError (Unit {0}) × Ledger

abbrev pub new_ledger : Ledger
new_ledger = record { balances = [] }

-- The first loop of `NewLedgerWithAccounts`.
find_negative : Dict String ℤ → Option LedgerError
find_negative [] = none
find_negative ((id, bal) ∷ rest) =
    if ltb_ℤ bal (pos 0) then some (negative_initial id bal) else find_negative rest

-- The copy loop of `NewLedgerWithAccounts`, `Snapshot` and `LoadBalances`.
unfoldable pub copy_balances : Dict String ℤ → Dict String ℤ → Dict String ℤ
copy_balances [] target = target
copy_balances ((id, bal) ∷ rest) target = copy_balances rest (insert id bal target)

pub new_ledger_with_accounts : Dict String ℤ → Result LedgerError Ledger
unfolding find_negative
new_ledger_with_accounts initial = elim (find_negative initial) [
  | some e ↦ err e
  | none ↦ ok (record { balances = copy_balances initial [] })
]

unfoldable pub get_balance : Ledger → String → Option ℤ
get_balance l account_id = lookup account_id l.balances

unfoldable pub account_exists : Ledger → String → Bool
account_exists l account_id = contains account_id l.balances

unfoldable pub set_balance : Ledger → String → ℤ → Ledger
set_balance l account_id balance = record { balances = insert account_id balance l.balances }

unfoldable pub create_account : Ledger → String → ℤ → Update
create_account l account_id opening_balance =
    if ltb_ℤ opening_balance (pos 0)
    then (err negative_opening, l)
    else if contains account_id l.balances
    then (err (already_exists account_id), l)
    else (ok tt, record { balances = insert account_id opening_balance l.balances })

-- `m[k] -= amount` and `m[k] += amount`: a missing key reads as 0.
abbrev pub balance_or_zero : Option ℤ → ℤ
balance_or_zero none = pos 0
balance_or_zero (some bal) = bal

unfoldable pub subtract : String → ℤ → Dict String ℤ → Dict String ℤ
subtract id amount m = insert id (sub64 (balance_or_zero (lookup id m)) amount) m

unfoldable pub add : String → ℤ → Dict String ℤ → Dict String ℤ
add id amount m = insert id (add64 (balance_or_zero (lookup id m)) amount) m

unfoldable pub apply_transfer : Ledger → String → String → ℤ → Update
apply_transfer l source_id dest_id amount =
    if leb_ℤ amount (pos 0)
    then (err (not_positive amount), l)
    else elim (lookup source_id l.balances) [
      | none ↦ (err (source_not_found source_id), l)
      | some src_bal ↦ elim (lookup dest_id l.balances) [
        | none ↦ (err (destination_not_found dest_id), l)
        | some _ ↦
            if ltb_ℤ src_bal amount
            then (err (insufficient_balance source_id src_bal amount), l)
            else (
              ok tt,
              record { balances = add dest_id amount (subtract source_id amount l.balances) },
            )
      ]
    ]

unfoldable pub apply_debit : Ledger → String → ℤ → Update
apply_debit l account_id amount =
    if leb_ℤ amount (pos 0)
    then (err (not_positive amount), l)
    else elim (lookup account_id l.balances) [
      | none ↦ (err (account_not_found account_id), l)
      | some bal ↦
          if ltb_ℤ bal amount
          then (err (insufficient_balance account_id bal amount), l)
          else (ok tt, record { balances = subtract account_id amount l.balances })
    ]

unfoldable pub apply_credit : Ledger → String → ℤ → Update
apply_credit l account_id amount =
    if leb_ℤ amount (pos 0)
    then (err (not_positive amount), l)
    else if contains account_id l.balances
    then (ok tt, record { balances = add account_id amount l.balances })
    else (err (account_not_found account_id), l)

unfoldable pub rollback_debit : Ledger → String → ℤ → Update
rollback_debit l account_id amount =
    if leb_ℤ amount (pos 0)
    then (err (not_positive amount), l)
    else if contains account_id l.balances
    then (ok tt, record { balances = add account_id amount l.balances })
    else (err (account_not_found account_id), l)

unfoldable pub validate_debit : Ledger → String → ℤ → Result LedgerError (Unit {0})
validate_debit l account_id amount =
    if leb_ℤ amount (pos 0)
    then err (not_positive amount)
    else elim (lookup account_id l.balances) [
      | none ↦ err (account_not_found account_id)
      | some bal ↦
          if ltb_ℤ bal amount then err (insufficient_balance account_id bal amount) else ok tt
    ]

-- The loop of `TotalBalance`, which adds in the map's iteration order.
unfoldable pub total_from : ℤ → Dict String ℤ → ℤ
total_from total [] = total
total_from total ((id, bal) ∷ rest) = total_from (add64 total bal) rest

unfoldable pub total_balance : Ledger → ℤ
unfolding total_from
total_balance l = total_from (pos 0) l.balances

unfoldable pub snapshot : Ledger → Dict String ℤ
snapshot l = copy_balances l.balances []

unfoldable pub load_balances : Ledger → Dict String ℤ → Ledger
load_balances l balances = record { balances = copy_balances balances [] }

unfoldable pub account_count : Ledger → ℕ
account_count l = length l.balances
