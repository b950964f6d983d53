-- ===== src/Bank.antt =====
-- What a shard promises: a table of balances and a table of outcomes. A transaction that is new is
-- done whole or not at all, and one that was answered is answered again and not done again.
use software_course_project.Prelude.{
  ◌≡◌, Bool, false, not, ◌&&◌, Option, none, some, List, [], ◌∷◌, String, string_eq, ◌==◌,
  if◌then◌else◌,
}
use software_course_project.Prelude.Int.{ℤ, pos, leb_ℤ, ltb_ℤ}
use software_course_project.Int64.{add64, sub64}
use software_course_project.Model.{TransactionState, committed, aborted, Transaction}

pub record Bank : Type 0 where
  pub balance : String → Option ℤ
  pub outcome : String → Option TransactionState

-- Two banks that agree everywhere are one.
pub Bank-eq :
    (b c : Bank)
    → ((k : String) → b.balance k ≡ c.balance k)
    → ((t : String) → b.outcome t ≡ c.outcome t)
    → b ≡ c
Bank-eq b c balances outcomes =
    λ i. record { balance = λ k. balances k i; outcome = λ t. outcomes t i }

-- A table, changed at one key.
abbrev pub put {ℓ} : {V : Type ℓ} → String → V → (String → Option V) → String → Option V
put k v f j = if j == k then some v else f j

-- Are both accounts known, is the amount positive, and does the source hold it?
abbrev pub covers : ℤ → Option ℤ → Option ℤ → Bool
covers a (some held) (some received) = not (leb_ℤ a (pos 0)) && not (ltb_ℤ held a)
covers a _ _ = false

-- What an account holds; the default is never met by a transaction that is covered.
abbrev pub held_in : Option ℤ → ℤ
held_in none = pos 0
held_in (some v) = v

-- The amount leaves the source, then reaches the destination; balances are 64-bit integers.
abbrev pub moved : Transaction → (String → Option ℤ) → String → Option ℤ
moved txn f =
    let paid = put txn.source (sub64 (held_in (f txn.source)) txn.amount) f in
    put txn.destination (add64 (held_in (paid txn.destination)) txn.amount) paid

abbrev pub settled : TransactionState → Transaction → Bank → Bank
settled state txn b = record b { outcome = put txn.txn_id state b.outcome }

abbrev pub submit_new : Transaction → Bank → TransactionState × Bank
submit_new txn b =
    if covers txn.amount (b.balance txn.source) (b.balance txn.destination)
    then (committed, settled committed txn (record b { balance = moved txn b.balance }))
    else (aborted, settled aborted txn b)

unfoldable pub submit : Transaction → Bank → TransactionState × Bank
submit txn b = elim (b.outcome txn.txn_id) [ some state ↦ (state, b) | none ↦ submit_new txn b ]

-- What happens to a shard: a transaction arrives, or the process stops and is started again.
pub data Event : Type 0 where
  arrives : Transaction → Event
  restarts : Event

-- A bank does not notice a restart.
unfoldable pub bank_run : List Event → Bank → List TransactionState × Bank
bank_run [] b = ([], b)
bank_run (arrives txn ∷ rest) b =
    let (state, b') = submit txn b in let (states, end) = bank_run rest b' in (state ∷ states, end)
bank_run (restarts ∷ rest) b = bank_run rest b
