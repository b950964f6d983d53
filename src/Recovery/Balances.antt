-- ===== src/Recovery/Balances.antt =====
-- The balances that the replay produces, account by account, against sums over the log.
use software_course_project.Prelude.{
  ◌≡◌, ◌∙◌, sym, Bool, true, false, ◌&&◌, ◌||◌, Option, none, some, List, [], ◌∷◌, String,
  string_eq, arith, ◌==◌, ==_iff, if◌then◌else◌,
}
use software_course_project.Prelude.Int.{ℤ, pos, ◌+ℤ◌, ◌-ℤ◌, int_laws}
use software_course_project.Int64.{add64, sub64, bits, bits-add64, bits-sub64, bits-+ℤ, bits--ℤ}
use software_course_project.Dict.{lookup, contains, IsMap}
use software_course_project.Dict.Laws.{lookup-insert, insert-IsMap}
use software_course_project.Ledger.{set_balance, balance_or_zero, subtract, add}
use software_course_project.Model.{OperationType, op_debit, op_credit, op_create_account, WalEntry}
use software_course_project.Recovery.{States, Replay, is_committed, replay_entry}

abbrev pub creates : OperationType → Bool
creates op_create_account = true
creates _ = false

abbrev pub moves : OperationType → Bool
moves op_debit = true
moves op_credit = true
moves _ = false

-- What an operation adds to its account.
abbrev pub signed : OperationType → ℤ → ℤ
signed op_debit a = pos 0 -ℤ a
signed op_credit a = a
signed _ a = pos 0

abbrev pub first_of : Option ℤ → Option ℤ → Option ℤ
first_of none other = other
first_of (some v) other = some v

module _ (done : String → Bool) (k : String) where
  abbrev pub concerns : (OperationType → Bool) → WalEntry → Bool
  concerns test e = k == e.account_id && (test e.op_type && done e.txn_id)

  -- The opening balance of the last committed creation of the account.
  abbrev pub created : List WalEntry → Option ℤ
  created [] = none
  created (e ∷ rest) = first_of (created rest) (if concerns creates e then some e.amount else none)

  -- A committed debit or credit names the account.
  abbrev pub touched : List WalEntry → Bool
  touched [] = false
  touched (e ∷ rest) = concerns moves e || touched rest

  -- The committed credits of the account less its committed debits, as an exact sum.
  abbrev pub net : List WalEntry → ℤ
  net [] = pos 0
  net (e ∷ rest) = (if concerns moves e then signed e.op_type e.amount else pos 0) +ℤ net rest

bits-sub64_as_sum : (d a : ℤ) → bits (sub64 d a) ≡ bits (d +ℤ (pos 0 -ℤ a))
bits-sub64_as_sum d a = omega (arith, bits-sub64 d a, bits-+ℤ d (pos 0 -ℤ a), bits--ℤ (pos 0) a)

bits-add64_as_sum : (d a : ℤ) → bits (add64 d a) ≡ bits (d +ℤ a)
bits-add64_as_sum d a = bits-add64 d a ∙ sym (bits-+ℤ d a)

pub +ℤ-zero : (x : ℤ) → x +ℤ pos 0 ≡ x
+ℤ-zero x = omega int_laws

-- What one entry does to the balance and to the accumulated change of an account.
module _ (final : States) (k : String) (e : WalEntry) where
  abbrev pub here : (OperationType → Bool) → OperationType → Bool
  here test op = k == e.account_id && (test op && is_committed (lookup e.txn_id final))

  pub lookup-replay_ledger :
      (op : OperationType) (r : Replay)
      → lookup k (replay_entry final op e r).ledger.balances
        ≡ (if here creates op then some e.amount else lookup k r.ledger.balances)
  unfolding replay_entry set_balance
  lookup-replay_ledger op_debit r = ground arith
  lookup-replay_ledger op r =
      ground (arith, lookup-insert k e.account_id e.amount r.ledger.balances, ==_iff k e.account_id)

  pub contains-replay_deltas :
      (op : OperationType) (r : Replay)
      → contains k (replay_entry final op e r).deltas ≡ here moves op || contains k r.deltas
  unfolding replay_entry contains subtract add
  contains-replay_deltas op_debit r = ground (
    arith,
    lookup-insert k e.account_id (sub64 (balance_or_zero (lookup e.account_id r.deltas)) e.amount)
        r.deltas,
    ==_iff k e.account_id,
  )
  contains-replay_deltas op_credit r = ground (
    arith,
    lookup-insert k e.account_id (add64 (balance_or_zero (lookup e.account_id r.deltas)) e.amount)
        r.deltas,
    ==_iff k e.account_id,
  )
  contains-replay_deltas op r = ground arith

  pub bits-replay_deltas :
      (op : OperationType) (r : Replay)
      → bits (balance_or_zero (lookup k (replay_entry final op e r).deltas))
        ≡ bits (
            balance_or_zero (lookup k r.deltas)
            +ℤ (if here moves op then signed op e.amount else pos 0))
  unfolding replay_entry subtract add
  bits-replay_deltas op_debit r =
      let d = balance_or_zero (lookup e.account_id r.deltas) in
      ground (
        arith,
        lookup-insert k e.account_id (sub64 d e.amount) r.deltas,
        ==_iff k e.account_id,
        bits-sub64_as_sum d e.amount,
        +ℤ-zero (balance_or_zero (lookup k r.deltas)),
      )
  bits-replay_deltas op_credit r =
      let d = balance_or_zero (lookup e.account_id r.deltas) in
      ground (
        arith,
        lookup-insert k e.account_id (add64 d e.amount) r.deltas,
        ==_iff k e.account_id,
        bits-add64_as_sum d e.amount,
        +ℤ-zero (balance_or_zero (lookup k r.deltas)),
      )
  bits-replay_deltas op r = ground (arith, +ℤ-zero (balance_or_zero (lookup k r.deltas)))

  pub replay_deltas-IsMap :
      (op : OperationType) (r : Replay) → IsMap r.deltas → IsMap (replay_entry final op e r).deltas
  unfolding replay_entry subtract add
  replay_deltas-IsMap op_debit r h = ground (
    arith,
    insert-IsMap e.account_id (sub64 (balance_or_zero (lookup e.account_id r.deltas)) e.amount)
        r.deltas h,
  )
  replay_deltas-IsMap op_credit r h = ground (
    arith,
    insert-IsMap e.account_id (add64 (balance_or_zero (lookup e.account_id r.deltas)) e.amount)
        r.deltas h,
  )
  replay_deltas-IsMap op r h = ground arith
