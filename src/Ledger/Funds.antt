-- ===== src/Ledger/Funds.antt =====
-- Sums of balances: the loop of `TotalBalance` adds modulo 2^64, and equals the exact sum where
-- the ledger is sound.
use software_course_project.Prelude.{
  ◌+◌, ◌%◌, ◌^◌, ◌≡◌, ◌∙◌, sym, ap, none, some, [], ◌∷◌, String, arith, string_eq,
}
use software_course_project.Prelude.Int.{ℤ, pos, ◌+ℤ◌, ◌≤ℤ◌, int_laws}
use software_course_project.Int64.{
  InRange, max_int64, bits, wrap64, wrap64-eq, wrap64_id, bits-wrap64, bits-sub64, wrap64-InRange,
  add64, sub64, bits-add64, add64-InRange, bits-injective, bits-+ℤ,
}
use software_course_project.Dict.{Dict, lookup, insert}
use software_course_project.Ledger.{Ledger, total_from, total_balance, subtract, add}

-- The exact sum of the balances, which reads nothing of the loop's wrap-around.
abbrev pub sum : Dict String ℤ → ℤ
sum [] = pos 0
sum ((id, bal) ∷ rest) = bal +ℤ sum rest

-- Every balance is at least 0.
abbrev pub NoNegative : Dict String ℤ → Type 0
NoNegative [] = Unit
NoNegative ((id, bal) ∷ rest) = (pos 0 ≤ℤ bal) × NoNegative rest

-- No balance is negative, and the shard holds at most 2^63 - 1 in all.
pub record IsSound (l : Ledger) : Type 0 where
  pub no_negative : NoNegative l.balances
  pub bounded : sum l.balances ≤ℤ max_int64

-- Writing over a balance that is there moves the sum by the difference.
pub sum-insert :
    (k : String) (v old : ℤ) (m : Dict String ℤ)
    → lookup k m ≡ some old
    → sum (insert k v m) +ℤ old ≡ sum m +ℤ v
unfolding lookup insert
sum-insert k v old [] e = ground arith
sum-insert k v old ((j, w) ∷ m) e = grind (int_laws, sum-insert k v old m)

pub sum-insert_new :
    (k : String) (v : ℤ) (m : Dict String ℤ) → lookup k m ≡ none → sum (insert k v m) ≡ sum m +ℤ v
unfolding lookup insert
sum-insert_new k v [] e = omega int_laws
sum-insert_new k v ((j, w) ∷ m) e = grind (int_laws, sum-insert_new k v m)

pub insert-NoNegative :
    (k : String) (v : ℤ) (m : Dict String ℤ) → NoNegative m → pos 0 ≤ℤ v → NoNegative (insert k v m)
unfolding insert
insert-NoNegative k v [] h p = (p, tt)
insert-NoNegative k v ((j, w) ∷ m) h p = ground (arith, insert-NoNegative k v m h.1 p)

pub lookup_nonneg :
    (k : String) (v : ℤ) (m : Dict String ℤ) → NoNegative m → lookup k m ≡ some v → pos 0 ≤ℤ v
unfolding lookup
lookup_nonneg k v [] h e = ground arith
lookup_nonneg k v ((j, w) ∷ m) h e = ground (arith, lookup_nonneg k v m h.1)

pub sum_nonneg : (m : Dict String ℤ) → NoNegative m → pos 0 ≤ℤ sum m
sum_nonneg [] h = omega arith
sum_nonneg ((j, w) ∷ m) h = omega (int_laws, sum_nonneg m h.1)

-- No balance is larger than the sum, if none is negative.
pub lookup-le-sum :
    (k : String) (v : ℤ) (m : Dict String ℤ) → NoNegative m → lookup k m ≡ some v → v ≤ℤ sum m
unfolding lookup
lookup-le-sum k v [] h e = ground arith
lookup-le-sum k v ((j, w) ∷ m) h e = grind (int_laws, lookup-le-sum k v m h.1, sum_nonneg m h.1)

total_from-bits :
    (acc : ℤ) (m : Dict String ℤ) → bits (total_from acc m) ≡ (bits acc + bits (sum m)) % 2 ^ 64
unfolding total_from
total_from-bits acc [] = omega arith
total_from-bits acc ((j, w) ∷ m) =
    omega (arith, total_from-bits (add64 acc w) m, bits-add64 acc w, bits-+ℤ w (sum m))

total_from-InRange : (acc : ℤ) (m : Dict String ℤ) → InRange acc → InRange (total_from acc m)
unfolding total_from
total_from-InRange acc [] h = h
total_from-InRange acc ((j, w) ∷ m) h = total_from-InRange (add64 acc w) m (add64-InRange acc w)

-- `TotalBalance` is the exact sum, wrapped to 64 bits, whatever order the map is walked in.
pub total_balance-eq-wrap64 : (l : Ledger) → total_balance l ≡ wrap64 (sum l.balances)
unfolding total_balance
total_balance-eq-wrap64 l =
    bits-injective (total_from (pos 0) l.balances) (wrap64 (sum l.balances))
      (total_from-InRange (pos 0) l.balances (omega arith)) (wrap64-InRange (sum l.balances))
      (omega (arith, total_from-bits (pos 0) l.balances, bits-wrap64 (sum l.balances)))

pub total_balance-eq-sum : (l : Ledger) → IsSound l → total_balance l ≡ sum l.balances
total_balance-eq-sum l h =
    total_balance-eq-wrap64 l
    ∙ wrap64_id (sum l.balances) (omega (arith, sum_nonneg l.balances h.no_negative))

pub total_balance-eq_of_bits :
    (l k : Ledger)
    → bits (sum l.balances) ≡ bits (sum k.balances)
    → total_balance l ≡ total_balance k
total_balance-eq_of_bits l k e =
    total_balance-eq-wrap64 l
    ∙ wrap64-eq (sum l.balances) (sum k.balances) e
    ∙ sym (total_balance-eq-wrap64 k)

module _ (id : String) (a : ℤ) (m : Dict String ℤ) {bal : ℤ} (known : lookup id m ≡ some bal) where
  pub bits-sum-subtract : (bits (sum (subtract id a m)) + bits a) % 2 ^ 64 ≡ bits (sum m)
  unfolding subtract
  bits-sum-subtract = rw known (
      omega (
        arith,
        ap bits (sum-insert id (sub64 bal a) bal m known),
        bits-+ℤ (sum (insert id (sub64 bal a) m)) bal,
        bits-+ℤ (sum m) (sub64 bal a),
        bits-sub64 bal a,
      ))

  pub bits-sum-add : bits (sum (add id a m)) ≡ (bits (sum m) + bits a) % 2 ^ 64
  unfolding add
  bits-sum-add = rw known (
      omega (
        arith,
        ap bits (sum-insert id (add64 bal a) bal m known),
        bits-+ℤ (sum (insert id (add64 bal a) m)) bal,
        bits-+ℤ (sum m) (add64 bal a),
        bits-add64 bal a,
      ))
