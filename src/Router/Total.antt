-- ===== src/Router/Total.antt =====
-- The money of the whole system over one transaction, whichever shards it concerns.
use mathlib.Core.Path.{subst}
use software_course_project.Prelude.{
  ◌≡◌, refl, sym, inl, inr, true, false, List, [], ◌∷◌, String, string_eq, arith, ◌==◌, ==_iff,
  Bool-cases,
}
use software_course_project.Prelude.Int.{ℤ, pos, ◌+ℤ◌, ◌-ℤ◌, ◌≤ℤ◌, int_laws}
use software_course_project.Ledger.Funds.{sum, IsSound, sum_nonneg}
use software_course_project.Recovery.Ended.{listed}
use software_course_project.TwoPc.{Remote}
use software_course_project.Router.{Cluster, replace}

abbrev pub holdings : Remote → ℤ
holdings r = sum r.server.ledger.balances

-- What the shards at these addresses hold in all.
abbrev pub total : List String → Cluster → ℤ
total [] c = pos 0
total (a ∷ us) c = holdings (c a) +ℤ total us c

abbrev pub NoRepeats : List String → Type 0
NoRepeats [] = Unit
NoRepeats (a ∷ us) = (listed a us ≡ false) × NoRepeats us

total-replace_absent :
    (us : List String) (a : String) (r : Remote) (c : Cluster)
    → listed a us ≡ false
    → total us (replace a r c) ≡ total us c
total-replace_absent [] a r c absent = refl
total-replace_absent (b ∷ us) a r c absent =
    let (other, later) : ((b == a) ≡ false) × (listed a us ≡ false) =
      ground (arith, ==_iff a b, ==_iff b a) in
    rw (other, total-replace_absent us a r c later) refl

pub total-replace :
    (us : List String) (a : String) (r : Remote) (c : Cluster)
    → NoRepeats us
    → listed a us ≡ true
    → total us (replace a r c) ≡ total us c -ℤ holdings (c a) +ℤ holdings r
total-replace [] a r c once there = absurd (ground arith)
total-replace (b ∷ us) a r c once there = elim (Bool-cases (a == b)) [
  | inl here ↦
      let same = (==_iff a b).0 here in
      rw (same, (==_iff b b).1 refl, total-replace_absent us b r c once.0) (omega int_laws)
  | inr other ↦
      let (later, apart) : (listed a us ≡ true) × ((b == a) ≡ false) =
        ground (arith, ==_iff a b, ==_iff b a) in
      rw (apart, total-replace us a r c once.1 later) (omega int_laws)
]

-- Each of these shards has no negative balance and holds at most 2^63 - 1.
abbrev pub AllSound : List String → Cluster → Type 0
AllSound [] c = Unit
AllSound (a ∷ us) c = IsSound (c a).server.ledger × AllSound us c

pub AllSound-at :
    (us : List String) (c : Cluster) (x : String)
    → AllSound us c
    → listed x us ≡ true
    → IsSound (c x).server.ledger
AllSound-at [] c x h there = absurd (ground arith)
AllSound-at (a ∷ us) c x h there = elim (Bool-cases (x == a)) [
  | inl here ↦ subst (λ y. IsSound (c y).server.ledger) (sym ((==_iff x a).0 here)) h.0
  | inr other ↦ AllSound-at us c x h.1 (ground arith)
]

total_nonneg : (us : List String) (c : Cluster) → AllSound us c → pos 0 ≤ℤ total us c
total_nonneg [] c h = omega arith
total_nonneg (a ∷ us) c h =
    omega (int_laws, sum_nonneg (c a).server.ledger.balances h.0.no_negative, total_nonneg us c h.1)

one-le-total :
    (us : List String) (c : Cluster) (x : String)
    → AllSound us c
    → listed x us ≡ true
    → holdings (c x) ≤ℤ total us c
one-le-total [] c x h there = absurd (ground arith)
one-le-total (a ∷ us) c x h there = elim (Bool-cases (x == a)) [
  | inl here ↦ rw ((==_iff x a).0 here) (omega (int_laws, total_nonneg us c h.1))
  | inr other ↦ omega (
    int_laws,
    sum_nonneg (c a).server.ledger.balances h.0.no_negative,
    one-le-total us c x h.1 (ground arith),
  )
]

pub pair-le-total :
    (us : List String) (c : Cluster) (x y : String)
    → AllSound us c
    → listed x us ≡ true
    → listed y us ≡ true
    → (x == y) ≡ false
    → holdings (c x) +ℤ holdings (c y) ≤ℤ total us c
pair-le-total [] c x y h hx hy other = absurd (ground arith)
pair-le-total (a ∷ us) c x y h hx hy other = elim (Bool-cases (x == a)) [
  | inl here ↦ rw ((==_iff x a).0 here) (
      omega
        (int_laws, one-le-total us c y h.1 (ground (arith, ==_iff x a, ==_iff y a, ==_iff x y))))
  | inr apart ↦ elim (Bool-cases (y == a)) [
    | inl here ↦ rw ((==_iff y a).0 here) (omega (int_laws, one-le-total us c x h.1 (ground arith)))
    | inr away ↦ omega (
      int_laws,
      sum_nonneg (c a).server.ledger.balances h.0.no_negative,
      pair-le-total us c x y h.1 (ground arith) (ground arith) other,
    )
  ]
]
