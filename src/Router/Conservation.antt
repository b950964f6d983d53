-- ===== src/Router/Conservation.antt =====
-- The money of the whole system over one transaction, whichever shards it concerns.
use software_course_project.Prelude.{
  ==_iff, ℕ, ◌≡◌, ◌∙◌, refl, sym, ap, inl, inr, true, false, List, String, string_eq, ok, ◌==◌,
  Bool-cases, Result-cases, arith,
}
use software_course_project.Prelude.Int.{ℤ, ◌+ℤ◌, ◌-ℤ◌, ◌≤ℤ◌, int_laws}
use software_course_project.Int64.{max_int64}
use software_course_project.Ledger.Funds.{sum, IsSound, total_balance-eq-sum}
use software_course_project.Model.{Transaction}
use software_course_project.Recovery.Ended.{listed}
use software_course_project.Server.State.{ShardServer}
use software_course_project.Server.Single.{execute_single_shard}
use software_course_project.Server.Conservation.{
  execute_single_shard_conserves, execute_single_shard-IsSound,
}
use software_course_project.ShardMap.{ShardInfo, get_shard_for_account}
use software_course_project.TwoPc.{Shards, call_for, execute}
use software_course_project.TwoPc.Atomic.{reliable, IsReady, execute_conserves}
use software_course_project.Router.{
  Router, Cluster, replace, execute_on_one, execute_cross_shard, route,
}
use software_course_project.Router.Total.{
  holdings, total, NoRepeats, AllSound, AllSound-at, total-replace, pair-le-total,
}

-- The shard behind the account, as the map has it.
abbrev pub Resolves : (String → List ℕ) → Router → String → ShardInfo → Type 0
Resolves sha256 router account shard =
    get_shard_for_account sha256 router.shard_map account router.mapper ≡ ok shard

-- The system at rest: these addresses are those of the map, one for each shard; nothing is lost on
-- the way; no shard has seen the transaction; every disk works; and no balance is negative, with
-- all of them together within 64 bits.
pub record AtRest (sha256 : String → List ℕ) (router : Router) (txn : Transaction)
    (us : List String) (c : Cluster) : Type 0 where
  pub once : NoRepeats us
  pub known :
      (account : String) (shard : ShardInfo)
      → Resolves sha256 router account shard
      → listed shard.address us ≡ true
  pub apart :
      (account account' : String) (shard shard' : ShardInfo)
      → Resolves sha256 router account shard
      → Resolves sha256 router account' shard'
      → (shard.shard_id == shard'.shard_id) ≡ false
      → (shard.address == shard'.address) ≡ false
  pub calm : (a : String) → listed a us ≡ true → c a ≡ reliable (c a).server
  pub ready : (a : String) → listed a us ≡ true → IsReady txn.txn_id (c a).server
  pub sound : AllSound us c
  pub bounded : total us c ≤ℤ max_int64

sum-execute_single_shard :
    (txn : Transaction) (s : ShardServer)
    → IsSound s.ledger
    → sum (execute_single_shard txn s).1.ledger.balances ≡ sum s.ledger.balances
sum-execute_single_shard txn s h =
    sym (
      total_balance-eq-sum (execute_single_shard txn s).1.ledger
        (execute_single_shard-IsSound txn s h))
    ∙ execute_single_shard_conserves txn s
    ∙ total_balance-eq-sum s.ledger h

-- Two changes that leave the sum of their parts leave the total.
regroup : (t a s b d : ℤ) → s +ℤ d ≡ a +ℤ b → t -ℤ a +ℤ s -ℤ b +ℤ d ≡ t
regroup t a s b d same =
    let parts : t -ℤ a +ℤ s -ℤ b +ℤ d ≡ t -ℤ (a +ℤ b) +ℤ (s +ℤ d) = omega int_laws in
    parts ∙ rw same (omega int_laws)

call_for-reliable :
    (txn : Transaction) (s : ShardServer)
    → holdings (call_for (execute_single_shard txn) (reliable s)).1
      ≡ sum (execute_single_shard txn s).1.ledger.balances
unfolding call_for
call_for-reliable txn s = refl

module _ (sha256 : String → List ℕ) (router : Router) (txn : Transaction) (us : List String)
    (c : Cluster) (h : AtRest sha256 router txn us c) where
  one_conserves :
      (shard : ShardInfo)
      → listed shard.address us ≡ true
      → total us (execute_on_one txn shard c).1 ≡ total us c
  unfolding execute_on_one
  one_conserves shard there =
      let r = (call_for (execute_single_shard txn) (c shard.address)).1 in
      let s = (c shard.address).server in
      let kept : holdings r ≡ holdings (c shard.address) =
        ap (λ x. holdings (call_for (execute_single_shard txn) x).1) (h.calm shard.address there)
        ∙ call_for-reliable txn s
        ∙ sum-execute_single_shard txn s (AllSound-at us c shard.address h.sound there) in
      total-replace us shard.address r c h.once there ∙ rw kept (omega int_laws)

  -- What the two shards hold after the two-phase commit.
  both_conserve :
      (x y : String)
      → listed x us ≡ true
      → listed y us ≡ true
      → (x == y) ≡ false
      → let (r, (s, d)) = execute txn (c x, c y) in
        holdings s +ℤ holdings d ≡ holdings (c x) +ℤ holdings (c y)
  both_conserve x y hx hy apart =
      let s = (c x).server in
      let d = (c y).server in
      let calm : Path Shards (c x, c y) (reliable s, reliable d) =
        λ i. (h.calm x hx i, h.calm y hy i) in
      ap (λ p. holdings (execute txn p).1.0 +ℤ holdings (execute txn p).1.1) calm
      ∙ execute_conserves txn s d (h.ready x hx) (h.ready y hy) (AllSound-at us c x h.sound hx)
          (AllSound-at us c y h.sound hy)
          (omega (int_laws, pair-le-total us c x y h.sound hx hy apart, h.bounded))

  cross_conserves :
      (src dst : ShardInfo)
      → listed src.address us ≡ true
      → listed dst.address us ≡ true
      → (src.address == dst.address) ≡ false
      → total us (execute_cross_shard txn src dst c).1 ≡ total us c
  unfolding execute_cross_shard
  cross_conserves src dst hs hd apart =
      let p = (execute txn (c src.address, c dst.address)).1 in
      let away : (dst.address == src.address) ≡ false =
        ground (arith, ==_iff src.address dst.address, ==_iff dst.address src.address) in
      total-replace us dst.address p.1 (replace src.address p.0 c) h.once hd
      ∙ rw (total-replace us src.address p.0 c h.once hs, away)
          (regroup (total us c) _ _ _ _ (both_conserve src.address dst.address hs hd apart))

  -- Money is neither made nor lost in the system: from rest, routing any transaction, whether both
  -- accounts are on one shard, on two, or on none that the map knows, and whatever the answer,
  -- leaves the sum of all balances of all shards as it was.
  pub route_conserves : total us (route sha256 router txn c).1 ≡ total us c
  unfolding route
  route_conserves =
      elim (Result-cases (get_shard_for_account sha256 router.shard_map txn.source router.mapper)) [
        | inr (e, unknown) ↦ rw (unknown, route) refl
        | inl (src, found) ↦
            elim (Result-cases
              (get_shard_for_account sha256 router.shard_map txn.destination router.mapper)) [
                | inr (e, unknown) ↦ rw (found, route, unknown) refl
                | inl (dst, found') ↦ elim (Bool-cases (src.shard_id == dst.shard_id)) [
                  | inl same ↦
                      rw (found, route, found', same)
                        (one_conserves src (h.known txn.source src found))
                  | inr other ↦
                      rw (found, route, found', other)
                        (cross_conserves src dst (h.known txn.source src found)
                          (h.known txn.destination dst found')
                          (h.apart txn.source txn.destination src dst found found' other))
                ]
              ]
      ]
