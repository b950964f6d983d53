-- ===== src/Seed/Run.antt =====
-- A whole run of the seeding command.
use software_course_project.Prelude.{
  ◌⊎◌, ℕ, ◌+◌, ◌≤◌, ◌≡◌, ◌∙◌, refl, sym, ap, inl, inr, true, false, some, List, [], ◌∷◌, String,
  string_eq, Result, ok, err, arith, ◌==◌, ==_iff, Bool-cases, Result-cases, All,
}
use mathlib.Core.Path.{subst}
use software_course_project.Prelude.Int.{ℤ}
use software_course_project.Dict.{contains}
use software_course_project.Ledger.{Ledger, account_exists}
use software_course_project.Hash.{PartitionMapper}
use software_course_project.ShardMap.{ShardMapError, ShardInfo, ShardMap, get_shard_for_account}
use software_course_project.Http.{Decoders}
use software_course_project.TwoPc.{Remote}
use software_course_project.Router.{Cluster, replace}
use software_course_project.Seed.{
  no_shard, SeedError, nothing_sent, rewrite_shard_addr, seed_account, counted, seed_one, seed_all,
  seed_run,
}
use software_course_project.Seed.Grown.{Grown}
use software_course_project.Seed.Accounts.{Exists, Good, rounds_over}

Grown-Exists :
    (id : String) (balance : ℤ) (k : String) (l l' : Ledger)
    → Grown id balance l l'
    → account_exists l k ≡ true
    → account_exists l' k ≡ true
unfolding account_exists contains
Grown-Exists id balance k l l' g known = elim (Bool-cases (k == id)) [
  | inr other ↦ let kept = g.others k other in ground arith
  | inl same ↦
      let e : k ≡ id = (==_iff k id).0 same in
      let before : account_exists l id ≡ true = subst (λ x. account_exists l x ≡ true) e known in
      let after : account_exists l' id ≡ true = elim g.own [
        | inl kept ↦ ground arith
        | inr (missing, held) ↦ ground arith
      ] in
      subst (λ x. account_exists l' x ≡ true) (sym e) after
]

module _ (sha256 : String → List ℕ) (create_id : String → String) (decode : Decoders) (m : ShardMap)
    (mapper : PartitionMapper) (host : String) (body : String → String) (balance : ℤ)
    (max_retries : ℕ) where
  -- The shards read the body of the account's request as it was meant, and the account has a name.
  abbrev pub IsReadable : String → Type 0
  IsReadable account =
      (decode.account (body account) ≡ some (account, balance)) × ((account == "") ≡ false)

  -- The account is on the shard that the map gives.
  abbrev pub IsPlaced : Cluster → String → Type 0
  IsPlaced c account =
      (info : ShardInfo) × (get_shard_for_account sha256 m account mapper ≡ ok info)
      × Exists account (c (rewrite_shard_addr info.address host)).server

  abbrev one : String → Cluster → Result SeedError (Unit {0}) × Cluster
  one = seed_one sha256 create_id decode m mapper host body max_retries

  one-Good :
      (account : String) (r : Remote)
      → IsReadable account
      → Good account balance r.server.ledger
          (seed_account sha256 create_id decode (body account) max_retries r)
  unfolding seed_account
  one-Good account r (reads, named) =
      rounds_over sha256 create_id decode (body account) account balance reads named max_retries
        nothing_sent r.server r.network

  seed_one_at :
      (account : String) (c : Cluster) (info : ShardInfo)
      → get_shard_for_account sha256 m account mapper ≡ ok info
      → one account c ≡ (
        (seed_account sha256 create_id decode
            (body account)
            max_retries
            (c (rewrite_shard_addr info.address host))).0,
        replace
            (rewrite_shard_addr info.address host)
            (seed_account sha256 create_id decode
              (body account)
              max_retries
              (c (rewrite_shard_addr info.address host))).1
            c,
      )
  unfolding seed_one
  seed_one_at account c info found = rw (found, seed_one) refl

  seed_one_lost :
      (account : String) (c : Cluster) {e : ShardMapError}
      → get_shard_for_account sha256 m account mapper ≡ err e
      → one account c ≡ (err (no_shard e), c)
  unfolding seed_one
  seed_one_lost account c lost = rw (lost, seed_one) refl

  seed_one_keeps :
      (account k address : String) (c : Cluster)
      → IsReadable account
      → Exists k (c address).server
      → Exists k ((one account c).1 address).server
  seed_one_keeps account k address c readable known =
      elim (Result-cases (get_shard_for_account sha256 m account mapper)) [
        | inr (e, lost) ↦
            subst (λ q. Exists k (q.1 address).server) (sym (seed_one_lost account c lost)) known
        | inl (info, found) ↦
            let target = rewrite_shard_addr info.address host in
            let r = c target in
            subst (λ q. Exists k (q.1 address).server) (sym (seed_one_at account c info found))
              (elim (Bool-cases (address == target)) [
                | inr other ↦ rw other known
                | inl same ↦
                    let e : address ≡ target = (==_iff address target).0 same in
                    rw same (
                      Grown-Exists account balance k r.server.ledger _
                        (one-Good account r readable).0
                        (subst (λ a. Exists k (c a).server) e known))
              ])
      ]

  seed_one-IsPlaced :
      (account : String) (c : Cluster)
      → IsReadable account
      → (one account c).0 ≡ ok tt
      → IsPlaced (one account c).1 account
  seed_one-IsPlaced account c readable done =
      elim (Result-cases (get_shard_for_account sha256 m account mapper)) [
        | inr (e, lost) ↦
            let failed : err (no_shard e) ≡ ok tt =
              sym (ap (λ q. q.0) (seed_one_lost account c lost)) ∙ done in
            absurd (cc)
        | inl (info, found) ↦
            let target = rewrite_shard_addr info.address host in
            let at = seed_one_at account c info found in
            let known = (one-Good account (c target) readable).1 (sym (ap (λ q. q.0) at) ∙ done) in
            (
              info,
              found,
              subst (λ q. Exists account (q.1 target).server) (sym at)
                  (rw ((==_iff target target).1 refl) known),
            )
      ]

  IsPlaced-seed_one :
      (account k : String) (c : Cluster)
      → IsReadable account
      → IsPlaced c k
      → IsPlaced (one account c).1 k
  IsPlaced-seed_one account k c readable (info, found, known) = (
    info,
    found,
    seed_one_keeps account k (rewrite_shard_addr info.address host) c readable known,
  )

  abbrev all : List String → (ℕ × ℕ) × Cluster → (ℕ × ℕ) × Cluster
  all = seed_all sha256 create_id decode m mapper host body max_retries

  IsPlaced-seed_all :
      (k : String) (accounts : List String) (counts : ℕ × ℕ) (c : Cluster)
      → All IsReadable accounts
      → IsPlaced c k
      → IsPlaced (all accounts (counts, c)).1 k
  unfolding seed_all
  IsPlaced-seed_all k [] counts c readable placed = placed
  IsPlaced-seed_all k (account ∷ rest) counts c readable placed =
      let (answer, c') = one account c in
      IsPlaced-seed_all k rest (counted answer counts) c' readable.1
        (IsPlaced-seed_one account k c readable.0 placed)

  counted-fail :
      (answer : Result SeedError (Unit {0})) (counts : ℕ × ℕ)
      → ((answer ≡ ok tt) × ((counted answer counts).1 ≡ counts.1))
        ⊎ ((counted answer counts).1 ≡ counts.1 + 1)
  counted-fail (ok _) (success, fail) = inl (refl, refl)
  counted-fail (err e) (success, fail) = inr refl

  fail-seed_all :
      (accounts : List String) (counts : ℕ × ℕ) (c : Cluster)
      → counts.1 ≤ (all accounts (counts, c)).0.1
  unfolding seed_all
  fail-seed_all [] counts c = omega arith
  fail-seed_all (account ∷ rest) counts c =
      let (answer, c') = one account c in
      let later = fail-seed_all rest (counted answer counts) c' in
      elim (counted-fail answer counts) [
        | inl (done, same) ↦ omega (arith, later, same)
        | inr more ↦ omega (arith, later, more)
      ]

  all-IsPlaced :
      (accounts : List String) (counts : ℕ × ℕ) (c : Cluster)
      → All IsReadable accounts
      → (all accounts (counts, c)).0.1 ≡ 0
      → All (IsPlaced (all accounts (counts, c)).1) accounts
  unfolding seed_all
  all-IsPlaced [] counts c readable clean = tt
  all-IsPlaced (account ∷ rest) counts c readable clean =
      let (answer, c') = one account c in
      let later = fail-seed_all rest (counted answer counts) c' in
      elim (counted-fail answer counts) [
        | inr more ↦ absurd (omega (arith, later, more))
        | inl (done, same) ↦ (
          IsPlaced-seed_all account rest (counted answer counts) c' readable.1
              (seed_one-IsPlaced account c readable.0 done),
          all-IsPlaced rest (counted answer counts) c' readable.1 clean,
        )
      ]

  -- Where the shards read back the bodies of the requests and every account has a name, a run of the
  -- command that exits with 0 has put every account of its list on the shard that the map gives for
  -- it, whatever the order of the accounts, over any network and on any disks.
  pub seed_run-IsPlaced :
      (accounts : List String) (c : Cluster)
      → All IsReadable accounts
      → (seed_run sha256 create_id decode m mapper host body max_retries accounts c).0 ≡ 0
      → All
          (IsPlaced (seed_run sha256 create_id decode m mapper host body max_retries accounts c).1)
          accounts
  unfolding seed_run
  seed_run-IsPlaced accounts c readable clean =
      all-IsPlaced accounts (0, 0) c readable (ground arith)
