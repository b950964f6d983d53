-- ===== src/Failover/Election.antt =====
-- Who wins an election, and what the shard map then says.
use mathlib.Core.Path.{subst}
use software_course_project.Prelude.{
  ◌⊎◌, ℕ, ◌≤◌, ◌≡◌, ◌∙◌, refl, sym, ap, Bool, true, false, ◌||◌, Option, none, some, List, [], ◌∷◌,
  String, string_eq, ok, if◌then◌else◌, ◌==◌, ==_iff, All, arith, ltb, Bool-cases, inl, inr,
}
use software_course_project.Prelude.Int.{ℤ, int_eq}
use software_course_project.Dict.{Dict, lookup, insert, IsMap}
use software_course_project.Dict.Laws.{lookup-insert}
use software_course_project.ShardMap.{
  ShardInfo, ShardMap, save, update_partition, partitions_in, get_partitions_for_shard,
}
use software_course_project.Failover.{
  Candidate, candidates_of, best_of, update_all, new_primary, promote_best, elect_among,
  trigger_election,
}

-- Nobody in the list has a longer log.
abbrev pub Beats : Candidate → List Candidate → Type 0
Beats best = All (λ c. c.log_index ≤ best.log_index)

-- The replica answered, with this log index.
abbrev pub Answered : Candidate → List (String × Option ℕ) → Type 0
Answered best [] = ⊥
Answered best ((addr, answer) ∷ rest) =
    ((addr ≡ best.addr) × (answer ≡ some best.log_index)) ⊎ Answered best rest

-- The candidate is one of these.
abbrev Among : Candidate → List Candidate → Type 0
Among best [] = ⊥
Among best (c ∷ rest) = (c ≡ best) ⊎ Among best rest

Answered-candidates_of :
    (best : Candidate) (replicas : List (String × Option ℕ))
    → Among best (candidates_of replicas)
    → Answered best replicas
unfolding candidates_of
Answered-candidates_of best [] h = h
Answered-candidates_of best ((addr, none) ∷ rest) h = inr (Answered-candidates_of best rest h)
Answered-candidates_of best ((addr, some log_index) ∷ rest) (inl same) =
    inl (ap (λ c. c.addr) same, ap (λ c. some c.log_index) same)
Answered-candidates_of best ((addr, some log_index) ∷ rest) (inr later) =
    inr (Answered-candidates_of best rest later)

best_of-start :
    (best : Candidate) (rest : List Candidate) → best.log_index ≤ (best_of best rest).log_index
unfolding best_of
best_of-start best [] = omega arith
best_of-start best (c ∷ rest) = ground (arith, best_of-start c rest, best_of-start best rest)

ltb_lt : (a b : ℕ) → ltb a b ≡ true → a ≤ b
ltb_lt a b h = ground arith

ltb_ge : (a b : ℕ) → ltb a b ≡ false → b ≤ a
ltb_ge a b h = ground arith

module _ (best c : Candidate) (rest : List Candidate) where
  best_of_longer : ltb best.log_index c.log_index ≡ true → best_of best (c ∷ rest) ≡ best_of c rest
  unfolding best_of
  best_of_longer longer = rw longer

  best_of_other :
      ltb best.log_index c.log_index ≡ false → best_of best (c ∷ rest) ≡ best_of best rest
  unfolding best_of
  best_of_other other = rw other

best_of-Beats : (best : Candidate) (rest : List Candidate) → Beats (best_of best rest) (best ∷ rest)
best_of-Beats best [] = (best_of-start best [], tt)
best_of-Beats best (c ∷ rest) = elim (Bool-cases (ltb best.log_index c.log_index)) [
  | inl longer ↦
      subst (λ b. Beats b (best ∷ c ∷ rest)) (sym (best_of_longer best c rest longer))
        (
          omega (arith, ltb_lt best.log_index c.log_index longer, best_of-start c rest),
          best_of-Beats c rest,
        )
  | inr other ↦
      let b = best_of-Beats best rest in
      subst (λ b. Beats b (best ∷ c ∷ rest)) (sym (best_of_other best c rest other))
        (b.0, (omega (arith, ltb_ge best.log_index c.log_index other, b.0), b.1))
]

best_of-Among : (best : Candidate) (rest : List Candidate) → Among (best_of best rest) (best ∷ rest)
unfolding best_of
best_of-Among best [] = inl refl
best_of-Among best (c ∷ rest) = elim (Bool-cases (ltb best.log_index c.log_index)) [
  | inl longer ↦
      subst (λ b. Among b (best ∷ c ∷ rest)) (sym (best_of_longer best c rest longer))
        (inr (best_of-Among c rest))
  | inr other ↦
      subst (λ b. Among b (best ∷ c ∷ rest)) (sym (best_of_other best c rest other))
        (elim (best_of-Among best rest) [ inl same ↦ inl same | inr later ↦ inr (inr later) ])
]

-- Does the list hold the partition?
abbrev listed : ℤ → List ℤ → Bool
listed q [] = false
listed q (id ∷ ids) = q == id || listed q ids

partitions-update_partition :
    (m : ShardMap) (id : ℤ) (info : ShardInfo)
    → (update_partition m id info).1.partitions ≡ insert id info m.partitions
unfolding update_partition save
partitions-update_partition m id info = ground arith

lookup-update_all :
    (info : ShardInfo) (ids : List ℤ) (m : ShardMap) (q : ℤ)
    → lookup q (update_all info ids m).partitions
      ≡ (if listed q ids then some info else lookup q m.partitions)
unfolding update_all update_partition save
lookup-update_all info [] m q = refl
lookup-update_all info (id ∷ ids) m q =
    rw
      (
        lookup-update_all info ids (update_partition m id info).1 q,
        partitions-update_partition m id info,
        lookup-insert q id info m.partitions,
      )
      (ground arith)

abbrev pub is_of : String → Option ShardInfo → Bool
is_of shard_id none = false
is_of shard_id (some info) = info.shard_id == shard_id

listed-partitions_in :
    (shard_id : String) (d : Dict ℤ ShardInfo) (q : ℤ)
    → IsMap d
    → listed q (partitions_in shard_id d) ≡ is_of shard_id (lookup q d)
unfolding partitions_in lookup
listed-partitions_in shard_id [] q h = refl
listed-partitions_in shard_id ((id, info) ∷ d) q h =
    ground (arith, listed-partitions_in shard_id d q h.1, ==_iff q id)

module _ (shard_id : String) (promotes : String → Bool) (m m' : ShardMap) (best : Candidate) where
  promoted :
      (b : Candidate)
      → promote_best shard_id b promotes m ≡ (ok best, m')
      → (b ≡ best)
        × (update_all (new_primary shard_id b) (get_partitions_for_shard m shard_id) m ≡ m')
  unfolding promote_best
  promoted b done = ground arith

  reassigned :
      (q : ℤ)
      → IsMap m.partitions
      → lookup q
          (update_all
            (new_primary shard_id best)
            (get_partitions_for_shard m shard_id)
            m).partitions
        ≡ (if is_of shard_id (lookup q m.partitions)
            then some (new_primary shard_id best)
            else lookup q m.partitions)
  unfolding get_partitions_for_shard
  reassigned q h = rw (
    lookup-update_all (new_primary shard_id best) (partitions_in shard_id m.partitions) m q,
    listed-partitions_in shard_id m.partitions q h,
  )

  elected :
      (cs : List Candidate) (q : ℤ)
      → IsMap m.partitions
      → elect_among shard_id cs promotes m ≡ (ok best, m')
      → Among best cs
        × Beats best cs
        × (lookup q m'.partitions ≡ (
            if is_of shard_id (lookup q m.partitions)
            then some (new_primary shard_id best)
            else lookup q m.partitions))
  unfolding elect_among
  elected [] q h done = absurd (ground arith)
  elected (first ∷ rest) q h done =
      let (same, after) = promoted (best_of first rest) done in
      (
        subst (λ b. Among b (first ∷ rest)) same (best_of-Among first rest),
        subst (λ b. Beats b (first ∷ rest)) same (best_of-Beats first rest),
        ap (λ x. lookup q x.partitions)
              (sym after
                ∙ ap
                    (λ b.
                      update_all (new_primary shard_id b) (get_partitions_for_shard m shard_id) m)
                    same)
            ∙ reassigned q h,
      )

-- An election that succeeds is won by one of the replicas that answered, with the log index of its
-- answer, which is at least that of every replica that answered, and then the shard map gives exactly the partitions of the shard to the
-- winner, and every other partition to the shard of before, also where the map cannot be saved.
pub trigger_election-Beats :
    (shard_id : String) (replicas : List (String × Option ℕ)) (promotes : String → Bool)
    (m m' : ShardMap) (best : Candidate) (q : ℤ)
    → IsMap m.partitions
    → trigger_election shard_id replicas promotes m ≡ (ok best, m')
    → Answered best replicas
      × Beats best (candidates_of replicas)
      × (lookup q m'.partitions ≡ (
          if is_of shard_id (lookup q m.partitions)
          then some (new_primary shard_id best)
          else lookup q m.partitions))
unfolding trigger_election
trigger_election-Beats shard_id replicas promotes m m' best q h done =
    let (among, beats, routes) =
      elected shard_id promotes m m' best (candidates_of replicas) q h done in
    (Answered-candidates_of best replicas among, beats, routes)
