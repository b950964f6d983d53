-- ===== src/ShardMap/Routes.antt =====
-- Which shard an account is routed to, and what survives a restart of the coordinator.
use software_course_project.ShardMap.File.{Reloads, reloaded}
use software_course_project.Prelude.{
  Option, string_eq, ℕ, zero, suc, ◌+◌, ◌%◌, ◌≡◌, ◌∙◌, ap, Bool, ◌&&◌, some, List, [], ◌∷◌, String,
  ok, if◌then◌else◌, ◌==◌, length, leb, ltb, arith,
}
use software_course_project.Prelude.Int.{ℤ, pos, pos_part, ◌≤ℤ◌, int_eq}
use software_course_project.Int64.{max_int64}
use software_course_project.Dict.{Dict, lookup, insert}
use software_course_project.Dict.Laws.{lookup-insert}
use software_course_project.Hash.{
  PartitionMapper, new_partition_mapper, get_partition, get_partition_bounds,
}
use software_course_project.ShardMap.{
  ShardInfo, ShardMap, save, shard_at, assign, new_shard_map, get_shard, get_shard_for_account,
  update_partition,
}

-- The shard that a round-robin over the shards gives to partition `k`.
abbrev pub round_robin : ShardInfo → List ShardInfo → ℕ → ShardInfo
round_robin first rest k = shard_at first (first ∷ rest) (k % length (first ∷ rest))

lookup-assign :
    (n i k : ℕ) (first : ShardInfo) (rest : List ShardInfo) (m : Dict ℤ ShardInfo)
    → lookup (pos k) (assign n i first rest m)
      ≡ (if leb i k && ltb k (i + n) then some (round_robin first rest k) else lookup (pos k) m)
unfolding assign
lookup-assign zero i k first rest m = ground arith
lookup-assign (suc n) i k first rest m =
    rw
      (
        lookup-assign n (i + 1) k first rest
            (insert (pos i) (shard_at first (first ∷ rest) (i % length (first ∷ rest))) m),
        lookup-insert (pos k) (pos i) (shard_at first (first ∷ rest) (i % length (first ∷ rest))) m,
      )
      (ground arith)

partitions-new_shard_map :
    (first : ShardInfo) (rest : List ShardInfo) (n : ℤ) (saves : List Bool) (m : ShardMap)
    → new_shard_map (first ∷ rest) n saves ≡ ok m
    → m.partitions ≡ assign (pos_part n) 0 first rest []
unfolding new_shard_map save
partitions-new_shard_map first rest n saves m made = ground arith

-- In a new shard map with at least one shard, an account is never without a shard: whatever the
-- digest, a mapper with the map's number of partitions sends it to the shard that the round-robin
-- gives to its partition.
pub get_shard_for_account-new_shard_map :
    (sha256 : String → List ℕ) (first : ShardInfo) (rest : List ShardInfo) (n : ℤ)
    (saves : List Bool) (m : ShardMap) (mapper : PartitionMapper) (account_id : String)
    → new_shard_map (first ∷ rest) n saves ≡ ok m
    → new_partition_mapper n ≡ some mapper
    → n ≤ℤ max_int64
    → get_shard_for_account sha256 m account_id mapper
      ≡ ok (round_robin first rest (pos_part (get_partition sha256 mapper account_id)))
unfolding get_shard_for_account
get_shard_for_account-new_shard_map sha256 first rest n saves m mapper account_id made mapped
      small =
    let id = get_partition sha256 mapper account_id in
    let k = pos_part id in
    let (low, high) = get_partition_bounds sha256 n mapper account_id mapped small in
    let whole : id ≡ pos k = ground arith in
    let found : lookup id m.partitions ≡ some (round_robin first rest k) =
      ap (λ x. lookup x m.partitions) whole
      ∙ ap (λ p. lookup (pos k) p) (partitions-new_shard_map first rest n saves m made)
      ∙ lookup-assign (pos_part n) 0 k first rest []
      ∙ ground arith in
    rw (found, get_shard_for_account)

-- A reassignment that was answered without an error survives a restart, if `Sscanf` reads the numbers
-- that `Sprintf` prints: loading the file that was saved succeeds, and gives the partition its new
-- shard, and every other partition the shard of before.
pub update_partition-load_shard_map :
    (print : ℤ → String) (scan : String → Option ℤ)
    → ((k : ℤ) → scan (print k) ≡ some k)
    → (m m' : ShardMap) (id : ℤ) (shard : ShardInfo) (saves : List Bool)
    → update_partition m id shard ≡ (ok tt, m')
    → Reloads print scan m' saves (λ q. if q == id then some shard else get_shard m q)
unfolding update_partition save get_shard
update_partition-load_shard_map print scan back m m' id shard saves done =
    let kept : m'.saved ≡ insert id shard m.partitions = ground arith in
    let again = reloaded print scan back m' saves in
    record {
      after = again.after;
      loads = again.loads;
      gives = λ q. again.gives q ∙ rw kept (lookup-insert q id shard m.partitions);
    }
