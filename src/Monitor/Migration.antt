-- ===== src/Monitor/Migration.antt =====
-- Where the accounts of a migrated partition are looked for.
use software_course_project.ShardMap.Routes.{update_partition-load_shard_map}
use software_course_project.Prelude.{
  Option, err, Bool, Bool-cases, ℕ, ◌≡◌, ◌∙◌, refl, ap, inl, inr, some, List, ◌∷◌, String,
  string_eq, ok, arith, if◌then◌else◌, ◌==◌,
}
use software_course_project.Prelude.Int.{ℤ, int_eq}
use software_course_project.Dict.{lookup, insert}
use software_course_project.Dict.Laws.{lookup-insert}
use software_course_project.Hash.{PartitionMapper, get_partition}
use software_course_project.ShardMap.{
  ShardMapError, MapFile, holds, print_keys, file_of, load_shard_map, get_shard, ShardInfo,
  ShardMap, save, update_partition, get_partitions_for_shard, get_shard_for_account,
}
use software_course_project.Monitor.{LoadMonitor, record_migration, migrate_partition}

partitions-update_partition :
    (m : ShardMap) (id : ℤ) (shard : ShardInfo)
    → (update_partition m id shard).1.partitions ≡ insert id shard m.partitions
unfolding update_partition save
partitions-update_partition m id shard = ground arith

-- Where the map gives one partition to another shard, its accounts are looked for there.
routed_as :
    (sha256 : String → List ℕ) (mapper : PartitionMapper) (m n : ShardMap) (id : ℤ)
    (shard : ShardInfo) (account : String)
    → ((q : ℤ) → lookup q n.partitions ≡ (if q == id then some shard else lookup q m.partitions))
    → get_shard_for_account sha256 n account mapper ≡ (
        if get_partition sha256 mapper account == id
        then ok shard
        else get_shard_for_account sha256 m account mapper)
unfolding get_shard_for_account
routed_as sha256 mapper m n id shard account gives =
    let q = get_partition sha256 mapper account in
    elim (Bool-cases (q == id)) [
      | inl here ↦
          let now : lookup q n.partitions ≡ some shard =
            gives q ∙ ap (λ b. if b then some shard else lookup q m.partitions) here in
          rw (now, get_shard_for_account, here) refl
      | inr other ↦
          let now : lookup q n.partitions ≡ lookup q m.partitions =
            gives q ∙ ap (λ b. if b then some shard else lookup q m.partitions) other in
          rw (now, get_shard_for_account, other) refl
    ]

-- The map that is loaded from this file routes the accounts of partition `id` to `cool`, and all
-- others as the map `m` did.
pub record Reroutes (sha256 : String → List ℕ) (mapper : PartitionMapper) (scan : String → Option ℤ)
    (file : MapFile) (saves : List Bool) (m : ShardMap) (id : ℤ) (cool : ShardInfo) : Type 0 where
  pub after : ShardMap
  pub loads : load_shard_map scan file saves ≡ ok after
  pub routes :
      (account : String)
      → get_shard_for_account sha256 after account mapper ≡ (
          if get_partition sha256 mapper account == id
          then ok cool
          else get_shard_for_account sha256 m account mapper)

module _ (started finished : ℕ) (hot cool : ShardInfo) (m : LoadMonitor) where
  shard_map-migrate_partition :
      (id : ℤ) (rest : List ℤ)
      → get_partitions_for_shard m.shard_map hot.shard_id ≡ id ∷ rest
      → (migrate_partition started finished hot cool m).shard_map
        ≡ (update_partition m.shard_map id cool).1
  unfolding migrate_partition record_migration
  shard_map-migrate_partition id rest first = rw (first, migrate_partition) refl

  module _ (sha256 : String → List ℕ) (mapper : PartitionMapper) where
    -- In the monitor's own map, every account of the migrated partition is on the cool shard, and
    -- every other account where it was before.
    pub get_shard_for_account-migrate_partition :
        (id : ℤ) (rest : List ℤ) (account : String)
        → get_partitions_for_shard m.shard_map hot.shard_id ≡ id ∷ rest
        → get_shard_for_account sha256
            (migrate_partition started finished hot cool m).shard_map
            account
            mapper
          ≡ (if get_partition sha256 mapper account == id
              then ok cool
              else get_shard_for_account sha256 m.shard_map account mapper)
    get_shard_for_account-migrate_partition id rest account first =
        let gives : (q : ℤ)
            → lookup q (update_partition m.shard_map id cool).1.partitions
              ≡ (if q == id then some cool else lookup q m.shard_map.partitions) =
          λ q.
            ap (lookup q) (partitions-update_partition m.shard_map id cool)
            ∙ lookup-insert q id cool m.shard_map.partitions in
        rw (shard_map-migrate_partition id rest first) (
          routed_as sha256 mapper m.shard_map (update_partition m.shard_map id cool).1 id cool
            account gives)

  module _ (sha256 : String → List ℕ) (mapper : PartitionMapper) (print : ℤ → String)
      (scan : String → Option ℤ) (back : (k : ℤ) → scan (print k) ≡ some k) where
    -- A migration of the hot shard's first partition rewrites the file of the shard map, if `Sscanf`
    -- reads the numbers that `Sprintf` prints: where the map could be saved, a coordinator that loads
    -- the file afterwards looks for every account of that partition on the cool shard, and for every
    -- other account where the monitor's map had it before; where it could not, the file is as before.
    pub migrate_partition-load_shard_map :
        (id : ℤ) (rest : List ℤ) (saves : List Bool)
        → get_partitions_for_shard m.shard_map hot.shard_id ≡ id ∷ rest
        → ((update_partition m.shard_map id cool).0 ≡ ok tt
            → Reroutes sha256 mapper scan
                (file_of print (migrate_partition started finished hot cool m).shard_map)
                saves
                m.shard_map
                id
                cool)
          × ((e : ShardMapError)
              → (update_partition m.shard_map id cool).0 ≡ err e
              → file_of print (migrate_partition started finished hot cool m).shard_map
                ≡ file_of print m.shard_map)
    unfolding get_shard
    migrate_partition-load_shard_map id rest saves first =
        let n = (update_partition m.shard_map id cool).1 in
        let same = shard_map-migrate_partition id rest first in
        let unsaved : (e : ShardMapError)
            → (update_partition m.shard_map id cool).0 ≡ err e
            → n.saved ≡ m.shard_map.saved =
          unfold update_partition save in λ e h. ground arith in
        rw same (
          λ done.
              let again =
                update_partition-load_shard_map print scan back m.shard_map n id cool saves
                  (ap (λ r. (r, n)) done) in
              record {
                after = again.after;
                loads = again.loads;
                routes = λ account.
                    routed_as sha256 mapper m.shard_map again.after id cool account again.gives;
              },
          λ e failed. unfold file_of in ap (λ d. holds (print_keys print d)) (unsaved e failed),
        )
