-- ===== src/ShardMap.antt =====
-- coordinator/shardmap/shard_map.go: which shard holds a partition. The map is saved to a JSON file
-- after each change; `saves` says which of the next writes of the file succeed, and a write that it
-- does not mention does.
pub mod File
pub mod Routes
mod Tests
use software_course_project.Prelude.{
  ◌>>=◌, ◌||◌, ◌++◌, ℕ, zero, suc, ◌+◌, ◌%◌, Bool, true, false, Option, none, some, List, [], ◌∷◌,
  String, Result, ok, err, if◌then◌else◌, ◌==◌, string_eq, length,
}
use software_course_project.Prelude.Int.{ℤ, pos, pos_part, int_eq}
use software_course_project.Dict.{Dict, lookup, insert}
use software_course_project.Hash.{PartitionMapper, get_partition}

pub record ShardInfo : Type 0 where
  pub shard_id : String
  pub address : String
  pub role : String

-- `saved` is the map that the file reads as; its JSON is that of `file_of`.
pub record ShardMap : Type 0 where
  pub partitions : Dict ℤ ShardInfo
  pub saved : Dict ℤ ShardInfo
  pub saves : List Bool

pub data ShardMapError : Type 0 where
  no_shards save_failed read_failed parse_failed : ShardMapError
  invalid_key : String → ShardMapError
  not_assigned : ℤ → String → ShardMapError

abbrev next_save : List Bool → Bool
next_save [] = true
next_save (b ∷ rest) = b

abbrev later_saves : List Bool → List Bool
later_saves [] = []
later_saves (b ∷ rest) = rest

-- The file is replaced by a rename, so a failed write leaves it as it was.
unfoldable pub save : ShardMap → Result ShardMapError (Unit {0}) × ShardMap
save m =
    if next_save m.saves
    then (ok tt, record m { saved = m.partitions; saves = later_saves m.saves })
    else (err save_failed, record m { saves = later_saves m.saves })

-- `shards[i]`; the default stands for the panic, which an index below the length does not meet.
abbrev pub shard_at : ShardInfo → List ShardInfo → ℕ → ShardInfo
shard_at default [] i = default
shard_at default (s ∷ rest) zero = s
shard_at default (s ∷ rest) (suc i) = shard_at default rest i

-- The loop of the round-robin assignment, from partition `i` on, with `n` left.
unfoldable pub assign : ℕ → ℕ → ShardInfo → List ShardInfo → Dict ℤ ShardInfo → Dict ℤ ShardInfo
assign zero i first rest m = m
assign (suc n) i first rest m =
    let shards = first ∷ rest in
    assign n (i + 1) first rest (insert (pos i) (shard_at first shards (i % length shards)) m)

-- What the file held before is of no account.
unfoldable pub new_shard_map : List ShardInfo → ℤ → List Bool → Result ShardMapError ShardMap
unfolding assign save
new_shard_map [] total_partitions saves = err no_shards
new_shard_map (first ∷ rest) total_partitions saves =
    let m : ShardMap = record {
      partitions = assign (pos_part total_partitions) 0 first rest [];
      saved = [];
      saves = saves;
    } in
    let (r, m') = save m in elim r [ err e ↦ err e | ok _ ↦ ok m' ]

-- What `LoadShardMap` finds: no file, one that cannot be read, an empty one, one that is no JSON of
-- the right form, or a table with texts as keys.
pub data MapFile : Type 0 where
  missing unreadable empty unparsed : MapFile
  holds : Dict String ShardInfo → MapFile

-- `fmt.Sprintf` with `%d` is a parameter.
module _ (print : ℤ → String) where
  -- The loop of `saveLocked` over the map, for the JSON that it writes.
  unfoldable pub print_keys : Dict ℤ ShardInfo → Dict String ShardInfo
  print_keys [] = []
  print_keys ((id, info) ∷ rest) = insert (print id) info (print_keys rest)

  unfoldable pub file_of : ShardMap → MapFile
  unfolding print_keys
  file_of m = holds (print_keys m.saved)

-- `fmt.Sscanf` with `%d` is a parameter, with none for an error.
module _ (scan : String → Option ℤ) where
  -- The loop of `LoadShardMap` over the table.
  unfoldable pub read_keys : Dict String ShardInfo → Result ShardMapError (Dict ℤ ShardInfo)
  read_keys [] = ok []
  read_keys ((key, info) ∷ rest) =
      let later = read_keys rest in
      elim (scan key) [
        | none ↦ err (invalid_key key)
        | some id ↦ later >>= λ m. ok (insert id info m)
      ]

  abbrev pub loaded : List Bool → Dict ℤ ShardInfo → ShardMap
  loaded saves m = record { partitions = m; saved = m; saves = saves }

  unfoldable pub load_shard_map : MapFile → List Bool → Result ShardMapError ShardMap
  unfolding read_keys
  load_shard_map missing saves = ok (loaded saves [])
  load_shard_map unreadable saves = err read_failed
  load_shard_map empty saves = ok (loaded saves [])
  load_shard_map unparsed saves = err parse_failed
  load_shard_map (holds table) saves = read_keys table >>= λ m. ok (loaded saves m)

unfoldable pub get_shard : ShardMap → ℤ → Option ShardInfo
get_shard m partition_id = lookup partition_id m.partitions

module _ (sha256 : String → List ℕ) where
  unfoldable pub get_shard_for_account :
      ShardMap → String → PartitionMapper → Result ShardMapError ShardInfo
  get_shard_for_account m account_id mapper =
      let partition_id = get_partition sha256 mapper account_id in
      elim (lookup partition_id m.partitions) [
        | none ↦ err (not_assigned partition_id account_id)
        | some info ↦ ok info
      ]

-- The map is changed also when the write fails.
unfoldable pub update_partition :
    ShardMap → ℤ → ShardInfo → Result ShardMapError (Unit {0}) × ShardMap
unfolding save
update_partition m partition_id shard =
    save (record m { partitions = insert partition_id shard m.partitions })

unfoldable pub partitions_in : String → Dict ℤ ShardInfo → List ℤ
partitions_in shard_id [] = []
partitions_in shard_id ((partition_id, info) ∷ rest) =
    if info.shard_id == shard_id
    then partition_id ∷ partitions_in shard_id rest
    else partitions_in shard_id rest

unfoldable pub get_partitions_for_shard : ShardMap → String → List ℤ
unfolding partitions_in
get_partitions_for_shard m shard_id = partitions_in shard_id m.partitions

unfoldable pub partition_count : ShardMap → ℕ
partition_count m = length m.partitions

abbrev pub names_shard : String → List ShardInfo → Bool
names_shard shard_id [] = false
names_shard shard_id (info ∷ rest) = shard_id == info.shard_id || names_shard shard_id rest

-- The loop of `AllShards`, with the shards that it has met; Go walks the map in any order.
unfoldable pub shards_in : List ShardInfo → Dict ℤ ShardInfo → List ShardInfo
shards_in seen [] = seen
shards_in seen ((partition_id, info) ∷ rest) =
    let more = shards_in (seen ++ info ∷ []) rest in
    let same = shards_in seen rest in if names_shard info.shard_id seen then same else more

unfoldable pub all_shards : ShardMap → List ShardInfo
unfolding shards_in
all_shards m = shards_in [] m.partitions
