-- ===== src/ShardMap/File.antt =====
-- Saving a shard map and loading it again: the partitions are numbers in memory, texts in the file.
use software_course_project.ShardMap.{
  ShardInfo, ShardMap, print_keys, file_of, read_keys, load_shard_map, get_shard,
}
use software_course_project.Dict.Laws.{lookup-insert}
use software_course_project.Dict.{Dict, lookup, insert}
use software_course_project.Prelude.Int.{ℤ, int_eq}
use software_course_project.Prelude.{
  ◌∙◌, refl, sym, ap, inl, inr, Option, some, List, [], ◌∷◌, Bool, String, string_eq, ok, arith,
  ◌==◌, ==_iff, Bool-cases, ◌≡◌,
}

-- Loading the file of a map gives each partition this shard.
pub record Reloads (print : ℤ → String) (scan : String → Option ℤ) (m : ShardMap)
    (saves : List Bool) (shard_of : ℤ → Option ShardInfo) : Type 0 where
  pub after : ShardMap
  pub loads : load_shard_map scan (file_of print m) saves ≡ ok after
  pub gives : (q : ℤ) → get_shard after q ≡ shard_of q

module _ (print : ℤ → String) (scan : String → Option ℤ)
    (back : (k : ℤ) → scan (print k) ≡ some k) where
  -- Every key of the table is a printed number.
  abbrev AllPrinted : Dict String ShardInfo → Type 0
  AllPrinted [] = Unit
  AllPrinted ((key, info) ∷ rest) = ((k : ℤ) × (key ≡ print k)) × AllPrinted rest

  insert-AllPrinted :
      (k : ℤ) (info : ShardInfo) (table : Dict String ShardInfo)
      → AllPrinted table
      → AllPrinted (insert (print k) info table)
  unfolding insert
  insert-AllPrinted k info [] h = ((k, refl), tt)
  insert-AllPrinted k info ((key, old) ∷ rest) (own, later) = elim (Bool-cases (print k == key)) [
    | inl here ↦ rw here (own, later)
    | inr other ↦ rw other (own, insert-AllPrinted k info rest later)
  ]

  print_keys-AllPrinted : (m : Dict ℤ ShardInfo) → AllPrinted (print_keys print m)
  unfolding print_keys
  print_keys-AllPrinted [] = tt
  print_keys-AllPrinted ((k, info) ∷ rest) =
      insert-AllPrinted k info (print_keys print rest) (print_keys-AllPrinted rest)

  print_apart : (q k : ℤ) → (print q == print k) ≡ (q == k)
  print_apart q k = elim (Bool-cases (q == k)) [
    | inl same ↦ rw ((==_iff q k).0 same, (==_iff k k).1 refl) ((==_iff (print k) (print k)).1 refl)
    | inr other ↦ elim (Bool-cases (print q == print k)) [
      | inr apart ↦ apart ∙ sym other
      | inl same ↦
          let texts : print q ≡ print k = (==_iff (print q) (print k)).0 same in
          let wraps : some q ≡ some k = sym (back q) ∙ ap scan texts ∙ back k in
          absurd (ground (arith, ==_iff q k))
    ]
  ]

  lookup-print_keys :
      (m : Dict ℤ ShardInfo) (q : ℤ) → lookup (print q) (print_keys print m) ≡ lookup q m
  unfolding print_keys lookup
  lookup-print_keys [] q = refl
  lookup-print_keys ((k, info) ∷ rest) q =
      lookup-insert (print q) (print k) info (print_keys print rest)
      ∙ rw (print_apart q k, lookup-print_keys rest q) refl

  -- A table of printed numbers is read, and has the same shards.
  read_keys-lookup :
      (table : Dict String ShardInfo)
      → AllPrinted table
      → (m : Dict ℤ ShardInfo) × (read_keys scan table ≡ ok m)
        × ((q : ℤ) → lookup q m ≡ lookup (print q) table)
  unfolding read_keys lookup
  read_keys-lookup [] h = ([], refl, λ q. refl)
  read_keys-lookup ((key, info) ∷ rest) ((k, printed), later) =
      let (m, reads, same) = read_keys-lookup rest later in
      let known : scan key ≡ some k = ap scan printed ∙ back k in
      (
        insert k info m,
        rw (known, read_keys, reads) refl,
        λ q. lookup-insert q k info m ∙ rw (printed, print_apart q k, same q) refl,
      )

  pub reloaded :
      (m : ShardMap) (saves : List Bool) → Reloads print scan m saves (λ q. lookup q m.saved)
  unfolding load_shard_map file_of get_shard
  reloaded m saves =
      let (d, reads, same) =
        read_keys-lookup (print_keys print m.saved) (print_keys-AllPrinted m.saved) in
      record {
        after = record { partitions = d; saved = d; saves = saves };
        loads = rw reads refl;
        gives = λ q. same q ∙ lookup-print_keys m.saved q;
      }
