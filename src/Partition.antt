-- ===== src/Partition.antt =====
-- shard/partition/partition.go: the partitions that a shard owns, and which of them are halted.
use software_course_project.Prelude.{
  ◌≡◌, refl, Bool, true, false, Option, some, List, [], ◌∷◌, String, Result, ok, err, if◌then◌else◌,
  ◌==◌,
}
use software_course_project.Prelude.Int.{ℤ, int_eq}
use software_course_project.Dict.{Dict, lookup, contains, insert, erase}
use software_course_project.Dict.Laws.{lookup-insert, lookup-insert_self, contains-insert_self}

pub data PartitionState : Type 0 where
  active halted : PartitionState

pub data PartitionError : Type 0 where
  not_owned : ℤ → String → PartitionError

pub record Manager : Type 0 where
  pub shard_id : String
  pub partitions : Dict ℤ PartitionState

add_all : List ℤ → Dict ℤ PartitionState → Dict ℤ PartitionState
add_all [] m = m
add_all (id ∷ rest) m = add_all rest (insert id active m)

unfoldable pub new_manager : String → List ℤ → Manager
unfolding add_all
new_manager shard_id partition_ids = record {
  shard_id = shard_id;
  partitions = add_all partition_ids [];
}

unfoldable pub owns_partition : Manager → ℤ → Bool
owns_partition pm id = contains id pm.partitions

abbrev pub is_active_state : Option PartitionState → Bool
is_active_state (some active) = true
is_active_state _ = false

unfoldable pub is_active : Manager → ℤ → Bool
is_active pm id = is_active_state (lookup id pm.partitions)

unfoldable pub add_partition : Manager → ℤ → Manager
add_partition pm id = record pm { partitions = insert id active pm.partitions }

unfoldable pub remove_partition : Manager → ℤ → Manager
remove_partition pm id = record pm { partitions = erase id pm.partitions }

unfoldable pub set_state : PartitionState → Manager → ℤ → Result PartitionError (Unit {0}) × Manager
set_state state pm id =
    if contains id pm.partitions
    then (ok tt, record pm { partitions = insert id state pm.partitions })
    else (err (not_owned id pm.shard_id), pm)

unfoldable pub halt_partition : Manager → ℤ → Result PartitionError (Unit {0}) × Manager
unfolding set_state
halt_partition = set_state halted

unfoldable pub resume_partition : Manager → ℤ → Result PartitionError (Unit {0}) × Manager
unfolding set_state
resume_partition = set_state active

unfoldable pub owned_from : Dict ℤ PartitionState → List ℤ
owned_from [] = []
owned_from ((id, state) ∷ rest) = id ∷ owned_from rest

unfoldable pub owned_partitions : Manager → List ℤ
unfolding owned_from
owned_partitions pm = owned_from pm.partitions

unfoldable pub active_from : Dict ℤ PartitionState → List ℤ
active_from [] = []
active_from ((id, active) ∷ rest) = id ∷ active_from rest
active_from ((id, halted) ∷ rest) = active_from rest

unfoldable pub active_partitions : Manager → List ℤ
unfolding active_from
active_partitions pm = active_from pm.partitions

-- Halting an owned partition and resuming it both succeed; in between it does not accept
-- transactions, after it does, and any other partition is as it was throughout.
pub halt_resume :
    (pm : Manager) (id : ℤ)
    → owns_partition pm id ≡ true
    → (q : ℤ) → (q == id) ≡ false
    → let (first, during) = halt_partition pm id in
      let (second, after) = resume_partition during id in
      (first ≡ ok tt)
      × (second ≡ ok tt)
      × (is_active during id ≡ false)
      × (is_active after id ≡ true)
      × (lookup q during.partitions ≡ lookup q pm.partitions)
      × (lookup q after.partitions ≡ lookup q pm.partitions)
unfolding owns_partition halt_partition resume_partition is_active
halt_resume pm id owned q other =
    let during = insert id halted pm.partitions in
    rw
      (
        owned,
        contains-insert_self id halted pm.partitions,
        lookup-insert_self id halted pm.partitions,
        lookup-insert_self id active during,
      )
      (
        refl,
        refl,
        refl,
        refl,
        rw (lookup-insert q id halted pm.partitions, other),
        rw (lookup-insert q id active during, lookup-insert q id halted pm.partitions, other),
      )
