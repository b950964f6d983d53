-- ===== src/Hash.antt =====
-- shared/utils/hash.go: from an account to its partition. SHA-256 is a parameter: it returns the 32
-- bytes of the digest.
use software_course_project.Prelude.{
  ℕ, ◌+◌, ◌*◌, ◌%◌, ◌<◌, ◌≡◌, Bool, Option, none, some, List, [], ◌∷◌, String, arith, take,
  if◌then◌else◌, ◌==◌,
}
use software_course_project.Prelude.Int.{ℤ, pos, pos_part, neg_part, ◌≤ℤ◌, ◌<ℤ◌, leb_ℤ, int_eq}
use software_course_project.Int64.{max_int64, wrap64, wrap64_id, bits}
use native.Mathlib.Nat.{mod-lt}

pub record PartitionMapper : Type 0 where
  pub num_partitions : ℤ

-- `none` is the panic.
unfoldable pub new_partition_mapper : ℤ → Option PartitionMapper
new_partition_mapper n = if leb_ℤ n (pos 0) then none else some (record { num_partitions = n })

-- `binary.BigEndian.Uint64`, from the digit before.
big_endian_from : ℕ → List ℕ → ℕ
big_endian_from acc [] = acc
big_endian_from acc (b ∷ rest) = big_endian_from (acc * 256 + b) rest

unfoldable pub big_endian : List ℕ → ℕ
unfolding big_endian_from
big_endian bytes = big_endian_from 0 bytes

module _ (sha256 : String → List ℕ) where
  -- `int(val % uint64(p.numPartitions))`
  unfoldable pub get_partition : PartitionMapper → String → ℤ
  get_partition p account_id =
      wrap64 (pos (big_endian (take 8 (sha256 account_id)) % bits p.num_partitions))

  unfoldable pub is_same_partition : PartitionMapper → String → String → Bool
  unfolding get_partition
  is_same_partition p account_a account_b = get_partition p account_a == get_partition p account_b

  -- Whatever the digest, a mapper that was created maps every account to a partition from 0 up to
  -- its number of partitions.
  pub get_partition_bounds :
      (n : ℤ) (p : PartitionMapper) (account_id : String)
      → new_partition_mapper n ≡ some p
      → n ≤ℤ max_int64
      → (pos 0 ≤ℤ get_partition p account_id) × (get_partition p account_id <ℤ n)
  unfolding new_partition_mapper get_partition
  get_partition_bounds n p account_id made small =
      let size : p.num_partitions ≡ n = ground arith in
      let value = big_endian (take 8 (sha256 account_id)) in
      let positive : 0 < pos_part n = ground arith in
      let unsigned : neg_part n ≡ 0 = ground arith in
      let count : bits n ≡ pos_part n = ground arith in
      let below : value % bits p.num_partitions < pos_part n =
        rw (size, count) (mod-lt value positive) in
      rw (wrap64_id (pos (value % bits p.num_partitions)) (omega arith)) (omega arith)
