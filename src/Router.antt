-- ===== src/Router.antt =====
-- coordinator/router/router.go: one shard or two, and which.
pub mod Total
pub mod Conservation
pub mod Runs
mod Tests
use software_course_project.Prelude.{
  Bool, true, false, Option, none, some, List, String, string_eq, Result, ok, err, if◌then◌else◌,
  ◌==◌, ℕ,
}
use software_course_project.Hash.{PartitionMapper}
use software_course_project.Model.{Transaction, TransactionResult}
use software_course_project.Server.Single.{execute_single_shard}
use software_course_project.ShardMap.{ShardInfo, ShardMap, ShardMapError, get_shard_for_account}
use software_course_project.TwoPc.{Remote, call_for, execute}

pub record Router : Type 0 where
  pub shard_map : ShardMap
  pub mapper : PartitionMapper

pub data RouterError : Type 0 where
  source_unresolved destination_unresolved : ShardMapError → RouterError
  execution_failed : RouterError

-- The shard behind each address.
abbrev pub Cluster : Type 0
Cluster = String → Remote

abbrev pub replace : String → Remote → Cluster → Cluster
replace address r c a = if a == address then r else c a

abbrev returned : Option TransactionResult → Result RouterError TransactionResult
returned none = err execution_failed
returned (some done) = ok done

unfoldable pub execute_on_one :
    Transaction → ShardInfo → Cluster → Result RouterError TransactionResult × Cluster
execute_on_one txn shard c =
    let (answer, r) = call_for (execute_single_shard txn) (c shard.address) in
    (returned answer, replace shard.address r c)

-- Different shards have different addresses.
unfoldable pub execute_cross_shard :
    Transaction → ShardInfo → ShardInfo → Cluster → Result RouterError TransactionResult × Cluster
execute_cross_shard txn src_shard dst_shard c =
    let (done, (source, dest)) = execute txn (c src_shard.address, c dst_shard.address) in
    (ok done, replace dst_shard.address dest (replace src_shard.address source c))

module _ (sha256 : String → List ℕ) where
  unfoldable pub route :
      Router → Transaction → Cluster → Result RouterError TransactionResult × Cluster
  route router txn c =
      elim (get_shard_for_account sha256 router.shard_map txn.source router.mapper) [
        | err e ↦ (err (source_unresolved e), c)
        | ok src_shard ↦
            elim (get_shard_for_account sha256 router.shard_map txn.destination router.mapper) [
              | err e ↦ (err (destination_unresolved e), c)
              | ok dst_shard ↦
                  if src_shard.shard_id == dst_shard.shard_id
                  then execute_on_one txn src_shard c
                  else execute_cross_shard txn src_shard dst_shard c
            ]
      ]
