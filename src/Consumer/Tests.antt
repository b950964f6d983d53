-- ===== src/Consumer/Tests.antt =====
-- A transaction that is submitted to a coordinator with two shards.
use software_course_project.Prelude.{◌≡◌, refl, some, [], String, string_eq, Option}
use software_course_project.Model.{Transaction}
use software_course_project.Http.{post, get, Request}
use software_course_project.Consumer.{
  validate_transaction, accept_transaction, Consumer, handle_submit, handle_status,
}
use software_course_project.Consumer.Answers.{Valid, handle_submit-handle_status}
use software_course_project.Fixtures.{alice_to_bob, two_shards, two_router, by_name}
use software_course_project.Router.{execute_cross_shard, route}
use software_course_project.ShardMap.{get_shard_for_account}
use software_course_project.Dict.{lookup}
use software_course_project.Hash.{big_endian, get_partition}
use software_course_project.Int64.{wrap64}

abbrev always : String → Option Transaction
always text = some alice_to_bob

abbrev submitting : Request
submitting = record { method = post; body = "{}"; query = λ name. "" }

abbrev asking : Request
asking = record { method = get; body = ""; query = λ name. "x1" }

abbrev fresh_consumer : Consumer
fresh_consumer = record { router = two_router; results = []; recent_txns = [] }

handle_submit-handle_status_example :
    Valid alice_to_bob
    × (handle_status asking (handle_submit by_name always submitting fresh_consumer two_shards).1.0
        ≡ (handle_submit by_name always submitting fresh_consumer two_shards).0)
unfolding handle_submit accept_transaction validate_transaction route get_shard_for_account lookup
    get_partition wrap64 big_endian execute_cross_shard
handle_submit-handle_status_example =
    handle_submit-handle_status by_name always submitting fresh_consumer two_shards alice_to_bob
      asking refl refl refl refl
