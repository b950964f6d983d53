-- ===== src/Coordinator.antt =====
-- cmd/coordinator/main.go: the process of the coordinator, which serves its endpoints and reads the
-- queue over one router. Requests and messages are handled one at a time, in any order.
pub mod Unknown
pub mod Status
mod Tests
use software_course_project.Prelude.{
  ℕ, Bool, true, false, Option, none, some, List, [], ◌∷◌, String, string_eq, Result, ok, err,
  if◌then◌else◌, ◌==◌, nat_beq,
}
use software_course_project.Prelude.Int.{ℤ, pos}
use software_course_project.Dict.{Dict, lookup}
use software_course_project.Hash.{PartitionMapper, new_partition_mapper}
use software_course_project.Model.{Transaction}
use software_course_project.ShardMap.{
  ShardMap, ShardMapError, MapFile, ShardInfo, load_shard_map, partition_count,
}
use software_course_project.Http.{Request}
use software_course_project.Router.{Router, Cluster}
use software_course_project.Consumer.{
  Consumer, Answer, new_consumer, handle_submit, handle_transfer, handle_status,
  handle_transactions, handle_metrics, handle_prometheus_metrics,
}
use software_course_project.Consumer.Kafka.{consume}

pub record Coordinator : Type 0 where
  pub consumer : Consumer
  pub cluster : Cluster

-- Why the process ends before it listens.
pub data StartError : Type 0 where
  no_partitions : StartError
  map_not_loaded : ShardMapError → StartError

abbrev with_mapper : Option PartitionMapper → ShardMap → Result StartError Router
with_mapper none m = err no_partitions
with_mapper (some mapper) m = ok (record { shard_map = m; mapper = mapper })

abbrev pub over_map : ShardMap → Result StartError Router
over_map m =
    if nat_beq (partition_count m) 0
    then err no_partitions
    else with_mapper (new_partition_mapper (pos (partition_count m))) m

-- The router over the map of the file.
unfoldable pub start_router : (String → Option ℤ) → MapFile → List Bool → Result StartError Router
start_router scan file saves = elim (load_shard_map scan file saves) [
  | err e ↦ err (map_not_loaded e)
  | ok m ↦ over_map m
]

unfoldable pub coordinator_of : Router → Cluster → Coordinator
coordinator_of router cluster = record { consumer = new_consumer router; cluster = cluster }

pub data CoordinatorEndpoint : Type 0 where
  submit status transfer transactions metrics prometheus health : CoordinatorEndpoint

abbrev pub coordinator_routes : Dict String CoordinatorEndpoint
coordinator_routes =
    ("/health", health)
    ∷ ("/submit", submit)
    ∷ ("/status", status)
    ∷ ("/transfer", transfer)
    ∷ ("/transactions", transactions)
    ∷ ("/metrics", metrics)
    ∷ ("/metrics/prometheus", prometheus)
    ∷ []

-- What the process answers: an endpoint's answer, the health, or the mux's 404.
pub data Reply : Type 0 where
  answered : Answer → Reply
  healthy page_not_found : Reply

abbrev pub placed : Answer × (Consumer × Cluster) → Reply × Coordinator
placed (a, (consumer, cluster)) = (answered a, record { consumer = consumer; cluster = cluster })

-- What happens to the process: a request at a path, or a message of the queue.
pub data Event : Type 0 where
  request : String → Request → Event
  message : String → Event

module _ (sha256 : String → List ℕ) (decode : String → Option Transaction)
    (atoi : String → Option ℤ) where
  unfoldable pub serve_endpoint : CoordinatorEndpoint → Request → Coordinator → Reply × Coordinator
  serve_endpoint submit r c = placed (handle_submit sha256 decode r c.consumer c.cluster)
  serve_endpoint transfer r c = placed (handle_transfer sha256 decode r c.consumer c.cluster)
  serve_endpoint status r c = (answered (handle_status r c.consumer), c)
  serve_endpoint transactions r c = (answered (handle_transactions atoi r c.consumer), c)
  serve_endpoint metrics r c = (answered (handle_metrics r c.consumer), c)
  serve_endpoint prometheus r c = (answered (handle_prometheus_metrics c.consumer), c)
  serve_endpoint health r c = (healthy, c)

  abbrev pub at_endpoint : Option CoordinatorEndpoint → Request → Coordinator → Reply × Coordinator
  at_endpoint none r c = (page_not_found, c)
  at_endpoint (some endpoint) r c = serve_endpoint endpoint r c

  unfoldable pub serve_coordinator : String → Request → Coordinator → Reply × Coordinator
  serve_coordinator path r c = at_endpoint (lookup path coordinator_routes) r c

  abbrev pub step : Event → Coordinator → Coordinator
  step (request path r) c = (serve_coordinator path r c).1
  step (message text) c = record c {
    cluster = consume sha256 decode c.consumer.router (text ∷ []) c.cluster;
  }

  unfoldable pub run : List Event → Coordinator → Coordinator
  run [] c = c
  run (event ∷ rest) c = run rest (step event c)
