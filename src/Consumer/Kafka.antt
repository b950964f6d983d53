-- ===== src/Consumer/Kafka.antt =====
-- coordinator/consumer/kafka_consumer.go: the loop over the messages of the topic, in the order in
-- which the reader gives them, until it fails.
use software_course_project.Prelude.{ℕ, Option, none, some, List, [], ◌∷◌, String}
use software_course_project.Model.{Transaction}
use software_course_project.Router.{Router, Cluster, route}
use software_course_project.Consumer.{as_pending}

module _ (sha256 : String → List ℕ) (decode : String → Option Transaction) where
  -- A message that does not decode is passed over, and an error of the router is only logged.
  abbrev handle_message : Router → Option Transaction → Cluster → Cluster
  handle_message router none cluster = cluster
  handle_message router (some txn) cluster = (route sha256 router (as_pending txn) cluster).1

  unfoldable pub consume : Router → List String → Cluster → Cluster
  consume router [] cluster = cluster
  consume router (message ∷ rest) cluster =
      consume router rest (handle_message router (decode message) cluster)
