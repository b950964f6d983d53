-- ===== src/Consumer/Money.antt =====
-- The money of the whole system while the coordinator works off the queue.
use software_course_project.Consumer.Kafka.{consume}
use software_course_project.Consumer.{as_pending}
use software_course_project.Router.Runs.{route_all, txn_ids, AllAtRest, route_all_conserves}
use software_course_project.Router.Total.{total, NoRepeats}
use software_course_project.Router.{Router, Cluster, route}
use software_course_project.Model.{Transaction}
use software_course_project.Prelude.{
  ℕ, refl, inl, inr, List, [], ◌∷◌, String, Option, none, some, Option-cases, ◌≡◌,
}

abbrev pub pendings : List Transaction → List Transaction
pendings [] = []
pendings (txn ∷ rest) = as_pending txn ∷ pendings rest

module _ (sha256 : String → List ℕ) (decode : String → Option Transaction) (router : Router) where
  abbrev pub cons_read : Option Transaction → List Transaction → List Transaction
  cons_read none txns = txns
  cons_read (some txn) txns = txn ∷ txns

  -- The transactions of the messages that decode.
  abbrev pub read_all : List String → List Transaction
  read_all [] = []
  read_all (message ∷ rest) = cons_read (decode message) (read_all rest)

  consume-route_all :
      (messages : List String) (c : Cluster)
      → consume sha256 decode router messages c
        ≡ route_all sha256 router (pendings (read_all messages)) c
  unfolding consume route_all
  consume-route_all [] c = refl
  consume-route_all (message ∷ rest) c = elim (Option-cases (decode message)) [
    | inl bad ↦ rw bad (consume-route_all rest c)
    | inr (txn, reads) ↦
        rw reads (consume-route_all rest (route sha256 router (as_pending txn) c).1)
  ]

  -- Working off a queue of any messages, of which some may not decode, makes no money and loses
  -- none, if the transactions among them have different IDs and the system is at rest for each of
  -- them at the start: to one shard, to two, or to none that the map knows, and whatever the answers,
  -- each leaves the system in order for those after it.
  pub consume_conserves :
      (us : List String) (messages : List String) (c : Cluster)
      → NoRepeats (txn_ids (pendings (read_all messages)))
      → AllAtRest sha256 router us (pendings (read_all messages)) c
      → total us (consume sha256 decode router messages c) ≡ total us c
  consume_conserves us messages c distinct h =
      rw (consume-route_all messages c)
        (route_all_conserves sha256 router us (pendings (read_all messages)) c distinct h)
