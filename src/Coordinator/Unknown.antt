-- ===== src/Coordinator/Unknown.antt =====
-- What the gateway can learn of transactions that came through the queue.
use software_course_project.Prelude.{
  ℕ, ◌≡◌, false, Option, none, some, List, String, string_eq, ◌==◌,
}
use software_course_project.Dict.{lookup}
use software_course_project.Model.{Transaction}
use software_course_project.Router.{Router}
use software_course_project.Consumer.{Consumer}
use software_course_project.Coordinator.{Coordinator, Event, request, message}

module _ (sha256 : String → List ℕ) (decode : String → Option Transaction) (id : String) where
  abbrev Unknown : Consumer → Type 0
  Unknown c = lookup id c.results ≡ none

  -- The event is no request that carries a transaction of this ID; a message of the queue may.
  abbrev pub IsElsewhere : Event → Type 0
  IsElsewhere (request path r) =
      (txn : Transaction) → decode r.body ≡ some txn → (id == txn.txn_id) ≡ false
  IsElsewhere (message text) = Unit
