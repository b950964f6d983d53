-- ===== src/Coordinator/Status.antt =====
-- `HandleStatus` of api/handlers/transaction.go: the gateway asks the coordinator.
use software_course_project.Prelude.{
  ℕ, Bool, not, ◌||◌, Option, List, String, string_eq, if◌then◌else◌, ◌==◌,
}
use software_course_project.Prelude.Int.{ℤ}
use software_course_project.Model.{Transaction}
use software_course_project.Http.{Request, get, is_get}
use software_course_project.Coordinator.{Coordinator, Reply, serve_coordinator}

-- The gateway's own refusals, or what the coordinator said, with the code that the client gets.
pub data StatusAnswer : Type 0 where
  refused : ℕ → StatusAnswer
  forwarded : ℕ → Reply → StatusAnswer

-- `trim` takes the prefix `/status/` off the path, and `query` is how the coordinator reads the
-- query of the URL that ends with this ID; `reached` says whether the request and its answer arrive.
module _ (sha256 : String → List ℕ) (decode : String → Option Transaction)
    (atoi : String → Option ℤ) (trim : String → String) (query : String → String → String) where
  abbrev pub status_request : String → Request
  status_request txn_id = record { method = get; body = ""; query = query txn_id }

  -- The code of the coordinator's answer is not looked at.
  unfoldable pub gateway_status : String → Request → Bool → Coordinator → StatusAnswer
  gateway_status path r reached c =
      let txn_id = trim path in
      if not (is_get r.method)
      then refused 405
      else if txn_id == "" || txn_id == "/status"
      then refused 400
      else if not reached
      then refused 502
      else forwarded 200
          (serve_coordinator sha256 decode atoi "/status" (status_request txn_id) c).0
