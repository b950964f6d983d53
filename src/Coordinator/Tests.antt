-- ===== src/Coordinator/Tests.antt =====
-- A coordinator that reads one transfer from the queue.
use software_course_project.Prelude.{Option, none, some, String, string_eq, ◌==◌, if◌then◌else◌}
use software_course_project.Model.{Transaction}
use software_course_project.Http.{Request, get}
use software_course_project.Fixtures.{alice_to_bob}

abbrev decode : String → Option Transaction
decode text = if text == "x1" then some alice_to_bob else none

abbrev asking : Request
asking = record { method = get; body = ""; query = λ name. "" }
