-- ===== src/FaultProxy/Tests.antt =====
-- A host with a container of another project before that of the shard.
use software_course_project.Prelude.{◌≡◌, ◌⊎◌, true, some, List, [], ◌∷◌, String, string_eq, ◌==◌}
use software_course_project.Http.{Request, post}
use software_course_project.FaultProxy.{Docker, Container, serve_proxy}
use software_course_project.FaultProxy.Reach.{HasActed, serve_proxy-HasActed}

abbrev shards_behind : List Container
shards_behind = record { id = "c1"; names = "/shard1" ∷ [] } ∷ []

-- The state is what was stopped and started.
abbrev two_containers : Docker
two_containers = record {
  State = List String;
  list = λ d. some (record { id = "c9"; names = "/backup-shard1" ∷ [] } ∷ shards_behind);
  stop = λ id d. (true, id ∷ d);
  start = λ id d. (true, id ∷ d);
  inspect = λ id d. some true;
}

abbrev killing : Request
killing = record { method = post; body = ""; query = λ name. "shard1" }

serve_proxy-HasActed_example :
    ((serve_proxy two_containers "/kill" killing []).1 ≡ [])
    ⊎ ((◌==◌ {K = String} "/kill" "/kill" ≡ true)
        × HasActed two_containers two_containers.stop killing []
            (serve_proxy two_containers "/kill" killing []).1)
    ⊎ ((◌==◌ {K = String} "/kill" "/restart" ≡ true)
        × HasActed two_containers two_containers.start killing []
            (serve_proxy two_containers "/kill" killing []).1)
serve_proxy-HasActed_example = serve_proxy-HasActed two_containers "/kill" killing []
