-- ===== src/FaultProxy.antt =====
-- cmd/fault-proxy/main.go: the command that stops and starts the containers of the system on request.
-- Docker is behind its client and a parameter: the list of the containers, and what stopping,
-- starting and inspecting one do.
pub mod Reach
pub mod Foreign
mod Tests
use Prim.Native.Char.{code}
use Prim.Native.String
use software_course_project.Prelude.{
  ℕ, Bool, true, false, not, ◌||◌, Option, none, some, List, [], ◌∷◌, String, string_eq,
  if◌then◌else◌, ◌==◌, nat_beq,
}
use software_course_project.Dict.{Dict, lookup}
use software_course_project.Http.{Request, is_post}

pub record Container : Type 0 where
  pub id : String
  pub names : List String

abbrev pub allowed_containers : List String
allowed_containers =
    "shard1" ∷ "shard2" ∷ "shard3" ∷ "shard1a" ∷ "shard1b" ∷ "shard2a" ∷ "shard2b" ∷ "shard3a"
    ∷ "shard3b" ∷ "coordinator" ∷ "coordinator2" ∷ "load-monitor" ∷ "api-gateway" ∷ []

abbrev pub contains : String → List String → Bool
contains name [] = false
contains name (x ∷ rest) = name == x || contains name rest

abbrev pub is_allowed : String → Bool
is_allowed name = contains name allowed_containers

-- `strings.TrimPrefix(n, "/")` and `strings.HasSuffix`.
unfoldable pub trim_slash : String → String
trim_slash String.[] = ""
trim_slash (String.◌∷◌ c s) = if nat_beq (code c) b'/' then s else String.◌∷◌ c s

unfoldable pub has_suffix : String → String → Bool
has_suffix String.[] suffix = suffix == ""
has_suffix (String.◌∷◌ c s) suffix = suffix == String.◌∷◌ c s || has_suffix s suffix

-- The name itself, or that of a compose project's service.
unfoldable pub name_matches : String → String → Bool
unfolding trim_slash has_suffix
name_matches name n =
    let clean = trim_slash n in
    clean == name
    || (has_suffix clean (String.◌++◌ "-" name)
        || has_suffix clean (String.◌++◌ "-" (String.◌++◌ name "-1")))

unfoldable pub any_matches : String → List String → Bool
unfolding name_matches
any_matches name [] = false
any_matches name (n ∷ rest) = name_matches name n || any_matches name rest

unfoldable pub find_in : String → List Container → Option String
unfolding any_matches
find_in name [] = none
find_in name (c ∷ rest) = if any_matches name c.names then some c.id else find_in name rest

pub data ProxyError : Type 0 where
  method_not_allowed not_in_allowlist not_found docker_failed page_not_found : ProxyError

pub data Condition : Type 0 where
  stopped started running missing failed healthy : Condition

pub record ContainerStatus : Type 0 where
  pub name : String
  pub state : Condition
  pub is_running : Bool

pub data ProxyAnswer : Type 0 where
  refused : ℕ → ProxyError → ProxyAnswer
  done : Condition → String → ProxyAnswer
  one_status : ContainerStatus → ProxyAnswer
  statuses : List ContainerStatus → ProxyAnswer

abbrev pub status_of : String → Condition → Bool → ContainerStatus
status_of name state is_running = record { name = name; state = state; is_running = is_running }

-- Docker: `none` is an error of the daemon; an action says whether it succeeded.
pub record Docker : Type 1 where
  pub State : Type 0
  pub list : State → Option (List Container)
  pub stop : String → State → Bool × State
  pub start : String → State → Bool × State
  pub inspect : String → State → Option Bool

module _ (docker : Docker) where
  open docker use {State, list, stop, start, inspect}

  abbrev found_in : String → Option (List Container) → Option String
  found_in name none = none
  found_in name (some containers) = find_in name containers

  unfoldable pub find_container : String → State → Option String
  unfolding find_in
  find_container name d = found_in name (list d)

  abbrev pub acted : Condition → String → Bool × State → ProxyAnswer × State
  acted done_as name (true, d) = (done done_as name, d)
  acted done_as name (false, d) = (refused 500 docker_failed, d)

  -- What the two handlers share: their guards, and one action on the container that was found.
  abbrev pub act_on :
      Condition → (String → State → Bool × State) → Request → State → ProxyAnswer × State
  act_on done_as action r d =
      let name = r.query "container" in
      if not (is_post r.method)
      then (refused 405 method_not_allowed, d)
      else if not (is_allowed name)
      then (refused 403 not_in_allowlist, d)
      else elim (find_container name d) [
        | none ↦ (refused 404 not_found, d)
        | some id ↦ acted done_as name (action id d)
      ]

  unfoldable pub handle_kill : Request → State → ProxyAnswer × State
  unfolding find_container
  handle_kill = act_on stopped stop

  unfoldable pub handle_restart : Request → State → ProxyAnswer × State
  unfolding find_container
  handle_restart = act_on started start

  abbrev inspected : String → Option Bool → ContainerStatus
  inspected name none = status_of name failed false
  inspected name (some true) = status_of name running true
  inspected name (some false) = status_of name stopped false

  -- The loop over all containers of the list; Go walks its map in any order.
  unfoldable pub all_statuses : List String → State → List ContainerStatus
  unfolding find_container
  all_statuses [] d = []
  all_statuses (name ∷ rest) d =
      elim (find_container name d) [
        | none ↦ status_of name missing false
        | some id ↦ inspected name (inspect id d)
      ]
      ∷ all_statuses rest d

  abbrev one_inspected : String → Option Bool → ProxyAnswer
  one_inspected name none = refused 500 docker_failed
  one_inspected name (some is_running) = one_status (inspected name (some is_running))

  unfoldable pub handle_container_status : Request → State → ProxyAnswer
  unfolding all_statuses find_container
  handle_container_status r d =
      let name = r.query "container" in
      if name == ""
      then statuses (all_statuses allowed_containers d)
      else if not (is_allowed name)
      then refused 403 not_in_allowlist
      else elim (find_container name d) [
        | none ↦ done missing name
        | some id ↦ one_inspected name (inspect id d)
      ]

  unfoldable pub serve_proxy : String → Request → State → ProxyAnswer × State
  unfolding handle_kill handle_restart handle_container_status
  serve_proxy path r d =
      if path == "/kill"
      then handle_kill r d
      else if path == "/restart"
      then handle_restart r d
      else if path == "/status"
      then (handle_container_status r d, d)
      else if path == "/health"
      then (done healthy "", d)
      else (refused 404 page_not_found, d)
