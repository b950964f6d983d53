-- ===== src/Seed.antt =====
-- cmd/seed/main.go: the command that creates the accounts on their shards, past the coordinator. The
-- workers take the accounts in any order, and the request of one does not wait for that of another:
-- the run is a list of accounts, one after the other. Go's formatting of IDs and bodies is a
-- parameter, as is the URL: every address makes a valid one.
pub mod Backoff
pub mod Grown
pub mod Accounts
pub mod Run
pub mod Progress
mod Tests
use software_course_project.Env.{Texts, env_or_default, env_int_or_default}
use Prim.Native.Char.{code}
use Prim.Native.String
use software_course_project.Prelude.{
  ℕ, suc, zero, ◌+◌, ◌*◌, ◌-◌, ◌^◌, Bool, true, false, ◌||◌, Option, none, some, List, [], ◌∷◌,
  String, string_eq, Result, ok, err, if◌then◌else◌, ◌==◌, nat_beq, leb, ltb,
}
use software_course_project.Prelude.Int.{ℤ, pos, ltb_ℤ}
use software_course_project.Int64.{wrap64, add64, mul64}
use software_course_project.Hash.{PartitionMapper}
use software_course_project.ShardMap.{ShardInfo, ShardMap, ShardMapError, get_shard_for_account}
use software_course_project.TwoPc.{Remote}
use software_course_project.Router.{Cluster, replace}
use software_course_project.Http.{Decoders, Response}
use software_course_project.Http.Client.{ClientError, posted, send}
use software_course_project.Http.Serve.{serve_request}

pub record SeedSettings : Type 0 where
  pub num_accounts : ℤ
  pub starting_balance : ℤ
  pub host_override : String
  pub worker_count : ℤ
  pub max_retries : ℤ
  pub requests_per_second : ℤ

abbrev at_least_one : ℤ → ℤ
at_least_one n = if ltb_ℤ n (pos 1) then pos 1 else n

unfoldable pub seed_settings : Texts → (String → String) → SeedSettings
seed_settings texts env = record {
  num_accounts = env_int_or_default texts env "NUM_ACCOUNTS" (pos 1000);
  starting_balance = env_int_or_default texts env "STARTING_BALANCE" (pos 10000);
  host_override = env_or_default env "SHARD_HOST" "localhost";
  worker_count = at_least_one (env_int_or_default texts env "SEED_WORKERS" (pos 12));
  max_retries = at_least_one (env_int_or_default texts env "SEED_RETRIES" (pos 6));
  requests_per_second = env_int_or_default texts env "SEED_RPS" (pos 60);
}

unfoldable pub should_retry : ℕ → Bool
should_retry code = nat_beq code 408 || (nat_beq code 429 || leb 500 code)

-- The error of an account; `nothing_sent` is the nil error of a loop without a round.
pub data SeedError : Type 0 where
  request_failed nothing_sent : SeedError
  status retryable : ℕ → SeedError
  no_shard : ShardMapError → SeedError

-- What a round makes of the answer: the loop returns, or goes on with this last error.
pub data Round : Type 0 where
  returns : Result SeedError (Unit {0}) → Round
  goes_on : SeedError → Round

unfoldable pub judge : Result ClientError Response → Round
judge (err e) = goes_on request_failed
judge (ok resp) =
    if ltb resp.code 300
    then returns (ok tt)
    else if should_retry resp.code
    then goes_on (retryable resp.code)
    else returns (err (status resp.code))

-- A nanosecond is 1. Shifts and products of `time.Duration` wrap around.
abbrev pub millisecond : ℕ
millisecond = 1000000

unfoldable pub delay : ℕ → ℤ
delay attempt =
    let d = mul64 (150 * millisecond) (wrap64 (pos (2 ^ (attempt - 1)))) in
    if ltb_ℤ (pos (2000 * millisecond)) d then pos (2000 * millisecond) else d

-- `random` is `rand.Intn(125)`.
unfoldable pub backoff : ℕ → ℕ → ℤ
unfolding delay
backoff random attempt = add64 (delay attempt) (pos (random * millisecond))

-- The part behind the first colon.
unfoldable pub after_colon : String → Option String
after_colon String.[] = none
after_colon (String.◌∷◌ c s) =
    let later = after_colon s in if nat_beq (code c) b':' then some s else later

abbrev with_host : String → String → Option String → String
with_host host address none = address
with_host host address (some port) = String.◌++◌ host (String.◌++◌ ":" port)

unfoldable pub rewrite_shard_addr : String → String → String
unfolding after_colon
rewrite_shard_addr address host =
    if host == "" then address else with_host host address (after_colon address)

-- The rounds that are left, with the last error. Sleeping and the limit of requests per second
-- only pass time.
abbrev pub proceed :
    Round
    → (SeedError → Remote → Result SeedError (Unit {0}) × Remote)
    → Remote
    → Result SeedError (Unit {0}) × Remote
proceed (returns answer) later r = (answer, r)
proceed (goes_on e) later r = later e r

-- The numbers of accounts that succeeded and that failed.
abbrev pub counted : Result SeedError (Unit {0}) → ℕ × ℕ → ℕ × ℕ
counted (ok _) (success, fail) = (success + 1, fail)
counted (err e) (success, fail) = (success, fail + 1)

module _ (sha256 : String → List ℕ) (create_id : String → String) (decode : Decoders) where
  unfoldable pub seed_rounds :
      String → ℕ → SeedError → Remote → Result SeedError (Unit {0}) × Remote
  seed_rounds body zero last r = (err last, r)
  seed_rounds body (suc rounds) last r =
      let (answer, r') =
        send (serve_request sha256 create_id "/create-account" decode (posted body)) r in
      let later = seed_rounds body rounds in proceed (judge answer) later r'

  -- `main` allows at least one request, so that the success of the code without any does not occur.
  unfoldable pub seed_account : String → ℕ → Remote → Result SeedError (Unit {0}) × Remote
  unfolding seed_rounds
  seed_account body max_retries r = seed_rounds body max_retries nothing_sent r

  -- One account of the run, with the address of its shard looked up in the map.
  module _ (m : ShardMap) (mapper : PartitionMapper) (host : String) (body : String → String)
      (max_retries : ℕ) where
    unfoldable pub seed_one : String → Cluster → Result SeedError (Unit {0}) × Cluster
    seed_one account c = elim (get_shard_for_account sha256 m account mapper) [
      | err e ↦ (err (no_shard e), c)
      | ok info ↦
          let address = rewrite_shard_addr info.address host in
          let (answer, r) = seed_account (body account) max_retries (c address) in
          (answer, replace address r c)
    ]

    -- The numbers of accounts that succeeded and failed, and the shards after.
    unfoldable pub seed_all : List String → (ℕ × ℕ) × Cluster → (ℕ × ℕ) × Cluster
    unfolding seed_one
    seed_all [] (counts, c) = (counts, c)
    seed_all (account ∷ rest) (counts, c) =
        let (answer, c') = seed_one account c in seed_all rest (counted answer counts, c')

    -- The exit code of the command.
    unfoldable pub seed_run : List String → Cluster → ℕ × Cluster
    unfolding seed_all
    seed_run accounts c =
        let (counts, c') = seed_all accounts ((0, 0), c) in ((if ltb 0 counts.1 then 1 else 0), c')
