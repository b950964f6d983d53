-- ===== src/Fixtures.antt =====
-- Two small shards on which theorems of several parts are tried.
use Prim.Native.Char.{code}
use software_course_project.Router.{Router}
use software_course_project.ShardMap.{ShardInfo}
use software_course_project.Prelude.{
  true, zero, suc, ap, Option, nat_beq, ◌≡◌, refl, false, none, some, List, [], ◌∷◌, String,
  string_eq, arith, ◌==◌, if◌then◌else◌, ℕ,
}
use software_course_project.Prelude.Int.{negsuc, ℤ, pos, int_eq}
use software_course_project.Dict.{Dict, lookup}
use software_course_project.Model.{Transaction, pending, primary}
use software_course_project.Server.State.{ShardServer}
use software_course_project.TwoPc.{Remote}
use software_course_project.TwoPc.Atomic.{reliable, IsReady}

abbrev pub shard_with : String → String → ℤ → ShardServer
shard_with shard_id account_id balance = record {
  shard_id = shard_id;
  wal_log = record {
    fits = λ e. true;
    lines = [];
    next_log_id = 0;
    writer_failed = false;
    disk = [];
  };
  ledger = record { balances = (account_id, balance) ∷ [] };
  store = none;
  replicator = none;
  part_mgr = none;
  mapper = none;
  role = primary;
  seen_txns = [];
  committed_count = pos 0;
  aborted_count = pos 0;
  prepared_count = pos 0;
  recent_txns = [];
  follower_count = pos 0;
}

abbrev pub alices : ShardServer
alices = shard_with "shard1" "alice" (pos 100)

abbrev pub bobs : ShardServer
bobs = shard_with "shard2" "bob" (pos 50)

abbrev pub alice_to_bob : Transaction
alice_to_bob = record {
  txn_id = "x1";
  source = "alice";
  destination = "bob";
  amount = pos 30;
  state = pending;
}

lookup_one : (id k : String) (b v : ℤ) → lookup k ((id, b) ∷ []) ≡ some v → v ≡ b
unfolding lookup
lookup_one id k b v found = ground arith

pub alices-IsReady : (t : String) → IsReady t alices
unfolding lookup
alices-IsReady t = record {
  unseen = refl;
  working = record { no_failures = refl; not_failed = refl };
  fits = λ k {v} found.
      rw (lookup_one "alice" k (pos 100) v found)
        (record { lower = omega arith; upper = omega arith });
}

pub bobs-IsReady : (t : String) → IsReady t bobs
unfolding lookup
bobs-IsReady t = record {
  unseen = refl;
  working = record { no_failures = refl; not_failed = refl };
  fits = λ k {v} found.
      rw (lookup_one "bob" k (pos 50) v found)
        (record { lower = omega arith; upper = omega arith });
}

-- Behind two addresses.
abbrev pub two_shards : String → Remote
two_shards address = if address == "host1" then reliable alices else reliable bobs

abbrev pub first_info : ShardInfo
first_info = record { shard_id = "shard1"; address = "host1"; role = "PRIMARY" }

abbrev pub second_info : ShardInfo
second_info = record { shard_id = "shard2"; address = "host2"; role = "PRIMARY" }

abbrev pub two_parts : Dict ℤ ShardInfo
two_parts = (pos 0, first_info) ∷ (pos 1, second_info) ∷ []

abbrev pub two_router : Router
two_router = record {
  shard_map = record { partitions = two_parts; saved = two_parts; saves = [] };
  mapper = record { num_partitions = pos 2 };
}

-- A digest that is not SHA-256 and puts Alice in partition 0 and everyone else in partition 1.
abbrev pub by_name : String → List ℕ
by_name account =
    if account == "alice"
    then 0 ∷ 0 ∷ 0 ∷ 0 ∷ 0 ∷ 0 ∷ 0 ∷ 0 ∷ []
    else 0 ∷ 0 ∷ 0 ∷ 0 ∷ 0 ∷ 0 ∷ 0 ∷ 1 ∷ []

-- A way to print numbers, a sign and so many marks, that can be read back.
abbrev tally : ℕ → String
tally zero = ""
tally (suc n) = String.◌∷◌ "1" (tally n)

abbrev count : String → ℕ
count String.[] = 0
count (String.◌∷◌ c s) = suc (count s)

count-tally : (n : ℕ) → count (tally n) ≡ n
count-tally zero = refl
count-tally (suc n) = ap suc (count-tally n)

abbrev pub print_tally : ℤ → String
print_tally (pos n) = String.◌∷◌ "+" (tally n)
print_tally (negsuc n) = String.◌∷◌ "-" (tally n)

abbrev pub scan_tally : String → Option ℤ
scan_tally String.[] = none
scan_tally (String.◌∷◌ c s) =
    if nat_beq (code c) b'+' then some (pos (count s)) else some (negsuc (count s))

pub scan_tally-print_tally : (k : ℤ) → scan_tally (print_tally k) ≡ some k
scan_tally-print_tally (pos n) = ap (λ m. some (pos m)) (count-tally n)
scan_tally-print_tally (negsuc n) = ap (λ m. some (negsuc m)) (count-tally n)
