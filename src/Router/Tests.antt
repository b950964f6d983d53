-- ===== src/Router/Tests.antt =====
-- Two shards at rest.
use software_course_project.Consumer.Money.{consume_conserves}
use software_course_project.Consumer.Kafka.{consume}
use software_course_project.Model.{Transaction, pending}
use software_course_project.Int64.{wrap64}
use software_course_project.Hash.{get_partition, big_endian}
use software_course_project.Prelude.{
  none, Option, List, Bool, sym, ◌∙◌, ap, ◌≡◌, inl, inr, refl, true, false, some, [], ◌∷◌, String,
  string_eq, ok, err, arith, ◌==◌, if◌then◌else◌, Result, Bool-cases,
}
use software_course_project.Prelude.Int.{pos, ◌+ℤ◌, int_eq}
use software_course_project.Dict.{lookup}
use software_course_project.Recovery.Ended.{listed}
use software_course_project.ShardMap.{ShardMapError, get_shard_for_account, ShardInfo}
use software_course_project.Router.{route}
use software_course_project.Router.Total.{total}
use software_course_project.Router.Conservation.{Resolves, AtRest, route_conserves}
use software_course_project.Fixtures.{
  two_parts, alice_to_bob, alices-IsReady, bobs-IsReady, two_shards, first_info, second_info,
  two_router, by_name,
}

part_of :
    (account : String)
    → get_partition by_name two_router.mapper account
      ≡ (if account == "alice" then pos 0 else pos 1)
unfolding get_partition big_endian wrap64
part_of account = elim (Bool-cases (account == "alice")) [
  | inl hers ↦ rw hers refl
  | inr other ↦ rw other refl
]

abbrev info_of : Bool → ShardInfo
info_of hers = if hers then first_info else second_info

found :
    (account : String)
    → lookup (get_partition by_name two_router.mapper account) two_parts
      ≡ some (info_of (account == "alice"))
unfolding lookup
found account = elim (Bool-cases (account == "alice")) [
  | inl hers ↦ rw (part_of account, hers) refl
  | inr other ↦ rw (part_of account, other) refl
]

resolved :
    (account : String)
    → get_shard_for_account by_name two_router.shard_map account two_router.mapper
      ≡ ok (info_of (account == "alice"))
unfolding get_shard_for_account
resolved account = rw (found account, get_shard_for_account) refl

listed_info : (hers : Bool) → listed (info_of hers).address ("host1" ∷ "host2" ∷ []) ≡ true
listed_info true = refl
listed_info false = refl

apart_cases :
    (hers his : Bool)
    → ((info_of hers).shard_id == (info_of his).shard_id) ≡ false
    → ((info_of hers).address == (info_of his).address) ≡ false
apart_cases true true same = absurd (ground arith)
apart_cases true false other = refl
apart_cases false true other = refl
apart_cases false false same = absurd (ground arith)

apart_infos :
    (hers his : Bool) (shard shard' : ShardInfo)
    → shard ≡ info_of hers
    → shard' ≡ info_of his
    → (shard.shard_id == shard'.shard_id) ≡ false
    → (shard.address == shard'.address) ≡ false
apart_infos hers his shard shard' e e' other =
    let ids : (shard.shard_id == shard'.shard_id)
        ≡ ((info_of hers).shard_id == (info_of his).shard_id) =
      λ i. (e i).shard_id == (e' i).shard_id in
    let addresses : (shard.address == shard'.address)
        ≡ ((info_of hers).address == (info_of his).address) =
      λ i. (e i).address == (e' i).address in
    addresses ∙ apart_cases hers his (sym ids ∙ other)

abbrev info_in : Result ShardMapError ShardInfo → ShardInfo
info_in (ok info) = info
info_in (err e) = first_info

-- The map has two shards.
one_of_two :
    (account : String) (shard : ShardInfo)
    → Resolves by_name two_router account shard
    → shard ≡ info_of (account == "alice")
one_of_two account shard known = ap info_in (sym known ∙ resolved account)

at_rest : (txn : Transaction) → AtRest by_name two_router txn ("host1" ∷ "host2" ∷ []) two_shards
unfolding ◌+ℤ◌
at_rest txn = record {
  once = (refl, (refl, tt));
  known =
      λ account shard known. rw (one_of_two account shard known) (listed_info (account == "alice"));
  apart = λ account account' shard shard' known known' other.
      apart_infos (account == "alice") (account' == "alice") shard shard'
        (one_of_two account shard known) (one_of_two account' shard' known') other;
  calm = λ a there. elim (Bool-cases (a == "host1")) [
    | inl here ↦ rw here refl
    | inr other ↦ rw other refl
  ];
  ready = λ a there. elim (Bool-cases (a == "host1")) [
    | inl here ↦ rw here (alices-IsReady txn.txn_id)
    | inr other ↦ rw other (bobs-IsReady txn.txn_id)
  ];
  sound = (
    record { no_negative = omega arith; bounded = omega arith },
    (record { no_negative = omega arith; bounded = omega arith }, tt),
  );
  bounded = omega arith;
}

route_conserves_example :
    total ("host1" ∷ "host2" ∷ []) (route by_name two_router alice_to_bob two_shards).1
    ≡ total ("host1" ∷ "host2" ∷ []) two_shards
route_conserves_example =
    route_conserves by_name two_router alice_to_bob ("host1" ∷ "host2" ∷ []) two_shards
      (at_rest alice_to_bob)

-- Back again, more than was sent.
abbrev bob_to_alice : Transaction
bob_to_alice = record {
  txn_id = "x2";
  source = "bob";
  destination = "alice";
  amount = pos 75;
  state = pending;
}

-- Carol's account does not exist.
abbrev bob_to_carol : Transaction
bob_to_carol = record {
  txn_id = "x3";
  source = "bob";
  destination = "carol";
  amount = pos 1;
  state = pending;
}

abbrev three : String → Option Transaction
three text =
    if text == "1"
    then some alice_to_bob
    else if text == "2"
    then some bob_to_alice
    else if text == "3"
    then some bob_to_carol
    else none

abbrev four_messages : List String
four_messages = "1" ∷ "2" ∷ "?" ∷ "3" ∷ []

consume_conserves_example :
    total ("host1" ∷ "host2" ∷ []) (consume by_name three two_router four_messages two_shards)
    ≡ total ("host1" ∷ "host2" ∷ []) two_shards
consume_conserves_example =
    consume_conserves by_name three two_router ("host1" ∷ "host2" ∷ []) four_messages two_shards
      (refl, (refl, (refl, tt)))
      (at_rest alice_to_bob, (at_rest bob_to_alice, (at_rest bob_to_carol, tt)))
