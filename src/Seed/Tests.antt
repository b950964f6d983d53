-- ===== src/Seed/Tests.antt =====
-- One account, seeded over a network that loses an answer.
use software_course_project.Seed.Progress.{left_over, arrives, seed_account-arrives}
use software_course_project.Server.State.{set_txn_state}
use software_course_project.Wal.{append, log_entry, write_entry, write_line, mark_committed}
use software_course_project.Ledger.{account_exists, create_account}
use software_course_project.Server.Accounts.{create_account_with_wal}
use software_course_project.Http.Handlers.{handle_create_account}
use software_course_project.Http.Serve.{serve_request, handle}
use software_course_project.Http.Client.{send}
use software_course_project.Int64.{wrap64}
use software_course_project.Hash.{get_partition, big_endian}
use software_course_project.ShardMap.{get_shard_for_account}
use software_course_project.Prelude.{
  ◌↔◌, inr, ◌*◌, ◌≡◌, refl, true, false, none, some, [], ◌∷◌, String, string_eq, ok, arith, ◌==◌,
  All,
}
use software_course_project.Prelude.Int.{pos, ◌≤ℤ◌, ◌<ℤ◌}
use software_course_project.Dict.{contains, insert, lookup}
use software_course_project.Http.{Decoders}
use software_course_project.Router.{Cluster}
use software_course_project.TwoPc.{Remote, reply_lost, request_lost}
use software_course_project.Fixtures.{alices, two_router, by_name}
use software_course_project.Seed.{
  judge, rewrite_shard_addr, seed_one, seed_all, millisecond, backoff, seed_account, seed_run,
}
use software_course_project.Seed.Backoff.{backoff_bounds}
use software_course_project.Seed.Accounts.{held_or, seed_account-IsSeeded}
use software_course_project.Seed.Run.{IsPlaced, seed_run-IsPlaced}

backoff_bounds_example :
    (pos (150 * millisecond) ≤ℤ backoff 124 6)
    × (backoff 124 6 <ℤ pos (2125 * millisecond))
    × (backoff 124 37 <ℤ pos 0)
backoff_bounds_example = backoff_bounds 124 6 (omega arith) (omega arith) (omega arith)

-- The body of a request is the name of its account.
abbrev decoders : Decoders
decoders = record {
  phase = λ s. none;
  transaction = λ s. none;
  partition_id = λ s. none;
  partition = λ s. none;
  account = λ s. some (s, pos 7);
  atoi = λ s. none;
}

abbrev losing : Remote
losing = record { server = alices; network = request_lost ∷ reply_lost ∷ [] }

seed_account-IsSeeded_example :
    ((seed_account by_name (λ s. s) decoders "carol" 3 losing).0 ≡ ok tt
      → lookup "carol"
          (seed_account by_name (λ s. s) decoders "carol" 3 losing).1.server.ledger.balances
        ≡ some (held_or (pos 7) (lookup "carol" alices.ledger.balances)))
    × ((k : String)
        → (k == "carol") ≡ false
        → lookup k
            (seed_account by_name (λ s. s) decoders "carol" 3 losing).1.server.ledger.balances
          ≡ lookup k alices.ledger.balances)
seed_account-IsSeeded_example =
    seed_account-IsSeeded by_name (λ s. s) decoders "carol" "carol" (pos 7) refl refl 3 losing

abbrev places : Cluster
places address = losing

seed_run-IsPlaced_example :
    All
      (IsPlaced by_name
        (λ s. s)
        decoders
        two_router.shard_map
        two_router.mapper
        ""
        (λ s. s)
        (pos 7)
        3
        (seed_run by_name
          (λ s. s)
          decoders
          two_router.shard_map
          two_router.mapper
          ""
          (λ s. s)
          3
          ("carol" ∷ "alice" ∷ [])
          places).1)
      ("carol" ∷ "alice" ∷ [])
unfolding seed_run get_shard_for_account lookup get_partition wrap64 big_endian seed_account judge
    send rewrite_shard_addr serve_request handle handle_create_account create_account_with_wal
    account_exists contains append log_entry write_entry write_line mark_committed create_account
    insert set_txn_state seed_one seed_all
seed_run-IsPlaced_example =
    seed_run-IsPlaced by_name (λ s. s) decoders two_router.shard_map two_router.mapper "" (λ s. s)
      (pos 7) 3 ("carol" ∷ "alice" ∷ []) places ((refl, refl), ((refl, refl), tt)) refl

seed_account-arrives_example :
    (((seed_account by_name (λ s. s) decoders "carol" 3 losing).0 ≡ ok tt)
      ↔ (arrives 3 (request_lost ∷ reply_lost ∷ []) ≡ true))
    × ((seed_account by_name (λ s. s) decoders "carol" 3 losing).1.network
        ≡ left_over 3 (request_lost ∷ reply_lost ∷ []))
seed_account-arrives_example =
    seed_account-arrives by_name (λ s. s) decoders "carol" "carol" (pos 7) refl refl refl 3 losing
      (inr (record { no_failures = refl; not_failed = refl }))
