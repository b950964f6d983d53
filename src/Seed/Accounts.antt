-- ===== src/Seed/Accounts.antt =====
-- What the seeding command leaves on the shards.
use software_course_project.Seed.Grown.{
  Grown, Grown-same, Grown-trans, creation-Grown, known_exists,
}
use software_course_project.Prelude.{
  Option-cases, ℕ, zero, suc, ◌≡◌, ◌∙◌, refl, sym, ap, inl, inr, true, false, Option, none, some,
  List, [], ◌∷◌, String, string_eq, Result, ok, err, arith, ◌==◌,
}
use mathlib.Core.Path.{subst}
use software_course_project.Prelude.Int.{ℤ}
use software_course_project.Dict.{lookup, contains}
use software_course_project.Ledger.{Ledger, account_exists}
use software_course_project.Server.State.{ShardServer, Reply, account_exists as exists_already}
use software_course_project.Server.Accounts.{create_account_with_wal}
use software_course_project.TwoPc.{Delivery, delivered, request_lost, reply_lost, Remote}
use software_course_project.Http.{Decoders, Handled}
use software_course_project.Http.Handlers.{create_answer}
use software_course_project.Http.Creation.{created_exists, passed}
use software_course_project.Http.Client.{posted, send}
use software_course_project.Http.Serve.{handle, serve_request}
use software_course_project.Seed.{
  should_retry, request_failed, nothing_sent, SeedError, Round, returns, goes_on, judge, proceed,
  seed_rounds, seed_account,
}

abbrev pub Exists : String → ShardServer → Type 0
Exists id s = account_exists s.ledger id ≡ true

answered_exists :
    (id : String) (q : Reply (Unit {0}))
    → (q.0 ≡ ok tt → Exists id q.1)
    → ((x : String) → q.0 ≡ err (exists_already x) → Exists id q.1)
    → judge (ok (create_answer id q).0) ≡ returns (ok tt)
    → Exists id (create_answer id q).1
unfolding judge should_retry
answered_exists id (ok _, s) created known h = created refl
answered_exists id (err (exists_already x), s) created known h = known x refl
answered_exists id (err e, s) created known h = absurd (ground arith)

create_answer-server : (id : String) (q : Reply (Unit {0})) → (create_answer id q).1 ≡ q.1
create_answer-server id (ok _, s) = refl
create_answer-server id (err (exists_already x), s) = refl
create_answer-server id (err e, s) = refl

module _ (id : String) (balance : ℤ) where
  -- What a run of requests leaves, from a ledger.
  abbrev pub Good : Ledger → Result SeedError (Unit {0}) × Remote → Type 0
  Good l q = Grown id balance l q.1.server.ledger × (q.0 ≡ ok tt → Exists id q.1.server)

  proceed-Good :
      (l : Ledger) (round : Round)
      (later : SeedError → Remote → Result SeedError (Unit {0}) × Remote) (r : Remote)
      → Grown id balance l r.server.ledger
      → (round ≡ returns (ok tt) → Exists id r.server)
      → ((e : SeedError) → Good r.server.ledger (later e r))
      → Good l (proceed round later r)
  proceed-Good l (returns (ok _)) later r grown known rest = (grown, λ h. known refl)
  proceed-Good l (returns (err e)) later r grown known rest = (grown, λ h. absurd (cc))
  proceed-Good l (goes_on e) later r grown known rest = (
    Grown-trans id balance l r.server.ledger (later e r).1.server.ledger grown (rest e).0,
    (rest e).1,
  )

-- The balance of an account that was missing, or its own.
abbrev pub held_or : ℤ → Option ℤ → ℤ
held_or balance none = balance
held_or balance (some held) = held

module _ (sha256 : String → List ℕ) (create_id : String → String) (decode : Decoders)
    (body id : String) (balance : ℤ) (reads : decode.account body ≡ some (id, balance))
    (named : (id == "") ≡ false) where
  abbrev pub request : ShardServer → Handled
  request = serve_request sha256 create_id "/create-account" decode (posted body)

  pub served :
      (s : ShardServer)
      → request s ≡ create_answer id (create_account_with_wal create_id id balance s)
  unfolding serve_request handle lookup
  served s = passed create_id decode (posted body) s s id balance refl reads named

  request-Grown : (s : ShardServer) → Grown id balance s.ledger (request s).1.ledger
  request-Grown s =
      let q = create_account_with_wal create_id id balance s in
      let same = ap (λ h. h.1) (served s) ∙ create_answer-server id q in
      subst (λ x. Grown id balance s.ledger x.ledger) (sym same)
        (creation-Grown create_id id balance s)

  request-Exists :
      (s : ShardServer) → judge (ok (request s).0) ≡ returns (ok tt) → Exists id (request s).1
  request-Exists s h =
      let q = create_account_with_wal create_id id balance s in
      subst (λ x. judge (ok x.0) ≡ returns (ok tt) → Exists id x.1) (sym (served s))
        (answered_exists id q (created_exists create_id decode (posted body) s id balance)
          (known_exists create_id id balance s))
        h

  pub rounds_over :
      (n : ℕ) (last : SeedError) (s : ShardServer) (network : List Delivery)
      → Good id balance s.ledger (
          seed_rounds sha256 create_id decode body n last
            (record { server = s; network = network }))
  unfolding seed_rounds send judge
  rounds_over zero last s network = (Grown-same id balance s.ledger s.ledger refl, λ h. absurd (cc))
  rounds_over (suc n) last s [] =
      proceed-Good id balance s.ledger (judge (ok (request s).0))
        (seed_rounds sha256 create_id decode body n)
        (record { server = (request s).1; network = [] }) (request-Grown s) (request-Exists s)
        (λ e. rounds_over n e (request s).1 [])
  rounds_over (suc n) last s (delivered ∷ rest) =
      proceed-Good id balance s.ledger (judge (ok (request s).0))
        (seed_rounds sha256 create_id decode body n)
        (record { server = (request s).1; network = rest }) (request-Grown s) (request-Exists s)
        (λ e. rounds_over n e (request s).1 rest)
  rounds_over (suc n) last s (request_lost ∷ rest) = rounds_over n request_failed s rest
  rounds_over (suc n) last s (reply_lost ∷ rest) =
      let (grown, known) = rounds_over n request_failed (request s).1 rest in
      (Grown-trans id balance s.ledger (request s).1.ledger _ (request-Grown s) grown, known)

  seeded_balance :
      (l l' : Ledger)
      → Grown id balance l l'
      → account_exists l' id ≡ true
      → lookup id l'.balances ≡ some (held_or balance (lookup id l.balances))
  unfolding account_exists contains
  seeded_balance l l' g known = elim g.own [
    | inl kept ↦ elim (Option-cases (lookup id l'.balances)) [
      | inl gone ↦ absurd (ground arith)
      | inr (v, held) ↦ held ∙ ap (λ o. some (held_or balance o)) (sym (sym kept ∙ held))
    ]
    | inr (missing, held) ↦ rw missing held
  ]

  -- Over any network, which may lose requests and answers, and on any disk, an account that the
  -- command reports as seeded is on the shard, with the starting balance if it was missing and with
  -- its own balance otherwise, after however many retries; and whether it succeeds or not, every
  -- other account is as before.
  pub seed_account-IsSeeded :
      (max_retries : ℕ) (r : Remote)
      → ((seed_account sha256 create_id decode body max_retries r).0 ≡ ok tt
          → lookup id
              (seed_account sha256 create_id decode body max_retries r).1.server.ledger.balances
            ≡ some (held_or balance (lookup id r.server.ledger.balances)))
        × ((k : String)
            → (k == id) ≡ false
            → lookup k
                (seed_account sha256 create_id decode body max_retries r).1.server.ledger.balances
              ≡ lookup k r.server.ledger.balances)
  unfolding seed_account
  seed_account-IsSeeded max_retries r =
      let (grown, known) = rounds_over max_retries nothing_sent r.server r.network in
      (λ done. seeded_balance r.server.ledger _ grown (known done), grown.others)
