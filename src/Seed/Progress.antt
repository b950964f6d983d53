-- ===== src/Seed/Progress.antt =====
-- When the seeding command succeeds for an account.
use software_course_project.Prelude.{
  ℕ, zero, suc, ◌≡◌, refl, ap, ◌⊎◌, ◌↔◌, inl, inr, Bool, true, false, some, List, [], ◌∷◌, String,
  string_eq, ok, err, arith, ◌==◌, Bool-cases,
}
use software_course_project.Prelude.Int.{ℤ, pos, ltb_ℤ}
use software_course_project.Ledger.{account_exists, create_account}
use software_course_project.Model.{op_create_account}
use software_course_project.Wal.{plain_entry}
use software_course_project.Wal.Working.{
  IsWorking, logged, logged-IsWorking, append_working, mark_committed_working,
}
use software_course_project.Server.State.{ShardServer, Reply}
use software_course_project.Server.Accounts.{create_account_with_wal}
use software_course_project.TwoPc.{Delivery, delivered, request_lost, reply_lost, Remote}
use software_course_project.Http.{Decoders, Response}
use software_course_project.Http.Client.{send, posted}
use software_course_project.Http.Handlers.{create_answer}
use software_course_project.Http.Creation.{exists_refused, created_exists}
use software_course_project.Seed.{
  SeedError, request_failed, nothing_sent, returns, judge, proceed, seed_rounds, seed_account,
}
use software_course_project.Seed.Accounts.{Exists, request, served}

-- One of the next requests arrives and so does its answer.
abbrev pub arrives : ℕ → List Delivery → Bool
arrives zero network = false
arrives (suc n) [] = true
arrives (suc n) (delivered ∷ rest) = true
arrives (suc n) (request_lost ∷ rest) = arrives n rest
arrives (suc n) (reply_lost ∷ rest) = arrives n rest

-- What the network still holds when the requests have been sent: they end with the first that arrives
-- with its answer, and at the latest with the last that is allowed.
abbrev pub left_over : ℕ → List Delivery → List Delivery
left_over zero network = network
left_over (suc n) [] = []
left_over (suc n) (delivered ∷ rest) = rest
left_over (suc n) (request_lost ∷ rest) = left_over n rest
left_over (suc n) (reply_lost ∷ rest) = left_over n rest

module _ (sha256 : String → List ℕ) (create_id : String → String) (decode : Decoders)
    (body id : String) (balance : ℤ) (reads : decode.account body ≡ some (id, balance))
    (named : (id == "") ≡ false) (positive : ltb_ℤ balance (pos 0) ≡ false) where
  -- The shard has the account, or its disk works.
  abbrev CanServe : ShardServer → Type 0
  CanServe s = Exists id s ⊎ IsWorking s.wal_log

  abbrev ask : ShardServer → Response × ShardServer
  ask = request sha256 create_id decode body id balance reads named

  creates :
      (s : ShardServer)
      → account_exists s.ledger id ≡ false
      → IsWorking s.wal_log
      → (create_account_with_wal create_id id balance s).0 ≡ ok tt
  unfolding create_account_with_wal
  creates s new working =
      let w = s.wal_log in
      let taken = plain_entry w.next_log_id (create_id id) op_create_account id balance in
      let made : (create_account s.ledger id balance).0 ≡ ok tt =
        unfold create_account account_exists in ground arith in
      let appended = append_working w working (create_id id) op_create_account id balance in
      rw
        (
          new,
          ap (λ q. q.0) appended,
          made,
          ap (λ q. q.1) appended,
          mark_committed_working (logged taken w) (logged-IsWorking taken w working) (create_id id),
        )
        refl

  answer_ok :
      (q : Reply (Unit {0}))
      → q.0 ≡ ok tt
      → (judge (ok (create_answer id q).0) ≡ returns (ok tt)) × ((create_answer id q).1 ≡ q.1)
  unfolding judge
  answer_ok (ok _, s) done = (refl, refl)
  answer_ok (err e, s) done = absurd (cc)

  asked :
      (s : ShardServer)
      → CanServe s
      → (judge (ok (ask s).0) ≡ returns (ok tt)) × Exists id (ask s).1
  unfolding judge
  asked s can = elim (Bool-cases (account_exists s.ledger id)) [
    | inl known ↦
        rw
          (
            served sha256 create_id decode body id balance reads named s,
            exists_refused create_id decode (posted body) s id balance s known,
          )
          (refl, known)
    | inr new ↦ elim can [
      | inl known ↦ absurd (ground arith)
      | inr working ↦
          let q = create_account_with_wal create_id id balance s in
          let done = creates s new working in
          let (good, same) = answer_ok q done in
          rw (served sha256 create_id decode body id balance reads named s, same)
            (good, created_exists create_id decode (posted body) s id balance done)
    ]
  ]

  gets_through :
      (n : ℕ) (last : SeedError) (s : ShardServer) (network : List Delivery)
      → CanServe s
      → ((seed_rounds sha256 create_id decode body n last
            (record { server = s; network = network })).0
          ≡ ok tt)
        ↔ (arrives n network ≡ true)
  unfolding seed_rounds send judge
  gets_through zero last s network can = (λ h. absurd (cc), λ h. absurd (cc))
  gets_through (suc n) last s [] can = (
    λ h. refl,
    λ h.
        ap
          (λ v.
            (proceed v (seed_rounds sha256 create_id decode body n)
              (record { server = (ask s).1; network = [] })).0)
          (asked s can).0,
  )
  gets_through (suc n) last s (delivered ∷ rest) can = (
    λ h. refl,
    λ h.
        ap
          (λ v.
            (proceed v (seed_rounds sha256 create_id decode body n)
              (record { server = (ask s).1; network = rest })).0)
          (asked s can).0,
  )
  gets_through (suc n) last s (request_lost ∷ rest) can = gets_through n request_failed s rest can
  gets_through (suc n) last s (reply_lost ∷ rest) can =
      gets_through n request_failed (ask s).1 rest (inl (asked s can).1)

  uses :
      (n : ℕ) (last : SeedError) (s : ShardServer) (network : List Delivery)
      → CanServe s
      → (seed_rounds sha256 create_id decode body n last
          (record { server = s; network = network })).1.network
        ≡ left_over n network
  unfolding seed_rounds send judge
  uses zero last s network can = refl
  uses (suc n) last s [] can =
      ap
        (λ v.
          (proceed v (seed_rounds sha256 create_id decode body n)
            (record { server = (ask s).1; network = [] })).1.network)
        (asked s can).0
  uses (suc n) last s (delivered ∷ rest) can =
      ap
        (λ v.
          (proceed v (seed_rounds sha256 create_id decode body n)
            (record { server = (ask s).1; network = rest })).1.network)
        (asked s can).0
  uses (suc n) last s (request_lost ∷ rest) can = uses n request_failed s rest can
  uses (suc n) last s (reply_lost ∷ rest) can =
      uses n request_failed (ask s).1 rest (inl (asked s can).1)

  -- On a shard that has the account or whose disk works, seeding an account, with a name and a
  -- starting balance that is not negative, sends requests until one arrives and is answered over the
  -- network, and no more than the allowed number: what the network still holds for later requests is
  -- what is behind the last of these. It succeeds exactly when one of them arrives and is answered.
  pub seed_account-arrives :
      (max_retries : ℕ) (r : Remote)
      → Exists id r.server ⊎ IsWorking r.server.wal_log
      → let (answer, r') = seed_account sha256 create_id decode body max_retries r in
        ((answer ≡ ok tt) ↔ (arrives max_retries r.network ≡ true))
        × (r'.network ≡ left_over max_retries r.network)
  unfolding seed_account
  seed_account-arrives max_retries r can = (
    gets_through max_retries nothing_sent r.server r.network can,
    uses max_retries nothing_sent r.server r.network can,
  )
