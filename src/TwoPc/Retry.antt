-- ===== src/TwoPc/Retry.antt =====
-- The retries of the coordinator: whatever the network loses, a COMMIT is served at most once.
use mathlib.Core.Path.{subst}
use software_course_project.Prelude.{
  ℕ, zero, suc, ◌≡◌, refl, sym, ap, Bool, true, false, List, [], ◌∷◌, String, ok, if◌then◌else◌,
}
use software_course_project.Prelude.Int.{ℤ}
use software_course_project.Model.{OperationType}
use software_course_project.Server.State.{ShardServer}
use software_course_project.Server.TwoPhase.{commit_transaction}
use software_course_project.Server.Idempotence.{commit_transaction_twice}
use software_course_project.TwoPc.{
  Delivery, delivered, request_lost, reply_lost, call, commit_attempts, commit_with_retry,
}

-- Does one of the first `n` requests reach the shard?
unfoldable pub reaches : ℕ → List Delivery → Bool
reaches zero network = false
reaches (suc n) [] = true
reaches (suc n) (delivered ∷ rest) = true
reaches (suc n) (reply_lost ∷ rest) = true
reaches (suc n) (request_lost ∷ rest) = reaches n rest

module _ (t : String) (op : OperationType) (id : String) (a : ℤ) (s s' : ShardServer)
    (serves : commit_transaction t op id a s ≡ (ok tt, s')) where
  -- Once the shard has committed, the rest of the attempts change nothing.
  attempts_after :
      (n : ℕ) (network : List Delivery)
      → (commit_attempts n t op id a (record { server = s'; network = network })).1.server ≡ s'
  unfolding commit_attempts call
  attempts_after zero network = refl
  attempts_after (suc n) [] =
      let again = (commit_transaction_twice t op id a s s' serves).0 in
      rw (ap (λ x. x.0) again) (ap (λ x. x.1) again)
  attempts_after (suc n) (delivered ∷ rest) =
      let again = (commit_transaction_twice t op id a s s' serves).0 in
      rw (ap (λ x. x.0) again) (ap (λ x. x.1) again)
  attempts_after (suc n) (request_lost ∷ rest) = attempts_after n rest
  attempts_after (suc n) (reply_lost ∷ rest) =
      let again = (commit_transaction_twice t op id a s s' serves).0 in
      subst
        (λ x. (commit_attempts n t op id a (record { server = x.1; network = rest })).1.server ≡ s')
        (sym again) (attempts_after n rest)

  attempts_once :
      (n : ℕ) (network : List Delivery)
      → (commit_attempts n t op id a (record { server = s; network = network })).1.server
        ≡ (if reaches n network then s' else s)
  unfolding commit_attempts call reaches
  attempts_once zero network = refl
  attempts_once (suc n) [] = rw (ap (λ x. x.0) serves) (ap (λ x. x.1) serves)
  attempts_once (suc n) (delivered ∷ rest) = rw (ap (λ x. x.0) serves) (ap (λ x. x.1) serves)
  attempts_once (suc n) (request_lost ∷ rest) = attempts_once n rest
  attempts_once (suc n) (reply_lost ∷ rest) =
      subst
        (λ x. (commit_attempts n t op id a (record { server = x.1; network = rest })).1.server ≡ s')
        (sym serves) (attempts_after n rest)

  -- Over any network, a COMMIT that the shard would serve is served once if one of the three
  -- requests reaches the shard, also when answers are lost, and never otherwise: the retries do not
  -- repeat its effect.
  pub commit_with_retry_once :
      (network : List Delivery)
      → (commit_with_retry t op id a (record { server = s; network = network })).1.server
        ≡ (if reaches 3 network then s' else s)
  unfolding commit_with_retry
  commit_with_retry_once network = attempts_once 3 network
