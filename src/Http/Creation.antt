-- ===== src/Http/Creation.antt =====
-- A request to create an account, sent again.
use mathlib.Core.Path.{subst}
use software_course_project.Prelude.{
  ◌∙◌, sym, ap, Bool-cases, ◌≡◌, refl, true, false, some, String, string_eq, arith, ◌==◌, ==_iff,
  Option-cases, inl, inr, ok, err,
}
use software_course_project.Prelude.Int.{ℤ}
use software_course_project.Dict.{contains}
use software_course_project.Dict.Laws.{lookup-insert}
use software_course_project.Ledger.{account_exists, create_account}
use software_course_project.Server.State.{
  Reply, ShardServer, set_txn_state, account_exists as exists_already,
}
use software_course_project.Server.Accounts.{create_account_with_wal}
use software_course_project.Http.{is_post, Request, Decoders, respond, account_status}
use software_course_project.Http.Handlers.{create_answer, handle_create_account}

module _ (create_id : String → String) (decode : Decoders) (r : Request) (s : ShardServer) where
  pub created_exists :
      (id : String) (balance : ℤ)
      → (create_account_with_wal create_id id balance s).0 ≡ ok tt
      → account_exists (create_account_with_wal create_id id balance s).1.ledger id ≡ true
  unfolding create_account_with_wal create_account account_exists set_txn_state contains
  created_exists id balance done =
      ground (arith, lookup-insert id id balance s.ledger.balances, ==_iff id id)

  pub exists_refused :
      (id : String) (balance : ℤ) (s' : ShardServer)
      → account_exists s'.ledger id ≡ true
      → create_account_with_wal create_id id balance s' ≡ (err (exists_already id), s')
  unfolding create_account_with_wal
  exists_refused id balance s' known = rw known refl

  created_answer :
      (id : String) (q : Reply (Unit {0}))
      → (create_answer id q).0.code ≡ 201
      → (q.0 ≡ ok tt) × ((create_answer id q).1 ≡ q.1)
  created_answer id (ok _, s') h = (refl, refl)
  created_answer id (err e, s') h = absurd (ground arith)

  pub passed :
      (now : ShardServer) (id : String) (balance : ℤ)
      → is_post r.method ≡ true
      → decode.account r.body ≡ some (id, balance)
      → (id == "") ≡ false
      → handle_create_account create_id decode r now
        ≡ create_answer id (create_account_with_wal create_id id balance now)
  unfolding handle_create_account
  passed now id balance posts reads named = rw (posts, reads, named) refl

  -- What a request that created an account has passed.
  record Created : Type 0 where
    id : String
    balance : ℤ
    posts : is_post r.method ≡ true
    reads : decode.account r.body ≡ some (id, balance)
    named : (id == "") ≡ false
    done : (create_account_with_wal create_id id balance s).0 ≡ ok tt
    after :
        (handle_create_account create_id decode r s).1
        ≡ (create_account_with_wal create_id id balance s).1

  to-Created : (handle_create_account create_id decode r s).0.code ≡ 201 → Created
  unfolding handle_create_account
  to-Created created = elim (Bool-cases (is_post r.method)) [
    | inr other ↦ absurd (ground arith)
    | inl posts ↦ elim (Option-cases (decode.account r.body)) [
      | inl bad ↦ absurd (ground arith)
      | inr ((id, balance), reads) ↦ elim (Bool-cases (id == "")) [
        | inl empty ↦ absurd (ground arith)
        | inr named ↦
            let q = create_account_with_wal create_id id balance s in
            let same = passed s id balance posts reads named in
            let (done, after) = created_answer id q (sym (ap (λ h. h.0.code) same) ∙ created) in
            record {
              id = id;
              balance = balance;
              posts = posts;
              reads = reads;
              named = named;
              done = done;
              after = ap (λ h. h.1) same ∙ after;
            }
      ]
    ]
  ]

  -- A request that created an account (201), sent again, is answered with 200, and that the account
  -- exists, and changes nothing.
  pub handle_create_account_twice :
      (handle_create_account create_id decode r s).0.code ≡ 201
      → (id : String) × (handle_create_account create_id decode r
            (handle_create_account create_id decode r s).1
          ≡ (
            respond 200 (account_status "exists" id),
            (handle_create_account create_id decode r s).1,
          ))
  handle_create_account_twice created =
      let c = to-Created created in
      let now = (handle_create_account create_id decode r s).1 in
      let known =
        subst (λ x. account_exists x.ledger c.id ≡ true) (sym c.after)
          (created_exists c.id c.balance c.done) in
      (
        c.id,
        passed now c.id c.balance c.posts c.reads c.named
            ∙ ap (create_answer c.id) (exists_refused c.id c.balance now known),
      )
