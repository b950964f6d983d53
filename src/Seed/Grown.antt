-- ===== src/Seed/Grown.antt =====
-- What the requests to create an account make of the balances of a shard.
use software_course_project.Prelude.{
  ◌≡◌, ◌∙◌, refl, sym, ap, ◌⊎◌, inl, inr, true, false, none, some, String, string_eq, ok, err,
  arith, ◌==◌, ==_iff, Bool-cases, Result-cases,
}
use mathlib.Core.Path.{subst}
use software_course_project.Prelude.Int.{ℤ}
use software_course_project.Dict.{lookup, contains, insert}
use software_course_project.Dict.Laws.{lookup-insert}
use software_course_project.Ledger.{Ledger, account_exists, create_account}
use software_course_project.Model.{op_create_account}
use software_course_project.Wal.{append, mark_committed}
use software_course_project.Server.State.{
  ShardServer, set_txn_state, mark_aborted_quietly, account_exists as exists_already,
}
use software_course_project.Server.Accounts.{create_account_with_wal}

-- What requests to create the account make of a ledger: the account is as before, or it was missing
-- and has the balance; every other account is as before.
pub record Grown (id : String) (balance : ℤ) (l l' : Ledger) : Type 0 where
  pub others : (k : String) → (k == id) ≡ false → lookup k l'.balances ≡ lookup k l.balances
  pub own :
      (lookup id l'.balances ≡ lookup id l.balances)
      ⊎ ((lookup id l.balances ≡ none) × (lookup id l'.balances ≡ some balance))

module _ (id : String) (balance : ℤ) where
  pub Grown-same : (l l' : Ledger) → l' ≡ l → Grown id balance l l'
  Grown-same l l' e = record {
    others = λ k other. ap (λ x. lookup k x.balances) e;
    own = inl (ap (λ x. lookup id x.balances) e);
  }

  pub Grown-trans :
      (l m n : Ledger) → Grown id balance l m → Grown id balance m n → Grown id balance l n
  Grown-trans l m n g h = record {
    others = λ k other. h.others k other ∙ g.others k other;
    own = both g.own h.own;
  }
    where
      both :
          (lookup id m.balances ≡ lookup id l.balances)
            ⊎ ((lookup id l.balances ≡ none) × (lookup id m.balances ≡ some balance))
          → (lookup id n.balances ≡ lookup id m.balances)
            ⊎ ((lookup id m.balances ≡ none) × (lookup id n.balances ≡ some balance))
          → (lookup id n.balances ≡ lookup id l.balances)
            ⊎ ((lookup id l.balances ≡ none) × (lookup id n.balances ≡ some balance))
      both (inl a) (inl b) = inl (b ∙ a)
      both (inl a) (inr (missing, held)) = inr (sym a ∙ missing, held)
      both (inr (missing, held)) (inl b) = inr (missing, b ∙ held)
      both (inr (missing, held)) (inr (missing', held')) = absurd (cc)

  inserted-Grown :
      (l : Ledger)
      → account_exists l id ≡ false
      → Grown id balance l (record { balances = insert id balance l.balances })
  unfolding account_exists contains
  inserted-Grown l new = record {
    others = λ k other.
        rw (lookup-insert k id balance l.balances) (ground (arith, ==_iff k id, ==_iff id k));
    own =
        inr (
          ground arith,
          rw (lookup-insert id id balance l.balances) (ground (arith, ==_iff id id)),
        );
  }

module _ (create_id : String → String) (id : String) (balance : ℤ) where
  created_Grown :
      (l : Ledger)
      → (create_account l id balance).0 ≡ ok tt
      → Grown id balance l (create_account l id balance).1
  unfolding create_account
  created_Grown l done =
      let new : account_exists l id ≡ false = unfold account_exists in ground arith in
      let same : (create_account l id balance).1
          ≡ record { balances = insert id balance l.balances } =
        ground arith in
      subst (Grown id balance l) (sym same) (inserted-Grown id balance l new)

  pub creation-Grown :
      (s : ShardServer)
      → Grown id balance s.ledger (create_account_with_wal create_id id balance s).1.ledger
  unfolding create_account_with_wal set_txn_state mark_aborted_quietly
  creation-Grown s =
      let (logged, w) = append (create_id id) op_create_account id balance s.wal_log in
      let unchanged = Grown-same id balance s.ledger s.ledger refl in
      elim (Bool-cases (account_exists s.ledger id)) [
        | inl known ↦ rw known unchanged
        | inr new ↦ elim (Result-cases logged) [
          | inr (e, failed) ↦ rw (new, failed) unchanged
          | inl (n, written) ↦ elim (Result-cases (create_account s.ledger id balance).0) [
            | inr (e, refused) ↦ rw (new, written, refused) unchanged
            | inl (done, created) ↦ elim (Result-cases (mark_committed (create_id id) w).0) [
              | inr (e, unmarked) ↦
                  rw (new, written, created, unmarked) (created_Grown s.ledger created)
              | inl (marked, ends) ↦
                  rw (new, written, created, ends) (created_Grown s.ledger created)
            ]
          ]
        ]
      ]

  pub known_exists :
      (s : ShardServer) (x : String)
      → (create_account_with_wal create_id id balance s).0 ≡ err (exists_already x)
      → account_exists (create_account_with_wal create_id id balance s).1.ledger id ≡ true
  unfolding create_account_with_wal
  known_exists s x h = ground arith
