-- ===== src/Server/Checkpoint.antt =====
-- `Checkpoint`: what the store holds after it.
use mathlib.Core.Path.{subst}
use software_course_project.Prelude.{
  ℕ, ◌≡◌, ◌∙◌, refl, ap, inl, inr, Bool, Option, none, some, List, [], String, string_eq, ok, err,
  arith, Result-cases, Option-cases,
}
use software_course_project.Prelude.Int.{ℤ}
use software_course_project.Dict.{Dict, lookup, IsMap}
use software_course_project.Ledger.{new_ledger, get_balance, load_balances, snapshot, copy_balances}
use software_course_project.Ledger.Snapshots.{load_balances-snapshot}
use software_course_project.Wal.{write_checkpoint}
use software_course_project.Storage.{
  opened, holds, JsonStore, persist, new_json_store, get_balance as stored_balance,
  batch_set_balances, get_checkpoint_log_id, set_checkpoint_log_id,
}
use software_course_project.Server.State.{ShardServer, Reply}
use software_course_project.Server.Accounts.{checkpoint_in, checkpoint}

batch_set_balances-current :
    (st : JsonStore) (b : Dict String ℤ)
    → (batch_set_balances st b).1.current.balances ≡ copy_balances b []
unfolding batch_set_balances persist
batch_set_balances-current st b = ground arith

set_checkpoint_log_id-saved :
    (st : JsonStore) (id : ℕ)
    → (set_checkpoint_log_id st id).0 ≡ ok tt
    → ((set_checkpoint_log_id st id).1.saved.balances ≡ st.current.balances)
      × ((set_checkpoint_log_id st id).1.saved.checkpoint_log_id ≡ id)
unfolding set_checkpoint_log_id persist
set_checkpoint_log_id-saved st id done = ground arith

module _ (s : ShardServer) (k : String) (h : IsMap s.ledger.balances) where
  abbrev SavedIn : Option JsonStore → Type 0
  SavedIn none = Unit {0}
  SavedIn (some st) =
      (lookup k st.saved.balances ≡ get_balance s.ledger k)
      × (st.saved.checkpoint_log_id ≡ s.wal_log.next_log_id)

  abbrev Saved : Reply (Unit {0}) → Type 0
  Saved (ok _, s') = SavedIn s'.store × (s'.ledger ≡ s.ledger)
  Saved (err e, s') = Unit {0}

  copied : lookup k (copy_balances (snapshot s.ledger) []) ≡ get_balance s.ledger k
  unfolding load_balances get_balance
  copied = load_balances-snapshot s.ledger new_ledger k h

  checkpoint_in-Saved : (st : JsonStore) → Saved (checkpoint_in st s)
  unfolding checkpoint_in
  checkpoint_in-Saved st =
      let (r, st') = batch_set_balances st (snapshot s.ledger) in
      let id = s.wal_log.next_log_id in
      elim (Result-cases r) [
        | inr (x, failed) ↦ rw (failed, checkpoint_in) tt
        | inl (_, stored) ↦
            rw (stored, checkpoint_in)
              (elim (Result-cases (write_checkpoint id s.wal_log).0) [
                | inr (x, failed) ↦ rw failed tt
                | inl (_, logged) ↦
                    rw logged (elim (Result-cases (set_checkpoint_log_id st' id).0) [
                      | inr (x, failed) ↦ rw failed tt
                      | inl (_, marked) ↦
                          let (kept, noted) = set_checkpoint_log_id-saved st' id marked in
                          rw marked (
                            (
                              ap (λ m. lookup k m)
                                    (kept ∙ batch_set_balances-current st (snapshot s.ledger))
                                  ∙ copied,
                              noted,
                            ),
                            refl,
                          )
                    ])
              ])
      ]

  checkpoint-Saved : Saved (checkpoint s)
  unfolding checkpoint
  checkpoint-Saved = elim (Option-cases s.store) [
    | inl absent ↦ rw (absent, checkpoint) tt
    | inr (st, present) ↦ rw (present, checkpoint) (checkpoint_in-Saved st)
  ]

  -- After a checkpoint that succeeded the store's file is opened again without an error, and holds
  -- every balance of the ledger and the log ID at which the checkpoint was taken, and the ledger is as
  -- it was.
  pub checkpoint-new_json_store :
      (s' : ShardServer) (st : JsonStore) (saves : List Bool)
      → checkpoint s ≡ (ok tt, s')
      → s'.store ≡ some st
      → let reopened = opened st.saved saves in
        (new_json_store (holds st.saved) saves ≡ ok reopened)
        × (stored_balance reopened k ≡ get_balance s.ledger k)
        × (get_checkpoint_log_id reopened ≡ s.wal_log.next_log_id)
        × (s'.ledger ≡ s.ledger)
  unfolding stored_balance get_checkpoint_log_id new_json_store
  checkpoint-new_json_store s' st saves done held =
      let (inside, same) = subst Saved done checkpoint-Saved in
      let (found, noted) = subst SavedIn held inside in (refl, found, noted, same)
