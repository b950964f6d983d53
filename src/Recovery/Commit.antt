-- ===== src/Recovery/Commit.antt =====
-- What a transaction's entries at the end of the log do to the recovered balances: nothing without
-- its COMMITTED record, and exactly its debits and credits with it.
use software_course_project.Prelude.{
  ◌≡◌, ◌∙◌, refl, sym, ap, Bool, true, false, ◌||◌, Option, none, some, List, [], ◌∷◌, ◌++◌, String,
  string_eq, arith, Bool-cases, inl, inr,
}
use software_course_project.Prelude.Int.{ℤ, pos, ◌+ℤ◌, +ℤ_assoc, int_laws}
use software_course_project.Int64.{wrap64, wrap64-eq, bits-wrap64, bits-+ℤ}
use software_course_project.Dict.{lookup}
use software_course_project.Ledger.{Ledger, balance_or_zero}
use software_course_project.Model.{OperationType, WalEntry}
use software_course_project.Recovery.{recover_entries}
use software_course_project.Recovery.Status.{any_entry, commits}
use software_course_project.Recovery.Balances.{first_of, created, touched, net, +ℤ-zero}
use software_course_project.Recovery.Replayed.{committed_in, replayed, recover_entries-replayed}
use software_course_project.Recovery.Extension.{
  any_entry-append, created-append, touched-append, net-append, net-untouched, Agree, created-Agree,
  touched-Agree, net-Agree, IsFresh, Belongs, extension-Agree,
}

pub any_entry-IsFresh :
    (test : OperationType → Bool) (t : String) (es : List WalEntry)
    → IsFresh t es
    → any_entry test t es ≡ false
any_entry-IsFresh test t [] h = refl
any_entry-IsFresh test t (e ∷ es) h = ground (arith, any_entry-IsFresh test t es h.1)

pub nothing_created : (k : String) (es : List WalEntry) → created (λ _. false) k es ≡ none
nothing_created k [] = refl
nothing_created k (e ∷ es) = ground (arith, nothing_created k es)

pub nothing_touched : (k : String) (es : List WalEntry) → touched (λ _. false) k es ≡ false
nothing_touched k [] = refl
nothing_touched k (e ∷ es) = ground (arith, nothing_touched k es)

module _ (t : String) (es new : List WalEntry) (fresh : IsFresh t es) (own : Belongs t new)
    {c : Bool} (ends : any_entry commits t new ≡ c) where
  own-Agree :
      (part : List WalEntry) → Belongs t part → Agree (committed_in (es ++ new)) (λ _. c) part
  own-Agree [] h = tt
  own-Agree (e ∷ part) h = (
    rw (h.0, any_entry-append commits t es new, any_entry-IsFresh commits t es fresh, ends),
    own-Agree part h.1,
  )

  created_extended :
      (k : String)
      → created (committed_in (es ++ new)) k (es ++ new)
        ≡ first_of (created (λ _. c) k new) (created (committed_in es) k es)
  created_extended k = rw (
    created-append (committed_in (es ++ new)) k es new,
    created-Agree (committed_in (es ++ new)) (λ _. c) k new (own-Agree new own),
    created-Agree (committed_in (es ++ new)) (committed_in es) k es
        (extension-Agree t es es new fresh own),
  )

  touched_extended :
      (k : String)
      → touched (committed_in (es ++ new)) k (es ++ new)
        ≡ touched (committed_in es) k es || touched (λ _. c) k new
  touched_extended k = rw (
    touched-append (committed_in (es ++ new)) k es new,
    touched-Agree (committed_in (es ++ new)) (λ _. c) k new (own-Agree new own),
    touched-Agree (committed_in (es ++ new)) (committed_in es) k es
        (extension-Agree t es es new fresh own),
  )

  net_extended :
      (k : String)
      → net (committed_in (es ++ new)) k (es ++ new)
        ≡ net (committed_in es) k es +ℤ net (λ _. c) k new
  net_extended k = rw (
    net-append (committed_in (es ++ new)) k es new,
    net-Agree (committed_in (es ++ new)) (λ _. c) k new (own-Agree new own),
    net-Agree (committed_in (es ++ new)) (committed_in es) k es
        (extension-Agree t es es new fresh own),
  )

extend_moved : (b n m v : ℤ) → v ≡ wrap64 (b +ℤ n) → wrap64 (b +ℤ (n +ℤ m)) ≡ wrap64 (v +ℤ m)
extend_moved b n m v e =
    wrap64-eq (b +ℤ (n +ℤ m)) (v +ℤ m)
      (rw (← +ℤ_assoc b n m, bits-+ℤ (b +ℤ n) m, bits-+ℤ v m, e, bits-wrap64 (b +ℤ n)))

extend_still :
    (base : Option ℤ) (m v : ℤ)
    → base ≡ some v
    → wrap64 (balance_or_zero base +ℤ (pos 0 +ℤ m)) ≡ wrap64 (v +ℤ m)
extend_still base m v e = rw e (ap wrap64 (omega int_laws))

module _ (t : String) (es new : List WalEntry) (fresh : IsFresh t es) (own : Belongs t new) where
  replayed-uncommitted :
      (k : String) (before : Option ℤ)
      → any_entry commits t new ≡ false
      → replayed k (es ++ new) before ≡ replayed k es before
  replayed-uncommitted k before unfinished =
      rw
        (
          created_extended t es new fresh own unfinished k,
          touched_extended t es new fresh own unfinished k,
          net_extended t es new fresh own unfinished k,
          nothing_created k new,
          nothing_touched k new,
          net-untouched (λ _. false) k new (nothing_touched k new),
          +ℤ-zero (net (committed_in es) k es),
        )
        (ground arith)

  -- Entries of a transaction that is new to the log and has no COMMITTED record change no balance
  -- that recovery rebuilds: a crash before the commit loses the transaction whole.
  pub recover_entries-uncommitted :
      (k : String) (l : Ledger)
      → any_entry commits t new ≡ false
      → lookup k (recover_entries (es ++ new) l).1.balances
        ≡ lookup k (recover_entries es l).1.balances
  recover_entries-uncommitted k l unfinished =
      recover_entries-replayed k (es ++ new) l
      ∙ replayed-uncommitted k (lookup k l.balances) unfinished
      ∙ sym (recover_entries-replayed k es l)

  module _ (closed : any_entry commits t new ≡ true) (k : String) (before : Option ℤ) where
    -- An account that the committed transaction does not name.
    pub replayed-unnamed :
        created (λ _. true) k new ≡ none
        → touched (λ _. true) k new ≡ false
        → replayed k (es ++ new) before ≡ replayed k es before
    replayed-unnamed no_create unnamed =
        rw
          (
            created_extended t es new fresh own closed k,
            touched_extended t es new fresh own closed k,
            net_extended t es new fresh own closed k,
            no_create,
            unnamed,
            net-untouched (λ _. true) k new unnamed,
            +ℤ-zero (net (committed_in es) k es),
          )
          (ground arith)

    -- An account that it names.
    pub replayed-named :
        {v : ℤ}
        → replayed k es before ≡ some v
        → created (λ _. true) k new ≡ none
        → touched (λ _. true) k new ≡ true
        → replayed k (es ++ new) before ≡ some (wrap64 (v +ℤ net (λ _. true) k new))
    replayed-named {v} old no_create named =
        rw
          (
            created_extended t es new fresh own closed k,
            touched_extended t es new fresh own closed k,
            net_extended t es new fresh own closed k,
            no_create,
            named,
          )
          (elim (Bool-cases (touched (committed_in es) k es)) [
            | inl moved ↦ rw moved (
                ap some (
                  extend_moved (balance_or_zero (first_of (created (committed_in es) k es) before))
                    (net (committed_in es) k es) (net (λ _. true) k new) v (ground arith)))
            | inr still ↦
                rw (still, net-untouched (committed_in es) k es still)
                  (ap some (
                    extend_still (first_of (created (committed_in es) k es) before)
                      (net (λ _. true) k new) v (ground arith)))
          ])
