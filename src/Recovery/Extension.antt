-- ===== src/Recovery/Extension.antt =====
-- How the replayed balances change when a transaction's entries are added at the end of the log.
use software_course_project.Prelude.{
  ◌≡◌, refl, sym, Bool, false, ◌||◌, List, [], ◌∷◌, ◌++◌, String, string_eq, arith, ◌==◌, ==_iff,
  All,
}
use software_course_project.Prelude.Int.{pos, ◌+ℤ◌, +ℤ_assoc, int_laws}
use software_course_project.Model.{OperationType, WalEntry}
use software_course_project.Recovery.Status.{any_entry, commits}
use software_course_project.Recovery.Balances.{first_of, created, touched, net, +ℤ-zero}
use software_course_project.Recovery.Replayed.{committed_in}

pub any_entry-append :
    (test : OperationType → Bool) (t : String) (es new : List WalEntry)
    → any_entry test t (es ++ new) ≡ any_entry test t es || any_entry test t new
any_entry-append test t [] new = refl
any_entry-append test t (e ∷ es) new = rw (any_entry-append test t es new) (ground arith)

module _ (f : String → Bool) (k : String) where
  pub created-append :
      (es new : List WalEntry)
      → created f k (es ++ new) ≡ first_of (created f k new) (created f k es)
  created-append [] new = ground arith
  created-append (e ∷ es) new = rw (created-append es new) (ground arith)

  pub touched-append :
      (es new : List WalEntry) → touched f k (es ++ new) ≡ touched f k es || touched f k new
  touched-append [] new = refl
  touched-append (e ∷ es) new = rw (touched-append es new) (ground arith)

  pub net-append : (es new : List WalEntry) → net f k (es ++ new) ≡ net f k es +ℤ net f k new
  net-append [] new = omega int_laws
  net-append (e ∷ es) new = rw (net-append es new) (sym (+ℤ_assoc _ (net f k es) (net f k new)))

  pub net-untouched : (es : List WalEntry) → touched f k es ≡ false → net f k es ≡ pos 0
  net-untouched [] h = refl
  net-untouched (e ∷ es) h = ground (arith, net-untouched es, +ℤ-zero (pos 0))

-- Two readings of which transactions committed that agree on a log's transactions replay it alike.
abbrev pub Agree : (String → Bool) → (String → Bool) → List WalEntry → Type 0
Agree f g = All (λ e. f e.txn_id ≡ g e.txn_id)

module _ (f g : String → Bool) (k : String) where
  pub created-Agree : (es : List WalEntry) → Agree f g es → created f k es ≡ created g k es
  created-Agree [] h = refl
  created-Agree (e ∷ es) h = rw (created-Agree es h.1, h.0)

  pub touched-Agree : (es : List WalEntry) → Agree f g es → touched f k es ≡ touched g k es
  touched-Agree [] h = refl
  touched-Agree (e ∷ es) h = rw (touched-Agree es h.1, h.0)

  pub net-Agree : (es : List WalEntry) → Agree f g es → net f k es ≡ net g k es
  net-Agree [] h = refl
  net-Agree (e ∷ es) h = rw (net-Agree es h.1, h.0)

-- No entry of the log belongs to the transaction.
abbrev pub IsFresh : String → List WalEntry → Type 0
IsFresh t = All (λ e. (t == e.txn_id) ≡ false)

-- Every entry belongs to the transaction.
abbrev pub Belongs : String → List WalEntry → Type 0
Belongs t = All (λ e. e.txn_id ≡ t)

pub any_entry-Belongs :
    (test : OperationType → Bool) (t u : String) (new : List WalEntry)
    → Belongs t new
    → (t == u) ≡ false
    → any_entry test u new ≡ false
any_entry-Belongs test t u [] h other = refl
any_entry-Belongs test t u (e ∷ new) h other =
    ground (arith, any_entry-Belongs test t u new h.1 other, ==_iff u e.txn_id, ==_iff t u)

pub extension-Agree :
    (t : String) (all es new : List WalEntry)
    → IsFresh t es
    → Belongs t new
    → Agree (committed_in (all ++ new)) (committed_in all) es
extension-Agree t all [] new fresh own = tt
extension-Agree t all (e ∷ es) new fresh own = (
  rw
      (
        any_entry-append commits e.txn_id all new,
        any_entry-Belongs commits t e.txn_id new own fresh.0,
      )
      (ground arith),
  extension-Agree t all es new fresh.1 own,
)
