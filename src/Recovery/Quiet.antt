-- ===== src/Recovery/Quiet.antt =====
-- Entries at the end of the log that commit nothing.
use software_course_project.Prelude.{
  ◌≡◌, ◌∙◌, refl, sym, false, none, List, [], ◌∷◌, ◌++◌, String, Option, string_eq, arith, All,
}
use software_course_project.Prelude.Int.{ℤ}
use software_course_project.Dict.{lookup}
use software_course_project.Ledger.{Ledger}
use software_course_project.Model.{WalEntry}
use software_course_project.Recovery.{recover_entries}
use software_course_project.Recovery.Status.{any_entry, commits}
use software_course_project.Recovery.Balances.{created, touched, net, +ℤ-zero}
use software_course_project.Recovery.Replayed.{committed_in, replayed, recover_entries-replayed}
use software_course_project.Recovery.Extension.{
  any_entry-append, created-append, touched-append, net-append, net-untouched, Agree, created-Agree,
  touched-Agree,
}
use software_course_project.Recovery.Commit.{nothing_created, nothing_touched}
use mathlib.Core.Path.{fun_ext}

-- No entry is a COMMITTED record, and none belongs to a transaction that the log has committed.
abbrev pub IsQuiet : List WalEntry → List WalEntry → Type 0
IsQuiet es = All (λ e. (commits e.op_type ≡ false) × (any_entry commits e.txn_id es ≡ false))

module _ (es : List WalEntry) where
  any_entry-quiet :
      (t : String) (new : List WalEntry) → IsQuiet es new → any_entry commits t new ≡ false
  any_entry-quiet t [] h = refl
  any_entry-quiet t (e ∷ new) h = ground (arith, any_entry-quiet t new h.1)

  to-Agree : (new : List WalEntry) → IsQuiet es new → Agree (committed_in es) (λ _. false) new
  to-Agree [] h = tt
  to-Agree (e ∷ new) h = (h.0.1, to-Agree new h.1)

  module _ (new : List WalEntry) (quiet : IsQuiet es new) (k : String) where
    same_committed : committed_in (es ++ new) ≡ committed_in es
    same_committed =
        fun_ext
          λ t. rw (any_entry-append commits t es new, any_entry-quiet t new quiet) (ground arith)

    nothing_new_created : created (committed_in es) k new ≡ none
    nothing_new_created =
        created-Agree (committed_in es) (λ _. false) k new (to-Agree new quiet)
        ∙ nothing_created k new

    nothing_new_touched : touched (committed_in es) k new ≡ false
    nothing_new_touched =
        touched-Agree (committed_in es) (λ _. false) k new (to-Agree new quiet)
        ∙ nothing_touched k new

    pub replayed-quiet : (before : Option ℤ) → replayed k (es ++ new) before ≡ replayed k es before
    replayed-quiet before =
        rw
          (
            same_committed,
            created-append (committed_in es) k es new,
            touched-append (committed_in es) k es new,
            net-append (committed_in es) k es new,
            nothing_new_created,
            nothing_new_touched,
            net-untouched (committed_in es) k new nothing_new_touched,
            +ℤ-zero (net (committed_in es) k es),
          )
          (ground arith)

    -- Entries that commit nothing change no balance that recovery rebuilds.
    pub recover_entries-quiet :
        (l : Ledger)
        → lookup k (recover_entries (es ++ new) l).1.balances
          ≡ lookup k (recover_entries es l).1.balances
    recover_entries-quiet l =
        recover_entries-replayed k (es ++ new) l
        ∙ replayed-quiet (lookup k l.balances)
        ∙ sym (recover_entries-replayed k es l)
