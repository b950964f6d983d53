-- ===== src/Recovery/Replayed.antt =====
-- The loops of `Recover` over a whole log, and the balances that it leaves.
use software_course_project.Prelude.{
  ◌+◌, ◌%◌, ◌^◌, ◌≡◌, ◌∙◌, refl, sym, ap, Bool, false, ◌&&◌, ◌||◌, Option, some, List, [], ◌∷◌,
  String, string_eq, arith, ◌==◌, ==_iff, if◌then◌else◌,
}
use software_course_project.Prelude.Int.{ℤ, pos, ◌+ℤ◌, +ℤ_assoc}
use software_course_project.Int64.{add64, wrap64, wrap64-eq, bits, bits-+ℤ}
use software_course_project.Dict.{Dict, lookup, contains, insert, IsMap}
use software_course_project.Dict.Laws.{lookup-insert}
use software_course_project.Ledger.{Ledger, get_balance, set_balance, balance_or_zero}
use software_course_project.Model.{WalEntry}
use software_course_project.Recovery.{
  States, Replay, is_committed, build_final_state_map, replay_entry, replay_loop, apply_deltas,
  recover_entries,
}
use software_course_project.Recovery.Status.{
  any_entry, commits, build_final_state_map-fate, is_committed-fate,
}
use software_course_project.Recovery.Balances.{
  first_of, created, touched, net, lookup-replay_ledger, contains-replay_deltas, bits-replay_deltas,
  replay_deltas-IsMap, +ℤ-zero, signed, moves,
}

replay_loop-IsMap :
    (final : States) (es : List WalEntry) (r : Replay)
    → IsMap r.deltas
    → IsMap (replay_loop final es r).deltas
unfolding replay_loop
replay_loop-IsMap final [] r h = h
replay_loop-IsMap final (e ∷ es) r h =
    replay_loop-IsMap final es (replay_entry final e.op_type e r)
      (replay_deltas-IsMap final e.account_id e e.op_type r h)

module _ (final : States) (done : String → Bool)
    (agree : (t : String) → is_committed (lookup t final) ≡ done t) (k : String) where
  replay_loop-created :
      (es : List WalEntry) (r : Replay)
      → lookup k (replay_loop final es r).ledger.balances
        ≡ first_of (created done k es) (lookup k r.ledger.balances)
  unfolding replay_loop
  replay_loop-created [] r = refl
  replay_loop-created (e ∷ es) r =
      replay_loop-created es (replay_entry final e.op_type e r)
      ∙ rw (lookup-replay_ledger final k e e.op_type r, agree e.txn_id) (ground arith)

  replay_loop-touched :
      (es : List WalEntry) (r : Replay)
      → contains k (replay_loop final es r).deltas ≡ touched done k es || contains k r.deltas
  unfolding replay_loop
  replay_loop-touched [] r = refl
  replay_loop-touched (e ∷ es) r =
      replay_loop-touched es (replay_entry final e.op_type e r)
      ∙ rw (contains-replay_deltas final k e e.op_type r, agree e.txn_id) (ground arith)

  replay_loop-net :
      (es : List WalEntry) (r : Replay)
      → bits (balance_or_zero (lookup k (replay_loop final es r).deltas))
        ≡ bits (balance_or_zero (lookup k r.deltas) +ℤ net done k es)
  unfolding replay_loop
  replay_loop-net [] r = rw +ℤ-zero
  replay_loop-net (e ∷ es) r =
      let before = balance_or_zero (lookup k r.deltas) in
      let r' = replay_entry final e.op_type e r in
      let here =
        if k == e.account_id && (moves e.op_type && done e.txn_id)
        then signed e.op_type e.amount
        else pos 0 in
      let one : bits (balance_or_zero (lookup k r'.deltas)) ≡ bits (before +ℤ here) =
        rw (bits-replay_deltas final k e e.op_type r, agree e.txn_id) in
      replay_loop-net es r'
      ∙ bits-+ℤ (balance_or_zero (lookup k r'.deltas)) (net done k es)
      ∙ ap (λ b. (b + bits (net done k es)) % 2 ^ 64) one
      ∙ sym (bits-+ℤ (before +ℤ here) (net done k es))
      ∙ ap bits (+ℤ_assoc before here (net done k es))

-- The last loop adds each account's change to its balance, and leaves the other accounts.
apply_deltas-lookup :
    (k : String) (ds : Dict String ℤ) (l : Ledger)
    → IsMap ds
    → lookup k (apply_deltas ds l).balances ≡ (
        if contains k ds
        then some (add64 (balance_or_zero (lookup k l.balances)) (balance_or_zero (lookup k ds)))
        else lookup k l.balances)
unfolding apply_deltas set_balance get_balance contains lookup
apply_deltas-lookup k [] l h = refl
apply_deltas-lookup k ((j, d) ∷ ds) l h =
    let v = add64 (balance_or_zero (lookup j l.balances)) d in
    apply_deltas-lookup k ds (record { balances = insert j v l.balances }) h.1
    ∙ rw (lookup-insert k j v l.balances) (ground (arith, ==_iff k j))

add64-of_bits : (b d n : ℤ) → bits d ≡ bits (pos 0 +ℤ n) → add64 b d ≡ wrap64 (b +ℤ n)
unfolding add64
add64-of_bits b d n e =
    wrap64-eq (b +ℤ d) (b +ℤ n) (omega (arith, bits-+ℤ b d, bits-+ℤ b n, bits-+ℤ (pos 0) n))

abbrev pub committed_in : List WalEntry → String → Bool
committed_in es t = any_entry commits t es

final-committed_in :
    (es : List WalEntry) (t : String)
    → is_committed (lookup t (build_final_state_map es)) ≡ committed_in es t
final-committed_in es t = rw (build_final_state_map-fate t es) (is_committed-fate t es)

no_deltas : (k : String) → contains {V = ℤ} k [] ≡ false
unfolding contains
no_deltas k = refl

-- The balance that the log describes for an account, from what the ledger held before.
abbrev pub replayed : String → List WalEntry → Option ℤ → Option ℤ
replayed k es before =
    let base = first_of (created (committed_in es) k es) before in
    if touched (committed_in es) k es
    then some (wrap64 (balance_or_zero base +ℤ net (committed_in es) k es))
    else base

-- Recovery leaves each account with the opening balance of its last committed creation, else what
-- the ledger held before, else 0, plus its committed credits less its committed debits as an
-- `int64`; an account that no committed entry names is left as it was.
pub recover_entries-replayed :
    (k : String) (es : List WalEntry) (l : Ledger)
    → lookup k (recover_entries es l).1.balances ≡ replayed k es (lookup k l.balances)
unfolding recover_entries
recover_entries-replayed k es l =
    let final = build_final_state_map es in
    let start : Replay = record {
      ledger = l;
      deltas = [];
      applied = 0;
      skipped = 0;
      pending_ids = [];
    } in
    let r = replay_loop final es start in
    let base = first_of (created (committed_in es) k es) (lookup k l.balances) in
    apply_deltas-lookup k r.deltas r.ledger (replay_loop-IsMap final es start tt)
    ∙ rw
        (
          replay_loop-created final (committed_in es) (final-committed_in es) k es start,
          replay_loop-touched final (committed_in es) (final-committed_in es) k es start,
          add64-of_bits (balance_or_zero base) (balance_or_zero (lookup k r.deltas))
              (net (committed_in es) k es)
              (unfold lookup in
                replay_loop-net final (committed_in es) (final-committed_in es) k es start),
          no_deltas k,
        )
        (ground arith)
