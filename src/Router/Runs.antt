-- ===== src/Router/Runs.antt =====
-- The money of the whole system over any sequence of transactions.
use software_course_project.Router.Conservation.{AtRest, route_conserves}
use software_course_project.Router.Total.{total, NoRepeats, AllSound, AllSound-at, pair-le-total}
use software_course_project.Router.{
  Router, Cluster, replace, execute_on_one, execute_cross_shard, route,
}
use software_course_project.TwoPc.Others.{IsQuiet, quiet-IsReady, execute-IsQuiet}
use software_course_project.TwoPc.Atomic.{reliable}
use software_course_project.TwoPc.{Remote, call_for}
use software_course_project.ShardMap.{ShardInfo, get_shard_for_account}
use software_course_project.Server.Others.{execute_single_shard-IsFresh}
use software_course_project.Server.Conservation.{execute_single_shard-IsSound}
use software_course_project.Server.Single.{execute_single_shard}
use software_course_project.Recovery.Ended.{listed}
use software_course_project.Model.{Transaction}
use software_course_project.Ledger.Funds.{IsSound}
use software_course_project.Prelude.Int.{int_laws}
use mathlib.Core.Path.{subst}
use software_course_project.Prelude.{
  ◌≢◌, ◌∙◌, ==_iff, ◌==◌, refl, sym, inl, inr, String, string_eq, Bool-cases, Result-cases, true,
  false, ℕ, arith, List, [], ◌∷◌, ◌≡◌,
}

-- Routing the transactions one after another.
unfoldable pub route_all : (String → List ℕ) → Router → List Transaction → Cluster → Cluster
route_all sha256 router [] c = c
route_all sha256 router (txn ∷ rest) c = route_all sha256 router rest (route sha256 router txn c).1

abbrev pub txn_ids : List Transaction → List String
txn_ids [] = []
txn_ids (txn ∷ rest) = txn.txn_id ∷ txn_ids rest

abbrev pub AllQuiet : String → List String → Cluster → Type 0
AllQuiet t us c = (a : String) → listed a us ≡ true → IsQuiet t (c a)

AllSound-of :
    (us : List String) (c : Cluster)
    → ((a : String) → listed a us ≡ true → IsSound (c a).server.ledger)
    → AllSound us c
AllSound-of [] c h = tt
AllSound-of (a ∷ us) c h =
    (h a (ground (arith, ==_iff a a)), AllSound-of us c (λ b later. h b (ground arith)))

replace-AllQuiet :
    (t : String) (us : List String) (a : String) (r : Remote) (c : Cluster)
    → IsQuiet t r
    → AllQuiet t us c
    → AllQuiet t us (replace a r c)
replace-AllQuiet t us a r c quiet h b there = elim (Bool-cases (b == a)) [
  | inl here ↦ rw here quiet
  | inr other ↦ rw other (h b there)
]

module _ (t : String) (txn : Transaction) (other : t ≢ txn.txn_id) where
  single-IsQuiet : (r : Remote) → IsQuiet t r → IsQuiet t (call_for (execute_single_shard txn) r).1
  single-IsQuiet r h =
      let s = r.server in
      let done : IsQuiet t (call_for (execute_single_shard txn) (reliable s)).1 =
        unfold call_for in
        record {
          calm = refl;
          fresh = execute_single_shard-IsFresh t txn other s h.fresh;
          sound = execute_single_shard-IsSound txn s h.sound;
        } in
      subst (λ x. IsQuiet t (call_for (execute_single_shard txn) x).1) (sym h.calm) done

module _ (sha256 : String → List ℕ) (router : Router) (us : List String) where
  rest-AllQuiet :
      (t : Transaction) (c : Cluster) → AtRest sha256 router t us c → AllQuiet t.txn_id us c
  rest-AllQuiet t c h a there = record {
    calm = h.calm a there;
    fresh = record { unseen = (h.ready a there).unseen; working = (h.ready a there).working };
    sound = AllSound-at us c a h.sound there;
  }

  module _ (t txn : Transaction) (other : t.txn_id ≢ txn.txn_id) (c : Cluster)
      (waits : AtRest sha256 router t us c) (h : AtRest sha256 router txn us c) where
    one-AllQuiet :
        (shard : ShardInfo)
        → listed shard.address us ≡ true
        → AllQuiet t.txn_id us (execute_on_one txn shard c).1
    unfolding execute_on_one
    one-AllQuiet shard there =
        let quiet = rest-AllQuiet t c waits in
        replace-AllQuiet t.txn_id us shard.address _ c
          (single-IsQuiet t.txn_id txn other (c shard.address) (quiet shard.address there)) quiet

    cross-AllQuiet :
        (src dst : ShardInfo)
        → listed src.address us ≡ true
        → listed dst.address us ≡ true
        → (src.address == dst.address) ≡ false
        → AllQuiet t.txn_id us (execute_cross_shard txn src dst c).1
    unfolding execute_cross_shard
    cross-AllQuiet src dst hs hd apart =
        let quiet = rest-AllQuiet t c waits in
        let x = src.address in
        let y = dst.address in
        let (source, dest) =
          execute-IsQuiet t.txn_id txn other (c x) (c y) (quiet x hs) (quiet y hd) (h.ready x hs)
            (h.ready y hd)
            (omega (int_laws, pair-le-total us c x y h.sound hs hd apart, h.bounded)) in
        replace-AllQuiet t.txn_id us y _ _ dest (replace-AllQuiet t.txn_id us x _ c source quiet)

    route-AllQuiet : AllQuiet t.txn_id us (route sha256 router txn c).1
    unfolding route
    route-AllQuiet =
        let quiet = rest-AllQuiet t c waits in
        elim (Result-cases
          (get_shard_for_account sha256 router.shard_map txn.source router.mapper)) [
            | inr (e, unknown) ↦ rw (unknown, route) quiet
            | inl (src, found) ↦
                elim (Result-cases
                  (get_shard_for_account sha256 router.shard_map txn.destination router.mapper)) [
                    | inr (e, unknown) ↦ rw (found, route, unknown) quiet
                    | inl (dst, found') ↦ elim (Bool-cases (src.shard_id == dst.shard_id)) [
                      | inl same ↦
                          rw (found, route, found', same)
                            (one-AllQuiet src (h.known txn.source src found))
                      | inr away ↦
                          rw (found, route, found', away)
                            (cross-AllQuiet src dst (h.known txn.source src found)
                              (h.known txn.destination dst found')
                              (h.apart txn.source txn.destination src dst found found' away))
                    ]
                  ]
          ]

    -- A system at rest is at rest again for the transactions that come next.
    route-AtRest : AtRest sha256 router t us (route sha256 router txn c).1
    route-AtRest =
        let quiet = route-AllQuiet in
        record {
          once = waits.once;
          known = waits.known;
          apart = waits.apart;
          calm = λ a there. (quiet a there).calm;
          ready = λ a there. quiet-IsReady t.txn_id _ (quiet a there);
          sound = AllSound-of us _ (λ a there. (quiet a there).sound);
          bounded = rw (route_conserves sha256 router txn us c h) h.bounded;
        }

  abbrev pub AllAtRest : List Transaction → Cluster → Type 0
  AllAtRest [] c = Unit
  AllAtRest (txn ∷ rest) c = AtRest sha256 router txn us c × AllAtRest rest c

  AllAtRest-route :
      (txn : Transaction) (later : List Transaction) (c : Cluster)
      → AtRest sha256 router txn us c
      → listed txn.txn_id (txn_ids later) ≡ false
      → AllAtRest later c
      → AllAtRest later (route sha256 router txn c).1
  AllAtRest-route txn [] c h new waits = tt
  AllAtRest-route txn (t ∷ later) c h new (w, waits) =
      let other : t.txn_id ≢ txn.txn_id = ground (arith, ==_iff txn.txn_id t.txn_id) in
      (route-AtRest t txn other c w h, AllAtRest-route txn later c h (ground arith) waits)

  -- Over any sequence of transactions with different IDs, each of which the system is at rest for at
  -- the start, the total is kept.
  pub route_all_conserves :
      (txns : List Transaction) (c : Cluster)
      → NoRepeats (txn_ids txns)
      → AllAtRest txns c
      → total us (route_all sha256 router txns c) ≡ total us c
  unfolding route_all
  route_all_conserves [] c distinct h = refl
  route_all_conserves (txn ∷ rest) c (new, distinct) (h, waits) =
      route_all_conserves rest (route sha256 router txn c).1 distinct
        (AllAtRest-route txn rest c h new waits)
      ∙ route_conserves sha256 router txn us c h
