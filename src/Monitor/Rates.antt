-- ===== src/Monitor/Rates.antt =====
-- The loop of the load monitor over the rates of the shards.
use mathlib.Core.Path.{subst}
use software_course_project.Prelude.{
  ◌++◌, ◌≡◌, ◌∙◌, refl, sym, ap, inl, inr, false, Option, none, some, List, [], ◌∷◌, String,
  string_eq, arith, ◌==◌, ==_iff, Bool-cases, Option-cases, All, ◌||◌,
}
use software_course_project.Prelude.Int.{ℤ, ◌≤ℤ◌, ltb_ℤ}
use software_course_project.Int64.{sub64}
use software_course_project.Dict.{Dict, lookup, insert}
use software_course_project.Dict.Laws.{lookup-insert}
use software_course_project.Ledger.{balance_or_zero}
use software_course_project.Model.{ShardMetrics}
use software_course_project.ShardMap.{ShardInfo, ShardMap, all_shards, shards_in, names_shard}
use software_course_project.Monitor.{
  Scan, start_scan, rate_of, note_hot, note_cool, scan_shard, scan_shards,
}

-- No two shards of the list have one ID.
abbrev pub Distinct : List ShardInfo → Type 0
Distinct [] = Unit
Distinct (x ∷ us) = (names_shard x.shard_id us ≡ false) × Distinct us

module _ (metrics : Dict String ShardMetrics) (before : Dict String ℤ) where
  -- The scan has not changed what is known of these shards from before.
  abbrev pub Unscanned : Scan → List ShardInfo → Type 0
  Unscanned scan = All (λ x. lookup x.shard_id scan.prev ≡ lookup x.shard_id before)

  abbrev pub IsAtMost : ℤ → ShardInfo → Type 0
  IsAtMost bound x =
      (y : ShardMetrics) → lookup x.shard_id metrics ≡ some y → rate_of x y before ≤ℤ bound

  scan_shard-max_rate :
      (x : ShardInfo) (o : Option ShardMetrics) (scan : Scan)
      → scan.max_rate ≤ℤ (scan_shard x o scan).max_rate
  scan_shard-max_rate x none scan = omega arith
  scan_shard-max_rate x (some y) scan = ground arith

  scan_shards-max_rate :
      (us : List ShardInfo) (scan : Scan) → scan.max_rate ≤ℤ (scan_shards metrics us scan).max_rate
  unfolding scan_shards
  scan_shards-max_rate [] scan = omega arith
  scan_shards-max_rate (x ∷ us) scan = omega (
    arith,
    scan_shard-max_rate x (lookup x.shard_id metrics) scan,
    scan_shards-max_rate us (scan_shard x (lookup x.shard_id metrics) scan),
  )

  note_hot-rate : (x : ShardInfo) (rate : ℤ) (scan : Scan) → rate ≤ℤ (note_hot x rate scan).max_rate
  note_hot-rate x rate scan = ground arith

  note_cool_keeps :
      (x : ShardInfo) (rate : ℤ) (scan : Scan)
      → ((note_cool x rate scan).max_rate ≡ scan.max_rate)
        × ((note_cool x rate scan).hot ≡ scan.hot)
  note_cool_keeps x rate scan = ground arith

  same_rate :
      (x : ShardInfo) (y : ShardMetrics) (scan : Scan)
      → lookup x.shard_id scan.prev ≡ lookup x.shard_id before
      → rate_of x y scan.prev ≡ rate_of x y before
  unfolding rate_of
  same_rate x y scan same = ap (λ v. sub64 y.committed_count (balance_or_zero v)) same

  abbrev noted : ShardInfo → ShardMetrics → Scan → Scan
  noted x y scan = record scan { prev = insert x.shard_id y.committed_count scan.prev }

  -- The rate of the shard that was just scanned.
  scanned_rate :
      (x : ShardInfo) (y : ShardMetrics) (scan : Scan)
      → lookup x.shard_id scan.prev ≡ lookup x.shard_id before
      → rate_of x y before ≤ℤ (scan_shard x (some y) scan).max_rate
  scanned_rate x y scan same =
      let rate = rate_of x y scan.prev in
      let next = note_hot x rate (noted x y scan) in
      subst (λ r. r ≤ℤ (scan_shard x (some y) scan).max_rate) (same_rate x y scan same)
        (subst (λ r. rate ≤ℤ r) (sym (note_cool_keeps x rate next).0)
          (note_hot-rate x rate (noted x y scan)))

  prev-scan_shard :
      (x z : ShardInfo) (o : Option ShardMetrics) (scan : Scan)
      → (z.shard_id == x.shard_id) ≡ false
      → lookup z.shard_id (scan_shard x o scan).prev ≡ lookup z.shard_id scan.prev
  prev-scan_shard x z none scan other = refl
  prev-scan_shard x z (some y) scan other =
      ground (arith, lookup-insert z.shard_id x.shard_id y.committed_count scan.prev)

  scan_shard-Unscanned :
      (x : ShardInfo) (o : Option ShardMetrics) (scan : Scan) (us : List ShardInfo)
      → names_shard x.shard_id us ≡ false
      → Unscanned scan us
      → Unscanned (scan_shard x o scan) us
  scan_shard-Unscanned x o scan [] apart h = tt
  scan_shard-Unscanned x o scan (z ∷ us) apart h = (
    prev-scan_shard x z o scan
          (ground (arith, ==_iff z.shard_id x.shard_id, ==_iff x.shard_id z.shard_id))
        ∙ h.0,
    scan_shard-Unscanned x o scan us (ground arith) h.1,
  )

  pub scan_shards-IsAtMost :
      (us : List ShardInfo) (scan : Scan)
      → Distinct us
      → Unscanned scan us
      → All (IsAtMost (scan_shards metrics us scan).max_rate) us
  unfolding scan_shards
  scan_shards-IsAtMost [] scan d h = tt
  scan_shards-IsAtMost (x ∷ us) scan d h =
      let next = scan_shard x (lookup x.shard_id metrics) scan in
      (
        λ y known.
            let now =
              subst (λ o. rate_of x y before ≤ℤ (scan_shard x o scan).max_rate) (sym known)
                (scanned_rate x y scan h.0) in
            omega (arith, now, scan_shards-max_rate us next),
        scan_shards-IsAtMost us next d.1
            (scan_shard-Unscanned x (lookup x.shard_id metrics) scan us d.0 h.1),
      )

  -- The shard has metrics, and this rate.
  abbrev pub IsRated : ShardInfo → ℤ → Type 0
  IsRated x rate =
      (y : ShardMetrics) × (lookup x.shard_id metrics ≡ some y) × (rate_of x y before ≡ rate)

  abbrev pub HotIsRated : Scan → Type 0
  HotIsRated scan = (x : ShardInfo) → scan.hot ≡ some x → IsRated x scan.max_rate

  abbrev shard_or : ShardInfo → Option ShardInfo → ShardInfo
  shard_or x none = x
  shard_or x (some y) = y

  note_hot-HotIsRated :
      (x : ShardInfo) (rate : ℤ) (scan : Scan)
      → IsRated x rate
      → HotIsRated scan
      → HotIsRated (note_hot x rate scan)
  note_hot-HotIsRated x rate scan mine h = elim (Bool-cases (ltb_ℤ scan.max_rate rate)) [
    | inl faster ↦
        let now : note_hot x rate scan ≡ record scan { hot = some x; max_rate = rate } =
          rw faster refl in
        subst HotIsRated (sym now)
          (λ z is_hot. subst (λ v. IsRated v rate) (ap (shard_or x) is_hot) mine)
    | inr slower ↦
        let now : note_hot x rate scan ≡ scan = rw slower refl in subst HotIsRated (sym now) h
  ]

  note_cool-HotIsRated :
      (x : ShardInfo) (rate : ℤ) (scan : Scan)
      → HotIsRated scan
      → HotIsRated (note_cool x rate scan)
  note_cool-HotIsRated x rate scan h z is_hot =
      let (same, hot) = note_cool_keeps x rate scan in
      subst (IsRated z) (sym same) (h z (sym hot ∙ is_hot))

  scan_shard-HotIsRated :
      (x : ShardInfo) (scan : Scan)
      → lookup x.shard_id scan.prev ≡ lookup x.shard_id before
      → HotIsRated scan
      → HotIsRated (scan_shard x (lookup x.shard_id metrics) scan)
  scan_shard-HotIsRated x scan same h = elim (Option-cases (lookup x.shard_id metrics)) [
    | inl absent ↦ subst (λ o. HotIsRated (scan_shard x o scan)) (sym absent) h
    | inr (y, known) ↦
        let rate = rate_of x y scan.prev in
        let next = note_hot x rate (noted x y scan) in
        let hot =
          note_hot-HotIsRated x rate (noted x y scan) (y, known, sym (same_rate x y scan same)) h in
        subst (λ o. HotIsRated (scan_shard x o scan)) (sym known)
          (note_cool-HotIsRated x rate next hot)
  ]

  pub scan_shards-HotIsRated :
      (us : List ShardInfo) (scan : Scan)
      → Distinct us
      → Unscanned scan us
      → HotIsRated scan
      → HotIsRated (scan_shards metrics us scan)
  unfolding scan_shards
  scan_shards-HotIsRated [] scan d u h = h
  scan_shards-HotIsRated (x ∷ us) scan d u h =
      scan_shards-HotIsRated us (scan_shard x (lookup x.shard_id metrics) scan) d.1
        (scan_shard-Unscanned x (lookup x.shard_id metrics) scan us d.0 u.1)
        (scan_shard-HotIsRated x scan u.0 h)

names_shard-append :
    (id : String) (us : List ShardInfo) (x : ShardInfo)
    → names_shard id (us ++ x ∷ []) ≡ names_shard id us || id == x.shard_id
names_shard-append id [] x = ground arith
names_shard-append id (y ∷ us) x = ground (arith, names_shard-append id us x)

append-Distinct :
    (us : List ShardInfo) (x : ShardInfo)
    → Distinct us
    → names_shard x.shard_id us ≡ false
    → Distinct (us ++ x ∷ [])
append-Distinct [] x d absent = (refl, tt)
append-Distinct (y ∷ us) x d absent = (
  names_shard-append y.shard_id us x
      ∙ ground (arith, d.0, ==_iff x.shard_id y.shard_id, ==_iff y.shard_id x.shard_id),
  append-Distinct us x d.1 (ground arith),
)

shards_in-Distinct :
    (m : Dict ℤ ShardInfo) (seen : List ShardInfo) → Distinct seen → Distinct (shards_in seen m)
unfolding shards_in
shards_in-Distinct [] seen d = d
shards_in-Distinct ((id, x) ∷ m) seen d = elim (Bool-cases (names_shard x.shard_id seen)) [
  | inl met ↦ rw met (shards_in-Distinct m seen d)
  | inr new ↦ rw new (shards_in-Distinct m (seen ++ x ∷ []) (append-Distinct seen x d new))
]

pub all_shards-Distinct : (m : ShardMap) → Distinct (all_shards m)
unfolding all_shards
all_shards-Distinct m = shards_in-Distinct m.partitions [] tt

pub start-Unscanned :
    (metrics : Dict String ShardMetrics) (before : Dict String ℤ) (us : List ShardInfo)
    → Unscanned metrics before (start_scan before) us
start-Unscanned metrics before [] = tt
start-Unscanned metrics before (x ∷ us) = (refl, start-Unscanned metrics before us)
