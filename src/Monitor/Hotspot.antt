-- ===== src/Monitor/Hotspot.antt =====
-- Which shard the load monitor takes for the hot one.
use software_course_project.Monitor.Rates.{
  IsAtMost, scan_shards-IsAtMost, scan_shards-HotIsRated, all_shards-Distinct, start-Unscanned,
}
use mathlib.Core.Path.{subst}
use software_course_project.Prelude.{
  ℕ, ◌≡◌, ◌∙◌, refl, sym, ap, inl, inr, true, false, not, ◌&&◌, Option, none, some, string_eq,
  arith, if◌then◌else◌, ◌==◌, Bool-cases, All,
}
use software_course_project.Prelude.Int.{ℤ, ◌≤ℤ◌, ltb_ℤ}
use software_course_project.Dict.{lookup}
use software_course_project.Model.{ShardMetrics}
use software_course_project.ShardMap.{ShardInfo, all_shards}
use software_course_project.Monitor.{
  last_event, is_cooling, LoadMonitor, Scan, start_scan, rate_of, scan_shards, chosen,
  is_imbalanced, check_hotspots,
}

-- What the choice of two shards has passed.
record Chosen (threshold : ℤ) (scan : Scan) (hot cool : ShardInfo) : Type 0 where
  is_hot : scan.hot ≡ some hot
  fast : ltb_ℤ threshold scan.max_rate ≡ true
  apart : (hot.shard_id == cool.shard_id) ≡ false

abbrev pair_or : ShardInfo × ShardInfo → Option (ShardInfo × ShardInfo) → ShardInfo × ShardInfo
pair_or p none = p
pair_or p (some q) = q

to-Chosen :
    (threshold : ℤ) (scan : Scan) (o o' : Option ShardInfo) (hot cool : ShardInfo)
    → scan.hot ≡ o
    → chosen threshold scan o o' ≡ some (hot, cool)
    → Chosen threshold scan hot cool
to-Chosen threshold scan none o' hot cool e h = absurd (ground arith)
to-Chosen threshold scan (some x) none hot cool e h = absurd (ground arith)
to-Chosen threshold scan (some x) (some z) hot cool e h =
    elim (Bool-cases
      (is_imbalanced threshold scan.max_rate scan.min_rate && not (x.shard_id == z.shard_id))) [
        | inr refused ↦ absurd (ground arith)
        | inl passed ↦
            let taken : Path (Option (ShardInfo × ShardInfo)) (some (x, z)) (some (hot, cool)) =
              sym (ap (λ b. if b then some (x, z) else none) passed) ∙ h in
            let pair : Path (ShardInfo × ShardInfo) (x, z) (hot, cool) =
              ap (pair_or (x, z)) taken in
            record {
              is_hot = e ∙ ap (λ p. some p.0) pair;
              fast = ground arith;
              apart = subst (λ p. (p.0.shard_id == p.1.shard_id) ≡ false) pair (ground arith);
            }
      ]

-- The shard has committed more than the threshold since the last look, and no shard of the map whose
-- metrics are known has committed more.
pub record IsHottest (m : LoadMonitor) (hot : ShardInfo) : Type 0 where
  pub own : ShardMetrics
  pub known : lookup hot.shard_id m.metrics ≡ some own
  pub above : ltb_ℤ m.threshold_depth (rate_of hot own m.prev_committed) ≡ true
  pub fastest :
      All
        (λ x.
          (y : ShardMetrics)
          → lookup x.shard_id m.metrics ≡ some y
          → rate_of x y m.prev_committed ≤ℤ rate_of hot own m.prev_committed)
        (all_shards m.shard_map)

-- A migration starts on a shard that has committed more than the threshold since the last look, and
-- at least as much as every other shard of the map; it goes to a shard with another ID, and not
-- within the cooldown after the last one.
pub check_hotspots-IsHottest :
    (now : ℕ) (m : LoadMonitor) (hot cool : ShardInfo)
    → (check_hotspots now m).0 ≡ some (hot, cool)
    → IsHottest m hot
      × ((hot.shard_id == cool.shard_id) ≡ false)
      × (is_cooling now m.cooldown (last_event m.migrations) ≡ false)
unfolding check_hotspots
check_hotspots-IsHottest now m hot cool h =
    let shards = all_shards m.shard_map in
    let scan = scan_shards m.metrics shards (start_scan m.prev_committed) in
    let choice = chosen m.threshold_depth scan scan.hot scan.cool in
    elim (Bool-cases (is_cooling now m.cooldown (last_event m.migrations))) [
      | inl cooling ↦
          let never : Path (Option (ShardInfo × ShardInfo)) none (some (hot, cool)) =
            sym (ap (λ b. if b then none else choice) cooling) ∙ h in
          absurd (ground arith)
      | inr rested ↦
          let taken : choice ≡ some (hot, cool) =
            sym (ap (λ b. if b then none else choice) rested) ∙ h in
          let c = to-Chosen m.threshold_depth scan scan.hot scan.cool hot cool refl taken in
          let distinct = all_shards-Distinct m.shard_map in
          let unscanned = start-Unscanned m.metrics m.prev_committed shards in
          let start = start_scan m.prev_committed in
          let (own, known, rated) =
            scan_shards-HotIsRated m.metrics m.prev_committed shards start distinct unscanned
              (λ x is_hot. absurd (ground arith)) hot c.is_hot in
          let hottest : IsHottest m hot = record {
            own = own;
            known = known;
            above = subst (λ r. ltb_ℤ m.threshold_depth r ≡ true) (sym rated) c.fast;
            fastest =
                subst (λ r. All (IsAtMost m.metrics m.prev_committed r) shards) (sym rated)
                  (scan_shards-IsAtMost m.metrics m.prev_committed shards start distinct unscanned);
          } in
          (hottest, c.apart, rested)
    ]
