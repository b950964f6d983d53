-- ===== src/Failover/Heartbeat.antt =====
-- shard/failover/heartbeat.go: the miss counts of a shard's peers. Whether a peer answers its health
-- check is an input of each ping, and the calls of `onFailure` are a result.
use software_course_project.Prelude.{
  ℕ, suc, ◌≡◌, ◌∙◌, refl, sym, ap, Bool, true, false, ◌&&◌, Option, none, some, List, [], ◌∷◌,
  String, string_eq, if◌then◌else◌, ◌==◌, ==_iff, arith, Bool-cases, inl, inr,
}
use software_course_project.Prelude.Int.{ℤ, pos, ◌+ℤ◌, leb_ℤ, int_laws}
use software_course_project.Int64.{add64, wrap64, wrap64-eq, bits-wrap64, bits-+ℤ}
use software_course_project.Dict.{Dict, lookup, insert}
use software_course_project.Dict.Laws.{lookup-insert}

pub record HeartbeatMonitor : Type 0 where
  pub shard_id : String
  pub miss_limit : ℤ
  pub miss_count : Dict String ℤ
  pub has_callback : Bool

abbrev pub count_or_zero : Option ℤ → ℤ
count_or_zero none = pos 0
count_or_zero (some n) = n

unfoldable pub get_miss_count : HeartbeatMonitor → String → ℤ
get_miss_count h peer = count_or_zero (lookup peer h.miss_count)

-- The body of the loop over the peers: is the peer reported, and the monitor after.
unfoldable pub ping : String → Bool → HeartbeatMonitor → Bool × HeartbeatMonitor
ping peer true h = (false, record h { miss_count = insert peer (pos 0) h.miss_count })
ping peer false h =
    let count = add64 (get_miss_count h peer) (pos 1) in
    (
      leb_ℤ h.miss_limit count && h.has_callback,
      record h { miss_count = insert peer count h.miss_count },
    )

-- The peers that are reported, in order, when the peers answer as listed.
unfoldable pub ping_all : List (String × Bool) → HeartbeatMonitor → List String × HeartbeatMonitor
ping_all [] h = ([], h)
ping_all ((peer, healthy) ∷ rest) h =
    let (failed, h') = ping peer healthy h in
    let (others, h'') = ping_all rest h' in (if failed then peer ∷ others else others, h'')

-- The misses of the peer since its last answer, after `n` before.
abbrev pub consecutive : String → ℕ → List (String × Bool) → ℕ
consecutive p n [] = n
consecutive p n ((peer, healthy) ∷ rest) =
    if p == peer
    then (if healthy then consecutive p 0 rest else consecutive p (suc n) rest)
    else consecutive p n rest

one_more : (n : ℕ) → add64 (wrap64 (pos n)) (pos 1) ≡ wrap64 (pos (suc n))
unfolding add64
one_more n =
    let whole : pos n +ℤ pos 1 ≡ pos (suc n) = omega int_laws in
    wrap64-eq (wrap64 (pos n) +ℤ pos 1) (pos n +ℤ pos 1)
      (rw (bits-+ℤ (wrap64 (pos n)) (pos 1), bits-+ℤ (pos n) (pos 1), bits-wrap64 (pos n)))
    ∙ ap wrap64 whole

zero_count : wrap64 (pos 0) ≡ pos 0
unfolding wrap64
zero_count = refl

get_miss_count-ping :
    (peer p : String) (healthy : Bool) (h : HeartbeatMonitor)
    → get_miss_count (ping peer healthy h).1 p ≡ (
        if p == peer
        then (if healthy then pos 0 else add64 (get_miss_count h p) (pos 1))
        else get_miss_count h p)
unfolding ping get_miss_count
get_miss_count-ping peer p true h = rw (lookup-insert p peer (pos 0) h.miss_count) (ground arith)
get_miss_count-ping peer p false h =
    rw
      (lookup-insert p peer (add64 (count_or_zero (lookup peer h.miss_count)) (pos 1)) h.miss_count)
      (ground (arith, ==_iff p peer))

get_miss_count-ping_all :
    (p : String) (n : ℕ) (pings : List (String × Bool)) (h : HeartbeatMonitor)
    → get_miss_count h p ≡ wrap64 (pos n)
    → get_miss_count (ping_all pings h).1 p ≡ wrap64 (pos (consecutive p n pings))
unfolding ping_all
get_miss_count-ping_all p n [] h before = before
get_miss_count-ping_all p n ((peer, healthy) ∷ rest) h before = elim (Bool-cases (p == peer)) [
  | inr other ↦ rw other (
      get_miss_count-ping_all p n rest (ping peer healthy h).1
        (get_miss_count-ping peer p healthy h ∙ rw other before))
  | inl mine ↦ elim (Bool-cases healthy) [
    | inl up ↦
        rw (mine, up)
          (get_miss_count-ping_all p 0 rest (ping peer true h).1
            (get_miss_count-ping peer p true h ∙ rw mine (sym zero_count)))
    | inr down ↦
        rw (mine, down)
          (get_miss_count-ping_all p (suc n) rest (ping peer false h).1
            (get_miss_count-ping peer p false h ∙ rw (mine, before) (one_more n)))
  ]
]

-- A run of pings changes neither the limit nor the callback.
settings-ping_all :
    (pings : List (String × Bool)) (h : HeartbeatMonitor)
    → ((ping_all pings h).1.miss_limit ≡ h.miss_limit)
      × ((ping_all pings h).1.has_callback ≡ h.has_callback)
unfolding ping_all ping
settings-ping_all [] h = (refl, refl)
settings-ping_all ((peer, true) ∷ rest) h = settings-ping_all rest (ping peer true h).1
settings-ping_all ((peer, false) ∷ rest) h = settings-ping_all rest (ping peer false h).1

reported :
    (p : String) (limit count : ℤ) (h : HeartbeatMonitor)
    → h.miss_limit ≡ limit
    → h.has_callback ≡ true
    → add64 (get_miss_count h p) (pos 1) ≡ count
    → (ping p false h).0 ≡ leb_ℤ limit count
unfolding ping
reported p limit count h same called counted = rw (counted, same, called) (ground arith)

-- Failures are detected as documented: whatever pings of whatever peers went before, a monitor with
-- a callback whose count of the peer was 0 reports a peer that misses a heartbeat exactly when the
-- misses since its last answer, this one included, have reached the limit (as an `int64`).
pub ping-ping_all :
    (p : String) (pings : List (String × Bool)) (h : HeartbeatMonitor)
    → get_miss_count h p ≡ pos 0
    → h.has_callback ≡ true
    → (ping p false (ping_all pings h).1).0
      ≡ leb_ℤ h.miss_limit (wrap64 (pos (suc (consecutive p 0 pings))))
ping-ping_all p pings h none_missed called =
    let (limit, callback) = settings-ping_all pings h in
    let count : get_miss_count (ping_all pings h).1 p ≡ wrap64 (pos (consecutive p 0 pings)) =
      get_miss_count-ping_all p 0 pings h (none_missed ∙ sym zero_count) in
    reported p h.miss_limit (wrap64 (pos (suc (consecutive p 0 pings)))) (ping_all pings h).1 limit
      (callback ∙ called) (ap (λ c. add64 c (pos 1)) count ∙ one_more (consecutive p 0 pings))
