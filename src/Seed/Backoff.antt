-- ===== src/Seed/Backoff.antt =====
-- How long the seeding command waits between two requests.
use native.Mathlib.Decide.{dec_lt}
use software_course_project.Prelude.{
  ℕ, zero, suc, ◌*◌, ◌≤◌, ◌<◌, ◌≡◌, refl, Bool, true, ◌&&◌, arith,
}
use software_course_project.Prelude.Int.{ℤ, pos, negsuc, ◌+ℤ◌, leb_ℤ, ◌≤ℤ◌, ◌<ℤ◌, ◌-ℤ◌, int_laws}
use software_course_project.Int64.{wrap64, add64, mul64, wrap64_id}
use software_course_project.Seed.{millisecond, delay, backoff}

-- The wait after n + 1 attempts is within the limits.
abbrev in_window : ℕ → Bool
in_window n =
    let d = delay (suc n) in leb_ℤ (pos (150 * millisecond)) d && leb_ℤ d (pos (2000 * millisecond))

-- So are all waits before it.
first_waits : ℕ → Bool
first_waits zero = true
first_waits (suc k) = first_waits k && in_window k

in_window-first_waits : (k n : ℕ) → first_waits k ≡ true → n < k → in_window n ≡ true
unfolding first_waits
in_window-first_waits zero n fine before = absurd (omega arith)
in_window-first_waits (suc k) n fine before = elim (dec_lt n k) [
  | yes earlier ↦ in_window-first_waits k n (ground arith) earlier
  | no last ↦ let e : n ≡ k = omega arith in rw e (ground arith)
]

first_waits_fine : first_waits 36 ≡ true
unfolding first_waits delay mul64 wrap64 ◌-ℤ◌
first_waits_fine = refl

delay_bounds :
    (attempt : ℕ)
    → 1 ≤ attempt
    → attempt ≤ 36
    → (pos (150 * millisecond) ≤ℤ delay attempt) × (delay attempt ≤ℤ pos (2000 * millisecond))
delay_bounds (suc n) low high =
    let fine = in_window-first_waits 36 n first_waits_fine (omega arith) in ground arith
delay_bounds zero low high = absurd (omega arith)

delay_37 : delay 37 ≡ negsuc 8138822563309551615
unfolding delay mul64 wrap64 ◌-ℤ◌
delay_37 = refl

jitter_fits :
    (d : ℤ) (random : ℕ)
    → random < 125
    → negsuc 8138822563309551615 ≤ℤ d
    → d ≤ℤ pos (2000 * millisecond)
    → add64 d (pos (random * millisecond)) ≡ d +ℤ pos (random * millisecond)
unfolding add64
jitter_fits d random small low high =
    wrap64_id (d +ℤ pos (random * millisecond))
      (record { lower = omega int_laws; upper = omega int_laws })

-- From the first to the 36th attempt the command waits at least 150 milliseconds and less than 2125;
-- the 37th wait is negative, which is none at all.
pub backoff_bounds :
    (random attempt : ℕ)
    → random < 125
    → 1 ≤ attempt
    → attempt ≤ 36
    → (pos (150 * millisecond) ≤ℤ backoff random attempt)
      × (backoff random attempt <ℤ pos (2125 * millisecond))
      × (backoff random 37 <ℤ pos 0)
unfolding backoff
backoff_bounds random attempt small low high =
    let (least, most) = delay_bounds attempt low high in
    (
      rw (jitter_fits (delay attempt) random small (omega int_laws) most) (omega int_laws),
      rw (jitter_fits (delay attempt) random small (omega int_laws) most) (omega int_laws),
      rw
          (
            delay_37,
            jitter_fits (negsuc 8138822563309551615) random small (omega int_laws) (omega int_laws),
          )
          (omega int_laws),
    )
