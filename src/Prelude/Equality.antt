-- ===== src/Prelude/Equality.antt =====
-- Go's `==` on the key types of the program's maps: strings and partition numbers.
use Prim.Native.Nat.{ℕ}
use Prim.Native.String.{String}
use mathlib.Core.Path.{◌≡◌}
use mathlib.Core.Logic.{◌↔◌}
use mathlib.Core.Bool.{Bool, true}
use text.Mathlib.Text.{◌==◌ as str_eq}
use text.Mathlib.TextEquality.{eq_iff}
use software_course_project.Prelude.Tests.{nat_beq, nat_beq_iff}

-- A test that decides equality.
pub record Eq {ℓ} (K : Type ℓ) : Type ℓ where
  pub same : K → K → Bool
  pub same_iff : (x y : K) → (same x y ≡ true) ↔ (x ≡ y)

instance abbrev pub string_eq : Eq String
string_eq = record { same = str_eq; same_iff = eq_iff }

instance abbrev pub nat_eq : Eq ℕ
nat_eq = record { same = nat_beq; same_iff = nat_beq_iff }

infix 50 ◌==◌
abbrev pub ◌==◌ {ℓ} : {K : Type ℓ} ⦃eq : Eq K⦄ → K → K → Bool
◌==◌ ⦃eq⦄ = eq.same

pub ==_iff {ℓ} : {K : Type ℓ} ⦃eq : Eq K⦄ (x y : K) → ((x == y) ≡ true) ↔ (x ≡ y)
==_iff ⦃eq⦄ = eq.same_iff
