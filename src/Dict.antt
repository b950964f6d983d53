-- ===== src/Dict.antt =====
-- Go's `map`: an association list without repeated keys, in the order of first insertion. Go
-- iterates over a map in an unspecified order; what depends on an order says so.
pub mod Laws
use software_course_project.Prelude.{
  ◌≡◌, Bool, true, false, Option, none, some, List, [], ◌∷◌, Eq, ◌==◌, if◌then◌else◌,
}

abbrev pub Dict {ℓ κ} : Type ℓ → Type κ → Type (ℓ ⊔ κ)
Dict K V = List (K × V)

module _ {ℓ κ} {K : Type ℓ} {V : Type κ} ⦃e : Eq K⦄ where
  -- `v, ok := m[k]`
  unfoldable pub lookup : K → Dict K V → Option V
  lookup k [] = none
  lookup k ((j, v) ∷ m) = if k == j then some v else lookup k m

  -- `_, ok := m[k]`
  unfoldable pub contains : K → Dict K V → Bool
  unfolding lookup
  contains k m = elim (lookup k m) [ none ↦ false | some _ ↦ true ]

  -- `m[k] = v`
  unfoldable pub insert : K → V → Dict K V → Dict K V
  insert k v [] = (k, v) ∷ []
  insert k v ((j, w) ∷ m) = if k == j then (j, v) ∷ m else (j, w) ∷ insert k v m

  -- `delete(m, k)`
  unfoldable pub erase : K → Dict K V → Dict K V
  erase k [] = []
  erase k ((j, w) ∷ m) = if k == j then m else (j, w) ∷ erase k m

  -- No key is listed twice, as in every Go map.
  abbrev pub IsMap : Dict K V → Type κ
  IsMap [] = Unit
  IsMap ((k, v) ∷ m) = (lookup k m ≡ none) × IsMap m
