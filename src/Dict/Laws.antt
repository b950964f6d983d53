-- ===== src/Dict/Laws.antt =====
-- The laws of Go's maps: what a lookup finds after a write or a deletion.
use software_course_project.Prelude.{
  ◌≡◌, ◌≢◌, refl, true, none, some, [], ◌∷◌, arith, Eq, ◌==◌, ==_iff, if◌then◌else◌,
}
use software_course_project.Dict.{Dict, lookup, contains, insert, erase, IsMap}

module _ {ℓ κ} {K : Type ℓ} {V : Type κ} ⦃e : Eq K⦄ where
  pub lookup-insert :
      (j k : K) (v : V) (m : Dict K V)
      → lookup j (insert k v m) ≡ (if j == k then some v else lookup j m)
  unfolding lookup insert
  lookup-insert j k v [] = refl
  lookup-insert j k v ((i, w) ∷ m) =
      ground (arith, lookup-insert j k v m, ==_iff j k, ==_iff k i, ==_iff j i)

  pub lookup-insert_self : (k : K) (v : V) (m : Dict K V) → lookup k (insert k v m) ≡ some v
  lookup-insert_self k v m = rw lookup-insert (ground (arith, ==_iff k k))

  pub contains-insert_self : (k : K) (v : V) (m : Dict K V) → contains k (insert k v m) ≡ true
  unfolding contains
  contains-insert_self k v m = rw (lookup-insert_self k v m, contains)

  pub lookup-insert_ne :
      (j k : K) (v : V) (m : Dict K V) → j ≢ k → lookup j (insert k v m) ≡ lookup j m
  lookup-insert_ne j k v m h = rw lookup-insert (ground (arith, ==_iff j k))

  pub lookup-erase_ne : (j k : K) (m : Dict K V) → j ≢ k → lookup j (erase k m) ≡ lookup j m
  unfolding lookup erase
  lookup-erase_ne j k [] h = refl
  lookup-erase_ne j k ((i, w) ∷ m) h =
      ground (arith, lookup-erase_ne j k m h, ==_iff k i, ==_iff j i)

  pub lookup-erase_self : (k : K) (m : Dict K V) → IsMap m → lookup k (erase k m) ≡ none
  unfolding lookup erase
  lookup-erase_self k [] h = refl
  lookup-erase_self k ((i, w) ∷ m) h = ground (arith, lookup-erase_self k m h.1, ==_iff k i)

  pub insert-IsMap : (k : K) (v : V) (m : Dict K V) → IsMap m → IsMap (insert k v m)
  unfolding lookup insert
  insert-IsMap k v [] h = (refl, tt)
  insert-IsMap k v ((i, w) ∷ m) h =
      ground (arith, insert-IsMap k v m h.1, lookup-insert i k v m, ==_iff k i, ==_iff i k)

  pub erase-IsMap : (k : K) (m : Dict K V) → IsMap m → IsMap (erase k m)
  unfolding lookup erase
  erase-IsMap k [] h = tt
  erase-IsMap k ((i, w) ∷ m) h =
      ground (arith, erase-IsMap k m h.1, lookup-erase_ne i k m, ==_iff k i, ==_iff i k)
