-- ===== src/Int64.antt =====
-- Go's `int64`: an integer between -2^63 and 2^63 - 1, with arithmetic that wraps around
-- (amounts and balances everywhere in shard/ and shared/models/transaction.go).
use software_course_project.Prelude.{
  ℕ, ◌+◌, ◌-◌, ◌*◌, ◌%◌, ◌^◌, ◌≡◌, refl, sym, ◌∙◌, arith, ltb, if◌then◌else◌,
}
use software_course_project.Prelude.Int.{
  ℤ, pos, negsuc, pos_part, neg_part, ◌+ℤ◌, ◌-ℤ◌, ◌≤ℤ◌, int_laws,
}

abbrev pub max_int64 : ℤ
max_int64 = pos (2 ^ 63 - 1)

abbrev pub min_int64 : ℤ
min_int64 = negsuc (2 ^ 63 - 1)

pub record InRange (z : ℤ) : Type 0 where
  pub lower : min_int64 ≤ℤ z
  pub upper : z ≤ℤ max_int64

-- The integer that the low 64 bits of `z` stand for.
unfoldable pub wrap64 : ℤ → ℤ
wrap64 (pos n) = let r = n % 2 ^ 64 in if ltb r (2 ^ 63) then pos r else negsuc (2 ^ 64 - r - 1)
wrap64 (negsuc n) = let r = n % 2 ^ 64 in if ltb r (2 ^ 63) then negsuc r else pos (2 ^ 64 - r - 1)

unfoldable pub add64 : ℤ → ℤ → ℤ
add64 a b = wrap64 (a +ℤ b)

unfoldable pub sub64 : ℤ → ℤ → ℤ
sub64 a b = wrap64 (a -ℤ b)

-- The product with a constant that is not negative.
unfoldable pub mul64 : ℕ → ℤ → ℤ
mul64 n a = wrap64 (pos (n * pos_part a) -ℤ pos (n * neg_part a))

-- The low 64 bits as a number.
abbrev pub bits : ℤ → ℕ
bits z = (pos_part z + (2 ^ 64 - neg_part z % 2 ^ 64)) % 2 ^ 64

-- The result of wrapping is an `int64`.
pub wrap64-InRange : (z : ℤ) → InRange (wrap64 z)
unfolding wrap64
wrap64-InRange z = ground arith

-- An integer in range is not changed.
pub wrap64_id : (z : ℤ) → InRange z → wrap64 z ≡ z
unfolding wrap64
wrap64_id z h = ground arith

pub bits-wrap64 : (z : ℤ) → bits (wrap64 z) ≡ bits z
unfolding wrap64
bits-wrap64 z = ground arith

pub bits-+ℤ : (a b : ℤ) → bits (a +ℤ b) ≡ (bits a + bits b) % 2 ^ 64
bits-+ℤ a b = omega int_laws

pub bits--ℤ : (a b : ℤ) → (bits (a -ℤ b) + bits b) % 2 ^ 64 ≡ bits a
bits--ℤ a b = omega int_laws

pub bits-injective : (a b : ℤ) → InRange a → InRange b → bits a ≡ bits b → a ≡ b
bits-injective a b ha hb e = omega int_laws

pub wrap64-eq : (a b : ℤ) → bits a ≡ bits b → wrap64 a ≡ wrap64 b
wrap64-eq a b e =
    bits-injective (wrap64 a) (wrap64 b) (wrap64-InRange a) (wrap64-InRange b)
      (bits-wrap64 a ∙ e ∙ sym (bits-wrap64 b))

pub add64-InRange : (a b : ℤ) → InRange (add64 a b)
unfolding add64
add64-InRange a b = wrap64-InRange (a +ℤ b)

pub sub64-InRange : (a b : ℤ) → InRange (sub64 a b)
unfolding sub64
sub64-InRange a b = wrap64-InRange (a -ℤ b)

pub bits-add64 : (a b : ℤ) → bits (add64 a b) ≡ (bits a + bits b) % 2 ^ 64
unfolding add64
bits-add64 a b = bits-wrap64 (a +ℤ b) ∙ bits-+ℤ a b

pub bits-sub64 : (a b : ℤ) → (bits (sub64 a b) + bits b) % 2 ^ 64 ≡ bits a
unfolding sub64
bits-sub64 a b = rw (bits-wrap64 (a -ℤ b)) (bits--ℤ a b)

pub add64_exact : (a b : ℤ) → InRange (a +ℤ b) → add64 a b ≡ a +ℤ b
unfolding add64
add64_exact a b h = wrap64_id (a +ℤ b) h

pub sub64_exact : (a b : ℤ) → InRange (a -ℤ b) → sub64 a b ≡ a -ℤ b
unfolding sub64
sub64_exact a b h = wrap64_id (a -ℤ b) h

max_plus_one : add64 max_int64 (pos 1) ≡ min_int64
unfolding add64 ◌+ℤ◌ wrap64
max_plus_one = refl
