-- ===== src/Base/Int.antt =====
-- BigInt amounts as signed integers over the native numbers. Sums and orders go through the two
-- parts of an integer, which are numbers that `omega` reads.
use Prim.Native.Nat.{ℕ, zero, suc, ◌+◌, ◌-◌, ◌*◌, ◌≤◌}
use mathlib.Core.Path.{◌≡◌, refl, ap, ap₂}
use mathlib.Core.Bool.{Bool, false}
use mathlib.Core.List.{List, [], ◌∷◌, ◌++◌}
use native.Mathlib.Omega.{arith}
use openestate.Base.Tests.{ltb, leb, if◌then◌else◌}

-- `negsuc n` is -(n + 1).
pub data ℤ : Type 0 where
  pos : ℕ → ℤ
  negsuc : ℕ → ℤ

abbrev pub pos_part : ℤ → ℕ
pos_part (pos n) = n
pos_part (negsuc n) = 0

abbrev pub neg_part : ℤ → ℕ
neg_part (pos n) = 0
neg_part (negsuc n) = suc n

-- a - b, as an integer.
abbrev pub sub_ℕ : ℕ → ℕ → ℤ
sub_ℕ a b = if leb b a then pos (a - b) else negsuc (b - a - 1)

infixl 65 ◌+ℤ◌ ◌-ℤ◌
infixl 70 ◌*ℤ◌
infix 50 ◌≤ℤ◌
unfoldable pub ◌+ℤ◌ : ℤ → ℤ → ℤ
a +ℤ b = sub_ℕ (pos_part a + pos_part b) (neg_part a + neg_part b)

unfoldable pub ◌-ℤ◌ : ℤ → ℤ → ℤ
a -ℤ b = sub_ℕ (pos_part a + neg_part b) (neg_part a + pos_part b)

-- `-a`
unfoldable pub neg : ℤ → ℤ
neg (pos zero) = pos 0
neg (pos (suc n)) = negsuc n
neg (negsuc n) = pos (suc n)

unfoldable pub ◌*ℤ◌ : ℤ → ℤ → ℤ
a *ℤ b =
    sub_ℕ (pos_part a * pos_part b + neg_part a * neg_part b)
      (pos_part a * neg_part b + neg_part a * pos_part b)

abbrev pub ◌≤ℤ◌ : ℤ → ℤ → Type 0
a ≤ℤ b = pos_part a + neg_part b ≤ pos_part b + neg_part a

abbrev pub ltb_ℤ : ℤ → ℤ → Bool
ltb_ℤ a b = ltb (pos_part a + neg_part b) (pos_part b + neg_part a)

abbrev pub leb_ℤ : ℤ → ℤ → Bool
leb_ℤ a b = leb (pos_part a + neg_part b) (pos_part b + neg_part a)

abbrev pub eqb_ℤ : ℤ → ℤ → Bool
eqb_ℤ a b = if leb_ℤ a b then leb_ℤ b a else false

pub +ℤ_parts :
    (a b : ℤ)
    → pos_part (a +ℤ b) + neg_part a + neg_part b ≡ neg_part (a +ℤ b) + pos_part a + pos_part b
unfolding ◌+ℤ◌
+ℤ_parts a b = ground arith

pub -ℤ_parts :
    (a b : ℤ)
    → pos_part (a -ℤ b) + neg_part a + pos_part b ≡ neg_part (a -ℤ b) + pos_part a + neg_part b
unfolding ◌-ℤ◌
-ℤ_parts a b = ground arith

pub neg_parts : (a : ℤ) → pos_part (neg a) + pos_part a ≡ neg_part (neg a) + neg_part a
unfolding neg
neg_parts (pos zero) = refl
neg_parts (pos (suc n)) = omega arith
neg_parts (negsuc n) = omega arith

pub eq_of_parts : (a b : ℤ) → pos_part a + neg_part b ≡ pos_part b + neg_part a → a ≡ b
eq_of_parts a b h = ground arith

pub ruleset int_laws = (arith, +ℤ_parts, -ℤ_parts, neg_parts, eq_of_parts)

pub pos-mul : (a b : ℕ) → pos a *ℤ pos b ≡ pos (a * b)
unfolding ◌*ℤ◌
pos-mul a b = ground arith

-- `xs.reduce((a, b) => a + b, 0n)`, from the right.
abbrev pub sum_ℤ : List ℤ → ℤ
sum_ℤ [] = pos 0
sum_ℤ (x ∷ xs) = x +ℤ sum_ℤ xs

pub sum_ℤ-append : (xs ys : List ℤ) → sum_ℤ (xs ++ ys) ≡ sum_ℤ xs +ℤ sum_ℤ ys
sum_ℤ-append [] ys = omega int_laws
sum_ℤ-append (x ∷ xs) ys = rw (sum_ℤ-append xs ys) (omega int_laws)

-- `|a|`
abbrev pub magnitude : ℤ → ℕ
magnitude a = pos_part a + neg_part a

pub pos_part-neg : (a : ℤ) → pos_part (neg a) ≡ neg_part a
unfolding neg
pos_part-neg (pos zero) = refl
pos_part-neg (pos (suc n)) = refl
pos_part-neg (negsuc n) = refl

pub neg_part-neg : (a : ℤ) → neg_part (neg a) ≡ pos_part a
unfolding neg
neg_part-neg (pos zero) = refl
neg_part-neg (pos (suc n)) = refl
neg_part-neg (negsuc n) = refl

neg-sub_ℕ : (a b : ℕ) → neg (sub_ℕ a b) ≡ sub_ℕ b a
neg-sub_ℕ a b = ground (arith, neg_parts (sub_ℕ a b), eq_of_parts (neg (sub_ℕ a b)) (sub_ℕ b a))

pub neg-mul : (a b : ℤ) → neg a *ℤ b ≡ neg (a *ℤ b)
unfolding ◌*ℤ◌
neg-mul a b = rw (pos_part-neg a, neg_part-neg a, neg-sub_ℕ) (ap₂ sub_ℕ (omega arith) (omega arith))

pub mul-neg : (a b : ℤ) → a *ℤ neg b ≡ neg (a *ℤ b)
unfolding ◌*ℤ◌
mul-neg a b = rw (pos_part-neg b, neg_part-neg b, neg-sub_ℕ) (ap₂ sub_ℕ (omega arith) (omega arith))

pub neg-neg : (a : ℤ) → neg (neg a) ≡ a
neg-neg a = omega int_laws

pub magnitude-neg : (a : ℤ) → magnitude (neg a) ≡ magnitude a
magnitude-neg a = omega (arith, pos_part-neg a, neg_part-neg a)

pub magnitude-neg_sub : (a b : ℤ) → magnitude (neg a -ℤ neg b) ≡ magnitude (a -ℤ b)
unfolding ◌-ℤ◌
magnitude-neg_sub a b =
    rw (pos_part-neg a, neg_part-neg a, pos_part-neg b, neg_part-neg b) (ground arith)

pub negsuc-neg : (n : ℕ) → negsuc n ≡ neg (pos (suc n))
unfolding neg
negsuc-neg n = refl

assoc_pos : (a b c : ℕ) → pos a *ℤ pos b *ℤ pos c ≡ pos a *ℤ (pos b *ℤ pos c)
assoc_pos a b c =
    rw (pos-mul a b, pos-mul (a * b) c, pos-mul b c, pos-mul a (b * c)) (ap pos (omega arith))

assoc_right : (a b : ℕ) (c : ℤ) → pos a *ℤ pos b *ℤ c ≡ pos a *ℤ (pos b *ℤ c)
assoc_right a b (pos c) = assoc_pos a b c
assoc_right a b (negsuc c) = rw (
  negsuc-neg c,
  mul-neg (pos a *ℤ pos b) (pos (suc c)),
  mul-neg (pos b) (pos (suc c)),
  mul-neg (pos a) (pos b *ℤ pos (suc c)),
  assoc_pos a b (suc c),
)

assoc_middle : (a : ℕ) (b c : ℤ) → pos a *ℤ b *ℤ c ≡ pos a *ℤ (b *ℤ c)
assoc_middle a (pos b) c = assoc_right a b c
assoc_middle a (negsuc b) c = rw (
  negsuc-neg b,
  mul-neg (pos a) (pos (suc b)),
  neg-mul (pos a *ℤ pos (suc b)) c,
  neg-mul (pos (suc b)) c,
  mul-neg (pos a) (pos (suc b) *ℤ c),
  assoc_right a (suc b) c,
)

pub *ℤ_assoc : (a b c : ℤ) → a *ℤ b *ℤ c ≡ a *ℤ (b *ℤ c)
*ℤ_assoc (pos a) b c = assoc_middle a b c
*ℤ_assoc (negsuc a) b c = rw (
  negsuc-neg a,
  neg-mul (pos (suc a)) b,
  neg-mul (pos (suc a) *ℤ b) c,
  neg-mul (pos (suc a)) (b *ℤ c),
  assoc_middle (suc a) b c,
)
