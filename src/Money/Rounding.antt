-- ===== src/Money/Rounding.antt =====
-- `roundedDiv` and `percentOf` (packages/shared/src/money.ts): how far the result may lie from
-- the exact quotient, and on which side.
use openestate.Base.{
  ℕ, zero, suc, ◌+◌, ◌*◌, ◌/◌, ◌≤◌, ◌<◌, ◌≡◌, ◌≢◌, refl, sym, ap, arith, Result, ok, err,
}
use openestate.Base.Int.{
  ℤ, pos, negsuc, neg, ◌-ℤ◌, ◌*ℤ◌, magnitude, pos-mul, neg-mul, mul-neg, neg-neg, magnitude-neg_sub,
}
use openestate.Money.{half_up, round_quot, rounded_div}
use native.Mathlib.Nat.{div-add-mod', mod-lt}

-- The rounded quotient of natural numbers, from both sides: halves go up.
pub half_up_bounds :
    (n d : ℕ)
    → (2 * (half_up n (suc d) * suc d) ≤ 2 * n + suc d)
      × (2 * n < 2 * (half_up n (suc d) * suc d) + suc d)
half_up_bounds n d =
    let e = div-add-mod' (n + suc d / 2) (suc d) in
    let l = mod-lt (n + suc d / 2) {m = suc d} (omega arith) in
    let half = div-add-mod' (suc d) 2 in (omega (arith, e, l), omega (arith, e, l))

-- The bounds leave one number.
mul_gap : (a b d : ℕ) → a < b → a * d + d ≤ b * d
mul_gap a b d h = grind arith

pub nearest_unique :
    (n d p q : ℕ)
    → 2 * (p * d) ≤ 2 * n + d
    → 2 * n < 2 * (p * d) + d
    → 2 * (q * d) ≤ 2 * n + d
    → 2 * n < 2 * (q * d) + d
    → p ≡ q
nearest_unique n d p q a b c e = grind (arith, mul_gap p q d, mul_gap q p d)

-- `half_up n d` is the number that the bounds single out.
pub half_up_unique :
    (n d q : ℕ)
    → 2 * (q * suc d) ≤ 2 * n + suc d
    → 2 * n < 2 * (q * suc d) + suc d
    → half_up n (suc d) ≡ q
half_up_unique n d q a b =
    let (lo, hi) = half_up_bounds n d in nearest_unique n (suc d) (half_up n (suc d)) q lo hi a b

-- How far `q * d` lies from `n`.
abbrev pub off_by : (n q d : ℤ) → ℕ
off_by n q d = magnitude (n -ℤ q *ℤ d)

near_pos :
    (n x d : ℕ)
    → 2 * (x * d) ≤ 2 * n + d
    → 2 * n < 2 * (x * d) + d
    → 2 * off_by (pos n) (pos x) (pos d) ≤ d
unfolding ◌-ℤ◌
near_pos n x d lo hi = rw (pos-mul x d) (ground arith)

-- Negating numerator and quotient, or quotient and denominator, keeps the distance.
off_by-neg-neg : (n q d : ℤ) → off_by (neg n) (neg q) d ≡ off_by n q d
off_by-neg-neg n q d = rw (neg-mul q d) (magnitude-neg_sub n (q *ℤ d))

off_by-neg_den : (n q d : ℤ) → off_by n q (neg d) ≡ off_by (neg n) q d
off_by-neg_den n q d = rw (mul-neg q d, ← magnitude-neg_sub n (neg (q *ℤ d)), neg-neg (q *ℤ d))

off_by-neg-suc : (n q : ℤ) (d : ℕ) → off_by n q (negsuc d) ≡ off_by (neg n) q (pos (suc d))
unfolding neg
off_by-neg-suc n q d = off_by-neg_den n q (pos (suc d))

round_quot_near : (n : ℤ) (d : ℕ) → 2 * off_by n (round_quot n (suc d)) (pos (suc d)) ≤ suc d
unfolding round_quot neg
round_quot_near (pos n) d =
    let (lo, hi) = half_up_bounds n d in near_pos n (half_up n (suc d)) (suc d) lo hi
round_quot_near (negsuc n) d =
    let (lo, hi) = half_up_bounds (suc n) d in
    rw (off_by-neg-neg (pos (suc n)) (pos (half_up (suc n) (suc d))) (pos (suc d)))
      (near_pos (suc n) (half_up (suc n) (suc d)) (suc d) lo hi)

-- For every denominator but zero `roundedDiv` returns, and twice the distance of the numerator
-- from quotient times denominator is at most the denominator's magnitude.
pub rounded_div_nearest :
    (n d : ℤ) → d ≢ pos 0 → (q : ℤ) × (rounded_div n d ≡ ok q) × (2 * off_by n q d ≤ magnitude d)
unfolding rounded_div
rounded_div_nearest n (pos zero) h = absurd (h refl)
rounded_div_nearest n (pos (suc d)) h =
    (round_quot n (suc d), refl, omega (arith, round_quot_near n d))
rounded_div_nearest n (negsuc d) h = (
  round_quot (neg n) (suc d),
  refl,
  omega (arith, round_quot_near (neg n) d, off_by-neg-suc n (round_quot (neg n) (suc d)) d),
)

pub half_up-zero : (d : ℕ) → half_up 0 (suc d) ≡ 0
half_up-zero d = half_up_unique 0 d 0 (omega arith) (omega arith)

-- Rounding is symmetric about zero: halves go away from it.
pub round_quot-neg : (n : ℤ) (d : ℕ) → round_quot (neg n) (suc d) ≡ neg (round_quot n (suc d))
unfolding round_quot neg
round_quot-neg (pos zero) d = rw (half_up-zero d)
round_quot-neg (pos (suc n)) d = refl
round_quot-neg (negsuc n) d = sym (neg-neg (pos (half_up (suc n) (suc d))))

abbrev pub negated : Result ℤ → Result ℤ
negated (ok q) = ok (neg q)
negated (err e) = err e

-- `roundedDiv` is symmetric: negating the numerator, or the denominator, negates the result.
pub rounded_div-neg :
    (n d : ℤ)
    → (rounded_div (neg n) d ≡ negated (rounded_div n d))
      × (rounded_div n (neg d) ≡ negated (rounded_div n d))
unfolding rounded_div neg
rounded_div-neg n (pos zero) = (refl, refl)
rounded_div-neg n (pos (suc d)) = (ap ok (round_quot-neg n d), ap ok (round_quot-neg n d))
rounded_div-neg n (negsuc d) =
    (ap ok (round_quot-neg (neg n) d), ap ok (rw (round_quot-neg n d, neg-neg)))
