-- ===== src/Money/Allocation.antt =====
-- `allocate` (packages/shared/src/money.ts): largest-remainder distribution of a total over
-- weights. No paise is lost, and every share is its exact quota rounded down or up.
use openestate.Base.{
  ℕ, zero, suc, ◌+◌, ◌-◌, ◌*◌, ◌≤◌, ◌<◌, ◌≡◌, refl, sym, ap, arith, ok, ◌==◌, Bool-cases, inl, inr,
  List, [], ◌∷◌, map, length, All, length-map, ◌∙◌, length-sort_by, sort_by-All,
}
use openestate.Base.Int.{ℤ, pos, negsuc, neg, neg_part, ◌≤ℤ◌, int_laws, sum_ℤ}
use openestate.Money.{
  Remainder, before, sort_remainders, bump, hand_out, sum, floor_shares, remainders_from,
  allocate_from, signed_shares, allocate,
}
use native.Mathlib.Nat.{div-add-mod', mod-lt}

abbrev sum_remainders : List Remainder → ℕ
sum_remainders [] = 0
sum_remainders (r ∷ rs) = r.remainder + sum_remainders rs

-- Floors and remainders together make up the whole.
floor_identity :
    (i t w : ℕ) (ws : List ℕ)
    → sum (floor_shares t w ws) * w + sum_remainders (remainders_from i t w ws) ≡ t * sum ws
unfolding sum floor_shares remainders_from
floor_identity i t w [] = omega arith
floor_identity i t w (v ∷ ws) = omega (arith, floor_identity (suc i) t w ws, div-add-mod' (t * v) w)

remainders_bound :
    (i t w : ℕ) (ws : List ℕ) → 0 < w → sum_remainders (remainders_from i t w ws) ≤ length ws * w
unfolding remainders_from
remainders_bound i t w [] h = omega arith
remainders_bound i t w (v ∷ ws) h =
    omega (arith, remainders_bound (suc i) t w ws h, mod-lt (t * v) {m = w} h)

length-floor_shares : (t w : ℕ) (ws : List ℕ) → length (floor_shares t w ws) ≡ length ws
unfolding floor_shares
length-floor_shares t w [] = refl
length-floor_shares t w (v ∷ ws) = ap suc (length-floor_shares t w ws)

length-remainders_from : (i t w : ℕ) (ws : List ℕ) → length (remainders_from i t w ws) ≡ length ws
unfolding remainders_from
length-remainders_from i t w [] = refl
length-remainders_from i t w (v ∷ ws) = ap suc (length-remainders_from (suc i) t w ws)

abbrev Below : ℕ → Remainder → Type 0
Below n r = r.index < n

length-sort : (rs : List Remainder) → length (sort_remainders rs) ≡ length rs
unfolding sort_remainders
length-sort rs = length-sort_by before rs

sort-All : (n : ℕ) (rs : List Remainder) → All (Below n) rs → All (Below n) (sort_remainders rs)
unfolding sort_remainders
sort-All n rs h = sort_by-All before (Below n) rs h

remainders-Below :
    (i t w : ℕ) (ws : List ℕ) (n : ℕ) → i + length ws ≤ n → All (Below n) (remainders_from i t w ws)
unfolding remainders_from
remainders-Below i t w [] n h = tt
remainders-Below i t w (v ∷ ws) n h = (omega arith, remainders-Below (suc i) t w ws n (omega arith))

length-bump : (i : ℕ) (shares : List ℕ) → length (bump i shares) ≡ length shares
unfolding bump
length-bump i [] = refl
length-bump zero (s ∷ shares) = refl
length-bump (suc i) (s ∷ shares) = ap suc (length-bump i shares)

sum-bump : (i : ℕ) (shares : List ℕ) → i < length shares → sum (bump i shares) ≡ suc (sum shares)
unfolding sum bump
sum-bump i [] h = elim h [ ]
sum-bump zero (s ∷ shares) h = omega arith
sum-bump (suc i) (s ∷ shares) h = omega (arith, sum-bump i shares (omega arith))

length-hand_out :
    (l : ℕ) (rs : List Remainder) (shares : List ℕ) → length (hand_out l rs shares) ≡ length shares
unfolding hand_out
length-hand_out l [] shares = refl
length-hand_out zero (r ∷ rs) shares = refl
length-hand_out (suc l) (r ∷ rs) shares =
    length-hand_out l rs (bump r.index shares) ∙ length-bump r.index shares

-- The loop gives out all that is left over when there are enough entries.
sum-hand_out :
    (l : ℕ) (rs : List Remainder) (shares : List ℕ)
    → l ≤ length rs
    → All (Below (length shares)) rs
    → sum (hand_out l rs shares) ≡ sum shares + l
unfolding hand_out
sum-hand_out zero [] shares h k = omega arith
sum-hand_out (suc l) [] shares h k = elim h [ ]
sum-hand_out zero (r ∷ rs) shares h k = omega arith
sum-hand_out (suc l) (r ∷ rs) shares h (k, ks) = omega (
  arith,
  sum-bump r.index shares k,
  sum-hand_out l rs (bump r.index shares) (omega arith) (rw (length-bump r.index shares) ks),
)

mul_cancel_le : (a b w : ℕ) → 0 < w → a * w ≤ b * w → a ≤ b
mul_cancel_le a b w h k = grind arith

sub_mul : (t f w : ℕ) → f ≤ t → (t - f) * w + f * w ≡ t * w
sub_mul t f w h = grind arith

-- What is left over is at most one paise for each weight.
leftover_facts :
    (t : ℕ) (ws : List ℕ)
    → 0 < sum ws
    → (sum (floor_shares t (sum ws) ws) ≤ t) × (t - sum (floor_shares t (sum ws) ws) ≤ length ws)
leftover_facts t ws h =
    let w = sum ws in
    let f = sum (floor_shares t w ws) in
    let e = floor_identity 0 t w ws in
    let b = remainders_bound 0 t w ws h in
    let le : f ≤ t = mul_cancel_le f t w h (omega (arith, e)) in
    (le, mul_cancel_le (t - f) (length ws) w h (omega (arith, e, b, sub_mul t f w le)))

allocate_from-sum :
    (t : ℕ) (ws : List ℕ)
    → 0 < sum ws
    → (sum (allocate_from t ws) ≡ t) × (length (allocate_from t ws) ≡ length ws)
unfolding allocate_from
allocate_from-sum t ws h =
    let shares = floor_shares t (sum ws) ws in
    let rs = remainders_from 0 t (sum ws) ws in
    let (le, room) = leftover_facts t ws h in
    let n = length-floor_shares t (sum ws) ws in
    let m = length-sort rs ∙ length-remainders_from 0 t (sum ws) ws in
    (
      omega (
        arith,
        sum-hand_out (t - sum shares) (sort_remainders rs) shares (omega (arith, m)) (
            sort-All (length shares) rs
              (remainders-Below 0 t (sum ws) ws (length shares) (omega (arith, n)))),
      ),
      length-hand_out (t - sum shares) (sort_remainders rs) shares ∙ n,
    )

sum-map-pos : (xs : List ℕ) → sum_ℤ (map pos xs) ≡ pos (sum xs)
unfolding sum
sum-map-pos [] = refl
sum-map-pos (x ∷ xs) = rw (sum-map-pos xs) (omega int_laws)

sum-map-neg : (xs : List ℕ) → sum_ℤ (map (λ s. neg (pos s)) xs) ≡ neg (pos (sum xs))
unfolding sum
sum-map-neg [] = omega int_laws
sum-map-neg (x ∷ xs) = rw (sum-map-neg xs) (omega int_laws)

signed_shares-sum :
    (total : ℤ) (ws : List ℕ)
    → 0 < sum ws
    → (sum_ℤ (signed_shares total ws) ≡ total) × (length (signed_shares total ws) ≡ length ws)
unfolding signed_shares neg
signed_shares-sum (pos t) ws h =
    let (s, l) = allocate_from-sum t ws h in
    (sum-map-pos (allocate_from t ws) ∙ ap pos s, length-map pos (allocate_from t ws) ∙ l)
signed_shares-sum (negsuc n) ws h =
    let (s, l) = allocate_from-sum (suc n) ws h in
    (
      sum-map-neg (allocate_from (suc n) ws) ∙ ap (λ k. neg (pos k)) s,
      length-map (λ k. neg (pos k)) (allocate_from (suc n) ws) ∙ l,
    )

empty : ¬ (0 < sum [])
unfolding sum
empty h = omega arith

-- With some weight above zero, `allocate` returns one share for each weight, and the shares add
-- up to the total exactly, whatever its sign.
pub allocate-sum :
    (total : ℤ) (ws : List ℕ)
    → 0 < sum ws
    → (shares : List ℤ) × (allocate total ws ≡ ok shares)
      × (sum_ℤ shares ≡ total)
      × (length shares ≡ length ws)
unfolding allocate
allocate-sum total [] h = absurd (empty h)
allocate-sum total (w ∷ ws) h =
    let (s, l) = signed_shares-sum total (w ∷ ws) h in
    (signed_shares total (w ∷ ws), ground arith, s, l)

map-pos-NonNegative : (xs : List ℕ) → All (λ s. neg_part s ≡ 0) (map pos xs)
map-pos-NonNegative [] = tt
map-pos-NonNegative (x ∷ xs) = (refl, map-pos-NonNegative xs)

-- With a total and weights above zero `allocate` returns shares of zero or more that add up.
pub allocate-NonNegative :
    (total : ℤ) (ws : List ℕ)
    → pos 0 ≤ℤ total
    → 0 < sum ws
    → (shares : List ℤ) × (allocate total ws ≡ ok shares)
      × (sum_ℤ shares ≡ total)
      × (length shares ≡ length ws)
      × All (λ s. neg_part s ≡ 0) shares
unfolding allocate signed_shares
allocate-NonNegative (negsuc n) ws h k = absurd (omega (arith, h))
allocate-NonNegative (pos t) [] h k = absurd (empty k)
allocate-NonNegative (pos t) (w ∷ ws) h k =
    let (s, l) = signed_shares-sum (pos t) (w ∷ ws) k in
    (
      signed_shares (pos t) (w ∷ ws),
      ground arith,
      s,
      l,
      map-pos-NonNegative (allocate_from t (w ∷ ws)),
    )

-- What `allocate` returned adds up, whatever it was called with.
pub allocate_inv :
    (total : ℤ) (ws : List ℕ) (shares : List ℤ)
    → allocate total ws ≡ ok shares
    → (sum_ℤ shares ≡ total) × (length shares ≡ length ws)
unfolding allocate
allocate_inv total [] shares h = cc
allocate_inv total (w ∷ ws) shares h = elim (Bool-cases (sum (w ∷ ws) == 0)) [
  | inl c ↦ ground (arith, c)
  | inr c ↦
      let (s, l) = signed_shares-sum total (w ∷ ws) (ground (arith, c)) in
      let same : signed_shares total (w ∷ ws) ≡ shares = ground (arith, c) in
      (sym (ap sum_ℤ same) ∙ s, sym (ap length same) ∙ l)
]
