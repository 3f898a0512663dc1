-- ===== src/Money/Quota.antt =====
-- `allocate` (packages/shared/src/money.ts): every share is its exact quota rounded down, or one
-- paise above that. No index is handed a second paise, because sorting repeats no entry.
use openestate.Base.{
  ℕ, zero, suc, ◌+◌, ◌-◌, ◌*◌, ◌/◌, ◌≤◌, ◌<◌, ◌≡◌, refl, arith, ok, List, [], ◌∷◌, map, get_or,
  if◌then◌else◌, ◌==◌, total, total-sort_by,
}
use openestate.Base.Int.{pos}
use openestate.Money.{
  Remainder, before, sort_remainders, bump, hand_out, sum, floor_shares, remainders_from,
  allocate_from, allocate,
}

abbrev carries : ℕ → Remainder → ℕ
carries i r = if r.index == i then 1 else 0

-- How many entries carry index `i`.
abbrev entries : ℕ → List Remainder → ℕ
entries i rs = total (carries i) rs

entries-sort : (i : ℕ) (rs : List Remainder) → entries i (sort_remainders rs) ≡ entries i rs
unfolding sort_remainders
entries-sort i rs = total-sort_by (carries i) before rs

entries-remainders_from :
    (i k t w : ℕ) (ws : List ℕ)
    → (entries i (remainders_from k t w ws) ≤ 1)
      × (i < k → entries i (remainders_from k t w ws) ≡ 0)
unfolding remainders_from
entries-remainders_from i k t w [] = (omega arith, λ _. refl)
entries-remainders_from i k t w (v ∷ ws) =
    let (one, none_below) = entries-remainders_from i (suc k) t w ws in
    (ground (arith, one, none_below), λ h. ground (arith, none_below))

get_or-bump :
    (i j : ℕ) (shares : List ℕ)
    → (get_or shares i 0 ≤ get_or (bump j shares) i 0)
      × (get_or (bump j shares) i 0 ≤ get_or shares i 0 + (if j == i then 1 else 0))
unfolding bump
get_or-bump i j [] = (omega arith, omega arith)
get_or-bump zero zero (s ∷ shares) = (omega arith, omega arith)
get_or-bump (suc i) zero (s ∷ shares) = (omega arith, omega arith)
get_or-bump zero (suc j) (s ∷ shares) = (omega arith, omega arith)
get_or-bump (suc i) (suc j) (s ∷ shares) = ground (arith, get_or-bump i j shares)

get_or-hand_out :
    (i l : ℕ) (rs : List Remainder) (shares : List ℕ)
    → (get_or shares i 0 ≤ get_or (hand_out l rs shares) i 0)
      × (get_or (hand_out l rs shares) i 0 ≤ get_or shares i 0 + entries i rs)
unfolding hand_out
get_or-hand_out i l [] shares = (omega arith, omega arith)
get_or-hand_out i zero (r ∷ rs) shares = (omega arith, omega arith)
get_or-hand_out i (suc l) (r ∷ rs) shares =
    let (a, b) = get_or-hand_out i l rs (bump r.index shares) in
    let (c, d) = get_or-bump i r.index shares in (omega (arith, a, c), omega (arith, b, d))

-- The share that weight `i` has before rounding, rounded down.
abbrev pub quota : ℕ → List ℕ → ℕ → ℕ
quota total ws i = total * get_or ws i 0 / sum ws

get_or-floor_shares :
    (i t w : ℕ) (ws : List ℕ) → get_or (floor_shares t w ws) i 0 ≡ t * get_or ws i 0 / w
unfolding floor_shares
get_or-floor_shares i t w [] = omega arith
get_or-floor_shares zero t w (v ∷ ws) = refl
get_or-floor_shares (suc i) t w (v ∷ ws) = get_or-floor_shares i t w ws

allocate_from-quota :
    (t i : ℕ) (ws : List ℕ)
    → (quota t ws i ≤ get_or (allocate_from t ws) i 0)
      × (get_or (allocate_from t ws) i 0 ≤ quota t ws i + 1)
unfolding allocate_from
allocate_from-quota t i ws =
    let w = sum ws in
    let shares = floor_shares t w ws in
    let rs = remainders_from 0 t w ws in
    let (lo, hi) = get_or-hand_out i (t - sum shares) (sort_remainders rs) shares in
    let e = get_or-floor_shares i t w ws in
    let c = entries-sort i rs in
    let one = (entries-remainders_from i 0 t w ws).0 in
    (omega (arith, lo, e), omega (arith, hi, e, c, one))

-- For a total of zero or more and some weight above zero, `allocate` returns shares of which
-- each lies between its quota rounded down and one paise more.
pub allocate-quota :
    (t : ℕ) (ws : List ℕ)
    → 0 < sum ws
    → (shares : List ℕ) × (allocate (pos t) ws ≡ ok (map pos shares))
      × ((i : ℕ) → (quota t ws i ≤ get_or shares i 0) × (get_or shares i 0 ≤ quota t ws i + 1))
unfolding allocate sum
allocate-quota t [] h = elim h [ ]
allocate-quota t (w ∷ ws) h =
    (allocate_from t (w ∷ ws), ground arith, λ i. allocate_from-quota t i (w ∷ ws))
