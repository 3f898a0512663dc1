-- ===== src/Money.antt =====
-- packages/shared/src/money.ts: amounts are integers in paise, rates are basis points.
-- A BigInt is an integer; a division by a BigInt truncates towards zero and fails at zero.
-- Weights are natural numbers: every caller of `allocate` passes percents or amounts that its
-- schema or its own guard keeps at zero or above.
pub mod Rounding
pub mod Allocation
pub mod Quota
pub mod Gst
mod Tests
use openestate.Base.{
  ℕ, zero, suc, ◌+◌, ◌-◌, ◌*◌, ◌/◌, ◌%◌, ◌<◌, ◌≡◌, Bool, true, false, Option, none, some, List, [],
  ◌∷◌, map, ltb, ◌==◌, if◌then◌else◌, Result, ok, err, Error, thrown, range_error, ◌>>=◌, sort_by,
}
use openestate.Base.Int.{ℤ, pos, negsuc, neg, ◌+ℤ◌, ◌-ℤ◌, ◌*ℤ◌, pos_part, neg_part, ltb_ℤ}

pub add_paise : ℤ → ℤ → ℤ
add_paise a b = a +ℤ b

pub subtract_paise : ℤ → ℤ → ℤ
subtract_paise a b = a -ℤ b

pub multiply_paise : ℤ → ℤ → ℤ
multiply_paise paise factor = paise *ℤ factor

-- `(n + d / 2n) / d`
abbrev pub half_up : ℕ → ℕ → ℕ
half_up n d = (n + d / 2) / d

-- The two branches of `roundedDiv` for a denominator above zero.
unfoldable pub round_quot : ℤ → ℕ → ℤ
round_quot (pos n) d = pos (half_up n d)
round_quot (negsuc n) d = neg (pos (half_up (suc n) d))

-- BigInt division by zero is a RangeError.
unfoldable pub rounded_div : ℤ → ℤ → Result ℤ
unfolding round_quot
rounded_div numerator (negsuc d) = ok (round_quot (neg numerator) (suc d))
rounded_div numerator (pos zero) = err range_error
rounded_div numerator (pos (suc d)) = ok (round_quot numerator (suc d))

-- The denominator is the constant 10_000.
unfoldable pub percent_of : ℤ → ℕ → ℤ
percent_of paise basis_points = round_quot (paise *ℤ pos basis_points) 10_000

-- One entry of `remainders`.
pub record Remainder : Type 0 where
  pub index : ℕ
  pub remainder : ℕ

-- The comparator: larger remainder first, then the lower index. It answers whether `a` stands
-- before `b`.
before : Remainder → Remainder → Bool
before a b =
    if ltb a.remainder b.remainder
    then false
    else (if ltb b.remainder a.remainder then true else ltb a.index b.index)

-- `remainders.sort(…)`
sort_remainders : List Remainder → List Remainder
unfolding before sort_by
sort_remainders rs = sort_by before rs

-- `shares[i] += 1n`
bump : ℕ → List ℕ → List ℕ
bump i [] = []
bump zero (s ∷ shares) = suc s ∷ shares
bump (suc i) (s ∷ shares) = s ∷ bump i shares

-- The second loop: one paise to each entry in order while some is left over.
hand_out : ℕ → List Remainder → List ℕ → List ℕ
unfolding bump
hand_out leftover [] shares = shares
hand_out zero (r ∷ rest) shares = shares
hand_out (suc leftover) (r ∷ rest) shares = hand_out leftover rest (bump r.index shares)

unfoldable pub sum : List ℕ → ℕ
sum [] = 0
sum (w ∷ ws) = w + sum ws

-- The first loop: the floor of each share, and each remainder with its index.
floor_shares : ℕ → ℕ → List ℕ → List ℕ
floor_shares total weight_sum [] = []
floor_shares total weight_sum (w ∷ ws) = (total * w / weight_sum) ∷ floor_shares total weight_sum ws

remainders_from : ℕ → ℕ → ℕ → List ℕ → List Remainder
remainders_from i total weight_sum [] = []
remainders_from i total weight_sum (w ∷ ws) =
    record { index = i; remainder = total * w % weight_sum }
    ∷ remainders_from (suc i) total weight_sum ws

-- The body of `allocate` for a total of zero or more, after its guards.
allocate_from : ℕ → List ℕ → List ℕ
unfolding sum floor_shares remainders_from sort_remainders hand_out
allocate_from total weights =
    let weight_sum = sum weights in
    let shares = floor_shares total weight_sum weights in
    hand_out (total - sum shares) (sort_remainders (remainders_from 0 total weight_sum weights))
      shares

-- A total below zero allocates its magnitude and flips the signs.
signed_shares : ℤ → List ℕ → List ℤ
unfolding allocate_from
signed_shares (pos total) weights = map pos (allocate_from total weights)
signed_shares (negsuc n) weights = map (λ s. neg (pos s)) (allocate_from (suc n) weights)

unfoldable pub allocate : ℤ → List ℕ → Result (List ℤ)
unfolding signed_shares
allocate total [] = err thrown
allocate total (w ∷ ws) =
    if sum (w ∷ ws) == 0 then err thrown else ok (signed_shares total (w ∷ ws))

pub record GstComponents : Type 0 where
  pub cgst_paise : ℤ
  pub sgst_paise : ℤ
  pub igst_paise : ℤ

-- `BigInt(rateBasisPoints / 2)` throws a RangeError unless the half is a whole number.
half_rate : ℕ → Result ℕ
half_rate bp = if bp % 2 == 0 then ok (bp / 2) else err range_error

-- Both the half and the full tax are computed before the branch on `intraState`.
pub gst_components : ℤ → ℕ → Bool → Result GstComponents
unfolding half_rate
gst_components base_paise rate intra_state = do
  half_bp ← half_rate rate
  let half = percent_of base_paise half_bp
  let full = percent_of base_paise rate
  if intra_state
      then ok (record { cgst_paise = half; sgst_paise = half; igst_paise = pos 0 })
      else ok (record { cgst_paise = pos 0; sgst_paise = pos 0; igst_paise = full })

pub gst_total : GstComponents → ℤ
gst_total c = c.cgst_paise +ℤ c.sgst_paise +ℤ c.igst_paise
