-- ===== src/Brokers/Shares.antt =====
-- The attribution loop of `pay` (apps/api/src/commission/commission-payment.service.ts): no booking
-- is charged more than it has outstanding, and nothing of the payment is lost.
use openestate.Base.{
  ℕ, ◌+◌, ◌≤◌, ◌<◌, ◌≡◌, refl, ap, arith, Bool, true, false, List, [], ◌∷◌, ◌==◌, if◌then◌else◌,
  Bool-cases, inl, inr, total, All,
}
use openestate.Base.Int.{
  ℤ, pos, negsuc, ◌+ℤ◌, ◌-ℤ◌, ◌≤ℤ◌, pos_part, neg_part, ltb_ℤ, leb_ℤ, int_laws,
}
use openestate.Brokers.Attribution.{BookingTotal, GrossAllocation, take_of, attribute, is_empty}
use openestate.Brokers.Groups.{owed_part, owed_for, Outstanding}

-- What the allocations take from a booking, and from all.
abbrev pub gross_part : ℕ → GrossAllocation → ℤ
gross_part b a = if a.booking_id == b then a.gross_paise else pos 0

abbrev pub gross_for : ℕ → List GrossAllocation → ℤ
gross_for b [] = pos 0
gross_for b (a ∷ allocations) = gross_part b a +ℤ gross_for b allocations

abbrev pub gross_total : List GrossAllocation → ℤ
gross_total [] = pos 0
gross_total (a ∷ allocations) = a.gross_paise +ℤ gross_total allocations

abbrev pub Positive : GrossAllocation → Type 0
Positive a = (0 < pos_part a.gross_paise) × (neg_part a.gross_paise ≡ 0)

attribute_stop :
    (g : BookingTotal) (groups : List BookingTotal) (r : ℤ)
    → leb_ℤ r (pos 0) ≡ true
    → attribute (g ∷ groups) r ≡ ([], r)
unfolding attribute
attribute_stop g groups r c = ground (arith, c)

attribute_take :
    (g : BookingTotal) (groups : List BookingTotal) (r : ℤ)
    → leb_ℤ r (pos 0) ≡ false
    → attribute (g ∷ groups) r ≡ (
      record { booking_id = g.booking_id; gross_paise = take_of g r }
          ∷ (attribute groups (r -ℤ take_of g r)).0,
      (attribute groups (r -ℤ take_of g r)).1,
    )
unfolding attribute
attribute_take g groups r c = rw (c, if◌then◌else◌)

take_of_facts :
    (g : BookingTotal) (r : ℤ)
    → Outstanding g
    → leb_ℤ r (pos 0) ≡ false
    → (0 < pos_part (take_of g r))
      × (neg_part (take_of g r) ≡ 0)
      × (pos_part (take_of g r) ≤ pos_part g.total)
      × (take_of g r ≤ℤ r)
take_of_facts g r h c = ground arith

regroup : (t x l r : ℤ) → x +ℤ l ≡ r -ℤ t → t +ℤ x +ℤ l ≡ r
regroup t x l r h = omega (int_laws, ap pos_part h, ap neg_part h)

nonnegative_sum :
    (a c : ℤ)
    → neg_part a ≡ 0
    → neg_part c ≡ 0
    → (pos_part (a +ℤ c) ≡ pos_part a + pos_part c) × (neg_part (a +ℤ c) ≡ 0)
unfolding ◌+ℤ◌
nonnegative_sum a c h k = ground arith

covers :
    (g : BookingTotal) (groups : List BookingTotal) (r : ℤ)
    → Outstanding g
    → leb_ℤ r (pos 0) ≡ false
    → pos_part r ≤ total (λ x. pos_part x.total) (g ∷ groups)
    → pos_part (r -ℤ take_of g r) ≤ total (λ x. pos_part x.total) groups
unfolding ◌-ℤ◌
covers g groups r h c k = ground arith

-- Gross and rest make up the amount.
pub attribute-gross_total :
    (groups : List BookingTotal) (r : ℤ)
    → gross_total (attribute groups r).0 +ℤ (attribute groups r).1 ≡ r
unfolding attribute
attribute-gross_total [] r = omega int_laws
attribute-gross_total (g ∷ groups) r = elim (Bool-cases (leb_ℤ r (pos 0))) [
  | inl c ↦ rw (attribute_stop g groups r c) (omega int_laws)
  | inr c ↦
      let (later, left) = attribute groups (r -ℤ take_of g r) in
      rw (attribute_take g groups r c) (
        regroup (take_of g r) (gross_total later) left r
          (attribute-gross_total groups (r -ℤ take_of g r)))
]

pub attribute-Positive :
    (groups : List BookingTotal) (r : ℤ)
    → All Outstanding groups
    → All Positive (attribute groups r).0
unfolding attribute
attribute-Positive [] r h = tt
attribute-Positive (g ∷ groups) r (h, hs) = elim (Bool-cases (leb_ℤ r (pos 0))) [
  | inl c ↦ rw (attribute_stop g groups r c) tt
  | inr c ↦
      let (p, n, _, _) = take_of_facts g r h c in
      rw (attribute_take g groups r c) ((p, n), attribute-Positive groups (r -ℤ take_of g r) hs)
]

-- No booking is charged more than it has outstanding.
pub attribute-gross_for :
    (b : ℕ) (groups : List BookingTotal) (r : ℤ)
    → All Outstanding groups
    → (pos_part (gross_for b (attribute groups r).0) ≤ owed_for b groups)
      × (neg_part (gross_for b (attribute groups r).0) ≡ 0)
unfolding attribute
attribute-gross_for b [] r h = (omega arith, refl)
attribute-gross_for b (g ∷ groups) r (h, hs) = elim (Bool-cases (leb_ℤ r (pos 0))) [
  | inl c ↦ rw (attribute_stop g groups r c) (omega arith, refl)
  | inr c ↦
      let (p, n, le, _) = take_of_facts g r h c in
      let (most, none_below) = attribute-gross_for b groups (r -ℤ take_of g r) hs in
      let part : (pos_part (if g.booking_id == b then take_of g r else pos 0) ≤ owed_part b g)
          × (neg_part (if g.booking_id == b then take_of g r else pos 0) ≡ 0) =
        ground (arith, p, n, le) in
      let (sums, zero_below) =
        nonnegative_sum (if g.booking_id == b then take_of g r else pos 0)
          (gross_for b (attribute groups (r -ℤ take_of g r)).0) part.1 none_below in
      rw (attribute_take g groups r c) (omega (arith, sums, part.0, most), zero_below)
]

-- An amount of zero or more leaves a rest of zero or more.
pub attribute_rest :
    (groups : List BookingTotal) (r : ℤ)
    → All Outstanding groups
    → pos 0 ≤ℤ r
    → pos 0 ≤ℤ (attribute groups r).1
unfolding attribute
attribute_rest [] r h k = k
attribute_rest (g ∷ groups) r (h, hs) k = elim (Bool-cases (leb_ℤ r (pos 0))) [
  | inl c ↦ rw (attribute_stop g groups r c) k
  | inr c ↦
      let (_, _, _, le) = take_of_facts g r h c in
      rw (attribute_take g groups r c)
        (attribute_rest groups (r -ℤ take_of g r) hs (omega (int_laws, le)))
]

-- An amount within what is outstanding leaves no rest.
pub attribute_covered :
    (groups : List BookingTotal) (r : ℤ)
    → All Outstanding groups
    → pos_part r ≤ total (λ g. pos_part g.total) groups
    → (attribute groups r).1 ≤ℤ pos 0
unfolding attribute
attribute_covered [] r h k = omega (arith, k)
attribute_covered (g ∷ groups) r (h, hs) k = elim (Bool-cases (leb_ℤ r (pos 0))) [
  | inl c ↦ rw (attribute_stop g groups r c) (ground (arith, c))
  | inr c ↦
      rw (attribute_take g groups r c)
        (attribute_covered groups (r -ℤ take_of g r) hs (covers g groups r h c k))
]

nothing_taken :
    (groups : List BookingTotal) (r : ℤ)
    → leb_ℤ r (pos 0) ≡ true
    → is_empty (attribute groups r).0 ≡ true
unfolding attribute
nothing_taken [] r c = refl
nothing_taken (g ∷ groups) r c = rw (attribute_stop g groups r c)

some_taken : {x : Bool} → x ≡ true → ¬ (x ≡ false)
some_taken h k = cc

no_rest : (x l r : ℤ) → x +ℤ l ≡ r → pos 0 ≤ℤ l → l ≤ℤ pos 0 → x ≡ r
no_rest x l r h low high = omega (int_laws, ap pos_part h, ap neg_part h)

-- Allocations that leave nothing over make up the amount.
pub attribute_full :
    (groups : List BookingTotal) (r : ℤ)
    → All Outstanding groups
    → is_empty (attribute groups r).0 ≡ false
    → ltb_ℤ (pos 0) (attribute groups r).1 ≡ false
    → (gross_total (attribute groups r).0 ≡ r) × (0 < pos_part r)
attribute_full groups r h e l = elim (Bool-cases (leb_ℤ r (pos 0))) [
  | inl c ↦ absurd (some_taken (nothing_taken groups r c) e)
  | inr c ↦
      let above : 0 < pos_part r = ground (arith, c) in
      let low = attribute_rest groups r h (ground (arith, c)) in
      let whole = attribute-gross_total groups r in
      (
        no_rest (gross_total (attribute groups r).0) (attribute groups r).1 r whole low
            (ground (arith, l)),
        above,
      )
]

not_low : (r : ℤ) → 0 < pos_part r → ¬ (r ≤ℤ pos 0)
not_low (pos n) p h = omega (arith, p, h)
not_low (negsuc n) p h = omega (arith, p)

-- An amount above zero is allocated somewhere unless it is all left over.
pub attribute_taken :
    (groups : List BookingTotal) (r : ℤ)
    → 0 < pos_part r
    → (attribute groups r).1 ≤ℤ pos 0
    → is_empty (attribute groups r).0 ≡ false
unfolding attribute
attribute_taken [] r p h = absurd (not_low r p h)
attribute_taken (g ∷ groups) r p h = elim (Bool-cases (leb_ℤ r (pos 0))) [
  | inl c ↦ absurd (not_low r p (ground (arith, c)))
  | inr c ↦ rw (attribute_take g groups r c)
]
