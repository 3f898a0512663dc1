-- ===== src/Base/Lists.antt =====
-- Lists measured and indexed by native numbers, under the library's names, and predicates on all
-- the elements of a list.
use Prim.Native.Nat.{ℕ, zero, suc, ◌+◌}
use mathlib.Core.Path.{◌≡◌, refl, ap, sym, ◌∙◌, subst}
use mathlib.Core.Logic.{inl, inr}
use mathlib.Core.Bool.{Bool, true, false}
use mathlib.Core.List.{List, [], ◌∷◌, ◌++◌, map}
use mathlib.Core.Option.{Option, none, some}
use native.Mathlib.Omega.{arith}
use openestate.Base.Tests.{Bool-cases}

module _ {ℓ} {A : Type ℓ} where
  abbrev pub length : List A → ℕ
  length [] = 0
  length (x ∷ xs) = suc (length xs)

  abbrev pub get_elem? : List A → ℕ → Option A
  get_elem? [] i = none
  get_elem? (x ∷ xs) zero = some x
  get_elem? (x ∷ xs) (suc i) = get_elem? xs i

  abbrev pub get_or : List A → ℕ → A → A
  get_or [] i d = d
  get_or (x ∷ xs) zero d = x
  get_or (x ∷ xs) (suc i) d = get_or xs i d

  -- `xs.find(p)`
  abbrev pub find? : (A → Bool) → List A → Option A
  find? p [] = none
  find? p (x ∷ xs) = elim (p x) [ true ↦ some x | false ↦ find? p xs ]

  -- `xs.filter(p)`
  abbrev pub select : (A → Bool) → List A → List A
  select p [] = []
  select p (x ∷ xs) = elim (p x) [ true ↦ x ∷ select p xs | false ↦ select p xs ]

  -- `xs.some(p)`
  abbrev pub any : (A → Bool) → List A → Bool
  any p [] = false
  any p (x ∷ xs) = elim (p x) [ true ↦ true | false ↦ any p xs ]

  -- `updateMany`: rewrite the rows that satisfy the test.
  abbrev pub update_where : (A → Bool) → (A → A) → List A → List A
  update_where p f [] = []
  update_where p f (x ∷ xs) = elim (p x) [ true ↦ f x | false ↦ x ] ∷ update_where p f xs

  pub length-append : (xs ys : List A) → length (xs ++ ys) ≡ length xs + length ys
  length-append [] ys = omega arith
  length-append (x ∷ xs) ys = omega (arith, length-append xs ys)

  pub length-update_where :
      (p : A → Bool) (f : A → A) (xs : List A) → length (update_where p f xs) ≡ length xs
  length-update_where p f [] = refl
  length-update_where p f (x ∷ xs) = ap suc (length-update_where p f xs)

module _ {ℓ} {A : Type ℓ} where
  pub length-map {κ} : {B : Type κ} (f : A → B) (xs : List A) → length (map f xs) ≡ length xs
  length-map f [] = refl
  length-map f (x ∷ xs) = ap suc (length-map f xs)

module _ {ℓ κ} {A : Type ℓ} (P : A → Type κ) where
  abbrev pub All : List A → Type κ
  All [] = Unit
  All (x ∷ xs) = P x × All xs

  pub All-append : (xs ys : List A) → All xs → All ys → All (xs ++ ys)
  All-append [] ys h k = k
  All-append (x ∷ xs) ys (p, h) k = (p, All-append xs ys h k)

module _ {ℓ} {A : Type ℓ} (p : A → Bool) where
  pub find?-hit : (x : A) (xs : List A) → p x ≡ true → find? p (x ∷ xs) ≡ some x
  find?-hit x xs e = rw (e, find?)

  pub find?-miss : (x : A) (xs : List A) → p x ≡ false → find? p (x ∷ xs) ≡ find? p xs
  find?-miss x xs e = rw (e, find?)

  -- What `find?` returns passes the test, and has what holds of all elements.
  pub find?-All {κ} :
      (P : A → Type κ) (xs : List A) {x : A} → All P xs → find? p xs ≡ some x → P x × (p x ≡ true)
  find?-All P [] h e = cc
  find?-All P (y ∷ ys) {x} (h, hs) e = elim (Bool-cases (p y)) [
    | inl c ↦
        let same : y ≡ x = cc (find?-hit y ys c) in (subst P same h, subst (λ z. p z ≡ true) same c)
    | inr c ↦ find?-All P ys hs (sym (find?-miss y ys c) ∙ e)
  ]

module _ {ℓ} {A : Type ℓ} (p : A → Bool) (f : A → A) where
  -- A row that is found by a test which the update keeps is found again, updated.
  pub find?-update_where :
      ((x : A) → p (f x) ≡ p x)
      → (xs : List A) {x : A} → find? p xs ≡ some x
      → find? p (update_where p f xs) ≡ some (f x)
  find?-update_where keep [] e = cc
  find?-update_where keep (y ∷ ys) {x} e = elim (Bool-cases (p y)) [
    | inl c ↦ ground (arith, keep y)
    | inr c ↦ ground (arith, find?-update_where keep ys {x = x})
  ]

module _ {ℓ} {A : Type ℓ} (p : A → Bool) where
  -- A row that is found stays found when rows are appended.
  pub find?-append : (xs ys : List A) {x : A} → find? p xs ≡ some x → find? p (xs ++ ys) ≡ some x
  find?-append [] ys e = cc
  find?-append (z ∷ zs) ys {x} e = ground (arith, find?-append zs ys {x = x})

  -- A new row is found by a test that no older row passes.
  pub find?-new :
      (xs : List A) (y : A)
      → All (λ x. p x ≡ false) xs
      → p y ≡ true
      → find? p (xs ++ y ∷ []) ≡ some y
  find?-new [] y h e = find?-hit p y [] e
  find?-new (x ∷ xs) y (h, hs) e = find?-miss p x (xs ++ y ∷ []) h ∙ find?-new xs y hs e

  -- A row that is found stays found when other rows are updated.
  pub find?-update_other :
      (q : A → Bool) (f : A → A)
      → ((x : A) → p (f x) ≡ p x)
      → (xs : List A) {x : A} → find? p xs ≡ some x
      → q x ≡ false
      → find? p (update_where q f xs) ≡ some x
  find?-update_other q f keep [] e h = cc
  find?-update_other q f keep (y ∷ ys) {x} e h =
      ground (arith, keep y, find?-update_other q f keep ys {x = x})

module _ {ℓ} {A : Type ℓ} (p : A → Bool) where
  -- `some` and `find` agree.
  pub any-true : (xs : List A) → any p xs ≡ true → (x : A) × (find? p xs ≡ some x)
  any-true [] h = cc
  any-true (x ∷ xs) h = elim (Bool-cases (p x)) [
    | inl c ↦ (x, find?-hit p x xs c)
    | inr c ↦ let (y, e) = any-true xs (rw (c, any) at h) in (y, find?-miss p x xs c ∙ e)
  ]

  pub any-false : (xs : List A) → any p xs ≡ false → All (λ x. p x ≡ false) xs
  any-false [] h = tt
  any-false (x ∷ xs) h = elim (Bool-cases (p x)) [
    | inl c ↦ ground arith
    | inr c ↦ (c, any-false xs (rw (c, any) at h))
  ]

  pub find?-none : (xs : List A) → All (λ x. p x ≡ false) xs → find? p xs ≡ none
  find?-none [] h = refl
  find?-none (x ∷ xs) (h, hs) = find?-miss p x xs h ∙ find?-none xs hs

  -- Updating rows that the test rejects, before and after, does not matter to it.
  pub find?-update_disjoint :
      (q : A → Bool) (f : A → A)
      → ((x : A) → q x ≡ true → (p x ≡ false) × (p (f x) ≡ false))
      → (xs : List A) → find? p (update_where q f xs) ≡ find? p xs
  find?-update_disjoint q f apart [] = refl
  find?-update_disjoint q f apart (x ∷ xs) = elim (Bool-cases (q x)) [
    | inl c ↦ ground (arith, apart x c, find?-update_disjoint q f apart xs)
    | inr c ↦ ground (arith, find?-update_disjoint q f apart xs)
  ]

  -- A new row that the test rejects does not matter to it.
  pub find?-append_other : (xs : List A) (y : A) → p y ≡ false → find? p (xs ++ y ∷ []) ≡ find? p xs
  find?-append_other [] y h = find?-miss p y [] h
  find?-append_other (x ∷ xs) y h = ground (arith, find?-append_other xs y h)

module _ {ℓ κ} {A : Type ℓ} {P Q : A → Type κ} where
  pub All-map : ((x : A) → P x → Q x) → (xs : List A) → All P xs → All Q xs
  All-map f [] h = tt
  All-map f (x ∷ xs) (p, h) = (f x p, All-map f xs h)

module _ {ℓ} {A : Type ℓ} (p : A → Bool) where
  pub select-none : (xs ys : List A) → All (λ x. p x ≡ false) xs → select p (xs ++ ys) ≡ select p ys
  select-none [] ys h = refl
  select-none (x ∷ xs) ys (c, h) = rw (select, c) (select-none xs ys h)

  pub select_every : (xs : List A) → All (λ x. p x ≡ true) xs → select p xs ≡ xs
  select_every [] h = refl
  select_every (x ∷ xs) (c, h) = rw (select, c) (ap (λ ys. x ∷ ys) (select_every xs h))

  pub any-none : (xs : List A) → All (λ x. p x ≡ false) xs → any p xs ≡ false
  any-none [] h = refl
  any-none (x ∷ xs) (c, h) = rw (any, c) (any-none xs h)
