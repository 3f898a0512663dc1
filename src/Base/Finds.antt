-- ===== src/Base/Finds.antt =====
-- Searches in lists whose rows are appended, updated or dropped.
use mathlib.Core.Path.{◌≡◌, refl, sym, ◌∙◌, subst}
use mathlib.Core.Logic.{inl, inr}
use mathlib.Core.Bool.{Bool, true, false}
use mathlib.Core.List.{List, [], ◌∷◌, ◌++◌}
use mathlib.Core.Option.{none, some}
use native.Mathlib.Omega.{arith}
use Prim.Native.Nat.{ℕ}
use openestate.Base.Tests.{◌==◌, Bool-cases}
use openestate.Base.Lists.{All, find?, select, any, update_where, find?-hit, find?-miss}

-- Numbers that differ from each other.
abbrev pub Distinct : List ℕ → Type 0
Distinct [] = Unit
Distinct (i ∷ ids) = All (λ j. (i == j) ≡ false) ids × Distinct ids

module _ {ℓ} {A : Type ℓ} (p : A → Bool) where
  pub update_where-hit :
      (f : A → A) (x : A) (xs : List A)
      → p x ≡ true
      → update_where p f (x ∷ xs) ≡ f x ∷ update_where p f xs
  update_where-hit f x xs h = rw (update_where, h)

  pub update_where-miss :
      (f : A → A) (x : A) (xs : List A)
      → p x ≡ false
      → update_where p f (x ∷ xs) ≡ x ∷ update_where p f xs
  update_where-miss f x xs h = rw (update_where, h)

  pub select-hit : (x : A) (xs : List A) → p x ≡ true → select p (x ∷ xs) ≡ x ∷ select p xs
  select-hit x xs h = rw (select, h)

  pub select-miss : (x : A) (xs : List A) → p x ≡ false → select p (x ∷ xs) ≡ select p xs
  select-miss x xs h = rw (select, h)

  -- A test that an update keeps finds the same row, updated or not.
  pub find?-update_kept :
      (q : A → Bool) (f : A → A)
      → ((x : A) → p (f x) ≡ p x)
      → (xs : List A)
      → find? p (update_where q f xs)
        ≡ elim (find? p xs) [ none ↦ none | some x ↦ some (elim (q x) [ true ↦ f x | false ↦ x ]) ]
  find?-update_kept q f keep [] = refl
  find?-update_kept q f keep (x ∷ xs) = elim (Bool-cases (p x)) [
    | inl c ↦ ground (arith, c, keep x)
    | inr c ↦ ground (arith, c, keep x, find?-update_kept q f keep xs)
  ]

  -- Rows that another test drops do not matter to a test that only they pass.
  pub find?-select_kept :
      (q : A → Bool)
      → ((x : A) → p x ≡ true → q x ≡ true)
      → (xs : List A) → find? p (select q xs) ≡ find? p xs
  find?-select_kept q keep [] = refl
  find?-select_kept q keep (x ∷ xs) = elim (Bool-cases (p x)) [
    | inl c ↦ ground (arith, c, keep x c, find?-select_kept q keep xs)
    | inr c ↦ ground (arith, c, find?-select_kept q keep xs)
  ]

  pub find?-select_dropped :
      (q : A → Bool)
      → ((x : A) → q x ≡ true → p x ≡ false)
      → (xs : List A) → find? p (select q xs) ≡ none
  find?-select_dropped q drop [] = refl
  find?-select_dropped q drop (x ∷ xs) = elim (Bool-cases (q x)) [
    | inl c ↦ ground (arith, c, drop x c, find?-select_dropped q drop xs)
    | inr c ↦ ground (arith, c, find?-select_dropped q drop xs)
  ]

module _ {ℓ} {A : Type ℓ} (p : A → Bool) where
  -- `some` holds of a list where `find` finds.
  pub any-found : (xs : List A) (x : A) → find? p xs ≡ some x → any p xs ≡ true
  any-found [] x h = cc
  any-found (y ∷ xs) x h = elim (Bool-cases (p y)) [
    | inl c ↦ rw (any, c)
    | inr c ↦ rw (any, c) (any-found xs x (sym (find?-miss p y xs c) ∙ h))
  ]

  any-here : (x : A) (xs : List A) → p x ≡ true → any p (x ∷ xs) ≡ true
  any-here x xs h = rw (any, h)

  pub any-append : (xs ys : List A) → any p xs ≡ true → any p (xs ++ ys) ≡ true
  any-append [] ys h = cc
  any-append (x ∷ xs) ys h = ground (arith, any-append xs ys)

  -- An update that keeps the test on the row it finds keeps `some`.
  pub any-update_where :
      (q : A → Bool) (f : A → A) (xs : List A) (x : A)
      → find? p xs ≡ some x
      → p (elim (q x) [ true ↦ f x | false ↦ x ]) ≡ true
      → any p (update_where q f xs) ≡ true
  any-update_where q f [] x h k = cc
  any-update_where q f (y ∷ xs) x h k = elim (Bool-cases (p y)) [
    | inl c ↦
        let same : x ≡ y = cc (find?-hit p y xs c) in
        any-here (elim (q y) [ true ↦ f y | false ↦ y ]) (update_where q f xs)
          (subst (λ z. p (elim (q z) as (λ _. A) [ true ↦ f z | false ↦ z ]) ≡ true) same k)
    | inr c ↦ or_later q f y xs (any-update_where q f xs x (sym (find?-miss p y xs c) ∙ h) k)
  ]
    where
      or_later :
          (q : A → Bool) (f : A → A) (y : A) (xs : List A)
          → any p (update_where q f xs) ≡ true
          → any p (update_where q f (y ∷ xs)) ≡ true
      or_later q f y xs h = ground (arith, h)

  -- The first row that passes stays the first where it is kept.
  pub find?-select_found :
      (q : A → Bool) (xs : List A) (x : A)
      → find? p xs ≡ some x
      → q x ≡ true
      → find? p (select q xs) ≡ some x
  find?-select_found q [] x h k = cc
  find?-select_found q (y ∷ xs) x h k = elim (Bool-cases (p y)) [
    | inl c ↦
        let same : y ≡ x = cc (find?-hit p y xs c) in
        rw (select, same, k, find?) (ground (arith, c, same))
    | inr c ↦ elim (Bool-cases (q y)) [
      | inl d ↦
          rw (select-hit q y xs d, find?-miss p y (select q xs) c)
            (find?-select_found q xs x (sym (find?-miss p y xs c) ∙ h) k)
      | inr d ↦
          rw (select-miss q y xs d) (find?-select_found q xs x (sym (find?-miss p y xs c) ∙ h) k)
    ]
  ]

module _ {ℓ} {A : Type ℓ} (p r : A → Bool) where
  pub any_implies :
      ((x : A) → p x ≡ true → r x ≡ true) → (xs : List A) → any p xs ≡ true → any r xs ≡ true
  any_implies f [] h = cc
  any_implies f (x ∷ xs) h = elim (Bool-cases (p x)) [
    | inl c ↦ rw (any, f x c)
    | inr c ↦ elim (Bool-cases (r x)) [
      | inl d ↦ rw (any, d)
      | inr d ↦ rw (any, d) (any_implies f xs (rw (any, c) at h))
    ]
  ]

module _ {ℓ} {A : Type ℓ} (p : A → Bool) where
  -- A row that none was found for is found once it is added.
  pub find?-added :
      (xs : List A) (y : A) → find? p xs ≡ none → p y ≡ true → find? p (xs ++ y ∷ []) ≡ some y
  find?-added [] y h k = find?-hit p y [] k
  find?-added (x ∷ xs) y h k = elim (Bool-cases (p x)) [
    | inl c ↦ ground (arith, c)
    | inr c ↦ find?-miss p x (xs ++ y ∷ []) c ∙ find?-added xs y (sym (find?-miss p x xs c) ∙ h) k
  ]

  -- What holds of all rows holds of those that a test selects.
  pub All-select {κ} : (P : A → Type κ) (xs : List A) → All P xs → All P (select p xs)
  All-select P [] h = tt
  All-select P (x ∷ xs) (h, hs) = elim (Bool-cases (p x)) [
    | inl c ↦ subst (All P) (sym (select-hit p x xs c)) (h, All-select P xs hs)
    | inr c ↦ subst (All P) (sym (select-miss p x xs c)) (All-select P xs hs)
  ]

  -- An update keeps what holds of all rows where it keeps it of each.
  pub All-update_where {κ} :
      (P : A → Type κ) (f : A → A)
      → ((x : A) → P x → P (f x))
      → (xs : List A) → All P xs
      → All P (update_where p f xs)
  All-update_where P f keep [] h = tt
  All-update_where P f keep (x ∷ xs) (h, hs) = elim (Bool-cases (p x)) [
    | inl c ↦
        subst (All P) (sym (update_where-hit p f x xs c))
          (keep x h, All-update_where P f keep xs hs)
    | inr c ↦
        subst (All P) (sym (update_where-miss p f x xs c)) (h, All-update_where P f keep xs hs)
  ]
