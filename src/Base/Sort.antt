-- ===== src/Base/Sort.antt =====
-- `[...xs].sort(cmp)`: JavaScript's stable sort, as an insertion sort by the test `cmp(a, b) < 0`,
-- and what sorting keeps: the number of the elements, what holds of each, and each sum over them.
use Prim.Native.Nat.{ℕ, suc, ◌+◌}
use mathlib.Core.Path.{◌≡◌, refl, ap, ◌∙◌}
use mathlib.Core.Logic.{inl, inr}
use mathlib.Core.Bool.{Bool}
use mathlib.Core.List.{List, [], ◌∷◌}
use native.Mathlib.Omega.{arith}
use openestate.Base.Tests.{if◌then◌else◌, Bool-cases}
use openestate.Base.Lists.{length, All}

module _ {ℓ} {A : Type ℓ} (lt : A → A → Bool) where
  unfoldable pub insert_by : A → List A → List A
  insert_by r [] = r ∷ []
  insert_by r (s ∷ rest) =
      let later = s ∷ insert_by r rest in if lt s r then later else r ∷ s ∷ rest

  unfoldable pub sort_by : List A → List A
  unfolding insert_by
  sort_by [] = []
  sort_by (r ∷ rest) = insert_by r (sort_by rest)

  length-insert_by : (r : A) (rs : List A) → length (insert_by r rs) ≡ suc (length rs)
  unfolding insert_by
  length-insert_by r [] = refl
  length-insert_by r (s ∷ rs) = elim (Bool-cases (lt s r)) [
    | inl e ↦ rw e (ap suc (length-insert_by r rs))
    | inr e ↦ rw e
  ]

  pub length-sort_by : (rs : List A) → length (sort_by rs) ≡ length rs
  unfolding sort_by
  length-sort_by [] = refl
  length-sort_by (r ∷ rs) = length-insert_by r (sort_by rs) ∙ ap suc (length-sort_by rs)

module _ {ℓ} {A : Type ℓ} (lt : A → A → Bool) where
  insert_by-All {κ} :
      (P : A → Type κ) (r : A) (rs : List A) → P r → All P rs → All P (insert_by lt r rs)
  unfolding insert_by
  insert_by-All P r [] h k = (h, tt)
  insert_by-All P r (s ∷ rs) h (k, ks) = elim (Bool-cases (lt s r)) [
    | inl e ↦ rw e (k, insert_by-All P r rs h ks)
    | inr e ↦ rw e (h, (k, ks))
  ]

  pub sort_by-All {κ} : (P : A → Type κ) (rs : List A) → All P rs → All P (sort_by lt rs)
  unfolding sort_by
  sort_by-All P [] h = tt
  sort_by-All P (r ∷ rs) (h, hs) = insert_by-All P r (sort_by lt rs) h (sort_by-All P rs hs)

module _ {ℓ} {A : Type ℓ} (f : A → ℕ) where
  -- The sum of `f` over a list.
  abbrev pub total : List A → ℕ
  total [] = 0
  total (x ∷ xs) = f x + total xs

  total-insert_by :
      (lt : A → A → Bool) (r : A) (rs : List A) → total (insert_by lt r rs) ≡ f r + total rs
  unfolding insert_by
  total-insert_by lt r [] = refl
  total-insert_by lt r (s ∷ rs) = elim (Bool-cases (lt s r)) [
    | inl e ↦ rw e (omega (arith, total-insert_by lt r rs))
    | inr e ↦ rw e
  ]

  pub total-sort_by : (lt : A → A → Bool) (rs : List A) → total (sort_by lt rs) ≡ total rs
  unfolding sort_by
  total-sort_by lt [] = refl
  total-sort_by lt (r ∷ rs) =
      omega (arith, total-insert_by lt r (sort_by lt rs), total-sort_by lt rs)
