-- ===== src/Sessions/Revoked.antt =====
-- A family of refresh tokens (apps/api/src/auth/token.service.ts) that is revoked stays so, whatever
-- operations follow.
use openestate.Base.{
  All-update_where, ℕ, ◌≡◌, refl, sym, subst, ◌∙◌, arith, Bool, false, Option, none, some, List, [],
  ◌∷◌, ◌++◌, ◌==◌, ltb, find?, find?-append, find?-update_kept, select, select-hit, select-miss,
  update_where, update_where-hit, update_where-miss, Bool-cases, inl, inr, All, All-append,
}
use openestate.Sessions.Rows.{RefreshToken, has_hash, revoked}
use openestate.Sessions.Rotation.{in_family, is_live, newest}

-- No token of the family is live, and the hash is that of one of its tokens.
abbrev pub Shut : ℕ → ℕ → List RefreshToken → Type 0
Shut family hash tokens =
    All (λ t. in_family family t ≡ false) tokens
    × ((t : RefreshToken) × (find? (has_hash hash) tokens ≡ some t) × (t.family ≡ family))

-- The token of a hash keeps its family when tokens are revoked.
pub found_update :
    (q : RefreshToken → Bool) (now family hash : ℕ) (tokens : List RefreshToken) (t : RefreshToken)
    → find? (has_hash hash) tokens ≡ some t
    → t.family ≡ family
    → (t' : RefreshToken) × (find? (has_hash hash) (update_where q (revoked now) tokens) ≡ some t')
      × (t'.family ≡ family)
found_update q now family hash tokens t h k =
    let moved = find?-update_kept (has_hash hash) q (revoked now) (λ x. refl) tokens in
    elim (Bool-cases (q t)) [
      | inl c ↦ (revoked now t, moved ∙ rw (h, c) refl, k)
      | inr c ↦ (t, moved ∙ rw (h, c) refl, k)
    ]

pub Shut-update :
    (q : RefreshToken → Bool) (now family hash : ℕ) (tokens : List RefreshToken)
    → Shut family hash tokens
    → Shut family hash (update_where q (revoked now) tokens)
Shut-update q now family hash tokens (dead, (t, h, k)) = (
  All-update_where q (λ x. in_family family x ≡ false) (revoked now) (λ x _. ground arith) tokens
      dead,
  found_update q now family hash tokens t h k,
)

pub Shut-issue :
    (family hash : ℕ) (tokens : List RefreshToken) (new : RefreshToken)
    → (new.family == family) ≡ false
    → Shut family hash tokens
    → Shut family hash (tokens ++ new ∷ [])
Shut-issue family hash tokens new apart (dead, (t, h, k)) = (
  All-append (λ x. in_family family x ≡ false) tokens (new ∷ []) dead (rw apart refl, tt),
  (t, find?-append (has_hash hash) tokens (new ∷ []) h, k),
)

-- Revoking the family shuts it.
pub revoked_family :
    (now family : ℕ) (tokens : List RefreshToken)
    → All (λ t. in_family family t ≡ false) (update_where (in_family family) (revoked now) tokens)
revoked_family now family [] = tt
revoked_family now family (t ∷ tokens) = elim (Bool-cases (in_family family t)) [
  | inl c ↦
      subst (All (λ x. in_family family x ≡ false))
        (sym (update_where-hit (in_family family) (revoked now) t tokens c))
        (ground arith, revoked_family now family tokens)
  | inr c ↦
      subst (All (λ x. in_family family x ≡ false))
        (sym (update_where-miss (in_family family) (revoked now) t tokens c))
        (c, revoked_family now family tokens)
]

-- A live token that is rotated is of another family than the one that is shut.
pub newest_All :
    (P : RefreshToken → Type 0) (tokens : List RefreshToken) (best : Option RefreshToken)
    (t : RefreshToken)
    → All P tokens
    → ((b : RefreshToken) → best ≡ some b → P b)
    → newest tokens best ≡ some t
    → P t
unfolding newest
newest_All P [] best t h k e = k t e
newest_All P (x ∷ xs) none t (h, hs) k e = newest_All P xs (some x) t hs (λ b i. subst P (cc i) h) e
newest_All P (x ∷ xs) (some b) t (h, hs) k e = elim (Bool-cases (ltb b.created_at x.created_at)) [
  | inl c ↦ newest_All P xs (some x) t hs (λ y i. subst P (cc i) h) (rw c at e)
  | inr c ↦ newest_All P xs (some b) t hs k (rw c at e)
]

pub live_apart :
    (now family other : ℕ) (tokens : List RefreshToken)
    → All (λ t. in_family family t ≡ false) tokens
    → All (λ t. (t.family == family) ≡ false) (select (is_live now other) tokens)
live_apart now family other [] h = tt
live_apart now family other (t ∷ tokens) (h, hs) = elim (Bool-cases (is_live now other t)) [
  | inl c ↦
      subst (All (λ x. (x.family == family) ≡ false))
        (sym (select-hit (is_live now other) t tokens c))
        (ground (arith, c, h), live_apart now family other tokens hs)
  | inr c ↦
      subst (All (λ x. (x.family == family) ≡ false))
        (sym (select-miss (is_live now other) t tokens c)) (live_apart now family other tokens hs)
]

pub none_live :
    (now family : ℕ) (tokens : List RefreshToken)
    → All (λ t. in_family family t ≡ false) tokens
    → select (is_live now family) tokens ≡ []
none_live now family [] h = refl
none_live now family (t ∷ tokens) (h, hs) =
    select-miss (is_live now family) t tokens (ground (arith, h)) ∙ none_live now family tokens hs
