-- ===== src/Examples/Ordered.antt =====
-- A test of all pairs of a list, which shows that a concrete list rises or falls.
use native.Mathlib.Decide.{ℕ_discrete}
use pg_jitter.Prelude.{
  ℕ, zero, suc, ◌<◌, ◌≡◌, Bool, true, ◌&&◌, some, List, [], ◌∷◌, get_elem?, arith,
}
use pg_jitter.Prelude.Int.{ℤ, ltb_ℤ, leb_ℤ}
use pg_jitter.CaseSearch.Searched.{IsAscending, IsDescending}
use pg_jitter.CaseSearch.Equal.{IsStrict}

unfoldable pub all : (ℤ → Bool) → List ℤ → Bool
all test [] = true
all test (t ∷ ts) = test t && all test ts

unfoldable pub in_order : (ℤ → ℤ → Bool) → List ℤ → Bool
in_order rel [] = true
in_order rel (t ∷ ts) = all (rel t) ts && in_order rel ts

all_at :
    (test : ℤ → Bool) (a : List ℤ) (i : ℕ) (t : ℤ)
    → all test a ≡ true
    → get_elem? a i ≡ some t
    → test t ≡ true
unfolding all
all_at test [] i t h e = cc
all_at test (x ∷ a) zero t h e = ground (arith, e)
all_at test (x ∷ a) (suc i) t h e = all_at test a i t (ground arith) e

in_order_at :
    (rel : ℤ → ℤ → Bool) (a : List ℤ) (i j : ℕ) (s t : ℤ)
    → in_order rel a ≡ true
    → i < j
    → get_elem? a i ≡ some s
    → get_elem? a j ≡ some t
    → rel s t ≡ true
unfolding in_order
in_order_at rel [] i j s t h lt e e' = cc
in_order_at rel (x ∷ a) i zero s t h lt e e' = absurd (omega arith)
in_order_at rel (x ∷ a) zero (suc j) s t h lt e e' =
    let x_is : s ≡ x = ground (arith, e) in rw x_is (all_at (rel x) a j t (ground arith) e')
in_order_at rel (x ∷ a) (suc i) (suc j) s t h lt e e' =
    in_order_at rel a i j s t (ground arith) (omega arith) e e'

same_at :
    (a : List ℤ) (i j : ℕ) (s t : ℤ)
    → i ≡ j
    → get_elem? a i ≡ some s
    → get_elem? a j ≡ some t
    → s ≡ t
same_at a i j s t h e e' = ground (arith, h, e, e')

pub ascending :
    (key : ℤ → ℤ) (a : List ℤ)
    → in_order (λ s t. leb_ℤ (key s) (key t)) a ≡ true
    → IsAscending key a
ascending key a h i j s t le e e' = elim (ℕ_discrete i j) [
  | yes same ↦ rw (same_at a i j s t same e e') (omega arith)
  | no less ↦
      let le' = in_order_at (λ s t. leb_ℤ (key s) (key t)) a i j s t h (omega arith) e e' in
      ground arith
]

pub descending :
    (key : ℤ → ℤ) (a : List ℤ)
    → in_order (λ s t. leb_ℤ (key t) (key s)) a ≡ true
    → IsDescending key a
descending key a h i j s t le e e' = elim (ℕ_discrete i j) [
  | yes same ↦ rw (same_at a i j s t same e e') (omega arith)
  | no less ↦
      let le' = in_order_at (λ s t. leb_ℤ (key t) (key s)) a i j s t h (omega arith) e e' in
      ground arith
]

pub strict :
    (key : ℤ → ℤ) (a : List ℤ) → in_order (λ s t. ltb_ℤ (key s) (key t)) a ≡ true → IsStrict key a
strict key a h i j s t lt e e' = in_order_at (λ s t. ltb_ℤ (key s) (key t)) a i j s t h lt e e'
