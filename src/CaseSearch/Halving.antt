-- ===== src/CaseSearch/Halving.antt =====
-- The halving loop finds the first threshold that passes the test, where the tests pass from some
-- threshold on.
use pg_jitter.Prelude.{
  ℕ, zero, suc, ◌+◌, ◌-◌, ◌/◌, ◌≤◌, ◌<◌, ◌≡◌, Bool, true, false, List, [], ◌∷◌, length, get_elem?,
  some, arith, refl, Bool-cases, inl, inr, ltb, ltb→lt,
}
use pg_jitter.Prelude.Int.{ℤ}
use pg_jitter.CaseSearch.Defs.{done, first_true}

pub get_elem?-of_lt {ℓ} :
    {A : Type ℓ} (xs : List A) (i : ℕ) → i < length xs → (a : A) × (get_elem? xs i ≡ some a)
get_elem?-of_lt [] i h = absurd (omega arith)
get_elem?-of_lt (x ∷ xs) zero h = (x, refl)
get_elem?-of_lt (x ∷ xs) (suc i) h = get_elem?-of_lt xs i (omega arith)

pub lt-of_get_elem? {ℓ} :
    {A : Type ℓ} (xs : List A) (i : ℕ) {a : A} → get_elem? xs i ≡ some a → i < length xs
lt-of_get_elem? [] i e = cc
lt-of_get_elem? (x ∷ xs) zero e = omega arith
lt-of_get_elem? (x ∷ xs) (suc i) e = omega (arith, lt-of_get_elem? xs i e)

-- From index `r` on the tests pass, and below it they fail.
abbrev pub Splits : (ℤ → Bool) → List ℤ → ℕ → ℕ → Type 0
Splits test a n r =
    (r ≤ n)
    × ((i : ℕ) (t : ℤ) → i < r → get_elem? a i ≡ some t → test t ≡ false)
    × ((i : ℕ) (t : ℤ) → r ≤ i → i < n → get_elem? a i ≡ some t → test t ≡ true)

-- Once a threshold passes, so do all after it.
abbrev pub IsMonotone : (ℤ → Bool) → List ℤ → Type 0
IsMonotone test a =
    (i j : ℕ) (s t : ℤ)
    → i ≤ j
    → get_elem? a i ≡ some s
    → get_elem? a j ≡ some t
    → test s ≡ true
    → test t ≡ true

module _ (test : ℤ → Bool) (a : List ℤ) (n : ℕ) (mono : IsMonotone test a)
    (inside : n ≤ length a) where
  pub record Inv (lo hi : ℕ) : Type 0 where
    pub ordered : lo ≤ hi
    pub bound : hi ≤ n
    pub below : (i : ℕ) (t : ℤ) → i < lo → get_elem? a i ≡ some t → test t ≡ false
    pub above : (i : ℕ) (t : ℤ) → hi ≤ i → i < n → get_elem? a i ≡ some t → test t ≡ true

  module _ {lo hi m : ℕ} {t : ℤ} (inv : Inv lo hi) (left : lo ≤ m) (right : m < hi)
      (e : get_elem? a m ≡ some t) where
    lower-Inv : test t ≡ true → Inv lo m
    lower-Inv passes = record {
      ordered = left;
      bound = omega (arith, inv.bound);
      below = inv.below;
      above = λ i t' h b e'. mono m i t t' h e e' passes;
    }

    before :
        test t ≡ false → (i : ℕ) (t' : ℤ) → i < m + 1 → get_elem? a i ≡ some t' → test t' ≡ false
    before fails i t' h e' = elim (Bool-cases (test t')) [
      | inr no' ↦ no'
      | inl passes ↦ cc (mono i m t' t (omega arith) e' e passes)
    ]

    upper-Inv : test t ≡ false → Inv (m + 1) hi
    upper-Inv fails = record {
      ordered = omega arith;
      bound = inv.bound;
      below = before fails;
      above = inv.above;
    }

  Inv→Splits : {lo hi : ℕ} → Inv lo hi → ltb lo hi ≡ false → Splits test a n lo
  Inv→Splits {lo} {hi} inv empty =
      let ge : hi ≤ lo = ground arith in
      (
        omega (arith, inv.ordered, inv.bound),
        inv.below,
        λ i t h b e. inv.above i t (omega arith) b e,
      )

  pub first_true-Splits :
      (rounds lo hi : ℕ)
      → hi - lo < rounds
      → Inv lo hi
      → (r : ℕ) × (first_true test a rounds lo hi ≡ done r) × Splits test a n r
  unfolding first_true
  first_true-Splits zero lo hi fuel inv = absurd (omega arith)
  first_true-Splits (suc rounds) lo hi fuel inv = elim (Bool-cases (ltb lo hi)) [
    | inr empty ↦ (lo, rw (empty, first_true), Inv→Splits inv empty)
    | inl more ↦
        let lt = ltb→lt lo hi more in
        let mid = lo + (hi - lo) / 2 in
        let (t, e) = get_elem?-of_lt a mid (omega arith) in
        elim (Bool-cases (test t)) [
          | inl passes ↦
              rw (more, e, passes, first_true)
                (first_true-Splits rounds lo mid (omega arith)
                  (lower-Inv inv (omega arith) (omega arith) e passes))
          | inr fails ↦
              rw (more, e, fails, first_true)
                (first_true-Splits rounds (mid + 1) hi (omega arith)
                  (upper-Inv inv (omega arith) (omega arith) e fails))
        ]
  ]

  -- The whole search: `n + 1` rounds are enough.
  pub first_true_result : (r : ℕ) × (first_true test a (suc n) 0 n ≡ done r) × Splits test a n r
  first_true_result = first_true-Splits (suc n) 0 n (omega arith) (record {
    ordered = omega arith;
    bound = omega arith;
    below = λ i t h e. absurd (omega arith);
    above = λ i t h b e. absurd (omega arith);
  })
