-- ===== src/Examples/Sorting.antt =====
-- A sort with the comparator as an argument, in the place of the C library's qsort.
use pg_jitter.Prelude.{
  ℕ, zero, suc, ◌≡◌, refl, ap, Bool, true, false, List, [], ◌∷◌, ◌⊎◌, inl, inr, get_elem?, length,
  some, arith, if◌then◌else◌, Bool-cases,
}
use pg_jitter.Prelude.Int.{ℤ, pos, ltb_ℤ, leb_ℤ, ◌-ℤ◌}
use pg_jitter.CaseDetect.Build.{ThresholdResult, Comparator}
use pg_jitter.CaseDetect.Order.{adjacent}
use pg_jitter.CaseDetect.Sorted.{IsQsort, by_key}

put_in : Comparator → ThresholdResult → List ThresholdResult → List ThresholdResult
put_in cmp q [] = q ∷ []
put_in cmp q (x ∷ xs) =
    let rest = put_in cmp q xs in if ltb_ℤ (pos 0) (cmp q x) then x ∷ rest else q ∷ x ∷ xs

unfoldable pub sort_pairs : Comparator → List ThresholdResult → List ThresholdResult
unfolding put_in
sort_pairs cmp [] = []
sort_pairs cmp (q ∷ qs) = put_in cmp q (sort_pairs cmp qs)

module _ (key : ThresholdResult → ℤ) where
  abbrev le : ThresholdResult → ThresholdResult → Bool
  le a b = leb_ℤ (key a) (key b)

  abbrev goes_after : ThresholdResult → ThresholdResult → Bool
  goes_after q x = ltb_ℤ (pos 0) (by_key key q x)

  after : (q x : ThresholdResult) → goes_after q x ≡ true → le x q ≡ true
  unfolding ◌-ℤ◌
  after q x h = ground (arith, h)

  not_after : (q x : ThresholdResult) → goes_after q x ≡ false → le q x ≡ true
  unfolding ◌-ℤ◌
  not_after q x h = ground (arith, h)

  put_in-length :
      (q : ThresholdResult) (xs : List ThresholdResult)
      → length (put_in (by_key key) q xs) ≡ suc (length xs)
  unfolding put_in
  put_in-length q [] = refl
  put_in-length q (x ∷ xs) = elim (Bool-cases (goes_after q x)) [
    | inl h ↦ rw h (ap suc (put_in-length q xs))
    | inr h ↦ rw h refl
  ]

  put_in_from :
      (q r : ThresholdResult) (xs : List ThresholdResult) (i : ℕ)
      → get_elem? (put_in (by_key key) q xs) i ≡ some r
      → (q ≡ r) ⊎ ((j : ℕ) × (get_elem? xs j ≡ some r))
  unfolding put_in
  put_in_from q r [] zero e = inl (ground (arith, e))
  put_in_from q r [] (suc i) e = absurd (ground (arith, e))
  put_in_from q r (x ∷ xs) zero e = elim (Bool-cases (goes_after q x)) [
    | inl h ↦ inr (zero, rw h at e)
    | inr h ↦ inl (ground (arith, e, h))
  ]
  put_in_from q r (x ∷ xs) (suc i) e = elim (Bool-cases (goes_after q x)) [
    | inr h ↦ inr (i, rw h at e)
    | inl h ↦ elim (put_in_from q r xs i (rw h at e)) [
      | inl same ↦ inl same
      | inr (j, e') ↦ inr (suc j, e')
    ]
  ]

  put_in_self :
      (q : ThresholdResult) (xs : List ThresholdResult)
      → (i : ℕ) × (get_elem? (put_in (by_key key) q xs) i ≡ some q)
  unfolding put_in
  put_in_self q [] = (zero, refl)
  put_in_self q (x ∷ xs) = elim (Bool-cases (goes_after q x)) [
    | inl h ↦ let (i, e) = put_in_self q xs in (suc i, rw h e)
    | inr h ↦ (zero, rw h refl)
  ]

  put_in_other :
      (q r : ThresholdResult) (xs : List ThresholdResult) (j : ℕ)
      → get_elem? xs j ≡ some r
      → (i : ℕ) × (get_elem? (put_in (by_key key) q xs) i ≡ some r)
  unfolding put_in
  put_in_other q r [] j e = absurd (ground (arith, e))
  put_in_other q r (x ∷ xs) zero e = elim (Bool-cases (goes_after q x)) [
    | inl h ↦ (zero, rw h e)
    | inr h ↦ (1, rw h e)
  ]
  put_in_other q r (x ∷ xs) (suc j) e = elim (Bool-cases (goes_after q x)) [
    | inl h ↦ let (i, e') = put_in_other q r xs j e in (suc i, rw h e')
    | inr h ↦ (suc (suc j), rw h e)
  ]

  put_in-adjacent :
      (q : ThresholdResult) (xs : List ThresholdResult)
      → adjacent le xs ≡ true
      → adjacent le (put_in (by_key key) q xs) ≡ true
  unfolding put_in
  put_in-adjacent q [] h = refl
  put_in-adjacent q (x ∷ []) h = elim (Bool-cases (goes_after q x)) [
    | inl e ↦ rw e (ground (arith, after q x e))
    | inr e ↦ rw e (ground (arith, not_after q x e))
  ]
  put_in-adjacent q (x ∷ y ∷ xs) h =
      let rest = put_in-adjacent q (y ∷ xs) (ground (arith, h)) in
      elim (Bool-cases (goes_after q x)) [
        | inr e ↦ rw e (ground (arith, not_after q x e, h))
        | inl e ↦ elim (Bool-cases (goes_after q y)) [
          | inl e' ↦
              let rest' : adjacent le (y ∷ put_in (by_key key) q xs) ≡ true = rw e' at rest in
              rw (e, e') (ground (arith, h, rest'))
          | inr e' ↦
              let rest' : adjacent le (q ∷ y ∷ xs) ≡ true = rw e' at rest in
              rw (e, e') (ground (arith, after q x e, rest'))
        ]
      ]

  sort-length : (ps : List ThresholdResult) → length (sort_pairs (by_key key) ps) ≡ length ps
  unfolding sort_pairs
  sort-length [] = refl
  sort-length (q ∷ qs) = rw (put_in-length q (sort_pairs (by_key key) qs)) (ap suc (sort-length qs))

  sort_from :
      (ps : List ThresholdResult) (i : ℕ) (r : ThresholdResult)
      → get_elem? (sort_pairs (by_key key) ps) i ≡ some r
      → (j : ℕ) × (get_elem? ps j ≡ some r)
  unfolding sort_pairs
  sort_from [] i r e = absurd (ground (arith, e))
  sort_from (q ∷ qs) i r e = elim (put_in_from q r (sort_pairs (by_key key) qs) i e) [
    | inl same ↦ (zero, ap some same)
    | inr (j, e') ↦ let (k, e'') = sort_from qs j r e' in (suc k, e'')
  ]

  sort_to :
      (ps : List ThresholdResult) (j : ℕ) (r : ThresholdResult)
      → get_elem? ps j ≡ some r
      → (i : ℕ) × (get_elem? (sort_pairs (by_key key) ps) i ≡ some r)
  unfolding sort_pairs
  sort_to [] j r e = absurd (ground (arith, e))
  sort_to (q ∷ qs) zero r e =
      let same : q ≡ r = ground (arith, e) in
      rw (← same) (put_in_self q (sort_pairs (by_key key) qs))
  sort_to (q ∷ qs) (suc j) r e =
      let (i, e') = sort_to qs j r e in put_in_other q r (sort_pairs (by_key key) qs) i e'

  sort-adjacent : (ps : List ThresholdResult) → adjacent le (sort_pairs (by_key key) ps) ≡ true
  unfolding sort_pairs
  sort-adjacent [] = refl
  sort-adjacent (q ∷ qs) = put_in-adjacent q (sort_pairs (by_key key) qs) (sort-adjacent qs)

pub sort_pairs-IsQsort : IsQsort sort_pairs
sort_pairs-IsQsort = record {
  same_length = sort-length;
  from_input = sort_from;
  to_output = sort_to;
  in_order = sort-adjacent;
}
