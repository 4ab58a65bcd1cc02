-- ===== src/InList/SortedArray.antt =====
-- `sorted_array_build_int4` and `sorted_array_probe_int4`.
use native.Mathlib.Nat.{le_refl}
use pg_jitter.Prelude.{
  length-take, ℕ, zero, suc, ◌+◌, ◌-◌, ◌/◌, ◌≤◌, ◌<◌, ◌≡◌, ◌↔◌, refl, Bool, true, false, List,
  get_elem?, length, take, some, none, arith, ltb, Bool-cases, inl, inr, ltb→lt,
}
use pg_jitter.Prelude.Int.{ℤ, ltb_ℤ, ◌≤ℤ◌, eq_of_parts}
use pg_jitter.Machine.{eqb_ℤ, Run, done, out_of_bounds, out_of_rounds}
use pg_jitter.CaseSearch.Halving.{get_elem?-of_lt}

pub record SortedInt32Array : Type 0 where
  pub nvals : ℕ
  pub has_nulls : Bool
  pub vals : List ℤ

-- The `memcpy` of `nvals` values; the extraction step has sorted them.
unfoldable pub sorted_array_build_int4 : List ℤ → ℕ → Bool → SortedInt32Array
sorted_array_build_int4 vals nvals has_nulls = record {
  nvals = nvals;
  has_nulls = has_nulls;
  vals = take nvals vals;
}

-- return (n > 0 && *base == val) ? 1 : 0;
unfoldable pub last_test : ℤ → List ℤ → ℕ → ℕ → Run Bool
last_test val vals base zero = done false
last_test val vals base (suc n) = elim (get_elem? vals base) [
  | none ↦ out_of_bounds
  | some x ↦ done (eqb_ℤ x val)
]

-- while (n > 1) { half = n >> 1; base += (base[half - 1] < val) * half; n -= half; }
unfoldable pub narrow : ℕ → ℤ → List ℤ → ℕ → ℕ → Run Bool
narrow zero val vals base n = out_of_rounds
narrow (suc rounds) val vals base n =
    let half = n / 2 in
    elim (ltb 1 n) [
      | false ↦ last_test val vals base n
      | true ↦ elim (get_elem? vals (base + half - 1)) [
        | none ↦ out_of_bounds
        | some x ↦ elim (ltb_ℤ x val) [
          | true ↦ narrow rounds val vals (base + half) (n - half)
          | false ↦ narrow rounds val vals base (n - half)
        ]
      ]
    ]

unfoldable pub sorted_array_probe_int4 : ℤ → SortedInt32Array → Run Bool
unfolding last_test
sorted_array_probe_int4 val sa = narrow (suc sa.nvals) val sa.vals 0 sa.nvals

eqb_ℤ→eq : (x v : ℤ) → eqb_ℤ x v ≡ true → x ≡ v
eqb_ℤ→eq x v h = eq_of_parts x v (ground arith)

same_index :
    (vals : List ℤ) (i j : ℕ) (v x : ℤ)
    → i ≡ j
    → get_elem? vals i ≡ some x
    → get_elem? vals j ≡ some v
    → eqb_ℤ x v ≡ true
same_index vals i j v x e ei ej = ground (arith, e, ei, ej)

-- The value stands at some index of [lo, hi).
abbrev pub Within : ℤ → List ℤ → ℕ → ℕ → Type 0
Within val vals lo hi = (i : ℕ) × (lo ≤ i) × (i < hi) × (get_elem? vals i ≡ some val)

abbrev pub IsSorted : List ℤ → Type 0
IsSorted vals =
    (i j : ℕ) (s t : ℤ) → i ≤ j → get_elem? vals i ≡ some s → get_elem? vals j ≡ some t → s ≤ℤ t

module _ (val : ℤ) (vals : List ℤ) (sorted : IsSorted vals) where
  module _ {base end m : ℕ} {x : ℤ} (inside : base ≤ m) (e : get_elem? vals m ≡ some x) where
    -- A smaller element leaves the value to the right of it.
    drop_left :
        (l : ℕ) → l ≤ m + 1 → ltb_ℤ x val ≡ true → Within val vals base end → Within val vals l end
    drop_left l le less (i, lo, hi, ei) = (i, ground (arith, sorted i m val x), hi, ei)

    -- Otherwise the value is at the element or to the left of it.
    drop_right :
        (r : ℕ) → m < r → ltb_ℤ x val ≡ false → Within val vals base end → Within val vals base r
    drop_right r gt more (i, lo, hi, ei) = elim (Bool-cases (ltb m i)) [
      | inl past ↦
          let same = eq_of_parts x val (ground (arith, sorted m i x val)) in
          (m, inside, gt, rw (← same) e)
      | inr kept ↦ (i, lo, ground arith, ei)
    ]

  last_test-Within :
      (base n end : ℕ)
      → n ≤ 1
      → base + n ≡ end
      → end ≤ length vals
      → (b : Bool) × (last_test val vals base n ≡ done b) × ((b ≡ true) ↔ Within val vals base end)
  unfolding last_test
  last_test-Within base zero end small e fits =
      (false, refl, ((λ h. absurd (cc h)), λ (i, lo, hi, ei). absurd (omega arith)))
  last_test-Within base (suc n) end small e fits =
      let (x, ex) = get_elem?-of_lt vals base (omega arith) in
      (
        eqb_ℤ x val,
        rw (ex, last_test),
        (
          (λ h. (base, le_refl base, omega arith, rw (← (eqb_ℤ→eq x val h)) ex)),
          λ (i, lo, hi, ei). same_index vals base i val x (omega arith) ex ei,
        ),
      )

  narrow-Within :
      (rounds base n end : ℕ)
      → n < rounds
      → base + n ≡ end
      → end ≤ length vals
      → (b : Bool) × (narrow rounds val vals base n ≡ done b)
        × ((b ≡ true) ↔ Within val vals base end)
  unfolding narrow
  narrow-Within zero base n end fuel e fits = absurd (omega arith)
  narrow-Within (suc rounds) base n end fuel eq fits = elim (Bool-cases (ltb 1 n)) [
    | inr small ↦ rw (small, narrow) (last_test-Within base n end (ground arith) eq fits)
    | inl more ↦
        let lt = ltb→lt 1 n more in
        let half = n / 2 in
        let (x, ex) = get_elem?-of_lt vals (base + half - 1) (omega arith) in
        elim (Bool-cases (ltb_ℤ x val)) [
          | inl less ↦
              let (b, run, iff) =
                narrow-Within rounds (base + half) (n - half) end (omega arith) (omega arith)
                  fits in
              (
                b,
                rw (more, ex, less, narrow) run,
                (
                  (λ h. let (i, lo, hi, ei) = iff.0 h in (i, omega arith, hi, ei)),
                  λ w. iff.1 (drop_left (omega arith) ex (base + half) (omega arith) less w),
                ),
              )
          | inr not_less ↦
              let (b, run, iff) =
                narrow-Within rounds base (n - half) (base + (n - half)) (omega arith) refl
                  (omega arith) in
              (
                b,
                rw (more, ex, not_less, narrow) run,
                (
                  (λ h. let (i, lo, hi, ei) = iff.0 h in (i, lo, omega arith, ei)),
                  λ w.
                      iff.1
                        (drop_right (omega arith) ex (base + (n - half)) (omega arith) not_less w),
                ),
              )
        ]
  ]

-- Building the array of the first `nvals` values and probing it answers whether one of them is the
-- value, whenever these values are there and sorted: the probe returns, without a read out of bounds.
pub probe-build :
    (val : ℤ) (vals : List ℤ) (nvals : ℕ) (has_nulls : Bool)
    → nvals ≤ length vals
    → IsSorted (take nvals vals)
    → (b : Bool) × (sorted_array_probe_int4 val (sorted_array_build_int4 vals nvals has_nulls)
        ≡ done b)
      × ((b ≡ true) ↔ Within val (take nvals vals) 0 nvals)
unfolding sorted_array_probe_int4 sorted_array_build_int4
probe-build val vals nvals has_nulls fits sorted =
    narrow-Within val (take nvals vals) sorted (suc nvals) 0 nvals nvals (omega arith) (omega arith)
      (omega (arith, length-take nvals vals))
