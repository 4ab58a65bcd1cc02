-- ===== src/CaseSearch/Defs.antt =====
-- The descriptor of a compiled CASE and the search helpers over it. The C functions that differ in
-- their comparison alone share the loops `first_true` and `equal_search`; the loops count rounds, and
-- a read outside the thresholds is a fault of the model, as is the end of the count.
use pg_jitter.Prelude.{
  ℕ, zero, suc, ◌+◌, ◌-◌, ◌/◌, Bool, true, false, ◌&&◌, Option, none, some, List, get_elem?, ltb,
  leb, ◌==◌, if◌then◌else◌,
}
use pg_jitter.Prelude.Int.{ℤ, ltb_ℤ, leb_ℤ}
pub use pg_jitter.Machine.{Run, done, out_of_bounds, out_of_rounds}
use pg_jitter.Machine.{half16, half32, wrap, to_uint, eqb_ℤ}

-- A Datum is a word that these functions pass on unread.
abbrev pub Datum : Type 0
Datum = ℕ

-- `CaseBSearchDesc` with the two arrays behind its header. `range_min` is kept as the integer that
-- `DatumGetInt32` or `DatumGetInt64` reads from it.
pub record CaseBSearchDesc : Type 0 where
  pub n : ℕ
  pub thresholds : List ℤ
  pub results : List Datum
  pub default_val : Datum
  pub range_min : ℤ
  pub has_range_min : Bool

-- while (lo < hi) { mid = lo + (hi - lo) / 2; if (test(a[mid])) hi = mid; else lo = mid + 1; }
unfoldable pub first_true : (ℤ → Bool) → List ℤ → ℕ → ℕ → ℕ → Run ℕ
first_true test a zero lo hi = out_of_rounds
first_true test a (suc rounds) lo hi =
    let mid = lo + (hi - lo) / 2 in
    elim (ltb lo hi) [
      | false ↦ done lo
      | true ↦ elim (get_elem? a mid) [
        | none ↦ out_of_bounds
        | some t ↦ elim (test t) [
          | true ↦ first_true test a rounds lo mid
          | false ↦ first_true test a rounds (mid + 1) hi
        ]
      ]
    ]

read : List Datum → ℕ → Run Datum
read results i = elim (get_elem? results i) [ none ↦ out_of_bounds | some r ↦ done r ]

-- return lo < n ? results[lo] : desc->default_val;
result_at : CaseBSearchDesc → Run ℕ → Run Datum
result_at desc (done lo) = if ltb lo desc.n then read desc.results lo else done desc.default_val
result_at desc out_of_bounds = out_of_bounds
result_at desc out_of_rounds = out_of_rounds

-- The body that the searched CASE helpers share, over the comparison `val OP thresholds[mid]`.
unfoldable pub threshold_search : (ℤ → Bool) → CaseBSearchDesc → Run Datum
unfolding read result_at
threshold_search test desc = result_at desc (first_true test desc.thresholds (suc desc.n) 0 desc.n)

-- Range CASE: `if (desc->has_range_min && val < range_min) return desc->default_val;` first.
unfoldable pub range_search : ℤ → (ℤ → Bool) → CaseBSearchDesc → Run Datum
unfolding threshold_search
range_search val test desc =
    if desc.has_range_min && ltb_ℤ val desc.range_min
    then done desc.default_val
    else threshold_search test desc

module _ (val : ℤ) (desc : CaseBSearchDesc) where
  unfoldable pub pg_jitter_case_bsearch_lt_i32 : Run Datum
  pg_jitter_case_bsearch_lt_i32 = range_search val (λ t. ltb_ℤ val t) desc

  unfoldable pub pg_jitter_case_bsearch_le_i32 : Run Datum
  pg_jitter_case_bsearch_le_i32 = threshold_search (λ t. leb_ℤ val t) desc

  unfoldable pub pg_jitter_case_bsearch_lt_i64 : Run Datum
  pg_jitter_case_bsearch_lt_i64 = range_search val (λ t. ltb_ℤ val t) desc

  unfoldable pub pg_jitter_case_bsearch_le_i64 : Run Datum
  pg_jitter_case_bsearch_le_i64 = threshold_search (λ t. leb_ℤ val t) desc

  unfoldable pub pg_jitter_case_bsearch_gt_i32 : Run Datum
  pg_jitter_case_bsearch_gt_i32 = threshold_search (λ t. ltb_ℤ t val) desc

  unfoldable pub pg_jitter_case_bsearch_ge_i32 : Run Datum
  pg_jitter_case_bsearch_ge_i32 = threshold_search (λ t. leb_ℤ t val) desc

  unfoldable pub pg_jitter_case_bsearch_gt_i64 : Run Datum
  pg_jitter_case_bsearch_gt_i64 = threshold_search (λ t. ltb_ℤ t val) desc

  unfoldable pub pg_jitter_case_bsearch_ge_i64 : Run Datum
  pg_jitter_case_bsearch_ge_i64 = threshold_search (λ t. leb_ℤ t val) desc

  unfoldable pub pg_jitter_case_bsearch_lt_u32 : Run Datum
  pg_jitter_case_bsearch_lt_u32 =
      threshold_search (λ t. ltb (to_uint half32 val) (to_uint half32 t)) desc

  unfoldable pub pg_jitter_case_bsearch_le_u32 : Run Datum
  pg_jitter_case_bsearch_le_u32 =
      threshold_search (λ t. leb (to_uint half32 val) (to_uint half32 t)) desc

  unfoldable pub pg_jitter_case_bsearch_gt_u32 : Run Datum
  pg_jitter_case_bsearch_gt_u32 =
      threshold_search (λ t. ltb (to_uint half32 t) (to_uint half32 val)) desc

  unfoldable pub pg_jitter_case_bsearch_ge_u32 : Run Datum
  pg_jitter_case_bsearch_ge_u32 =
      threshold_search (λ t. leb (to_uint half32 t) (to_uint half32 val)) desc

  -- The int2 helpers cut the value and the lower bound to 16 bits, and check the bound for every OP.
  int2_search : (ℤ → ℤ → Bool) → Run Datum
  int2_search test =
      let v = wrap half16 val in
      if desc.has_range_min && ltb_ℤ v (wrap half16 desc.range_min)
      then done desc.default_val
      else threshold_search (test v) desc

  unfoldable pub pg_jitter_case_bsearch_lt_i16 : Run Datum
  unfolding int2_search
  pg_jitter_case_bsearch_lt_i16 = int2_search (λ v t. ltb_ℤ v t)

  unfoldable pub pg_jitter_case_bsearch_le_i16 : Run Datum
  unfolding int2_search
  pg_jitter_case_bsearch_le_i16 = int2_search (λ v t. leb_ℤ v t)

  unfoldable pub pg_jitter_case_bsearch_gt_i16 : Run Datum
  unfolding int2_search
  pg_jitter_case_bsearch_gt_i16 = int2_search (λ v t. ltb_ℤ t v)

  unfoldable pub pg_jitter_case_bsearch_ge_i16 : Run Datum
  unfolding int2_search
  pg_jitter_case_bsearch_ge_i16 = int2_search (λ v t. leb_ℤ t v)

-- while (lo <= hi) over the signed `hi`, which starts at n - 1 and may reach -1: `top` is hi + 1.
-- `equal` and `below` are the tests of the element read against the value.
unfoldable pub equal_loop : (ℤ → Bool) → (ℤ → Bool) → List ℤ → ℕ → ℕ → ℕ → Run (Option ℕ)
equal_loop equal below a zero lo top = out_of_rounds
equal_loop equal below a (suc rounds) lo top =
    let mid = lo + (top - 1 - lo) / 2 in
    elim (ltb lo top) [
      | false ↦ done none
      | true ↦ elim (get_elem? a mid) [
        | none ↦ out_of_bounds
        | some t ↦ elim (equal t) [
          | true ↦ done (some mid)
          | false ↦ elim (below t) [
            | true ↦ equal_loop equal below a rounds (mid + 1) top
            | false ↦ equal_loop equal below a rounds lo mid
          ]
        ]
      ]
    ]

found_at : CaseBSearchDesc → Run (Option ℕ) → Run Datum
found_at desc (done (some i)) = read desc.results i
found_at desc (done none) = done desc.default_val
found_at desc out_of_bounds = out_of_bounds
found_at desc out_of_rounds = out_of_rounds

unfoldable pub equal_search : (ℤ → Bool) → (ℤ → Bool) → CaseBSearchDesc → Run Datum
unfolding read found_at
equal_search equal below desc =
    found_at desc (equal_loop equal below desc.thresholds (suc desc.n) 0 desc.n)

module _ (val : ℤ) (desc : CaseBSearchDesc) where
  unfoldable pub pg_jitter_case_bsearch_eq_i32 : Run Datum
  pg_jitter_case_bsearch_eq_i32 = equal_search (λ t. eqb_ℤ t val) (λ t. ltb_ℤ t val) desc

  unfoldable pub pg_jitter_case_bsearch_eq_i64 : Run Datum
  pg_jitter_case_bsearch_eq_i64 = equal_search (λ t. eqb_ℤ t val) (λ t. ltb_ℤ t val) desc

  unfoldable pub pg_jitter_case_bsearch_eq_u32 : Run Datum
  pg_jitter_case_bsearch_eq_u32 =
      equal_search (λ t. to_uint half32 t == to_uint half32 val)
        (λ t. ltb (to_uint half32 t) (to_uint half32 val)) desc

  unfoldable pub pg_jitter_case_bsearch_eq_i16 : Run Datum
  pg_jitter_case_bsearch_eq_i16 =
      equal_search (λ t. eqb_ℤ t (wrap half16 val)) (λ t. ltb_ℤ t (wrap half16 val)) desc
