-- ===== src/CaseDetect/RangeReplaced.antt =====
-- The pattern that the second pass records: the helper that is selected for it gives the result of the
-- first range that holds the value.
use pg_jitter.Prelude.{
  ℕ, suc, ◌≤◌, ◌≡◌, ◌∙◌, sym, refl, ap, Bool, true, false, Option, some, List, [], ◌∷◌, map, inl,
  inr, get_elem?, length, arith, Option-cases, length-map,
}
use pg_jitter.Prelude.Int.{ℤ}
use pg_jitter.Machine.{done, half16, wrap}
use pg_jitter.CaseSearch.Defs.{
  Datum, CaseBSearchDesc, range_search, pg_jitter_case_bsearch_lt_i32,
  pg_jitter_case_bsearch_lt_i64, pg_jitter_case_bsearch_lt_i16,
}
use pg_jitter.CaseSearch.Exact.{IsDesc}
use pg_jitter.CaseSearch.Searched.{IsAscending}
use pg_jitter.CaseSearch.Range.{range_chain, range_search-range_chain}
use pg_jitter.CaseDetect.Steps.{ExprEvalStep, get_int32, get_int64}
use pg_jitter.CaseDetect.Classify.{CaseBSearchType, case_bs_i32, case_bs_i64, case_bs_i16}
use pg_jitter.CaseDetect.Branches.{◌>>=◌, non_null_const}
use pg_jitter.CaseDetect.Build.{threshold_of}
use pg_jitter.CaseDetect.Detect.{CaseBSearchInfo}
use pg_jitter.CaseDetect.Select.{Helper, pg_jitter_select_bsearch_helper, helper_value}
use pg_jitter.CaseDetect.Helpers.{class_with}
use pg_jitter.CaseDetect.Ranges.{RangeWhen, RangeClass, RangeBranch}
use pg_jitter.CaseDetect.RangeBuild.{
  bound_of, meets, contiguous, all_representable, then_values, upper_threshold, first_low,
  range_desc, range_info,
}
use pg_jitter.CaseDetect.RangeMeaning.{
  when_ranges, IsProper, range_chain-when_ranges, ends_rise, rising-IsAscending,
}
use pg_jitter.CaseDetect.UpperEnds.{has_ranges, low_of}

-- The helper of int2 cuts the lower bound.
abbrev cut : CaseBSearchType → ℤ → ℤ
cut case_bs_i16 z = wrap half16 z
cut _ z = z

module _ (v : Datum) (desc : CaseBSearchDesc) (valid : IsDesc desc)
    (has_min : desc.has_range_min ≡ true) where
  abbrev chain_from : CaseBSearchType → Datum
  chain_from t =
      range_chain (threshold_of t v) (cut t desc.range_min) desc.thresholds desc.results
        desc.default_val

  int2_serves :
      IsAscending (λ t. t) (wrap half16 desc.range_min ∷ desc.thresholds)
      → pg_jitter_case_bsearch_lt_i16 (get_int32 v) desc ≡ done (chain_from case_bs_i16)
  unfolding pg_jitter_case_bsearch_lt_i16 range_search
  int2_serves up =
      range_search-range_chain (wrap half16 (get_int32 v))
        (record desc { range_min = wrap half16 desc.range_min })
        (record {
          thresholds_length = valid.thresholds_length;
          results_length = valid.results_length;
        })
        up has_min

  range_serves :
      (t : CaseBSearchType)
      → has_ranges t ≡ true
      → IsAscending (λ t. t) (cut t desc.range_min ∷ desc.thresholds)
      → (h : Helper) × (pg_jitter_select_bsearch_helper (class_with t false true false) ≡ some h)
        × (h (helper_value (class_with t false true false) v) desc ≡ done (chain_from t))
  unfolding pg_jitter_select_bsearch_helper pg_jitter_case_bsearch_lt_i32
      pg_jitter_case_bsearch_lt_i64
  range_serves case_bs_i32 is up =
      (_, refl, range_search-range_chain (get_int32 v) desc valid up has_min)
  range_serves case_bs_i64 is up =
      (_, refl, range_search-range_chain (get_int64 v) desc valid up has_min)
  range_serves case_bs_i16 is up = (_, refl, int2_serves up)
  range_serves _ is up = absurd (ground (arith, is))

met_only :
    (t : CaseBSearchType) (incl : Bool) (d : Datum) (o : Option ℤ)
    → meets (record { upper_inclusive = incl; bs_type = t }) (bound_of t d) o ≡ true
    → has_ranges t ≡ true
met_only case_bs_i32 incl d o h = refl
met_only case_bs_i64 incl d o h = refl
met_only case_bs_i16 incl d o h = refl
met_only _ incl d o h = absurd (ground (arith, h))

cut_low :
    (t : CaseBSearchType) (incl : Bool) (b : RangeBranch)
    → has_ranges t ≡ true
    → cut t (first_low (record { upper_inclusive = incl; bs_type = t }) (b ∷ []))
      ≡ threshold_of t b.low
cut_low case_bs_i32 incl b h = refl
cut_low case_bs_i64 incl b h = refl
cut_low case_bs_i16 incl b h = refl
cut_low _ incl b h = absurd (ground (arith, h))

-- Only the types with ranges are contiguous.
contiguous-has_ranges :
    (class : RangeClass) (bs : List RangeBranch)
    → 4 ≤ length bs
    → contiguous class bs ≡ true
    → has_ranges class.bs_type ≡ true
unfolding contiguous
contiguous-has_ranges class [] few h = absurd (omega arith)
contiguous-has_ranges class (a ∷ []) few h = absurd (omega arith)
contiguous-has_ranges class (a ∷ b ∷ bs) few h =
    met_only class.bs_type class.upper_inclusive a.high (bound_of class.bs_type b.low)
      (ground (arith, h))

cut-first_low :
    (class : RangeClass) (bs : List RangeBranch) (b : RangeBranch)
    → has_ranges class.bs_type ≡ true
    → get_elem? bs 0 ≡ some b
    → cut class.bs_type (first_low class bs) ≡ low_of class b
cut-first_low class [] b is e = absurd (ground (arith, e))
cut-first_low class (c ∷ bs) b is e =
    let same : c ≡ b = ground (arith, e) in
    cut_low class.bs_type class.upper_inclusive c is ∙ ap (low_of class) same

then_values-length :
    (steps : List ExprEvalStep) (bs : List RangeBranch) (rs : List Datum)
    → then_values steps bs ≡ some rs
    → length rs ≡ length bs
unfolding then_values
then_values-length steps [] rs h = ground (arith, h)
then_values-length steps (b ∷ bs) rs h = elim (Option-cases (get_elem? steps b.then_step)) [
  | inl e ↦ absurd (ground (arith, h, e))
  | inr (op, e) ↦ elim (Option-cases (non_null_const op)) [
    | inl e' ↦ absurd (ground (arith, h, e, e'))
    | inr (d, e') ↦ elim (Option-cases (then_values steps bs)) [
      | inl e'' ↦ absurd (ground (arith, h, e, e', e''))
      | inr (ds, e'') ↦
          let same : ◌≡◌ {A = List Datum} (d ∷ ds) rs = ground (arith, h, e, e', e'') in
          sym (ap length same) ∙ ap suc (then_values-length steps bs ds e'')
    ]
  ]
]

-- The helper that is selected for the pattern gives the result of the first of the ranges `bs` that
-- holds the value `v`, or else the ELSE result at step `j`.
abbrev pub FindsRange :
    List ExprEvalStep → RangeClass → List RangeBranch → ℕ → Datum → CaseBSearchInfo → Type 0
FindsRange steps class bs j v info =
    (h : Helper) × (rs : List Datum) × (d : Datum) × (pg_jitter_select_bsearch_helper info.class
      ≡ some h)
    × (then_values steps bs ≡ some rs)
    × ((get_elem? steps j >>= non_null_const) ≡ some d)
    × (h (helper_value info.class v) info.desc
        ≡ done (when_ranges class (threshold_of class.bs_type v) bs rs d))

pub range_desc-FindsRange :
    (steps : List ExprEvalStep) (i j e : ℕ) (w : RangeWhen) (class : RangeClass)
    (bs : List RangeBranch) (rs : List Datum) (d v : Datum)
    → 4 ≤ length bs
    → contiguous class bs ≡ true
    → all_representable class bs ≡ true
    → IsProper class bs
    → then_values steps bs ≡ some rs
    → (get_elem? steps j >>= non_null_const) ≡ some d
    → FindsRange steps class bs j v (range_info i j e w class bs rs d)
unfolding range_desc
range_desc-FindsRange steps i j e w class bs rs d v enough meet ok proper values ends =
    let is = contiguous-has_ranges class bs enough meet in
    let low = cut-first_low class bs in
    let desc = range_desc class bs rs d in
    let valid : IsDesc desc = record {
      thresholds_length = length-map bs (upper_threshold class);
      results_length = then_values-length steps bs rs values;
    } in
    let lo = cut class.bs_type desc.range_min in
    let up =
      rising-IsAscending (lo ∷ map (upper_threshold class) bs)
        (ends_rise class lo bs is meet ok proper (λ b at. low b is at)) in
    let (h, selected, gives) = range_serves v desc valid refl class.bs_type is up in
    (
      h,
      rs,
      d,
      selected,
      values,
      ends,
      gives
          ∙ ap done (
              range_chain-when_ranges class (threshold_of class.bs_type v) lo bs rs d is meet ok
                (λ b at. low b is at)),
    )
