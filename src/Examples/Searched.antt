-- ===== src/Examples/Searched.antt =====
-- The searches of a CASE with three WHEN branches.
use pg_jitter.Prelude.{◌≡◌, refl, Bool, true, false, List, [], ◌∷◌, ltb, leb}
use pg_jitter.Prelude.Int.{ℤ, pos, ltb_ℤ, leb_ℤ}
use pg_jitter.Machine.{half16, half32, wrap, to_uint, eqb_ℤ}
use pg_jitter.CaseSearch.Defs.{
  CaseBSearchDesc, done, range_search, threshold_search, first_true, equal_search, equal_loop,
  pg_jitter_case_bsearch_lt_i32, pg_jitter_case_bsearch_le_i32, pg_jitter_case_bsearch_lt_i64,
  pg_jitter_case_bsearch_le_i64, pg_jitter_case_bsearch_gt_i32, pg_jitter_case_bsearch_ge_i32,
  pg_jitter_case_bsearch_gt_i64, pg_jitter_case_bsearch_ge_i64, pg_jitter_case_bsearch_lt_u32,
  pg_jitter_case_bsearch_le_u32, pg_jitter_case_bsearch_gt_u32, pg_jitter_case_bsearch_ge_u32,
  pg_jitter_case_bsearch_lt_i16, pg_jitter_case_bsearch_le_i16, pg_jitter_case_bsearch_gt_i16,
  pg_jitter_case_bsearch_ge_i16, pg_jitter_case_bsearch_eq_i32, pg_jitter_case_bsearch_eq_i64,
  pg_jitter_case_bsearch_eq_u32, pg_jitter_case_bsearch_eq_i16,
}
use pg_jitter.CaseSearch.Exact.{IsDesc}
use pg_jitter.CaseSearch.Threshold.{threshold_searches}
use pg_jitter.CaseSearch.Searched.{IsAscending, IsDescending, unsigned, chain}
use pg_jitter.Examples.Ordered.{all, in_order, ascending, descending, strict}
use pg_jitter.CaseSearch.Range.{range_chain, range_case_searches}
use pg_jitter.CaseSearch.Equal.{IsStrict, equality_searches}

abbrev case_of : List ℤ → Bool → CaseBSearchDesc
case_of thresholds has_range_min = record {
  n = 3;
  thresholds = thresholds;
  results = 100 ∷ 200 ∷ 300 ∷ [];
  default_val = 999;
  range_min = pos 1;
  has_range_min = has_range_min;
}

abbrev rising : CaseBSearchDesc
rising = case_of (pos 10 ∷ pos 20 ∷ pos 30 ∷ []) false

abbrev falling : CaseBSearchDesc
falling = case_of (pos 30 ∷ pos 20 ∷ pos 10 ∷ []) false

abbrev ranges : CaseBSearchDesc
ranges = case_of (pos 10 ∷ pos 20 ∷ pos 30 ∷ []) true

rising-IsDesc : IsDesc rising
rising-IsDesc = record { thresholds_length = refl; results_length = refl }

falling-IsDesc : IsDesc falling
falling-IsDesc = record { thresholds_length = refl; results_length = refl }

ranges-IsDesc : IsDesc ranges
ranges-IsDesc = record { thresholds_length = refl; results_length = refl }

rising-IsAscending : IsAscending (λ t. t) rising.thresholds
unfolding in_order all
rising-IsAscending = ascending (λ t. t) rising.thresholds refl

ranges-IsAscending : IsAscending (λ t. t) (ranges.range_min ∷ ranges.thresholds)
unfolding in_order all
ranges-IsAscending = ascending (λ t. t) (ranges.range_min ∷ ranges.thresholds) refl

falling-IsDescending : IsDescending (λ t. t) falling.thresholds
unfolding in_order all
falling-IsDescending = descending (λ t. t) falling.thresholds refl

oids-IsAscending : IsAscending unsigned rising.thresholds
unfolding in_order all
oids-IsAscending = ascending unsigned rising.thresholds refl

oids-IsDescending : IsDescending unsigned falling.thresholds
unfolding in_order all
oids-IsDescending = descending unsigned falling.thresholds refl

rising-IsStrict : IsStrict (λ t. t) rising.thresholds
unfolding in_order all
rising-IsStrict = strict (λ t. t) rising.thresholds refl

oids-IsStrict : IsStrict unsigned rising.thresholds
unfolding in_order all
oids-IsStrict = strict unsigned rising.thresholds refl

lt_run : pg_jitter_case_bsearch_lt_i32 (pos 10) rising ≡ done 200
unfolding pg_jitter_case_bsearch_lt_i32 range_search threshold_search first_true
lt_run = refl

below_run : pg_jitter_case_bsearch_lt_i32 (pos 0) ranges ≡ done 999
unfolding pg_jitter_case_bsearch_lt_i32 range_search
below_run = refl

eq_run : pg_jitter_case_bsearch_eq_i64 (pos 30) rising ≡ done 300
unfolding pg_jitter_case_bsearch_eq_i64 equal_search equal_loop
eq_run = refl

threshold_searches_example :
    ((pg_jitter_case_bsearch_lt_i32 (pos 20) rising ≡ chain (λ t. ltb_ℤ (pos 20) t) rising)
      × (pg_jitter_case_bsearch_le_i32 (pos 20) rising ≡ chain (λ t. leb_ℤ (pos 20) t) rising)
      × (pg_jitter_case_bsearch_lt_i64 (pos 20) rising ≡ chain (λ t. ltb_ℤ (pos 20) t) rising)
      × (pg_jitter_case_bsearch_le_i64 (pos 20) rising ≡ chain (λ t. leb_ℤ (pos 20) t) rising)
      × (pg_jitter_case_bsearch_lt_i16 (pos 20) rising
          ≡ chain (λ t. ltb_ℤ (wrap half16 (pos 20)) t) rising)
      × (pg_jitter_case_bsearch_le_i16 (pos 20) rising
          ≡ chain (λ t. leb_ℤ (wrap half16 (pos 20)) t) rising))
    × ((pg_jitter_case_bsearch_gt_i32 (pos 20) falling ≡ chain (λ t. ltb_ℤ t (pos 20)) falling)
        × (pg_jitter_case_bsearch_ge_i32 (pos 20) falling ≡ chain (λ t. leb_ℤ t (pos 20)) falling)
        × (pg_jitter_case_bsearch_gt_i64 (pos 20) falling ≡ chain (λ t. ltb_ℤ t (pos 20)) falling)
        × (pg_jitter_case_bsearch_ge_i64 (pos 20) falling ≡ chain (λ t. leb_ℤ t (pos 20)) falling)
        × (pg_jitter_case_bsearch_gt_i16 (pos 20) falling
            ≡ chain (λ t. ltb_ℤ t (wrap half16 (pos 20))) falling)
        × (pg_jitter_case_bsearch_ge_i16 (pos 20) falling
            ≡ chain (λ t. leb_ℤ t (wrap half16 (pos 20))) falling))
    × ((pg_jitter_case_bsearch_lt_u32 (pos 20) rising
          ≡ chain (λ t. ltb (to_uint half32 (pos 20)) (to_uint half32 t)) rising)
        × (pg_jitter_case_bsearch_le_u32 (pos 20) rising
            ≡ chain (λ t. leb (to_uint half32 (pos 20)) (to_uint half32 t)) rising)
        × (pg_jitter_case_bsearch_gt_u32 (pos 20) falling
            ≡ chain (λ t. ltb (to_uint half32 t) (to_uint half32 (pos 20))) falling)
        × (pg_jitter_case_bsearch_ge_u32 (pos 20) falling
            ≡ chain (λ t. leb (to_uint half32 t) (to_uint half32 (pos 20))) falling))
threshold_searches_example =
    threshold_searches (pos 20) rising falling rising falling rising-IsDesc falling-IsDesc
      rising-IsDesc falling-IsDesc rising-IsAscending falling-IsDescending oids-IsAscending
      oids-IsDescending refl refl

range_case_searches_example :
    (pg_jitter_case_bsearch_lt_i32 (pos 20) ranges
      ≡ done (
          range_chain
            (pos 20)
            ranges.range_min
            ranges.thresholds
            ranges.results
            ranges.default_val))
    × (pg_jitter_case_bsearch_lt_i64 (pos 20) ranges
        ≡ done (
            range_chain
              (pos 20)
              ranges.range_min
              ranges.thresholds
              ranges.results
              ranges.default_val))
    × (pg_jitter_case_bsearch_lt_i16 (pos 20) ranges
        ≡ done (
            range_chain
              (wrap half16 (pos 20))
              (wrap half16 ranges.range_min)
              ranges.thresholds
              ranges.results
              ranges.default_val))
range_case_searches_example =
    range_case_searches (pos 20) ranges ranges ranges-IsDesc ranges-IsDesc ranges-IsAscending
      ranges-IsAscending refl refl

equality_searches_example :
    (pg_jitter_case_bsearch_eq_i32 (pos 20) rising ≡ chain (λ t. eqb_ℤ t (pos 20)) rising)
    × (pg_jitter_case_bsearch_eq_i64 (pos 20) rising ≡ chain (λ t. eqb_ℤ t (pos 20)) rising)
    × (pg_jitter_case_bsearch_eq_i16 (pos 20) rising
        ≡ chain (λ t. eqb_ℤ t (wrap half16 (pos 20))) rising)
    × (pg_jitter_case_bsearch_eq_u32 (pos 20) rising
        ≡ chain (λ t. eqb_ℤ (unsigned t) (unsigned (pos 20))) rising)
equality_searches_example =
    equality_searches (pos 20) rising rising rising-IsDesc rising-IsDesc rising-IsStrict
      oids-IsStrict
