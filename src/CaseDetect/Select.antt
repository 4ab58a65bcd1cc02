-- ===== src/CaseDetect/Select.antt =====
-- `pg_jitter_select_bsearch_helper`: the search helper that the code generators call for a class of
-- comparisons, and the argument that they pass. The helpers of floats and of types that are passed by
-- reference are not modelled.
use pg_jitter.Prelude.{ℕ, Option, List, [], ◌∷◌, get_elem?, if◌then◌else◌, ◌==◌}
use pg_jitter.Prelude.Int.{ℤ}
use pg_jitter.CaseSearch.Defs.{
  Run, Datum, CaseBSearchDesc, pg_jitter_case_bsearch_eq_i32, pg_jitter_case_bsearch_lt_i32,
  pg_jitter_case_bsearch_le_i32, pg_jitter_case_bsearch_gt_i32, pg_jitter_case_bsearch_ge_i32,
  pg_jitter_case_bsearch_eq_i64, pg_jitter_case_bsearch_lt_i64, pg_jitter_case_bsearch_le_i64,
  pg_jitter_case_bsearch_gt_i64, pg_jitter_case_bsearch_ge_i64, pg_jitter_case_bsearch_eq_u32,
  pg_jitter_case_bsearch_lt_u32, pg_jitter_case_bsearch_le_u32, pg_jitter_case_bsearch_gt_u32,
  pg_jitter_case_bsearch_ge_u32, pg_jitter_case_bsearch_eq_i16, pg_jitter_case_bsearch_lt_i16,
  pg_jitter_case_bsearch_le_i16, pg_jitter_case_bsearch_gt_i16, pg_jitter_case_bsearch_ge_i16,
}
use pg_jitter.CaseDetect.Steps.{get_int32, get_int64}
use pg_jitter.CaseDetect.Classify.{
  CmpClass, CaseBSearchType, case_bs_i32, case_bs_i64, case_bs_u32, case_bs_i16,
  bs_type_to_var_type,
}

abbrev pub Helper : Type 0
Helper = ℤ → CaseBSearchDesc → Run Datum

-- A row of the table: eq, lt, le, gt, ge.
abbrev pub bsearch_row : CaseBSearchType → List Helper
bsearch_row case_bs_i32 =
    pg_jitter_case_bsearch_eq_i32 ∷ pg_jitter_case_bsearch_lt_i32 ∷ pg_jitter_case_bsearch_le_i32
    ∷ pg_jitter_case_bsearch_gt_i32 ∷ pg_jitter_case_bsearch_ge_i32 ∷ []
bsearch_row case_bs_i64 =
    pg_jitter_case_bsearch_eq_i64 ∷ pg_jitter_case_bsearch_lt_i64 ∷ pg_jitter_case_bsearch_le_i64
    ∷ pg_jitter_case_bsearch_gt_i64 ∷ pg_jitter_case_bsearch_ge_i64 ∷ []
bsearch_row case_bs_u32 =
    pg_jitter_case_bsearch_eq_u32 ∷ pg_jitter_case_bsearch_lt_u32 ∷ pg_jitter_case_bsearch_le_u32
    ∷ pg_jitter_case_bsearch_gt_u32 ∷ pg_jitter_case_bsearch_ge_u32 ∷ []
bsearch_row case_bs_i16 =
    pg_jitter_case_bsearch_eq_i16 ∷ pg_jitter_case_bsearch_lt_i16 ∷ pg_jitter_case_bsearch_le_i16
    ∷ pg_jitter_case_bsearch_gt_i16 ∷ pg_jitter_case_bsearch_ge_i16 ∷ []
bsearch_row _ = []

abbrev pub bsearch_op_idx : CmpClass → ℕ
bsearch_op_idx class =
    if class.is_equality
    then 0
    else (if class.is_less
        then (if class.is_inclusive then 2 else 1)
        else (if class.is_inclusive then 4 else 3))

unfoldable pub pg_jitter_select_bsearch_helper : CmpClass → Option Helper
pg_jitter_select_bsearch_helper class = get_elem? (bsearch_row class.bs_type) (bsearch_op_idx class)

-- The value of the variable, in a register of 32 or of 64 bits.
abbrev pub helper_value : CmpClass → Datum → ℤ
helper_value class v = if bs_type_to_var_type class.bs_type == 0 then get_int32 v else get_int64 v
