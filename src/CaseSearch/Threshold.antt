-- ===== src/CaseSearch/Threshold.antt =====
-- Searched CASE: the searches of `Searched`, for all types and comparisons together.
use pg_jitter.Prelude.{◌≡◌, false, ltb, leb}
use pg_jitter.Prelude.Int.{ℤ, ltb_ℤ, leb_ℤ}
use pg_jitter.Machine.{half16, half32, wrap, to_uint}
use pg_jitter.CaseSearch.Defs.{
  CaseBSearchDesc, pg_jitter_case_bsearch_lt_i32, pg_jitter_case_bsearch_le_i32,
  pg_jitter_case_bsearch_lt_i64, pg_jitter_case_bsearch_le_i64, pg_jitter_case_bsearch_gt_i32,
  pg_jitter_case_bsearch_ge_i32, pg_jitter_case_bsearch_gt_i64, pg_jitter_case_bsearch_ge_i64,
  pg_jitter_case_bsearch_lt_u32, pg_jitter_case_bsearch_le_u32, pg_jitter_case_bsearch_gt_u32,
  pg_jitter_case_bsearch_ge_u32, pg_jitter_case_bsearch_lt_i16, pg_jitter_case_bsearch_le_i16,
  pg_jitter_case_bsearch_gt_i16, pg_jitter_case_bsearch_ge_i16,
}
use pg_jitter.CaseSearch.Exact.{IsDesc}
use pg_jitter.CaseSearch.Searched.{
  IsAscending, IsDescending, unsigned, chain, ascending_searches, descending_searches,
  unsigned_searches,
}

-- The searches return what the chain of WHEN tests returns. Those for `<` and `<=` take thresholds that
-- rise, those for `>` and `>=` thresholds that fall: as signed numbers for int4, int8 and int2, of which
-- the searched value's low 16 bits count, and as unsigned numbers for object ids. The signed descriptors
-- have no lower bound.
pub threshold_searches :
    (val : ℤ) (up down rising falling : CaseBSearchDesc)
    → IsDesc up
    → IsDesc down
    → IsDesc rising
    → IsDesc falling
    → IsAscending (λ t. t) up.thresholds
    → IsDescending (λ t. t) down.thresholds
    → IsAscending unsigned rising.thresholds
    → IsDescending unsigned falling.thresholds
    → up.has_range_min ≡ false
    → down.has_range_min ≡ false
    → ((pg_jitter_case_bsearch_lt_i32 val up ≡ chain (λ t. ltb_ℤ val t) up)
        × (pg_jitter_case_bsearch_le_i32 val up ≡ chain (λ t. leb_ℤ val t) up)
        × (pg_jitter_case_bsearch_lt_i64 val up ≡ chain (λ t. ltb_ℤ val t) up)
        × (pg_jitter_case_bsearch_le_i64 val up ≡ chain (λ t. leb_ℤ val t) up)
        × (pg_jitter_case_bsearch_lt_i16 val up ≡ chain (λ t. ltb_ℤ (wrap half16 val) t) up)
        × (pg_jitter_case_bsearch_le_i16 val up ≡ chain (λ t. leb_ℤ (wrap half16 val) t) up))
      × ((pg_jitter_case_bsearch_gt_i32 val down ≡ chain (λ t. ltb_ℤ t val) down)
          × (pg_jitter_case_bsearch_ge_i32 val down ≡ chain (λ t. leb_ℤ t val) down)
          × (pg_jitter_case_bsearch_gt_i64 val down ≡ chain (λ t. ltb_ℤ t val) down)
          × (pg_jitter_case_bsearch_ge_i64 val down ≡ chain (λ t. leb_ℤ t val) down)
          × (pg_jitter_case_bsearch_gt_i16 val down ≡ chain (λ t. ltb_ℤ t (wrap half16 val)) down)
          × (pg_jitter_case_bsearch_ge_i16 val down ≡ chain (λ t. leb_ℤ t (wrap half16 val)) down))
      × ((pg_jitter_case_bsearch_lt_u32 val rising
            ≡ chain (λ t. ltb (to_uint half32 val) (to_uint half32 t)) rising)
          × (pg_jitter_case_bsearch_le_u32 val rising
              ≡ chain (λ t. leb (to_uint half32 val) (to_uint half32 t)) rising)
          × (pg_jitter_case_bsearch_gt_u32 val falling
              ≡ chain (λ t. ltb (to_uint half32 t) (to_uint half32 val)) falling)
          × (pg_jitter_case_bsearch_ge_u32 val falling
              ≡ chain (λ t. leb (to_uint half32 t) (to_uint half32 val)) falling))
threshold_searches val up down rising falling vu vd vr vf u d r f no_min no_min' = (
  ascending_searches val up vu u no_min,
  descending_searches val down vd d no_min',
  unsigned_searches val rising falling vr vf r f,
)
