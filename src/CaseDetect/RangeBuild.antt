-- ===== src/CaseDetect/RangeBuild.antt =====
-- `pg_jitter_detect_case_bsearch`, second pass: the checks of the ranges and their descriptor, and the
-- pass itself.
use pg_jitter.Prelude.{
  ℕ, zero, suc, ◌+◌, ◌-◌, Bool, true, false, not, ◌&&◌, ◌||◌, Option, none, some, List, [], ◌∷◌,
  ◌++◌, map, get_elem?, drop, length, ltb, ◌==◌, if◌then◌else◌,
}
use pg_jitter.Prelude.Int.{ℤ, pos, ◌+ℤ◌, ltb_ℤ, leb_ℤ}
use pg_jitter.Machine.{Run, done, out_of_bounds, out_of_rounds, half16, half32, half64, wrap, eqb_ℤ}
use pg_jitter.CaseSearch.Defs.{Datum, CaseBSearchDesc}
use pg_jitter.CaseDetect.Steps.{ExprEvalStep, get_int32, get_int64}
use pg_jitter.CaseDetect.Classify.{
  CaseBSearchType, case_bs_u32, case_bs_i32, case_bs_i64, case_bs_i16, bs_type_to_var_type,
}
use pg_jitter.CaseDetect.Branches.{◌>>=◌, non_null_const}
use pg_jitter.CaseDetect.Build.{Platform, threshold_of}
use pg_jitter.CaseDetect.Detect.{
  CaseBSearchInfo, Verdict, advance, skip_to, found, recorded, detect_single,
  case_bsearch_min_branches,
}
use pg_jitter.CaseDetect.Ranges.{
  RangeWhen, RangeClass, RangeBranch, branch_of, range_when_len, max_range_branches, first_when,
  first_jump, collect,
}

-- The bound as an int64, where the type has ranges.
abbrev pub bound_of : CaseBSearchType → Datum → Option ℤ
bound_of case_bs_i32 d = some (get_int32 d)
bound_of case_bs_i64 d = some (get_int64 d)
bound_of case_bs_i16 d = some (wrap half16 (get_int32 d))
bound_of _ d = none

-- PG_INT16_MAX is half16 - 1, and so on.
abbrev pub case_range_upper_sentinel_representable : CaseBSearchType → Datum → Bool
case_range_upper_sentinel_representable case_bs_i16 d = leb_ℤ (get_int32 d) (pos (half16 - 1))
case_range_upper_sentinel_representable case_bs_i32 d = ltb_ℤ (get_int32 d) (pos (half32 - 1))
case_range_upper_sentinel_representable case_bs_i64 d = ltb_ℤ (get_int64 d) (pos (half64 - 1))
case_range_upper_sentinel_representable _ d = false

-- upper_inclusive ? hi + 1 : hi, of an int64.
abbrev pub upper_of : Bool → ℤ → ℤ
upper_of true hi = wrap half64 (hi +ℤ pos 1)
upper_of false hi = hi

abbrev pub meets : RangeClass → Option ℤ → Option ℤ → Bool
meets class (some hi) (some lo) = eqb_ℤ (upper_of class.upper_inclusive hi) lo
meets class _ _ = false

-- Each range begins where the one before it ends.
unfoldable pub contiguous : RangeClass → List RangeBranch → Bool
contiguous class (a ∷ b ∷ bs) =
    (not class.upper_inclusive || case_range_upper_sentinel_representable class.bs_type a.high)
    && meets class (bound_of class.bs_type a.high) (bound_of class.bs_type b.low)
    && contiguous class (b ∷ bs)
contiguous class _ = true

unfoldable pub all_representable : RangeClass → List RangeBranch → Bool
all_representable class [] = true
all_representable class (b ∷ bs) =
    (not class.upper_inclusive || case_range_upper_sentinel_representable class.bs_type b.high)
    && all_representable class bs

-- The results, where the first step of each is a constant.
unfoldable pub then_values : List ExprEvalStep → List RangeBranch → Option (List Datum)
then_values steps [] = some []
then_values steps (b ∷ bs) =
    let rest = then_values steps bs in
    do op ← get_elem? steps b.then_step; d ← non_null_const op; ds ← rest; some (d ∷ ds)

-- v + 1, of an int32 or an int64; the other types keep the bound.
abbrev pub plus_one : CaseBSearchType → ℤ → ℤ
plus_one case_bs_i32 v = wrap half32 (v +ℤ pos 1)
plus_one case_bs_u32 v = wrap half32 (v +ℤ pos 1)
plus_one case_bs_i16 v = wrap half32 (v +ℤ pos 1)
plus_one case_bs_i64 v = wrap half64 (v +ℤ pos 1)
plus_one _ v = v

abbrev pub upper_threshold : RangeClass → RangeBranch → ℤ
upper_threshold class b =
    let v = threshold_of class.bs_type b.high in
    if class.upper_inclusive then plus_one class.bs_type v else v

abbrev pub first_low : RangeClass → List RangeBranch → ℤ
first_low class (b ∷ bs) =
    if bs_type_to_var_type class.bs_type == 0 then get_int32 b.low else get_int64 b.low
first_low class [] = pos 0

unfoldable pub range_desc : RangeClass → List RangeBranch → List Datum → Datum → CaseBSearchDesc
range_desc class bs results d = record {
  n = length bs;
  thresholds = map (upper_threshold class) bs;
  results = results;
  default_val = d;
  range_min = first_low class bs;
  has_range_min = true;
}

abbrev pub range_info :
    ℕ → ℕ → ℕ → RangeWhen → RangeClass → List RangeBranch → List Datum → Datum → CaseBSearchInfo
range_info i j end_jump_target first class bs results d = record {
  start_opno = i;
  end_opno = j;
  else_end_opno = end_jump_target;
  num_branches = length bs;
  class = record {
    is_equality = false;
    is_less = true;
    is_inclusive = false;
    bs_type = class.bs_type;
  };
  is_range = false;
  range_stride = 0;
  cmp_fn = first.lt_call.fn_addr;
  desc = range_desc class bs results d;
  default_result = d;
  default_is_null = false;
  var_opno = i;
  var_type = bs_type_to_var_type class.bs_type;
}

-- The branches `bs` from step `i` on, with the ELSE part at step `j`.
unfoldable pub check_range :
    List ExprEvalStep → ℕ → ℕ → ℕ → RangeWhen → RangeClass → List RangeBranch → Verdict
check_range steps i j end_jump_target first class bs =
    if ltb (length bs) case_bsearch_min_branches
    then skip_to j
    else (if not (contiguous class bs && all_representable class bs)
        then skip_to j
        else elim (get_elem? steps j >>= non_null_const) [
          | none ↦ skip_to j
          | some d ↦ elim (then_values steps bs) [
            | none ↦ skip_to end_jump_target
            | some results ↦ found (range_info i j end_jump_target first class bs results d)
          ]
        ])

-- A round of the second pass at step `i`.
unfoldable pub detect_range_at : List ExprEvalStep → ℕ → Verdict
detect_range_at steps i = elim (first_when (drop i steps)) [
  | none ↦ advance
  | some (w, class) ↦ elim (first_jump 20 (drop (i + range_when_len) steps) (i + range_when_len)) [
    | none ↦ advance
    | some (jump_pos, end_jump_target) ↦
        let more = collect steps w end_jump_target (max_range_branches - 1) (jump_pos + 1) in
        check_range steps i more.1 end_jump_target w class (branch_of w i ∷ more.0)
  ]
]

-- while (i + RANGE_WHEN_LEN < steps_len && nfound < max_patterns)
unfoldable pub detect_ranges : List ExprEvalStep → ℕ → ℕ → ℕ → Run (List CaseBSearchInfo)
detect_ranges steps zero i room = out_of_rounds
detect_ranges steps (suc rounds) i room =
    elim (ltb (i + range_when_len) (length steps) && ltb 0 room) [
      | false ↦ done []
      | true ↦ elim (detect_range_at steps i) [
        | advance ↦ detect_ranges steps rounds (i + 1) room
        | skip_to j ↦ detect_ranges steps rounds j room
        | found info ↦ recorded info (detect_ranges steps rounds info.else_end_opno (room - 1))
      ]
    ]

abbrev pub after : List CaseBSearchInfo → Run (List CaseBSearchInfo) → Run (List CaseBSearchInfo)
after infos (done more) = done (infos ++ more)
after infos out_of_bounds = out_of_bounds
after infos out_of_rounds = out_of_rounds

-- Both passes, of which the second one has the places that the first one leaves.
unfoldable pub pg_jitter_detect_case_bsearch :
    Platform → List ExprEvalStep → ℕ → ℕ → Run (List CaseBSearchInfo)
pg_jitter_detect_case_bsearch p steps rounds max_patterns =
    elim (detect_single p steps rounds 0 max_patterns) [
      | done infos ↦ after infos (detect_ranges steps rounds 0 (max_patterns - length infos))
      | out_of_bounds ↦ out_of_bounds
      | out_of_rounds ↦ out_of_rounds
    ]
