-- ===== src/CaseDetect/Detect.antt =====
-- `pg_jitter_detect_case_bsearch`: the first pass over the steps, which finds the CASE expressions
-- with one comparison in each branch.
use pg_jitter.Prelude.{
  ℕ, zero, suc, ◌+◌, ◌-◌, ◌*◌, Bool, true, false, not, ◌&&◌, none, some, List, [], ◌∷◌, length,
  drop, ltb, if◌then◌else◌,
}
use pg_jitter.Machine.{Run, done, out_of_bounds, out_of_rounds}
use pg_jitter.CaseSearch.Defs.{Datum, CaseBSearchDesc}
use pg_jitter.CaseDetect.Steps.{ExprEvalStep, CmpFn}
use pg_jitter.CaseDetect.Classify.{CmpClass, bs_type_to_var_type}
use pg_jitter.CaseDetect.Branches.{Branch, first_branch, following, jumps_next, else_value}
use pg_jitter.CaseDetect.Build.{Platform, monotonic, build_desc}

-- `thresholds` and `results` of the C record point into the descriptor.
pub record CaseBSearchInfo : Type 0 where
  pub start_opno : ℕ
  pub end_opno : ℕ
  pub else_end_opno : ℕ
  pub num_branches : ℕ
  pub class : CmpClass
  pub is_range : Bool
  pub range_stride : ℕ
  pub cmp_fn : CmpFn
  pub desc : CaseBSearchDesc
  pub default_result : Datum
  pub default_is_null : Bool
  pub var_opno : ℕ
  pub var_type : ℕ

abbrev pub case_bsearch_min_branches : ℕ
case_bsearch_min_branches = 4

-- What a round of the loop does: i++; i = j; or a pattern is recorded and i = end_jump_target.
pub data Verdict : Type 0 where
  advance : Verdict
  skip_to : ℕ → Verdict
  found : CaseBSearchInfo → Verdict

abbrev pub info_of : ℕ → ℕ → Branch → CmpClass → ℕ → Datum → CaseBSearchDesc → CaseBSearchInfo
info_of i j first class count d desc = record {
  start_opno = i;
  end_opno = j;
  else_end_opno = first.end_target;
  num_branches = count;
  class = class;
  is_range = false;
  range_stride = 5;
  cmp_fn = first.call.fn_addr;
  desc = desc;
  default_result = d;
  default_is_null = false;
  var_opno = i;
  var_type = bs_type_to_var_type class.bs_type;
}

-- From the minimum of branches on, with the ELSE value `d` at step `j`.
unfoldable pub build_pattern : Platform → ℕ → ℕ → Branch → CmpClass → List Branch → Datum → Verdict
build_pattern p i j first class bs d =
    if ltb (length bs) case_bsearch_min_branches
    then skip_to j
    else (if not class.is_equality && not (monotonic p first.call class bs)
        then skip_to j
        else elim (build_desc p first.call class bs d) [
          | none ↦ skip_to j
          | some desc ↦ found (info_of i j first class (length bs) d desc)
        ])

-- The branches that begin with `first` at step `i`.
unfoldable pub check_pattern :
    Platform → List ExprEvalStep → ℕ → Branch → CmpClass → List Branch → Verdict
check_pattern p steps i first class bs =
    let j = i + 5 * length bs in
    if not (jumps_next i bs) then advance else elim (else_value steps j first.end_target) [
      | none ↦ advance
      | some d ↦ build_pattern p i j first class bs d
    ]

unfoldable pub detect_at : Platform → List ExprEvalStep → ℕ → Verdict
detect_at p steps i = elim (first_branch p.find_direct_fn (drop i steps)) [
  | none ↦ advance
  | some (first, class) ↦
      check_pattern p steps i first class (first ∷ following first (drop (i + 5) steps) (i + 5))
]

abbrev pub recorded : CaseBSearchInfo → Run (List CaseBSearchInfo) → Run (List CaseBSearchInfo)
recorded info (done infos) = done (info ∷ infos)
recorded info out_of_bounds = out_of_bounds
recorded info out_of_rounds = out_of_rounds

-- while (i < steps_len - STRIDE && nfound < max_patterns): `room` is max_patterns - nfound.
unfoldable pub detect_single : Platform → List ExprEvalStep → ℕ → ℕ → ℕ → Run (List CaseBSearchInfo)
detect_single p steps zero i room = out_of_rounds
detect_single p steps (suc rounds) i room = elim (ltb (i + 5) (length steps) && ltb 0 room) [
  | false ↦ done []
  | true ↦ elim (detect_at p steps i) [
    | advance ↦ detect_single p steps rounds (i + 1) room
    | skip_to j ↦ detect_single p steps rounds j room
    | found info ↦ recorded info (detect_single p steps rounds info.else_end_opno (room - 1))
  ]
]
