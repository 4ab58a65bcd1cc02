-- ===== src/Examples/Ranged.antt =====
-- The detection of range CASE expressions with four ranges: consecutive ones, ones of which the first is
-- empty, and ones whose results are not constants.
use pg_jitter.Prelude.{
  ℕ, zero, suc, ◌+◌, ◌≤◌, ◌<◌, ◌≡◌, refl, ap, Bool, true, false, ◌&&◌, none, some, List, [], ◌∷◌,
  ◌++◌, length, drop, arith, if◌then◌else◌, ltb, get_elem?,
}
use pg_jitter.Prelude.Int.{pos, ◌+ℤ◌}
use pg_jitter.Machine.{done}
use pg_jitter.CaseSearch.Defs.{Datum, pg_jitter_case_bsearch_lt_i32, range_search}
use pg_jitter.CaseDetect.Steps.{
  ExprEvalStep, var, funcexpr_strict, jump_if_not_true, jump, const, and_step, bool_and_step_first,
  bool_and_step_last, other_step, scan_var, a_value, comparison, type_int4, cmp_ge, cmp_lt,
}
use pg_jitter.CaseDetect.Classify.{case_bs_i32, classify_cmp_fn, build_cmp_class_table, classify_in}
use pg_jitter.CaseDetect.Branches.{jump_target}
use pg_jitter.CaseDetect.Detect.{CaseBSearchInfo, found}
use pg_jitter.CaseDetect.Ranges.{
  RangeWhen, RangeClass, RangeBranch, range_class, seven_steps, first_when, first_jump, jump_to_end,
  branch_at, collect,
}
use pg_jitter.CaseDetect.RangeBuild.{
  contiguous, all_representable, then_values, range_desc, range_info, check_range, detect_range_at,
  pg_jitter_detect_case_bsearch,
}
use pg_jitter.CaseDetect.RangeMeaning.{when_ranges}
use pg_jitter.CaseDetect.RangeFound.{ranges_at, detected_range}
use pg_jitter.CaseDetect.RangeReplaced.{FindsRange}
use pg_jitter.CaseDetect.RangeEnds.{IsForward}
use pg_jitter.CaseDetect.Passes.{detection_ends}
use pg_jitter.Examples.Detected.{platform}

abbrev call_int4 : Bool → Datum → ExprEvalStep
call_int4 is_lower t = funcexpr_strict (record {
  fn_addr = comparison type_int4 (if is_lower then cmp_ge else cmp_lt);
  fncollation = 0;
  arg1 = a_value t;
})

-- WHEN x >= low AND x < high THEN …, at step `i` of a CASE that ends at step `target`.
abbrev range_steps : ℕ → ℕ → Datum → Datum → List ExprEvalStep → List ExprEvalStep
range_steps target i low high result =
    var scan_var 0
    ∷ call_int4 true low
    ∷ and_step bool_and_step_first (i + 6)
    ∷ var scan_var 0
    ∷ call_int4 false high
    ∷ and_step bool_and_step_last (i + 6)
    ∷ jump_if_not_true (i + 8 + length result)
    ∷ (result ++ (jump target ∷ []))

-- CASE WHEN x >= low AND x < 5 THEN 100 WHEN x >= 5 AND x < 20 THEN 200 … ELSE 999 END
abbrev steps_from : Datum → List ExprEvalStep
steps_from low =
    range_steps 37 0 low 5 (const (a_value 100) ∷ [])
    ++ range_steps 37 9 5 20 (const (a_value 200) ∷ [])
    ++ range_steps 37 18 20 30 (const (a_value 300) ∷ [])
    ++ range_steps 37 27 30 40 (const (a_value 400) ∷ [])
    ++ (const (a_value 999) ∷ other_step 0 ∷ [])

abbrev first_of : Datum → RangeWhen
first_of low = record {
  load = var scan_var 0;
  ge_call = record { fn_addr = comparison type_int4 cmp_ge; fncollation = 0; arg1 = a_value low };
  load2 = var scan_var 0;
  lt_call = record { fn_addr = comparison type_int4 cmp_lt; fncollation = 0; arg1 = a_value 5 };
}

abbrev class : RangeClass
class = record { upper_inclusive = false; bs_type = case_bs_i32 }

abbrev branch : Datum → Datum → ℕ → RangeBranch
branch low high s = record { low = low; high = high; then_step = s }

abbrev ranges_from : Datum → List RangeBranch
ranges_from low = branch low 5 7 ∷ branch 5 20 16 ∷ branch 20 30 25 ∷ branch 30 40 34 ∷ []

abbrev results : List Datum
results = 100 ∷ 200 ∷ 300 ∷ 400 ∷ []

abbrev info_from : Datum → CaseBSearchInfo
info_from low = range_info 0 36 37 (first_of low) class (ranges_from low) results 999

first_read : first_when (steps_from 1) ≡ some (first_of 1, class)
unfolding first_when seven_steps range_class classify_cmp_fn build_cmp_class_table classify_in
first_read = refl

detected : detect_range_at (steps_from 1) 0 ≡ found (info_from 1)
unfolding detect_range_at first_when seven_steps range_class classify_cmp_fn build_cmp_class_table
    classify_in first_jump collect branch_at jump_to_end check_range contiguous all_representable
    then_values
detected = refl

jump_at : first_jump 20 (drop 7 (steps_from 1)) 7 ≡ some (8, 37)
unfolding first_jump
jump_at = refl

ranges_read : ranges_at (steps_from 1) 0 (first_of 1) 8 37 ≡ (ranges_from 1, 36)
unfolding collect branch_at jump_to_end seven_steps
ranges_read = refl

detected_range_example :
    FindsRange
      (steps_from 1)
      class
      (ranges_at (steps_from 1) 0 (first_of 1) 8 37).0
      (ranges_at (steps_from 1) 0 (first_of 1) 8 37).1
      7
      (info_from 1)
unfolding collect branch_at jump_to_end seven_steps ◌+ℤ◌
detected_range_example =
    detected_range (steps_from 1) 0 8 37 (first_of 1) class 7 (info_from 1) first_read jump_at
      detected (refl, (refl, (refl, (refl, tt))))

-- The empty first range: x >= 10 AND x < 5. The steps give 200 for 7; the helper gives the ELSE result.
empty_first_detected : detect_range_at (steps_from 10) 0 ≡ found (info_from 10)
unfolding detect_range_at first_when seven_steps range_class classify_cmp_fn build_cmp_class_table
    classify_in first_jump collect branch_at jump_to_end check_range contiguous all_representable
    then_values
empty_first_detected = refl

empty_first_helper : pg_jitter_case_bsearch_lt_i32 (pos 7) (info_from 10).desc ≡ done 999
unfolding pg_jitter_case_bsearch_lt_i32 range_search range_desc
empty_first_helper = refl

empty_first_meaning : when_ranges class (pos 7) (ranges_from 10) results 999 ≡ 200
unfolding when_ranges
empty_first_meaning = refl

-- Results of two steps, of which the first one is a constant, as GREATEST(100, y) has: the pattern is
-- recorded with the constants as the results.
abbrev two_step_results : List ExprEvalStep
two_step_results =
    range_steps 41 0 1 5 (const (a_value 100) ∷ other_step 1 ∷ [])
    ++ range_steps 41 10 5 20 (const (a_value 200) ∷ other_step 1 ∷ [])
    ++ range_steps 41 20 20 30 (const (a_value 300) ∷ other_step 1 ∷ [])
    ++ range_steps 41 30 30 40 (const (a_value 400) ∷ other_step 1 ∷ [])
    ++ (const (a_value 999) ∷ other_step 0 ∷ [])

two_step_detected :
    detect_range_at two_step_results 0
    ≡ found (
        range_info 0 40 41
          (first_of 1)
          class
          (branch 1 5 7 ∷ branch 5 20 17 ∷ branch 20 30 27 ∷ branch 30 40 37 ∷ [])
          results
          999)
unfolding detect_range_at first_when seven_steps range_class classify_cmp_fn build_cmp_class_table
    classify_in first_jump collect branch_at jump_to_end check_range contiguous all_representable
    then_values
two_step_detected = refl

forward_from : List ExprEvalStep → ℕ → Bool
forward_from [] s = true
forward_from (op ∷ ops) s =
    (elim (jump_target op) [ none ↦ true | some t ↦ ltb s t ]) && forward_from ops (suc s)

forward_at :
    (ops : List ExprEvalStep) (s k t : ℕ)
    → forward_from ops s ≡ true
    → get_elem? ops k ≡ some (jump t)
    → s + k < t
unfolding forward_from
forward_at [] s k t h e = absurd (ground (arith, e))
forward_at (op ∷ ops) s zero t h e =
    let is : op ≡ jump t = ground (arith, e) in
    let same : jump_target op ≡ some t = ap jump_target is in ground (arith, h, same)
forward_at (op ∷ ops) s (suc k) t h e =
    let rest = forward_at ops (suc s) k t (ground (arith, h)) e in omega (arith, rest)

steps-IsForward : IsForward (steps_from 1)
unfolding forward_from
steps-IsForward s t e = omega (arith, forward_at (steps_from 1) 0 s t refl e)

detection_ends_example :
    (infos : List CaseBSearchInfo) × (pg_jitter_detect_case_bsearch platform (steps_from 1) 700 16
      ≡ done infos)
    × (length infos ≤ 16)
detection_ends_example = detection_ends platform (steps_from 1) 700 16 steps-IsForward (omega arith)
