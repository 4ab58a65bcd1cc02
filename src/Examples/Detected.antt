-- ===== src/Examples/Detected.antt =====
-- The detection of a simple CASE with four values, which are not in order, and of a searched CASE.
use pg_jitter.Prelude.{
  ℕ, ◌+◌, ◌≡◌, refl, Bool, true, false, Option, none, some, List, [], ◌∷◌, ◌++◌,
}
use pg_jitter.Prelude.Int.{pos, ◌-ℤ◌}
use pg_jitter.Machine.{done}
use pg_jitter.CaseSearch.Defs.{Datum}
use pg_jitter.CaseDetect.Steps.{
  ExprEvalStep, var, funcexpr_strict, jump_if_not_true, jump, const, other_step, scan_var,
  NullableDatum, a_value, a_null, Context, CmpFn, comparison, other_fn, type_int4, CmpKind, cmp_eq,
  get_int32,
}
use pg_jitter.CaseDetect.Classify.{
  class_of, case_bs_i32, classify_cmp_fn, build_cmp_class_table, classify_in,
}
use pg_jitter.CaseDetect.Branches.{five_steps, first_branch, following, jumps_next, else_value}
use pg_jitter.CaseDetect.Build.{Platform, build_desc, cmp_func, monotonic, cmp_result}
use pg_jitter.CaseDetect.Detect.{
  CaseBSearchInfo, detect_at, check_pattern, build_pattern, detect_single,
}
use pg_jitter.CaseDetect.Runs.{loaded}
use pg_jitter.CaseDetect.Helpers.{class_test}
use pg_jitter.CaseDetect.Meaning.{Compares}
use pg_jitter.CaseDetect.Replaced.{Answers, detected_case}
use pg_jitter.Examples.Sorting.{sort_pairs, sort_pairs-IsQsort}

abbrev pub compare_int4 : CmpFn → ℕ → Datum → Datum → Bool
compare_int4 (comparison t k) collation a b =
    class_test (class_of k case_bs_i32) (get_int32 a) (get_int32 b)
compare_int4 (other_fn n) collation a b = false

abbrev pub two_arguments : CmpFn → Option ℕ
two_arguments (comparison t k) = some 2
two_arguments (other_fn n) = none

abbrev pub platform : Platform
platform = record {
  find_direct_fn = two_arguments;
  call = compare_int4;
  qsort = sort_pairs;
  isnan4 = λ d. false;
  isnan8 = λ d. false;
  greater4 = λ a b. false;
  greater8 = λ a b. false;
  text_bytes = λ d. [];
  memcmp = λ a b. pos 0;
  collation_is_deterministic = λ c. true;
  collation_is_c = λ c. false;
}

-- The steps of one branch, at step `i` of a CASE that ends at step 21.
abbrev branch_steps : ℕ → CmpKind → Datum → Datum → List ExprEvalStep
branch_steps i k t r =
    var scan_var 0
    ∷ funcexpr_strict
        (record { fn_addr = comparison type_int4 k; fncollation = 0; arg1 = a_value t })
    ∷ jump_if_not_true (i + 5)
    ∷ const (a_value r)
    ∷ jump 21
    ∷ []

-- CASE x WHEN 30 THEN 300 WHEN 10 THEN 100 WHEN 40 THEN 400 WHEN 20 THEN 200 ELSE 999 END
abbrev steps : List ExprEvalStep
steps =
    branch_steps 0 cmp_eq 30 300
    ++ branch_steps 5 cmp_eq 10 100
    ++ branch_steps 10 cmp_eq 40 400
    ++ branch_steps 15 cmp_eq 20 200
    ++ (const (a_value 999) ∷ other_step 0 ∷ [])

abbrev env : NullableDatum → Context
env x = record { load = λ op attnum. x; testval = a_null; call = compare_int4 }

abbrev info : CaseBSearchInfo
info = record {
  start_opno = 0;
  end_opno = 20;
  else_end_opno = 21;
  num_branches = 4;
  class = class_of cmp_eq case_bs_i32;
  is_range = false;
  range_stride = 5;
  cmp_fn = comparison type_int4 cmp_eq;
  desc = record {
    n = 4;
    thresholds = pos 10 ∷ pos 20 ∷ pos 30 ∷ pos 40 ∷ [];
    results = 100 ∷ 200 ∷ 300 ∷ 400 ∷ [];
    default_val = 999;
    range_min = pos 0;
    has_range_min = false;
  };
  default_result = 999;
  default_is_null = false;
  var_opno = 0;
  var_type = 0;
}

detected : detect_single platform steps 40 0 16 ≡ done (info ∷ [])
unfolding detect_single detect_at check_pattern build_pattern first_branch five_steps following
    jumps_next else_value monotonic cmp_result build_desc cmp_func classify_cmp_fn
    build_cmp_class_table classify_in sort_pairs ◌-ℤ◌
detected = refl

compares : Compares (env (a_value 20)) info.cmp_fn info.class
compares collation a b = refl

detected_case_example :
    Answers (env (a_value 20)) steps info a_null (loaded (env (a_value 20)) (var scan_var 0))
detected_case_example =
    detected_case platform (env (a_value 20)) steps 40 0 16 0 (info ∷ []) info (var scan_var 0)
      a_null sort_pairs-IsQsort detected refl refl compares refl
