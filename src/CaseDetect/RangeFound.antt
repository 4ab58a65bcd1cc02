-- ===== src/CaseDetect/RangeFound.antt =====
-- The patterns that a round of the second pass records.
use mathlib.Core.Path.{subst}
use pg_jitter.Prelude.{
  ℕ, ◌+◌, ◌-◌, ◌≡◌, ◌&&◌, some, List, ◌∷◌, inl, inr, get_elem?, length, drop, arith, ltb,
  Bool-cases, Option-cases,
}
use pg_jitter.CaseSearch.Defs.{Datum}
use pg_jitter.CaseDetect.Steps.{ExprEvalStep}
use pg_jitter.CaseDetect.Branches.{◌>>=◌, non_null_const}
use pg_jitter.CaseDetect.Detect.{CaseBSearchInfo, found}
use pg_jitter.CaseDetect.Ranges.{
  RangeWhen, RangeClass, RangeBranch, branch_of, range_when_len, max_range_branches, first_when,
  first_jump, collect,
}
use pg_jitter.CaseDetect.RangeBuild.{
  contiguous, all_representable, then_values, range_info, check_range, detect_range_at,
}
use pg_jitter.CaseDetect.RangeMeaning.{IsProper}
use pg_jitter.CaseDetect.RangeReplaced.{FindsRange, range_desc-FindsRange}

check_range-FindsRange :
    (steps : List ExprEvalStep) (i j e : ℕ) (w : RangeWhen) (class : RangeClass)
    (bs : List RangeBranch) (v : Datum) (info : CaseBSearchInfo)
    → IsProper class bs
    → check_range steps i j e w class bs ≡ found info
    → FindsRange steps class bs j v info
unfolding check_range
check_range-FindsRange steps i j e w class bs v info proper h =
    elim (Bool-cases (ltb (length bs) 4)) [
      | inl few ↦ absurd (ground (arith, h, few))
      | inr many ↦ elim (Bool-cases (contiguous class bs && all_representable class bs)) [
        | inr fails ↦ absurd (ground (arith, h, many, fails))
        | inl passes ↦ elim (Option-cases (get_elem? steps j >>= non_null_const)) [
          | inl e1 ↦ absurd (ground (arith, h, many, passes, e1))
          | inr (d, e1) ↦ elim (Option-cases (then_values steps bs)) [
            | inl e2 ↦ absurd (ground (arith, h, many, passes, e1, e2))
            | inr (rs, e2) ↦
                let same : range_info i j e w class bs rs d ≡ info =
                  ground (arith, h, many, passes, e1, e2) in
                subst (FindsRange steps class bs j v) same (
                  range_desc-FindsRange steps i j e w class bs rs d v (ground (arith, many))
                    (ground (arith, passes)) (ground (arith, passes)) proper e2 e1)
          ]
        ]
      ]
    ]

-- The ranges that the second pass reads from step `i` on, and the step after them.
abbrev pub ranges_at : List ExprEvalStep → ℕ → RangeWhen → ℕ → ℕ → List RangeBranch × ℕ
ranges_at steps i w jump_pos end_jump_target =
    let more = collect steps w end_jump_target (max_range_branches - 1) (jump_pos + 1) in
    (branch_of w i ∷ more.0, more.1)

-- Where a round of the second pass at step `i` records a pattern, and each of the ranges that it has
-- read holds a value, the helper that is selected for the pattern gives, for each value of the variable,
-- the constant that the first range with the value begins its result with, or else the ELSE constant.
pub detected_range :
    (steps : List ExprEvalStep) (i jump_pos end_jump_target : ℕ) (w : RangeWhen)
    (class : RangeClass) (v : Datum) (info : CaseBSearchInfo)
    → first_when (drop i steps) ≡ some (w, class)
    → first_jump 20 (drop (i + range_when_len) steps) (i + range_when_len)
      ≡ some (jump_pos, end_jump_target)
    → detect_range_at steps i ≡ found info
    → IsProper class (ranges_at steps i w jump_pos end_jump_target).0
    → FindsRange steps class
        (ranges_at steps i w jump_pos end_jump_target).0
        (ranges_at steps i w jump_pos end_jump_target).1
        v
        info
unfolding detect_range_at
detected_range steps i jump_pos end_jump_target w class v info first jumps h proper =
    let rs = ranges_at steps i w jump_pos end_jump_target in
    check_range-FindsRange steps i rs.1 end_jump_target w class rs.0 v info proper
      (ground (arith, first, jumps, h))
