-- ===== src/CaseDetect/Ranges.antt =====
-- `pg_jitter_detect_case_bsearch`, second pass: the branches WHEN x >= low AND x < high, each with seven
-- steps before the steps of its result, which end in a jump.
use pg_jitter.Prelude.{
  ℕ, zero, suc, ◌+◌, Bool, true, false, not, ◌&&◌, ◌||◌, Option, none, some, List, [], ◌∷◌, drop,
  length, ltb, ◌==◌, if◌then◌else◌,
}
use pg_jitter.CaseSearch.Defs.{Datum}
use pg_jitter.CaseDetect.Steps.{
  ExprEvalStep, and_step, qual, bool_and_step_first, bool_and_step, bool_and_step_last, FuncCall,
  CmpFn,
}
use pg_jitter.CaseDetect.Classify.{CaseBSearchType, bs_no, classify_cmp_fn, same_fn}
use pg_jitter.CaseDetect.Branches.{
  ◌>>=◌, is_var_opcode, same_var, is_funcexpr_strict, jump_if_not_true_target, jump_target,
}

abbrev pub range_when_len : ℕ
range_when_len = 7

abbrev pub max_range_branches : ℕ
max_range_branches = 128

abbrev opens_and : ExprEvalStep → Bool
opens_and (and_step qual t) = true
opens_and (and_step bool_and_step_first t) = true
opens_and (and_step bool_and_step t) = true
opens_and _ = false

abbrev closes_and : ExprEvalStep → Bool
closes_and (and_step qual t) = true
closes_and (and_step bool_and_step_last t) = true
closes_and (and_step bool_and_step t) = true
closes_and _ = false

-- The WHEN part of a branch: its two loads and its two calls.
pub record RangeWhen : Type 0 where
  pub load : ExprEvalStep
  pub ge_call : FuncCall
  pub load2 : ExprEvalStep
  pub lt_call : FuncCall

-- The seven steps of a WHEN part.
unfoldable pub seven_steps : List ExprEvalStep → Option RangeWhen
seven_steps (op0 ∷ op1 ∷ op2 ∷ op3 ∷ op4 ∷ op5 ∷ op6 ∷ rest) = do
  ge ← is_funcexpr_strict op1
  lt ← is_funcexpr_strict op4
  target ← jump_if_not_true_target op6
  if is_var_opcode op0 && opens_and op2 && is_var_opcode op3 && closes_and op5
      then some (record { load = op0; ge_call = ge; load2 = op3; lt_call = lt })
      else none
seven_steps _ = none

-- What the first branch decides: the functions, whether the upper ends are inclusive, and the type.
pub record RangeClass : Type 0 where
  pub upper_inclusive : Bool
  pub bs_type : CaseBSearchType

-- The functions must be a `>=` and a `<` or `<=` of one type.
unfoldable pub range_class : CmpFn → CmpFn → Option RangeClass
range_class ge_fn lt_fn = do
  ge ← classify_cmp_fn ge_fn
  lt ← classify_cmp_fn lt_fn
  if ge.is_equality || ge.is_less || not ge.is_inclusive || lt.is_equality || not lt.is_less
      then none
      else (if bs_no ge.bs_type == bs_no lt.bs_type
          then some (record { upper_inclusive = lt.is_inclusive; bs_type = lt.bs_type })
          else none)

abbrev has_bounds : RangeWhen → Bool
has_bounds w = not w.ge_call.arg1.isnull && not w.lt_call.arg1.isnull

unfoldable pub first_when : List ExprEvalStep → Option (RangeWhen × RangeClass)
first_when ops = do
  w ← seven_steps ops
  class ← range_class w.ge_call.fn_addr w.lt_call.fn_addr
  if same_var w.load w.load2 && has_bounds w then some (w, class) else none

-- The first jump among the next steps, `count` at most, from step `s` on.
unfoldable pub first_jump : ℕ → List ExprEvalStep → ℕ → Option (ℕ × ℕ)
first_jump (suc count) (op ∷ ops) s =
    let rest = first_jump count ops (s + 1) in
    elim (jump_target op) [ none ↦ rest | some t ↦ some (s, t) ]
first_jump _ _ s = none

-- The first jump to `target`.
unfoldable pub jump_to_end : ℕ → ℕ → List ExprEvalStep → ℕ → Option ℕ
jump_to_end target (suc count) (op ∷ ops) s =
    let rest = jump_to_end target count ops (s + 1) in
    elim (jump_target op) [ none ↦ rest | some t ↦ if t == target then some s else rest ]
jump_to_end target _ _ s = none

-- A branch: its bounds, and the first step of its result.
pub record RangeBranch : Type 0 where
  pub low : Datum
  pub high : Datum
  pub then_step : ℕ

abbrev pub branch_of : RangeWhen → ℕ → RangeBranch
branch_of w i = record {
  low = w.ge_call.arg1.value;
  high = w.lt_call.arg1.value;
  then_step = i + range_when_len;
}

-- The WHEN part of a later branch is on the same variable, by the same functions.
abbrev pub same_when : RangeWhen → RangeWhen → Bool
same_when first w =
    same_var first.load w.load
    && same_var first.load w.load2
    && same_fn w.ge_call.fn_addr first.ge_call.fn_addr
    && same_fn w.lt_call.fn_addr first.lt_call.fn_addr
    && has_bounds w

-- The branch at step `j`, and the step after its jump.
unfoldable pub branch_at : List ExprEvalStep → RangeWhen → ℕ → ℕ → Option (RangeBranch × ℕ)
branch_at steps first end_jump_target j = do
  w ← seven_steps (drop j steps)
  b_jump ← jump_to_end end_jump_target 20 (drop (j + range_when_len) steps) (j + range_when_len)
  if same_when first w then some (branch_of w j, b_jump + 1) else none

-- The branches from step `j` on, `room` at most, and the step after them.
unfoldable pub collect : List ExprEvalStep → RangeWhen → ℕ → ℕ → ℕ → List RangeBranch × ℕ
collect steps first end_jump_target zero j = ([], j)
collect steps first end_jump_target (suc room) j =
    if ltb (j + range_when_len) (length steps)
    then elim (branch_at steps first end_jump_target j) [
      | none ↦ ([], j)
      | some (b, j') ↦
          let rest = collect steps first end_jump_target room j' in (b ∷ rest.0, rest.1)
    ]
    else ([], j)
