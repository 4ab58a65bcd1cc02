-- ===== src/CaseDetect/Branches.antt =====
-- `pg_jitter_detect_case_bsearch`: the branches of a CASE with one comparison each, of five steps a
-- branch, as its first pass reads them. Where the code reads `steps[i + k]`, the functions here take
-- the steps from `i` on.
use pg_jitter.Prelude.{
  ℕ, ◌+◌, Bool, true, false, ◌&&◌, ◌||◌, Option, none, some, List, [], ◌∷◌, get_elem?, ◌==◌,
  if◌then◌else◌,
}
use pg_jitter.CaseSearch.Defs.{Datum}
use pg_jitter.CaseDetect.Steps.{
  ExprEvalStep, var, case_testval, funcexpr_strict, jump_if_not_true, jump, const, VarOp, inner_var,
  outer_var, scan_var, FuncCall, CmpFn,
}
use pg_jitter.CaseDetect.Classify.{CmpClass, classify_cmp_fn, same_fn}

infixl 5 ◌>>=◌
abbrev pub ◌>>=◌ {ℓ κ} : {A : Type ℓ} {B : Type κ} → Option A → (A → Option B) → Option B
none >>= f = none
some a >>= f = f a

abbrev pub is_var_opcode : ExprEvalStep → Bool
is_var_opcode (var op attnum) = true
is_var_opcode _ = false

abbrev same_opcode : VarOp → VarOp → Bool
same_opcode inner_var inner_var = true
same_opcode outer_var outer_var = true
same_opcode scan_var scan_var = true
same_opcode _ _ = false

abbrev pub same_var : ExprEvalStep → ExprEvalStep → Bool
same_var (var op attnum) (var op' attnum') = same_opcode op op' && attnum == attnum'
same_var _ _ = false

abbrev pub is_case_testval : ExprEvalStep → Bool
is_case_testval case_testval = true
is_case_testval _ = false

-- What the steps of a branch hold, where they have these opcodes.
abbrev pub is_funcexpr_strict : ExprEvalStep → Option FuncCall
is_funcexpr_strict (funcexpr_strict f) = some f
is_funcexpr_strict _ = none

abbrev pub jump_if_not_true_target : ExprEvalStep → Option ℕ
jump_if_not_true_target (jump_if_not_true t) = some t
jump_if_not_true_target _ = none

abbrev pub jump_target : ExprEvalStep → Option ℕ
jump_target (jump t) = some t
jump_target _ = none

abbrev pub non_null_const : ExprEvalStep → Option Datum
non_null_const (const c) = if c.isnull then none else some c.value
non_null_const _ = none

-- A branch: its load, its call, the targets of its two jumps, and its result.
pub record Branch : Type 0 where
  pub load : ExprEvalStep
  pub call : FuncCall
  pub next_target : ℕ
  pub result : Datum
  pub end_target : ℕ

-- [+0] a load, [+1] FUNCEXPR_STRICT with a threshold, [+2] JUMP_IF_NOT_TRUE, [+3] CONST, [+4] JUMP.
unfoldable pub five_steps :
    ExprEvalStep → ExprEvalStep → ExprEvalStep → ExprEvalStep → ExprEvalStep → Option Branch
five_steps op0 op1 op2 op3 op4 = do
  f ← is_funcexpr_strict op1
  next ← jump_if_not_true_target op2
  result ← non_null_const op3
  done ← jump_target op4
  if f.arg1.isnull
      then none
      else some
          (record { load = op0; call = f; next_target = next; result = result; end_target = done })

-- The first branch: `find_direct_fn` gives the number of arguments of a function with a direct version.
unfoldable pub first_branch : (CmpFn → Option ℕ) → List ExprEvalStep → Option (Branch × CmpClass)
unfolding five_steps
first_branch find_direct_fn (op0 ∷ op1 ∷ op2 ∷ op3 ∷ op4 ∷ rest) = do
  b ← five_steps op0 op1 op2 op3 op4
  nargs ← find_direct_fn b.call.fn_addr
  class ← classify_cmp_fn b.call.fn_addr
  if (is_var_opcode op0 || is_case_testval op0) && nargs == 2 then some (b, class) else none
first_branch find_direct_fn _ = none

-- The same kind of load as the first branch has.
abbrev pub same_load : ExprEvalStep → ExprEvalStep → Bool
same_load first op0 =
    if is_var_opcode first then is_var_opcode op0 && same_var first op0 else is_case_testval op0

-- Whether a branch at step `j` goes on with the CASE.
abbrev pub goes_on : Branch → ℕ → Branch → Bool
goes_on first j b =
    same_load first.load b.load
    && same_fn b.call.fn_addr first.call.fn_addr
    && b.end_target == first.end_target
    && b.next_target == j + 5

-- The branches after the first one, of which the steps from `j` on are read.
unfoldable pub following : Branch → List ExprEvalStep → ℕ → List Branch
following first (op0 ∷ op1 ∷ op2 ∷ op3 ∷ op4 ∷ rest) j =
    let more = following first rest (j + 5) in
    elim (five_steps op0 op1 op2 op3 op4) [
      | none ↦ []
      | some b ↦ if goes_on first j b then b ∷ more else []
    ]
following first _ j = []

-- Each JUMP_IF_NOT_TRUE points to the next branch, the last one's to the ELSE part.
unfoldable pub jumps_next : ℕ → List Branch → Bool
jumps_next i [] = true
jumps_next i (b ∷ bs) = b.next_target == i + 5 && jumps_next (i + 5) bs

-- steps[i] is an EEOP_JUMP to `target`.
abbrev pub jumps_to : List ExprEvalStep → ℕ → ℕ → Bool
jumps_to steps i target = elim (get_elem? steps i >>= jump_target) [
  | none ↦ false
  | some t ↦ t == target
]

-- The ELSE part at step `j`: a constant, then the end of the CASE or a jump to it.
unfoldable pub else_value : List ExprEvalStep → ℕ → ℕ → Option Datum
else_value steps j end_jump_target = do
  op ← get_elem? steps j
  d ← non_null_const op
  if j + 1 == end_jump_target || jumps_to steps (j + 1) end_jump_target then some d else none
