-- ===== src/CaseDetect/Laid.antt =====
-- What the first pass has read when it accepts a branch or an ELSE part.
use mathlib.Core.Path.{ap₂}
use pg_jitter.Prelude.{
  ℕ, suc, ◌+◌, ◌≡◌, ◌∙◌, sym, ap, true, false, ◌||◌, some, List, ◌⊎◌, inl, inr, get_elem?, arith,
  ◌==◌, Bool-cases, Option-cases,
}
use pg_jitter.CaseSearch.Defs.{Datum}
use pg_jitter.CaseDetect.Steps.{
  ExprEvalStep, funcexpr_strict, jump_if_not_true, jump, const, FuncCall, a_value, NullableDatum,
}
use pg_jitter.CaseDetect.Branches.{
  Branch, five_steps, jump_target, non_null_const, else_value, jumps_to,
}

-- The five steps that the first pass takes for the branch `b`.
pub record IsFive (op0 op1 op2 op3 op4 : ExprEvalStep) (b : Branch) : Type 0 where
  pub at_load : op0 ≡ b.load
  pub at_call : op1 ≡ funcexpr_strict b.call
  pub at_test : op2 ≡ jump_if_not_true b.next_target
  pub at_result : op3 ≡ const (a_value b.result)
  pub at_jump : op4 ≡ jump b.end_target
  pub has_threshold : b.call.arg1.isnull ≡ false

IsFive-made :
    (op0 : ExprEvalStep) (f : FuncCall) (t e : ℕ) (c : NullableDatum) (b : Branch)
    → f.arg1.isnull ≡ false
    → c.isnull ≡ false
    → record { load = op0; call = f; next_target = t; result = c.value; end_target = e } ≡ b
    → IsFive op0 (funcexpr_strict f) (jump_if_not_true t) (const c) (jump e) b
IsFive-made op0 f t e c b given valued made = record {
  at_load = ap (λ x. x.load) made;
  at_call = ap (λ x. funcexpr_strict x.call) made;
  at_test = ap (λ x. jump_if_not_true x.next_target) made;
  at_result =
      ap (λ n. const (record { value = c.value; isnull = n })) valued
      ∙ ap (λ x. const (a_value x.result)) made;
  at_jump = ap (λ x. jump x.end_target) made;
  has_threshold = sym (ap (λ x. x.call.arg1.isnull) made) ∙ given;
}

pub five_steps-IsFive :
    (op0 op1 op2 op3 op4 : ExprEvalStep) (b : Branch)
    → five_steps op0 op1 op2 op3 op4 ≡ some b
    → IsFive op0 op1 op2 op3 op4 b
unfolding five_steps
five_steps-IsFive op0 (funcexpr_strict f) (jump_if_not_true t) (const c) (jump e) b h =
    elim (Bool-cases f.arg1.isnull) [
      | inl isnull ↦ absurd (ground (arith, h, isnull))
      | inr given ↦ elim (Bool-cases c.isnull) [
        | inl isnull ↦ absurd (ground (arith, h, isnull))
        | inr valued ↦ IsFive-made op0 f t e c b given valued (ground (arith, h, given, valued))
      ]
    ]
five_steps-IsFive _ _ _ _ _ b h = absurd (ground (arith, h))

-- The ELSE part that the first pass accepts.
pub record IsElse (steps : List ExprEvalStep) (j end_target : ℕ) (d : Datum) : Type 0 where
  pub at_else : get_elem? steps j ≡ some (const (a_value d))
  pub at_end : (suc j ≡ end_target) ⊎ (get_elem? steps (suc j) ≡ some (jump end_target))

pub jump_target-some : (op : ExprEvalStep) (t : ℕ) → jump_target op ≡ some t → op ≡ jump t
jump_target-some (jump t') t h = ground (arith, h)
jump_target-some _ t h = ground (arith, h)

non_null_const-some :
    (op : ExprEvalStep) (d : Datum) → non_null_const op ≡ some d → op ≡ const (a_value d)
non_null_const-some (const c) d h = elim (Bool-cases c.isnull) [
  | inl e ↦ absurd (ground (arith, h, e))
  | inr e ↦
      let same : c.value ≡ d = ground (arith, h, e) in
      ap const (ap₂ (λ v b. record { value = v; isnull = b }) same e)
]
non_null_const-some _ d h = ground (arith, h)

jumps_to-get :
    (steps : List ExprEvalStep) (i t : ℕ)
    → jumps_to steps i t ≡ true
    → get_elem? steps i ≡ some (jump t)
jumps_to-get steps i t h = elim (Option-cases (get_elem? steps i)) [
  | inl e ↦ absurd (ground (arith, h, e))
  | inr (op, e) ↦ elim (Option-cases (jump_target op)) [
    | inl e' ↦ absurd (ground (arith, h, e, e'))
    | inr (t', e') ↦
        let same : t' ≡ t = ground (arith, h, e, e') in
        e ∙ ap some (jump_target-some op t' e' ∙ ap jump same)
  ]
]

pub else_value-IsElse :
    (steps : List ExprEvalStep) (j end_target : ℕ) (d : Datum)
    → else_value steps j end_target ≡ some d
    → IsElse steps j end_target d
unfolding else_value
else_value-IsElse steps j end_target d h = elim (Option-cases (get_elem? steps j)) [
  | inl e ↦ absurd (ground (arith, h, e))
  | inr (op, e) ↦ elim (Option-cases (non_null_const op)) [
    | inl e' ↦ absurd (ground (arith, h, e, e'))
    | inr (d', e') ↦ elim (Bool-cases (j + 1 == end_target || jumps_to steps (j + 1) end_target)) [
      | inr fails ↦ absurd (ground (arith, h, e, e', fails))
      | inl ends ↦
          let same : d' ≡ d = ground (arith, h, e, e', ends) in
          record {
            at_else = e ∙ ap some (non_null_const-some op d' e' ∙ ap (λ x. const (a_value x)) same);
            at_end = elim (Bool-cases (j + 1 == end_target)) [
              | inl last ↦ inl (ground (arith, last))
              | inr more ↦ inr (jumps_to-get steps (suc j) end_target (ground (arith, ends, more)))
            ];
          }
    ]
  ]
]
