-- ===== src/CaseDetect/Found.antt =====
-- What holds of a pattern that the first pass records: its branches stand in the steps.
use pg_jitter.Prelude.{
  ℕ, zero, suc, ◌+◌, ◌≡◌, ◌∙◌, sym, refl, ap, true, ◌&&◌, ◌||◌, Option, some, List, [], ◌∷◌, inl,
  inr, get_elem?, drop, arith, ◌==◌, Bool-cases, Option-cases,
}
use pg_jitter.CaseDetect.Steps.{
  ExprEvalStep, var, case_testval, jump_if_not_true, jump, inner_var, outer_var, scan_var, CmpFn,
  comparison, other_fn,
}
use pg_jitter.CaseDetect.Classify.{CmpClass, classify_cmp_fn, same_fn}
use pg_jitter.CaseDetect.Branches.{
  Branch, five_steps, following, first_branch, goes_on, same_load, is_var_opcode, is_case_testval,
}
use pg_jitter.CaseDetect.Laid.{IsFive, five_steps-IsFive}
use pg_jitter.CaseDetect.Runs.{IsBranch, IsLaid, is_load}

-- `ops` are the steps from `i` on.
abbrev pub IsSuffix : List ExprEvalStep → ℕ → List ExprEvalStep → Type 0
IsSuffix steps i ops = (k m : ℕ) → i + k ≡ m → get_elem? steps m ≡ get_elem? ops k

pub drop-IsSuffix : (steps : List ExprEvalStep) (i : ℕ) → IsSuffix steps i (drop i steps)
drop-IsSuffix steps zero k m e = ap (get_elem? steps) (sym e ∙ omega arith)
drop-IsSuffix [] (suc i) k m e = refl
drop-IsSuffix (x ∷ xs) (suc i) k zero e = absurd (omega arith)
drop-IsSuffix (x ∷ xs) (suc i) k (suc m) e = drop-IsSuffix xs i k m (omega arith)

same_fn_refl : (f : CmpFn) → same_fn f f ≡ true
same_fn_refl (comparison t k) = ground arith
same_fn_refl (other_fn n) = ground arith

same_load_refl : (op : ExprEvalStep) → is_load op ≡ true → same_load op op ≡ true
same_load_refl (var inner_var n) h = ground arith
same_load_refl (var outer_var n) h = ground arith
same_load_refl (var scan_var n) h = ground arith
same_load_refl case_testval h = refl
same_load_refl _ h = absurd (ground (arith, h))

module _ (steps : List ExprEvalStep) (first : Branch) where
  -- Five steps that are taken for a branch that goes on with the CASE.
  five-IsBranch :
      (i : ℕ) (op0 op1 op2 op3 op4 : ExprEvalStep) (rest : List ExprEvalStep) (b : Branch)
      → IsSuffix steps i (op0 ∷ op1 ∷ op2 ∷ op3 ∷ op4 ∷ rest)
      → IsFive op0 op1 op2 op3 op4 b
      → same_load first.load b.load ≡ true
      → same_fn b.call.fn_addr first.call.fn_addr ≡ true
      → b.end_target ≡ first.end_target
      → b.next_target ≡ i + 5
      → IsBranch steps first i b
  five-IsBranch i op0 op1 op2 op3 op4 rest b suffix five loads calls ends nexts = record {
    at_load = suffix 0 i (omega arith) ∙ ap some five.at_load;
    at_call = suffix 1 (suc i) (omega arith) ∙ ap some five.at_call;
    at_test =
        suffix 2 (suc (suc i)) (omega arith) ∙ ap some (five.at_test ∙ ap jump_if_not_true nexts);
    at_result = suffix 3 (suc (suc (suc i))) (omega arith) ∙ ap some five.at_result;
    at_jump =
        suffix 4 (suc (suc (suc (suc i)))) (omega arith) ∙ ap some (five.at_jump ∙ ap jump ends);
    has_threshold = five.has_threshold;
    loads_same = loads;
    calls_same = calls;
  }

  rest-IsSuffix :
      (i : ℕ) (op0 op1 op2 op3 op4 : ExprEvalStep) (rest : List ExprEvalStep)
      → IsSuffix steps i (op0 ∷ op1 ∷ op2 ∷ op3 ∷ op4 ∷ rest)
      → IsSuffix steps (i + 5) rest
  rest-IsSuffix i op0 op1 op2 op3 op4 rest suffix k m e =
      suffix (suc (suc (suc (suc (suc k))))) m (omega arith)

  pub following-IsLaid :
      (ops : List ExprEvalStep) (i : ℕ)
      → IsSuffix steps i ops
      → IsLaid steps first i (following first ops i)
  unfolding following
  following-IsLaid (op0 ∷ op1 ∷ op2 ∷ op3 ∷ op4 ∷ rest) i suffix =
      elim (Option-cases (five_steps op0 op1 op2 op3 op4)) [
        | inl e ↦ rw (e, IsLaid, following) tt
        | inr (b, e) ↦ elim (Bool-cases (goes_on first i b)) [
          | inr stops ↦ rw (e, stops, IsLaid, following) tt
          | inl goes ↦
              rw (e, goes, IsLaid, following)
                (
                  five-IsBranch i op0 op1 op2 op3 op4 rest b suffix
                      (five_steps-IsFive op0 op1 op2 op3 op4 b e) (ground (arith, goes))
                      (ground (arith, goes)) (ground (arith, goes)) (ground (arith, goes)),
                  following-IsLaid rest (i + 5) (rest-IsSuffix i op0 op1 op2 op3 op4 rest suffix),
                )
        ]
      ]
  following-IsLaid _ i suffix = tt

-- The first branch, which the first pass reads from the steps from `i` on.
pub record IsFirst (steps : List ExprEvalStep) (i : ℕ) (first : Branch) (class : CmpClass)
    : Type 0 where
  pub is_loaded : is_load first.load ≡ true
  pub classified : classify_cmp_fn first.call.fn_addr ≡ some class
  pub laid : first.next_target ≡ i + 5 → IsBranch steps first i first

IsFirst-made :
    (steps : List ExprEvalStep) (i : ℕ) (op0 op1 op2 op3 op4 : ExprEvalStep)
    (rest : List ExprEvalStep) (b : Branch) (c : CmpClass)
    → IsSuffix steps i (op0 ∷ op1 ∷ op2 ∷ op3 ∷ op4 ∷ rest)
    → IsFive op0 op1 op2 op3 op4 b
    → is_load op0 ≡ true
    → classify_cmp_fn b.call.fn_addr ≡ some c
    → IsFirst steps i b c
IsFirst-made steps i op0 op1 op2 op3 op4 rest b c suffix five loads classified =
    let is : is_load b.load ≡ true = sym (ap is_load five.at_load) ∙ loads in
    record {
      is_loaded = is;
      classified = classified;
      laid =
          five-IsBranch steps b i op0 op1 op2 op3 op4 rest b suffix five (same_load_refl b.load is)
            (same_fn_refl b.call.fn_addr) refl;
    }

pub first_branch-IsFirst :
    (find : CmpFn → Option ℕ) (steps ops : List ExprEvalStep) (i : ℕ) (first : Branch)
    (class : CmpClass)
    → IsSuffix steps i ops
    → first_branch find ops ≡ some (first, class)
    → IsFirst steps i first class
unfolding first_branch
first_branch-IsFirst find steps (op0 ∷ op1 ∷ op2 ∷ op3 ∷ op4 ∷ rest) i first class suffix h =
    elim (Option-cases (five_steps op0 op1 op2 op3 op4)) [
      | inl e ↦ absurd (ground (arith, h, e))
      | inr (b, e) ↦ elim (Option-cases (find b.call.fn_addr)) [
        | inl e' ↦ absurd (ground (arith, h, e, e'))
        | inr (nargs, e') ↦ elim (Option-cases (classify_cmp_fn b.call.fn_addr)) [
          | inl e'' ↦ absurd (ground (arith, h, e, e', e''))
          | inr (c, e'') ↦
              elim (Bool-cases ((is_var_opcode op0 || is_case_testval op0) && nargs == 2)) [
                | inr fails ↦ absurd (ground (arith, h, e, e', e'', fails))
                | inl passes ↦
                    let same : ◌≡◌ {A = Branch × CmpClass} (b, c) (first, class) =
                      ground (arith, h, e, e', e'', passes) in
                    rw (← ap (λ x. x.0) same, ← ap (λ x. x.1) same)
                      (IsFirst-made steps i op0 op1 op2 op3 op4 rest b c suffix
                        (five_steps-IsFive op0 op1 op2 op3 op4 b e) (ground (arith, passes)) e'')
              ]
        ]
      ]
    ]
first_branch-IsFirst find steps _ i first class suffix h = absurd (ground (arith, h))
