-- ===== src/CaseDetect/Runs.antt =====
-- What PostgreSQL's interpreter does on the steps of an accepted CASE: it gives the result of the first
-- branch whose comparison holds, or the ELSE result.
use pg_jitter.Prelude.{
  ℕ, suc, ◌+◌, ◌*◌, ◌≡◌, refl, ap, Bool, true, false, ◌||◌, some, List, [], ◌∷◌, inl, inr,
  get_elem?, length, arith, if◌then◌else◌, Bool-cases,
}
use pg_jitter.CaseSearch.Defs.{Datum}
use pg_jitter.CaseDetect.Steps.{
  ExprEvalStep, var, case_testval, funcexpr_strict, jump_if_not_true, jump, const, inner_var,
  outer_var, scan_var, a_value, a_null, NullableDatum, Context, Machine, at, exec_step, strict_call,
  Reaches, here, one_step,
}
use pg_jitter.CaseDetect.Classify.{same_fn}
use pg_jitter.CaseDetect.Branches.{Branch, same_load, is_var_opcode, is_case_testval}
use pg_jitter.CaseDetect.Laid.{IsElse}

-- The value that a load gives.
abbrev pub loaded : Context → ExprEvalStep → NullableDatum
loaded env (var op attnum) = env.load op attnum
loaded env case_testval = env.testval
loaded env _ = a_null

abbrev pub is_load : ExprEvalStep → Bool
is_load op = is_var_opcode op || is_case_testval op

-- The five steps from `i` on are the branch `b` of the CASE that `first` begins.
pub record IsBranch (steps : List ExprEvalStep) (first : Branch) (i : ℕ) (b : Branch) : Type 0 where
  pub at_load : get_elem? steps i ≡ some b.load
  pub at_call : get_elem? steps (suc i) ≡ some (funcexpr_strict b.call)
  pub at_test : get_elem? steps (suc (suc i)) ≡ some (jump_if_not_true (i + 5))
  pub at_result : get_elem? steps (suc (suc (suc i))) ≡ some (const (a_value b.result))
  pub at_jump : get_elem? steps (suc (suc (suc (suc i)))) ≡ some (jump first.end_target)
  pub has_threshold : b.call.arg1.isnull ≡ false
  pub loads_same : same_load first.load b.load ≡ true
  pub calls_same : same_fn b.call.fn_addr first.call.fn_addr ≡ true

-- The branches from step `i` on.
abbrev pub IsLaid : List ExprEvalStep → Branch → ℕ → List Branch → Type 0
IsLaid steps first i [] = Unit
IsLaid steps first i (b ∷ bs) = IsBranch steps first i b × IsLaid steps first (i + 5) bs

load_step :
    (env : Context) (first b : ExprEvalStep) (i : ℕ) (r : NullableDatum)
    → is_load first ≡ true
    → same_load first b ≡ true
    → exec_step env b (at i r) ≡ some (at (suc i) (loaded env first))
unfolding exec_step
load_step env (var inner_var n) (var inner_var m) i r l h = ground (arith, h)
load_step env (var outer_var n) (var outer_var m) i r l h = ground (arith, h)
load_step env (var scan_var n) (var scan_var m) i r l h = ground (arith, h)
load_step env case_testval case_testval i r l h = refl
load_step env _ _ i r l h = absurd (ground (arith, l, h))

-- The comparison of a branch on the value `v`.
abbrev pub holds : Context → Datum → Branch → Bool
holds env v b = env.call b.call.fn_addr b.call.fncollation v b.call.arg1.value

-- CASE WHEN v OP t₀ THEN r₀ WHEN v OP t₁ THEN r₁ … ELSE d END
unfoldable pub when_chain : (Branch → Bool) → List Branch → Datum → Datum
when_chain test [] d = d
when_chain test (b ∷ bs) d = if test b then b.result else when_chain test bs d

module _ (env : Context) (steps : List ExprEvalStep) (first : Branch)
    (is : is_load first.load ≡ true) where
  module _ (i : ℕ) (b : Branch) (r : NullableDatum) (laid : IsBranch steps first i b) where
    -- The load and the call.
    to_test :
        (s : NullableDatum) {m : Machine}
        → strict_call env b.call (loaded env first.load) ≡ s
        → Reaches env steps (at (suc (suc i)) s) m
        → Reaches env steps (at i r) m
    unfolding exec_step
    to_test s e rest =
        one_step b.load laid.at_load (load_step env first.load b.load i r is laid.loads_same) (
          one_step (funcexpr_strict b.call) laid.at_call (ap (λ x. some (at (suc (suc i)) x)) e)
            rest)

    pub branch_taken :
        (v : Datum)
        → loaded env first.load ≡ a_value v
        → holds env v b ≡ true
        → Reaches env steps (at i r) (at first.end_target (a_value b.result))
    unfolding exec_step
    branch_taken v ev h = to_test (a_value 1) (rw ev (ground (arith, laid.has_threshold, h))) (
        one_step (jump_if_not_true (i + 5)) laid.at_test refl (
          one_step (const (a_value b.result)) laid.at_result refl
            (one_step (jump first.end_target) laid.at_jump refl here)))

    pub branch_passed :
        (v : Datum) {m : Machine}
        → loaded env first.load ≡ a_value v
        → holds env v b ≡ false
        → Reaches env steps (at (i + 5) (a_value 0)) m
        → Reaches env steps (at i r) m
    unfolding exec_step
    branch_passed v ev h rest =
        to_test (a_value 0) (rw ev (ground (arith, laid.has_threshold, h)))
          (one_step (jump_if_not_true (i + 5)) laid.at_test refl rest)

    pub branch_null :
        {m : Machine}
        → (loaded env first.load).isnull ≡ true
        → Reaches env steps (at (i + 5) a_null) m
        → Reaches env steps (at i r) m
    unfolding exec_step
    branch_null h rest =
        to_test a_null (rw h) (one_step (jump_if_not_true (i + 5)) laid.at_test refl rest)

  else_run :
      (j : ℕ) (d : Datum) (r : NullableDatum)
      → IsElse steps j first.end_target d
      → Reaches env steps (at j r) (at first.end_target (a_value d))
  unfolding exec_step
  else_run j d r is_else = one_step (const (a_value d)) is_else.at_else refl (elim is_else.at_end [
    | inl e ↦ rw e here
    | inr e ↦ one_step (jump first.end_target) e refl here
  ])

  i_is : {i j : ℕ} → i + 5 * 0 ≡ j → i ≡ j
  i_is e = omega arith

  pub case_run :
      (v d : Datum) (bs : List Branch) (i j : ℕ) (r : NullableDatum)
      → loaded env first.load ≡ a_value v
      → IsLaid steps first i bs
      → i + 5 * length bs ≡ j
      → IsElse steps j first.end_target d
      → Reaches env steps (at i r) (at first.end_target (a_value (when_chain (holds env v) bs d)))
  unfolding when_chain
  case_run v d [] i j r ev laid e is_else = rw (i_is e) (else_run j d r is_else)
  case_run v d (b ∷ bs) i j r ev laid e is_else = elim (Bool-cases (holds env v b)) [
    | inl does ↦ rw does (branch_taken i b r laid.0 v ev does)
    | inr fails ↦ rw fails (
        branch_passed i b r laid.0 v ev fails
          (case_run v d bs (i + 5) j (a_value 0) ev laid.1 (omega arith) is_else))
  ]

  pub case_run_null :
      (d : Datum) (bs : List Branch) (i j : ℕ) (r : NullableDatum)
      → (loaded env first.load).isnull ≡ true
      → IsLaid steps first i bs
      → i + 5 * length bs ≡ j
      → IsElse steps j first.end_target d
      → Reaches env steps (at i r) (at first.end_target (a_value d))
  case_run_null d [] i j r null laid e is_else = rw (i_is e) (else_run j d r is_else)
  case_run_null d (b ∷ bs) i j r null laid e is_else =
      branch_null i b r laid.0 null
        (case_run_null d bs (i + 5) j a_null null laid.1 (omega arith) is_else)
