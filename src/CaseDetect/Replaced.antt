-- ===== src/CaseDetect/Replaced.antt =====
-- The patterns that the first pass gives, against the steps that they replace.
use mathlib.Core.Path.{subst}
use pg_jitter.Prelude.{
  ℕ, ◌+◌, ◌*◌, ◌≡◌, ◌∙◌, sym, refl, ap, true, false, some, List, get_elem?, length, arith,
  Bool-cases, inl, inr,
}
use pg_jitter.Machine.{done}
use pg_jitter.CaseDetect.Steps.{ExprEvalStep, NullableDatum, a_value, Context, at, Reaches}
use pg_jitter.CaseDetect.Build.{Platform}
use pg_jitter.CaseDetect.Detect.{CaseBSearchInfo, detect_single}
use pg_jitter.CaseDetect.Runs.{loaded, case_run_null}
use pg_jitter.CaseDetect.Recorded.{IsFound, detect_single-IsFound}
use pg_jitter.CaseDetect.Sorted.{IsQsort}
use pg_jitter.CaseDetect.Helpers.{is_integer}
use pg_jitter.CaseDetect.Meaning.{Compares, Replaces, found-Replaces}

-- What the code for the pattern does on a variable: of a null it gives the default result, of a value
-- the result of the selected helper. The steps give the same.
pub Answers : Context → List ExprEvalStep → CaseBSearchInfo → NullableDatum → NullableDatum → Type 0
Answers env steps info r x = elim x.isnull [
  | true ↦
      Reaches env steps (at info.start_opno r) (at info.else_end_opno (a_value info.default_result))
  | false ↦ Replaces env steps x.value r info
]

Answers_null :
    (env : Context) (steps : List ExprEvalStep) (info : CaseBSearchInfo) (r x : NullableDatum)
    → x.isnull ≡ true
    → Reaches env steps (at info.start_opno r) (at info.else_end_opno (a_value info.default_result))
    → Answers env steps info r x
unfolding Answers
Answers_null env steps info r x h run = rw h run

Answers_value :
    (env : Context) (steps : List ExprEvalStep) (info : CaseBSearchInfo) (r x : NullableDatum)
    → x.isnull ≡ false
    → Replaces env steps x.value r info
    → Answers env steps info r x
unfolding Answers
Answers_value env steps info r x h run = rw h run

module _ (p : Platform) (env : Context) (steps : List ExprEvalStep) (sorts : IsQsort p.qsort)
    (i : ℕ) (info : CaseBSearchInfo) (it : IsFound p steps i info) where
  found-Answers :
      (r : NullableDatum)
      → is_integer info.class.bs_type ≡ true
      → Compares env info.cmp_fn info.class
      → Answers env steps info r (loaded env it.first.load)
  found-Answers r is compares = elim (Bool-cases (loaded env it.first.load).isnull) [
    | inl null ↦ Answers_null env steps info r (loaded env it.first.load) null (
        subst
          (λ x.
            Reaches env steps (at x.start_opno r) (at x.else_end_opno (a_value x.default_result)))
          it.is_info
          (case_run_null env steps it.first it.is_loaded it.d it.bs i (i + 5 * length it.bs) r null
            it.laid refl it.is_else))
    | inr given ↦ Answers_value env steps info r (loaded env it.first.load) given (
        found-Replaces p env steps sorts i info it (loaded env it.first.load).value r
          (ap (λ x. is_integer x.class.bs_type) it.is_info ∙ is)
          (subst (λ x. Compares env x.cmp_fn x.class) (sym it.is_info) compares)
          (ap (λ b. record { value = (loaded env it.first.load).value; isnull = b }) given))
  ]

-- For each pattern of an integer type that the first pass gives, with the variable that the step at its
-- start loads, the code answers as the steps do, whatever was in the result register: of a null with
-- the ELSE result, of a value with what the selected helper gives on the descriptor. PostgreSQL's
-- comparison function does what its class in the table says, and qsort sorts.
pub detected_case :
    (p : Platform) (env : Context) (steps : List ExprEvalStep) (rounds i room k : ℕ)
    (infos : List CaseBSearchInfo) (info : CaseBSearchInfo) (op : ExprEvalStep) (r : NullableDatum)
    → IsQsort p.qsort
    → detect_single p steps rounds i room ≡ done infos
    → get_elem? infos k ≡ some info
    → is_integer info.class.bs_type ≡ true
    → Compares env info.cmp_fn info.class
    → get_elem? steps info.var_opno ≡ some op
    → Answers env steps info r (loaded env op)
detected_case p env steps rounds i room k infos info op r sorts h at_k is compares at_op =
    let it = detect_single-IsFound p steps rounds i room infos k info h at_k in
    let same : it.first.load ≡ op =
      ground (arith, it.loads, at_op, ap (λ x. x.var_opno) it.is_info) in
    rw (← same) (found-Answers p env steps sorts info.start_opno info it r is compares)
