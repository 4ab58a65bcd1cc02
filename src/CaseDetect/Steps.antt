-- ===== src/CaseDetect/Steps.antt =====
-- The steps of an expression as the detection reads them, and the meaning that PostgreSQL's
-- interpreter gives them. The places that the steps write to, which the detection does not read, are
-- one result register here, as in the code that PostgreSQL compiles a CASE to: a load and the call
-- after it, the call and the jump that tests it.
use pg_jitter.Prelude.{
  ℕ, suc, ◌≡◌, Bool, true, false, not, ◌||◌, Option, none, some, List, get_elem?, if◌then◌else◌,
}
pub use pg_jitter.ScalarArray.Defs.{NullableDatum, get_bool, bool_datum, get_int32, get_int64}
use pg_jitter.CaseSearch.Defs.{Datum}

-- The types whose comparison functions the detection knows.
pub data ComparedType : Type 0 where
  type_int4 type_int8 type_int2 type_date type_oid type_timestamp : ComparedType
  type_float4 type_float8 type_bool type_text type_numeric type_uuid : ComparedType
  type_interval type_bpchar type_bytea type_jsonb type_network type_array : ComparedType

pub data CmpKind : Type 0 where
  cmp_eq cmp_lt cmp_le cmp_gt cmp_ge : CmpKind

-- The address of a function: one of PostgreSQL's comparisons, as int4lt, or any other.
pub data CmpFn : Type 0 where
  comparison : ComparedType → CmpKind → CmpFn
  other_fn : ℕ → CmpFn

-- What the step of a call holds: the function, its collation, and the second argument.
pub record FuncCall : Type 0 where
  pub fn_addr : CmpFn
  pub fncollation : ℕ
  pub arg1 : NullableDatum

pub data VarOp : Type 0 where
  inner_var outer_var scan_var : VarOp

-- The steps of an AND: EEOP_QUAL, and the first, the inner and the last step of a Boolean expression.
pub data AndOp : Type 0 where
  qual bool_and_step_first bool_and_step bool_and_step_last : AndOp

-- `jump_if_not_true` and `jump` hold `d.jump.jumpdone`. `funcexpr_strict` is also its variants _1 and
-- _2.
pub data ExprEvalStep : Type 0 where
  var : VarOp → ℕ → ExprEvalStep
  case_testval : ExprEvalStep
  funcexpr_strict : FuncCall → ExprEvalStep
  jump_if_not_true : ℕ → ExprEvalStep
  jump : ℕ → ExprEvalStep
  const : NullableDatum → ExprEvalStep
  and_step : AndOp → ℕ → ExprEvalStep
  other_step : ℕ → ExprEvalStep

abbrev pub a_value : Datum → NullableDatum
a_value d = record { value = d; isnull = false }

abbrev pub a_null : NullableDatum
a_null = record { value = 0; isnull = true }

-- What a run of the steps takes from outside: the variables, the value of the CASE, and the functions.
pub record Context : Type 0 where
  pub load : VarOp → ℕ → NullableDatum
  pub testval : NullableDatum
  pub call : CmpFn → ℕ → Datum → Datum → Bool

-- The next step and the result register.
pub record Machine : Type 0 where
  pub pc : ℕ
  pub result : NullableDatum

abbrev pub at : ℕ → NullableDatum → Machine
at i r = record { pc = i; result = r }

-- A strict function is not called with a null.
abbrev pub strict_call : Context → FuncCall → NullableDatum → NullableDatum
strict_call env f r =
    if r.isnull || f.arg1.isnull
    then a_null
    else a_value (bool_datum (env.call f.fn_addr f.fncollation r.value f.arg1.value))

-- One step at `pc`, by PostgreSQL's interpreter; the steps of an AND, and all others, are not run.
unfoldable pub exec_step : Context → ExprEvalStep → Machine → Option Machine
exec_step env (var op a) m = some (at (suc m.pc) (env.load op a))
exec_step env case_testval m = some (at (suc m.pc) env.testval)
exec_step env (funcexpr_strict f) m = some (at (suc m.pc) (strict_call env f m.result))
exec_step env (jump_if_not_true t) m =
    some (at (if m.result.isnull || not (get_bool m.result.value) then t else suc m.pc) m.result)
exec_step env (jump t) m = some (at t m.result)
exec_step env (const c) m = some (at (suc m.pc) c)
exec_step env (and_step op t) m = none
exec_step env (other_step n) m = none

-- A run of the steps from one state of the machine to another.
pub data Reaches (env : Context) (steps : List ExprEvalStep) : Machine → Machine → Type 0 where
  here : {m : Machine} → Reaches env steps m m
  one_step :
      {m m' m'' : Machine} (s : ExprEvalStep)
      → get_elem? steps m.pc ≡ some s
      → exec_step env s m ≡ some m'
      → Reaches env steps m' m''
      → Reaches env steps m m''
