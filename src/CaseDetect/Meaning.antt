-- ===== src/CaseDetect/Meaning.antt =====
-- The code for a CASE that the first pass records, which calls the selected helper on the descriptor,
-- gives what PostgreSQL's interpreter gives on the steps.
use pg_jitter.Prelude.{ℕ, ◌+◌, ◌*◌, ◌≡◌, ◌∙◌, refl, ap, true, some, List, [], ◌∷◌, map, length}
use mathlib.Core.Path.{subst}
use pg_jitter.Machine.{done}
use pg_jitter.CaseSearch.Defs.{Datum}
use pg_jitter.CaseDetect.Steps.{ExprEvalStep, NullableDatum, a_value, Context, at, Reaches, CmpFn}
use pg_jitter.CaseDetect.Classify.{CmpClass}
use pg_jitter.CaseDetect.Addresses.{same_fn→≡}
use pg_jitter.CaseDetect.Branches.{Branch}
use pg_jitter.CaseDetect.Build.{Platform, pair_of}
use pg_jitter.CaseDetect.Detect.{CaseBSearchInfo}
use pg_jitter.CaseDetect.Runs.{IsLaid, when_chain, holds, loaded, case_run}
use pg_jitter.CaseDetect.Recorded.{IsFound}
use pg_jitter.CaseDetect.Select.{Helper, pg_jitter_select_bsearch_helper, helper_value}
use pg_jitter.CaseDetect.Sorted.{IsQsort, pair_chain}
use pg_jitter.CaseDetect.Helpers.{is_integer, number, class_test, serves}
use pg_jitter.CaseDetect.Kept.{pair_key}
use pg_jitter.CaseDetect.Ordered.{IsKept}
use pg_jitter.CaseDetect.Descriptor.{build_desc-IsKept}

-- The function does what its class in the table says, on the numbers of its type, in every collation.
abbrev pub Compares : Context → CmpFn → CmpClass → Type 0
Compares env fn class =
    (collation : ℕ) (a b : Datum)
    → env.call fn collation a b ≡ class_test class (number class.bs_type a) (number class.bs_type b)

-- The chain of tests of the branches is that of their pairs.
when_chain-pair_chain :
    (env : Context) (steps : List ExprEvalStep) (first : Branch) (class : CmpClass) (v d : Datum)
    (i : ℕ) (bs : List Branch)
    → Compares env first.call.fn_addr class
    → IsLaid steps first i bs
    → pair_chain
        (λ q. class_test class (number class.bs_type v) (pair_key class.bs_type q))
        (map (pair_of class.bs_type) bs)
        d
      ≡ when_chain (holds env v) bs d
unfolding when_chain pair_chain
when_chain-pair_chain env steps first class v d i [] compares laid = refl
when_chain-pair_chain env steps first class v d i (b ∷ bs) compares laid =
    let rest = when_chain-pair_chain env steps first class v d (i + 5) bs compares laid.1 in
    let test : holds env v b
        ≡ class_test class (number class.bs_type v)
            (pair_key class.bs_type (pair_of class.bs_type b)) =
      rw (same_fn→≡ b.call.fn_addr first.call.fn_addr laid.0.calls_same)
        (compares b.call.fncollation v b.call.arg1.value) in
    rw (test, rest) refl

kept :
    (p : Platform) (steps : List ExprEvalStep)
    → IsQsort p.qsort
    → (i : ℕ) (info : CaseBSearchInfo) (it : IsFound p steps i info)
    → is_integer it.class.bs_type ≡ true
    → IsKept it.class it.bs it.d it.desc
kept p steps sorts i info it is =
    build_desc-IsKept p sorts it.first.call it.class it.bs it.d is it.desc it.ordered it.built

-- The code for the pattern `info` on the value `v`, against the steps: the helper that is selected gives
-- a result, which is the result of the steps.
abbrev pub Replaces : Context → List ExprEvalStep → Datum → NullableDatum → CaseBSearchInfo → Type 0
Replaces env steps v r info =
    (h : Helper) × (w : Datum) × (pg_jitter_select_bsearch_helper info.class ≡ some h)
    × (h (helper_value info.class v) info.desc ≡ done w)
    × Reaches env steps (at info.start_opno r) (at info.else_end_opno (a_value w))

module _ (p : Platform) (env : Context) (steps : List ExprEvalStep) (sorts : IsQsort p.qsort)
    (i : ℕ) (info : CaseBSearchInfo) (it : IsFound p steps i info) where
  pub found-Replaces :
      (v : Datum) (r : NullableDatum)
      → is_integer it.class.bs_type ≡ true
      → Compares env it.first.call.fn_addr it.class
      → loaded env it.first.load ≡ a_value v
      → Replaces env steps v r info
  found-Replaces v r is compares ev =
      let k = kept p steps sorts i info it is in
      let (h, selected, gives) =
        serves v it.desc k.is_desc k.no_min it.class.bs_type it.class.is_equality it.class.is_less
          it.class.is_inclusive is k.is_ordered in
      let e =
        k.same (number it.class.bs_type v)
        ∙ when_chain-pair_chain env steps it.first it.class v it.d i it.bs compares it.laid in
      let runs =
        case_run env steps it.first it.is_loaded v it.d it.bs i (i + 5 * length it.bs) r ev it.laid
          refl it.is_else in
      subst (Replaces env steps v r) it.is_info
        (h, when_chain (holds env v) it.bs it.d, selected, gives ∙ ap done e, runs)
