-- ===== src/CaseDetect/Helpers.antt =====
-- The helper that is selected for a class of integer comparisons gives what the chain of the class's
-- tests gives, where the thresholds are in the order of the class.
use mathlib.Core.Path.{fun_ext}
use pg_jitter.Prelude.{
  ◌≡◌, ◌∙◌, refl, ap, Bool, true, false, some, List, arith, if◌then◌else◌, ltb, leb,
}
use pg_jitter.Prelude.Int.{ℤ, ltb_ℤ, leb_ℤ}
use pg_jitter.Machine.{half16, half32, wrap, to_uint, eqb_ℤ}
use pg_jitter.CaseSearch.Defs.{
  Datum, CaseBSearchDesc, threshold_search, pg_jitter_case_bsearch_eq_i32,
  pg_jitter_case_bsearch_eq_i64, pg_jitter_case_bsearch_eq_i16, pg_jitter_case_bsearch_eq_u32,
  pg_jitter_case_bsearch_lt_u32, pg_jitter_case_bsearch_le_u32, pg_jitter_case_bsearch_gt_u32,
  pg_jitter_case_bsearch_ge_u32,
}
use pg_jitter.CaseSearch.Halving.{IsMonotone}
use pg_jitter.CaseSearch.Exact.{IsDesc, threshold_search-case_chain}
use pg_jitter.CaseSearch.Searched.{
  IsAscending, IsDescending, unsigned, chain, ascending_searches, descending_searches,
}
use pg_jitter.CaseSearch.Equal.{IsStrict, equal_search-chain, unsigned_equal}
use pg_jitter.CaseDetect.Steps.{get_int32, get_int64}
use pg_jitter.CaseDetect.Classify.{
  CmpClass, CaseBSearchType, case_bs_i32, case_bs_i64, case_bs_u32, case_bs_i16,
}
use pg_jitter.CaseDetect.Build.{threshold_of, key_of}
use pg_jitter.CaseDetect.Select.{Helper, pg_jitter_select_bsearch_helper, helper_value}

-- The types that are kept as integers.
abbrev pub is_integer : CaseBSearchType → Bool
is_integer case_bs_i32 = true
is_integer case_bs_i64 = true
is_integer case_bs_u32 = true
is_integer case_bs_i16 = true
is_integer _ = false

-- The number that a datum of the type is.
abbrev pub number : CaseBSearchType → Datum → ℤ
number t d = key_of t (threshold_of t d)

-- v OP t
abbrev pub class_test : CmpClass → ℤ → ℤ → Bool
class_test class v t =
    if class.is_equality
    then eqb_ℤ t v
    else (if class.is_less
        then (if class.is_inclusive then leb_ℤ v t else ltb_ℤ v t)
        else (if class.is_inclusive then leb_ℤ t v else ltb_ℤ t v))

-- The order that the class asks of the thresholds.
pub record IsOrdered (class : CmpClass) (a : List ℤ) : Type 0 where
  pub strict : class.is_equality ≡ true → IsStrict (key_of class.bs_type) a
  pub rising :
      class.is_equality ≡ false → class.is_less ≡ true → IsAscending (key_of class.bs_type) a
  pub falling :
      class.is_equality ≡ false → class.is_less ≡ false → IsDescending (key_of class.bs_type) a

abbrev pub class_with : CaseBSearchType → Bool → Bool → Bool → CmpClass
class_with t e l c = record { is_equality = e; is_less = l; is_inclusive = c; bs_type = t }

chain_ext :
    (p q : ℤ → Bool) (desc : CaseBSearchDesc) → ((t : ℤ) → p t ≡ q t) → chain p desc ≡ chain q desc
chain_ext p q desc h = ap (λ f. chain f desc) (fun_ext h)

module _ (v : Datum) (desc : CaseBSearchDesc) (valid : IsDesc desc)
    (no_min : desc.has_range_min ≡ false) where
  abbrev pub Serves : CmpClass → Type 0
  Serves class =
      (h : Helper) × (pg_jitter_select_bsearch_helper class ≡ some h)
      × (h (helper_value class v) desc
          ≡ chain (λ t. class_test class (number class.bs_type v) (key_of class.bs_type t)) desc)

  unsigned_serves :
      (p q : ℤ → Bool)
      → IsMonotone p desc.thresholds
      → ((t : ℤ) → p t ≡ q t)
      → threshold_search p desc ≡ chain q desc
  unsigned_serves p q mono same =
      threshold_search-case_chain p desc valid mono ∙ chain_ext p q desc same

  pub serves :
      (t : CaseBSearchType) (e l c : Bool)
      → is_integer t ≡ true
      → IsOrdered (class_with t e l c) desc.thresholds
      → Serves (class_with t e l c)
  unfolding pg_jitter_select_bsearch_helper pg_jitter_case_bsearch_eq_i32
      pg_jitter_case_bsearch_eq_i64 pg_jitter_case_bsearch_eq_i16 pg_jitter_case_bsearch_eq_u32
      pg_jitter_case_bsearch_lt_u32 pg_jitter_case_bsearch_le_u32 pg_jitter_case_bsearch_gt_u32
      pg_jitter_case_bsearch_ge_u32
  serves case_bs_i32 true l c is o =
      (_, refl, equal_search-chain (λ t. t) (get_int32 v) desc valid (o.strict refl))
  serves case_bs_i32 false true false is o =
      (_, refl, (ascending_searches (get_int32 v) desc valid (o.rising refl refl) no_min).0)
  serves case_bs_i32 false true true is o =
      (_, refl, (ascending_searches (get_int32 v) desc valid (o.rising refl refl) no_min).1)
  serves case_bs_i32 false false false is o =
      (_, refl, (descending_searches (get_int32 v) desc valid (o.falling refl refl) no_min).0)
  serves case_bs_i32 false false true is o =
      (_, refl, (descending_searches (get_int32 v) desc valid (o.falling refl refl) no_min).1)
  serves case_bs_i64 true l c is o =
      (_, refl, equal_search-chain (λ t. t) (get_int64 v) desc valid (o.strict refl))
  serves case_bs_i64 false true false is o =
      (_, refl, (ascending_searches (get_int64 v) desc valid (o.rising refl refl) no_min).2)
  serves case_bs_i64 false true true is o =
      (_, refl, (ascending_searches (get_int64 v) desc valid (o.rising refl refl) no_min).3)
  serves case_bs_i64 false false false is o =
      (_, refl, (descending_searches (get_int64 v) desc valid (o.falling refl refl) no_min).2)
  serves case_bs_i64 false false true is o =
      (_, refl, (descending_searches (get_int64 v) desc valid (o.falling refl refl) no_min).3)
  serves case_bs_u32 true l c is o = (
    _,
    refl,
    unsigned_equal (get_int32 v) desc
        ∙ equal_search-chain unsigned (unsigned (get_int32 v)) desc valid (o.strict refl),
  )
  serves case_bs_u32 false true false is o = (
    _,
    refl,
    unsigned_serves (λ t. ltb (to_uint half32 (get_int32 v)) (to_uint half32 t))
        (λ t.
          class_test (class_with case_bs_u32 false true false) (unsigned (get_int32 v))
            (unsigned t))
        (λ i j s t h e e' p. ground (arith, o.rising refl refl i j s t h e e')) (λ t. ground arith),
  )
  serves case_bs_u32 false true true is o = (
    _,
    refl,
    unsigned_serves (λ t. leb (to_uint half32 (get_int32 v)) (to_uint half32 t))
        (λ t.
          class_test (class_with case_bs_u32 false true true) (unsigned (get_int32 v)) (unsigned t))
        (λ i j s t h e e' p. ground (arith, o.rising refl refl i j s t h e e')) (λ t. ground arith),
  )
  serves case_bs_u32 false false false is o = (
    _,
    refl,
    unsigned_serves (λ t. ltb (to_uint half32 t) (to_uint half32 (get_int32 v)))
        (λ t.
          class_test (class_with case_bs_u32 false false false) (unsigned (get_int32 v))
            (unsigned t))
        (λ i j s t h e e' p. ground (arith, o.falling refl refl i j s t h e e'))
        (λ t. ground arith),
  )
  serves case_bs_u32 false false true is o = (
    _,
    refl,
    unsigned_serves (λ t. leb (to_uint half32 t) (to_uint half32 (get_int32 v)))
        (λ t.
          class_test (class_with case_bs_u32 false false true) (unsigned (get_int32 v))
            (unsigned t))
        (λ i j s t h e e' p. ground (arith, o.falling refl refl i j s t h e e'))
        (λ t. ground arith),
  )
  serves case_bs_i16 true l c is o =
      (_, refl, equal_search-chain (λ t. t) (wrap half16 (get_int32 v)) desc valid (o.strict refl))
  serves case_bs_i16 false true false is o =
      (_, refl, (ascending_searches (get_int32 v) desc valid (o.rising refl refl) no_min).4)
  serves case_bs_i16 false true true is o =
      (_, refl, (ascending_searches (get_int32 v) desc valid (o.rising refl refl) no_min).5)
  serves case_bs_i16 false false false is o =
      (_, refl, (descending_searches (get_int32 v) desc valid (o.falling refl refl) no_min).4)
  serves case_bs_i16 false false true is o =
      (_, refl, (descending_searches (get_int32 v) desc valid (o.falling refl refl) no_min).5)
  serves _ e l c is o = absurd (ground (arith, is))
