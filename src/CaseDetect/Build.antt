-- ===== src/CaseDetect/Build.antt =====
-- `pg_jitter_detect_case_bsearch`: the order of the thresholds, the sort of a simple CASE, and the
-- descriptor. The C library's sort, the floating-point comparisons, PostgreSQL's functions and
-- collations, and the bytes of a text are parameters.
use Prim.Native.Nat.{min}
use pg_jitter.Prelude.{
  ℕ, Bool, true, false, not, ◌&&◌, ◌||◌, Option, none, some, List, ◌∷◌, map, length, take, ◌==◌,
  if◌then◌else◌,
}
use pg_jitter.Prelude.Int.{ℤ, pos, negsuc, ◌-ℤ◌, ltb_ℤ}
use pg_jitter.Machine.{half16, half64, wrap, to_uint, flag, eqb_ℤ}
use pg_jitter.CaseSearch.Defs.{Datum, CaseBSearchDesc}
use pg_jitter.CaseSearch.Searched.{unsigned}
use pg_jitter.CaseDetect.Steps.{
  CmpFn, comparison, type_text, cmp_eq, get_int32, get_int64, FuncCall,
}
use pg_jitter.CaseDetect.Classify.{
  CmpClass, CaseBSearchType, case_bs_i32, case_bs_i64, case_bs_u32, case_bs_i16, case_bs_f4,
  case_bs_f8, case_bs_generic, same_fn, find_generic_lt_fn,
}
use pg_jitter.CaseDetect.Branches.{Branch}

pub record ThresholdResult : Type 0 where
  pub threshold : ℤ
  pub result : Datum

abbrev pub Comparator : Type 0
Comparator = ThresholdResult → ThresholdResult → ℤ

-- `find_direct_fn` gives the number of arguments of a function that has a direct version.
pub record Platform : Type 0 where
  pub find_direct_fn : CmpFn → Option ℕ
  pub call : CmpFn → ℕ → Datum → Datum → Bool
  pub qsort : Comparator → List ThresholdResult → List ThresholdResult
  pub isnan4 : Datum → Bool
  pub isnan8 : Datum → Bool
  pub greater4 : Datum → Datum → Bool
  pub greater8 : Datum → Datum → Bool
  pub text_bytes : Datum → List ℕ
  pub memcmp : List ℕ → List ℕ → ℤ
  pub collation_is_deterministic : ℕ → Bool
  pub collation_is_c : ℕ → Bool

abbrev pub c_collation_oid : ℕ
c_collation_oid = 950

-- (va > vb) - (va < vb)
abbrev pub three_way : ℤ → ℤ → ℤ
three_way va vb = flag (ltb_ℤ vb va) -ℤ flag (ltb_ℤ va vb)

-- A not-a-number comes after all else.
abbrev nan_three_way : (Datum → Bool) → (Datum → Datum → Bool) → Datum → Datum → ℤ
nan_three_way isnan greater va vb =
    if isnan va
    then (if isnan vb then pos 0 else pos 1)
    else (if isnan vb then negsuc 0 else flag (greater va vb) -ℤ flag (greater vb va))

-- A threshold as the array of its type keeps it: oids as int32, int2 cut to 16 bits, all else that is
-- no integer as the Datum.
abbrev pub threshold_of : CaseBSearchType → Datum → ℤ
threshold_of case_bs_i32 d = get_int32 d
threshold_of case_bs_u32 d = get_int32 d
threshold_of case_bs_i16 d = wrap half16 (get_int32 d)
threshold_of case_bs_i64 d = get_int64 d
threshold_of case_bs_f4 d = pos d
threshold_of case_bs_f8 d = pos d
threshold_of case_bs_generic d = pos d

-- The number that a kept threshold stands for in a comparison.
abbrev pub key_of : CaseBSearchType → ℤ → ℤ
key_of case_bs_u32 t = unsigned t
key_of _ t = t

abbrev datum_of : ℤ → Datum
datum_of t = to_uint half64 t

module _ (p : Platform) where
  -- The comparison function on two thresholds, of a type that is passed by reference.
  generic_order : CmpFn → ℕ → Bool → Datum → Datum → ℤ
  generic_order cmp_fn collation is_less prev curr =
      let lt_result = p.call cmp_fn collation prev curr in
      let reverse = p.call cmp_fn collation curr prev in
      if not lt_result && not reverse
      then pos 0
      else (if is_less
          then (if lt_result then pos 1 else negsuc 0)
          else (if lt_result then negsuc 0 else pos 1))

  -- `cmp_result` of the monotonicity check: positive where `curr` comes after `prev`.
  unfoldable pub cmp_result : FuncCall → CmpClass → Datum → Datum → ℤ
  unfolding generic_order
  cmp_result f class prev curr = elim class.bs_type [
    | case_bs_f4 ↦ nan_three_way p.isnan4 p.greater4 curr prev
    | case_bs_f8 ↦ nan_three_way p.isnan8 p.greater8 curr prev
    | case_bs_generic ↦ generic_order f.fn_addr f.fncollation class.is_less prev curr
    | t ↦ three_way (key_of t (threshold_of t curr)) (key_of t (threshold_of t prev))
  ]

  abbrev pub right_way : Bool → ℤ → Bool
  right_way true c = ltb_ℤ (pos 0) c
  right_way false c = ltb_ℤ c (pos 0)

  unfoldable pub monotonic : FuncCall → CmpClass → List Branch → Bool
  monotonic f class (a ∷ b ∷ bs) =
      right_way class.is_less (cmp_result f class a.call.arg1.value b.call.arg1.value)
      && monotonic f class (b ∷ bs)
  monotonic f class _ = true

  -- The comparators of the sort.
  cmp_threshold_result_generic : CmpFn → ℕ → Comparator
  cmp_threshold_result_generic lt_fn collation a b =
      let da = datum_of a.threshold in
      let db = datum_of b.threshold in
      if p.call lt_fn collation da db
      then negsuc 0
      else (if p.call lt_fn collation db da then pos 1 else pos 0)

  cmp_threshold_result_text_memcmp : Comparator
  cmp_threshold_result_text_memcmp a b =
      let t1 = p.text_bytes (datum_of a.threshold) in
      let t2 = p.text_bytes (datum_of b.threshold) in
      let minlen = min (length t1) (length t2) in
      let cmp = p.memcmp (take minlen t1) (take minlen t2) in
      if eqb_ℤ cmp (pos 0) then three_way (pos (length t1)) (pos (length t2)) else cmp

  case_bsearch_generic_eq_can_memcmp : CmpFn → ℕ → Bool
  case_bsearch_generic_eq_can_memcmp cmp_fn collation =
      same_fn cmp_fn (comparison type_text cmp_eq)
      && not (collation == 0 || collation == c_collation_oid)
      && p.collation_is_deterministic collation
      && not (p.collation_is_c collation)

  -- The comparator that a simple CASE is sorted by; none for a generic type without an order.
  unfoldable pub cmp_func : FuncCall → CaseBSearchType → Option Comparator
  unfolding cmp_threshold_result_generic cmp_threshold_result_text_memcmp
      case_bsearch_generic_eq_can_memcmp
  cmp_func f case_bs_f4 =
      some (λ a b. nan_three_way p.isnan4 p.greater4 (datum_of a.threshold) (datum_of b.threshold))
  cmp_func f case_bs_f8 =
      some (λ a b. nan_three_way p.isnan8 p.greater8 (datum_of a.threshold) (datum_of b.threshold))
  cmp_func f case_bs_generic = elim (find_generic_lt_fn f.fn_addr) [
    | none ↦ none
    | some lt_fn ↦
        if case_bsearch_generic_eq_can_memcmp f.fn_addr f.fncollation
        then some cmp_threshold_result_text_memcmp
        else some (cmp_threshold_result_generic lt_fn f.fncollation)
  ]
  cmp_func f t = some (λ a b. three_way (key_of t a.threshold) (key_of t b.threshold))

  abbrev pub duplicate_threshold : Comparator → List ThresholdResult → Bool
  duplicate_threshold cmp (a ∷ b ∷ ps) = eqb_ℤ (cmp a b) (pos 0) || duplicate_threshold cmp (b ∷ ps)
  duplicate_threshold cmp _ = false

abbrev pub pair_of : CaseBSearchType → Branch → ThresholdResult
pair_of t b = record { threshold = threshold_of t b.call.arg1.value; result = b.result }

abbrev pub desc_of : List ThresholdResult → Datum → CaseBSearchDesc
desc_of ps d = record {
  n = length ps;
  thresholds = map (λ q. q.threshold) ps;
  results = map (λ q. q.result) ps;
  default_val = d;
  range_min = pos 0;
  has_range_min = false;
}

-- The descriptor, in the order of the branches, or sorted where the comparison is an equality; none
-- where the sort finds two equal thresholds.
unfoldable pub build_desc :
    Platform → FuncCall → CmpClass → List Branch → Datum → Option CaseBSearchDesc
build_desc p f class bs d =
    let pairs = map (pair_of class.bs_type) bs in
    if class.is_equality
    then elim (cmp_func p f class.bs_type) [
      | none ↦ some (desc_of pairs d)
      | some cmp ↦
          let ordered = p.qsort cmp pairs in
          if duplicate_threshold p cmp ordered then none else some (desc_of ordered d)
    ]
    else some (desc_of pairs d)
