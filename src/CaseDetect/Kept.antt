-- ===== src/CaseDetect/Kept.antt =====
-- The descriptor that the first pass builds for a class of integer comparisons: its thresholds are in
-- the order of the class, and its chain of tests is that of the branches.
use pg_jitter.Prelude.{◌≡◌, refl, Bool, true, false, some, List, [], ◌∷◌, map, arith, if◌then◌else◌}
use pg_jitter.Prelude.Int.{ℤ, ltb_ℤ, ◌-ℤ◌}
use pg_jitter.CaseSearch.Defs.{Datum}
use pg_jitter.CaseDetect.Steps.{FuncCall}
use pg_jitter.CaseDetect.Classify.{
  CmpClass, CaseBSearchType, case_bs_i32, case_bs_i64, case_bs_u32, case_bs_i16,
}
use pg_jitter.CaseDetect.Branches.{Branch}
use pg_jitter.CaseDetect.Build.{
  Platform, ThresholdResult, three_way, key_of, cmp_result, right_way, monotonic, cmp_func, pair_of,
}
use pg_jitter.CaseDetect.Order.{adjacent}
use pg_jitter.CaseDetect.Sorted.{by_key}
use pg_jitter.CaseDetect.Helpers.{is_integer, number, class_with}

-- The comparison and the comparator of an integer type are by its numbers.
cmp_result_integer :
    (p : Platform) (f : FuncCall) (t : CaseBSearchType) (e l c : Bool) (x y : Datum)
    → is_integer t ≡ true
    → cmp_result p f (class_with t e l c) x y ≡ three_way (number t y) (number t x)
unfolding cmp_result
cmp_result_integer p f case_bs_i32 e l c x y is = refl
cmp_result_integer p f case_bs_i64 e l c x y is = refl
cmp_result_integer p f case_bs_u32 e l c x y is = refl
cmp_result_integer p f case_bs_i16 e l c x y is = refl
cmp_result_integer p f _ e l c x y is = absurd (ground (arith, is))

abbrev pub pair_key : CaseBSearchType → ThresholdResult → ℤ
pair_key t q = key_of t q.threshold

pub cmp_func_integer :
    (p : Platform) (f : FuncCall) (t : CaseBSearchType)
    → is_integer t ≡ true
    → cmp_func p f t ≡ some (by_key (pair_key t))
unfolding cmp_func
cmp_func_integer p f case_bs_i32 is = refl
cmp_func_integer p f case_bs_i64 is = refl
cmp_func_integer p f case_bs_u32 is = refl
cmp_func_integer p f case_bs_i16 is = refl
cmp_func_integer p f _ is = absurd (ground (arith, is))

-- The order that the monotonicity check asks of two numbers.
abbrev pub before : Bool → ℤ → ℤ → Bool
before is_less x y = if is_less then ltb_ℤ x y else ltb_ℤ y x

pub before_trans :
    (l : Bool) (x y z : ℤ) → before l x y ≡ true → before l y z ≡ true → before l x z ≡ true
before_trans true x y z h h' = ground (arith, h, h')
before_trans false x y z h h' = ground (arith, h, h')

right_way-before :
    (p : Platform) (l : Bool) (x y : ℤ) → right_way p l (three_way y x) ≡ true → before l x y ≡ true
unfolding ◌-ℤ◌
right_way-before p true x y h = ground (arith, h)
right_way-before p false x y h = ground (arith, h)

abbrev pub key_before : CmpClass → ThresholdResult → ThresholdResult → Bool
key_before class a b = before class.is_less (pair_key class.bs_type a) (pair_key class.bs_type b)

pub monotonic-adjacent :
    (p : Platform) (f : FuncCall) (class : CmpClass) (bs : List Branch)
    → is_integer class.bs_type ≡ true
    → monotonic p f class bs ≡ true
    → adjacent (key_before class) (map (pair_of class.bs_type) bs) ≡ true
unfolding monotonic
monotonic-adjacent p f class [] is h = refl
monotonic-adjacent p f class (a ∷ []) is h = refl
monotonic-adjacent p f class (a ∷ b ∷ bs) is h =
    let rest = monotonic-adjacent p f class (b ∷ bs) is (ground (arith, h)) in
    let way : right_way p class.is_less (cmp_result p f class a.call.arg1.value b.call.arg1.value)
        ≡ true =
      ground (arith, h) in
    let one =
      right_way-before p class.is_less (number class.bs_type a.call.arg1.value)
        (number class.bs_type b.call.arg1.value)
        (rw
          (← cmp_result_integer p f class.bs_type class.is_equality class.is_less class.is_inclusive
            a.call.arg1.value b.call.arg1.value is)
          way) in
    ground (arith, rest, one)
