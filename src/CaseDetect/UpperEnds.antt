-- ===== src/CaseDetect/UpperEnds.antt =====
-- The upper ends of ranges: where the code has tested a bound, adding 1 to it does not overflow.
use pg_jitter.Prelude.{
  ℕ, ◌-◌, not, ◌||◌, Bool-cases, ◌≡◌, refl, Bool, true, false, List, ◌∷◌, inl, inr, arith,
  if◌then◌else◌,
}
use pg_jitter.Prelude.Int.{ℤ, pos, negsuc, ◌+ℤ◌, ltb_ℤ}
use pg_jitter.Machine.{half16, half32, half64, wrap, IsInt, wrap32_id, wrap64_id, wrap16-IsInt}
use pg_jitter.CaseDetect.Steps.{get_int32, get_int64}
use pg_jitter.CaseSearch.Defs.{Datum}
use pg_jitter.CaseDetect.Classify.{CaseBSearchType, case_bs_i32, case_bs_i64, case_bs_i16}
use pg_jitter.CaseDetect.Build.{threshold_of}
use pg_jitter.CaseDetect.Ranges.{RangeClass, RangeBranch}
use pg_jitter.CaseDetect.RangeBuild.{
  upper_of, plus_one, upper_threshold, all_representable, case_range_upper_sentinel_representable,
}

-- The types that have ranges.
abbrev pub has_ranges : CaseBSearchType → Bool
has_ranges case_bs_i32 = true
has_ranges case_bs_i64 = true
has_ranges case_bs_i16 = true
has_ranges _ = false

abbrev pub low_of : RangeClass → RangeBranch → ℤ
low_of class b = threshold_of class.bs_type b.low

abbrev pub high_of : RangeClass → RangeBranch → ℤ
high_of class b = threshold_of class.bs_type b.high

-- The end of a range as an integer: no value of the range reaches it.
abbrev pub end_of : Bool → ℤ → ℤ
end_of incl hi = if incl then hi +ℤ pos 1 else hi

next-IsInt :
    (half : ℕ) (z : ℤ) → IsInt half z → ltb_ℤ z (pos (half - 1)) ≡ true → IsInt half (z +ℤ pos 1)
unfolding ◌+ℤ◌
next-IsInt half (pos n) h lt = ground (arith, h, lt)
next-IsInt half (negsuc n) h lt = ground (arith, h, lt)

int16_next : (z : ℤ) → IsInt half16 z → IsInt half32 (z +ℤ pos 1)
unfolding ◌+ℤ◌
int16_next (pos n) h = ground (arith, h)
int16_next (negsuc n) h = ground (arith, h)

int32_next : (z : ℤ) → IsInt half32 z → IsInt half64 (z +ℤ pos 1)
unfolding ◌+ℤ◌
int32_next (pos n) h = ground (arith, h)
int32_next (negsuc n) h = ground (arith, h)

get_int32-IsInt : (d : Datum) → IsInt half32 (get_int32 d)
get_int32-IsInt d = ground arith

get_int64-IsInt : (d : Datum) → IsInt half64 (get_int64 d)
get_int64-IsInt d = ground arith

abbrev IsRepresentable : CaseBSearchType → Datum → Type 0
IsRepresentable t d = case_range_upper_sentinel_representable t d ≡ true

-- Where the bound is not the greatest of its type, adding 1 does not overflow.
plus_one_exact :
    (t : CaseBSearchType) (d : Datum)
    → has_ranges t ≡ true
    → IsRepresentable t d
    → plus_one t (threshold_of t d) ≡ threshold_of t d +ℤ pos 1
plus_one_exact case_bs_i32 d h r =
    wrap32_id (get_int32 d +ℤ pos 1) (next-IsInt half32 (get_int32 d) (get_int32-IsInt d) r)
plus_one_exact case_bs_i64 d h r =
    wrap64_id (get_int64 d +ℤ pos 1) (next-IsInt half64 (get_int64 d) (get_int64-IsInt d) r)
plus_one_exact case_bs_i16 d h r =
    wrap32_id (wrap half16 (get_int32 d) +ℤ pos 1)
      (int16_next (wrap half16 (get_int32 d)) (wrap16-IsInt (get_int32 d)))
plus_one_exact _ d h r = absurd (ground (arith, h))

upper_exact :
    (t : CaseBSearchType) (d : Datum)
    → has_ranges t ≡ true
    → IsRepresentable t d
    → upper_of true (threshold_of t d) ≡ threshold_of t d +ℤ pos 1
upper_exact case_bs_i32 d h r =
    wrap64_id (get_int32 d +ℤ pos 1) (int32_next (get_int32 d) (get_int32-IsInt d))
upper_exact case_bs_i64 d h r =
    wrap64_id (get_int64 d +ℤ pos 1) (next-IsInt half64 (get_int64 d) (get_int64-IsInt d) r)
upper_exact case_bs_i16 d h r =
    let small = wrap16-IsInt (get_int32 d) in
    wrap64_id (wrap half16 (get_int32 d) +ℤ pos 1)
      (int32_next (wrap half16 (get_int32 d)) (ground (arith, small)))
upper_exact _ d h r = absurd (ground (arith, h))

-- The ends of a range whose upper end the code has tested.
abbrev pub IsTested : RangeClass → RangeBranch → Type 0
IsTested class b =
    (not class.upper_inclusive || case_range_upper_sentinel_representable class.bs_type b.high)
    ≡ true

pub threshold_exact :
    (class : RangeClass) (b : RangeBranch)
    → has_ranges class.bs_type ≡ true
    → IsTested class b
    → upper_threshold class b ≡ end_of class.upper_inclusive (high_of class b)
threshold_exact class b is ok = elim (Bool-cases class.upper_inclusive) [
  | inl incl ↦ rw incl (plus_one_exact class.bs_type b.high is (rw incl at ok))
  | inr excl ↦ rw excl refl
]

pub meeting_exact :
    (class : RangeClass) (b : RangeBranch)
    → has_ranges class.bs_type ≡ true
    → IsTested class b
    → upper_of class.upper_inclusive (high_of class b)
      ≡ end_of class.upper_inclusive (high_of class b)
meeting_exact class b is ok = elim (Bool-cases class.upper_inclusive) [
  | inl incl ↦ rw incl (upper_exact class.bs_type b.high is (rw incl at ok))
  | inr excl ↦ rw excl refl
]

pub IsTested-first :
    (class : RangeClass) (b : RangeBranch) (bs : List RangeBranch)
    → all_representable class (b ∷ bs) ≡ true
    → IsTested class b × (all_representable class bs ≡ true)
unfolding all_representable
IsTested-first class b bs h = (ground (arith, h), ground (arith, h))
