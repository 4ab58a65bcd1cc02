-- ===== src/CaseDetect/RangeMeaning.antt =====
-- What the descriptor of a range CASE means: the first range that holds the value.
use mathlib.Core.Path.{ap₂}
use pg_jitter.Prelude.{
  ℕ, ◌≤◌, ◌<◌, ◌≡◌, ◌∙◌, sym, refl, ap, Bool, true, false, ◌&&◌, some, List, [], ◌∷◌, map, ◌⊎◌, inl,
  inr, get_elem?, arith, if◌then◌else◌,
}
use pg_jitter.Prelude.Int.{ℤ, pos, +ℤ_parts, eq_of_parts, ltb_ℤ, leb_ℤ}
use pg_jitter.Machine.{eqb_ℤ}
use pg_jitter.CaseSearch.Defs.{Datum}
use pg_jitter.CaseSearch.Searched.{IsAscending}
use pg_jitter.CaseSearch.Range.{range_chain}
use pg_jitter.CaseDetect.Classify.{CaseBSearchType, case_bs_i32, case_bs_i64, case_bs_i16}
use pg_jitter.CaseDetect.Build.{threshold_of}
use pg_jitter.CaseDetect.Order.{adjacent, adjacent_pairs}
use pg_jitter.CaseDetect.Ranges.{RangeClass, RangeBranch}
use pg_jitter.CaseDetect.UpperEnds.{
  has_ranges, low_of, high_of, end_of, IsTested, IsTested-first, threshold_exact, meeting_exact,
}
use pg_jitter.CaseDetect.RangeBuild.{
  bound_of, upper_of, upper_threshold, meets, contiguous, all_representable,
}

-- v >= low AND v < high, or v <= high
abbrev pub in_range : RangeClass → ℤ → RangeBranch → Bool
in_range class v b =
    leb_ℤ (low_of class b) v
    && (if class.upper_inclusive then leb_ℤ v (high_of class b) else ltb_ℤ v (high_of class b))

-- The result of the first range that holds the value.
unfoldable pub when_ranges : RangeClass → ℤ → List RangeBranch → List Datum → Datum → Datum
when_ranges class v (b ∷ bs) (r ∷ rs) d =
    let rest = when_ranges class v bs rs d in if in_range class v b then r else rest
when_ranges class v _ _ d = d

-- Each range holds a value.
abbrev pub IsProper : RangeClass → List RangeBranch → Type 0
IsProper class [] = Unit
IsProper class (b ∷ bs) = (in_range class (low_of class b) b ≡ true) × IsProper class bs

below_upper :
    (incl : Bool) (v hi : ℤ) → ltb_ℤ v (end_of incl hi) ≡ (if incl then leb_ℤ v hi else ltb_ℤ v hi)
below_upper true v hi = ground (arith, +ℤ_parts hi (pos 1))
below_upper false v hi = refl

bound_of-threshold_of :
    (t : CaseBSearchType) (d : Datum) → has_ranges t ≡ true → bound_of t d ≡ some (threshold_of t d)
bound_of-threshold_of case_bs_i32 d h = refl
bound_of-threshold_of case_bs_i64 d h = refl
bound_of-threshold_of case_bs_i16 d h = refl
bound_of-threshold_of _ d h = absurd (ground (arith, h))

eqb_ℤ→≡ : (a b : ℤ) → eqb_ℤ a b ≡ true → a ≡ b
eqb_ℤ→≡ a b h = eq_of_parts a b (ground (arith, h))

-- The low end of a range is the threshold of the one before.
contiguous-low :
    (class : RangeClass) (a b : RangeBranch) (bs : List RangeBranch)
    → has_ranges class.bs_type ≡ true
    → contiguous class (a ∷ b ∷ bs) ≡ true
    → IsTested class a
    → upper_threshold class a ≡ low_of class b
unfolding contiguous
contiguous-low class a b bs is h ok =
    let met : meets class (bound_of class.bs_type a.high) (bound_of class.bs_type b.low) ≡ true =
      ground (arith, h) in
    let same : eqb_ℤ (upper_of class.upper_inclusive (high_of class a)) (low_of class b) ≡ true =
      ap₂ (meets class) (sym (bound_of-threshold_of class.bs_type a.high is))
        (sym (bound_of-threshold_of class.bs_type b.low is))
      ∙ met in
    threshold_exact class a is ok
    ∙ sym (meeting_exact class a is ok)
    ∙ eqb_ℤ→≡ (upper_of class.upper_inclusive (high_of class a)) (low_of class b) same

next_low :
    (class : RangeClass) (b : RangeBranch) (bs : List RangeBranch) (b' : RangeBranch)
    → has_ranges class.bs_type ≡ true
    → contiguous class (b ∷ bs) ≡ true
    → IsTested class b
    → get_elem? bs 0 ≡ some b'
    → upper_threshold class b ≡ low_of class b'
next_low class b [] b' is h ok e = absurd (ground (arith, e))
next_low class b (c ∷ bs) b' is h ok e =
    let same : c ≡ b' = ground (arith, e) in
    contiguous-low class b c bs is h ok ∙ ap (low_of class) same

contiguous_rest :
    (class : RangeClass) (b : RangeBranch) (bs : List RangeBranch)
    → contiguous class (b ∷ bs) ≡ true
    → contiguous class bs ≡ true
unfolding contiguous
contiguous_rest class b [] h = refl
contiguous_rest class b (c ∷ bs) h = ground (arith, h)

-- The chain of consecutive ranges is the chain of the branches.
pub range_chain-when_ranges :
    (class : RangeClass) (v lo : ℤ) (bs : List RangeBranch) (rs : List Datum) (d : Datum)
    → has_ranges class.bs_type ≡ true
    → contiguous class bs ≡ true
    → all_representable class bs ≡ true
    → ((b : RangeBranch) → get_elem? bs 0 ≡ some b → lo ≡ low_of class b)
    → range_chain v lo (map (upper_threshold class) bs) rs d ≡ when_ranges class v bs rs d
unfolding when_ranges range_chain
range_chain-when_ranges class v lo [] rs d is h ok first = refl
range_chain-when_ranges class v lo (b ∷ bs) [] d is h ok first = refl
range_chain-when_ranges class v lo (b ∷ bs) (r ∷ rs) d is h ok first =
    let (here, later) = IsTested-first class b bs ok in
    ap₂ (λ t rest. if t then r else rest)
      (ap₂ ◌&&◌ (ap (λ x. leb_ℤ x v) (first b refl)) (
        ap (ltb_ℤ v) (threshold_exact class b is here)
        ∙ below_upper class.upper_inclusive v (high_of class b)))
      (range_chain-when_ranges class v (upper_threshold class b) bs rs d is
        (contiguous_rest class b bs h) later (λ b' e. next_low class b bs b' is h here e))

-- Ranges that hold a value each have ends that rise.
pub ends_rise :
    (class : RangeClass) (lo : ℤ) (bs : List RangeBranch)
    → has_ranges class.bs_type ≡ true
    → contiguous class bs ≡ true
    → all_representable class bs ≡ true
    → IsProper class bs
    → ((b : RangeBranch) → get_elem? bs 0 ≡ some b → lo ≡ low_of class b)
    → adjacent ltb_ℤ (lo ∷ map (upper_threshold class) bs) ≡ true
ends_rise class lo [] is h ok proper first = refl
ends_rise class lo (b ∷ bs) is h ok proper first =
    let (here, later) = IsTested-first class b bs ok in
    let holds : ltb_ℤ (low_of class b) (upper_threshold class b) ≡ true =
      ap (ltb_ℤ (low_of class b)) (threshold_exact class b is here)
      ∙ below_upper class.upper_inclusive (low_of class b) (high_of class b)
      ∙ ground (arith, proper.0) in
    ap₂ ◌&&◌ (ap (λ x. ltb_ℤ x (upper_threshold class b)) (first b refl) ∙ holds) (
      ends_rise class (upper_threshold class b) bs is (contiguous_rest class b bs h) later proper.1
        (λ b' e. next_low class b bs b' is h here e))

split_le : (i j : ℕ) → i ≤ j → (i < j) ⊎ (i ≡ j)
split_le i j h = omega arith

pub rising-IsAscending : (a : List ℤ) → adjacent ltb_ℤ a ≡ true → IsAscending (λ t. t) a
rising-IsAscending a adj i j s t le e e' = elim (split_le i j le) [
  | inl lt ↦
      ground
        (arith, adjacent_pairs ltb_ℤ (λ x y z h h'. ground (arith, h, h')) a i j s t adj lt e e')
  | inr eq ↦ let same : s ≡ t = ground (arith, e, e', ap (get_elem? a) eq) in rw same (omega arith)
]
