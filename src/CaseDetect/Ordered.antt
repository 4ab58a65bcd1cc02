-- ===== src/CaseDetect/Ordered.antt =====
-- The descriptor that the first pass builds for a class of integer comparisons has its thresholds in
-- the order of the class, and the chain of tests of its branches.
use pg_jitter.Prelude.{
  ℕ, zero, suc, ◌<◌, ◌≤◌, ◌≡◌, refl, ap, Bool, true, false, some, List, [], ◌∷◌, map, ◌⊎◌, inl, inr,
  get_elem?, length, arith, length-map,
}
use pg_jitter.Prelude.Int.{ℤ}
use pg_jitter.CaseSearch.Defs.{Datum, CaseBSearchDesc}
use pg_jitter.CaseSearch.Exact.{IsDesc, case_chain}
use pg_jitter.CaseSearch.Searched.{IsAscending, IsDescending}
use pg_jitter.CaseDetect.Steps.{FuncCall}
use pg_jitter.CaseDetect.Classify.{CmpClass, CaseBSearchType}
use pg_jitter.CaseDetect.Branches.{Branch}
use pg_jitter.CaseDetect.Build.{Platform, ThresholdResult, key_of, monotonic, pair_of, desc_of}
use pg_jitter.CaseDetect.Order.{adjacent, adjacent_pairs}
use pg_jitter.CaseDetect.Sorted.{pair_chain, case_chain-pair_chain}
use pg_jitter.CaseDetect.Helpers.{is_integer, class_test, IsOrdered}
use pg_jitter.CaseDetect.Kept.{pair_key, before, before_trans, monotonic-adjacent}

threshold_at :
    (ps : List ThresholdResult) (i : ℕ) (t : ℤ)
    → get_elem? (map (λ q. q.threshold) ps) i ≡ some t
    → (q : ThresholdResult) × (get_elem? ps i ≡ some q) × (q.threshold ≡ t)
threshold_at [] i t e = absurd (ground (arith, e))
threshold_at (q ∷ ps) zero t e = (q, refl, ground (arith, e))
threshold_at (q ∷ ps) (suc i) t e = threshold_at ps i t e

module _ (t : CaseBSearchType) (l : Bool) (ps : List ThresholdResult)
    (adj : adjacent (λ a b. before l (pair_key t a) (pair_key t b)) ps ≡ true) where
  abbrev ts : List ℤ
  ts = map (λ q. q.threshold) ps

  pub thresholds_before :
      (i j : ℕ) (s u : ℤ)
      → i < j
      → get_elem? ts i ≡ some s
      → get_elem? ts j ≡ some u
      → before l (key_of t s) (key_of t u) ≡ true
  thresholds_before i j s u lt e e' =
      let (q, at, is) = threshold_at ps i s e in
      let (r, at', is') = threshold_at ps j u e' in
      rw (← is, ← is')
        (adjacent_pairs (λ a b. before l (pair_key t a) (pair_key t b))
          (λ a b c. before_trans l (pair_key t a) (pair_key t b) (pair_key t c)) ps i j q r adj lt
          at at')

split_le : (i j : ℕ) → i ≤ j → (i < j) ⊎ (i ≡ j)
split_le i j h = omega arith

rising_thresholds :
    (t : CaseBSearchType) (ps : List ThresholdResult)
    → adjacent (λ a b. before true (pair_key t a) (pair_key t b)) ps ≡ true
    → IsAscending (key_of t) (map (λ q. q.threshold) ps)
rising_thresholds t ps adj i j s u le e e' = elim (split_le i j le) [
  | inl lt ↦ ground (arith, thresholds_before t true ps adj i j s u lt e e')
  | inr eq ↦
      let same : s ≡ u = ground (arith, e, e', ap (get_elem? (map (λ q. q.threshold) ps)) eq) in
      rw same (omega arith)
]

falling_thresholds :
    (t : CaseBSearchType) (ps : List ThresholdResult)
    → adjacent (λ a b. before false (pair_key t a) (pair_key t b)) ps ≡ true
    → IsDescending (key_of t) (map (λ q. q.threshold) ps)
falling_thresholds t ps adj i j s u le e e' = elim (split_le i j le) [
  | inl lt ↦ ground (arith, thresholds_before t false ps adj i j s u lt e e')
  | inr eq ↦
      let same : s ≡ u = ground (arith, e, e', ap (get_elem? (map (λ q. q.threshold) ps)) eq) in
      rw same (omega arith)
]

pub desc_of-IsDesc : (ps : List ThresholdResult) (d : Datum) → IsDesc (desc_of ps d)
desc_of-IsDesc ps d = record {
  thresholds_length = length-map ps (λ q. q.threshold);
  results_length = length-map ps (λ q. q.result);
}

-- What the first pass keeps of the branches `bs`.
pub record IsKept (class : CmpClass) (bs : List Branch) (d : Datum) (desc : CaseBSearchDesc)
    : Type 0 where
  pub is_desc : IsDesc desc
  pub no_min : desc.has_range_min ≡ false
  pub is_default : desc.default_val ≡ d
  pub count : desc.n ≡ length bs
  pub is_ordered : IsOrdered class desc.thresholds
  pub same :
      (v : ℤ)
      → case_chain
          (λ t. class_test class v (key_of class.bs_type t))
          desc.thresholds
          desc.results
          desc.default_val
        ≡ pair_chain
            (λ q. class_test class v (pair_key class.bs_type q))
            (map (pair_of class.bs_type) bs)
            d

module _ (p : Platform) (f : FuncCall) (class : CmpClass) (bs : List Branch) (d : Datum)
    (desc : CaseBSearchDesc) (is : is_integer class.bs_type ≡ true) where
  abbrev pairs : List ThresholdResult
  pairs = map (pair_of class.bs_type) bs

  unsorted-IsOrdered :
      class.is_equality ≡ false
      → monotonic p f class bs ≡ true
      → IsOrdered class (map (λ q. q.threshold) pairs)
  unsorted-IsOrdered differs mono =
      let adj = monotonic-adjacent p f class bs is mono in
      record {
        strict = λ equal. absurd (ground (arith, equal, differs));
        rising = λ e less. rising_thresholds class.bs_type pairs (rw less at adj);
        falling = λ e less. falling_thresholds class.bs_type pairs (rw less at adj);
      }

  pub unsorted-IsKept :
      class.is_equality ≡ false
      → monotonic p f class bs ≡ true
      → IsKept class bs d (desc_of pairs d)
  unsorted-IsKept differs mono = record {
    is_desc = desc_of-IsDesc pairs d;
    no_min = refl;
    is_default = refl;
    count = length-map bs (pair_of class.bs_type);
    is_ordered = unsorted-IsOrdered differs mono;
    same = λ v. case_chain-pair_chain (λ t. class_test class v (key_of class.bs_type t)) pairs d;
  }
