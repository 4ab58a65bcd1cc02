-- ===== src/CaseDetect/Descriptor.antt =====
-- The descriptor of a simple CASE, whose pairs the first pass sorts, and the two ways of building a
-- descriptor together.
use pg_jitter.Prelude.{
  ◌≡◌, ◌∙◌, refl, true, false, some, List, map, inl, inr, arith, Bool-cases, length-map,
}
use pg_jitter.Prelude.Int.{ℤ, ltb_ℤ}
use pg_jitter.CaseSearch.Defs.{Datum, CaseBSearchDesc}
use pg_jitter.CaseDetect.Steps.{FuncCall}
use pg_jitter.CaseDetect.Classify.{CmpClass}
use pg_jitter.CaseDetect.Branches.{Branch}
use pg_jitter.CaseDetect.Build.{
  Platform, ThresholdResult, key_of, monotonic, duplicate_threshold, pair_of, desc_of, build_desc,
}
use pg_jitter.CaseDetect.Order.{adjacent}
use pg_jitter.CaseDetect.Sorted.{
  IsQsort, by_key, pair_chain, case_chain-pair_chain, same_chain, no_duplicates,
}
use pg_jitter.CaseDetect.Helpers.{is_integer, class_test, IsOrdered}
use pg_jitter.CaseDetect.Kept.{pair_key, cmp_func_integer}
use pg_jitter.CaseDetect.Ordered.{IsKept, thresholds_before, desc_of-IsDesc, unsorted-IsKept}

module _ (p : Platform) (sorts : IsQsort p.qsort) (f : FuncCall) (class : CmpClass)
    (bs : List Branch) (d : Datum) (is : is_integer class.bs_type ≡ true) where
  abbrev pairs : List ThresholdResult
  pairs = map (pair_of class.bs_type) bs

  abbrev key : ThresholdResult → ℤ
  key = pair_key class.bs_type

  abbrev ordered : List ThresholdResult
  ordered = p.qsort (by_key key) pairs

  module _ (equal : class.is_equality ≡ true)
      (distinct : duplicate_threshold p (by_key key) ordered ≡ false) where
    rises : adjacent (λ a b. ltb_ℤ (key a) (key b)) ordered ≡ true
    rises = no_duplicates p key ordered (sorts.in_order key pairs) distinct

    sorted-same :
        (v : ℤ)
        → pair_chain (λ q. class_test class v (key q)) ordered d
          ≡ pair_chain (λ q. class_test class v (key q)) pairs d
    sorted-same v = rw equal (
        same_chain key v pairs ordered d rises (sorts.from_input key pairs)
          (sorts.to_output key pairs))

    sorted-IsOrdered : IsOrdered class (map (λ q. q.threshold) ordered)
    sorted-IsOrdered = record {
      strict = λ e. thresholds_before class.bs_type true ordered rises;
      rising = λ differs. absurd (ground (arith, equal, differs));
      falling = λ differs. absurd (ground (arith, equal, differs));
    }

    sorted-IsKept : IsKept class bs d (desc_of ordered d)
    sorted-IsKept = record {
      is_desc = desc_of-IsDesc ordered d;
      no_min = refl;
      is_default = refl;
      count = sorts.same_length key pairs ∙ length-map bs (pair_of class.bs_type);
      is_ordered = sorted-IsOrdered;
      same = λ v.
          case_chain-pair_chain (λ t. class_test class v (key_of class.bs_type t)) ordered d
          ∙ sorted-same v;
    }

  -- Whichever way it is built, the descriptor keeps the branches.
  pub build_desc-IsKept :
      (desc : CaseBSearchDesc)
      → (class.is_equality ≡ false → monotonic p f class bs ≡ true)
      → build_desc p f class bs d ≡ some desc
      → IsKept class bs d desc
  unfolding build_desc
  build_desc-IsKept desc mono h = elim (Bool-cases class.is_equality) [
    | inr differs ↦
        let same : desc_of pairs d ≡ desc = ground (arith, h, differs) in
        rw (← same) (unsorted-IsKept p f class bs d desc is differs (mono differs))
    | inl equal ↦
        let e = cmp_func_integer p f class.bs_type is in
        elim (Bool-cases (duplicate_threshold p (by_key key) ordered)) [
          | inl twice ↦ absurd (ground (arith, h, equal, e, twice))
          | inr distinct ↦
              let same : desc_of ordered d ≡ desc = ground (arith, h, equal, e, distinct) in
              rw (← same) (sorted-IsKept equal distinct)
        ]
  ]
