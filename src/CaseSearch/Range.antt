-- ===== src/CaseSearch/Range.antt =====
-- Range CASE: consecutive ranges, WHEN lo <= val AND val < hi, searched by their upper ends after a
-- test of the first lower end.
use pg_jitter.Prelude.{
  ℕ, suc, ◌≤◌, ◌≡◌, ◌∙◌, sym, ap, refl, true, false, ◌&&◌, List, [], ◌∷◌, get_elem?, some, arith,
  if◌then◌else◌, Bool-cases, inl, inr,
}
use pg_jitter.Prelude.Int.{ℤ, ltb_ℤ, leb_ℤ}
use pg_jitter.Machine.{half16, wrap}
use pg_jitter.CaseSearch.Defs.{
  Datum, CaseBSearchDesc, done, range_search, pg_jitter_case_bsearch_lt_i32,
  pg_jitter_case_bsearch_lt_i64, pg_jitter_case_bsearch_lt_i16, threshold_search,
}
use pg_jitter.CaseSearch.Exact.{case_chain, IsDesc, threshold_search-case_chain}
use pg_jitter.CaseSearch.Searched.{IsAscending, lt-IsMonotone}

-- CASE WHEN lo <= val AND val < t₀ THEN r₀ WHEN t₀ <= val AND val < t₁ THEN r₁ … ELSE d END
unfoldable pub range_chain : ℤ → ℤ → List ℤ → List Datum → Datum → Datum
range_chain val lo (hi ∷ ts) (r ∷ rs) d =
    let rest = range_chain val hi ts rs d in if leb_ℤ lo val && ltb_ℤ val hi then r else rest
range_chain val lo _ _ d = d

range_chain-above :
    (val lo : ℤ) (ts : List ℤ) (rs : List Datum) (d : Datum)
    → ltb_ℤ val lo ≡ false
    → range_chain val lo ts rs d ≡ case_chain (λ t. ltb_ℤ val t) ts rs d
unfolding range_chain case_chain
range_chain-above val lo [] rs d h = refl
range_chain-above val lo (t ∷ ts) [] d h = refl
range_chain-above val lo (t ∷ ts) (r ∷ rs) d h = ground (arith, range_chain-above val t ts rs d)

range_chain-below :
    (val lo : ℤ) (ts : List ℤ) (rs : List Datum) (d : Datum)
    → IsAscending (λ t. t) (lo ∷ ts)
    → ltb_ℤ val lo ≡ true
    → range_chain val lo ts rs d ≡ d
unfolding range_chain
range_chain-below val lo [] rs d up h = refl
range_chain-below val lo (t ∷ ts) [] d up h = refl
range_chain-below val lo (t ∷ ts) (r ∷ rs) d up h = ground (
  arith,
  up 0 1 lo t (omega arith) refl refl,
  range_chain-below val t ts rs d (λ i j a b le e e'. up (suc i) (suc j) a b (omega arith) e e'),
)

pub range_search-range_chain :
    (val : ℤ) (desc : CaseBSearchDesc)
    → IsDesc desc
    → IsAscending (λ t. t) (desc.range_min ∷ desc.thresholds)
    → desc.has_range_min ≡ true
    → range_search val (λ t. ltb_ℤ val t) desc
      ≡ done (range_chain val desc.range_min desc.thresholds desc.results desc.default_val)
unfolding range_search
range_search-range_chain val desc valid up has_min =
    let up' =
      λ (i j : ℕ) (a b : ℤ) (le : i ≤ j) (e : get_elem? desc.thresholds i ≡ some a)
          (e' : get_elem? desc.thresholds j ≡ some b).
        up (suc i) (suc j) a b (omega arith) e e' in
    elim (Bool-cases (ltb_ℤ val desc.range_min)) [
      | inl low ↦
          simp (has_min, low)
            (ap done (
              sym (
                range_chain-below val desc.range_min desc.thresholds desc.results desc.default_val
                  up low)))
      | inr high ↦
          simp (has_min, high)
            (threshold_search-case_chain (λ t. ltb_ℤ val t) desc valid
                (lt-IsMonotone (λ t. t) val desc.thresholds up')
              ∙ ap done (
                  sym (
                    range_chain-above val desc.range_min desc.thresholds desc.results
                      desc.default_val high)))
    ]

-- The int4, int8 and int2 `<` searches of a descriptor with a lower bound return what the chain of
-- consecutive ranges returns, where the lower bound and the thresholds rise; the int2 search cuts the value
-- and the lower bound to 16 bits. A value below the lower bound, or not below
-- the last threshold, gets the ELSE result.
pub range_case_searches :
    (val : ℤ) (desc small : CaseBSearchDesc)
    → IsDesc desc
    → IsDesc small
    → IsAscending (λ t. t) (desc.range_min ∷ desc.thresholds)
    → IsAscending (λ t. t) (wrap half16 small.range_min ∷ small.thresholds)
    → desc.has_range_min ≡ true
    → small.has_range_min ≡ true
    → (pg_jitter_case_bsearch_lt_i32 val desc
        ≡ done (range_chain val desc.range_min desc.thresholds desc.results desc.default_val))
      × (pg_jitter_case_bsearch_lt_i64 val desc
          ≡ done (range_chain val desc.range_min desc.thresholds desc.results desc.default_val))
      × (pg_jitter_case_bsearch_lt_i16 val small
          ≡ done (
              range_chain
                (wrap half16 val)
                (wrap half16 small.range_min)
                small.thresholds
                small.results
                small.default_val))
unfolding pg_jitter_case_bsearch_lt_i32 pg_jitter_case_bsearch_lt_i64 pg_jitter_case_bsearch_lt_i16
    range_search threshold_search
range_case_searches val desc small valid valid' up up' has_min has_min' = (
  range_search-range_chain val desc valid up has_min,
  range_search-range_chain val desc valid up has_min,
  range_search-range_chain (wrap half16 val)
      (record small { range_min = wrap half16 small.range_min })
      (record {
        thresholds_length = valid'.thresholds_length;
        results_length = valid'.results_length;
      })
      up' has_min',
)
