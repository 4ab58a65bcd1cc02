-- ===== src/CaseSearch/Exact.antt =====
-- The search helpers of searched CASE expressions return what the chain of WHEN tests returns.
use pg_jitter.Prelude.{
  ℕ, zero, suc, ◌≤◌, ◌<◌, ◌≡◌, ◌∙◌, sym, refl, ap, Bool, true, false, List, [], ◌∷◌, length,
  get_elem?, get_or, some, arith, if◌then◌else◌,
}
use pg_jitter.Prelude.Int.{ℤ}
use pg_jitter.CaseSearch.Defs.{Datum, CaseBSearchDesc, done, first_true, threshold_search}
use pg_jitter.CaseSearch.Halving.{IsMonotone, first_true_result, lt-of_get_elem?}

-- CASE WHEN test t₀ THEN r₀ WHEN test t₁ THEN r₁ … ELSE d END
unfoldable pub case_chain : (ℤ → Bool) → List ℤ → List Datum → Datum → Datum
case_chain test (t ∷ ts) (r ∷ rs) d = if test t then r else case_chain test ts rs d
case_chain test _ _ d = d

-- The descriptor's count is the length of both arrays.
pub record IsDesc (desc : CaseBSearchDesc) : Type 0 where
  pub thresholds_length : length desc.thresholds ≡ desc.n
  pub results_length : length desc.results ≡ desc.n

-- The first passing threshold decides the chain.
pub case_chain-get_or :
    (test : ℤ → Bool) (ts : List ℤ) (rs : List Datum) (d : Datum) (r : ℕ)
    → length ts ≡ length rs
    → ((i : ℕ) (t : ℤ) → i < r → get_elem? ts i ≡ some t → test t ≡ false)
    → ((t : ℤ) → get_elem? ts r ≡ some t → test t ≡ true)
    → case_chain test ts rs d ≡ get_or rs r d
unfolding case_chain
case_chain-get_or test [] [] d r len below at = refl
case_chain-get_or test [] (x ∷ rs) d r len below at = absurd (omega arith)
case_chain-get_or test (t ∷ ts) [] d r len below at = absurd (omega arith)
case_chain-get_or test (t ∷ ts) (x ∷ rs) d zero len below at = rw (at t refl)
case_chain-get_or test (t ∷ ts) (x ∷ rs) d (suc r) len below at =
    rw (below 0 t (omega arith) refl) (
      case_chain-get_or test ts rs d r (omega arith) (λ i t' h e. below (suc i) t' (omega arith) e)
        at)

-- Where no threshold passes the chain gives the ELSE result.
pub case_chain_none :
    (test : ℤ → Bool) (ts : List ℤ) (rs : List Datum) (d : Datum)
    → ((i : ℕ) (t : ℤ) → get_elem? ts i ≡ some t → test t ≡ false)
    → case_chain test ts rs d ≡ d
unfolding case_chain
case_chain_none test [] rs d h = refl
case_chain_none test (t ∷ ts) [] d h = refl
case_chain_none test (t ∷ ts) (r ∷ rs) d h =
    rw (h 0 t refl) (case_chain_none test ts rs d (λ i t' e. h (suc i) t' e))

pub read_or :
    (rs : List Datum) (i : ℕ) (d : Datum) → i < length rs → get_elem? rs i ≡ some (get_or rs i d)
read_or [] i d h = absurd (omega arith)
read_or (x ∷ rs) zero d h = refl
read_or (x ∷ rs) (suc i) d h = read_or rs i d (omega arith)

get_or-past : (rs : List Datum) (i : ℕ) (d : Datum) → length rs ≤ i → get_or rs i d ≡ d
get_or-past [] i d h = refl
get_or-past (x ∷ rs) zero d h = absurd (omega arith)
get_or-past (x ∷ rs) (suc i) d h = get_or-past rs i d (omega arith)

module _ (test : ℤ → Bool) (desc : CaseBSearchDesc) (valid : IsDesc desc) where
  search_result :
      (r : ℕ)
      → first_true test desc.thresholds (suc desc.n) 0 desc.n ≡ done r
      → threshold_search test desc ≡ done (get_or desc.results r desc.default_val)
  unfolding threshold_search
  search_result r e = ground (
    arith,
    valid.results_length,
    read_or desc.results r desc.default_val,
    get_or-past desc.results r desc.default_val,
  )

  in_range : (r : ℕ) (t : ℤ) → get_elem? desc.thresholds r ≡ some t → r < desc.n
  in_range r t e = rw (← valid.thresholds_length) (lt-of_get_elem? desc.thresholds r e)

  -- On thresholds of which all after a passing one pass, the search is the chain.
  pub threshold_search-case_chain :
      IsMonotone test desc.thresholds
      → threshold_search test desc
        ≡ done (case_chain test desc.thresholds desc.results desc.default_val)
  threshold_search-case_chain mono =
      let same : length desc.thresholds ≡ length desc.results =
        valid.thresholds_length ∙ sym valid.results_length in
      let (r, e, split) =
        first_true_result test desc.thresholds desc.n mono
          (omega (arith, valid.thresholds_length)) in
      search_result r e
      ∙ ap done (
          sym (
            case_chain-get_or test desc.thresholds desc.results desc.default_val r same split.1
              (λ t e'. split.2 r t (omega arith) (in_range r t e') e')))
