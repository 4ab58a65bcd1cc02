-- ===== src/CaseSearch/Searched.antt =====
-- Searched CASE: the helpers for `<`, `<=`, `>` and `>=` against the chain of WHEN tests.
use pg_jitter.Prelude.{ℕ, ◌≤◌, ◌≡◌, Bool, false, List, get_elem?, some, arith, ltb, leb}
use pg_jitter.Prelude.Int.{ℤ, pos, ltb_ℤ, leb_ℤ, ◌≤ℤ◌}
use pg_jitter.Machine.{half16, half32, wrap, to_uint}
use pg_jitter.CaseSearch.Defs.{
  CaseBSearchDesc, Run, done, range_search, pg_jitter_case_bsearch_lt_i32,
  pg_jitter_case_bsearch_le_i32, pg_jitter_case_bsearch_lt_i64, pg_jitter_case_bsearch_le_i64,
  pg_jitter_case_bsearch_gt_i32, pg_jitter_case_bsearch_ge_i32, pg_jitter_case_bsearch_gt_i64,
  pg_jitter_case_bsearch_ge_i64, pg_jitter_case_bsearch_lt_u32, pg_jitter_case_bsearch_le_u32,
  pg_jitter_case_bsearch_gt_u32, pg_jitter_case_bsearch_ge_u32, pg_jitter_case_bsearch_lt_i16,
  pg_jitter_case_bsearch_le_i16, pg_jitter_case_bsearch_gt_i16, pg_jitter_case_bsearch_ge_i16,
}
use pg_jitter.CaseSearch.Halving.{IsMonotone}
use pg_jitter.CaseSearch.Exact.{case_chain, IsDesc, threshold_search-case_chain}

-- The thresholds rise, or fall, by `key`.
abbrev pub IsAscending : (ℤ → ℤ) → List ℤ → Type 0
IsAscending key a =
    (i j : ℕ) (s t : ℤ) → i ≤ j → get_elem? a i ≡ some s → get_elem? a j ≡ some t → key s ≤ℤ key t

abbrev pub IsDescending : (ℤ → ℤ) → List ℤ → Type 0
IsDescending key a =
    (i j : ℕ) (s t : ℤ) → i ≤ j → get_elem? a i ≡ some s → get_elem? a j ≡ some t → key t ≤ℤ key s

abbrev pub unsigned : ℤ → ℤ
unsigned z = pos (to_uint half32 z)

-- What the chain of WHEN tests returns.
abbrev pub chain : (ℤ → Bool) → CaseBSearchDesc → Run ℕ
chain test desc = done (case_chain test desc.thresholds desc.results desc.default_val)

module _ (key : ℤ → ℤ) (v : ℤ) (a : List ℤ) where
  pub lt-IsMonotone : IsAscending key a → IsMonotone (λ t. ltb_ℤ v (key t)) a
  lt-IsMonotone up i j s t h e e' p = ground (arith, up i j s t h e e')

  pub le-IsMonotone : IsAscending key a → IsMonotone (λ t. leb_ℤ v (key t)) a
  le-IsMonotone up i j s t h e e' p = ground (arith, up i j s t h e e')

  pub gt-IsMonotone : IsDescending key a → IsMonotone (λ t. ltb_ℤ (key t) v) a
  gt-IsMonotone down i j s t h e e' p = ground (arith, down i j s t h e e')

  pub ge-IsMonotone : IsDescending key a → IsMonotone (λ t. leb_ℤ (key t) v) a
  ge-IsMonotone down i j s t h e e' p = ground (arith, down i j s t h e e')

-- The searches for `<` and `<=` over signed thresholds that rise, of a descriptor without a lower
-- bound, return what the chain of WHEN tests returns; the int2 searches test the low 16 bits.
pub ascending_searches :
    (val : ℤ) (desc : CaseBSearchDesc)
    → IsDesc desc
    → IsAscending (λ t. t) desc.thresholds
    → desc.has_range_min ≡ false
    → (pg_jitter_case_bsearch_lt_i32 val desc ≡ chain (λ t. ltb_ℤ val t) desc)
      × (pg_jitter_case_bsearch_le_i32 val desc ≡ chain (λ t. leb_ℤ val t) desc)
      × (pg_jitter_case_bsearch_lt_i64 val desc ≡ chain (λ t. ltb_ℤ val t) desc)
      × (pg_jitter_case_bsearch_le_i64 val desc ≡ chain (λ t. leb_ℤ val t) desc)
      × (pg_jitter_case_bsearch_lt_i16 val desc ≡ chain (λ t. ltb_ℤ (wrap half16 val) t) desc)
      × (pg_jitter_case_bsearch_le_i16 val desc ≡ chain (λ t. leb_ℤ (wrap half16 val) t) desc)
unfolding pg_jitter_case_bsearch_lt_i32 pg_jitter_case_bsearch_le_i32 pg_jitter_case_bsearch_lt_i64
    pg_jitter_case_bsearch_le_i64 pg_jitter_case_bsearch_lt_i16 pg_jitter_case_bsearch_le_i16
    range_search
ascending_searches val desc valid up no_min =
    let lt = λ (v : ℤ).
      threshold_search-case_chain (λ t. ltb_ℤ v t) desc valid
        (lt-IsMonotone (λ t. t) v desc.thresholds up) in
    let le = λ (v : ℤ).
      threshold_search-case_chain (λ t. leb_ℤ v t) desc valid
        (le-IsMonotone (λ t. t) v desc.thresholds up) in
    (
      simp no_min (lt val),
      le val,
      simp no_min (lt val),
      le val,
      simp no_min (lt (wrap half16 val)),
      simp no_min (le (wrap half16 val)),
    )

-- The searches for `>` and `>=` over signed thresholds that fall return what the chain of WHEN tests
-- returns; the int2 searches test the low 16 bits, and their descriptor has no lower bound.
pub descending_searches :
    (val : ℤ) (desc : CaseBSearchDesc)
    → IsDesc desc
    → IsDescending (λ t. t) desc.thresholds
    → desc.has_range_min ≡ false
    → (pg_jitter_case_bsearch_gt_i32 val desc ≡ chain (λ t. ltb_ℤ t val) desc)
      × (pg_jitter_case_bsearch_ge_i32 val desc ≡ chain (λ t. leb_ℤ t val) desc)
      × (pg_jitter_case_bsearch_gt_i64 val desc ≡ chain (λ t. ltb_ℤ t val) desc)
      × (pg_jitter_case_bsearch_ge_i64 val desc ≡ chain (λ t. leb_ℤ t val) desc)
      × (pg_jitter_case_bsearch_gt_i16 val desc ≡ chain (λ t. ltb_ℤ t (wrap half16 val)) desc)
      × (pg_jitter_case_bsearch_ge_i16 val desc ≡ chain (λ t. leb_ℤ t (wrap half16 val)) desc)
unfolding pg_jitter_case_bsearch_gt_i32 pg_jitter_case_bsearch_ge_i32 pg_jitter_case_bsearch_gt_i64
    pg_jitter_case_bsearch_ge_i64 pg_jitter_case_bsearch_gt_i16 pg_jitter_case_bsearch_ge_i16
descending_searches val desc valid down no_min =
    let gt = λ (v : ℤ).
      threshold_search-case_chain (λ t. ltb_ℤ t v) desc valid
        (gt-IsMonotone (λ t. t) v desc.thresholds down) in
    let ge = λ (v : ℤ).
      threshold_search-case_chain (λ t. leb_ℤ t v) desc valid
        (ge-IsMonotone (λ t. t) v desc.thresholds down) in
    (
      gt val,
      ge val,
      gt val,
      ge val,
      simp no_min (gt (wrap half16 val)),
      simp no_min (ge (wrap half16 val)),
    )

-- The searches over object ids compare as unsigned numbers, and return what the chain of WHEN tests
-- returns: `<` and `<=` over thresholds that rise, `>` and `>=` over thresholds that fall.
pub unsigned_searches :
    (val : ℤ) (rising falling : CaseBSearchDesc)
    → IsDesc rising
    → IsDesc falling
    → IsAscending unsigned rising.thresholds
    → IsDescending unsigned falling.thresholds
    → (pg_jitter_case_bsearch_lt_u32 val rising
        ≡ chain (λ t. ltb (to_uint half32 val) (to_uint half32 t)) rising)
      × (pg_jitter_case_bsearch_le_u32 val rising
          ≡ chain (λ t. leb (to_uint half32 val) (to_uint half32 t)) rising)
      × (pg_jitter_case_bsearch_gt_u32 val falling
          ≡ chain (λ t. ltb (to_uint half32 t) (to_uint half32 val)) falling)
      × (pg_jitter_case_bsearch_ge_u32 val falling
          ≡ chain (λ t. leb (to_uint half32 t) (to_uint half32 val)) falling)
unfolding pg_jitter_case_bsearch_lt_u32 pg_jitter_case_bsearch_le_u32 pg_jitter_case_bsearch_gt_u32
    pg_jitter_case_bsearch_ge_u32
unsigned_searches val rising falling vr vf up down = (
  threshold_search-case_chain _ rising vr (λ i j s t h e e' p. ground (arith, up i j s t h e e')),
  threshold_search-case_chain _ rising vr (λ i j s t h e e' p. ground (arith, up i j s t h e e')),
  threshold_search-case_chain _ falling vf
      (λ i j s t h e e' p. ground (arith, down i j s t h e e')),
  threshold_search-case_chain _ falling vf
      (λ i j s t h e e' p. ground (arith, down i j s t h e e')),
)
