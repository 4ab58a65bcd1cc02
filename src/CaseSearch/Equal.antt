-- ===== src/CaseSearch/Equal.antt =====
-- Simple CASE: the binary search for an equal value against the chain of equality tests.
use mathlib.Core.Path.{ap₂, fun_ext}
use pg_jitter.Prelude.{
  ℕ, zero, suc, ◌+◌, ◌-◌, ◌/◌, ◌≤◌, ◌<◌, ◌≡◌, ◌∙◌, sym, ap, Bool, true, false, List, length,
  get_elem?, some, none, Option, arith, ltb, ◌==◌, Bool-cases, inl, inr, ltb→lt,
}
use pg_jitter.Prelude.Int.{ℤ, ltb_ℤ}
use pg_jitter.Machine.{half16, half32, wrap, to_uint, eqb_ℤ}
use pg_jitter.CaseSearch.Defs.{
  CaseBSearchDesc, done, equal_loop, equal_search, pg_jitter_case_bsearch_eq_i32,
  pg_jitter_case_bsearch_eq_i64, pg_jitter_case_bsearch_eq_u32, pg_jitter_case_bsearch_eq_i16,
}
use pg_jitter.CaseSearch.Halving.{get_elem?-of_lt, lt-of_get_elem?}
use pg_jitter.CaseSearch.Exact.{IsDesc, case_chain-get_or, case_chain_none, read_or}
use pg_jitter.CaseSearch.Searched.{unsigned, chain}

-- The values rise strictly by `key`.
abbrev pub IsStrict : (ℤ → ℤ) → List ℤ → Type 0
IsStrict key a =
    (i j : ℕ) (s t : ℤ)
    → i < j
    → get_elem? a i ≡ some s
    → get_elem? a j ≡ some t
    → ltb_ℤ (key s) (key t) ≡ true

-- What the loop's result says: the index of an equal value, or that no value is equal.
abbrev Located : (ℤ → Bool) → List ℤ → Option ℕ → Type 0
Located equal a (some i) = (t : ℤ) × (get_elem? a i ≡ some t) × (equal t ≡ true)
Located equal a none = (i : ℕ) (t : ℤ) → get_elem? a i ≡ some t → equal t ≡ false

module _ (key : ℤ → ℤ) (v : ℤ) (a : List ℤ) (strict : IsStrict key a) where
  abbrev equal : ℤ → Bool
  equal t = eqb_ℤ (key t) v

  abbrev below : ℤ → Bool
  below t = ltb_ℤ (key t) v

  -- Outside [lo, top) no value is equal.
  record Inv (lo top : ℕ) : Type 0 where
    bound : top ≤ length a
    left : (i : ℕ) (t : ℤ) → i < lo → get_elem? a i ≡ some t → equal t ≡ false
    right : (i : ℕ) (t : ℤ) → top ≤ i → get_elem? a i ≡ some t → equal t ≡ false

  module _ {lo top m : ℕ} {t : ℤ} (inv : Inv lo top) (in_top : m < top) (e : get_elem? a m ≡ some t)
      (differs : equal t ≡ false) where
    upper-Inv : below t ≡ true → Inv (m + 1) top
    upper-Inv low = record {
      bound = inv.bound;
      left = λ i s h e'. ground (arith, strict i m s t);
      right = inv.right;
    }

    lower-Inv : below t ≡ false → Inv lo m
    lower-Inv high = record {
      bound = omega (arith, inv.bound);
      left = inv.left;
      right = λ i s h e'. ground (arith, strict m i t s);
    }

  equal_loop-Located :
      (rounds lo top : ℕ)
      → top - lo < rounds
      → Inv lo top
      → (o : Option ℕ) × (equal_loop equal below a rounds lo top ≡ done o) × Located equal a o
  unfolding equal_loop
  equal_loop-Located zero lo top fuel inv = absurd (omega arith)
  equal_loop-Located (suc rounds) lo top fuel inv = elim (Bool-cases (ltb lo top)) [
    | inr empty ↦
        (none, rw (empty, equal_loop), (λ i t e. ground (arith, inv.left i t, inv.right i t)))
    | inl more ↦
        let lt = ltb→lt lo top more in
        let mid = lo + (top - 1 - lo) / 2 in
        let in_top : mid < top = omega arith in
        let (t, e) = get_elem?-of_lt a mid (omega (arith, inv.bound)) in
        elim (Bool-cases (equal t)) [
          | inl hit ↦ (some mid, rw (more, e, hit, equal_loop), (t, e, hit))
          | inr miss ↦ elim (Bool-cases (below t)) [
            | inl low ↦
                rw (more, e, miss, low, equal_loop)
                  (equal_loop-Located rounds (mid + 1) top (omega arith)
                    (upper-Inv inv in_top e miss low))
            | inr high ↦
                rw (more, e, miss, high, equal_loop)
                  (equal_loop-Located rounds lo mid (omega arith)
                    (lower-Inv inv in_top e miss high))
          ]
        ]
  ]

pub unsigned_equal :
    (val : ℤ) (desc : CaseBSearchDesc)
    → equal_search
        (λ t. to_uint half32 t == to_uint half32 val)
        (λ t. ltb (to_uint half32 t) (to_uint half32 val))
        desc
      ≡ equal_search
          (λ t. eqb_ℤ (unsigned t) (unsigned val))
          (λ t. ltb_ℤ (unsigned t) (unsigned val))
          desc
unsigned_equal val desc =
    ap₂ (λ p q. equal_search p q desc) (fun_ext (λ t. ground arith)) (fun_ext (λ t. ground arith))

not_before :
    (key : ℤ → ℤ) (v : ℤ) (t s : ℤ)
    → eqb_ℤ (key t) v ≡ true
    → ltb_ℤ (key s) (key t) ≡ true
    → eqb_ℤ (key s) v ≡ false
not_before key v t s hit less = ground arith

module _ (key : ℤ → ℤ) (v : ℤ) (desc : CaseBSearchDesc) (valid : IsDesc desc)
    (strict : IsStrict key desc.thresholds) where
  same_length : length desc.thresholds ≡ length desc.results
  same_length = valid.thresholds_length ∙ sym valid.results_length

  Located-result :
      (o : Option ℕ)
      → Located (λ t. eqb_ℤ (key t) v) desc.thresholds o
      → equal_loop
          (λ t. eqb_ℤ (key t) v)
          (λ t. ltb_ℤ (key t) v)
          desc.thresholds
          (suc desc.n)
          0
          desc.n
        ≡ done o
      → equal_search (λ t. eqb_ℤ (key t) v) (λ t. ltb_ℤ (key t) v) desc
        ≡ chain (λ t. eqb_ℤ (key t) v) desc
  unfolding equal_search
  Located-result none misses e = rw e (
      ap done (
        sym (
          case_chain_none (λ t. eqb_ℤ (key t) v) desc.thresholds desc.results desc.default_val
            misses)))
  Located-result (some i) (t, e', hit) e =
      let first = λ (j : ℕ) (s : ℤ) (h : j < i) (ej : get_elem? desc.thresholds j ≡ some s).
        not_before key v t s hit (strict j i s t h ej e') in
      let inside = rw same_length at (lt-of_get_elem? desc.thresholds i e') in
      let spec =
        case_chain-get_or (λ t. eqb_ℤ (key t) v) desc.thresholds desc.results desc.default_val i
          same_length first (λ s es. ground (arith, hit)) in
      rw (e, spec) (ground (arith, read_or desc.results i desc.default_val inside))

  pub equal_search-chain :
      equal_search (λ t. eqb_ℤ (key t) v) (λ t. ltb_ℤ (key t) v) desc
      ≡ chain (λ t. eqb_ℤ (key t) v) desc
  equal_search-chain =
      let (o, e, located) =
        equal_loop-Located key v desc.thresholds strict (suc desc.n) 0 desc.n (omega arith)
          (record {
            bound = omega (arith, valid.thresholds_length);
            left = λ i t h e. absurd (omega arith);
            right = λ i t h e.
                absurd
                  (omega (arith, valid.thresholds_length, lt-of_get_elem? desc.thresholds i e));
          }) in
      Located-result o located e

-- The equality searches return what the chain of equality tests returns, where the values rise
-- strictly: as signed numbers for int4, int8 and int2, of which the searched value's low 16 bits
-- count, and as unsigned numbers for object ids.
pub equality_searches :
    (val : ℤ) (desc oids : CaseBSearchDesc)
    → IsDesc desc
    → IsDesc oids
    → IsStrict (λ t. t) desc.thresholds
    → IsStrict unsigned oids.thresholds
    → (pg_jitter_case_bsearch_eq_i32 val desc ≡ chain (λ t. eqb_ℤ t val) desc)
      × (pg_jitter_case_bsearch_eq_i64 val desc ≡ chain (λ t. eqb_ℤ t val) desc)
      × (pg_jitter_case_bsearch_eq_i16 val desc ≡ chain (λ t. eqb_ℤ t (wrap half16 val)) desc)
      × (pg_jitter_case_bsearch_eq_u32 val oids
          ≡ chain (λ t. eqb_ℤ (unsigned t) (unsigned val)) oids)
unfolding pg_jitter_case_bsearch_eq_i32 pg_jitter_case_bsearch_eq_i64 pg_jitter_case_bsearch_eq_i16
    pg_jitter_case_bsearch_eq_u32
equality_searches val desc oids valid valid' strict strict' = (
  equal_search-chain (λ t. t) val desc valid strict,
  equal_search-chain (λ t. t) val desc valid strict,
  equal_search-chain (λ t. t) (wrap half16 val) desc valid strict,
  unsigned_equal val oids ∙ equal_search-chain unsigned (unsigned val) oids valid' strict',
)
