-- ===== src/CaseDetect/Sorted.antt =====
-- The sort of a simple CASE does not change its meaning: the values of the branches are distinct, so
-- the order of the branches does not matter.
use pg_jitter.Prelude.{
  ℕ, zero, suc, ◌<◌, ◌≡◌, ◌∙◌, sym, refl, ap, Bool, true, false, List, [], ◌∷◌, map, ◌⊎◌, inl, inr,
  get_elem?, length, some, arith, if◌then◌else◌, Bool-cases,
}
use pg_jitter.Prelude.Int.{ℤ, pos, ltb_ℤ, leb_ℤ, ◌-ℤ◌}
use pg_jitter.Machine.{eqb_ℤ}
use pg_jitter.CaseSearch.Defs.{Datum}
use pg_jitter.CaseSearch.Exact.{case_chain}
use pg_jitter.CaseDetect.Build.{
  ThresholdResult, Comparator, Platform, three_way, duplicate_threshold,
}
use pg_jitter.CaseDetect.Order.{adjacent, adjacent_pairs}

abbrev pub by_key : (ThresholdResult → ℤ) → Comparator
by_key key a b = three_way (key a) (key b)

-- The C library's sort, on a comparator that compares numbers: a list of the same length with the same
-- elements, in order.
pub record IsQsort (qsort : Comparator → List ThresholdResult → List ThresholdResult) : Type 0 where
  pub same_length :
      (key : ThresholdResult → ℤ) (ps : List ThresholdResult)
      → length (qsort (by_key key) ps) ≡ length ps
  pub from_input :
      (key : ThresholdResult → ℤ) (ps : List ThresholdResult) (i : ℕ) (q : ThresholdResult)
      → get_elem? (qsort (by_key key) ps) i ≡ some q
      → (j : ℕ) × (get_elem? ps j ≡ some q)
  pub to_output :
      (key : ThresholdResult → ℤ) (ps : List ThresholdResult) (j : ℕ) (q : ThresholdResult)
      → get_elem? ps j ≡ some q
      → (i : ℕ) × (get_elem? (qsort (by_key key) ps) i ≡ some q)
  pub in_order :
      (key : ThresholdResult → ℤ) (ps : List ThresholdResult)
      → adjacent (λ a b. leb_ℤ (key a) (key b)) (qsort (by_key key) ps) ≡ true

-- The chain of tests over the pairs.
unfoldable pub pair_chain : (ThresholdResult → Bool) → List ThresholdResult → Datum → Datum
pair_chain test [] d = d
pair_chain test (q ∷ qs) d = if test q then q.result else pair_chain test qs d

pub case_chain-pair_chain :
    (test : ℤ → Bool) (ps : List ThresholdResult) (d : Datum)
    → case_chain test (map (λ q. q.threshold) ps) (map (λ q. q.result) ps) d
      ≡ pair_chain (λ q. test q.threshold) ps d
unfolding case_chain pair_chain
case_chain-pair_chain test [] d = refl
case_chain-pair_chain test (q ∷ qs) d = ground (arith, case_chain-pair_chain test qs d)

-- No pair passes, or the chain gives the result of one that does.
Decided : (ThresholdResult → Bool) → List ThresholdResult → Datum → Type 0
Decided test ps d =
    (((i : ℕ) (q : ThresholdResult) → get_elem? ps i ≡ some q → test q ≡ false)
      × (pair_chain test ps d ≡ d))
    ⊎ ((i : ℕ) × (q : ThresholdResult) × (get_elem? ps i ≡ some q)
        × (test q ≡ true)
        × (pair_chain test ps d ≡ q.result))

none_pass :
    (test : ThresholdResult → Bool) (q : ThresholdResult) (qs : List ThresholdResult)
    → test q ≡ false
    → ((i : ℕ) (r : ThresholdResult) → get_elem? qs i ≡ some r → test r ≡ false)
    → (i : ℕ) (r : ThresholdResult) → get_elem? (q ∷ qs) i ≡ some r
    → test r ≡ false
none_pass test q qs fails rest zero r e = let same : q ≡ r = ground (arith, e) in rw (← same) fails
none_pass test q qs fails rest (suc i) r e = rest i r e

pair_chain-Decided :
    (test : ThresholdResult → Bool) (ps : List ThresholdResult) (d : Datum) → Decided test ps d
unfolding Decided pair_chain
pair_chain-Decided test [] d = inl (λ i q e. absurd (ground (arith, e)), refl)
pair_chain-Decided test (q ∷ qs) d = elim (Bool-cases (test q)) [
  | inl passes ↦ inr (zero, q, refl, passes, rw passes refl)
  | inr fails ↦ elim (pair_chain-Decided test qs d) [
    | inl (rest, e) ↦ inl (none_pass test q qs fails rest, rw fails e)
    | inr (i, r, e, passes, e') ↦ inr (suc i, r, e, passes, rw fails e')
  ]
]

compared : (i j : ℕ) → (i < j) ⊎ ((j < i) ⊎ (i ≡ j))
compared i j = omega arith

module _ (key : ThresholdResult → ℤ) (ps : List ThresholdResult)
    (strict : adjacent (λ a b. ltb_ℤ (key a) (key b)) ps ≡ true) where
  less :
      (i j : ℕ) (q r : ThresholdResult)
      → i < j
      → get_elem? ps i ≡ some q
      → get_elem? ps j ≡ some r
      → ltb_ℤ (key q) (key r) ≡ true
  less i j q r h e e' =
      adjacent_pairs (λ a b. ltb_ℤ (key a) (key b)) (λ a b c h1 h2. ground (arith, h1, h2)) ps i j q
        r strict h e e'

  -- In a list that rises strictly a key belongs to one pair.
  unique :
      (v : ℤ) (i j : ℕ) (q r : ThresholdResult)
      → get_elem? ps i ≡ some q
      → get_elem? ps j ≡ some r
      → eqb_ℤ (key q) v ≡ true
      → eqb_ℤ (key r) v ≡ true
      → q ≡ r
  unique v i j q r e e' h h' = elim (compared i j) [
    | inl lt ↦ absurd (ground (arith, less i j q r lt e e', h, h'))
    | inr (inl gt) ↦ absurd (ground (arith, less j i r q gt e' e, h, h'))
    | inr (inr eq) ↦ ground (arith, e, e', ap (get_elem? ps) eq)
  ]

-- Two lists with the same pairs, of which one rises strictly, have the same chain of equality tests.
pub same_chain :
    (key : ThresholdResult → ℤ) (v : ℤ) (ps out : List ThresholdResult) (d : Datum)
    → adjacent (λ a b. ltb_ℤ (key a) (key b)) out ≡ true
    → ((i : ℕ) (q : ThresholdResult)
        → get_elem? out i ≡ some q
        → (j : ℕ) × (get_elem? ps j ≡ some q))
    → ((j : ℕ) (q : ThresholdResult)
        → get_elem? ps j ≡ some q
        → (i : ℕ) × (get_elem? out i ≡ some q))
    → pair_chain (λ q. eqb_ℤ (key q) v) out d ≡ pair_chain (λ q. eqb_ℤ (key q) v) ps d
unfolding Decided
same_chain key v ps out d strict from to =
    let test = λ (q : ThresholdResult). eqb_ℤ (key q) v in
    elim (pair_chain-Decided test ps d) [
      | inl (misses, e) ↦ elim (pair_chain-Decided test out d) [
        | inl (misses', e') ↦ e' ∙ sym e
        | inr (i, q, at, hit, e') ↦
            let (j, at') = from i q at in absurd (ground (arith, misses j q at', hit))
      ]
      | inr (j, q, at, hit, e) ↦
          let (i, at') = to j q at in
          elim (pair_chain-Decided test out d) [
            | inl (misses, e') ↦ absurd (ground (arith, misses i q at', hit))
            | inr (k, r, at'', hit', e') ↦
                e' ∙ ap (λ x. x.result) (unique key out strict v k i r q at'' at' hit' hit) ∙ sym e
          ]
    ]

strictly : (x y : ℤ) → leb_ℤ x y ≡ true → eqb_ℤ (three_way x y) (pos 0) ≡ false → ltb_ℤ x y ≡ true
unfolding ◌-ℤ◌
strictly x y h h' = ground (arith, h, h')

-- Sorted pairs without two that compare as equal rise strictly.
pub no_duplicates :
    (p : Platform) (key : ThresholdResult → ℤ) (ps : List ThresholdResult)
    → adjacent (λ a b. leb_ℤ (key a) (key b)) ps ≡ true
    → duplicate_threshold p (by_key key) ps ≡ false
    → adjacent (λ a b. ltb_ℤ (key a) (key b)) ps ≡ true
no_duplicates p key [] sorted distinct = refl
no_duplicates p key (a ∷ []) sorted distinct = refl
no_duplicates p key (a ∷ b ∷ ps) sorted distinct =
    let rest = no_duplicates p key (b ∷ ps) (ground (arith, sorted)) (ground (arith, distinct)) in
    let differ : eqb_ℤ (three_way (key a) (key b)) (pos 0) ≡ false = ground (arith, distinct) in
    ground (arith, rest, strictly (key a) (key b), sorted, differ)
