-- ===== src/ScalarArray/Search.antt =====
-- `simd_int4_array_eq` and `simd_int8_array_eq`: the NEON loops and the plain one. A read beyond the
-- array gives none.
use pg_jitter.Prelude.{
  ℕ, zero, suc, ◌-◌, ◌≤◌, ◌≡◌, ◌∙◌, ap, refl, Bool, true, false, ◌||◌, Option, none, some, List, [],
  ◌∷◌, length, take, leb, if◌then◌else◌, arith, Bool-cases, inl, inr,
}
use pg_jitter.Prelude.Int.{ℤ}
use pg_jitter.Machine.{eqb_ℤ}

-- for (; i < nitems; i++) if (data[i] == val) return 1; return 0; with the rest of the array and of nitems.
unfoldable pub plain_loop : ℤ → List ℤ → ℕ → Option Bool
plain_loop val items zero = some false
plain_loop val [] (suc left) = none
plain_loop val (d ∷ items) (suc left) =
    let rest = plain_loop val items left in if eqb_ℤ d val then some true else rest

-- Four lanes at a time.
unfoldable pub lanes4_loop : ℤ → List ℤ → ℕ → Option Bool
lanes4_loop val (a ∷ b ∷ c ∷ d ∷ items) left =
    let rest = lanes4_loop val items (left - 4) in
    if leb 4 left
    then (if eqb_ℤ a val || eqb_ℤ b val || eqb_ℤ c val || eqb_ℤ d val then some true else rest)
    else plain_loop val (a ∷ b ∷ c ∷ d ∷ items) left
lanes4_loop val items left = if leb 4 left then none else plain_loop val items left

-- Two lanes at a time.
unfoldable pub lanes2_loop : ℤ → List ℤ → ℕ → Option Bool
lanes2_loop val (a ∷ b ∷ items) left =
    let rest = lanes2_loop val items (left - 2) in
    if leb 2 left
    then (if eqb_ℤ a val || eqb_ℤ b val then some true else rest)
    else plain_loop val (a ∷ b ∷ items) left
lanes2_loop val items left = if leb 2 left then none else plain_loop val items left

-- `neon` says which of the two bodies is compiled.
unfoldable pub simd_int4_array_eq : Bool → ℤ → List ℤ → ℕ → Option Bool
simd_int4_array_eq neon val items nitems =
    if neon then lanes4_loop val items nitems else plain_loop val items nitems

unfoldable pub simd_int8_array_eq : Bool → ℤ → List ℤ → ℕ → Option Bool
simd_int8_array_eq neon val items nitems =
    if neon then lanes2_loop val items nitems else plain_loop val items nitems

-- Whether a value stands in the list.
unfoldable pub contains : ℤ → List ℤ → Bool
contains val [] = false
contains val (d ∷ items) = eqb_ℤ d val || contains val items

plain_finds :
    (val : ℤ) (items : List ℤ) (n : ℕ)
    → n ≤ length items
    → plain_loop val items n ≡ some (contains val (take n items))
unfolding plain_loop contains
plain_finds val items zero h = refl
plain_finds val [] (suc n) h = absurd (omega arith)
plain_finds val (d ∷ items) (suc n) h = elim (Bool-cases (eqb_ℤ d val)) [
  | inl e ↦ rw (e, plain_loop, contains) refl
  | inr e ↦ rw (e, plain_loop, contains) (plain_finds val items n (omega arith))
]

any_of_four :
    (a b c d r : Bool) (rest : Option Bool)
    → rest ≡ some r
    → (if a || b || c || d then some true else rest) ≡ some (a || (b || (c || (d || r))))
any_of_four true b c d r rest h = refl
any_of_four false true c d r rest h = refl
any_of_four false false true d r rest h = refl
any_of_four false false false true r rest h = refl
any_of_four false false false false r rest h = h

any_of_two :
    (a b r : Bool) (rest : Option Bool)
    → rest ≡ some r
    → (if a || b then some true else rest) ≡ some (a || (b || r))
any_of_two true b r rest h = refl
any_of_two false true r rest h = refl
any_of_two false false r rest h = h

too_short : (size n : ℕ) → size ≤ 3 → n ≤ size → leb 4 n ≡ false
too_short size n few h = ground arith

too_short_two : (n : ℕ) → n ≤ 1 → leb 2 n ≡ false
too_short_two n h = ground arith

few :
    (four : Bool) (val : ℤ) (items : List ℤ) (n : ℕ)
    → n ≤ length items
    → four ≡ false
    → (if four then none else plain_loop val items n) ≡ some (contains val (take n items))
few four val items n h e = rw e (plain_finds val items n h)

lanes4_finds :
    (val : ℤ) (items : List ℤ) (n : ℕ)
    → n ≤ length items
    → lanes4_loop val items n ≡ some (contains val (take n items))
unfolding lanes4_loop contains
lanes4_finds val [] n h = few _ val [] n h (too_short 0 n (omega arith) h)
lanes4_finds val (a ∷ []) n h = few _ val (a ∷ []) n h (too_short 1 n (omega arith) h)
lanes4_finds val (a ∷ b ∷ []) n h = few _ val (a ∷ b ∷ []) n h (too_short 2 n (omega arith) h)
lanes4_finds val (a ∷ b ∷ c ∷ []) n h =
    few _ val (a ∷ b ∷ c ∷ []) n h (too_short 3 n (omega arith) h)
lanes4_finds val (a ∷ b ∷ c ∷ d ∷ items) zero h = plain_finds val (a ∷ b ∷ c ∷ d ∷ items) 0 h
lanes4_finds val (a ∷ b ∷ c ∷ d ∷ items) (suc zero) h = plain_finds val (a ∷ b ∷ c ∷ d ∷ items) 1 h
lanes4_finds val (a ∷ b ∷ c ∷ d ∷ items) (suc (suc zero)) h =
    plain_finds val (a ∷ b ∷ c ∷ d ∷ items) 2 h
lanes4_finds val (a ∷ b ∷ c ∷ d ∷ items) (suc (suc (suc zero))) h =
    plain_finds val (a ∷ b ∷ c ∷ d ∷ items) 3 h
lanes4_finds val (a ∷ b ∷ c ∷ d ∷ items) (suc (suc (suc (suc n)))) h =
    let less : suc (suc (suc (suc n))) - 4 ≡ n = omega arith in
    let enough : leb 4 (suc (suc (suc (suc n)))) ≡ true = ground arith in
    rw enough (
      any_of_four (eqb_ℤ a val) (eqb_ℤ b val) (eqb_ℤ c val) (eqb_ℤ d val)
        (contains val (take n items)) _
        (ap (lanes4_loop val items) less ∙ lanes4_finds val items n (omega arith)))

lanes2_finds :
    (val : ℤ) (items : List ℤ) (n : ℕ)
    → n ≤ length items
    → lanes2_loop val items n ≡ some (contains val (take n items))
unfolding lanes2_loop contains
lanes2_finds val [] n h = few _ val [] n h (too_short_two n (omega arith))
lanes2_finds val (a ∷ []) n h = few _ val (a ∷ []) n h (too_short_two n h)
lanes2_finds val (a ∷ b ∷ items) zero h = plain_finds val (a ∷ b ∷ items) 0 h
lanes2_finds val (a ∷ b ∷ items) (suc zero) h = plain_finds val (a ∷ b ∷ items) 1 h
lanes2_finds val (a ∷ b ∷ items) (suc (suc n)) h =
    let less : suc (suc n) - 2 ≡ n = omega arith in
    let enough : leb 2 (suc (suc n)) ≡ true = ground arith in
    rw enough (
      any_of_two (eqb_ℤ a val) (eqb_ℤ b val) (contains val (take n items)) _
        (ap (lanes2_loop val items) less ∙ lanes2_finds val items n (omega arith)))

module _ (neon : Bool) (val : ℤ) (items : List ℤ) (nitems : ℕ) (h : nitems ≤ length items) where
  -- Both bodies answer whether the value stands among the first `nitems` of the array.
  pub int4_array_eq_lem :
      simd_int4_array_eq neon val items nitems ≡ some (contains val (take nitems items))
  unfolding simd_int4_array_eq
  int4_array_eq_lem = elim (Bool-cases neon) [
    | inl e ↦ rw e (lanes4_finds val items nitems h)
    | inr e ↦ rw e (plain_finds val items nitems h)
  ]

  pub int8_array_eq_lem :
      simd_int8_array_eq neon val items nitems ≡ some (contains val (take nitems items))
  unfolding simd_int8_array_eq
  int8_array_eq_lem = elim (Bool-cases neon) [
    | inl e ↦ rw e (lanes2_finds val items nitems h)
    | inr e ↦ rw e (plain_finds val items nitems h)
  ]

-- Both bodies of the two integer searches, with the NEON instructions and without, answer whether the
-- value stands among the first `nitems` of the array, where it has as many, and read nothing behind it.
pub integer_searches :
    (neon : Bool) (val : ℤ) (items : List ℤ) (nitems : ℕ)
    → nitems ≤ length items
    → (simd_int4_array_eq neon val items nitems ≡ some (contains val (take nitems items)))
      × (simd_int8_array_eq neon val items nitems ≡ some (contains val (take nitems items)))
integer_searches neon val items nitems h =
    (int4_array_eq_lem neon val items nitems h, int8_array_eq_lem neon val items nitems h)
