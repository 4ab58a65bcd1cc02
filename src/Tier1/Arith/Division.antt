-- ===== src/Tier1/Arith/Division.antt =====
-- Division and remainder truncate toward zero, and their guards catch what C leaves undefined.
use native.Mathlib.Nat.{mod-lt, div-add-mod', div-le_self, div-one, div-lt_self}
use pg_jitter.Prelude.{
  Bool-cases, ap, ℕ, zero, suc, ◌+◌, ◌*◌, ◌/◌, ◌%◌, ◌≤◌, ◌<◌, ◌≡◌, ◌≢◌, ◌⊎◌, inl, inr, Bool, true,
  false, arith, if◌then◌else◌, refl,
}
use pg_jitter.Prelude.Int.{
  ℤ, pos, negsuc, ◌+ℤ◌, ◌*ℤ◌, pos_part, neg_part, eq_of_parts, +ℤ_parts, *ℤ_parts,
}
use pg_jitter.Machine.{
  half16, half32, half64, IsInt, wrap, wrap16-IsInt, magnitude, quot_ℤ, rem_ℤ, is_neg, with_sign,
  eqb_ℤ, fits,
}
use pg_jitter.Tier1.Checked.{
  Error, int2_overflow, int4_overflow, int8_overflow, division_by_zero, Result, ok, err, exactly,
}
use pg_jitter.Tier1.Arith.Defs.{
  is_min_by_minus_one, jit_int4div, jit_int4mod, jit_int8div, jit_int8mod, jit_int2div, jit_int2mod,
}

-- `q` and `r` are the quotient and the remainder of a division that truncates toward zero: the
-- remainder is less than the divisor in size, and is zero or has the sign of the dividend.
abbrev pub Truncates : ℤ → ℤ → ℤ → ℤ → Type 0
Truncates a b q r =
    (q *ℤ b +ℤ r ≡ a) × (magnitude r < magnitude b) × ((r ≡ pos 0) ⊎ (is_neg r ≡ is_neg a))

with_sign_rem : (s : Bool) (n : ℕ) → (with_sign s n ≡ pos 0) ⊎ (is_neg (with_sign s n) ≡ s)
with_sign_rem true zero = inl refl
with_sign_rem true (suc n) = inr refl
with_sign_rem false n = inr refl

with_sign_parts : (n : ℕ) → (pos_part (with_sign true n) ≡ 0) × (neg_part (with_sign true n) ≡ n)
with_sign_parts zero = (refl, refl)
with_sign_parts (suc n) = (refl, refl)

magnitude-with_sign : (s : Bool) (n : ℕ) → magnitude (with_sign s n) ≡ n
magnitude-with_sign true zero = refl
magnitude-with_sign true (suc n) = refl
magnitude-with_sign false n = refl

-- The product of a number with a sign, by the parts of the other factor.
with_sign-*ℤ :
    (n : ℕ) (b : ℤ)
    → pos_part (with_sign true n *ℤ b) + n * pos_part b
      ≡ neg_part (with_sign true n *ℤ b) + n * neg_part b
with_sign-*ℤ n b =
    let p = rw ((with_sign_parts n).0, (with_sign_parts n).1) at (*ℤ_parts (with_sign true n) b) in
    omega arith

quot-rem_sum : (a b : ℤ) → quot_ℤ a b *ℤ b +ℤ rem_ℤ a b ≡ a
quot-rem_sum (pos n) (pos m) = eq_of_parts _ _ (omega (arith, +ℤ_parts, *ℤ_parts, div-add-mod' n m))
quot-rem_sum (pos n) (negsuc m) =
    eq_of_parts _ _
      (omega (arith, +ℤ_parts, with_sign-*ℤ (n / suc m) (negsuc m), div-add-mod' n (suc m)))
quot-rem_sum (negsuc n) (pos m) = eq_of_parts _ _ (
    omega
      (arith, +ℤ_parts, with_sign-*ℤ (suc n / m) (pos m), with_sign_parts, div-add-mod' (suc n) m))
quot-rem_sum (negsuc n) (negsuc m) =
    eq_of_parts _ _
      (omega (arith, +ℤ_parts, *ℤ_parts, with_sign_parts, div-add-mod' (suc n) (suc m)))

magnitude_pos : (b : ℤ) → b ≢ pos 0 → 0 < magnitude b
magnitude_pos (pos n) h = ground arith
magnitude_pos (negsuc n) h = omega arith

quot-rem-Truncates : (a b : ℤ) → b ≢ pos 0 → Truncates a b (quot_ℤ a b) (rem_ℤ a b)
quot-rem-Truncates a b h = (
  quot-rem_sum a b,
  rw magnitude-with_sign (mod-lt (magnitude a) (magnitude_pos b h)),
  with_sign_rem (is_neg a) (magnitude a % magnitude b),
)

-- The results of a division and a modulus that keep these laws, with the quotient that does not
-- fit the type (MIN / -1) reported as an overflow.
abbrev pub DividesExactly : ℕ → Error → ℤ → ℤ → Result ℤ → Result ℤ → Type 0
DividesExactly half e a b d m =
    (q : ℤ) × (r : ℤ) × (d ≡ exactly half e q) × (m ≡ ok r) × Truncates a b q r

with_sign-fits : (half n : ℕ) → 0 < half → n ≤ half → fits half (with_sign true n) ≡ true
with_sign-fits half zero p h = ground arith
with_sign-fits half (suc n) p h = ground arith

-- A quotient leaves the type in one case only.
quotient_fits :
    (half : ℕ) (a b : ℤ)
    → 0 < half
    → IsInt half a
    → is_min_by_minus_one half a b ≡ false
    → fits half (quot_ℤ a b) ≡ true
quotient_fits half (pos n) (pos m) p h g = ground (arith, div-le_self n m)
quotient_fits half (pos n) (negsuc m) p h g =
    with_sign-fits half (n / suc m) p (omega (arith, div-le_self n (suc m)))
quotient_fits half (negsuc n) (pos m) p h g =
    with_sign-fits half (suc n / m) p (omega (arith, div-le_self (suc n) m))
quotient_fits half (negsuc n) (negsuc zero) p h g = ground (arith, div-one (suc n))
quotient_fits half (negsuc n) (negsuc (suc m)) p h g =
    ground (arith, div-lt_self {n = suc n} {k = suc (suc m)} (omega arith) (omega arith))

quotient_overflows :
    (half : ℕ) (a b : ℤ)
    → 0 < half
    → is_min_by_minus_one half a b ≡ true
    → (fits half (quot_ℤ a b) ≡ false) × (rem_ℤ a b ≡ pos 0)
quotient_overflows half (pos n) b p g = ground arith
quotient_overflows half (negsuc n) (pos m) p g = ground arith
quotient_overflows half (negsuc n) (negsuc (suc m)) p g = ground arith
quotient_overflows half (negsuc n) (negsuc zero) p g =
    let none_left : suc n % 1 ≡ 0 = omega arith in
    (ground (arith, div-one (suc n)), ap (with_sign true) none_left)

eqb_ℤ_ne : (b : ℤ) → b ≢ pos 0 → eqb_ℤ b (pos 0) ≡ false
eqb_ℤ_ne (pos n) h = ground arith
eqb_ℤ_ne (negsuc n) h = ground arith

-- The shared body of the divisions.
division_lem :
    (half : ℕ) (e : Error) (a b : ℤ)
    → 0 < half
    → IsInt half a
    → b ≢ pos 0
    → DividesExactly half e a b
        (if eqb_ℤ b (pos 0)
          then err division_by_zero
          else (if is_min_by_minus_one half a b then err e else ok (quot_ℤ a b)))
        (if eqb_ℤ b (pos 0)
          then err division_by_zero
          else (if is_min_by_minus_one half a b then ok (pos 0) else ok (rem_ℤ a b)))
division_lem half e a b p h nz =
    let nonzero : eqb_ℤ b (pos 0) ≡ false = eqb_ℤ_ne b nz in
    elim (Bool-cases (is_min_by_minus_one half a b)) [
      | inl least ↦
          let (over, zero_rem) = quotient_overflows half a b p least in
          (
            quot_ℤ a b,
            rem_ℤ a b,
            rw (nonzero, least, over),
            rw (nonzero, least, zero_rem),
            quot-rem-Truncates a b nz,
          )
      | inr other ↦ (
        quot_ℤ a b,
        rem_ℤ a b,
        rw (nonzero, other, quotient_fits half a b p h other),
        rw (nonzero, other),
        quot-rem-Truncates a b nz,
      )
    ]

-- The six divisions and moduli by a divisor other than zero. Of int4 values `a` and `b`, of int8
-- values `c` and `d`, and of the int2 values in the low 16 bits of `s` and `t`, the modulus always
-- returns a remainder `r` and the division returns a quotient `q`, or the overflow error where `q`
-- does not fit the type; `q` times the divisor plus `r` is the dividend, and `r` is less than the
-- divisor in size and is zero or has the sign of the dividend.
pub division_truncates :
    (a b c d s t : ℤ)
    → IsInt half32 a
    → IsInt half64 c
    → b ≢ pos 0
    → d ≢ pos 0
    → wrap half16 t ≢ pos 0
    → DividesExactly half32 int4_overflow a b (jit_int4div a b) (jit_int4mod a b)
      × DividesExactly half64 int8_overflow c d (jit_int8div c d) (jit_int8mod c d)
      × DividesExactly half16 int2_overflow
          (wrap half16 s)
          (wrap half16 t)
          (jit_int2div s t)
          (jit_int2mod s t)
unfolding jit_int4div jit_int4mod jit_int8div jit_int8mod jit_int2div jit_int2mod
division_truncates a b c d s t ha hc hb hd ht = (
  division_lem half32 int4_overflow a b (omega arith) ha hb,
  division_lem half64 int8_overflow c d (omega arith) hc hd,
  division_lem half16 int2_overflow (wrap half16 s) (wrap half16 t) (omega arith) (wrap16-IsInt s)
      ht,
)
