-- ===== src/Tier1/Shift.antt =====
-- Shifts and complement of src/pg_jit_funcs.c. The shift counts are cut to the register's width, and
-- a right shift of a negative number is written by complements, since C leaves it undefined.
use native.Mathlib.Nat.{div-le_self, div-one}
use pg_jitter.Prelude.{
  ℕ, zero, suc, ◌-◌, ◌*◌, ◌/◌, ◌%◌, ◌^◌, ◌≡◌, ap, sym, if◌then◌else◌, ◌==◌, arith,
}
use pg_jitter.Prelude.Int.{ℤ, pos, negsuc, ◌-ℤ◌}
use pg_jitter.Machine.{
  half16, half32, half64, IsInt, to_uint, to_int, wrap, is_neg, wrap16-IsInt, wrap16_id,
}

-- `~u` and `u >> sh` of an unsigned number, and `b & 31U` as the low bits of the count.
abbrev complement : ℕ → ℕ → ℕ
complement half u = 2 * half - 1 - u

unfoldable pub jit_sar32_defined : ℤ → ℕ → ℤ
jit_sar32_defined a sh =
    let ua = to_uint half32 a in
    if sh == 0
    then a
    else (if is_neg a
        then to_int half32 (complement half32 (complement half32 ua / 2 ^ sh))
        else to_int half32 (ua / 2 ^ sh))

unfoldable pub jit_sar64_defined : ℤ → ℕ → ℤ
jit_sar64_defined a sh =
    let ua = to_uint half64 a in
    if sh == 0
    then a
    else (if is_neg a
        then to_int half64 (complement half64 (complement half64 ua / 2 ^ sh))
        else to_int half64 (ua / 2 ^ sh))

unfoldable pub jit_int4shr : ℤ → ℤ → ℤ
jit_int4shr a b = jit_sar32_defined a (to_uint half32 b % 32)

unfoldable pub jit_int8shr : ℤ → ℤ → ℤ
jit_int8shr a b = jit_sar64_defined a (to_uint half32 b % 64)

unfoldable pub jit_int2shr : ℤ → ℤ → ℤ
jit_int2shr a b = wrap half16 (jit_sar32_defined (wrap half16 a) (to_uint half32 b % 32))

unfoldable pub jit_int4shl : ℤ → ℤ → ℤ
jit_int4shl a b = to_int half32 (to_uint half32 a * 2 ^ (to_uint half32 b % 32) % (2 * half32))

unfoldable pub jit_int8shl : ℤ → ℤ → ℤ
jit_int8shl a b = to_int half64 (to_uint half64 a * 2 ^ (to_uint half32 b % 64) % (2 * half64))

unfoldable pub jit_int2shl : ℤ → ℤ → ℤ
jit_int2shl a b =
    wrap half16 (pos (to_uint half32 (wrap half16 a) * 2 ^ (to_uint half32 b % 32) % (2 * half32)))

unfoldable pub jit_int4not : ℤ → ℤ
jit_int4not a = to_int half32 (complement half32 (to_uint half32 a))

unfoldable pub jit_int8not : ℤ → ℤ
jit_int8not a = to_int half64 (complement half64 (to_uint half64 a))

unfoldable pub jit_int2not : ℤ → ℤ
jit_int2not a = to_int half32 (complement half32 (to_uint half32 (wrap half16 a)))

-- The quotient by a power of two that rounds down.
abbrev pub floor_shift : ℤ → ℕ → ℤ
floor_shift (pos n) k = pos (n / 2 ^ k)
floor_shift (negsuc n) k = negsuc (n / 2 ^ k)

sar32_floor : (a : ℤ) (sh : ℕ) → IsInt half32 a → jit_sar32_defined a sh ≡ floor_shift a sh
unfolding jit_sar32_defined
sar32_floor (pos n) zero h = ap pos (sym (div-one n))
sar32_floor (negsuc n) zero h = ap negsuc (sym (div-one n))
sar32_floor (pos n) (suc k) h = ground (arith, div-le_self n (2 ^ suc k))
sar32_floor (negsuc n) (suc k) h = ground (arith, div-le_self n (2 ^ suc k))

sar64_floor : (a : ℤ) (sh : ℕ) → IsInt half64 a → jit_sar64_defined a sh ≡ floor_shift a sh
unfolding jit_sar64_defined
sar64_floor (pos n) zero h = ap pos (sym (div-one n))
sar64_floor (negsuc n) zero h = ap negsuc (sym (div-one n))
sar64_floor (pos n) (suc k) h = ground (arith, div-le_self n (2 ^ suc k))
sar64_floor (negsuc n) (suc k) h = ground (arith, div-le_self n (2 ^ suc k))

floor_shift-IsInt : (half : ℕ) (a : ℤ) (k : ℕ) → IsInt half a → IsInt half (floor_shift a k)
floor_shift-IsInt half (pos n) k h = omega (arith, div-le_self n (2 ^ k))
floor_shift-IsInt half (negsuc n) k h = omega (arith, div-le_self n (2 ^ k))

widen : (a : ℤ) → IsInt half16 a → IsInt half32 a
widen a h = omega arith

int2shr_floor :
    (a : ℤ) (k : ℕ) → IsInt half16 a → wrap half16 (jit_sar32_defined a k) ≡ floor_shift a k
int2shr_floor a k h =
    rw (sar32_floor a k (widen a h)) (wrap16_id (floor_shift a k) (floor_shift-IsInt half16 a k h))

-- A right shift divides by the power of two and rounds down, for negative numbers too: of an int4 `a`
-- and an int8 `c` by the low 5 and 6 bits of the count, of the int2 in the low 16 bits of `s` by the
-- low 5 bits.
right_shift_floors :
    (a c s b : ℤ)
    → IsInt half32 a
    → IsInt half64 c
    → (jit_int4shr a b ≡ floor_shift a (to_uint half32 b % 32))
      × (jit_int8shr c b ≡ floor_shift c (to_uint half32 b % 64))
      × (jit_int2shr s b ≡ floor_shift (wrap half16 s) (to_uint half32 b % 32))
unfolding jit_int4shr jit_int8shr jit_int2shr
right_shift_floors a c s b ha hc = (
  sar32_floor a (to_uint half32 b % 32) ha,
  sar64_floor c (to_uint half32 b % 64) hc,
  int2shr_floor (wrap half16 s) (to_uint half32 b % 32) (wrap16-IsInt s),
)

int4not_lem : (a : ℤ) → IsInt half32 a → jit_int4not a ≡ negsuc 0 -ℤ a
unfolding jit_int4not ◌-ℤ◌
int4not_lem (pos n) h = ground arith
int4not_lem (negsuc n) h = ground arith

int8not_lem : (a : ℤ) → IsInt half64 a → jit_int8not a ≡ negsuc 0 -ℤ a
unfolding jit_int8not ◌-ℤ◌
int8not_lem (pos n) h = ground arith
int8not_lem (negsuc n) h = ground arith

int2not_cast :
    (a : ℤ) → IsInt half16 a → to_int half32 (complement half32 (to_uint half32 a)) ≡ negsuc 0 -ℤ a
unfolding ◌-ℤ◌
int2not_cast (pos n) h = ground arith
int2not_cast (negsuc n) h = ground arith

-- The bitwise complement of an int4 `a`, of an int8 `c` and of the int2 in the low 16 bits of `s` is
-- minus the number, minus one.
complement_negates :
    (a c s : ℤ)
    → IsInt half32 a
    → IsInt half64 c
    → (jit_int4not a ≡ negsuc 0 -ℤ a)
      × (jit_int8not c ≡ negsuc 0 -ℤ c)
      × (jit_int2not s ≡ negsuc 0 -ℤ wrap half16 s)
unfolding jit_int2not
complement_negates a c s ha hc =
    (int4not_lem a ha, int8not_lem c hc, int2not_cast (wrap half16 s) (wrap16-IsInt s))

-- A right shift divides by the power of two and rounds down, for negative numbers too, and a bitwise
-- complement is minus the number, minus one: of an int4 `a` and an int8 `c`, which are shifted by the
-- low 5 and 6 bits of the count `b`, and of the int2 in the low 16 bits of `s`, by the low 5 bits.
pub shifts_and_complements :
    (a c s b : ℤ)
    → IsInt half32 a
    → IsInt half64 c
    → (jit_int4shr a b ≡ floor_shift a (to_uint half32 b % 32))
      × (jit_int8shr c b ≡ floor_shift c (to_uint half32 b % 64))
      × (jit_int2shr s b ≡ floor_shift (wrap half16 s) (to_uint half32 b % 32))
      × (jit_int4not a ≡ negsuc 0 -ℤ a)
      × (jit_int8not c ≡ negsuc 0 -ℤ c)
      × (jit_int2not s ≡ negsuc 0 -ℤ wrap half16 s)
shifts_and_complements a c s b ha hc =
    let shr = right_shift_floors a c s b ha hc in
    let inv = complement_negates a c s ha hc in (shr.0, shr.1, shr.2, inv.0, inv.1, inv.2)
