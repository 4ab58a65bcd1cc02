-- ===== src/Tier1/Cast.antt =====
-- The casts of src/pg_jit_funcs.c between the integer types: widening, and narrowing with a check.
use pg_jitter.Prelude.{ℕ, ◌-◌, ◌≡◌, ◌||◌, Bool, if◌then◌else◌, arith}
use pg_jitter.Prelude.Int.{ℤ, pos, negsuc, ltb_ℤ}
use pg_jitter.Machine.{half8, half16, half32, to_uint, wrap, int_min}
use pg_jitter.Tier1.Checked.{int2_overflow, int4_overflow, char_overflow, Result, ok, err, exactly}

unfoldable pub jit_int48_cast : ℤ → ℤ
jit_int48_cast a = a

unfoldable pub jit_int28_cast : ℤ → ℤ
jit_int28_cast a = wrap half16 a

unfoldable pub jit_int24_cast : ℤ → ℤ
jit_int24_cast a = wrap half16 a

unfoldable pub jit_oidtoi8 : ℤ → ℤ
jit_oidtoi8 a = pos (to_uint half32 a)

unfoldable pub jit_xid8toxid : ℤ → ℤ
jit_xid8toxid a = wrap half32 a

-- `a < MIN || a > MAX`
abbrev pub out_of_range : ℕ → ℤ → Bool
out_of_range half a = ltb_ℤ a (int_min half) || ltb_ℤ (pos (half - 1)) a

unfoldable pub jit_int84_cast : ℤ → Result ℤ
jit_int84_cast a = if out_of_range half32 a then err int4_overflow else ok (wrap half32 a)

unfoldable pub jit_int82_cast : ℤ → Result ℤ
jit_int82_cast a = if out_of_range half16 a then err int2_overflow else ok (wrap half16 a)

unfoldable pub jit_int42_cast : ℤ → Result ℤ
jit_int42_cast a = if out_of_range half16 a then err int2_overflow else ok (wrap half16 a)

unfoldable pub jit_chartoi4 : ℤ → ℤ
jit_chartoi4 a = wrap half8 a

unfoldable pub jit_i4tochar : ℤ → Result ℤ
jit_i4tochar a = if out_of_range half8 a then err char_overflow else ok (wrap half8 a)

int84_exact : (a : ℤ) → jit_int84_cast a ≡ exactly half32 int4_overflow a
unfolding jit_int84_cast
int84_exact (pos n) = ground arith
int84_exact (negsuc n) = ground arith

int82_exact : (a : ℤ) → jit_int82_cast a ≡ exactly half16 int2_overflow a
unfolding jit_int82_cast
int82_exact (pos n) = ground arith
int82_exact (negsuc n) = ground arith

int42_exact : (a : ℤ) → jit_int42_cast a ≡ exactly half16 int2_overflow a
unfolding jit_int42_cast
int42_exact (pos n) = ground arith
int42_exact (negsuc n) = ground arith

char_exact : (a : ℤ) → jit_i4tochar a ≡ exactly half8 char_overflow a
unfolding jit_i4tochar
char_exact (pos n) = ground arith
char_exact (negsuc n) = ground arith

-- The narrowing casts return their argument unchanged where it is a value of the narrower type, and
-- raise that type's overflow error where it is not.
pub narrowing_casts :
    (a : ℤ)
    → (jit_int84_cast a ≡ exactly half32 int4_overflow a)
      × (jit_int82_cast a ≡ exactly half16 int2_overflow a)
      × (jit_int42_cast a ≡ exactly half16 int2_overflow a)
      × (jit_i4tochar a ≡ exactly half8 char_overflow a)
narrowing_casts a = (int84_exact a, int82_exact a, int42_exact a, char_exact a)
