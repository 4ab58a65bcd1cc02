-- ===== src/Tier1/Words.antt =====
-- The bitwise operations, the Boolean aggregates and casts, and the equality of transaction and command
-- ids of src/pg_jit_funcs.c.
use Prim.Native.Nat.{bit_and, bit_or, bit_xor}
use pg_jitter.Prelude.{ℕ, Bool, not, ◌&&◌, ◌||◌, ◌==◌}
use pg_jitter.Prelude.Int.{ℤ, pos}
use pg_jitter.Machine.{half16, half32, half64, to_uint, to_int, flag, eqb_ℤ}

-- The operation on the words, read back as a signed value.
abbrev on_words : ℕ → (ℕ → ℕ → ℕ) → ℤ → ℤ → ℤ
on_words half op a b = to_int half (op (to_uint half a) (to_uint half b))

unfoldable pub jit_int2and : ℤ → ℤ → ℤ
jit_int2and a b = on_words half16 bit_and a b

unfoldable pub jit_int2or : ℤ → ℤ → ℤ
jit_int2or a b = on_words half16 bit_or a b

unfoldable pub jit_int2xor : ℤ → ℤ → ℤ
jit_int2xor a b = on_words half16 bit_xor a b

unfoldable pub jit_int4and : ℤ → ℤ → ℤ
jit_int4and a b = on_words half32 bit_and a b

unfoldable pub jit_int4or : ℤ → ℤ → ℤ
jit_int4or a b = on_words half32 bit_or a b

unfoldable pub jit_int4xor : ℤ → ℤ → ℤ
jit_int4xor a b = on_words half32 bit_xor a b

unfoldable pub jit_int8and : ℤ → ℤ → ℤ
jit_int8and a b = on_words half64 bit_and a b

unfoldable pub jit_int8or : ℤ → ℤ → ℤ
jit_int8or a b = on_words half64 bit_or a b

unfoldable pub jit_int8xor : ℤ → ℤ → ℤ
jit_int8xor a b = on_words half64 bit_xor a b

-- a != 0
abbrev is_set : ℤ → Bool
is_set a = not (eqb_ℤ a (pos 0))

unfoldable pub jit_booland_statefunc : ℤ → ℤ → ℤ
jit_booland_statefunc a b = flag (is_set a && is_set b)

unfoldable pub jit_boolor_statefunc : ℤ → ℤ → ℤ
jit_boolor_statefunc a b = flag (is_set a || is_set b)

unfoldable pub jit_bool_int4 : ℤ → ℤ
jit_bool_int4 a = flag (is_set a)

unfoldable pub jit_int4_bool : ℤ → ℤ
jit_int4_bool a = flag (is_set a)

unfoldable pub jit_xideq : ℤ → ℤ → ℤ
jit_xideq a b = flag (to_uint half32 a == to_uint half32 b)

unfoldable pub jit_xidneq : ℤ → ℤ → ℤ
jit_xidneq a b = flag (not (to_uint half32 a == to_uint half32 b))

unfoldable pub jit_cideq : ℤ → ℤ → ℤ
jit_cideq a b = flag (to_uint half32 a == to_uint half32 b)
