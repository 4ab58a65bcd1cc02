-- ===== src/Tier1/Compare/Integers.antt =====
-- The comparisons of src/pg_jit_funcs.c on the integer types and across them. An int2 argument comes
-- in a wider register, of which the low 16 bits count; the casts that widen change no value.
use pg_jitter.Prelude.{not}
use pg_jitter.Prelude.Int.{ℤ, ltb_ℤ, leb_ℤ}
use pg_jitter.Machine.{half16, wrap, eqb_ℤ, flag}

unfoldable pub jit_int4eq : ℤ → ℤ → ℤ
jit_int4eq a b = flag (eqb_ℤ a b)

unfoldable pub jit_int4ne : ℤ → ℤ → ℤ
jit_int4ne a b = flag (not (eqb_ℤ a b))

unfoldable pub jit_int4lt : ℤ → ℤ → ℤ
jit_int4lt a b = flag (ltb_ℤ a b)

unfoldable pub jit_int4le : ℤ → ℤ → ℤ
jit_int4le a b = flag (leb_ℤ a b)

unfoldable pub jit_int4gt : ℤ → ℤ → ℤ
jit_int4gt a b = flag (ltb_ℤ b a)

unfoldable pub jit_int4ge : ℤ → ℤ → ℤ
jit_int4ge a b = flag (leb_ℤ b a)

unfoldable pub jit_int8eq : ℤ → ℤ → ℤ
jit_int8eq a b = flag (eqb_ℤ a b)

unfoldable pub jit_int8ne : ℤ → ℤ → ℤ
jit_int8ne a b = flag (not (eqb_ℤ a b))

unfoldable pub jit_int8lt : ℤ → ℤ → ℤ
jit_int8lt a b = flag (ltb_ℤ a b)

unfoldable pub jit_int8le : ℤ → ℤ → ℤ
jit_int8le a b = flag (leb_ℤ a b)

unfoldable pub jit_int8gt : ℤ → ℤ → ℤ
jit_int8gt a b = flag (ltb_ℤ b a)

unfoldable pub jit_int8ge : ℤ → ℤ → ℤ
jit_int8ge a b = flag (leb_ℤ b a)

unfoldable pub jit_int2eq : ℤ → ℤ → ℤ
jit_int2eq a b = flag (eqb_ℤ (wrap half16 a) (wrap half16 b))

unfoldable pub jit_int2ne : ℤ → ℤ → ℤ
jit_int2ne a b = flag (not (eqb_ℤ (wrap half16 a) (wrap half16 b)))

unfoldable pub jit_int2lt : ℤ → ℤ → ℤ
jit_int2lt a b = flag (ltb_ℤ (wrap half16 a) (wrap half16 b))

unfoldable pub jit_int2le : ℤ → ℤ → ℤ
jit_int2le a b = flag (leb_ℤ (wrap half16 a) (wrap half16 b))

unfoldable pub jit_int2gt : ℤ → ℤ → ℤ
jit_int2gt a b = flag (ltb_ℤ (wrap half16 b) (wrap half16 a))

unfoldable pub jit_int2ge : ℤ → ℤ → ℤ
jit_int2ge a b = flag (leb_ℤ (wrap half16 b) (wrap half16 a))

unfoldable pub jit_int48eq : ℤ → ℤ → ℤ
jit_int48eq a b = flag (eqb_ℤ a b)

unfoldable pub jit_int48ne : ℤ → ℤ → ℤ
jit_int48ne a b = flag (not (eqb_ℤ a b))

unfoldable pub jit_int48lt : ℤ → ℤ → ℤ
jit_int48lt a b = flag (ltb_ℤ a b)

unfoldable pub jit_int48le : ℤ → ℤ → ℤ
jit_int48le a b = flag (leb_ℤ a b)

unfoldable pub jit_int48gt : ℤ → ℤ → ℤ
jit_int48gt a b = flag (ltb_ℤ b a)

unfoldable pub jit_int48ge : ℤ → ℤ → ℤ
jit_int48ge a b = flag (leb_ℤ b a)

unfoldable pub jit_int84eq : ℤ → ℤ → ℤ
jit_int84eq a b = flag (eqb_ℤ a b)

unfoldable pub jit_int84ne : ℤ → ℤ → ℤ
jit_int84ne a b = flag (not (eqb_ℤ a b))

unfoldable pub jit_int84lt : ℤ → ℤ → ℤ
jit_int84lt a b = flag (ltb_ℤ a b)

unfoldable pub jit_int84le : ℤ → ℤ → ℤ
jit_int84le a b = flag (leb_ℤ a b)

unfoldable pub jit_int84gt : ℤ → ℤ → ℤ
jit_int84gt a b = flag (ltb_ℤ b a)

unfoldable pub jit_int84ge : ℤ → ℤ → ℤ
jit_int84ge a b = flag (leb_ℤ b a)

unfoldable pub jit_int24eq : ℤ → ℤ → ℤ
jit_int24eq a b = flag (eqb_ℤ (wrap half16 a) b)

unfoldable pub jit_int24ne : ℤ → ℤ → ℤ
jit_int24ne a b = flag (not (eqb_ℤ (wrap half16 a) b))

unfoldable pub jit_int24lt : ℤ → ℤ → ℤ
jit_int24lt a b = flag (ltb_ℤ (wrap half16 a) b)

unfoldable pub jit_int24le : ℤ → ℤ → ℤ
jit_int24le a b = flag (leb_ℤ (wrap half16 a) b)

unfoldable pub jit_int24gt : ℤ → ℤ → ℤ
jit_int24gt a b = flag (ltb_ℤ b (wrap half16 a))

unfoldable pub jit_int24ge : ℤ → ℤ → ℤ
jit_int24ge a b = flag (leb_ℤ b (wrap half16 a))

unfoldable pub jit_int42eq : ℤ → ℤ → ℤ
jit_int42eq a b = flag (eqb_ℤ a (wrap half16 b))

unfoldable pub jit_int42ne : ℤ → ℤ → ℤ
jit_int42ne a b = flag (not (eqb_ℤ a (wrap half16 b)))

unfoldable pub jit_int42lt : ℤ → ℤ → ℤ
jit_int42lt a b = flag (ltb_ℤ a (wrap half16 b))

unfoldable pub jit_int42le : ℤ → ℤ → ℤ
jit_int42le a b = flag (leb_ℤ a (wrap half16 b))

unfoldable pub jit_int42gt : ℤ → ℤ → ℤ
jit_int42gt a b = flag (ltb_ℤ (wrap half16 b) a)

unfoldable pub jit_int42ge : ℤ → ℤ → ℤ
jit_int42ge a b = flag (leb_ℤ (wrap half16 b) a)

unfoldable pub jit_int28eq : ℤ → ℤ → ℤ
jit_int28eq a b = flag (eqb_ℤ (wrap half16 a) b)

unfoldable pub jit_int28ne : ℤ → ℤ → ℤ
jit_int28ne a b = flag (not (eqb_ℤ (wrap half16 a) b))

unfoldable pub jit_int28lt : ℤ → ℤ → ℤ
jit_int28lt a b = flag (ltb_ℤ (wrap half16 a) b)

unfoldable pub jit_int28le : ℤ → ℤ → ℤ
jit_int28le a b = flag (leb_ℤ (wrap half16 a) b)

unfoldable pub jit_int28gt : ℤ → ℤ → ℤ
jit_int28gt a b = flag (ltb_ℤ b (wrap half16 a))

unfoldable pub jit_int28ge : ℤ → ℤ → ℤ
jit_int28ge a b = flag (leb_ℤ b (wrap half16 a))

unfoldable pub jit_int82eq : ℤ → ℤ → ℤ
jit_int82eq a b = flag (eqb_ℤ a (wrap half16 b))

unfoldable pub jit_int82ne : ℤ → ℤ → ℤ
jit_int82ne a b = flag (not (eqb_ℤ a (wrap half16 b)))

unfoldable pub jit_int82lt : ℤ → ℤ → ℤ
jit_int82lt a b = flag (ltb_ℤ a (wrap half16 b))

unfoldable pub jit_int82le : ℤ → ℤ → ℤ
jit_int82le a b = flag (leb_ℤ a (wrap half16 b))

unfoldable pub jit_int82gt : ℤ → ℤ → ℤ
jit_int82gt a b = flag (ltb_ℤ (wrap half16 b) a)

unfoldable pub jit_int82ge : ℤ → ℤ → ℤ
jit_int82ge a b = flag (leb_ℤ (wrap half16 b) a)
