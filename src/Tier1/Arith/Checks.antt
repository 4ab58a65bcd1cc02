-- ===== src/Tier1/Arith/Checks.antt =====
-- The checked arithmetic of int2, which computes in 32 bits and tests the result.
use pg_jitter.Prelude.{◌-◌, ◌≡◌, ◌||◌, Bool-cases, inl, inr, arith}
use pg_jitter.Prelude.Int.{ℤ, pos, negsuc, ◌+ℤ◌, ◌-ℤ◌, ◌*ℤ◌, ltb_ℤ}
use pg_jitter.Machine.{half16, wrap, wrap16_id, IsInt}
use pg_jitter.Tier1.Checked.{Result, ok, err, int2_overflow}
use pg_jitter.Tier1.Arith.Defs.{int2_checked, jit_int2pl, jit_int2mi, jit_int2mul}

-- The result is `z` where `z` is an int2, and the overflow error where it is not.
abbrev pub IsExact : ℤ → Result ℤ → Type 0
IsExact z r = (IsInt half16 z → r ≡ ok z) × ((IsInt half16 z → ⊥) → r ≡ err int2_overflow)

int2_checked-IsExact : (z : ℤ) → IsExact z (int2_checked z)
int2_checked-IsExact z =
    elim (Bool-cases (ltb_ℤ z (negsuc (half16 - 1)) || ltb_ℤ (pos (half16 - 1)) z)) [
      | inl out ↦ (λ h. absurd (ground (arith, h, out)), λ h. rw out)
      | inr inside ↦ (λ h. rw (inside, wrap16_id z h), λ h. absurd (h (ground (arith, inside))))
    ]

-- The sums, differences and products of int2 values, the low 16 bits of the arguments, are the exact
-- integer where it is an int2, and raise the int2 overflow error where it is not.
pub int2_arithmetic :
    (a b : ℤ)
    → IsExact (wrap half16 a +ℤ wrap half16 b) (jit_int2pl a b)
      × IsExact (wrap half16 a -ℤ wrap half16 b) (jit_int2mi a b)
      × IsExact (wrap half16 a *ℤ wrap half16 b) (jit_int2mul a b)
unfolding jit_int2pl jit_int2mi jit_int2mul
int2_arithmetic a b = (
  int2_checked-IsExact (wrap half16 a +ℤ wrap half16 b),
  int2_checked-IsExact (wrap half16 a -ℤ wrap half16 b),
  int2_checked-IsExact (wrap half16 a *ℤ wrap half16 b),
)
