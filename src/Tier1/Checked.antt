-- ===== src/Tier1/Checked.antt =====
-- What src/pg_jit_funcs.c relies on: the errors that it raises, and PostgreSQL's overflow-checked
-- arithmetic of common/int.h (`pg_add_s32_overflow` and its kin), which is not in the repository.
use pg_jitter.Prelude.{ℕ, ◌≡◌, Bool, true, false, if◌then◌else◌, arith}
use pg_jitter.Prelude.Int.{ℤ, ◌+ℤ◌, ◌-ℤ◌, ◌*ℤ◌}
use pg_jitter.Machine.{fits, IsInt}

-- The `jit_error_…` functions, which do not return.
pub data Error : Type 0 where
  int2_overflow int4_overflow int8_overflow division_by_zero char_overflow : Error

pub data Result {ℓ} (A : Type ℓ) : Type ℓ where
  ok : A → Result A
  err : Error → Result A

-- `bool pg_add_s32_overflow(a, b, &r)`: whether the sum is out of range, and what `r` holds then.
-- As documented, `r` is the sum if there is no overflow, and is not specified otherwise.
pub record Overflow (half : ℕ) : Type 0 where
  pub add_overflow : ℤ → ℤ → Bool × ℤ
  pub sub_overflow : ℤ → ℤ → Bool × ℤ
  pub mul_overflow : ℤ → ℤ → Bool × ℤ
  pub add_exact :
      (a b : ℤ)
      → IsInt half a
      → IsInt half b
      → fits half (a +ℤ b) ≡ true
      → add_overflow a b ≡ (false, a +ℤ b)
  pub add_reports :
      (a b : ℤ)
      → IsInt half a
      → IsInt half b
      → fits half (a +ℤ b) ≡ false
      → (add_overflow a b).0 ≡ true
  pub sub_exact :
      (a b : ℤ)
      → IsInt half a
      → IsInt half b
      → fits half (a -ℤ b) ≡ true
      → sub_overflow a b ≡ (false, a -ℤ b)
  pub sub_reports :
      (a b : ℤ)
      → IsInt half a
      → IsInt half b
      → fits half (a -ℤ b) ≡ false
      → (sub_overflow a b).0 ≡ true
  pub mul_exact :
      (a b : ℤ)
      → IsInt half a
      → IsInt half b
      → fits half (a *ℤ b) ≡ true
      → mul_overflow a b ≡ (false, a *ℤ b)
  pub mul_reports :
      (a b : ℤ)
      → IsInt half a
      → IsInt half b
      → fits half (a *ℤ b) ≡ false
      → (mul_overflow a b).0 ≡ true

-- `if (overflow) jit_error(); return r;`
abbrev pub returned : Error → Bool × ℤ → Result ℤ
returned e (true, r) = err e
returned e (false, r) = ok r

-- What such a function promises: the exact result, or the error where it does not fit the type.
abbrev pub exactly : ℕ → Error → ℤ → Result ℤ
exactly half e z = if fits half z then ok z else err e

pub returned-exactly :
    (half : ℕ) (e : Error) (z : ℤ) (p : Bool × ℤ)
    → (fits half z ≡ true → p ≡ (false, z))
    → (fits half z ≡ false → p.0 ≡ true)
    → returned e p ≡ exactly half e z
returned-exactly half e z (true, r) exact reports = ground (arith, exact)
returned-exactly half e z (false, r) exact reports = ground (arith, exact, reports)

pub exactly_inv :
    (half : ℕ) (e : Error) (z : ℤ) {y : ℤ}
    → exactly half e z ≡ ok y
    → (y ≡ z) × (fits half z ≡ true)
exactly_inv half e z h = ground arith

pub exactly_ok : (half : ℕ) (e : Error) (z : ℤ) → IsInt half z → exactly half e z ≡ ok z
exactly_ok half e z h = ground arith
