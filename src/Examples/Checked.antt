-- ===== src/Examples/Checked.antt =====
-- The checked arithmetic, the casts, the shifts and the sum of src/pg_jit_funcs.c at concrete values,
-- over an overflow check that tests the exact result.
use pg_jitter.Prelude.{ℕ, ◌%◌, ◌≡◌, refl, Bool, true, false, not, [], ◌∷◌, ap, arith}
use pg_jitter.Prelude.Int.{ℤ, pos, negsuc, ◌+ℤ◌, ◌-ℤ◌, ◌*ℤ◌}
use pg_jitter.Machine.{half8, half16, half32, half64, fits, neg_ℤ, wrap, to_uint}
use pg_jitter.Tier1.Checked.{
  Overflow, ok, err, exactly, int2_overflow, int4_overflow, int8_overflow, char_overflow,
}
use pg_jitter.Tier1.Arith.Defs.{
  jit_date_mi, jit_date_mii, jit_date_pli, jit_int2abs, jit_int2div, jit_int2mi, jit_int2mod,
  jit_int2mul, jit_int2pl, jit_int2um, jit_int4abs, jit_int4div, jit_int4mod, jit_int4pl,
  jit_int4um, jit_int8abs, jit_int8div, jit_int8mod, jit_int8um,
}
use pg_jitter.Tier1.Cast.{
  jit_i4tochar, jit_int42_cast, jit_int82_cast, jit_int84_cast, narrowing_casts,
}
use pg_jitter.Tier1.Shift.{
  jit_int2not, jit_int2shr, jit_int4not, jit_int4shr, jit_int8not, jit_int8shr, floor_shift,
  shifts_and_complements,
}
use pg_jitter.Tier1.Sum.{jit_int4_sum, int4_sum_total, aggregate, exact_sum}
use pg_jitter.Tier1.Arith.Checks.{IsExact, int2_arithmetic}
use pg_jitter.Tier1.Arith.Exact.{abs_ℤ, negation_exact, date_mii-date_pli}
use pg_jitter.Tier1.Arith.Division.{division_truncates, DividesExactly}

checked : (half : ℕ) → ℤ → Bool × ℤ
checked half z = (not (fits half z), z)

exact_check : (half : ℕ) (z : ℤ) → fits half z ≡ true → checked half z ≡ (false, z)
unfolding checked
exact_check half z h = rw h

abbrev overflow : (half : ℕ) → Overflow half
unfolding checked
overflow half = record {
  add_overflow = λ a b. checked half (a +ℤ b);
  sub_overflow = λ a b. checked half (a -ℤ b);
  mul_overflow = λ a b. checked half (a *ℤ b);
  add_exact = λ a b ha hb h. exact_check half (a +ℤ b) h;
  add_reports = λ a b ha hb h. ap not h;
  sub_exact = λ a b ha hb h. exact_check half (a -ℤ b) h;
  sub_reports = λ a b ha hb h. ap not h;
  mul_exact = λ a b ha hb h. exact_check half (a *ℤ b) h;
  mul_reports = λ a b ha hb h. ap not h;
}

int4pl_run : jit_int4pl (overflow half32) (pos 2147483647) (pos 1) ≡ err int4_overflow
unfolding jit_int4pl checked ◌+ℤ◌
int4pl_run = refl

int4abs_run : jit_int4abs (negsuc 2147483647) ≡ err int4_overflow
unfolding jit_int4abs
int4abs_run = refl

int2pl_run : jit_int2pl (pos 32767) (negsuc 0) ≡ ok (pos 32766)
unfolding jit_int2pl ◌+ℤ◌
int2pl_run = refl

int2_arithmetic_example :
    IsExact
      (wrap half16 (pos 30000) +ℤ wrap half16 (pos 65535))
      (jit_int2pl (pos 30000) (pos 65535))
    × IsExact
        (wrap half16 (pos 30000) -ℤ wrap half16 (pos 65535))
        (jit_int2mi (pos 30000) (pos 65535))
    × IsExact
        (wrap half16 (pos 30000) *ℤ wrap half16 (pos 65535))
        (jit_int2mul (pos 30000) (pos 65535))
int2_arithmetic_example = int2_arithmetic (pos 30000) (pos 65535)

negation_exact_example :
    (jit_int4um (negsuc 2147483647) ≡ exactly half32 int4_overflow (neg_ℤ (negsuc 2147483647)))
    × (jit_int4abs (negsuc 2147483647) ≡ exactly half32 int4_overflow (abs_ℤ (negsuc 2147483647)))
    × (jit_int8um (negsuc 2147483647) ≡ exactly half64 int8_overflow (neg_ℤ (negsuc 2147483647)))
    × (jit_int8abs (negsuc 2147483647) ≡ exactly half64 int8_overflow (abs_ℤ (negsuc 2147483647)))
    × (jit_int2um (negsuc 32767)
        ≡ exactly half16 int2_overflow (neg_ℤ (wrap half16 (negsuc 32767))))
    × (jit_int2abs (negsuc 32767)
        ≡ exactly half16 int2_overflow (abs_ℤ (wrap half16 (negsuc 32767))))
negation_exact_example =
    negation_exact (negsuc 2147483647) (negsuc 2147483647) (negsuc 32767) (omega arith)
      (omega arith)

leap_day : jit_date_pli (overflow half32) (pos 8824) (pos 366) ≡ ok (pos 9190)
unfolding jit_date_pli checked ◌+ℤ◌
leap_day = refl

date_mii-date_pli_example :
    (jit_date_mii (overflow half32) (pos 9190) (pos 366) ≡ ok (pos 8824))
    × (jit_date_mi (overflow half32) (pos 9190) (pos 8824) ≡ ok (pos 366))
date_mii-date_pli_example =
    date_mii-date_pli (overflow half32) (pos 8824) (pos 366) (omega arith) (omega arith) leap_day

division_truncates_example :
    DividesExactly half32 int4_overflow
      (negsuc 6)
      (pos 2)
      (jit_int4div (negsuc 6) (pos 2))
      (jit_int4mod (negsuc 6) (pos 2))
    × DividesExactly half64 int8_overflow
        (negsuc 9223372036854775807)
        (negsuc 0)
        (jit_int8div (negsuc 9223372036854775807) (negsuc 0))
        (jit_int8mod (negsuc 9223372036854775807) (negsuc 0))
    × DividesExactly half16 int2_overflow
        (wrap half16 (pos 7))
        (wrap half16 (pos 3))
        (jit_int2div (pos 7) (pos 3))
        (jit_int2mod (pos 7) (pos 3))
division_truncates_example =
    division_truncates (negsuc 6) (pos 2) (negsuc 9223372036854775807) (negsuc 0) (pos 7) (pos 3)
      (omega arith) (omega arith) (λ e. cc) (λ e. cc) (λ e. cc)

narrowing_casts_example :
    (jit_int84_cast (pos 40000) ≡ exactly half32 int4_overflow (pos 40000))
    × (jit_int82_cast (pos 40000) ≡ exactly half16 int2_overflow (pos 40000))
    × (jit_int42_cast (pos 40000) ≡ exactly half16 int2_overflow (pos 40000))
    × (jit_i4tochar (pos 40000) ≡ exactly half8 char_overflow (pos 40000))
narrowing_casts_example = narrowing_casts (pos 40000)

shifts_and_complements_example :
    (jit_int4shr (negsuc 6) (pos 33) ≡ floor_shift (negsuc 6) (to_uint half32 (pos 33) % 32))
    × (jit_int8shr (pos 1000) (pos 33) ≡ floor_shift (pos 1000) (to_uint half32 (pos 33) % 64))
    × (jit_int2shr (negsuc 8) (pos 33)
        ≡ floor_shift (wrap half16 (negsuc 8)) (to_uint half32 (pos 33) % 32))
    × (jit_int4not (negsuc 6) ≡ negsuc 0 -ℤ (negsuc 6))
    × (jit_int8not (pos 1000) ≡ negsuc 0 -ℤ (pos 1000))
    × (jit_int2not (negsuc 8) ≡ negsuc 0 -ℤ wrap half16 (negsuc 8))
shifts_and_complements_example =
    shifts_and_complements (negsuc 6) (pos 1000) (negsuc 8) (pos 33) (omega arith) (omega arith)

int4_sum_total_example :
    aggregate (jit_int4_sum (overflow half64)) (pos 0) (pos 2147483647 ∷ pos 5 ∷ [])
    ≡ ok (exact_sum (wrap half32) (pos 2147483647 ∷ pos 5 ∷ []))
int4_sum_total_example =
    int4_sum_total (overflow half64) (pos 2147483647 ∷ pos 5 ∷ []) (omega arith)
