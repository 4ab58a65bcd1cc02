-- ===== src/Tier1/Arith/Exact.antt =====
-- Every sum, difference, product, negation and absolute value is exact or the overflow error.
use pg_jitter.Prelude.{zero, suc, ◌<◌, if◌then◌else◌, sym, ◌∙◌, ℕ, ◌≡◌, arith}
use pg_jitter.Prelude.Int.{+ℤ_cancel, +ℤ_comm, ℤ, pos, negsuc, ◌+ℤ◌, ◌-ℤ◌}
use pg_jitter.Machine.{
  half16, half32, half64, IsInt, neg_ℤ, is_neg, wrap, fits→IsInt, wrap16-IsInt, eqb_ℤ, int_min,
  magnitude,
}
use pg_jitter.Tier1.Checked.{
  int2_overflow, int4_overflow, int8_overflow, Overflow, Error, ok, err, returned, exactly,
  exactly_inv, exactly_ok, returned-exactly,
}
use pg_jitter.Tier1.Arith.Defs.{
  jit_int4abs, jit_int4um, jit_int8abs, jit_int8um, jit_int2abs, jit_int2um, jit_date_pli,
  jit_date_mii, jit_date_mi,
}

abbrev pub abs_ℤ : ℤ → ℤ
abs_ℤ a = pos (magnitude a)

-- The bodies after the cast: the test for the least value is the only guard.
negate_checked :
    (half : ℕ) (e : Error) (a : ℤ)
    → 0 < half
    → IsInt half a
    → (if eqb_ℤ a (int_min half) then err e else ok (neg_ℤ a)) ≡ exactly half e (neg_ℤ a)
unfolding ◌-ℤ◌
negate_checked half e (pos zero) p h = ground arith
negate_checked half e (pos (suc n)) p h = ground arith
negate_checked half e (negsuc n) p h = ground arith

abs_checked :
    (half : ℕ) (e : Error) (a : ℤ)
    → 0 < half
    → IsInt half a
    → (if eqb_ℤ a (int_min half) then err e else ok (if is_neg a then neg_ℤ a else a))
      ≡ exactly half e (abs_ℤ a)
unfolding ◌-ℤ◌
abs_checked half e (pos n) p h = ground arith
abs_checked half e (negsuc n) p h = ground arith

int2_negate :
    (a : ℤ)
    → IsInt half16 a
    → (if eqb_ℤ a (int_min half16) then err int2_overflow else ok (wrap half16 (neg_ℤ a)))
      ≡ exactly half16 int2_overflow (neg_ℤ a)
unfolding ◌-ℤ◌
int2_negate (pos zero) h = ground arith
int2_negate (pos (suc n)) h = ground arith
int2_negate (negsuc n) h = ground arith

-- The negations and absolute values test for the least value of the type alone, and that is
-- enough: of an int4 `a`, an int8 `b` and the int2 in the low 16 bits of `s` they return the exact
-- integer where it fits the type, and raise the type's overflow error where it does not.
pub negation_exact :
    (a b s : ℤ)
    → IsInt half32 a
    → IsInt half64 b
    → (jit_int4um a ≡ exactly half32 int4_overflow (neg_ℤ a))
      × (jit_int4abs a ≡ exactly half32 int4_overflow (abs_ℤ a))
      × (jit_int8um b ≡ exactly half64 int8_overflow (neg_ℤ b))
      × (jit_int8abs b ≡ exactly half64 int8_overflow (abs_ℤ b))
      × (jit_int2um s ≡ exactly half16 int2_overflow (neg_ℤ (wrap half16 s)))
      × (jit_int2abs s ≡ exactly half16 int2_overflow (abs_ℤ (wrap half16 s)))
unfolding jit_int4um jit_int4abs jit_int8um jit_int8abs jit_int2um jit_int2abs
negation_exact a b s ha hb = (
  negate_checked half32 int4_overflow a (omega arith) ha,
  abs_checked half32 int4_overflow a (omega arith) ha,
  negate_checked half64 int8_overflow b (omega arith) hb,
  abs_checked half64 int8_overflow b (omega arith) hb,
  int2_negate (wrap half16 s) (wrap16-IsInt s),
  abs_checked half16 int2_overflow (wrap half16 s) (omega arith) (wrap16-IsInt s),
)

date_pli_inv :
    (c : Overflow half32) (date days : ℤ) {later : ℤ}
    → IsInt half32 date
    → IsInt half32 days
    → jit_date_pli c date days ≡ ok later
    → (later ≡ date +ℤ days) × IsInt half32 later
unfolding jit_date_pli
date_pli_inv c date days hd hn h =
    let exact =
      returned-exactly half32 int4_overflow (date +ℤ days) _ (c.add_exact date days hd hn)
        (c.add_reports date days hd hn) in
    let inv = exactly_inv half32 int4_overflow (date +ℤ days) (sym exact ∙ h) in
    (inv.0, rw inv.0 (fits→IsInt (date +ℤ days) inv.1))

date_difference :
    (c : Overflow half32) (a b z : ℤ)
    → IsInt half32 a
    → IsInt half32 b
    → IsInt half32 z
    → a -ℤ b ≡ z
    → returned int4_overflow (c.sub_overflow a b) ≡ ok z
date_difference c a b z ha hb hz e =
    returned-exactly half32 int4_overflow (a -ℤ b) _ (c.sub_exact a b ha hb)
      (c.sub_reports a b ha hb)
    ∙ rw e (exactly_ok half32 int4_overflow z hz)

-- Adding days to a date and taking them off again gives the date back, and the days between the
-- two dates are the days added, whenever the sum is a date.
pub date_mii-date_pli :
    (c : Overflow half32) (date days : ℤ) {later : ℤ}
    → IsInt half32 date
    → IsInt half32 days
    → jit_date_pli c date days ≡ ok later
    → (jit_date_mii c later days ≡ ok date) × (jit_date_mi c later date ≡ ok days)
unfolding jit_date_mii jit_date_mi
date_mii-date_pli c date days {later} hd hn h =
    let (e, hl) = date_pli_inv c date days hd hn h in
    (
      date_difference c later days date hl hn hd (rw e (+ℤ_cancel date days)),
      date_difference c later date days hl hd hn (rw (e, +ℤ_comm date days, +ℤ_cancel days date)),
    )
