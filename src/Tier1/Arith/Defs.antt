-- ===== src/Tier1/Arith/Defs.antt =====
-- The functions themselves, one to each C function, and the arithmetic of mixed widths.
use pg_jitter.Prelude.{ℕ, Bool, ◌-◌, ◌&&◌, ◌||◌, if◌then◌else◌}
use pg_jitter.Prelude.Int.{ℤ, pos, negsuc, ltb_ℤ, ◌+ℤ◌, ◌-ℤ◌, ◌*ℤ◌}
use pg_jitter.Machine.{half16, half32, half64, wrap, eqb_ℤ, int_min, neg_ℤ, is_neg, quot_ℤ, rem_ℤ}
use pg_jitter.Tier1.Checked.{
  int2_overflow, int4_overflow, int8_overflow, division_by_zero, Result, ok, err, Overflow,
  returned,
}

-- `a == MIN && b == -1`
abbrev pub is_min_by_minus_one : ℕ → ℤ → ℤ → Bool
is_min_by_minus_one half a b = eqb_ℤ a (int_min half) && eqb_ℤ b (negsuc 0)

module _ (c : Overflow half32) where
  open c use {add_overflow, sub_overflow, mul_overflow}

  unfoldable pub jit_int4pl : ℤ → ℤ → Result ℤ
  jit_int4pl a b = returned int4_overflow (add_overflow a b)

  unfoldable pub jit_int4mi : ℤ → ℤ → Result ℤ
  jit_int4mi a b = returned int4_overflow (sub_overflow a b)

  unfoldable pub jit_int4mul : ℤ → ℤ → Result ℤ
  jit_int4mul a b = returned int4_overflow (mul_overflow a b)

  unfoldable pub jit_int4inc : ℤ → Result ℤ
  jit_int4inc a = returned int4_overflow (add_overflow a (pos 1))

  unfoldable pub jit_date_pli : ℤ → ℤ → Result ℤ
  jit_date_pli date days = returned int4_overflow (add_overflow date days)

  unfoldable pub jit_date_mii : ℤ → ℤ → Result ℤ
  jit_date_mii date days = returned int4_overflow (sub_overflow date days)

  unfoldable pub jit_date_mi : ℤ → ℤ → Result ℤ
  jit_date_mi a b = returned int4_overflow (sub_overflow a b)

unfoldable pub jit_int4div : ℤ → ℤ → Result ℤ
jit_int4div a b =
    if eqb_ℤ b (pos 0)
    then err division_by_zero
    else (if is_min_by_minus_one half32 a b then err int4_overflow else ok (quot_ℤ a b))

unfoldable pub jit_int4mod : ℤ → ℤ → Result ℤ
jit_int4mod a b =
    if eqb_ℤ b (pos 0)
    then err division_by_zero
    else (if is_min_by_minus_one half32 a b then ok (pos 0) else ok (rem_ℤ a b))

unfoldable pub jit_int4abs : ℤ → Result ℤ
jit_int4abs a =
    if eqb_ℤ a (int_min half32) then err int4_overflow else ok (if is_neg a then neg_ℤ a else a)

unfoldable pub jit_int4um : ℤ → Result ℤ
jit_int4um a = if eqb_ℤ a (int_min half32) then err int4_overflow else ok (neg_ℤ a)

module _ (c : Overflow half64) where
  open c use {add_overflow, sub_overflow, mul_overflow}

  unfoldable pub jit_int8pl : ℤ → ℤ → Result ℤ
  jit_int8pl a b = returned int8_overflow (add_overflow a b)

  unfoldable pub jit_int8mi : ℤ → ℤ → Result ℤ
  jit_int8mi a b = returned int8_overflow (sub_overflow a b)

  unfoldable pub jit_int8mul : ℤ → ℤ → Result ℤ
  jit_int8mul a b = returned int8_overflow (mul_overflow a b)

  unfoldable pub jit_int8inc : ℤ → Result ℤ
  jit_int8inc a = returned int8_overflow (add_overflow a (pos 1))

  unfoldable pub jit_int8dec : ℤ → Result ℤ
  jit_int8dec a = returned int8_overflow (sub_overflow a (pos 1))

unfoldable pub jit_int8div : ℤ → ℤ → Result ℤ
jit_int8div a b =
    if eqb_ℤ b (pos 0)
    then err division_by_zero
    else (if is_min_by_minus_one half64 a b then err int8_overflow else ok (quot_ℤ a b))

unfoldable pub jit_int8mod : ℤ → ℤ → Result ℤ
jit_int8mod a b =
    if eqb_ℤ b (pos 0)
    then err division_by_zero
    else (if is_min_by_minus_one half64 a b then ok (pos 0) else ok (rem_ℤ a b))

unfoldable pub jit_int8abs : ℤ → Result ℤ
jit_int8abs a =
    if eqb_ℤ a (int_min half64) then err int8_overflow else ok (if is_neg a then neg_ℤ a else a)

unfoldable pub jit_int8um : ℤ → Result ℤ
jit_int8um a = if eqb_ℤ a (int_min half64) then err int8_overflow else ok (neg_ℤ a)

-- `if (r < PG_INT16_MIN || r > PG_INT16_MAX) jit_error_int2_overflow(); return (int32)(int16)r;`
abbrev pub int2_checked : ℤ → Result ℤ
int2_checked r =
    if ltb_ℤ r (negsuc (half16 - 1)) || ltb_ℤ (pos (half16 - 1)) r
    then err int2_overflow
    else ok (wrap half16 r)

-- The arguments are int2 values in int4 registers, of which the low 16 bits count.
unfoldable pub jit_int2pl : ℤ → ℤ → Result ℤ
jit_int2pl a b = int2_checked (wrap half16 a +ℤ wrap half16 b)

unfoldable pub jit_int2mi : ℤ → ℤ → Result ℤ
jit_int2mi a b = int2_checked (wrap half16 a -ℤ wrap half16 b)

unfoldable pub jit_int2mul : ℤ → ℤ → Result ℤ
jit_int2mul a b = int2_checked (wrap half16 a *ℤ wrap half16 b)

unfoldable pub jit_int2div : ℤ → ℤ → Result ℤ
jit_int2div a32 b32 =
    let a = wrap half16 a32 in
    let b = wrap half16 b32 in
    if eqb_ℤ b (pos 0)
    then err division_by_zero
    else (if is_min_by_minus_one half16 a b then err int2_overflow else ok (quot_ℤ a b))

unfoldable pub jit_int2mod : ℤ → ℤ → Result ℤ
jit_int2mod a32 b32 =
    let a = wrap half16 a32 in
    let b = wrap half16 b32 in
    if eqb_ℤ b (pos 0)
    then err division_by_zero
    else (if is_min_by_minus_one half16 a b then ok (pos 0) else ok (rem_ℤ a b))

unfoldable pub jit_int2abs : ℤ → Result ℤ
jit_int2abs a32 =
    let a = wrap half16 a32 in
    if eqb_ℤ a (int_min half16) then err int2_overflow else ok (if is_neg a then neg_ℤ a else a)

unfoldable pub jit_int2um : ℤ → Result ℤ
jit_int2um a32 =
    let a = wrap half16 a32 in
    if eqb_ℤ a (int_min half16) then err int2_overflow else ok (wrap half16 (neg_ℤ a))
