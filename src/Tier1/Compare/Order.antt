-- ===== src/Tier1/Compare/Order.antt =====
-- The comparisons answer by the order of the numbers that their arguments stand for.
use pg_jitter.Prelude.{
  ℕ, Bool, true, false, refl, ◌+◌, ◌<◌, ◌≡◌, ◌≢◌, not, ltb, leb, ◌==◌, arith, ap,
}
use pg_jitter.Prelude.Int.{ℤ, pos, pos_part, neg_part, ltb_ℤ, leb_ℤ, ◌-ℤ◌}
use pg_jitter.Machine.{half8, half16, half32, half64, wrap, to_uint, flag, eqb_ℤ}
use pg_jitter.Tier1.Compare.Integers.{
  jit_int4eq, jit_int4ne, jit_int4lt, jit_int4le, jit_int4gt, jit_int4ge, jit_int8eq, jit_int8ne,
  jit_int8lt, jit_int8le, jit_int8gt, jit_int8ge, jit_int2eq, jit_int2ne, jit_int2lt, jit_int2le,
  jit_int2gt, jit_int2ge, jit_int48eq, jit_int48ne, jit_int48lt, jit_int48le, jit_int48gt,
  jit_int48ge, jit_int84eq, jit_int84ne, jit_int84lt, jit_int84le, jit_int84gt, jit_int84ge,
  jit_int24eq, jit_int24ne, jit_int24lt, jit_int24le, jit_int24gt, jit_int24ge, jit_int42eq,
  jit_int42ne, jit_int42lt, jit_int42le, jit_int42gt, jit_int42ge, jit_int28eq, jit_int28ne,
  jit_int28lt, jit_int28le, jit_int28gt, jit_int28ge, jit_int82eq, jit_int82ne, jit_int82lt,
  jit_int82le, jit_int82gt, jit_int82ge,
}
use pg_jitter.Tier1.Compare.Scalars.{
  jit_date_eq, jit_date_ne, jit_date_lt, jit_date_le, jit_date_gt, jit_date_ge, jit_timestamp_eq,
  jit_timestamp_ne, jit_timestamp_lt, jit_timestamp_le, jit_timestamp_gt, jit_timestamp_ge,
  jit_booleq, jit_boolne, jit_boollt, jit_boolle, jit_boolgt, jit_boolge, jit_oideq, jit_oidne,
  jit_oidlt, jit_oidle, jit_oidgt, jit_oidge, jit_chareq, jit_charne, jit_charlt, jit_charle,
  jit_chargt, jit_charge, jit_xid8eq, jit_xid8ne, jit_xid8lt, jit_xid8le, jit_xid8gt, jit_xid8ge,
  jit_pg_lsn_eq, jit_pg_lsn_ne, jit_pg_lsn_lt, jit_pg_lsn_le, jit_pg_lsn_gt, jit_pg_lsn_ge,
}
use pg_jitter.Tier1.Words.{jit_xideq, jit_xidneq, jit_cideq}

infix 50 ◌<ℤ◌
abbrev pub ◌<ℤ◌ : ℤ → ℤ → Type 0
x <ℤ y = pos_part x + neg_part y < pos_part y + neg_part x

-- The answers of `=`, `<>`, `<`, `<=`, `>` and `>=` on `x` and `y`: 1 where the relation holds, else 0.
pub record Orders (x y e n l le g ge : ℤ) : Type 0 where
  pub on_equal :
      x ≡ y → (e ≡ pos 1) × (n ≡ pos 0) × (l ≡ pos 0) × (le ≡ pos 1) × (g ≡ pos 0) × (ge ≡ pos 1)
  pub on_less :
      x <ℤ y → (e ≡ pos 0) × (n ≡ pos 1) × (l ≡ pos 1) × (le ≡ pos 1) × (g ≡ pos 0) × (ge ≡ pos 0)
  pub on_greater :
      y <ℤ x → (e ≡ pos 0) × (n ≡ pos 1) × (l ≡ pos 0) × (le ≡ pos 0) × (g ≡ pos 1) × (ge ≡ pos 1)

-- The six functions answer on `a` and `b` by the order of `x` and `y`.
abbrev pub IsComparison :
    (ℤ → ℤ → ℤ)
    → (ℤ → ℤ → ℤ)
    → (ℤ → ℤ → ℤ)
    → (ℤ → ℤ → ℤ)
    → (ℤ → ℤ → ℤ)
    → (ℤ → ℤ → ℤ)
    → ℤ
    → ℤ
    → ℤ
    → ℤ
    → Type 0
IsComparison eq ne lt le gt ge a b x y =
    Orders x y (eq a b) (ne a b) (lt a b) (le a b) (gt a b) (ge a b)

abbrev pub IsEquality : ℤ → ℤ → ℤ → Type 0
IsEquality x y e = (x ≡ y → e ≡ pos 1) × (x ≢ y → e ≡ pos 0)

signed-Orders :
    (x y : ℤ)
    → Orders x y
        (flag (eqb_ℤ x y))
        (flag (not (eqb_ℤ x y)))
        (flag (ltb_ℤ x y))
        (flag (leb_ℤ x y))
        (flag (ltb_ℤ y x))
        (flag (leb_ℤ y x))
signed-Orders x y = record {
  on_equal = λ h. let p = ap pos_part h in let q = ap neg_part h in ground (arith, p, q);
  on_less = λ h. ground (arith, h);
  on_greater = λ h. ground (arith, h);
}

unsigned-Orders :
    (x y : ℕ)
    → Orders
        (pos x)
        (pos y)
        (flag (x == y))
        (flag (not (x == y)))
        (flag (ltb x y))
        (flag (leb x y))
        (flag (ltb y x))
        (flag (leb y x))
unsigned-Orders x y = record {
  on_equal = λ h. let p = ap pos_part h in ground (arith, p);
  on_less = λ h. ground (arith, h);
  on_greater = λ h. ground (arith, h);
}

unsigned-IsEquality : (x y : ℕ) → IsEquality (pos x) (pos y) (flag (x == y))
unsigned-IsEquality x y = (
  λ h. let p = ap pos_part h in ground (arith, p),
  λ h. let p : x ≢ y = λ e. h (ap pos e) in ground (arith, p),
)

-- The comparisons of int4, int8 and int2 values and the six families across these types answer by the
-- order of the signed numbers: `=`, `<>`, `<`, `<=`, `>` and `>=` are 1 where they hold of the two
-- numbers and 0 where they do not. An int2 is the low 16 bits of its argument.
pub integer_comparisons :
    (a b : ℤ)
    → IsComparison jit_int4eq jit_int4ne jit_int4lt jit_int4le jit_int4gt jit_int4ge a b a b
      × IsComparison jit_int8eq jit_int8ne jit_int8lt jit_int8le jit_int8gt jit_int8ge a b a b
      × IsComparison jit_int2eq jit_int2ne jit_int2lt jit_int2le jit_int2gt jit_int2ge a b
          (wrap half16 a)
          (wrap half16 b)
      × IsComparison jit_int48eq jit_int48ne jit_int48lt jit_int48le jit_int48gt jit_int48ge a b a b
      × IsComparison jit_int84eq jit_int84ne jit_int84lt jit_int84le jit_int84gt jit_int84ge a b a b
      × IsComparison jit_int24eq jit_int24ne jit_int24lt jit_int24le jit_int24gt jit_int24ge a b
          (wrap half16 a)
          b
      × IsComparison jit_int42eq jit_int42ne jit_int42lt jit_int42le jit_int42gt jit_int42ge a b a
          (wrap half16 b)
      × IsComparison jit_int28eq jit_int28ne jit_int28lt jit_int28le jit_int28gt jit_int28ge a b
          (wrap half16 a)
          b
      × IsComparison jit_int82eq jit_int82ne jit_int82lt jit_int82le jit_int82gt jit_int82ge a b a
          (wrap half16 b)
unfolding jit_int4eq jit_int4ne jit_int4lt jit_int4le jit_int4gt jit_int4ge jit_int8eq jit_int8ne
    jit_int8lt jit_int8le jit_int8gt jit_int8ge jit_int2eq jit_int2ne jit_int2lt jit_int2le
    jit_int2gt jit_int2ge jit_int48eq jit_int48ne jit_int48lt jit_int48le jit_int48gt jit_int48ge
    jit_int84eq jit_int84ne jit_int84lt jit_int84le jit_int84gt jit_int84ge jit_int24eq jit_int24ne
    jit_int24lt jit_int24le jit_int24gt jit_int24ge jit_int42eq jit_int42ne jit_int42lt jit_int42le
    jit_int42gt jit_int42ge jit_int28eq jit_int28ne jit_int28lt jit_int28le jit_int28gt jit_int28ge
    jit_int82eq jit_int82ne jit_int82lt jit_int82le jit_int82gt jit_int82ge
integer_comparisons a b = (
  signed-Orders a b,
  signed-Orders a b,
  signed-Orders (wrap half16 a) (wrap half16 b),
  signed-Orders a b,
  signed-Orders a b,
  signed-Orders (wrap half16 a) b,
  signed-Orders a (wrap half16 b),
  signed-Orders (wrap half16 a) b,
  signed-Orders a (wrap half16 b),
)

opposite : (b : Bool) → flag (not b) ≡ pos 1 -ℤ flag b
unfolding ◌-ℤ◌
opposite true = refl
opposite false = refl

-- The comparisons of dates, timestamps and booleans are 1 where they hold of the two signed numbers and 0
-- where they do not; those of object ids, characters, 64-bit transaction ids and log positions do so with
-- the unsigned words of 32, 8, 64 and 64 bits. The equality of transaction ids and of command ids is
-- that of the unsigned 32-bit words, and the inequality of transaction ids is the opposite.
pub scalar_comparisons :
    (a b : ℤ)
    → IsComparison jit_date_eq jit_date_ne jit_date_lt jit_date_le jit_date_gt jit_date_ge a b a b
      × IsComparison jit_timestamp_eq jit_timestamp_ne jit_timestamp_lt jit_timestamp_le
          jit_timestamp_gt jit_timestamp_ge a b a b
      × IsComparison jit_booleq jit_boolne jit_boollt jit_boolle jit_boolgt jit_boolge a b a b
      × IsComparison jit_oideq jit_oidne jit_oidlt jit_oidle jit_oidgt jit_oidge a b
          (pos (to_uint half32 a))
          (pos (to_uint half32 b))
      × IsComparison jit_chareq jit_charne jit_charlt jit_charle jit_chargt jit_charge a b
          (pos (to_uint half8 a))
          (pos (to_uint half8 b))
      × IsComparison jit_xid8eq jit_xid8ne jit_xid8lt jit_xid8le jit_xid8gt jit_xid8ge a b
          (pos (to_uint half64 a))
          (pos (to_uint half64 b))
      × IsComparison jit_pg_lsn_eq jit_pg_lsn_ne jit_pg_lsn_lt jit_pg_lsn_le jit_pg_lsn_gt
          jit_pg_lsn_ge a b
          (pos (to_uint half64 a))
          (pos (to_uint half64 b))
      × IsEquality (pos (to_uint half32 a)) (pos (to_uint half32 b)) (jit_xideq a b)
      × IsEquality (pos (to_uint half32 a)) (pos (to_uint half32 b)) (jit_cideq a b)
      × (jit_xidneq a b ≡ pos 1 -ℤ jit_xideq a b)
unfolding jit_date_eq jit_date_ne jit_date_lt jit_date_le jit_date_gt jit_date_ge jit_timestamp_eq
    jit_timestamp_ne jit_timestamp_lt jit_timestamp_le jit_timestamp_gt jit_timestamp_ge jit_booleq
    jit_boolne jit_boollt jit_boolle jit_boolgt jit_boolge jit_oideq jit_oidne jit_oidlt jit_oidle
    jit_oidgt jit_oidge jit_chareq jit_charne jit_charlt jit_charle jit_chargt jit_charge jit_xid8eq
    jit_xid8ne jit_xid8lt jit_xid8le jit_xid8gt jit_xid8ge jit_pg_lsn_eq jit_pg_lsn_ne jit_pg_lsn_lt
    jit_pg_lsn_le jit_pg_lsn_gt jit_pg_lsn_ge jit_xideq jit_cideq jit_xidneq ◌-ℤ◌
scalar_comparisons a b = (
  signed-Orders a b,
  signed-Orders a b,
  signed-Orders a b,
  unsigned-Orders (to_uint half32 a) (to_uint half32 b),
  unsigned-Orders (to_uint half8 a) (to_uint half8 b),
  unsigned-Orders (to_uint half64 a) (to_uint half64 b),
  unsigned-Orders (to_uint half64 a) (to_uint half64 b),
  unsigned-IsEquality (to_uint half32 a) (to_uint half32 b),
  unsigned-IsEquality (to_uint half32 a) (to_uint half32 b),
  opposite (to_uint half32 a == to_uint half32 b),
)
