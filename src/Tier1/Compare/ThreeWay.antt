-- ===== src/Tier1/Compare/ThreeWay.antt =====
-- The sign of a three-way comparison is the order of its arguments.
use pg_jitter.Prelude.{ℕ, ap, ◌≡◌, ltb, not, if◌then◌else◌, arith}
use pg_jitter.Prelude.Int.{ℤ, pos, ◌-ℤ◌, ltb_ℤ, leb_ℤ, -ℤ_parts}
use pg_jitter.Machine.{half8, half16, half32, half64, wrap, to_uint, flag, eqb_ℤ}
use pg_jitter.Tier1.Compare.Select.{jit_xid8cmp, jit_pg_lsn_cmp, jit_timestamp_cmp}
use pg_jitter.Tier1.Compare.Btree.{
  jit_btboolcmp, jit_btcharcmp, jit_btint2cmp, jit_btint4cmp, jit_btint8cmp, jit_btint24cmp,
  jit_btint42cmp, jit_btint28cmp, jit_btint48cmp, jit_btint82cmp, jit_btint84cmp, jit_btoidcmp,
  jit_date_cmp, Interval, span, jit_interval_cmp_internal, jit_interval_eq, jit_interval_ne,
  jit_interval_lt, jit_interval_le, jit_interval_gt, jit_interval_ge, jit_interval_cmp,
  jit_interval_smaller, jit_interval_larger,
}

-- `z` is negative where `x` is less than `y`, positive where it is greater, and 0 where they are equal.
abbrev pub Signs : ℤ → ℤ → ℤ → Type 0
Signs x y z =
    (ltb_ℤ z (pos 0) ≡ ltb_ℤ x y) × (ltb_ℤ (pos 0) z ≡ ltb_ℤ y x) × (eqb_ℤ z (pos 0) ≡ eqb_ℤ x y)

three_way-Signs : (x y : ℤ) → Signs x y (flag (ltb_ℤ y x) -ℤ flag (ltb_ℤ x y))
unfolding ◌-ℤ◌
three_way-Signs x y = (ground arith, ground arith, ground arith)

unsigned-Signs : (x y : ℕ) → Signs (pos x) (pos y) (flag (ltb y x) -ℤ flag (ltb x y))
unfolding ◌-ℤ◌
unsigned-Signs x y = (ground arith, ground arith, ground arith)

Signs-le : (x y z : ℤ) → Signs x y z → leb_ℤ z (pos 0) ≡ leb_ℤ x y
Signs-le x y z s = ground (arith, s.1)

Signs-ge : (x y z : ℤ) → Signs x y z → leb_ℤ (pos 0) z ≡ leb_ℤ y x
Signs-ge x y z s = ground (arith, s.0)

difference-Signs : (x y : ℤ) → Signs x y (x -ℤ y)
difference-Signs x y =
    (ground (arith, -ℤ_parts x y), ground (arith, -ℤ_parts x y), ground (arith, -ℤ_parts x y))

timestamp-Signs : (x y : ℤ) → Signs x y (jit_timestamp_cmp x y)
unfolding jit_timestamp_cmp
timestamp-Signs x y = (ground arith, ground arith, ground arith)

-- Every three-way comparison has the sign of the order: of Booleans with false before true, of the
-- internal char type and of object ids, transaction ids and log positions as unsigned numbers, of int2
-- by the low 16 bits, of int4, int8, dates and timestamps as signed numbers, across the widths too.
pub btree_comparisons :
    (a b : ℤ)
    → Signs (flag (not (eqb_ℤ a (pos 0)))) (flag (not (eqb_ℤ b (pos 0)))) (jit_btboolcmp a b)
      × Signs (pos (to_uint half8 a)) (pos (to_uint half8 b)) (jit_btcharcmp a b)
      × Signs (wrap half16 a) (wrap half16 b) (jit_btint2cmp a b)
      × Signs a b (jit_btint4cmp a b)
      × Signs a b (jit_btint8cmp a b)
      × Signs (wrap half16 a) b (jit_btint24cmp a b)
      × Signs a (wrap half16 b) (jit_btint42cmp a b)
      × Signs (wrap half16 a) b (jit_btint28cmp a b)
      × Signs a b (jit_btint48cmp a b)
      × Signs a (wrap half16 b) (jit_btint82cmp a b)
      × Signs a b (jit_btint84cmp a b)
      × Signs (pos (to_uint half32 a)) (pos (to_uint half32 b)) (jit_btoidcmp a b)
      × Signs (pos (to_uint half64 a)) (pos (to_uint half64 b)) (jit_xid8cmp a b)
      × Signs (pos (to_uint half64 a)) (pos (to_uint half64 b)) (jit_pg_lsn_cmp a b)
      × Signs a b (jit_date_cmp a b)
      × Signs a b (jit_timestamp_cmp a b)
unfolding jit_btboolcmp jit_btcharcmp jit_btint2cmp jit_btint4cmp jit_btint8cmp jit_btint24cmp
    jit_btint42cmp jit_btint28cmp jit_btint48cmp jit_btint82cmp jit_btint84cmp jit_btoidcmp
    jit_xid8cmp jit_pg_lsn_cmp jit_date_cmp
btree_comparisons a b = (
  difference-Signs (flag (not (eqb_ℤ a (pos 0)))) (flag (not (eqb_ℤ b (pos 0)))),
  difference-Signs (pos (to_uint half8 a)) (pos (to_uint half8 b)),
  difference-Signs (wrap half16 a) (wrap half16 b),
  three_way-Signs a b,
  three_way-Signs a b,
  three_way-Signs (wrap half16 a) b,
  three_way-Signs a (wrap half16 b),
  three_way-Signs (wrap half16 a) b,
  three_way-Signs a b,
  three_way-Signs a (wrap half16 b),
  three_way-Signs a b,
  three_way-Signs (pos (to_uint half32 a)) (pos (to_uint half32 b)),
  unsigned-Signs (to_uint half64 a) (to_uint half64 b),
  unsigned-Signs (to_uint half64 a) (to_uint half64 b),
  three_way-Signs a b,
  timestamp-Signs a b,
)

-- The comparisons of intervals are those of their spans in microseconds, and the smaller and the larger
-- of two intervals are the two by their spans.
pub interval_comparisons :
    (a b : Interval)
    → Signs (span a) (span b) (jit_interval_cmp a b)
      × (jit_interval_eq a b ≡ flag (eqb_ℤ (span a) (span b)))
      × (jit_interval_ne a b ≡ flag (not (eqb_ℤ (span a) (span b))))
      × (jit_interval_lt a b ≡ flag (ltb_ℤ (span a) (span b)))
      × (jit_interval_le a b ≡ flag (leb_ℤ (span a) (span b)))
      × (jit_interval_gt a b ≡ flag (ltb_ℤ (span b) (span a)))
      × (jit_interval_ge a b ≡ flag (leb_ℤ (span b) (span a)))
      × (jit_interval_smaller a b ≡ (if leb_ℤ (span a) (span b) then a else b))
      × (jit_interval_larger a b ≡ (if leb_ℤ (span b) (span a) then a else b))
unfolding jit_interval_cmp_internal jit_interval_eq jit_interval_ne jit_interval_lt jit_interval_le
    jit_interval_gt jit_interval_ge jit_interval_cmp jit_interval_smaller jit_interval_larger
interval_comparisons a b =
    let s = three_way-Signs (span a) (span b) in
    let le = Signs-le (span a) (span b) (jit_interval_cmp a b) s in
    let ge = Signs-ge (span a) (span b) (jit_interval_cmp a b) s in
    (
      s,
      ap flag s.2,
      ap (λ t. flag (not t)) s.2,
      ap flag s.0,
      ap flag le,
      ap flag s.1,
      ap flag ge,
      ap (λ t. if t then a else b) le,
      ap (λ t. if t then a else b) ge,
    )
