-- ===== src/Tier1/Compare/Sorts.antt =====
-- The larger and the smaller of two values are the two values in order, and the three-way comparisons
-- agree with the two-way ones.
use pg_jitter.Prelude.{◌≡◌, ◌⊎◌, arith, refl}
use pg_jitter.Prelude.Int.{ℤ, pos, ◌-ℤ◌, ◌≤ℤ◌}
use pg_jitter.Machine.{half16, half32, half64, wrap, to_uint}
use pg_jitter.Tier1.Compare.Scalars.{
  jit_timestamp_lt, jit_timestamp_gt, jit_xid8lt, jit_xid8gt, jit_pg_lsn_lt, jit_pg_lsn_gt,
}
use pg_jitter.Tier1.Compare.Select.{
  jit_int2larger, jit_int2smaller, jit_int4larger, jit_int4smaller, jit_int8larger, jit_int8smaller,
  jit_timestamp_larger, jit_timestamp_smaller, jit_time_larger, jit_time_smaller, jit_cashlarger,
  jit_cashsmaller, jit_date_larger, jit_date_smaller, jit_oidlarger, jit_oidsmaller,
  jit_pg_lsn_larger, jit_pg_lsn_smaller, jit_xid8cmp, jit_pg_lsn_cmp, jit_timestamp_cmp,
}

-- `large` and `small` are the values `a` and `b`, in order by `key`.
abbrev pub Sorts : (ℤ → ℤ) → ℤ → ℤ → ℤ → ℤ → Type 0
Sorts key a b large small =
    (key small ≤ℤ key large)
    × ((key large ≡ key a) × (key small ≡ key b) ⊎ (key large ≡ key b) × (key small ≡ key a))

int2-Sorts : (a b : ℤ) → Sorts (wrap half16) a b (jit_int2larger a b) (jit_int2smaller a b)
unfolding jit_int2larger jit_int2smaller
int2-Sorts a b = ground arith

int4-Sorts : (a b : ℤ) → Sorts (λ z. z) a b (jit_int4larger a b) (jit_int4smaller a b)
unfolding jit_int4larger jit_int4smaller
int4-Sorts a b = ground arith

int8-Sorts : (a b : ℤ) → Sorts (λ z. z) a b (jit_int8larger a b) (jit_int8smaller a b)
unfolding jit_int8larger jit_int8smaller
int8-Sorts a b = ground arith

timestamp-Sorts :
    (a b : ℤ) → Sorts (λ z. z) a b (jit_timestamp_larger a b) (jit_timestamp_smaller a b)
unfolding jit_timestamp_larger jit_timestamp_smaller
timestamp-Sorts a b = ground arith

date-Sorts : (a b : ℤ) → Sorts (λ z. z) a b (jit_date_larger a b) (jit_date_smaller a b)
unfolding jit_date_larger jit_date_smaller
date-Sorts a b = ground arith

time-Sorts : (a b : ℤ) → Sorts (λ z. z) a b (jit_time_larger a b) (jit_time_smaller a b)
unfolding jit_time_larger jit_time_smaller
time-Sorts a b = ground arith

cash-Sorts : (a b : ℤ) → Sorts (λ z. z) a b (jit_cashlarger a b) (jit_cashsmaller a b)
unfolding jit_cashlarger jit_cashsmaller
cash-Sorts a b = ground arith

oid-Sorts :
    (a b : ℤ) → Sorts (λ z. pos (to_uint half32 z)) a b (jit_oidlarger a b) (jit_oidsmaller a b)
unfolding jit_oidlarger jit_oidsmaller
oid-Sorts a b = ground arith

pg_lsn-Sorts :
    (a b : ℤ)
    → Sorts (λ z. pos (to_uint half64 z)) a b (jit_pg_lsn_larger a b) (jit_pg_lsn_smaller a b)
unfolding jit_pg_lsn_larger jit_pg_lsn_smaller
pg_lsn-Sorts a b = ground arith

-- The larger and the smaller of two values are the two values in order: of int4, int8, timestamp, date,
-- time and money as signed numbers, of int2 by the low 16 bits, of object ids and log positions as
-- unsigned numbers.
pub larger-smaller-Sorts :
    (a b : ℤ)
    → Sorts (wrap half16) a b (jit_int2larger a b) (jit_int2smaller a b)
      × Sorts (λ z. z) a b (jit_int4larger a b) (jit_int4smaller a b)
      × Sorts (λ z. z) a b (jit_int8larger a b) (jit_int8smaller a b)
      × Sorts (λ z. z) a b (jit_timestamp_larger a b) (jit_timestamp_smaller a b)
      × Sorts (λ z. z) a b (jit_date_larger a b) (jit_date_smaller a b)
      × Sorts (λ z. z) a b (jit_time_larger a b) (jit_time_smaller a b)
      × Sorts (λ z. z) a b (jit_cashlarger a b) (jit_cashsmaller a b)
      × Sorts (λ z. pos (to_uint half32 z)) a b (jit_oidlarger a b) (jit_oidsmaller a b)
      × Sorts (λ z. pos (to_uint half64 z)) a b (jit_pg_lsn_larger a b) (jit_pg_lsn_smaller a b)
larger-smaller-Sorts a b = (
  int2-Sorts a b,
  int4-Sorts a b,
  int8-Sorts a b,
  timestamp-Sorts a b,
  date-Sorts a b,
  time-Sorts a b,
  cash-Sorts a b,
  oid-Sorts a b,
  pg_lsn-Sorts a b,
)

-- The three-way comparisons of transaction ids, log positions and timestamps are 1, 0 and -1 as `gt`
-- and `lt` say: they equal `gt` minus `lt`.
pub three_way_comparisons :
    (a b : ℤ)
    → (jit_xid8cmp a b ≡ jit_xid8gt a b -ℤ jit_xid8lt a b)
      × (jit_pg_lsn_cmp a b ≡ jit_pg_lsn_gt a b -ℤ jit_pg_lsn_lt a b)
      × (jit_timestamp_cmp a b ≡ jit_timestamp_gt a b -ℤ jit_timestamp_lt a b)
unfolding jit_xid8cmp jit_pg_lsn_cmp jit_timestamp_cmp jit_xid8gt jit_xid8lt jit_pg_lsn_gt
    jit_pg_lsn_lt jit_timestamp_gt jit_timestamp_lt ◌-ℤ◌
three_way_comparisons a b = (refl, refl, ground arith)
