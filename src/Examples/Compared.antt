-- ===== src/Examples/Compared.antt =====
-- The comparisons of src/pg_jit_funcs.c at -1 and 70000, which are in another order where they are read
-- as unsigned words or cut to 16 bits.
use pg_jitter.Prelude.{◌≡◌, refl, not, if◌then◌else◌}
use pg_jitter.Prelude.Int.{◌-ℤ◌, pos, negsuc, ltb_ℤ, leb_ℤ}
use pg_jitter.Machine.{half8, half16, half32, half64, wrap, to_uint, flag, eqb_ℤ}
use pg_jitter.Tier1.Compare.Integers.{
  jit_int24eq, jit_int24ge, jit_int24gt, jit_int24le, jit_int24lt, jit_int24ne, jit_int28eq,
  jit_int28ge, jit_int28gt, jit_int28le, jit_int28lt, jit_int28ne, jit_int2eq, jit_int2ge,
  jit_int2gt, jit_int2le, jit_int2lt, jit_int2ne, jit_int42eq, jit_int42ge, jit_int42gt,
  jit_int42le, jit_int42lt, jit_int42ne, jit_int48eq, jit_int48ge, jit_int48gt, jit_int48le,
  jit_int48lt, jit_int48ne, jit_int4eq, jit_int4ge, jit_int4gt, jit_int4le, jit_int4lt, jit_int4ne,
  jit_int82eq, jit_int82ge, jit_int82gt, jit_int82le, jit_int82lt, jit_int82ne, jit_int84eq,
  jit_int84ge, jit_int84gt, jit_int84le, jit_int84lt, jit_int84ne, jit_int8eq, jit_int8ge,
  jit_int8gt, jit_int8le, jit_int8lt, jit_int8ne,
}
use pg_jitter.Tier1.Compare.Scalars.{
  jit_booleq, jit_boolge, jit_boolgt, jit_boolle, jit_boollt, jit_boolne, jit_chareq, jit_charge,
  jit_chargt, jit_charle, jit_charlt, jit_charne, jit_date_eq, jit_date_ge, jit_date_gt,
  jit_date_le, jit_date_lt, jit_date_ne, jit_oideq, jit_oidge, jit_oidgt, jit_oidle, jit_oidlt,
  jit_oidne, jit_pg_lsn_eq, jit_pg_lsn_ge, jit_pg_lsn_gt, jit_pg_lsn_le, jit_pg_lsn_lt,
  jit_pg_lsn_ne, jit_timestamp_eq, jit_timestamp_ge, jit_timestamp_gt, jit_timestamp_le,
  jit_timestamp_lt, jit_timestamp_ne, jit_xid8eq, jit_xid8ge, jit_xid8gt, jit_xid8le, jit_xid8lt,
  jit_xid8ne,
}
use pg_jitter.Tier1.Compare.Select.{
  jit_time_larger, jit_time_smaller, jit_cashlarger, jit_cashsmaller, jit_date_larger,
  jit_date_smaller, jit_int2larger, jit_int2smaller, jit_int4larger, jit_int4smaller,
  jit_int8larger, jit_int8smaller, jit_oidlarger, jit_oidsmaller, jit_pg_lsn_cmp, jit_pg_lsn_larger,
  jit_pg_lsn_smaller, jit_timestamp_cmp, jit_timestamp_larger, jit_timestamp_smaller, jit_xid8cmp,
}
use pg_jitter.Tier1.Words.{jit_xideq, jit_xidneq, jit_cideq}
use pg_jitter.Tier1.Compare.Order.{
  IsComparison, IsEquality, integer_comparisons, scalar_comparisons,
}
use pg_jitter.Tier1.Compare.Sorts.{Sorts, larger-smaller-Sorts}
use pg_jitter.Tier1.Compare.Btree.{
  jit_btboolcmp, jit_btcharcmp, jit_btint2cmp, jit_btint4cmp, jit_btint8cmp, jit_btint24cmp,
  jit_btint42cmp, jit_btint28cmp, jit_btint48cmp, jit_btint82cmp, jit_btint84cmp, jit_btoidcmp,
  jit_date_cmp, Interval, span, jit_interval_cmp, jit_interval_eq, jit_interval_ne, jit_interval_lt,
  jit_interval_le, jit_interval_gt, jit_interval_ge, jit_interval_smaller, jit_interval_larger,
}
use pg_jitter.Tier1.Compare.ThreeWay.{Signs, btree_comparisons, interval_comparisons}

int2lt_run : jit_int2lt (negsuc 0) (pos 70000) ≡ pos 1
unfolding jit_int2lt
int2lt_run = refl

oidlt_run : jit_oidlt (negsuc 0) (pos 70000) ≡ pos 0
unfolding jit_oidlt
oidlt_run = refl

integer_comparisons_example :
    IsComparison jit_int4eq jit_int4ne jit_int4lt jit_int4le jit_int4gt jit_int4ge
      (negsuc 0)
      (pos 70000)
      (negsuc 0)
      (pos 70000)
    × IsComparison jit_int8eq jit_int8ne jit_int8lt jit_int8le jit_int8gt jit_int8ge
        (negsuc 0)
        (pos 70000)
        (negsuc 0)
        (pos 70000)
    × IsComparison jit_int2eq jit_int2ne jit_int2lt jit_int2le jit_int2gt jit_int2ge
        (negsuc 0)
        (pos 70000)
        (wrap half16 (negsuc 0))
        (wrap half16 (pos 70000))
    × IsComparison jit_int48eq jit_int48ne jit_int48lt jit_int48le jit_int48gt jit_int48ge
        (negsuc 0)
        (pos 70000)
        (negsuc 0)
        (pos 70000)
    × IsComparison jit_int84eq jit_int84ne jit_int84lt jit_int84le jit_int84gt jit_int84ge
        (negsuc 0)
        (pos 70000)
        (negsuc 0)
        (pos 70000)
    × IsComparison jit_int24eq jit_int24ne jit_int24lt jit_int24le jit_int24gt jit_int24ge
        (negsuc 0)
        (pos 70000)
        (wrap half16 (negsuc 0))
        (pos 70000)
    × IsComparison jit_int42eq jit_int42ne jit_int42lt jit_int42le jit_int42gt jit_int42ge
        (negsuc 0)
        (pos 70000)
        (negsuc 0)
        (wrap half16 (pos 70000))
    × IsComparison jit_int28eq jit_int28ne jit_int28lt jit_int28le jit_int28gt jit_int28ge
        (negsuc 0)
        (pos 70000)
        (wrap half16 (negsuc 0))
        (pos 70000)
    × IsComparison jit_int82eq jit_int82ne jit_int82lt jit_int82le jit_int82gt jit_int82ge
        (negsuc 0)
        (pos 70000)
        (negsuc 0)
        (wrap half16 (pos 70000))
integer_comparisons_example = integer_comparisons (negsuc 0) (pos 70000)

scalar_comparisons_example :
    IsComparison jit_date_eq jit_date_ne jit_date_lt jit_date_le jit_date_gt jit_date_ge
      (negsuc 0)
      (pos 70000)
      (negsuc 0)
      (pos 70000)
    × IsComparison jit_timestamp_eq jit_timestamp_ne jit_timestamp_lt jit_timestamp_le
        jit_timestamp_gt jit_timestamp_ge
        (negsuc 0)
        (pos 70000)
        (negsuc 0)
        (pos 70000)
    × IsComparison jit_booleq jit_boolne jit_boollt jit_boolle jit_boolgt jit_boolge
        (negsuc 0)
        (pos 70000)
        (negsuc 0)
        (pos 70000)
    × IsComparison jit_oideq jit_oidne jit_oidlt jit_oidle jit_oidgt jit_oidge
        (negsuc 0)
        (pos 70000)
        (pos (to_uint half32 (negsuc 0)))
        (pos (to_uint half32 (pos 70000)))
    × IsComparison jit_chareq jit_charne jit_charlt jit_charle jit_chargt jit_charge
        (negsuc 0)
        (pos 70000)
        (pos (to_uint half8 (negsuc 0)))
        (pos (to_uint half8 (pos 70000)))
    × IsComparison jit_xid8eq jit_xid8ne jit_xid8lt jit_xid8le jit_xid8gt jit_xid8ge
        (negsuc 0)
        (pos 70000)
        (pos (to_uint half64 (negsuc 0)))
        (pos (to_uint half64 (pos 70000)))
    × IsComparison jit_pg_lsn_eq jit_pg_lsn_ne jit_pg_lsn_lt jit_pg_lsn_le jit_pg_lsn_gt
        jit_pg_lsn_ge
        (negsuc 0)
        (pos 70000)
        (pos (to_uint half64 (negsuc 0)))
        (pos (to_uint half64 (pos 70000)))
    × IsEquality
        (pos (to_uint half32 (negsuc 0)))
        (pos (to_uint half32 (pos 70000)))
        (jit_xideq (negsuc 0) (pos 70000))
    × IsEquality
        (pos (to_uint half32 (negsuc 0)))
        (pos (to_uint half32 (pos 70000)))
        (jit_cideq (negsuc 0) (pos 70000))
    × (jit_xidneq (negsuc 0) (pos 70000) ≡ pos 1 -ℤ jit_xideq (negsuc 0) (pos 70000))
scalar_comparisons_example = scalar_comparisons (negsuc 0) (pos 70000)

larger-smaller-Sorts_example :
    Sorts
      (wrap half16)
      (negsuc 0)
      (pos 70000)
      (jit_int2larger (negsuc 0) (pos 70000))
      (jit_int2smaller (negsuc 0) (pos 70000))
    × Sorts
        (λ z. z)
        (negsuc 0)
        (pos 70000)
        (jit_int4larger (negsuc 0) (pos 70000))
        (jit_int4smaller (negsuc 0) (pos 70000))
    × Sorts
        (λ z. z)
        (negsuc 0)
        (pos 70000)
        (jit_int8larger (negsuc 0) (pos 70000))
        (jit_int8smaller (negsuc 0) (pos 70000))
    × Sorts
        (λ z. z)
        (negsuc 0)
        (pos 70000)
        (jit_timestamp_larger (negsuc 0) (pos 70000))
        (jit_timestamp_smaller (negsuc 0) (pos 70000))
    × Sorts
        (λ z. z)
        (negsuc 0)
        (pos 70000)
        (jit_date_larger (negsuc 0) (pos 70000))
        (jit_date_smaller (negsuc 0) (pos 70000))
    × Sorts
        (λ z. z)
        (negsuc 0)
        (pos 70000)
        (jit_time_larger (negsuc 0) (pos 70000))
        (jit_time_smaller (negsuc 0) (pos 70000))
    × Sorts
        (λ z. z)
        (negsuc 0)
        (pos 70000)
        (jit_cashlarger (negsuc 0) (pos 70000))
        (jit_cashsmaller (negsuc 0) (pos 70000))
    × Sorts
        (λ z. pos (to_uint half32 z))
        (negsuc 0)
        (pos 70000)
        (jit_oidlarger (negsuc 0) (pos 70000))
        (jit_oidsmaller (negsuc 0) (pos 70000))
    × Sorts
        (λ z. pos (to_uint half64 z))
        (negsuc 0)
        (pos 70000)
        (jit_pg_lsn_larger (negsuc 0) (pos 70000))
        (jit_pg_lsn_smaller (negsuc 0) (pos 70000))
larger-smaller-Sorts_example = larger-smaller-Sorts (negsuc 0) (pos 70000)

btree_comparisons_example :
    Signs
      (flag (not (eqb_ℤ (negsuc 0) (pos 0))))
      (flag (not (eqb_ℤ (pos 70000) (pos 0))))
      (jit_btboolcmp (negsuc 0) (pos 70000))
    × Signs
        (pos (to_uint half8 (negsuc 0)))
        (pos (to_uint half8 (pos 70000)))
        (jit_btcharcmp (negsuc 0) (pos 70000))
    × Signs
        (wrap half16 (negsuc 0))
        (wrap half16 (pos 70000))
        (jit_btint2cmp (negsuc 0) (pos 70000))
    × Signs (negsuc 0) (pos 70000) (jit_btint4cmp (negsuc 0) (pos 70000))
    × Signs (negsuc 0) (pos 70000) (jit_btint8cmp (negsuc 0) (pos 70000))
    × Signs (wrap half16 (negsuc 0)) (pos 70000) (jit_btint24cmp (negsuc 0) (pos 70000))
    × Signs (negsuc 0) (wrap half16 (pos 70000)) (jit_btint42cmp (negsuc 0) (pos 70000))
    × Signs (wrap half16 (negsuc 0)) (pos 70000) (jit_btint28cmp (negsuc 0) (pos 70000))
    × Signs (negsuc 0) (pos 70000) (jit_btint48cmp (negsuc 0) (pos 70000))
    × Signs (negsuc 0) (wrap half16 (pos 70000)) (jit_btint82cmp (negsuc 0) (pos 70000))
    × Signs (negsuc 0) (pos 70000) (jit_btint84cmp (negsuc 0) (pos 70000))
    × Signs
        (pos (to_uint half32 (negsuc 0)))
        (pos (to_uint half32 (pos 70000)))
        (jit_btoidcmp (negsuc 0) (pos 70000))
    × Signs
        (pos (to_uint half64 (negsuc 0)))
        (pos (to_uint half64 (pos 70000)))
        (jit_xid8cmp (negsuc 0) (pos 70000))
    × Signs
        (pos (to_uint half64 (negsuc 0)))
        (pos (to_uint half64 (pos 70000)))
        (jit_pg_lsn_cmp (negsuc 0) (pos 70000))
    × Signs (negsuc 0) (pos 70000) (jit_date_cmp (negsuc 0) (pos 70000))
    × Signs (negsuc 0) (pos 70000) (jit_timestamp_cmp (negsuc 0) (pos 70000))
btree_comparisons_example = btree_comparisons (negsuc 0) (pos 70000)

abbrev a_month : Interval
a_month = record { time = pos 5; day = pos 0; month = pos 1 }

abbrev thirty_days : Interval
thirty_days = record { time = pos 0; day = pos 30; month = pos 0 }

interval_comparisons_example :
    Signs (span a_month) (span thirty_days) (jit_interval_cmp a_month thirty_days)
    × (jit_interval_eq a_month thirty_days ≡ flag (eqb_ℤ (span a_month) (span thirty_days)))
    × (jit_interval_ne a_month thirty_days ≡ flag (not (eqb_ℤ (span a_month) (span thirty_days))))
    × (jit_interval_lt a_month thirty_days ≡ flag (ltb_ℤ (span a_month) (span thirty_days)))
    × (jit_interval_le a_month thirty_days ≡ flag (leb_ℤ (span a_month) (span thirty_days)))
    × (jit_interval_gt a_month thirty_days ≡ flag (ltb_ℤ (span thirty_days) (span a_month)))
    × (jit_interval_ge a_month thirty_days ≡ flag (leb_ℤ (span thirty_days) (span a_month)))
    × (jit_interval_smaller a_month thirty_days
        ≡ (if leb_ℤ (span a_month) (span thirty_days) then a_month else thirty_days))
    × (jit_interval_larger a_month thirty_days
        ≡ (if leb_ℤ (span thirty_days) (span a_month) then a_month else thirty_days))
interval_comparisons_example = interval_comparisons a_month thirty_days
