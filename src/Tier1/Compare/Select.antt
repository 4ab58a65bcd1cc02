-- ===== src/Tier1/Compare/Select.antt =====
-- The larger and the smaller of two values, and the three-way comparisons, of src/pg_jit_funcs.c.
use pg_jitter.Prelude.{ltb, leb, if◌then◌else◌}
use pg_jitter.Prelude.Int.{ℤ, pos, negsuc, ltb_ℤ, leb_ℤ, ◌-ℤ◌}
use pg_jitter.Machine.{half16, half32, half64, wrap, to_uint, flag}

unfoldable pub jit_int2larger : ℤ → ℤ → ℤ
jit_int2larger a b = if leb_ℤ (wrap half16 b) (wrap half16 a) then a else b

unfoldable pub jit_int2smaller : ℤ → ℤ → ℤ
jit_int2smaller a b = if leb_ℤ (wrap half16 a) (wrap half16 b) then a else b

unfoldable pub jit_int4larger : ℤ → ℤ → ℤ
jit_int4larger a b = if leb_ℤ b a then a else b

unfoldable pub jit_int4smaller : ℤ → ℤ → ℤ
jit_int4smaller a b = if leb_ℤ a b then a else b

unfoldable pub jit_int8larger : ℤ → ℤ → ℤ
jit_int8larger a b = if leb_ℤ b a then a else b

unfoldable pub jit_int8smaller : ℤ → ℤ → ℤ
jit_int8smaller a b = if leb_ℤ a b then a else b

unfoldable pub jit_timestamp_larger : ℤ → ℤ → ℤ
jit_timestamp_larger a b = if leb_ℤ b a then a else b

unfoldable pub jit_timestamp_smaller : ℤ → ℤ → ℤ
jit_timestamp_smaller a b = if leb_ℤ a b then a else b

unfoldable pub jit_time_larger : ℤ → ℤ → ℤ
jit_time_larger a b = if ltb_ℤ b a then a else b

unfoldable pub jit_time_smaller : ℤ → ℤ → ℤ
jit_time_smaller a b = if ltb_ℤ a b then a else b

unfoldable pub jit_cashlarger : ℤ → ℤ → ℤ
jit_cashlarger a b = if leb_ℤ b a then a else b

unfoldable pub jit_cashsmaller : ℤ → ℤ → ℤ
jit_cashsmaller a b = if leb_ℤ a b then a else b

unfoldable pub jit_date_larger : ℤ → ℤ → ℤ
jit_date_larger a b = if leb_ℤ b a then a else b

unfoldable pub jit_date_smaller : ℤ → ℤ → ℤ
jit_date_smaller a b = if leb_ℤ a b then a else b

unfoldable pub jit_oidlarger : ℤ → ℤ → ℤ
jit_oidlarger a b = if leb (to_uint half32 b) (to_uint half32 a) then a else b

unfoldable pub jit_oidsmaller : ℤ → ℤ → ℤ
jit_oidsmaller a b = if leb (to_uint half32 a) (to_uint half32 b) then a else b

unfoldable pub jit_pg_lsn_larger : ℤ → ℤ → ℤ
jit_pg_lsn_larger a b = if ltb (to_uint half64 b) (to_uint half64 a) then a else b

unfoldable pub jit_pg_lsn_smaller : ℤ → ℤ → ℤ
jit_pg_lsn_smaller a b = if ltb (to_uint half64 a) (to_uint half64 b) then a else b

unfoldable pub jit_xid8cmp : ℤ → ℤ → ℤ
jit_xid8cmp a b =
    let ua = to_uint half64 a in let ub = to_uint half64 b in flag (ltb ub ua) -ℤ flag (ltb ua ub)

unfoldable pub jit_pg_lsn_cmp : ℤ → ℤ → ℤ
jit_pg_lsn_cmp a b =
    let ua = to_uint half64 a in let ub = to_uint half64 b in flag (ltb ub ua) -ℤ flag (ltb ua ub)

unfoldable pub jit_timestamp_cmp : ℤ → ℤ → ℤ
jit_timestamp_cmp a b = if ltb_ℤ a b then negsuc 0 else (if ltb_ℤ b a then pos 1 else pos 0)
