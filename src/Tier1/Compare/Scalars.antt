-- ===== src/Tier1/Compare/Scalars.antt =====
-- The comparisons of src/pg_jit_funcs.c on dates, timestamps, booleans and the unsigned types.
use pg_jitter.Prelude.{not, ◌==◌, ltb, leb}
use pg_jitter.Prelude.Int.{ℤ, ltb_ℤ, leb_ℤ}
use pg_jitter.Machine.{half8, half32, half64, to_uint, eqb_ℤ, flag}

unfoldable pub jit_date_eq : ℤ → ℤ → ℤ
jit_date_eq a b = flag (eqb_ℤ a b)

unfoldable pub jit_date_ne : ℤ → ℤ → ℤ
jit_date_ne a b = flag (not (eqb_ℤ a b))

unfoldable pub jit_date_lt : ℤ → ℤ → ℤ
jit_date_lt a b = flag (ltb_ℤ a b)

unfoldable pub jit_date_le : ℤ → ℤ → ℤ
jit_date_le a b = flag (leb_ℤ a b)

unfoldable pub jit_date_gt : ℤ → ℤ → ℤ
jit_date_gt a b = flag (ltb_ℤ b a)

unfoldable pub jit_date_ge : ℤ → ℤ → ℤ
jit_date_ge a b = flag (leb_ℤ b a)

unfoldable pub jit_timestamp_eq : ℤ → ℤ → ℤ
jit_timestamp_eq a b = flag (eqb_ℤ a b)

unfoldable pub jit_timestamp_ne : ℤ → ℤ → ℤ
jit_timestamp_ne a b = flag (not (eqb_ℤ a b))

unfoldable pub jit_timestamp_lt : ℤ → ℤ → ℤ
jit_timestamp_lt a b = flag (ltb_ℤ a b)

unfoldable pub jit_timestamp_le : ℤ → ℤ → ℤ
jit_timestamp_le a b = flag (leb_ℤ a b)

unfoldable pub jit_timestamp_gt : ℤ → ℤ → ℤ
jit_timestamp_gt a b = flag (ltb_ℤ b a)

unfoldable pub jit_timestamp_ge : ℤ → ℤ → ℤ
jit_timestamp_ge a b = flag (leb_ℤ b a)

unfoldable pub jit_booleq : ℤ → ℤ → ℤ
jit_booleq a b = flag (eqb_ℤ a b)

unfoldable pub jit_boolne : ℤ → ℤ → ℤ
jit_boolne a b = flag (not (eqb_ℤ a b))

unfoldable pub jit_boollt : ℤ → ℤ → ℤ
jit_boollt a b = flag (ltb_ℤ a b)

unfoldable pub jit_boolle : ℤ → ℤ → ℤ
jit_boolle a b = flag (leb_ℤ a b)

unfoldable pub jit_boolgt : ℤ → ℤ → ℤ
jit_boolgt a b = flag (ltb_ℤ b a)

unfoldable pub jit_boolge : ℤ → ℤ → ℤ
jit_boolge a b = flag (leb_ℤ b a)

unfoldable pub jit_oideq : ℤ → ℤ → ℤ
jit_oideq a b = flag (to_uint half32 a == to_uint half32 b)

unfoldable pub jit_oidne : ℤ → ℤ → ℤ
jit_oidne a b = flag (not (to_uint half32 a == to_uint half32 b))

unfoldable pub jit_oidlt : ℤ → ℤ → ℤ
jit_oidlt a b = flag (ltb (to_uint half32 a) (to_uint half32 b))

unfoldable pub jit_oidle : ℤ → ℤ → ℤ
jit_oidle a b = flag (leb (to_uint half32 a) (to_uint half32 b))

unfoldable pub jit_oidgt : ℤ → ℤ → ℤ
jit_oidgt a b = flag (ltb (to_uint half32 b) (to_uint half32 a))

unfoldable pub jit_oidge : ℤ → ℤ → ℤ
jit_oidge a b = flag (leb (to_uint half32 b) (to_uint half32 a))

unfoldable pub jit_chareq : ℤ → ℤ → ℤ
jit_chareq a b = flag (to_uint half8 a == to_uint half8 b)

unfoldable pub jit_charne : ℤ → ℤ → ℤ
jit_charne a b = flag (not (to_uint half8 a == to_uint half8 b))

unfoldable pub jit_charlt : ℤ → ℤ → ℤ
jit_charlt a b = flag (ltb (to_uint half8 a) (to_uint half8 b))

unfoldable pub jit_charle : ℤ → ℤ → ℤ
jit_charle a b = flag (leb (to_uint half8 a) (to_uint half8 b))

unfoldable pub jit_chargt : ℤ → ℤ → ℤ
jit_chargt a b = flag (ltb (to_uint half8 b) (to_uint half8 a))

unfoldable pub jit_charge : ℤ → ℤ → ℤ
jit_charge a b = flag (leb (to_uint half8 b) (to_uint half8 a))

unfoldable pub jit_xid8eq : ℤ → ℤ → ℤ
jit_xid8eq a b = flag (to_uint half64 a == to_uint half64 b)

unfoldable pub jit_xid8ne : ℤ → ℤ → ℤ
jit_xid8ne a b = flag (not (to_uint half64 a == to_uint half64 b))

unfoldable pub jit_xid8lt : ℤ → ℤ → ℤ
jit_xid8lt a b = flag (ltb (to_uint half64 a) (to_uint half64 b))

unfoldable pub jit_xid8le : ℤ → ℤ → ℤ
jit_xid8le a b = flag (leb (to_uint half64 a) (to_uint half64 b))

unfoldable pub jit_xid8gt : ℤ → ℤ → ℤ
jit_xid8gt a b = flag (ltb (to_uint half64 b) (to_uint half64 a))

unfoldable pub jit_xid8ge : ℤ → ℤ → ℤ
jit_xid8ge a b = flag (leb (to_uint half64 b) (to_uint half64 a))

unfoldable pub jit_pg_lsn_eq : ℤ → ℤ → ℤ
jit_pg_lsn_eq a b = flag (to_uint half64 a == to_uint half64 b)

unfoldable pub jit_pg_lsn_ne : ℤ → ℤ → ℤ
jit_pg_lsn_ne a b = flag (not (to_uint half64 a == to_uint half64 b))

unfoldable pub jit_pg_lsn_lt : ℤ → ℤ → ℤ
jit_pg_lsn_lt a b = flag (ltb (to_uint half64 a) (to_uint half64 b))

unfoldable pub jit_pg_lsn_le : ℤ → ℤ → ℤ
jit_pg_lsn_le a b = flag (leb (to_uint half64 a) (to_uint half64 b))

unfoldable pub jit_pg_lsn_gt : ℤ → ℤ → ℤ
jit_pg_lsn_gt a b = flag (ltb (to_uint half64 b) (to_uint half64 a))

unfoldable pub jit_pg_lsn_ge : ℤ → ℤ → ℤ
jit_pg_lsn_ge a b = flag (leb (to_uint half64 b) (to_uint half64 a))
