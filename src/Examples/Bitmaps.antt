-- ===== src/Examples/Bitmaps.antt =====
-- A null bitmap of two bytes for ten columns.
use pg_jitter.Prelude.{ℕ, zero, suc, ◌≡◌, refl, true, false, some, List, [], ◌∷◌, arith}
use pg_jitter.NullBitmap.Defs.{full_loop, vector_loop, simd_nullbitmap_all_notnull, none_null}
use pg_jitter.NullBitmap.Columns.{AreBytes}
use pg_jitter.NullBitmap.Scanned.{all_notnull_agrees}

abbrev two_bytes : List ℕ
two_bytes = 0xFF ∷ 0x03 ∷ []

two_bytes-AreBytes : AreBytes two_bytes
two_bytes-AreBytes zero byte e = let same : 0xFF ≡ byte = cc in omega arith
two_bytes-AreBytes (suc zero) byte e = let same : 0x03 ≡ byte = cc in omega arith
two_bytes-AreBytes (suc (suc i)) byte e = cc

ten_run : simd_nullbitmap_all_notnull true two_bytes 10 ≡ some true
unfolding simd_nullbitmap_all_notnull full_loop vector_loop
ten_run = refl

eleven_run : simd_nullbitmap_all_notnull true two_bytes 11 ≡ some false
unfolding simd_nullbitmap_all_notnull full_loop vector_loop
eleven_run = refl

all_notnull_agrees_example :
    simd_nullbitmap_all_notnull true two_bytes 11 ≡ some (none_null two_bytes 11)
all_notnull_agrees_example = all_notnull_agrees true two_bytes 11 two_bytes-AreBytes (omega arith)
