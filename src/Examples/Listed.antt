-- ===== src/Examples/Listed.antt =====
-- IN lists of a few values: the sorted array, and the hash table under the software checksum.
use pg_jitter.Prelude.{◌≡◌, ◌↔◌, refl, Bool, true, false, List, [], ◌∷◌, take, arith}
use pg_jitter.Prelude.Int.{ℤ, pos, negsuc}
use pg_jitter.Machine.{done}
use pg_jitter.InList.SortedArray.{
  IsSorted, Within, probe-build, sorted_array_build_int4, sorted_array_probe_int4, narrow,
}
use pg_jitter.InList.HashTable.{
  Crc32HashTable, crc32_hash_int4, crc32_hash_build_int4, crc32_hash_probe_int4,
  pg_jitter_crc32c_sw_raw,
}
use pg_jitter.Examples.Ordered.{all, in_order, ascending}
use pg_jitter.OpenTable.Defs.{built}
use pg_jitter.OpenTable.Filled.{In}
use pg_jitter.OpenTable.Membership.{Answers}
use pg_jitter.InList.Membership.{probe-build_int4}

abbrev few : List ℤ
few = negsuc 4 ∷ pos 3 ∷ pos 9 ∷ []

-- CRC32C of the bytes of "123456789", before the final complement that this hash leaves out.
checksum_run :
    pg_jitter_crc32c_sw_raw 0xFFFF_FFFF (49 ∷ 50 ∷ 51 ∷ 52 ∷ 53 ∷ 54 ∷ 55 ∷ 56 ∷ 57 ∷ [])
    ≡ 0x1CF9_6D7C
unfolding pg_jitter_crc32c_sw_raw
checksum_run = refl

probe_run : sorted_array_probe_int4 (pos 9) (sorted_array_build_int4 few 3 false) ≡ done true
unfolding sorted_array_probe_int4 sorted_array_build_int4 narrow
probe_run = refl

few-IsSorted : IsSorted (take 3 few)
unfolding in_order all
few-IsSorted = ascending (λ t. t) few refl

probe-build_example :
    (b : Bool) × (sorted_array_probe_int4 (pos 9) (sorted_array_build_int4 few 3 false) ≡ done b)
    × ((b ≡ true) ↔ Within (pos 9) (take 3 few) 0 3)
probe-build_example = probe-build (pos 9) few 3 false (omega arith) few-IsSorted

probe-build_int4_example :
    (ht : Crc32HashTable) × (crc32_hash_build_int4 crc32_hash_int4 1073741823 few 3 false
      ≡ built ht)
    × Answers (crc32_hash_probe_int4 crc32_hash_int4 (pos 9) ht) (In (pos 9) (take 3 few))
probe-build_int4_example =
    probe-build_int4 crc32_hash_int4 1073741823 few 3 false (pos 9) (omega arith) (omega arith)
      (omega arith) (omega arith)
