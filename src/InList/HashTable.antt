-- ===== src/InList/HashTable.antt =====
-- `crc32_hash_build_int4` and `crc32_hash_probe_int4`: an open-addressing table with linear probing.
-- The hash function is a parameter of the table: the repository has a software CRC32C, given here,
-- and processor instructions for the same checksum.
use Prim.Native.Nat.{bit_and, bit_xor}
use pg_jitter.Prelude.{
  ℕ, zero, suc, ◌-◌, ◌*◌, ◌/◌, ◌%◌, Bool, true, false, List, [], ◌∷◌, replicate, take, ltb,
  if◌then◌else◌, ◌==◌, ◌||◌,
}
use pg_jitter.Prelude.Int.{ℤ}
use pg_jitter.Machine.{half32, to_uint, eqb_ℤ, Run, done, out_of_bounds, out_of_rounds}
use pg_jitter.OpenTable.Defs.{
  Build, built, error, fault, invalid_size, too_large, half_int_max, grow, insert_values,
  probe_loop,
}

pub record Crc32HashSlot : Type 0 where
  pub value : ℤ
  pub occupied : Bool

pub record Crc32HashTable : Type 0 where
  pub mask : ℕ
  pub nitems : ℕ
  pub has_nulls : Bool
  pub table : List Crc32HashSlot

-- One bit of the checksum: crc = (crc >> 1) ^ (0x82F63B78U & (0U - (crc & 1U))).
crc_bit : ℕ → ℕ
crc_bit crc = bit_xor (crc / 2) (if crc % 2 == 1 then 0x82F6_3B78 else 0)

crc_bits : ℕ → ℕ → ℕ
crc_bits zero crc = crc
crc_bits (suc n) crc = crc_bits n (crc_bit crc)

unfoldable pub pg_jitter_crc32c_sw_raw : ℕ → List ℕ → ℕ
unfolding crc_bit crc_bits
pg_jitter_crc32c_sw_raw crc [] = crc
pg_jitter_crc32c_sw_raw crc (p ∷ bytes) = pg_jitter_crc32c_sw_raw (crc_bits 8 (bit_xor crc p)) bytes

-- The four bytes of the value, the least significant first.
unfoldable pub crc32_hash_int4 : ℤ → ℕ
unfolding pg_jitter_crc32c_sw_raw
crc32_hash_int4 val =
    let word = to_uint half32 val in
    pg_jitter_crc32c_sw_raw 0xFFFF_FFFF
      ((word % 256) ∷ (word / 256 % 256) ∷ (word / 65536 % 256) ∷ (word / 16777216) ∷ [])

-- What the loops of the table ask of a slot, store in it and compare.
abbrev pub is_taken : Crc32HashSlot → Bool
is_taken s = s.occupied

abbrev pub slot_of : ℤ → Crc32HashSlot
slot_of v = record { value = v; occupied = true }

abbrev pub holds_value : ℤ → Crc32HashSlot → Bool
holds_value val s = eqb_ℤ s.value val

module _ (hash : ℤ → ℕ) where
  -- `max_alloc` is PostgreSQL's `MaxAllocSize`. The table stands 12 bytes into the struct and a slot
  -- takes 8, as the static assertion says. `pg_jitter_context_alloc_zero` leaves all slots empty.
  unfoldable pub crc32_hash_build_int4 : ℕ → List ℤ → ℕ → Bool → Build Crc32HashTable
  crc32_hash_build_int4 max_alloc vals nvals has_nulls =
      elim (nvals == 0 || ltb half_int_max nvals) [
        | true ↦ error invalid_size
        | false ↦ elim (grow 32 (nvals * 2) 16) [
          | error e ↦ error e
          | fault ↦ fault
          | built table_size ↦ elim (ltb max_alloc 12 || ltb ((max_alloc - 12) / 8) table_size) [
            | true ↦ error too_large
            | false ↦
                elim (insert_values is_taken slot_of hash (table_size - 1) (take nvals vals)
                  (replicate table_size (record { value = ℤ.pos 0; occupied = false }))) [
                    | out_of_bounds ↦ fault
                    | out_of_rounds ↦ fault
                    | done table ↦ built (record {
                      mask = table_size - 1;
                      nitems = nvals;
                      has_nulls = has_nulls;
                      table = table;
                    })
                  ]
          ]
        ]
      ]

  unfoldable pub crc32_hash_probe_int4 : ℤ → Crc32HashTable → Run Bool
  crc32_hash_probe_int4 val ht =
      probe_loop is_taken (holds_value val) (suc ht.mask) ht.mask ht.table
        (bit_and (hash val) ht.mask)
