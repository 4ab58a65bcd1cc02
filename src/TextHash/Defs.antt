-- ===== src/TextHash/Defs.antt =====
-- `text_hash_build` and `text_hash_probe`. The checksum of the short texts and StringZilla's hash of the
-- long ones are parameters; a text is its bytes, and its length is the length of the list.
use pg_jitter.Prelude.{
  ℕ, ◌+◌, ◌-◌, ◌*◌, ◌/◌, ◌%◌, ◌^◌, Bool, true, false, not, ◌&&◌, ◌||◌, List, [], length, replicate,
  take, suc, leb, ltb, ◌==◌, if◌then◌else◌,
}
use Prim.Native.Nat.{bit_and}
use pg_jitter.Machine.{Run, done, out_of_bounds, out_of_rounds}
use pg_jitter.Like.Pattern.{Bytes}
use pg_jitter.Like.Fast.{StringZilla}
use pg_jitter.OpenTable.Defs.{
  Build, built, error, fault, invalid_size, too_large, half_int_max, grow, insert_values,
  probe_loop,
}

-- The entry's copy of the text has the entry's length.
pub record TextHashEntry : Type 0 where
  pub hash : ℕ
  pub text_data : Bytes

pub record TextHashTable : Type 0 where
  pub mask : ℕ
  pub nitems : ℕ
  pub has_nulls : Bool
  pub entries : List TextHashEntry

-- The two hash functions that the code calls.
pub record Hashes : Type 0 where
  pub crc32c_raw : ℕ → Bytes → ℕ
  pub sz_hash : Bytes → ℕ → ℕ

-- return h | 1;
abbrev pub not_zero : ℕ → ℕ
not_zero h = h / 2 * 2 + 1

unfoldable pub text_hybrid_hash : Hashes → Bytes → ℕ
text_hybrid_hash hashes text = not_zero (
    if leb (length text) 16
    then hashes.crc32c_raw 0xFFFF_FFFF text
    else hashes.sz_hash text 0 % 2 ^ 32)

abbrev pub is_used : TextHashEntry → Bool
is_used e = not (e.hash == 0)

module _ (sz : StringZilla) (hashes : Hashes) where
  abbrev pub entry_for : Bytes → TextHashEntry
  entry_for text = record { hash = text_hybrid_hash hashes text; text_data = text }

  abbrev pub is_hit : Bytes → TextHashEntry → Bool
  is_hit text e =
      e.hash == text_hybrid_hash hashes text
      && length e.text_data == length text
      && sz.sz_equal text e.text_data

  -- `max_alloc` is PostgreSQL's `MaxAllocSize`. The entries stand 16 bytes into the struct and one takes 16,
  -- where a pointer has 8 bytes; the allocation leaves all of them empty. The copies of the texts succeed.
  unfoldable pub text_hash_build : ℕ → List Bytes → ℕ → Bool → Build TextHashTable
  text_hash_build max_alloc texts nvals has_nulls = elim (nvals == 0 || ltb half_int_max nvals) [
    | true ↦ error invalid_size
    | false ↦ elim (grow 32 (nvals * 2) 16) [
      | error e ↦ error e
      | fault ↦ fault
      | built table_size ↦ elim (ltb max_alloc 16 || ltb ((max_alloc - 16) / 16) table_size) [
        | true ↦ error too_large
        | false ↦
            elim (insert_values is_used entry_for (text_hybrid_hash hashes) (table_size - 1)
              (take nvals texts) (replicate table_size (record { hash = 0; text_data = [] }))) [
                | out_of_bounds ↦ fault
                | out_of_rounds ↦ fault
                | done entries ↦ built (record {
                  mask = table_size - 1;
                  nitems = nvals;
                  has_nulls = has_nulls;
                  entries = entries;
                })
              ]
      ]
    ]
  ]

  unfoldable pub text_hash_probe : Bytes → TextHashTable → Run Bool
  text_hash_probe text ht =
      probe_loop is_used (is_hit text) (suc ht.mask) ht.mask ht.entries
        (bit_and (text_hybrid_hash hashes text) ht.mask)
