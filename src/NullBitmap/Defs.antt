-- ===== src/NullBitmap/Defs.antt =====
-- `simd_nullbitmap_all_notnull` of src/pg_jitter_simd.c: whether a null bitmap marks no column as null.
-- A read behind the bitmap gives none.
use Prim.Native.Nat.{bit_and, min}
use mathlib.Core.Option
use pg_jitter.Prelude.{
  ℕ, zero, suc, ◌+◌, ◌-◌, ◌/◌, ◌%◌, ◌^◌, Bool, true, false, not, ◌&&◌, Option, none, some, List,
  get_elem?, ◌==◌, if◌then◌else◌,
}
use pg_jitter.ScalarArray.Stored.{att_isnull}

-- for (; i < full_bytes; i++) if (bits[i] != 0xFF) return false;
unfoldable pub full_loop : List ℕ → ℕ → ℕ → Option Bool
full_loop bits zero i = some true
full_loop bits (suc left) i = elim (get_elem? bits i) [
  | none ↦ none
  | some byte ↦ elim (byte == 0xFF) [ true ↦ full_loop bits left (i + 1) | false ↦ some false ]
]

-- The least of the bytes that a vector loads.
unfoldable pub least : List ℕ → ℕ → ℕ → Option ℕ
least bits zero i = some 0xFF
least bits (suc left) i = elim (get_elem? bits i) [
  | none ↦ none
  | some byte ↦ Option.map (λ m. min byte m) (least bits left (i + 1))
]

-- Sixteen bytes at a time, then the rest of them.
unfoldable pub vector_loop : List ℕ → ℕ → ℕ → ℕ → Option Bool
vector_loop bits zero left i = full_loop bits left i
vector_loop bits (suc rounds) left i = elim (least bits 16 i) [
  | none ↦ none
  | some m ↦ elim (m == 0xFF) [ true ↦ vector_loop bits rounds left (i + 16) | false ↦ some false ]
]

-- `neon` says which of the two bodies is compiled.
unfoldable pub simd_nullbitmap_all_notnull : Bool → List ℕ → ℕ → Option Bool
simd_nullbitmap_all_notnull neon bits ncols =
    let full_bytes = ncols / 8 in
    let trailing = ncols % 8 in
    elim (if neon
      then vector_loop bits (full_bytes / 16) (full_bytes % 16) 0
      else full_loop bits full_bytes 0) [
        | none ↦ none
        | some false ↦ some false
        | some true ↦ elim (trailing == 0) [
          | true ↦ some true
          | false ↦
              Option.map (λ byte. bit_and byte (2 ^ trailing - 1) == 2 ^ trailing - 1)
                (get_elem? bits full_bytes)
        ]
      ]

-- Whether PostgreSQL's macro finds none of the first columns null.
abbrev pub is_present : Option Bool → Bool
is_present none = false
is_present (some null) = not null

unfoldable pub none_null : List ℕ → ℕ → Bool
none_null bits zero = true
none_null bits (suc n) = none_null bits n && is_present (att_isnull bits n)
