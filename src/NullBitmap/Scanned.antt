-- ===== src/NullBitmap/Scanned.antt =====
-- The loops over the bitmap, with the vector instructions and without.
use Prim.Native.Nat.{bit_and, min}
use mathlib.Core.Option
use pg_jitter.Prelude.{
  ℕ, zero, suc, ◌+◌, ◌-◌, ◌*◌, ◌/◌, ◌%◌, ◌^◌, ◌≤◌, ◌≡◌, ◌∙◌, sym, ap, refl, Bool, true, false, ◌&&◌,
  some, List, length, get_elem?, ◌==◌, if◌then◌else◌, arith, Bool-cases, inl, inr,
}
use native.Mathlib.Decide.{ℕ_discrete}
use pg_jitter.ScalarArray.Stored.{att_isnull}
use pg_jitter.NullBitmap.Defs.{
  full_loop, least, vector_loop, simd_nullbitmap_all_notnull, is_present, none_null,
}
use pg_jitter.NullBitmap.Columns.{AreBytes, low_bits, mask_low, full_low, one_more, within_byte}
use pg_jitter.CaseSearch.Halving.{get_elem?-of_lt}

falls : (bits : List ℕ) (a b : ℕ) → none_null bits a ≡ false → a ≤ b → none_null bits b ≡ false
falls bits a zero h le = ap (none_null bits) (omega arith) ∙ h
falls bits a (suc b) h le = elim (ℕ_discrete a (suc b)) [
  | yes here ↦ ap (none_null bits) (sym here) ∙ h
  | no less ↦
      let below = falls bits a b h (ground arith) in
      one_more bits b ∙ ap (λ c. c && is_present (att_isnull bits b)) below
]

nothing_yet : (bits : List ℕ) → none_null bits (8 * 0) ≡ true
unfolding none_null
nothing_yet bits = refl

module _ (bits : List ℕ) (bytes : AreBytes bits) where
  byte_step :
      (q byte : ℕ)
      → get_elem? bits q ≡ some byte
      → none_null bits (8 * (q + 1)) ≡ (none_null bits (8 * q) && (byte == 0xFF))
  byte_step q byte at =
      ap (none_null bits) (omega arith)
      ∙ within_byte bits q byte 8 at (omega arith)
      ∙ ap (λ b. none_null bits (8 * q) && b) (sym (full_low byte (bytes q byte at)))

  full_lem :
      (left i : ℕ)
      → i + left ≤ length bits
      → none_null bits (8 * i) ≡ true
      → full_loop bits left i ≡ some (none_null bits (8 * (i + left)))
  unfolding full_loop
  full_lem zero i inside so_far =
      ap some (sym so_far) ∙ ap (λ n. some (none_null bits n)) (omega arith)
  full_lem (suc left) i inside so_far =
      let (byte, at) = get_elem?-of_lt bits i (omega arith) in
      let step = byte_step i byte at in
      elim (Bool-cases (byte == 0xFF)) [
        | inl full ↦
            rw (at, full, full_loop)
              (full_lem left (i + 1) (omega arith)
                  (step ∙ ap (λ b. b && (byte == 0xFF)) so_far ∙ full)
                ∙ ap (λ n. some (none_null bits n)) (omega arith))
        | inr hole ↦
            let ends : none_null bits (8 * (i + 1)) ≡ false =
              step ∙ ap (λ b. b && (byte == 0xFF)) so_far ∙ hole in
            rw (at, hole, full_loop)
              (ap some (sym (falls bits (8 * (i + 1)) (8 * (i + suc left)) ends (omega arith))))
      ]

  least_lem :
      (n i : ℕ)
      → i + n ≤ length bits
      → (m : ℕ) × (least bits n i ≡ some m) × (m ≤ 0xFF) × (full_loop bits n i ≡ some (m == 0xFF))
  unfolding full_loop least
  least_lem zero i inside = (0xFF, refl, omega arith, refl)
  least_lem (suc n) i inside =
      let (byte, at) = get_elem?-of_lt bits i (omega arith) in
      let (m, run, le, rest) = least_lem n (i + 1) (omega arith) in
      elim (Bool-cases (byte == 0xFF)) [
        | inl full ↦
            let same_least : min byte m ≡ m = ground arith in
            (m, rw (at, run, least) (ap some same_least), le, rw (at, full, full_loop) rest)
        | inr hole ↦
            let small : (min byte m == 0xFF) ≡ false = let b = bytes i byte at in ground arith in
            (
              min byte m,
              rw (at, run, least) refl,
              omega arith,
              rw (at, hole, full_loop) (ap some (sym small)),
            )
      ]

  vector_lem :
      (rounds left i : ℕ)
      → i + 16 * rounds + left ≤ length bits
      → none_null bits (8 * i) ≡ true
      → vector_loop bits rounds left i ≡ some (none_null bits (8 * (i + 16 * rounds + left)))
  unfolding vector_loop
  vector_lem zero left i inside so_far =
      full_lem left i (omega arith) so_far ∙ ap (λ n. some (none_null bits n)) (omega arith)
  vector_lem (suc rounds) left i inside so_far =
      let (m, run, le, test) = least_lem 16 i (omega arith) in
      let whole = full_lem 16 i (omega arith) so_far in
      let step : (m == 0xFF) ≡ none_null bits (8 * (i + 16)) = cc in
      elim (Bool-cases (m == 0xFF)) [
        | inl full ↦
            rw (run, full, vector_loop)
              (vector_lem rounds left (i + 16) (omega arith) (sym step ∙ full)
                ∙ ap (λ n. some (none_null bits n)) (omega arith))
        | inr hole ↦
            rw (run, hole, vector_loop)
              (ap some (
                sym (
                  falls bits (8 * (i + 16)) (8 * (i + 16 * suc rounds + left)) (sym step ∙ hole)
                    (omega arith))))
      ]

  whole_bytes :
      (neon : Bool) (full_bytes : ℕ)
      → full_bytes ≤ length bits
      → (if neon
          then vector_loop bits (full_bytes / 16) (full_bytes % 16) 0
          else full_loop bits full_bytes 0)
        ≡ some (none_null bits (8 * full_bytes))
  whole_bytes true full_bytes inside =
      vector_lem (full_bytes / 16) (full_bytes % 16) 0 (omega arith) (nothing_yet bits)
      ∙ ap (λ n. some (none_null bits n)) (omega arith)
  whole_bytes false full_bytes inside =
      full_lem full_bytes 0 (omega arith) (nothing_yet bits)
      ∙ ap (λ n. some (none_null bits n)) (omega arith)

  trailing_bits :
      (ncols : ℕ)
      → ncols ≤ 8 * length bits
      → none_null bits (8 * (ncols / 8)) ≡ true
      → (ncols % 8 == 0) ≡ false
      → Option.map
          (λ byte. bit_and byte (2 ^ (ncols % 8) - 1) == 2 ^ (ncols % 8) - 1)
          (get_elem? bits (ncols / 8))
        ≡ some (none_null bits ncols)
  trailing_bits ncols inside so_far some_bits =
      let (byte, at) = get_elem?-of_lt bits (ncols / 8) (ground arith) in
      let whole : ncols ≡ 8 * (ncols / 8) + ncols % 8 = omega arith in
      let columns : none_null bits ncols ≡ low_bits byte (ncols % 8) =
        ap (none_null bits) whole
        ∙ within_byte bits (ncols / 8) byte (ncols % 8) at (omega arith)
        ∙ ap (λ b. b && low_bits byte (ncols % 8)) so_far in
      rw at (
        ap some (mask_low byte (ncols % 8) (bytes (ncols / 8) byte at) (omega arith) ∙ sym columns))

-- The check answers whether no column is null. For a bitmap of bytes that is long enough for the columns
-- both bodies, with the vector instructions and without, read nothing behind it and answer whether
-- PostgreSQL's test of a single column finds each of the first `ncols` columns not null.
pub all_notnull_agrees :
    (neon : Bool) (bits : List ℕ) (ncols : ℕ)
    → AreBytes bits
    → ncols ≤ 8 * length bits
    → simd_nullbitmap_all_notnull neon bits ncols ≡ some (none_null bits ncols)
unfolding simd_nullbitmap_all_notnull
all_notnull_agrees neon bits ncols bytes inside =
    let whole = whole_bytes bits bytes neon (ncols / 8) (omega arith) in
    elim (Bool-cases (none_null bits (8 * (ncols / 8)))) [
      | inr hole ↦
          rw (whole, hole, simd_nullbitmap_all_notnull)
            (ap some (sym (falls bits (8 * (ncols / 8)) ncols hole (omega arith))))
      | inl full ↦ elim (Bool-cases (ncols % 8 == 0)) [
        | inl even ↦
            rw (whole, full, even, simd_nullbitmap_all_notnull)
              (ap some (sym full) ∙ ap (λ n. some (none_null bits n)) (ground arith))
        | inr more ↦
            rw (whole, full, more, simd_nullbitmap_all_notnull)
              (trailing_bits bits bytes ncols inside full more)
      ]
    ]
