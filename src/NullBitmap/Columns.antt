-- ===== src/NullBitmap/Columns.antt =====
-- The columns of a byte, by its bits.
use Prim.Native.Nat.{bit_and}
use pg_jitter.Prelude.{
  ℕ, zero, suc, ◌+◌, ◌-◌, ◌*◌, ◌/◌, ◌%◌, ◌^◌, ◌≤◌, ◌<◌, ◌≡◌, ◌∙◌, sym, ap, refl, Bool, true, false,
  not, ◌&&◌, some, List, get_elem?, ◌==◌, arith,
}
use native.Mathlib.Decide.{ℕ_discrete}
use pg_jitter.ScalarArray.Stored.{att_isnull}
use pg_jitter.NullBitmap.Defs.{is_present, none_null}

abbrev pub AreBytes : List ℕ → Type 0
AreBytes bits = (i byte : ℕ) → get_elem? bits i ≡ some byte → byte < 256

-- The low bits of a byte, one by one.
pub low_bits : ℕ → ℕ → Bool
low_bits byte zero = true
low_bits byte (suc t) = low_bits byte t && not (bit_and byte (2 ^ t) == 0)

same : Bool → Bool → Bool
same true b = b
same false b = not b

same-eq : (a b : Bool) → same a b ≡ true → a ≡ b
unfolding same
same-eq true b h = sym h
same-eq false true h = cc
same-eq false false h = refl

every : ℕ → (ℕ → Bool) → Bool
every zero p = true
every (suc n) p = every n p && p n

mask_test : ℕ → ℕ → Bool
unfolding same low_bits
mask_test byte t = same (bit_and byte (2 ^ t - 1) == 2 ^ t - 1) (low_bits byte t)

checked : every 256 (λ byte. every 9 (mask_test byte)) ≡ true
unfolding every mask_test same low_bits
checked = refl

full_checked : every 256 (λ byte. same (byte == 0xFF) (low_bits byte 8)) ≡ true
unfolding every same low_bits
full_checked = refl

left_part : (a b : Bool) → (a && b) ≡ true → a ≡ true
left_part true b h = refl
left_part false b h = h

right_part : (a b : Bool) → (a && b) ≡ true → b ≡ true
right_part true b h = h
right_part false b h = cc

every-at : (n i : ℕ) (p : ℕ → Bool) → every n p ≡ true → i < n → p i ≡ true
unfolding every
every-at zero i p h lt = absurd (omega arith)
every-at (suc n) i p h lt = elim (ℕ_discrete i n) [
  | yes here ↦ ap p here ∙ right_part (every n p) (p n) h
  | no there ↦ every-at n i p (left_part (every n p) (p n) h) (ground arith)
]

pub mask_low :
    (byte t : ℕ) → byte < 256 → t < 9 → (bit_and byte (2 ^ t - 1) == 2 ^ t - 1) ≡ low_bits byte t
unfolding mask_test
mask_low byte t b lt = same-eq _ _ (
    every-at 9 t (mask_test byte) (every-at 256 byte (λ byte. every 9 (mask_test byte)) checked b)
      lt)

pub full_low : (byte : ℕ) → byte < 256 → (byte == 0xFF) ≡ low_bits byte 8
full_low byte b =
    same-eq _ _ (every-at 256 byte (λ byte. same (byte == 0xFF) (low_bits byte 8)) full_checked b)

and_true : (b : Bool) → b ≡ (b && true)
and_true true = refl
and_true false = refl

and_assoc : (a b c : Bool) → ((a && b) && c) ≡ (a && (b && c))
and_assoc true b c = refl
and_assoc false b c = refl

column :
    (bits : List ℕ) (q byte t : ℕ)
    → get_elem? bits q ≡ some byte
    → t < 8
    → is_present (att_isnull bits (8 * q + t)) ≡ not (bit_and byte (2 ^ t) == 0)
unfolding att_isnull
column bits q byte t at lt =
    let at_byte : (8 * q + t) / 8 ≡ q = omega arith in
    let at_bit : (8 * q + t) % 8 ≡ t = omega arith in rw (at_byte, at_bit, at) refl

pub one_more :
    (bits : List ℕ) (n : ℕ)
    → none_null bits (suc n) ≡ (none_null bits n && is_present (att_isnull bits n))
unfolding none_null
one_more bits n = refl

pub within_byte :
    (bits : List ℕ) (q byte t : ℕ)
    → get_elem? bits q ≡ some byte
    → t ≤ 8
    → none_null bits (8 * q + t) ≡ (none_null bits (8 * q) && low_bits byte t)
unfolding low_bits
within_byte bits q byte zero at le =
    ap (none_null bits) (omega arith) ∙ and_true (none_null bits (8 * q))
within_byte bits q byte (suc t) at le =
    let next : 8 * q + suc t ≡ suc (8 * q + t) = omega arith in
    ap (none_null bits) next
    ∙ one_more bits (8 * q + t)
    ∙ ap (λ b. b && is_present (att_isnull bits (8 * q + t)))
        (within_byte bits q byte t at (omega arith))
    ∙ ap (λ b. (none_null bits (8 * q) && low_bits byte t) && b)
        (column bits q byte t at (omega arith))
    ∙ and_assoc (none_null bits (8 * q)) (low_bits byte t) (not (bit_and byte (2 ^ t) == 0))
