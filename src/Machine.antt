-- ===== src/Machine.antt =====
-- The C integers of the repository: a value of a signed type is the integer that it stands for,
-- and a cast wraps around as two's complement does. `half` is 2 ^ (w - 1) for a type of w bits.
use pg_jitter.Prelude.{
  ℕ, suc, ◌+◌, ◌-◌, ◌*◌, ◌/◌, ◌%◌, ◌≤◌, ◌<◌, ◌≡◌, Bool, true, false, ◌&&◌, arith, ltb, leb,
  if◌then◌else◌, ◌==◌,
}
use pg_jitter.Prelude.Int.{ℤ, pos, negsuc, pos_part, neg_part, ◌-ℤ◌}

abbrev pub half8 : ℕ
half8 = 0x80

abbrev pub half16 : ℕ
half16 = 0x8000

abbrev pub half32 : ℕ
half32 = 0x8000_0000

abbrev pub half64 : ℕ
half64 = 0x8000_0000_0000_0000

-- The values of a signed type.
abbrev pub IsInt : ℕ → ℤ → Type 0
IsInt half z = (pos_part z < half) × (neg_part z ≤ half)

abbrev pub fits : ℕ → ℤ → Bool
fits half z = ltb (pos_part z) half && leb (neg_part z) half

pub fits→IsInt : {half : ℕ} (z : ℤ) → fits half z ≡ true → IsInt half z
fits→IsInt z h = ground arith

-- The cast to the unsigned type, and from it back.
abbrev pub to_uint : ℕ → ℤ → ℕ
to_uint half (pos n) = n % (2 * half)
to_uint half (negsuc n) = 2 * half - 1 - n % (2 * half)

abbrev pub to_int : ℕ → ℕ → ℤ
to_int half u = if ltb u half then pos u else negsuc (2 * half - 1 - u)

-- The cast to the signed type.
abbrev pub wrap : ℕ → ℤ → ℤ
wrap half z = to_int half (to_uint half z)

pub wrap16_id : (z : ℤ) → IsInt half16 z → wrap half16 z ≡ z
wrap16_id (pos n) h = ground arith
wrap16_id (negsuc n) h = ground arith

pub wrap16-IsInt : (z : ℤ) → IsInt half16 (wrap half16 z)
wrap16-IsInt (pos n) = ground arith
wrap16-IsInt (negsuc n) = ground arith

pub wrap32_id : (z : ℤ) → IsInt half32 z → wrap half32 z ≡ z
wrap32_id (pos n) h = ground arith
wrap32_id (negsuc n) h = ground arith

pub wrap32-IsInt : (z : ℤ) → IsInt half32 (wrap half32 z)
wrap32-IsInt (pos n) = ground arith
wrap32-IsInt (negsuc n) = ground arith

pub wrap64_id : (z : ℤ) → IsInt half64 z → wrap half64 z ≡ z
wrap64_id (pos n) h = ground arith
wrap64_id (negsuc n) h = ground arith

-- Comparisons of integers, and the int32 that a C comparison returns.
abbrev pub eqb_ℤ : ℤ → ℤ → Bool
eqb_ℤ a b = pos_part a + neg_part b == pos_part b + neg_part a

abbrev pub flag : Bool → ℤ
flag b = if b then pos 1 else pos 0

abbrev pub int_min : ℕ → ℤ
int_min half = negsuc (half - 1)

-- C's `-a`, `a / b` and `a % b`: division truncates toward zero.
abbrev pub neg_ℤ : ℤ → ℤ
neg_ℤ a = pos 0 -ℤ a

abbrev pub magnitude : ℤ → ℕ
magnitude (pos n) = n
magnitude (negsuc n) = suc n

abbrev pub is_neg : ℤ → Bool
is_neg (pos n) = false
is_neg (negsuc n) = true

abbrev pub with_sign : Bool → ℕ → ℤ
with_sign true (ℕ.suc n) = negsuc n
with_sign _ n = pos n

abbrev pub quot_ℤ : ℤ → ℤ → ℤ
quot_ℤ (pos a) (pos b) = pos (a / b)
quot_ℤ (pos a) (negsuc b) = with_sign true (a / suc b)
quot_ℤ (negsuc a) (pos b) = with_sign true (suc a / b)
quot_ℤ (negsuc a) (negsuc b) = pos (suc a / suc b)

abbrev pub rem_ℤ : ℤ → ℤ → ℤ
rem_ℤ a b = with_sign (is_neg a) (magnitude a % magnitude b)

-- A run of a loop that reads an array: a read outside the array and the end of the count of rounds
-- are faults of the model.
pub data Run {ℓ} (A : Type ℓ) : Type ℓ where
  done : A → Run A
  out_of_bounds : Run A
  out_of_rounds : Run A
