-- ===== src/Bits.antt =====
-- `a & mask` for a mask of low bits is the remainder by a power of two.
use Prim.Native.Nat.{bit_and, bit_and-bitwise, digits, min}
use native.Mathlib.Nat.{
  pow-suc, one-le-pow, div-add-mod, mul-add-mod_self_left, mod-eq_of_lt, mod-lt,
}
use pg_jitter.Prelude.{
  ℕ, zero, suc, ◌+◌, ◌-◌, ◌*◌, ◌/◌, ◌%◌, ◌^◌, ◌≤◌, ◌<◌, ◌≡◌, ◌∙◌, refl, sym, ap, arith,
}

-- The digits of the conjunction, computed with `fuel` halvings of the first number.
abbrev conj : ℕ → ℕ → ℕ → ℕ
conj fuel a b = digits (λ b. zero) min fuel a b

conj_enough : (f g a b : ℕ) → a ≤ f → a ≤ g → conj f a b ≡ conj g a b
conj_enough zero zero a b h k = refl
conj_enough zero (suc g) zero b h k = refl
conj_enough zero (suc g) (suc a) b h k = absurd (omega arith)
conj_enough (suc f) zero zero b h k = refl
conj_enough (suc f) zero (suc a) b h k = absurd (omega arith)
conj_enough (suc f) (suc g) zero b h k = refl
conj_enough (suc f) (suc g) (suc a) b h k =
    omega (arith, conj_enough f g (suc a / 2) (b / 2) (omega arith) (omega arith))

bit_and_zero : (b : ℕ) → bit_and 0 b ≡ 0
bit_and_zero b = bit_and-bitwise 0 b

-- The lowest digit apart from the others.
bit_and_halve : (a b : ℕ) → bit_and a b ≡ bit_and (a / 2) (b / 2) * 2 + min (a % 2) (b % 2)
bit_and_halve zero b = omega (arith, bit_and_zero b, bit_and_zero (b / 2))
bit_and_halve (suc a) b =
    let shorter = conj_enough a (suc a / 2) (suc a / 2) (b / 2) (omega arith) (omega arith) in
    omega (arith, bit_and-bitwise (suc a) b, bit_and-bitwise (suc a / 2) (b / 2), shorter)

bit_and-nothing : (fuel a : ℕ) → a ≤ fuel → bit_and a 0 ≡ 0
bit_and-nothing fuel zero h = bit_and_zero 0
bit_and-nothing zero (suc a) h = absurd (omega arith)
bit_and-nothing (suc fuel) (suc a) h =
    omega (arith, bit_and_halve (suc a) 0, bit_and-nothing fuel (suc a / 2) (omega arith))

double_mod : (p a : ℕ) → 0 < p → a / 2 % p * 2 + a % 2 ≡ a % (2 * p)
double_mod p a h =
    let low = a / 2 % p * 2 + a % 2 in
    let split : a ≡ 2 * p * (a / 2 / p) + low = omega (arith, div-add-mod (a / 2) p) in
    sym (
      ap (λ t. t % (2 * p)) split
      ∙ mul-add-mod_self_left (2 * p) (a / 2 / p) low
      ∙ mod-eq_of_lt (omega (arith, mod-lt (a / 2) h)))

pub bit_and-mod : (k a : ℕ) → bit_and a (2 ^ k - 1) ≡ a % 2 ^ k
bit_and-mod zero a = omega (arith, bit_and-nothing a a (omega arith))
bit_and-mod (suc k) a =
    let some_bit = one-le-pow k 2 in
    let doubled : 2 ^ suc k ≡ 2 * 2 ^ k = omega (arith, pow-suc 2 k) in
    let high : (2 * 2 ^ k - 1) / 2 ≡ 2 ^ k - 1 = omega arith in
    let rest = rw high at (bit_and_halve a (2 * 2 ^ k - 1)) in
    rw doubled (omega (arith, rest, bit_and-mod k (a / 2), double_mod (2 ^ k) a (omega arith)))
