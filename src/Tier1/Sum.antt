-- ===== src/Tier1/Sum.antt =====
-- The transition functions of COUNT, SUM and AVG over int2 and int4 in src/pg_jit_funcs.c.
use pg_jitter.Prelude.{
  ℕ, suc, ◌+◌, ◌*◌, ◌<◌, ◌≤◌, ◌≡◌, refl, ◌⊎◌, inl, inr, ap, ◌∙◌, List, [], ◌∷◌, length, arith,
}
use pg_jitter.Prelude.Int.{
  ℤ, pos, negsuc, pos_part, neg_part, ◌+ℤ◌, +ℤ_parts, +ℤ_assoc, eq_of_parts,
}
use pg_jitter.Machine.{half16, half32, half64, IsInt, wrap, wrap32-IsInt}
use pg_jitter.Tier1.Checked.{
  int8_overflow, Result, ok, err, Overflow, returned, returned-exactly, exactly_ok,
}
use pg_jitter.Tier1.Arith.Defs.{jit_int8inc, jit_int8dec}

module _ (c : Overflow half64) where
  unfoldable pub jit_int8inc_any : ℤ → ℤ → Result ℤ
  jit_int8inc_any a dummy = jit_int8inc c a

  unfoldable pub jit_int8dec_any : ℤ → ℤ → Result ℤ
  jit_int8dec_any a dummy = jit_int8dec c a

  unfoldable pub jit_int2_sum : ℤ → ℤ → Result ℤ
  jit_int2_sum oldsum newval = returned int8_overflow (c.add_overflow oldsum (wrap half16 newval))

  unfoldable pub jit_int4_sum : ℤ → ℤ → Result ℤ
  jit_int4_sum oldsum newval = returned int8_overflow (c.add_overflow oldsum (wrap half32 newval))

-- The aggregate: the transition function over the rows, each a Datum, up to the first error.
pub aggregate : (ℤ → ℤ → Result ℤ) → ℤ → List ℤ → Result ℤ
aggregate trans sum [] = ok sum
aggregate trans sum (v ∷ rows) = elim (trans sum v) [
  | ok r ↦ aggregate trans r rows
  | err e ↦ err e
]

-- The exact sum of the rows.
pub exact_sum : (ℤ → ℤ) → List ℤ → ℤ
exact_sum cast [] = pos 0
exact_sum cast (v ∷ rows) = cast v +ℤ exact_sum cast rows

reduced : (a : ℤ) → (pos_part a ≡ 0) ⊎ (neg_part a ≡ 0)
reduced (pos n) = inr refl
reduced (negsuc n) = inl refl

-- One of the two parts of a sum is 0.
+ℤ_reduced : (a b : ℤ) → (pos_part (a +ℤ b) ≡ 0) ⊎ (neg_part (a +ℤ b) ≡ 0)
unfolding ◌+ℤ◌
+ℤ_reduced a b = reduced (a +ℤ b)

-- A running sum that `k` more rows of size at most 2 ^ 31 cannot take out of range.
abbrev Room : ℕ → ℤ → Type 0
Room k sum = (pos_part sum + half32 * k < half64) × (neg_part sum + half32 * k ≤ half64)

Room→IsInt : (k : ℕ) (sum : ℤ) → Room k sum → IsInt half64 sum
Room→IsInt k sum room = omega arith

wrap32→IsInt64 : (v : ℤ) → IsInt half64 (wrap half32 v)
wrap32→IsInt64 v = let cast = wrap32-IsInt v in omega arith

module _ (c : Overflow half64) where
  int4_sum_step :
      (k : ℕ) (sum v : ℤ)
      → Room (suc k) sum
      → (jit_int4_sum c sum v ≡ ok (sum +ℤ wrap half32 v)) × Room k (sum +ℤ wrap half32 v)
  unfolding jit_int4_sum
  int4_sum_step k sum v room =
      let cast = wrap32-IsInt v in
      let room' : Room k (sum +ℤ wrap half32 v) = (
        grind (arith, +ℤ_parts sum (wrap half32 v), +ℤ_reduced sum (wrap half32 v)),
        grind (arith, +ℤ_parts sum (wrap half32 v), +ℤ_reduced sum (wrap half32 v)),
      ) in
      let addend = wrap32→IsInt64 v in
      (
        returned-exactly half64 int8_overflow (sum +ℤ wrap half32 v) _
              (c.add_exact sum (wrap half32 v) (Room→IsInt (suc k) sum room) addend)
              (c.add_reports sum (wrap half32 v) (Room→IsInt (suc k) sum room) addend)
            ∙ exactly_ok half64 int8_overflow (sum +ℤ wrap half32 v)
                (Room→IsInt k (sum +ℤ wrap half32 v) room'),
        room',
      )

  int4_sum_rows :
      (rows : List ℤ) (sum : ℤ)
      → Room (length rows) sum
      → aggregate (jit_int4_sum c) sum rows ≡ ok (sum +ℤ exact_sum (wrap half32) rows)
  unfolding aggregate exact_sum
  int4_sum_rows [] sum room = ap ok (eq_of_parts _ _ (omega (arith, +ℤ_parts)))
  int4_sum_rows (v ∷ rows) sum room =
      let (step, room') = int4_sum_step (length rows) sum v room in
      rw (step, aggregate)
        (int4_sum_rows rows (sum +ℤ wrap half32 v) room'
          ∙ ap ok (+ℤ_assoc sum (wrap half32 v) (exact_sum (wrap half32) rows)))

-- SUM over int4 rows, started at 0, returns the exact sum of the rows and never overflows, as long as
-- there are fewer than 2 ^ 32 rows.
pub int4_sum_total :
    (c : Overflow half64) (rows : List ℤ)
    → length rows < 2 * half32
    → aggregate (jit_int4_sum c) (pos 0) rows ≡ ok (exact_sum (wrap half32) rows)
int4_sum_total c rows h =
    int4_sum_rows c rows (pos 0) (omega arith) ∙ ap ok (eq_of_parts _ _ (omega (arith, +ℤ_parts)))
