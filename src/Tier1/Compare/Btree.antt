-- ===== src/Tier1/Compare/Btree.antt =====
-- The three-way comparisons of the btree operator classes, and those of intervals, of which
-- PostgreSQL's 128-bit arithmetic is exact.
use pg_jitter.Prelude.{not, if◌then◌else◌}
use pg_jitter.Prelude.Int.{ℤ, pos, ◌+ℤ◌, ◌-ℤ◌, ◌*ℤ◌, ltb_ℤ, leb_ℤ}
use pg_jitter.Machine.{half8, half16, half32, wrap, to_uint, flag, eqb_ℤ}

-- (a > b) - (a < b)
greater_minus_less : ℤ → ℤ → ℤ
greater_minus_less a b = flag (ltb_ℤ b a) -ℤ flag (ltb_ℤ a b)

unfoldable pub jit_btboolcmp : ℤ → ℤ → ℤ
jit_btboolcmp a b = flag (not (eqb_ℤ a (pos 0))) -ℤ flag (not (eqb_ℤ b (pos 0)))

unfoldable pub jit_btcharcmp : ℤ → ℤ → ℤ
jit_btcharcmp a b = pos (to_uint half8 a) -ℤ pos (to_uint half8 b)

unfoldable pub jit_btint2cmp : ℤ → ℤ → ℤ
jit_btint2cmp a b = wrap half16 a -ℤ wrap half16 b

unfoldable pub jit_btint4cmp : ℤ → ℤ → ℤ
unfolding greater_minus_less
jit_btint4cmp a b = greater_minus_less a b

unfoldable pub jit_btint8cmp : ℤ → ℤ → ℤ
unfolding greater_minus_less
jit_btint8cmp a b = greater_minus_less a b

unfoldable pub jit_btint24cmp : ℤ → ℤ → ℤ
unfolding greater_minus_less
jit_btint24cmp a b = let la = wrap half16 a in greater_minus_less la b

unfoldable pub jit_btint42cmp : ℤ → ℤ → ℤ
unfolding greater_minus_less
jit_btint42cmp a b = let lb = wrap half16 b in greater_minus_less a lb

unfoldable pub jit_btint28cmp : ℤ → ℤ → ℤ
unfolding greater_minus_less
jit_btint28cmp a b = let la = wrap half16 a in greater_minus_less la b

unfoldable pub jit_btint48cmp : ℤ → ℤ → ℤ
unfolding greater_minus_less
jit_btint48cmp a b = greater_minus_less a b

unfoldable pub jit_btint82cmp : ℤ → ℤ → ℤ
unfolding greater_minus_less
jit_btint82cmp a b = let lb = wrap half16 b in greater_minus_less a lb

unfoldable pub jit_btint84cmp : ℤ → ℤ → ℤ
unfolding greater_minus_less
jit_btint84cmp a b = greater_minus_less a b

unfoldable pub jit_btoidcmp : ℤ → ℤ → ℤ
unfolding greater_minus_less
jit_btoidcmp a b = greater_minus_less (pos (to_uint half32 a)) (pos (to_uint half32 b))

unfoldable pub jit_date_cmp : ℤ → ℤ → ℤ
unfolding greater_minus_less
jit_date_cmp a b = greater_minus_less a b

pub record Interval : Type 0 where
  pub time : ℤ
  pub day : ℤ
  pub month : ℤ

-- time + (month * 30 + day) * USECS_PER_DAY
abbrev pub span : Interval → ℤ
span i = i.time +ℤ (i.month *ℤ pos 30 +ℤ i.day) *ℤ pos 86400000000

unfoldable pub jit_interval_cmp_internal : Interval → Interval → ℤ
unfolding greater_minus_less
jit_interval_cmp_internal a b = greater_minus_less (span a) (span b)

unfoldable pub jit_interval_eq : Interval → Interval → ℤ
jit_interval_eq a b = flag (eqb_ℤ (jit_interval_cmp_internal a b) (pos 0))

unfoldable pub jit_interval_ne : Interval → Interval → ℤ
jit_interval_ne a b = flag (not (eqb_ℤ (jit_interval_cmp_internal a b) (pos 0)))

unfoldable pub jit_interval_lt : Interval → Interval → ℤ
jit_interval_lt a b = flag (ltb_ℤ (jit_interval_cmp_internal a b) (pos 0))

unfoldable pub jit_interval_le : Interval → Interval → ℤ
jit_interval_le a b = flag (leb_ℤ (jit_interval_cmp_internal a b) (pos 0))

unfoldable pub jit_interval_gt : Interval → Interval → ℤ
jit_interval_gt a b = flag (ltb_ℤ (pos 0) (jit_interval_cmp_internal a b))

unfoldable pub jit_interval_ge : Interval → Interval → ℤ
jit_interval_ge a b = flag (leb_ℤ (pos 0) (jit_interval_cmp_internal a b))

unfoldable pub jit_interval_cmp : Interval → Interval → ℤ
jit_interval_cmp a b = jit_interval_cmp_internal a b

unfoldable pub jit_interval_smaller : Interval → Interval → Interval
jit_interval_smaller a b = if leb_ℤ (jit_interval_cmp_internal a b) (pos 0) then a else b

unfoldable pub jit_interval_larger : Interval → Interval → Interval
jit_interval_larger a b = if leb_ℤ (pos 0) (jit_interval_cmp_internal a b) then a else b
