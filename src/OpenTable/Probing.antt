-- ===== src/OpenTable/Probing.antt =====
-- Linear probing: what a probe sequence finds, that it reaches every slot, and one insertion.
use native.Mathlib.Nat.{mod-eq_of_lt, mod_self, one-le-pow}
use Prim.Native.Nat.{bit_and}
use pg_jitter.Prelude.{
  ℕ, zero, suc, ◌+◌, ◌-◌, ◌%◌, ◌^◌, ◌≤◌, ◌<◌, ◌≡◌, ◌∙◌, refl, Bool, true, false, List, get_elem?,
  set, length, some, arith, ltb, ltb→lt, Bool-cases, inl, inr, get_elem?-set_self, get_elem?-set_ne,
}
use pg_jitter.Machine.{done}
use pg_jitter.Bits.{bit_and-mod}
use pg_jitter.CaseSearch.Halving.{get_elem?-of_lt}
use pg_jitter.OpenTable.Defs.{Slots, next, free_slot, probe_loop}

-- The slot after `e` steps of the probe sequence.
pub walk : ℕ → ℕ → ℕ → ℕ
walk mask zero h = h
walk mask (suc e) h = walk mask e (next mask h)

-- A mask of low bits wraps the last index to the first.
abbrev pub IsMask : ℕ → Type 0
IsMask mask = (k : ℕ) × (mask ≡ 2 ^ k - 1)

module _ (mask : ℕ) (low : IsMask mask) where
  masked : (x : ℕ) → bit_and x mask ≡ x % (mask + 1)
  masked x =
      let (k, e) = low in
      let some_bit = one-le-pow k 2 in
      let size : mask + 1 ≡ 2 ^ k = omega arith in rw size (rw e (bit_and-mod k x))

  pub masked-le : (x : ℕ) → bit_and x mask ≤ mask
  masked-le x = omega (arith, masked x)

  pub next-le : (h : ℕ) → next mask h ≤ mask
  unfolding next
  next-le h = masked-le (h + 1)

  next-lt : (h : ℕ) → h < mask → next mask h ≡ h + 1
  unfolding next
  next-lt h lt = masked (h + 1) ∙ mod-eq_of_lt (omega arith)

  next-last : next mask mask ≡ 0
  unfolding next
  next-last = masked (mask + 1) ∙ mod_self (mask + 1)

  walk-up : (d h : ℕ) → h + d ≤ mask → walk mask d h ≡ h + d
  unfolding walk
  walk-up zero h le = omega arith
  walk-up (suc d) h le =
      rw (next-lt h (omega arith)) (omega (arith, walk-up d (h + 1) (omega arith)))

  walk-around : (n d h j : ℕ) → n ≡ d + suc j → h + d ≡ mask → j ≤ mask → walk mask n h ≡ j
  unfolding walk
  walk-around zero d h j e p le = absurd (omega arith)
  walk-around (suc n) zero h j e p le =
      let last : h ≡ mask = omega arith in
      rw (last, next-last) (omega (arith, walk-up n 0 (omega arith)))
  walk-around (suc n) (suc d) h j e p le =
      rw (next-lt h (omega arith)) (walk-around n d (h + 1) j (omega arith) (omega arith) le)

  -- The probe sequence comes to every slot within one round trip.
  pub walk_reaches : (h j : ℕ) → h ≤ mask → j ≤ mask → (e : ℕ) × (e ≤ mask) × (walk mask e h ≡ j)
  walk_reaches h j hh hj = elim (Bool-cases (ltb j h)) [
    | inr ahead ↦
        let up : h ≤ j = ground arith in
        (j - h, omega arith, walk-up (j - h) h (omega arith) ∙ (omega arith))
    | inl behind ↦
        let lt = ltb→lt j h behind in
        (
          mask - h + suc j,
          omega arith,
          walk-around (mask - h + suc j) (mask - h) h j refl (omega arith) hj,
        )
  ]

module _ {S K : Type 0} (slots : Slots S K) where
  abbrev pub FullAt : List S → ℕ → Type 0
  FullAt t h = (s : S) × (get_elem? t h ≡ some s) × (slots.occupied s ≡ true)

  abbrev pub EmptyAt : List S → ℕ → Type 0
  EmptyAt t h = (s : S) × (get_elem? t h ≡ some s) × (slots.occupied s ≡ false)

  -- After `d` full slots the probe sequence from `h` comes to a full slot with the value.
  abbrev pub Finds : ℕ → List S → K → ℕ → ℕ → Type 0
  Finds mask t val zero h = get_elem? t h ≡ some (slots.make val)
  Finds mask t val (suc d) h = FullAt t h × Finds mask t val d (next mask h)

  -- A found value is found by the probe.
  pub probe-Finds :
      (mask : ℕ) (t : List S) (val : K) (d h rounds : ℕ)
      → d < rounds
      → Finds mask t val d h
      → probe_loop slots.occupied (slots.hit val) rounds mask t h ≡ done true
  unfolding probe_loop
  probe-Finds mask t val d h zero lt f = absurd (omega arith)
  probe-Finds mask t val zero h (suc rounds) lt e =
      rw (e, slots.make_full val, slots.make_hit val, probe_loop)
  probe-Finds mask t val (suc d) h (suc rounds) lt ((s, e, o), f) =
      elim (Bool-cases (slots.hit val s)) [
        | inl hit ↦ rw (e, o, hit, probe_loop)
        | inr other ↦
            rw (e, o, other, probe_loop)
              (probe-Finds mask t val d (next mask h) rounds (omega arith) f)
      ]

  -- A write to an empty slot leaves the full ones alone.
  set_keeps :
      (t : List S) (j h : ℕ) (slot s : S)
      → EmptyAt t j
      → get_elem? t h ≡ some s
      → slots.occupied s ≡ true
      → get_elem? (set t j slot) h ≡ some s
  set_keeps t j h slot s (free, ef, of) es full = get_elem?-set_ne t slot (λ (e : j ≡ h). cc) ∙ es

  pub set_keeps-Finds :
      (mask : ℕ) (t : List S) (j : ℕ) (slot : S) (val : K) (d h : ℕ)
      → EmptyAt t j
      → Finds mask t val d h
      → Finds mask (set t j slot) val d h
  set_keeps-Finds mask t j slot val zero h free e =
      set_keeps t j h slot (slots.make val) free e (slots.make_full val)
  set_keeps-Finds mask t j slot val (suc d) h free ((s, e, o), f) = (
    (s, set_keeps t j h slot s free e o, o),
    set_keeps-Finds mask t j slot val d (next mask h) free f,
  )

  module _ (mask : ℕ) (low : IsMask mask) (t : List S) (size : length t ≡ mask + 1) where
    -- Where the probe sequence comes to an empty slot, both loops end.
    pub free_slot_ends :
        (e h rounds : ℕ)
        → e < rounds
        → h ≤ mask
        → EmptyAt t (walk mask e h)
        → (j : ℕ) × (d : ℕ) × (free_slot slots.occupied rounds mask t h ≡ done j)
          × EmptyAt t j
          × (d < rounds)
          × ((k : K) → Finds mask (set t j (slots.make k)) k d h)
    unfolding free_slot walk
    free_slot_ends e h zero lt le empty = absurd (omega arith)
    free_slot_ends zero h (suc rounds) lt le (s, es, o) = (
      h,
      0,
      rw (es, o, free_slot),
      (s, es, o),
      omega arith,
      λ k. get_elem?-set_self t h (slots.make k) (omega arith),
    )
    free_slot_ends (suc e) h (suc rounds) lt le empty =
        let (s, es) = get_elem?-of_lt t h (omega arith) in
        elim (Bool-cases (slots.occupied s)) [
          | inr free ↦ (
            h,
            0,
            rw (es, free, free_slot),
            (s, es, free),
            omega arith,
            λ k. get_elem?-set_self t h (slots.make k) (omega arith),
          )
          | inl full ↦
              let (j, d, run, empty', less, found) =
                free_slot_ends e (next mask h) rounds (omega arith) (next-le mask low h) empty in
              (
                j,
                suc d,
                rw (es, full, free_slot) run,
                empty',
                omega arith,
                λ k. ((s, set_keeps t j h (slots.make k) s empty' es full, full), found k),
              )
        ]

    pub probe_ends :
        (val : K) (e h rounds : ℕ)
        → e < rounds
        → h ≤ mask
        → EmptyAt t (walk mask e h)
        → (b : Bool) × (probe_loop slots.occupied (slots.hit val) rounds mask t h ≡ done b)
          × (b ≡ true
              → (i : ℕ) × (s : S) × (get_elem? t i ≡ some s)
                × (slots.occupied s ≡ true)
                × (slots.key s ≡ val))
    unfolding probe_loop walk
    probe_ends val e h zero lt le empty = absurd (omega arith)
    probe_ends val zero h (suc rounds) lt le (s, es, o) =
        (false, rw (es, o, probe_loop), λ f. absurd (cc f))
    probe_ends val (suc e) h (suc rounds) lt le empty =
        let (s, es) = get_elem?-of_lt t h (omega arith) in
        elim (Bool-cases (slots.occupied s)) [
          | inr free ↦ (false, rw (es, free, probe_loop), λ f. absurd (cc f))
          | inl full ↦ elim (Bool-cases (slots.hit val s)) [
            | inl hit ↦ (
              true,
              rw (es, full, hit, probe_loop),
              λ f. (h, s, es, full, slots.hit_key val s hit),
            )
            | inr other ↦
                let (b, run, found) =
                  probe_ends val e (next mask h) rounds (omega arith) (next-le mask low h) empty in
                (b, rw (es, full, other, probe_loop) run, found)
          ]
        ]
