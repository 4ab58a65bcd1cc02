-- ===== src/InList/Membership.antt =====
-- Building the table and probing it decides membership in the IN list.
use pg_jitter.Prelude.{
  ℕ, ◌+◌, ◌-◌, ◌*◌, ◌/◌, ◌^◌, ◌≤◌, ◌<◌, ◌≡◌, ap, refl, Bool, true, false, List, take, replicate,
  length, length-take, arith, ltb, ◌==◌, ◌||◌,
}
use pg_jitter.Prelude.Int.{ℤ, pos, eq_of_parts}
use pg_jitter.Machine.{done, eqb_ℤ}
use pg_jitter.OpenTable.Defs.{Slots, built, grow, half_int_max, insert_values}
use pg_jitter.OpenTable.Filled.{In}
use pg_jitter.OpenTable.Membership.{Answers, grow_result, size_valid, sized_table}
use pg_jitter.InList.HashTable.{
  Crc32HashSlot, Crc32HashTable, is_taken, slot_of, holds_value, crc32_hash_build_int4,
  crc32_hash_probe_int4,
}

eqb_ℤ_self : (v : ℤ) → eqb_ℤ v v ≡ true
eqb_ℤ_self v = ground arith

eqb_ℤ_same : (a b : ℤ) → eqb_ℤ a b ≡ true → a ≡ b
eqb_ℤ_same a b h = eq_of_parts a b (ground arith)

-- The slots of the table for integers.
abbrev int_slots : Slots Crc32HashSlot ℤ
int_slots = record {
  occupied = is_taken;
  make = slot_of;
  key = λ s. s.value;
  hit = holds_value;
  make_full = λ v. refl;
  make_key = λ v. refl;
  make_hit = eqb_ℤ_self;
  hit_key = λ v s h. eqb_ℤ_same s.value v h;
}

abbrev empty_slot : Crc32HashSlot
empty_slot = record { value = pos 0; occupied = false }

alloc_fits :
    (max_alloc s : ℕ)
    → 12 + 8 * s ≤ max_alloc
    → (ltb max_alloc 12 || ltb ((max_alloc - 12) / 8) s) ≡ false
alloc_fits max_alloc s h = ground arith

build_runs :
    (hash : ℤ → ℕ) (max_alloc : ℕ) (vals : List ℤ) (nvals : ℕ) (has_nulls : Bool) (s : ℕ)
    (t : List Crc32HashSlot)
    → (nvals == 0 || ltb half_int_max nvals) ≡ false
    → grow 32 (nvals * 2) 16 ≡ built s
    → (ltb max_alloc 12 || ltb ((max_alloc - 12) / 8) s) ≡ false
    → insert_values is_taken slot_of hash (s - 1) (take nvals vals) (replicate s empty_slot)
      ≡ done t
    → crc32_hash_build_int4 hash max_alloc vals nvals has_nulls
      ≡ built (record { mask = s - 1; nitems = nvals; has_nulls = has_nulls; table = t })
unfolding crc32_hash_build_int4
build_runs hash max_alloc vals nvals has_nulls s t valid run space inserted =
    rw (valid, run, space, inserted, crc32_hash_build_int4)

build_at_size :
    (hash : ℤ → ℕ) (max_alloc : ℕ) (vals : List ℤ) (nvals : ℕ) (has_nulls : Bool) (val : ℤ)
    (s l : ℕ)
    → (nvals == 0 || ltb half_int_max nvals) ≡ false
    → grow 32 (nvals * 2) 16 ≡ built s
    → (ltb max_alloc 12 || ltb ((max_alloc - 12) / 8) s) ≡ false
    → s ≡ 2 ^ l
    → 0 < s
    → length (take nvals vals) ≤ s - 1
    → (ht : Crc32HashTable) × (crc32_hash_build_int4 hash max_alloc vals nvals has_nulls ≡ built ht)
      × Answers (crc32_hash_probe_int4 hash val ht) (In val (take nvals vals))
unfolding crc32_hash_probe_int4
build_at_size hash max_alloc vals nvals has_nulls val s l valid run space power positive fits =
    let (t, inserted, answers) =
      sized_table int_slots hash val (take nvals vals) (s - 1) s empty_slot refl (omega arith)
        (l, ap (λ (n : ℕ). n - 1) power) fits in
    (
      record { mask = s - 1; nitems = nvals; has_nulls = has_nulls; table = t },
      build_runs hash max_alloc vals nvals has_nulls s t valid run space inserted,
      answers,
    )

-- Building the hash table of the first `nvals` values of an IN list succeeds, and probing it answers
-- whether the value is one of them, whatever the hash function: the insertion loops find free slots,
-- the probe returns, and neither reads outside the table. This holds of 1 to 2 ^ 29 values where the
-- list has as many and `MaxAllocSize` has room for the largest table that these can take.
pub probe-build_int4 :
    (hash : ℤ → ℕ) (max_alloc : ℕ) (vals : List ℤ) (nvals : ℕ) (has_nulls : Bool) (val : ℤ)
    → 0 < nvals
    → nvals ≤ 2 ^ 29
    → nvals ≤ length vals
    → 12 + 8 * (16 + 4 * nvals) ≤ max_alloc
    → (ht : Crc32HashTable) × (crc32_hash_build_int4 hash max_alloc vals nvals has_nulls ≡ built ht)
      × Answers (crc32_hash_probe_int4 hash val ht) (In val (take nvals vals))
probe-build_int4 hash max_alloc vals nvals has_nulls val some_values few enough room =
    let (s, l, run, power, holds, bound) =
      grow_result 31 (nvals * 2) 16 4 refl (omega arith) (omega arith) (omega arith) in
    build_at_size hash max_alloc vals nvals has_nulls val s l
      (size_valid nvals some_values (omega arith)) run (alloc_fits max_alloc s (omega arith)) power
      (omega arith) (omega (arith, length-take nvals vals))
