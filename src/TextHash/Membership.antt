-- ===== src/TextHash/Membership.antt =====
-- Building the table over texts and probing it decides membership in the IN list.
use pg_jitter.Prelude.{
  ℕ, ◌+◌, ◌-◌, ◌*◌, ◌/◌, ◌^◌, ◌≤◌, ◌<◌, ◌≡◌, sym, ap, refl, Bool, true, false, not, ◌&&◌, List, [],
  take, replicate, length, length-take, arith, ltb, ◌==◌, ◌||◌,
}
use pg_jitter.Machine.{done}
use pg_jitter.Like.Pattern.{Bytes}
use pg_jitter.Like.Fast.{StringZilla}
use pg_jitter.OpenTable.Defs.{Slots, built, grow, half_int_max, insert_values}
use pg_jitter.OpenTable.Filled.{In}
use pg_jitter.OpenTable.Membership.{Answers, grow_result, size_valid, sized_table}
use pg_jitter.TextHash.Defs.{
  TextHashEntry, TextHashTable, Hashes, not_zero, text_hybrid_hash, is_used, entry_for, is_hit,
  text_hash_build, text_hash_probe,
}

abbrev empty_entry : TextHashEntry
empty_entry = record { hash = 0; text_data = [] }

used_hash : (h : ℕ) → not (not_zero h == 0) ≡ true
used_hash h = ground arith

both_equal : (h n : ℕ) (b : Bool) → b ≡ true → (h == h && n == n && b) ≡ true
both_equal h n b e = ground arith

hit_parts : (h g n m : ℕ) (b : Bool) → (h == g && n == m && b) ≡ true → (n ≡ m) × (b ≡ true)
hit_parts h g n m b e = ground arith

entry-used : (hashes : Hashes) (text : Bytes) → not (text_hybrid_hash hashes text == 0) ≡ true
unfolding text_hybrid_hash
entry-used hashes text = used_hash _

module _ (sz : StringZilla) (hashes : Hashes) where
  hit-same : (text : Bytes) → is_hit sz hashes text (entry_for sz hashes text) ≡ true
  hit-same text =
      both_equal (text_hybrid_hash hashes text) (length text) (sz.sz_equal text text)
        ((sz.sz_equal_iff text text refl).1 refl)

  same-hit :
      (text : Bytes) (e : TextHashEntry) → is_hit sz hashes text e ≡ true → e.text_data ≡ text
  same-hit text e h =
      let (lengths, equal) =
        hit_parts e.hash (text_hybrid_hash hashes text) (length e.text_data) (length text)
          (sz.sz_equal text e.text_data) h in
      sym ((sz.sz_equal_iff text e.text_data (sym lengths)).0 equal)

  -- The slots of the table for texts.
  abbrev text_slots : Slots TextHashEntry Bytes
  text_slots = record {
    occupied = is_used;
    make = entry_for sz hashes;
    key = λ e. e.text_data;
    hit = is_hit sz hashes;
    make_full = entry-used hashes;
    make_key = λ v. refl;
    make_hit = hit-same;
    hit_key = same-hit;
  }

  alloc_fits :
      (max_alloc s : ℕ)
      → 16 + 16 * s ≤ max_alloc
      → (ltb max_alloc 16 || ltb ((max_alloc - 16) / 16) s) ≡ false
  alloc_fits max_alloc s h = ground arith

  build_runs :
      (max_alloc : ℕ) (vals : List Bytes) (nvals : ℕ) (has_nulls : Bool) (s : ℕ)
      (t : List TextHashEntry)
      → (nvals == 0 || ltb half_int_max nvals) ≡ false
      → grow 32 (nvals * 2) 16 ≡ built s
      → (ltb max_alloc 16 || ltb ((max_alloc - 16) / 16) s) ≡ false
      → insert_values is_used
          (entry_for sz hashes)
          (text_hybrid_hash hashes)
          (s - 1)
          (take nvals vals)
          (replicate s empty_entry)
        ≡ done t
      → text_hash_build sz hashes max_alloc vals nvals has_nulls
        ≡ built (record { mask = s - 1; nitems = nvals; has_nulls = has_nulls; entries = t })
  unfolding text_hash_build
  build_runs max_alloc vals nvals has_nulls s t valid run space inserted =
      rw (valid, run, space, inserted, text_hash_build)

  build_at_size :
      (max_alloc : ℕ) (vals : List Bytes) (nvals : ℕ) (has_nulls : Bool) (val : Bytes) (s l : ℕ)
      → (nvals == 0 || ltb half_int_max nvals) ≡ false
      → grow 32 (nvals * 2) 16 ≡ built s
      → (ltb max_alloc 16 || ltb ((max_alloc - 16) / 16) s) ≡ false
      → s ≡ 2 ^ l
      → 0 < s
      → length (take nvals vals) ≤ s - 1
      → (ht : TextHashTable) × (text_hash_build sz hashes max_alloc vals nvals has_nulls ≡ built ht)
        × Answers (text_hash_probe sz hashes val ht) (In val (take nvals vals))
  unfolding text_hash_probe
  build_at_size max_alloc vals nvals has_nulls val s l valid run space power positive fits =
      let (t, inserted, answers) =
        sized_table text_slots (text_hybrid_hash hashes) val (take nvals vals) (s - 1) s empty_entry
          refl (omega arith) (l, ap (λ (n : ℕ). n - 1) power) fits in
      (
        record { mask = s - 1; nitems = nvals; has_nulls = has_nulls; entries = t },
        build_runs max_alloc vals nvals has_nulls s t valid run space inserted,
        answers,
      )

  -- Building the hash table of the first `nvals` texts of an IN list succeeds, and probing it answers
  -- whether the text is one of them, whatever the hash functions: the insertion loops find free entries, the
  -- probe returns, and neither reads outside the table. This holds of 1 to 2 ^ 29 texts where the list has
  -- as many and `MaxAllocSize` has room for the largest table that these can take; StringZilla's
  -- equality is as documented.
  pub probe-build_text :
      (max_alloc : ℕ) (vals : List Bytes) (nvals : ℕ) (has_nulls : Bool) (val : Bytes)
      → 0 < nvals
      → nvals ≤ 2 ^ 29
      → nvals ≤ length vals
      → 16 + 16 * (16 + 4 * nvals) ≤ max_alloc
      → (ht : TextHashTable) × (text_hash_build sz hashes max_alloc vals nvals has_nulls ≡ built ht)
        × Answers (text_hash_probe sz hashes val ht) (In val (take nvals vals))
  probe-build_text max_alloc vals nvals has_nulls val some_values few enough room =
      let (s, l, run, power, holds, bound) =
        grow_result 31 (nvals * 2) 16 4 refl (omega arith) (omega arith) (omega arith) in
      build_at_size max_alloc vals nvals has_nulls val s l
        (size_valid nvals some_values (omega arith)) run (alloc_fits max_alloc s (omega arith))
        power (omega arith) (omega (arith, length-take nvals vals))
