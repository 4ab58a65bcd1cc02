-- ===== src/Adaptive/Lookup.antt =====
-- The table is a map from hashes to slots.
use pg_jitter.Prelude.{
  ◌⊎◌, ℕ, zero, suc, ◌+◌, ◌≤◌, ◌<◌, ◌≡◌, ◌≢◌, ◌∙◌, sym, ap, refl, true, false, Option, none, some,
  List, length, get_elem?, set, length-set, get_elem?-set_self, get_elem?-set_ne, leb, ◌==◌, ==_iff,
  arith, Bool-cases, inl, inr,
}
use pg_jitter.Machine.{done}
use pg_jitter.CaseSearch.Halving.{get_elem?-of_lt}
use pg_jitter.Adaptive.Table.{
  ExprProfile, AdaptiveStatsEntry, AdaptiveStatsTable, lookup_loop, adaptive_stats_lookup,
  add_entry, insert_into, adaptive_stats_insert,
}

-- The array has `max_entries` slots and no more are used.
pub record IsTable (t : AdaptiveStatsTable) : Type 0 where
  pub size : length t.entries ≡ t.max_entries
  pub used : t.num_entries ≤ t.max_entries

-- What a lookup of a valid table does: it finds a slot in use that holds the hash, or no slot in use
-- holds it.
lookup_loop_returns :
    (left i : ℕ) (entries : List AdaptiveStatsEntry) (hash : ℕ)
    → i + left ≤ length entries
    → (r : Option ℕ) × (lookup_loop left i entries hash ≡ done r)
unfolding lookup_loop
lookup_loop_returns zero i entries hash h = (none, refl)
lookup_loop_returns (suc left) i entries hash h =
    let (e, at) = get_elem?-of_lt entries i (omega arith) in
    elim (Bool-cases (e.profile_hash == hash)) [
      | inl same ↦ (some i, rw (at, same, lookup_loop))
      | inr differs ↦
          let (r, run) = lookup_loop_returns left (i + 1) entries hash (omega arith) in
          (r, rw (at, differs, lookup_loop) run)
    ]

elim_cases : (r : Option AdaptiveStatsEntry) → (r ≡ none) ⊎ (x : AdaptiveStatsEntry) × (r ≡ some x)
elim_cases none = inl refl
elim_cases (some x) = inr (x, refl)

get_elem?-cases :
    (entries : List AdaptiveStatsEntry) (i : ℕ)
    → (get_elem? entries i ≡ none) ⊎ (x : AdaptiveStatsEntry) × (get_elem? entries i ≡ some x)
get_elem?-cases entries i = elim_cases (get_elem? entries i)

-- A write past the slots that the loop reads is not seen.
lookup_loop-set :
    (left i slot : ℕ) (entries : List AdaptiveStatsEntry) (e : AdaptiveStatsEntry) (hash : ℕ)
    → i + left ≤ slot
    → lookup_loop left i (set entries slot e) hash ≡ lookup_loop left i entries hash
unfolding lookup_loop
lookup_loop-set zero i slot entries e hash h = refl
lookup_loop-set (suc left) i slot entries e hash h =
    let apart =
      get_elem?-set_ne entries {i = slot} {j = i} e (λ same. absurd (omega (arith, same))) in
    elim (get_elem?-cases entries i) [
      | inl none_there ↦ rw (apart ∙ none_there, none_there, lookup_loop)
      | inr (x, at) ↦ elim (Bool-cases (x.profile_hash == hash)) [
        | inl same ↦ rw (apart ∙ at, at, same, lookup_loop)
        | inr differs ↦
            rw (apart ∙ at, at, differs, lookup_loop)
              (lookup_loop-set left (i + 1) slot entries e hash (omega arith))
      ]
    ]

-- The first slot past the ones that were searched in vain.
lookup_loop_next :
    (left i k : ℕ) (entries : List AdaptiveStatsEntry) (e : AdaptiveStatsEntry) (hash : ℕ)
    → k ≡ i + left
    → get_elem? entries k ≡ some e
    → (e.profile_hash == hash) ≡ true
    → lookup_loop left i entries hash ≡ done none
    → lookup_loop (suc left) i entries hash ≡ done (some k)
unfolding lookup_loop
lookup_loop_next zero i k entries e hash last at same run =
    let here : i ≡ k = omega arith in
    rw (here, at, same, lookup_loop) (ap (λ (n : ℕ). done (some n)) here)
lookup_loop_next (suc left) i k entries e hash last at same run = elim (get_elem?-cases entries i) [
  | inl none_there ↦ let run' = rw (none_there, lookup_loop) at run in cc
  | inr (x, at') ↦ elim (Bool-cases (x.profile_hash == hash)) [
    | inl hit ↦ let run' = rw (at', hit, lookup_loop) at run in cc
    | inr differs ↦
        rw (at', differs, lookup_loop)
          (lookup_loop_next left (i + 1) k entries e hash (omega arith) at same
            (rw (at', differs, lookup_loop) at run))
  ]
]

abbrev new_entry : ℕ → ExprProfile → AdaptiveStatsEntry → AdaptiveStatsEntry
new_entry hash profile e = record {
  profile_hash = hash;
  profile = profile;
  call_count = e.call_count;
  compile_ns = e.compile_ns;
  exec_ns = e.exec_ns;
}

abbrev with_entry : AdaptiveStatsTable → AdaptiveStatsEntry → AdaptiveStatsTable
with_entry t e = record {
  num_entries = t.num_entries + 1;
  max_entries = t.max_entries;
  entries = set t.entries t.num_entries e;
}

module _ (hash : ℕ) (profile : ExprProfile) (t : AdaptiveStatsTable) (valid : IsTable t)
    (room : t.num_entries < t.max_entries) where
  insert_new :
      (e : AdaptiveStatsEntry)
      → get_elem? t.entries t.num_entries ≡ some e
      → lookup_loop t.num_entries 0 t.entries hash ≡ done none
      → adaptive_stats_insert hash profile (some t)
        ≡ done (some (with_entry t (new_entry hash profile e)), some t.num_entries)
  unfolding adaptive_stats_insert insert_into add_entry adaptive_stats_lookup
  insert_new e at run =
      let not_full : leb t.max_entries t.num_entries ≡ false = ground arith in
      rw (run, not_full, at, adaptive_stats_insert, adaptive_stats_lookup, insert_into, add_entry)

  lookup_new :
      (e : AdaptiveStatsEntry)
      → e.profile_hash ≡ hash
      → lookup_loop t.num_entries 0 t.entries hash ≡ done none
      → adaptive_stats_lookup hash (some (with_entry t e)) ≡ done (some t.num_entries)
  unfolding adaptive_stats_lookup
  lookup_new e same run =
      let there = get_elem?-set_self t.entries t.num_entries e (omega (arith, valid.size)) in
      let unseen =
        lookup_loop-set t.num_entries 0 t.num_entries t.entries e hash (omega arith) ∙ run in
      let one_more : t.num_entries + 1 ≡ suc t.num_entries = omega arith in
      rw (one_more, adaptive_stats_lookup)
        (lookup_loop_next t.num_entries 0 t.num_entries (set t.entries t.num_entries e) e hash
          (omega arith) there ((==_iff e.profile_hash hash).1 same) unseen)

  with_entry-IsTable : (e : AdaptiveStatsEntry) → IsTable (with_entry t e)
  with_entry-IsTable e = record {
    size = length-set t.entries t.num_entries e ∙ valid.size;
    used = omega arith;
  }

  -- The table has one entry more, for the hash and the profile, and keeps the other slots.
  abbrev pub IsAdded : AdaptiveStatsTable → Type 0
  IsAdded t' =
      (t'.num_entries ≡ t.num_entries + 1)
      × (t'.max_entries ≡ t.max_entries)
      × ((e : AdaptiveStatsEntry) × (get_elem? t'.entries t.num_entries ≡ some e)
          × (e.profile_hash ≡ hash)
          × (e.profile ≡ profile))
      × ((j : ℕ) → j ≢ t.num_entries → get_elem? t'.entries j ≡ get_elem? t.entries j)

  added : (e : AdaptiveStatsEntry) → IsAdded (with_entry t (new_entry hash profile e))
  added e = (
    refl,
    refl,
    (
      new_entry hash profile e,
      get_elem?-set_self t.entries t.num_entries (new_entry hash profile e)
          (omega (arith, valid.size)),
      refl,
      refl,
    ),
    λ j ne. get_elem?-set_ne t.entries (new_entry hash profile e) (λ same. ne (sym same)),
  )

  -- The slot that the insertion gives: the old one of a hash that is there, where the table stays as it
  -- is, or the first free one. A lookup of the hash then finds it.
  abbrev pub Inserted : Type 0
  Inserted =
      (t' : AdaptiveStatsTable) × (slot : ℕ) × (adaptive_stats_insert hash profile (some t)
        ≡ done (some t', some slot))
      × IsTable t'
      × (adaptive_stats_lookup hash (some t') ≡ done (some slot))
      × (((adaptive_stats_lookup hash (some t) ≡ done (some slot)) × (t' ≡ t))
          ⊎ ((adaptive_stats_lookup hash (some t) ≡ done none)
              × (slot ≡ t.num_entries)
              × IsAdded t'))

  inserted : (r : Option ℕ) → lookup_loop t.num_entries 0 t.entries hash ≡ done r → Inserted
  unfolding adaptive_stats_insert insert_into adaptive_stats_lookup
  inserted (some i) run = (
    t,
    i,
    rw (run, adaptive_stats_insert, adaptive_stats_lookup, insert_into),
    valid,
    run,
    inl (run, refl),
  )
  inserted none run =
      let (e, at) = get_elem?-of_lt t.entries t.num_entries (omega (arith, valid.size)) in
      (
        with_entry t (new_entry hash profile e),
        t.num_entries,
        insert_new e at run,
        with_entry-IsTable (new_entry hash profile e),
        lookup_new (new_entry hash profile e) refl run,
        inr (run, refl, added e),
      )

full_insert :
    (hash : ℕ) (profile : ExprProfile) (t : AdaptiveStatsTable)
    → t.num_entries ≡ t.max_entries
    → (r : Option ℕ) → lookup_loop t.num_entries 0 t.entries hash ≡ done r
    → adaptive_stats_insert hash profile (some t) ≡ done (some t, r)
unfolding adaptive_stats_insert insert_into adaptive_stats_lookup
full_insert hash profile t full (some i) run =
    rw (run, adaptive_stats_insert, adaptive_stats_lookup, insert_into)
full_insert hash profile t full none run =
    let is_full : leb t.max_entries t.num_entries ≡ true = ground arith in
    rw (run, is_full, adaptive_stats_insert, adaptive_stats_lookup, insert_into)

-- Inserting a hash into a valid table with a free slot gives a slot without a read outside the array:
-- the one that a lookup finds where the hash is there, and the table stays as it is; else the first free
-- one, which gets the hash and the profile while the other slots and the size stay. The table stays valid,
-- and a lookup of the hash then finds that slot.
pub lookup-insert :
    (hash : ℕ) (profile : ExprProfile) (t : AdaptiveStatsTable) (valid : IsTable t)
    (room : t.num_entries < t.max_entries)
    → Inserted hash profile t valid room
lookup-insert hash profile t valid room =
    let (r, run) =
      lookup_loop_returns t.num_entries 0 t.entries hash (omega (arith, valid.size, valid.used)) in
    inserted hash profile t valid room r run

-- A full valid table stays as it is: an insertion gives the slot where the hash is there, as a lookup
-- does, and no slot where it is not.
pub insert_full :
    (hash : ℕ) (profile : ExprProfile) (t : AdaptiveStatsTable)
    → IsTable t
    → t.num_entries ≡ t.max_entries
    → (r : Option ℕ) × (adaptive_stats_lookup hash (some t) ≡ done r)
      × (adaptive_stats_insert hash profile (some t) ≡ done (some t, r))
unfolding adaptive_stats_lookup adaptive_stats_insert insert_into
insert_full hash profile t valid full =
    let (r, run) =
      lookup_loop_returns t.num_entries 0 t.entries hash (omega (arith, valid.size, valid.used)) in
    (r, run, full_insert hash profile t full r run)
