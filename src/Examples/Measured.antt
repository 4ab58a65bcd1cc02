-- ===== src/Examples/Measured.antt =====
-- A statistics table of two slots.
use pg_jitter.Prelude.{List, true, ◌%◌, ℕ, ◌<◌, ◌≡◌, refl, Option, none, some, [], ◌∷◌, arith}
use pg_jitter.Machine.{done}
use pg_jitter.Adaptive.Table.{
  AdaptiveStatsTable, zero_entry, empty_profile, lookup_loop, adaptive_stats_lookup,
  adaptive_stats_insert,
}
use pg_jitter.Adaptive.Profile.{
  Step, fetchsome, qual, funcexpr, meta_build_profile, count_qual, sum_natts, build_profile_counts,
}
use pg_jitter.Adaptive.Lookup.{IsTable, Inserted, lookup-insert, insert_full}

abbrev two_slots : ℕ → AdaptiveStatsTable
two_slots used = record {
  num_entries = used;
  max_entries = 2;
  entries = zero_entry ∷ zero_entry ∷ [];
}

abbrev one_used : IsTable (two_slots 1)
one_used = record { size = refl; used = omega arith }

abbrev all_used : IsTable (two_slots 2)
all_used = record { size = refl; used = omega arith }

abbrev has_room : 1 < 2
has_room = omega arith

lookup_run : adaptive_stats_lookup 7 (some (two_slots 2)) ≡ done none
unfolding adaptive_stats_lookup lookup_loop
lookup_run = refl

lookup-insert_example : Inserted 7 empty_profile (two_slots 1) one_used has_room
lookup-insert_example = lookup-insert 7 empty_profile (two_slots 1) one_used has_room

insert_full_example :
    (r : Option ℕ) × (adaptive_stats_lookup 0 (some (two_slots 2)) ≡ done r)
    × (adaptive_stats_insert 0 empty_profile (some (two_slots 2)) ≡ done (some (two_slots 2), r))
insert_full_example = insert_full 0 empty_profile (two_slots 2) all_used refl

abbrev qual_steps : List Step
qual_steps = fetchsome 3 ∷ qual ∷ funcexpr ∷ fetchsome 4 ∷ qual ∷ []

build_profile_counts_example :
    ((meta_build_profile true qual_steps).n_qual ≡ count_qual qual_steps % 256)
    × ((meta_build_profile true qual_steps).fetchsome_natts ≡ sum_natts qual_steps % 65536)
build_profile_counts_example = build_profile_counts true qual_steps
