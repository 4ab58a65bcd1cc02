-- ===== src/Examples/Chosen.antt =====
-- The choice of a backend where two of three are measured.
use pg_jitter.Prelude.{
  ℕ, zero, suc, ◌+◌, ◌≡◌, refl, sym, ap, ◌⊎◌, length, true, false, Option, none, some, [], ◌∷◌,
  get_elem?, ltb, arith,
}
use pg_jitter.Machine.{done}
use pg_jitter.Adaptive.Table.{
  asmjit, AdaptiveStatsEntry, AdaptiveStatsTable, adaptive_stats_lookup, lookup_loop,
  adaptive_idx_to_backend, empty_profile,
}
use pg_jitter.Adaptive.Select.{
  Settings, adaptive_select, select_at, select_from, exploit_or_explore, costs_of, cost_of,
  best_loop,
}
use pg_jitter.Adaptive.Lookup.{IsTable}
use pg_jitter.Adaptive.Pools.{IsChoice}
use pg_jitter.Adaptive.Choice.{adaptive_select_chooses}
use pg_jitter.Adaptive.Costs.{HasCounters}
use pg_jitter.Adaptive.Cheapest.{IsOrder, IsLeast, select-IsLeast}

abbrev greedy : Settings
greedy = record {
  Cost = ℕ;
  cost = λ comp exec. comp + exec;
  less = ltb;
  samples = 3;
  available = λ b. true;
  rand_val = 17;
  epsilon_positive = false;
  explores = λ n. false;
}

greedy-IsOrder : IsOrder greedy
greedy-IsOrder = record {
  irreflexive = λ a. ground arith;
  transitive = λ a b c h h'. ground (arith, h, h');
}

abbrev entry : AdaptiveStatsEntry
entry = record {
  profile_hash = 7;
  profile = empty_profile;
  call_count = 5 ∷ 4 ∷ 1 ∷ [];
  compile_ns = 100 ∷ 50 ∷ 3 ∷ [];
  exec_ns = 300 ∷ 200 ∷ 4 ∷ [];
}

abbrev table : AdaptiveStatsTable
table = record { num_entries = 1; max_entries = 1; entries = entry ∷ [] }

select_run : adaptive_select greedy 7 (some table) ≡ done (some asmjit)
unfolding adaptive_select adaptive_stats_lookup lookup_loop select_at costs_of cost_of select_from
    exploit_or_explore best_loop adaptive_idx_to_backend
select_run = refl

looked_up : adaptive_stats_lookup 7 (some table) ≡ done (some 0)
unfolding adaptive_stats_lookup lookup_loop
looked_up = refl

costs_at : costs_of greedy entry ≡ done (some 400 ∷ some 250 ∷ none ∷ [])
unfolding costs_of cost_of
costs_at = refl

select-IsLeast_example :
    (b : ℕ) × (r : ℕ) × (adaptive_select greedy 7 (some table)
      ≡ done (some (adaptive_idx_to_backend b)))
    × (get_elem? {A = Option ℕ} (some 400 ∷ some 250 ∷ none ∷ []) b ≡ some (some r))
    × IsLeast greedy (some 400 ∷ some 250 ∷ none ∷ []) r
select-IsLeast_example =
    select-IsLeast greedy greedy-IsOrder 7 0 table entry 400 (some 250 ∷ none ∷ []) looked_up refl
      costs_at (omega arith) refl

table-IsTable : IsTable table
table-IsTable = record { size = refl; used = omega arith }

table-HasCounters :
    (slot : ℕ) (e : AdaptiveStatsEntry) → get_elem? table.entries slot ≡ some e → HasCounters e
table-HasCounters zero e at =
    let same : entry ≡ e = ground (arith, at) in
    record {
      calls = ap (λ x. length (AdaptiveStatsEntry.call_count x)) (sym same);
      compiled = ap (λ x. length (AdaptiveStatsEntry.compile_ns x)) (sym same);
      executed = ap (λ x. length (AdaptiveStatsEntry.exec_ns x)) (sym same);
    }
table-HasCounters (suc slot) e at = absurd (ground (arith, at))

adaptive_select_chooses_example :
    (adaptive_select greedy 7 (some table) ≡ done none)
    ⊎ (slot : ℕ) × (e : AdaptiveStatsEntry) × (get_elem? table.entries slot ≡ some e)
      × (e.profile_hash ≡ 7)
      × (b : ℕ) × IsChoice greedy e.call_count b
      × (adaptive_select greedy 7 (some table) ≡ done (some (adaptive_idx_to_backend b)))
adaptive_select_chooses_example =
    adaptive_select_chooses greedy 7 table table-IsTable table-HasCounters
