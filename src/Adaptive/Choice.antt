-- ===== src/Adaptive/Choice.antt =====
-- The branches of `adaptive_select`, from the choice of a backend back to the lookup of the hash.
use pg_jitter.Prelude.{
  ℕ, zero, suc, ◌+◌, ◌/◌, ◌%◌, ◌≤◌, ◌≡◌, ◌∙◌, refl, ap, ◌&&◌, Option, none, some, List, ◌∷◌, length,
  get_elem?, Bool-cases, ◌⊎◌, inl, inr, ltb, ◌==◌, arith, if◌then◌else◌,
}
use pg_jitter.Machine.{Run, done}
use pg_jitter.CaseSearch.Halving.{get_elem?-of_lt}
use pg_jitter.Adaptive.Table.{
  Backend, AdaptiveStatsEntry, AdaptiveStatsTable, adaptive_idx_to_backend, adaptive_stats_lookup,
  lookup_loop,
}
use pg_jitter.Adaptive.Lookup.{IsTable}
use pg_jitter.Adaptive.Select.{
  Settings, pick_from, unmeasured, candidates, best_loop, costs_of, bootstrap, exploit_or_explore,
  select_from, select_at, adaptive_select, n_measured, ◌>>=◌,
}
use pg_jitter.Adaptive.Cheapest.{element_at-done}
use pg_jitter.Adaptive.Costs.{HasCounters, costs_of_run}
use pg_jitter.Adaptive.Pools.{
  IsChoice, IsMeasured, pick_from_member, unmeasured-IsIdle, candidates-IsMeasured,
  best_loop-IsMeasured,
}

-- The run ends with no backend, or with one that it may choose.
abbrev pub Ends : Settings → List ℕ → Run (Option Backend) → Type 0
Ends s counts r =
    (r ≡ done none) ⊎ (b : ℕ) × IsChoice s counts b × (r ≡ done (some (adaptive_idx_to_backend b)))

bootstrap_run :
    (s : Settings) (e : AdaptiveStatsEntry) (n : ℕ)
    → get_elem? e.call_count 0 ≡ some n
    → bootstrap s e ≡ (
        if ltb 0 n && s.rand_val % 64 == 0
        then pick_from s (unmeasured s e.call_count 0) (s.rand_val / 64) none
        else done none)
unfolding bootstrap
bootstrap_run s e n at =
    ap
      (λ p. p >>= λ sljit_count.
        if ltb 0 sljit_count && s.rand_val % 64 == 0
        then pick_from s (unmeasured s e.call_count 0) (s.rand_val / 64) none
        else done none)
      (element_at-done e.call_count 0 n at)

bootstrap-Ends :
    (s : Settings) (e : AdaptiveStatsEntry) → HasCounters e → Ends s e.call_count (bootstrap s e)
bootstrap-Ends s e h =
    let (n, at) = get_elem?-of_lt e.call_count 0 (omega (arith, h.calls)) in
    let run = bootstrap_run s e n at in
    elim (Bool-cases (ltb 0 n && s.rand_val % 64 == 0)) [
      | inr never ↦ inl (run ∙ rw never refl)
      | inl tries ↦
          let idle = unmeasured s e.call_count 0 in
          elim (pick_from_member s idle (s.rand_val / 64) none) [
            | inl nothing ↦ inl (run ∙ rw tries nothing)
            | inr (i, x, member, picked) ↦
                let (k, is, at', there) = unmeasured-IsIdle s e.call_count 0 i x member in
                let same : x ≡ k = omega (arith, is) in
                inr (x, (0, rw same at', inr (refl, there)), run ∙ rw tries picked)
          ]
    ]

exploit_or_explore-Ends :
    (s : Settings) (counts : List ℕ) (cs : List (Option s.Cost)) (best_idx : ℕ)
    → ((x : ℕ) → IsMeasured s cs 0 x → IsChoice s counts x)
    → IsMeasured s cs 0 best_idx
    → Ends s counts (exploit_or_explore s cs best_idx)
unfolding exploit_or_explore
exploit_or_explore-Ends s counts cs best_idx choice measured =
    elim (Bool-cases (s.epsilon_positive && s.explores (s.rand_val % 10000))) [
      | inr exploits ↦ rw exploits (inr (best_idx, choice best_idx measured, refl))
      | inl explores ↦
          let others = candidates s cs 0 best_idx in
          let best = some (adaptive_idx_to_backend best_idx) in
          elim (pick_from_member s others (s.rand_val / 10000) best) [
            | inl nothing ↦ rw explores (inr (best_idx, choice best_idx measured, nothing))
            | inr (i, x, member, picked) ↦
                let m = candidates-IsMeasured s cs 0 best_idx i x member in
                rw explores (inr (x, choice x m, picked))
          ]
    ]

select_from-Ends :
    (s : Settings) (e : AdaptiveStatsEntry) (o : Option s.Cost) (cs : List (Option s.Cost))
    → HasCounters e
    → ((x : ℕ) → IsMeasured s (o ∷ cs) 0 x → IsChoice s e.call_count x)
    → Ends s e.call_count (select_from s e (o ∷ cs))
unfolding select_from
select_from-Ends s e none cs h choice = bootstrap-Ends s e h
select_from-Ends s e (some c) cs h choice = elim (Bool-cases (ltb (n_measured s (some c ∷ cs)) 2)) [
  | inl few ↦ rw few (bootstrap-Ends s e h)
  | inr enough ↦
      let best = (best_loop s (some c ∷ cs) 0 c 0).1 in
      let measured : IsMeasured s (some c ∷ cs) 0 best =
        elim (best_loop-IsMeasured s (some c ∷ cs) 0 c 0) [
          | inl same ↦ (0, c, same, refl)
          | inr m ↦ m
        ] in
      rw enough (exploit_or_explore-Ends s e.call_count (some c ∷ cs) best choice measured)
]

select_at-Ends :
    (s : Settings) (t : AdaptiveStatsTable) (slot : ℕ) (e : AdaptiveStatsEntry)
    → get_elem? t.entries slot ≡ some e
    → HasCounters e
    → Ends s e.call_count (select_at s t (some slot))
unfolding select_at
select_at-Ends s t slot e at h =
    let (o, cs, costs, choice) = costs_of_run s e h in
    let run : select_at s t (some slot) ≡ select_from s e (o ∷ cs) =
      ap (λ p. p >>= λ e'. costs_of s e' >>= select_from s e') (element_at-done t.entries slot e at)
      ∙ ap (λ p. p >>= select_from s e) costs in
    elim (select_from-Ends s e o cs h choice) [
      | inl nothing ↦ inl (run ∙ nothing)
      | inr (b, may, picked) ↦ inr (b, may, run ∙ picked)
    ]

lookup_loop_finds :
    (left i : ℕ) (entries : List AdaptiveStatsEntry) (hash : ℕ)
    → i + left ≤ length entries
    → (lookup_loop left i entries hash ≡ done none)
      ⊎ (slot : ℕ) × (e : AdaptiveStatsEntry) × (get_elem? entries slot ≡ some e)
        × (e.profile_hash ≡ hash)
        × (lookup_loop left i entries hash ≡ done (some slot))
unfolding lookup_loop
lookup_loop_finds zero i entries hash h = inl refl
lookup_loop_finds (suc left) i entries hash h =
    let (e, at) = get_elem?-of_lt entries i (omega arith) in
    elim (Bool-cases (e.profile_hash == hash)) [
      | inl same ↦ inr (i, e, at, ground (arith, same), rw (at, same, lookup_loop))
      | inr differs ↦ elim (lookup_loop_finds left (i + 1) entries hash (omega arith)) [
        | inl run ↦ inl (rw (at, differs, lookup_loop) run)
        | inr (slot, e', at', is, run) ↦ inr (slot, e', at', is, rw (at, differs, lookup_loop) run)
      ]
    ]

-- For a valid table whose entries have three counters each, and any settings and random number, the
-- selection ends without a read outside an array. It gives no backend, or one that an entry of the
-- hash allows: the backend has the calls that the settings ask for, or it has no call and is there.
pub adaptive_select_chooses :
    (s : Settings) (hash : ℕ) (t : AdaptiveStatsTable)
    → IsTable t
    → ((slot : ℕ) (e : AdaptiveStatsEntry) → get_elem? t.entries slot ≡ some e → HasCounters e)
    → (adaptive_select s hash (some t) ≡ done none)
      ⊎ (slot : ℕ) × (e : AdaptiveStatsEntry) × (get_elem? t.entries slot ≡ some e)
        × (e.profile_hash ≡ hash)
        × (b : ℕ) × IsChoice s e.call_count b
        × (adaptive_select s hash (some t) ≡ done (some (adaptive_idx_to_backend b)))
unfolding adaptive_select adaptive_stats_lookup select_at
adaptive_select_chooses s hash t valid counters =
    elim (lookup_loop_finds t.num_entries 0 t.entries hash
      (omega (arith, valid.size, valid.used))) [
        | inl missing ↦ inl (ap (λ p. p >>= select_at s t) missing)
        | inr (slot, e, at, is, found) ↦
            let run = ap (λ p. p >>= select_at s t) found in
            elim (select_at-Ends s t slot e at (counters slot e at)) [
              | inl nothing ↦ inl (run ∙ nothing)
              | inr (b, may, picked) ↦ inr (slot, e, at, is, b, may, run ∙ picked)
            ]
      ]
