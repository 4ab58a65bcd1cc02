-- ===== src/Adaptive/Costs.antt =====
-- The costs that `adaptive_select` reads from an entry.
use pg_jitter.Prelude.{
  ℕ, zero, suc, ◌<◌, ◌≡◌, ◌∙◌, ap, true, Option, none, some, List, [], ◌∷◌, length, get_elem?, inl,
  leb, arith, if◌then◌else◌,
}
use pg_jitter.Machine.{done}
use pg_jitter.CaseSearch.Halving.{get_elem?-of_lt}
use pg_jitter.Adaptive.Table.{AdaptiveStatsEntry}
use pg_jitter.Adaptive.Select.{Settings, element_at, cost_of, costs_of, ◌>>=◌}
use pg_jitter.Adaptive.Cheapest.{element_at-done}
use pg_jitter.Adaptive.Pools.{IsChoice, IsMeasured}

-- The three arrays of an entry have a counter for each backend.
pub record HasCounters (e : AdaptiveStatsEntry) : Type 0 where
  pub calls : length e.call_count ≡ 3
  pub compiled : length e.compile_ns ≡ 3
  pub executed : length e.exec_ns ≡ 3

-- What the loop over the backends reads for one of them.
cost_of_run :
    (s : Settings) (e : AdaptiveStatsEntry) (b : ℕ)
    → HasCounters e
    → b < 3
    → (n : ℕ) × (o : Option s.Cost) × (get_elem? e.call_count b ≡ some n)
      × (cost_of s e b ≡ done o)
      × ((c : s.Cost) → o ≡ some c → leb s.samples n ≡ true)
unfolding cost_of
cost_of_run s e b h lt =
    let (n, at) = get_elem?-of_lt e.call_count b (omega (arith, h.calls)) in
    let (x, at') = get_elem?-of_lt e.compile_ns b (omega (arith, h.compiled)) in
    let (y, at'') = get_elem?-of_lt e.exec_ns b (omega (arith, h.executed)) in
    let o : Option s.Cost = if leb s.samples n then some (s.cost x y) else none in
    let run : cost_of s e b ≡ done o =
      ap
        (λ p. p >>= λ count. element_at e.compile_ns b >>= λ comp.
          element_at e.exec_ns b >>= λ exec.
          done (if leb s.samples count then some (s.cost comp exec) else none))
        (element_at-done e.call_count b n at)
      ∙ ap
          (λ p. p >>= λ comp. element_at e.exec_ns b >>= λ exec.
            done (if leb s.samples n then some (s.cost comp exec) else none))
          (element_at-done e.compile_ns b x at')
      ∙ ap (λ p. p >>= λ exec. done (if leb s.samples n then some (s.cost x exec) else none))
          (element_at-done e.exec_ns b y at'') in
    (n, o, at, run, λ c is. ground (arith, is))

counted_backend :
    (s : Settings) (e : AdaptiveStatsEntry) (o0 o1 o2 : Option s.Cost) (x : ℕ)
    → ((c : s.Cost) → o0 ≡ some c → IsChoice s e.call_count 0)
    → ((c : s.Cost) → o1 ≡ some c → IsChoice s e.call_count 1)
    → ((c : s.Cost) → o2 ≡ some c → IsChoice s e.call_count 2)
    → IsMeasured s (o0 ∷ o1 ∷ o2 ∷ []) 0 x
    → IsChoice s e.call_count x
counted_backend s e o0 o1 o2 x h0 h1 h2 (zero, c, is, at) = rw is (h0 c (ground (arith, at)))
counted_backend s e o0 o1 o2 x h0 h1 h2 (suc zero, c, is, at) = rw is (h1 c (ground (arith, at)))
counted_backend s e o0 o1 o2 x h0 h1 h2 (suc (suc zero), c, is, at) =
    rw is (h2 c (ground (arith, at)))
counted_backend s e o0 o1 o2 x h0 h1 h2 (suc (suc (suc k)), c, is, at) = absurd (ground (arith, at))

pub costs_of_run :
    (s : Settings) (e : AdaptiveStatsEntry)
    → HasCounters e
    → (o : Option s.Cost) × (cs : List (Option s.Cost)) × (costs_of s e ≡ done (o ∷ cs))
      × ((x : ℕ) → IsMeasured s (o ∷ cs) 0 x → IsChoice s e.call_count x)
unfolding costs_of
costs_of_run s e h =
    let (n0, o0, at0, run0, m0) = cost_of_run s e 0 h (omega arith) in
    let (n1, o1, at1, run1, m1) = cost_of_run s e 1 h (omega arith) in
    let (n2, o2, at2, run2, m2) = cost_of_run s e 2 h (omega arith) in
    let run : costs_of s e ≡ done (o0 ∷ o1 ∷ o2 ∷ []) =
      ap (λ p. p >>= λ c0. cost_of s e 1 >>= λ c1. cost_of s e 2 >>= λ c2. done (c0 ∷ c1 ∷ c2 ∷ []))
        run0
      ∙ ap (λ p. p >>= λ c1. cost_of s e 2 >>= λ c2. done (o0 ∷ c1 ∷ c2 ∷ [])) run1
      ∙ ap (λ p. p >>= λ c2. done (o0 ∷ o1 ∷ c2 ∷ [])) run2 in
    (
      o0,
      o1 ∷ o2 ∷ [],
      run,
      λ x m.
          counted_backend s e o0 o1 o2 x (λ c is. (n0, at0, inl (m0 c is)))
            (λ c is. (n1, at1, inl (m1 c is))) (λ c is. (n2, at2, inl (m2 c is))) m,
    )
