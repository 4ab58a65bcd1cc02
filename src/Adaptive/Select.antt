-- ===== src/Adaptive/Select.antt =====
-- `adaptive_select`: the choice of a backend from the times that the table has. Random numbers, the
-- settings, and the doubles of the costs with their order are parameters.
use pg_jitter.Prelude.{
  ℕ, suc, ◌/◌, ◌%◌, Bool, ◌&&◌, Option, none, some, List, [], ◌∷◌, length, get_elem?, ltb, leb,
  ◌==◌, if◌then◌else◌,
}
use pg_jitter.Machine.{Run, done, out_of_bounds, out_of_rounds}
use pg_jitter.Adaptive.Table.{
  Backend, AdaptiveStatsEntry, AdaptiveStatsTable, adaptive_idx_to_backend, adaptive_stats_lookup,
}

infixl 5 ◌>>=◌
abbrev pub ◌>>=◌ {ℓ κ} : {A : Type ℓ} {B : Type κ} → Run A → (A → Run B) → Run B
done a >>= f = f a
out_of_bounds >>= f = out_of_bounds
out_of_rounds >>= f = out_of_rounds

-- `cost` is (double) comp + (double) exec, and `less` the order of doubles; `explores` is the test of
-- a fraction, in 10000ths, against a positive epsilon.
pub record Settings : Type 1 where
  pub Cost : Type 0
  pub cost : ℕ → ℕ → Cost
  pub less : Cost → Cost → Bool
  pub samples : ℕ
  pub available : Backend → Bool
  pub rand_val : ℕ
  pub epsilon_positive : Bool
  pub explores : ℕ → Bool

abbrev pub element_at {ℓ} : {A : Type ℓ} → List A → ℕ → Run A
element_at xs i = elim (get_elem? xs i) [ none ↦ out_of_bounds | some x ↦ done x ]

module _ (s : Settings) where
  -- costs[b]: none stands for -1.0, the cost of a backend that is not measured yet.
  unfoldable pub cost_of : AdaptiveStatsEntry → ℕ → Run (Option s.Cost)
  cost_of e b = do
    count ← element_at e.call_count b
    comp ← element_at e.compile_ns b
    exec ← element_at e.exec_ns b
    done (if leb s.samples count then some (s.cost comp exec) else none)

  unfoldable pub costs_of : AdaptiveStatsEntry → Run (List (Option s.Cost))
  unfolding cost_of
  costs_of e = do c0 ← cost_of e 0; c1 ← cost_of e 1; c2 ← cost_of e 2; done (c0 ∷ c1 ∷ c2 ∷ [])

  abbrev pub n_measured : List (Option s.Cost) → ℕ
  n_measured [] = 0
  n_measured (none ∷ cs) = n_measured cs
  n_measured (some c ∷ cs) = suc (n_measured cs)

  -- The backends without a call, of those there are, from index `b` on.
  unfoldable pub unmeasured : List ℕ → ℕ → List ℕ
  unmeasured [] b = []
  unmeasured (n ∷ counts) b =
      let rest = unmeasured counts (suc b) in
      if n == 0 && s.available (adaptive_idx_to_backend b) then b ∷ rest else rest

  -- if (costs[b] >= 0.0 && costs[b] < best_cost) { best_cost = costs[b]; best_idx = b; }
  unfoldable pub best_loop : List (Option s.Cost) → ℕ → s.Cost → ℕ → s.Cost × ℕ
  best_loop [] b best_cost best_idx = (best_cost, best_idx)
  best_loop (none ∷ cs) b best_cost best_idx = best_loop cs (suc b) best_cost best_idx
  best_loop (some c ∷ cs) b best_cost best_idx =
      if s.less c best_cost
      then best_loop cs (suc b) c b
      else best_loop cs (suc b) best_cost best_idx

  -- The measured backends other than the best.
  unfoldable pub candidates : List (Option s.Cost) → ℕ → ℕ → List ℕ
  candidates [] b best_idx = []
  candidates (none ∷ cs) b best_idx = candidates cs (suc b) best_idx
  candidates (some c ∷ cs) b best_idx =
      let rest = candidates cs (suc b) best_idx in if b == best_idx then rest else b ∷ rest

  -- return adaptive_idx_to_backend(list[r % n]), where n is not 0; the default else.
  unfoldable pub pick_from : List ℕ → ℕ → Option Backend → Run (Option Backend)
  pick_from [] r default = done default
  pick_from (x ∷ xs) r default = do
    pick ← element_at (x ∷ xs) (r % length (x ∷ xs))
    done (some (adaptive_idx_to_backend pick))

  -- Rarely a backend without a call, where the first one has calls; -1 is none.
  unfoldable pub bootstrap : AdaptiveStatsEntry → Run (Option Backend)
  bootstrap e = do
    sljit_count ← element_at e.call_count 0
    if ltb 0 sljit_count && s.rand_val % 64 == 0
        then pick_from (unmeasured e.call_count 0) (s.rand_val / 64) none
        else done none

  -- The best backend, or at times another measured one.
  unfoldable pub exploit_or_explore : List (Option s.Cost) → ℕ → Run (Option Backend)
  exploit_or_explore costs best_idx =
      let best = some (adaptive_idx_to_backend best_idx) in
      if s.epsilon_positive && s.explores (s.rand_val % 10000)
      then pick_from (candidates costs 0 best_idx) (s.rand_val / 10000) best
      else done best

  -- From the costs on.
  unfoldable pub select_from : AdaptiveStatsEntry → List (Option s.Cost) → Run (Option Backend)
  select_from e [] = out_of_bounds
  select_from e (none ∷ cs) = bootstrap e
  select_from e (some c ∷ cs) =
      if ltb (n_measured (some c ∷ cs)) 2
      then bootstrap e
      else exploit_or_explore (some c ∷ cs) (best_loop (some c ∷ cs) 0 c 0).1

  unfoldable pub select_at : AdaptiveStatsTable → Option ℕ → Run (Option Backend)
  select_at t none = done none
  select_at t (some slot) = do
    e ← element_at t.entries slot
    costs ← costs_of e
    select_from e costs

  unfoldable pub adaptive_select : ℕ → Option AdaptiveStatsTable → Run (Option Backend)
  adaptive_select hash none = done none
  adaptive_select hash (some t) = adaptive_stats_lookup hash (some t) >>= select_at t
