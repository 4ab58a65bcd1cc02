-- ===== src/Adaptive/Cheapest.antt =====
-- What `adaptive_select` chooses.
use pg_jitter.Prelude.{
  ℕ, zero, suc, ◌+◌, ◌≤◌, ◌≡◌, ◌∙◌, sym, refl, ap, true, false, Option, none, some, List, [], ◌∷◌,
  get_elem?, Bool-cases, ◌⊎◌, inl, inr, arith,
}
use pg_jitter.Machine.{done}
use pg_jitter.Adaptive.Table.{
  AdaptiveStatsEntry, AdaptiveStatsTable, adaptive_idx_to_backend, adaptive_stats_lookup,
}
use pg_jitter.Adaptive.Select.{
  Settings, best_loop, exploit_or_explore, select_from, select_at, adaptive_select, costs_of,
  n_measured, element_at, ◌>>=◌,
}

-- `less` is the order of numbers.
pub record IsOrder (s : Settings) : Type 0 where
  pub irreflexive : (a : s.Cost) → s.less a a ≡ false
  pub transitive : (a b c : s.Cost) → s.less a b ≡ true → s.less b c ≡ true → s.less a c ≡ true

-- No measured cost of the list is less than `best`.
abbrev pub IsLeast : (s : Settings) → List (Option s.Cost) → s.Cost → Type 0
IsLeast s cs best = (i : ℕ) (c : s.Cost) → get_elem? cs i ≡ some (some c) → s.less c best ≡ false

-- The result of the loop: the best so far, or a less cost of the list.
abbrev IsFrom : (s : Settings) → List (Option s.Cost) → ℕ → s.Cost → ℕ → s.Cost × ℕ → Type 0
IsFrom s cs b best best_idx r =
    ((r.0 ≡ best) × (r.1 ≡ best_idx))
    ⊎ ((k : ℕ) × (get_elem? cs k ≡ some (some r.0)) × (r.1 ≡ b + k) × (s.less r.0 best ≡ true))

pub element_at-done :
    {A : Type 0} (xs : List A) (i : ℕ) (x : A) → get_elem? xs i ≡ some x → element_at xs i ≡ done x
element_at-done xs i x e = ground (arith, e)

module _ (s : Settings) (order : IsOrder s) where
  -- A cost that is not less than the best so far is not less than the result.
  not_less :
      (c best : s.Cost) (cs : List (Option s.Cost)) (b best_idx : ℕ) (r : s.Cost × ℕ)
      → IsFrom s cs b best best_idx r
      → s.less c best ≡ false
      → s.less c r.0 ≡ false
  not_less c best cs b best_idx r (inl (same, _)) h = rw same h
  not_less c best cs b best_idx r (inr (k, _, _, lt)) h = elim (Bool-cases (s.less c r.0)) [
    | inr fails ↦ fails
    | inl lt' ↦ cc (order.transitive c r.0 best lt' lt, h)
  ]

  IsLeast-cons :
      (o : Option s.Cost) (cs : List (Option s.Cost)) (r : s.Cost)
      → ((c : s.Cost) → o ≡ some c → s.less c r ≡ false)
      → IsLeast s cs r
      → IsLeast s (o ∷ cs) r
  IsLeast-cons o cs r first rest zero c e = first c (ground (arith, e))
  IsLeast-cons o cs r first rest (suc i) c e = rest i c e

  IsFrom-later :
      (o : Option s.Cost) (cs : List (Option s.Cost)) (b : ℕ) (best : s.Cost) (best_idx : ℕ)
      (r : s.Cost × ℕ)
      → IsFrom s cs (suc b) best best_idx r
      → IsFrom s (o ∷ cs) b best best_idx r
  IsFrom-later o cs b best best_idx r (inl same) = inl same
  IsFrom-later o cs b best best_idx r (inr (k, at, is, lt)) = inr (suc k, at, omega (arith, is), lt)

  IsFrom-new :
      (c : s.Cost) (cs : List (Option s.Cost)) (b : ℕ) (best : s.Cost) (best_idx : ℕ)
      (r : s.Cost × ℕ)
      → s.less c best ≡ true
      → IsFrom s cs (suc b) c b r
      → IsFrom s (some c ∷ cs) b best best_idx r
  IsFrom-new c cs b best best_idx r lt (inl (same, idx)) =
      inr (zero, ap (λ x. some (some x)) (sym same), omega (arith, idx), rw same lt)
  IsFrom-new c cs b best best_idx r lt (inr (k, at, is, lt')) =
      inr (suc k, at, omega (arith, is), order.transitive r.0 c best lt' lt)

  first_is :
      (c c' r : s.Cost)
      → s.less c r ≡ false
      → ◌≡◌ {A = Option s.Cost} (some c) (some c')
      → s.less c' r ≡ false
  first_is c c' r h e = let same : c ≡ c' = ground (arith, e) in rw (← same) h

  -- The loop gives the least of the costs, and where it stands.
  best_loop-IsLeast :
      (cs : List (Option s.Cost)) (b : ℕ) (best : s.Cost) (best_idx : ℕ)
      → IsLeast s cs (best_loop s cs b best best_idx).0
        × IsFrom s cs b best best_idx (best_loop s cs b best best_idx)
  unfolding best_loop
  best_loop-IsLeast [] b best best_idx = ((λ i c e. absurd (ground (arith, e))), inl (refl, refl))
  best_loop-IsLeast (none ∷ cs) b best best_idx =
      let (least, from) = best_loop-IsLeast cs (suc b) best best_idx in
      (
        IsLeast-cons none cs (best_loop s cs (suc b) best best_idx).0
            (λ c e. absurd (ground (arith, e))) least,
        IsFrom-later none cs b best best_idx (best_loop s cs (suc b) best best_idx) from,
      )
  best_loop-IsLeast (some c ∷ cs) b best best_idx = elim (Bool-cases (s.less c best)) [
    | inl lt ↦
        let r = best_loop s cs (suc b) c b in
        let (least, from) = best_loop-IsLeast cs (suc b) c b in
        let own = not_less c c cs (suc b) b r from (order.irreflexive c) in
        rw lt (
          IsLeast-cons (some c) cs r.0 (λ c' e. first_is c c' r.0 own e) least,
          IsFrom-new c cs b best best_idx r lt from,
        )
    | inr ge ↦
        let r = best_loop s cs (suc b) best best_idx in
        let (least, from) = best_loop-IsLeast cs (suc b) best best_idx in
        let own = not_less c best cs (suc b) best_idx r from ge in
        rw ge (
          IsLeast-cons (some c) cs r.0 (λ c' e. first_is c c' r.0 own e) least,
          IsFrom-later (some c) cs b best best_idx r from,
        )
  ]

  IsLeast-from_start :
      (c : s.Cost) (cs : List (Option s.Cost))
      → (b : ℕ) × (r : s.Cost) × ((best_loop s (some c ∷ cs) 0 c 0).1 ≡ b)
        × (get_elem? (some c ∷ cs) b ≡ some (some r))
        × IsLeast s (some c ∷ cs) r
  IsLeast-from_start c cs =
      let r = best_loop s (some c ∷ cs) 0 c 0 in
      let (least, from) = best_loop-IsLeast (some c ∷ cs) 0 c 0 in
      elim from [
        | inl (same, idx) ↦ (0, r.0, idx, ap (λ x. some (some x)) (sym same), least)
        | inr (k, at, is, lt) ↦ (k, r.0, omega (arith, is), at, least)
      ]

  select_from_greedy :
      (e : AdaptiveStatsEntry) (c : s.Cost) (cs : List (Option s.Cost))
      → 2 ≤ n_measured s (some c ∷ cs)
      → s.epsilon_positive ≡ false
      → select_from s e (some c ∷ cs)
        ≡ done (some (adaptive_idx_to_backend (best_loop s (some c ∷ cs) 0 c 0).1))
  unfolding select_from exploit_or_explore
  select_from_greedy e c cs two greedy = ground (arith, two, greedy)

  -- Where the first backend and another one are measured, and no exploration is set, the choice is a
  -- measured backend, and no measured backend costs less.
  pub select-IsLeast :
      (hash slot : ℕ) (t : AdaptiveStatsTable) (e : AdaptiveStatsEntry) (c : s.Cost)
      (cs : List (Option s.Cost))
      → adaptive_stats_lookup hash (some t) ≡ done (some slot)
      → get_elem? t.entries slot ≡ some e
      → costs_of s e ≡ done (some c ∷ cs)
      → 2 ≤ n_measured s (some c ∷ cs)
      → s.epsilon_positive ≡ false
      → (b : ℕ) × (r : s.Cost) × (adaptive_select s hash (some t)
          ≡ done (some (adaptive_idx_to_backend b)))
        × (get_elem? (some c ∷ cs) b ≡ some (some r))
        × IsLeast s (some c ∷ cs) r
  unfolding adaptive_select select_at
  select-IsLeast hash slot t e c cs found at costs two greedy =
      let (b, r, idx, is, least) = IsLeast-from_start c cs in
      let run =
        ap (λ x. x >>= select_at s t) found
        ∙ ap (λ x. x >>= λ e'. costs_of s e' >>= select_from s e')
            (element_at-done t.entries slot e at)
        ∙ ap (λ x. x >>= select_from s e) costs
        ∙ select_from_greedy e c cs two greedy
        ∙ ap (λ i. done (some (adaptive_idx_to_backend i))) idx in
      (b, r, run, is, least)
