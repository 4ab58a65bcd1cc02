-- ===== src/Adaptive/Pools.antt =====
-- The backends between which `adaptive_select` chooses: idle ones and measured ones.
use pg_jitter.Prelude.{
  ℕ, zero, suc, ◌+◌, ◌%◌, ◌≡◌, refl, ap, true, ◌&&◌, Option, none, some, List, [], ◌∷◌, length,
  get_elem?, Bool-cases, ◌⊎◌, inl, inr, leb, ◌==◌, arith,
}
use pg_jitter.Machine.{done}
use pg_jitter.CaseSearch.Halving.{get_elem?-of_lt}
use pg_jitter.Adaptive.Table.{Backend, adaptive_idx_to_backend}
use pg_jitter.Adaptive.Select.{Settings, pick_from, unmeasured, candidates, best_loop, ◌>>=◌}
use pg_jitter.Adaptive.Cheapest.{element_at-done}

-- The backend of index `b` has enough calls, or none and is there.
abbrev pub IsChoice : Settings → List ℕ → ℕ → Type 0
IsChoice s counts b =
    (n : ℕ) × (get_elem? counts b ≡ some n)
    × ((leb s.samples n ≡ true) ⊎ ((n ≡ 0) × (s.available (adaptive_idx_to_backend b) ≡ true)))

-- No member, or one of the members.
pub pick_from_member :
    (s : Settings) (xs : List ℕ) (r : ℕ) (default : Option Backend)
    → (pick_from s xs r default ≡ done default)
      ⊎ (i x : ℕ) × (get_elem? xs i ≡ some x)
        × (pick_from s xs r default ≡ done (some (adaptive_idx_to_backend x)))
unfolding pick_from
pick_from_member s [] r default = inl refl
pick_from_member s (y ∷ ys) r default =
    let (x, at) = get_elem?-of_lt (y ∷ ys) (r % length (y ∷ ys)) (omega arith) in
    let run =
      ap (λ p. p >>= λ i. done (some (adaptive_idx_to_backend i)))
        (element_at-done (y ∷ ys) (r % length (y ∷ ys)) x at) in
    inr (r % length (y ∷ ys), x, at, run)

abbrev pub IsIdle : Settings → List ℕ → ℕ → ℕ → Type 0
IsIdle s counts b x =
    (k : ℕ) × (x ≡ b + k)
    × (get_elem? counts k ≡ some 0)
    × (s.available (adaptive_idx_to_backend x) ≡ true)

IsIdle-later :
    (s : Settings) (n : ℕ) (counts : List ℕ) (b x : ℕ)
    → IsIdle s counts (suc b) x
    → IsIdle s (n ∷ counts) b x
IsIdle-later s n counts b x (k, is, at, there) = (suc k, omega (arith, is), at, there)

IsIdle-cons :
    (s : Settings) (n : ℕ) (counts : List ℕ) (b x i : ℕ) (rest : List ℕ)
    → ((j : ℕ) → get_elem? rest j ≡ some x → IsIdle s counts (suc b) x)
    → (n == 0 && s.available (adaptive_idx_to_backend b)) ≡ true
    → get_elem? (b ∷ rest) i ≡ some x
    → IsIdle s (n ∷ counts) b x
IsIdle-cons s n counts b x zero rest later idle e =
    let same : b ≡ x = ground (arith, e) in
    let zero_calls : n ≡ 0 = ground (arith, idle) in
    let there : s.available (adaptive_idx_to_backend b) ≡ true = ground (arith, idle) in
    (0, omega (arith, same), ap some zero_calls, rw (← same) there)
IsIdle-cons s n counts b x (suc i) rest later idle e = IsIdle-later s n counts b x (later i e)

pub unmeasured-IsIdle :
    (s : Settings) (counts : List ℕ) (b i x : ℕ)
    → get_elem? (unmeasured s counts b) i ≡ some x
    → IsIdle s counts b x
unfolding unmeasured
unmeasured-IsIdle s [] b i x e = absurd (ground (arith, e))
unmeasured-IsIdle s (n ∷ counts) b i x e =
    elim (Bool-cases (n == 0 && s.available (adaptive_idx_to_backend b))) [
      | inr busy ↦
          let e' = rw busy at e in
          IsIdle-later s n counts b x (unmeasured-IsIdle s counts (suc b) i x e')
      | inl idle ↦
          let e' = rw idle at e in
          IsIdle-cons s n counts b x i (unmeasured s counts (suc b))
            (λ j. unmeasured-IsIdle s counts (suc b) j x) idle e'
    ]

-- A measured cost, by its index.
abbrev pub IsMeasured : (s : Settings) → List (Option s.Cost) → ℕ → ℕ → Type 0
IsMeasured s cs b x = (k : ℕ) × (c : s.Cost) × (x ≡ b + k) × (get_elem? cs k ≡ some (some c))

IsMeasured-later :
    (s : Settings) (o : Option s.Cost) (cs : List (Option s.Cost)) (b x : ℕ)
    → IsMeasured s cs (suc b) x
    → IsMeasured s (o ∷ cs) b x
IsMeasured-later s o cs b x (k, c, is, at) = (suc k, c, omega (arith, is), at)

IsMeasured-cons :
    (s : Settings) (c : s.Cost) (cs : List (Option s.Cost)) (b x i : ℕ) (rest : List ℕ)
    → ((j : ℕ) → get_elem? rest j ≡ some x → IsMeasured s cs (suc b) x)
    → get_elem? (b ∷ rest) i ≡ some x
    → IsMeasured s (some c ∷ cs) b x
IsMeasured-cons s c cs b x zero rest later e =
    let same : b ≡ x = ground (arith, e) in (0, c, omega (arith, same), refl)
IsMeasured-cons s c cs b x (suc i) rest later e = IsMeasured-later s (some c) cs b x (later i e)

pub candidates-IsMeasured :
    (s : Settings) (cs : List (Option s.Cost)) (b best_idx i x : ℕ)
    → get_elem? (candidates s cs b best_idx) i ≡ some x
    → IsMeasured s cs b x
unfolding candidates
candidates-IsMeasured s [] b best_idx i x e = absurd (ground (arith, e))
candidates-IsMeasured s (none ∷ cs) b best_idx i x e =
    IsMeasured-later s none cs b x (candidates-IsMeasured s cs (suc b) best_idx i x e)
candidates-IsMeasured s (some c ∷ cs) b best_idx i x e = elim (Bool-cases (b == best_idx)) [
  | inl best ↦
      let e' = rw best at e in
      IsMeasured-later s (some c) cs b x (candidates-IsMeasured s cs (suc b) best_idx i x e')
  | inr other ↦
      let e' = rw other at e in
      IsMeasured-cons s c cs b x i (candidates s cs (suc b) best_idx)
        (λ j. candidates-IsMeasured s cs (suc b) best_idx j x) e'
]

-- The loop keeps the index that it starts with, or takes that of a measured cost.
pub best_loop-IsMeasured :
    (s : Settings) (cs : List (Option s.Cost)) (b : ℕ) (best : s.Cost) (best_idx : ℕ)
    → ((best_loop s cs b best best_idx).1 ≡ best_idx)
      ⊎ IsMeasured s cs b (best_loop s cs b best best_idx).1
unfolding best_loop
best_loop-IsMeasured s [] b best best_idx = inl refl
best_loop-IsMeasured s (none ∷ cs) b best best_idx =
    elim (best_loop-IsMeasured s cs (suc b) best best_idx) [
      | inl same ↦ inl same
      | inr m ↦ inr (IsMeasured-later s none cs b (best_loop s cs (suc b) best best_idx).1 m)
    ]
best_loop-IsMeasured s (some c ∷ cs) b best best_idx = elim (Bool-cases (s.less c best)) [
  | inl lt ↦ elim (best_loop-IsMeasured s cs (suc b) c b) [
    | inl same ↦ rw lt (inr (0, c, omega (arith, same), refl))
    | inr m ↦ rw lt (inr (IsMeasured-later s (some c) cs b (best_loop s cs (suc b) c b).1 m))
  ]
  | inr ge ↦ elim (best_loop-IsMeasured s cs (suc b) best best_idx) [
    | inl same ↦ rw ge (inl same)
    | inr m ↦
        rw ge (inr (IsMeasured-later s (some c) cs b (best_loop s cs (suc b) best best_idx).1 m))
  ]
]
