-- ===== src/CaseDetect/Order.antt =====
-- Lists of which each element is related to the next one.
use pg_jitter.Prelude.{
  ℕ, zero, suc, ◌<◌, ◌≡◌, Bool, true, ◌&&◌, List, [], ◌∷◌, get_elem?, some, arith,
}

module _ {ℓ} {A : Type ℓ} (lt : A → A → Bool) where
  abbrev pub adjacent : List A → Bool
  adjacent (a ∷ b ∷ xs) = lt a b && adjacent (b ∷ xs)
  adjacent _ = true

  module _ (trans : (a b c : A) → lt a b ≡ true → lt b c ≡ true → lt a c ≡ true) where
    head_first :
        (a : A) (xs : List A) (j : ℕ) (t : A)
        → adjacent (a ∷ xs) ≡ true
        → get_elem? xs j ≡ some t
        → lt a t ≡ true
    head_first a [] j t h e = absurd (ground (arith, e))
    head_first a (b ∷ xs) zero t h e = ground (arith, h, e)
    head_first a (b ∷ xs) (suc j) t h e =
        trans a b t (ground (arith, h)) (head_first b xs j t (ground (arith, h)) e)

    pub adjacent_pairs :
        (xs : List A) (i j : ℕ) (s t : A)
        → adjacent xs ≡ true
        → i < j
        → get_elem? xs i ≡ some s
        → get_elem? xs j ≡ some t
        → lt s t ≡ true
    adjacent_pairs [] i j s t h lt' ei ej = absurd (ground (arith, ei))
    adjacent_pairs (a ∷ xs) i zero s t h lt' ei ej = absurd (omega arith)
    adjacent_pairs (a ∷ xs) zero (suc j) s t h lt' ei ej =
        let same : a ≡ s = ground (arith, ei) in rw (← same) (head_first a xs j t h ej)
    adjacent_pairs (a ∷ b ∷ xs) (suc i) (suc j) s t h lt' ei ej =
        adjacent_pairs (b ∷ xs) i j s t (ground (arith, h)) (omega arith) ei ej
    adjacent_pairs (a ∷ []) (suc i) (suc j) s t h lt' ei ej = absurd (ground (arith, ei))
