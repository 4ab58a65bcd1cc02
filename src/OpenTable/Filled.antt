-- ===== src/OpenTable/Filled.antt =====
-- Insertion keeps what is stored, and a table that is not full has room for the next key.
use Prim.Native.Nat.{bit_and}
use pg_jitter.Prelude.{
  ℕ, zero, suc, ◌+◌, ◌≤◌, ◌<◌, ◌≡◌, ◌⊎◌, ◌∙◌, sym, refl, true, false, List, [], ◌∷◌, get_elem?, set,
  replicate, length, some, arith, inl, inr, length-set, get_elem?-set_self, get_elem?-set_ne,
  Bool-cases, if◌then◌else◌,
}
use pg_jitter.Machine.{done}
use native.Mathlib.Decide.{ℕ_discrete}
use pg_jitter.CaseSearch.Halving.{lt-of_get_elem?}
use pg_jitter.OpenTable.Defs.{Slots, insert_value, insert_values}
use pg_jitter.OpenTable.Probing.{
  EmptyAt, Finds, IsMask, masked-le, walk_reaches, free_slot_ends, set_keeps-Finds,
}

abbrev pub In : {K : Type 0} → K → List K → Type 0
In v [] = ⊥
In v (x ∷ xs) = (x ≡ v) ⊎ In v xs

module _ {S K : Type 0} (slots : Slots S K) where
  -- How many slots are taken.
  pub count_full : List S → ℕ
  count_full [] = 0
  count_full (s ∷ t) = (if slots.occupied s then 1 else 0) + count_full t

  pub room-EmptyAt :
      (t : List S) → count_full t < length t → (j : ℕ) × (j < length t) × EmptyAt slots t j
  unfolding count_full
  room-EmptyAt [] h = absurd (omega arith)
  room-EmptyAt (s ∷ t) h = elim (Bool-cases (slots.occupied s)) [
    | inr free ↦ (0, omega arith, (s, refl, free))
    | inl full ↦ let (j, lt, e) = room-EmptyAt t (ground arith) in (suc j, omega arith, e)
  ]

  pub count_full-replicate :
      (n : ℕ) (s : S) → slots.occupied s ≡ false → count_full (replicate n s) ≡ 0
  unfolding count_full
  count_full-replicate zero s e = refl
  count_full-replicate (suc n) s e = ground (arith, e, count_full-replicate n s e)

  count_full-set : (t : List S) (j : ℕ) (s : S) → count_full (set t j s) ≤ count_full t + 1
  unfolding count_full
  count_full-set [] j s = omega arith
  count_full-set (x ∷ t) zero s = ground arith
  count_full-set (x ∷ t) (suc j) s = ground (arith, count_full-set t j s)

  some-injective' : {a b : S} → some a ≡ some b → a ≡ b
  some-injective' e = cc

  module _ (hash : K → ℕ) (mask : ℕ) (low : IsMask mask) (Allowed : K → Type 0) where
    abbrev pub home : K → ℕ
    home v = bit_and (hash v) mask

    -- The value is found within one round trip from its home slot.
    abbrev pub Stored : List S → K → Type 0
    Stored t v = (d : ℕ) × (d < suc mask) × Finds slots mask t v d (home v)

    abbrev pub OnlyAllowed : List S → Type 0
    OnlyAllowed t =
        (i : ℕ) (s : S) → get_elem? t i ≡ some s → slots.occupied s ≡ true → Allowed (slots.key s)

    -- What one insertion, or all of them, leave behind.
    pub record Kept (t t' : List S) (added : K → Type 0) (n : ℕ) : Type 0 where
      pub size : length t' ≡ length t
      pub filled : count_full t' ≤ count_full t + n
      pub keeps : (w : K) → Stored t w → Stored t' w
      pub adds : (w : K) → added w → Stored t' w
      pub only : OnlyAllowed t → ((w : K) → added w → Allowed w) → OnlyAllowed t'

    only_set :
        (t : List S) (f : ℕ) (slot : S)
        → f < length t
        → OnlyAllowed t
        → Allowed (slots.key slot)
        → OnlyAllowed (set t f slot)
    only_set t f slot inside old new i s e o = elim (ℕ_discrete f i) [
      | yes same ↦
          let here : slot ≡ s =
            some-injective' (sym (get_elem?-set_self t f slot inside) ∙ rw (← same) at e) in
          rw (← here) new
      | no other ↦ old i s (sym (get_elem?-set_ne t slot other) ∙ e) o
    ]

    insert_value-Kept :
        (v : K) (t : List S)
        → length t ≡ suc mask
        → count_full t < suc mask
        → (t' : List S) × (insert_value slots.occupied slots.make hash mask v t ≡ done t')
          × Kept t t' (λ w. v ≡ w) 1
    unfolding insert_value
    insert_value-Kept v t size room =
        let (j, lt, empty) = room-EmptyAt t (omega arith) in
        let (e, le, there) =
          walk_reaches mask low (home v) j (masked-le mask low (hash v)) (omega arith) in
        let (f, d, run, free, less, found) =
          free_slot_ends slots mask low t (omega arith) e (home v) (suc mask) (omega arith)
            (masked-le mask low (hash v)) (rw there empty) in
        let slot = slots.make v in
        (
          set t f slot,
          rw (run, insert_value),
          record {
            size = length-set t f slot;
            filled = count_full-set t f slot;
            keeps =
                λ w st. (st.0, st.1, set_keeps-Finds slots mask t f slot w st.0 (home w) free st.2);
            adds = λ w same. rw (← same) (d, less, found v);
            only = λ old new.
                only_set t f slot (lt-of_get_elem? t f free.1) old
                  (rw (slots.make_key v) (new v refl));
          },
        )

    pub insert_values-Kept :
        (vals : List K) (t : List S)
        → length t ≡ suc mask
        → count_full t + length vals ≤ mask
        → (t' : List S) × (insert_values slots.occupied slots.make hash mask vals t ≡ done t')
          × Kept t t' (λ w. In w vals) (length vals)
    unfolding insert_values
    insert_values-Kept [] t size room = (
      t,
      refl,
      record {
        size = refl;
        filled = omega arith;
        keeps = λ w st. st;
        adds = λ w absent. absurd absent;
        only = λ old new. old;
      },
    )
    insert_values-Kept (v ∷ vals) t size room =
        let (t1, run1, one) = insert_value-Kept v t size (omega arith) in
        let (t2, run2, rest) =
          insert_values-Kept vals t1 (one.size ∙ size) (omega (arith, one.filled)) in
        (
          t2,
          rw (run1, insert_values) run2,
          record {
            size = rest.size ∙ one.size;
            filled = omega (arith, one.filled, rest.filled);
            keeps = λ w st. rest.keeps w (one.keeps w st);
            adds = λ w. elim [
              | inl same ↦ rest.keeps w (one.adds w same)
              | inr later ↦ rest.adds w later
            ];
            only =
                λ old new. rest.only (one.only old (λ w e. new w (inl e))) (λ w e. new w (inr e));
          },
        )
