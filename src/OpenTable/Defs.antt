-- ===== src/OpenTable/Defs.antt =====
-- The loops on a table of slots. A slot says whether it is taken, a key is stored by the slot that `make`
-- gives for it, and `hit` is the test of a slot against the key that is searched.
use Prim.Native.Nat.{bit_and}
use pg_jitter.Prelude.{
  ℕ, zero, suc, ◌+◌, ◌*◌, ◌≡◌, Bool, true, false, List, [], ◌∷◌, get_elem?, set, some, none, ltb,
}
use pg_jitter.Machine.{Run, done, out_of_bounds, out_of_rounds}

-- What `elog(ERROR, …)` reports.
pub data BuildError : Type 0 where
  invalid_size size_overflow too_large : BuildError

pub data Build {ℓ} (A : Type ℓ) : Type ℓ where
  built : A → Build A
  error : BuildError → Build A
  fault : Build A

-- INT_MAX / 2
abbrev pub half_int_max : ℕ
half_int_max = 1073741823

-- while (table_size < min_slots) { if (table_size > INT_MAX / 2) elog(ERROR); table_size <<= 1; }
unfoldable pub grow : ℕ → ℕ → ℕ → Build ℕ
grow zero min_slots table_size = fault
grow (suc rounds) min_slots table_size = elim (ltb table_size min_slots) [
  | false ↦ built table_size
  | true ↦ elim (ltb half_int_max table_size) [
    | true ↦ error size_overflow
    | false ↦ grow rounds min_slots (table_size * 2)
  ]
]

unfoldable pub next : ℕ → ℕ → ℕ
next mask h = bit_and (h + 1) mask

module _ {S : Type 0} (occupied : S → Bool) where
  -- while (occupied(table[h])) h = (h + 1) & mask;
  unfoldable pub free_slot : ℕ → ℕ → List S → ℕ → Run ℕ
  free_slot zero mask table h = out_of_rounds
  free_slot (suc rounds) mask table h = elim (get_elem? table h) [
    | none ↦ out_of_bounds
    | some s ↦ elim (occupied s) [
      | false ↦ done h
      | true ↦ free_slot rounds mask table (next mask h)
    ]
  ]

  -- for (;;) { if (!occupied) return 0; if (hit) return 1; h = (h + 1) & mask; }
  unfoldable pub probe_loop : (S → Bool) → ℕ → ℕ → List S → ℕ → Run Bool
  probe_loop hit zero mask table h = out_of_rounds
  probe_loop hit (suc rounds) mask table h = elim (get_elem? table h) [
    | none ↦ out_of_bounds
    | some s ↦ elim (occupied s) [
      | false ↦ done false
      | true ↦ elim (hit s) [
        | true ↦ done true
        | false ↦ probe_loop hit rounds mask table (next mask h)
      ]
    ]
  ]

module _ {S K : Type 0} (occupied : S → Bool) (make : K → S) (hash : K → ℕ) where
  -- One round of the insertion loop, and the loop over the keys.
  unfoldable pub insert_value : ℕ → K → List S → Run (List S)
  insert_value mask v table =
      elim (free_slot occupied (suc mask) mask table (bit_and (hash v) mask)) [
        | done h ↦ done (set table h (make v))
        | out_of_bounds ↦ out_of_bounds
        | out_of_rounds ↦ out_of_rounds
      ]

  unfoldable pub insert_values : ℕ → List K → List S → Run (List S)
  insert_values mask [] table = done table
  insert_values mask (v ∷ vals) table = elim (insert_value mask v table) [
    | done t ↦ insert_values mask vals t
    | out_of_bounds ↦ out_of_bounds
    | out_of_rounds ↦ out_of_rounds
  ]

-- What a table asks of its slots.
pub record Slots (S K : Type 0) : Type 0 where
  pub occupied : S → Bool
  pub make : K → S
  pub key : S → K
  pub hit : K → S → Bool
  pub make_full : (k : K) → occupied (make k) ≡ true
  pub make_key : (k : K) → key (make k) ≡ k
  pub make_hit : (k : K) → hit k (make k) ≡ true
  pub hit_key : (k : K) (s : S) → hit k s ≡ true → key s ≡ k
