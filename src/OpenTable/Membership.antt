-- ===== src/OpenTable/Membership.antt =====
-- Filling an empty table and probing it decides membership; the doubling loop gives a size that is enough.
use native.Mathlib.Nat.{pow-suc}
use Prim.Native.Nat.{bit_and}
use pg_jitter.Prelude.{
  ℕ, zero, suc, ◌+◌, ◌*◌, ◌^◌, ◌≤◌, ◌<◌, ◌≡◌, ◌↔◌, ◌∙◌, ap, Bool, true, false, List, get_elem?,
  replicate, length, length-replicate, some, arith, inl, inr, ltb, ltb→lt, Bool-cases, ◌==◌, ◌||◌,
}
use pg_jitter.Machine.{Run, done}
use pg_jitter.OpenTable.Defs.{Slots, built, grow, probe_loop, half_int_max, insert_values}
use pg_jitter.OpenTable.Probing.{IsMask, masked-le, walk_reaches, probe-Finds, probe_ends}
use pg_jitter.OpenTable.Filled.{
  In, Stored, OnlyAllowed, count_full, count_full-replicate, room-EmptyAt, insert_values-Kept,
}

-- The doubling loop ends at a power of two that holds the values at half load.
-- By the rounds left: `size * 2 ^ r` is the size after all of them.
pub grow_result :
    (r min_slots size k : ℕ)
    → size ≡ 2 ^ k
    → min_slots ≤ size * 2 ^ r
    → min_slots ≤ half_int_max + 1
    → size ≤ 16 + 2 * min_slots
    → (s : ℕ) × (l : ℕ) × (grow (suc r) min_slots size ≡ built s)
      × (s ≡ 2 ^ l)
      × (min_slots ≤ s)
      × (s ≤ 16 + 2 * min_slots)
unfolding grow
grow_result zero min_slots size k e h small bound =
    let enough : ltb size min_slots ≡ false = ground arith in
    (size, k, rw (enough, grow), e, omega arith, bound)
grow_result (suc r) min_slots size k e h small bound = elim (Bool-cases (ltb size min_slots)) [
  | inr enough ↦ (size, k, rw (enough, grow), e, ground arith, bound)
  | inl short ↦
      let less = ltb→lt size min_slots short in
      let below : ltb half_int_max size ≡ false = ground arith in
      let (s, l, run, power, holds, fits) =
        grow_result r min_slots (size * 2) (suc k) (omega (arith, pow-suc 2 k))
          (omega (arith, ap (λ (t : ℕ). size * t) (pow-suc 2 r))) small (omega arith) in
      (s, l, rw (short, below, grow) run, power, holds, fits)
]

-- The run ends with the answer to the question.
abbrev pub Answers : Run Bool → Type 0 → Type 0
Answers run Question = (b : Bool) × (run ≡ done b) × ((b ≡ true) ↔ Question)

pub size_valid :
    (nvals : ℕ) → 0 < nvals → nvals ≤ half_int_max → (nvals == 0 || ltb half_int_max nvals) ≡ false
size_valid nvals some_values few = ground arith

module _ {S K : Type 0} (slots : Slots S K) where
  -- What a probe that answers 1 has seen.
  abbrev FoundAt : List S → K → Type 0
  FoundAt t val =
      (i : ℕ) × (s : S) × (get_elem? t i ≡ some s) × (slots.occupied s ≡ true) × (slots.key s ≡ val)

  module _ (hash : K → ℕ) (val : K) (vals : List K) (t : List S) (mask : ℕ)
      (low : IsMask mask) where
    -- On a table with room the probe returns, and what it finds stands in the table.
    probe_returns :
        length t ≡ suc mask
        → count_full slots t < suc mask
        → (b : Bool) × (probe_loop slots.occupied
              (slots.hit val)
              (suc mask)
              mask
              t
              (bit_and (hash val) mask)
            ≡ done b)
          × (b ≡ true → FoundAt t val)
    probe_returns size room =
        let (j, lt, empty) = room-EmptyAt slots t (omega arith) in
        let (e, le, there) =
          walk_reaches mask low (bit_and (hash val) mask) j (masked-le mask low (hash val))
            (omega arith) in
        probe_ends slots mask low t (omega arith) val e (bit_and (hash val) mask) (suc mask)
          (omega arith) (masked-le mask low (hash val)) (rw there empty)

    found-In : OnlyAllowed slots hash mask low (λ v. In v vals) t → FoundAt t val → In val vals
    found-In only (i, s, e, o, same) = rw same at (only i s e o)

    Stored-found :
        (b : Bool)
        → probe_loop slots.occupied (slots.hit val) (suc mask) mask t (bit_and (hash val) mask)
          ≡ done b
        → Stored slots hash mask low (λ v. In v vals) t val
        → b ≡ true
    Stored-found b run (d, less, found) =
        let hit = probe-Finds slots mask t val d (bit_and (hash val) mask) (suc mask) less found in
        cc

    -- A table with room that stores exactly the values decides membership.
    probe_decides :
        length t ≡ suc mask
        → count_full slots t < suc mask
        → ((w : K) → In w vals → Stored slots hash mask low (λ v. In v vals) t w)
        → OnlyAllowed slots hash mask low (λ v. In v vals) t
        → (b : Bool) × (probe_loop slots.occupied
              (slots.hit val)
              (suc mask)
              mask
              t
              (bit_and (hash val) mask)
            ≡ done b)
          × ((b ≡ true) ↔ In val vals)
    probe_decides size room stored only =
        let (b, run, found) = probe_returns size room in
        (b, run, (λ h. found-In only (found h), λ m. Stored-found b run (stored val m)))

  get_elem?-replicate : (n i : ℕ) (s x : S) → get_elem? (replicate n s) i ≡ some x → x ≡ s
  get_elem?-replicate zero i s x e = cc
  get_elem?-replicate (suc n) zero s x e = cc
  get_elem?-replicate (suc n) (suc i) s x e = get_elem?-replicate n i s x e

  not_full : (a s : S) → slots.occupied a ≡ false → s ≡ a → slots.occupied s ≡ true → ⊥
  not_full a s free e o = cc

  -- The insertions into the empty table, and the probe of what they leave.
  filled_table :
      (hash : K → ℕ) (val : K) (vals : List K) (mask : ℕ) (empty_slot : S)
      → slots.occupied empty_slot ≡ false
      → IsMask mask
      → length vals ≤ mask
      → (t : List S) × (insert_values slots.occupied slots.make hash mask vals
            (replicate (suc mask) empty_slot)
          ≡ done t)
        × Answers
            (probe_loop slots.occupied (slots.hit val) (suc mask) mask t (bit_and (hash val) mask))
            (In val vals)
  filled_table hash val vals mask empty_slot free low fits =
      let none_full = count_full-replicate slots (suc mask) empty_slot free in
      let all_empty = length-replicate (suc mask) empty_slot in
      let (t, run, kept) =
        insert_values-Kept slots hash mask low (λ v. In v vals) vals
          (replicate (suc mask) empty_slot) all_empty (omega arith) in
      (
        t,
        run,
        probe_decides hash val vals t mask low (kept.size ∙ all_empty) (omega (arith, kept.filled))
            kept.adds
            (kept.only
              (λ i s e o.
                absurd
                  (not_full empty_slot s free (get_elem?-replicate (suc mask) i empty_slot s e) o))
              (λ w m. m)),
      )

  pub sized_table :
      (hash : K → ℕ) (val : K) (vals : List K) (mask s : ℕ) (empty_slot : S)
      → slots.occupied empty_slot ≡ false
      → suc mask ≡ s
      → IsMask mask
      → length vals ≤ mask
      → (t : List S) × (insert_values slots.occupied slots.make hash mask vals
            (replicate s empty_slot)
          ≡ done t)
        × Answers
            (probe_loop slots.occupied (slots.hit val) (suc mask) mask t (bit_and (hash val) mask))
            (In val vals)
  sized_table hash val vals mask s empty_slot free e low fits =
      rw (← e) (filled_table hash val vals mask empty_slot free low fits)
