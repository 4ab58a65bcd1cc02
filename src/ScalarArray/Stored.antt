-- ===== src/ScalarArray/Stored.antt =====
-- The arrays that the loop reads, as PostgreSQL stores them: a null bitmap read as its macro
-- `att_isnull` does, and the datums of the items that are not null.
use Prim.Native.Nat.{bit_and}
use mathlib.Core.Option
use pg_jitter.Prelude.{
  ℕ, zero, suc, ◌+◌, ◌*◌, ◌/◌, ◌%◌, ◌^◌, ◌<◌, ◌≡◌, ◌∙◌, ap, sym, refl, Bool, true, false, not,
  Option, none, some, List, [], ◌∷◌, map, length, get_elem?, ◌==◌, if◌then◌else◌, arith, Bool-cases,
  Option-cases, inl, inr,
}
use pg_jitter.ScalarArray.Defs.{
  NullableDatum, ArrayType, next_item, item_loop, bool_datum, get_bool, settle, byte_after,
  mask_after, result_of,
}
use pg_jitter.ScalarArray.Kleene.{kleene, over_all, seen, seen-null, seen-decided, seen-end}

-- !(BITS[ATT >> 3] & (1 << (ATT & 7)))
unfoldable pub att_isnull : List ℕ → ℕ → Option Bool
att_isnull bits i = Option.map (λ byte. bit_and byte (2 ^ (i % 8)) == 0) (get_elem? bits (i / 8))

abbrev pub is_null : Option ℕ → Bool
is_null none = true
is_null (some d) = false

abbrev pub somes : List (Option ℕ) → List ℕ
somes [] = []
somes (none ∷ es) = somes es
somes (some d ∷ es) = d ∷ somes es

-- The bitmap, from item i on, says which items are null.
abbrev pub Marks : Option (List ℕ) → ℕ → List (Option ℕ) → Type 0
Marks bitmap i [] = Unit {0}
Marks none i (e ∷ es) = (is_null e ≡ false) × Marks none (suc i) es
Marks (some bits) i (e ∷ es) = (att_isnull bits i ≡ some (is_null e)) × Marks (some bits) (suc i) es

abbrev pub Stores : ArrayType → List (Option ℕ) → Type 0
Stores arr es = (length es ≡ arr.nitems) × (somes es ≡ arr.data_area) × Marks arr.null_bitmap 0 es

abbrev pub item : Option ℕ → NullableDatum
item none = record { value = 0; isnull = true }
item (some d) = record { value = d; isnull = false }

abbrev pub results : Bool → (NullableDatum → Option ℕ) → List (Option ℕ) → List (Option Bool)
results strict fn es = map (λ e. Option.map get_bool (result_of strict fn (item e))) es

-- A result as the two words that are stored.
abbrev pub encoded : Bool → Option Bool → ℕ × Bool
encoded use_or none = (bool_datum (not use_or), true)
encoded use_or (some b) = (bool_datum b, false)

shifted_mask :
    (r : ℕ)
    → r < 8
    → ((2 ^ r * 2 == 0x100) ≡ (r == 7)) × ((if r == 7 then 1 else 2 ^ r * 2) ≡ 2 ^ ((r + 1) % 8))
shifted_mask zero h = (refl, refl)
shifted_mask (suc zero) h = (refl, refl)
shifted_mask (suc (suc zero)) h = (refl, refl)
shifted_mask (suc (suc (suc zero))) h = (refl, refl)
shifted_mask (suc (suc (suc (suc zero)))) h = (refl, refl)
shifted_mask (suc (suc (suc (suc (suc zero))))) h = (refl, refl)
shifted_mask (suc (suc (suc (suc (suc (suc zero)))))) h = (refl, refl)
shifted_mask (suc (suc (suc (suc (suc (suc (suc zero))))))) h = (refl, refl)
shifted_mask (suc (suc (suc (suc (suc (suc (suc (suc r)))))))) h = absurd (omega arith)

next_byte : (i : ℕ) → (if i % 8 == 7 then i / 8 + 1 else i / 8) ≡ suc i / 8
next_byte i = ground arith

next_bit : (i : ℕ) → (i % 8 + 1) % 8 ≡ suc i % 8
next_bit i = omega arith

-- The byte and the mask of the next item.
pub next_position :
    (i : ℕ)
    → (byte_after (i / 8) (2 ^ (i % 8)) ≡ suc i / 8) × (mask_after (2 ^ (i % 8)) ≡ 2 ^ (suc i % 8))
next_position i =
    let (last, mask) = shifted_mask (i % 8) (omega arith) in
    (rw last (next_byte i), rw last (mask ∙ ap (λ n. 2 ^ n) (next_bit i)))

fetched_byte :
    (bits : List ℕ) (i byte : ℕ) (e : Option ℕ) (es : List (Option ℕ))
    → get_elem? bits (i / 8) ≡ some byte
    → some (bit_and byte (2 ^ (i % 8)) == 0) ≡ some (is_null e)
    → next_item (some bits) (i / 8) (2 ^ (i % 8)) (somes (e ∷ es)) ≡ some (item e, somes es)
unfolding next_item
fetched_byte bits i byte none es inside h =
    let clear : (bit_and byte (2 ^ (i % 8)) == 0) ≡ true = cc in rw (inside, next_item, clear) refl
fetched_byte bits i byte (some d) es inside h =
    let marked : (bit_and byte (2 ^ (i % 8)) == 0) ≡ false = cc in
    rw (inside, next_item, marked) refl

pub fetched :
    (bitmap : Option (List ℕ)) (i : ℕ) (e : Option ℕ) (es : List (Option ℕ))
    → Marks bitmap i (e ∷ es)
    → next_item bitmap (i / 8) (2 ^ (i % 8)) (somes (e ∷ es)) ≡ some (item e, somes es)
unfolding next_item att_isnull
fetched none i none es (h, m) = cc
fetched none i (some d) es (h, m) = refl
fetched (some bits) i e es (h, m) = elim (Option-cases (get_elem? bits (i / 8))) [
  | inl outside ↦ let h' = rw outside at h in cc
  | inr (byte, inside) ↦ fetched_byte bits i byte e es inside (rw inside at h)
]

after_null :
    (use_or null : Bool) (tail : Option Bool)
    → kleene use_or none tail ≡ kleene use_or (seen use_or null) (kleene use_or none tail)
after_null use_or null tail = sym (seen-null use_or null tail)

pub later :
    (bitmap : Option (List ℕ)) (i : ℕ) (e : Option ℕ) (es : List (Option ℕ))
    → Marks bitmap i (e ∷ es)
    → Marks bitmap (suc i) es
later none i e es (h, m) = m
later (some bits) i e es (h, m) = m

settle_lem :
    (use_or null : Bool) (rest : Bool → Option (ℕ × Bool)) (r : Option ℕ) (tail : Option Bool)
    → ((n : Bool) → rest n ≡ some (encoded use_or (kleene use_or (seen use_or n) tail)))
    → settle use_or null rest r
      ≡ some (
          encoded use_or
            (kleene use_or (seen use_or null) (kleene use_or (Option.map get_bool r) tail)))
settle_lem use_or null rest none tail h =
    h true ∙ ap (λ (r : Option Bool). some (encoded use_or r)) (after_null use_or null tail)
settle_lem true null rest (some d) tail h = elim (Bool-cases (get_bool d)) [
  | inl e ↦
      rw e (ap (λ (r : Option Bool). some (encoded true r)) (sym (seen-decided true null tail)))
  | inr e ↦ rw e (h null)
]
settle_lem false null rest (some d) tail h = elim (Bool-cases (get_bool d)) [
  | inl e ↦ rw e (h null)
  | inr e ↦
      rw e (ap (λ (r : Option Bool). some (encoded false r)) (sym (seen-decided false null tail)))
]

encoded-seen :
    (use_or null : Bool)
    → some (bool_datum (not use_or), null) ≡ some (encoded use_or (seen use_or null))
encoded-seen use_or true = refl
encoded-seen use_or false = refl

module _ (use_or strict : Bool) (fn : NullableDatum → Option ℕ) (bitmap : Option (List ℕ)) where
  step_lem :
      (left byte bitmask : ℕ) (s : List ℕ) (null : Bool) (next : NullableDatum × List ℕ)
      → next_item bitmap byte bitmask s ≡ some next
      → item_loop use_or strict fn bitmap (suc left) byte bitmask s null
        ≡ settle use_or null
            (λ n.
              item_loop use_or strict fn bitmap left
                (byte_after byte bitmask)
                (mask_after bitmask)
                next.1
                n)
            (result_of strict fn next.0)
  unfolding item_loop
  step_lem left byte bitmask s null next h = rw (h, item_loop) refl

  end_lem :
      (byte bitmask : ℕ) (null : Bool)
      → item_loop use_or strict fn bitmap 0 byte bitmask [] null
        ≡ some (bool_datum (not use_or), null)
  unfolding item_loop
  end_lem byte bitmask null = refl

  moved :
      (i left : ℕ) (s : List ℕ) (null : Bool)
      → item_loop use_or strict fn bitmap left
          (byte_after (i / 8) (2 ^ (i % 8)))
          (mask_after (2 ^ (i % 8)))
          s
          null
        ≡ item_loop use_or strict fn bitmap left (suc i / 8) (2 ^ (suc i % 8)) s null
  moved i left s null = let (to_byte, to_mask) = next_position i in cc

  pub loop_lem :
      (i : ℕ) (es : List (Option ℕ)) (null : Bool)
      → Marks bitmap i es
      → item_loop use_or strict fn bitmap (length es) (i / 8) (2 ^ (i % 8)) (somes es) null
        ≡ some (
            encoded use_or
              (kleene use_or (seen use_or null) (over_all use_or (results strict fn es))))
  unfolding over_all
  loop_lem i [] null m =
      end_lem (i / 8) (2 ^ (i % 8)) null
      ∙ encoded-seen use_or null
      ∙ ap (λ (r : Option Bool). some (encoded use_or r)) (sym (seen-end use_or null))
  loop_lem i (e ∷ es) null m =
      step_lem (length es) (i / 8) (2 ^ (i % 8)) (somes (e ∷ es)) null (item e, somes es)
        (fetched bitmap i e es m)
      ∙ settle_lem use_or null _ (result_of strict fn (item e))
          (over_all use_or (results strict fn es))
          (λ n. moved i (length es) (somes es) n ∙ loop_lem (suc i) es n (later bitmap i e es m))
