-- ===== src/Pcre2/Cache/Valid.antt =====
-- The invariant of the cache: reference counts are the pins, the flag says where an entry stands, and an
-- entry that nothing holds is gone.
use mathlib.Core.Path.{fun_ext}
use native.Mathlib.Decide.{ℕ_discrete}
use pg_jitter.Prelude.{
  ℕ, ◌+◌, ◌≤◌, ◌<◌, ◌≡◌, ◌≢◌, ◌↔◌, ◌∙◌, sym, refl, Bool, true, false, Option, none, some, List, [],
  ◌∷◌, length, ◌==◌, if◌then◌else◌, arith,
}
use pg_jitter.Pcre2.Cache.Defs.{Pcre2CacheEntry, State, update}

-- How many of the records are for the address.
abbrev pub count : ℕ → List ℕ → ℕ
count a [] = 0
count a (b ∷ pins) = (if b == a then 1 else 0) + count a pins

abbrev pub HasSlot : (ℕ → Option ℕ) → ℕ → Type 0
HasSlot cache a = (i : ℕ) × (cache i ≡ some a)

-- A dead address has no record and no slot. A live entry counts its records, its flag says whether it
-- has a slot, and without a slot it has a record.
abbrev pub IsSound : (ℕ → Option ℕ) → List ℕ → ℕ → ℕ → Option Pcre2CacheEntry → Type 0
IsSound cache pins fresh a none = (count a pins ≡ 0) × (HasSlot cache a → ⊥)
IsSound cache pins fresh a (some e) =
    (e.refcount ≡ count a pins)
    × ((e.in_cache ≡ true) ↔ HasSlot cache a)
    × (e.in_cache ≡ false → 0 < e.refcount)
    × (a < fresh)

pub record Valid (s : State) : Type 0 where
  pub unique : (i j a : ℕ) → s.cache i ≡ some a → s.cache j ≡ some a → i ≡ j
  pub sound : (a : ℕ) → IsSound s.cache s.pins s.fresh a (s.heap a)

pub update_self {ℓ} : {A : Type ℓ} (i : ℕ) (v : A) (f : ℕ → A) → update i v f i ≡ v
update_self i v f = let same : (i == i) ≡ true = ground arith in rw same

pub update_ne {ℓ} : {A : Type ℓ} (i j : ℕ) (v : A) (f : ℕ → A) → j ≢ i → update i v f j ≡ f j
update_ne i j v f h = let other : (j == i) ≡ false = ground arith in rw other

pub update_same {ℓ} : {A : Type ℓ} (i : ℕ) (v : A) (f : ℕ → A) → f i ≡ v → update i v f ≡ f
update_same i v f h = fun_ext (λ j. elim (ℕ_discrete j i) [
  | yes e ↦ rw e (update_self i v f ∙ sym h)
  | no ne ↦ update_ne i j v f ne
])

same_choice {ℓ} :
    {A : Type ℓ} (b : Bool) (v w x : A)
    → (if b then v else (if b then w else x)) ≡ (if b then v else x)
same_choice true v w x = refl
same_choice false v w x = refl

pub update_twice {ℓ} :
    {A : Type ℓ} (i : ℕ) (v w : A) (f : ℕ → A) → update i v (update i w f) ≡ update i v f
update_twice i v w f = fun_ext (λ j. same_choice (j == i) v w (f j))

-- What an entry depends on.
pub Sound-transfer :
    (c c' : ℕ → Option ℕ) (p p' : List ℕ) (f f' b : ℕ) (v : Option Pcre2CacheEntry)
    → count b p' ≡ count b p
    → (HasSlot c b ↔ HasSlot c' b)
    → f ≤ f'
    → IsSound c p f b v
    → IsSound c' p' f' b v
Sound-transfer c c' p p' f f' b none same slots le (n, h) = (same ∙ n, λ m. h (slots.1 m))
Sound-transfer c c' p p' f f' b (some e) same slots le (n, h, o, y) =
    (n ∙ sym same, (λ t. slots.0 (h.0 t), λ m. h.1 (slots.1 m)), o, omega arith)

-- A live entry behind a slot, and behind a record.
pub slot-live :
    (s : State) (i a : ℕ)
    → Valid s
    → s.cache i ≡ some a
    → (e : Pcre2CacheEntry) × (s.heap a ≡ some e) × (e.in_cache ≡ true)
slot-live s i a v h = go (s.heap a) refl (v.sound a)
  where
    go :
        (r : Option Pcre2CacheEntry)
        → s.heap a ≡ r
        → IsSound s.cache s.pins s.fresh a r
        → (e : Pcre2CacheEntry) × (s.heap a ≡ some e) × (e.in_cache ≡ true)
    go none e (n, no_slot) = absurd (no_slot (i, h))
    go (some e) eq (n, flag, o, y) = (e, eq, flag.1 (i, h))

pub pin-live :
    (s : State) (a : ℕ) → Valid s → 0 < count a s.pins → (e : Pcre2CacheEntry) × (s.heap a ≡ some e)
pin-live s a v h = go (s.heap a) refl (v.sound a)
  where
    go :
        (r : Option Pcre2CacheEntry)
        → s.heap a ≡ r
        → IsSound s.cache s.pins s.fresh a r
        → (e : Pcre2CacheEntry) × (s.heap a ≡ some e)
    go none e (n, no_slot) = absurd (omega arith)
    go (some e) eq (n, flag, o, y) = (e, eq)

pub count_le : (a : ℕ) (pins : List ℕ) → count a pins ≤ length pins
count_le a [] = omega arith
count_le a (b ∷ pins) = ground (arith, count_le a pins)

-- What validity says of a live entry.
pub live-Sound :
    (s : State) (a : ℕ) (e : Pcre2CacheEntry)
    → Valid s
    → s.heap a ≡ some e
    → IsSound s.cache s.pins s.fresh a (some e)
live-Sound s a e v h = rw h at (v.sound a)

-- One write to the heap where the slots stay.
pub Valid-write :
    (s : State) (a : ℕ) (v' : Option Pcre2CacheEntry) (pins' : List ℕ)
    → Valid s
    → ((b : ℕ) → b ≢ a → count b pins' ≡ count b s.pins)
    → IsSound s.cache pins' s.fresh a v'
    → Valid (record s { heap = update a v' s.heap; pins = pins' })
Valid-write s a v' pins' v others here = record {
  unique = v.unique;
  sound = λ b. elim (ℕ_discrete b a) [
    | yes same ↦ rw same (rw (update_self a v' s.heap) here)
    | no differs ↦ rw (update_ne a b v' s.heap differs) (
        Sound-transfer _ _ _ _ _ _ b (s.heap b) (others b differs) (λ m. m, λ m. m) (omega arith)
          (v.sound b))
  ];
}
