-- ===== src/Pcre2/Cache/Slots.antt =====
-- Clearing a slot and filling one keep the invariant.
use native.Mathlib.Decide.{ℕ_discrete}
use pg_jitter.Prelude.{
  ℕ, ◌+◌, ◌<◌, ◌≡◌, ◌≢◌, ◌↔◌, ◌∙◌, sym, ap, refl, true, false, Option, none, some, ◌∷◌, ◌==◌, arith,
}
use pg_jitter.Pcre2.Cache.Defs.{Pcre2CacheEntry, State}
use pg_jitter.Pcre2.Cache.Valid.{count, HasSlot, IsSound, Valid, Sound-transfer, live-Sound}

-- A slot that differs in two caches, all others being the same.
abbrev pub OnlySlot : ℕ → (ℕ → Option ℕ) → (ℕ → Option ℕ) → Type 0
OnlySlot slot c c' = (j : ℕ) → j ≢ slot → c' j ≡ c j

module _ (slot a : ℕ) (c c' : ℕ → Option ℕ) (held : c slot ≡ some a) (cleared : c' slot ≡ none)
    (others : OnlySlot slot c c') where
  slots_of_other : (b : ℕ) → b ≢ a → HasSlot c b ↔ HasSlot c' b
  slots_of_other b differs = (
    λ m. (m.0, others m.0 (λ e. differs (held_by m e)) ∙ m.1),
    λ m. (m.0, sym (others m.0 (λ e. absurd (taken m e))) ∙ m.1),
  )
    where
      held_by : (m : HasSlot c b) → m.0 ≡ slot → b ≡ a
      held_by m e = let here : c slot ≡ some b = rw (← e) m.1 in cc

      taken : (m : HasSlot c' b) → m.0 ≡ slot → ⊥
      taken m e = let here : c' slot ≡ some b = rw (← e) m.1 in cc

  no_slot_left : ((i j b : ℕ) → c i ≡ some b → c j ≡ some b → i ≡ j) → HasSlot c' a → ⊥
  no_slot_left unique (i, h) = elim (ℕ_discrete i slot) [
    | yes e ↦ let here : c' slot ≡ some a = rw (← e) h in cc
    | no ne ↦ ne (unique i slot a (sym (others i ne) ∙ h) held)
  ]

  still_unique :
      ((i j b : ℕ) → c i ≡ some b → c j ≡ some b → i ≡ j)
      → (i j b : ℕ) → c' i ≡ some b
      → c' j ≡ some b
      → i ≡ j
  still_unique unique i j b hi hj = elim (ℕ_discrete i slot) [
    | yes e ↦ let here : c' slot ≡ some b = rw (← e) hi in cc
    | no ne ↦ elim (ℕ_discrete j slot) [
      | yes e ↦ let here : c' slot ≡ some b = rw (← e) hj in cc
      | no ne' ↦ unique i j b (sym (others i ne) ∙ hi) (sym (others j ne') ∙ hj)
    ]
  ]

-- What is left of the entry of a slot that is cleared.
abbrev pub Evicted : Pcre2CacheEntry → Option Pcre2CacheEntry → Type 0
Evicted e none = e.refcount ≡ 0
Evicted e (some e') = (e'.refcount ≡ e.refcount) × (e'.in_cache ≡ false) × (0 < e.refcount)

pub Valid-clear :
    (s t : State) (slot a : ℕ) (e : Pcre2CacheEntry) (left : Option Pcre2CacheEntry)
    → Valid s
    → s.cache slot ≡ some a
    → s.heap a ≡ some e
    → t.cache slot ≡ none
    → OnlySlot slot s.cache t.cache
    → ((b : ℕ) → b ≢ a → t.heap b ≡ s.heap b)
    → t.heap a ≡ left
    → Evicted e left
    → t.pins ≡ s.pins
    → t.fresh ≡ s.fresh
    → Valid t
Valid-clear s t slot a e left v held live cleared others rest now kind pins fresh = record {
  unique = still_unique slot a s.cache t.cache held cleared others v.unique;
  sound = λ b. elim (ℕ_discrete b a) [
    | yes same ↦ rw same (rw (now, pins, fresh) (remains left kind))
    | no differs ↦ rw (rest b differs) (
        Sound-transfer s.cache t.cache s.pins t.pins s.fresh t.fresh b (s.heap b)
          (ap (count b) pins) (slots_of_other slot a s.cache t.cache held cleared others b differs)
          (omega (arith, fresh)) (v.sound b))
  ];
}
  where
    remains :
        (left : Option Pcre2CacheEntry) → Evicted e left → IsSound t.cache s.pins s.fresh a left
    remains none zero_refs =
        let (n, flag, o, y) = live-Sound s a e v live in
        (sym n ∙ zero_refs, no_slot_left slot a s.cache t.cache held cleared others v.unique)
    remains (some e') (same, off, refs) =
        let (n, flag, o, y) = live-Sound s a e v live in
        (
          same ∙ n,
          (
            λ on. absurd (cc (on, off)),
            λ m. absurd (no_slot_left slot a s.cache t.cache held cleared others v.unique m),
          ),
          λ f. omega (arith, same),
          y,
        )

module _ (slot a : ℕ) (c c' : ℕ → Option ℕ) (free : c slot ≡ none) (filled : c' slot ≡ some a)
    (others : OnlySlot slot c c') where
  -- An entry that had no slot.
  filled_unique :
      (HasSlot c a → ⊥)
      → ((i j b : ℕ) → c i ≡ some b → c j ≡ some b → i ≡ j)
      → (i j b : ℕ) → c' i ≡ some b
      → c' j ≡ some b
      → i ≡ j
  filled_unique absent unique i j b hi hj = elim (ℕ_discrete i slot) [
    | yes e ↦ elim (ℕ_discrete j slot) [
      | yes e' ↦ e ∙ sym e'
      | no ne ↦
          let here : c' slot ≡ some b = rw (← e) hi in
          let there : c j ≡ some a = sym (others j ne) ∙ hj ∙ cc in absurd (absent (j, there))
    ]
    | no ne ↦ elim (ℕ_discrete j slot) [
      | yes e ↦
          let here : c' slot ≡ some b = rw (← e) hj in
          let there : c i ≡ some a = sym (others i ne) ∙ hi ∙ cc in absurd (absent (i, there))
      | no ne' ↦ unique i j b (sym (others i ne) ∙ hi) (sym (others j ne') ∙ hj)
    ]
  ]

  slots_beside : (b : ℕ) → b ≢ a → HasSlot c b ↔ HasSlot c' b
  slots_beside b differs = (
    λ m. (m.0, others m.0 (λ e. absurd (was_free m e)) ∙ m.1),
    λ m. (m.0, sym (others m.0 (λ e. differs (is_new m e))) ∙ m.1),
  )
    where
      was_free : (m : HasSlot c b) → m.0 ≡ slot → ⊥
      was_free m e = let here : c slot ≡ some b = rw (← e) m.1 in cc

      is_new : (m : HasSlot c' b) → m.0 ≡ slot → b ≡ a
      is_new m e = let here : c' slot ≡ some b = rw (← e) m.1 in cc

-- No entry stands at an address that was not given out.
unborn : (s : State) → Valid s → (count s.fresh s.pins ≡ 0) × (HasSlot s.cache s.fresh → ⊥)
unborn s v = go (s.heap s.fresh) (v.sound s.fresh)
  where
    go :
        (r : Option Pcre2CacheEntry)
        → IsSound s.cache s.pins s.fresh s.fresh r
        → (count s.fresh s.pins ≡ 0) × (HasSlot s.cache s.fresh → ⊥)
    go none h = h
    go (some e) (n, flag, o, y) = absurd (omega arith)

pub unborn_heap : (s : State) → Valid s → s.heap s.fresh ≡ none
unborn_heap s v = go (s.heap s.fresh) (v.sound s.fresh)
  where
    go : (r : Option Pcre2CacheEntry) → IsSound s.cache s.pins s.fresh s.fresh r → r ≡ none
    go none h = refl
    go (some e) (n, flag, o, y) = absurd (omega arith)

pub Valid-fill :
    (s t : State) (slot : ℕ) (e : Pcre2CacheEntry)
    → Valid s
    → s.cache slot ≡ none
    → t.cache slot ≡ some s.fresh
    → OnlySlot slot s.cache t.cache
    → ((b : ℕ) → b ≢ s.fresh → t.heap b ≡ s.heap b)
    → t.heap s.fresh ≡ some e
    → e.refcount ≡ 1
    → e.in_cache ≡ true
    → t.pins ≡ s.fresh ∷ s.pins
    → t.fresh ≡ s.fresh + 1
    → Valid t
Valid-fill s t slot e v free filled others rest now refs on pins fresh =
    let (no_pins, no_slot) = unborn s v in
    record {
      unique = filled_unique slot s.fresh s.cache t.cache free filled others no_slot v.unique;
      sound = λ b. elim (ℕ_discrete b s.fresh) [
        | yes same ↦ rw same (
            rw (now, pins, fresh)
              (
                refs ∙ ground (arith, no_pins),
                (λ f. (slot, filled), λ m. on),
                λ f. absurd (cc (on, f)),
                omega arith,
              ))
        | no differs ↦
            let uncounted : (s.fresh == b) ≡ false = ground arith in
            rw (rest b differs, pins)
              (Sound-transfer s.cache t.cache s.pins (s.fresh ∷ s.pins) s.fresh t.fresh b (s.heap b)
                (rw uncounted (omega arith))
                (slots_beside slot s.fresh s.cache t.cache free filled others b differs)
                (omega (arith, fresh)) (v.sound b))
      ];
    }
