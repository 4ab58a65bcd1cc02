-- ===== src/Pcre2/Cache/Kept.antt =====
-- The operations on a valid cache end without a fault and leave it valid.
use pg_jitter.Prelude.{
  ℕ, ◌+◌, ◌-◌, ◌≡◌, ◌≢◌, ◌∙◌, refl, true, false, not, ◌&&◌, Option, none, some, List, [], ◌∷◌,
  length, ltb, ◌==◌, ◌<◌, ◌≤◌, arith, Bool-cases, inl, inr,
}
use pg_jitter.Machine.{half32}
use pg_jitter.Pcre2.Cache.Defs.{
  Pcre2CacheEntry, State, finished, update, write, pg_jitter_pcre2_free_entry,
  pg_jitter_pcre2_unpin_entry, pg_jitter_pcre2_pin_entry,
}
use pg_jitter.Pcre2.Cache.Valid.{
  count, count_le, Valid, update_self, update_twice, pin-live, live-Sound, Valid-write,
}
use pg_jitter.Pcre2.Cache.Compile.{remove, is_pinned, release_pin}

pub pin_lem :
    (s : State) (a : ℕ) (e : Pcre2CacheEntry)
    → Valid s
    → s.heap a ≡ some e
    → length s.pins + 1 < half32
    → (t : State) × (pg_jitter_pcre2_pin_entry true a s ≡ finished tt t)
      × Valid t
      × (t.heap a ≡ some (record e { refcount = e.refcount + 1 }))
      × (t.pins ≡ a ∷ s.pins)
unfolding pg_jitter_pcre2_pin_entry
pin_lem s a e v live few =
    let (n, flag, o, y) = live-Sound s a e v live in
    let fits : ltb (e.refcount + 1) half32 ≡ true = ground (arith, n, count_le a s.pins) in
    let e' : Pcre2CacheEntry = record e { refcount = e.refcount + 1 } in
    (
      record (write a (some e') s) { pins = a ∷ s.pins },
      rw (live, pg_jitter_pcre2_pin_entry, fits),
      Valid-write s a (some e') (a ∷ s.pins) v (λ b differs. ground arith)
          (ground (arith, n), flag, λ f. omega arith, y),
      update_self a (some e') s.heap,
      refl,
    )

-- A change of the recency.
pub touch-Valid :
    (s : State) (a : ℕ) (e : Pcre2CacheEntry) (stamp : ℕ)
    → Valid s
    → s.heap a ≡ some e
    → Valid (write a (some (record e { lru_counter = stamp })) (record s { lru_clock = stamp }))
touch-Valid s a e stamp v live =
    let kept =
      Valid-write s a (some (record e { lru_counter = stamp })) s.pins v (λ b differs. refl)
        (live-Sound s a e v live) in
    record { unique = kept.unique; sound = kept.sound }

count-remove :
    (a : ℕ) (pins : List ℕ) → is_pinned a pins ≡ true → count a pins ≡ count a (remove a pins) + 1
count-remove a [] h = cc
count-remove a (b ∷ pins) h = ground (arith, count-remove a pins)

count-remove_other : (a b : ℕ) (pins : List ℕ) → b ≢ a → count b (remove a pins) ≡ count b pins
count-remove_other a b [] differs = refl
count-remove_other a b (c ∷ pins) differs = ground (arith, count-remove_other a b pins)

length-remove : (a : ℕ) (pins : List ℕ) → length (remove a pins) ≤ length pins
length-remove a [] = omega arith
length-remove a (b ∷ pins) = ground (arith, length-remove a pins)

module _ (s : State) (a : ℕ) (e : Pcre2CacheEntry) (v : Valid s) (live : s.heap a ≡ some e)
    (pinned : is_pinned a s.pins ≡ true) where
  abbrev released : Option Pcre2CacheEntry → State
  released left = record s { heap = update a left s.heap; pins = remove a s.pins }

  refs : e.refcount ≡ count a (remove a s.pins) + 1
  refs = (live-Sound s a e v live).0 ∙ count-remove a s.pins pinned

  others_counted : (b : ℕ) → b ≢ a → count b (remove a s.pins) ≡ count b s.pins
  others_counted b differs = count-remove_other a b s.pins differs

  release_last :
      (e.refcount - 1 == 0 && not e.in_cache) ≡ true
      → (release_pin a s ≡ finished tt (released none)) × Valid (released none)
  unfolding release_pin pg_jitter_pcre2_unpin_entry pg_jitter_pcre2_free_entry
  release_last last =
      let some_refs : (e.refcount == 0) ≡ false = ground (arith, refs) in
      let off : e.in_cache ≡ false = ground arith in
      let flag = (live-Sound s a e v live).1 in
      let there = update_self a (some (record e { refcount = e.refcount - 1 })) s.heap in
      let over = update_twice a none (some (record e { refcount = e.refcount - 1 })) s.heap in
      (
        rw (
          pinned, release_pin, pg_jitter_pcre2_unpin_entry, live, some_refs, last,
          pg_jitter_pcre2_free_entry, there, last, over,
        ),
        Valid-write s a none (remove a s.pins) v others_counted
            (ground (arith, refs), λ m. absurd (cc (flag.1 m, off))),
      )

  release_more :
      (e.refcount - 1 == 0 && not e.in_cache) ≡ false
      → (release_pin a s ≡ finished tt (released (some (record e { refcount = e.refcount - 1 }))))
        × Valid (released (some (record e { refcount = e.refcount - 1 })))
  unfolding release_pin pg_jitter_pcre2_unpin_entry
  release_more more =
      let some_refs : (e.refcount == 0) ≡ false = ground (arith, refs) in
      let (n, flag, o, y) = live-Sound s a e v live in
      (
        rw (pinned, release_pin, pg_jitter_pcre2_unpin_entry, live, some_refs, more),
        Valid-write s a (some (record e { refcount = e.refcount - 1 })) (remove a s.pins) v
            others_counted (omega (arith, refs), flag, λ f. ground (arith, refs), y),
      )

-- A context's record can be freed: its entry is alive, and goes with its last record if it has no slot.
pub release_lem :
    (s : State) (a : ℕ)
    → Valid s
    → (t : State) × (release_pin a s ≡ finished tt t) × Valid t × (length t.pins ≤ length s.pins)
unfolding release_pin
release_lem s a v = elim (Bool-cases (is_pinned a s.pins)) [
  | inr absent ↦ (s, rw (absent, release_pin), v, omega arith)
  | inl pinned ↦
      let (e, live) = pin-live s a v (omega (arith, count-remove a s.pins pinned)) in
      elim (Bool-cases (e.refcount - 1 == 0 && not e.in_cache)) [
        | inl last ↦
            let (ran, kept) = release_last s a e v live pinned last in
            (released s a e v live pinned none, ran, kept, length-remove a s.pins)
        | inr more ↦
            let (ran, kept) = release_more s a e v live pinned more in
            (
              released s a e v live pinned (some (record e { refcount = e.refcount - 1 })),
              ran,
              kept,
              length-remove a s.pins,
            )
      ]
]
