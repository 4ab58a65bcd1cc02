-- ===== src/Pcre2/Cache/Replaced.antt =====
-- The replacement of a slot: the choice reads live entries, the eviction clears the slot, and the
-- publication fills it or leaves no trace.
use pg_jitter.Prelude.{
  ℕ, ◌+◌, ◌%◌, ◌^◌, ◌≡◌, ◌<◌, ltb, ◌∙◌, refl, true, false, Option, none, some, ◌∷◌, ◌==◌, arith,
  Bool-cases, Option-cases, inl, inr,
}
use pg_jitter.Machine.{half32}
use pg_jitter.Pcre2.Cache.Defs.{
  Pcre2CacheEntry, State, finished, thrown, update, pg_jitter_pcre2_free_entry, withdraw,
  pg_jitter_pcre2_pin_entry, pg_jitter_pcre2_publish_and_pin_entry, pg_jitter_pcre2_evict_slot,
  pcre2_cache_size,
}
use pg_jitter.Pcre2.Cache.Valid.{
  Valid, update_self, update_ne, update_twice, update_same, slot-live, Sound-transfer,
}
use pg_jitter.Pcre2.Cache.Slots.{Valid-clear, Valid-fill, Evicted, unborn_heap}

module _ (s : State) (slot a : ℕ) (e : Pcre2CacheEntry) (v : Valid s) (held : s.cache slot ≡ some a)
    (live : s.heap a ≡ some e) (inside : slot < pcre2_cache_size) where
  in_cache_lem : ltb slot pcre2_cache_size ≡ true
  in_cache_lem = ground arith

  abbrev evicted : Option Pcre2CacheEntry → State
  evicted left = record s { heap = update a left s.heap; cache = update slot none s.cache }

  evicted-Valid : (left : Option Pcre2CacheEntry) → Evicted e left → Valid (evicted left)
  evicted-Valid left kind =
      Valid-clear s (evicted left) slot a e left v held live (update_self slot none s.cache)
        (λ j ne. update_ne slot j none s.cache ne) (λ b ne. update_ne a b left s.heap ne)
        (update_self a left s.heap) kind refl refl

  evict_unpinned :
      (e.refcount == 0) ≡ true → pg_jitter_pcre2_evict_slot slot s ≡ finished tt (evicted none)
  unfolding pg_jitter_pcre2_evict_slot pg_jitter_pcre2_free_entry
  evict_unpinned z =
      let there = update_self a (some (record e { in_cache = false })) s.heap in
      let over = update_twice a none (some (record e { in_cache = false })) s.heap in
      rw (
        in_cache_lem, held, pg_jitter_pcre2_evict_slot, live, z, pg_jitter_pcre2_free_entry, there,
        z, over,
      )

  evict_pinned :
      (e.refcount == 0) ≡ false
      → pg_jitter_pcre2_evict_slot slot s
        ≡ finished tt (evicted (some (record e { in_cache = false })))
  unfolding pg_jitter_pcre2_evict_slot
  evict_pinned nz = rw (in_cache_lem, held, pg_jitter_pcre2_evict_slot, live, nz)

-- Eviction clears the slot.
pub evict_lem :
    (s : State) (slot : ℕ)
    → Valid s
    → slot < pcre2_cache_size
    → (t : State) × (pg_jitter_pcre2_evict_slot slot s ≡ finished tt t)
      × Valid t
      × (t.pins ≡ s.pins)
      × (t.cache slot ≡ none)
unfolding pg_jitter_pcre2_evict_slot
evict_lem s slot v inside = elim (Option-cases (s.cache slot)) [
  | inl free ↦
      let first : ltb slot pcre2_cache_size ≡ true = ground arith in
      (s, rw (first, free, pg_jitter_pcre2_evict_slot), v, refl, free)
  | inr (a, held) ↦
      let (e, live, on) = slot-live s slot a v held in
      elim (Bool-cases (e.refcount == 0)) [
        | inl z ↦ (
          evicted s slot a e v held live inside none,
          evict_unpinned s slot a e v held live inside z,
          evicted-Valid s slot a e v held live inside none (ground arith),
          refl,
          update_self slot none s.cache,
        )
        | inr nz ↦ (
          evicted s slot a e v held live inside (some (record e { in_cache = false })),
          evict_pinned s slot a e v held live inside nz,
          evicted-Valid s slot a e v held live inside (some (record e { in_cache = false }))
              (refl, refl, ground arith),
          refl,
          update_self slot none s.cache,
        )
      ]
]

module _ (s : State) (slot : ℕ) (e : Pcre2CacheEntry) (v : Valid s) (free : s.cache slot ≡ none)
    (inside : slot < pcre2_cache_size) where
  in_array : ltb slot pcre2_cache_size ≡ true
  in_array = ground arith

  abbrev pub stamp : ℕ
  stamp = (s.lru_clock + 1) % 2 ^ 64

  abbrev pub published : ℕ → Pcre2CacheEntry
  published refcount = record e { refcount = refcount; in_cache = true; lru_counter = stamp }

  abbrev pub filled : State
  filled = record {
    heap = update s.fresh (some (published 1)) s.heap;
    fresh = s.fresh + 1;
    cache = update slot (some s.fresh) s.cache;
    lru_clock = stamp;
    pins = s.fresh ∷ s.pins;
  }

  pub filled-Valid : Valid filled
  filled-Valid =
      Valid-fill s filled slot (published 1) v free (update_self slot (some s.fresh) s.cache)
        (λ j ne. update_ne slot j (some s.fresh) s.cache ne)
        (λ b ne. update_ne s.fresh b (some (published 1)) s.heap ne)
        (update_self s.fresh (some (published 1)) s.heap) refl refl refl refl

  pub publish_lem :
      e.refcount ≡ 0
      → pg_jitter_pcre2_publish_and_pin_entry true slot s.fresh e (record s { fresh = s.fresh + 1 })
        ≡ finished tt filled
  unfolding pg_jitter_pcre2_publish_and_pin_entry pg_jitter_pcre2_pin_entry
  publish_lem z =
      let one : e.refcount + 1 ≡ 1 = omega arith in
      let there =
        update_self s.fresh (some (record e { in_cache = true; lru_counter = stamp })) s.heap in
      let over =
        update_twice s.fresh (some (published 1))
          (some (record e { in_cache = true; lru_counter = stamp })) s.heap in
      let fits : ltb (e.refcount + 1) half32 ≡ true = ground (arith, z) in
      rw (
        in_array, pg_jitter_pcre2_publish_and_pin_entry, pg_jitter_pcre2_pin_entry, there, fits,
        one, over,
      )

  -- What an error of the registration leaves: the heap and the slots as they were.
  abbrev pub undone : State
  undone = record s { fresh = s.fresh + 1; lru_clock = stamp }

  pub undone-Valid : Valid undone
  undone-Valid = record {
    unique = v.unique;
    sound = λ b.
        Sound-transfer s.cache s.cache s.pins s.pins s.fresh (s.fresh + 1) b (s.heap b) refl
          (λ m. m, λ m. m) (omega arith) (v.sound b);
  }

  pub publish_thrown :
      e.refcount ≡ 0
      → pg_jitter_pcre2_publish_and_pin_entry false slot s.fresh e
          (record s { fresh = s.fresh + 1 })
        ≡ thrown undone
  unfolding pg_jitter_pcre2_publish_and_pin_entry pg_jitter_pcre2_pin_entry withdraw
      pg_jitter_pcre2_free_entry
  publish_thrown z =
      let no_refs : (e.refcount == 0) ≡ true = ground arith in
      let slot_there = update_self slot (some s.fresh) s.cache in
      let itself : (s.fresh == s.fresh) ≡ true = ground arith in
      let off : Pcre2CacheEntry = record e { in_cache = false; lru_counter = stamp } in
      let on : Pcre2CacheEntry = record e { in_cache = true; lru_counter = stamp } in
      let there = update_self s.fresh (some off) (update s.fresh (some on) s.heap) in
      let heap_back =
        update_twice s.fresh none (some off) (update s.fresh (some on) s.heap)
        ∙ update_twice s.fresh none (some on) s.heap
        ∙ update_same s.fresh none s.heap (unborn_heap s v) in
      let cache_back =
        update_twice slot none (some s.fresh) s.cache ∙ update_same slot none s.cache free in
      rw (
        in_array, pg_jitter_pcre2_publish_and_pin_entry, pg_jitter_pcre2_pin_entry, withdraw,
        slot_there, itself, pg_jitter_pcre2_free_entry, no_refs, slot_there, itself, heap_back,
        cache_back,
      )
