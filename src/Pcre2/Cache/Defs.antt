-- ===== src/Pcre2/Cache/Defs.antt =====
-- The operations on the cache of src/pg_jitter_pcre2.c. The heap maps addresses to live entries. A use
-- of a dead entry, of a slot outside the array, an overflow and a failed assertion are faults; an error of an allocation is a `thrown` outcome.
use pg_jitter.Prelude.{
  ℕ, zero, suc, ◌+◌, ◌-◌, ◌%◌, ◌^◌, Bool, true, false, not, ◌&&◌, Option, none, some, List, ◌∷◌,
  ltb, ◌==◌, if◌then◌else◌,
}
use pg_jitter.Machine.{half32}
use pg_jitter.Like.Pattern.{Bytes}

-- The parts of an entry that PCRE2 makes are left out: they live and die with the entry.
pub record Pcre2CacheEntry : Type 0 where
  pub pattern_text : Bytes
  pub flags : ℕ
  pub refcount : ℕ
  pub in_cache : Bool
  pub lru_counter : ℕ

-- `pins` holds the address of each record that a JIT context registered for an entry.
pub record State : Type 0 where
  pub heap : ℕ → Option Pcre2CacheEntry
  pub fresh : ℕ
  pub cache : ℕ → Option ℕ
  pub lru_clock : ℕ
  pub pins : List ℕ

pub data Outcome {ℓ} (A : Type ℓ) : Type ℓ where
  finished : A → State → Outcome A
  thrown : State → Outcome A
  fault : Outcome A

abbrev pub pcre2_cache_size : ℕ
pcre2_cache_size = 64

abbrev pub update {ℓ} : {A : Type ℓ} → ℕ → A → (ℕ → A) → ℕ → A
update i v f j = if j == i then v else f j

abbrev pub write : ℕ → Option Pcre2CacheEntry → State → State
write a e s = record s { heap = update a e s.heap }

abbrev pub set_slot : ℕ → Option ℕ → State → State
set_slot i a s = record s { cache = update i a s.cache }

-- A read of pcre2_cache, which has 64 slots.
pub data Slot : Type 0 where
  outside : Slot
  holds : Option ℕ → Slot

abbrev pub slot_at : ℕ → State → Slot
slot_at i s = if ltb i pcre2_cache_size then holds (s.cache i) else outside

unfoldable pub pg_jitter_pcre2_free_entry : ℕ → State → Outcome (Unit {0})
pg_jitter_pcre2_free_entry a s = elim (s.heap a) [
  | none ↦ fault
  | some e ↦ elim (e.refcount == 0 && not e.in_cache) [
    | true ↦ finished tt (write a none s)
    | false ↦ fault
  ]
]

-- The registered free function; the caller has taken the record out of `pins`.
unfoldable pub pg_jitter_pcre2_unpin_entry : ℕ → State → Outcome (Unit {0})
pg_jitter_pcre2_unpin_entry a s = elim (s.heap a) [
  | none ↦ fault
  | some e ↦ elim (e.refcount == 0) [
    | true ↦ fault
    | false ↦
        let s' = write a (some (record e { refcount = e.refcount - 1 })) s in
        elim (e.refcount - 1 == 0 && not e.in_cache) [
          | true ↦ pg_jitter_pcre2_free_entry a s'
          | false ↦ finished tt s'
        ]
  ]
]

-- `refcount` is an int, and a count past its range is a fault. `room` says whether the allocation of the context's record succeeds. The context is not NULL.
unfoldable pub pg_jitter_pcre2_pin_entry : Bool → ℕ → State → Outcome (Unit {0})
pg_jitter_pcre2_pin_entry false a s = thrown s
pg_jitter_pcre2_pin_entry true a s = elim (s.heap a) [
  | none ↦ fault
  | some e ↦ elim (ltb (e.refcount + 1) half32) [
    | false ↦ fault
    | true ↦
        finished tt
          (record (write a (some (record e { refcount = e.refcount + 1 })) s) { pins = a ∷ s.pins })
  ]
]

abbrev pub is_address : Option ℕ → ℕ → Bool
is_address none a = false
is_address (some b) a = b == a

-- The handler of an error in `publish_and_pin`: the slot is cleared if it still holds the entry.
unfoldable pub withdraw : ℕ → ℕ → Pcre2CacheEntry → State → Outcome (Unit {0})
withdraw slot a e s =
    let cleared = if is_address (s.cache slot) a then set_slot slot none s else s in
    elim (pg_jitter_pcre2_free_entry a (write a (some (record e { in_cache = false })) cleared)) [
      | finished u s' ↦ thrown s'
      | thrown s' ↦ thrown s'
      | fault ↦ fault
    ]

unfoldable pub pg_jitter_pcre2_publish_and_pin_entry :
    Bool → ℕ → ℕ → Pcre2CacheEntry → State → Outcome (Unit {0})
pg_jitter_pcre2_publish_and_pin_entry room slot a e s =
    let stamp = (s.lru_clock + 1) % 2 ^ 64 in
    let e' = record e { in_cache = true; lru_counter = stamp } in
    let s' = set_slot slot (some a) (write a (some e') (record s { lru_clock = stamp })) in
    elim (ltb slot pcre2_cache_size) [
      | false ↦ fault
      | true ↦ elim (pg_jitter_pcre2_pin_entry room a s') [
        | finished u s'' ↦ finished u s''
        | thrown s'' ↦ withdraw slot a e' s''
        | fault ↦ fault
      ]
    ]

-- A slot that may not have been found yet, with the recency of its entry.
pub record Oldest : Type 0 where
  pub slot : Option ℕ
  pub oldest : ℕ

abbrev pub older : Oldest → ℕ → ℕ → Oldest
older best i lru = elim best.slot [
  | none ↦ record { slot = some i; oldest = lru }
  | some j ↦ if ltb lru best.oldest then record { slot = some i; oldest = lru } else best
]

-- What the loop returns: an empty slot at once, else the two best slots. A dead entry is a fault.
pub data Choice : Type 0 where
  empty_slot : ℕ → Choice
  best_slots : Oldest → Oldest → Choice
  dead : Choice

unfoldable pub choose_loop : ℕ → ℕ → Oldest → Oldest → State → Choice
choose_loop zero i unpinned pinned s = best_slots unpinned pinned
choose_loop (suc left) i unpinned pinned s = elim (slot_at i s) [
  | outside ↦ dead
  | holds none ↦ empty_slot i
  | holds (some a) ↦ elim (s.heap a) [
    | none ↦ dead
    | some e ↦ elim (e.refcount == 0) [
      | true ↦ choose_loop left (i + 1) (older unpinned i e.lru_counter) pinned s
      | false ↦ choose_loop left (i + 1) unpinned (older pinned i e.lru_counter) s
    ]
  ]
]

abbrev pub nothing_yet : Oldest
nothing_yet = record { slot = none; oldest = 0 }

abbrev pub chosen : Choice → Option ℕ
chosen (empty_slot i) = some i
chosen (best_slots unpinned pinned) = elim unpinned.slot [ some i ↦ some i | none ↦ pinned.slot ]
chosen dead = none

unfoldable pub pg_jitter_pcre2_choose_slot : State → Choice
pg_jitter_pcre2_choose_slot s = choose_loop pcre2_cache_size 0 nothing_yet nothing_yet s

unfoldable pub pg_jitter_pcre2_evict_slot : ℕ → State → Outcome (Unit {0})
pg_jitter_pcre2_evict_slot slot s = elim (slot_at slot s) [
  | outside ↦ fault
  | holds none ↦ finished tt s
  | holds (some a) ↦ elim (s.heap a) [
    | none ↦ fault
    | some e ↦
        let s' = set_slot slot none (write a (some (record e { in_cache = false })) s) in
        elim (e.refcount == 0) [ true ↦ pg_jitter_pcre2_free_entry a s' | false ↦ finished tt s' ]
  ]
]
