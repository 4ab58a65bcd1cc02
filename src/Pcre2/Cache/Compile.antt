-- ===== src/Pcre2/Cache/Compile.antt =====
-- `pg_jitter_pcre2_compile` on the cache, and the runs of a backend: compilations, and the release of
-- records by JIT contexts in any order.
use pg_jitter.Prelude.{
  ℕ, zero, suc, ◌+◌, ◌%◌, ◌^◌, Bool, true, false, not, ◌&&◌, ◌||◌, Option, none, some, List, [],
  ◌∷◌, length, ltb, ◌==◌, if◌then◌else◌,
}
use pg_jitter.Like.Pattern.{Bytes}
use pg_jitter.Like.Fast.{bytes_eq}
use pg_jitter.Pcre2.Cache.Defs.{
  Pcre2CacheEntry, State, Outcome, finished, thrown, fault, write, pcre2_cache_size, slot_at,
  outside, holds, empty_slot, best_slots, dead, chosen, pg_jitter_pcre2_choose_slot,
  pg_jitter_pcre2_evict_slot, pg_jitter_pcre2_pin_entry, pg_jitter_pcre2_unpin_entry,
  pg_jitter_pcre2_publish_and_pin_entry,
}

abbrev pub pcre2_max_pattern_bytes : ℕ
pcre2_max_pattern_bytes = 65536

-- Which of the allocations and of the calls of PCRE2 succeed.
pub record Resources : Type 0 where
  pub entry_room : Bool
  pub code : Bool
  pub match_data : Bool
  pub match_context : Bool
  pub record_room : Bool

pub data Search : Type 0 where
  hit : ℕ → Pcre2CacheEntry → Search
  miss dead_entry : Search

unfoldable pub find_entry : ℕ → ℕ → Bytes → ℕ → State → Search
find_entry zero i regex flags s = miss
find_entry (suc left) i regex flags s = elim (slot_at i s) [
  | outside ↦ dead_entry
  | holds none ↦ find_entry left (i + 1) regex flags s
  | holds (some a) ↦ elim (s.heap a) [
    | none ↦ dead_entry
    | some e ↦ elim (e.flags == flags && bytes_eq e.pattern_text regex) [
      | true ↦ hit a e
      | false ↦ find_entry left (i + 1) regex flags s
    ]
  ]
]

-- What follows the pinning: the entry is returned.
abbrev pub returning : ℕ → Outcome (Unit {0}) → Outcome (Option ℕ)
returning a (finished u s) = finished (some a) s
returning a (thrown s) = thrown s
returning a fault = fault

unfoldable pub reuse_entry : Bool → ℕ → Pcre2CacheEntry → State → Outcome (Option ℕ)
reuse_entry room a e s =
    let stamp = (s.lru_clock + 1) % 2 ^ 64 in
    returning a (
      pg_jitter_pcre2_pin_entry room a
        (write a (some (record e { lru_counter = stamp })) (record s { lru_clock = stamp })))

-- The new entry, at an address that was not used before.
unfoldable pub publish_new : Resources → Bytes → ℕ → ℕ → State → Outcome (Option ℕ)
publish_new res regex flags slot s = elim res.match_context [
  | false ↦ finished none s
  | true ↦
      let entry : Pcre2CacheEntry = record {
        pattern_text = regex;
        flags = flags;
        refcount = 0;
        in_cache = false;
        lru_counter = 0;
      } in
      returning s.fresh (
        pg_jitter_pcre2_publish_and_pin_entry res.record_room slot s.fresh entry
          (record s { fresh = s.fresh + 1 }))
]

unfoldable pub evict_and_publish : Resources → Bytes → ℕ → ℕ → State → Outcome (Option ℕ)
evict_and_publish res regex flags slot s = elim (pg_jitter_pcre2_evict_slot slot s) [
  | fault ↦ fault
  | thrown s' ↦ thrown s'
  | finished u s' ↦ publish_new res regex flags slot s'
]

unfoldable pub add_new : Resources → Bytes → ℕ → State → Outcome (Option ℕ)
add_new res regex flags s = elim (res.entry_room && res.code && res.match_data) [
  | false ↦ finished none s
  | true ↦ elim (pg_jitter_pcre2_choose_slot s) [
    | dead ↦ fault
    | empty_slot i ↦ evict_and_publish res regex flags i s
    | best_slots unpinned pinned ↦ elim (chosen (best_slots unpinned pinned)) [
      | none ↦ finished none s
      | some i ↦ evict_and_publish res regex flags i s
    ]
  ]
]

-- What follows the search of the cache.
unfoldable pub compile_found : Resources → Bytes → ℕ → State → Search → Outcome (Option ℕ)
compile_found res regex flags s dead_entry = fault
compile_found res regex flags s (hit a e) = reuse_entry res.record_room a e s
compile_found res regex flags s miss = add_new res regex flags s

unfoldable pub compile_regex : Resources → Bytes → ℕ → State → Outcome (Option ℕ)
compile_regex res regex flags s =
    if ltb pcre2_max_pattern_bytes (length regex)
    then finished none s
    else compile_found res regex flags s (find_entry pcre2_cache_size 0 regex flags s)

-- `convert` is the conversion to a regular expression, for LIKE patterns `like_to_regex`; `eligible` is
-- the answer of `pg_jitter_pcre2_is_eligible`. The context is not NULL. The counters of calls are left out.
unfoldable pub pg_jitter_pcre2_compile :
    Resources → Bool → (Bytes → Option Bytes) → Bytes → ℕ → State → Outcome (Option ℕ)
pg_jitter_pcre2_compile res eligible convert pattern_text flags s =
    elim (not eligible || ltb pcre2_max_pattern_bytes (length pattern_text)) [
      | true ↦ finished none s
      | false ↦ elim (convert pattern_text) [
        | none ↦ finished none s
        | some regex ↦ compile_regex res regex flags s
      ]
    ]

-- The first record for the address is taken out.
abbrev pub remove : ℕ → List ℕ → List ℕ
remove a [] = []
remove a (b ∷ pins) = if b == a then pins else b ∷ remove a pins

abbrev pub is_pinned : ℕ → List ℕ → Bool
is_pinned a [] = false
is_pinned a (b ∷ pins) = b == a || is_pinned a pins

-- A JIT context frees a record that it registered; there is none to free for another address.
unfoldable pub release_pin : ℕ → State → Outcome (Unit {0})
release_pin a s = elim (is_pinned a s.pins) [
  | false ↦ finished tt s
  | true ↦ pg_jitter_pcre2_unpin_entry a (record s { pins = remove a s.pins })
]

pub data Event : Type 0 where
  compile : Resources → Bool → (Bytes → Option Bytes) → Bytes → ℕ → Event
  release : ℕ → Event

-- An error ends the statement, and the backend goes on.
unfoldable pub step : Event → State → Option State
step (compile res eligible convert pattern_text flags) s =
    elim (pg_jitter_pcre2_compile res eligible convert pattern_text flags s) [
      | finished r s' ↦ some s'
      | thrown s' ↦ some s'
      | fault ↦ none
    ]
step (release a) s = elim (release_pin a s) [
  | finished r s' ↦ some s'
  | thrown s' ↦ some s'
  | fault ↦ none
]

unfoldable pub run : List Event → State → Option State
run [] s = some s
run (e ∷ events) s = elim (step e s) [ none ↦ none | some s' ↦ run events s' ]

abbrev pub initial : State
initial = record { heap = λ a. none; fresh = 1; cache = λ i. none; lru_clock = 0; pins = [] }
