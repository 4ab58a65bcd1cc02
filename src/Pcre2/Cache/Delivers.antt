-- ===== src/Pcre2/Cache/Delivers.antt =====
-- What each way through a compilation returns: nothing, or a pinned entry for the regular expression.
use pg_jitter.Prelude.{
  ℕ, ◌+◌, ◌%◌, ◌^◌, ◌<◌, ◌≤◌, ◌≡◌, ap, refl, Bool, true, false, ◌&&◌, Option, none, some, List, ◌∷◌,
  length, ltb, arith, Bool-cases, Option-cases, inl, inr,
}
use pg_jitter.Like.Pattern.{Bytes}
use pg_jitter.Machine.{half32}
use pg_jitter.Pcre2.Cache.Defs.{
  Pcre2CacheEntry, State, Outcome, finished, thrown, fault, write, pcre2_cache_size, Choice,
  empty_slot, best_slots, dead, chosen, nothing_yet, pg_jitter_pcre2_choose_slot,
  pg_jitter_pcre2_pin_entry,
}
use pg_jitter.Pcre2.Cache.Valid.{count, Valid, update_self}
use pg_jitter.Pcre2.Cache.Kept.{pin_lem, touch-Valid}
use pg_jitter.Pcre2.Cache.Choice.{choose-ne-dead, choose_slot_inside}
use pg_jitter.Pcre2.Cache.Replaced.{
  evict_lem, publish_lem, publish_thrown, filled-Valid, undone-Valid, published,
}
use pg_jitter.Pcre2.Cache.Compile.{
  Resources, Search, hit, miss, dead_entry, returning, reuse_entry, publish_new, evict_and_publish,
  add_new, compile_found, compile_regex, pcre2_max_pattern_bytes,
}
use pg_jitter.Pcre2.Cache.Searched.{Found, find_entry_finds}

-- A live entry for the regular expression that is pinned.
abbrev pub PinnedFor : Bytes → ℕ → ℕ → State → Type 0
PinnedFor regex flags a t =
    (e : Pcre2CacheEntry) × (t.heap a ≡ some e)
    × (e.pattern_text ≡ regex)
    × (e.flags ≡ flags)
    × (0 < count a t.pins)

-- A valid cache with at most one record more.
abbrev pub Kept : State → State → Type 0
Kept s t = Valid t × (length t.pins ≤ length s.pins + 1)

abbrev pub Delivers : State → Bytes → ℕ → Outcome (Option ℕ) → Type 0
Delivers s regex flags (finished none t) = Kept s t
Delivers s regex flags (finished (some a) t) = Kept s t × PinnedFor regex flags a t
Delivers s regex flags (thrown t) = Kept s t
Delivers s regex flags fault = ⊥

counted_once : (a : ℕ) (pins : List ℕ) → 0 < count a (a ∷ pins)
counted_once a pins = ground arith

pin_full : (a : ℕ) (s : State) → pg_jitter_pcre2_pin_entry false a s ≡ thrown s
unfolding pg_jitter_pcre2_pin_entry
pin_full a s = refl

pinned-Delivers :
    (room : Bool) (regex : Bytes) (flags a : ℕ) (e : Pcre2CacheEntry) (s : State)
    → Valid s
    → length s.pins + 1 < half32
    → Found regex flags s (hit a e)
    → Delivers s regex flags (returning a (pg_jitter_pcre2_pin_entry room a s))
pinned-Delivers room regex flags a e s v few (live, same, flagged) = elim (Bool-cases room) [
  | inl enough ↦
      let (t, ran, kept, there, pins) = pin_lem s a e v live few in
      rw (enough, ran)
        (
          (kept, rw pins (omega arith)),
          (
            record e { refcount = e.refcount + 1 },
            there,
            same,
            flagged,
            rw pins (counted_once a s.pins),
          ),
        )
  | inr full ↦ rw (full, pin_full a s) (v, omega arith)
]

reuse-Delivers :
    (room : Bool) (regex : Bytes) (flags a : ℕ) (e : Pcre2CacheEntry) (s : State)
    → Valid s
    → length s.pins + 1 < half32
    → Found regex flags s (hit a e)
    → Delivers s regex flags (reuse_entry room a e s)
unfolding reuse_entry
reuse-Delivers room regex flags a e s v few (live, same, flagged) =
    let stamp = (s.lru_clock + 1) % 2 ^ 64 in
    let touched : Pcre2CacheEntry = record e { lru_counter = stamp } in
    let s' : State = write a (some touched) (record s { lru_clock = stamp }) in
    pinned-Delivers room regex flags a touched s' (touch-Valid s a e stamp v live) few
      (update_self a (some touched) s.heap, same, flagged)

new_entry : Bytes → ℕ → Pcre2CacheEntry
new_entry regex flags = record {
  pattern_text = regex;
  flags = flags;
  refcount = 0;
  in_cache = false;
  lru_counter = 0;
}

publish-Delivers :
    (res : Resources) (regex : Bytes) (flags slot : ℕ) (s : State)
    → Valid s
    → s.cache slot ≡ none
    → slot < pcre2_cache_size
    → Delivers s regex flags (publish_new res regex flags slot s)
unfolding publish_new new_entry
publish-Delivers res regex flags slot s v free inside = elim (Bool-cases res.match_context) [
  | inr failed ↦ rw (failed, publish_new) (v, omega arith)
  | inl made ↦ elim (Bool-cases res.record_room) [
    | inr full ↦
        rw
          (
            made,
            publish_new,
            full,
            publish_thrown s slot (new_entry regex flags) v free inside refl,
          )
          (undone-Valid s slot (new_entry regex flags) v free inside, omega arith)
    | inl room ↦
        rw (made, publish_new, room, publish_lem s slot (new_entry regex flags) v free inside refl)
          (
            (filled-Valid s slot (new_entry regex flags) v free inside, omega arith),
            (
              published s slot (new_entry regex flags) v free inside 1,
              update_self s.fresh (some (published s slot (new_entry regex flags) v free inside 1))
                  s.heap,
              refl,
              refl,
              counted_once s.fresh s.pins,
            ),
          )
  ]
]

Delivers-from :
    (t s : State) (regex : Bytes) (flags : ℕ) (o : Outcome (Option ℕ))
    → length t.pins ≡ length s.pins
    → Delivers t regex flags o
    → Delivers s regex flags o
Delivers-from t s regex flags (finished none u) same (v, le) = (v, omega (arith, same))
Delivers-from t s regex flags (finished (some a) u) same ((v, le), p) =
    ((v, omega (arith, same)), p)
Delivers-from t s regex flags (thrown u) same (v, le) = (v, omega (arith, same))
Delivers-from t s regex flags fault same h = h

replace-Delivers :
    (res : Resources) (regex : Bytes) (flags slot : ℕ) (s : State)
    → Valid s
    → slot < pcre2_cache_size
    → Delivers s regex flags (evict_and_publish res regex flags slot s)
unfolding evict_and_publish
replace-Delivers res regex flags slot s v inside =
    let (t, ran, kept, pins, free) = evict_lem s slot v inside in
    let same : length t.pins ≡ length s.pins = ap (λ xs. length xs) pins in
    rw (ran, evict_and_publish)
      (Delivers-from t s regex flags _ same
        (publish-Delivers res regex flags slot t kept free inside))

chosen-Delivers :
    (res : Resources) (regex : Bytes) (flags : ℕ) (s : State) (c : Choice)
    → Valid s
    → pg_jitter_pcre2_choose_slot s ≡ c
    → (res.entry_room && res.code && res.match_data) ≡ true
    → Delivers s regex flags (add_new res regex flags s)
unfolding add_new pg_jitter_pcre2_choose_slot
chosen-Delivers res regex flags s dead v e enough =
    absurd (choose-ne-dead pcre2_cache_size 0 nothing_yet nothing_yet s v (omega arith) e)
chosen-Delivers res regex flags s (empty_slot i) v e enough =
    rw (enough, add_new, e)
      (replace-Delivers res regex flags i s v (choose_slot_inside s (empty_slot i) i v e refl))
chosen-Delivers res regex flags s (best_slots unpinned pinned) v e enough =
    elim (Option-cases (chosen (best_slots unpinned pinned))) [
      | inl no_slot ↦ rw (enough, add_new, e, no_slot) (v, omega arith)
      | inr (i, slot) ↦
          rw (enough, add_new, e, slot)
            (replace-Delivers res regex flags i s v
              (choose_slot_inside s (best_slots unpinned pinned) i v e slot))
    ]

add-Delivers :
    (res : Resources) (regex : Bytes) (flags : ℕ) (s : State)
    → Valid s
    → Delivers s regex flags (add_new res regex flags s)
unfolding add_new
add-Delivers res regex flags s v =
    elim (Bool-cases (res.entry_room && res.code && res.match_data)) [
      | inr short ↦ rw (short, add_new) (v, omega arith)
      | inl enough ↦ chosen-Delivers res regex flags s (pg_jitter_pcre2_choose_slot s) v refl enough
    ]

Found-Delivers :
    (res : Resources) (regex : Bytes) (flags : ℕ) (s : State) (r : Search)
    → Valid s
    → length s.pins + 1 < half32
    → Found regex flags s r
    → Delivers s regex flags (compile_found res regex flags s r)
unfolding compile_found
Found-Delivers res regex flags s dead_entry v few h = h
Found-Delivers res regex flags s (hit a e) v few h =
    reuse-Delivers res.record_room regex flags a e s v few h
Found-Delivers res regex flags s miss v few h = add-Delivers res regex flags s v

pub compile_regex-Delivers :
    (res : Resources) (regex : Bytes) (flags : ℕ) (s : State)
    → Valid s
    → length s.pins + 1 < half32
    → Delivers s regex flags (compile_regex res regex flags s)
unfolding compile_regex
compile_regex-Delivers res regex flags s v few =
    elim (Bool-cases (ltb pcre2_max_pattern_bytes (length regex))) [
      | inl long ↦ rw (long, compile_regex) (v, omega arith)
      | inr short ↦
          rw (short, compile_regex)
            (Found-Delivers res regex flags s _ v few
              (find_entry_finds pcre2_cache_size 0 regex flags s v (omega arith)))
    ]
