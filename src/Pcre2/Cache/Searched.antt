-- ===== src/Pcre2/Cache/Searched.antt =====
-- What a search of the slots finds.
use pg_jitter.Prelude.{
  ℕ, zero, suc, ◌+◌, ◌≤◌, ◌≡◌, true, ◌&&◌, some, ltb, ◌==◌, ==_iff, arith, Bool-cases, Option-cases,
  inl, inr,
}
use pg_jitter.Like.Pattern.{Bytes}
use pg_jitter.Like.Fast.{bytes_eq}
use pg_jitter.Like.Found.{bytes_eq→eq}
use pg_jitter.Pcre2.Cache.Defs.{State, pcre2_cache_size}
use pg_jitter.Pcre2.Cache.Valid.{Valid, slot-live}
use pg_jitter.Pcre2.Cache.Compile.{Search, hit, miss, dead_entry, find_entry}

-- What a search of the slots finds.
abbrev pub Found : Bytes → ℕ → State → Search → Type 0
Found regex flags s (hit a e) = (s.heap a ≡ some e) × (e.pattern_text ≡ regex) × (e.flags ≡ flags)
Found regex flags s miss = Unit {0}
Found regex flags s dead_entry = ⊥

pub find_entry_finds :
    (left i : ℕ) (regex : Bytes) (flags : ℕ) (s : State)
    → Valid s
    → i + left ≤ pcre2_cache_size
    → Found regex flags s (find_entry left i regex flags s)
unfolding find_entry
find_entry_finds zero i regex flags s v le = tt
find_entry_finds (suc left) i regex flags s v le =
    let inside : ltb i pcre2_cache_size ≡ true = ground arith in
    elim (Option-cases (s.cache i)) [
      | inl free ↦
          rw (inside, free, find_entry)
            (find_entry_finds left (i + 1) regex flags s v (omega arith))
      | inr (a, held) ↦
          let (e, live, on) = slot-live s i a v held in
          elim (Bool-cases (e.flags == flags && bytes_eq e.pattern_text regex)) [
            | inl same ↦
                rw (inside, held, live, same, find_entry)
                  (
                    live,
                    bytes_eq→eq e.pattern_text regex (ground arith),
                    (==_iff e.flags flags).0 (ground arith),
                  )
            | inr other ↦
                rw (inside, held, live, other, find_entry)
                  (find_entry_finds left (i + 1) regex flags s v (omega arith))
          ]
    ]
