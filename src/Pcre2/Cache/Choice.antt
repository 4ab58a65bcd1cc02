-- ===== src/Pcre2/Cache/Choice.antt =====
-- The choice of a slot reads live entries, and gives a slot of the array.
use pg_jitter.Prelude.{
  ℕ, zero, suc, ◌+◌, ◌≡◌, ◌<◌, ◌≤◌, ltb, ap, ◌≢◌, ◌∙◌, true, some, ◌==◌, arith, Bool-cases,
  Option-cases, inl, inr,
}
use pg_jitter.Pcre2.Cache.Defs.{
  State, dead, choose_loop, Oldest, older, nothing_yet, chosen, Choice, pcre2_cache_size,
  pg_jitter_pcre2_choose_slot,
}
use pg_jitter.Pcre2.Cache.Valid.{Valid, slot-live}

-- The loop reads no dead entry and no slot outside the array.
pub choose-ne-dead :
    (left i : ℕ) (u p : Oldest) (s : State)
    → Valid s
    → i + left ≤ pcre2_cache_size
    → choose_loop left i u p s ≢ dead
unfolding choose_loop
choose-ne-dead zero i u p s v le h = cc
choose-ne-dead (suc left) i u p s v le h =
    let inside : ltb i pcre2_cache_size ≡ true = ground arith in
    elim (Option-cases (s.cache i)) [
      | inl free ↦ let run = rw (inside, free, choose_loop) at h in cc
      | inr (a, held) ↦
          let (e, live, on) = slot-live s i a v held in
          elim (Bool-cases (e.refcount == 0)) [
            | inl z ↦
                choose-ne-dead left (i + 1) (older u i e.lru_counter) p s v (omega arith)
                  (rw (inside, held, live, z, choose_loop) at h)
            | inr nz ↦
                choose-ne-dead left (i + 1) u (older p i e.lru_counter) s v (omega arith)
                  (rw (inside, held, live, nz, choose_loop) at h)
          ]
    ]

-- The slot, if one was found, is a slot of the array.
abbrev InArray : Oldest → Type 0
InArray o = (j : ℕ) → o.slot ≡ some j → j < pcre2_cache_size

older-InArray :
    (o : Oldest) (i lru : ℕ) → InArray o → i < pcre2_cache_size → InArray (older o i lru)
older-InArray o i lru h lt j e = elim (Option-cases o.slot) [
  | inl nothing ↦ let e' = rw nothing at e in let same : i ≡ j = ground (arith, e') in omega arith
  | inr (k, is) ↦ elim (Bool-cases (ltb lru o.oldest)) [
    | inl less ↦ let e' = rw (is, less) at e in let same : i ≡ j = ground (arith, e') in omega arith
    | inr more ↦ h j (is ∙ (rw (is, more) at e))
  ]
]

-- What the loop chooses is a slot of the array.
choose_loop_inside :
    (left i : ℕ) (u p : Oldest) (s : State) (j : ℕ)
    → Valid s
    → i + left ≤ pcre2_cache_size
    → InArray u
    → InArray p
    → chosen (choose_loop left i u p s) ≡ some j
    → j < pcre2_cache_size
unfolding choose_loop
choose_loop_inside zero i u p s j v le hu hp h = elim (Option-cases u.slot) [
  | inl nothing ↦ hp j (rw nothing at h)
  | inr (k, is) ↦ hu j (is ∙ (rw is at h))
]
choose_loop_inside (suc left) i u p s j v le hu hp h =
    let inside : ltb i pcre2_cache_size ≡ true = ground arith in
    elim (Option-cases (s.cache i)) [
      | inl free ↦
          let run = rw (inside, free, choose_loop) at h in
          let same : i ≡ j = ground (arith, run) in omega arith
      | inr (a, held) ↦
          let (e, live, on) = slot-live s i a v held in
          elim (Bool-cases (e.refcount == 0)) [
            | inl z ↦
                choose_loop_inside left (i + 1) (older u i e.lru_counter) p s j v (omega arith)
                  (older-InArray u i e.lru_counter hu (omega arith)) hp
                  (rw (inside, held, live, z, choose_loop) at h)
            | inr nz ↦
                choose_loop_inside left (i + 1) u (older p i e.lru_counter) s j v (omega arith) hu
                  (older-InArray p i e.lru_counter hp (omega arith))
                  (rw (inside, held, live, nz, choose_loop) at h)
          ]
    ]

pub choose_slot_inside :
    (s : State) (c : Choice) (j : ℕ)
    → Valid s
    → pg_jitter_pcre2_choose_slot s ≡ c
    → chosen c ≡ some j
    → j < pcre2_cache_size
unfolding pg_jitter_pcre2_choose_slot
choose_slot_inside s c j v run h =
    choose_loop_inside pcre2_cache_size 0 nothing_yet nothing_yet s j v (omega arith) (λ k e. cc)
      (λ k e. cc) (ap chosen run ∙ h)
