-- ===== src/Pcre2/Cache/Safe.antt =====
-- A compilation delivers a pinned entry for its pattern, and no run of compilations and releases uses a
-- dead entry, fails an assertion or loses an entry.
use pg_jitter.Prelude.{
  ℕ, ◌+◌, ◌<◌, arith, ◌≡◌, refl, Bool, not, ◌||◌, Option, none, some, List, [], ◌∷◌, length, ltb,
  Bool-cases, Option-cases, inl, inr,
}
use pg_jitter.Like.Pattern.{Bytes}
use pg_jitter.Machine.{half32}
use pg_jitter.Pcre2.Cache.Defs.{State, Outcome, finished, thrown, fault}
use pg_jitter.Pcre2.Cache.Valid.{Valid}
use pg_jitter.Pcre2.Cache.Kept.{release_lem}
use pg_jitter.Pcre2.Cache.Compile.{
  Resources, pcre2_max_pattern_bytes, pg_jitter_pcre2_compile, Event, compile, release, step, run,
  initial,
}
use pg_jitter.Pcre2.Cache.Delivers.{PinnedFor, Kept, Delivers, compile_regex-Delivers}

-- What a compilation gives: nothing, or an entry for the converted pattern.
abbrev pub Compiled : State → (Bytes → Option Bytes) → Bytes → ℕ → Outcome (Option ℕ) → Type 0
Compiled s convert pattern_text flags (finished none t) = Kept s t
Compiled s convert pattern_text flags (finished (some a) t) =
    Kept s t × ((regex : Bytes) × (convert pattern_text ≡ some regex) × PinnedFor regex flags a t)
Compiled s convert pattern_text flags (thrown t) = Kept s t
Compiled s convert pattern_text flags fault = ⊥

Delivers→Compiled :
    (s : State) (convert : Bytes → Option Bytes) (pattern_text regex : Bytes) (flags : ℕ)
    (o : Outcome (Option ℕ))
    → convert pattern_text ≡ some regex
    → Delivers s regex flags o
    → Compiled s convert pattern_text flags o
Delivers→Compiled s convert pattern_text regex flags (finished none t) e d = d
Delivers→Compiled s convert pattern_text regex flags (finished (some a) t) e (v, p) =
    (v, (regex, e, p))
Delivers→Compiled s convert pattern_text regex flags (thrown t) e d = d
Delivers→Compiled s convert pattern_text regex flags fault e d = d

-- A compilation on a valid cache, with fewer than 2 ^ 31 - 1 records, ends without a fault and leaves the
-- cache valid with at most one record more, also where an error
-- is thrown; an entry that it returns is alive, stands for the converted pattern and the flags, and is
-- pinned by the context.
pub compile_delivers :
    (res : Resources) (eligible : Bool) (convert : Bytes → Option Bytes) (pattern_text : Bytes)
    (flags : ℕ) (s : State)
    → Valid s
    → length s.pins + 1 < half32
    → Compiled s convert pattern_text flags
        (pg_jitter_pcre2_compile res eligible convert pattern_text flags s)
unfolding pg_jitter_pcre2_compile
compile_delivers res eligible convert pattern_text flags s v few =
    elim (Bool-cases (not eligible || ltb pcre2_max_pattern_bytes (length pattern_text))) [
      | inl refused ↦ rw (refused, pg_jitter_pcre2_compile) (v, omega arith)
      | inr taken ↦ elim (Option-cases (convert pattern_text)) [
        | inl no_regex ↦ rw (taken, no_regex, pg_jitter_pcre2_compile) (v, omega arith)
        | inr (regex, e) ↦
            rw (taken, e, pg_jitter_pcre2_compile)
              (Delivers→Compiled s convert pattern_text regex flags _ e
                (compile_regex-Delivers res regex flags s v few))
      ]
    ]

-- The outcome's state is valid, and there is one.
abbrev Ends : State → Option State → Type 0
Ends s r = (t : State) × (r ≡ some t) × Kept s t

Compiled-step :
    (s : State) (convert : Bytes → Option Bytes) (pattern_text : Bytes) (flags : ℕ)
    (o : Outcome (Option ℕ))
    → Compiled s convert pattern_text flags o
    → Ends s (elim o [ finished r s' ↦ some s' | thrown s' ↦ some s' | fault ↦ none ])
Compiled-step s convert pattern_text flags (finished none t) v = (t, refl, v)
Compiled-step s convert pattern_text flags (finished (some a) t) (v, p) = (t, refl, v)
Compiled-step s convert pattern_text flags (thrown t) v = (t, refl, v)
Compiled-step s convert pattern_text flags fault h = absurd h

step-Ends : (e : Event) (s : State) → Valid s → length s.pins + 1 < half32 → Ends s (step e s)
unfolding step
step-Ends (compile res eligible convert pattern_text flags) s v few =
    Compiled-step s convert pattern_text flags _
      (compile_delivers res eligible convert pattern_text flags s v few)
step-Ends (release a) s v few =
    let (t, ran, kept, le) = release_lem s a v in
    rw (ran, step) (t, refl, (kept, omega (arith, le)))

run-Ends :
    (events : List Event) (s : State)
    → Valid s
    → length s.pins + length events < half32
    → (t : State) × (run events s ≡ some t) × Valid t
unfolding run
run-Ends [] s v few = (s, refl, v)
run-Ends (e ∷ events) s v few =
    let (t, ran, (kept, le)) = step-Ends e s v (omega arith) in
    rw (ran, run) (run-Ends events t kept (omega (arith, le)))

pub initial-Valid : Valid initial
initial-Valid = record { unique = λ i j a h h'. cc; sound = λ a. (refl, λ m. cc (m.1)) }

-- From the empty cache, every sequence of fewer than 2 ^ 31 compilations and releases runs without a use
-- of a dead entry, without an access outside the 64 slots, without an overflow of a reference count and
-- without a failed assertion, and ends in a valid cache: the reference count of each live entry is
-- the number of its records, a slot holds a live entry, no two slots hold the same, and an entry with no
-- slot and no record has been freed.
pub run_safe :
    (events : List Event)
    → length events < half32
    → (t : State) × (run events initial ≡ some t) × Valid t
run_safe events few = run-Ends events initial initial-Valid (omega arith)
