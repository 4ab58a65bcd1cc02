-- ===== src/Examples/Released.antt =====
-- A JIT context that registers three resources, one of them without success, and is released.
use pg_jitter.Prelude.{ℕ, ◌≡◌, refl, true, false, List, [], ◌∷◌}
use pg_jitter.Context.Defs.{
  CompiledCode, pg_jitter_register_compiled, pg_jitter_register_compiled_or_free,
  pg_jitter_get_aux_context, release_loop, pg_jitter_release_context, Event, register, get_aux,
  step, run, new_context,
}
use pg_jitter.Context.Conserved.{count_freed, count_registered, released_once}

abbrev code_at : ℕ → CompiledCode
code_at a = record { has_free_fn = true; resource = a }

abbrev events : List Event
events =
    register true (code_at 4)
    ∷ get_aux true
    ∷ register false (code_at 5)
    ∷ get_aux true
    ∷ register true (code_at 6)
    ∷ []

-- The resource 5 is freed at once, the others at the release, the last one first.
freed_run : (pg_jitter_release_context (run events new_context)).1.freed ≡ 4 ∷ 6 ∷ 5 ∷ []
unfolding pg_jitter_register_compiled pg_jitter_register_compiled_or_free pg_jitter_get_aux_context
    release_loop pg_jitter_release_context step run
freed_run = refl

released_once_example :
    (count_freed 5 (pg_jitter_release_context (run events new_context)).1.freed
      ≡ count_registered 5 events)
    × ((pg_jitter_release_context (run events new_context)).1.created
        ≡ (pg_jitter_release_context (run events new_context)).1.deleted)
released_once_example = released_once events 5
