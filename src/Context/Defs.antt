-- ===== src/Context/Defs.antt =====
-- Registration and release. What a record frees is a number, and the calls of the free functions are
-- kept in the order in which they happen, the last one first.
use pg_jitter.Prelude.{ℕ, suc, Bool, true, false, Option, none, some, List, [], ◌∷◌, if◌then◌else◌}

-- `has_free_fn` says that the free function is not NULL.
pub record CompiledCode : Type 0 where
  pub has_free_fn : Bool
  pub resource : ℕ

-- The registrations that are not released yet, and whether there is auxiliary memory.
pub record PgJitterContext : Type 0 where
  pub compiled_list : List CompiledCode
  pub aux_context : Bool

-- The calls of free functions, and how many memory contexts have been created and deleted.
pub record Effects : Type 0 where
  pub freed : List ℕ
  pub created : ℕ
  pub deleted : ℕ

abbrev pub State : Type 0
State = PgJitterContext × Effects

abbrev pub free_call : CompiledCode → Effects → Effects
free_call entry fx =
    if entry.has_free_fn then record fx { freed = entry.resource ∷ fx.freed } else fx

-- `room` is the success of the allocation; none is the error that it throws.
unfoldable pub pg_jitter_register_compiled :
    Bool → CompiledCode → PgJitterContext → Option PgJitterContext
pg_jitter_register_compiled room entry ctx =
    if room then some (record ctx { compiled_list = entry ∷ ctx.compiled_list }) else none

-- Where the registration throws, the resource is freed before the error goes on; the Boolean says so.
unfoldable pub pg_jitter_register_compiled_or_free : Bool → CompiledCode → State → Bool × State
pg_jitter_register_compiled_or_free room entry (ctx, fx) =
    elim (pg_jitter_register_compiled room entry ctx) [
      | none ↦ (true, (ctx, free_call entry fx))
      | some ctx' ↦ (false, (ctx', fx))
    ]

-- The context is not NULL. The creation succeeds or, by `room`, throws before anything has changed.
unfoldable pub pg_jitter_get_aux_context : Bool → State → Bool × State
pg_jitter_get_aux_context room (ctx, fx) =
    if ctx.aux_context
    then (false, (ctx, fx))
    else (if room
        then (false, (record ctx { aux_context = true }, record fx { created = suc fx.created }))
        else (true, (ctx, fx)))

-- for (cc = ctx->compiled_list; cc != NULL; cc = next) …
unfoldable pub release_loop : List CompiledCode → Effects → Effects
release_loop [] fx = fx
release_loop (entry ∷ rest) fx = release_loop rest (free_call entry fx)

-- The shared memory, the caches of the deform code and the resource owner are left out.
unfoldable pub pg_jitter_release_context : State → State
pg_jitter_release_context (ctx, fx) =
    let released = release_loop ctx.compiled_list fx in
    (
      record { compiled_list = []; aux_context = false },
      if ctx.aux_context then record released { deleted = suc released.deleted } else released,
    )

pub data Event : Type 0 where
  register : Bool → CompiledCode → Event
  get_aux : Bool → Event
  release : Event

unfoldable pub step : Event → State → State
step (register room entry) s = (pg_jitter_register_compiled_or_free room entry s).1
step (get_aux room) s = (pg_jitter_get_aux_context room s).1
step release s = pg_jitter_release_context s

unfoldable pub run : List Event → State → State
run [] s = s
run (e ∷ events) s = run events (step e s)

abbrev pub new_context : State
new_context = (
  record { compiled_list = []; aux_context = false },
  record { freed = []; created = 0; deleted = 0 },
)
