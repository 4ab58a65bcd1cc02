-- ===== src/Context/Conserved.antt =====
-- No resource is lost and none is freed twice.
use pg_jitter.Prelude.{
  ℕ, suc, ◌+◌, ◌≡◌, ◌∙◌, ap, refl, Bool, true, false, ◌&&◌, List, [], ◌∷◌, ◌==◌, if◌then◌else◌,
  arith,
}
use pg_jitter.Context.Defs.{
  CompiledCode, Effects, State, free_call, pg_jitter_register_compiled,
  pg_jitter_register_compiled_or_free, pg_jitter_get_aux_context, release_loop,
  pg_jitter_release_context, Event, register, get_aux, release, step, run, new_context,
}

abbrev pub one_if : Bool → ℕ
one_if true = 1
one_if false = 0

-- How often a resource was freed, is still to be freed, and was handed over with a free function.
abbrev pub count_freed : ℕ → List ℕ → ℕ
count_freed a [] = 0
count_freed a (b ∷ freed) = one_if (b == a) + count_freed a freed

abbrev pub count_pending : ℕ → List CompiledCode → ℕ
count_pending a [] = 0
count_pending a (entry ∷ list) =
    one_if (entry.has_free_fn && entry.resource == a) + count_pending a list

abbrev pub count_registered : ℕ → List Event → ℕ
count_registered a [] = 0
count_registered a (register room entry ∷ events) =
    one_if (entry.has_free_fn && entry.resource == a) + count_registered a events
count_registered a (get_aux room ∷ events) = count_registered a events
count_registered a (release ∷ events) = count_registered a events

-- The resources of a state, and its auxiliary memory.
abbrev pub held : ℕ → State → ℕ
held a s = count_freed a s.1.freed + count_pending a s.0.compiled_list

abbrev pub AuxKept : State → Type 0
AuxKept s = s.1.created ≡ s.1.deleted + one_if s.0.aux_context

freed_if :
    (a resource : ℕ) (has_free_fn : Bool) (fx : Effects)
    → count_freed a (if has_free_fn then record fx { freed = resource ∷ fx.freed } else fx).freed
      ≡ count_freed a fx.freed + one_if (has_free_fn && resource == a)
freed_if a resource true fx = omega arith
freed_if a resource false fx = omega arith

aux_if :
    (resource : ℕ) (has_free_fn : Bool) (fx : Effects)
    → ((if has_free_fn then record fx { freed = resource ∷ fx.freed } else fx).created ≡ fx.created)
      × ((if has_free_fn then record fx { freed = resource ∷ fx.freed } else fx).deleted
          ≡ fx.deleted)
aux_if resource true fx = (refl, refl)
aux_if resource false fx = (refl, refl)

release_counts :
    (a : ℕ) (list : List CompiledCode) (fx : Effects)
    → count_freed a (release_loop list fx).freed ≡ count_freed a fx.freed + count_pending a list
unfolding release_loop
release_counts a [] fx = omega arith
release_counts a (entry ∷ list) fx = omega (
  arith,
  release_counts a list (free_call entry fx),
  freed_if a entry.resource entry.has_free_fn fx,
)

release_aux :
    (list : List CompiledCode) (fx : Effects)
    → ((release_loop list fx).created ≡ fx.created) × ((release_loop list fx).deleted ≡ fx.deleted)
unfolding release_loop
release_aux [] fx = (refl, refl)
release_aux (entry ∷ list) fx =
    let (created, deleted) = release_aux list (free_call entry fx) in
    let (same_created, same_deleted) = aux_if entry.resource entry.has_free_fn fx in
    (created ∙ same_created, deleted ∙ same_deleted)

deleted_if :
    (aux : Bool) (fx : Effects)
    → ((if aux then record fx { deleted = suc fx.deleted } else fx).freed ≡ fx.freed)
      × (((if aux then record fx { deleted = suc fx.deleted } else fx).created ≡ fx.created)
          × ((if aux then record fx { deleted = suc fx.deleted } else fx).deleted
              ≡ fx.deleted + one_if aux))
deleted_if true fx = (refl, (refl, omega arith))
deleted_if false fx = (refl, (refl, omega arith))

-- What `pg_jitter_get_aux_context` leaves, by its two tests.
abbrev with_aux : Bool → Bool → List CompiledCode → Effects → State
with_aux true room list fx = (record { compiled_list = list; aux_context = true }, fx)
with_aux false true list fx =
    (record { compiled_list = list; aux_context = true }, record fx { created = suc fx.created })
with_aux false false list fx = (record { compiled_list = list; aux_context = false }, fx)

get_aux_lem :
    (room aux : Bool) (list : List CompiledCode) (fx : Effects)
    → (pg_jitter_get_aux_context room (record { compiled_list = list; aux_context = aux }, fx)).1
      ≡ with_aux aux room list fx
unfolding pg_jitter_get_aux_context
get_aux_lem room true list fx = refl
get_aux_lem true false list fx = refl
get_aux_lem false false list fx = refl

aux_counts :
    (a : ℕ) (aux room : Bool) (list : List CompiledCode) (fx : Effects)
    → held a (with_aux aux room list fx) ≡ count_freed a fx.freed + count_pending a list + 0
aux_counts a true room list fx = omega arith
aux_counts a false true list fx = omega arith
aux_counts a false false list fx = omega arith

aux_kept :
    (aux room : Bool) (list : List CompiledCode) (fx : Effects)
    → fx.created ≡ fx.deleted + one_if aux
    → AuxKept (with_aux aux room list fx)
aux_kept true room list fx h = h
aux_kept false true list fx h = omega arith
aux_kept false false list fx h = h

step_counts :
    (a : ℕ) (e : Event) (s : State) → held a (step e s) ≡ held a s + count_registered a (e ∷ [])
unfolding step pg_jitter_register_compiled_or_free pg_jitter_register_compiled
    pg_jitter_release_context
step_counts a (register true entry) (ctx, fx) = omega arith
step_counts a (register false entry) (ctx, fx) =
    omega (arith, freed_if a entry.resource entry.has_free_fn fx)
step_counts a (get_aux room) (ctx, fx) =
    ap (held a) (get_aux_lem room ctx.aux_context ctx.compiled_list fx)
    ∙ aux_counts a ctx.aux_context room ctx.compiled_list fx
step_counts a release (ctx, fx) =
    let released = release_loop ctx.compiled_list fx in
    let freed : count_freed a
          (if ctx.aux_context
            then record released { deleted = suc released.deleted }
            else released).freed
        ≡ count_freed a released.freed =
      ap (count_freed a) (deleted_if ctx.aux_context released).0 in
    omega (arith, freed, release_counts a ctx.compiled_list fx)

step_aux : (e : Event) (s : State) → AuxKept s → AuxKept (step e s)
unfolding step pg_jitter_register_compiled_or_free pg_jitter_register_compiled
    pg_jitter_release_context
step_aux (register true entry) (ctx, fx) h = h
step_aux (register false entry) (ctx, fx) h =
    let (created, deleted) = aux_if entry.resource entry.has_free_fn fx in omega arith
step_aux (get_aux room) (ctx, fx) h =
    rw (get_aux_lem room ctx.aux_context ctx.compiled_list fx)
      (aux_kept ctx.aux_context room ctx.compiled_list fx h)
step_aux release (ctx, fx) h =
    let released = release_loop ctx.compiled_list fx in
    let (freed, (created, deleted)) = deleted_if ctx.aux_context released in
    let (same_created, same_deleted) = release_aux ctx.compiled_list fx in omega arith

count_first :
    (a : ℕ) (e : Event) (events : List Event)
    → count_registered a (e ∷ events) ≡ count_registered a (e ∷ []) + count_registered a events
count_first a (register room entry) events = omega arith
count_first a (get_aux room) events = omega arith
count_first a release events = omega arith

run_counts :
    (a : ℕ) (events : List Event) (s : State)
    → held a (run events s) ≡ held a s + count_registered a events
unfolding run
run_counts a [] s = omega arith
run_counts a (e ∷ events) s =
    omega (arith, run_counts a events (step e s), step_counts a e s, count_first a e events)

run_aux : (events : List Event) (s : State) → AuxKept s → AuxKept (run events s)
unfolding run
run_aux [] s h = h
run_aux (e ∷ events) s h = run_aux events (step e s) (step_aux e s h)

freed_after :
    (a : ℕ) (s : State)
    → held a (pg_jitter_release_context s) ≡ count_freed a (pg_jitter_release_context s).1.freed + 0
unfolding pg_jitter_release_context
freed_after a (ctx, fx) = refl

released_counts :
    (a : ℕ) (s : State) → count_freed a (pg_jitter_release_context s).1.freed ≡ held a s
unfolding step
released_counts a s = omega (arith, step_counts a release s, freed_after a s)

aux_after : (s : State) → one_if (pg_jitter_release_context s).0.aux_context ≡ 0
unfolding pg_jitter_release_context
aux_after (ctx, fx) = refl

released_aux :
    (s : State)
    → AuxKept s
    → (pg_jitter_release_context s).1.created ≡ (pg_jitter_release_context s).1.deleted
unfolding step
released_aux s h = omega (arith, step_aux release s h, aux_after s)

-- Every resource is freed once, and no auxiliary memory is lost. After any sequence of registrations, uses
-- of the auxiliary memory and releases of a new context, with allocations that succeed or throw, a release
-- leaves each resource freed exactly as often as it was handed over with a free function, and as many
-- memory contexts deleted as were created.
pub released_once :
    (events : List Event) (a : ℕ)
    → (count_freed a (pg_jitter_release_context (run events new_context)).1.freed
        ≡ count_registered a events)
      × ((pg_jitter_release_context (run events new_context)).1.created
          ≡ (pg_jitter_release_context (run events new_context)).1.deleted)
released_once events a =
    let s = run events new_context in
    (
      omega (arith, released_counts a s, run_counts a events new_context),
      released_aux s (run_aux events new_context refl),
    )
