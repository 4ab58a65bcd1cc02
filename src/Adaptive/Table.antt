-- ===== src/Adaptive/Table.antt =====
-- The statistics table: `adaptive_stats_lookup`, `adaptive_stats_insert` and `adaptive_stats_record`.
use pg_jitter.Prelude.{
  ℕ, zero, suc, ◌+◌, ◌*◌, ◌%◌, Bool, true, false, Option, none, some, List, [], ◌∷◌, get_elem?, set,
  replicate, leb, ◌==◌, if◌then◌else◌,
}
use pg_jitter.Prelude.Int.{ℤ, pos, negsuc, ltb_ℤ}
use pg_jitter.Machine.{half32, half64, to_uint, Run, done, out_of_bounds, out_of_rounds}

-- The PG_JITTER_BACKEND_* values, and any other int.
pub data Backend : Type 0 where
  sljit asmjit mir other : Backend

-- -1 is none.
unfoldable pub adaptive_backend_to_idx : Backend → Option ℕ
adaptive_backend_to_idx sljit = some 0
adaptive_backend_to_idx asmjit = some 1
adaptive_backend_to_idx mir = some 2
adaptive_backend_to_idx other = none

unfoldable pub adaptive_idx_to_backend : ℕ → Backend
adaptive_idx_to_backend zero = sljit
adaptive_idx_to_backend (suc zero) = asmjit
adaptive_idx_to_backend (suc (suc zero)) = mir
adaptive_idx_to_backend _ = sljit

pub record ExprProfile : Type 0 where
  pub nsteps : ℕ
  pub fetchsome_natts : ℕ
  pub n_hashdatum : ℕ
  pub n_funcexpr : ℕ
  pub n_qual : ℕ
  pub n_agg : ℕ

-- The details of the profile are copied field by field; here they stand together.
pub record AdaptiveStatsEntry : Type 0 where
  pub profile_hash : ℕ
  pub profile : ExprProfile
  pub call_count : List ℕ
  pub compile_ns : List ℕ
  pub exec_ns : List ℕ

pub record AdaptiveStatsTable : Type 0 where
  pub num_entries : ℕ
  pub max_entries : ℕ
  pub entries : List AdaptiveStatsEntry

abbrev pub empty_profile : ExprProfile
empty_profile = record {
  nsteps = 0;
  fetchsome_natts = 0;
  n_hashdatum = 0;
  n_funcexpr = 0;
  n_qual = 0;
  n_agg = 0;
}

abbrev pub zero_entry : AdaptiveStatsEntry
zero_entry = record {
  profile_hash = 0;
  profile = empty_profile;
  call_count = 0 ∷ 0 ∷ 0 ∷ [];
  compile_ns = 0 ∷ 0 ∷ 0 ∷ [];
  exec_ns = 0 ∷ 0 ∷ 0 ∷ [];
}

-- The table is made once, with `adaptive_shmem_attempted` set.
unfoldable pub adaptive_stats_init :
    Option AdaptiveStatsTable → Bool → Option AdaptiveStatsTable × Bool
adaptive_stats_init (some t) attempted = (some t, attempted)
adaptive_stats_init none true = (none, true)
adaptive_stats_init none false =
    (some (record { num_entries = 0; max_entries = 256; entries = replicate 256 zero_entry }), true)

-- for (int i = 0; i < n; i++), by the rounds left.
unfoldable pub lookup_loop : ℕ → ℕ → List AdaptiveStatsEntry → ℕ → Run (Option ℕ)
lookup_loop zero i entries hash = done none
lookup_loop (suc left) i entries hash = elim (get_elem? entries i) [
  | none ↦ out_of_bounds
  | some e ↦ elim (e.profile_hash == hash) [
    | true ↦ done (some i)
    | false ↦ lookup_loop left (i + 1) entries hash
  ]
]

unfoldable pub adaptive_stats_lookup : ℕ → Option AdaptiveStatsTable → Run (Option ℕ)
adaptive_stats_lookup hash none = done none
adaptive_stats_lookup hash (some t) = lookup_loop t.num_entries 0 t.entries hash

-- The slot past the last gets the profile, and keeps the counters that stand there.
unfoldable pub add_entry :
    ℕ → ExprProfile → AdaptiveStatsTable → Run (AdaptiveStatsTable × Option ℕ)
add_entry hash profile t = elim (get_elem? t.entries t.num_entries) [
  | none ↦ out_of_bounds
  | some e ↦ done (
    record {
      num_entries = t.num_entries + 1;
      max_entries = t.max_entries;
      entries = set t.entries t.num_entries (record {
        profile_hash = hash;
        profile = profile;
        call_count = e.call_count;
        compile_ns = e.compile_ns;
        exec_ns = e.exec_ns;
      });
    },
    some t.num_entries,
  )
]

-- The insertion into a table that there is: an old slot, no slot in a full table, or a new slot.
unfoldable pub insert_into :
    ℕ → ExprProfile → AdaptiveStatsTable → Run (Option ℕ) → Run (AdaptiveStatsTable × Option ℕ)
insert_into hash profile t out_of_bounds = out_of_bounds
insert_into hash profile t out_of_rounds = out_of_rounds
insert_into hash profile t (done (some i)) = done (t, some i)
insert_into hash profile t (done none) =
    if leb t.max_entries t.num_entries then done (t, none) else add_entry hash profile t

unfoldable pub adaptive_stats_insert :
    ℕ → ExprProfile → Option AdaptiveStatsTable → Run (Option AdaptiveStatsTable × Option ℕ)
adaptive_stats_insert hash profile none = done (none, none)
adaptive_stats_insert hash profile (some t) =
    elim (insert_into hash profile t (adaptive_stats_lookup hash (some t))) [
      | out_of_bounds ↦ out_of_bounds
      | out_of_rounds ↦ out_of_rounds
      | done r ↦ done (some r.0, r.1)
    ]

-- a[i] += d on unsigned words of 2 * half values.
unfoldable pub add_at : ℕ → List ℕ → ℕ → ℤ → Run (List ℕ)
add_at half a i d = elim (get_elem? a i) [
  | none ↦ out_of_bounds
  | some x ↦ done (set a i ((x + to_uint half d) % (2 * half)))
]

-- The times are added where they are positive.
add_time : List ℕ → ℕ → ℤ → Run (List ℕ)
add_time a i ns = elim (ltb_ℤ (pos 0) ns) [ false ↦ done a | true ↦ add_at half64 a i ns ]

module _ (idx : ℕ) (compile_time exec_time calls : ℤ) where
  -- The three updates of one entry.
  unfoldable pub record_entry : AdaptiveStatsEntry → Run AdaptiveStatsEntry
  unfolding add_time
  record_entry e = elim (add_at half32 e.call_count idx calls) [
    | out_of_bounds ↦ out_of_bounds
    | out_of_rounds ↦ out_of_rounds
    | done counts ↦ elim (add_time e.compile_ns idx compile_time) [
      | out_of_bounds ↦ out_of_bounds
      | out_of_rounds ↦ out_of_rounds
      | done compiled ↦ elim (add_time e.exec_ns idx exec_time) [
        | out_of_bounds ↦ out_of_bounds
        | out_of_rounds ↦ out_of_rounds
        | done executed ↦ done (record {
          profile_hash = e.profile_hash;
          profile = e.profile;
          call_count = counts;
          compile_ns = compiled;
          exec_ns = executed;
        })
      ]
    ]
  ]

  unfoldable pub record_at : AdaptiveStatsTable → ℕ → Run AdaptiveStatsTable
  record_at t slot = elim (get_elem? t.entries slot) [
    | none ↦ out_of_bounds
    | some e ↦ elim (record_entry e) [
      | out_of_bounds ↦ out_of_bounds
      | out_of_rounds ↦ out_of_rounds
      | done e' ↦ done (record {
        num_entries = t.num_entries;
        max_entries = t.max_entries;
        entries = set t.entries slot e';
      })
    ]
  ]

record_slot : ℕ → ℤ → ℤ → ℤ → Option AdaptiveStatsTable × Option ℕ → Run (Option AdaptiveStatsTable)
record_slot idx compile_time exec_time calls (none, slot) = done none
record_slot idx compile_time exec_time calls (some t, none) = done (some t)
record_slot idx compile_time exec_time calls (some t, some slot) =
    elim (record_at idx compile_time exec_time calls t slot) [
      | out_of_bounds ↦ out_of_bounds
      | out_of_rounds ↦ out_of_rounds
      | done t' ↦ done (some t')
    ]

-- A full table discards the measurement, as does a negative index or a missing table. `profile` is
-- none for NULL.
unfoldable pub adaptive_stats_record :
    ℕ
    → ℤ
    → ℤ
    → ℤ
    → ℤ
    → Option ExprProfile
    → Option AdaptiveStatsTable
    → Run (Option AdaptiveStatsTable)
unfolding record_slot
adaptive_stats_record hash idx compile_time exec_time calls profile none = done none
adaptive_stats_record hash (negsuc n) compile_time exec_time calls profile (some t) = done (some t)
adaptive_stats_record hash (pos idx) compile_time exec_time calls profile (some t) =
    elim (adaptive_stats_lookup hash (some t)) [
      | out_of_bounds ↦ out_of_bounds
      | out_of_rounds ↦ out_of_rounds
      | done found ↦ elim found [
        | some slot ↦ record_slot idx compile_time exec_time calls (some t, some slot)
        | none ↦
            elim (adaptive_stats_insert hash (elim profile [ none ↦ empty_profile | some p ↦ p ])
              (some t)) [
                | out_of_bounds ↦ out_of_bounds
                | out_of_rounds ↦ out_of_rounds
                | done inserted ↦ record_slot idx compile_time exec_time calls inserted
              ]
      ]
    ]
