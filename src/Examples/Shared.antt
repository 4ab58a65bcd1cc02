-- ===== src/Examples/Shared.antt =====
-- The code area of a parallel query at concrete values: two expressions are stored and found.
use pg_jitter.Prelude.{ℕ, ◌≡◌, refl, true, false, none, some, List, [], ◌∷◌, arith, take}
use pg_jitter.Prelude.Int.{pos}
use pg_jitter.SharedCode.Defs.{
  SharedJitCodeEntry, SharedJitCompiledCode, append_entry, init_header, is_match, put,
  pg_jitter_store_shared_code, pg_jitter_find_shared_code,
}
use pg_jitter.SharedCode.Laid.{first_entry}
use pg_jitter.SharedCode.Log.{Holds, code_of, find_reads_log}
use pg_jitter.SharedCode.Store.{Appends, entry_of, store-Appends, find-store}

-- A segment of one page, as it comes.
abbrev segment : SharedJitCompiledCode
segment = record {
  lock = 7;
  num_entries = 9;
  capacity = 0;
  used = 0;
  deform_used_size = 0;
  entry_at = λ i. none;
}

abbrev area : SharedJitCompiledCode
area = record {
  lock = 0;
  num_entries = 0;
  capacity = 4096;
  used = 88;
  deform_used_size = 0;
  entry_at = λ i. none;
}

init_run : init_header 4096 segment ≡ area
unfolding init_header
init_run = refl

area-Holds : Holds area []
area-Holds = record {
  free = refl;
  laid = refl;
  counted = refl;
  reserved = omega arith;
  bounded = omega arith;
  inside = omega arith;
}

abbrev code : List ℕ
code = 0x31 ∷ 0xc0 ∷ 0xc3 ∷ []

abbrev first : SharedJitCodeEntry
first = entry_of code 3 (pos 4) (pos 0) 5 6

abbrev stocked : SharedJitCompiledCode
stocked = record area { num_entries = 1; used = 128; entry_at = put area.entry_at 88 first }

stocked-Holds : Holds stocked (first ∷ [])
stocked-Holds = record {
  free = refl;
  laid = (refl, ((omega arith, refl), refl));
  counted = refl;
  reserved = omega arith;
  bounded = omega arith;
  inside = omega arith;
}

-- In an area that is too small nothing is stored.
small_run :
    pg_jitter_store_shared_code (record area { capacity = 120 }) (some code) 3 (pos 4) (pos 0) 5 6
    ≡ some (false, record area { capacity = 120 })
unfolding pg_jitter_store_shared_code append_entry
small_run = refl

store-Appends_example :
    Appends stocked
      (first ∷ [])
      (entry_of code 2 (pos 4) (pos 1) 5 6)
      (pg_jitter_store_shared_code stocked (some code) 2 (pos 4) (pos 1) 5 6)
store-Appends_example =
    store-Appends stocked (first ∷ []) code 2 (pos 4) (pos 1) 5 6 stocked-Holds (omega arith)

find_reads_log_example :
    pg_jitter_find_shared_code stocked (pos 4) (pos 0) 5
    ≡ some (code_of (first_entry (is_match (pos 4) (pos 0) 5) (first ∷ [])), 0, stocked)
find_reads_log_example = find_reads_log stocked (first ∷ []) (pos 4) (pos 0) 5 stocked-Holds

find-store_example :
    (after : SharedJitCompiledCode) × (pg_jitter_store_shared_code stocked
        (some code)
        2
        (pos 4)
        (pos 1)
        5
        6
      ≡ some (true, after))
    × (pg_jitter_find_shared_code after (pos 4) (pos 1) 5
        ≡ some (some (take 2 code, 2, 6), 0, after))
find-store_example =
    find-store stocked (first ∷ []) code 2 (pos 4) (pos 1) 5 6 stocked-Holds (omega arith) refl refl
