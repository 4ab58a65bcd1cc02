-- ===== src/SharedCode/Defs.antt =====
-- `pg_jitter_store_shared_code` and `pg_jitter_find_shared_code`. The memory behind the header maps the
-- offset of an entry to it. A call that would spin for ever, that reads memory where no entry was written
-- or that copies more bytes than the code has gives none.
use mathlib.Core.Option
use pg_jitter.Prelude.{
  ℕ, zero, suc, ◌+◌, ◌-◌, ◌*◌, ◌/◌, Bool, true, false, ◌&&◌, ◌||◌, Option, none, some, List, length,
  take, ltb, ◌==◌, if◌then◌else◌,
}
use pg_jitter.Prelude.Int.{ℤ}
use pg_jitter.Machine.{eqb_ℤ}

pub record SharedJitCodeEntry : Type 0 where
  pub plan_node_id : ℤ
  pub expr_index : ℤ
  pub expr_fingerprint : ℕ
  pub code_size : ℕ
  pub dylib_ref_addr : ℕ
  pub code_bytes : List ℕ

-- The fields of the shared deform code but its size are left out.
pub record SharedJitCompiledCode : Type 0 where
  pub lock : ℕ
  pub num_entries : ℕ
  pub capacity : ℕ
  pub used : ℕ
  pub deform_used_size : ℕ
  pub entry_at : ℕ → Option SharedJitCodeEntry

abbrev pub size_max : ℕ
size_max = 0xFFFF_FFFF_FFFF_FFFF

-- offsetof(SharedJitCodeEntry, code_bytes), where a Size has 8 bytes.
abbrev pub entry_header : ℕ
entry_header = 32

-- MAXALIGN(sizeof(SharedJitCompiledCode))
abbrev pub area_header : ℕ
area_header = 88

-- MAXALIGN, with MAXIMUM_ALIGNOF 8.
abbrev pub max_align : ℕ → ℕ
max_align n = (n + 7) / 8 * 8

-- while (pg_atomic_exchange_u32(&sjc->lock, 1) != 0) pg_spin_delay();
abbrev pub locked : SharedJitCompiledCode → Option SharedJitCompiledCode
locked sjc = if sjc.lock == 0 then some (record sjc { lock = 1 }) else none

abbrev pub unlocked : SharedJitCompiledCode → SharedJitCompiledCode
unlocked sjc = record sjc { lock = 0 }

abbrev pub put :
    (ℕ → Option SharedJitCodeEntry) → ℕ → SharedJitCodeEntry → ℕ → Option SharedJitCodeEntry
put memory offset e i = if i == offset then some e else memory i

-- The tests of the room that is left, under the lock.
abbrev pub is_full : SharedJitCompiledCode → ℕ → Bool
is_full sjc entry_size =
    ltb sjc.capacity sjc.deform_used_size
    || ltb (sjc.capacity - sjc.deform_used_size) sjc.used
    || ltb (sjc.capacity - sjc.deform_used_size - sjc.used) entry_size

-- `request` holds the arguments, the code with them; a NULL code is none.
unfoldable pub append_entry :
    SharedJitCodeEntry → ℕ → SharedJitCompiledCode → Bool × SharedJitCompiledCode
append_entry request entry_size sjc = if is_full sjc entry_size then (false, unlocked sjc) else (
  true,
  unlocked (record sjc {
    entry_at = put sjc.entry_at sjc.used request;
    used = sjc.used + entry_size;
    num_entries = sjc.num_entries + 1;
  }),
)

unfoldable pub pg_jitter_store_shared_code :
    SharedJitCompiledCode
    → Option (List ℕ)
    → ℕ
    → ℤ
    → ℤ
    → ℕ
    → ℕ
    → Option (Bool × SharedJitCompiledCode)
pg_jitter_store_shared_code sjc none code_size node_id expr_idx expr_fingerprint dylib_ref_addr =
    some (false, sjc)
pg_jitter_store_shared_code sjc (some code) code_size node_id expr_idx expr_fingerprint
      dylib_ref_addr =
    if code_size == 0
      || ltb (size_max - entry_header) code_size
      || ltb (size_max - 7) (entry_header + code_size)
    then some (false, sjc)
    else (if ltb (length code) code_size
        then none
        else Option.map
            (append_entry
              (record {
                plan_node_id = node_id;
                expr_index = expr_idx;
                expr_fingerprint = expr_fingerprint;
                code_size = code_size;
                dylib_ref_addr = dylib_ref_addr;
                code_bytes = take code_size code;
              })
              (max_align (entry_header + code_size)))
            (locked sjc))

-- The key of an entry.
abbrev pub is_match : ℤ → ℤ → ℕ → SharedJitCodeEntry → Bool
is_match node_id expr_idx expr_fingerprint e =
    eqb_ℤ e.plan_node_id node_id
    && eqb_ℤ e.expr_index expr_idx
    && (e.expr_fingerprint == expr_fingerprint)

pub data Lookup : Type 0 where
  found : SharedJitCodeEntry → Lookup
  absent : Lookup
  invalid : ℕ → Lookup
  unwritten : Lookup

-- The size tests of the entry at the offset: the error code, 0 for none.
abbrev pub size_error : ℕ → ℕ → ℕ → ℕ
size_error usable offset code_size =
    if ltb (size_max - entry_header) code_size
    then 4
    else (if ltb (size_max - 7) (entry_header + code_size)
        then 5
        else (if ltb (usable - offset) (max_align (entry_header + code_size)) then 6 else 0))

-- The loop over the entries that are left.
unfoldable pub scan_entries :
    (SharedJitCodeEntry → Bool) → ℕ → (ℕ → Option SharedJitCodeEntry) → ℕ → ℕ → Lookup
scan_entries test usable memory zero offset = absent
scan_entries test usable memory (suc left) offset =
    elim (ltb usable offset || ltb (usable - offset) entry_header) [
      | true ↦ invalid 3
      | false ↦ elim (memory offset) [
        | none ↦ unwritten
        | some e ↦ elim (size_error usable offset e.code_size) [
          | suc code ↦ invalid (suc code)
          | zero ↦ elim (test e) [
            | true ↦ found e
            | false ↦
                scan_entries test usable memory left
                  (offset + max_align (entry_header + e.code_size))
          ]
        ]
      ]
    ]

unfoldable pub scan_area : (SharedJitCodeEntry → Bool) → SharedJitCompiledCode → Lookup
scan_area test sjc =
    if ltb sjc.capacity sjc.deform_used_size
    then invalid 1
    else (if ltb (sjc.capacity - sjc.deform_used_size) sjc.used
        then invalid 2
        else scan_entries test (sjc.capacity - sjc.deform_used_size) sjc.entry_at sjc.num_entries
            area_header)

-- What is stored through the three result pointers where the call returns true.
abbrev pub Code : Type 0
Code = List ℕ × ℕ × ℕ

-- With the error code, for which the call gives a warning; 0 is none.
abbrev pub answered :
    SharedJitCompiledCode → Lookup → Option (Option Code × ℕ × SharedJitCompiledCode)
answered sjc (found e) = some (some (e.code_bytes, e.code_size, e.dylib_ref_addr), 0, unlocked sjc)
answered sjc absent = some (none, 0, unlocked sjc)
answered sjc (invalid code) = some (none, code, unlocked sjc)
answered sjc unwritten = none

-- The pointers are not NULL; the texts of the warnings and the debugging message are left out.
unfoldable pub pg_jitter_find_shared_code :
    SharedJitCompiledCode → ℤ → ℤ → ℕ → Option (Option Code × ℕ × SharedJitCompiledCode)
pg_jitter_find_shared_code sjc node_id expr_idx expr_fingerprint = elim (locked sjc) [
  | none ↦ none
  | some held ↦ answered held (scan_area (is_match node_id expr_idx expr_fingerprint) held)
]

-- The header that `pg_jitter_init_shared_dsm` writes into a new segment; it leaves the size of the shared
-- deform code as it is.
unfoldable pub init_header : ℕ → SharedJitCompiledCode → SharedJitCompiledCode
init_header dsm_size segment = record segment {
  lock = 0;
  num_entries = 0;
  capacity = dsm_size;
  used = area_header;
}
