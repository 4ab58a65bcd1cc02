-- ===== src/SharedCode/Log.antt =====
-- The area refines a log of entries: a store appends to it and a lookup finds the first entry of its key.
use pg_jitter.Prelude.{
  ℕ, ◌-◌, ◌≤◌, ◌≡◌, ◌∙◌, ap, sym, refl, Bool, true, false, Option, none, some, List, length, ltb,
  ◌==◌, arith,
}
use pg_jitter.Prelude.Int.{ℤ}
use pg_jitter.SharedCode.Defs.{
  SharedJitCodeEntry, SharedJitCompiledCode, size_max, area_header, is_match, Code, answered,
  locked, scan_area, pg_jitter_find_shared_code,
}
use pg_jitter.SharedCode.Laid.{Laid, first_entry, looked, scan_lem}

-- The area holds the entries, in the order in which they were stored, and no one holds the lock.
pub record Holds (sjc : SharedJitCompiledCode) (es : List SharedJitCodeEntry) : Type 0 where
  pub free : sjc.lock ≡ 0
  pub laid : Laid sjc.entry_at area_header es sjc.used
  pub counted : sjc.num_entries ≡ length es
  pub reserved : sjc.deform_used_size ≤ sjc.capacity
  pub bounded : sjc.capacity ≤ size_max
  pub inside : sjc.used ≤ sjc.capacity - sjc.deform_used_size

-- What a lookup in the log gives.
abbrev pub code_of : Option SharedJitCodeEntry → Option Code
code_of none = none
code_of (some e) = some (e.code_bytes, e.code_size, e.dylib_ref_addr)

pub locked_lem :
    (sjc : SharedJitCompiledCode) → sjc.lock ≡ 0 → locked sjc ≡ some (record sjc { lock = 1 })
locked_lem sjc h = let open_lock : (sjc.lock == 0) ≡ true = ground arith in rw open_lock refl

scanned :
    (test : SharedJitCodeEntry → Bool) (sjc : SharedJitCompiledCode) (es : List SharedJitCodeEntry)
    → Holds sjc es
    → scan_area test (record sjc { lock = 1 }) ≡ looked (first_entry test es)
unfolding scan_area
scanned test sjc es h =
    let valid : ltb sjc.capacity sjc.deform_used_size ≡ false =
      let r = h.reserved in ground arith in
    let usable : ltb (sjc.capacity - sjc.deform_used_size) sjc.used ≡ false =
      let r = h.inside in ground arith in
    rw (valid, usable, h.counted)
      (scan_lem test (sjc.capacity - sjc.deform_used_size) sjc.entry_at area_header sjc.used es
        h.inside h.laid)

pub relocked : (sjc : SharedJitCompiledCode) → sjc.lock ≡ 0 → record sjc { lock = 0 } ≡ sjc
relocked sjc h = ap (λ l. record sjc { lock = l }) (sym h)

answered_lem :
    (sjc : SharedJitCompiledCode) (r : Option SharedJitCodeEntry)
    → sjc.lock ≡ 0
    → answered (record sjc { lock = 1 }) (looked r) ≡ some (code_of r, 0, sjc)
answered_lem sjc none h = ap (λ s. some (none, 0, s)) (relocked sjc h)
answered_lem sjc (some e) h = ap (λ s. some (code_of (some e), 0, s)) (relocked sjc h)

-- A lookup reads the log. In an area that holds the entries `es` it returns with error code 0, gives the
-- code of the first entry with the three parts of the key, or nothing where there is none, and leaves the
-- area as it was, the lock free.
pub find_reads_log :
    (sjc : SharedJitCompiledCode) (es : List SharedJitCodeEntry) (node_id expr_idx : ℤ)
    (expr_fingerprint : ℕ)
    → Holds sjc es
    → pg_jitter_find_shared_code sjc node_id expr_idx expr_fingerprint
      ≡ some (code_of (first_entry (is_match node_id expr_idx expr_fingerprint) es), 0, sjc)
unfolding pg_jitter_find_shared_code
find_reads_log sjc es node_id expr_idx expr_fingerprint h =
    rw (locked_lem sjc h.free, pg_jitter_find_shared_code)
      (ap (answered (record sjc { lock = 1 }))
          (scanned (is_match node_id expr_idx expr_fingerprint) sjc es h)
        ∙ answered_lem sjc (first_entry (is_match node_id expr_idx expr_fingerprint) es) h.free)
