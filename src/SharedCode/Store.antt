-- ===== src/SharedCode/Store.antt =====
-- A store appends to the log, and what was stored is found.
use pg_jitter.Prelude.{
  ℕ, ◌+◌, ◌-◌, ◌≤◌, ◌≡◌, ◌∙◌, ap, refl, Bool, true, false, not, ◌&&◌, ◌||◌, Option, none, some,
  List, [], ◌∷◌, ◌++◌, length, length-take, take, ltb, leb, ◌==◌, if◌then◌else◌, arith, Bool-cases,
  inl, inr,
}
use pg_jitter.Prelude.Int.{ℤ}
use pg_jitter.Machine.{eqb_ℤ}
use pg_jitter.SharedCode.Defs.{
  SharedJitCodeEntry, SharedJitCompiledCode, size_max, entry_header, area_header, max_align,
  is_match, is_full, append_entry, pg_jitter_store_shared_code, pg_jitter_find_shared_code,
  init_header,
}
use pg_jitter.SharedCode.Laid.{size_of, IsStored, first_entry}
use pg_jitter.SharedCode.Log.{Holds, code_of, locked_lem, relocked, find_reads_log}
use pg_jitter.SharedCode.Framed.{
  with_entry, entry-Holds, freed-Holds, IsFramed, put-IsFramed, same-IsFramed,
}

-- Whether the code has bytes and the area has room for its entry.
abbrev pub has_room : SharedJitCompiledCode → ℕ → Bool
has_room sjc code_size =
    not (code_size == 0)
    && leb (max_align (entry_header + code_size)) (sjc.capacity - sjc.deform_used_size - sjc.used)

abbrev pub entry_of : List ℕ → ℕ → ℤ → ℤ → ℕ → ℕ → SharedJitCodeEntry
entry_of code code_size node_id expr_idx expr_fingerprint dylib_ref_addr = record {
  plan_node_id = node_id;
  expr_index = expr_idx;
  expr_fingerprint = expr_fingerprint;
  code_size = code_size;
  dylib_ref_addr = dylib_ref_addr;
  code_bytes = take code_size code;
}

-- What a store gives in an area that holds the entries.
abbrev pub Appends :
    SharedJitCompiledCode
    → List SharedJitCodeEntry
    → SharedJitCodeEntry
    → Option (Bool × SharedJitCompiledCode)
    → Type 0
Appends sjc es e result =
    (after : SharedJitCompiledCode) × (result ≡ some (has_room sjc e.code_size, after))
    × Holds after (if has_room sjc e.code_size then es ++ e ∷ [] else es)
    × IsFramed (has_room sjc e.code_size) sjc after

full_when :
    (sjc : SharedJitCompiledCode) (es : List SharedJitCodeEntry) (size : ℕ)
    → Holds sjc es
    → is_full (record sjc { lock = 1 }) size
      ≡ not (leb size (sjc.capacity - sjc.deform_used_size - sjc.used))
full_when sjc es size h = let reserved = h.reserved in let inside = h.inside in ground arith

append-Appends :
    (sjc : SharedJitCompiledCode) (es : List SharedJitCodeEntry) (e : SharedJitCodeEntry)
    → Holds sjc es
    → IsStored e
    → (e.code_size == 0) ≡ false
    → Appends sjc es e (some (append_entry e (size_of e) (record sjc { lock = 1 })))
unfolding append_entry
append-Appends sjc es e h stored bytes =
    let full = full_when sjc es (size_of e) h in
    elim (Bool-cases (leb (size_of e) (sjc.capacity - sjc.deform_used_size - sjc.used))) [
      | inl room ↦
          rw (full, bytes, room)
            (
              with_entry sjc e,
              refl,
              entry-Holds sjc es e h stored (ground arith),
              put-IsFramed sjc e,
            )
      | inr none_left ↦
          rw (full, bytes, none_left)
            (
              record sjc { lock = 0 },
              refl,
              freed-Holds sjc es h,
              same-IsFramed sjc (record sjc { lock = 0 }) (relocked sjc h.free),
            )
    ]

-- A store appends to the log. In an area that holds the entries `es`, a store of at least `code_size`
-- bytes of code returns, the lock free: true exactly where the size is not zero and the aligned entry fits
-- behind the entries and before the deform code. The area then holds `es` and the new entry behind
-- them, and its capacity, the size of its deform code and the memory at every offset but that of the
-- new entry are as they were; otherwise the whole area is as it was.
pub store-Appends :
    (sjc : SharedJitCompiledCode) (es : List SharedJitCodeEntry) (code : List ℕ) (code_size : ℕ)
    (node_id expr_idx : ℤ) (expr_fingerprint dylib_ref_addr : ℕ)
    → Holds sjc es
    → code_size ≤ length code
    → Appends sjc es (entry_of code code_size node_id expr_idx expr_fingerprint dylib_ref_addr) (
        pg_jitter_store_shared_code sjc
          (some code)
          code_size
          node_id
          expr_idx
          expr_fingerprint
          dylib_ref_addr)
unfolding pg_jitter_store_shared_code
store-Appends sjc es code code_size node_id expr_idx expr_fingerprint dylib_ref_addr h enough =
    let e = entry_of code code_size node_id expr_idx expr_fingerprint dylib_ref_addr in
    let reads : ltb (length code) code_size ≡ false = ground arith in
    elim (Bool-cases (
      code_size == 0
      || ltb (size_max - entry_header) code_size
      || ltb (size_max - 7) (entry_header + code_size))) [
        | inl refused ↦
            let none_left : has_room sjc code_size ≡ false =
              let bounded = h.bounded in ground arith in
            rw (refused, none_left, pg_jitter_store_shared_code)
              (sjc, refl, h, same-IsFramed sjc sjc refl)
        | inr taken ↦
            let stored : IsStored e = (ground arith, omega (arith, length-take code_size code)) in
            let bytes : (code_size == 0) ≡ false = ground arith in
            rw (taken, reads, locked_lem sjc h.free, pg_jitter_store_shared_code)
              (append-Appends sjc es e h stored bytes)
      ]

found-appended :
    (test : SharedJitCodeEntry → Bool) (es : List SharedJitCodeEntry) (e : SharedJitCodeEntry)
    → first_entry test es ≡ none
    → test e ≡ true
    → first_entry test (es ++ e ∷ []) ≡ some e
found-appended test [] e before hit = rw hit refl
found-appended test (x ∷ es) e before hit = elim (Bool-cases (test x)) [
  | inl earlier ↦ let before' = rw earlier at before in cc
  | inr other ↦ let before' = rw other at before in rw other (found-appended test es e before' hit)
]

match_self :
    (node_id expr_idx : ℤ) (expr_fingerprint : ℕ)
    → (eqb_ℤ node_id node_id && eqb_ℤ expr_idx expr_idx && (expr_fingerprint == expr_fingerprint))
      ≡ true
match_self node_id expr_idx expr_fingerprint = ground arith

-- What the leader stores a worker finds. In an area that holds the entries `es`, none of them with the key, a store of
-- `code_size` bytes of code for which the area has room returns true, and a lookup of the key in the area
-- that it leaves returns those bytes, their number and the address that was stored with them.
pub find-store :
    (sjc : SharedJitCompiledCode) (es : List SharedJitCodeEntry) (code : List ℕ) (code_size : ℕ)
    (node_id expr_idx : ℤ) (expr_fingerprint dylib_ref_addr : ℕ)
    → Holds sjc es
    → code_size ≤ length code
    → has_room sjc code_size ≡ true
    → first_entry (is_match node_id expr_idx expr_fingerprint) es ≡ none
    → (after : SharedJitCompiledCode) × (pg_jitter_store_shared_code sjc
          (some code)
          code_size
          node_id
          expr_idx
          expr_fingerprint
          dylib_ref_addr
        ≡ some (true, after))
      × (pg_jitter_find_shared_code after node_id expr_idx expr_fingerprint
          ≡ some (some (take code_size code, code_size, dylib_ref_addr), 0, after))
find-store sjc es code code_size node_id expr_idx expr_fingerprint dylib_ref_addr h enough room
      unseen =
    let e = entry_of code code_size node_id expr_idx expr_fingerprint dylib_ref_addr in
    let test = is_match node_id expr_idx expr_fingerprint in
    let (after, ran, holds, framed) =
      store-Appends sjc es code code_size node_id expr_idx expr_fingerprint dylib_ref_addr h
        enough in
    let holds' : Holds after (es ++ e ∷ []) = rw room at holds in
    let first = found-appended test es e unseen (match_self node_id expr_idx expr_fingerprint) in
    (
      after,
      ran ∙ ap (λ b. some (b, after)) room,
      find_reads_log after (es ++ e ∷ []) node_id expr_idx expr_fingerprint holds'
          ∙ ap (λ r. some (code_of r, 0, after)) first,
    )

-- A new segment, where the size of the deform code is 0.
pub init-Holds :
    (dsm_size : ℕ) (segment : SharedJitCompiledCode)
    → area_header ≤ dsm_size
    → dsm_size ≤ size_max
    → segment.deform_used_size ≡ 0
    → Holds (init_header dsm_size segment) []
unfolding init_header
init-Holds dsm_size segment large small clear = record {
  free = refl;
  laid = refl;
  counted = refl;
  reserved = omega arith;
  bounded = small;
  inside = omega arith;
}
