-- ===== src/SharedCode/Laid.antt =====
-- The entries stand one behind the other between the header and `used`, and the scan reads them in order.
use pg_jitter.Prelude.{
  ℕ, zero, ◌+◌, ◌-◌, ◌≤◌, ◌<◌, ◌≡◌, ◌∙◌, ap, refl, Bool, true, false, ◌||◌, Option, none, some,
  List, [], ◌∷◌, ◌++◌, length, ltb, ◌==◌, if◌then◌else◌, arith, Bool-cases, inl, inr,
}
use pg_jitter.SharedCode.Defs.{
  SharedJitCodeEntry, size_max, entry_header, max_align, put, size_error, Lookup, found, absent,
  scan_entries,
}

abbrev pub size_of : SharedJitCodeEntry → ℕ
size_of e = max_align (entry_header + e.code_size)

-- An entry as it was stored.
abbrev pub IsStored : SharedJitCodeEntry → Type 0
IsStored e = (entry_header + e.code_size ≤ size_max - 7) × (length e.code_bytes ≡ e.code_size)

abbrev pub Laid : (ℕ → Option SharedJitCodeEntry) → ℕ → List SharedJitCodeEntry → ℕ → Type 0
Laid memory offset [] stop = offset ≡ stop
Laid memory offset (e ∷ es) stop =
    (memory offset ≡ some e) × (IsStored e × Laid memory (offset + size_of e) es stop)

pub Laid-le :
    (memory : ℕ → Option SharedJitCodeEntry) (offset stop : ℕ) (es : List SharedJitCodeEntry)
    → Laid memory offset es stop
    → offset ≤ stop
Laid-le memory offset stop [] h = omega arith
Laid-le memory offset stop (e ∷ es) (here, (stored, rest)) =
    let later = Laid-le memory (offset + size_of e) stop es rest in omega arith

size_pos : (e : SharedJitCodeEntry) → entry_header + e.code_size ≤ size_of e
size_pos e = omega arith

put_other :
    (memory : ℕ → Option SharedJitCodeEntry) (offset i : ℕ) (e : SharedJitCodeEntry)
    → i < offset
    → put memory offset e i ≡ memory i
put_other memory offset i e h = let other : (i == offset) ≡ false = ground arith in rw other refl

put_self :
    (memory : ℕ → Option SharedJitCodeEntry) (offset : ℕ) (e : SharedJitCodeEntry)
    → put memory offset e offset ≡ some e
put_self memory offset e = let same : (offset == offset) ≡ true = ground arith in rw same refl

-- An entry behind the others.
pub Laid-append :
    (memory : ℕ → Option SharedJitCodeEntry) (offset stop : ℕ) (es : List SharedJitCodeEntry)
    (e : SharedJitCodeEntry)
    → IsStored e
    → Laid memory offset es stop
    → Laid (put memory stop e) offset (es ++ e ∷ []) (stop + size_of e)
Laid-append memory offset stop [] e stored h =
    (rw h (put_self memory stop e), (stored, ap (λ n. n + size_of e) h))
Laid-append memory offset stop (x ∷ es) e stored (here, (kept, rest)) =
    let later = Laid-le memory (offset + size_of x) stop es rest in
    let before : offset < stop = omega (arith, size_pos x) in
    (
      put_other memory stop offset e before ∙ here,
      (kept, Laid-append memory (offset + size_of x) stop es e stored rest),
    )

-- The first entry that passes the test.
abbrev pub first_entry :
    (SharedJitCodeEntry → Bool) → List SharedJitCodeEntry → Option SharedJitCodeEntry
first_entry test [] = none
first_entry test (e ∷ es) = if test e then some e else first_entry test es

abbrev pub looked : Option SharedJitCodeEntry → Lookup
looked none = absent
looked (some e) = found e

no_error :
    (usable offset size stop : ℕ)
    → entry_header + size ≤ size_max - 7
    → offset + max_align (entry_header + size) ≤ stop
    → stop ≤ usable
    → size_error usable offset size ≡ zero
no_error usable offset size stop fits room inside = ground arith

in_area :
    (usable offset size stop : ℕ)
    → offset + max_align (entry_header + size) ≤ stop
    → stop ≤ usable
    → (ltb usable offset || ltb (usable - offset) entry_header) ≡ false
in_area usable offset size stop room inside = ground arith

pub scan_lem :
    (test : SharedJitCodeEntry → Bool) (usable : ℕ) (memory : ℕ → Option SharedJitCodeEntry)
    (offset stop : ℕ) (es : List SharedJitCodeEntry)
    → stop ≤ usable
    → Laid memory offset es stop
    → scan_entries test usable memory (length es) offset ≡ looked (first_entry test es)
unfolding scan_entries
scan_lem test usable memory offset stop [] inside h = refl
scan_lem test usable memory offset stop (e ∷ es) inside (here, (stored, rest)) =
    let later = Laid-le memory (offset + size_of e) stop es rest in
    let room = in_area usable offset e.code_size stop later inside in
    let fits = no_error usable offset e.code_size stop stored.0 later inside in
    elim (Bool-cases (test e)) [
      | inl hit ↦ rw (room, here, fits, hit, scan_entries) refl
      | inr miss ↦
          rw (room, here, fits, miss, scan_entries)
            (scan_lem test usable memory (offset + size_of e) stop es inside rest)
    ]
