-- ===== src/SharedCode/Framed.antt =====
-- What a store keeps, where it adds an entry and where it does not.
use pg_jitter.Prelude.{
  ℕ, ◌+◌, ◌-◌, ◌≤◌, ◌≡◌, ◌≢◌, ap, refl, Bool, true, false, List, [], ◌∷◌, ◌++◌, length-append, ◌==◌,
  arith,
}
use pg_jitter.SharedCode.Defs.{SharedJitCodeEntry, SharedJitCompiledCode, area_header, put}
use pg_jitter.SharedCode.Laid.{size_of, IsStored, Laid-append}
use pg_jitter.SharedCode.Log.{Holds}

abbrev pub with_entry : SharedJitCompiledCode → SharedJitCodeEntry → SharedJitCompiledCode
with_entry sjc e = record sjc {
  lock = 0;
  entry_at = put sjc.entry_at sjc.used e;
  used = sjc.used + size_of e;
  num_entries = sjc.num_entries + 1;
}

pub entry-Holds :
    (sjc : SharedJitCompiledCode) (es : List SharedJitCodeEntry) (e : SharedJitCodeEntry)
    → Holds sjc es
    → IsStored e
    → size_of e ≤ sjc.capacity - sjc.deform_used_size - sjc.used
    → Holds (with_entry sjc e) (es ++ e ∷ [])
entry-Holds sjc es e h stored room =
    let inside = h.inside in
    let counted = h.counted in
    record {
      free = refl;
      laid = Laid-append sjc.entry_at area_header sjc.used es e stored h.laid;
      counted = omega (arith, length-append es (e ∷ []));
      reserved = h.reserved;
      bounded = h.bounded;
      inside = omega arith;
    }

pub freed-Holds :
    (sjc : SharedJitCompiledCode) (es : List SharedJitCodeEntry)
    → Holds sjc es
    → Holds (record sjc { lock = 0 }) es
freed-Holds sjc es h = record {
  free = refl;
  laid = h.laid;
  counted = h.counted;
  reserved = h.reserved;
  bounded = h.bounded;
  inside = h.inside;
}

-- What a store leaves as it was: the header but for the lock, the use and the count, and each entry but
-- at the end of the use; all of it where there is no room.
abbrev pub IsFramed : Bool → SharedJitCompiledCode → SharedJitCompiledCode → Type 0
IsFramed room sjc after =
    (room ≡ false → after ≡ sjc)
    × (after.capacity ≡ sjc.capacity)
    × (after.deform_used_size ≡ sjc.deform_used_size)
    × ((i : ℕ) → i ≢ sjc.used → after.entry_at i ≡ sjc.entry_at i)

pub put-IsFramed :
    (sjc : SharedJitCompiledCode) (e : SharedJitCodeEntry) → IsFramed true sjc (with_entry sjc e)
put-IsFramed sjc e = (
  λ h. cc,
  refl,
  refl,
  λ i ne. let other : (i == sjc.used) ≡ false = ground arith in rw other refl,
)

pub same-IsFramed : (sjc after : SharedJitCompiledCode) → after ≡ sjc → IsFramed false sjc after
same-IsFramed sjc after h = (
  λ r. h,
  ap SharedJitCompiledCode.capacity h,
  ap SharedJitCompiledCode.deform_used_size h,
  λ i ne. ap (λ x. SharedJitCompiledCode.entry_at x i) h,
)
