-- ===== src/Like/Parts.antt =====
-- The stripping of `%` from both ends of a pattern.
use pg_jitter.Prelude.{
  ℕ, ◌≡◌, ◌∙◌, sym, ap, refl, Bool, true, false, [], ◌∷◌, ◌++◌, ◌==◌, ==_iff, arith, Bool-cases,
  inl, inr,
}
use pg_jitter.Like.Pattern.{Bytes, percent, IsPlain}
use pg_jitter.Like.Fast.{strip_leading, strip_trailing, has_special}

-- The pattern from its parts.
abbrev pub surround : Bool → Bool → Bytes → Bytes
surround true true lit = percent ∷ (lit ++ percent ∷ [])
surround true false lit = percent ∷ (lit ++ [])
surround false true lit = lit ++ percent ∷ []
surround false false lit = lit ++ []

pub surround_cons :
    (c : ℕ) (ht : Bool) (l : Bytes) → surround false ht (c ∷ l) ≡ c ∷ surround false ht l
surround_cons c true l = refl
surround_cons c false l = refl

trailing_parts :
    (rest : Bytes) → rest ≡ surround false (strip_trailing rest).0 (strip_trailing rest).1
unfolding strip_trailing
trailing_parts [] = refl
trailing_parts (c ∷ []) = ground arith
trailing_parts (c ∷ d ∷ rest) =
    ap (λ (t : Bytes). c ∷ t) (trailing_parts (d ∷ rest))
    ∙ sym (surround_cons c (strip_trailing (d ∷ rest)).0 (strip_trailing (d ∷ rest)).1)

surround_leading :
    (ht : Bool) (lit : Bytes) → percent ∷ surround false ht lit ≡ surround true ht lit
surround_leading true lit = refl
surround_leading false lit = refl

pub leading_parts :
    (p : Bytes)
    → p
      ≡ surround
          (strip_leading p).0
          (strip_trailing (strip_leading p).1).0
          (strip_trailing (strip_leading p).1).1
unfolding strip_leading
leading_parts [] = trailing_parts []
leading_parts (c ∷ rest) = elim (Bool-cases (c == percent)) [
  | inl e ↦
      let same : c ≡ percent = (==_iff c percent).0 e in
      rw (same, strip_leading)
        (ap (λ (t : Bytes). percent ∷ t) (trailing_parts rest)
          ∙ surround_leading (strip_trailing rest).0 (strip_trailing rest).1)
  | inr e ↦ rw e (trailing_parts (c ∷ rest))
]

pub plain : (l : Bytes) → has_special l ≡ false → IsPlain l
unfolding has_special
plain [] h = tt
plain (c ∷ l) h = (ground arith, plain l (ground arith))
