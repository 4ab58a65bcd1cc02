-- ===== src/Like/Complete.antt =====
-- Which patterns the classification takes.
use pg_jitter.Prelude.{
  ℕ, ◌≡◌, ◌<◌, refl, Bool, true, false, not, ◌&&◌, some, [], ◌∷◌, ◌++◌, length, ◌==◌, arith,
}
use pg_jitter.Like.Pattern.{Bytes, percent, is_special, IsPlain}
use pg_jitter.Like.Fast.{
  Encoding, MatchType, exact, prefix, suffix, interior, class, strip_leading, strip_trailing,
  has_special, classify_stripped, simd_like_classify,
}
use pg_jitter.Like.Parts.{surround}

plain_byte : (c : ℕ) → is_special c ≡ false → (c == percent) ≡ false
plain_byte c h = ground arith

strip_trailing-append :
    (c : ℕ) (l : Bytes) → strip_trailing (c ∷ (l ++ percent ∷ [])) ≡ (true, c ∷ l)
unfolding strip_trailing
strip_trailing-append c [] = refl
strip_trailing-append c (d ∷ l) = rw (strip_trailing-append d l)

strip_trailing-plain : (l : Bytes) → IsPlain l → strip_trailing (l ++ []) ≡ (false, l)
unfolding strip_trailing
strip_trailing-plain [] p = refl
strip_trailing-plain (c ∷ []) p = rw (plain_byte c p.0)
strip_trailing-plain (c ∷ d ∷ l) p = rw (strip_trailing-plain (d ∷ l) p.1)

has_special-plain : (l : Bytes) → IsPlain l → has_special l ≡ false
unfolding has_special
has_special-plain [] p = refl
has_special-plain (c ∷ l) p = ground (arith, p.0, has_special-plain l p.1)

-- The match type of the flags.
abbrev pub match_type : Bool → Bool → MatchType
match_type true true = interior
match_type true false = suffix
match_type false true = prefix
match_type false false = exact

nonempty : (c : ℕ) (l : Bytes) → (length (c ∷ l) == 0) ≡ false
nonempty c l = ground arith

stripped_class :
    (hl ht : Bool) (c : ℕ) (l : Bytes)
    → IsPlain (c ∷ l)
    → classify_stripped hl ht (c ∷ l) ≡ class (match_type hl ht) (some (c ∷ l))
unfolding classify_stripped
stripped_class true true c l p = rw (has_special-plain (c ∷ l) p, nonempty c l)
stripped_class true false c l p = rw (has_special-plain (c ∷ l) p, nonempty c l)
stripped_class false true c l p = rw (has_special-plain (c ∷ l) p, nonempty c l)
stripped_class false false c l p = rw (has_special-plain (c ∷ l) p, nonempty c l)

-- In a single-byte encoding or UTF-8, a pattern that is a non-empty literal without `%`, `_` and `\`,
-- with or without one `%` before it and one behind it, is classified: by the match type of the two
-- `%`, with that literal.
pub classify_plain :
    (enc : Encoding) (hl ht : Bool) (lit : Bytes)
    → (not (enc.max_length == 1) && not enc.is_utf8) ≡ false
    → IsPlain lit
    → 0 < length lit
    → simd_like_classify enc (surround hl ht lit) ≡ class (match_type hl ht) (some lit)
unfolding simd_like_classify strip_leading
classify_plain enc hl ht [] e p h = absurd (omega arith)
classify_plain enc true true (c ∷ l) e p h =
    rw (e, strip_trailing-append c l, simd_like_classify) (stripped_class true true c l p)
classify_plain enc true false (c ∷ l) e p h =
    rw (e, strip_trailing-plain (c ∷ l) p, simd_like_classify) (stripped_class true false c l p)
classify_plain enc false true (c ∷ l) e p h =
    rw (e, plain_byte c p.0, strip_trailing-append c l, simd_like_classify)
      (stripped_class false true c l p)
classify_plain enc false false (c ∷ l) e p h =
    rw (e, plain_byte c p.0, strip_trailing-plain (c ∷ l) p, simd_like_classify)
      (stripped_class false false c l p)
