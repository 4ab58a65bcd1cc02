-- ===== src/Like/Classified.antt =====
-- The fast matcher agrees with LIKE on the patterns that are classified.
use pg_jitter.Prelude.{
  ◌≡◌, ◌↔◌, ◌∙◌, sym, ap, refl, Bool, true, false, not, ◌&&◌, ◌||◌, none, some, List, [], ◌∷◌, ◌++◌,
  map, length, ◌==◌, if◌then◌else◌, arith, Bool-cases, inl, inr,
}
use mathlib.Core.List.{append-nil}
use pg_jitter.Like.Pattern.{
  Bytes, percent, Token, literal, percent_token, decode, Matches, empty, Matches-literals,
  literals-Matches, Matches-percent, percent-Matches, percent-all, IsPlain, decode-percent,
  decode-literals,
}
use pg_jitter.Like.Fast.{
  Encoding, StringZilla, exact, prefix, suffix, interior, Class, too_complex, class, strip_leading,
  strip_trailing, has_special, classify_stripped, simd_like_classify, simd_like_match_text,
}
use pg_jitter.Like.Parts.{surround, leading_parts, plain}
use pg_jitter.Like.Found.{
  nothing_left, exact_finds, prefix_matched, prefix_same, suffix_matched, suffix_same,
  interior_matched, interior_same,
}

-- The tokens of the pattern from its parts.
abbrev tokens_of : Bool → Bool → Bytes → List Token
tokens_of true true lit = percent_token ∷ (map literal lit ++ percent_token ∷ [])
tokens_of true false lit = percent_token ∷ (map literal lit ++ [])
tokens_of false true lit = map literal lit ++ percent_token ∷ []
tokens_of false false lit = map literal lit ++ []

decode_end : decode [] ≡ some []
unfolding decode
decode_end = refl

decode-surround :
    (hl ht : Bool) (lit : Bytes)
    → IsPlain lit
    → decode (surround hl ht lit) ≡ some (tokens_of hl ht lit)
decode-surround true true lit p =
    decode-percent _ (decode-literals lit (percent ∷ []) p (decode-percent [] decode_end))
decode-surround true false lit p = decode-percent _ (decode-literals lit [] p decode_end)
decode-surround false true lit p =
    decode-literals lit (percent ∷ []) p (decode-percent [] decode_end)
decode-surround false false lit p = decode-literals lit [] p decode_end

-- The class agrees with LIKE on a text: the fast matcher answers as the tokens match, and a class
-- without a literal matches every text.
abbrev pub Agrees : StringZilla → Bytes → List Token → Class → Type 0
Agrees sz text ts too_complex = Unit {0}
Agrees sz text ts (class mt none) = Matches ts text
Agrees sz text ts (class mt (some lit)) =
    (simd_like_match_text sz text lit mt ≡ true) ↔ Matches ts text

literal_text : (lit s : Bytes) → Matches (map literal lit ++ []) s → s ≡ lit
literal_text lit s m =
    let (rest, e, m') = Matches-literals lit [] s m in
    e ∙ ap (λ (t : Bytes). lit ++ t) (nothing_left m') ∙ append-nil lit

literal-Matches : (lit s : Bytes) → s ≡ lit → Matches (map literal lit ++ []) s
literal-Matches lit s e = rw (e ∙ sym (append-nil lit)) (literals-Matches lit [] [] empty)

module _ (sz : StringZilla) (text lit : Bytes) where
  exact-Agrees : Agrees sz text (tokens_of false false lit) (class exact (some lit))
  exact-Agrees = (
    λ h. literal-Matches lit text ((exact_finds sz lit text).0 h),
    λ m. (exact_finds sz lit text).1 (literal_text lit text m),
  )

  prefix-Agrees : Agrees sz text (tokens_of false true lit) (class prefix (some lit))
  prefix-Agrees = (
    λ h.
        let (rest, e) = prefix_matched sz lit text h in
        rw e (literals-Matches lit (percent_token ∷ []) rest (percent-all rest)),
    λ m.
        let (rest, e, m') = Matches-literals lit (percent_token ∷ []) text m in
        rw e (prefix_same sz lit rest),
  )

  suffix-Agrees : Agrees sz text (tokens_of true false lit) (class suffix (some lit))
  suffix-Agrees = (
    λ h.
        let (before, e) = suffix_matched sz lit text h in
        rw e (percent-Matches (map literal lit ++ []) before lit (literal-Matches lit lit refl)),
    λ m.
        let (before, rest, e, m') = Matches-percent (map literal lit ++ []) text m in
        let whole : text ≡ before ++ lit =
          e ∙ ap (λ (t : Bytes). before ++ t) (literal_text lit rest m') in
        rw whole (suffix_same sz lit before),
  )

  interior-Agrees : Agrees sz text (tokens_of true true lit) (class interior (some lit))
  interior-Agrees = (
    λ h.
        let (before, after, e) = interior_matched sz lit text h in
        rw e (
          percent-Matches (map literal lit ++ percent_token ∷ []) before (lit ++ after)
            (literals-Matches lit (percent_token ∷ []) after (percent-all after))),
    λ m.
        let (before, rest, e, m') =
          Matches-percent (map literal lit ++ percent_token ∷ []) text m in
        let (after, e', m'') = Matches-literals lit (percent_token ∷ []) rest m' in
        let whole : text ≡ before ++ (lit ++ after) = e ∙ ap (λ (t : Bytes). before ++ t) e' in
        rw whole (interior_same sz lit before after),
  )

everything : (hl ht : Bool) (text : Bytes) → (hl || ht) ≡ true → Matches (tokens_of hl ht []) text
everything true true text h = percent-Matches (percent_token ∷ []) [] text (percent-all text)
everything true false text h = percent-all text
everything false true text h = percent-all text
everything false false text h = cc

-- What a class of a pattern says: none for a pattern that is too complex.
abbrev pub Classifies : StringZilla → Bytes → Bytes → Class → Type 0
Classifies sz pattern text too_complex = Unit {0}
Classifies sz pattern text (class mt lit) =
    (ts : List Token) × (decode pattern ≡ some ts) × Agrees sz text ts (class mt lit)

empty_literal : (lit : Bytes) → (length lit == 0) ≡ true → lit ≡ []
empty_literal [] h = refl
empty_literal (c ∷ lit) h = absurd (ground arith)

classified :
    (sz : StringZilla) (text : Bytes) (hl ht : Bool) (lit : Bytes)
    → IsPlain lit
    → (length lit == 0 && (hl || ht)) ≡ false
    → Classifies sz (surround hl ht lit) text (
        if hl
        then (if ht then class interior (some lit) else class suffix (some lit))
        else (if ht then class prefix (some lit) else class exact (some lit)))
classified sz text true true lit p h =
    (tokens_of true true lit, decode-surround true true lit p, interior-Agrees sz text lit)
classified sz text true false lit p h =
    (tokens_of true false lit, decode-surround true false lit p, suffix-Agrees sz text lit)
classified sz text false true lit p h =
    (tokens_of false true lit, decode-surround false true lit p, prefix-Agrees sz text lit)
classified sz text false false lit p h =
    (tokens_of false false lit, decode-surround false false lit p, exact-Agrees sz text lit)

stripped :
    (sz : StringZilla) (text : Bytes) (hl ht : Bool) (lit : Bytes)
    → Classifies sz (surround hl ht lit) text (classify_stripped hl ht lit)
unfolding classify_stripped
stripped sz text hl ht lit = elim (Bool-cases (has_special lit)) [
  | inl e ↦ rw (e, classify_stripped) tt
  | inr e ↦ elim (Bool-cases (length lit == 0 && (hl || ht))) [
    | inl nothing ↦
        let no_literal = empty_literal lit (ground arith) in
        rw (e, nothing, classify_stripped)
          (
            tokens_of hl ht lit,
            decode-surround hl ht lit (plain lit e),
            rw no_literal (everything hl ht text (ground arith)),
          )
    | inr something ↦
        rw (e, something, classify_stripped) (classified sz text hl ht lit (plain lit e) something)
  ]
]

at_parts :
    (sz : StringZilla) (text parts : Bytes) (cls : Class) (pattern : Bytes)
    → pattern ≡ parts
    → Classifies sz parts text cls
    → Classifies sz pattern text cls
at_parts sz text parts cls pattern e c = rw e c

-- The fast matcher answers as LIKE does. Where a pattern is classified it decodes, and a text matches
-- its tokens exactly where `simd_like_match_text` with the match type and the literal answers 1; where
-- the literal is NULL every text matches. StringZilla's functions are as documented.
pub classify_agrees :
    (sz : StringZilla) (enc : Encoding) (pattern text : Bytes)
    → Classifies sz pattern text (simd_like_classify enc pattern)
unfolding simd_like_classify
classify_agrees sz enc pattern text =
    let (hl, rest) = strip_leading pattern in
    let (ht, lit) = strip_trailing rest in
    elim (Bool-cases (not (enc.max_length == 1) && not enc.is_utf8)) [
      | inl e ↦ rw (e, simd_like_classify) tt
      | inr e ↦
          rw (e, simd_like_classify)
            (at_parts sz text _ _ pattern (leading_parts pattern) (stripped sz text hl ht lit))
    ]
