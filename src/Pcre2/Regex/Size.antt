-- ===== src/Pcre2/Regex/Size.antt =====
-- The size of what `like_to_regex` writes.
use mathlib.Core.Option
use pg_jitter.Prelude.{
  ℕ, ◌+◌, ◌*◌, ◌≤◌, Bool, true, false, Option, none, some, List, [], ◌∷◌, length, ◌==◌,
  if◌then◌else◌, arith, Bool-cases, inl, inr,
}
use pg_jitter.Like.Pattern.{
  Bytes, percent, underscore, backslash, Token, literal, percent_token, underscore_token,
}
use pg_jitter.Pcre2.Regex.Defs.{
  like_tokens, strip_front, strip_back, keep_token, regex_of, like_to_regex, emit, end_anchor,
  is_meta,
}

length-emit : (ts : List Token) (tail : Bytes) → length (emit ts tail) ≤ 2 * length ts + length tail
unfolding emit
length-emit [] tail = omega arith
length-emit (percent_token ∷ ts) tail = omega (arith, length-emit ts tail)
length-emit (underscore_token ∷ ts) tail = omega (arith, length-emit ts tail)
length-emit (literal c ∷ ts) tail = elim (Bool-cases (is_meta c)) [
  | inl special ↦ rw special (omega (arith, length-emit ts tail))
  | inr plain ↦ rw plain (omega (arith, length-emit ts tail))
]

length-strip_front : (ts : List Token) → length (strip_front ts).1 ≤ length ts
unfolding strip_front
length-strip_front [] = omega arith
length-strip_front (percent_token ∷ ts) = omega (arith, length-strip_front ts)
length-strip_front (underscore_token ∷ ts) = omega arith
length-strip_front (literal c ∷ ts) = omega arith

length-keep_token : (t : Token) (r : Bool × List Token) → length (keep_token t r).1 ≤ length r.1 + 1
length-keep_token percent_token (a, []) = omega arith
length-keep_token percent_token (a, t ∷ ts) = omega arith
length-keep_token underscore_token (a, ts) = omega arith
length-keep_token (literal c) (a, ts) = omega arith

length-strip_back : (ts : List Token) → length (strip_back ts).1 ≤ length ts
unfolding strip_back
length-strip_back [] = omega arith
length-strip_back (t ∷ ts) =
    omega (arith, length-keep_token t (strip_back ts), length-strip_back ts)

length-end_anchor : (anchored : Bool) → length (end_anchor anchored) ≤ 2
length-end_anchor true = omega arith
length-end_anchor false = omega arith

length-anchored :
    (anchored : Bool) (body : Bytes)
    → length (if anchored then b'^' ∷ body else body) ≤ length body + 1
length-anchored true body = omega arith
length-anchored false body = omega arith

length-regex_of : (ts : List Token) → length (regex_of ts) ≤ 2 * length ts + 3
unfolding regex_of
length-regex_of ts =
    let front = strip_front ts in
    let back = strip_back front.1 in
    omega (
      arith,
      length-anchored front.0 (emit back.1 (end_anchor back.0)),
      length-emit back.1 (end_anchor back.0),
      length-end_anchor back.0,
      length-strip_back front.1,
      length-strip_front ts,
    )

-- A result of at most `n` entries, if any.
abbrev pub Within {ℓ} : {A : Type ℓ} → ℕ → Option (List A) → Type 0
Within n none = Unit {0}
Within n (some xs) = length xs ≤ n

one_token :
    (t : Token) (n m : ℕ) (d : Option (List Token))
    → n + 1 ≤ m
    → Within n d
    → Within m (Option.map (λ us. t ∷ us) d)
one_token t n m none le h = tt
one_token t n m (some us) le h = omega arith

Within-like_tokens : (p : Bytes) → Within (length p) (like_tokens p)
unfolding like_tokens
Within-like_tokens [] = omega arith
Within-like_tokens (c ∷ []) = elim (Bool-cases (c == percent)) [
  | inl e ↦ rw (e, like_tokens) (omega arith)
  | inr e ↦ elim (Bool-cases (c == underscore)) [
    | inl f ↦ rw (e, f, like_tokens) (omega arith)
    | inr f ↦ elim (Bool-cases (c == backslash)) [
      | inl g ↦ rw (e, f, g, like_tokens) tt
      | inr g ↦ rw (e, f, g, like_tokens) (omega arith)
    ]
  ]
]
Within-like_tokens (c ∷ e ∷ rest) =
    let next : (t : Token)
        → Within (length (c ∷ e ∷ rest)) (Option.map (λ us. t ∷ us) (like_tokens (e ∷ rest))) =
      λ t.
        one_token t (length (e ∷ rest)) (length (c ∷ e ∷ rest)) (like_tokens (e ∷ rest))
          (omega arith) (Within-like_tokens (e ∷ rest)) in
    let after =
      one_token (literal e) (length rest) (length (c ∷ e ∷ rest)) (like_tokens rest) (omega arith)
        (Within-like_tokens rest) in
    elim (Bool-cases (c == percent)) [
      | inl h ↦ rw (h, like_tokens) (next percent_token)
      | inr h ↦ elim (Bool-cases (c == underscore)) [
        | inl f ↦ rw (h, f, like_tokens) (next underscore_token)
        | inr f ↦ elim (Bool-cases (c == backslash)) [
          | inl g ↦ rw (h, f, g, like_tokens) after
          | inr g ↦ rw (h, f, g, like_tokens) (next (literal c))
        ]
      ]
    ]

Within-regex_of :
    (n : ℕ) (d : Option (List Token)) → Within n d → Within (2 * n + 3) (Option.map regex_of d)
Within-regex_of n none h = tt
Within-regex_of n (some ts) h = omega (arith, length-regex_of ts)

guarded :
    (n : ℕ) (refused : Bool) (d : Option Bytes)
    → Within n d
    → Within n (if refused then none else d)
guarded n true d h = tt
guarded n false d h = h

-- The writes stay inside the buffer: an expression, without its closing NUL, has fewer bytes than the
-- 2 * n + 4 that are allocated for a pattern of n bytes.
pub inside_buffer :
    (max_alloc : ℕ) (room : Bool) (p : Bytes)
    → Within (2 * length p + 3) (like_to_regex max_alloc room p)
unfolding like_to_regex
inside_buffer max_alloc room p =
    guarded _ _ _ (Within-regex_of (length p) (like_tokens p) (Within-like_tokens p))
