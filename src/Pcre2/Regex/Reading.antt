-- ===== src/Pcre2/Regex/Reading.antt =====
-- The part of PCRE2's syntax that the translation uses, as its documentation reads it: `^` and `\z` are
-- the ends of the text, `.` is any byte (with DOTALL, of a single-byte text), `.*` any run, and a
-- backslash takes the meaning of a byte that is no letter or digit.
use mathlib.Core.Option
use pg_jitter.Prelude.{
  ℕ, ◌≡◌, refl, Bool, true, false, not, Option, none, some, List, [], ◌∷◌, ◌==◌, if◌then◌else◌,
  arith, Bool-cases, inl, inr,
}
use pg_jitter.Like.Pattern.{Bytes, backslash, Token, literal, percent_token, underscore_token}
use pg_jitter.Pcre2.Regex.Defs.{is_meta, emit, end_anchor}

abbrev pub one_more : Token → List Token × Bool → List Token × Bool
one_more t (ts, to_end) = (t ∷ ts, to_end)

-- What follows `^`: the items, and whether `\z` ends them.
unfoldable pub read_items : Bytes → Option (List Token × Bool)
read_items [] = some ([], false)
read_items (c ∷ []) =
    if c == b'.'
    then some (underscore_token ∷ [], false)
    else (if is_meta c then none else some (literal c ∷ [], false))
read_items (c ∷ d ∷ rest) = elim (c == backslash) [
  | true ↦ elim (d == b'z') [
    | true ↦ elim rest [ [] ↦ some ([], true) | x ∷ xs ↦ none ]
    | false ↦ elim (is_meta d) [
      | true ↦ Option.map (one_more (literal d)) (read_items rest)
      | false ↦ none
    ]
  ]
  | false ↦ elim (c == b'.') [
    | true ↦ elim (d == b'*') [
      | true ↦ Option.map (one_more percent_token) (read_items rest)
      | false ↦ Option.map (one_more underscore_token) (read_items (d ∷ rest))
    ]
    | false ↦ elim (is_meta c) [
      | true ↦ none
      | false ↦ Option.map (one_more (literal c)) (read_items (d ∷ rest))
    ]
  ]
]

-- Whether `^` begins the expression, and the rest.
unfoldable pub read_regex : Bytes → Option (Bool × List Token × Bool)
read_regex [] = some (false, [], false)
read_regex (c ∷ rest) =
    let body = if c == b'^' then rest else c ∷ rest in
    Option.map (λ r. (c == b'^', r.0, r.1)) (read_items body)

plain_byte :
    (c : ℕ)
    → is_meta c ≡ false
    → ((c == backslash) ≡ false)
      × ((c == b'.') ≡ false)
      × ((c == b'*') ≡ false)
      × ((c == b'^') ≡ false)
unfolding is_meta
plain_byte c h = ground arith

meta-ne-z : (c : ℕ) → is_meta c ≡ true → (c == b'z') ≡ false
unfolding is_meta
meta-ne-z c h = ground arith

read_literal :
    (c : ℕ) (rest : Bytes) (r : List Token × Bool)
    → is_meta c ≡ false
    → read_items rest ≡ some r
    → read_items (c ∷ rest) ≡ some (one_more (literal c) r)
unfolding read_items
read_literal c [] (ts, to_end) h e =
    let (no_escape, no_dot, no_star, no_hat) = plain_byte c h in rw (no_dot, h) cc
read_literal c (d ∷ rest) (ts, to_end) h e =
    let (no_escape, no_dot, no_star, no_hat) = plain_byte c h in
    rw (no_escape, no_dot, h, e, read_items)

read_escaped :
    (c : ℕ) (rest : Bytes) (r : List Token × Bool)
    → is_meta c ≡ true
    → read_items rest ≡ some r
    → read_items (backslash ∷ c ∷ rest) ≡ some (one_more (literal c) r)
unfolding read_items
read_escaped c rest r h e = rw (meta-ne-z c h, h, e, read_items)

read_run :
    (rest : Bytes) (r : List Token × Bool)
    → read_items rest ≡ some r
    → read_items (b'.' ∷ b'*' ∷ rest) ≡ some (one_more percent_token r)
unfolding read_items
read_run rest r e = rw e

-- A star that would follow a dot.
abbrev no_star : Bytes → Bool
no_star [] = true
no_star (d ∷ rest) = not (d == b'*')

read_dot :
    (rest : Bytes) (r : List Token × Bool)
    → no_star rest ≡ true
    → read_items rest ≡ some r
    → read_items (b'.' ∷ rest) ≡ some (one_more underscore_token r)
unfolding read_items
read_dot [] (ts, to_end) h e = cc
read_dot (d ∷ rest) r h e =
    let other : (d == b'*') ≡ false = ground arith in rw (other, e, read_items)

no_star-emit :
    (ts : List Token) (tail : Bytes) → no_star tail ≡ true → no_star (emit ts tail) ≡ true
unfolding emit
no_star-emit [] tail h = h
no_star-emit (percent_token ∷ ts) tail h = refl
no_star-emit (underscore_token ∷ ts) tail h = refl
no_star-emit (literal c ∷ ts) tail h = elim (Bool-cases (is_meta c)) [
  | inl special ↦ rw special refl
  | inr plain ↦ let (e, d, star, hat) = plain_byte c plain in rw (plain, star) refl
]

end_read :
    (anchored : Bool)
    → (read_items (end_anchor anchored) ≡ some ([], anchored))
      × (no_star (end_anchor anchored) ≡ true)
unfolding read_items
end_read true = (refl, refl)
end_read false = (refl, refl)

-- The expression is read back as the tokens.
pub read_items-emit :
    (ts : List Token) (anchored : Bool)
    → read_items (emit ts (end_anchor anchored)) ≡ some (ts, anchored)
unfolding emit
read_items-emit [] anchored = (end_read anchored).0
read_items-emit (percent_token ∷ ts) anchored =
    read_run _ (ts, anchored) (read_items-emit ts anchored)
read_items-emit (underscore_token ∷ ts) anchored =
    read_dot _ (ts, anchored) (no_star-emit ts (end_anchor anchored) (end_read anchored).1)
      (read_items-emit ts anchored)
read_items-emit (literal c ∷ ts) anchored = elim (Bool-cases (is_meta c)) [
  | inl special ↦
      rw (special, emit) (read_escaped c _ (ts, anchored) special (read_items-emit ts anchored))
  | inr plain ↦
      rw (plain, emit) (read_literal c _ (ts, anchored) plain (read_items-emit ts anchored))
]

abbrev starts_hat : Bytes → Bool
starts_hat [] = false
starts_hat (c ∷ rest) = c == b'^'

no_hat-emit :
    (ts : List Token) (anchored : Bool) → starts_hat (emit ts (end_anchor anchored)) ≡ false
unfolding emit
no_hat-emit [] true = refl
no_hat-emit [] false = refl
no_hat-emit (percent_token ∷ ts) anchored = refl
no_hat-emit (underscore_token ∷ ts) anchored = refl
no_hat-emit (literal c ∷ ts) anchored = elim (Bool-cases (is_meta c)) [
  | inl special ↦ rw special refl
  | inr plain ↦ let (e, d, star, hat) = plain_byte c plain in rw (plain, hat) refl
]

read_regex_unanchored :
    (body : Bytes) (r : List Token × Bool)
    → starts_hat body ≡ false
    → read_items body ≡ some r
    → read_regex body ≡ some (false, r.0, r.1)
unfolding read_regex read_items
read_regex_unanchored [] (ts, to_end) h e = cc
read_regex_unanchored (c ∷ rest) r h e = rw (h, e)

-- The whole expression, with `^` in front or not.
pub read_regex-emit :
    (anchored_start anchored_end : Bool) (ts : List Token)
    → read_regex (
        if anchored_start
        then b'^' ∷ emit ts (end_anchor anchored_end)
        else emit ts (end_anchor anchored_end))
      ≡ some (anchored_start, ts, anchored_end)
unfolding read_regex
read_regex-emit true anchored_end ts = rw (read_items-emit ts anchored_end)
read_regex-emit false anchored_end ts =
    read_regex_unanchored _ (ts, anchored_end) (no_hat-emit ts anchored_end)
      (read_items-emit ts anchored_end)
