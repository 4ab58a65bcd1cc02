-- ===== src/Pcre2/Regex/Defs.antt =====
-- The translation of src/pg_jitter_pcre2.c, by its loops: the tokens, the strip of unescaped `%` from both
-- ends, and the bytes that are written.
use pg_jitter.Prelude.{
  ℕ, ◌-◌, ◌/◌, Bool, true, false, not, ◌||◌, Option, none, some, List, [], ◌∷◌, length, ltb, ◌==◌,
  if◌then◌else◌,
}
use mathlib.Core.Option
use pg_jitter.Like.Pattern.{
  Bytes, percent, underscore, backslash, Token, literal, percent_token, underscore_token,
}

-- A dangling escape gives none.
unfoldable pub like_tokens : Bytes → Option (List Token)
like_tokens [] = some []
like_tokens (c ∷ []) =
    if c == percent
    then some (percent_token ∷ [])
    else (if c == underscore
        then some (underscore_token ∷ [])
        else (if c == backslash then none else some (literal c ∷ [])))
like_tokens (c ∷ e ∷ rest) =
    let next = like_tokens (e ∷ rest) in
    if c == percent
    then Option.map (λ ts. percent_token ∷ ts) next
    else (if c == underscore
        then Option.map (λ ts. underscore_token ∷ ts) next
        else elim (c == backslash) [
          | true ↦ Option.map (λ ts. literal e ∷ ts) (like_tokens rest)
          | false ↦ Option.map (λ ts. literal c ∷ ts) next
        ])

-- The two `while` loops: whether the end is anchored, and the tokens that are left.
unfoldable pub strip_front : List Token → Bool × List Token
strip_front [] = (true, [])
strip_front (percent_token ∷ ts) = (false, (strip_front ts).1)
strip_front (literal c ∷ ts) = (true, literal c ∷ ts)
strip_front (underscore_token ∷ ts) = (true, underscore_token ∷ ts)

-- One token before what is left of the others.
abbrev pub keep_token : Token → Bool × List Token → Bool × List Token
keep_token percent_token (anchored, []) = (false, [])
keep_token percent_token (anchored, t ∷ ts) = (anchored, percent_token ∷ t ∷ ts)
keep_token (literal c) (anchored, ts) = (anchored, literal c ∷ ts)
keep_token underscore_token (anchored, ts) = (anchored, underscore_token ∷ ts)

unfoldable pub strip_back : List Token → Bool × List Token
strip_back [] = (true, [])
strip_back (t ∷ ts) = keep_token t (strip_back ts)

-- The bytes that get a backslash.
unfoldable pub is_meta : ℕ → Bool
is_meta c =
    c == b'.'
    || c == b'+'
    || c == b'*'
    || c == b'?'
    || c == b'['
    || c == b']'
    || c == b'('
    || c == b')'
    || c == b'{'
    || c == b'}'
    || c == b'^'
    || c == b'$'
    || c == b'|'
    || c == backslash

unfoldable pub emit : List Token → Bytes → Bytes
emit [] tail = tail
emit (percent_token ∷ ts) tail = b'.' ∷ b'*' ∷ emit ts tail
emit (underscore_token ∷ ts) tail = b'.' ∷ emit ts tail
emit (literal c ∷ ts) tail = if is_meta c then backslash ∷ c ∷ emit ts tail else c ∷ emit ts tail

abbrev pub end_anchor : Bool → Bytes
end_anchor true = backslash ∷ b'z' ∷ []
end_anchor false = []

-- What is written before the closing NUL.
unfoldable pub regex_of : List Token → Bytes
regex_of tokens =
    let (anchored_start, rest) = strip_front tokens in
    let (anchored_end, inner) = strip_back rest in
    let body = emit inner (end_anchor anchored_end) in if anchored_start then b'^' ∷ body else body

-- `MaxAllocSize` is 2 ^ 30 - 1 in PostgreSQL, here a parameter; `room` is the success of the two
-- allocations. A token takes 8 bytes.
unfoldable pub like_to_regex : ℕ → Bool → Bytes → Option Bytes
like_to_regex max_alloc room like_pat =
    if ltb ((max_alloc - 4) / 2) (length like_pat)
      || ltb (max_alloc / 8) (if length like_pat == 0 then 1 else length like_pat)
      || not room
    then none
    else Option.map regex_of (like_tokens like_pat)
