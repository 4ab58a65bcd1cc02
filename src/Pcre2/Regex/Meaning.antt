-- ===== src/Pcre2/Regex/Meaning.antt =====
-- What the translation means: the expression is read as a search that finds a text where LIKE matches it.
use mathlib.Core.Option
use pg_jitter.Prelude.{
  ℕ, ◌-◌, ◌/◌, ◌≡◌, ◌↔◌, ◌∙◌, ap, refl, Bool, true, false, ◌||◌, Option, none, some, List, [], ◌∷◌,
  ◌++◌, length, ltb, ◌==◌, if◌then◌else◌, arith, Bool-cases, inl, inr,
}
use pg_jitter.Like.Pattern.{Bytes, percent, underscore, backslash, Token, decode, Matches}
use pg_jitter.Pcre2.Regex.Defs.{like_tokens, strip_front, strip_back}
use pg_jitter.Pcre2.Regex.Stripped.{Behind, front_iff, back_iff}
use pg_jitter.Pcre2.Regex.Reading.{read_regex}

-- A text has a part that the items match; it begins or ends the text where the expression says so.
abbrev pub Searches : Bool × List Token × Bool → Bytes → Type 0
Searches (from_start, items, to_end) s =
    (before : Bytes) × (mid : Bytes) × (after : Bytes) × (s ≡ before ++ (mid ++ after))
    × (from_start ≡ true → before ≡ [])
    × (to_end ≡ true → after ≡ [])
    × Matches items mid

Searches-stripped :
    (front : Bool × List Token) (s : Bytes)
    → Searches (front.0, (strip_back front.1).1, (strip_back front.1).0) s ↔ Behind front s
Searches-stripped (start, ts) s = (
  λ (before, mid, after, e, at_start, at_end, m). (
    before,
    mid ++ after,
    e,
    at_start,
    (back_iff ts (mid ++ after)).1 (mid, after, refl, at_end, m),
  ),
  λ (before, rest, e, at_start, m).
      let (mid, after, e', at_end, m') = (back_iff ts rest).0 m in
      (before, mid, after, e ∙ ap (λ (t : Bytes). before ++ t) e', at_start, at_end, m'),
)

-- The search of the stripped tokens.
abbrev pub search_of : List Token → Bool × List Token × Bool
search_of ts =
    let front = strip_front ts in let back = strip_back front.1 in (front.0, back.1, back.0)

pub search_iff : (ts : List Token) (s : Bytes) → Searches (search_of ts) s ↔ Matches ts s
search_iff ts s =
    let (to_behind, from_behind) = Searches-stripped (strip_front ts) s in
    let (behind, matched) = front_iff ts s in
    (λ h. matched (to_behind h), λ m. from_behind (behind m))

-- The two decoders of a pattern give the same tokens.
pub like_tokens-decode : (p : Bytes) → like_tokens p ≡ decode p
unfolding like_tokens decode
like_tokens-decode [] = refl
like_tokens-decode (c ∷ []) = ground arith
like_tokens-decode (c ∷ e ∷ rest) = elim (Bool-cases (c == backslash)) [
  | inl escape ↦
      let no_run : (c == percent) ≡ false = ground arith in
      let no_byte : (c == underscore) ≡ false = ground arith in
      rw (escape, no_run, no_byte, like_tokens-decode rest, decode) refl
  | inr plain ↦ rw (plain, like_tokens-decode (e ∷ rest), decode) refl
]

abbrev pub limit : ℕ → Bytes → Bool
limit max_alloc p =
    ltb ((max_alloc - 4) / 2) (length p)
    || ltb (max_alloc / 8) (if length p == 0 then 1 else length p)

-- What the translation gives for a decoded pattern.
abbrev pub Translates : Option Bytes → Option (List Token) → Type 0
Translates result none = result ≡ none
Translates result (some ts) =
    (regex : Bytes) × (result ≡ some regex)
    × ((found : Bool × List Token × Bool) × (read_regex regex ≡ some found)
        × ((s : Bytes) → Searches found s ↔ Matches ts s))
