-- ===== src/Like/Pattern.antt =====
-- LIKE patterns as tokens, and what it means for a text to match one. The escape byte is a backslash.
use pg_jitter.Prelude.{
  ℕ, ◌≡◌, ap, refl, Bool, true, false, ◌||◌, Option, none, some, List, [], ◌∷◌, ◌++◌, map, ◌==◌,
  if◌then◌else◌, arith,
}
use mathlib.Core.Option

abbrev pub Bytes : Type 0
Bytes = List ℕ

abbrev pub percent : ℕ
percent = b'%'

abbrev pub underscore : ℕ
underscore = b'_'

abbrev pub backslash : ℕ
backslash = 0x5c

-- The kinds PC_LITERAL, PC_PERCENT and PC_UNDERSCORE, with the byte of a literal.
pub data Token : Type 0 where
  literal : ℕ → Token
  percent_token : Token
  underscore_token : Token

-- The decoding loop of `simd_like_compile`; a dangling escape gives none.
unfoldable pub decode : Bytes → Option (List Token)
decode [] = some []
decode (c ∷ []) =
    if c == backslash
    then none
    else (if c == percent
        then some (percent_token ∷ [])
        else (if c == underscore then some (underscore_token ∷ []) else some (literal c ∷ [])))
decode (c ∷ e ∷ rest) = elim (c == backslash) [
  | true ↦ Option.map (λ ts. literal e ∷ ts) (decode rest)
  | false ↦
      let ts = decode (e ∷ rest) in
      if c == percent
      then Option.map (λ ts. percent_token ∷ ts) ts
      else (if c == underscore
          then Option.map (λ ts. underscore_token ∷ ts) ts
          else Option.map (λ ts. literal c ∷ ts) ts)
]

-- `%` takes any run of bytes, `_` one byte.
pub data Matches : List Token → Bytes → Type 0 where
  empty : Matches [] []
  byte : {c : ℕ} {ts : List Token} {s : Bytes} → Matches ts s → Matches (literal c ∷ ts) (c ∷ s)
  any_byte :
      {c : ℕ} {ts : List Token} {s : Bytes} → Matches ts s → Matches (underscore_token ∷ ts) (c ∷ s)
  leave : {ts : List Token} {s : Bytes} → Matches ts s → Matches (percent_token ∷ ts) s
  take_byte :
      {c : ℕ} {ts : List Token} {s : Bytes}
      → Matches (percent_token ∷ ts) s
      → Matches (percent_token ∷ ts) (c ∷ s)

pub Matches-literals :
    (l : Bytes) (ts : List Token) (s : Bytes)
    → Matches (map literal l ++ ts) s
    → (rest : Bytes) × (s ≡ l ++ rest) × Matches ts rest
Matches-literals [] ts s m = (s, refl, m)
Matches-literals (c ∷ l) ts [] m = elim m [ ]
Matches-literals (c ∷ l) ts (_ ∷ s) (byte m) =
    let (rest, e, m') = Matches-literals l ts s m in (rest, ap (λ (t : Bytes). c ∷ t) e, m')

pub literals-Matches :
    (l : Bytes) (ts : List Token) (rest : Bytes)
    → Matches ts rest
    → Matches (map literal l ++ ts) (l ++ rest)
literals-Matches [] ts rest m = m
literals-Matches (c ∷ l) ts rest m = byte (literals-Matches l ts rest m)

pub Matches-percent :
    (ts : List Token) (s : Bytes)
    → Matches (percent_token ∷ ts) s
    → (a : Bytes) × (b : Bytes) × (s ≡ a ++ b) × Matches ts b
Matches-percent ts s (leave m) = ([], s, refl, m)
Matches-percent ts (c ∷ s) (take_byte m) =
    let (a, b, e, m') = Matches-percent ts s m in (c ∷ a, b, ap (λ (t : Bytes). c ∷ t) e, m')

pub percent-Matches :
    (ts : List Token) (a b : Bytes) → Matches ts b → Matches (percent_token ∷ ts) (a ++ b)
percent-Matches ts [] b m = leave m
percent-Matches ts (c ∷ a) b m = take_byte (percent-Matches ts a b m)

pub percent-all : (s : Bytes) → Matches (percent_token ∷ []) s
percent-all [] = leave empty
percent-all (c ∷ s) = take_byte (percent-all s)

-- The bytes that have no meaning of their own.
abbrev pub is_special : ℕ → Bool
is_special c = c == percent || c == underscore || c == backslash

-- A byte that stands for itself is decoded alone.
decode-plain :
    (c : ℕ) (rest : Bytes) {ts : List Token}
    → is_special c ≡ false
    → decode rest ≡ some ts
    → decode (c ∷ rest) ≡ some (literal c ∷ ts)
unfolding decode
decode-plain c [] p e = ground (arith, p, e)
decode-plain c (x ∷ rest) p e = ground (arith, p, e)

pub decode-percent :
    (rest : Bytes) {ts : List Token}
    → decode rest ≡ some ts
    → decode (percent ∷ rest) ≡ some (percent_token ∷ ts)
unfolding decode
decode-percent [] e = ground (arith, e)
decode-percent (x ∷ rest) e = ground (arith, e)

abbrev pub IsPlain : Bytes → Type 0
IsPlain [] = Unit {0}
IsPlain (c ∷ l) = (is_special c ≡ false) × IsPlain l

pub decode-literals :
    (l rest : Bytes) {ts : List Token}
    → IsPlain l
    → decode rest ≡ some ts
    → decode (l ++ rest) ≡ some (map literal l ++ ts)
decode-literals [] rest p e = e
decode-literals (c ∷ l) rest p e = decode-plain c (l ++ rest) p.0 (decode-literals l rest p.1 e)
