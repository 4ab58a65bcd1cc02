-- ===== src/Like/Fast.antt =====
-- `simd_like_classify` and `simd_like_match_text`.
use pg_jitter.Prelude.{
  ℕ, ◌-◌, ◌≡◌, ◌↔◌, Bool, true, false, not, ◌&&◌, ◌||◌, Option, none, some, [], ◌∷◌, ◌++◌, take,
  drop, length, ◌==◌, leb, if◌then◌else◌,
}
use pg_jitter.Like.Pattern.{Bytes, percent, is_special}

-- `pg_database_encoding_max_length()` and `GetDatabaseEncoding() == PG_UTF8`.
pub record Encoding : Type 0 where
  pub max_length : ℕ
  pub is_utf8 : Bool

-- The StringZilla functions, as documented: equality of the first bytes, here of all bytes of two
-- texts of one length, and the search for a substring.
pub record StringZilla : Type 0 where
  pub sz_equal : Bytes → Bytes → Bool
  pub sz_find : Bytes → Bytes → Option ℕ
  pub sz_equal_iff : (a b : Bytes) → length a ≡ length b → (sz_equal a b ≡ true) ↔ (a ≡ b)
  pub sz_find_some :
      (a b : Bytes) {i : ℕ}
      → sz_find a b ≡ some i
      → (before : Bytes) × (after : Bytes) × (a ≡ before ++ (b ++ after))
  pub sz_find_none : (b before after : Bytes) → ¬ (sz_find (before ++ (b ++ after)) b ≡ none)

pub data MatchType : Type 0 where
  exact prefix suffix interior : MatchType

-- -1, or a match type with the literal, which is NULL where every text matches.
pub data Class : Type 0 where
  too_complex : Class
  class : MatchType → Option Bytes → Class

unfoldable pub strip_leading : Bytes → Bool × Bytes
strip_leading [] = (false, [])
strip_leading (c ∷ rest) = if c == percent then (true, rest) else (false, c ∷ rest)

unfoldable pub strip_trailing : Bytes → Bool × Bytes
strip_trailing [] = (false, [])
strip_trailing (c ∷ []) = if c == percent then (true, []) else (false, c ∷ [])
strip_trailing (c ∷ d ∷ rest) = let (found, kept) = strip_trailing (d ∷ rest) in (found, c ∷ kept)

unfoldable pub has_special : Bytes → Bool
has_special [] = false
has_special (c ∷ rest) = is_special c || has_special rest

-- What follows the stripping: the check of the remaining literal, and the match type.
unfoldable pub classify_stripped : Bool → Bool → Bytes → Class
classify_stripped has_leading_pct has_trailing_pct lit =
    if has_special lit
    then too_complex
    else (if length lit == 0 && (has_leading_pct || has_trailing_pct)
        then class exact none
        else (if has_leading_pct
            then (if has_trailing_pct then class interior (some lit) else class suffix (some lit))
            else (if has_trailing_pct then class prefix (some lit) else class exact (some lit))))

unfoldable pub simd_like_classify : Encoding → Bytes → Class
simd_like_classify enc pattern =
    let (has_leading_pct, rest) = strip_leading pattern in
    let (has_trailing_pct, lit) = strip_trailing rest in
    if not (enc.max_length == 1) && not enc.is_utf8
    then too_complex
    else classify_stripped has_leading_pct has_trailing_pct lit

-- memcmp(a, b, n) == 0
unfoldable pub bytes_eq : Bytes → Bytes → Bool
bytes_eq [] [] = true
bytes_eq (x ∷ a) (y ∷ b) = x == y && bytes_eq a b
bytes_eq _ _ = false

module _ (sz : StringZilla) where
  unfoldable pub simd_like_match_text : Bytes → Bytes → MatchType → Bool
  unfolding bytes_eq
  simd_like_match_text text pat exact = length text == length pat && sz.sz_equal text pat
  simd_like_match_text text pat prefix =
      leb (length pat) (length text) && bytes_eq (take (length pat) text) pat
  simd_like_match_text text pat suffix =
      leb (length pat) (length text) && bytes_eq (drop (length text - length pat) text) pat
  simd_like_match_text text pat interior = elim (sz.sz_find text pat) [
    | none ↦ false
    | some i ↦ true
  ]
