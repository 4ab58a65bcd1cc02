-- ===== src/Examples/Liked.antt =====
-- LIKE patterns around one literal, over a plain search for the literal.
use mathlib.Core.Option
use pg_jitter.Prelude.{
  ℕ, suc, ◌≡◌, ap, refl, Bool, true, false, ◌&&◌, Option, some, none, [], ◌∷◌, ◌++◌, ◌==◌, ==_iff,
  if◌then◌else◌, arith, Bool-cases, inl, inr,
}
use pg_jitter.Like.Pattern.{Bytes, percent}
use pg_jitter.Like.Fast.{
  Encoding, StringZilla, interior, class, bytes_eq, strip_leading, strip_trailing, has_special,
  classify_stripped, simd_like_classify, simd_like_match_text,
}
use pg_jitter.Like.Parts.{surround}
use pg_jitter.Like.Found.{bytes_eq→eq, bytes_eq_refl}
use pg_jitter.Like.Classified.{Classifies, classify_agrees}
use pg_jitter.Like.Complete.{match_type, classify_plain}

pub starts : Bytes → Bytes → Bool
starts a [] = true
starts [] (y ∷ b) = false
starts (x ∷ a) (y ∷ b) = x == y && starts a b

starts_rest : (a b : Bytes) → starts a b ≡ true → (rest : Bytes) × (a ≡ b ++ rest)
unfolding starts
starts_rest a [] h = (a, refl)
starts_rest [] (y ∷ b) h = cc
starts_rest (x ∷ a) (y ∷ b) h =
    let same : x ≡ y = (==_iff x y).0 (ground arith) in
    let (rest, e) = starts_rest a b (ground arith) in (rest, cc)

starts_same : (b rest : Bytes) → starts (b ++ rest) b ≡ true
unfolding starts
starts_same [] [] = refl
starts_same [] (x ∷ rest) = refl
starts_same (y ∷ b) rest = ground (arith, starts_same b rest)

pub find : Bytes → Bytes → Option ℕ
find [] b = if starts [] b then some 0 else none
find (c ∷ a) b = let later = find a b in if starts (c ∷ a) b then some 0 else Option.map suc later

find_at : (a b : Bytes) → starts a b ≡ true → find a b ≡ some 0
unfolding find
find_at [] b h = rw h
find_at (c ∷ a) b h = rw h

map-some : (r : Option ℕ) {i : ℕ} → Option.map suc r ≡ some i → (j : ℕ) × (r ≡ some j)
map-some none h = cc
map-some (some j) h = (j, refl)

map-none : (r : Option ℕ) → Option.map suc r ≡ none → r ≡ none
map-none none h = refl
map-none (some j) h = cc

pub Found : Bytes → Bytes → Type 0
Found a b = (before : Bytes) × (after : Bytes) × (a ≡ before ++ (b ++ after))

Found-at_start : (a b : Bytes) → starts a b ≡ true → Found a b
unfolding Found
Found-at_start a b h = let (rest, e) = starts_rest a b h in ([], rest, e)

pub find-some : (a b : Bytes) (i : ℕ) → find a b ≡ some i → Found a b
unfolding find Found
find-some [] b i h = elim (Bool-cases (starts [] b)) [ inl s ↦ Found-at_start [] b s | inr s ↦ cc ]
find-some (c ∷ a) b i h = elim (Bool-cases (starts (c ∷ a) b)) [
  | inl s ↦ Found-at_start (c ∷ a) b s
  | inr s ↦
      let (j, e) = map-some (find a b) (rw s at h) in
      let (before, after, e') = find-some a b j e in
      (c ∷ before, after, ap (λ (t : Bytes). c ∷ t) e')
]

pub find-none : (b before after : Bytes) → ¬ (find (before ++ (b ++ after)) b ≡ none)
unfolding find
find-none b [] after h = let hit = find_at (b ++ after) b (starts_same b after) in cc
find-none b (c ∷ before) after h = elim (Bool-cases (starts (c ∷ (before ++ (b ++ after))) b)) [
  | inl s ↦ let hit = find_at (c ∷ (before ++ (b ++ after))) b s in cc
  | inr s ↦ find-none b before after (map-none (find (before ++ (b ++ after)) b) (rw s at h))
]

abbrev pub search_bytes : StringZilla
unfolding find Found
search_bytes = record {
  sz_equal = bytes_eq;
  sz_find = find;
  sz_equal_iff = λ a b h. (bytes_eq→eq a b, λ e. rw e (bytes_eq_refl b));
  sz_find_some = λ a b {i} h. find-some a b i h;
  sz_find_none = find-none;
}

abbrev utf8 : Encoding
utf8 = record { max_length = 4; is_utf8 = true }

-- '%ab%' takes "xaby".
interior_run :
    simd_like_classify utf8 (percent ∷ b'a' ∷ b'b' ∷ percent ∷ [])
    ≡ class interior (some (b'a' ∷ b'b' ∷ []))
unfolding simd_like_classify strip_leading strip_trailing classify_stripped has_special
interior_run = refl

matched_run :
    simd_like_match_text search_bytes (b'x' ∷ b'a' ∷ b'b' ∷ b'y' ∷ []) (b'a' ∷ b'b' ∷ []) interior
    ≡ true
unfolding simd_like_match_text find starts search_bytes
matched_run = refl

classify_agrees_example :
    Classifies search_bytes
      (percent ∷ b'a' ∷ b'b' ∷ percent ∷ [])
      (b'x' ∷ b'a' ∷ b'b' ∷ b'y' ∷ [])
      (simd_like_classify utf8 (percent ∷ b'a' ∷ b'b' ∷ percent ∷ []))
classify_agrees_example =
    classify_agrees search_bytes utf8 (percent ∷ b'a' ∷ b'b' ∷ percent ∷ [])
      (b'x' ∷ b'a' ∷ b'b' ∷ b'y' ∷ [])

classify_plain_example :
    simd_like_classify utf8 (surround true false (b'a' ∷ b'b' ∷ []))
    ≡ class (match_type true false) (some (b'a' ∷ b'b' ∷ []))
classify_plain_example =
    classify_plain utf8 true false (b'a' ∷ b'b' ∷ []) refl (refl, (refl, tt)) (omega arith)
