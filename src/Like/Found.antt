-- ===== src/Like/Found.antt =====
-- What each match type of `simd_like_match_text` looks for.
use pg_jitter.Prelude.{
  ℕ, ◌-◌, ◌≡◌, ◌↔◌, ◌∙◌, sym, ap, refl, Bool, true, false, Option, none, some, [], ◌∷◌, ◌++◌, take,
  drop, length, length-append, take-append-drop, leb, arith,
}
use pg_jitter.Like.Pattern.{Bytes, Matches, empty}
use pg_jitter.Like.Fast.{
  StringZilla, exact, prefix, suffix, interior, bytes_eq, simd_like_match_text,
}

pub bytes_eq→eq : (a b : Bytes) → bytes_eq a b ≡ true → a ≡ b
unfolding bytes_eq
bytes_eq→eq [] [] h = refl
bytes_eq→eq [] (y ∷ b) h = cc
bytes_eq→eq (x ∷ a) [] h = cc
bytes_eq→eq (x ∷ a) (y ∷ b) h = ground (arith, bytes_eq→eq a b)

pub bytes_eq_refl : (a : Bytes) → bytes_eq a a ≡ true
unfolding bytes_eq
bytes_eq_refl [] = refl
bytes_eq_refl (x ∷ a) = ground (arith, bytes_eq_refl a)

take_append : (a b : Bytes) → take (length a) (a ++ b) ≡ a
take_append [] b = refl
take_append (x ∷ a) b = ap (λ (t : Bytes). x ∷ t) (take_append a b)

drop_append : (a b : Bytes) → drop (length a) (a ++ b) ≡ b
drop_append [] b = refl
drop_append (x ∷ a) b = drop_append a b

pub nothing_left : {s : Bytes} → Matches [] s → s ≡ []
nothing_left empty = refl

abbrev is_found : Option ℕ → Bool
is_found none = false
is_found (some i) = true

found_somewhere : (r : Option ℕ) → is_found r ≡ true → (i : ℕ) × (r ≡ some i)
found_somewhere none h = cc
found_somewhere (some i) h = (i, refl)

found_not_none : (r : Option ℕ) → ¬ (r ≡ none) → is_found r ≡ true
found_not_none none n = absurd (n refl)
found_not_none (some i) n = refl

module _ (sz : StringZilla) (lit : Bytes) where
  exact_matched : (text : Bytes) → simd_like_match_text sz text lit exact ≡ true → text ≡ lit
  unfolding simd_like_match_text
  exact_matched text h = (sz.sz_equal_iff text lit (ground arith)).0 (ground arith)

  exact_same : simd_like_match_text sz lit lit exact ≡ true
  unfolding simd_like_match_text
  exact_same = let same = (sz.sz_equal_iff lit lit refl).1 refl in ground arith

  pub exact_finds : (text : Bytes) → (simd_like_match_text sz text lit exact ≡ true) ↔ (text ≡ lit)
  exact_finds text = (exact_matched text, λ e. rw e exact_same)

  pub prefix_matched :
      (text : Bytes)
      → simd_like_match_text sz text lit prefix ≡ true
      → (rest : Bytes) × (text ≡ lit ++ rest)
  unfolding simd_like_match_text
  prefix_matched text h =
      let same = bytes_eq→eq (take (length lit) text) lit (ground arith) in
      (
        drop (length lit) text,
        sym (take-append-drop (length lit) text)
            ∙ ap (λ (t : Bytes). t ++ drop (length lit) text) same,
      )

  pub prefix_same : (rest : Bytes) → simd_like_match_text sz (lit ++ rest) lit prefix ≡ true
  unfolding simd_like_match_text
  prefix_same rest =
      let fits : leb (length lit) (length (lit ++ rest)) ≡ true =
        ground (arith, length-append lit rest) in
      let same : bytes_eq (take (length lit) (lit ++ rest)) lit ≡ true =
        rw (take_append lit rest) (bytes_eq_refl lit) in
      ground arith

  pub suffix_matched :
      (text : Bytes)
      → simd_like_match_text sz text lit suffix ≡ true
      → (before : Bytes) × (text ≡ before ++ lit)
  unfolding simd_like_match_text
  suffix_matched text h =
      let cut = length text - length lit in
      let same = bytes_eq→eq (drop cut text) lit (ground arith) in
      (take cut text, sym (take-append-drop cut text) ∙ ap (λ (t : Bytes). take cut text ++ t) same)

  pub suffix_same : (before : Bytes) → simd_like_match_text sz (before ++ lit) lit suffix ≡ true
  unfolding simd_like_match_text
  suffix_same before =
      let fits : leb (length lit) (length (before ++ lit)) ≡ true =
        ground (arith, length-append before lit) in
      let cut : length (before ++ lit) - length lit ≡ length before =
        omega (arith, length-append before lit) in
      let same : bytes_eq (drop (length (before ++ lit) - length lit) (before ++ lit)) lit ≡ true =
        rw (cut, drop_append before lit) (bytes_eq_refl lit) in
      ground arith

  pub interior_matched :
      (text : Bytes)
      → simd_like_match_text sz text lit interior ≡ true
      → (before : Bytes) × (after : Bytes) × (text ≡ before ++ (lit ++ after))
  unfolding simd_like_match_text
  interior_matched text h =
      let (i, e) = found_somewhere (sz.sz_find text lit) h in sz.sz_find_some text lit e

  pub interior_same :
      (before after : Bytes)
      → simd_like_match_text sz (before ++ (lit ++ after)) lit interior ≡ true
  unfolding simd_like_match_text
  interior_same before after =
      found_not_none (sz.sz_find (before ++ (lit ++ after)) lit) (sz.sz_find_none lit before after)
