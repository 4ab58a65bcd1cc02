-- ===== src/Examples/Scanned.antt =====
-- Compiled patterns on short texts.
use pg_jitter.Prelude.{◌≡◌, refl, Bool, true, false, some, List, [], ◌∷◌}
use pg_jitter.Machine.{Run, done, out_of_bounds}
use pg_jitter.Like.Pattern.{
  Bytes, percent, underscore, Token, literal, percent_token, decode, Matches, byte, leave,
  take_byte,
}
use pg_jitter.Like.Fast.{Encoding}
use pg_jitter.Like.Compiled.{
  null, use_v1, compiled, simd_like_compile, compile_segments, build_compiled, only_floating,
  any_wildcard, has_wildcard, total_literals, count_literals, total_width, make_segments,
  make_segment, longest, extract_pieces, close_piece, split_segments, strip_start, strip_end,
}
use pg_jitter.Like.Scan.{
  simd_like_match_compiled, match_start, match_end, match_floating, split_last, floating_loop,
  find_segment, scan_loop, segment_at_hit, memchr, other_pieces_at, pieces_at, bytes_at,
}

abbrev single_byte : Encoding
single_byte = record { max_length = 1; is_utf8 = false }

compile_then_match : Bytes → Bytes → Run Bool
unfolding simd_like_compile simd_like_match_compiled
compile_then_match pattern text = elim (simd_like_compile 1073741823 single_byte pattern) [
  | null ↦ out_of_bounds
  | use_v1 ↦ out_of_bounds
  | compiled c ↦ simd_like_match_compiled text c
]

-- 'axbc' LIKE 'a%b_'
anchored_run :
    compile_then_match (b'a' ∷ percent ∷ b'b' ∷ underscore ∷ []) (b'a' ∷ b'x' ∷ b'b' ∷ b'c' ∷ [])
    ≡ done true
unfolding compile_then_match decode simd_like_compile compile_segments build_compiled only_floating
    any_wildcard has_wildcard total_literals count_literals total_width make_segments make_segment
    longest extract_pieces close_piece split_segments strip_start strip_end simd_like_match_compiled
    match_start match_end match_floating split_last floating_loop find_segment scan_loop
    segment_at_hit memchr other_pieces_at pieces_at bytes_at
anchored_run = refl

-- 'aab' LIKE '%a%b%b': the middle segment is found in the byte that the last segment has taken.
overlap_run :
    compile_then_match
      (percent ∷ b'a' ∷ percent ∷ b'b' ∷ percent ∷ b'b' ∷ [])
      (b'a' ∷ b'a' ∷ b'b' ∷ [])
    ≡ done true
unfolding compile_then_match decode simd_like_compile compile_segments build_compiled only_floating
    any_wildcard has_wildcard total_literals count_literals total_width make_segments make_segment
    longest extract_pieces close_piece split_segments strip_start strip_end simd_like_match_compiled
    match_start match_end match_floating split_last floating_loop find_segment scan_loop
    segment_at_hit memchr other_pieces_at pieces_at bytes_at
overlap_run = refl

-- The pattern of that run decodes to tokens that the text does not match.
abbrev two_b : List Token
two_b =
    percent_token ∷ literal b'a' ∷ percent_token ∷ literal b'b' ∷ percent_token ∷ literal b'b' ∷ []

two_b-decode : decode (percent ∷ b'a' ∷ percent ∷ b'b' ∷ percent ∷ b'b' ∷ []) ≡ some two_b
unfolding decode
two_b-decode = refl

-- Two bytes `b` are wanted behind an `a`.
no_two_b : ¬ Matches (percent_token ∷ literal b'b' ∷ percent_token ∷ literal b'b' ∷ []) (b'b' ∷ [])
no_two_b (leave (byte (leave m))) = elim m [ ]
no_two_b (take_byte (leave m)) = elim m [ ]

two_b_differs : ¬ Matches two_b (b'a' ∷ b'a' ∷ b'b' ∷ [])
two_b_differs (leave (byte (leave m))) = elim m [ ]
two_b_differs (leave (byte (take_byte m))) = no_two_b m
two_b_differs (take_byte (leave (byte m))) = no_two_b m
two_b_differs (take_byte (take_byte (leave m))) = elim m [ ]
two_b_differs (take_byte (take_byte (take_byte (leave m)))) = elim m [ ]
