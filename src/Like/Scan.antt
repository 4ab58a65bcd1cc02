-- ===== src/Like/Scan.antt =====
-- `simd_like_match_compiled`: the anchored ends, then the floating segments from left to right.
use pg_jitter.Prelude.{
  ℕ, zero, suc, ◌+◌, ◌-◌, Bool, true, false, not, ◌&&◌, ◌||◌, Option, none, some, List, [], ◌∷◌,
  get_elem?, length, ltb, leb, ◌==◌, if◌then◌else◌,
}
use pg_jitter.Machine.{Run, done, out_of_bounds, out_of_rounds}
use pg_jitter.Like.Pattern.{Bytes}
use pg_jitter.Like.Compiled.{SzPiece, SzSegment, SzLikeCompiled}

-- for (b = 0; b < len; b++) if (s[b] != pc->data[b]) …, with `s` at the position `at` of the text.
unfoldable pub bytes_at : Bytes → ℕ → Bytes → Run Bool
bytes_at text at [] = done true
bytes_at text at (c ∷ lit) = elim (get_elem? text at) [
  | none ↦ out_of_bounds
  | some x ↦ elim (x == c) [ false ↦ done false | true ↦ bytes_at text (at + 1) lit ]
]

unfoldable pub pieces_at : Bytes → ℕ → List SzPiece → Run Bool
pieces_at text pos [] = done true
pieces_at text pos (p ∷ ps) = elim (bytes_at text (pos + p.offset) p.data_of) [
  | out_of_bounds ↦ out_of_bounds
  | out_of_rounds ↦ out_of_rounds
  | done same ↦ elim same [ false ↦ done false | true ↦ pieces_at text pos ps ]
]

-- The other pieces, the `longest_idx`-th left out; `i` is the index of the first.
unfoldable pub other_pieces_at : Bytes → ℕ → ℕ → ℕ → List SzPiece → Run Bool
other_pieces_at text pos i longest_idx [] = done true
other_pieces_at text pos i longest_idx (p ∷ ps) = elim (i == longest_idx) [
  | true ↦ other_pieces_at text pos (i + 1) longest_idx ps
  | false ↦ elim (bytes_at text (pos + p.offset) p.data_of) [
    | out_of_bounds ↦ out_of_bounds
    | out_of_rounds ↦ out_of_rounds
    | done same ↦ elim same [
      | false ↦ done false
      | true ↦ other_pieces_at text pos (i + 1) longest_idx ps
    ]
  ]
]

-- memchr(scan, c, n)
unfoldable pub memchr : Bytes → ℕ → ℕ → ℕ → Run (Option ℕ)
memchr text c at zero = done none
memchr text c at (suc n) = elim (get_elem? text at) [
  | none ↦ out_of_bounds
  | some x ↦ elim (x == c) [ true ↦ done (some at) | false ↦ memchr text c (at + 1) n ]
]

-- A hit of the first byte of the anchor: the rest of the anchor, then the other pieces.
unfoldable pub segment_at_hit : Bytes → SzSegment → SzPiece → Bytes → ℕ → Run Bool
segment_at_hit text seg anchor anchor_tail hit = elim (bytes_at text (hit + 1) anchor_tail) [
  | out_of_bounds ↦ out_of_bounds
  | out_of_rounds ↦ out_of_rounds
  | done same ↦ elim same [
    | false ↦ done false
    | true ↦ other_pieces_at text (hit - anchor.offset) 0 seg.longest_idx seg.pieces
  ]
]

-- while (scan <= scan_end), which gives the position behind the segment that was found.
unfoldable pub scan_loop : ℕ → Bytes → SzSegment → SzPiece → ℕ → Bytes → ℕ → ℕ → Run (Option ℕ)
scan_loop zero text seg anchor first anchor_tail scan scan_end = out_of_rounds
scan_loop (suc rounds) text seg anchor first anchor_tail scan scan_end = elim (leb scan scan_end) [
  | false ↦ done none
  | true ↦ elim (memchr text first scan (scan_end - scan + 1)) [
    | out_of_bounds ↦ out_of_bounds
    | out_of_rounds ↦ out_of_rounds
    | done found ↦ elim found [
      | none ↦ done none
      | some hit ↦ elim (segment_at_hit text seg anchor anchor_tail hit) [
        | out_of_bounds ↦ out_of_bounds
        | out_of_rounds ↦ out_of_rounds
        | done same ↦ elim same [
          | true ↦ done (some (hit - anchor.offset + seg.width))
          | false ↦ scan_loop rounds text seg anchor first anchor_tail (hit + 1) scan_end
        ]
      ]
    ]
  ]
]

-- The floating segment is searched for by its longest piece, in the `remaining` bytes from `pos`.
unfoldable pub find_segment : Bytes → SzSegment → ℕ → ℕ → Run (Option ℕ)
find_segment text seg pos remaining = elim (get_elem? seg.pieces seg.longest_idx) [
  | none ↦ out_of_bounds
  | some anchor ↦ elim anchor.data_of [
    | [] ↦ out_of_bounds
    | c ∷ anchor_tail ↦
        scan_loop (suc (length text)) text seg anchor c anchor_tail (pos + anchor.offset)
          (pos + remaining - seg.width + anchor.offset)
  ]
]

-- The loop over the floating segments, which gives the last position. After a segment of literals
-- `remaining` is counted to the end of the text.
unfoldable pub floating_loop : Bytes → List SzSegment → ℕ → ℕ → Run (Option ℕ)
floating_loop text [] pos remaining = done (some pos)
floating_loop text (seg ∷ segs) pos remaining = elim (ltb remaining seg.width) [
  | true ↦ done none
  | false ↦ elim (seg.num_pieces == 0) [
    | true ↦ floating_loop text segs (pos + seg.width) (remaining - seg.width)
    | false ↦ elim (find_segment text seg pos remaining) [
      | out_of_bounds ↦ out_of_bounds
      | out_of_rounds ↦ out_of_rounds
      | done found ↦ elim found [
        | none ↦ done none
        | some next_pos ↦ floating_loop text segs next_pos (length text - next_pos)
      ]
    ]
  ]
]

unfoldable pub split_last : SzSegment → List SzSegment → List SzSegment × SzSegment
split_last s [] = ([], s)
split_last s (t ∷ ts) = let (front, last) = split_last t ts in (s ∷ front, last)

-- The floating part, and the last test: `whole` says that the end is anchored and was not verified.
unfoldable pub match_floating : Bytes → Bool → List SzSegment → ℕ → ℕ → Run Bool
match_floating text whole segs pos remaining = elim (floating_loop text segs pos remaining) [
  | out_of_bounds ↦ out_of_bounds
  | out_of_rounds ↦ out_of_rounds
  | done found ↦ elim found [
    | none ↦ done false
    | some last_pos ↦ done (not (whole && not (last_pos == length text)))
  ]
]

-- Anchored end: the last segment that is left must stand at the end of the text.
unfoldable pub match_end : Bytes → Bool → List SzSegment → ℕ → ℕ → Run Bool
match_end text anchored_end [] pos remaining = match_floating text anchored_end [] pos remaining
match_end text false (s ∷ ss) pos remaining = match_floating text false (s ∷ ss) pos remaining
match_end text true (s ∷ ss) pos remaining =
    let (front, last) = split_last s ss in
    elim (ltb remaining last.width || ltb (length text - last.width) pos) [
      | true ↦ done false
      | false ↦ elim (pieces_at text (length text - last.width) last.pieces) [
        | out_of_bounds ↦ out_of_bounds
        | out_of_rounds ↦ out_of_rounds
        | done same ↦ elim same [
          | false ↦ done false
          | true ↦ match_floating text false front pos (remaining - last.width)
        ]
      ]
    ]

-- Anchored start: the first segment must stand at position 0.
unfoldable pub match_start : Bytes → SzLikeCompiled → List SzSegment → Run Bool
match_start text c [] = out_of_bounds
match_start text c (s ∷ ss) = elim c.anchored_start [
  | false ↦ match_end text c.anchored_end (s ∷ ss) 0 (length text)
  | true ↦ elim (ltb (length text) s.width) [
    | true ↦ done false
    | false ↦ elim (pieces_at text 0 s.pieces) [
      | out_of_bounds ↦ out_of_bounds
      | out_of_rounds ↦ out_of_rounds
      | done same ↦ elim same [
        | false ↦ done false
        | true ↦ match_end text c.anchored_end ss s.width (length text - s.width)
      ]
    ]
  ]
]

unfoldable pub simd_like_match_compiled : Bytes → SzLikeCompiled → Run Bool
simd_like_match_compiled text c =
    if ltb (length text) c.min_len
    then done false
    else (if c.num_segments == 0
        then done (not c.anchored_start && not c.anchored_end || length text == 0)
        else match_start text c c.segments)
