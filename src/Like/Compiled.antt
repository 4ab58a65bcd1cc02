-- ===== src/Like/Compiled.antt =====
-- The compiled form of a pattern: segments between `%`, each with its pieces between `_`.
use pg_jitter.Prelude.{
  ℕ, suc, ◌+◌, ◌-◌, Bool, true, false, not, ◌&&◌, ◌||◌, Option, none, some, List, [], ◌∷◌, ◌++◌,
  length, ltb, ◌==◌, if◌then◌else◌,
}
use pg_jitter.Like.Pattern.{Bytes, Token, literal, percent_token, underscore_token, decode}
use pg_jitter.Like.Fast.{Encoding}

pub record SzPiece : Type 0 where
  pub offset : ℕ
  pub len : ℕ
  pub data_of : Bytes

pub record SzSegment : Type 0 where
  pub width : ℕ
  pub num_pieces : ℕ
  pub longest_idx : ℕ
  pub pieces : List SzPiece

pub record SzLikeCompiled : Type 0 where
  pub min_len : ℕ
  pub num_segments : ℕ
  pub anchored_start : Bool
  pub anchored_end : Bool
  pub segments : List SzSegment

-- NULL, SIMD_LIKE_USE_V1 or the compiled pattern.
pub data CompileResult : Type 0 where
  null use_v1 : CompileResult
  compiled : SzLikeCompiled → CompileResult

abbrev pub sz_like_max_segments : ℕ
sz_like_max_segments = 16

abbrev pub sz_like_max_pieces : ℕ
sz_like_max_pieces = 8

-- The bytes of SzLikeCompiled where pointers have 8: 8 bytes of counts and 16 segments of 136.
abbrev pub sizeof_compiled : ℕ
sizeof_compiled = 2184

-- The strip of one unescaped `%` from each end: whether the end is anchored, and what is left.
unfoldable pub strip_start : List Token → Bool × List Token
strip_start (percent_token ∷ ts) = (false, ts)
strip_start ts = (true, ts)

unfoldable pub strip_end : List Token → Bool × List Token
strip_end [] = (true, [])
strip_end (percent_token ∷ []) = (false, [])
strip_end (t ∷ ts) = let (anchored, kept) = strip_end ts in (anchored, t ∷ kept)

-- The runs of tokens between `%`, empty ones left out; `run` holds the tokens read since the last.
unfoldable pub split_segments : List Token → List Token → List (List Token)
split_segments [] [] = []
split_segments (t ∷ run) [] = (t ∷ run) ∷ []
split_segments run (percent_token ∷ ts) =
    let rest = split_segments [] ts in elim run [ [] ↦ rest | t ∷ r ↦ (t ∷ r) ∷ rest ]
split_segments run (literal c ∷ ts) = split_segments (run ++ literal c ∷ []) ts
split_segments run (underscore_token ∷ ts) = split_segments (run ++ underscore_token ∷ []) ts

unfoldable pub count_literals : List Token → ℕ
count_literals [] = 0
count_literals (literal c ∷ ts) = suc (count_literals ts)
count_literals (percent_token ∷ ts) = count_literals ts
count_literals (underscore_token ∷ ts) = count_literals ts

unfoldable pub has_wildcard : List Token → Bool
has_wildcard [] = false
has_wildcard (underscore_token ∷ ts) = true
has_wildcard (literal c ∷ ts) = has_wildcard ts
has_wildcard (percent_token ∷ ts) = has_wildcard ts

-- The piece that ends at `j`, where a run of literals has been read.
unfoldable pub close_piece : ℕ → Bytes → List SzPiece
close_piece j [] = []
close_piece j (c ∷ run) =
    record { offset = j - length (c ∷ run); len = length (c ∷ run); data_of = c ∷ run } ∷ []

-- The runs of literals of a segment with their offsets, by the position `j` in it.
unfoldable pub extract_pieces : ℕ → Bytes → List Token → List SzPiece
extract_pieces j run [] = close_piece j run
extract_pieces j run (literal c ∷ ts) = extract_pieces (j + 1) (run ++ c ∷ []) ts
extract_pieces j run (underscore_token ∷ ts) = close_piece j run ++ extract_pieces (j + 1) [] ts
extract_pieces j run (percent_token ∷ ts) = extract_pieces j run ts

-- The index of the first longest piece.
unfoldable pub longest : ℕ → ℕ → ℕ → List SzPiece → ℕ
longest i best best_len [] = best
longest i best best_len (p ∷ ps) =
    if ltb best_len p.len then longest (i + 1) i p.len ps else longest (i + 1) best best_len ps

unfoldable pub make_segment : List Token → SzSegment
make_segment seg =
    let pieces = extract_pieces 0 [] seg in
    record {
      width = length seg;
      num_pieces = length pieces;
      longest_idx = longest 0 0 0 pieces;
      pieces = pieces;
    }

-- The second pass, and its early return where a segment has too many pieces.
unfoldable pub make_segments : List (List Token) → Option (List SzSegment)
make_segments [] = some []
make_segments (seg ∷ segs) =
    let rest = make_segments segs in
    let s = make_segment seg in
    if ltb sz_like_max_pieces s.num_pieces
    then none
    else elim rest [ none ↦ none | some ss ↦ some (s ∷ ss) ]

unfoldable pub total_width : List (List Token) → ℕ
total_width [] = 0
total_width (seg ∷ segs) = length seg + total_width segs

unfoldable pub total_literals : List (List Token) → ℕ
total_literals [] = 0
total_literals (seg ∷ segs) = count_literals seg + total_literals segs

unfoldable pub any_wildcard : List (List Token) → Bool
any_wildcard [] = false
any_wildcard (seg ∷ segs) = has_wildcard seg || any_wildcard segs

-- One floating segment of literals is left to the other matchers.
unfoldable pub only_floating : Bool → Bool → List (List Token) → Bool
only_floating anchored_start anchored_end segs =
    let from_start = if anchored_start then 1 else 0 in
    let anchored_count =
      if anchored_end && ltb from_start (length segs) then from_start + 1 else from_start in
    ltb anchored_count (length segs) && length segs == 1 && not (any_wildcard segs)

unfoldable pub build_compiled : Bool → Bool → List (List Token) → CompileResult
build_compiled anchored_start anchored_end segs = elim (make_segments segs) [
  | none ↦ null
  | some ss ↦ compiled (record {
    min_len = total_width segs;
    num_segments = length segs;
    anchored_start = anchored_start;
    anchored_end = anchored_end;
    segments = ss;
  })
]

unfoldable pub compile_segments :
    ℕ → Encoding → List Token → Bool → Bool → List (List Token) → CompileResult
compile_segments max_alloc enc tokens anchored_start anchored_end segs =
    if ltb sz_like_max_segments (length segs)
    then null
    else (if any_wildcard segs && not (enc.max_length == 1)
        then null
        else (if length segs == 0
            then compiled (record {
              min_len = 0;
              num_segments = 0;
              anchored_start = length tokens == 0;
              anchored_end = length tokens == 0;
              segments = [];
            })
            else (if ltb (max_alloc - sizeof_compiled) (total_literals segs)
                then null
                else (if only_floating anchored_start anchored_end segs
                    then (if ltb (total_literals segs) 5 then use_v1 else null)
                    else build_compiled anchored_start anchored_end segs))))

-- `max_alloc` is PostgreSQL's `MaxAllocSize`.
unfoldable pub simd_like_compile : ℕ → Encoding → Bytes → CompileResult
simd_like_compile max_alloc enc pattern =
    if not (enc.max_length == 1) && not enc.is_utf8 then null else elim (decode pattern) [
      | none ↦ null
      | some tokens ↦
          let (anchored_start, rest) = strip_start tokens in
          let (anchored_end, inner) = strip_end rest in
          compile_segments max_alloc enc tokens anchored_start anchored_end
            (split_segments [] inner)
    ]
