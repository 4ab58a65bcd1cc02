-- ===== src/Examples/Cached.antt =====
-- Translated patterns, the pattern cache and the evaluation of array operators at concrete values.
use pg_jitter.Prelude.{
  ℕ, ◌≡◌, refl, true, false, none, some, List, [], ◌∷◌, arith, length, ◌*◌, ◌+◌, take,
}
use pg_jitter.Prelude.Int.{ℤ, pos, negsuc}
use pg_jitter.Machine.{eqb_ℤ}
use pg_jitter.Like.Pattern.{Bytes, percent}
use pg_jitter.Pcre2.Regex.Defs.{
  like_to_regex, regex_of, like_tokens, strip_front, strip_back, emit, is_meta,
}
use pg_jitter.Pcre2.Regex.Size.{Within, inside_buffer}
use pg_jitter.Pcre2.Cache.Defs.{State}
use pg_jitter.Pcre2.Cache.Valid.{Valid}
use pg_jitter.Pcre2.Cache.Compile.{
  Resources, pg_jitter_pcre2_compile, Event, compile, release, run, initial,
}
use pg_jitter.Pcre2.Cache.Safe.{Compiled, compile_delivers, initial-Valid, run_safe}
use pg_jitter.ScalarArray.Search.{
  simd_int4_array_eq, simd_int8_array_eq, contains, integer_searches,
}
use pg_jitter.ScalarArray.Defs.{
  get_int32, get_int64, bool_datum, PgFunction, int4eq, int8eq, other, NullableDatum, TypeInfo,
  ArrayType, ScalarArrayOp, Call, cache_type, dispatch, generic_loop, item_loop, next_item,
  pg_jitter_scalararrayop_loop,
}
use pg_jitter.ScalarArray.Stored.{Stores, att_isnull}
use pg_jitter.ScalarArray.Kleene.{over_all}
use pg_jitter.ScalarArray.Answers.{operator_results}
use pg_jitter.ScalarArray.Ends.{Gives}
use pg_jitter.ScalarArray.Evaluated.{evaluated}

-- a.%_%
abbrev dotted : Bytes
dotted = b'a' ∷ b'.' ∷ percent ∷ b'_' ∷ percent ∷ []

-- ^a\..*.
regex_run :
    like_to_regex 1073741823 true dotted
    ≡ some (b'^' ∷ b'a' ∷ 0x5c ∷ b'.' ∷ b'.' ∷ b'*' ∷ b'.' ∷ [])
unfolding like_to_regex regex_of like_tokens strip_front strip_back emit is_meta
regex_run = refl

inside_buffer_example : Within (2 * length dotted + 3) (like_to_regex 1073741823 true dotted)
inside_buffer_example = inside_buffer 1073741823 true dotted

abbrev enough : Resources
enough = record {
  entry_room = true;
  code = true;
  match_data = true;
  match_context = true;
  record_room = true;
}

-- A compilation that finds no room for its record, one that does, a second use of the entry, and two
-- releases.
abbrev events : List Event
events =
    compile (record enough { record_room = false }) true (like_to_regex 1073741823 true) dotted 0
    ∷ compile enough true (like_to_regex 1073741823 true) dotted 0
    ∷ compile enough true (like_to_regex 1073741823 true) dotted 0
    ∷ release 2
    ∷ release 2
    ∷ []

compile_delivers_example :
    Compiled initial
      (like_to_regex 1073741823 true)
      dotted
      0
      (pg_jitter_pcre2_compile enough true (like_to_regex 1073741823 true) dotted 0 initial)
compile_delivers_example =
    compile_delivers enough true (like_to_regex 1073741823 true) dotted 0 initial initial-Valid
      (omega arith)

run_safe_example : (t : State) × (run events initial ≡ some t) × Valid t
run_safe_example = run_safe events (omega arith)

abbrev five : List ℤ
five = pos 3 ∷ pos 1 ∷ negsuc 0 ∷ pos 7 ∷ pos 9 ∷ []

integer_searches_example :
    (simd_int4_array_eq true (pos 9) five 5 ≡ some (contains (pos 9) (take 5 five)))
    × (simd_int8_array_eq true (pos 9) five 5 ≡ some (contains (pos 9) (take 5 five)))
integer_searches_example = integer_searches true (pos 9) five 5 (omega arith)

-- The two functions of PostgreSQL as it documents them, and another that answers NULL.
abbrev call : PgFunction → Call
call int4eq a b = some (bool_datum (eqb_ℤ (get_int32 a.value) (get_int32 b.value)))
call int8eq a b = some (bool_datum (eqb_ℤ (get_int64 a.value) (get_int64 b.value)))
call (other f) a b = none

abbrev get_type : ℕ → TypeInfo
get_type elemtype = record { typlen = pos 4; typbyval = true; typalign = 4 }

-- x = ANY ('{5, NULL, 7}'::int4[]) with the bitmap 101.
abbrev any_op : ScalarArrayOp
any_op = record {
  use_or = true;
  fn_strict = true;
  fn_addr = int4eq;
  element_type = 0;
  type_info = record { typlen = pos 0; typbyval = false; typalign = 0 };
  resvalue = 0;
  resnull = false;
}

abbrev holes : ArrayType
holes = record {
  nitems = 3;
  elemtype = 23;
  null_bitmap = some (5 ∷ []);
  data_area = 5 ∷ 7 ∷ [];
  stored_as = record { typlen = pos 4; typbyval = true; typalign = 4 };
}

abbrev scalar : ℕ → NullableDatum
scalar v = record { value = v; isnull = false }

-- NULL where no item is equal, since one is NULL.
null_run :
    pg_jitter_scalararrayop_loop call get_type true any_op holes (scalar 6)
    ≡ some
        (record any_op { element_type = 23; type_info = get_type 23; resvalue = 0; resnull = true })
unfolding pg_jitter_scalararrayop_loop cache_type dispatch generic_loop item_loop next_item
null_run = refl

holes-Stores : Stores holes (some 5 ∷ none ∷ some 7 ∷ [])
unfolding att_isnull
holes-Stores = (refl, refl, (refl, (refl, (refl, tt))))

evaluated_example :
    Gives
      (pg_jitter_scalararrayop_loop call get_type true any_op holes (scalar 7))
      (over_all true (operator_results true (call int4eq) (scalar 7) (some 5 ∷ none ∷ some 7 ∷ [])))
evaluated_example =
    evaluated call get_type true (λ v w. refl) (λ v w. refl) any_op holes (scalar 7)
      (some 5 ∷ none ∷ some 7 ∷ []) holes-Stores refl (λ e. absurd (omega (arith, e))) (λ e. refl)
