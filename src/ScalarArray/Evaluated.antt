-- ===== src/ScalarArray/Evaluated.antt =====
-- The whole of `pg_jitter_scalararrayop_loop`: its early returns, the integer searches and the loop.
use mathlib.Core.Option
use pg_jitter.Prelude.{
  ℕ, ◌≤◌, ◌≡◌, ◌∙◌, ap, refl, Bool, true, false, not, ◌&&◌, ◌||◌, Option, none, some, List, map,
  length, take, ◌==◌, ==_iff, arith, Bool-cases, inl, inr,
}
use pg_jitter.Prelude.Int.{ℤ, pos}
use pg_jitter.Machine.{eqb_ℤ}
use pg_jitter.ScalarArray.Search.{
  contains, simd_int4_array_eq, simd_int8_array_eq, int4_array_eq_lem, int8_array_eq_lem,
}
use pg_jitter.ScalarArray.Defs.{
  get_int32, get_int64, bool_datum, PgFunction, int4eq, int8eq, is_int4eq, is_int8eq, NullableDatum,
  TypeInfo, ArrayType, read_as, ScalarArrayOp, Call, item_loop, generic_loop, searched, cache_type,
  dispatch, pg_jitter_scalararrayop_loop,
}
use pg_jitter.ScalarArray.Kleene.{over_all, seen-neutral}
use pg_jitter.ScalarArray.Stored.{somes, Marks, Stores, item, results, encoded, loop_lem}
use pg_jitter.ScalarArray.Answers.{operator_results, same_results, search_agrees}
use pg_jitter.ScalarArray.Ends.{
  Shows-encoded, eqb_sym, no_bitmap-none, is_int4eq-same, is_int8eq-same, both_first, both_last,
  left_true, right_true, not_null, Gives-picked, Gives-returned, no_items, over_none,
  unknown_result, Gives,
}

same_layout_self : (arr : ArrayType) → read_as arr.stored_as arr ≡ arr.data_area
same_layout_self arr = ground arith

-- `call`, `get_type` and `neon` as in the definitions. PostgreSQL's `int4eq` and `int8eq` compare the
-- integers of two arguments that are not null.
module _ (call : PgFunction → Call) (get_type : ℕ → TypeInfo) (neon : Bool)
    (int4eq_law : (v w : ℕ)
      → call int4eq (item (some v)) (item (some w))
        ≡ some (bool_datum (eqb_ℤ (get_int32 v) (get_int32 w))))
    (int8eq_law : (v w : ℕ)
      → call int8eq (item (some v)) (item (some w))
        ≡ some (bool_datum (eqb_ℤ (get_int64 v) (get_int64 w)))) where
  read_as_lem :
      (layout : TypeInfo) (arr : ArrayType)
      → layout ≡ arr.stored_as
      → read_as layout arr ≡ arr.data_area
  read_as_lem layout arr same = rw same (same_layout_self arr)

  generic_answers :
      (op : ScalarArrayOp) (arr : ArrayType) (scalar : NullableDatum) (es : List (Option ℕ))
      → Stores arr es
      → read_as op.type_info arr ≡ arr.data_area
      → Gives
          (generic_loop call get_type neon op arr scalar)
          (over_all op.use_or (results op.fn_strict (call op.fn_addr scalar) es))
  unfolding generic_loop
  generic_answers op arr scalar es (items, area, marks) layout =
      let b = over_all op.use_or (results op.fn_strict (call op.fn_addr scalar) es) in
      let looped =
        loop_lem op.use_or op.fn_strict (call op.fn_addr scalar) arr.null_bitmap 0 es false marks in
      let neutral = seen-neutral op.use_or b in
      let run : item_loop op.use_or op.fn_strict (call op.fn_addr scalar) arr.null_bitmap arr.nitems
            0 1 (read_as op.type_info arr) false
          ≡ some (encoded op.use_or b) =
        cc in
      (
        record op { resvalue = (encoded op.use_or b).0; resnull = (encoded op.use_or b).1 },
        ap (Option.map (λ r. record op { resvalue = r.0; resnull = r.1 })) run,
        Shows-encoded op op.use_or b,
      )

  -- An integer search over an array without nulls.
  searched_answers :
      (op : ScalarArrayOp) (fn : NullableDatum → Option ℕ) (get : ℕ → ℤ) (val : ℤ) (arr : ArrayType)
      (es : List (Option ℕ)) (found : Option Bool)
      → op.use_or ≡ true
      → Marks none 0 es
      → ((d : ℕ) → fn (item (some d)) ≡ some (bool_datum (eqb_ℤ (get d) val)))
      → (length es ≤ length (map get (somes es))
          → found ≡ some (contains val (take (length es) (map get (somes es)))))
      → Gives
          (searched call get_type neon op found)
          (over_all op.use_or (results op.fn_strict fn es))
  unfolding searched
  searched_answers op fn get val arr es found any m equals finds =
      let (enough, agrees) = search_agrees fn get val op.fn_strict equals 0 es m in
      let b = contains val (take (length es) (map get (somes es))) in
      let whole : over_all op.use_or (results op.fn_strict fn es) ≡ some b =
        ap (λ u. over_all u (results op.fn_strict fn es)) any ∙ agrees in
      (
        record op { resvalue = bool_datum b; resnull = false },
        ap (Option.map (λ f. record op { resvalue = bool_datum f; resnull = false }))
            (finds enough),
        rw whole (refl, refl),
      )

  bare : (scalar : NullableDatum) → scalar.isnull ≡ false → scalar ≡ item (some scalar.value)
  bare scalar h = ap (λ (b : Bool). record { value = scalar.value; isnull = b }) h

  int4_answers :
      (op : ScalarArrayOp) (arr : ArrayType) (scalar : NullableDatum) (es : List (Option ℕ))
      → Stores arr es
      → read_as op.type_info arr ≡ arr.data_area
      → op.fn_addr ≡ int4eq
      → arr.null_bitmap ≡ none
      → scalar.isnull ≡ false
      → op.use_or ≡ true
      → Gives
          (searched call get_type neon op (
            simd_int4_array_eq neon
              (get_int32 scalar.value)
              (map get_int32 (read_as op.type_info arr))
              arr.nitems))
          (over_all op.use_or (results op.fn_strict (call op.fn_addr scalar) es))
  int4_answers op arr scalar es (items, area, marks) layout fn bitmap present any =
      searched_answers op (call op.fn_addr scalar) get_int32 (get_int32 scalar.value) arr es
        (simd_int4_array_eq neon (get_int32 scalar.value) (map get_int32 (read_as op.type_info arr))
          arr.nitems)
        any (rw bitmap at marks)
        (λ d.
          ap (λ f. call f scalar (item (some d))) fn
          ∙ ap (λ s. call int4eq s (item (some d))) (bare scalar present)
          ∙ int4eq_law scalar.value d
          ∙ ap (λ b. some (bool_datum b)) (eqb_sym (get_int32 scalar.value) (get_int32 d)))
        (λ enough.
          let found =
            int4_array_eq_lem neon (get_int32 scalar.value) (map get_int32 (somes es)) (length es)
              enough in
          cc)

  int8_answers :
      (op : ScalarArrayOp) (arr : ArrayType) (scalar : NullableDatum) (es : List (Option ℕ))
      → Stores arr es
      → read_as op.type_info arr ≡ arr.data_area
      → op.fn_addr ≡ int8eq
      → arr.null_bitmap ≡ none
      → scalar.isnull ≡ false
      → op.use_or ≡ true
      → Gives
          (searched call get_type neon op (
            simd_int8_array_eq neon
              (get_int64 scalar.value)
              (map get_int64 (read_as op.type_info arr))
              arr.nitems))
          (over_all op.use_or (results op.fn_strict (call op.fn_addr scalar) es))
  int8_answers op arr scalar es (items, area, marks) layout fn bitmap present any =
      searched_answers op (call op.fn_addr scalar) get_int64 (get_int64 scalar.value) arr es
        (simd_int8_array_eq neon (get_int64 scalar.value) (map get_int64 (read_as op.type_info arr))
          arr.nitems)
        any (rw bitmap at marks)
        (λ d.
          ap (λ f. call f scalar (item (some d))) fn
          ∙ ap (λ s. call int8eq s (item (some d))) (bare scalar present)
          ∙ int8eq_law scalar.value d
          ∙ ap (λ b. some (bool_datum b)) (eqb_sym (get_int64 scalar.value) (get_int64 d)))
        (λ enough.
          let found =
            int8_array_eq_lem neon (get_int64 scalar.value) (map get_int64 (somes es)) (length es)
              enough in
          cc)

  dispatch_answers :
      (op : ScalarArrayOp) (arr : ArrayType) (scalar : NullableDatum) (es : List (Option ℕ))
      → Stores arr es
      → read_as op.type_info arr ≡ arr.data_area
      → (scalar.isnull && op.fn_strict) ≡ false
      → ((is_int4eq op.fn_addr || is_int8eq op.fn_addr) ≡ true → op.fn_strict ≡ true)
      → Gives
          (dispatch call get_type neon op arr scalar)
          (over_all op.use_or (results op.fn_strict (call op.fn_addr scalar) es))
  unfolding dispatch
  dispatch_answers op arr scalar es (items, area, marks) layout given strict =
      let no_bitmap : Bool = elim arr.null_bitmap [ none ↦ true | some bits ↦ false ] in
      let by_value = op.type_info.typbyval in
      let is4 = is_int4eq op.fn_addr in
      let is8 = is_int8eq op.fn_addr in
      let size4 = eqb_ℤ op.type_info.typlen (pos 4) in
      let size8 = eqb_ℤ op.type_info.typlen (pos 8) in
      let no_nulls : (no_bitmap && by_value && op.use_or) ≡ true → arr.null_bitmap ≡ none = λ fast.
        no_bitmap-none arr.null_bitmap
          (both_first no_bitmap by_value (both_first (no_bitmap && by_value) op.use_or fast)) in
      Gives-picked (no_bitmap && by_value && op.use_or) (is4 && size4) (is8 && size8)
        (searched call get_type neon op (
          simd_int4_array_eq neon (get_int32 scalar.value)
            (map get_int32 (read_as op.type_info arr)) arr.nitems))
        (searched call get_type neon op (
          simd_int8_array_eq neon (get_int64 scalar.value)
            (map get_int64 (read_as op.type_info arr)) arr.nitems))
        (generic_loop call get_type neon op arr scalar)
        (over_all op.use_or (results op.fn_strict (call op.fn_addr scalar) es))
        (generic_answers op arr scalar es (items, area, marks) layout)
        (λ fast four.
          int4_answers op arr scalar es (items, area, marks) layout
            (is_int4eq-same op.fn_addr (both_first is4 size4 four)) (no_nulls fast)
            (not_null scalar.isnull op.fn_strict given
              (strict (left_true is4 is8 (both_first is4 size4 four))))
            (both_last no_bitmap by_value op.use_or fast))
        (λ fast eight.
          int8_answers op arr scalar es (items, area, marks) layout
            (is_int8eq-same op.fn_addr (both_first is8 size8 eight)) (no_nulls fast)
            (not_null scalar.isnull op.fn_strict given
              (strict (right_true is4 is8 (both_first is8 size8 eight))))
            (both_last no_bitmap by_value op.use_or fast))

  cached_answers :
      (op : ScalarArrayOp) (arr : ArrayType) (scalar : NullableDatum) (es : List (Option ℕ))
      → Stores arr es
      → get_type arr.elemtype ≡ arr.stored_as
      → (op.element_type ≡ arr.elemtype → op.type_info ≡ arr.stored_as)
      → (scalar.isnull && op.fn_strict) ≡ false
      → ((is_int4eq op.fn_addr || is_int8eq op.fn_addr) ≡ true → op.fn_strict ≡ true)
      → Gives
          (dispatch call get_type neon (cache_type call get_type neon op arr) arr scalar)
          (over_all op.use_or (results op.fn_strict (call op.fn_addr scalar) es))
  unfolding cache_type
  cached_answers op arr scalar es stores table cached given strict =
      let filled = record op { type_info = get_type arr.elemtype; element_type = arr.elemtype } in
      elim (Bool-cases (op.element_type == arr.elemtype)) [
        | inl same ↦
            let known = cached ((==_iff op.element_type arr.elemtype).0 same) in
            rw same (
              dispatch_answers op arr scalar es stores (read_as_lem op.type_info arr known) given
                strict)
        | inr differs ↦ rw differs (
            dispatch_answers filled arr scalar es stores
              (read_as_lem (get_type arr.elemtype) arr table) given strict)
      ]

  -- The evaluation answers as SQL does. For an array that stores the items `es`, the call ends with no read
  -- outside the array and its null bitmap, and what it stores is the disjunction (ANY) or the conjunction
  -- (ALL), in the three-valued logic, of the results of the operator for the items, where a strict operator
  -- gives NULL for a null argument. The table of types has the layout in which the items are stored, and
  -- so has the step if it was used for the same type before; `int4eq` and `int8eq` are strict.
  pub evaluated :
      (op : ScalarArrayOp) (arr : ArrayType) (scalar : NullableDatum) (es : List (Option ℕ))
      → Stores arr es
      → get_type arr.elemtype ≡ arr.stored_as
      → (op.element_type ≡ arr.elemtype → op.type_info ≡ arr.stored_as)
      → ((is_int4eq op.fn_addr || is_int8eq op.fn_addr) ≡ true → op.fn_strict ≡ true)
      → Gives
          (pg_jitter_scalararrayop_loop call get_type neon op arr scalar)
          (over_all op.use_or (operator_results op.fn_strict (call op.fn_addr) scalar es))
  unfolding pg_jitter_scalararrayop_loop
  evaluated op arr scalar es (items, area, marks) table cached strict =
      let b = over_all op.use_or (operator_results op.fn_strict (call op.fn_addr) scalar es) in
      Gives-returned (arr.nitems == 0) (scalar.isnull && op.fn_strict)
        (some (record op { resvalue = bool_datum (not op.use_or); resnull = false }))
        (some (record op { resnull = true }))
        (dispatch call get_type neon (cache_type call get_type neon op arr) arr scalar) b
        (λ empty. (
          record op { resvalue = bool_datum (not op.use_or); resnull = false },
          refl,
          (let none_left = no_items es arr.nitems items empty in
              let whole : b ≡ some (not op.use_or) =
                ap
                  (λ us.
                    over_all op.use_or (operator_results op.fn_strict (call op.fn_addr) scalar us))
                  none_left
                ∙ over_none op.use_or op.fn_strict (call op.fn_addr) scalar in
              rw whole (refl, refl)),
        ))
        (λ some_item given. (
          record op { resnull = true },
          refl,
          (let unknown : b ≡ none =
                unknown_result op.use_or op.fn_strict (call op.fn_addr) scalar es arr.nitems items
                  some_item given in
              rw unknown refl),
        ))
        (λ some_item given.
          let same : b ≡ over_all op.use_or (results op.fn_strict (call op.fn_addr scalar) es) =
            ap (over_all op.use_or) (same_results op.fn_strict (call op.fn_addr) scalar es given) in
          rw same (cached_answers op arr scalar es (items, area, marks) table cached given strict))
