-- ===== src/ScalarArray/Defs.antt =====
-- `pg_jitter_scalararrayop_loop`. PostgreSQL's functions of the operators, and its table of types, are
-- parameters. A read beyond the array or its null bitmap gives none.
use Prim.Native.Nat.{bit_and}
use mathlib.Core.Option
use pg_jitter.Prelude.{
  ℕ, zero, suc, ◌+◌, ◌*◌, ◌%◌, ◌^◌, Bool, true, false, not, ◌&&◌, Option, none, some, List, [], ◌∷◌,
  map, get_elem?, ◌==◌, if◌then◌else◌,
}
use pg_jitter.Prelude.Int.{ℤ, pos}
use pg_jitter.Machine.{half32, half64, to_int, eqb_ℤ}
use pg_jitter.ScalarArray.Search.{simd_int4_array_eq, simd_int8_array_eq}

-- A `Datum` is a 64-bit word.
abbrev pub get_int32 : ℕ → ℤ
get_int32 d = to_int half32 (d % 2 ^ 32)

abbrev pub get_int64 : ℕ → ℤ
get_int64 d = to_int half64 (d % 2 ^ 64)

abbrev pub bool_datum : Bool → ℕ
bool_datum true = 1
bool_datum false = 0

abbrev pub get_bool : ℕ → Bool
get_bool d = not (d == 0)

-- The two functions that are compared by address, and any other.
pub data PgFunction : Type 0 where
  int4eq int8eq : PgFunction
  other : ℕ → PgFunction

abbrev pub is_int4eq : PgFunction → Bool
is_int4eq int4eq = true
is_int4eq int8eq = false
is_int4eq (other n) = false

abbrev pub is_int8eq : PgFunction → Bool
is_int8eq int8eq = true
is_int8eq int4eq = false
is_int8eq (other n) = false

-- An argument of a call.
pub record NullableDatum : Type 0 where
  pub value : ℕ
  pub isnull : Bool

pub record TypeInfo : Type 0 where
  pub typlen : ℤ
  pub typbyval : Bool
  pub typalign : ℕ

-- The array: the number of its items, its null bitmap, the datums that its data area holds, and the
-- layout in which they are stored there.
pub record ArrayType : Type 0 where
  pub nitems : ℕ
  pub elemtype : ℕ
  pub null_bitmap : Option (List ℕ)
  pub data_area : List ℕ
  pub stored_as : TypeInfo

abbrev pub same_layout : TypeInfo → TypeInfo → Bool
same_layout a b =
    eqb_ℤ a.typlen b.typlen
    && (if a.typbyval then b.typbyval else not b.typbyval)
    && a.typalign == b.typalign

-- The datums of the data area, read by a layout. By another one than theirs there are none to read.
abbrev pub read_as : TypeInfo → ArrayType → List ℕ
read_as layout arr = if same_layout layout arr.stored_as then arr.data_area else []

-- The step's own fields, and what its two result pointers point to.
pub record ScalarArrayOp : Type 0 where
  pub use_or : Bool
  pub fn_strict : Bool
  pub fn_addr : PgFunction
  pub element_type : ℕ
  pub type_info : TypeInfo
  pub resvalue : ℕ
  pub resnull : Bool

-- The result of a call; none is SQL's NULL.
abbrev pub Call : Type 0
Call = NullableDatum → NullableDatum → Option ℕ

-- The second argument of a round, and the data that is left.
unfoldable pub next_item : Option (List ℕ) → ℕ → ℕ → List ℕ → Option (NullableDatum × List ℕ)
next_item bitmap byte bitmask s =
    let fetched : Option (NullableDatum × List ℕ) = elim s [
      | [] ↦ none
      | elt ∷ rest ↦ some (record { value = elt; isnull = false }, rest)
    ] in
    elim bitmap [
      | none ↦ fetched
      | some bits ↦ elim (get_elem? bits byte) [
        | none ↦ none
        | some bits8 ↦
            if bit_and bits8 bitmask == 0
            then some (record { value = 0; isnull = true }, s)
            else fetched
      ]
    ]

-- What a round does with the result of its call: one that decides the result ends the loop.
abbrev pub settle : Bool → Bool → (Bool → Option (ℕ × Bool)) → Option ℕ → Option (ℕ × Bool)
settle use_or resultnull rest none = rest true
settle true resultnull rest (some thisresult) =
    if get_bool thisresult then some (bool_datum true, false) else rest resultnull
settle false resultnull rest (some thisresult) =
    if not (get_bool thisresult) then some (bool_datum false, false) else rest resultnull

-- bitmask <<= 1; if (bitmask == 0x100) { bitmap++; bitmask = 1; }
abbrev pub byte_after : ℕ → ℕ → ℕ
byte_after byte bitmask = if bitmask * 2 == 0x100 then byte + 1 else byte

abbrev pub mask_after : ℕ → ℕ
mask_after bitmask = if bitmask * 2 == 0x100 then 1 else bitmask * 2

-- A strict function is not called with a null.
abbrev pub result_of : Bool → (NullableDatum → Option ℕ) → NullableDatum → Option ℕ
result_of strict fn arg = if arg.isnull && strict then none else fn arg

-- The loop, for the rounds that are left.
unfoldable pub item_loop :
    Bool
    → Bool
    → (NullableDatum → Option ℕ)
    → Option (List ℕ)
    → ℕ
    → ℕ
    → ℕ
    → List ℕ
    → Bool
    → Option (ℕ × Bool)
item_loop use_or strict fn bitmap zero byte bitmask s resultnull =
    some (bool_datum (not use_or), resultnull)
item_loop use_or strict fn bitmap (suc left) byte bitmask s resultnull =
    elim (next_item bitmap byte bitmask s) [
      | none ↦ none
      | some item ↦
          settle use_or resultnull
            (λ null.
              item_loop use_or strict fn bitmap left (byte_after byte bitmask) (mask_after bitmask)
                item.1 null)
            (result_of strict fn item.0)
    ]

-- What the code outside says: the call of a function, the table of types, and which body of the
-- integer searches is compiled.
module _ (call : PgFunction → Call) (get_type : ℕ → TypeInfo) (neon : Bool) where
  -- The generic loop over all items.
  unfoldable pub generic_loop : ScalarArrayOp → ArrayType → NullableDatum → Option ScalarArrayOp
  generic_loop op arr scalar =
      Option.map (λ r. record op { resvalue = r.0; resnull = r.1 })
        (item_loop op.use_or op.fn_strict (call op.fn_addr scalar) arr.null_bitmap arr.nitems 0 1
          (read_as op.type_info arr) false)

  -- The result of an integer search.
  unfoldable pub searched : ScalarArrayOp → Option Bool → Option ScalarArrayOp
  searched op found = Option.map (λ b. record op { resvalue = bool_datum b; resnull = false }) found

  -- if (op->element_type != ARR_ELEMTYPE(arr)) get_typlenbyvalalign(…);
  unfoldable pub cache_type : ScalarArrayOp → ArrayType → ScalarArrayOp
  cache_type op arr =
      if op.element_type == arr.elemtype
      then op
      else record op { type_info = get_type arr.elemtype; element_type = arr.elemtype }

  -- From the fast path on.
  unfoldable pub dispatch : ScalarArrayOp → ArrayType → NullableDatum → Option ScalarArrayOp
  dispatch op arr scalar =
      let no_bitmap : Bool = elim arr.null_bitmap [ none ↦ true | some bits ↦ false ] in
      if no_bitmap && op.type_info.typbyval && op.use_or
      then (if is_int4eq op.fn_addr && eqb_ℤ op.type_info.typlen (pos 4)
          then searched op (
              simd_int4_array_eq neon (get_int32 scalar.value)
                (map get_int32 (read_as op.type_info arr)) arr.nitems)
          else (if is_int8eq op.fn_addr && eqb_ℤ op.type_info.typlen (pos 8)
              then searched op (
                  simd_int8_array_eq neon (get_int64 scalar.value)
                    (map get_int64 (read_as op.type_info arr)) arr.nitems)
              else generic_loop op arr scalar))
      else generic_loop op arr scalar

  unfoldable pub pg_jitter_scalararrayop_loop :
      ScalarArrayOp → ArrayType → NullableDatum → Option ScalarArrayOp
  pg_jitter_scalararrayop_loop op arr scalar =
      if arr.nitems == 0
      then some (record op { resvalue = bool_datum (not op.use_or); resnull = false })
      else (if scalar.isnull && op.fn_strict
          then some (record op { resnull = true })
          else dispatch (cache_type op arr) arr scalar)
