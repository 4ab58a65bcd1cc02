-- ===== src/CaseDetect/Classify.antt =====
-- The table of comparison functions (`build_cmp_class_table`), its lookup, and the names of the search
-- helpers that belong to a class.
use pg_jitter.Prelude.{
  ℕ, Bool, false, ◌&&◌, ◌||◌, Option, none, some, List, [], ◌∷◌, ◌++◌, ◌==◌, if◌then◌else◌,
}
use pg_jitter.CaseDetect.Steps.{
  ComparedType, type_int4, type_int8, type_int2, type_date, type_oid, type_timestamp, type_float4,
  type_float8, type_bool, type_text, type_numeric, type_uuid, type_interval, type_bpchar,
  type_bytea, type_jsonb, type_network, type_array, CmpKind, cmp_eq, cmp_lt, cmp_le, cmp_gt, cmp_ge,
  CmpFn, comparison, other_fn,
}

pub data CaseBSearchType : Type 0 where
  case_bs_i32 case_bs_i64 case_bs_u32 case_bs_i16 : CaseBSearchType
  case_bs_f4 case_bs_f8 case_bs_generic : CaseBSearchType

abbrev pub bs_no : CaseBSearchType → ℕ
bs_no case_bs_i32 = 0
bs_no case_bs_i64 = 1
bs_no case_bs_u32 = 2
bs_no case_bs_i16 = 3
bs_no case_bs_f4 = 4
bs_no case_bs_f8 = 5
bs_no case_bs_generic = 6

pub record CmpClassEntry : Type 0 where
  pub fn : CmpFn
  pub kind : CmpKind
  pub bs_type : CaseBSearchType

-- The addresses are equal: each type has five functions of its own.
abbrev pub type_no : ComparedType → ℕ
type_no type_int4 = 0
type_no type_int8 = 1
type_no type_int2 = 2
type_no type_date = 3
type_no type_oid = 4
type_no type_timestamp = 5
type_no type_float4 = 6
type_no type_float8 = 7
type_no type_bool = 8
type_no type_text = 9
type_no type_numeric = 10
type_no type_uuid = 11
type_no type_interval = 12
type_no type_bpchar = 13
type_no type_bytea = 14
type_no type_jsonb = 15
type_no type_network = 16
type_no type_array = 17

abbrev pub kind_no : CmpKind → ℕ
kind_no cmp_eq = 0
kind_no cmp_lt = 1
kind_no cmp_le = 2
kind_no cmp_gt = 3
kind_no cmp_ge = 4

abbrev pub same_fn : CmpFn → CmpFn → Bool
same_fn (comparison t k) (comparison t' k') = type_no t == type_no t' && kind_no k == kind_no k'
same_fn (comparison t k) (other_fn n) = false
same_fn (other_fn n) (comparison t k) = false
same_fn (other_fn n) (other_fn m) = n == m

-- e[*n] = { fn, kind, bs_type }; (*n)++;
abbrev pub add_cmp_entry :
    List CmpClassEntry → CmpFn → CmpKind → CaseBSearchType → List CmpClassEntry
add_cmp_entry e fn k t = e ++ (record { fn = fn; kind = k; bs_type = t } ∷ [])

-- if (fn) add_cmp_entry(…);
abbrev pub add_if :
    Option CmpFn → CmpKind → CaseBSearchType → List CmpClassEntry → List CmpClassEntry
add_if none k t e = e
add_if (some fn) k t e = add_cmp_entry e fn k t

abbrev pub add_cmp_group :
    List CmpClassEntry
    → Option CmpFn
    → Option CmpFn
    → Option CmpFn
    → Option CmpFn
    → Option CmpFn
    → CaseBSearchType
    → List CmpClassEntry
add_cmp_group e eq_fn lt_fn le_fn gt_fn ge_fn t = add_if ge_fn cmp_ge t (
    add_if gt_fn cmp_gt t (add_if le_fn cmp_le t (add_if lt_fn cmp_lt t (add_if eq_fn cmp_eq t e))))

abbrev pub group_of : ComparedType → CaseBSearchType → List CmpClassEntry → List CmpClassEntry
group_of t bs e =
    add_cmp_group e (some (comparison t cmp_eq)) (some (comparison t cmp_lt))
      (some (comparison t cmp_le)) (some (comparison t cmp_gt)) (some (comparison t cmp_ge)) bs

abbrev pub groups : List (ComparedType × CaseBSearchType) → List CmpClassEntry → List CmpClassEntry
groups [] e = e
groups ((t, bs) ∷ gs) e = groups gs (group_of t bs e)

unfoldable pub build_cmp_class_table : List CmpClassEntry
build_cmp_class_table =
    groups
      ((type_int4, case_bs_i32)
        ∷ (type_int8, case_bs_i64)
        ∷ (type_int2, case_bs_i16)
        ∷ (type_date, case_bs_i32)
        ∷ (type_oid, case_bs_u32)
        ∷ (type_timestamp, case_bs_i64)
        ∷ (type_float4, case_bs_f4)
        ∷ (type_float8, case_bs_f8)
        ∷ (type_bool, case_bs_i64)
        ∷ (type_text, case_bs_generic)
        ∷ (type_numeric, case_bs_generic)
        ∷ (type_uuid, case_bs_generic)
        ∷ (type_interval, case_bs_generic)
        ∷ (type_bpchar, case_bs_generic)
        ∷ (type_bytea, case_bs_generic)
        ∷ (type_jsonb, case_bs_generic)
        ∷ (type_network, case_bs_generic)
        ∷ (type_array, case_bs_generic)
        ∷ [])
      []

pub record CmpClass : Type 0 where
  pub is_equality : Bool
  pub is_less : Bool
  pub is_inclusive : Bool
  pub bs_type : CaseBSearchType

abbrev pub class_of : CmpKind → CaseBSearchType → CmpClass
class_of k t = record {
  is_equality = kind_no k == 0;
  is_less = kind_no k == 1 || kind_no k == 2;
  is_inclusive = kind_no k == 2 || kind_no k == 4;
  bs_type = t;
}

unfoldable pub classify_in : List CmpClassEntry → CmpFn → Option CmpClass
classify_in [] fn = none
classify_in (e ∷ es) fn =
    let rest = classify_in es fn in
    if same_fn e.fn fn then some (class_of e.kind e.bs_type) else rest

unfoldable pub classify_cmp_fn : CmpFn → Option CmpClass
unfolding build_cmp_class_table classify_in
classify_cmp_fn fn = classify_in build_cmp_class_table fn

-- The order of a type that is passed by reference: equality and less, for each type with a pair.
abbrev pub generic_types : List ComparedType
generic_types =
    type_text ∷ type_numeric ∷ type_uuid ∷ type_interval ∷ type_bpchar ∷ type_bytea ∷ type_jsonb
    ∷ type_network ∷ type_array ∷ []

abbrev pub find_lt_in : List ComparedType → CmpFn → Option CmpFn
find_lt_in [] fn = none
find_lt_in (t ∷ ts) fn =
    let rest = find_lt_in ts fn in
    if same_fn (comparison t cmp_eq) fn then some (comparison t cmp_lt) else rest

unfoldable pub find_generic_lt_fn : CmpFn → Option CmpFn
find_generic_lt_fn fn = find_lt_in generic_types fn

-- `bs_type_to_var_type`: 0 is JIT_TYPE_32, 1 is JIT_TYPE_64.
abbrev pub bs_type_to_var_type : CaseBSearchType → ℕ
bs_type_to_var_type case_bs_i32 = 0
bs_type_to_var_type case_bs_u32 = 0
bs_type_to_var_type case_bs_i16 = 0
bs_type_to_var_type _ = 1
