-- ===== src/CaseDetect/Addresses.antt =====
-- Functions of the same address are the same comparison.
use pg_jitter.Prelude.{◌≡◌, ◌∙◌, sym, refl, ap, true, List, [], ◌∷◌, get_or, arith}
use mathlib.Core.Path.{ap₂}
use pg_jitter.CaseDetect.Steps.{
  CmpFn, comparison, other_fn, CmpKind, cmp_eq, cmp_lt, cmp_le, cmp_gt, cmp_ge, ComparedType,
  type_int4, type_int8, type_int2, type_date, type_oid, type_timestamp, type_float4, type_float8,
  type_bool, type_text, type_numeric, type_uuid, type_interval, type_bpchar, type_bytea, type_jsonb,
  type_network, type_array,
}
use pg_jitter.CaseDetect.Classify.{same_fn, type_no, kind_no}

abbrev all_types : List ComparedType
all_types =
    type_int4 ∷ type_int8 ∷ type_int2 ∷ type_date ∷ type_oid ∷ type_timestamp ∷ type_float4
    ∷ type_float8 ∷ type_bool ∷ type_text ∷ type_numeric ∷ type_uuid ∷ type_interval ∷ type_bpchar
    ∷ type_bytea ∷ type_jsonb ∷ type_network ∷ type_array ∷ []

abbrev all_kinds : List CmpKind
all_kinds = cmp_eq ∷ cmp_lt ∷ cmp_le ∷ cmp_gt ∷ cmp_ge ∷ []

type_at-type_no : (t : ComparedType) → get_or all_types (type_no t) type_array ≡ t
type_at-type_no type_int4 = refl
type_at-type_no type_int8 = refl
type_at-type_no type_int2 = refl
type_at-type_no type_date = refl
type_at-type_no type_oid = refl
type_at-type_no type_timestamp = refl
type_at-type_no type_float4 = refl
type_at-type_no type_float8 = refl
type_at-type_no type_bool = refl
type_at-type_no type_text = refl
type_at-type_no type_numeric = refl
type_at-type_no type_uuid = refl
type_at-type_no type_interval = refl
type_at-type_no type_bpchar = refl
type_at-type_no type_bytea = refl
type_at-type_no type_jsonb = refl
type_at-type_no type_network = refl
type_at-type_no type_array = refl

kind_at-kind_no : (k : CmpKind) → get_or all_kinds (kind_no k) cmp_ge ≡ k
kind_at-kind_no cmp_eq = refl
kind_at-kind_no cmp_lt = refl
kind_at-kind_no cmp_le = refl
kind_at-kind_no cmp_gt = refl
kind_at-kind_no cmp_ge = refl

type_no_inj : (t t' : ComparedType) → type_no t ≡ type_no t' → t ≡ t'
type_no_inj t t' e =
    sym (type_at-type_no t) ∙ ap (λ n. get_or all_types n type_array) e ∙ type_at-type_no t'

kind_no_inj : (k k' : CmpKind) → kind_no k ≡ kind_no k' → k ≡ k'
kind_no_inj k k' e =
    sym (kind_at-kind_no k) ∙ ap (λ n. get_or all_kinds n cmp_ge) e ∙ kind_at-kind_no k'

pub same_fn→≡ : (f g : CmpFn) → same_fn f g ≡ true → f ≡ g
same_fn→≡ (comparison t k) (comparison t' k') h =
    ap₂ comparison (type_no_inj t t' (ground (arith, h))) (kind_no_inj k k' (ground (arith, h)))
same_fn→≡ (comparison t k) (other_fn n) h = absurd (ground (arith, h))
same_fn→≡ (other_fn n) (comparison t k) h = absurd (ground (arith, h))
same_fn→≡ (other_fn n) (other_fn m) h = ground (arith, h)
