-- ===== src/TextHash/FromArray.antt =====
-- `text_hash_build_from_array`: the texts of a constant array, its nulls left out.
use mathlib.Core.Option
use mathlib.Core.List.{map}
use pg_jitter.Prelude.{
  ℕ, zero, suc, ◌/◌, ◌%◌, ◌^◌, ◌≤◌, ◌<◌, ◌≡◌, ◌∙◌, sym, ap, refl, Bool, true, false, not, ◌&&◌,
  ◌||◌, Option, none, some, List, [], ◌∷◌, length, take, leb, ltb, ◌==◌, if◌then◌else◌, arith,
}
use pg_jitter.Like.Pattern.{Bytes}
use pg_jitter.Like.Fast.{StringZilla}
use pg_jitter.OpenTable.Defs.{Build, built, error, fault}
use pg_jitter.OpenTable.Filled.{In}
use pg_jitter.OpenTable.Membership.{Answers}
use pg_jitter.ScalarArray.Defs.{ArrayType, TypeInfo, next_item, byte_after, mask_after}
use pg_jitter.ScalarArray.Stored.{
  is_null, somes, Marks, Stores, item, fetched, later, next_position,
}
use pg_jitter.TextHash.Defs.{TextHashTable, Hashes, text_hash_build, text_hash_probe}
use pg_jitter.TextHash.Membership.{probe-build_text}

-- The loop over the items that are left: the datums that are not null, and whether one is.
unfoldable pub collect_texts : Option (List ℕ) → ℕ → ℕ → ℕ → List ℕ → Bool → Option (List ℕ × Bool)
collect_texts bitmap zero byte bitmask s has_nulls = some ([], has_nulls)
collect_texts bitmap (suc left) byte bitmask s has_nulls = elim (next_item bitmap byte bitmask s) [
  | none ↦ none
  | some next ↦
      let rest : Bool → Option (List ℕ × Bool) = λ nulls.
        collect_texts bitmap left (byte_after byte bitmask) (mask_after bitmask) next.1 nulls in
      elim next.0.isnull [
        | true ↦ rest true
        | false ↦ Option.map (λ r. (next.0.value ∷ r.0, r.1)) (rest has_nulls)
      ]
]

-- PostgreSQL's object id of the type text.
abbrev pub text_oid : ℕ
text_oid = 25

module _ (sz : StringZilla) (hashes : Hashes) (get_type : ℕ → TypeInfo) (get_text : ℕ → Bytes) where
  -- A NULL table is none; the other result is what is stored through `has_nulls_out`.
  unfoldable pub build_collected : ℕ → List ℕ × Bool → Build (Option TextHashTable × Bool)
  build_collected max_alloc (vals, nulls) =
      if length vals == 0
      then built (none, nulls)
      else elim (text_hash_build sz hashes max_alloc (map get_text vals) (length vals) nulls) [
        | built ht ↦ built (some ht, nulls)
        | error e ↦ error e
        | fault ↦ fault
      ]

  -- `eligible` is the answer of `pg_jitter_text_hash_saop_eligible`.
  unfoldable pub text_hash_build_from_array :
      ℕ → Bool → ArrayType → Build (Option TextHashTable × Bool)
  text_hash_build_from_array max_alloc eligible arr =
      if eligible
        && (not (get_type arr.elemtype).typbyval
            && arr.elemtype == text_oid
            && ltb 0 arr.nitems
            && leb arr.nitems 16384)
      then elim (collect_texts arr.null_bitmap arr.nitems 0 1 arr.data_area false) [
        | none ↦ fault
        | some collected ↦ build_collected max_alloc collected
      ]
      else built (none, false)

abbrev pub any_null : List (Option ℕ) → Bool
any_null [] = false
any_null (e ∷ es) = is_null e || any_null es

collect_step :
    (bitmap : Option (List ℕ)) (left i : ℕ) (e : Option ℕ) (s : List ℕ) (nulls : Bool) (t : List ℕ)
    → next_item bitmap (i / 8) (2 ^ (i % 8)) t ≡ some (item e, s)
    → collect_texts bitmap (suc left) (i / 8) (2 ^ (i % 8)) t nulls
      ≡ elim e as (λ x. Option (List ℕ × Bool)) [
        | none ↦ collect_texts bitmap left (suc i / 8) (2 ^ (suc i % 8)) s true
        | some d ↦
            Option.map
              (λ r. (d ∷ r.0, r.1))
              (collect_texts bitmap left (suc i / 8) (2 ^ (suc i % 8)) s nulls)
      ]
unfolding collect_texts
collect_step bitmap left i none s nulls t h =
    let (to_byte, to_mask) = next_position i in rw (h, collect_texts) (cc)
collect_step bitmap left i (some d) s nulls t h =
    let (to_byte, to_mask) = next_position i in rw (h, collect_texts) (cc)

or_true : (b : Bool) → true ≡ (b || true)
or_true true = refl
or_true false = refl

collect_end :
    (bitmap : Option (List ℕ)) (byte bitmask : ℕ) (nulls : Bool)
    → collect_texts bitmap 0 byte bitmask [] nulls ≡ some ([], nulls || false)
unfolding collect_texts
collect_end bitmap byte bitmask true = refl
collect_end bitmap byte bitmask false = refl

collected :
    (bitmap : Option (List ℕ)) (i : ℕ) (es : List (Option ℕ)) (nulls : Bool)
    → Marks bitmap i es
    → collect_texts bitmap (length es) (i / 8) (2 ^ (i % 8)) (somes es) nulls
      ≡ some (somes es, nulls || any_null es)
collected bitmap i [] nulls m = collect_end bitmap (i / 8) (2 ^ (i % 8)) nulls
collected bitmap i (none ∷ es) nulls m =
    collect_step bitmap (length es) i none (somes es) nulls (somes es) (fetched bitmap i none es m)
    ∙ collected bitmap (suc i) es true (later bitmap i none es m)
    ∙ ap (λ b. some (somes es, b)) (or_true nulls)
collected bitmap i (some d ∷ es) nulls m =
    collect_step bitmap (length es) i (some d) (somes es) nulls (d ∷ somes es)
      (fetched bitmap i (some d) es m)
    ∙ ap (Option.map (λ r. (d ∷ r.0, r.1)))
        (collected bitmap (suc i) es nulls (later bitmap i (some d) es m))

all_tests :
    (a b c d : Bool)
    → a ≡ false
    → b ≡ true
    → c ≡ true
    → d ≡ true
    → (true && (not a && b && c && d)) ≡ true
all_tests a b c d ha hb hc hd = rw (ha, hb, hc, hd) refl

take_all {ℓ} : {A : Type ℓ} (xs : List A) → take (length xs) xs ≡ xs
take_all [] = refl
take_all (x ∷ xs) = ap (λ ys. x ∷ ys) (take_all xs)

length-map {ℓ} : {A B : Type ℓ} (f : A → B) (xs : List A) → length (map f xs) ≡ length xs
length-map f [] = refl
length-map f (x ∷ xs) = ap suc (length-map f xs)

somes-le : (es : List (Option ℕ)) → length (somes es) ≤ length es
somes-le [] = omega arith
somes-le (none ∷ es) = omega (arith, somes-le es)
somes-le (some d ∷ es) = omega (arith, somes-le es)

module _ (sz : StringZilla) (hashes : Hashes) (get_type : ℕ → TypeInfo) (get_text : ℕ → Bytes) where
  -- What the build from an array gives, and how its table answers.
  abbrev pub BuiltFrom : Build (Option TextHashTable × Bool) → List (Option ℕ) → Bytes → Type 0
  BuiltFrom run es text =
      (ht : TextHashTable) × (run ≡ built (some ht, any_null es))
      × Answers (text_hash_probe sz hashes text ht) (In text (map get_text (somes es)))

  build_collected-answers :
      (max_alloc : ℕ) (es : List (Option ℕ)) (text : Bytes)
      → 0 < length (somes es)
      → length (somes es) ≤ 16384
      → 2 ^ 21 ≤ max_alloc
      → BuiltFrom
          (build_collected sz hashes get_type get_text max_alloc (somes es, any_null es))
          es
          text
  unfolding build_collected
  build_collected-answers max_alloc es text some_text few room =
      let texts = map get_text (somes es) in
      let n = length (somes es) in
      let all : length texts ≡ n = length-map get_text (somes es) in
      let (ht, run, answers) =
        probe-build_text sz hashes max_alloc texts n (any_null es) text some_text (omega arith)
          (omega arith) (omega arith) in
      let whole : take n texts ≡ texts = ap (λ k. take k texts) (sym all) ∙ take_all texts in
      let not_empty : (n == 0) ≡ false = ground arith in
      rw (not_empty, run, build_collected) (ht, refl, rw whole at answers)

  -- The table that is built from a constant array of texts answers whether a text is one of its items
  -- that are not null, and says whether it has a null. The array has the type text, 1 to 16384 items, stored as
  -- PostgreSQL stores them, one of them at least not null; the step is eligible, and `MaxAllocSize` has room
  -- for 2 ^ 21 bytes.
  pub from_array_answers :
      (max_alloc : ℕ) (arr : ArrayType) (es : List (Option ℕ)) (text : Bytes)
      → Stores arr es
      → arr.elemtype ≡ text_oid
      → (get_type text_oid).typbyval ≡ false
      → arr.nitems ≤ 16384
      → 0 < length (somes es)
      → 2 ^ 21 ≤ max_alloc
      → BuiltFrom
          (text_hash_build_from_array sz hashes get_type get_text max_alloc true arr)
          es
          text
  unfolding text_hash_build_from_array
  from_array_answers max_alloc arr es text (items, area, marks) texts by_reference few some_text
        room =
      let gathered = collected arr.null_bitmap 0 es false marks in
      let run : collect_texts arr.null_bitmap arr.nitems 0 1 arr.data_area false
          ≡ some (somes es, any_null es) =
        cc in
      let usable : (true
            && (not (get_type arr.elemtype).typbyval
                && arr.elemtype == text_oid
                && ltb 0 arr.nitems
                && leb arr.nitems 16384))
          ≡ true =
        all_tests (get_type arr.elemtype).typbyval (arr.elemtype == text_oid) (ltb 0 arr.nitems)
          (leb arr.nitems 16384) (ap (λ t. (get_type t).typbyval) texts ∙ by_reference)
          (ground arith)
          (let some_item : 0 < arr.nitems = omega (arith, somes-le es) in ground arith)
          (ground arith) in
      rw (usable, run, text_hash_build_from_array)
        (build_collected-answers max_alloc es text some_text (omega (arith, somes-le es)) room)
