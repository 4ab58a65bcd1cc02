-- ===== src/ScalarArray/Ends.antt =====
-- The bodies that the evaluation chooses from, and what each gives.
use pg_jitter.Prelude.{
  ℕ, ◌≡◌, sym, refl, Bool, true, false, not, ◌&&◌, ◌||◌, Option, none, some, List, [], ◌∷◌, length,
  ◌==◌, if◌then◌else◌, arith,
}
use pg_jitter.Prelude.Int.{ℤ}
use pg_jitter.Machine.{eqb_ℤ}
use pg_jitter.ScalarArray.Defs.{
  PgFunction, int4eq, int8eq, other, is_int4eq, is_int8eq, NullableDatum, ScalarArrayOp, Call,
}
use pg_jitter.ScalarArray.Kleene.{over_all}
use pg_jitter.ScalarArray.Stored.{encoded}
use pg_jitter.ScalarArray.Answers.{Shows, operator_results, all_null}

-- A run that ends, and what it shows.
abbrev pub Gives : Option ScalarArrayOp → Option Bool → Type 0
Gives run b = (op : ScalarArrayOp) × (run ≡ some op) × Shows b op

pub Shows-encoded :
    (op : ScalarArrayOp) (use_or : Bool) (b : Option Bool)
    → Shows b (record op { resvalue = (encoded use_or b).0; resnull = (encoded use_or b).1 })
Shows-encoded op use_or none = refl
Shows-encoded op use_or (some b) = (refl, refl)

pub eqb_sym : (a b : ℤ) → eqb_ℤ a b ≡ eqb_ℤ b a
eqb_sym a b = ground arith

pub no_bitmap-none :
    (bitmap : Option (List ℕ))
    → elim bitmap as (λ b. Bool) [ none ↦ true | some bits ↦ false ] ≡ true
    → bitmap ≡ none
no_bitmap-none none h = refl
no_bitmap-none (some bits) h = cc

pub is_int4eq-same : (fn : PgFunction) → is_int4eq fn ≡ true → fn ≡ int4eq
is_int4eq-same int4eq h = refl
is_int4eq-same int8eq h = cc
is_int4eq-same (other n) h = cc

pub is_int8eq-same : (fn : PgFunction) → is_int8eq fn ≡ true → fn ≡ int8eq
is_int8eq-same int8eq h = refl
is_int8eq-same int4eq h = cc
is_int8eq-same (other n) h = cc

pub both_first : (a b : Bool) → (a && b) ≡ true → a ≡ true
both_first true b h = refl
both_first false b h = h

pub both_last : (a b c : Bool) → (a && b && c) ≡ true → c ≡ true
both_last true true c h = h
both_last true false c h = cc
both_last false b c h = cc

pub left_true : (a b : Bool) → a ≡ true → (a || b) ≡ true
left_true a b h = rw h refl

pub right_true : (a b : Bool) → b ≡ true → (a || b) ≡ true
right_true true b h = refl
right_true false b h = h

pub not_null : (n strict : Bool) → (n && strict) ≡ false → strict ≡ true → n ≡ false
not_null false strict h e = refl
not_null true true h e = h
not_null true false h e = sym e

-- The three bodies that the dispatch chooses from.
pub Gives-picked :
    (fast is4 is8 : Bool) (by4 by8 generic : Option ScalarArrayOp) (b : Option Bool)
    → Gives generic b
    → (fast ≡ true → is4 ≡ true → Gives by4 b)
    → (fast ≡ true → is8 ≡ true → Gives by8 b)
    → Gives (if fast then (if is4 then by4 else (if is8 then by8 else generic)) else generic) b
Gives-picked false is4 is8 by4 by8 generic b g g4 g8 = g
Gives-picked true true is8 by4 by8 generic b g g4 g8 = g4 refl refl
Gives-picked true false true by4 by8 generic b g g4 g8 = g8 refl refl
Gives-picked true false false by4 by8 generic b g g4 g8 = g

-- The three ends of the whole evaluation.
pub Gives-returned :
    (empty null : Bool) (nothing unknown full : Option ScalarArrayOp) (b : Option Bool)
    → (empty ≡ true → Gives nothing b)
    → (empty ≡ false → null ≡ true → Gives unknown b)
    → (empty ≡ false → null ≡ false → Gives full b)
    → Gives (if empty then nothing else (if null then unknown else full)) b
Gives-returned true null nothing unknown full b g u f = g refl
Gives-returned false true nothing unknown full b g u f = u refl refl
Gives-returned false false nothing unknown full b g u f = f refl refl

pub no_items : (es : List (Option ℕ)) (n : ℕ) → length es ≡ n → (n == 0) ≡ true → es ≡ []
no_items [] n h e = refl
no_items (x ∷ es) n h e = absurd (ground arith)

pub over_none :
    (use_or : Bool) (strict : Bool) (fn : Call) (scalar : NullableDatum)
    → over_all use_or (operator_results strict fn scalar []) ≡ some (not use_or)
unfolding over_all
over_none use_or strict fn scalar = refl

pub unknown_result :
    (use_or strict : Bool) (fn : Call) (scalar : NullableDatum) (es : List (Option ℕ)) (n : ℕ)
    → length es ≡ n
    → (n == 0) ≡ false
    → (scalar.isnull && strict) ≡ true
    → over_all use_or (operator_results strict fn scalar es) ≡ none
unknown_result use_or strict fn scalar [] n h e given = absurd (ground arith)
unknown_result use_or true fn scalar (x ∷ es) n h e given =
    all_null use_or fn scalar x es (both_first scalar.isnull true given)
unknown_result use_or false fn scalar (x ∷ es) n h e given = absurd (ground arith)
