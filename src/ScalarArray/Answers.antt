-- ===== src/ScalarArray/Answers.antt =====
-- The evaluation answers as SQL does, by the loop and by the integer searches.
use mathlib.Core.Option
use pg_jitter.Prelude.{
  ℕ, suc, ◌≤◌, ◌≡◌, ◌∙◌, ap, refl, Bool, true, false, not, ◌&&◌, ◌||◌, Option, none, some, List, [],
  ◌∷◌, map, length, take, if◌then◌else◌, arith, inl, inr, ◌⊎◌,
}
use pg_jitter.Prelude.Int.{ℤ}
use pg_jitter.Machine.{eqb_ℤ}
use pg_jitter.ScalarArray.Search.{contains}
use pg_jitter.ScalarArray.Defs.{bool_datum, get_bool, NullableDatum, ScalarArrayOp, Call, result_of}
use pg_jitter.ScalarArray.Kleene.{kleene, over_all}
use pg_jitter.ScalarArray.Stored.{is_null, somes, Marks, item, results}

-- A NULL result, or the Boolean value.
abbrev pub Shows : Option Bool → ScalarArrayOp → Type 0
Shows none op = op.resnull ≡ true
Shows (some b) op = (op.resnull ≡ false) × (op.resvalue ≡ bool_datum b)

-- The result of the operator for an item: a strict one gives NULL for a null argument.
abbrev pub operator_result : Bool → Call → NullableDatum → Option ℕ → Option ℕ
operator_result strict fn scalar e =
    if (scalar.isnull || is_null e) && strict then none else fn scalar (item e)

abbrev pub operator_results : Bool → Call → NullableDatum → List (Option ℕ) → List (Option Bool)
operator_results strict fn scalar es =
    map (λ e. Option.map get_bool (operator_result strict fn scalar e)) es

null_argument :
    (n m : Bool) (r : Option ℕ) → n ≡ true → (if (n || m) && true then none else r) ≡ none
null_argument true m r h = refl
null_argument false m r h = cc

other_argument :
    (n m strict : Bool) (r : Option ℕ)
    → (n && strict) ≡ false
    → (if (n || m) && strict then none else r) ≡ (if m && strict then none else r)
other_argument true m true r h = cc
other_argument true true false r h = refl
other_argument true false false r h = refl
other_argument false m strict r h = refl

null_first :
    (use_or : Bool) (r : Option ℕ) (rest : Option Bool)
    → r ≡ none
    → (rest ≡ none) ⊎ (rest ≡ some (not use_or))
    → kleene use_or (Option.map get_bool r) rest ≡ none
null_first true none none h k = refl
null_first true none (some false) h k = refl
null_first true none (some true) h (inl e) = cc
null_first true none (some true) h (inr e) = cc
null_first false none none h k = refl
null_first false none (some true) h k = refl
null_first false none (some false) h (inl e) = cc
null_first false none (some false) h (inr e) = cc
null_first use_or (some d) rest h k = cc

pub all_null :
    (use_or : Bool) (fn : Call) (scalar : NullableDatum) (e : Option ℕ) (es : List (Option ℕ))
    → scalar.isnull ≡ true
    → over_all use_or (operator_results true fn scalar (e ∷ es)) ≡ none
unfolding over_all
all_null use_or fn scalar e [] null =
    null_first use_or _ _ (null_argument scalar.isnull (is_null e) (fn scalar (item e)) null)
      (inr refl)
all_null use_or fn scalar e (e' ∷ es) null =
    null_first use_or _ _ (null_argument scalar.isnull (is_null e) (fn scalar (item e)) null)
      (inl (all_null use_or fn scalar e' es null))

same_result :
    (strict : Bool) (fn : Call) (scalar : NullableDatum) (e : Option ℕ)
    → (scalar.isnull && strict) ≡ false
    → operator_result strict fn scalar e ≡ result_of strict (fn scalar) (item e)
same_result strict fn scalar none h = other_argument scalar.isnull true strict _ h
same_result strict fn scalar (some d) h = other_argument scalar.isnull false strict _ h

pub same_results :
    (strict : Bool) (fn : Call) (scalar : NullableDatum) (es : List (Option ℕ))
    → (scalar.isnull && strict) ≡ false
    → operator_results strict fn scalar es ≡ results strict (fn scalar) es
same_results strict fn scalar [] h = refl
same_results strict fn scalar (e ∷ es) h =
    let here = same_result strict fn scalar e h in
    let there = same_results strict fn scalar es h in cc

equal_first : (b r : Bool) → kleene true (some (get_bool (bool_datum b))) (some r) ≡ some (b || r)
equal_first true r = refl
equal_first false r = refl

-- The integer search over an array with no null.
module _ (fn : NullableDatum → Option ℕ) (get : ℕ → ℤ) (val : ℤ) (strict : Bool)
    (equals : (d : ℕ) → fn (item (some d)) ≡ some (bool_datum (eqb_ℤ (get d) val))) where
  pub search_agrees :
      (i : ℕ) (es : List (Option ℕ))
      → Marks none i es
      → (length es ≤ length (map get (somes es)))
        × (over_all true (results strict fn es)
            ≡ some (contains val (take (length es) (map get (somes es)))))
  unfolding over_all contains
  search_agrees i [] m = (omega arith, refl)
  search_agrees i (none ∷ es) (h, m) = cc
  search_agrees i (some d ∷ es) (h, m) =
      let (enough, agrees) = search_agrees (suc i) es m in
      (
        omega arith,
        ap (λ r. kleene true (Option.map get_bool r) (over_all true (results strict fn es)))
              (equals d)
            ∙ ap (λ r. kleene true (some (get_bool (bool_datum (eqb_ℤ (get d) val)))) r) agrees
            ∙ equal_first (eqb_ℤ (get d) val)
                (contains val (take (length es) (map get (somes es)))),
      )
