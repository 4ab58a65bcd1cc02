-- ===== src/CaseDetect/Recorded.antt =====
-- What holds of a pattern that a round of the first pass records.
use pg_jitter.Prelude.{
  ℕ, zero, suc, ◌+◌, ◌-◌, ◌*◌, ◌∙◌, refl, ap, ◌⊎◌, [], ◌≤◌, ◌≡◌, true, false, not, ◌&&◌, some, List,
  ◌∷◌, inl, inr, drop, length, get_elem?, arith, ltb, Bool-cases, Option-cases,
}
use mathlib.Core.Path.{subst}
use pg_jitter.Machine.{Run, done, out_of_bounds, out_of_rounds}
use pg_jitter.CaseSearch.Defs.{Datum, CaseBSearchDesc}
use pg_jitter.CaseDetect.Steps.{ExprEvalStep}
use pg_jitter.CaseDetect.Classify.{CmpClass, classify_cmp_fn}
use pg_jitter.CaseDetect.Branches.{Branch, following, first_branch, jumps_next, else_value}
use pg_jitter.CaseDetect.Build.{Platform, monotonic, build_desc}
use pg_jitter.CaseDetect.Detect.{
  CaseBSearchInfo, Verdict, advance, skip_to, found, info_of, build_pattern, check_pattern,
  detect_at, detect_single, recorded,
}
use pg_jitter.CaseDetect.Laid.{IsElse, else_value-IsElse}
use pg_jitter.CaseDetect.Runs.{IsLaid, is_load}
use pg_jitter.CaseDetect.Found.{IsFirst, drop-IsSuffix, following-IsLaid, first_branch-IsFirst}

-- The branches of a recorded pattern, its ELSE value, and what was checked of them.
pub record IsFound (p : Platform) (steps : List ExprEvalStep) (i : ℕ) (info : CaseBSearchInfo)
    : Type 0 where
  pub first : Branch
  pub class : CmpClass
  pub bs : List Branch
  pub d : Datum
  pub desc : CaseBSearchDesc
  pub is_loaded : is_load first.load ≡ true
  pub classified : classify_cmp_fn first.call.fn_addr ≡ some class
  pub loads : get_elem? steps i ≡ some first.load
  pub laid : IsLaid steps first i bs
  pub is_else : IsElse steps (i + 5 * length bs) first.end_target d
  pub enough : 4 ≤ length bs
  pub ordered : class.is_equality ≡ false → monotonic p first.call class bs ≡ true
  pub built : build_desc p first.call class bs d ≡ some desc
  pub is_info : info_of i (i + 5 * length bs) first class (length bs) d desc ≡ info

-- What `build_pattern` has checked where it records a pattern.
record IsBuilt (p : Platform) (i j : ℕ) (first : Branch) (class : CmpClass) (bs : List Branch)
    (d : Datum) (info : CaseBSearchInfo) : Type 0 where
  desc : CaseBSearchDesc
  enough : 4 ≤ length bs
  ordered : class.is_equality ≡ false → monotonic p first.call class bs ≡ true
  built : build_desc p first.call class bs d ≡ some desc
  is_info : info_of i j first class (length bs) d desc ≡ info

build_pattern-IsBuilt :
    (p : Platform) (i j : ℕ) (first : Branch) (class : CmpClass) (bs : List Branch) (d : Datum)
    (info : CaseBSearchInfo)
    → build_pattern p i j first class bs d ≡ found info
    → IsBuilt p i j first class bs d info
unfolding build_pattern
build_pattern-IsBuilt p i j first class bs d info h = elim (Bool-cases (ltb (length bs) 4)) [
  | inl few ↦ absurd (ground (arith, h, few))
  | inr many ↦ elim (Bool-cases (not class.is_equality && not (monotonic p first.call class bs))) [
    | inl fails ↦ absurd (ground (arith, h, many, fails))
    | inr passes ↦ elim (Option-cases (build_desc p first.call class bs d)) [
      | inl e ↦ absurd (ground (arith, h, many, passes, e))
      | inr (desc, e) ↦ record {
        desc = desc;
        enough = ground (arith, many);
        ordered = λ differs. ground (arith, passes, differs);
        built = e;
        is_info = ground (arith, h, many, passes, e);
      }
    ]
  ]
]

check_pattern-IsFound :
    (p : Platform) (steps : List ExprEvalStep) (i : ℕ) (first : Branch) (class : CmpClass)
    (more : List Branch) (info : CaseBSearchInfo)
    → IsFirst steps i first class
    → IsLaid steps first (i + 5) more
    → check_pattern p steps i first class (first ∷ more) ≡ found info
    → IsFound p steps i info
unfolding check_pattern jumps_next
check_pattern-IsFound p steps i first class more info is_first laid h =
    let bs = first ∷ more in
    let j = i + 5 * length bs in
    elim (Bool-cases (jumps_next i bs)) [
      | inr fails ↦ absurd (ground (arith, h, fails))
      | inl passes ↦ elim (Option-cases (else_value steps j first.end_target)) [
        | inl e ↦ absurd (ground (arith, h, passes, e))
        | inr (d, e) ↦
            let b =
              build_pattern-IsBuilt p i j first class bs d info (ground (arith, h, passes, e)) in
            record {
              first = first;
              class = class;
              bs = bs;
              d = d;
              desc = b.desc;
              is_loaded = is_first.is_loaded;
              classified = is_first.classified;
              loads = (is_first.laid (ground (arith, passes))).at_load;
              laid = (is_first.laid (ground (arith, passes)), laid);
              is_else = else_value-IsElse steps j first.end_target d e;
              enough = b.enough;
              ordered = b.ordered;
              built = b.built;
              is_info = b.is_info;
            }
      ]
    ]

pub detect_at-IsFound :
    (p : Platform) (steps : List ExprEvalStep) (i : ℕ) (info : CaseBSearchInfo)
    → detect_at p steps i ≡ found info
    → IsFound p steps i info
unfolding detect_at
detect_at-IsFound p steps i info h =
    elim (Option-cases (first_branch p.find_direct_fn (drop i steps))) [
      | inl e ↦ absurd (ground (arith, h, e))
      | inr ((first, class), e) ↦
          check_pattern-IsFound p steps i first class (following first (drop (i + 5) steps) (i + 5))
            info
            (first_branch-IsFirst p.find_direct_fn steps (drop i steps) i first class
              (drop-IsSuffix steps i) e)
            (following-IsLaid steps first (drop (i + 5) steps) (i + 5)
              (drop-IsSuffix steps (i + 5)))
            (ground (arith, h, e))
    ]

pub Verdict-cases :
    (o : Verdict)
    → (o ≡ advance) ⊎ (((j : ℕ) × (o ≡ skip_to j)) ⊎ ((info : CaseBSearchInfo) × (o ≡ found info)))
Verdict-cases advance = inl refl
Verdict-cases (skip_to j) = inr (inl (j, refl))
Verdict-cases (found info) = inr (inr (info, refl))

cons_at :
    (new : CaseBSearchInfo) (rest infos : List CaseBSearchInfo) (k : ℕ) (info : CaseBSearchInfo)
    → new ∷ rest ≡ infos
    → get_elem? infos k ≡ some info
    → (new ≡ info) ⊎ ((k' : ℕ) × (get_elem? rest k' ≡ some info))
cons_at new rest infos zero info parts at =
    inl (ground (arith, ap (λ xs. get_elem? xs zero) parts, at))
cons_at new rest infos (suc k) info parts at = inr (k, ap (λ xs. get_elem? xs (suc k)) parts ∙ at)

recorded-done :
    (info : CaseBSearchInfo) (o : Run (List CaseBSearchInfo)) (infos : List CaseBSearchInfo)
    → recorded info o ≡ done infos
    → (rest : List CaseBSearchInfo) × (o ≡ done rest) × (info ∷ rest ≡ infos)
recorded-done info (done rest) infos h = (rest, refl, ground (arith, h))
recorded-done info out_of_bounds infos h = absurd (ground (arith, h))
recorded-done info out_of_rounds infos h = absurd (ground (arith, h))

IsFound-here :
    (p : Platform) (steps : List ExprEvalStep) (i : ℕ) (info : CaseBSearchInfo)
    → IsFound p steps i info
    → IsFound p steps info.start_opno info
IsFound-here p steps i info it =
    let e : i ≡ info.start_opno = ap (λ x. x.start_opno) it.is_info in
    subst (λ k. IsFound p steps k info) e it

-- Each pattern that the first pass gives has been recorded by a round at its first step.
pub detect_single-IsFound :
    (p : Platform) (steps : List ExprEvalStep) (rounds i room : ℕ) (infos : List CaseBSearchInfo)
    (k : ℕ) (info : CaseBSearchInfo)
    → detect_single p steps rounds i room ≡ done infos
    → get_elem? infos k ≡ some info
    → IsFound p steps info.start_opno info
unfolding detect_single
detect_single-IsFound p steps zero i room infos k info h at = absurd (ground (arith, h))
detect_single-IsFound p steps (suc rounds) i room infos k info h at =
    elim (Bool-cases (ltb (i + 5) (length steps) && ltb 0 room)) [
      | inr ends ↦
          let none_left : [] ≡ infos = ground (arith, h, ends) in
          absurd (ground (arith, at, none_left))
      | inl goes ↦ elim (Verdict-cases (detect_at p steps i)) [
        | inl e ↦
            detect_single-IsFound p steps rounds (i + 1) room infos k info
              (ground (arith, h, goes, e)) at
        | inr (inl (j, e)) ↦
            detect_single-IsFound p steps rounds j room infos k info (ground (arith, h, goes, e)) at
        | inr (inr (new, e)) ↦
            let (rest, e', parts) =
              recorded-done new (detect_single p steps rounds new.else_end_opno (room - 1)) infos
                (ground (arith, h, goes, e)) in
            elim (cons_at new rest infos k info parts at) [
              | inl same ↦
                  subst (λ x. IsFound p steps x.start_opno x) same
                    (IsFound-here p steps i new (detect_at-IsFound p steps i new e))
              | inr (k', at') ↦
                  detect_single-IsFound p steps rounds new.else_end_opno (room - 1) rest k' info e'
                    at'
            ]
      ]
    ]
