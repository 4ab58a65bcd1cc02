-- ===== src/CaseDetect/Terminates.antt =====
-- The first pass ends: a round goes forward in the steps, or takes one of the places for a pattern.
use pg_jitter.Prelude.{
  ℕ, zero, suc, ◌+◌, ◌-◌, ◌*◌, ◌≤◌, ◌<◌, ◌≡◌, not, ◌&&◌, List, [], ◌∷◌, inl, inr, length, drop,
  arith, ltb, Bool-cases, Option-cases,
}
use pg_jitter.Machine.{done}
use pg_jitter.CaseSearch.Defs.{Datum}
use pg_jitter.CaseDetect.Steps.{ExprEvalStep}
use pg_jitter.CaseDetect.Classify.{CmpClass}
use pg_jitter.CaseDetect.Branches.{Branch, following, first_branch, jumps_next, else_value}
use pg_jitter.CaseDetect.Build.{Platform, monotonic, build_desc}
use pg_jitter.CaseDetect.Detect.{
  CaseBSearchInfo, skip_to, build_pattern, check_pattern, detect_at, detect_single,
}
use pg_jitter.CaseDetect.Recorded.{Verdict-cases}

build_pattern-skip :
    (p : Platform) (i j k : ℕ) (first : Branch) (class : CmpClass) (bs : List Branch) (d : Datum)
    → build_pattern p i j first class bs d ≡ skip_to k
    → j ≡ k
unfolding build_pattern
build_pattern-skip p i j k first class bs d h = elim (Bool-cases (ltb (length bs) 4)) [
  | inl few ↦ ground (arith, h, few)
  | inr many ↦ elim (Bool-cases (not class.is_equality && not (monotonic p first.call class bs))) [
    | inl fails ↦ ground (arith, h, many, fails)
    | inr passes ↦ elim (Option-cases (build_desc p first.call class bs d)) [
      | inl e ↦ ground (arith, h, many, passes, e)
      | inr (desc, e) ↦ absurd (ground (arith, h, many, passes, e))
    ]
  ]
]

check_pattern-skip :
    (p : Platform) (steps : List ExprEvalStep) (i k : ℕ) (first : Branch) (class : CmpClass)
    (more : List Branch)
    → check_pattern p steps i first class (first ∷ more) ≡ skip_to k
    → i < k
unfolding check_pattern
check_pattern-skip p steps i k first class more h =
    let bs = first ∷ more in
    let j = i + 5 * length bs in
    elim (Bool-cases (jumps_next i bs)) [
      | inr fails ↦ absurd (ground (arith, h, fails))
      | inl passes ↦ elim (Option-cases (else_value steps j first.end_target)) [
        | inl e ↦ absurd (ground (arith, h, passes, e))
        | inr (d, e) ↦
            let same : j ≡ k =
              build_pattern-skip p i j k first class bs d (ground (arith, h, passes, e)) in
            omega (arith, same)
      ]
    ]

detect_at-skip :
    (p : Platform) (steps : List ExprEvalStep) (i k : ℕ) → detect_at p steps i ≡ skip_to k → i < k
unfolding detect_at
detect_at-skip p steps i k h = elim (Option-cases (first_branch p.find_direct_fn (drop i steps))) [
  | inl e ↦ absurd (ground (arith, h, e))
  | inr ((first, class), e) ↦
      check_pattern-skip p steps i k first class (following first (drop (i + 5) steps) (i + 5))
        (ground (arith, h, e))
]

-- The first pass ends within a round for each step and each place, whatever the steps are, and takes no
-- more than the places.
pub detect_single-ends :
    (p : Platform) (steps : List ExprEvalStep) (rounds i room : ℕ)
    → room * suc (length steps) + (length steps - i) < rounds
    → (infos : List CaseBSearchInfo) × (detect_single p steps rounds i room ≡ done infos)
      × (length infos ≤ room)
unfolding detect_single
detect_single-ends p steps zero i room fuel = absurd (omega arith)
detect_single-ends p steps (suc rounds) i zero fuel = ([], ground arith, omega arith)
detect_single-ends p steps (suc rounds) i (suc room) fuel =
    elim (Bool-cases (ltb (i + 5) (length steps))) [
      | inr ends ↦ ([], ground (arith, ends), omega arith)
      | inl goes ↦
          let inside : i + 5 < length steps = ground (arith, goes) in
          elim (Verdict-cases (detect_at p steps i)) [
            | inl e ↦
                let (infos, h, le) =
                  detect_single-ends p steps rounds (i + 1) (suc room) (omega arith) in
                (infos, ground (arith, goes, e, h), le)
            | inr (inl (j, e)) ↦
                let (infos, h, le) =
                  detect_single-ends p steps rounds j (suc room)
                    (omega (arith, detect_at-skip p steps i j e)) in
                (infos, ground (arith, goes, e, h), le)
            | inr (inr (info, e)) ↦
                let (infos, h, le) =
                  detect_single-ends p steps rounds info.else_end_opno room (omega arith) in
                (info ∷ infos, ground (arith, goes, e, h), omega (arith, le))
          ]
    ]
