-- ===== src/CaseDetect/Passes.antt =====
-- Both passes together.
use native.Mathlib.Nat.{mul-le-mul_right}
use pg_jitter.Prelude.{
  ℕ, suc, ◌+◌, ◌-◌, ◌*◌, ◌≤◌, ◌<◌, ◌≡◌, List, ◌++◌, length, length-append, arith,
}
use pg_jitter.Machine.{done}
use pg_jitter.CaseDetect.Steps.{ExprEvalStep}
use pg_jitter.CaseDetect.Build.{Platform}
use pg_jitter.CaseDetect.Detect.{CaseBSearchInfo}
use pg_jitter.CaseDetect.Terminates.{detect_single-ends}
use pg_jitter.CaseDetect.RangeBuild.{pg_jitter_detect_case_bsearch}
use pg_jitter.CaseDetect.RangeEnds.{IsForward, detect_ranges-ends}

less_room : (a b k : ℕ) → (a - b) * k ≤ a * k
less_room a b k = let le : a - b ≤ a = omega arith in omega (arith, mul-le-mul_right k le)

-- The detection ends, within a round for each step and each place, on steps whose jumps all lead
-- forward, and takes no more than the places that the caller has given it.
pub detection_ends :
    (p : Platform) (steps : List ExprEvalStep) (rounds max_patterns : ℕ)
    → IsForward steps
    → max_patterns * suc (length steps) + length steps < rounds
    → (infos : List CaseBSearchInfo) × (pg_jitter_detect_case_bsearch p steps rounds max_patterns
        ≡ done infos)
      × (length infos ≤ max_patterns)
unfolding pg_jitter_detect_case_bsearch
detection_ends p steps rounds max_patterns forward fuel =
    let (infos, h, le) = detect_single-ends p steps rounds 0 max_patterns (omega (arith, fuel)) in
    let room = max_patterns - length infos in
    let (more, h', le') =
      detect_ranges-ends steps rounds 0 room forward
        (omega (arith, fuel, less_room max_patterns (length infos) (suc (length steps)))) in
    (infos ++ more, ground (arith, h, h'), omega (arith, le, le', length-append infos more))
