-- ===== src/CaseDetect/RangeEnds.antt =====
-- Both passes end: the jumps of the steps that PostgreSQL compiles lead forward.
use pg_jitter.Prelude.{
  ℕ, zero, suc, ◌+◌, ◌-◌, ◌*◌, ◌≤◌, ◌<◌, ◌≡◌, ◌∙◌, ap, ◌&&◌, some, List, [], ◌∷◌, ◌⊎◌, inl, inr,
  get_elem?, length, drop, arith, ltb, ◌==◌, Bool-cases, Option-cases,
}
use pg_jitter.Machine.{done}
use pg_jitter.CaseDetect.Steps.{ExprEvalStep, jump}
use pg_jitter.CaseDetect.Branches.{◌>>=◌, non_null_const, jump_target}
use pg_jitter.CaseDetect.Detect.{CaseBSearchInfo, skip_to}
use pg_jitter.CaseDetect.Laid.{jump_target-some}
use pg_jitter.CaseDetect.Found.{IsSuffix, drop-IsSuffix}
use pg_jitter.CaseDetect.Recorded.{Verdict-cases}
use pg_jitter.CaseDetect.Ranges.{
  RangeWhen, RangeClass, RangeBranch, branch_of, range_when_len, max_range_branches, seven_steps,
  same_when, first_when, first_jump, jump_to_end, branch_at, collect,
}
use pg_jitter.CaseDetect.RangeBuild.{
  contiguous, all_representable, then_values, check_range, detect_range_at, detect_ranges,
}

-- Each jump leads to a later step.
abbrev pub IsForward : List ExprEvalStep → Type 0
IsForward steps = (s t : ℕ) → get_elem? steps s ≡ some (jump t) → s < t

tail-IsSuffix :
    (steps : List ExprEvalStep) (s : ℕ) (op : ExprEvalStep) (ops : List ExprEvalStep)
    → IsSuffix steps s (op ∷ ops)
    → IsSuffix steps (s + 1) ops
tail-IsSuffix steps s op ops suffix k m e = suffix (suc k) m (omega arith)

first_jump_found :
    (steps : List ExprEvalStep) (count : ℕ) (ops : List ExprEvalStep) (s q t : ℕ)
    → IsSuffix steps s ops
    → first_jump count ops s ≡ some (q, t)
    → (s ≤ q) × (get_elem? steps q ≡ some (jump t))
unfolding first_jump
first_jump_found steps (suc count) (op ∷ ops) s q t suffix h =
    elim (Option-cases (jump_target op)) [
      | inl e ↦
          let (le, at) =
            first_jump_found steps count ops (s + 1) q t (tail-IsSuffix steps s op ops suffix)
              (ground (arith, h, e)) in
          (omega (arith, le), at)
      | inr (t', e) ↦
          let same : ◌≡◌ {A = ℕ × ℕ} (s, t') (q, t) = ground (arith, h, e) in
          let here : s ≡ q = ap (λ x. x.0) same in
          let there : t' ≡ t = ap (λ x. x.1) same in
          (
            omega (arith, here),
            suffix 0 q (omega (arith, here)) ∙ ap some (jump_target-some op t' e ∙ ap jump there),
          )
    ]
first_jump_found steps _ _ s q t suffix h = absurd (ground (arith, h))

jump_to_end_after :
    (target count : ℕ) (ops : List ExprEvalStep) (s q : ℕ)
    → jump_to_end target count ops s ≡ some q
    → s ≤ q
unfolding jump_to_end
jump_to_end_after target (suc count) (op ∷ ops) s q h = elim (Option-cases (jump_target op)) [
  | inl e ↦
      let le = jump_to_end_after target count ops (s + 1) q (ground (arith, h, e)) in
      omega (arith, le)
  | inr (t, e) ↦ elim (Bool-cases (t == target)) [
    | inl is ↦ let here : s ≡ q = ground (arith, h, e, is) in omega (arith, here)
    | inr differs ↦
        let le = jump_to_end_after target count ops (s + 1) q (ground (arith, h, e, differs)) in
        omega (arith, le)
  ]
]
jump_to_end_after target _ _ s q h = absurd (ground (arith, h))

branch_at_after :
    (steps : List ExprEvalStep) (first : RangeWhen) (e j j' : ℕ) (b : RangeBranch)
    → branch_at steps first e j ≡ some (b, j')
    → j < j'
unfolding branch_at
branch_at_after steps first e j j' b h = elim (Option-cases (seven_steps (drop j steps))) [
  | inl e1 ↦ absurd (ground (arith, h, e1))
  | inr (w, e1) ↦
      elim (Option-cases
        (jump_to_end e 20 (drop (j + range_when_len) steps) (j + range_when_len))) [
          | inl e2 ↦ absurd (ground (arith, h, e1, e2))
          | inr (q, e2) ↦ elim (Bool-cases (same_when first w)) [
            | inr e3 ↦ absurd (ground (arith, h, e1, e2, e3))
            | inl e3 ↦
                let same : ◌≡◌ {A = RangeBranch × ℕ} (branch_of w j, q + 1) (b, j') =
                  ground (arith, h, e1, e2, e3) in
                let there : q + 1 ≡ j' = ap (λ x. x.1) same in
                let le =
                  jump_to_end_after e 20 (drop (j + range_when_len) steps) (j + range_when_len) q
                    e2 in
                omega (arith, there, le)
          ]
        ]
]

collect_after :
    (steps : List ExprEvalStep) (first : RangeWhen) (e room j : ℕ)
    → j ≤ (collect steps first e room j).1
unfolding collect
collect_after steps first e zero j = omega arith
collect_after steps first e (suc room) j =
    elim (Bool-cases (ltb (j + range_when_len) (length steps))) [
      | inr ends ↦ ground (arith, ends)
      | inl goes ↦ elim (Option-cases (branch_at steps first e j)) [
        | inl e1 ↦ ground (arith, goes, e1)
        | inr ((b, j'), e1) ↦
            let rest = collect_after steps first e room j' in
            let lt = branch_at_after steps first e j j' b e1 in ground (arith, goes, e1, rest, lt)
      ]
    ]

check_range-skip :
    (steps : List ExprEvalStep) (i j e k : ℕ) (w : RangeWhen) (class : RangeClass)
    (bs : List RangeBranch)
    → check_range steps i j e w class bs ≡ skip_to k
    → (j ≡ k) ⊎ (e ≡ k)
unfolding check_range
check_range-skip steps i j e k w class bs h = elim (Bool-cases (ltb (length bs) 4)) [
  | inl few ↦ inl (ground (arith, h, few))
  | inr many ↦ elim (Bool-cases (contiguous class bs && all_representable class bs)) [
    | inr fails ↦ inl (ground (arith, h, many, fails))
    | inl passes ↦ elim (Option-cases (get_elem? steps j >>= non_null_const)) [
      | inl e1 ↦ inl (ground (arith, h, many, passes, e1))
      | inr (d, e1) ↦ elim (Option-cases (then_values steps bs)) [
        | inl e2 ↦ inr (ground (arith, h, many, passes, e1, e2))
        | inr (rs, e2) ↦ absurd (ground (arith, h, many, passes, e1, e2))
      ]
    ]
  ]
]

detect_range_at-skip :
    (steps : List ExprEvalStep) (i k : ℕ)
    → IsForward steps
    → detect_range_at steps i ≡ skip_to k
    → i < k
unfolding detect_range_at
detect_range_at-skip steps i k forward h = elim (Option-cases (first_when (drop i steps))) [
  | inl e ↦ absurd (ground (arith, h, e))
  | inr ((w, class), e) ↦
      let s = i + range_when_len in
      elim (Option-cases (first_jump 20 (drop s steps) s)) [
        | inl e1 ↦ absurd (ground (arith, h, e, e1))
        | inr ((q, t), e1) ↦
            let more = collect steps w t (max_range_branches - 1) (q + 1) in
            let (le, at) =
              first_jump_found steps 20 (drop s steps) s q t (drop-IsSuffix steps s) e1 in
            let on = collect_after steps w t (max_range_branches - 1) (q + 1) in
            let lt = forward q t at in
            elim (check_range-skip steps i more.1 t k w class (branch_of w i ∷ more.0)
              (ground (arith, h, e, e1))) [
                | inl there ↦ omega (arith, le, on, there)
                | inr there ↦ omega (arith, le, lt, there)
              ]
      ]
]

pub detect_ranges-ends :
    (steps : List ExprEvalStep) (rounds i room : ℕ)
    → IsForward steps
    → room * suc (length steps) + (length steps - i) < rounds
    → (infos : List CaseBSearchInfo) × (detect_ranges steps rounds i room ≡ done infos)
      × (length infos ≤ room)
unfolding detect_ranges
detect_ranges-ends steps zero i room forward fuel = absurd (omega arith)
detect_ranges-ends steps (suc rounds) i zero forward fuel = ([], ground arith, omega arith)
detect_ranges-ends steps (suc rounds) i (suc room) forward fuel =
    elim (Bool-cases (ltb (i + range_when_len) (length steps))) [
      | inr ends ↦ ([], ground (arith, ends), omega arith)
      | inl goes ↦
          let inside : i + 7 < length steps = ground (arith, goes) in
          elim (Verdict-cases (detect_range_at steps i)) [
            | inl e ↦
                let (infos, h, le) =
                  detect_ranges-ends steps rounds (i + 1) (suc room) forward (omega arith) in
                (infos, ground (arith, goes, e, h), le)
            | inr (inl (j, e)) ↦
                let (infos, h, le) =
                  detect_ranges-ends steps rounds j (suc room) forward
                    (omega (arith, detect_range_at-skip steps i j forward e)) in
                (infos, ground (arith, goes, e, h), le)
            | inr (inr (info, e)) ↦
                let (infos, h, le) =
                  detect_ranges-ends steps rounds info.else_end_opno room forward (omega arith) in
                (info ∷ infos, ground (arith, goes, e, h), omega (arith, le))
          ]
    ]
