-- ===== src/Consensus/Pow/Retarget.antt =====
-- The difficulty schedule: by how much one adjustment changes the difficulty.
use native.Mathlib.Nat.{le-div_iff_mul-le, div-lt_iff_lt-mul, mul-le-mul_left, mul-le-mul_right}
use klingnet.Prelude.{
  ℕ, zero, suc, ◌+◌, ◌*◌, ◌/◌, ◌^◌, ◌≤◌, ◌<◌, ◌≡◌, refl, Option, some, arith, max_u64, ltb,
  if◌then◌else◌, ◌==◌, ◌||◌, ◌-◌, Bool-cases, Option-cases, inl, inr,
}
use klingnet.Prelude.Int.{ℤ, pos, sub_u64}
use klingnet.Consensus.Pow.{
  Pow, should_adjust, calc_next_difficulty, at_least_one, clamp_span, scale, elapsed, retarget,
  expected_difficulty,
}

-- The span that an adjustment divides by, of an expected span of 4 k seconds.
clamp_span_bounds :
    (a k : ℕ)
    → 0 < k
    → 16 * k < 2 ^ 63
    → (s : ℕ) × (clamp_span a (4 * k) ≡ pos s) × (k ≤ s) × (s ≤ 16 * k)
unfolding clamp_span
clamp_span_bounds a k p q =
    let raised = if ltb a k then k else a in
    (if ltb (16 * k) raised then 16 * k else raised, ground arith, ground arith, ground arith)

scale_bounds :
    (cur k s : ℕ)
    → 0 < cur
    → 4 * cur ≤ max_u64
    → 0 < s
    → k ≤ s
    → s ≤ 16 * k
    → (d : ℕ) × (scale cur (4 * k) (pos s) ≡ some d) × (0 < d) × (d ≤ 4 * cur) × (cur / 4 ≤ d)
unfolding scale
scale_bounds cur k zero p fits s0 low high = absurd (omega arith)
scale_bounds cur k (suc s) p fits s0 low high =
    let result = cur * (4 * k) / suc s in
    let up : result < 4 * cur + 1 =
      (div-lt_iff_lt-mul {k = suc s} {x = cur * (4 * k)} {y = 4 * cur + 1} (omega arith)).1
        (omega (arith, mul-le-mul_left (4 * cur) low)) in
    let down : cur / 4 ≤ result =
      (le-div_iff_mul-le {k = suc s} {x = cur / 4} {y = cur * (4 * k)} (omega arith)).1 (
        omega (
          arith,
          mul-le-mul_left (cur / 4) high,
          mul-le-mul_right {m = cur / 4 * 4} {n = cur} (4 * k) (omega arith),
        )) in
    (
      if result == 0 || ltb max_u64 result then 1 else result,
      ground arith,
      ground arith,
      ground arith,
      ground arith,
    )

scale_over : (cur k : ℕ) → 0 < k → max_u64 < 4 * cur → scale cur (4 * k) (pos k) ≡ some 1
unfolding scale
scale_over cur zero p over = absurd (omega arith)
scale_over cur (suc k) p over = ground (
  arith,
  (le-div_iff_mul-le {k = suc k} {x = 4 * cur} {y = cur * (4 * suc k)} (omega arith)).1
      (omega arith),
)

at_least_one_pos : (n : ℕ) → 0 < n → at_least_one (pos n) ≡ n
unfolding at_least_one
at_least_one_pos zero p = absurd (omega arith)
at_least_one_pos (suc n) p = refl

-- One adjustment from a difficulty that leaves room for a factor of four, with an expected span of
-- 4 k seconds, gives a positive difficulty within a factor of four, whatever the actual span.
pub calc_next_difficulty_bounds :
    (cur k : ℕ) (actual : ℤ)
    → 0 < k
    → 16 * k < 2 ^ 63
    → 0 < cur
    → 4 * cur ≤ max_u64
    → (d : ℕ) × (calc_next_difficulty cur actual (pos (4 * k)) ≡ some d)
      × (0 < d)
      × (d ≤ 4 * cur)
      × (cur / 4 ≤ d)
unfolding calc_next_difficulty
calc_next_difficulty_bounds cur k actual p q c fits =
    let (s, span, low, high) = clamp_span_bounds (at_least_one actual) k p q in
    let (d, scaled, lo, up, down) = scale_bounds cur k s c fits (omega arith) low high in
    (d, ground (arith, at_least_one_pos (4 * k) (omega arith), scaled, span), lo, up, down)

-- The difficulty that the engine expects after the first block: with a positive previous
-- difficulty that leaves room for a factor of four, and an expected interval of 4 k seconds with
-- 0 < k and 16 k < 2^63, it is defined, positive and within a factor of four of the previous one,
-- whatever the timestamps are.
pub expected_difficulty_bounds :
    (p : Pow) (k height prev : ℕ) (get_timestamp : ℕ → Option ℕ)
    → p.adjust_interval * p.target_block_time ≡ 4 * k
    → 0 < k
    → 16 * k < 2 ^ 63
    → 1 < height
    → 0 < prev
    → 4 * prev ≤ max_u64
    → (d : ℕ) × (expected_difficulty p height prev get_timestamp ≡ some d)
      × (0 < d)
      × (d ≤ 4 * prev)
      × (prev / 4 ≤ d)
unfolding expected_difficulty retarget
expected_difficulty_bounds p k height prev get_timestamp span kp kq hp pp fits =
    let start = get_timestamp (sub_u64 height p.adjust_interval) in
    let end = get_timestamp (height - 1) in
    let same : (d : ℕ) × (some prev ≡ some d) × (0 < d) × (d ≤ 4 * prev) × (prev / 4 ≤ d) =
      (prev, refl, pp, omega arith, omega arith) in
    elim (Bool-cases (should_adjust p height)) [
      | inr no_turn ↦ (prev, ground arith, pp, omega arith, omega arith)
      | inl turn ↦ elim (Option-cases start) [
        | inl no_start ↦ (prev, ground arith, pp, omega arith, omega arith)
        | inr (a, from) ↦ elim (Option-cases end) [
          | inl no_end ↦ (prev, ground arith, pp, omega arith, omega arith)
          | inr (b, to) ↦
              let (d, found, lo, up, down) =
                calc_next_difficulty_bounds prev k (elapsed a b) kp kq pp fits in
              (d, ground arith, lo, up, down)
        ]
      ]
    ]

-- Let the expected span be 4 k seconds with 0 < k and 16 k < 2^63. Where four times the difficulty
-- is no uint64 and the actual span is positive and at most k, the adjustment gives difficulty 1.
pub calc_next_difficulty_collapse :
    (cur k actual : ℕ)
    → 0 < k
    → 16 * k < 2 ^ 63
    → max_u64 < 4 * cur
    → 0 < actual
    → actual ≤ k
    → calc_next_difficulty cur (pos actual) (pos (4 * k)) ≡ some 1
unfolding calc_next_difficulty clamp_span
calc_next_difficulty_collapse cur k actual p q over a low = ground (
  arith,
  at_least_one_pos (4 * k) (omega arith),
  at_least_one_pos actual a,
  scale_over cur k p over,
)
