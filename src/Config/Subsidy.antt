-- ===== src/Config/Subsidy.antt =====
-- The subsidy schedule: it never rises, never exceeds the block reward, and halves.
use native.Mathlib.Nat.{
  div-le_self, le-div_iff_mul-le, div-lt_iff_lt-mul, mul-le-mul_left, mul-div-le, pow-le-pow_right,
  div-div-eq-div-mul, add-div_right,
}
use klingnet.Prelude.{ℕ, suc, ◌+◌, ◌-◌, ◌*◌, ◌/◌, ◌^◌, ◌≤◌, ◌<◌, ◌≡◌, arith, max_u64, ap, ◌∙◌, sym}
use klingnet.Config.{block_subsidy}

pow_positive : (n : ℕ) → 0 < 2 ^ n
pow_positive n = pow-le-pow_right {n = 2} (omega arith) {i = 0} {j = n} (omega arith)

div_mono : (k x y : ℕ) → 0 < k → x ≤ y → x / k ≤ y / k
div_mono k x y p q =
    (le-div_iff_mul-le {k = k} {x = x / k} {y = y} p).1 (omega (arith, mul-div-le x k))

div_anti : (x k l : ℕ) → 0 < k → k ≤ l → x / l ≤ x / k
div_anti x k l p q =
    (le-div_iff_mul-le {k = k} {x = x / l} {y = x} p).1
      (omega (arith, mul-div-le x l, mul-le-mul_left (x / l) q))

shift_anti : (x m n : ℕ) → m ≤ n → x / 2 ^ n ≤ x / 2 ^ m
shift_anti x m n q = div_anti x (2 ^ m) (2 ^ n) (pow_positive m) (pow-le-pow_right (omega arith) q)

shift_zero : (x n : ℕ) → x ≤ max_u64 → 64 ≤ n → x / 2 ^ n ≡ 0
shift_zero x n fits q = omega (
  arith,
  shift_anti x 64 n q,
  (div-lt_iff_lt-mul {k = 2 ^ 64} {x = x} {y = 1} (omega arith)).1 (omega arith),
)

shift_half : (x n : ℕ) → x / 2 ^ suc n ≡ x / 2 ^ n / 2
shift_half x n =
    let twice : 2 ^ suc n ≡ 2 ^ n * 2 = omega arith in
    ap (λ z. x / z) twice ∙ sym (div-div-eq-div-mul x (2 ^ n) 2)

move : (height interval : ℕ) → 0 < height → height + interval - 1 ≡ height - 1 + interval
move height interval q = omega arith

-- With a positive halving interval, from height 1 on, the subsidy of a uint64 reward is one interval
-- later half of what it was, rounded down.
pub block_subsidy_halves :
    (reward interval height : ℕ)
    → reward ≤ max_u64
    → 0 < interval
    → 0 < height
    → block_subsidy reward interval (height + interval) ≡ block_subsidy reward interval height / 2
unfolding block_subsidy
block_subsidy_halves reward interval height fits p q =
    let h = (height - 1) / interval in
    let next : (height + interval - 1) / interval ≡ suc h = omega (
      arith,
      add-div_right (height - 1) {k = interval} p,
      ap (λ z. z / interval) (move height interval q),
    ) in
    ground (arith, next, shift_zero reward (suc h) fits, shift_half reward h)

-- From height 1 on the subsidy never rises, and it is at most the block reward.
pub block_subsidy_decreases :
    (reward interval a b : ℕ)
    → 0 < a
    → a ≤ b
    → (block_subsidy reward interval b ≤ block_subsidy reward interval a)
      × (block_subsidy reward interval a ≤ reward)
unfolding block_subsidy
block_subsidy_decreases reward interval a b p q = ground (
  arith,
  div_mono interval (a - 1) (b - 1),
  shift_anti reward ((a - 1) / interval) ((b - 1) / interval),
  div-le_self reward (2 ^ ((a - 1) / interval)),
)
