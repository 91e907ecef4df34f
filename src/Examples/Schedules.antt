-- ===== src/Examples/Schedules.antt =====
-- The theorems on the proof of work, the difficulty and the subsidy at small numbers.
use klingnet.Prelude.{
  ℕ, ◌+◌, ◌*◌, ◌/◌, ◌≤◌, ◌<◌, ◌≡◌, refl, ◌↔◌, true, false, ok, Option, some, [], arith, max_u64,
}
use klingnet.Prelude.Int.{pos}
use klingnet.Config.{block_subsidy}
use klingnet.Config.Subsidy.{block_subsidy_halves, block_subsidy_decreases}
use klingnet.Block.{Header, header_hash}
use klingnet.Consensus.Pow.{
  Pow, max_uint256, target, verify_header, signing_prefix, meets, seal_single, expected_difficulty,
  calc_next_difficulty,
}
use klingnet.Consensus.Pow.Target.{verify_header_iff, seal_single-first}
use klingnet.Consensus.Pow.Retarget.{expected_difficulty_bounds, calc_next_difficulty_collapse}
use klingnet.Examples.{toy}

abbrev easy : Header
easy = record {
  version = 1;
  prev_hash = 0;
  merkle_root = 0;
  timestamp = 1;
  height = 2;
  difficulty = 1;
  nonce = 0;
  validator_sig = [];
}

verify_header_iff_example :
    (verify_header easy ≡ ok tt)
    ↔ ((0 < easy.difficulty) × (header_hash easy * easy.difficulty ≤ max_uint256))
verify_header_iff_example = verify_header_iff easy

easy-meets : meets (signing_prefix easy) (target easy.difficulty) 2 ≡ true
unfolding meets klingnet.Bytes.be_number signing_prefix klingnet.Bytes.le_bytes
    klingnet.Bytes.be_bytes target
easy-meets = refl

seal_single-first_example :
    (k : ℕ) × (seal_single 5 easy ≡ ok (record easy { nonce = k }))
    × (verify_header (record easy { nonce = k }) ≡ ok tt)
    × (k ≤ 2)
    × ((j : ℕ) → j < k → meets (signing_prefix easy) (target easy.difficulty) j ≡ false)
seal_single-first_example = seal_single-first 5 easy 2 (omega arith) (omega arith) easy-meets

abbrev engine : Pow
engine = record { initial_difficulty = 100; adjust_interval = 10; target_block_time = 4 }

abbrev stamps : ℕ → Option ℕ
stamps h = some (h * 3)

expected_difficulty_bounds_example :
    (d : ℕ) × (expected_difficulty engine 20 100 stamps ≡ some d)
    × (0 < d)
    × (d ≤ 4 * 100)
    × (100 / 4 ≤ d)
expected_difficulty_bounds_example =
    expected_difficulty_bounds engine 10 20 100 stamps refl (omega arith) (omega arith)
      (omega arith) (omega arith) (omega arith)

calc_next_difficulty_collapse_example : calc_next_difficulty max_u64 (pos 5) (pos (4 * 10)) ≡ some 1
calc_next_difficulty_collapse_example =
    calc_next_difficulty_collapse max_u64 10 5 (omega arith) (omega arith) (omega arith)
      (omega arith) (omega arith)

block_subsidy_halves_example : block_subsidy 20 100 (7 + 100) ≡ block_subsidy 20 100 7 / 2
block_subsidy_halves_example =
    block_subsidy_halves 20 100 7 (omega arith) (omega arith) (omega arith)

block_subsidy_decreases_example :
    (block_subsidy 20 100 250 ≤ block_subsidy 20 100 7) × (block_subsidy 20 100 7 ≤ 20)
block_subsidy_decreases_example = block_subsidy_decreases 20 100 7 250 (omega arith) (omega arith)
