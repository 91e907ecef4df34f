-- ===== src/Consensus/Pow.antt =====
-- internal/consensus/pow.go: the hash target, mining and the difficulty schedule.
pub mod Target
pub mod Retarget
use klingnet.Prelude.{
  ℕ, zero, suc, ◌+◌, ◌-◌, ◌*◌, ◌/◌, ◌%◌, ◌^◌, Bool, not, ◌&&◌, ◌||◌, List, ◌++◌, Option, none, some,
  ltb, leb, ◌==◌, if◌then◌else◌, max_u64, Result, ok, err,
}
use klingnet.Prelude.Int.{ℤ, pos, negsuc, to_int64, sub_u64}
use klingnet.Bytes.{le_bytes, be_bytes}
use klingnet.Crypto.{Crypto, hash}
use klingnet.Block.{Header, header_bytes, header_hash}

pub data PowError : Type 0 where
  insufficient_work zero_difficulty bad_difficulty nonce_space_exhausted : PowError

abbrev pub max_uint256 : ℕ
max_uint256 = 2 ^ 256 - 1

-- The engine without its DifficultyFn and Threads; int fields are not negative here.
pub record Pow : Type 0 where
  pub initial_difficulty : ℕ
  pub adjust_interval : ℕ
  pub target_block_time : ℕ

-- NewPoW
unfoldable pub new_pow : ℕ → ℕ → ℕ → Result PowError Pow
new_pow difficulty adjust_interval target_block_time =
    if difficulty == 0
    then err zero_difficulty
    else ok (record {
      initial_difficulty = difficulty;
      adjust_interval = adjust_interval;
      target_block_time = target_block_time;
    })

-- ShouldAdjust
unfoldable pub should_adjust : Pow → ℕ → Bool
should_adjust p height =
    ltb 0 height && (ltb 0 p.adjust_interval && height % p.adjust_interval == 0)

unfoldable pub target : ℕ → ℕ
target difficulty = max_uint256 / difficulty

-- signingPrefix: the signing bytes without the nonce
unfoldable pub signing_prefix : Header → List ℕ
signing_prefix h =
    le_bytes 4 h.version
    ++ (be_bytes 32 h.prev_hash
        ++ (be_bytes 32 h.merkle_root
            ++ (le_bytes 8 h.timestamp ++ (le_bytes 8 h.height ++ le_bytes 8 h.difficulty))))

module _ ⦃c : Crypto⦄ where
  -- VerifyHeader; the hash is the number that `SetBytes` reads
  unfoldable pub verify_header : Header → Result PowError (Unit {0})
  verify_header h =
      if h.difficulty == 0
      then err zero_difficulty
      else if ltb (target h.difficulty) (header_hash h)
      then err insufficient_work
      else ok tt

  -- whether the nonce meets the target, in the body of the mining loop
  unfoldable pub meets : List ℕ → ℕ → ℕ → Bool
  meets prefix t nonce = leb (hash (prefix ++ le_bytes 8 nonce)) t

  -- The loop of sealSingle from `nonce` on, with no cancellation; `rounds` counts the nonces left.
  unfoldable pub seal_loop : ℕ → List ℕ → ℕ → ℕ → Result PowError ℕ
  seal_loop zero prefix t nonce = err nonce_space_exhausted
  seal_loop (suc rounds) prefix t nonce = elim (meets prefix t nonce) [
    | Bool.true ↦ ok nonce
    | Bool.false ↦ seal_loop rounds prefix t (nonce + 1)
  ]

  -- sealSingle, from nonce 0 through the last uint64: the header with the nonce set
  unfoldable pub seal_single : ℕ → Header → Result PowError Header
  seal_single rounds h = elim (seal_loop rounds (signing_prefix h) (target h.difficulty) 0) [
    | ok nonce ↦ ok (record h { nonce = nonce })
    | err e ↦ err e
  ]

-- `if span <= 0 { span = 1 }`
unfoldable pub at_least_one : ℤ → ℕ
at_least_one (pos zero) = 1
at_least_one (pos (suc n)) = suc n
at_least_one (negsuc n) = 1

-- the two clamps of `actualTimeSpan`, for positive spans; `expected * 4` wraps in an int64
unfoldable pub clamp_span : ℕ → ℕ → ℤ
clamp_span actual expected =
    let quarter = expected / 4 in
    let min_span = if quarter == 0 then 1 else quarter in
    let raised = if ltb actual min_span then min_span else actual in
    elim (to_int64 (expected * 4 % 2 ^ 64)) [
      | pos max_span ↦ if ltb max_span raised then pos max_span else pos raised
      | negsuc n ↦ negsuc n
    ]

-- `currentDiff * expected / actual`, brought to a uint64; a division by zero panics (`none`)
unfoldable pub scale : ℕ → ℕ → ℤ → Option ℕ
scale current expected (pos zero) = none
scale current expected (pos (suc n)) =
    let result = current * expected / suc n in
    some (if result == 0 || ltb max_u64 result then 1 else result)
scale current expected (negsuc n) = some 1

-- CalcNextDifficulty
unfoldable pub calc_next_difficulty : ℕ → ℤ → ℤ → Option ℕ
unfolding at_least_one clamp_span scale
calc_next_difficulty current actual expected =
    let e = at_least_one expected in scale current e (clamp_span (at_least_one actual) e)

-- `int64(endTS - startTS)`
abbrev pub elapsed : ℕ → ℕ → ℤ
elapsed start end = to_int64 (sub_u64 end start)

unfoldable pub retarget : Pow → ℕ → Option ℕ → Option ℕ → Option ℕ
unfolding calc_next_difficulty
retarget p prev none end = some prev
retarget p prev (some start) none = some prev
retarget p prev (some start) (some end) =
    calc_next_difficulty prev (elapsed start end)
      (to_int64 (p.adjust_interval * p.target_block_time % 2 ^ 64))

-- ExpectedDifficulty, over the timestamps that are found by height; `none` is a panic
unfoldable pub expected_difficulty : Pow → ℕ → ℕ → (ℕ → Option ℕ) → Option ℕ
unfolding should_adjust retarget
expected_difficulty p height prev get_timestamp =
    if leb height 1 || prev == 0
    then some p.initial_difficulty
    else if not (should_adjust p height)
    then some prev
    else retarget p prev (get_timestamp (sub_u64 height p.adjust_interval))
        (get_timestamp (height - 1))

-- VerifyDifficulty, where `none` is a panic of ExpectedDifficulty
unfoldable pub verify_difficulty :
    Pow → Header → ℕ → (ℕ → Option ℕ) → Option (Result PowError (Unit {0}))
verify_difficulty p h prev get_timestamp =
    elim (expected_difficulty p h.height prev get_timestamp) [
      | none ↦ none
      | some expected ↦ some (if h.difficulty == expected then ok tt else err bad_difficulty)
    ]
