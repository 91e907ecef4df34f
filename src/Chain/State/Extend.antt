-- ===== src/Chain/State/Extend.antt =====
-- internal/chain/processor.go: the parent of a block, its reward, and how ProcessBlock extends the
-- tip.
use klingnet.Prelude.{
  ℕ, ◌+◌, ◌-◌, Bool, not, ◌&&◌, List, [], ◌∷◌, Option, none, some, ltb, ◌==◌, if◌then◌else◌,
  max_u64, ◌%◌, ◌^◌, Result, ok, err, ◌>>=◌, ◌>>◌, reject_if, wrap,
}
use klingnet.Types.{Hash, is_zero, is_zero_hash, script_type_register}
use klingnet.Crypto.{Crypto}
use klingnet.Tx.{Input, Output, Transaction, total_output_value}
use klingnet.Block.{Block, header_hash}
use klingnet.Utxo.{Utxo, UtxoSet, get}
use klingnet.Chain.Apply.{UndoData, apply_block_with_undo}
use klingnet.Chain.State.{
  StateError, supply_overflow, difficulty_overflow, apply_utxo, sub_chain_overflow,
  sub_chain_underflow, bad_height, bad_prev_hash, prev_not_found, fork_detected, Rules, cap_supply,
  excess, validate_block_state,
}

-- State, with the UTXO set and the count of registered sub-chains of its Chain
pub record ChainState : Type 0 where
  pub height : ℕ
  pub tip_hash : Hash
  pub supply : ℕ
  pub cumulative_difficulty : ℕ
  pub tip_timestamp : ℕ
  pub utxos : UtxoSet
  pub registered_sub_chains : ℕ

-- State.IsGenesis
abbrev pub is_genesis : ChainState → Bool
is_genesis s = s.height == 0 && is_zero_hash s.tip_hash

-- the blocks that are stored, by hash: the header's height is all that checkParentLink reads
unfoldable pub check_fork : Option ℕ → ℕ → Result StateError (Unit {0})
check_fork none height = err prev_not_found
check_fork (some parent_height) height =
    if not (height == (parent_height + 1) % 2 ^ 64) then err bad_height else err fork_detected

-- checkParentLink; `fork_detected` is the error that ProcessBlock takes for a fork
unfoldable pub check_parent_link :
    (Hash → Option ℕ) → ChainState → Block → Result StateError (Unit {0})
unfolding check_fork
check_parent_link stored_height s b =
    if is_genesis s
    then (do
      reject_if (not (b.header.height == 0)) bad_height
      reject_if (not (is_zero_hash b.header.prev_hash)) bad_prev_hash)
    else if b.header.prev_hash == s.tip_hash
    then reject_if (not (b.header.height == (s.height + 1) % 2 ^ 64)) bad_height
    else check_fork (stored_height b.header.prev_hash) b.header.height

-- the guarded sum of the input values: what is not found or would overflow is skipped
unfoldable pub add_found : ℕ → Option Utxo → ℕ
add_found total none = total
add_found total (some u) = if ltb (max_u64 - u.value) total then total else total + u.value

unfoldable pub input_sum : UtxoSet → ℕ → List Input → ℕ
input_sum s total [] = total
input_sum s total (i ∷ is) =
    input_sum s (if is_zero i.prev_out then total else add_found total (get i.prev_out s)) is

unfoldable pub output_sum : ℕ → List Output → ℕ
output_sum total [] = total
output_sum total (o ∷ os) =
    output_sum (if ltb (max_u64 - o.value) total then total else total + o.value) os

-- computeTxFee
unfoldable pub compute_tx_fee : UtxoSet → Transaction → ℕ
compute_tx_fee s t = excess (input_sum s 0 t.inputs) (output_sum 0 t.outputs)

-- the loop over the transactions in computeBlockReward
unfoldable pub sum_fees : UtxoSet → ℕ → List Transaction → ℕ
sum_fees s total [] = total
sum_fees s total (t ∷ ts) =
    let fee = compute_tx_fee s t in
    sum_fees s (if ltb (max_u64 - fee) total then total else total + fee) ts

-- computeBlockReward
unfoldable pub compute_block_reward : UtxoSet → List Transaction → ℕ
compute_block_reward s [] = 0
compute_block_reward s (t ∷ ts) = elim t.outputs [
  | [] ↦ 0
  | o ∷ os ↦ elim (total_output_value t) [
    | err e ↦ 0
    | ok coinbase_value ↦ excess coinbase_value (sum_fees s 0 ts)
  ]
]

-- countRegisterOutputs
unfoldable pub count_outputs : List Output → ℕ
count_outputs [] = 0
count_outputs (o ∷ os) =
    let rest = count_outputs os in if o.script.type == script_type_register then rest + 1 else rest

unfoldable pub count_register_outputs : List Transaction → ℕ
count_register_outputs [] = 0
count_register_outputs (t ∷ ts) = count_outputs t.outputs + count_register_outputs ts

-- addRegisteredSubChains
unfoldable pub add_registered_sub_chains : ℕ → ℕ → Result StateError ℕ
add_registered_sub_chains registered count =
    if count == 0
    then ok registered
    else if ltb (max_u64 - count) registered
    then err sub_chain_overflow
    else ok (registered + count)

-- removeRegisteredSubChains
unfoldable pub remove_registered_sub_chains : ℕ → ℕ → Result StateError ℕ
remove_registered_sub_chains registered count =
    if count == 0
    then ok registered
    else if ltb registered count
    then err sub_chain_underflow
    else ok (registered - count)

-- What extending the tip leaves: the count of sub-chains is added last, and where that fails the
-- block stays applied and ProcessBlock returns the error.
pub record Extended : Type 0 where
  pub state : ChainState
  pub undo : UndoData
  pub error : Option StateError

unfoldable pub register : ChainState → UndoData → Result StateError ℕ → Extended
register s undo (ok n) = record {
  state = record s { registered_sub_chains = n };
  undo = undo;
  error = none;
}
register s undo (err e) = record { state = s; undo = undo; error = some e }

module _ ⦃c : Crypto⦄ where
  -- the state that is set once the block is committed
  unfoldable pub next_state : ChainState → Block → ℕ → UtxoSet → ChainState
  next_state s b reward utxos = record s {
    height = b.header.height;
    tip_hash = header_hash b.header;
    supply = s.supply + reward;
    cumulative_difficulty = s.cumulative_difficulty + b.header.difficulty;
    tip_timestamp = b.header.timestamp;
    utxos = utxos;
  }

  unfoldable pub finish : ChainState → Block → ℕ → ℕ → UtxoSet × UndoData → Extended
  finish s b registered reward applied =
      register (next_state s b reward applied.0) (record applied.1 { block_reward = reward })
        (add_registered_sub_chains s.registered_sub_chains registered)

  -- ProcessBlock from the check of the block's state on, for a block on the tip, with a database
  -- that does not fail and without the handlers' calls. Where applying fails, the source leaves
  -- the UTXO set as far as it came.
  unfoldable pub extend_tip : Rules → ChainState → Block → Result StateError Extended
  extend_tip rules s b = do
    registered ← validate_block_state rules s.utxos s.supply s.registered_sub_chains b
    let reward = cap_supply rules.max_supply s.supply (compute_block_reward s.utxos b.transactions)
    reject_if (ltb (max_u64 - s.supply) reward) supply_overflow
    reject_if (ltb (max_u64 - s.cumulative_difficulty) b.header.difficulty) difficulty_overflow
    applied ← wrap (λ _. apply_utxo) (apply_block_with_undo s.utxos b)
    ok (finish s b registered reward applied)
