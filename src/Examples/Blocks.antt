-- ===== src/Examples/Blocks.antt =====
-- The theorems on blocks and on the UTXO set at a block with one transfer.
use klingnet.Prelude.{
  ℕ, ◌+◌, ◌≤◌, ◌≡◌, refl, ◌⊎◌, inl, inr, ok, err, All, arith, none, some, List, [], ◌∷◌, map,
}
use klingnet.Prelude.Assoc.{lookup, IsMap}
use klingnet.Types.{outpoint_eq}
use klingnet.Tx.{tx_hash}
use klingnet.Block.{Header, Block}
use klingnet.Block.Merkle.{
  next_level, merkle_loop, compute_merkle_root, compute_merkle_root_repeat, Ends,
  compute_merkle_root-Ends,
}
use klingnet.Block.Merkle.Binding.{Collision, compute_merkle_root-injective}
use klingnet.Block.Validate.{validate_block}
use klingnet.Block.Rules.{IsSoundBlock, validate_block-IsSoundBlock}
use klingnet.Utxo.{UtxoSet, IsKeyed}
use klingnet.Chain.Apply.{UndoData, apply_block_with_undo, apply_txs, revert_utxos}
use klingnet.Chain.Undo.{Fits, revert-apply}
use klingnet.Chain.Value.{total_value, sum_utxos, sum_outputs, apply_txs-total}
use klingnet.Config.{block_subsidy}
use klingnet.Chain.State.{
  validate_block_state, check_mint, check_coinbase_outputs, gather_fees, found_utxo, cap_supply,
  excess, check_no_zero_inputs, check_coinbase_maturity, check_mature_inputs, check_mature,
  check_tokens, check_token, validate_registrations, count_registrations,
}
use klingnet.Block.Validate.{is_zero_input, has_zero_input}
use klingnet.Tx.Spend.{validate_with_utxos, spend_inputs, spend_input, verify_script, verify_p2pkh}
use klingnet.Tx.Validate.{validate, verify_signatures}
use klingnet.Crypto.{address_from_pub_key, verify_signature}
use klingnet.Bytes.{be_bytes, be_number}
use klingnet.Tx.{total_output_value}
use klingnet.Token.{
  has_mint_output, validate_tokens, gather_inputs, get_token_data, gather_outputs, gather_token,
  mint_token_id, check_mixed, check_conservation, add_input, keys, unminted,
}
use klingnet.Chain.State.Extend.{
  compute_block_reward, sum_fees, input_sum, output_sum, add_found, compute_tx_fee, finish,
  register, next_state, add_registered_sub_chains,
}
use klingnet.Chain.Apply.{apply_tx, spend, create, created, tx_utxo, lock_height}
use klingnet.Chain.State.{Rules}
use klingnet.Chain.State.Extend.{ChainState, Extended, extend_tip}
use klingnet.Chain.State.Progress.{apply_block_succeeds}
use klingnet.Chain.State.Supply.{IsBacked, extend_tip-IsBacked}
use klingnet.Prelude.{false, ◌<◌}
use klingnet.Examples.{toy, transfer, coinbase_tx, old_set, old_outpoint, old_utxo}

abbrev block : Block
block = record {
  header = record {
    version = 1;
    prev_hash = 0;
    merkle_root = compute_merkle_root (map tx_hash (coinbase_tx ∷ transfer ∷ []));
    timestamp = 1;
    height = 2;
    difficulty = 1;
    nonce = 0;
    validator_sig = [];
  };
  transactions = coinbase_tx ∷ transfer ∷ [];
}

block_passes : validate_block block ≡ ok tt
unfolding validate_block klingnet.Block.Validate.sum_sizes klingnet.Block.header_bytes
    klingnet.Bytes.le_bytes klingnet.Bytes.be_bytes klingnet.Tx.signing_bytes
    klingnet.Block.Validate.check_coinbases compute_merkle_root klingnet.Crypto.hash_concat
    klingnet.Bytes.be_number tx_hash klingnet.Block.Validate.check_order
    klingnet.Block.Validate.check_txs klingnet.Tx.Validate.validate
    klingnet.Block.Validate.check_block_inputs klingnet.Block.Validate.check_spent_once
block_passes = refl

validate_block-IsSoundBlock_example : IsSoundBlock block
validate_block-IsSoundBlock_example = validate_block-IsSoundBlock block block_passes

compute_merkle_root-Ends_example : Ends (1 ∷ 2 ∷ 3 ∷ []) (compute_merkle_root (1 ∷ 2 ∷ 3 ∷ []))
compute_merkle_root-Ends_example = compute_merkle_root-Ends 1 (2 ∷ 3 ∷ [])

compute_merkle_root_repeat_example :
    compute_merkle_root (1 ∷ 2 ∷ 3 ∷ 3 ∷ []) ≡ compute_merkle_root (1 ∷ 2 ∷ 3 ∷ [])
compute_merkle_root_repeat_example = compute_merkle_root_repeat 1 2 [] 3 0 refl

-- The toy hash forgets its first half, so the two lists have one root.
abbrev two_hashes : List ℕ
two_hashes = 1 ∷ 2 ∷ []

abbrev other_hashes : List ℕ
other_hashes = 3 ∷ 2 ∷ []

same_root : compute_merkle_root two_hashes ≡ compute_merkle_root other_hashes
unfolding compute_merkle_root merkle_loop next_level klingnet.Crypto.hash_concat be_bytes be_number
same_root = refl

compute_merkle_root-injective_example :
    (two_hashes ≡ other_hashes) ⊎ Collision two_hashes other_hashes
compute_merkle_root-injective_example =
    compute_merkle_root-injective two_hashes other_hashes (omega arith) (omega arith) refl same_root

abbrev after : UtxoSet
unfolding apply_block_with_undo
after = elim (apply_block_with_undo old_set block) [ ok r ↦ r.0 | err e ↦ [] ]

abbrev undo_data : UndoData
unfolding apply_block_with_undo
undo_data = elim (apply_block_with_undo old_set block) [
  | ok r ↦ r.1
  | err e ↦ record { spent_utxos = []; created_outpoints = []; tx_hashes = []; block_reward = 0 }
]

applied : apply_block_with_undo old_set block ≡ ok (after, undo_data)
unfolding apply_block_with_undo apply_txs klingnet.Chain.Apply.apply_tx klingnet.Chain.Apply.spend
    lookup klingnet.Chain.Apply.create klingnet.Prelude.Assoc.insert klingnet.Chain.Apply.tx_utxo
    tx_hash klingnet.Bytes.be_number klingnet.Bytes.le_bytes klingnet.Bytes.be_bytes
applied = refl

old_set-IsKeyed : IsKeyed old_set
unfolding lookup
old_set-IsKeyed o u h = ground arith

block-Fits : All (Fits old_set) block.transactions
unfolding lookup klingnet.Chain.Apply.created tx_hash klingnet.Bytes.be_number
    klingnet.Bytes.le_bytes klingnet.Bytes.be_bytes
block-Fits = (
  record { present = (inl refl, tt); fresh = (refl, tt) },
  (record { present = (inr (old_utxo, refl), tt); fresh = (refl, tt) }, tt),
)

revert-apply_example :
    lookup old_outpoint (revert_utxos undo_data after) ≡ lookup old_outpoint old_set
revert-apply_example =
    revert-apply old_set after block undo_data old_set-IsKeyed block-Fits applied old_outpoint

apply_txs-total_example :
    IsMap after
    × (total_value after + sum_utxos undo_data.spent_utxos
        ≤ total_value old_set + sum_outputs block.transactions)
unfolding lookup apply_txs apply_block_with_undo
apply_txs-total_example =
    apply_txs-total 2 0 old_set after undo_data block.transactions (refl, tt) applied

abbrev rules : Rules
rules = record {
  max_supply = 1000;
  block_reward = 60;
  halving_interval = 0;
  allow_minting = false;
  validator_stake = 0;
  registration_validator = none;
}

abbrev state : ChainState
state = record {
  height = 1;
  tip_hash = 0;
  supply = 45;
  cumulative_difficulty = 1;
  tip_timestamp = 1;
  utxos = old_set;
  registered_sub_chains = 0;
}

abbrev extended : Extended
unfolding extend_tip
extended = elim (extend_tip rules state block) [
  | ok x ↦ x
  | err e ↦ record { state = state; undo = undo_data; error = none }
]

block_extends : extend_tip rules state block ≡ ok extended
unfolding extend_tip validate_block_state is_zero_input check_mint check_coinbase_outputs
    gather_fees validate_with_utxos validate spend_inputs spend_input lookup found_utxo
    verify_script verify_p2pkh address_from_pub_key be_bytes be_number verify_signatures
    verify_signature total_output_value cap_supply excess check_no_zero_inputs
    check_coinbase_maturity check_mature_inputs check_mature check_tokens check_token
    validate_registrations count_registrations block_subsidy has_zero_input has_mint_output
    validate_tokens gather_inputs get_token_data gather_outputs gather_token mint_token_id
    check_mixed check_conservation add_input keys unminted compute_block_reward sum_fees input_sum
    output_sum add_found compute_tx_fee finish register next_state add_registered_sub_chains
    apply_block_with_undo apply_txs apply_tx spend create created tx_utxo lock_height
    klingnet.Prelude.Assoc.insert tx_hash klingnet.Bytes.le_bytes
block_extends = refl

extend_tip-IsBacked_example :
    IsBacked extended.state
    × (extended.state.supply ≤ 45 + block_subsidy 60 0 2)
    × (0 < 1000 → 45 ≤ 1000 → extended.state.supply ≤ 1000)
unfolding lookup klingnet.Chain.Apply.created tx_hash klingnet.Bytes.be_number
    klingnet.Bytes.le_bytes klingnet.Bytes.be_bytes
extend_tip-IsBacked_example =
    extend_tip-IsBacked rules state block extended
      (record { listed_once = (refl, tt); backed = omega arith })
      ((omega arith, tt), ((omega arith, tt), tt)) ((refl, tt), ((refl, tt), tt)) block_extends

state_passes : validate_block_state rules old_set 45 0 block ≡ ok 0
unfolding extend_tip validate_block_state is_zero_input check_mint check_coinbase_outputs
    gather_fees validate_with_utxos validate spend_inputs spend_input lookup found_utxo
    verify_script verify_p2pkh address_from_pub_key be_bytes be_number verify_signatures
    verify_signature total_output_value cap_supply excess check_no_zero_inputs
    check_coinbase_maturity check_mature_inputs check_mature check_tokens check_token
    validate_registrations count_registrations block_subsidy has_zero_input has_mint_output
    validate_tokens gather_inputs get_token_data gather_outputs gather_token mint_token_id
    check_mixed check_conservation add_input keys unminted compute_block_reward sum_fees input_sum
    output_sum add_found compute_tx_fee finish register next_state add_registered_sub_chains
    apply_block_with_undo apply_txs apply_tx spend create created tx_utxo lock_height
    klingnet.Prelude.Assoc.insert tx_hash klingnet.Bytes.le_bytes
state_passes = refl

apply_block_succeeds_example :
    (s' : UtxoSet) × (undo : UndoData) × (apply_block_with_undo old_set block ≡ ok (s', undo))
apply_block_succeeds_example =
    apply_block_succeeds rules old_set 45 0 block 0 ((omega arith, tt), ((omega arith, tt), tt))
      block_passes state_passes
