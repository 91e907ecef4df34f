-- ===== src/Examples/Reorgs.antt =====
-- The theorems on reorgs at a chain of two blocks and a heavier block beside the second.
use klingnet.Prelude.{
  ℕ, ◌≡◌, ◌≤◌, refl, Bool, true, false, List, [], ◌∷◌, Option, none, some, Result, ok, err, arith,
  max_u64, nat_eq, inl, inr, ◌⊎◌, map, ◌==◌, ==_iff, if◌then◌else◌,
}
use klingnet.Prelude.Assoc.{lookup-All}
use klingnet.Types.{Hash}
use klingnet.Tx.{tx_hash}
use klingnet.Block.{Header, Block, header_hash}
use klingnet.Block.Merkle.{compute_merkle_root}
use klingnet.Chain.Blocks.{BlockStore, get_block}
use klingnet.Chain.State.{Rules}
use klingnet.Chain.State.Extend.{ChainState}
use klingnet.Chain.Reorg.{Engine, Node, Outcome, done, failed, rebuilds, reorg, collect_branch}
use klingnet.Chain.Reorg.Branch.{IsCollected, collect_branch-IsCollected}
use klingnet.Chain.Reorg.Ledger.{IfDone}
use klingnet.Chain.Reorg.Heavier.{IsWireStore, IsHeavier, reorg-IsHeavier}
use klingnet.Chain.Reorg.Settled.{IsSettled, SwitchesTo, reorg-IsSettled}
use klingnet.Chain.Process.{process_block}
use klingnet.Chain.Process.Advance.{IfAccepted, Advances, process_block-Advances}
use klingnet.Examples.{toy, transfer, coinbase_tx, old_set}

abbrev header_at : Hash → ℕ → ℕ → Hash → Header
header_at parent height difficulty root = record {
  version = 1;
  prev_hash = parent;
  merkle_root = root;
  timestamp = 1;
  height = height;
  difficulty = difficulty;
  nonce = height;
  validator_sig = [];
}

abbrev parent : Block
parent = record { header = header_at 0 1 1 0; transactions = [] }

abbrev parent_hash : Hash
parent_hash = header_hash parent.header

abbrev old_block : Block
old_block = record { header = header_at parent_hash 2 1 0; transactions = [] }

abbrev old_hash : Hash
old_hash = header_hash old_block.header

abbrev fork_block : Block
fork_block = record {
  header =
      header_at parent_hash 2 2 (compute_merkle_root (map tx_hash (coinbase_tx ∷ transfer ∷ [])));
  transactions = coinbase_tx ∷ transfer ∷ [];
}

abbrev fork_hash : Hash
fork_hash = header_hash fork_block.header

abbrev store : BlockStore
store = record {
  blocks = (parent_hash, parent) ∷ (old_hash, old_block) ∷ (fork_hash, fork_block) ∷ [];
  heights = (1, parent_hash) ∷ (2, old_hash) ∷ [];
  tx_index = [];
  undos =
      (
        old_hash,
        record { spent_utxos = []; created_outpoints = []; tx_hashes = []; block_reward = 0 },
      )
      ∷ [];
  tip = some (old_hash, 2, 45);
  cum_difficulty = some 2;
  reorg_checkpoint = none;
}

abbrev node : Node
node = record {
  state = record {
    height = 2;
    tip_hash = old_hash;
    supply = 45;
    cumulative_difficulty = 2;
    tip_timestamp = 1;
    utxos = old_set;
    registered_sub_chains = 0;
  };
  store = store;
}

abbrev rules : Rules
rules = record {
  max_supply = 1000;
  block_reward = 60;
  halving_interval = 0;
  allow_minting = false;
  validator_stake = 0;
  registration_validator = none;
}

abbrev engine : Engine
engine = record {
  verify_header = λ h. true;
  verify_difficulty = λ stored h. true;
  check_signing_limit = λ stored h. true;
}

abbrev difficulty_after : Outcome → ℕ
difficulty_after (done m) = m.state.cumulative_difficulty
difficulty_after (failed e m) = 0
difficulty_after (rebuilds m) = 0

-- The fork is collected, the old block reverted and the fork's block replayed.
switches : difficulty_after (reorg engine rules 0 fork_hash node) ≡ 3
unfolding reorg collect_branch klingnet.Chain.Reorg.collect klingnet.Chain.Reorg.gather_block
    klingnet.Chain.Reorg.meets_main klingnet.Chain.Reorg.has_hash get_block header_hash
    klingnet.Prelude.Assoc.lookup klingnet.Chain.Blocks.get_block_by_height
    klingnet.Chain.Blocks.lookup_block klingnet.Bytes.be_number klingnet.Bytes.le_bytes
    klingnet.Bytes.be_bytes klingnet.Chain.Reorg.reorg_to klingnet.Chain.Reorg.compare_work
    klingnet.Chain.Reorg.switch_chain klingnet.Chain.Reorg.main_work klingnet.Chain.Reorg.add_work
    klingnet.Chain.Reorg.branch_work klingnet.Chain.Reorg.revert_down
    klingnet.Chain.Reorg.revert_height klingnet.Chain.Reorg.revert_loaded
    klingnet.Chain.Reorg.revert_with klingnet.Chain.Reorg.subtract_block
    klingnet.Chain.Reorg.subtract_difficulty klingnet.Chain.Reorg.revert_block
    klingnet.Chain.Reorg.delete_tx_indexes klingnet.Chain.Reorg.replay
    klingnet.Chain.Reorg.replay_block klingnet.Chain.Reorg.replay_prepared
    klingnet.Chain.Reorg.prepare_block klingnet.Chain.Reorg.check_replayed
    klingnet.Chain.Reorg.guard_replayed klingnet.Chain.Reorg.apply_replayed
    klingnet.Chain.Reorg.effective_reward klingnet.Chain.Reorg.set_count
    klingnet.Chain.Reorg.commit_replayed klingnet.Chain.Reorg.set_new_tip
    klingnet.Block.Validate.validate_block klingnet.Block.Validate.sum_sizes
    klingnet.Block.Validate.check_coinbases klingnet.Block.Validate.check_order
    klingnet.Block.Validate.check_txs klingnet.Block.Validate.check_block_inputs
    klingnet.Block.Validate.check_spent_once klingnet.Block.Validate.is_zero_input
    klingnet.Block.Validate.has_zero_input compute_merkle_root klingnet.Crypto.hash_concat tx_hash
    klingnet.Tx.signing_bytes klingnet.Tx.Validate.validate klingnet.Block.header_bytes
    klingnet.Chain.State.validate_block_state klingnet.Chain.State.check_mint
    klingnet.Chain.State.check_coinbase_outputs klingnet.Chain.State.gather_fees
    klingnet.Chain.State.found_utxo klingnet.Chain.State.cap_supply klingnet.Chain.State.excess
    klingnet.Chain.State.check_no_zero_inputs klingnet.Chain.State.check_coinbase_maturity
    klingnet.Chain.State.check_mature_inputs klingnet.Chain.State.check_mature
    klingnet.Chain.State.check_tokens klingnet.Chain.State.check_token
    klingnet.Chain.State.validate_registrations klingnet.Chain.State.count_registrations
    klingnet.Tx.Spend.validate_with_utxos klingnet.Tx.Spend.spend_inputs
    klingnet.Tx.Spend.spend_input klingnet.Tx.Spend.verify_script klingnet.Tx.Spend.verify_p2pkh
    klingnet.Crypto.address_from_pub_key klingnet.Crypto.verify_signature
    klingnet.Tx.Validate.verify_signatures klingnet.Tx.total_output_value
    klingnet.Config.block_subsidy klingnet.Token.has_mint_output klingnet.Token.validate_tokens
    klingnet.Token.gather_inputs klingnet.Token.get_token_data klingnet.Token.gather_outputs
    klingnet.Token.gather_token klingnet.Token.mint_token_id klingnet.Token.check_mixed
    klingnet.Token.check_conservation klingnet.Token.add_input klingnet.Token.keys
    klingnet.Token.unminted klingnet.Chain.State.Extend.compute_block_reward
    klingnet.Chain.State.Extend.sum_fees klingnet.Chain.State.Extend.input_sum
    klingnet.Chain.State.Extend.output_sum klingnet.Chain.State.Extend.add_found
    klingnet.Chain.State.Extend.compute_tx_fee klingnet.Chain.State.Extend.add_registered_sub_chains
    klingnet.Chain.State.Extend.remove_registered_sub_chains
    klingnet.Chain.State.Extend.count_register_outputs klingnet.Chain.Apply.apply_block_with_undo
    klingnet.Chain.Apply.apply_txs klingnet.Chain.Apply.apply_tx klingnet.Chain.Apply.spend
    klingnet.Chain.Apply.create klingnet.Chain.Apply.created klingnet.Chain.Apply.tx_utxo
    klingnet.Chain.Apply.lock_height klingnet.Chain.Apply.revert_utxos klingnet.Prelude.Assoc.insert
switches = refl

collect_branch-IsCollected_example :
    IsCollected 0 store fork_hash (collect_branch 0 store fork_hash)
collect_branch-IsCollected_example = collect_branch-IsCollected 0 store fork_hash

reorg-IsSettled_example :
    IsSettled node (SwitchesTo fork_hash node) (reorg engine rules 0 fork_hash node)
reorg-IsSettled_example = reorg-IsSettled engine rules 0 fork_hash node

store-IsWireStore : IsWireStore store
unfolding get_block
store-IsWireStore h b e =
    lookup-All (λ (x : Block). (x.header.height ≤ max_u64) × (x.header.difficulty ≤ max_u64)) h b
      store.blocks
      ((omega arith, omega arith), ((omega arith, omega arith), ((omega arith, omega arith), tt))) e

reorg-IsHeavier_example :
    IfDone (λ m. (m ≡ node) ⊎ IsHeavier node m) (reorg engine rules 0 fork_hash node)
reorg-IsHeavier_example =
    reorg-IsHeavier engine rules 0 fork_hash node store-IsWireStore (omega arith) (omega arith)

-- The same chain before the block beside its tip is known.
abbrev earlier : Node
earlier = record node {
  store = record store { blocks = (parent_hash, parent) ∷ (old_hash, old_block) ∷ [] };
}

earlier-IsWireStore : IsWireStore earlier.store
unfolding get_block
earlier-IsWireStore h b e =
    lookup-All (λ (x : Block). (x.header.height ≤ max_u64) × (x.header.difficulty ≤ max_u64)) h b
      earlier.store.blocks ((omega arith, omega arith), ((omega arith, omega arith), tt)) e

process_block-Advances_example :
    IfAccepted
      (Advances fork_block earlier)
      (process_block engine true rules 0 9 fork_block earlier)
process_block-Advances_example =
    process_block-Advances engine true rules 0 9 fork_block earlier earlier-IsWireStore
      (omega arith) (omega arith) (omega arith) (omega arith)
