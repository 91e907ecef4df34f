-- ===== src/Chain/Reorg.antt =====
-- internal/chain/reorg.go: Reorg and collectBranch.
pub mod Branch
pub mod Work
pub mod Ledger
pub mod Heavier
pub mod Tip
pub mod Settled
use klingnet.Prelude.{
  ℕ, zero, suc, ◌+◌, ◌-◌, ◌%◌, ◌^◌, Bool, true, false, not, ◌&&◌, List, [], ◌∷◌, ◌++◌, Option, none,
  some, ltb, leb, ◌==◌, if◌then◌else◌, length, max_u64, Result, ok, err, ◌>>=◌, ◌>>◌, reject_if,
  wrap,
}
use klingnet.Prelude.Int.{sub_u64}
use klingnet.Types.{Hash, is_zero_hash}
use klingnet.Crypto.{Crypto}
use klingnet.Block.{Block, Header, header_hash}
use klingnet.Block.Validate.{BlockError, validate_block}
use klingnet.Chain.Apply.{UndoData, ApplyError, apply_block_with_undo, revert_utxos}
use klingnet.Chain.State.{StateError, Rules, cap_supply, validate_block_state}
use klingnet.Chain.State.Extend.{
  ChainState, compute_block_reward, count_register_outputs, add_registered_sub_chains,
  remove_registered_sub_chains,
}
use klingnet.Utxo.{UtxoSet}
use klingnet.Chain.Blocks.{
  BlockStore, get_block, get_block_by_height, get_undo, delete_undo, delete_tx_index, commit_block,
  put_reorg_checkpoint, delete_reorg_checkpoint,
}

-- MaxReorgDepth
abbrev pub max_reorg_depth : ℕ
max_reorg_depth = 1000

-- `out_of_fuel` is no error of the code: it is where a model of a loop would stop early.
pub data ReorgError : Type 0 where
  block_not_found reorg_too_deep genesis_reorg empty_branch out_of_fuel : ReorgError
  old_block_not_found supply_underflow cum_difficulty_underflow : ReorgError
  reorg_supply_overflow cum_difficulty_overflow : ReorgError
  bad_header bad_difficulty bad_signer : ReorgError
  bad_structure : BlockError → ReorgError
  bad_state : StateError → ReorgError
  bad_count : StateError → ReorgError
  bad_apply : ApplyError → ReorgError

-- What the chain asks of its consensus engine about a header; the stored headers by height serve
-- the expected difficulty and the signing limit.
pub record Engine : Type 0 where
  pub verify_header : Header → Bool
  pub verify_difficulty : (ℕ → Option Header) → Header → Bool
  pub check_signing_limit : (ℕ → Option Header) → Header → Bool

-- A Chain: what it keeps in memory, with the UTXO set, and its block store.
pub record Node : Type 0 where
  pub state : ChainState
  pub store : BlockStore

-- How a part of Reorg ends: with the chain as it then is, also where it returns an error. A missing
-- undo record ends it by a call of rebuildReorg.
pub data Outcome : Type 0 where
  done : Node → Outcome
  failed : ReorgError → Node → Outcome
  rebuilds : Node → Outcome

infixl 5 ◌and_then◌
abbrev pub ◌and_then◌ : Outcome → (Node → Outcome) → Outcome
done n and_then next = next n
failed e n and_then next = failed e n
rebuilds n and_then next = rebuilds n

unfoldable pub header_of : Option Block → Option Header
header_of none = none
header_of (some b) = some b.header

abbrev pub stored_headers : BlockStore → ℕ → Option Header
stored_headers bs h = header_of (get_block_by_height h bs)

-- the sum of the new branch's difficulties, in uint64
unfoldable pub branch_work : ℕ → List Block → ℕ
branch_work work [] = work
branch_work work (b ∷ bs) = branch_work ((work + b.header.difficulty) % 2 ^ 64) bs

unfoldable pub add_work : ℕ → Option Block → Result ReorgError ℕ
add_work work none = err old_block_not_found
add_work work (some b) = ok ((work + b.header.difficulty) % 2 ^ 64)

-- the same over `n` blocks of the main chain from a height on
unfoldable pub main_work : BlockStore → ℕ → ℕ → ℕ → Result ReorgError ℕ
main_work bs work h zero = ok work
main_work bs work h (suc n) =
    add_work work (get_block_by_height h bs) >>= λ w. main_work bs w (h + 1) n

unfoldable pub delete_tx_indexes : List Hash → BlockStore → BlockStore
delete_tx_indexes [] bs = bs
delete_tx_indexes (h ∷ hs) bs = delete_tx_indexes hs (delete_tx_index h bs)

-- revertBlock
unfoldable pub revert_block : UndoData → Node → Node
revert_block undo n = record {
  state = record n.state { utxos = revert_utxos undo n.state.utxos };
  store = delete_tx_indexes undo.tx_hashes n.store;
}

-- the height below a branch's first block, in uint64
abbrev pub fork_height : Block → ℕ
fork_height b = sub_u64 b.header.height 1

-- the first height above the fork, in uint64
abbrev pub first_height : Block → ℕ
first_height b = (fork_height b + 1) % 2 ^ 64

module _ ⦃c : Crypto⦄ where
  unfoldable pub has_hash : Option Block → Hash → Bool
  has_hash none hash = false
  has_hash (some b) hash = header_hash b.header == hash

  -- the parent of a block is the block that the height index has one below
  unfoldable pub meets_main : BlockStore → Block → Bool
  meets_main bs b = has_hash (get_block_by_height (b.header.height - 1) bs) b.header.prev_hash

  -- a round of the loop of collectBranch, at the block that it loads; `next` is the rest of the loop
  unfoldable pub gather_block :
      (Hash → List Block → Result ReorgError (List Block))
      → Hash
      → BlockStore
      → List Block
      → Option Block
      → Result ReorgError (List Block)
  gather_block next genesis_hash bs branch none = err block_not_found
  gather_block next genesis_hash bs branch (some b) =
      if ltb max_reorg_depth (length branch + 1)
      then err reorg_too_deep
      else if b.header.height == 0
      then if not (is_zero_hash genesis_hash) && not (header_hash b.header == genesis_hash)
        then err genesis_reorg
        else ok (b ∷ branch)
      else if meets_main bs b
      then ok (b ∷ branch)
      else next b.header.prev_hash (b ∷ branch)

  -- the loop from a hash on, with the blocks that are gathered, the last one first, so that the list
  -- is in ascending order at the end. A round gathers a block, so the depth limit ends it.
  unfoldable pub collect :
      ℕ → Hash → BlockStore → Hash → List Block → Result ReorgError (List Block)
  collect zero genesis_hash bs hash branch = err out_of_fuel
  collect (suc fuel) genesis_hash bs hash branch =
      gather_block (collect fuel genesis_hash bs) genesis_hash bs branch (get_block hash bs)

  -- collectBranch
  unfoldable pub collect_branch : Hash → BlockStore → Hash → Result ReorgError (List Block)
  collect_branch genesis_hash bs tip_hash =
      collect (max_reorg_depth + 1) genesis_hash bs tip_hash []

  -- the last steps of a turn of the loop that reverts: the count of sub-chains, the difficulty and
  -- the undo record
  unfoldable pub subtract_difficulty : Block → Result StateError ℕ → Node → Outcome
  subtract_difficulty b (err e) n = failed (bad_count e) n
  subtract_difficulty b (ok registered) n =
      if ltb n.state.cumulative_difficulty b.header.difficulty
      then failed cum_difficulty_underflow
          (record n { state = record n.state { registered_sub_chains = registered } })
      else done (record {
        state = record n.state {
          registered_sub_chains = registered;
          cumulative_difficulty = n.state.cumulative_difficulty - b.header.difficulty;
        };
        store = delete_undo (header_hash b.header) n.store;
      })

  -- the steps from the supply on
  unfoldable pub subtract_block : Block → UndoData → Node → Outcome
  subtract_block b undo n =
      if ltb n.state.supply undo.block_reward
      then failed supply_underflow n
      else subtract_difficulty b
          (remove_registered_sub_chains n.state.registered_sub_chains
            (count_register_outputs b.transactions))
          (record n { state = record n.state { supply = n.state.supply - undo.block_reward } })

  unfoldable pub revert_with : Block → Option UndoData → Node → Outcome
  revert_with b none n = rebuilds n
  revert_with b (some undo) n = subtract_block b undo (revert_block undo n)

  unfoldable pub revert_loaded : Option Block → Node → Outcome
  revert_loaded none n = failed old_block_not_found n
  revert_loaded (some b) n = revert_with b (get_undo (header_hash b.header) n.store) n

  -- one turn of the loop that reverts, at a height
  unfoldable pub revert_height : ℕ → Node → Outcome
  revert_height h n = revert_loaded (get_block_by_height h n.store) n

  -- the loop that reverts, from height fork + n down to the one above the fork
  unfoldable pub revert_down : ℕ → ℕ → Node → Outcome
  revert_down fork zero n = done n
  revert_down fork (suc k) n = revert_height (fork + suc k) n and_then revert_down fork k

  -- Validator.ValidateBlock, verifyDifficulty and checkSigningLimit
  unfoldable pub check_replayed : Engine → BlockStore → Block → Result ReorgError (Unit {0})
  check_replayed engine bs b = do
    wrap bad_structure (validate_block b)
    reject_if (not (engine.verify_header b.header)) bad_header
    reject_if (not (engine.verify_difficulty (stored_headers bs) b.header)) bad_difficulty
    reject_if (not (engine.check_signing_limit (stored_headers bs) b.header)) bad_signer

  unfoldable pub apply_replayed :
      Node → Block → ℕ → ℕ → Result ReorgError (ℕ × ℕ × UtxoSet × UndoData)
  apply_replayed n b registered reward =
      wrap bad_apply (apply_block_with_undo n.state.utxos b) >>= λ applied.
      ok (registered, reward, applied.0, record applied.1 { block_reward = reward })

  -- the guards of the supply and of the difficulty, and applyBlockWithUndo
  unfoldable pub guard_replayed :
      Node → Block → ℕ → ℕ → Result ReorgError (ℕ × ℕ × UtxoSet × UndoData)
  guard_replayed n b registered reward =
      if ltb (max_u64 - reward) n.state.supply
      then err reorg_supply_overflow
      else if ltb (max_u64 - b.header.difficulty) n.state.cumulative_difficulty
      then err cum_difficulty_overflow
      else apply_replayed n b registered reward

  -- what effectiveReward is, at the supply so far
  unfoldable pub effective_reward : Rules → Node → Block → ℕ
  effective_reward rules n b =
      cap_supply rules.max_supply n.state.supply (compute_block_reward n.state.utxos b.transactions)

  -- all that may fail before CommitBlock: the count of registrations, the reward, and what applying
  -- leaves
  unfoldable pub prepare_block :
      Engine → Rules → Node → Block → Result ReorgError (ℕ × ℕ × UtxoSet × UndoData)
  prepare_block engine rules n b = check_replayed engine n.store b >>= λ _.
      wrap bad_state
        (validate_block_state rules n.state.utxos n.state.supply n.state.registered_sub_chains b)
      >>= λ registered. guard_replayed n b registered (effective_reward rules n b)

  unfoldable pub set_count : Result StateError ℕ → Node → Outcome
  set_count (err e) n = failed (bad_count e) n
  set_count (ok count) n =
      done (record n { state = record n.state { registered_sub_chains = count } })

  -- CommitBlock, and the state after it: the tip is set at the end of Reorg only
  unfoldable pub commit_replayed : Node → Block → ℕ → UtxoSet → UndoData → Node
  commit_replayed n b reward utxos undo = record {
    state = record n.state {
      supply = n.state.supply + reward;
      cumulative_difficulty = n.state.cumulative_difficulty + b.header.difficulty;
      utxos = utxos;
    };
    store =
        commit_block b undo (n.state.supply + reward)
          (n.state.cumulative_difficulty + b.header.difficulty) n.store;
  }

  unfoldable pub replay_prepared :
      Block → Result ReorgError (ℕ × ℕ × UtxoSet × UndoData) → Node → Outcome
  replay_prepared b (err e) n = failed e n
  replay_prepared b (ok r) n =
      set_count (add_registered_sub_chains n.state.registered_sub_chains r.0)
        (commit_replayed n b r.1 r.2 r.3)

  -- one turn of the loop that replays. Where applying fails, the source leaves the UTXO set as far
  -- as it came.
  unfoldable pub replay_block : Engine → Rules → Block → Node → Outcome
  replay_block engine rules b n = replay_prepared b (prepare_block engine rules n b) n

  unfoldable pub replay : Engine → Rules → List Block → Node → Outcome
  replay engine rules [] n = done n
  replay engine rules (b ∷ bs) n = replay_block engine rules b n and_then replay engine rules bs

  -- the last block of a branch becomes the tip, and the checkpoint goes
  unfoldable pub set_new_tip : Block → List Block → Node → Outcome
  set_new_tip b (next ∷ bs) n = set_new_tip next bs n
  set_new_tip b [] n = done (record {
    state = record n.state {
      tip_hash = header_hash b.header;
      height = b.header.height;
      tip_timestamp = b.header.timestamp;
    };
    store = delete_reorg_checkpoint n.store;
  })

  -- the part of Reorg that changes the chain
  unfoldable pub switch_chain : Engine → Rules → Block → List Block → Node → Outcome
  switch_chain engine rules b bs n =
      revert_down (fork_height b) (n.state.height - fork_height b)
        (record n { store = put_reorg_checkpoint (fork_height b) n.store })
      and_then replay engine rules (b ∷ bs)
      and_then set_new_tip b bs

  -- the comparison with the work of the main chain
  unfoldable pub compare_work :
      Engine → Rules → Block → List Block → Result ReorgError ℕ → Node → Outcome
  compare_work engine rules b bs (err e) n = failed e n
  compare_work engine rules b bs (ok old_work) n =
      if leb (branch_work 0 (b ∷ bs)) old_work then done n else switch_chain engine rules b bs n

  unfoldable pub reorg_to : Engine → Rules → Result ReorgError (List Block) → Node → Outcome
  reorg_to engine rules (err e) n = failed e n
  reorg_to engine rules (ok []) n = failed empty_branch n
  reorg_to engine rules (ok (b ∷ bs)) n =
      compare_work engine rules b bs
        (main_work n.store 0 (first_height b) (n.state.height + 1 - first_height b)) n

  -- Reorg, without the handlers' calls
  unfoldable pub reorg : Engine → Rules → Hash → Hash → Node → Outcome
  reorg engine rules genesis_hash new_tip n =
      reorg_to engine rules (collect_branch genesis_hash n.store new_tip) n
