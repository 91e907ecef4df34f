-- ===== src/Chain/Process.antt =====
-- internal/chain/processor.go: ProcessBlock.
pub mod Advance
use klingnet.Prelude.{
  ℕ, Bool, true, false, not, ◌&&◌, ◌||◌, List, [], ◌∷◌, Option, none, some, ltb, leb, if◌then◌else◌,
  Result, ok, err, ◌>>=◌, ◌>>◌, reject_if, wrap,
}
use klingnet.Types.{Hash}
use klingnet.Crypto.{Crypto}
use klingnet.Block.{Block, Header, header_hash}
use klingnet.Block.Validate.{BlockError, validate_block}
use klingnet.Chain.State.{StateError, fork_detected, Rules}
use klingnet.Chain.State.Extend.{ChainState, Extended, check_parent_link, extend_tip}
use klingnet.Chain.Blocks.{BlockStore, get_block, has_block, store_block, commit_block}
use klingnet.Chain.Reorg.{
  Engine, Node, Outcome, done, failed, rebuilds, ReorgError, stored_headers, reorg,
}

pub data ProcessError : Type 0 where
  block_known bad_difficulty bad_header bad_signer : ProcessError
  timestamp_too_future timestamp_before_parent : ProcessError
  bad_parent : StateError → ProcessError
  bad_structure : BlockError → ProcessError
  bad_state : StateError → ProcessError
  bad_reorg : ReorgError → ProcessError

-- How ProcessBlock ends, with the chain as it then is. `rebuilding` is where a reorg goes on to
-- rebuild the UTXO set.
pub data Processed : Type 0 where
  accepted : Node → Processed
  rejected : ProcessError → Node → Processed
  rebuilding : Node → Processed

unfoldable pub height_of : Option Block → Option ℕ
height_of none = none
height_of (some b) = some b.header.height

unfoldable pub is_before_parent : Header → Option Block → Bool
is_before_parent h none = false
is_before_parent h (some parent) = ltb h.timestamp parent.header.timestamp

unfoldable pub reorg_result : Outcome → Processed
reorg_result (done n) = accepted n
reorg_result (failed e n) = rejected (bad_reorg e) n
reorg_result (rebuilds n) = rebuilding n

module _ ⦃c : Crypto⦄ where
  -- the checks between the parent link and the two paths; a fork leaves the difficulty and the
  -- signing limit to the reorg. `max_time` is the clock's time and two minutes.
  unfoldable pub check_block :
      Engine → ℕ → Bool → BlockStore → Block → Result ProcessError (Unit {0})
  check_block engine max_time fork bs b = do
    reject_if (not fork && not (engine.verify_difficulty (stored_headers bs) b.header))
        bad_difficulty
    wrap bad_structure (validate_block b)
    reject_if (not (engine.verify_header b.header)) bad_header
    reject_if (ltb max_time b.header.timestamp) timestamp_too_future
    reject_if (ltb 0 b.header.height && is_before_parent b.header (get_block b.header.prev_hash bs))
        timestamp_before_parent
    reject_if (not fork && not (engine.check_signing_limit (stored_headers bs) b.header)) bad_signer

  unfoldable pub commit_extended : Block → BlockStore → Extended → Node
  commit_extended b bs x = record {
    state = x.state;
    store = commit_block b x.undo x.state.supply x.state.cumulative_difficulty bs;
  }

  unfoldable pub finish_extended : Option StateError → Node → Processed
  finish_extended none n = accepted n
  finish_extended (some e) n = rejected (bad_state e) n

  unfoldable pub extend_result : Block → Result StateError Extended → Node → Processed
  extend_result b (err e) n = rejected (bad_state e) n
  extend_result b (ok x) n = finish_extended x.error (commit_extended b n.store x)

  -- the fork path: the block is stored, and a reorg is tried for proof of work or a block that is
  -- as high as the tip
  unfoldable pub process_fork : Engine → Bool → Rules → Hash → Block → Node → Processed
  process_fork engine is_pow rules genesis_hash b n =
      let stored = record n { store = store_block b n.store } in
      if is_pow || leb n.state.height b.header.height
      then reorg_result (reorg engine rules genesis_hash (header_hash b.header) stored)
      else accepted stored

  -- the path of a block on the tip
  unfoldable pub process_tip : Rules → Block → Node → Processed
  process_tip rules b n = extend_result b (extend_tip rules n.state b) n

  unfoldable pub process_checked :
      Engine
      → Bool
      → Rules
      → Hash
      → Bool
      → Block
      → Node
      → Result ProcessError (Unit {0})
      → Processed
  process_checked engine is_pow rules genesis_hash fork b n (err e) = rejected e n
  process_checked engine is_pow rules genesis_hash fork b n (ok u) =
      if fork then process_fork engine is_pow rules genesis_hash b n else process_tip rules b n

  -- what follows checkParentLink; its error for a fork is no error here
  unfoldable pub process_linked :
      Engine → Bool → Rules → Hash → ℕ → Block → Node → Result StateError (Unit {0}) → Processed
  process_linked engine is_pow rules genesis_hash max_time b n (ok u) =
      process_checked engine is_pow rules genesis_hash false b n
        (check_block engine max_time false n.store b)
  process_linked engine is_pow rules genesis_hash max_time b n (err fork_detected) =
      process_checked engine is_pow rules genesis_hash true b n
        (check_block engine max_time true n.store b)
  process_linked engine is_pow rules genesis_hash max_time b n (err e) = rejected (bad_parent e) n

  -- ProcessBlock, without the handlers' calls
  unfoldable pub process_block : Engine → Bool → Rules → Hash → ℕ → Block → Node → Processed
  process_block engine is_pow rules genesis_hash max_time b n =
      if has_block (header_hash b.header) n.store
      then rejected block_known n
      else process_linked engine is_pow rules genesis_hash max_time b n
          (check_parent_link (λ h. height_of (get_block h n.store)) n.state b)
