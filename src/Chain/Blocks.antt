-- ===== src/Chain/Blocks.antt =====
-- internal/chain/store.go: BlockStore. Each kind of key ("b/", "h/", "x/", "d/" and "s/") is a map
-- or a field of its own, and a JSON value is the value that it encodes.
use klingnet.Prelude.{
  ℕ, zero, suc, ◌==◌, not, if◌then◌else◌, Bool, List, [], ◌∷◌, Option, none, some, nat_eq,
}
use klingnet.Prelude.Assoc.{Assoc, lookup, insert, erase, is_some}
use klingnet.Types.{Hash}
use klingnet.Crypto.{Crypto}
use klingnet.Tx.{Transaction, tx_hash}
use klingnet.Block.{Block, header_hash}
use klingnet.Chain.Apply.{UndoData}

pub record BlockStore : Type 0 where
  pub blocks : Assoc Hash Block
  pub heights : Assoc ℕ Hash
  pub tx_index : Assoc Hash (ℕ × Hash)
  pub undos : Assoc Hash UndoData
  pub tip : Option (Hash × ℕ × ℕ)
  pub cum_difficulty : Option ℕ
  pub reorg_checkpoint : Option ℕ

unfoldable pub lookup_block : Option Hash → BlockStore → Option Block
lookup_block none bs = none
lookup_block (some hash) bs = lookup hash bs.blocks

-- BlockStore.GetBlock
unfoldable pub get_block : Hash → BlockStore → Option Block
get_block hash bs = lookup hash bs.blocks

-- BlockStore.GetBlockByHeight
unfoldable pub get_block_by_height : ℕ → BlockStore → Option Block
get_block_by_height h bs = lookup_block (lookup h bs.heights) bs

-- BlockStore.HasBlock
abbrev pub has_block : Hash → BlockStore → Bool
has_block hash bs = is_some (lookup hash bs.blocks)

-- BlockStore.SetTip and GetTip, whose zero values stand for a fresh chain
abbrev pub set_tip : Hash → ℕ → ℕ → BlockStore → BlockStore
set_tip hash height supply bs = record bs { tip = some (hash, height, supply) }

unfoldable pub tip_or_zero : Option (Hash × ℕ × ℕ) → Hash × ℕ × ℕ
tip_or_zero none = (0, 0, 0)
tip_or_zero (some t) = t

abbrev pub get_tip : BlockStore → Hash × ℕ × ℕ
get_tip bs = tip_or_zero bs.tip

-- BlockStore.GetTxLocation and DeleteTxIndex
abbrev pub get_tx_location : Hash → BlockStore → Option (ℕ × Hash)
get_tx_location hash bs = lookup hash bs.tx_index

abbrev pub delete_tx_index : Hash → BlockStore → BlockStore
delete_tx_index hash bs = record bs { tx_index = erase hash bs.tx_index }

-- BlockStore.PutUndo, GetUndo and DeleteUndo
abbrev pub put_undo : Hash → UndoData → BlockStore → BlockStore
put_undo hash undo bs = record bs { undos = insert hash undo bs.undos }

abbrev pub get_undo : Hash → BlockStore → Option UndoData
get_undo hash bs = lookup hash bs.undos

abbrev pub delete_undo : Hash → BlockStore → BlockStore
delete_undo hash bs = record bs { undos = erase hash bs.undos }

-- BlockStore.SetCumulativeDifficulty
abbrev pub set_cumulative_difficulty : ℕ → BlockStore → BlockStore
set_cumulative_difficulty n bs = record bs { cum_difficulty = some n }

unfoldable pub value_or_zero : Option ℕ → ℕ
value_or_zero none = 0
value_or_zero (some n) = n

-- BlockStore.GetCumulativeDifficulty
abbrev pub get_cumulative_difficulty : BlockStore → ℕ
get_cumulative_difficulty bs = value_or_zero bs.cum_difficulty

-- BlockStore.PutReorgCheckpoint, GetReorgCheckpoint and DeleteReorgCheckpoint
abbrev pub put_reorg_checkpoint : ℕ → BlockStore → BlockStore
put_reorg_checkpoint fork_height bs = record bs { reorg_checkpoint = some fork_height }

abbrev pub get_reorg_checkpoint : BlockStore → Option ℕ
get_reorg_checkpoint bs = bs.reorg_checkpoint

abbrev pub delete_reorg_checkpoint : BlockStore → BlockStore
delete_reorg_checkpoint bs = record bs { reorg_checkpoint = none }

module _ ⦃c : Crypto⦄ where
  -- BlockStore.StoreBlock
  unfoldable pub store_block : Block → BlockStore → BlockStore
  store_block b bs = record bs { blocks = insert (header_hash b.header) b bs.blocks }

  -- the loop over the transactions
  unfoldable pub index_txs :
      ℕ → Hash → List Transaction → Assoc Hash (ℕ × Hash) → Assoc Hash (ℕ × Hash)
  index_txs height hash [] index = index
  index_txs height hash (t ∷ ts) index =
      index_txs height hash ts (insert (tx_hash t) (height, hash) index)

  -- BlockStore.PutBlock
  unfoldable pub put_block : Block → BlockStore → BlockStore
  put_block b bs = record bs {
    blocks = insert (header_hash b.header) b bs.blocks;
    heights = insert b.header.height (header_hash b.header) bs.heights;
    tx_index = index_txs b.header.height (header_hash b.header) b.transactions bs.tx_index;
  }

  -- BlockStore.CommitBlock: one batch, or the same writes one by one
  unfoldable pub commit_block : Block → UndoData → ℕ → ℕ → BlockStore → BlockStore
  commit_block b undo supply cum_diff bs = set_cumulative_difficulty cum_diff (
      set_tip (header_hash b.header) b.header.height supply
        (put_undo (header_hash b.header) undo (put_block b bs)))

  -- the walk of RebuildIndexes from a hash at height `h` down to the genesis, with the blocks that
  -- are gathered; `none` is a missing block or a height that is not the expected one
  unfoldable pub walk_back : ℕ → Hash → List Block → BlockStore → Option (List Block)
  walk_back zero hash chain bs = elim (get_block hash bs) [
    | none ↦ none
    | some b ↦ if not (b.header.height == 0) then none else some (b ∷ chain)
  ]
  walk_back (suc h) hash chain bs = elim (get_block hash bs) [
    | none ↦ none
    | some b ↦
        let rest = walk_back h b.header.prev_hash (b ∷ chain) bs in
        if not (b.header.height == suc h) then none else rest
  ]

  -- the loop that writes the indexes of the blocks
  unfoldable pub write_indexes : List Block → BlockStore → BlockStore
  write_indexes [] bs = bs
  write_indexes (b ∷ chain) bs = write_indexes chain (record bs {
    heights = insert b.header.height (header_hash b.header) bs.heights;
    tx_index = index_txs b.header.height (header_hash b.header) b.transactions bs.tx_index;
  })

  unfoldable pub write_walked : Option (List Block) → BlockStore → Option BlockStore
  write_walked none bs = none
  write_walked (some chain) bs = some (write_indexes chain bs)

  -- BlockStore.RebuildIndexes, from the stored tip; `none` is its error
  unfoldable pub rebuild_indexes : BlockStore → Option BlockStore
  rebuild_indexes bs =
      let tip = get_tip bs in
      if tip.0 == 0 then some bs else write_walked (walk_back tip.1 tip.0 [] bs) bs
