-- ===== src/Block/Validate.antt =====
-- pkg/block/validate.go: the structure of a block.
use klingnet.Prelude.{
  ℕ, ◌+◌, Bool, false, not, ◌||◌, List, [], ◌∷◌, map, length, ltb, leb, ◌==◌, if◌then◌else◌, Result,
  ok, err, ◌>>◌, reject_if, wrap, contains,
}
use klingnet.Config.{max_block_txs, max_block_size}
use klingnet.Types.{Hash, Outpoint, outpoint_eq, is_zero}
use klingnet.Crypto.{Crypto}
use klingnet.Tx.{Input, Transaction, signing_bytes, tx_hash}
use klingnet.Tx.Validate.{TxError, validate}
use klingnet.Block.{Block, header_bytes}
use klingnet.Block.Merkle.{compute_merkle_root}

abbrev pub max_version : ℕ
max_version = 1

pub data BlockError : Type 0 where
  no_transactions bad_merkle_root bad_version zero_timestamp bad_tx_order no_coinbase : BlockError
  too_many_txs block_too_large duplicate_block_input multiple_coinbase : BlockError
  bad_tx : TxError → BlockError

-- the only input has the zero outpoint
unfoldable pub is_zero_input : List Input → Bool
is_zero_input [] = false
is_zero_input (i ∷ []) = is_zero i.prev_out
is_zero_input (i ∷ j ∷ is) = false

-- isCoinbase
unfoldable pub is_coinbase : Transaction → Bool
unfolding is_zero_input
is_coinbase t = is_zero_input t.inputs

-- some input has the zero outpoint
unfoldable pub has_zero_input : List Input → Bool
has_zero_input [] = false
has_zero_input (i ∷ is) = is_zero i.prev_out || has_zero_input is

-- the loop over the transactions after the first
unfoldable pub check_single_coinbase : List Transaction → Result BlockError (Unit {0})
unfolding has_zero_input
check_single_coinbase [] = ok tt
check_single_coinbase (t ∷ ts) =
    if has_zero_input t.inputs then err multiple_coinbase else check_single_coinbase ts

unfoldable pub sum_sizes : ℕ → List Transaction → ℕ
sum_sizes size [] = size
sum_sizes size (t ∷ ts) = sum_sizes (size + length (signing_bytes t)) ts

-- the first transaction's test, and the tests of the others
unfoldable pub check_coinbases : List Transaction → Result BlockError (Unit {0})
unfolding is_coinbase check_single_coinbase
check_coinbases [] = err no_coinbase
check_coinbases (t ∷ ts) = if not (is_coinbase t) then err no_coinbase else check_single_coinbase ts

-- the hashes after the first are in ascending order; bytes.Compare orders hashes as numbers
unfoldable pub check_ascending : List Hash → Result BlockError (Unit {0})
check_ascending [] = ok tt
check_ascending (a ∷ []) = ok tt
check_ascending (a ∷ b ∷ rest) = if leb b a then err bad_tx_order else check_ascending (b ∷ rest)

unfoldable pub check_order : List Hash → Result BlockError (Unit {0})
unfolding check_ascending
check_order [] = ok tt
check_order (coinbase ∷ rest) = check_ascending rest

unfoldable pub check_txs : List Transaction → Result BlockError (Unit {0})
check_txs [] = ok tt
check_txs (t ∷ ts) = wrap bad_tx (validate t) >> check_txs ts

-- the loop over one transaction's inputs, with the keys of `allInputs`
unfoldable pub check_spent_once : List Outpoint → List Input → Result BlockError (List Outpoint)
check_spent_once seen [] = ok seen
check_spent_once seen (i ∷ is) =
    if is_zero i.prev_out
    then check_spent_once seen is
    else if contains i.prev_out seen
    then err duplicate_block_input
    else check_spent_once (i.prev_out ∷ seen) is

unfoldable pub check_block_inputs : List Outpoint → List Transaction → Result BlockError (Unit {0})
check_block_inputs seen [] = ok tt
check_block_inputs seen (t ∷ ts) = elim (check_spent_once seen t.inputs) [
  | ok seen' ↦ check_block_inputs seen' ts
  | err e ↦ err e
]

module _ ⦃c : Crypto⦄ where
  -- Block.Validate
  unfoldable pub validate_block : Block → Result BlockError (Unit {0})
  validate_block b = do
    let h = b.header
    let txs = b.transactions
    reject_if (ltb h.version 1 || ltb max_version h.version) bad_version
    reject_if (h.timestamp == 0) zero_timestamp
    reject_if (length txs == 0) no_transactions
    reject_if (ltb max_block_txs (length txs)) too_many_txs
    reject_if (ltb max_block_size (sum_sizes (length (header_bytes h)) txs)) block_too_large
    check_coinbases txs
    let tx_hashes = map tx_hash txs
    reject_if (not (h.merkle_root == compute_merkle_root tx_hashes)) bad_merkle_root
    check_order tx_hashes
    check_txs txs
    check_block_inputs [] txs
