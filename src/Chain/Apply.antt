-- ===== src/Chain/Apply.antt =====
-- internal/chain/reorg.go: applying a block to the UTXO set with undo data, and reverting it.
use klingnet.Prelude.{
  ℕ, suc, ◌+◌, ◌%◌, ◌^◌, Bool, true, false, ◌&&◌, List, [], ◌∷◌, ◌++◌, Option, none, some, ltb,
  ◌==◌, if◌then◌else◌, Result, ok, err, ◌>>=◌,
}
use klingnet.Config.{unstake_cooldown}
use klingnet.Types.{Hash, Outpoint, is_zero, script_type_stake}
use klingnet.Crypto.{Crypto}
use klingnet.Tx.{Input, Output, Transaction, tx_hash}
use klingnet.Block.{Block}
use klingnet.Utxo.{Utxo, UtxoSet, get, put, delete}

pub record UndoData : Type 0 where
  pub spent_utxos : List Utxo
  pub created_outpoints : List Outpoint
  pub tx_hashes : List Hash
  pub block_reward : ℕ

pub data ApplyError : Type 0 where
  missing_utxo : ApplyError

unfoldable pub is_stake : Option Utxo → Bool
is_stake none = false
is_stake (some u) = u.script.type == script_type_stake

-- whether the first loop over a transaction's inputs meets a stake
unfoldable pub spends_stake : UtxoSet → List Input → Bool
unfolding is_stake
spends_stake s [] = false
spends_stake s (i ∷ is) =
    let rest = spends_stake s is in
    if is_zero i.prev_out then rest else if is_stake (get i.prev_out s) then true else rest

-- `lockedUntil` of the transaction's outputs
unfoldable pub lock_height : UtxoSet → ℕ → List Input → ℕ
unfolding spends_stake
lock_height s height is = if spends_stake s is then (height + unstake_cooldown) % 2 ^ 64 else 0

-- the second loop: the set without the inputs, and the outputs that they were
unfoldable pub spend : UtxoSet → List Input → Result ApplyError (UtxoSet × List Utxo)
spend s [] = ok (s, [])
spend s (i ∷ is) = elim (is_zero i.prev_out) [
  | true ↦ spend s is
  | false ↦ elim (get i.prev_out s) [
    | none ↦ err missing_utxo
    | some u ↦ spend (delete i.prev_out s) is >>= λ rest. ok (rest.0, u ∷ rest.1)
  ]
]

abbrev pub outpoint_at : Hash → ℕ → Outpoint
outpoint_at tx_hash i = record { tx_id = tx_hash; index = i % 2 ^ 32 }

-- the third loop, from output number `i` on; `new` gives an output the fields that it shares with
-- the others of its transaction
unfoldable pub create : (Outpoint → Output → Utxo) → Hash → ℕ → List Output → UtxoSet → UtxoSet
create new tx_hash i [] s = s
create new tx_hash i (o ∷ os) s =
    create new tx_hash (suc i) os (put (new (outpoint_at tx_hash i) o) s)

-- the outpoints that the third loop appends to the undo data
unfoldable pub created : Hash → ℕ → List Output → List Outpoint
created tx_hash i [] = []
created tx_hash i (o ∷ os) = outpoint_at tx_hash i ∷ created tx_hash (suc i) os

-- the output that the third loop puts, of the transaction at `tx_idx`
unfoldable pub tx_utxo : ℕ → ℕ → UtxoSet → List Input → Outpoint → Output → Utxo
tx_utxo height tx_idx s inputs op o = record {
  outpoint = op;
  value = o.value;
  script = o.script;
  token = o.token;
  height = height;
  coinbase = tx_idx == 0 && ltb 0 height;
  locked_until = lock_height s height inputs;
}

module _ ⦃c : Crypto⦄ where
  -- the body of the loop over the transactions, of the transaction at `tx_idx`
  unfoldable pub apply_tx :
      ℕ → ℕ → UtxoSet → Transaction → Result ApplyError (UtxoSet × List Utxo × List Outpoint)
  apply_tx height tx_idx s t = spend s t.inputs >>= λ spent. ok (
    create (tx_utxo height tx_idx s t.inputs) (tx_hash t) 0 t.outputs spent.0,
    spent.1,
    created (tx_hash t) 0 t.outputs,
  )

  unfoldable pub apply_txs :
      ℕ → ℕ → UtxoSet → List Transaction → Result ApplyError (UtxoSet × UndoData)
  apply_txs height tx_idx s [] =
      ok (s, record { spent_utxos = []; created_outpoints = []; tx_hashes = []; block_reward = 0 })
  apply_txs height tx_idx s (t ∷ ts) = apply_tx height tx_idx s t >>= λ one.
      apply_txs height (suc tx_idx) one.0 ts >>= λ rest. ok (
        rest.0,
        record {
          spent_utxos = one.1 ++ rest.1.spent_utxos;
          created_outpoints = one.2 ++ rest.1.created_outpoints;
          tx_hashes = tx_hash t ∷ rest.1.tx_hashes;
          block_reward = 0;
        },
      )

  -- applyBlockWithUndo
  unfoldable pub apply_block_with_undo : UtxoSet → Block → Result ApplyError (UtxoSet × UndoData)
  apply_block_with_undo s b = apply_txs b.header.height 0 s b.transactions

unfoldable pub delete_all : List Outpoint → UtxoSet → UtxoSet
delete_all [] s = s
delete_all (o ∷ os) s = delete o (delete_all os s)

unfoldable pub put_all : List Utxo → UtxoSet → UtxoSet
put_all [] s = s
put_all (u ∷ us) s = put_all us (put u s)

-- what revertBlock does to the UTXO set: the created outputs go, the last first, and the spent
-- ones come back
unfoldable pub revert_utxos : UndoData → UtxoSet → UtxoSet
unfolding delete_all put_all
revert_utxos undo s = put_all undo.spent_utxos (delete_all undo.created_outpoints s)
