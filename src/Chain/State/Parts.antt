-- ===== src/Chain/State/Parts.antt =====
-- internal/chain/processor.go: what validateBlockState and the fast path of ProcessBlock do, step by
-- step, where they succeed.
use klingnet.Prelude.{
  ℕ, ◌+◌, ◌≤◌, ◌≡◌, refl, inl, inr, true, List, [], ◌∷◌, arith, ok, Result-cases,
}
use klingnet.Types.{outpoint_eq}
use klingnet.Crypto.{Crypto}
use klingnet.Tx.{Output, Transaction, add_values, total_output_value}
use klingnet.Block.{Block}
use klingnet.Block.Validate.{is_zero_input}
use klingnet.Utxo.{UtxoSet}
use klingnet.Config.{block_subsidy}
use klingnet.Chain.Apply.{UndoData, apply_block_with_undo}
use klingnet.Chain.State.{
  chain_utxo_provider, excess, cap_supply, gather_fees, check_mint, validate_block_state, Rules,
}
use klingnet.Chain.State.Extend.{
  ChainState, Extended, compute_block_reward, sum_fees, extend_tip, finish, register, next_state,
}

module _ ⦃c : Crypto⦄ where
  -- What the mint limit says of the fees and the coinbase.
  pub check_mint_parts :
      (rules : Rules) (s : UtxoSet) (supply height : ℕ) (coinbase_tx : Transaction)
      (txs : List Transaction) (fees : List ℕ)
      → check_mint rules s supply height coinbase_tx txs ≡ ok fees
      → (fs : List ℕ) × (n m : ℕ) × (gather_fees (chain_utxo_provider s) 0 txs ≡ ok (fs, n))
        × (total_output_value coinbase_tx ≡ ok m)
        × (excess m n
            ≤ cap_supply rules.max_supply supply
                (block_subsidy rules.block_reward rules.halving_interval height))
  unfolding check_mint
  check_mint_parts rules s supply height coinbase_tx txs fees h =
      elim (Result-cases (gather_fees (chain_utxo_provider s) 0 txs)) [
        | inl ((fs, n), gathered) ↦ elim (Result-cases (total_output_value coinbase_tx)) [
          | inl (m, total) ↦ (fs, n, m, gathered, total, ground arith)
          | inr (e, bad) ↦ ground arith
        ]
        | inr (e, bad) ↦ ground arith
      ]

  -- A block whose state is valid has a coinbase, and passes the mint limit.
  pub validate_block_state_parts :
      (rules : Rules) (s : UtxoSet) (supply registered : ℕ) (b : Block) (ts : List Transaction)
      (k : ℕ)
      → b.transactions ≡ ts
      → validate_block_state rules s supply registered b ≡ ok k
      → (coinbase_tx : Transaction) × (txs : List Transaction) × (fees : List ℕ) × (ts
          ≡ coinbase_tx ∷ txs)
        × (is_zero_input coinbase_tx.inputs ≡ true)
        × (check_mint rules s supply b.header.height coinbase_tx txs ≡ ok fees)
  unfolding validate_block_state
  validate_block_state_parts rules s supply registered b [] k e h = ground arith
  validate_block_state_parts rules s supply registered b (t ∷ ts) k e h =
      elim (Result-cases (check_mint rules s supply b.header.height t ts)) [
        | inl (fees, minted) ↦ (t, ts, fees, refl, ground arith, minted)
        | inr (x, bad) ↦ ground arith
      ]

  pub compute_block_reward_valid :
      (s : UtxoSet) (t : Transaction) (ts : List Transaction) (os : List Output) (m n : ℕ)
      → t.outputs ≡ os
      → total_output_value t ≡ ok m
      → sum_fees s 0 ts ≡ n
      → compute_block_reward s (t ∷ ts) ≡ excess m n
  unfolding compute_block_reward total_output_value add_values excess
  compute_block_reward_valid s t ts [] m n e total fees = ground arith
  compute_block_reward_valid s t ts (o ∷ os) m n e total fees = ground arith

  pub finish_state :
      (st : ChainState) (b : Block) (registered reward : ℕ) (applied : UtxoSet × UndoData)
      → ((finish st b registered reward applied).state.utxos ≡ applied.0)
        × ((finish st b registered reward applied).state.supply ≡ st.supply + reward)
  unfolding finish register next_state
  finish_state st b registered reward applied = (ground arith, ground arith)

  pub extend_tip_parts :
      (rules : Rules) (st : ChainState) (b : Block) (x : Extended)
      → extend_tip rules st b ≡ ok x
      → (k : ℕ) × (applied : UtxoSet × UndoData) × (validate_block_state rules st.utxos st.supply
            st.registered_sub_chains b
          ≡ ok k)
        × (apply_block_with_undo st.utxos b ≡ ok applied)
        × (x
            ≡ finish st b k
                (cap_supply rules.max_supply st.supply
                  (compute_block_reward st.utxos b.transactions))
                applied)
  unfolding extend_tip
  extend_tip_parts rules st b x h =
      elim (Result-cases
        (validate_block_state rules st.utxos st.supply st.registered_sub_chains b)) [
          | inl (k, valid) ↦ elim (Result-cases (apply_block_with_undo st.utxos b)) [
            | inl (applied, done) ↦ (k, applied, valid, done, ground arith)
            | inr (e, bad) ↦ ground arith
          ]
          | inr (e, bad) ↦ ground arith
        ]
