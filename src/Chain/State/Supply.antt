-- ===== src/Chain/State/Supply.antt =====
-- internal/chain/processor.go: the fast path of ProcessBlock keeps the coins of the UTXO set within
-- the recorded supply, and the supply within its maximum.
use mathlib.Core.Path.{subst}
use klingnet.Prelude.{ℕ, ◌+◌, ◌≤◌, ◌<◌, ◌≡◌, refl, sym, inl, true, List, [], ◌∷◌, arith, ok, All}
use klingnet.Prelude.Assoc.{IsMap}
use klingnet.Types.{outpoint_eq}
use klingnet.Crypto.{Crypto}
use klingnet.Tx.{Input, Transaction, total_output_value, tx_hash}
use klingnet.Tx.Rules.{AreU64, sum_values}
use klingnet.Tx.Balance.{Spends, input_values, add_values-eq-ok}
use klingnet.Block.{Block}
use klingnet.Block.Validate.{is_zero_input}
use klingnet.Utxo.{UtxoSet}
use klingnet.Config.{block_subsidy}
use klingnet.Chain.Apply.{UndoData, created, apply_txs, apply_block_with_undo}
use klingnet.Chain.Segment.{IsPresent, AreFresh}
use klingnet.Chain.Undo.{Fits}
use klingnet.Chain.Value.{total_value, apply_txs-total}
use klingnet.Chain.State.{chain_utxo_provider, excess, cap_supply, validate_block_state, Rules}
use klingnet.Chain.State.Extend.{ChainState, Extended, compute_block_reward, extend_tip, finish}
use klingnet.Chain.State.Fees.{gather_fees-sum_fees, gather_fees-balance}
use klingnet.Chain.State.Spent.{Spends-IsPresent, apply_txs-values}
use klingnet.Chain.State.Parts.{
  check_mint_parts, validate_block_state_parts, compute_block_reward_valid, finish_state,
  extend_tip_parts,
}

cap_supply_same :
    (max_supply supply a b : ℕ)
    → a ≤ cap_supply max_supply supply b
    → cap_supply max_supply supply a ≡ a
unfolding cap_supply
cap_supply_same max_supply supply a b h = ground arith

cap_supply_bounds :
    (max_supply supply a : ℕ)
    → (cap_supply max_supply supply a ≤ a)
      × (0 < max_supply
          → supply ≤ max_supply
          → supply + cap_supply max_supply supply a ≤ max_supply)
unfolding cap_supply
cap_supply_bounds max_supply supply a = (ground arith, λ p q. ground arith)

zero_input :
    (s : UtxoSet) (is : List Input)
    → is_zero_input is ≡ true
    → All (IsPresent s) is × (input_values (chain_utxo_provider s) is ≡ 0)
unfolding is_zero_input
zero_input s [] h = cc
zero_input s (i ∷ []) h = ((inl h, tt), ground (arith, h))
zero_input s (i ∷ j ∷ is) h = cc

module _ ⦃c : Crypto⦄ where
  total_outputs :
      (t : Transaction) (m : ℕ)
      → AreU64 t.outputs
      → total_output_value t ≡ ok m
      → m ≡ sum_values t.outputs
  unfolding total_output_value
  total_outputs t m fits h = omega (arith, (add_values-eq-ok 0 t.outputs m (omega arith) fits h).0)

  excess_le : (m n : ℕ) → m ≤ n + excess m n
  unfolding excess
  excess_le m n = ground arith

  -- The set's coins are recorded, and no key is listed twice.
  pub record IsBacked (st : ChainState) : Type 0 where
    pub listed_once : IsMap st.utxos
    pub backed : total_value st.utxos ≤ st.supply

  present_all :
      (s : UtxoSet) (ts : List Transaction)
      → All (λ t. All (Spends (chain_utxo_provider s)) t.inputs) ts
      → All (λ t. AreFresh s (created (tx_hash t) 0 t.outputs)) ts
      → All (Fits s) ts
  present_all s [] h fresh = tt
  present_all s (t ∷ ts) h fresh = (
    record { present = Spends-IsPresent s t.inputs h.0; fresh = fresh.0 },
    present_all s ts h.1 fresh.1,
  )

  -- The coins that a valid block adds to the set are at most the reward that is recorded.
  reward_covers :
      (rules : Rules) (st : ChainState) (b : Block) (k : ℕ) (r' : UtxoSet) (undo : UndoData)
      → IsBacked st
      → All (λ t. AreU64 t.outputs) b.transactions
      → All (λ t. AreFresh st.utxos (created (tx_hash t) 0 t.outputs)) b.transactions
      → validate_block_state rules st.utxos st.supply st.registered_sub_chains b ≡ ok k
      → apply_block_with_undo st.utxos b ≡ ok (r', undo)
      → IsMap r'
        × (total_value r'
            ≤ total_value st.utxos
              + cap_supply rules.max_supply st.supply
                  (compute_block_reward st.utxos b.transactions))
        × (compute_block_reward st.utxos b.transactions
            ≤ block_subsidy rules.block_reward rules.halving_interval b.header.height)
  unfolding apply_block_with_undo
  reward_covers rules st b k r' undo inv fits fresh valid applied =
      let (t, ts, fees, e, zero_out, minted) =
        validate_block_state_parts rules st.utxos st.supply st.registered_sub_chains b
          b.transactions k refl valid in
      let (fs, n, m, gathered, total, limit) =
        check_mint_parts rules st.utxos st.supply b.header.height t ts fees minted in
      let fits' = subst (All (λ z. AreU64 z.outputs)) e fits in
      let fresh' = subst (All (λ z. AreFresh st.utxos (created (tx_hash z) 0 z.outputs))) e fresh in
      let applied' =
        subst (λ z. apply_txs b.header.height 0 st.utxos z ≡ ok (r', undo)) e applied in
      let (spends, balance) =
        gather_fees-balance (chain_utxo_provider st.utxos) 0 ts fs n fits'.1 gathered in
      let (there, none_in) = zero_input st.utxos t.inputs zero_out in
      let one_fits : Fits st.utxos t = record { present = there; fresh = fresh'.0 } in
      let all_fit : All (Fits st.utxos) (t ∷ ts) =
        (one_fits, present_all st.utxos ts spends fresh'.1) in
      let spent =
        apply_txs-values st.utxos b.header.height 0 st.utxos r' undo (t ∷ ts)
          (λ o u v p q. ground arith) all_fit applied' in
      let (map', moved) =
        apply_txs-total b.header.height 0 st.utxos r' undo (t ∷ ts) inv.listed_once applied' in
      let reward =
        compute_block_reward_valid st.utxos t ts t.outputs m n refl total
          (gather_fees-sum_fees st.utxos 0 ts fs n gathered) in
      let coins = total_outputs t m fits'.0 total in
      let subsidy = block_subsidy rules.block_reward rules.halving_interval b.header.height in
      let same_reward = cap_supply_same rules.max_supply st.supply (excess m n) subsidy limit in
      let low = cap_supply_bounds rules.max_supply st.supply subsidy in
      let reward_b = subst (λ z. compute_block_reward st.utxos z ≡ excess m n) (sym e) reward in
      (
        map',
        ground (arith, reward_b, same_reward, excess_le m n, moved, spent, none_in, balance, coins),
        ground (arith, reward_b, limit, low),
      )

  -- The invariant of the supply: let the coins of the UTXO set be within the recorded supply, let
  -- the block's outputs hold uint64 values and be new to the set. If the block extends the tip,
  -- then the coins of the new set are within the new supply, no outpoint is listed twice, the
  -- supply grew by at most the block's subsidy, and it is within a positive maximum supply if it
  -- was before.
  pub extend_tip-IsBacked :
      (rules : Rules) (st : ChainState) (b : Block) (x : Extended)
      → IsBacked st
      → All (λ t. AreU64 t.outputs) b.transactions
      → All (λ t. AreFresh st.utxos (created (tx_hash t) 0 t.outputs)) b.transactions
      → extend_tip rules st b ≡ ok x
      → IsBacked x.state
        × (x.state.supply
            ≤ st.supply + block_subsidy rules.block_reward rules.halving_interval b.header.height)
        × (0 < rules.max_supply → st.supply ≤ rules.max_supply → x.state.supply ≤ rules.max_supply)
  extend_tip-IsBacked rules st b x inv fits fresh h =
      let (k, applied, valid, done, e) = extend_tip_parts rules st b x h in
      let amount = compute_block_reward st.utxos b.transactions in
      let reward = cap_supply rules.max_supply st.supply amount in
      let (map', coins, low) =
        reward_covers rules st b k applied.0 applied.1 inv fits fresh valid done in
      let (set, supply) = finish_state st b k reward applied in
      let (less, most) = cap_supply_bounds rules.max_supply st.supply amount in
      let backed : IsBacked (finish st b k reward applied).state = record {
        listed_once = subst IsMap (sym set) map';
        backed =
            subst (λ z. total_value z ≤ (finish st b k reward applied).state.supply) (sym set)
              (omega (arith, coins, supply, inv.backed));
      } in
      subst
        (λ z.
          IsBacked z.state
          × (z.state.supply
              ≤ st.supply + block_subsidy rules.block_reward rules.halving_interval b.header.height)
          × (0 < rules.max_supply
              → st.supply ≤ rules.max_supply
              → z.state.supply ≤ rules.max_supply))
        (sym e) (backed, omega (arith, supply, less, low), λ p q. omega (arith, supply, most p q))
