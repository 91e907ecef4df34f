-- ===== src/Chain/State/Spent.antt =====
-- internal/chain/processor.go and reorg.go: what applying a block spends, in the values that its
-- validation read.
use klingnet.Prelude.{ℕ, suc, ◌≡◌, ap, inl, inr, List, [], ◌∷◌, arith, ok, All, Option-cases}
use klingnet.Prelude.Assoc.{erase}
use klingnet.Types.{outpoint_eq}
use klingnet.Crypto.{Crypto}
use klingnet.Tx.{Input, Transaction, tx_hash}
use klingnet.Tx.Balance.{Spends, input_values}
use klingnet.Utxo.{Utxo, UtxoSet, get}
use klingnet.Chain.Apply.{UndoData, spend, create, tx_utxo, apply_txs}
use klingnet.Chain.Segment.{
  Below, IsPresent, spend-step, spend-nil, spend-Below, create-Below, Below-erase, found_in_base,
}
use klingnet.Chain.Undo.{Fits, apply_txs-step, apply_txs-nil, own_outpoint}
use klingnet.Chain.Value.{sum_utxos, sum_utxos-append}
use klingnet.Chain.State.{found_utxo, chain_utxo_provider}
use klingnet.Chain.State.Fees.{sum_inputs}

pub Spends-IsPresent :
    ⦃c : Crypto⦄ (s : UtxoSet) (is : List Input)
    → All (Spends (chain_utxo_provider s)) is
    → All (IsPresent s) is
unfolding found_utxo
Spends-IsPresent s [] h = tt
Spends-IsPresent s (i ∷ is) h = elim (Option-cases (get i.prev_out s)) [
  | inl missing ↦ ground (arith, Spends-IsPresent s is)
  | inr (u, found) ↦ (inr (u, found), Spends-IsPresent s is h.1)
]

-- What is spent from a later set has the values that the base's provider gives.
spend-values :
    (base r r' : UtxoSet) (us : List Utxo) (is : List Input)
    → Below base r
    → All (IsPresent base) is
    → spend r is ≡ ok (r', us)
    → sum_utxos us ≡ input_values (chain_utxo_provider base) is
unfolding found_utxo
spend-values base r r' us [] below there h = ground (arith, spend-nil r r' us h)
spend-values base r r' us (i ∷ is) below there h = elim (spend-step r r' us i is h) [
  | inl (zero_out, rest) ↦ ground (arith, zero_out, spend-values base r r' us is below there.1 rest)
  | inr (u, us1, spent, found, rest, e) ↦
      let there_u = found_in_base base r i u below there.0 spent found in
      ground (
        arith,
        e,
        spent,
        there_u,
        spend-values base (erase i.prev_out r) r' us1 is (Below-erase base r i.prev_out below)
            there.1 rest,
      )
]

module _ ⦃c : Crypto⦄ where
  pub apply_txs-values :
      (base : UtxoSet) (height idx : ℕ) (r r' : UtxoSet) (undo : UndoData) (ts : List Transaction)
      → Below base r
      → All (Fits base) ts
      → apply_txs height idx r ts ≡ ok (r', undo)
      → sum_utxos undo.spent_utxos ≡ sum_inputs (chain_utxo_provider base) ts
  apply_txs-values base height idx r r' undo [] below fits h =
      let (same, no_spent, no_new) = apply_txs-nil height idx r r' undo h in ap sum_utxos no_spent
  apply_txs-values base height idx r r' undo (t ∷ ts) below fits h =
      let (s, us, rest, spent, applied, e_spent, e_new) =
        apply_txs-step height idx r r' undo t ts h in
      let new = tx_utxo height idx r t.inputs in
      let below_s = spend-Below base r s us t.inputs below spent in
      let below_r1 =
        create-Below new (own_outpoint height idx r t.inputs) base s (tx_hash t) 0 t.outputs
          fits.0.fresh below_s in
      let ih =
        apply_txs-values base height (suc idx) (create new (tx_hash t) 0 t.outputs s) r' rest ts
          below_r1 fits.1 applied in
      omega (
        arith,
        ih,
        ap sum_utxos e_spent,
        sum_utxos-append us rest.spent_utxos,
        spend-values base r s us t.inputs below fits.0.present spent,
      )
