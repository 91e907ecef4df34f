-- ===== src/Chain/State/Fees.antt =====
-- The fees that validateBlockState adds up and those that computeBlockReward adds up are the same.
use klingnet.Prelude.{
  ℕ, ◌+◌, ◌-◌, ◌≤◌, ◌≡◌, inl, inr, List, [], ◌∷◌, arith, max_u64, ok, All, Result-cases,
  Option-cases, Bool-cases,
}
use klingnet.Types.{outpoint_eq, is_zero}
use klingnet.Crypto.{Crypto}
use klingnet.Tx.{Input, Output, Transaction, add_values, total_output_value}
use klingnet.Tx.Spend.{UtxoProvider, spend_input, spend_inputs, validate_with_utxos}
use klingnet.Tx.Rules.{AreU64}
use klingnet.Tx.Balance.{Spends, input_values, validate_with_utxos_parts, validate_with_utxos_sound}
use klingnet.Utxo.{UtxoSet, get}
use klingnet.Chain.Value.{sum_outputs}
use klingnet.Chain.State.{found_utxo, chain_utxo_provider, excess, gather_fees}
use klingnet.Chain.State.Extend.{add_found, input_sum, output_sum, compute_tx_fee, sum_fees}

-- The values that the inputs of transactions spend.
abbrev pub sum_inputs : UtxoProvider → List Transaction → ℕ
sum_inputs p [] = 0
sum_inputs p (t ∷ ts) = input_values p t.inputs + sum_inputs p ts

add_values-output_sum :
    (total : ℕ) (os : List Output) (n : ℕ) → add_values total os ≡ ok n → output_sum total os ≡ n
unfolding add_values output_sum
add_values-output_sum total [] n h = ground arith
add_values-output_sum total (o ∷ os) n h =
    ground (arith, add_values-output_sum (total + o.value) os n)

module _ ⦃c : Crypto⦄ where
  spend_input-add_found :
      (s : UtxoSet) (total : ℕ) (i : Input) (n : ℕ)
      → spend_input (chain_utxo_provider s) total i ≡ ok n
      → add_found total (get i.prev_out s) ≡ n
  unfolding spend_input add_found found_utxo
  spend_input-add_found s total i n h = elim (Option-cases (get i.prev_out s)) [
    | inl missing ↦ ground arith
    | inr (u, found) ↦ ground (arith, found)
  ]

  spend_inputs-input_sum :
      (s : UtxoSet) (total : ℕ) (is : List Input) (n : ℕ)
      → spend_inputs (chain_utxo_provider s) total is ≡ ok n
      → input_sum s total is ≡ n
  unfolding spend_inputs input_sum
  spend_inputs-input_sum s total [] n h = ground arith
  spend_inputs-input_sum s total (i ∷ is) n h = elim (Bool-cases (is_zero i.prev_out)) [
    | inl zero_out ↦ ground (arith, spend_inputs-input_sum s total is n)
    | inr spent ↦ elim (Result-cases (spend_input (chain_utxo_provider s) total i)) [
      | inl (m, one) ↦
          ground (arith, spend_input-add_found s total i m one, spend_inputs-input_sum s m is n)
      | inr (e, bad) ↦ ground arith
    ]
  ]

  compute_tx_fee_valid :
      (s : UtxoSet) (t : Transaction) (fee : ℕ)
      → validate_with_utxos (chain_utxo_provider s) t ≡ ok fee
      → compute_tx_fee s t ≡ fee
  unfolding compute_tx_fee total_output_value excess
  compute_tx_fee_valid s t fee h =
      let (n, m, valid, spent, signed, total, sum) =
        validate_with_utxos_parts (chain_utxo_provider s) t fee h in
      ground (
        arith,
        spend_inputs-input_sum s 0 t.inputs n spent,
        add_values-output_sum 0 t.outputs m total,
      )

  -- One step of the loop that gathers the fees.
  gather_fees-step :
      (p : UtxoProvider) (total : ℕ) (t : Transaction) (ts : List Transaction) (fs : List ℕ) (n : ℕ)
      → gather_fees p total (t ∷ ts) ≡ ok (fs, n)
      → (fee : ℕ) × (gs : List ℕ) × (validate_with_utxos p t ≡ ok fee)
        × (gather_fees p (total + fee) ts ≡ ok (gs, n))
        × (total ≤ max_u64 - fee)
  unfolding gather_fees
  gather_fees-step p total t ts fs n h = elim (Result-cases (validate_with_utxos p t)) [
    | inl (fee, valid) ↦ elim (Result-cases (gather_fees p (total + fee) ts)) [
      | inl ((gs, m), rest) ↦ (fee, gs, valid, ground arith, ground arith)
      | inr (e, bad) ↦ ground arith
    ]
    | inr (e, bad) ↦ ground arith
  ]

  gather_fees-nil :
      (p : UtxoProvider) (total : ℕ) (fs : List ℕ) (n : ℕ)
      → gather_fees p total [] ≡ ok (fs, n)
      → total ≡ n
  unfolding gather_fees
  gather_fees-nil p total fs n h = ground arith

  -- The two sums of the fees agree on transactions that pass.
  pub gather_fees-sum_fees :
      (s : UtxoSet) (total : ℕ) (ts : List Transaction) (fs : List ℕ) (n : ℕ)
      → gather_fees (chain_utxo_provider s) total ts ≡ ok (fs, n)
      → sum_fees s total ts ≡ n
  unfolding sum_fees
  gather_fees-sum_fees s total [] fs n h = gather_fees-nil (chain_utxo_provider s) total fs n h
  gather_fees-sum_fees s total (t ∷ ts) fs n h =
      let (fee, gs, valid, rest, fits) =
        gather_fees-step (chain_utxo_provider s) total t ts fs n h in
      ground (
        arith,
        compute_tx_fee_valid s t fee valid,
        gather_fees-sum_fees s (total + fee) ts gs n rest,
      )

  -- What the transactions spend is what they create and the fees; every input is there to spend.
  pub gather_fees-balance :
      (p : UtxoProvider) (total : ℕ) (ts : List Transaction) (fs : List ℕ) (n : ℕ)
      → All (λ t. AreU64 t.outputs) ts
      → gather_fees p total ts ≡ ok (fs, n)
      → All (λ t. All (Spends p) t.inputs) ts × (total + sum_inputs p ts ≡ sum_outputs ts + n)
  gather_fees-balance p total [] fs n fits h = (tt, omega (arith, gather_fees-nil p total fs n h))
  gather_fees-balance p total (t ∷ ts) fs n fits h =
      let (fee, gs, valid, rest, low) = gather_fees-step p total t ts fs n h in
      let (formed, spends, signed, balance) = validate_with_utxos_sound p t fee fits.0 valid in
      let ih = gather_fees-balance p (total + fee) ts gs n fits.1 rest in
      ((spends, ih.0), omega (arith, ih.1, balance))
