-- ===== src/Tx/Balance.antt =====
-- What a transaction that passes ValidateWithUTXOs spends, who may spend it, and its fee.
use klingnet.Prelude.{
  ℕ, ◌+◌, ◌≤◌, ◌≡◌, ◌⊎◌, inl, inr, true, false, List, [], ◌∷◌, arith, take, max_u64, ok, err, All,
  bytes_equal_iff, Result-cases, Result, Bool-cases,
}
use klingnet.Types.{
  is_zero, Script, address_size, script_type_p2pkh, script_type_mint, script_type_stake,
}
use klingnet.Crypto.{Crypto, address_from_pub_key, verify_signature}
use klingnet.Tx.{Input, Output, Transaction, tx_hash, add_values, total_output_value}
use klingnet.Tx.Validate.{TxError, validate, verify_inputs, verify_signatures}
use klingnet.Tx.Rules.{AreU64, sum_values, IsWellFormed, validate-iff-IsWellFormed}
use klingnet.Tx.Spend.{
  UtxoProvider, verify_p2pkh, verify_address_lock, verify_script, spend_input, spend_inputs,
  validate_with_utxos,
}

-- The value that the provider gives for an input; a coinbase input has none.
abbrev found_value : Result TxError (ℕ × Script) → ℕ
found_value (ok found) = found.0
found_value (err e) = 0

abbrev pub input_value : UtxoProvider → Input → ℕ
input_value p i = elim (is_zero i.prev_out) [
  | true ↦ 0
  | false ↦ found_value (p.get_utxo i.prev_out)
]

abbrev pub input_values : UtxoProvider → List Input → ℕ
input_values p [] = 0
input_values p (i ∷ is) = input_value p i + input_values p is

pub add_values-eq-ok :
    (total : ℕ) (os : List Output) (n : ℕ)
    → total ≤ max_u64
    → AreU64 os
    → add_values total os ≡ ok n
    → (n ≡ total + sum_values os) × (n ≤ max_u64)
unfolding add_values
add_values-eq-ok total [] n low fits h = ground arith
add_values-eq-ok total (o ∷ os) n low fits h =
    ground (arith, add_values-eq-ok (total + o.value) os n)

module _ ⦃c : Crypto⦄ where
  -- The key opens the script: it hashes to its address, or is its staker's.
  abbrev pub Unlocks : Script → Input → Type 0
  Unlocks s i =
      ((s.type ≡ script_type_p2pkh) × (s.bytes ≡ address_from_pub_key i.pub_key))
      ⊎ ((s.type ≡ script_type_mint) × (take address_size s.bytes ≡ address_from_pub_key i.pub_key))
      ⊎ ((s.type ≡ script_type_stake) × (i.pub_key ≡ s.bytes))

  -- The input is a coinbase's, or spends an output that the provider has and the key opens.
  abbrev pub Spends : UtxoProvider → Input → Type 0
  Spends p i =
      (is_zero i.prev_out ≡ true)
      ⊎ ((v : ℕ) × (s : Script) × (p.has_utxo i.prev_out ≡ true)
          × (p.get_utxo i.prev_out ≡ ok (v, s))
          × Unlocks s i)

  abbrev pub SignedBy : Transaction → Input → Type 0
  SignedBy t i =
      (is_zero i.prev_out ≡ true) ⊎ (verify_signature (tx_hash t) i.signature i.pub_key ≡ true)

  verify_p2pkh-eq-ok :
      (pub_key script_data : List ℕ)
      → verify_p2pkh pub_key script_data ≡ ok tt
      → script_data ≡ address_from_pub_key pub_key
  unfolding verify_p2pkh
  verify_p2pkh-eq-ok pub_key script_data h =
      ground (arith, bytes_equal_iff script_data (address_from_pub_key pub_key))

  verify_address_lock-eq-ok :
      (pub_key script_data : List ℕ)
      → verify_address_lock pub_key script_data ≡ ok tt
      → take address_size script_data ≡ address_from_pub_key pub_key
  unfolding verify_address_lock
  verify_address_lock-eq-ok pub_key script_data h =
      ground (arith, verify_p2pkh-eq-ok pub_key (take address_size script_data))

  verify_script-Unlocks : (s : Script) (i : Input) → verify_script s i ≡ ok tt → Unlocks s i
  unfolding verify_script
  verify_script-Unlocks s i h = ground (
    arith,
    verify_p2pkh-eq-ok i.pub_key s.bytes,
    verify_address_lock-eq-ok i.pub_key s.bytes,
    bytes_equal_iff i.pub_key s.bytes,
  )

  spend_input-eq-ok :
      (p : UtxoProvider) (total : ℕ) (i : Input) {n : ℕ}
      → spend_input p total i ≡ ok n
      → (v : ℕ) × (s : Script) × (p.has_utxo i.prev_out ≡ true)
        × (p.get_utxo i.prev_out ≡ ok (v, s))
        × Unlocks s i
        × (n ≡ total + v)
  unfolding spend_input
  spend_input-eq-ok p total i h = elim (Result-cases (p.get_utxo i.prev_out)) [
    | inl ((v, s), found) ↦
        (v, s, ground arith, found, verify_script-Unlocks s i (ground arith), ground arith)
    | inr (e, missing) ↦ ground arith
  ]

  spend_inputs-Spends :
      (p : UtxoProvider) (total : ℕ) (is : List Input) (n : ℕ)
      → spend_inputs p total is ≡ ok n
      → All (Spends p) is × (n ≡ total + input_values p is)
  unfolding spend_inputs
  spend_inputs-Spends p total [] n h = ground arith
  spend_inputs-Spends p total (i ∷ is) n h = elim (Bool-cases (is_zero i.prev_out)) [
    | inl zero_out ↦ ground (arith, spend_inputs-Spends p total is n)
    | inr spent ↦ elim (Result-cases (spend_input p total i)) [
      | inl (total', found) ↦
          let (v, s, has, get, unlocks, sum) = spend_input-eq-ok p total i found in
          ground (arith, spend_inputs-Spends p total' is n)
      | inr (e, missing) ↦ ground arith
    ]
  ]

  verify_inputs-SignedBy :
      (t : Transaction) (is : List Input)
      → verify_inputs (tx_hash t) is ≡ ok tt
      → All (SignedBy t) is
  unfolding verify_inputs
  verify_inputs-SignedBy t [] h = tt
  verify_inputs-SignedBy t (i ∷ is) h = ground (arith, verify_inputs-SignedBy t is)

  -- The four checks of ValidateWithUTXOs, one by one.
  pub validate_with_utxos_parts :
      (p : UtxoProvider) (t : Transaction) (fee : ℕ)
      → validate_with_utxos p t ≡ ok fee
      → (n m : ℕ) × (validate t ≡ ok tt)
        × (spend_inputs p 0 t.inputs ≡ ok n)
        × (verify_signatures t ≡ ok tt)
        × (total_output_value t ≡ ok m)
        × (n ≡ m + fee)
  unfolding validate_with_utxos
  validate_with_utxos_parts p t fee h = elim (Result-cases (spend_inputs p 0 t.inputs)) [
    | inl (n, spent) ↦ elim (Result-cases (total_output_value t)) [
      | inl (m, total) ↦ (n, m, ground arith, spent, ground arith, total, ground arith)
      | inr (e, over) ↦ ground arith
    ]
    | inr (e, refused) ↦ ground arith
  ]

  -- A transaction with uint64 output values that passes the full check is well-formed; each input
  -- is a coinbase's or spends an output that the provider has, whose script its key opens, with a
  -- signature of the transaction's hash; and the values spent are the values created and the fee.
  pub validate_with_utxos_sound :
      (p : UtxoProvider) (t : Transaction) (fee : ℕ)
      → AreU64 t.outputs
      → validate_with_utxos p t ≡ ok fee
      → IsWellFormed t
        × All (Spends p) t.inputs
        × All (SignedBy t) t.inputs
        × (input_values p t.inputs ≡ sum_values t.outputs + fee)
  unfolding verify_signatures total_output_value
  validate_with_utxos_sound p t fee fits h =
      let (n, m, valid, spent, signed, total, sum) = validate_with_utxos_parts p t fee h in
      let (all_spend, from_inputs) = spend_inputs-Spends p 0 t.inputs n spent in
      (
        (validate-iff-IsWellFormed t fits).0 valid,
        all_spend,
        verify_inputs-SignedBy t t.inputs signed,
        omega (arith, from_inputs, sum, add_values-eq-ok 0 t.outputs m (omega arith) fits total),
      )
