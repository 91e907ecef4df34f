-- ===== src/Tx/Spend.antt =====
-- pkg/tx/utxo_validate.go: a transaction against the UTXO set.
use klingnet.Prelude.{
  ℕ, ◌+◌, ◌-◌, Bool, not, ◌||◌, List, [], ◌∷◌, length, take, ltb, ◌==◌, if◌then◌else◌, max_u64,
  Result, ok, err, ◌>>=◌, ◌>>◌, reject_if, wrap, bytes_equal,
}
use klingnet.Types.{
  Outpoint, is_zero, Script, address_size, script_type_p2pkh, script_type_mint, script_type_burn,
  script_type_anchor, script_type_register, script_type_stake,
}
use klingnet.Crypto.{Crypto, address_from_pub_key}
use klingnet.Tx.{Input, Transaction, total_output_value}
use klingnet.Tx.Validate.{
  TxError, output_overflow, missing_pub_key, input_not_found, input_overflow, insufficient_fee,
  script_mismatch, unsupported_script, unspendable_output, validate, verify_signatures,
}

-- tx.UTXOProvider: GetUTXO returns the value and the script of an output
pub record UtxoProvider : Type 0 where
  pub get_utxo : Outpoint → Result TxError (ℕ × Script)
  pub has_utxo : Outpoint → Bool

module _ ⦃c : Crypto⦄ where
  -- verifyP2PKH
  unfoldable pub verify_p2pkh : List ℕ → List ℕ → Result TxError (Unit {0})
  verify_p2pkh pub_key script_data =
      if not (length script_data == address_size)
      then err script_mismatch
      else if length pub_key == 0
      then err missing_pub_key
      else if not (bytes_equal script_data (address_from_pub_key pub_key))
      then err script_mismatch
      else ok tt

  -- verifyAddressLock
  unfoldable pub verify_address_lock : List ℕ → List ℕ → Result TxError (Unit {0})
  verify_address_lock pub_key script_data =
      if ltb (length script_data) address_size
      then err script_mismatch
      else verify_p2pkh pub_key (take address_size script_data)

  -- the switch on the type of the spent script
  unfoldable pub verify_script : Script → Input → Result TxError (Unit {0})
  verify_script s i =
      if s.type == script_type_register
        || (s.type == script_type_anchor || s.type == script_type_burn)
      then err unspendable_output
      else if s.type == script_type_p2pkh
      then verify_p2pkh i.pub_key s.bytes
      else if s.type == script_type_mint
      then verify_address_lock i.pub_key s.bytes
      else if s.type == script_type_stake
      then (if not (length s.bytes == 33)
          then err script_mismatch
          else if not (bytes_equal i.pub_key s.bytes)
          then err script_mismatch
          else ok tt)
      else err unsupported_script

  -- the rest of the loop's body, for an input that is no coinbase: the new `totalInput`
  unfoldable pub spend_input : UtxoProvider → ℕ → Input → Result TxError ℕ
  spend_input p total i = do
    reject_if (not (p.has_utxo i.prev_out)) input_not_found
    found ← p.get_utxo i.prev_out
    verify_script found.1 i
    reject_if (ltb (max_u64 - found.0) total) input_overflow
    ok (total + found.0)

  -- the loop over the inputs
  unfoldable pub spend_inputs : UtxoProvider → ℕ → List Input → Result TxError ℕ
  spend_inputs p total [] = ok total
  spend_inputs p total (i ∷ is) = do
    total' ← if is_zero i.prev_out then ok total else spend_input p total i
    spend_inputs p total' is

  -- Transaction.ValidateWithUTXOs: the fee
  unfoldable pub validate_with_utxos : UtxoProvider → Transaction → Result TxError ℕ
  validate_with_utxos p t = do
    validate t
    total_input ← spend_inputs p 0 t.inputs
    verify_signatures t
    total_output ← wrap (λ _. output_overflow) (total_output_value t)
    reject_if (ltb total_input total_output) insufficient_fee
    ok (total_input - total_output)
