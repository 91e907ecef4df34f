-- ===== src/Tx/Validate.antt =====
-- pkg/tx/validate.go: the structural checks of a transaction and its signature check.
use klingnet.Prelude.{
  ℕ, ◌+◌, ◌-◌, not, ◌&&◌, ◌||◌, List, [], ◌∷◌, length, ltb, ◌==◌, if◌then◌else◌, max_u64, Result,
  ok, err, ◌>>◌, reject_if, contains,
}
use klingnet.Prelude.Assoc.{is_some}
use klingnet.Config.{max_tx_inputs, max_tx_outputs, max_script_data}
use klingnet.Types.{
  Hash, Outpoint, outpoint_eq, is_zero, address_size, script_type_p2pkh, script_type_p2sh,
  script_type_mint, script_type_burn, script_type_anchor, script_type_register, script_type_bridge,
  script_type_stake,
}
use klingnet.Crypto.{Crypto, verify_signature}
use klingnet.Tx.{Input, Output, Transaction, tx_hash}

-- the errors of validate.go and utxo_validate.go
pub data TxError : Type 0 where
  no_inputs no_outputs duplicate_input output_overflow zero_output invalid_script : TxError
  mint_missing_token mint_non_zero_value missing_pub_key missing_sig invalid_sig : TxError
  too_many_inputs too_many_outputs script_data_too_large : TxError
  input_not_found input_overflow insufficient_fee script_mismatch : TxError
  unsupported_script unspendable_output : TxError

-- the loop over `seen`
unfoldable pub check_duplicates : List Outpoint → List Input → Result TxError (Unit {0})
check_duplicates seen [] = ok tt
check_duplicates seen (i ∷ is) =
    if contains i.prev_out seen
    then err duplicate_input
    else check_duplicates (i.prev_out ∷ seen) is

-- the body of the loop that asks for signatures and public keys
unfoldable pub check_input : Input → Result TxError (Unit {0})
check_input i =
    if is_zero i.prev_out
    then ok tt
    else if length i.pub_key == 0
    then err missing_pub_key
    else if length i.signature == 0
    then err missing_sig
    else ok tt

unfoldable pub check_inputs : List Input → Result TxError (Unit {0})
unfolding check_input
check_inputs [] = ok tt
check_inputs (i ∷ is) = check_input i >> check_inputs is

unfoldable pub validate_output_script : Output → Result TxError (Unit {0})
validate_output_script o =
    let type = o.script.type in
    if type == script_type_p2pkh
      || (type == script_type_burn || (type == script_type_anchor || type == script_type_register))
    then ok tt
    else if type == script_type_mint
    then (if not (is_some o.token)
        then err mint_missing_token
        else if not (o.value == 0)
        then err mint_non_zero_value
        else if ltb (length o.script.bytes) address_size
        then err invalid_script
        else ok tt)
    else if type == script_type_stake
    then (if not (length o.script.bytes == 33) then err invalid_script else ok tt)
    else if type == script_type_p2sh || type == script_type_bridge
    then err invalid_script
    else err invalid_script

-- the body of the loop over the outputs
unfoldable pub check_output : ℕ → Output → Result TxError (Unit {0})
unfolding validate_output_script
check_output total o = do
  reject_if (o.value == 0 && not (is_some o.token)) zero_output
  validate_output_script o
  reject_if (ltb max_script_data (length o.script.bytes)) script_data_too_large
  reject_if (ltb (max_u64 - o.value) total) output_overflow

-- the loop over the outputs, with `totalOutput`
unfoldable pub check_outputs : ℕ → List Output → Result TxError (Unit {0})
unfolding check_output
check_outputs total [] = ok tt
check_outputs total (o ∷ os) = check_output total o >> check_outputs (total + o.value) os

-- Transaction.Validate, and ValidateStructure, which is the same
unfoldable pub validate : Transaction → Result TxError (Unit {0})
unfolding check_duplicates check_inputs check_outputs
validate t = do
  reject_if (length t.inputs == 0) no_inputs
  reject_if (length t.outputs == 0) no_outputs
  reject_if (ltb max_tx_inputs (length t.inputs)) too_many_inputs
  reject_if (ltb max_tx_outputs (length t.outputs)) too_many_outputs
  check_duplicates [] t.inputs
  check_inputs t.inputs
  check_outputs 0 t.outputs

module _ ⦃c : Crypto⦄ where
  -- the loop of VerifySignatures
  unfoldable pub verify_inputs : Hash → List Input → Result TxError (Unit {0})
  verify_inputs h [] = ok tt
  verify_inputs h (i ∷ is) =
      if is_zero i.prev_out
      then verify_inputs h is
      else if not (verify_signature h i.signature i.pub_key)
      then err invalid_sig
      else verify_inputs h is

  -- Transaction.VerifySignatures
  unfoldable pub verify_signatures : Transaction → Result TxError (Unit {0})
  unfolding verify_inputs
  verify_signatures t = verify_inputs (tx_hash t) t.inputs
