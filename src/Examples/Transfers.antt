-- ===== src/Examples/Transfers.antt =====
-- The theorems on transactions and tokens at a transfer.
use klingnet.Prelude.{
  ℕ, ◌+◌, ◌≤◌, ◌≡◌, refl, ◌↔◌, ok, All, arith, none, some, if◌then◌else◌, ◌⊎◌, true, false, Option,
  Result, List, [], ◌∷◌,
}
use klingnet.Types.{Outpoint, same_outpoint, TokenData, Script, script_type_p2pkh, script_type_burn}
use klingnet.Tx.{Input, Output, Transaction, signing_bytes, tx_hash}
use klingnet.Tx.Validate.{TxError, validate}
use klingnet.Tx.Spend.{validate_with_utxos}
use klingnet.Tx.Rules.{sum_values, IsWellFormed, validate-iff-IsWellFormed}
use klingnet.Tx.Balance.{Spends, SignedBy, input_values, validate_with_utxos_sound}
use klingnet.Token.{validate_tokens}
use klingnet.Token.Conservation.{
  is_minted, spent_amount, kept_amount, burned_amount, validate_tokens-conserves,
}
use klingnet.Token.Mint.{decode_mint_data, encode_mint_data, decode-encode_mint_data}
use klingnet.Examples.{zeros, toy, transfer, provider, old_outpoint}

validate-iff-IsWellFormed_example : (validate transfer ≡ ok tt) ↔ IsWellFormed transfer
validate-iff-IsWellFormed_example = validate-iff-IsWellFormed transfer (omega arith, tt)

fee_of_transfer : validate_with_utxos provider transfer ≡ ok 5
unfolding validate_with_utxos validate klingnet.Tx.Spend.spend_inputs klingnet.Tx.Spend.spend_input
    klingnet.Tx.Spend.verify_script klingnet.Tx.Spend.verify_p2pkh
    klingnet.Crypto.address_from_pub_key klingnet.Bytes.be_bytes klingnet.Bytes.be_number
    klingnet.Tx.Validate.verify_signatures klingnet.Crypto.verify_signature
    klingnet.Tx.total_output_value
fee_of_transfer = refl

validate_with_utxos_sound_example :
    IsWellFormed transfer
    × All (Spends provider) transfer.inputs
    × All (SignedBy transfer) transfer.inputs
    × (input_values provider transfer.inputs ≡ sum_values transfer.outputs + 5)
validate_with_utxos_sound_example =
    validate_with_utxos_sound provider transfer 5 (omega arith, tt) fee_of_transfer

abbrev script : ℕ → Script
script t = record { type = t; bytes = [] }

abbrev token_output : ℕ → ℕ → Output
token_output t n = record {
  value = 1;
  script = script t;
  token = some (record { id = 42; amount = n });
}

-- Of 10 units of token 42, 7 are kept and 3 are burned.
abbrev token_transfer : Transaction
token_transfer = record transfer {
  outputs = token_output script_type_p2pkh 7 ∷ token_output script_type_burn 3 ∷ [];
}

abbrev ten : Outpoint → Option TokenData
ten o = if same_outpoint o old_outpoint then some (record { id = 42; amount = 10 }) else none

tokens_pass : validate_tokens token_transfer ten ≡ ok tt
unfolding validate_tokens klingnet.Token.gather_inputs klingnet.Token.add_input
    klingnet.Prelude.Assoc.lookup klingnet.Token.gather_outputs klingnet.Token.gather_token
    klingnet.Token.gather_output klingnet.Token.check_mixed klingnet.Token.check_conservation
    klingnet.Token.keys klingnet.Prelude.Assoc.insert klingnet.Token.unminted
tokens_pass = refl

validate_tokens-conserves_example :
    ((is_minted 42 token_transfer.outputs ≡ true) × (spent_amount ten 42 token_transfer.inputs ≡ 0))
    ⊎ ((is_minted 42 token_transfer.outputs ≡ false)
        × (kept_amount 42 token_transfer.outputs ≤ spent_amount ten 42 token_transfer.inputs)
        × ((spent_amount ten 42 token_transfer.inputs
              ≡ kept_amount 42 token_transfer.outputs + burned_amount 42 token_transfer.outputs)
            ⊎ ((spent_amount ten 42 token_transfer.inputs ≡ 0)
                × (kept_amount 42 token_transfer.outputs ≡ 0))))
validate_tokens-conserves_example = validate_tokens-conserves token_transfer ten 42 tokens_pass

abbrev coin_name : List ℕ
coin_name = 75 ∷ 108 ∷ []

decode-encode_mint_data_example :
    decode_mint_data (encode_mint_data zeros coin_name (75 ∷ []) 8)
    ≡ some (record { addr = zeros; name = coin_name; symbol = 75 ∷ []; decimals = 8 })
decode-encode_mint_data_example = decode-encode_mint_data zeros coin_name (75 ∷ []) 8 refl
