-- ===== src/Chain/State.antt =====
-- internal/chain/processor.go: the rules of a block against the UTXO set. The part that extends
-- the tip stands in Extend.
pub mod Extend
pub mod Fees
pub mod Spent
pub mod Parts
pub mod Supply
pub mod Progress
use klingnet.Prelude.{
  ℕ, suc, ◌+◌, ◌-◌, Bool, true, false, not, ◌&&◌, List, [], ◌∷◌, Option, none, some, ltb, leb, ◌==◌,
  if◌then◌else◌, max_u64, Result, ok, err, ◌>>=◌, ◌>>◌, reject_if, wrap,
}
use klingnet.Prelude.Assoc.{is_some}
use klingnet.Prelude.Int.{sub_u64}
use klingnet.Config.{coinbase_maturity, token_creation_fee, block_subsidy}
use klingnet.Types.{
  Outpoint, is_zero, Script, script_type_mint, script_type_register, script_type_stake,
}
use klingnet.Crypto.{Crypto}
use klingnet.Tx.{Input, Output, Transaction, total_output_value}
use klingnet.Tx.Validate.{TxError, input_not_found}
use klingnet.Tx.Spend.{UtxoProvider, validate_with_utxos}
use klingnet.Block.{Block}
use klingnet.Block.Validate.{has_zero_input, is_zero_input}
use klingnet.Utxo.{Utxo, UtxoSet, get, has}
use klingnet.Token.{TokenError, get_token_data, has_mint_output, validate_mint_fee, validate_tokens}

-- `panic_no_transactions` is the panic of `blk.Transactions[0]`.
pub data StateError : Type 0 where
  panic_no_transactions bad_coinbase_tx coinbase_mints coinbase_has_token fee_overflow : StateError
  coinbase_overflow coinbase_reward_exceeded coinbase_not_mature output_locked : StateError
  minting_disabled invalid_stake_amount registration_refused : StateError
  registration_count_overflow supply_overflow difficulty_overflow apply_utxo : StateError
  sub_chain_overflow sub_chain_underflow bad_height bad_prev_hash prev_not_found fork_detected :
      StateError
  bad_tx : TxError → StateError
  bad_token : TokenError → StateError

-- What a Chain keeps of the genesis, and its hook that refuses registrations, which gets the
-- output and the two counts.
pub record Rules : Type 0 where
  pub max_supply : ℕ
  pub block_reward : ℕ
  pub halving_interval : ℕ
  pub allow_minting : Bool
  pub validator_stake : ℕ
  pub registration_validator : Option (Output → ℕ → ℕ → Bool)

-- chainUTXOProvider
unfoldable pub found_utxo : Option Utxo → Result TxError (ℕ × Script)
found_utxo none = err input_not_found
found_utxo (some u) = ok (u.value, u.script)

abbrev pub chain_utxo_provider : UtxoSet → UtxoProvider
chain_utxo_provider s = record { get_utxo = λ o. found_utxo (get o s); has_utxo = λ o. has o s }

-- the loop over the outputs of the coinbase
unfoldable pub check_coinbase_outputs : List Output → Result StateError (Unit {0})
check_coinbase_outputs [] = ok tt
check_coinbase_outputs (o ∷ os) =
    if o.script.type == script_type_mint
    then err coinbase_mints
    else if is_some o.token
    then err coinbase_has_token
    else check_coinbase_outputs os

-- what the maximum supply leaves of an amount of new coins
unfoldable pub cap_supply : ℕ → ℕ → ℕ → ℕ
cap_supply max_supply supply amount =
    if max_supply == 0
    then amount
    else if leb max_supply supply
    then 0
    else if ltb (max_supply - supply) amount
    then max_supply - supply
    else amount

-- `if a > b { a - b } else { 0 }`
unfoldable pub excess : ℕ → ℕ → ℕ
excess a b = if ltb b a then a - b else 0

-- only the first transaction may have an input at the zero outpoint
unfoldable pub check_no_zero_inputs : List Transaction → Result StateError (Unit {0})
check_no_zero_inputs [] = ok tt
check_no_zero_inputs (t ∷ ts) =
    if has_zero_input t.inputs then err bad_coinbase_tx else check_no_zero_inputs ts

unfoldable pub check_mature : ℕ → Option Utxo → Result StateError (Unit {0})
check_mature height none = ok tt
check_mature height (some u) =
    if u.coinbase && ltb (sub_u64 height u.height) coinbase_maturity
    then err coinbase_not_mature
    else if ltb 0 u.locked_until && ltb height u.locked_until
    then err output_locked
    else ok tt

unfoldable pub check_mature_inputs : UtxoSet → ℕ → List Input → Result StateError (Unit {0})
check_mature_inputs s height [] = ok tt
check_mature_inputs s height (i ∷ is) =
    (if is_zero i.prev_out then ok tt else check_mature height (get i.prev_out s))
    >> check_mature_inputs s height is

-- checkCoinbaseMaturity
unfoldable pub check_coinbase_maturity :
    UtxoSet → ℕ → List Transaction → Result StateError (Unit {0})
check_coinbase_maturity s height [] = ok tt
check_coinbase_maturity s height (t ∷ ts) =
    check_mature_inputs s height t.inputs >> check_coinbase_maturity s height ts

-- the stake outputs of a transaction that is no coinbase have the exact amount
unfoldable pub check_stakes : ℕ → List Output → Result StateError (Unit {0})
check_stakes stake [] = ok tt
check_stakes stake (o ∷ os) =
    if o.script.type == script_type_stake && not (o.value == stake)
    then err invalid_stake_amount
    else check_stakes stake os

unfoldable pub check_all_stakes : ℕ → List Transaction → Result StateError (Unit {0})
check_all_stakes stake [] = ok tt
check_all_stakes stake (t ∷ ts) = check_stakes stake t.outputs >> check_all_stakes stake ts

unfoldable pub refuses_registration : Option (Output → ℕ → ℕ → Bool) → Output → ℕ → ℕ → Bool
refuses_registration none o registered n = false
refuses_registration (some f) o registered n = not (f o registered n)

-- the loop over a transaction's outputs, from a count of registrations
unfoldable pub count_registrations :
    Option (Output → ℕ → ℕ → Bool) → ℕ → ℕ → List Output → Result StateError ℕ
count_registrations f registered n [] = ok n
count_registrations f registered n (o ∷ os) =
    if not (o.script.type == script_type_register)
    then count_registrations f registered n os
    else if refuses_registration f o registered n
    then err registration_refused
    else if n == max_u64
    then err registration_count_overflow
    else count_registrations f registered (n + 1) os

-- validateRegistrations
unfoldable pub validate_registrations :
    Option (Output → ℕ → ℕ → Bool) → ℕ → ℕ → List Transaction → Result StateError ℕ
validate_registrations f registered n [] = ok n
validate_registrations f registered n (t ∷ ts) =
    count_registrations f registered n t.outputs >>= λ n'. validate_registrations f registered n' ts

module _ ⦃c : Crypto⦄ where
  -- the loop that validates the transactions after the first: their fees, and the total
  unfoldable pub gather_fees : UtxoProvider → ℕ → List Transaction → Result StateError (List ℕ × ℕ)
  gather_fees p total [] = ok ([], total)
  gather_fees p total (t ∷ ts) = wrap bad_tx (validate_with_utxos p t) >>= λ fee.
      if ltb (max_u64 - fee) total
      then err fee_overflow
      else gather_fees p (total + fee) ts >>= λ rest. ok (fee ∷ rest.0, rest.1)

  -- the body of the loop over the token rules, with the transaction's fee
  unfoldable pub check_token : Rules → UtxoSet → Transaction → ℕ → Result StateError (Unit {0})
  check_token rules s t fee = do
    let has_mint = has_mint_output t.outputs
    reject_if (has_mint && not rules.allow_minting) minting_disabled
    wrap bad_token (validate_tokens t (get_token_data s))
    if ltb 0 token_creation_fee && has_mint
        then wrap bad_token (validate_mint_fee t fee token_creation_fee)
        else ok tt

  unfoldable pub check_tokens :
      Rules → UtxoSet → List Transaction → List ℕ → Result StateError (Unit {0})
  check_tokens rules s [] fees = ok tt
  check_tokens rules s (t ∷ ts) [] = ok tt
  check_tokens rules s (t ∷ ts) (fee ∷ fees) =
      check_token rules s t fee >> check_tokens rules s ts fees

  -- the coinbase's outputs, the fees and the mint limit
  unfoldable pub check_mint :
      Rules → UtxoSet → ℕ → ℕ → Transaction → List Transaction → Result StateError (List ℕ)
  check_mint rules s supply height coinbase_tx txs = do
    check_coinbase_outputs coinbase_tx.outputs
    fees ← gather_fees (chain_utxo_provider s) 0 txs
    coinbase_total ← wrap (λ _. coinbase_overflow) (total_output_value coinbase_tx)
    reject_if
        (ltb
          (cap_supply rules.max_supply supply
            (block_subsidy rules.block_reward rules.halving_interval height))
          (excess coinbase_total fees.1))
        coinbase_reward_exceeded
    ok fees.0

  -- validateBlockState, at a supply and a count of registered sub-chains: the registrations
  unfoldable pub validate_block_state : Rules → UtxoSet → ℕ → ℕ → Block → Result StateError ℕ
  validate_block_state rules s supply registered b = elim b.transactions [
    | [] ↦ err panic_no_transactions
    | coinbase_tx ∷ txs ↦ (do
      reject_if (not (is_zero_input coinbase_tx.inputs)) bad_coinbase_tx
      fees ← check_mint rules s supply b.header.height coinbase_tx txs
      check_no_zero_inputs txs
      check_coinbase_maturity s b.header.height b.transactions
      check_tokens rules s txs fees
      if ltb 0 rules.validator_stake then check_all_stakes rules.validator_stake txs else ok tt
      validate_registrations rules.registration_validator registered 0 b.transactions)
  ]
