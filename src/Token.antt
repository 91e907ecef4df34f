-- ===== src/Token.antt =====
-- internal/token: the token rules of a transaction (validate.go), the token ids (token.go) and the
-- adapter to the UTXO set (adapter.go).
pub mod Conservation
pub mod Mint
use klingnet.Prelude.{
  ℕ, ◌+◌, ◌-◌, Bool, true, false, not, ◌||◌, List, [], ◌∷◌, ◌++◌, Option, none, some, ltb, ◌==◌,
  if◌then◌else◌, max_u64, Result, ok, err, ◌>>=◌, ◌>>◌, reject_if, contains, Eq, nat_eq,
}
use klingnet.Prelude.Assoc.{Assoc, lookup, insert, is_some}
use klingnet.Bytes.{be_bytes, le_bytes}
use klingnet.Config.{max_token_amount}
use klingnet.Types.{Hash, Outpoint, is_zero, TokenData, script_type_mint, script_type_burn}
use klingnet.Crypto.{Crypto, hash}
use klingnet.Tx.{Input, Output, Transaction}
use klingnet.Utxo.{Utxo, UtxoSet, get}

pub data TokenError : Type 0 where
  input_amount_overflow output_amount_overflow burn_amount_overflow : TokenError
  output_burn_overflow token_conservation mint_zero_amount burn_zero_amount : TokenError
  token_id_mismatch mixed_mint_transfer mint_fee_too_low token_amount_too_large : TokenError

-- token.InputTokens: GetTokenData, where `none` is nil
abbrev pub InputTokens : Type 0
InputTokens = Outpoint → Option TokenData

abbrev pub token_of : Option Utxo → Option TokenData
token_of none = none
token_of (some u) = u.token

-- UTXOTokenAdapter.GetTokenData
unfoldable pub get_token_data : UtxoSet → InputTokens
get_token_data s o = token_of (get o s)

-- A map from token ids to amounts, where a missing id reads 0.
abbrev pub Amounts : Type 0
Amounts = Assoc Hash ℕ

abbrev pub amount_or_zero : Option ℕ → ℕ
amount_or_zero none = 0
amount_or_zero (some n) = n

abbrev pub amount_of : Hash → Amounts → ℕ
amount_of id m = amount_or_zero (lookup id m)

-- `current := m[id]; if current > MaxUint64 - amount { return err }; m[id] = current + amount`
unfoldable pub add_amount : TokenError → TokenData → Amounts → Result TokenError Amounts
add_amount e td m =
    if ltb (max_u64 - td.amount) (amount_of td.id m)
    then err e
    else ok (insert td.id (amount_of td.id m + td.amount) m)

unfoldable pub add_input : Option TokenData → Amounts → Result TokenError Amounts
unfolding add_amount
add_input none m = ok m
add_input (some td) m = add_amount input_amount_overflow td m

-- the loop over the inputs
unfoldable pub gather_inputs : InputTokens → Amounts → List Input → Result TokenError Amounts
gather_inputs tokens m [] = ok m
gather_inputs tokens m (i ∷ is) =
    (if is_zero i.prev_out then ok m else add_input (tokens i.prev_out) m) >>= λ m'.
    gather_inputs tokens m' is

-- validateMintOutput
unfoldable pub validate_mint_output : Hash → TokenData → Result TokenError (Unit {0})
validate_mint_output expected_id td = do
  reject_if (td.amount == 0) mint_zero_amount
  reject_if (ltb max_token_amount td.amount) token_amount_too_large
  reject_if (not (td.id == expected_id)) token_id_mismatch

-- `outputTotals`, `mintedIDs` and `burnedAmounts`
pub record Gathered : Type 0 where
  pub output_totals : Amounts
  pub minted_ids : List Hash
  pub burned_amounts : Amounts

-- the body of the loop over the outputs, for an output that carries a token
unfoldable pub gather_output : Hash → Output → TokenData → Gathered → Result TokenError Gathered
gather_output mint_id o td g =
    if o.script.type == script_type_mint
    then (do
      validate_mint_output mint_id td
      totals ← add_amount output_amount_overflow td g.output_totals
      ok (record g { output_totals = totals; minted_ids = td.id ∷ g.minted_ids }))
    else if o.script.type == script_type_burn
    then (do
      reject_if (td.amount == 0) burn_zero_amount
      reject_if (ltb max_token_amount td.amount) token_amount_too_large
      burned ← add_amount burn_amount_overflow td g.burned_amounts
      ok (record g { burned_amounts = burned }))
    else (do
      reject_if (ltb max_token_amount td.amount) token_amount_too_large
      totals ← add_amount output_amount_overflow td g.output_totals
      ok (record g { output_totals = totals }))

unfoldable pub gather_token :
    Hash → Output → Option TokenData → Gathered → Result TokenError Gathered
gather_token mint_id o none g = ok g
gather_token mint_id o (some td) g = gather_output mint_id o td g

unfoldable pub gather_outputs : Hash → List Output → Gathered → Result TokenError Gathered
gather_outputs mint_id [] g = ok g
gather_outputs mint_id (o ∷ os) g =
    gather_token mint_id o o.token g >>= λ g'. gather_outputs mint_id os g'

-- the loop over `mintedIDs`
unfoldable pub check_mixed : Amounts → List Hash → Result TokenError (Unit {0})
check_mixed inputs [] = ok tt
check_mixed inputs (id ∷ ids) =
    if is_some (lookup id inputs) then err mixed_mint_transfer else check_mixed inputs ids

unfoldable pub keys : Amounts → List Hash
keys [] = []
keys ((id, n) ∷ m) = id ∷ keys m

-- the ids of `outputTotals` that are not minted here
unfoldable pub unminted : List Hash → List Hash → List Hash
unminted minted [] = []
unminted minted (id ∷ ids) =
    let rest = unminted minted ids in if contains id minted then rest else id ∷ rest

-- the loop over `allTokenIDs`
unfoldable pub check_conservation : Amounts → Gathered → List Hash → Result TokenError (Unit {0})
check_conservation inputs g [] = ok tt
check_conservation inputs g (id ∷ ids) =
    if contains id g.minted_ids
    then check_conservation inputs g ids
    else if ltb (max_u64 - amount_of id g.burned_amounts) (amount_of id g.output_totals)
    then err output_burn_overflow
    else if not
        (amount_of id inputs == amount_of id g.output_totals + amount_of id g.burned_amounts)
    then err token_conservation
    else check_conservation inputs g ids

-- HasMintOutput
unfoldable pub has_mint_output : List Output → Bool
has_mint_output [] = false
has_mint_output (o ∷ os) = o.script.type == script_type_mint || has_mint_output os

-- ValidateMintFee
unfoldable pub validate_mint_fee : Transaction → ℕ → ℕ → Result TokenError (Unit {0})
unfolding has_mint_output
validate_mint_fee t fee creation_fee =
    if not (has_mint_output t.outputs)
    then ok tt
    else if ltb fee creation_fee
    then err mint_fee_too_low
    else ok tt

module _ ⦃c : Crypto⦄ where
  -- DeriveTokenID
  unfoldable pub derive_token_id : Outpoint → Hash
  derive_token_id first = hash (be_bytes 32 first.tx_id ++ le_bytes 4 first.index)

  unfoldable pub mint_token_id : List Input → Hash
  mint_token_id [] = 0
  mint_token_id (i ∷ is) = derive_token_id i.prev_out

  -- ValidateTokens
  unfoldable pub validate_tokens : Transaction → InputTokens → Result TokenError (Unit {0})
  validate_tokens t tokens = do
    inputs ← gather_inputs tokens [] t.inputs
    g ←
        gather_outputs (mint_token_id t.inputs) t.outputs
          (record { output_totals = []; minted_ids = []; burned_amounts = [] })
    check_mixed inputs g.minted_ids
    check_conservation inputs g (keys inputs ++ unminted g.minted_ids (keys g.output_totals))
