-- ===== src/Tx.antt =====
-- pkg/tx/transaction.go: transactions, their signing bytes and their hash. The proofs and the
-- checks of pkg/tx stand in the modules below.
pub mod Validate
pub mod Spend
pub mod Rules
pub mod Balance
use klingnet.Prelude.{
  ℕ, ◌+◌, ◌-◌, Bool, ◌&&◌, List, [], ◌∷◌, ◌++◌, Option, none, some, length, ltb, if◌then◌else◌,
  max_u64, Result, ok, err,
}
use klingnet.Bytes.{le_bytes, be_bytes}
use klingnet.Types.{Hash, Outpoint, is_zero, Script, TokenData}
use klingnet.Crypto.{Crypto, hash}

pub record Input : Type 0 where
  pub prev_out : Outpoint
  pub signature : List ℕ
  pub pub_key : List ℕ

pub record Output : Type 0 where
  pub value : ℕ
  pub script : Script
  pub token : Option TokenData

pub record Transaction : Type 0 where
  pub version : ℕ
  pub inputs : List Input
  pub outputs : List Output
  pub lock_time : ℕ

-- the body of the loop over the inputs in SigningBytes
unfoldable pub input_bytes : Input → List ℕ
input_bytes i =
    be_bytes 32 i.prev_out.tx_id
    ++ (le_bytes 4 i.prev_out.index
        ++ (if is_zero i.prev_out && ltb 0 (length i.signature)
            then le_bytes 4 (length i.signature) ++ i.signature
            else []))

unfoldable pub token_bytes : Option TokenData → List ℕ
token_bytes none = []
token_bytes (some t) = be_bytes 32 t.id ++ le_bytes 8 t.amount

-- the body of the loop over the outputs in SigningBytes
unfoldable pub output_bytes : Output → List ℕ
unfolding token_bytes
output_bytes o =
    le_bytes 8 o.value
    ++ o.script.type
      ∷ (le_bytes 4 (length o.script.bytes) ++ (o.script.bytes ++ token_bytes o.token))

unfoldable pub inputs_bytes : List Input → List ℕ
unfolding input_bytes
inputs_bytes [] = []
inputs_bytes (i ∷ is) = input_bytes i ++ inputs_bytes is

unfoldable pub outputs_bytes : List Output → List ℕ
unfolding output_bytes
outputs_bytes [] = []
outputs_bytes (o ∷ os) = output_bytes o ++ outputs_bytes os

-- Transaction.SigningBytes
unfoldable pub signing_bytes : Transaction → List ℕ
unfolding inputs_bytes outputs_bytes
signing_bytes t =
    le_bytes 4 t.version
    ++ (le_bytes 4 (length t.inputs)
        ++ (inputs_bytes t.inputs
            ++ (le_bytes 4 (length t.outputs)
                ++ (outputs_bytes t.outputs ++ le_bytes 8 t.lock_time))))

module _ ⦃c : Crypto⦄ where
  -- Transaction.Hash
  unfoldable pub tx_hash : Transaction → Hash
  unfolding signing_bytes
  tx_hash t = hash (signing_bytes t)

pub data Overflow : Type 0 where
  output_value_overflow : Overflow

-- the loop of TotalOutputValue, from a running total
unfoldable pub add_values : ℕ → List Output → Result Overflow ℕ
add_values total [] = ok total
add_values total (o ∷ os) =
    if ltb (max_u64 - o.value) total
    then err output_value_overflow
    else add_values (total + o.value) os

-- Transaction.TotalOutputValue
unfoldable pub total_output_value : Transaction → Result Overflow ℕ
unfolding add_values
total_output_value t = add_values 0 t.outputs
