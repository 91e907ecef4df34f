-- ===== src/Examples.antt =====
-- Concrete blocks, transactions and a toy hash, at which the modules below apply the theorems.
pub mod Transfers
pub mod Blocks
pub mod Schedules
pub mod Authority
pub mod Coins
pub mod Pools
pub mod Stores
pub mod Reorgs
pub mod Parents
use native.Mathlib.Nat.{mod-lt}
use klingnet.Prelude.{
  ℕ, ◌^◌, ◌%◌, ◌<◌, Bool, true, List, [], ◌∷◌, Option, none, some, bytes_equal, if◌then◌else◌,
  Result, ok, err, arith,
}
use klingnet.Bytes.{be_number}
use klingnet.Types.{Outpoint, same_outpoint, Script, script_type_p2pkh}
use klingnet.Crypto.{Crypto}
use klingnet.Tx.{Input, Output, Transaction}
use klingnet.Tx.Validate.{TxError, input_not_found}
use klingnet.Tx.Spend.{UtxoProvider}
use klingnet.Utxo.{Utxo, UtxoSet}

-- The last 32 bytes as the hash; the signature 9 is valid for every message and key.
instance abbrev pub toy : Crypto
toy = record {
  sum256 = λ d. be_number 0 d % 2 ^ 256;
  sum256-lt = λ d. mod-lt (be_number 0 d) (omega arith);
  parses_pub_key = λ k. true;
  parses_signature = λ s. true;
  schnorr_verify = λ m s k. bytes_equal s (9 ∷ []);
}

abbrev pub zeros : List ℕ
zeros = 0 ∷ 0 ∷ 0 ∷ 0 ∷ 0 ∷ 0 ∷ 0 ∷ 0 ∷ 0 ∷ 0 ∷ 0 ∷ 0 ∷ 0 ∷ 0 ∷ 0 ∷ 0 ∷ 0 ∷ 0 ∷ 0 ∷ 0 ∷ []

abbrev pub old_outpoint : Outpoint
old_outpoint = record { tx_id = 7; index = 0 }

abbrev pub to_zeros : Script
to_zeros = record { type = script_type_p2pkh; bytes = zeros }

abbrev pub pay : ℕ → Output
pay n = record { value = n; script = to_zeros; token = none }

-- 45 coins become 40 and a fee of 5.
abbrev pub transfer : Transaction
transfer = record {
  version = 1;
  inputs = record { prev_out = old_outpoint; signature = 9 ∷ []; pub_key = 5 ∷ [] } ∷ [];
  outputs = pay 40 ∷ [];
  lock_time = 3;
}

abbrev pub coinbase_tx : Transaction
coinbase_tx = record {
  version = 1;
  inputs =
      record { prev_out = record { tx_id = 0; index = 0 }; signature = 1 ∷ []; pub_key = [] } ∷ [];
  outputs = pay 55 ∷ [];
  lock_time = 4;
}

abbrev pub old_utxo : Utxo
old_utxo = record {
  outpoint = old_outpoint;
  value = 45;
  script = to_zeros;
  token = none;
  height = 1;
  coinbase = Bool.false;
  locked_until = 0;
}

abbrev pub old_set : UtxoSet
old_set = (old_outpoint, old_utxo) ∷ []

abbrev pub provider : UtxoProvider
provider = record {
  get_utxo = λ o. if same_outpoint o old_outpoint then ok (45, to_zeros) else err input_not_found;
  has_utxo = λ o. same_outpoint o old_outpoint;
}
