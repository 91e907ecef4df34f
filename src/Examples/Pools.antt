-- ===== src/Examples/Pools.antt =====
-- The theorems on the pool at an empty pool and one transfer.
use klingnet.Prelude.{◌≡◌, refl, true, [], none, some, ok, ltb, ◌*◌, arith, nat_eq, ==_iff}
use klingnet.Prelude.Assoc.{lookup}
use klingnet.Tx.{tx_hash}
use klingnet.Mempool.{Entry, Settings, Pool, add_entry, add}
use klingnet.Mempool.Bound.{IsSound, add-IsSound}
use klingnet.Mempool.Eviction.{evict, evict-IsSound}
use klingnet.Types.{Hash}
use klingnet.Mempool.{
  check_add, has_conflict, check_maturity, check_mature_inputs, check_mature, check_token_inputs,
  has_bad_stake, make_room, rate_of, index,
}
use klingnet.Tx.Spend.{validate_with_utxos, spend_inputs, spend_input, verify_script, verify_p2pkh}
use klingnet.Tx.Validate.{validate, verify_signatures}
use klingnet.Tx.{total_output_value, signing_bytes}
use klingnet.Crypto.{verify_signature, address_from_pub_key}
use klingnet.Bytes.{be_bytes, be_number, le_bytes}
use klingnet.Token.{has_mint_output}
use klingnet.Prelude.Assoc.{insert, erase}
use klingnet.Examples.{toy, transfer, provider}

abbrev settings : Settings
settings = record {
  max_size = 1;
  min_fee_rate = 0;
  utxos = provider;
  utxo_set = none;
  height = 3;
  coinbase_maturity = 20;
  token_inputs = none;
  allow_minting = true;
  mint_fee = 0;
  stake_amount = 0;
  less_rate = λ a b. ltb (a.0 * b.1) (b.0 * a.1);
}

abbrev empty : Pool
empty = record { txs = []; spends = [] }

empty-IsSound : IsSound settings empty
unfolding lookup
empty-IsSound = record {
  indexed = λ o h. (λ there. cc, λ kept. cc);
  listed_once = tt;
  bounded = omega arith;
}

abbrev one : Pool
one = add_entry transfer 5 empty

adds : add settings empty transfer ≡ ok (one, 5)
unfolding add add_entry lookup tx_hash check_add has_conflict check_maturity check_mature_inputs
    check_mature check_token_inputs has_bad_stake make_room rate_of index validate_with_utxos
    spend_inputs spend_input verify_script verify_p2pkh validate verify_signatures
    total_output_value signing_bytes verify_signature address_from_pub_key be_bytes be_number
    le_bytes has_mint_output insert erase
adds = refl

add-IsSound_example :
    IsSound settings one
    × ((e : Entry) × (lookup (tx_hash transfer) one.txs ≡ some e) × (e.tx ≡ transfer) × (e.fee ≡ 5))
add-IsSound_example = add-IsSound settings empty one transfer 5 empty-IsSound adds

one-IsSound : IsSound settings one
one-IsSound = (add-IsSound settings empty one transfer 5 empty-IsSound adds).0

-- The same limits, for a pool that holds nothing.
abbrev closed : Settings
closed = record settings { max_size = 0 }

one-keyed : (h : Hash) (e : Entry) → lookup h one.txs ≡ some e → e.tx_hash ≡ h
unfolding add_entry insert erase lookup
one-keyed h e found = ground (arith, ==_iff (tx_hash transfer) h)

evict-IsSound_example : IsSound closed (evict closed one).0
evict-IsSound_example =
    evict-IsSound closed one one-IsSound.indexed one-IsSound.listed_once one-keyed
