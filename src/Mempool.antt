-- ===== src/Mempool.antt =====
-- internal/mempool/pool.go: the pool of transactions that wait for a block.
pub mod Index
pub mod Bound
pub mod Eviction
pub mod Policy
use klingnet.Prelude.{
  ℕ, ◌+◌, ◌-◌, ◌*◌, ◌%◌, ◌^◌, Bool, true, false, not, ◌&&◌, ◌||◌, List, [], ◌∷◌, Option, none, some,
  length, ltb, leb, ◌==◌, if◌then◌else◌, Result, ok, err, ◌>>=◌, ◌>>◌, reject_if, wrap, nat_eq,
}
use klingnet.Prelude.Assoc.{Assoc, lookup, insert, erase, is_some}
use klingnet.Prelude.Int.{sub_u64}
use klingnet.Types.{Hash, Outpoint, outpoint_eq, is_zero, script_type_stake}
use klingnet.Crypto.{Crypto}
use klingnet.Tx.{Input, Output, Transaction, signing_bytes, tx_hash}
use klingnet.Tx.Validate.{TxError}
use klingnet.Tx.Spend.{UtxoProvider, validate_with_utxos}
use klingnet.Token.{TokenError, InputTokens, has_mint_output, validate_tokens}
use klingnet.Utxo.{Utxo, UtxoSet, get}

pub data PoolError : Type 0 where
  already_exists conflict pool_full fee_too_low coinbase_not_mature output_locked : PoolError
  minting_disabled bad_stake : PoolError
  bad_tx : TxError → PoolError
  bad_token : TokenError → PoolError

-- entry; its fee rate is the quotient of its fee and the length of its signing bytes
pub record Entry : Type 0 where
  pub tx : Transaction
  pub tx_hash : Hash
  pub fee : ℕ

-- The settings of a Pool, with the set and the height that its checks of maturity read.
-- `less_rate` compares two fee rates, each a fee and a count of bytes, as the float64 quotients.
pub record Settings : Type 0 where
  pub max_size : ℕ
  pub min_fee_rate : ℕ
  pub utxos : UtxoProvider
  pub utxo_set : Option UtxoSet
  pub height : ℕ
  pub coinbase_maturity : ℕ
  pub token_inputs : Option InputTokens
  pub allow_minting : Bool
  pub mint_fee : ℕ
  pub stake_amount : ℕ
  pub less_rate : ℕ × ℕ → ℕ × ℕ → Bool

-- The entries by hash, and the index of what they spend.
pub record Pool : Type 0 where
  pub txs : Assoc Hash Entry
  pub spends : Assoc Outpoint Hash

-- the loop that looks for a conflict
unfoldable pub has_conflict : Assoc Outpoint Hash → List Input → Bool
has_conflict spends [] = false
has_conflict spends (i ∷ is) =
    let rest = has_conflict spends is in
    if is_zero i.prev_out then rest else is_some (lookup i.prev_out spends) || rest

unfoldable pub check_mature : ℕ → ℕ → Option Utxo → Result PoolError (Unit {0})
check_mature maturity height none = ok tt
check_mature maturity height (some u) =
    if u.coinbase && ltb (sub_u64 height u.height) maturity
    then err coinbase_not_mature
    else if ltb 0 u.locked_until && ltb height u.locked_until
    then err output_locked
    else ok tt

unfoldable pub check_mature_inputs : ℕ → ℕ → UtxoSet → List Input → Result PoolError (Unit {0})
check_mature_inputs maturity height s [] = ok tt
check_mature_inputs maturity height s (i ∷ is) =
    (if is_zero i.prev_out then ok tt else check_mature maturity height (get i.prev_out s))
    >> check_mature_inputs maturity height s is

unfoldable pub check_maturity : ℕ → ℕ → Option UtxoSet → List Input → Result PoolError (Unit {0})
check_maturity maturity height none is = ok tt
check_maturity maturity height (some s) is =
    if maturity == 0 then ok tt else check_mature_inputs maturity height s is

unfoldable pub has_bad_stake : ℕ → List Output → Bool
has_bad_stake amount [] = false
has_bad_stake amount (o ∷ os) =
    (o.script.type == script_type_stake && not (o.value == amount)) || has_bad_stake amount os

-- the two loops over the inputs that write the index
unfoldable pub unindex : List Input → Assoc Outpoint Hash → Assoc Outpoint Hash
unindex [] spends = spends
unindex (i ∷ is) spends =
    unindex is (if is_zero i.prev_out then spends else erase i.prev_out spends)

unfoldable pub index : Hash → List Input → Assoc Outpoint Hash → Assoc Outpoint Hash
index h [] spends = spends
index h (i ∷ is) spends =
    index h is (if is_zero i.prev_out then spends else insert i.prev_out h spends)

unfoldable pub remove_entry : Hash → Option Entry → Pool → Pool
remove_entry h none p = p
remove_entry h (some e) p = record { txs = erase h p.txs; spends = unindex e.tx.inputs p.spends }

-- removeLocked
unfoldable pub remove : Hash → Pool → Pool
remove h p = remove_entry h (lookup h p.txs) p

-- the fee and the bytes of an entry, whose quotient is its rate
unfoldable pub rate_of : Entry → ℕ × ℕ
rate_of e = (e.fee, length (signing_bytes e.tx))

unfoldable pub lower :
    (ℕ × ℕ → ℕ × ℕ → Bool) → Hash → Entry → Option (Hash × Entry) → Option (Hash × Entry)
lower less h e none = some (h, e)
lower less h e (some best) = if less (rate_of e) (rate_of best.1) then some (h, e) else some best

-- findLowestFeeRate from a lowest entry on; `none` is math.MaxFloat64, which every rate is below
unfoldable pub find_lowest :
    (ℕ × ℕ → ℕ × ℕ → Bool) → Option (Hash × Entry) → Assoc Hash Entry → Option (Hash × Entry)
find_lowest less best [] = best
find_lowest less best ((h, e) ∷ m) = find_lowest less (lower less h e best) m

-- makes room for a transaction of that rate
unfoldable pub evict_for :
    (ℕ × ℕ → ℕ × ℕ → Bool) → ℕ × ℕ → Option (Hash × Entry) → Pool → Result PoolError Pool
evict_for less rate none p = err pool_full
evict_for less rate (some lowest) p =
    if less (rate_of lowest.1) rate then ok (remove lowest.0 p) else err pool_full

unfoldable pub make_room : Settings → ℕ × ℕ → Pool → Result PoolError Pool
make_room s rate p =
    if ltb (length p.txs) s.max_size
    then ok p
    else evict_for s.less_rate rate (find_lowest s.less_rate none p.txs) p

module _ ⦃c : Crypto⦄ where
  unfoldable pub check_token_inputs : Option InputTokens → Transaction → Result PoolError (Unit {0})
  check_token_inputs none t = ok tt
  check_token_inputs (some tokens) t = wrap bad_token (validate_tokens t tokens)

  -- the checks of Add before the pool changes: the fee
  unfoldable pub check_add : Settings → Pool → Transaction → Result PoolError ℕ
  check_add s p t = do
    reject_if (is_some (lookup (tx_hash t) p.txs)) already_exists
    reject_if (has_conflict p.spends t.inputs) conflict
    check_maturity s.coinbase_maturity s.height s.utxo_set t.inputs
    fee ← wrap bad_tx (validate_with_utxos s.utxos t)
    let has_mint = has_mint_output t.outputs
    reject_if (has_mint && not s.allow_minting) minting_disabled
    check_token_inputs s.token_inputs t
    reject_if (ltb 0 s.mint_fee && (ltb fee s.mint_fee && has_mint)) fee_too_low
    reject_if (ltb 0 s.stake_amount && has_bad_stake s.stake_amount t.outputs) bad_stake
    reject_if (ltb 0 s.min_fee_rate && ltb fee (s.min_fee_rate * length (signing_bytes t) % 2 ^ 64))
        fee_too_low
    ok fee

  unfoldable pub add_entry : Transaction → ℕ → Pool → Pool
  add_entry t fee p = record {
    txs = insert (tx_hash t) (record { tx = t; tx_hash = tx_hash t; fee = fee }) p.txs;
    spends = index (tx_hash t) t.inputs p.spends;
  }

  -- Add: the new pool, and the fee that it returns
  unfoldable pub add : Settings → Pool → Transaction → Result PoolError (Pool × ℕ)
  add s p t = do
    fee ← check_add s p t
    room ← make_room s (fee, length (signing_bytes t)) p
    ok (add_entry t fee room, fee)

  -- RemoveConfirmed
  unfoldable pub remove_confirmed : List Transaction → Pool → Pool
  remove_confirmed [] p = p
  remove_confirmed (t ∷ ts) p = remove_confirmed ts (remove (tx_hash t) p)
