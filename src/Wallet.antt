-- ===== src/Wallet.antt =====
-- internal/wallet/coinselect.go: the choice of the outputs that fund a payment.
pub mod Selection
use klingnet.Prelude.{
  ℕ, ◌+◌, ◌-◌, ◌%◌, ◌^◌, Bool, List, [], ◌∷◌, ◌++◌, Option, none, some, length, ltb, leb, ◌==◌,
  if◌then◌else◌, Result, ok, err,
}
use klingnet.Types.{Outpoint, Script, TokenData}

pub data SelectionError : Type 0 where
  insufficient_funds no_utxos zero_target : SelectionError

-- UTXO of the wallet
pub record Coin : Type 0 where
  pub outpoint : Outpoint
  pub value : ℕ
  pub script : Script
  pub token : Option TokenData

pub record CoinSelection : Type 0 where
  pub inputs : List Coin
  pub total : ℕ
  pub change : ℕ

-- the loop that keeps the coins with a value
unfoldable pub with_value : List Coin → List Coin
with_value [] = []
with_value (u ∷ us) = let rest = with_value us in if ltb 0 u.value then u ∷ rest else rest

-- sort.Slice by value, ascending; the order of equal values is one that it may give
unfoldable pub insert_coin : Coin → List Coin → List Coin
insert_coin u [] = u ∷ []
insert_coin u (v ∷ vs) =
    let rest = insert_coin u vs in if ltb v.value u.value then v ∷ rest else u ∷ v ∷ vs

unfoldable pub sort_coins : List Coin → List Coin
sort_coins [] = []
sort_coins (u ∷ us) = insert_coin u (sort_coins us)

-- strategy 1: the first coin of the ascending list that covers the target
unfoldable pub single_coin : ℕ → List Coin → Option CoinSelection
single_coin target [] = none
single_coin target (u ∷ us) =
    if leb target u.value
    then some (record { inputs = u ∷ []; total = u.value; change = u.value - target })
    else single_coin target us

unfoldable pub reverse_coins : List Coin → List Coin
reverse_coins [] = []
reverse_coins (u ∷ us) = reverse_coins us ++ u ∷ []

-- one more coin in front of what the rest of the loop selects
unfoldable pub add_coin : Coin → Option CoinSelection → Option CoinSelection
add_coin u none = none
add_coin u (some s) = some (record s { inputs = u ∷ s.inputs })

-- strategy 2: the loop from the largest coin on, from a running total, which wraps
unfoldable pub accumulate : ℕ → ℕ → List Coin → Option CoinSelection
accumulate target total [] = none
accumulate target total (u ∷ us) =
    let sum = (total + u.value) % 2 ^ 64 in
    let rest = accumulate target sum us in
    if leb target sum
    then some (record { inputs = u ∷ []; total = sum; change = sum - target })
    else add_coin u rest

-- the final switch
unfoldable pub pick :
    Option CoinSelection → Option CoinSelection → Result SelectionError CoinSelection
pick none none = err insufficient_funds
pick none (some a) = ok a
pick (some s) none = ok s
pick (some s) (some a) = if leb s.change a.change then ok s else ok a

-- SelectCoins
unfoldable pub select_coins : List Coin → ℕ → Result SelectionError CoinSelection
select_coins utxos target =
    if length utxos == 0
    then err no_utxos
    else if target == 0
    then err zero_target
    else let candidates = sort_coins (with_value utxos) in
      if length (with_value utxos) == 0
      then err no_utxos
      else pick (single_coin target candidates) (accumulate target 0 (reverse_coins candidates))
