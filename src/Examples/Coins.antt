-- ===== src/Examples/Coins.antt =====
-- The theorems on coin selection at two coins.
use klingnet.Prelude.{ℕ, ◌≡◌, refl, List, [], ◌∷◌, none, ok, arith}
use klingnet.Wallet.{Coin, CoinSelection, select_coins}
use klingnet.Wallet.Selection.{IsFunded, select_coins-IsFunded, select_coins_succeeds}
use klingnet.Examples.{old_outpoint, to_zeros}

abbrev coin_of : ℕ → Coin
coin_of n = record { outpoint = old_outpoint; value = n; script = to_zeros; token = none }

abbrev purse : List Coin
purse = coin_of 5 ∷ coin_of 8 ∷ []

-- 13 of 10: both coins, the larger one first.
abbrev both : CoinSelection
both = record { inputs = coin_of 8 ∷ coin_of 5 ∷ []; total = 13; change = 3 }

selected : select_coins purse 10 ≡ ok both
unfolding select_coins klingnet.Wallet.with_value klingnet.Wallet.pick klingnet.Wallet.single_coin
    klingnet.Wallet.sort_coins klingnet.Wallet.insert_coin klingnet.Wallet.accumulate
    klingnet.Wallet.reverse_coins klingnet.Wallet.add_coin
selected = refl

select_coins-IsFunded_example : IsFunded purse 10 both
select_coins-IsFunded_example = select_coins-IsFunded purse 10 both (omega arith) selected

select_coins_succeeds_example : (s : CoinSelection) × (select_coins purse 10 ≡ ok s)
select_coins_succeeds_example =
    select_coins_succeeds purse 10 (omega arith) (omega arith) (omega arith)
