-- ===== src/Consensus/Stake.antt =====
-- internal/consensus/stake.go
use klingnet.Prelude.{
  ℕ, ◌+◌, ◌-◌, ◌≤◌, ◌≡◌, ◌↔◌, ap, Bool, true, List, [], ◌∷◌, ltb, leb, if◌then◌else◌, max_u64,
  Result, ok, err, arith, length, inl, inr, bytes_eq,
}
use klingnet.Utxo.{Utxo}
use klingnet.Utxo.Store.{StoreError, UtxoCodec, get_stakes}
use klingnet.Utxo.Owners.{by_stake}
use klingnet.Utxo.Indexed.{IsIndexed}
use klingnet.Utxo.Scan.{IsAllOwned, get_stakes-IsAllOwned}
use klingnet.Utxo.Distinct.{IsDistinct, get_stakes-IsDistinct}
use klingnet.Storage.{Db}
use klingnet.Prelude.Assoc.{IsMap}

-- the loop over the stakes; an overflow answers true
unfoldable pub reaches_stake : ℕ → ℕ → List Utxo → Bool
reaches_stake min_stake total [] = leb min_stake total
reaches_stake min_stake total (u ∷ us) =
    if ltb (max_u64 - u.value) total then true else reaches_stake min_stake (total + u.value) us

unfoldable pub check_stakes : ℕ → Result StoreError (List Utxo) → Result StoreError Bool
check_stakes min_stake (err e) = err e
check_stakes min_stake (ok us) = ok (reaches_stake min_stake 0 us)

-- UTXOStakeChecker.HasStake
unfoldable pub has_stake :
    {S : Type 0} ⦃db : Db S⦄ ⦃json : UtxoCodec⦄ → ℕ → List ℕ → S → Result StoreError Bool
has_stake min_stake pub_key s = check_stakes min_stake (get_stakes pub_key s)

abbrev pub sum_values : List Utxo → ℕ
sum_values [] = 0
sum_values (u ∷ us) = u.value + sum_values us

reaches_stake_iff :
    (min_stake total : ℕ) (us : List Utxo)
    → min_stake ≤ max_u64
    → (reaches_stake min_stake total us ≡ true) ↔ (min_stake ≤ total + sum_values us)
unfolding reaches_stake
reaches_stake_iff min_stake total [] small = ground arith
reaches_stake_iff min_stake total (u ∷ us) small =
    ground (arith, reaches_stake_iff min_stake (total + u.value) us small)

from_zero :
    (min_stake : ℕ) (us : List Utxo)
    → min_stake ≤ max_u64
    → (reaches_stake min_stake 0 us ≡ true) ↔ (min_stake ≤ sum_values us)
from_zero min_stake us small =
    let loop = reaches_stake_iff min_stake 0 us small in
    (λ e. omega (arith, loop.0 e), λ enough. loop.1 (omega (arith, enough)))

-- Let the store be indexed by stakes, let its database visit no key of the key's stakes twice, and
-- let the minimum be a uint64. For a key of 33 bytes GetStakes returns a list without repetitions
-- of the unspent stakes that the key locks: no others, and all those of the outpoints that have the
-- widths of the Go type. HasStake returns no error, and it answers true exactly if the values of
-- that list sum to the minimum at least.
pub has_stake_iff :
    {S : Type 0} ⦃db : Db S⦄ ⦃json : UtxoCodec⦄ (min_stake : ℕ) (pub_key : List ℕ) (s : S)
    → IsIndexed by_stake s
    → IsMap (db.scan (107 ∷ 47 ∷ pub_key) s)
    → length pub_key ≡ 33
    → min_stake ≤ max_u64
    → (us : List Utxo) × (answer : Bool) × (get_stakes pub_key s ≡ ok us)
      × (IsAllOwned by_stake pub_key s us × IsDistinct us)
      × (has_stake min_stake pub_key s ≡ ok answer)
      × ((answer ≡ true) ↔ (min_stake ≤ sum_values us))
unfolding has_stake check_stakes
has_stake_iff min_stake pub_key s indexed once width small =
    elim (get_stakes-IsAllOwned pub_key s indexed) [
      | inl (w, (us, loads, all)) ↦ (
        us,
        reaches_stake min_stake 0 us,
        loads,
        (all, get_stakes-IsDistinct pub_key s us indexed width once loads),
        ap (check_stakes min_stake) loads,
        from_zero min_stake us small,
      )
      | inr (other, failure) ↦ absurd (other width)
    ]
