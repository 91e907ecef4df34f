-- ===== src/Mempool/Policy.antt =====
-- internal/mempool/policy.go, what a node takes into its pool, and what SelectForBlock of pool.go
-- takes out of it.
use klingnet.Prelude.{
  ℕ, ◌≤◌, ◌<◌, ◌≡◌, ◌↔◌, ◌&&◌, List, [], ◌∷◌, All, length, take, map, ltb, arith, if◌then◌else◌,
  Result, ok, err, ◌>>◌, reject_if,
}
use klingnet.Config.{max_tx_inputs, max_tx_outputs, max_script_data}
use klingnet.Crypto.{Crypto}
use klingnet.Tx.{Output, Transaction, signing_bytes}
use klingnet.Mempool.{Settings, Pool}
use klingnet.Mempool.Eviction.{sort_by_rate}

pub data PolicyError : Type 0 where
  tx_too_large too_many_inputs too_many_outputs script_too_large : PolicyError

-- DefaultMaxTxSize
abbrev pub default_max_tx_size : ℕ
default_max_tx_size = 100000

-- the loop over the outputs
unfoldable pub check_scripts : List Output → Result PolicyError (Unit {0})
check_scripts [] = ok tt
check_scripts (o ∷ os) =
    let rest = check_scripts os in
    if ltb max_script_data (length o.script.bytes) then err script_too_large else rest

-- SelectForBlock: the highest rates first
unfoldable pub select_for_block : Settings → ℕ → Pool → List Transaction
select_for_block s limit p =
    let entries = sort_by_rate (λ a b. s.less_rate b a) (map (λ x. x.1) p.txs) in
    map (λ e. e.tx) (take limit entries)

check_scripts_iff :
    (os : List Output)
    → (check_scripts os ≡ ok tt) ↔ All (λ o. length o.script.bytes ≤ max_script_data) os
unfolding check_scripts
check_scripts_iff [] = ground arith
check_scripts_iff (o ∷ os) = ground (arith, check_scripts_iff os)

module _ ⦃c : Crypto⦄ where
  -- Policy.Check, where no limit is the limit 0
  unfoldable pub check : ℕ → Transaction → Result PolicyError (Unit {0})
  check max_tx_size t = do
    reject_if (ltb 0 max_tx_size && ltb max_tx_size (length (signing_bytes t))) tx_too_large
    reject_if (ltb max_tx_inputs (length t.inputs)) too_many_inputs
    reject_if (ltb max_tx_outputs (length t.outputs)) too_many_outputs
    check_scripts t.outputs

  -- A transaction passes the policy exactly if it is within every limit.
  check_iff :
      (max : ℕ) (t : Transaction)
      → (check max t ≡ ok tt) ↔ (
          (0 < max → length (signing_bytes t) ≤ max)
          × (length t.inputs ≤ max_tx_inputs)
          × (length t.outputs ≤ max_tx_outputs)
          × All (λ o. length o.script.bytes ≤ max_script_data) t.outputs)
  unfolding check
  check_iff max t = ground (arith, check_scripts_iff t.outputs)
