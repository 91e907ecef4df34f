-- ===== src/Config.antt =====
-- config/genesis.go: the protocol's constants and the subsidy schedule.
pub mod Subsidy
use klingnet.Prelude.{ℕ, ◌-◌, ◌*◌, ◌/◌, ◌^◌, Bool, ◌||◌, leb, ◌==◌, if◌then◌else◌, max_u64}

abbrev pub coin : ℕ
coin = 1_000_000_000_000

abbrev pub coinbase_maturity : ℕ
coinbase_maturity = 20

abbrev pub unstake_cooldown : ℕ
unstake_cooldown = 20

abbrev pub token_creation_fee : ℕ
token_creation_fee = 50 * coin

abbrev pub max_token_amount : ℕ
max_token_amount = max_u64 / 1000

abbrev pub max_block_size : ℕ
max_block_size = 2_000_000

abbrev pub max_block_txs : ℕ
max_block_txs = 500

abbrev pub max_tx_inputs : ℕ
max_tx_inputs = 2500

abbrev pub max_tx_outputs : ℕ
max_tx_outputs = 2500

abbrev pub max_script_data : ℕ
max_script_data = 65_536

-- ConsensusRules.BlockSubsidy, over the rules' block reward and halving interval; `>>` is a
-- division by a power of two
unfoldable pub block_subsidy : ℕ → ℕ → ℕ → ℕ
block_subsidy block_reward halving_interval height =
    if height == 0 || block_reward == 0
    then 0
    else if halving_interval == 0
    then block_reward
    else let halvings = (height - 1) / halving_interval in
      if leb 64 halvings then 0 else block_reward / 2 ^ halvings
