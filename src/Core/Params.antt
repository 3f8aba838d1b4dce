-- ===== src/Core/Params.antt =====
-- core/params.go: consensus and monetary parameters, the subsidy, base fee and tips.
use dnas.Base.{ℕ, zero, suc, ◌*◌, ◌/◌, ◌^◌, leb, if◌then◌else◌}

abbrev pub coin : ℕ
coin = 100_000_000

abbrev pub initial_block_reward : ℕ
initial_block_reward = 50 * coin

abbrev pub halving_interval : ℕ
halving_interval = 210_000

abbrev pub coinbase_maturity : ℕ
coinbase_maturity = 3

abbrev pub max_reorg_depth : ℕ
max_reorg_depth = 100

abbrev pub max_block_txs : ℕ
max_block_txs = 1000

abbrev pub max_block_bytes : ℕ
max_block_bytes = 1_000_000

abbrev pub max_block_verify_ops : ℕ
max_block_verify_ops = 8000

abbrev pub target_block_time : ℕ
target_block_time = 60

abbrev pub max_future_drift : ℕ
max_future_drift = 120

abbrev pub max_tx_outputs : ℕ
max_tx_outputs = 64

abbrev pub max_memo_bytes : ℕ
max_memo_bytes = 256

abbrev pub max_address_bytes : ℕ
max_address_bytes = 90

abbrev pub max_coinbase_bytes : ℕ
max_coinbase_bytes = 1024

abbrev pub dust_threshold : ℕ
dust_threshold = 1000

abbrev pub initial_base_fee : ℕ
initial_base_fee = 10

abbrev pub min_base_fee : ℕ
min_base_fee = 1

abbrev pub base_fee_target_txs : ℕ
base_fee_target_txs = max_block_txs / 2

abbrev pub base_fee_max_change_denominator : ℕ
base_fee_max_change_denominator = 8

abbrev pub max_asset_supply : ℕ
max_asset_supply = 2 ^ 62

-- `x >> k`
unfoldable pub shr : ℕ → ℕ → ℕ
shr x zero = x
shr x (suc k) = shr x k / 2

unfoldable pub block_reward : ℕ → ℕ
unfolding shr
block_reward height =
    let halvings = height / halving_interval in
    if leb 64 halvings then 0 else shr initial_block_reward halvings
