-- ===== src/Core/Fee/Bounds.antt =====
-- core/blockchain.go: the base fee keeps its floor, and moves by at most an eighth a block.
use dnas.Base.{ℕ, ◌+◌, ◌-◌, ◌*◌, ◌/◌, ◌^◌, ◌≤◌, ◌<◌, ◌≡◌, arith}
use native.Mathlib.Nat.{mul-le-mul_left}
use dnas.Core.Params.{min_base_fee, base_fee_target_txs, max_block_txs}
use dnas.Core.Block.{Block}
use dnas.Core.Fee.{fee_delta, fee_after}

fee_delta_bound : (base off : ℕ) → off ≤ base_fee_target_txs → fee_delta base off ≤ base / 8
unfolding fee_delta
fee_delta_bound base off h = omega (arith, mul-le-mul_left {m = off} {n = 500} base h)

fee_delta_monotone :
    (base off more : ℕ)
    → base * 500 < 2 ^ 64
    → off ≤ more
    → more ≤ base_fee_target_txs
    → fee_delta base off ≤ fee_delta base more
unfolding fee_delta
fee_delta_monotone base off more room le h = omega (
  arith,
  mul-le-mul_left {m = off} {n = more} base le,
  mul-le-mul_left {m = more} {n = 500} base h,
)

-- A block with exactly the target of transactions keeps the fee, and more transactions never make the
-- next fee lower. (The fee is at least `MinBaseFee`, there are at most `MaxBlockTxs` transactions, and
-- neither the raised fee nor 500 times the fee passes 2 ^ 64.)
pub fee_after_monotone :
    (base few many : ℕ)
    → min_base_fee ≤ base
    → base + (base / 8 + 1) < 2 ^ 64
    → base * 500 < 2 ^ 64
    → few ≤ many
    → many ≤ max_block_txs
    → (fee_after base base_fee_target_txs ≡ base) × (fee_after base few ≤ fee_after base many)
unfolding fee_after
fee_after_monotone base few many floor room wide le most = ground (
  arith,
  fee_delta_monotone base (few - 500) (many - 500) wide,
  fee_delta_monotone base (500 - many) (500 - few) wide,
  fee_delta_bound base (many - 500),
  fee_delta_bound base (500 - few),
)
