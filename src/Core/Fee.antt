-- ===== src/Core/Fee.antt =====
-- core/blockchain.go: `expectedBaseFee`, the base fee that a block must commit to.
pub mod Bounds
use dnas.Base.{
  ℕ, ◌+◌, ◌-◌, ◌*◌, ◌/◌, ltb, leb, ◌==◌, ◌||◌, if◌then◌else◌, Option, none, some, List, [], ◌∷◌,
  get_elem?, length, add64, mul64,
}
use dnas.Core.Params.{
  initial_base_fee, min_base_fee, base_fee_target_txs, base_fee_max_change_denominator,
}
use dnas.Core.Tx.{Transaction}
use dnas.Core.Block.{Block}

-- How far the fee moves when the parent is `off` transactions away from the target.
unfoldable pub fee_delta : ℕ → ℕ → ℕ
fee_delta base off = mul64 base off / base_fee_target_txs / base_fee_max_change_denominator

abbrev pub at_least : ℕ → ℕ → ℕ
at_least least n = if ltb n least then least else n

-- The transactions of the parent that count: all but the coinbase.
unfoldable pub parent_txs : Block → ℕ
parent_txs b = length b.transactions - 1

unfoldable pub fee_after : ℕ → ℕ → ℕ
unfolding fee_delta
fee_after base txs =
    if txs == base_fee_target_txs
    then base
    else if ltb base_fee_target_txs txs
    then add64 base (at_least 1 (fee_delta base (txs - base_fee_target_txs)))
    else if leb base (fee_delta base (base_fee_target_txs - txs))
        || ltb (base - fee_delta base (base_fee_target_txs - txs)) min_base_fee
    then min_base_fee
    else base - fee_delta base (base_fee_target_txs - txs)

unfoldable pub next_base_fee : Block → ℕ
unfolding fee_after parent_txs
next_base_fee parent = fee_after (at_least min_base_fee parent.base_fee) (parent_txs parent)

abbrev from_parent : Option Block → Option ℕ
unfolding next_base_fee
from_parent none = none
from_parent (some parent) = some (next_base_fee parent)

-- `expectedBaseFee`: `none` where the index is out of range.
unfoldable pub expected_base_fee : List Block → ℕ → Option ℕ
unfolding next_base_fee
expected_base_fee blocks height =
    if height == 0 then some initial_base_fee else from_parent (get_elem? blocks (height - 1))
