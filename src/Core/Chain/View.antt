-- ===== src/Core/Chain/View.antt =====
-- core/blockchain.go, core/name.go: what the chain answers to the mempool. The chain is its blocks and
-- its state; a chain has a genesis block at least.
use dnas.Base.{ℕ, ◌-◌, leb, if◌then◌else◌, Option, none, some, or_zero, List, length}
use dnas.Base.Str.{Str}
use dnas.Core.Block.{Block, immature_coinbase}
use dnas.Core.Chain.Rules.{last_of}
use dnas.Core.Fee.{expected_base_fee}
use dnas.Core.Ledger.{Account, State, get}
use dnas.Core.Ledger.Apply.Name.{NameRecord, name_record_of}
use dnas.Core.Tx.Shape.{name_state_key}

pub record View : Type 0 where
  pub blocks : List Block
  pub state : State

unfoldable pub account_at : View → Str → Account
account_at view addr = get addr view.state

-- `SpendableBalance`
unfoldable pub spendable_balance_at : View → Str → ℕ
unfolding immature_coinbase
spendable_balance_at view addr =
    let balance = (get addr view.state).balance in
    let immature = immature_coinbase view.blocks (length view.blocks) addr in
    if leb balance immature then 0 else balance - immature

abbrev index_of : Option Block → ℕ
index_of none = 0
index_of (some b) = b.index

unfoldable pub tip_height_of : View → ℕ
tip_height_of view = index_of (last_of view.blocks)

-- `NextBaseFee`
unfoldable pub next_base_fee_of : View → ℕ
unfolding expected_base_fee
next_base_fee_of view = or_zero (expected_base_fee view.blocks (length view.blocks))

-- `LookupName`, without the answer whether the name is held at the tip.
unfoldable pub lookup_name : View → Str → NameRecord
lookup_name view name = name_record_of (get (name_state_key name) view.state)
