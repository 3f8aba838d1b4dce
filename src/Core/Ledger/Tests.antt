-- ===== src/Core/Ledger/Tests.antt =====
-- core/blockchain.go: the block application on the sample block.
use dnas.Base.{
  ◌+◌, ◌^◌, ◌<◌, ◌≤◌, ◌≡◌, ◌≢◌, refl, List, [], ◌∷◌, none, some, arith, take, true, false, not,
  ◌||◌, is_empty, add64,
}
use dnas.Core.Tx.Sanity.{check_tx_sanity}
use dnas.Core.Tx.Auth.{verify_signature}
use dnas.Core.Tx.{NameOp, NameOpKind}
use dnas.Core.Tx.Shape.{validate_name_op}
use dnas.Core.Ledger.{Journal, get}
use dnas.Core.Ledger.Apply.Name.{NameRecord, held_at, next_record, apply_tx_to}
use dnas.Core.Ledger.Lease.{next_record_guarded}
use dnas.Core.Ledger.Replay.{apply_tx_to_once}
use dnas.Base.Str.{str_eq, codes}
use dnas.Base.Str.{str_eq_iff}
use dnas.Base.Result.{ok, err}
use dnas.Core.Params.{block_reward}
use dnas.Core.Tx.{Transaction}
use dnas.Core.Tx.Shape.{is_name_key}
use dnas.Core.Block.{Block, BlockError, block_burned, coinbase_amount}
use dnas.Core.Ledger.{State, UndoEntry}
use dnas.Core.Ledger.Block.{apply_txs_and_coinbase}
use dnas.Core.Ledger.Rollback.{IsReversible, apply_txs_and_coinbase-IsReversible}
use dnas.Core.Ledger.Coin.{total_balance, IsTx}
use dnas.Core.Ledger.Coin.Block.{IsLedger}
use dnas.Core.Ledger.Coin.Issuance.{
  apply_txs_and_coinbase-total_balance, apply_txs_and_coinbase-coinbase_amount,
  apply_txs_and_coinbase-IsLedger,
}
use dnas.Core.Ledger.Run.{run}
use dnas.Samples.{env, block, ledger, payment, alice, bob, miner, account, coinbase}

abbrev after : State
after = (alice, account 4100 4) ∷ (bob, account 4020 0) ∷ (miner, account 5_000_000_694 0) ∷ []

abbrev undo : List UndoEntry
undo =
    record { addr = alice; prev = some (account 9000 3) }
    ∷ record { addr = bob; prev = some (account 20 0) }
    ∷ record { addr = miner; prev = none }
    ∷ []

applies : apply_txs_and_coinbase env [] block ledger ≡ (ok undo, after)
unfolding run
applies = refl

-- The same block with a coinbase that claims one more is refused, and nothing is left behind.
greedy : Block
greedy = record block {
  transactions = record coinbase { amount = coinbase.amount + 1 } ∷ payment ∷ [];
}

greedy_fails :
    apply_txs_and_coinbase env [] greedy ledger ≡ (err BlockError.bad_coinbase_amount, ledger)
unfolding run greedy
greedy_fails = refl

payment-IsTx : IsTx payment
payment-IsTx = record { amount_u64 = omega arith; fee_u64 = omega arith; outputs_u64 = tt }

ledger-IsLedger : IsLedger ledger
unfolding run
ledger-IsLedger = record {
  is_map = (refl, (refl, tt));
  names_bare = λ k named. ground (arith, str_eq_iff alice k, str_eq_iff bob k);
}

plain : is_name_key miner ≡ false
unfolding run
plain = refl

ledger_room : total_balance ledger + block_reward 1 < 2 ^ 64
unfolding total_balance block_reward
ledger_room = omega arith

apply_txs_and_coinbase-IsReversible_example :
    IsReversible ledger (apply_txs_and_coinbase env [] block ledger)
apply_txs_and_coinbase-IsReversible_example =
    apply_txs_and_coinbase-IsReversible env [] block ledger ledger-IsLedger.is_map

apply_txs_and_coinbase-total_balance_example :
    total_balance after + block_burned env block ≡ total_balance ledger + block_reward 1
apply_txs_and_coinbase-total_balance_example =
    apply_txs_and_coinbase-total_balance env [] block ledger (payment-IsTx, tt) ledger-IsLedger
      ledger_room applies

apply_txs_and_coinbase-coinbase_amount_example :
    (cb : Transaction) × (block.transactions ≡ cb ∷ (payment ∷ []))
    × (cb.amount ≡ coinbase_amount env 1 (payment ∷ []) 2)
apply_txs_and_coinbase-coinbase_amount_example =
    apply_txs_and_coinbase-coinbase_amount env [] block ledger (payment-IsTx, tt) ledger-IsLedger
      ledger_room applies

apply_txs_and_coinbase-IsLedger_example : IsLedger after
apply_txs_and_coinbase-IsLedger_example =
    apply_txs_and_coinbase-IsLedger env [] block ledger (payment-IsTx, tt) (plain, tt)
      ledger-IsLedger ledger_room applies

abbrev start : Journal
start = record { state = ledger; undo = [] }

abbrev moved : Journal
moved = record { state = take 2 after; undo = take 2 undo }

payment_sane : check_tx_sanity env payment ≡ ok tt
unfolding run
payment_sane = refl

payment_applies : apply_tx_to env payment 1 0 0 start ≡ (ok tt, moved)
unfolding run
payment_applies = refl

apply_tx_to_once_example :
    (verify_signature env payment ≡ ok tt)
    × (payment.nonce ≡ (get alice ledger).nonce)
    × ((get alice after).nonce ≡ add64 3 1)
    × ((apply_tx_to env payment 2 0 0 moved).0 ≢ ok tt)
unfolding run
apply_tx_to_once_example =
    apply_tx_to_once env payment 1 0 0 start 2 0 0 payment_sane ledger-IsLedger.is_map (omega arith)
      payment_applies

-- Bob registers a name on top of it.
abbrev registration : NameOp
registration = record { op = NameOpKind.register; name = codes "shop"; target = []; periods = 2 }

abbrev free : NameRecord
free = record { owner = []; expires = 0 }

registration_valid : validate_name_op registration ≡ ok tt
unfolding run
registration_valid = refl

registered :
    next_record registration.op registration bob 7 free
    ≡ ok (record { owner = bob; expires = 200_007 })
unfolding run
registered = refl

next_record_guarded_example :
    ((not (held_at free 7) || str_eq (free.owner) bob) ≡ true)
    × ((is_empty bob || held_at (record { owner = bob; expires = 200_007 }) 7) ≡ true)
    × (200_007 ≤ 1_000_007)
next_record_guarded_example =
    next_record_guarded registration bob 7 free registration_valid refl (omega arith) (omega arith)
      registered
