-- ===== src/Core/Ledger/Apply.antt =====
-- core/blockchain.go: `applyTxTo` and the operations that it dispatches to; the name operations are in
-- the child Name. `reserve` and `payer_reserve` are the immature coinbase of sender and sponsor.
pub mod Name
use dnas.Base.{
  ℕ, ◌+◌, ◌-◌, ◌*◌, ◌%◌, ◌^◌, ltb, leb, ◌==◌, if◌then◌else◌, Bool, true, false, not, ◌&&◌, ◌||◌,
  Option, none, some, List, [], ◌∷◌, is_empty, add64, sub64, mul64, ⊤,
}
use dnas.Base.Str.{Str, str_eq}
use dnas.Base.Result.{Result, ok, err, fail_if, or_fail}
use dnas.Core.Params.{max_asset_supply}
use dnas.Core.Tx.{
  Output, AssetIssue, AssetOp, AssetOpKind, NameOp, NameOpKind, Transaction, is_sponsored,
  is_asset_transfer, is_non_fungible, total_out, recipients, sender_fee,
}
use dnas.Core.Tx.Errors.{TxError}
use dnas.Core.Tx.Shape.{
  Check, name_state_key, name_lease_period, lease_periods, validate_name_op, validate_asset_op,
  check_issuance,
}
use dnas.Core.Env.{Env}
use dnas.Core.Tx.Auth.{issued_asset_id, authorized_by, verify_signature}
use dnas.Core.Ledger.{
  Account, zero_account, holding, with_asset_delta, State, get, Journal, Action, ◌>>=◌, ◌>>◌,
  raise_if, checked, pure, read, set,
}

-- The debit of the sender: the nonce moves on.
abbrev pub debited : ℕ → Account → Account
debited total a = record a { balance = a.balance - total; nonce = add64 a.nonce 1 }

-- The checks that every operation makes of its sender: nonce, overflow, spendable balance.
unfoldable pub spendable : Transaction → ℕ → ℕ → Action Account
spendable tx total reserve = do
  sender ← read tx.from
  raise_if (not (tx.nonce == sender.nonce)) TxError.bad_nonce
  raise_if (ltb (add64 total reserve) total) TxError.reserve_overflow
  raise_if (ltb sender.balance (add64 total reserve)) TxError.insufficient_balance
  pure sender

unfoldable pub charge_sponsor : Transaction → ℕ → Action ⊤
charge_sponsor tx reserve =
    if not (is_sponsored tx)
    then pure tt
    else (read tx.fee_payer >>= λ payer.
        raise_if (ltb (add64 tx.fee reserve) tx.fee) TxError.reserve_overflow
        >> raise_if (ltb payer.balance (add64 tx.fee reserve)) TxError.sponsor_cannot_cover
        >> set tx.fee_payer (record payer { balance = payer.balance - tx.fee }))

-- Each recipient in turn; the state is read back every time.
unfoldable pub credit : Output → Action ⊤
credit o = do
  recip ← read o.to
  raise_if (ltb (add64 recip.balance o.amount) recip.balance) TxError.recipient_balance_overflow
  set o.to (record recip { balance = add64 recip.balance o.amount })

unfoldable pub credit_all : List Output → Action ⊤
credit_all [] = pure tt
credit_all (o ∷ os) = credit o >> credit_all os

-- The coin transfer at the end of `applyTxTo`, from the sum of the outputs on.
unfoldable pub move_coin : Transaction → ℕ → ℕ → ℕ → Action ⊤
unfolding sender_fee recipients
move_coin tx out reserve payer_reserve = do
  raise_if (out == 0 && tx.fee == 0) TxError.empty_transfer
  raise_if (ltb (add64 out (sender_fee tx)) out) TxError.amount_fee_overflow
  sender ← spendable tx (add64 out (sender_fee tx)) reserve
  set tx.from (debited (add64 out (sender_fee tx)) sender)
  charge_sponsor tx payer_reserve
  credit_all (recipients tx)

unfoldable pub apply_transfer : Transaction → ℕ → ℕ → Action ⊤
unfolding total_out move_coin
apply_transfer tx reserve payer_reserve =
    checked (or_fail (total_out tx) TxError.outputs_overflow) >>= λ out.
    move_coin tx out reserve payer_reserve

module _ (env : Env) where
  unfoldable pub apply_issue : Transaction → AssetIssue → ℕ → ℕ → Action ⊤
  unfolding check_issuance sender_fee with_asset_delta issued_asset_id
  apply_issue tx i reserve payer_reserve = do
    checked (check_issuance i)
    sender ← spendable tx (sender_fee tx) reserve
    set tx.from (
        with_asset_delta (issued_asset_id env tx.from tx.nonce i) i.supply
          (debited (sender_fee tx) sender))
    charge_sponsor tx payer_reserve

  -- The `switch op.Op` of `applyAssetOp`: the 64 bits of the delta.
  unfoldable pub asset_op_delta : AssetOpKind → ℕ → ℕ → Result TxError ℕ
  asset_op_delta AssetOpKind.mint held amount =
      if ltb (add64 held amount) held || ltb max_asset_supply (add64 held amount)
      then err TxError.past_supply_cap
      else ok amount
  asset_op_delta AssetOpKind.burn held amount =
      if ltb held amount then err TxError.burn_more_than_held else ok (sub64 0 amount)
  asset_op_delta (AssetOpKind.unknown _) held amount = err TxError.unknown_asset_operation

  unfoldable pub apply_asset_op : Transaction → AssetOp → ℕ → ℕ → Action ⊤
  unfolding validate_asset_op authorized_by sender_fee asset_op_delta with_asset_delta
  apply_asset_op tx o reserve payer_reserve = do
    checked (validate_asset_op o)
    raise_if (not (authorized_by env o tx.from tx.asset_id)) TxError.not_the_issuer
    sender ← spendable tx (sender_fee tx) reserve
    delta ← checked (asset_op_delta o.op (holding tx.asset_id sender) o.amount)
    set tx.from (with_asset_delta tx.asset_id delta (debited (sender_fee tx) sender))
    charge_sponsor tx payer_reserve

unfoldable pub apply_asset_transfer : Transaction → ℕ → ℕ → Action ⊤
unfolding sender_fee with_asset_delta
apply_asset_transfer tx reserve payer_reserve = do
  raise_if (tx.amount == 0) TxError.empty_asset_transfer
  sender ← spendable tx (sender_fee tx) reserve
  raise_if (ltb (holding tx.asset_id sender) tx.amount) TxError.insufficient_asset
  set tx.from (with_asset_delta tx.asset_id (sub64 0 tx.amount) (debited (sender_fee tx) sender))
  charge_sponsor tx payer_reserve
  recip ← read tx.to
  set tx.to (with_asset_delta tx.asset_id tx.amount recip)
