-- ===== src/Core/Tx/Sanity.antt =====
-- core/transaction.go: `CheckTxSanity`, the rules about a transaction alone.
use dnas.Base.{
  ltb, ◌==◌, if◌then◌else◌, not, ◌&&◌, ◌||◌, Option, none, some, is_some, List, [], ◌∷◌, is_empty,
  length, add64,
}
use dnas.Base.Result.{ok, ◌>>=◌, ◌>>◌, fail_if, or_fail}
use dnas.Core.Params.{max_tx_outputs, max_memo_bytes, max_address_bytes, max_asset_supply}
use dnas.Core.Tx.{
  Output, AssetIssue, AssetOp, NameOp, Transaction, is_coinbase, is_multi_output, is_name_op,
  is_asset_transfer, total_out,
}
use dnas.Core.Tx.Errors.{TxError}
use dnas.Core.Tx.Shape.{
  Check, is_name_key, validate_name_op, validate_asset_op, valid_ticker, check_auth_shape,
}
use dnas.Core.Env.{Env}
use dnas.Core.Tx.Auth.{authorized_by}

unfoldable pub check_output_list : List Output → Check
check_output_list [] = ok tt
check_output_list (o ∷ os) =
    fail_if (is_empty o.to) TxError.output_without_recipient
    >> fail_if (ltb max_address_bytes (length o.to)) TxError.output_recipient_too_long
    >> fail_if (o.amount == 0) TxError.output_pays_nothing
    >> check_output_list os

unfoldable pub check_outputs : Transaction → Check
unfolding check_output_list total_out
check_outputs tx = do
  fail_if (ltb max_tx_outputs (length tx.outputs)) TxError.too_many_outputs
  fail_if (not (is_empty tx.to) || not (tx.amount == 0)) TxError.multi_output_sets_to_amount
  fail_if (not (is_empty tx.asset_id) || is_some tx.issue) TxError.multi_output_with_asset
  check_output_list tx.outputs
  total ← or_fail (total_out tx) TxError.outputs_overflow
  fail_if (ltb (add64 total tx.fee) total) TxError.outputs_fee_overflow

unfoldable pub no_name_keys : List Output → Check
no_name_keys [] = ok tt
no_name_keys (o ∷ os) = fail_if (is_name_key o.to) TxError.address_is_name_key >> no_name_keys os

-- The block about a name operation.
unfoldable pub check_name_shape : Transaction → Option NameOp → Check
unfolding validate_name_op
check_name_shape tx none = ok tt
check_name_shape tx (some n) = do
  validate_name_op n
  fail_if
      (not (tx.amount == 0)
        || not (is_empty tx.asset_id)
        || is_some tx.issue
        || is_some tx.asset_op
        || not (is_empty tx.outputs))
      TxError.name_op_moves_value

unfoldable pub check_issue_shape : Transaction → AssetIssue → Check
unfolding valid_ticker
check_issue_shape tx i = do
  fail_if (not (is_empty tx.asset_id)) TxError.issuance_with_asset_id
  valid_ticker i.ticker
  fail_if (i.supply == 0 || ltb max_asset_supply i.supply) TxError.asset_supply_range

unfoldable pub check_transfer_shape : Transaction → Check
check_transfer_shape tx =
    if is_name_op tx
    then ok tt
    else if is_asset_transfer tx
    then fail_if (is_empty tx.to) TxError.asset_transfer_without_recipient
      >> fail_if (tx.amount == 0) TxError.empty_asset_transfer
    else (fail_if (is_empty tx.to) TxError.transfer_without_recipient
        >> fail_if (tx.amount == 0 && tx.fee == 0) TxError.empty_transfer
        >> fail_if (ltb (add64 tx.amount tx.fee) tx.amount) TxError.amount_fee_overflow)

module _ (env : Env) where
  unfoldable pub check_asset_op_shape : Transaction → AssetOp → Check
  unfolding validate_asset_op authorized_by
  check_asset_op_shape tx o = do
    fail_if (is_empty tx.asset_id) TxError.asset_op_without_asset
    fail_if (is_some tx.issue) TxError.asset_op_is_issuance
    fail_if (not (is_empty tx.to) || not (tx.amount == 0)) TxError.asset_op_sets_to_amount
    validate_asset_op o
    fail_if (not (authorized_by env o tx.from tx.asset_id)) TxError.not_the_issuer

  -- The last `switch`: what the transaction does.
  unfoldable pub check_kind : Transaction → Option AssetIssue → Option AssetOp → Check
  unfolding check_outputs check_issue_shape check_asset_op_shape check_transfer_shape
  check_kind tx (some i) op =
      if is_multi_output tx then check_outputs tx else check_issue_shape tx i
  check_kind tx none (some o) =
      if is_multi_output tx then check_outputs tx else check_asset_op_shape tx o
  check_kind tx none none = if is_multi_output tx then check_outputs tx else check_transfer_shape tx

  unfoldable pub check_tx_sanity : Transaction → Check
  check_tx_sanity tx = do
    fail_if (is_coinbase tx) TxError.coinbase_not_valid_here
    fail_if (ltb max_address_bytes (length tx.from)) TxError.sender_address_too_long
    fail_if (ltb max_address_bytes (length tx.to)) TxError.recipient_address_too_long
    fail_if (ltb max_memo_bytes (length tx.memo)) TxError.memo_too_long
    fail_if (not (tx.expiry == 0) && ltb tx.expiry tx.lock_until) TxError.impossible_height_window
    fail_if (ltb max_address_bytes (length tx.fee_payer)) TxError.fee_payer_address_too_long
    fail_if (is_name_key tx.from || is_name_key tx.to || is_name_key tx.fee_payer)
        TxError.address_is_name_key
    no_name_keys tx.outputs
    check_name_shape tx tx.name
    check_auth_shape tx
    check_kind tx tx.issue tx.asset_op
