-- ===== src/Core/Ledger/Run.antt =====
-- One name that unfolds all of block application, for the tests that run it.
use dnas.Base.{⊤}
use dnas.Base.Map.{lookup, put, delete}
use dnas.Base.Str.{str_eq, has_prefix}
use dnas.Core.Block.{
  paid_at, immature_loop, immature_coinbase, base_fee_for, tips_from, tips_of, coinbase_amount,
  burned_from, block_burned, sizes_of, block_weight, validate_coinbase_shape, auth_ops, verify_ops,
  block_verify_ops,
}
use dnas.Core.Env.{upgrade_name, is_upgrade_active}
use dnas.Core.Ledger.{
  is_empty_account, with_asset_delta, ◌>>=◌, raise_if, checked, pure, read, write, set, revert,
  apply_undo,
}
use dnas.Core.Ledger.Apply.{
  spendable, charge_sponsor, credit, credit_all, move_coin, apply_transfer, apply_issue,
  asset_op_delta, apply_asset_op, apply_asset_transfer,
}
use dnas.Core.Ledger.Apply.Name.{
  held_at, check_owner, next_record, apply_name_op, apply_kind, apply_tx_to,
}
use dnas.Core.Ledger.Block.{
  apply_one, apply_txs, pay_coinbase, conserve, close_block, apply_all, finish, apply_list,
  apply_txs_and_coinbase,
}
use dnas.Core.Ledger.Conservation.{
  touched_from, touched_before, sum_before, sum_after, coin_delta, subtract_all, add_all,
  drop_zeros, deltas_from, asset_deltas, wanted_from, all_made, all_wanted, check_conservation,
}
use dnas.Core.Params.{shr, block_reward}
use dnas.Core.Tx.{
  is_coinbase, sum_outputs, total_out, recipients, coin_amounts, is_expired_at, is_locked_at,
  sender_fee,
}
use dnas.Core.Tx.Auth.{
  contains, asset_id_of, non_fungible_asset_id, issued_asset_id, authorized_by, find_member,
  match_signatures, verify_multisig, verify_htlc_claim, verify_htlc, verify_vault, verify_single,
  verify_by, verify_sender, verify_sponsor, verify_signature,
}
use dnas.Core.Tx.Codec.{
  put_u32, put_u64, put_str, put_strs_items, put_strs, put_outputs, asset_op_word, name_op_word,
  put_issue, put_asset_op, put_metadata, put_name_op, signed_fields, signing_bytes, put_multisig,
  put_htlc, put_vault, put_script, canonical_bytes, tx_hash, size,
}
use dnas.Core.Tx.Height.{
  htlc_refund_not_ready, vault_hot_not_ready, check_recipients, check_target, check_tx_addresses,
  check_dust, check_tx_at_height,
}
use dnas.Core.Tx.Sanity.{
  check_output_list, check_outputs, no_name_keys, check_name_shape, check_issue_shape,
  check_transfer_shape, check_asset_op_shape, check_kind, check_tx_sanity,
}
use dnas.Core.Tx.Shape.{
  is_name_key, is_lower_or_digit, valid_name_loop, valid_name, validate_name_kind, validate_name_op,
  lease_periods, is_alphanumeric, valid_ticker_loop, valid_ticker, valid_metadata_loop,
  valid_metadata, check_issuance, validate_asset_op, check_sponsor_shape, check_auth_fields,
  check_auth_shape,
}

unfoldable pub run : ⊤
unfolding lookup put delete str_eq has_prefix paid_at immature_loop immature_coinbase base_fee_for
    tips_from tips_of coinbase_amount burned_from block_burned sizes_of block_weight
    validate_coinbase_shape auth_ops verify_ops block_verify_ops upgrade_name is_upgrade_active
    is_empty_account with_asset_delta ◌>>=◌ raise_if checked pure read write set revert apply_undo
    spendable charge_sponsor credit credit_all move_coin apply_transfer apply_issue asset_op_delta
    apply_asset_op apply_asset_transfer held_at check_owner next_record apply_name_op apply_kind
    apply_tx_to apply_one apply_txs pay_coinbase conserve close_block apply_all finish apply_list
    apply_txs_and_coinbase touched_from touched_before sum_before sum_after coin_delta subtract_all
    add_all drop_zeros deltas_from asset_deltas wanted_from all_made all_wanted check_conservation
    shr block_reward is_coinbase sum_outputs total_out recipients coin_amounts is_expired_at
    is_locked_at sender_fee contains asset_id_of non_fungible_asset_id issued_asset_id authorized_by
    find_member match_signatures verify_multisig verify_htlc_claim verify_htlc verify_vault
    verify_single verify_by verify_sender verify_sponsor verify_signature put_u32 put_u64 put_str
    put_strs_items put_strs put_outputs asset_op_word name_op_word put_issue put_asset_op
    put_metadata put_name_op signed_fields signing_bytes put_multisig put_htlc put_vault put_script
    canonical_bytes tx_hash size htlc_refund_not_ready vault_hot_not_ready check_recipients
    check_target check_tx_addresses check_dust check_tx_at_height check_output_list check_outputs
    no_name_keys check_name_shape check_issue_shape check_transfer_shape check_asset_op_shape
    check_kind check_tx_sanity is_name_key is_lower_or_digit valid_name_loop valid_name
    validate_name_kind validate_name_op lease_periods is_alphanumeric valid_ticker_loop valid_ticker
    valid_metadata_loop valid_metadata check_issuance validate_asset_op check_sponsor_shape
    check_auth_fields check_auth_shape
run = tt
