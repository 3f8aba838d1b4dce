-- ===== src/Core/Tx/Errors.antt =====
-- The errors of the transaction rules, one for each message. The numbers and addresses that a
-- message prints are left out.
pub data TxError : Type 0 where
  coinbase_not_valid_here only_one_coinbase : TxError
  sender_address_too_long recipient_address_too_long fee_payer_address_too_long : TxError
  memo_too_long impossible_height_window address_is_name_key : TxError
  name_length name_hyphen_at_end name_two_hyphens name_charset : TxError
  too_many_periods transfer_needs_target release_takes_no_target unknown_name_operation : TxError
  target_is_name_key name_op_moves_value : TxError
  too_many_outputs multi_output_sets_to_amount multi_output_with_asset : TxError
  output_without_recipient output_recipient_too_long output_pays_nothing : TxError
  outputs_overflow outputs_fee_overflow : TxError
  issuance_with_asset_id ticker_length ticker_charset asset_supply_range : TxError
  asset_op_without_asset asset_op_is_issuance asset_op_sets_to_amount : TxError
  unknown_asset_operation asset_op_amount_range not_the_issuer : TxError
  asset_transfer_without_recipient empty_asset_transfer : TxError
  transfer_without_recipient empty_transfer amount_fee_overflow : TxError
  many_scripts multisig_with_key multisig_with_preimage : TxError
  htlc_with_key htlc_with_signatures script_with_key script_with_signatures : TxError
  script_with_preimage vault_with_key vault_with_signatures vault_with_preimage : TxError
  single_with_signatures single_with_preimage : TxError
  sponsor_auth_without_payer payer_without_sponsor_auth payer_is_sender : TxError
  expired locked htlc_refund_before_timeout script_height_unmet vault_before_unlock : TxError
  vault_not_active asset_op_not_active script_not_active name_not_active : TxError
  non_fungible_not_active sponsor_not_active multi_output_not_active bad_address : TxError
  dust_output : TxError
  not_authorized bad_nonce reserve_overflow insufficient_balance : TxError
  recipient_balance_overflow sponsor_cannot_cover metadata_length metadata_charset : TxError
  non_fungible_supply past_supply_cap burn_more_than_held insufficient_asset : TxError
  name_held name_already_yours name_not_held name_not_yours : TxError
  fee_below_base_fee duplicate_transaction : TxError
