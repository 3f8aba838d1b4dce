-- ===== src/Core/Tx/Height.antt =====
-- core/blockchain.go: `checkTxAtHeight`, the rules that depend on the height of the block, with
-- the queries of core/transaction.go that they use.
use dnas.Base.{
  ℕ, ltb, if◌then◌else◌, Bool, false, not, ◌&&◌, ◌||◌, Option, none, some, List, [], ◌∷◌, is_empty,
}
use dnas.Base.Result.{ok, ◌>>◌, fail_if}
use dnas.Core.Params.{dust_threshold}
use dnas.Core.Tx.{
  Output, HtlcScript, NameOp, VaultScript, Transaction, is_coinbase, is_multi_output, is_vault,
  is_script, is_sponsored, is_issue, is_asset_op, is_name_op, is_asset_transfer, is_non_fungible,
  is_expired_at, is_locked_at, recipients, coin_amounts,
}
use dnas.Core.Tx.Errors.{TxError}
use dnas.Core.Tx.Shape.{Check}
use dnas.Core.Tx.Codec.{signing_bytes}
use dnas.Core.Env.{Env, Upgrade, is_upgrade_active}

abbrev htlc_not_ready : Option HtlcScript → Transaction → ℕ → Bool
htlc_not_ready none t height = false
htlc_not_ready (some s) t height = is_empty t.preimage && ltb height s.timeout

-- `HTLCRefundNotReady`
unfoldable pub htlc_refund_not_ready : Transaction → ℕ → Bool
htlc_refund_not_ready t height = htlc_not_ready t.htlc t height

module _ (env : Env) where
  abbrev vault_not_ready : Option VaultScript → Transaction → ℕ → Bool
  vault_not_ready none t height = false
  vault_not_ready (some v) t height =
      ltb height v.unlock && not (env.wallet.verify v.cold t.signature (signing_bytes env t))

  -- `VaultHotNotReady`
  unfoldable pub vault_hot_not_ready : Transaction → ℕ → Bool
  vault_hot_not_ready t height = vault_not_ready t.vault t height

  unfoldable pub check_recipients : Bool → List Output → Check
  check_recipients unnamed [] = ok tt
  check_recipients unnamed (o ∷ os) =
      fail_if (not (is_empty o.to && unnamed) && not (env.wallet.validate_address o.to))
        TxError.bad_address
      >> check_recipients unnamed os

  unfoldable pub check_target : Option NameOp → Check
  check_target none = ok tt
  check_target (some n) =
      fail_if (not (is_empty n.target) && not (env.wallet.validate_address n.target))
        TxError.bad_address

  -- `checkTxAddresses`
  unfoldable pub check_tx_addresses : Transaction → Check
  unfolding is_coinbase check_recipients check_target recipients
  check_tx_addresses tx = do
    fail_if (not (is_coinbase tx) && not (env.wallet.validate_address tx.from)) TxError.bad_address
    check_recipients (is_issue tx || is_asset_op tx || is_name_op tx) (recipients tx)
    check_target tx.name
    fail_if (not (is_empty tx.fee_payer) && not (env.wallet.validate_address tx.fee_payer))
        TxError.bad_address

  unfoldable pub check_dust : List ℕ → Check
  check_dust [] = ok tt
  check_dust (a ∷ rest) =
      fail_if (ltb 0 a && ltb a dust_threshold) TxError.dust_output >> check_dust rest

  abbrev off : ℕ → Upgrade → Bool
  off height u = not (is_upgrade_active env u height)

  unfoldable pub check_tx_at_height : Transaction → ℕ → Check
  unfolding is_expired_at is_locked_at htlc_refund_not_ready vault_hot_not_ready check_tx_addresses
      check_dust coin_amounts is_upgrade_active
  check_tx_at_height tx height = do
    fail_if (is_expired_at tx height) TxError.expired
    fail_if (is_locked_at tx height) TxError.locked
    fail_if (htlc_refund_not_ready tx height) TxError.htlc_refund_before_timeout
    fail_if (env.scripts.script_not_ready tx height) TxError.script_height_unmet
    fail_if (vault_hot_not_ready tx height) TxError.vault_before_unlock
    fail_if (is_vault tx && off height Upgrade.vault) TxError.vault_not_active
    fail_if (is_asset_op tx && off height Upgrade.asset_ops) TxError.asset_op_not_active
    fail_if (is_script tx && off height Upgrade.script) TxError.script_not_active
    fail_if (is_name_op tx && off height Upgrade.name_service) TxError.name_not_active
    fail_if (is_non_fungible tx.issue && off height Upgrade.non_fungible)
        TxError.non_fungible_not_active
    fail_if (is_sponsored tx && off height Upgrade.fee_sponsor) TxError.sponsor_not_active
    fail_if (is_multi_output tx && off height Upgrade.multi_output) TxError.multi_output_not_active
    if off height Upgrade.checked_addresses then ok tt else check_tx_addresses tx
    if off height Upgrade.dust_limit || is_issue tx || is_asset_transfer tx
        then ok tt
        else check_dust (coin_amounts tx)
