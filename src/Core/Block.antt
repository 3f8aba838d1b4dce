-- ===== src/Core/Block.antt =====
-- core/block.go: blocks; core/params.go: the base fee of a transaction, the tips and the coinbase
-- amount; core/blockchain.go: the immature coinbase, the block weight and the coinbase's shape.
use dnas.Base.{
  ℕ, zero, suc, ◌+◌, ◌-◌, ◌*◌, ltb, ◌==◌, if◌then◌else◌, not, ◌&&◌, ◌||◌, Option, none, some,
  is_some, List, [], ◌∷◌, get_elem?, is_empty, tail, length, add64, mul64,
}
use dnas.Base.Str.{Str, str_eq}
use dnas.Base.Result.{Result, ◌>>◌, fail_if}
use dnas.Core.Params.{
  block_reward, coinbase_maturity, max_address_bytes, max_coinbase_bytes, max_memo_bytes,
}
use dnas.Core.Tx.{Transaction, MultisigScript, is_coinbase, is_vault, is_script, is_sponsored}
use dnas.Core.Tx.Errors.{TxError}
use dnas.Core.Tx.Codec.{size}
use dnas.Core.Env.{Env, Upgrade, is_upgrade_active}

-- The timestamp is an int64; the clock of a chain starts after 1970, so it is a number.
pub record Block : Type 0 where
  pub version : ℕ
  pub index : ℕ
  pub timestamp : ℕ
  pub transactions : List Transaction
  pub prev_hash : Str
  pub merkle_root : Str
  pub state_root : Str
  pub base_fee : ℕ
  pub bits : ℕ
  pub nonce : ℕ
  pub hash : Str
  pub filter_root : Str
  pub history_root : Str

pub data BlockError : Type 0 where
  tx_rejection : ℕ → TxError → BlockError
  no_coinbase bad_coinbase_amount coinbase_overflow : BlockError
  coin_not_conserved asset_not_conserved : BlockError
  coinbase_too_large coinbase_recipient_too_long coinbase_sets_fee_or_window : BlockError
  coinbase_nonce coinbase_carries_asset coinbase_carries_signature : BlockError
  coinbase_carries_script coinbase_carries_sponsor coinbase_memo_too_long : BlockError

abbrev coinbase_paid : List Transaction → Str → ℕ
unfolding is_coinbase
coinbase_paid [] addr = 0
coinbase_paid (cb ∷ txs) addr = if is_coinbase cb && str_eq cb.to addr then cb.amount else 0

-- What a block pays `addr` by its coinbase; a body that is gone is final.
unfoldable pub paid_at : Option Block → Str → ℕ
unfolding is_coinbase
paid_at none addr = 0
paid_at (some b) addr = coinbase_paid b.transactions addr

-- The loop of `immatureCoinbase` for the rounds left, at height `i`.
unfoldable pub immature_loop : ℕ → ℕ → List Block → Str → ℕ → ℕ
unfolding paid_at
immature_loop zero i blocks addr sum = sum
immature_loop (suc n) i blocks addr sum =
    immature_loop n (i + 1) blocks addr (add64 sum (paid_at (get_elem? blocks i) addr))

-- `immatureCoinbase`
unfoldable pub immature_coinbase : List Block → ℕ → Str → ℕ
unfolding immature_loop
immature_coinbase blocks height addr =
    let start = if ltb coinbase_maturity height then height - coinbase_maturity + 1 else 1 in
    immature_loop (height - start) start blocks addr 0

module _ (env : Env) where
  -- `BaseFeeFor`
  unfoldable pub base_fee_for : Transaction → ℕ → ℕ
  unfolding size
  base_fee_for tx base_fee = mul64 base_fee (size env tx)

  -- `Tips`
  unfoldable pub tips_from : List Transaction → ℕ → ℕ → ℕ
  unfolding base_fee_for
  tips_from [] base_fee tips = tips
  tips_from (tx ∷ txs) base_fee tips = tips_from txs base_fee (
      if ltb (base_fee_for tx base_fee) tx.fee
      then add64 tips (tx.fee - base_fee_for tx base_fee)
      else tips)

  unfoldable pub tips_of : List Transaction → ℕ → ℕ
  unfolding tips_from
  tips_of txs base_fee = tips_from txs base_fee 0

  -- `CoinbaseAmount`
  unfoldable pub coinbase_amount : ℕ → List Transaction → ℕ → ℕ
  unfolding block_reward tips_of
  coinbase_amount height txs base_fee = add64 (block_reward height) (tips_of txs base_fee)

  unfoldable pub burned_from : List Transaction → ℕ → ℕ → ℕ
  unfolding base_fee_for
  burned_from [] base_fee burned = burned
  burned_from (tx ∷ txs) base_fee burned =
      burned_from txs base_fee (add64 burned (base_fee_for tx base_fee))

  -- core/supply.go: `blockBurned`
  unfoldable pub block_burned : Block → ℕ
  unfolding burned_from
  block_burned b = burned_from (tail b.transactions) b.base_fee 0

  unfoldable pub sizes_of : List Transaction → ℕ
  unfolding size
  sizes_of [] = 0
  sizes_of (tx ∷ txs) = size env tx + sizes_of txs

  -- `blockWeight`
  unfoldable pub block_weight : Block → ℕ
  unfolding sizes_of
  block_weight b = sizes_of (tail b.transactions)

  -- `validateCoinbaseShape`
  unfoldable pub validate_coinbase_shape : Transaction → ℕ → Result BlockError (Unit {0})
  unfolding size is_upgrade_active
  validate_coinbase_shape cb height = do
    fail_if (ltb max_coinbase_bytes (size env cb)) coinbase_too_large
    fail_if (ltb max_address_bytes (length cb.to)) coinbase_recipient_too_long
    fail_if (not (cb.fee == 0) || not (cb.expiry == 0) || not (cb.lock_until == 0))
        coinbase_sets_fee_or_window
    if is_upgrade_active env Upgrade.unique_coinbase height
        then fail_if (not (cb.nonce == height)) coinbase_nonce
        else fail_if (not (cb.nonce == 0)) coinbase_nonce
    fail_if (not (is_empty cb.asset_id) || is_some cb.issue || is_some cb.asset_op)
        coinbase_carries_asset
    fail_if
        (not (is_empty cb.pub_key) || not (is_empty cb.signature) || not (is_empty cb.signatures))
        coinbase_carries_signature
    fail_if
        (is_some cb.multisig || is_some cb.htlc || is_some cb.vault || not (is_empty cb.preimage))
        coinbase_carries_script
    fail_if
        (not (is_empty cb.fee_payer)
          || not (is_empty cb.fee_payer_pub_key)
          || not (is_empty cb.fee_payer_sig))
        coinbase_carries_sponsor
    fail_if (ltb max_memo_bytes (length cb.memo)) coinbase_memo_too_long

-- core/valcache.go: `VerifyOps`; core/script.go: `MaxScriptSigChecks`.
abbrev pub max_script_sig_checks : ℕ
max_script_sig_checks = 20

unfoldable pub auth_ops : Transaction → Option MultisigScript → ℕ
auth_ops tx (some ms) =
    let n = length tx.signatures * length ms.pub_keys in if ltb n 1 then 1 else n
auth_ops tx none = if is_vault tx then 2 else if is_script tx then 2 * max_script_sig_checks else 1

unfoldable pub verify_ops : Transaction → ℕ
unfolding is_coinbase auth_ops
verify_ops tx =
    if is_coinbase tx then 0 else auth_ops tx tx.multisig + (if is_sponsored tx then 1 else 0)

unfoldable pub block_verify_ops : List Transaction → ℕ
unfolding verify_ops
block_verify_ops [] = 0
block_verify_ops (tx ∷ txs) = verify_ops tx + block_verify_ops txs
