-- ===== src/Core/Ledger/Apply/Name.antt =====
-- core/name.go: `applyNameOp`; core/blockchain.go: the dispatch of `applyTxTo`.
use dnas.Base.{
  ℕ, ltb, if◌then◌else◌, Bool, not, ◌&&◌, Option, none, some, [], is_empty, add64, mul64, ⊤,
}
use dnas.Base.Str.{Str, str_eq}
use dnas.Base.Result.{Result, ok, err}
use dnas.Core.Tx.{
  AssetIssue, AssetOp, NameOp, NameOpKind, Transaction, is_asset_transfer, sender_fee,
}
use dnas.Core.Tx.Errors.{TxError}
use dnas.Core.Tx.Shape.{name_state_key, name_lease_period, lease_periods, validate_name_op}
use dnas.Core.Env.{Env}
use dnas.Core.Tx.Auth.{verify_signature}
use dnas.Core.Ledger.{Account, zero_account, Action, ◌>>=◌, ◌>>◌, checked, read, set}
use dnas.Core.Ledger.Apply.{
  debited, spendable, charge_sponsor, apply_transfer, apply_issue, apply_asset_op,
  apply_asset_transfer,
}

-- `NameRecord`, without the name itself.
pub record NameRecord : Type 0 where
  pub owner : Str
  pub expires : ℕ

abbrev pub name_record_of : Account → NameRecord
name_record_of acc = record { owner = acc.owner; expires = acc.expires }

unfoldable pub held_at : NameRecord → ℕ → Bool
held_at r height = not (is_empty r.owner) && ltb height r.expires

-- The check of `renew`, `transfer` and `release`: the sender holds the name.
unfoldable pub check_owner : NameRecord → Str → ℕ → Result TxError NameRecord
unfolding held_at
check_owner r from height =
    if not (held_at r height)
    then err TxError.name_not_held
    else if not (str_eq r.owner from)
    then err TxError.name_not_yours
    else ok r

abbrev with_record :
    Result TxError NameRecord → (NameRecord → NameRecord) → Result TxError NameRecord
with_record (ok r) f = ok (f r)
with_record (err e) f = err e

-- The `switch op.Op` of `applyNameOp`: the record that the operation leaves.
unfoldable pub next_record : NameOpKind → NameOp → Str → ℕ → NameRecord → Result TxError NameRecord
unfolding held_at check_owner lease_periods
next_record NameOpKind.register op from height r =
    if held_at r height
    then (if not (str_eq r.owner from)
        then err TxError.name_held
        else err TxError.name_already_yours)
    else ok (record {
      owner = if is_empty op.target then from else op.target;
      expires = add64 height (mul64 (lease_periods op) name_lease_period);
    })
next_record NameOpKind.renew op from height r =
    with_record (check_owner r from height)
      (λ r'. record r' { expires = add64 r'.expires (mul64 (lease_periods op) name_lease_period) })
next_record NameOpKind.transfer op from height r =
    with_record (check_owner r from height) (λ r'. record r' { owner = op.target })
next_record NameOpKind.release op from height r =
    with_record (check_owner r from height) (λ r'. record { owner = []; expires = 0 })
next_record (NameOpKind.unknown _) op from height r = ok r

-- What is stored under the name's key.
abbrev pub stored_record : NameRecord → Account
stored_record r =
    if is_empty r.owner
    then zero_account
    else record { balance = 0; nonce = 0; assets = []; owner = r.owner; expires = r.expires }

unfoldable pub apply_name_op : Transaction → NameOp → ℕ → ℕ → ℕ → Action ⊤
unfolding validate_name_op sender_fee next_record
apply_name_op tx op height reserve payer_reserve = do
  checked (validate_name_op op)
  sender ← spendable tx (sender_fee tx) reserve
  acc ← read (name_state_key op.name)
  rec ← checked (next_record op.op op tx.from height (name_record_of acc))
  set tx.from (debited (sender_fee tx) sender)
  set (name_state_key op.name) (stored_record rec)
  charge_sponsor tx payer_reserve

module _ (env : Env) where
  -- The dispatch of `applyTxTo`, on what the transaction carries.
  unfoldable pub apply_kind :
      Transaction → Option NameOp → Option AssetIssue → Option AssetOp → ℕ → ℕ → ℕ → Action ⊤
  apply_kind tx (some op) issue asset_op height reserve payer_reserve =
      apply_name_op tx op height reserve payer_reserve
  apply_kind tx none (some i) asset_op height reserve payer_reserve =
      apply_issue env tx i reserve payer_reserve
  apply_kind tx none none (some o) height reserve payer_reserve =
      apply_asset_op env tx o reserve payer_reserve
  apply_kind tx none none none height reserve payer_reserve =
      if is_asset_transfer tx
      then apply_asset_transfer tx reserve payer_reserve
      else apply_transfer tx reserve payer_reserve

  -- `applyTxTo`, with no validation cache.
  unfoldable pub apply_tx_to : Transaction → ℕ → ℕ → ℕ → Action ⊤
  unfolding verify_signature
  apply_tx_to tx height reserve payer_reserve = do
    checked (verify_signature env tx)
    apply_kind tx tx.name tx.issue tx.asset_op height reserve payer_reserve
