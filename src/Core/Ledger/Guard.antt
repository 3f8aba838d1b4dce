-- ===== src/Core/Ledger/Guard.antt =====
-- core/blockchain.go: what a transaction that `applyTxTo` executes must have passed.
use dnas.Base.{ℕ, ◌≡◌, Option, none, some, Bool-cases, inl, inr}
use dnas.Base.Result.{ok}
use dnas.Core.Tx.{AssetIssue, AssetOp, NameOp, Transaction, is_asset_transfer, sender_fee}
use dnas.Core.Tx.Shape.{check_issuance, validate_asset_op, validate_name_op}
use dnas.Core.Tx.Auth.{verify_signature}
use dnas.Core.Env.{Env}
use dnas.Core.Ledger.{Journal, get, checked}
use dnas.Core.Ledger.Apply.{
  move_coin, apply_transfer, apply_issue, apply_asset_op, apply_asset_transfer,
}
use dnas.Core.Ledger.Apply.Name.{apply_name_op, apply_kind, apply_tx_to}
use dnas.Core.Ledger.Coin.{bind_ok, raise_if_ok, spendable_ok}

module _ (env : Env) (tx : Transaction) (height reserve payer_reserve : ℕ) where
  apply_kind-nonce :
      (n : Option NameOp) (i : Option AssetIssue) (o : Option AssetOp) (j : Journal) {j' : Journal}
      → apply_kind env tx n i o height reserve payer_reserve j ≡ (ok tt, j')
      → tx.nonce ≡ (get tx.from j.state).nonce
  unfolding apply_kind apply_name_op apply_issue apply_asset_op apply_asset_transfer apply_transfer
      move_coin checked
  apply_kind-nonce (some op) i o j e =
      let (_, _, e₁) = bind_ok (checked (validate_name_op op)) _ j e in
      (spendable_ok tx (sender_fee tx) reserve _ j e₁).1
  apply_kind-nonce none (some i) o j e =
      let (_, _, e₁) = bind_ok (checked (check_issuance i)) _ j e in
      (spendable_ok tx (sender_fee tx) reserve _ j e₁).1
  apply_kind-nonce none none (some o) j e =
      let (_, _, e₁) = bind_ok (checked (validate_asset_op o)) _ j e in
      let (_, e₂) = raise_if_ok _ _ _ j e₁ in (spendable_ok tx (sender_fee tx) reserve _ j e₂).1
  apply_kind-nonce none none none j e = elim (Bool-cases (is_asset_transfer tx)) [
    | inl asset ↦
        let (_, e₁) = raise_if_ok _ _ _ j (rw asset at e) in
        (spendable_ok tx (sender_fee tx) reserve _ j e₁).1
    | inr plain ↦
        let (out, _, e₁) = bind_ok (checked _) _ j (rw plain at e) in
        let (_, e₂) = raise_if_ok _ _ _ j e₁ in
        let (_, e₃) = raise_if_ok _ _ _ j e₂ in (spendable_ok tx _ reserve _ j e₃).1
  ]

-- A transaction that `applyTxTo` executes is authorized by `VerifySignature` and carries the nonce
-- that its sender's account has.
pub apply_tx_to-guarded :
    (env : Env) (tx : Transaction) (height reserve payer_reserve : ℕ) (j : Journal) {j' : Journal}
    → apply_tx_to env tx height reserve payer_reserve j ≡ (ok tt, j')
    → (verify_signature env tx ≡ ok tt) × (tx.nonce ≡ (get tx.from j.state).nonce)
unfolding apply_tx_to checked
apply_tx_to-guarded env tx height reserve payer_reserve j e =
    let (_, authorized, e₁) = bind_ok (checked (verify_signature env tx)) _ j e in
    (
      authorized,
      apply_kind-nonce env tx height reserve payer_reserve tx.name tx.issue tx.asset_op j e₁,
    )
