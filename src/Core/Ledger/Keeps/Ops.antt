-- ===== src/Core/Ledger/Keeps/Ops.antt =====
-- Every operation of core/blockchain.go and core/name.go keeps whatever is kept by a `set` at an
-- address that is no name key, and by a `set` of an account without coin.
use dnas.Base.{ℕ, ◌≡◌, false, Option, none, some, List, [], ◌∷◌, All}
use dnas.Base.Str.{Str}
use dnas.Core.Tx.{Output, AssetIssue, AssetOp, NameOp, Transaction, is_asset_transfer}
use dnas.Core.Tx.Shape.{is_name_key, name_state_key}
use dnas.Core.Env.{Env}
use dnas.Core.Ledger.{Account, Journal, set}
use dnas.Core.Ledger.Apply.{
  spendable, charge_sponsor, credit, credit_all, apply_transfer, apply_issue, apply_asset_op,
  apply_asset_transfer,
}
use dnas.Core.Ledger.Apply.Name.{NameRecord, stored_record, apply_name_op, apply_kind, apply_tx_to}
use dnas.Core.Ledger.Clean.{IsClean, recipients-plain, stored_record-balance}
use dnas.Core.Ledger.Keeps.{Keeps, rules, pure-Keeps, then-Keeps, checked-Keeps, if-Keeps}

-- A property that the writes of the operations keep.
pub record IsKept (P : Journal → Type 0) : Type 0 where
  pub plain : (a : Str) (acc : Account) → is_name_key a ≡ false → Keeps P (set a acc)
  pub bare : (a : Str) (acc : Account) → acc.balance ≡ 0 → Keeps P (set a acc)

module _ {P : Journal → Type 0} (kept : IsKept P) where
  set-plain : (a : Str) (acc : Account) → is_name_key a ≡ false → Keeps P (set a acc)
  set-plain = kept.plain

  set-name : (name : Str) (r : NameRecord) → Keeps P (set (name_state_key name) (stored_record r))
  set-name name r = kept.bare (name_state_key name) (stored_record r) (stored_record-balance r)

  spendable-Keeps : (tx : Transaction) (total reserve : ℕ) → Keeps P (spendable tx total reserve)
  unfolding spendable
  spendable-Keeps tx total reserve = search rules depth 12

  charge_sponsor-Keeps :
      (tx : Transaction) (reserve : ℕ) → IsClean tx → Keeps P (charge_sponsor tx reserve)
  unfolding charge_sponsor
  charge_sponsor-Keeps tx reserve c = search (rules, set-plain) depth 12

  credit-Keeps : (o : Output) → is_name_key o.to ≡ false → Keeps P (credit o)
  unfolding credit
  credit-Keeps o c = search (rules, set-plain) depth 12

  credit_all-Keeps :
      (os : List Output) → All (λ o. is_name_key o.to ≡ false) os → Keeps P (credit_all os)
  unfolding credit_all
  credit_all-Keeps [] c = pure-Keeps tt
  credit_all-Keeps (o ∷ os) c = then-Keeps (credit-Keeps o c.0) (credit_all-Keeps os c.1)

  apply_transfer-Keeps :
      (tx : Transaction) (reserve payer_reserve : ℕ)
      → IsClean tx
      → Keeps P (apply_transfer tx reserve payer_reserve)
  unfolding apply_transfer
  apply_transfer-Keeps tx reserve payer_reserve c =
      search
        (
          rules, set-plain, spendable-Keeps, charge_sponsor-Keeps, credit_all-Keeps,
          recipients-plain,
        )
        depth 16

  apply_issue-Keeps :
      (env : Env) (tx : Transaction) (i : AssetIssue) (reserve payer_reserve : ℕ)
      → IsClean tx
      → Keeps P (apply_issue env tx i reserve payer_reserve)
  unfolding apply_issue
  apply_issue-Keeps env tx i reserve payer_reserve c =
      search (rules, set-plain, spendable-Keeps, charge_sponsor-Keeps) depth 16

  apply_asset_op-Keeps :
      (env : Env) (tx : Transaction) (o : AssetOp) (reserve payer_reserve : ℕ)
      → IsClean tx
      → Keeps P (apply_asset_op env tx o reserve payer_reserve)
  unfolding apply_asset_op
  apply_asset_op-Keeps env tx o reserve payer_reserve c =
      search (rules, set-plain, spendable-Keeps, charge_sponsor-Keeps) depth 16

  apply_asset_transfer-Keeps :
      (tx : Transaction) (reserve payer_reserve : ℕ)
      → IsClean tx
      → Keeps P (apply_asset_transfer tx reserve payer_reserve)
  unfolding apply_asset_transfer
  apply_asset_transfer-Keeps tx reserve payer_reserve c =
      search (rules, set-plain, spendable-Keeps, charge_sponsor-Keeps) depth 16

  apply_name_op-Keeps :
      (tx : Transaction) (op : NameOp) (height reserve payer_reserve : ℕ)
      → IsClean tx
      → Keeps P (apply_name_op tx op height reserve payer_reserve)
  unfolding apply_name_op
  apply_name_op-Keeps tx op height reserve payer_reserve c =
      search (rules, set-plain, set-name, spendable-Keeps, charge_sponsor-Keeps) depth 16

  apply_kind-Keeps :
      (env : Env) (tx : Transaction) (n : Option NameOp) (i : Option AssetIssue)
      (o : Option AssetOp) (height reserve payer_reserve : ℕ)
      → IsClean tx
      → Keeps P (apply_kind env tx n i o height reserve payer_reserve)
  unfolding apply_kind
  apply_kind-Keeps env tx (some n) i o height r p c = apply_name_op-Keeps tx n height r p c
  apply_kind-Keeps env tx none (some i) o height r p c = apply_issue-Keeps env tx i r p c
  apply_kind-Keeps env tx none none (some o) height r p c = apply_asset_op-Keeps env tx o r p c
  apply_kind-Keeps env tx none none none height r p c =
      if-Keeps (is_asset_transfer tx) (apply_asset_transfer-Keeps tx r p c)
        (apply_transfer-Keeps tx r p c)

  pub apply_tx_to-Keeps :
      (env : Env) (tx : Transaction) (height reserve payer_reserve : ℕ)
      → IsClean tx
      → Keeps P (apply_tx_to env tx height reserve payer_reserve)
  unfolding apply_tx_to
  apply_tx_to-Keeps env tx height r p c =
      then-Keeps (checked-Keeps _)
        (apply_kind-Keeps env tx tx.name tx.issue tx.asset_op height r p c)
