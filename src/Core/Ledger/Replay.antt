-- ===== src/Core/Ledger/Replay.antt =====
-- core/blockchain.go: a transaction that `applyTxTo` executes moves its sender's nonce on.
use dnas.Base.{
  ℕ, ◌^◌, ◌<◌, ◌≡◌, ◌≢◌, sym, ◌∙◌, ap, subst, false, Bool-cases, inl, inr, Option, none, some,
  add64, arith,
}
use dnas.Base.Str.{Str, str_eq, str_eq_iff, str_eq_self}
use dnas.Base.Map.{IsMap}
use dnas.Base.Result.{ok}
use dnas.Core.Tx.{
  AssetIssue, AssetOp, NameOp, Transaction, is_asset_transfer, sender_fee, recipients,
}
use dnas.Core.Tx.Shape.{
  is_name_key, name_state_key, check_issuance, validate_asset_op, validate_name_op,
}
use dnas.Core.Tx.Auth.{verify_signature}
use dnas.Core.Env.{Env}
use dnas.Core.Ledger.{Account, get, Journal, Action, set, checked, with_asset_delta, ◌>>◌}
use dnas.Core.Ledger.Apply.{
  move_coin, apply_transfer, apply_issue, apply_asset_op, apply_asset_transfer,
}
use dnas.Core.Ledger.Apply.Name.{apply_name_op, apply_kind, apply_tx_to}
use dnas.Core.Ledger.Undo.{write-IsMap, lookup-write}
use dnas.Core.Ledger.Guard.{apply_tx_to-guarded}
use dnas.Core.Tx.Sanity.{check_tx_sanity}
use dnas.Core.Ledger.Clean.{IsClean, check_tx_sanity-IsClean, name_state_key-IsNameKey}
use dnas.Core.Ledger.Keeps.{Keeps, then-Keeps}
use dnas.Core.Ledger.Coin.{bind_ok, raise_if_ok, spendable_ok, set_ok, read_ok}
use dnas.Core.Ledger.Nonce.{
  nonce_of, HasNonce, HasNonceAfter, charge_sponsor-Keeps, credit_all-Keeps, set-Keeps,
  give_asset-Keeps,
}

-- The write of the debited sender, before the rest of the operation.
sender-HasNonce :
    (from : Str) (acc : Account) (j : Journal)
    → IsMap j.state
    → is_name_key from ≡ false
    → HasNonce from acc.nonce (set from acc j).1.state
unfolding set
sender-HasNonce from acc j m plain = record {
  is_map = write-IsMap from acc j.state m;
  nonce = ground (arith, lookup-write from acc from j.state m, str_eq_self from);
}

settle-HasNonce :
    (from : Str) (acc : Account) (rest : Action (Unit {0})) (j : Journal) {j' : Journal}
    → IsMap j.state
    → is_name_key from ≡ false
    → Keeps (HasNonceAfter from acc.nonce) rest
    → (set from acc >> rest) j ≡ (ok tt, j')
    → HasNonce from acc.nonce j'.state
settle-HasNonce from acc rest j m plain kept e =
    let ran = set_ok from acc rest j e in
    subst (HasNonceAfter from acc.nonce) (ap (λ r. r.1) ran)
      (kept.keep (set from acc j).1 (sender-HasNonce from acc j m plain))

name_key-other :
    (from name : Str) → is_name_key from ≡ false → str_eq (name_state_key name) from ≡ false
name_key-other from name plain = ground (
  arith,
  str_eq_iff (name_state_key name) from,
  ap is_name_key {x = name_state_key name} {y = from},
  name_state_key-IsNameKey name,
)

-- The account of the sender after the operation has the nonce of the account that was written.
abbrev Moved : Str → Journal → Journal → Type 0
Moved from j j' = HasNonce from (add64 (nonce_of from j.state) 1) j'.state

module _ (env : Env) (tx : Transaction) (height reserve payer_reserve : ℕ) where
  apply_kind-Moved :
      (n : Option NameOp) (i : Option AssetIssue) (o : Option AssetOp) (j : Journal) {j' : Journal}
      → IsClean tx
      → IsMap j.state
      → apply_kind env tx n i o height reserve payer_reserve j ≡ (ok tt, j')
      → Moved tx.from j j'
  unfolding apply_kind apply_name_op apply_issue apply_asset_op apply_asset_transfer apply_transfer
      move_coin checked with_asset_delta
  apply_kind-Moved (some op) i o j c m e =
      let (_, _, e₁) = bind_ok (checked (validate_name_op op)) _ j e in
      let e₂ = (spendable_ok tx (sender_fee tx) reserve _ j e₁).0 in
      let e₃ = read_ok (name_state_key op.name) _ j e₂ in
      let (rec, _, e₄) = bind_ok (checked _) _ j e₃ in
      settle-HasNonce tx.from _ _ j m c.from_plain
        (then-Keeps (set-Keeps _ _ _ _ (name_key-other tx.from op.name c.from_plain))
          (charge_sponsor-Keeps _ _ tx payer_reserve))
        e₄
  apply_kind-Moved none (some i) o j c m e =
      let (_, _, e₁) = bind_ok (checked (check_issuance i)) _ j e in
      let e₂ = (spendable_ok tx (sender_fee tx) reserve _ j e₁).0 in
      settle-HasNonce tx.from _ _ j m c.from_plain (charge_sponsor-Keeps _ _ tx payer_reserve) e₂
  apply_kind-Moved none none (some o) j c m e =
      let (_, _, e₁) = bind_ok (checked (validate_asset_op o)) _ j e in
      let (_, e₂) = raise_if_ok _ _ _ j e₁ in
      let e₃ = (spendable_ok tx (sender_fee tx) reserve _ j e₂).0 in
      let (delta, _, e₄) = bind_ok (checked _) _ j e₃ in
      settle-HasNonce tx.from _ _ j m c.from_plain (charge_sponsor-Keeps _ _ tx payer_reserve) e₄
  apply_kind-Moved none none none j c m e = elim (Bool-cases (is_asset_transfer tx)) [
    | inl asset ↦
        let (_, e₁) = raise_if_ok _ _ _ j (rw asset at e) in
        let e₂ = (spendable_ok tx (sender_fee tx) reserve _ j e₁).0 in
        let (_, e₃) = raise_if_ok _ _ _ j e₂ in
        settle-HasNonce tx.from _ _ j m c.from_plain
          (then-Keeps (charge_sponsor-Keeps _ _ tx payer_reserve) (give_asset-Keeps _ _ tx.to _ _))
          e₃
    | inr plain ↦
        let (out, _, e₁) = bind_ok (checked _) _ j (rw plain at e) in
        let (_, e₂) = raise_if_ok _ _ _ j e₁ in
        let (_, e₃) = raise_if_ok _ _ _ j e₂ in
        let e₄ = (spendable_ok tx _ reserve _ j e₃).0 in
        settle-HasNonce tx.from _ _ j m c.from_plain
          (then-Keeps (charge_sponsor-Keeps _ _ tx payer_reserve)
            (credit_all-Keeps _ _ (recipients tx)))
          e₄
  ]

-- A transaction that passes `CheckTxSanity` and that `applyTxTo` executes carries its sender's nonce
-- and is authorized by `VerifySignature`; the sender's nonce is one more afterwards, modulo 2 ^ 64; and
-- `applyTxTo` refuses the same transaction on the ledger that it leaves, at every height and with any
-- reserves. (No key stands twice in the ledger, and the nonce fits 64 bits.)
pub apply_tx_to_once :
    (env : Env) (tx : Transaction) (height reserve payer_reserve : ℕ) (j : Journal)
    (later later_reserve later_payer_reserve : ℕ) {j' : Journal}
    → check_tx_sanity env tx ≡ ok tt
    → IsMap j.state
    → tx.nonce < 2 ^ 64
    → apply_tx_to env tx height reserve payer_reserve j ≡ (ok tt, j')
    → (verify_signature env tx ≡ ok tt)
      × (tx.nonce ≡ (get tx.from j.state).nonce)
      × ((get tx.from j'.state).nonce ≡ add64 tx.nonce 1)
      × ((apply_tx_to env tx later later_reserve later_payer_reserve j').0 ≢ ok tt)
unfolding apply_tx_to checked
apply_tx_to_once env tx height reserve payer_reserve j later later_reserve later_payer_reserve
      {j' = j'} sane m small e =
    let (authorized, nonce) = apply_tx_to-guarded env tx height reserve payer_reserve j e in
    let (_, _, e₁) = bind_ok (checked (verify_signature env tx)) _ j e in
    let moved =
      apply_kind-Moved env tx height reserve payer_reserve tx.name tx.issue tx.asset_op j
        (check_tx_sanity-IsClean env tx sane) m e₁ in
    let after : nonce_of tx.from j'.state ≡ add64 tx.nonce 1 =
      moved.nonce ∙ ap (λ n. add64 n 1) (sym nonce) in
    (
      authorized,
      nonce,
      after,
      λ again.
          let second = apply_tx_to env tx later later_reserve later_payer_reserve j' in
          let (_, same) =
            apply_tx_to-guarded env tx later later_reserve later_payer_reserve j'
              (λ i. (again i, second.1)) in
          absurd (omega (arith, same, after, small)),
    )
