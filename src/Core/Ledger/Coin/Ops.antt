-- ===== src/Core/Ledger/Coin/Ops.antt =====
-- core/blockchain.go, core/name.go: what each operation does to the coin that all accounts hold.
use dnas.Base.{
  ℕ, ap, ◌+◌, ◌^◌, ◌<◌, ◌≡◌, refl, true, Option, none, some, sub64, arith, Bool-cases, inl, inr,
}
use dnas.Base.Str.{Str, str_eq_iff}
use dnas.Base.Map.{IsMap}
use dnas.Core.Tx.Errors.{TxError}
use dnas.Base.Result.{Result, ok}
use dnas.Core.Tx.{AssetIssue, AssetOp, NameOp, Transaction, is_asset_transfer, sender_fee}
use dnas.Core.Tx.Shape.{
  check_issuance, validate_asset_op, validate_name_op, is_name_key, name_state_key,
}
use dnas.Core.Env.{Env}
use dnas.Core.Ledger.{
  Account, State, get, with_asset_delta, Journal, ◌>>=◌, ◌>>◌, checked, read, write, set,
}
use dnas.Core.Ledger.Apply.{
  debited, charge_sponsor, apply_issue, apply_asset_op, apply_asset_transfer,
}
use dnas.Core.Ledger.Apply.Name.{stored_record, next_record, apply_name_op, apply_kind, apply_tx_to}
use dnas.Core.Ledger.Clean.{IsClean, name_state_key-IsNameKey, stored_record-balance}
use dnas.Core.Ledger.Undo.{lookup-write}
use dnas.Core.Ledger.Coin.{
  total_balance, total_balance-write, IsTx, sponsor_fee, charge_sponsor_ok, apply_transfer_ok,
  bind_ok, raise_if_ok, read_ok, set_ok, spendable_ok, settle_ok,
}

with_asset_delta-balance :
    (id : Str) (d : ℕ) (a : Account) → (with_asset_delta id d a).balance ≡ a.balance
unfolding with_asset_delta
with_asset_delta-balance id d a = refl

apply_issue_ok :
    (env : Env) (tx : Transaction) (i : AssetIssue) (reserve payer_reserve : ℕ) (j : Journal)
    {j' : Journal}
    → apply_issue env tx i reserve payer_reserve j ≡ (ok tt, j')
    → total_balance j'.state + tx.fee ≡ total_balance j.state
unfolding apply_issue checked
apply_issue_ok env tx i reserve payer_reserve j e =
    let (_, _, e₁) = bind_ok (checked (check_issuance i)) _ j e in
    let (e₂, nonce, enough) = spendable_ok tx (sender_fee tx) reserve _ j e₁ in
    settle_ok tx _ payer_reserve j (omega arith) e₂

apply_asset_op_ok :
    (env : Env) (tx : Transaction) (o : AssetOp) (reserve payer_reserve : ℕ) (j : Journal)
    {j' : Journal}
    → apply_asset_op env tx o reserve payer_reserve j ≡ (ok tt, j')
    → total_balance j'.state + tx.fee ≡ total_balance j.state
unfolding apply_asset_op checked
apply_asset_op_ok env tx o reserve payer_reserve j e =
    let (_, _, e₁) = bind_ok (checked (validate_asset_op o)) _ j e in
    let (_, e₂) = raise_if_ok _ _ _ j e₁ in
    let (e₃, nonce, enough) = spendable_ok tx (sender_fee tx) reserve _ j e₂ in
    let (delta, _, e₄) = bind_ok (checked _) _ j e₃ in
    settle_ok tx _ payer_reserve j (omega arith) e₄

-- A write that leaves the balance alone leaves the sum alone.
total_balance-write_same :
    (a : Str) (acc : Account) (s : State)
    → acc.balance ≡ (get a s).balance
    → total_balance (write a acc s) ≡ total_balance s
total_balance-write_same a acc s e = omega (arith, total_balance-write a acc s)

settle_run :
    (tx : Transaction) (acc : Account) (payer_reserve : ℕ) (j : Journal)
    → (charge_sponsor tx payer_reserve (set tx.from acc j).1).0 ≡ ok tt
    → (set tx.from acc >> charge_sponsor tx payer_reserve) j
      ≡ (ok tt, (charge_sponsor tx payer_reserve (set tx.from acc j).1).1)
unfolding set ◌>>=◌
settle_run tx acc payer_reserve j e =
    λ i. (e i, (charge_sponsor tx payer_reserve (set tx.from acc j).1).1)

apply_asset_transfer_ok :
    (tx : Transaction) (reserve payer_reserve : ℕ) (j : Journal) {j' : Journal}
    → apply_asset_transfer tx reserve payer_reserve j ≡ (ok tt, j')
    → total_balance j'.state + tx.fee ≡ total_balance j.state
unfolding apply_asset_transfer read set
apply_asset_transfer_ok tx reserve payer_reserve j {j' = j'} e =
    let (_, e₁) = raise_if_ok _ _ _ j e in
    let (e₂, nonce, enough) = spendable_ok tx (sender_fee tx) reserve _ j e₁ in
    let (_, e₃) = raise_if_ok _ _ _ j e₂ in
    let acc =
      with_asset_delta tx.asset_id (sub64 0 tx.amount)
        (debited (sender_fee tx) (get tx.from j.state)) in
    let e₄ = set_ok tx.from acc _ j e₃ in
    let (_, paid, e₅) = bind_ok (charge_sponsor tx payer_reserve) _ (set tx.from acc j).1 e₄ in
    let k = (charge_sponsor tx payer_reserve (set tx.from acc j).1).1 in
    let e₆ = read_ok tx.to _ k e₅ in
    let settled =
      settle_ok tx acc payer_reserve j {j' = k} (omega arith)
        (settle_run tx acc payer_reserve j paid) in
    let moved =
      total_balance-write_same tx.to (with_asset_delta tx.asset_id tx.amount (get tx.to k.state))
        k.state refl in
    omega (
      arith,
      settled,
      moved,
      ap (λ (r : Journal). total_balance r.state)
          (ap (λ (r : Result TxError (Unit {0}) × Journal). r.1) e₆),
    )

-- The name record is written over an entry that holds no coin.
module _ (tx : Transaction) (op : NameOp) (acc : Account) (r : Account) (j : Journal) where
  abbrev name_key : Str
  name_key = name_state_key op.name

  record_write_ok :
      (clean : IsClean tx)
      → IsMap j.state
      → (get name_key j.state).balance ≡ 0
      → r.balance ≡ 0
      → total_balance (write name_key r (write tx.from acc j.state))
        ≡ total_balance (write tx.from acc j.state)
  record_write_ok clean m bare none_left = ground (
    arith,
    total_balance-write name_key r (write tx.from acc j.state),
    lookup-write tx.from acc name_key j.state m,
    str_eq_iff tx.from name_key,
    name_state_key-IsNameKey op.name,
    ap is_name_key,
  )

sender_fee-add : (tx : Transaction) → sender_fee tx + sponsor_fee tx ≡ tx.fee
unfolding sender_fee
sender_fee-add tx = ground arith

apply_name_op_ok :
    (tx : Transaction) (op : NameOp) (height reserve payer_reserve : ℕ) (j : Journal) {j' : Journal}
    → IsClean tx
    → IsMap j.state
    → (get (name_state_key op.name) j.state).balance ≡ 0
    → apply_name_op tx op height reserve payer_reserve j ≡ (ok tt, j')
    → total_balance j'.state + tx.fee ≡ total_balance j.state
unfolding apply_name_op checked set
apply_name_op_ok tx op height reserve payer_reserve j {j' = j'} clean m bare e =
    let (_, _, e₁) = bind_ok (checked (validate_name_op op)) _ j e in
    let (e₂, nonce, enough) = spendable_ok tx (sender_fee tx) reserve _ j e₁ in
    let e₃ = read_ok (name_state_key op.name) _ j e₂ in
    let (rec, _, e₄) = bind_ok (checked (next_record op.op op tx.from height _)) _ j e₃ in
    let acc = debited (sender_fee tx) (get tx.from j.state) in
    let e₅ = set_ok tx.from acc _ j e₄ in
    let k = (set tx.from acc j).1 in
    let e₆ = set_ok (name_state_key op.name) (stored_record rec) _ k e₅ in
    omega (
      arith,
      total_balance-write tx.from acc j.state,
      record_write_ok tx op acc (stored_record rec) j clean m bare (stored_record-balance rec),
      charge_sponsor_ok tx payer_reserve (set (name_state_key op.name) (stored_record rec) k).1 e₆,
      sender_fee-add tx,
    )

-- No name record holds coin.
abbrev pub NamesHoldNoCoin : State → Type 0
NamesHoldNoCoin s = (k : Str) → is_name_key k ≡ true → (get k s).balance ≡ 0

module _ (env : Env) (tx : Transaction) (height reserve payer_reserve : ℕ) where
  apply_kind_ok :
      (n : Option NameOp) (i : Option AssetIssue) (o : Option AssetOp) (j : Journal) {j' : Journal}
      → IsTx tx
      → IsClean tx
      → IsMap j.state
      → NamesHoldNoCoin j.state
      → total_balance j.state < 2 ^ 64
      → apply_kind env tx n i o height reserve payer_reserve j ≡ (ok tt, j')
      → total_balance j'.state + tx.fee ≡ total_balance j.state
  unfolding apply_kind
  apply_kind_ok (some op) i o j h c m bare room e =
      apply_name_op_ok tx op height reserve payer_reserve j c m
        (bare _ (name_state_key-IsNameKey op.name)) e
  apply_kind_ok none (some i) o j h c m bare room e =
      apply_issue_ok env tx i reserve payer_reserve j e
  apply_kind_ok none none (some o) j h c m bare room e =
      apply_asset_op_ok env tx o reserve payer_reserve j e
  apply_kind_ok none none none j h c m bare room e = elim (Bool-cases (is_asset_transfer tx)) [
    | inl asset ↦ apply_asset_transfer_ok tx reserve payer_reserve j (rw asset at e)
    | inr plain ↦ apply_transfer_ok tx reserve payer_reserve j h room (rw plain at e)
  ]

  -- One transaction that is applied takes its fee, and nothing else, out of what accounts hold.
  pub apply_tx_to_ok :
      (j : Journal) {j' : Journal}
      → IsTx tx
      → IsClean tx
      → IsMap j.state
      → NamesHoldNoCoin j.state
      → total_balance j.state < 2 ^ 64
      → apply_tx_to env tx height reserve payer_reserve j ≡ (ok tt, j')
      → total_balance j'.state + tx.fee ≡ total_balance j.state
  unfolding apply_tx_to checked
  apply_tx_to_ok j h c m bare room e =
      let (_, _, e₁) = bind_ok (checked _) _ j e in
      apply_kind_ok tx.name tx.issue tx.asset_op j h c m bare room e₁
