-- ===== src/Core/Ledger/Coin.antt =====
-- core/conservation.go, core/blockchain.go: the coin that all accounts hold, and how the steps of
-- an operation move it.
pub mod Ops
pub mod Block
pub mod Issuance
use dnas.Base.{
  ℕ, ◌+◌, ◌-◌, ◌^◌, ◌≤◌, ◌<◌, ◌≡◌, refl, ltb, ◌==◌, if◌then◌else◌, Bool, true, false, not, ◌&&◌,
  Option, none, some, List, [], ◌∷◌, All, IsU64, add64, arith, ⊤, Option-cases, ◌⊎◌, inl, inr,
}
use dnas.Base.Str.{Str}
use dnas.Base.Map.{Map, lookup}
use dnas.Base.Map.Sum.{sum_by, weight, sum_by-put, sum_by-delete, weight-le-sum_by}
use dnas.Base.Result.{Result, ok, err, or_fail}
use dnas.Core.Tx.{
  Output, Transaction, is_sponsored, is_multi_output, sum_outputs, total_out, recipients,
  sender_fee,
}
use dnas.Core.Tx.Errors.{TxError}
use dnas.Core.Ledger.{
  Account, or_zero_account, is_empty_account, State, get, Journal, Action, continue, ◌>>=◌, ◌>>◌,
  raise_if, pure, read, checked, write, set, steps,
}
use dnas.Core.Ledger.Apply.{
  debited, spendable, charge_sponsor, credit, credit_all, move_coin, apply_transfer,
}

-- The coin that all accounts hold, not reduced modulo 2 ^ 64.
unfoldable pub total_balance : State → ℕ
unfolding sum_by
total_balance = sum_by (λ a. a.balance)

weight-get : (o : Option Account) → weight (λ a. a.balance) o ≡ (or_zero_account o).balance
weight-get none = refl
weight-get (some a) = refl

pub balance-le-total : (a : Str) (s : State) → (get a s).balance ≤ total_balance s
unfolding total_balance
balance-le-total a s =
    ground (arith, weight-le-sum_by (λ a. a.balance) a s, weight-get (lookup a s))

-- A write replaces one balance.
pub total_balance-write :
    (a : Str) (acc : Account) (s : State)
    → total_balance (write a acc s) + (get a s).balance ≡ total_balance s + acc.balance
unfolding total_balance write is_empty_account
total_balance-write a acc s = ground (
  arith,
  sum_by-put (λ a. a.balance) a acc s,
  sum_by-delete (λ a. a.balance) a s,
  weight-get (lookup a s),
)

-- The sum of the amounts, not reduced.
abbrev pub amounts : List Output → ℕ
amounts [] = 0
amounts (o ∷ os) = o.amount + amounts os

pub sum_outputs-amounts :
    (total : ℕ) (os : List Output) {t : ℕ}
    → IsU64 total
    → All (λ o. IsU64 o.amount) os
    → sum_outputs total os ≡ some t
    → (t ≡ total + amounts os) × IsU64 t
unfolding sum_outputs
sum_outputs-amounts total [] h ho e = ground arith
sum_outputs-amounts total (o ∷ os) {t = t} h ho e =
    ground (arith, sum_outputs-amounts (add64 total o.amount) os {t = t} (omega arith) ho.1)

-- The fields of a transaction fit their Go types.
pub record IsTx (tx : Transaction) : Type 0 where
  pub amount_u64 : IsU64 tx.amount
  pub fee_u64 : IsU64 tx.fee
  pub outputs_u64 : All (λ o. IsU64 o.amount) tx.outputs

-- What the sponsor pays.
abbrev pub sponsor_fee : Transaction → ℕ
sponsor_fee tx = if is_sponsored tx then tx.fee else 0

pub total_out-amounts :
    (tx : Transaction) {t : ℕ}
    → IsTx tx
    → total_out tx ≡ some t
    → (t ≡ amounts (recipients tx)) × IsU64 t
unfolding total_out recipients
total_out-amounts tx {t = t} h e =
    ground (arith, sum_outputs-amounts 0 tx.outputs {t = t} (omega arith) h.outputs_u64)

continue_ok :
    {A B : Type 0} (f : A → Action B) (r : Result TxError A) (k : Journal) {b : B} {j' : Journal}
    → continue f r k ≡ (ok b, j')
    → (a : A) × (r ≡ ok a) × (f a k ≡ (ok b, j'))
continue_ok f (ok a) k e = (a, refl, e)
continue_ok f (err x) k e = cc

-- Inversion of a bind that succeeded.
pub bind_ok :
    {A B : Type 0} (m : Action A) (f : A → Action B) (j : Journal) {b : B} {j' : Journal}
    → (m >>= f) j ≡ (ok b, j')
    → (a : A) × ((m j).0 ≡ ok a) × (f a (m j).1 ≡ (ok b, j'))
unfolding ◌>>=◌
bind_ok m f j e = continue_ok f (m j).0 (m j).1 e

pub raise_if_ok :
    {B : Type 0} (c : Bool) (x : TxError) (k : Action B) (j : Journal) {b : B} {j' : Journal}
    → (raise_if c x >> k) j ≡ (ok b, j')
    → (c ≡ false) × (k j ≡ (ok b, j'))
unfolding raise_if ◌>>=◌
raise_if_ok false x k j e = (refl, e)
raise_if_ok true x k j e = cc

pub read_ok :
    {B : Type 0} (a : Str) (f : Account → Action B) (j : Journal) {x : Result TxError B × Journal}
    → (read a >>= f) j ≡ x
    → f (get a j.state) j ≡ x
unfolding read ◌>>=◌
read_ok a f j e = e

pub set_ok :
    {B : Type 0} (a : Str) (acc : Account) (k : Action B) (j : Journal)
    {x : Result TxError B × Journal}
    → (set a acc >> k) j ≡ x
    → k (set a acc j).1 ≡ x
unfolding set ◌>>=◌
set_ok a acc k j e = e

spendable_cases :
    (tx : Transaction) (total reserve : ℕ) (j : Journal) {sender : Account}
    → (spendable tx total reserve j).0 ≡ ok sender
    → (sender ≡ get tx.from j.state)
      × ((spendable tx total reserve j).1 ≡ j)
      × (tx.nonce ≡ (get tx.from j.state).nonce)
      × (total ≤ (get tx.from j.state).balance)
unfolding spendable steps
spendable_cases tx total reserve j e = ground arith

-- What a success says about the sender, and where the operation goes on.
pub spendable_ok :
    {B : Type 0} (tx : Transaction) (total reserve : ℕ) (f : Account → Action B) (j : Journal)
    {b : B} {j' : Journal}
    → (spendable tx total reserve >>= f) j ≡ (ok b, j')
    → (f (get tx.from j.state) j ≡ (ok b, j'))
      × (tx.nonce ≡ (get tx.from j.state).nonce)
      × (total ≤ (get tx.from j.state).balance)
spendable_ok tx total reserve f j e =
    let (sender, found, rest) = bind_ok (spendable tx total reserve) f j e in
    let (same, still, nonce, enough) = spendable_cases tx total reserve j found in
    (rw (same, still) at rest, nonce, enough)

pub charge_sponsor_ok :
    (tx : Transaction) (reserve : ℕ) (j : Journal) {j' : Journal}
    → charge_sponsor tx reserve j ≡ (ok tt, j')
    → total_balance j'.state + sponsor_fee tx ≡ total_balance j.state
unfolding charge_sponsor steps
charge_sponsor_ok tx reserve j e = ground (
  arith,
  total_balance-write tx.fee_payer
      (record (get tx.fee_payer j.state) { balance = (get tx.fee_payer j.state).balance - tx.fee })
      j.state,
)

-- The end of four operations: the sender is written with the fee taken off, the sponsor pays.
pub settle_ok :
    (tx : Transaction) (acc : Account) (payer_reserve : ℕ) (j : Journal) {j' : Journal}
    → acc.balance + sender_fee tx ≡ (get tx.from j.state).balance
    → (set tx.from acc >> charge_sponsor tx payer_reserve) j ≡ (ok tt, j')
    → total_balance j'.state + tx.fee ≡ total_balance j.state
unfolding set ◌>>=◌ sender_fee
settle_ok tx acc payer_reserve j {j' = j'} paid e = ground (
  arith,
  total_balance-write tx.from acc j.state,
  charge_sponsor_ok tx payer_reserve (set tx.from acc j).1 {j' = j'} e,
)

pub credit_ok :
    (o : Output) (j : Journal) {j' : Journal}
    → total_balance j.state + o.amount < 2 ^ 64
    → credit o j ≡ (ok tt, j')
    → total_balance j'.state ≡ total_balance j.state + o.amount
unfolding credit steps
credit_ok o j room e = ground (
  arith,
  balance-le-total o.to j.state,
  total_balance-write o.to
      (record (get o.to j.state) { balance = add64 (get o.to j.state).balance o.amount }) j.state,
)

pub credit_all_ok :
    (os : List Output) (j : Journal) {j' : Journal}
    → total_balance j.state + amounts os < 2 ^ 64
    → credit_all os j ≡ (ok tt, j')
    → total_balance j'.state ≡ total_balance j.state + amounts os
unfolding credit_all
credit_all_ok [] j room e = unfold pure in ground arith
credit_all_ok (o ∷ os) j room e =
    let (a, m, rest) = bind_ok (credit o) _ j e in
    let one = credit_ok o j {j' = (credit o j).1} (omega arith) (ground arith) in
    ground (arith, credit_all_ok os (credit o j).1 (omega arith) rest)

module _ (tx : Transaction) (out payer_reserve : ℕ) (j : Journal) where
  -- The journal after the debit, and after the sponsor is charged.
  abbrev after_debit : Journal
  unfolding sender_fee set
  after_debit = (set tx.from (debited (add64 out (sender_fee tx)) (get tx.from j.state)) j).1

  abbrev after_sponsor : Journal
  unfolding sender_fee set
  after_sponsor = (charge_sponsor tx payer_reserve after_debit).1

  move_coin_ok :
      (reserve : ℕ) {j' : Journal}
      → IsTx tx
      → IsU64 out
      → out ≡ amounts (recipients tx)
      → total_balance j.state < 2 ^ 64
      → move_coin tx out reserve payer_reserve j ≡ (ok tt, j')
      → total_balance j'.state + tx.fee ≡ total_balance j.state
  unfolding move_coin spendable steps
  move_coin_ok reserve h hu eq room e = ground (
    arith,
    total_balance-write tx.from (debited (add64 out (sender_fee tx)) (get tx.from j.state)) j.state,
    charge_sponsor_ok tx payer_reserve after_debit {j' = after_sponsor},
    credit_all_ok (recipients tx) after_sponsor {j' = (credit_all (recipients tx) after_sponsor).1},
  )

-- A coin transfer moves coin between accounts: what is missing afterwards is the fee.
pub apply_transfer_ok :
    (tx : Transaction) (reserve payer_reserve : ℕ) (j : Journal) {j' : Journal}
    → IsTx tx
    → total_balance j.state < 2 ^ 64
    → apply_transfer tx reserve payer_reserve j ≡ (ok tt, j')
    → total_balance j'.state + tx.fee ≡ total_balance j.state
unfolding apply_transfer checked
apply_transfer_ok tx reserve payer_reserve j h room e =
    let (out, found, rest) =
      bind_ok (checked (or_fail (total_out tx) TxError.outputs_overflow)) _ j e in
    let sums = total_out-amounts tx {t = out} h (ground arith) in
    move_coin_ok tx out payer_reserve j reserve h sums.1 sums.0 room rest
