-- ===== src/Core/Ledger/Coin/Block.antt =====
-- core/blockchain.go, core/conservation.go: what a block does to the coin that all accounts hold.
use dnas.Base.{
  ℕ, ◌+◌, ◌-◌, ◌^◌, ◌<◌, ◌≤◌, ◌≡◌, refl, ltb, true, if◌then◌else◌, List, [], ◌∷◌, All, add64, arith,
  ap, ◌∙◌, subst,
}
use dnas.Base.Str.{Str, str_eq_iff}
use dnas.Base.Map.{IsMap}
use dnas.Base.Result.{Result, ok, err}
use dnas.Core.Tx.{Transaction}
use dnas.Core.Tx.Errors.{TxError}
use dnas.Core.Tx.Codec.{tx_hash}
use dnas.Core.Tx.Shape.{is_name_key}
use dnas.Core.Tx.Sanity.{check_tx_sanity}
use dnas.Core.Env.{Env}
use dnas.Core.Block.{Block, BlockError, base_fee_for, tips_from, burned_from}
use dnas.Core.Ledger.{Account, State, Journal, checked, write, set}
use dnas.Core.Ledger.Block.{BlockAction, after_tx, and_then, apply_one, apply_txs}
use dnas.Core.Ledger.Clean.{check_tx_sanity-IsClean}
use dnas.Core.Ledger.Undo.{write-IsMap, lookup-write}
use dnas.Core.Ledger.Keeps.Ops.{IsKept}
use dnas.Core.Ledger.Keeps.Block.{apply_one-Keeps}
use dnas.Core.Ledger.Coin.{total_balance, IsTx, bind_ok, raise_if_ok}
use dnas.Core.Ledger.Coin.Ops.{NamesHoldNoCoin, apply_tx_to_ok}

-- The ledger is a map in which no name record holds coin.
pub record IsLedger (s : State) : Type 0 where
  pub is_map : IsMap s
  pub names_bare : NamesHoldNoCoin s

pub write-IsLedger :
    (a : Str) (acc : Account) (s : State)
    → IsLedger s
    → (is_name_key a ≡ true → acc.balance ≡ 0)
    → IsLedger (write a acc s)
write-IsLedger a acc s l fit = record {
  is_map = write-IsMap a acc s l.is_map;
  names_bare = λ k named. ground (
    arith,
    lookup-write a acc k s l.is_map,
    str_eq_iff a k,
    l.names_bare k named,
    ap is_name_key {x = a} {y = k},
    fit,
  );
}

pub IsLedger-IsKept : IsKept (λ j. IsLedger j.state)
unfolding set
IsLedger-IsKept = record {
  plain = λ a acc p. record { keep = λ j l. write-IsLedger a acc j.state l (λ named. cc) };
  bare = λ a acc p. record { keep = λ j l. write-IsLedger a acc j.state l (λ _. p) };
}

module _ (env : Env) (blocks : List Block) (height base_fee : ℕ) where
  apply_one_ok :
      (tx : Transaction) (seen : List Str) (j : Journal) {j' : Journal}
      → IsTx tx
      → IsLedger j.state
      → total_balance j.state < 2 ^ 64
      → apply_one env blocks height base_fee tx seen j ≡ (ok tt, j')
      → (total_balance j'.state + tx.fee ≡ total_balance j.state)
        × (base_fee_for env tx base_fee ≤ tx.fee)
  unfolding apply_one checked
  apply_one_ok tx seen j h l room e =
      let (_, e₁) = raise_if_ok _ _ _ j e in
      let (_, sane, e₂) = bind_ok (checked (check_tx_sanity env tx)) _ j e₁ in
      let (_, _, e₃) = bind_ok (checked _) _ j e₂ in
      let (enough, e₄) = raise_if_ok _ _ _ j e₃ in
      let (_, e₅) = raise_if_ok _ _ _ j e₄ in
      (
        apply_tx_to_ok env tx height _ _ j h (check_tx_sanity-IsClean env tx sane) l.is_map
            l.names_bare room e₅,
        ground arith,
      )

after_tx_ok :
    {A : Type 0} (i : ℕ) (rest : BlockAction A) (r : Result TxError (Unit {0})) (k : Journal)
    {a : A} {j' : Journal}
    → after_tx i rest r k ≡ (ok a, j')
    → (r ≡ ok tt) × (rest k ≡ (ok a, j'))
after_tx_ok i rest (ok _) k e = (refl, e)
after_tx_ok i rest (err x) k e = cc

pub and_then_ok :
    {A B : Type 0} (rest : A → BlockAction B) (r : Result BlockError A) (k : Journal) {b : B}
    {j' : Journal}
    → and_then rest r k ≡ (ok b, j')
    → (a : A) × (r ≡ ok a) × (rest a k ≡ (ok b, j'))
and_then_ok rest (ok a) k e = (a, refl, e)
and_then_ok rest (err x) k e = cc

tip_step :
    (tips least fee : ℕ)
    → least ≤ fee
    → tips < 2 ^ 64
    → add64 tips (fee - least) ≡ (if ltb least fee then add64 tips (fee - least) else tips)
tip_step tips least fee enough room = ground arith

module _ (env : Env) (blocks : List Block) (height base_fee : ℕ) where
  -- The sums of the loop are those of `Tips` and `blockBurned`, and what accounts hold falls by them.
  pub apply_txs_ok :
      (i : ℕ) (txs : List Transaction) (seen : List Str) (tips burned : ℕ) (j : Journal) {t b : ℕ}
      {j' : Journal}
      → All IsTx txs
      → IsLedger j.state
      → total_balance j.state + tips + burned < 2 ^ 64
      → apply_txs env blocks height base_fee i txs seen tips burned j ≡ (ok (t, b), j')
      → (total_balance j'.state + t + b ≡ total_balance j.state + tips + burned)
        × (t ≡ tips_from env txs base_fee tips)
        × (b ≡ burned_from env txs base_fee burned)
        × IsLedger j'.state
  unfolding apply_txs tips_from burned_from
  apply_txs_ok i [] seen tips burned j {j' = j'} h l room e =
      (ground arith, ground arith, ground arith, subst (λ k. IsLedger k.state) (ap (λ r. r.1) e) l)
  apply_txs_ok i (tx ∷ txs) seen tips burned j {t = t} {b = b} {j' = j'} h l room e =
      let m = apply_one env blocks height base_fee tx seen j in
      let rest =
        apply_txs env blocks height base_fee (i + 1) txs (tx_hash env tx ∷ seen)
          (add64 tips (tx.fee - base_fee_for env tx base_fee))
          (add64 burned (base_fee_for env tx base_fee)) in
      let (fine, e₁) = after_tx_ok i rest m.0 m.1 e in
      let (took, enough) =
        apply_one_ok env blocks height base_fee tx seen j h.0 l (omega arith)
          (λ i. (fine i, m.1)) in
      let l' = (apply_one-Keeps IsLedger-IsKept env blocks height base_fee tx seen).keep j l in
      let ih =
        apply_txs_ok (i + 1) txs (tx_hash env tx ∷ seen)
          (add64 tips (tx.fee - base_fee_for env tx base_fee))
          (add64 burned (base_fee_for env tx base_fee)) m.1 h.1 l' (omega arith) e₁ in
      (
        omega (arith, ih.0),
        ih.1 ∙ ap (tips_from env txs base_fee) (tip_step tips _ tx.fee enough (omega arith)),
        ih.2,
        ih.3,
      )
