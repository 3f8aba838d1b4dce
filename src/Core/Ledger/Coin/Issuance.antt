-- ===== src/Core/Ledger/Coin/Issuance.antt =====
-- core/blockchain.go, core/supply.go: a block that applies changes the coin in existence by its
-- subsidy and by what it burns, and by nothing else.
use dnas.Base.{
  ℕ, ◌+◌, ◌^◌, ◌<◌, ◌≡◌, refl, false, List, [], ◌∷◌, All, add64, arith, tail, take, ap, subst, ◌∙◌,
  sym,
}
use dnas.Base.Result.{Result, ok, err}
use dnas.Core.Params.{block_reward}
use dnas.Core.Tx.{Transaction}
use dnas.Core.Tx.Shape.{is_name_key}
use dnas.Core.Env.{Env}
use dnas.Core.Block.{Block, BlockError, burned_from, coinbase_amount, block_burned, tips_of}
use dnas.Core.Ledger.{State, UndoEntry, get, Journal, write}
use dnas.Core.Ledger.Block.{
  paid, apply_txs, pay_coinbase, conserve, close_block, apply_all, finish, apply_list,
  apply_txs_and_coinbase,
}
use dnas.Core.Ledger.Coin.{total_balance, total_balance-write, balance-le-total, IsTx}
use dnas.Core.Ledger.Coin.Block.{IsLedger, write-IsLedger, and_then_ok, apply_txs_ok}

finish_ok :
    (r : Result BlockError (Unit {0})) (j : Journal) {undo : List UndoEntry} {s' : State}
    → finish (r, j) ≡ (ok undo, s')
    → (r ≡ ok tt) × (j.state ≡ s') × (j.undo ≡ undo)
unfolding finish
finish_ok (ok _) j e = (refl, ap (λ r. r.1) e, cc)
finish_ok (err x) j e = cc

module _ (env : Env) (blocks : List Block) (height base_fee : ℕ) where
  pay_coinbase_ok :
      (cb : Transaction) (tips : ℕ) (j : Journal) {j' : Journal}
      → total_balance j.state < 2 ^ 64
      → pay_coinbase env blocks height base_fee cb tips j ≡ (ok tt, j')
      → (cb.amount ≡ add64 (block_reward height) tips)
        × (total_balance j'.state ≡ total_balance j.state + cb.amount)
        × (j'.state ≡ write cb.to (paid (get cb.to j.state) cb.amount) j.state)
  unfolding pay_coinbase
  pay_coinbase_ok cb tips j room e =
      let amt = add64 (block_reward height) tips in
      let a = cb.amount in
      let acc = get cb.to j.state in
      ground (
        arith,
        balance-le-total cb.to j.state,
        total_balance-write cb.to (paid acc cb.amount) j.state,
      )

  conserve_ok :
      (txs : List Transaction) (burned : ℕ) (j : Journal) {j' : Journal}
      → conserve env blocks height base_fee txs burned j ≡ (ok tt, j')
      → j ≡ j'
  unfolding conserve
  conserve_ok txs burned j e = ap (λ r. r.1) e

  apply_all_ok :
      (cb : Transaction) (txs : List Transaction) (s : State) {j' : Journal}
      → All IsTx txs
      → IsLedger s
      → total_balance s + block_reward height < 2 ^ 64
      → apply_all env blocks height base_fee cb txs (record { state = s; undo = [] }) ≡ (ok tt, j')
      → (total_balance j'.state + burned_from env txs base_fee 0
          ≡ total_balance s + block_reward height)
        × (cb.amount ≡ coinbase_amount env height txs base_fee)
        × ((is_name_key cb.to ≡ false) → IsLedger j'.state)
  unfolding apply_all close_block coinbase_amount tips_of
  apply_all_ok cb txs s {j' = j'} h l room e =
      let (r, k) =
        apply_txs env blocks height base_fee 1 txs [] 0 0 (record { state = s; undo = [] }) in
      let ((t, b), e₁, e₂) = and_then_ok (close_block env blocks height base_fee cb txs) r k e in
      let (spent, t_eq, b_eq, l') =
        apply_txs_ok env blocks height base_fee 1 txs [] 0 0 _ {j' = k} h l (omega arith)
          (λ i. (e₁ i, k)) in
      let (p, m) = pay_coinbase env blocks height base_fee cb t k in
      let (_, e₃, e₄) = and_then_ok (λ _. conserve env blocks height base_fee txs b) p m e₂ in
      let same = conserve_ok txs b m e₄ in
      let (amount, added, wrote) = pay_coinbase_ok cb t k {j' = m} (omega arith) (λ i. (e₃ i, m)) in
      (
        omega (arith, ap (λ q. total_balance q.state) same),
        amount ∙ ap (add64 (block_reward height)) t_eq,
        λ plain.
            subst IsLedger (sym wrote ∙ ap (λ q. q.state) same)
              (write-IsLedger cb.to (paid (get cb.to k.state) cb.amount) k.state l' (λ named. cc)),
      )

apply_list_ok :
    (env : Env) (blocks : List Block) (block : Block) (txs : List Transaction) (s : State)
    {undo : List UndoEntry} {s' : State}
    → All IsTx (tail txs)
    → IsLedger s
    → total_balance s + block_reward block.index < 2 ^ 64
    → apply_list env blocks block txs s ≡ (ok undo, s')
    → (total_balance s' + burned_from env (tail txs) block.base_fee 0
        ≡ total_balance s + block_reward block.index)
      × (cb : Transaction) × (txs ≡ cb ∷ tail txs)
      × (cb.amount ≡ coinbase_amount env block.index (tail txs) block.base_fee)
      × ((is_name_key cb.to ≡ false) → IsLedger s')
unfolding apply_list
apply_list_ok env blocks block [] s h l room e = cc
apply_list_ok env blocks block (cb ∷ txs) s h l room e =
    let (r, j) =
      apply_all env blocks block.index block.base_fee cb txs (record { state = s; undo = [] }) in
    let (fine, same, _) = finish_ok r j e in
    let (bal, amount, kept) =
      apply_all_ok env blocks block.index block.base_fee cb txs s {j' = j} h l room
        (λ i. (fine i, j)) in
    (
      omega (arith, bal, ap total_balance same),
      cb,
      refl,
      amount,
      λ plain. subst IsLedger same (kept plain),
    )

-- When the transactions of a block apply, the balances of the ledger and the fees the block burned
-- add up to the balances before and the subsidy of its height: a block creates no other coin and
-- destroys no other. (The ledger has no key twice and no coin under a name record's key, every
-- amount and fee fits 64 bits, and what exists and the subsidy fit 64 bits together.)
pub apply_txs_and_coinbase-total_balance :
    (env : Env) (blocks : List Block) (block : Block) (s : State) {undo : List UndoEntry}
    {s' : State}
    → All IsTx (tail block.transactions)
    → IsLedger s
    → total_balance s + block_reward block.index < 2 ^ 64
    → apply_txs_and_coinbase env blocks block s ≡ (ok undo, s')
    → total_balance s' + block_burned env block ≡ total_balance s + block_reward block.index
unfolding apply_txs_and_coinbase block_burned
apply_txs_and_coinbase-total_balance env blocks block s h l room e =
    (apply_list_ok env blocks block block.transactions s h l room e).0

-- A block that applies pays its coinbase exactly the subsidy of its height and the tips of its
-- transactions, as `CoinbaseAmount` computes it. (The ledger has no key twice and no coin under a name
-- record's key, every amount and fee fits 64 bits, and what exists and the subsidy fit 64 bits
-- together.)
pub apply_txs_and_coinbase-coinbase_amount :
    (env : Env) (blocks : List Block) (block : Block) (s : State) {undo : List UndoEntry}
    {s' : State}
    → All IsTx (tail block.transactions)
    → IsLedger s
    → total_balance s + block_reward block.index < 2 ^ 64
    → apply_txs_and_coinbase env blocks block s ≡ (ok undo, s')
    → (cb : Transaction) × (block.transactions ≡ cb ∷ tail block.transactions)
      × (cb.amount ≡ coinbase_amount env block.index (tail block.transactions) block.base_fee)
unfolding apply_txs_and_coinbase
apply_txs_and_coinbase-coinbase_amount env blocks block s h l room e =
    let (_, cb, first, amount, _) =
      apply_list_ok env blocks block block.transactions s h l room e in
    (cb, first, amount)

-- A ledger with no key twice and no coin under a name record's key is one again after a block that
-- applies. (The coinbase does not pay to a name record's key, every amount and fee fits 64 bits, and
-- what exists and the subsidy fit 64 bits together.)
pub apply_txs_and_coinbase-IsLedger :
    (env : Env) (blocks : List Block) (block : Block) (s : State) {undo : List UndoEntry}
    {s' : State}
    → All IsTx (tail block.transactions)
    → All (λ tx. is_name_key tx.to ≡ false) (take 1 block.transactions)
    → IsLedger s
    → total_balance s + block_reward block.index < 2 ^ 64
    → apply_txs_and_coinbase env blocks block s ≡ (ok undo, s')
    → IsLedger s'
unfolding apply_txs_and_coinbase
apply_txs_and_coinbase-IsLedger env blocks block s h plain l room e =
    let (_, cb, first, _, kept) = apply_list_ok env blocks block block.transactions s h l room e in
    kept (subst (λ txs. All (λ tx. is_name_key tx.to ≡ false) (take 1 txs)) first plain).0
