-- ===== src/Core/Ledger/Keeps/Block.antt =====
-- core/blockchain.go: the loop over a block's transactions, the coinbase and the closing check keep
-- whatever the writes of the operations keep.
use dnas.Base.{ℕ, ◌+◌, ◌-◌, List, [], ◌∷◌, add64, arith}
use dnas.Base.Str.{Str}
use dnas.Core.Tx.{Transaction}
use dnas.Core.Tx.Codec.{tx_hash}
use dnas.Core.Tx.Sanity.{check_tx_sanity}
use dnas.Core.Env.{Env}
use dnas.Core.Block.{Block, base_fee_for}
use dnas.Core.Ledger.{Account, Journal, get, set}
use dnas.Core.Ledger.Block.{
  paid, apply_one, apply_txs, pay_coinbase, conserve, close_block, apply_all,
}
use dnas.Core.Ledger.Clean.{check_tx_sanity-IsClean}
use dnas.Core.Ledger.Keeps.{
  Keeps, rules, after_tx-keep, and_then-keep, checked_bind-Keeps, then-Keeps, raise_if-Keeps,
}
use dnas.Core.Ledger.Keeps.Ops.{IsKept, apply_tx_to-Keeps}

module _ {P : Journal → Type 0} (kept : IsKept P) (env : Env) (blocks : List Block)
    (height base_fee : ℕ) where
  pub apply_one-Keeps :
      (tx : Transaction) (seen : List Str) → Keeps P (apply_one env blocks height base_fee tx seen)
  unfolding apply_one
  apply_one-Keeps tx seen = then-Keeps (raise_if-Keeps _ _) (
      checked_bind-Keeps (check_tx_sanity env tx) λ _ sane.
        let c = check_tx_sanity-IsClean env tx sane in
        search (rules, apply_tx_to-Keeps kept) depth 16)

  pub apply_txs-keep :
      (i : ℕ) (txs : List Transaction) (seen : List Str) (tips burned : ℕ) (j : Journal)
      → P j
      → P (apply_txs env blocks height base_fee i txs seen tips burned j).1
  unfolding apply_txs
  apply_txs-keep i [] seen tips burned j h = h
  apply_txs-keep i (tx ∷ txs) seen tips burned j h =
      after_tx-keep i _ (apply_one env blocks height base_fee tx seen j).0
        (apply_one env blocks height base_fee tx seen j).1
        (apply_txs-keep (i + 1) txs (tx_hash env tx ∷ seen)
          (add64 tips (tx.fee - base_fee_for env tx base_fee))
          (add64 burned (base_fee_for env tx base_fee)))
        ((apply_one-Keeps tx seen).keep j h)

  pay_coinbase-keep :
      (cb : Transaction) (tips : ℕ) (j : Journal)
      → ((acc : Account) → Keeps P (set cb.to acc))
      → P j
      → P (pay_coinbase env blocks height base_fee cb tips j).1
  unfolding pay_coinbase set
  pay_coinbase-keep cb tips j ks h =
      ground (arith, (ks (paid (get cb.to j.state) cb.amount)).keep j h)

  close_block-keep :
      (cb : Transaction) (txs : List Transaction) (sums : ℕ × ℕ) (j : Journal)
      → ((acc : Account) → Keeps P (set cb.to acc))
      → P j
      → P (close_block env blocks height base_fee cb txs sums j).1
  unfolding close_block
  close_block-keep cb txs (tips, burned) j ks h =
      and_then-keep {P = P} (λ _. conserve env blocks height base_fee txs burned)
        (pay_coinbase env blocks height base_fee cb tips j).0
        (pay_coinbase env blocks height base_fee cb tips j).1 (λ _ k hk. unfold conserve in hk)
        (pay_coinbase-keep cb tips j ks h)

  pub apply_all-keep :
      (cb : Transaction) (txs : List Transaction) (j : Journal)
      → ((acc : Account) → Keeps P (set cb.to acc))
      → P j
      → P (apply_all env blocks height base_fee cb txs j).1
  unfolding apply_all
  apply_all-keep cb txs j ks h =
      and_then-keep {P = P} (close_block env blocks height base_fee cb txs)
        (apply_txs env blocks height base_fee 1 txs [] 0 0 j).0
        (apply_txs env blocks height base_fee 1 txs [] 0 0 j).1
        (λ sums k. close_block-keep cb txs sums k ks) (apply_txs-keep 1 txs [] 0 0 j h)
