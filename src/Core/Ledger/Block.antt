-- ===== src/Core/Ledger/Block.antt =====
-- core/blockchain.go: `applyTxsAndCoinbase`. The transactions come without the coinbase, which is
-- the first of the block's list.
use dnas.Base.{ℕ, ◌+◌, ◌-◌, ltb, ◌==◌, if◌then◌else◌, not, List, [], ◌∷◌, ◌++◌, add64}
use dnas.Base.Str.{Str}
use dnas.Base.Map.{lookup}
use dnas.Base.Result.{Result, ok, err}
use dnas.Core.Params.{block_reward}
use dnas.Core.Tx.{Transaction, is_coinbase, is_sponsored}
use dnas.Core.Tx.Errors.{TxError}
use dnas.Core.Tx.Codec.{tx_hash}
use dnas.Core.Tx.Sanity.{check_tx_sanity}
use dnas.Core.Tx.Height.{check_tx_at_height}
use dnas.Core.Tx.Auth.{contains}
use dnas.Core.Env.{Env}
use dnas.Core.Block.{
  Block, BlockError, tx_rejection, no_coinbase, bad_coinbase_amount, coinbase_overflow,
  base_fee_for, immature_coinbase,
}
use dnas.Core.Ledger.{
  Account, State, get, UndoEntry, Journal, Action, ◌>>◌, raise_if, checked, write, apply_undo,
}
use dnas.Core.Ledger.Apply.Name.{apply_tx_to}
use dnas.Core.Ledger.Conservation.{check_conservation}

-- An action of the block: its errors are those of blocks.
abbrev pub BlockAction : Type 0 → Type 0
BlockAction A = Journal → Result BlockError A × Journal

abbrev pub paid : Account → ℕ → Account
paid acc amount = record acc { balance = add64 acc.balance amount }

-- `return fail(&TxRejection{…})`, or on with the rest.
abbrev pub after_tx : {A : Type 0} → ℕ → BlockAction A → Result TxError (Unit {0}) → BlockAction A
after_tx i rest (ok _) j = rest j
after_tx i rest (err e) j = (err (tx_rejection i e), j)

abbrev pub and_then : {A B : Type 0} → (A → BlockAction B) → Result BlockError A → BlockAction B
and_then rest (ok a) j = rest a j
and_then rest (err e) j = (err e, j)

module _ (env : Env) (blocks : List Block) (height base_fee : ℕ) where
  -- The body of the loop, up to the sums: every check of one transaction, then its application.
  unfoldable pub apply_one : Transaction → List Str → Action (Unit {0})
  unfolding is_coinbase check_tx_sanity check_tx_at_height base_fee_for tx_hash contains apply_tx_to
      immature_coinbase
  apply_one tx seen = do
    raise_if (is_coinbase tx) TxError.only_one_coinbase
    checked (check_tx_sanity env tx)
    checked (check_tx_at_height env tx height)
    raise_if (ltb tx.fee (base_fee_for env tx base_fee)) TxError.fee_below_base_fee
    raise_if (contains (tx_hash env tx) seen) TxError.duplicate_transaction
    apply_tx_to env tx height (immature_coinbase blocks height tx.from)
        (if is_sponsored tx then immature_coinbase blocks height tx.fee_payer else 0)

  -- The loop from position `i`, with the hashes seen and the sums of tips and burned fees so far.
  unfoldable pub apply_txs :
      ℕ → List Transaction → List Str → ℕ → ℕ → Journal → Result BlockError (ℕ × ℕ) × Journal
  unfolding apply_one tx_hash base_fee_for
  apply_txs i [] seen tips burned j = (ok (tips, burned), j)
  apply_txs i (tx ∷ txs) seen tips burned j =
      let (r, j') = apply_one tx seen j in
      after_tx i
        (apply_txs (i + 1) txs (tx_hash env tx ∷ seen)
          (add64 tips (tx.fee - base_fee_for env tx base_fee))
          (add64 burned (base_fee_for env tx base_fee)))
        r j'

  -- The coinbase, after the sums of the loop.
  unfoldable pub pay_coinbase : Transaction → ℕ → Journal → Result BlockError (Unit {0}) × Journal
  unfolding block_reward lookup write
  pay_coinbase cb tips j =
      let acc = get cb.to j.state in
      if not (cb.amount == add64 (block_reward height) tips)
      then (err bad_coinbase_amount, j)
      else if ltb (add64 acc.balance cb.amount) acc.balance
      then (err coinbase_overflow, j)
      else (
        ok tt,
        record {
          state = write cb.to (paid acc cb.amount) j.state;
          undo = j.undo ++ (record { addr = cb.to; prev = lookup cb.to j.state } ∷ []);
        },
      )

  unfoldable pub conserve : List Transaction → ℕ → BlockAction (Unit {0})
  unfolding check_conservation block_reward
  conserve txs burned j =
      (check_conservation env j.state j.undo txs (block_reward height) burned, j)

  -- What follows the loop.
  unfoldable pub close_block : Transaction → List Transaction → ℕ × ℕ → BlockAction (Unit {0})
  unfolding pay_coinbase conserve
  close_block cb txs (tips, burned) j =
      let (p, j') = pay_coinbase cb tips j in and_then (λ _. conserve txs burned) p j'

  -- The whole of `applyTxsAndCoinbase` on the journal, before `fail` rolls anything back.
  unfoldable pub apply_all : Transaction → List Transaction → BlockAction (Unit {0})
  unfolding apply_txs close_block
  apply_all cb txs j = let (r, j') = apply_txs 1 txs [] 0 0 j in and_then (close_block cb txs) r j'

-- `fail`: the state is rolled back. Otherwise the undo log is the result.
unfoldable pub finish :
    Result BlockError (Unit {0}) × Journal → Result BlockError (List UndoEntry) × State
unfolding apply_undo
finish (err e, j) = (err e, apply_undo j.undo j.state)
finish (ok _, j) = (ok j.undo, j.state)

-- `applyTxsAndCoinbase`. On an empty list Go would panic; `validateBlockStructure` refuses it first.
unfoldable pub apply_list :
    Env → List Block → Block → List Transaction → State → Result BlockError (List UndoEntry) × State
unfolding apply_all finish
apply_list env blocks block [] s = (err no_coinbase, s)
apply_list env blocks block (cb ∷ txs) s =
    finish
      (apply_all env blocks block.index block.base_fee cb txs (record { state = s; undo = [] }))

unfoldable pub apply_txs_and_coinbase :
    Env → List Block → Block → State → Result BlockError (List UndoEntry) × State
unfolding apply_list
apply_txs_and_coinbase env blocks block s = apply_list env blocks block block.transactions s
