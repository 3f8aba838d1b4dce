-- ===== src/Core/Chain/Adopt.antt =====
-- core/blockchain.go: the chain, `applyBlock` and `AddBlock`. The store is a
-- parameter with a state of its own; no store is one that always succeeds. The indexes, the filter
-- headers, the deployments and pruning, which the code also brings along, are left out.
use dnas.Base.{ℕ, ◌+◌, if◌then◌else◌, Bool, true, false, List, [], ◌∷◌, ◌++◌, add64}
use dnas.Base.Str.{str_eq}
use dnas.Base.Result.{Result, ok, err}
use dnas.Core.Env.{Env}
use dnas.Core.Block.{Block, BlockError, block_burned}
use dnas.Core.Chain.Rules.{
  Rules, ChainError, in_block, bad_state_root, persist_failed, validate_block_structure,
}
use dnas.Core.Ledger.{State, UndoEntry, apply_undo}
use dnas.Core.Ledger.Block.{apply_txs_and_coinbase}
use dnas.Core.Target.{block_work}

-- core/store.go: the operations on the log that the chain calls; `false` is an error.
pub record Store (S : Type 0) : Type 0 where
  pub append : Block → S → Bool × S
  pub truncate_after : ℕ → S → Bool × S
  pub poison : S → S

-- `Blockchain`
pub record Chain (S : Type 0) : Type 0 where
  pub blocks : List Block
  pub undos : List (List UndoEntry)
  pub state : State
  pub work : ℕ
  pub burned : ℕ
  pub store : S

abbrev pub Undo : Type 0
Undo = List UndoEntry

module _ (env : Env) (rules : Rules) where
  unfoldable pub check_root :
      Block → Result BlockError Undo × State → Result ChainError Undo × State
  unfolding apply_undo
  check_root b (err e, s) = (err (in_block e), s)
  check_root b (ok undo, s) =
      if str_eq b.state_root (rules.state_root s)
      then (ok undo, s)
      else (err bad_state_root, apply_undo undo s)

  unfoldable pub apply_valid :
      List Block → Block → State → Result ChainError (Unit {0}) → Result ChainError Undo × State
  unfolding check_root apply_txs_and_coinbase
  apply_valid blocks b s (err e) = (err e, s)
  apply_valid blocks b s (ok _) = check_root b (apply_txs_and_coinbase env blocks b s)

  -- `applyBlock`, on the ledger in place.
  unfoldable pub apply_block : List Block → Block → State → Result ChainError Undo × State
  unfolding apply_valid validate_block_structure
  apply_block blocks b s = apply_valid blocks b s (validate_block_structure env rules blocks b)

  module _ {S : Type 0} (store : Store S) where
    unfoldable pub add_persisted :
        Block → Undo → State → Chain S → Bool × S → Result ChainError (Unit {0}) × Chain S
    unfolding apply_undo block_work block_burned
    add_persisted b undo s c (false, log) =
        (err persist_failed, record c { state = apply_undo undo s; store = log })
    add_persisted b undo s c (true, log) = (
      ok tt,
      record {
        blocks = c.blocks ++ (b ∷ []);
        undos = c.undos ++ (undo ∷ []);
        state = s;
        work = c.work + block_work b.bits;
        burned = add64 c.burned (block_burned env b);
        store = log;
      },
    )

    unfoldable pub add_applied :
        Block → Chain S → Result ChainError Undo × State → Result ChainError (Unit {0}) × Chain S
    unfolding add_persisted
    add_applied b c (err e, s) = (err e, record c { state = s })
    add_applied b c (ok undo, s) = add_persisted b undo s c (store.append b c.store)

    -- `AddBlock`
    unfoldable pub add_block : Block → Chain S → Result ChainError (Unit {0}) × Chain S
    unfolding add_applied apply_block
    add_block b c = add_applied b c (apply_block c.blocks b c.state)
