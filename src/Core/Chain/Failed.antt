-- ===== src/Core/Chain/Failed.antt =====
-- core/blockchain.go: a block that is refused leaves the chain and the ledger as they were.
use dnas.Base.{Bool, true, false, List, [], ◌∷◌, ◌++◌, ◌≡◌, refl, inl, inr, Bool-cases}
use dnas.Base.Str.{str_eq}
use dnas.Base.Map.{IsMap}
use dnas.Base.Result.{Result, ok, err}
use dnas.Core.Env.{Env}
use dnas.Core.Block.{Block, BlockError}
use dnas.Core.Ledger.{State, apply_undo}
use dnas.Core.Ledger.Block.{apply_txs_and_coinbase}
use dnas.Core.Ledger.Rollback.{IsReversible, apply_txs_and_coinbase-IsReversible}
use dnas.Core.Ledger.Undo.{SameState}
use dnas.Core.Chain.Rules.{Rules, ChainError, validate_block_structure}
use dnas.Core.Chain.Adopt.{
  Chain, Store, Undo, add_applied, add_block, add_persisted, apply_block, apply_valid, check_root,
}

-- After an error the ledger is `s`; after a success the undo log leads back to `s`.
abbrev pub IsReverted : State → Result ChainError Undo × State → Type 0
IsReverted s (err _, t) = SameState t s
IsReverted s (ok undo, t) = SameState (apply_undo undo t) s

-- After an error the chain is `c`, but for its store, with a ledger that answers as before; after a
-- success the block is its tip.
abbrev pub IsAdded :
    {S : Type 0} → Block → Chain S → Result ChainError (Unit {0}) × Chain S → Type 0
IsAdded b c (err _, d) =
    (d ≡ record c { state = d.state; store = d.store }) × SameState d.state c.state
IsAdded b c (ok _, d) = d.blocks ≡ c.blocks ++ (b ∷ [])

module _ (env : Env) (rules : Rules) where
  check_root-IsReverted :
      (b : Block) (s : State) (applied : Result BlockError Undo × State)
      → IsReversible s applied
      → IsReverted s (check_root env rules b applied)
  unfolding check_root
  check_root-IsReverted b s (err e, t) h = h
  check_root-IsReverted b s (ok undo, t) h =
      elim (Bool-cases (str_eq b.state_root (rules.state_root t))) [
        | inl same ↦ rw same h
        | inr other ↦ rw other h
      ]

  apply_valid-IsReverted :
      (blocks : List Block) (b : Block) (s : State) (checked : Result ChainError (Unit {0}))
      → IsMap s
      → IsReverted s (apply_valid env rules blocks b s checked)
  unfolding apply_valid
  apply_valid-IsReverted blocks b s (err e) h = λ k. refl
  apply_valid-IsReverted blocks b s (ok _) h =
      check_root-IsReverted b s (apply_txs_and_coinbase env blocks b s)
        (apply_txs_and_coinbase-IsReversible env blocks b s h)

  apply_block-IsReverted :
      (blocks : List Block) (b : Block) (s : State)
      → IsMap s
      → IsReverted s (apply_block env rules blocks b s)
  unfolding apply_block
  apply_block-IsReverted blocks b s h =
      apply_valid-IsReverted blocks b s (validate_block_structure env rules blocks b) h

  module _ {S : Type 0} (store : Store S) where
    add_persisted-IsAdded :
        (b : Block) (c : Chain S) (undo : Undo) (s : State)
        → SameState (apply_undo undo s) c.state
        → (written : Bool × S) → IsAdded b c (add_persisted env rules store b undo s c written)
    unfolding add_persisted
    add_persisted-IsAdded b c undo s h (false, log) = (refl, h)
    add_persisted-IsAdded b c undo s h (true, log) = refl

    add_applied-IsAdded :
        (b : Block) (c : Chain S) (applied : Result ChainError Undo × State)
        → IsReverted c.state applied
        → IsAdded b c (add_applied env rules store b c applied)
    unfolding add_applied
    add_applied-IsAdded b c (err e, s) h = (refl, h)
    add_applied-IsAdded b c (ok undo, s) h =
        add_persisted-IsAdded b c undo s h (store.append b c.store)

    -- `AddBlock` either makes the block the new tip, or returns an error; and after any error, be it of
    -- the rules, a transaction, the state root or the store, the blocks, the undo logs, the work and
    -- the burned fees are untouched and the ledger answers every lookup as before. (No key stands
    -- twice in the ledger.)
    pub add_block-IsAdded :
        (b : Block) (c : Chain S) → IsMap c.state → IsAdded b c (add_block env rules store b c)
    unfolding add_block
    add_block-IsAdded b c h =
        add_applied-IsAdded b c (apply_block env rules c.blocks b c.state)
          (apply_block-IsReverted c.blocks b c.state h)
