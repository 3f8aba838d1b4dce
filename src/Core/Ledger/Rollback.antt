-- ===== src/Core/Ledger/Rollback.antt =====
-- core/blockchain.go: `applyTxsAndCoinbase` leaves the ledger as it was when it fails, and its undo
-- log takes the ledger back when it succeeds.
use dnas.Base.{refl, List, [], ◌∷◌}
use dnas.Base.Str.{Str}
use dnas.Base.Map.{IsMap}
use dnas.Base.Result.{Result, ok, err}
use dnas.Core.Tx.{Transaction}
use dnas.Core.Env.{Env}
use dnas.Core.Block.{Block, BlockError}
use dnas.Core.Ledger.{Account, State, UndoEntry, Journal, set, apply_undo}
use dnas.Core.Ledger.Block.{finish, apply_list, apply_txs_and_coinbase}
use dnas.Core.Ledger.Undo.{SameState, Restores, written, written-Restores}
use dnas.Core.Ledger.Keeps.{Keeps}
use dnas.Core.Ledger.Keeps.Ops.{IsKept}
use dnas.Core.Ledger.Keeps.Block.{apply_all-keep}

set-Restores : {s : State} (a : Str) (acc : Account) → Keeps (Restores s) (set a acc)
unfolding set written
set-Restores a acc = record { keep = λ j h. written-Restores a acc j h }

Restores-IsKept : {s : State} → IsKept (Restores s)
Restores-IsKept = record {
  plain = λ a acc _. set-Restores a acc;
  bare = λ a acc _. set-Restores a acc;
}

-- After an error the ledger is `s`; after a success the undo log leads back to `s`.
abbrev pub IsReversible : State → Result BlockError (List UndoEntry) × State → Type 0
IsReversible s (err _, t) = SameState t s
IsReversible s (ok undo, t) = SameState (apply_undo undo t) s

finish-IsReversible :
    {s : State} (r : Result BlockError (Unit {0})) (j : Journal)
    → Restores s j
    → IsReversible s (finish (r, j))
unfolding finish
finish-IsReversible (ok _) j h = h.back
finish-IsReversible (err e) j h = h.back

apply_list-IsReversible :
    (env : Env) (blocks : List Block) (block : Block) (txs : List Transaction) (s : State)
    → IsMap s
    → IsReversible s (apply_list env blocks block txs s)
unfolding apply_list
apply_list-IsReversible env blocks block [] s h = λ k. refl
apply_list-IsReversible env blocks block (cb ∷ txs) s h = finish-IsReversible _ _ (
    apply_all-keep Restores-IsKept env blocks block.index block.base_fee cb txs
      (record { state = s; undo = [] }) (set-Restores cb.to)
      (record { is_map = h; back = λ k. unfold apply_undo in refl }))

-- Applying the transactions of any block to any ledger either fails, and the ledger then answers
-- every lookup as before, or succeeds, and `applyUndo` on the returned undo log gives a ledger that
-- answers every lookup as before. (No key stands twice in the ledger.)
pub apply_txs_and_coinbase-IsReversible :
    (env : Env) (blocks : List Block) (block : Block) (s : State)
    → IsMap s
    → IsReversible s (apply_txs_and_coinbase env blocks block s)
unfolding apply_txs_and_coinbase
apply_txs_and_coinbase-IsReversible env blocks block s h =
    apply_list-IsReversible env blocks block block.transactions s h
