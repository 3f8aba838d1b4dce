-- ===== src/Core/Ledger/Conservation.antt =====
-- core/conservation.go: the supply check that closes the application of a block. An int64 is given
-- by its 64 bits, so the differences and their comparison are those of Go.
use dnas.Base.{
  ℕ, ◌==◌, if◌then◌else◌, Bool, true, not, ◌&&◌, Option, none, some, is_some, or_zero, List, [],
  ◌∷◌, add64, sub64,
}
use dnas.Base.Str.{Str}
use dnas.Base.Map.{Map, lookup, put}
use dnas.Base.Result.{Result, ◌>>◌, fail_if}
use dnas.Core.Tx.{AssetIssue, AssetOp, AssetOpKind, Transaction}
use dnas.Core.Env.{Env}
use dnas.Core.Tx.Auth.{issued_asset_id}
use dnas.Core.Block.{BlockError, coin_not_conserved, asset_not_conserved}
use dnas.Core.Ledger.{Account, State, get, or_zero_account, UndoEntry}

-- `touchedBefore`: the first entry of an address is the one that predates the block.
unfoldable pub touched_from : Map Account → List UndoEntry → Map Account
unfolding lookup put
touched_from before [] = before
touched_from before (e ∷ es) =
    touched_from
      (if is_some (lookup e.addr before)
        then before
        else put e.addr (or_zero_account e.prev) before)
      es

unfoldable pub touched_before : List UndoEntry → Map Account
unfolding touched_from
touched_before = touched_from []

unfoldable pub sum_before : Map Account → ℕ → ℕ
sum_before [] sum = sum
sum_before ((addr, prev) ∷ rest) sum = sum_before rest (add64 sum prev.balance)

unfoldable pub sum_after : State → Map Account → ℕ → ℕ
unfolding lookup
sum_after s [] sum = sum
sum_after s ((addr, prev) ∷ rest) sum = sum_after s rest (add64 sum (get addr s).balance)

-- `coinDelta`
unfoldable pub coin_delta : State → Map Account → ℕ
unfolding sum_before sum_after
coin_delta s before = sub64 (sum_after s before 0) (sum_before before 0)

-- `deltas[id] += d`
abbrev add_to : Str → ℕ → Map ℕ → Map ℕ
add_to id d m = put id (add64 (or_zero (lookup id m)) d) m

unfoldable pub subtract_all : Map ℕ → Map ℕ → Map ℕ
unfolding lookup put
subtract_all [] deltas = deltas
subtract_all ((id, amt) ∷ rest) deltas = subtract_all rest (add_to id (sub64 0 amt) deltas)

unfoldable pub add_all : Map ℕ → Map ℕ → Map ℕ
unfolding lookup put
add_all [] deltas = deltas
add_all ((id, amt) ∷ rest) deltas = add_all rest (add_to id amt deltas)

unfoldable pub drop_zeros : Map ℕ → Map ℕ
drop_zeros [] = []
drop_zeros ((id, d) ∷ rest) = if d == 0 then drop_zeros rest else (id, d) ∷ drop_zeros rest

unfoldable pub deltas_from : State → Map Account → Map ℕ → Map ℕ
unfolding subtract_all add_all lookup
deltas_from s [] deltas = deltas
deltas_from s ((addr, prev) ∷ rest) deltas =
    deltas_from s rest (add_all (get addr s).assets (subtract_all prev.assets deltas))

-- `assetDeltas`
unfoldable pub asset_deltas : State → Map Account → Map ℕ
unfolding deltas_from drop_zeros
asset_deltas s before = drop_zeros (deltas_from s before [])

abbrev op_delta : AssetOpKind → Str → ℕ → Map ℕ → Map ℕ
op_delta AssetOpKind.mint id amount m = add_to id amount m
op_delta AssetOpKind.burn id amount m = add_to id (sub64 0 amount) m
op_delta (AssetOpKind.unknown _) id amount m = m

module _ (env : Env) where
  -- One transaction of the loop over `txs`: what it issues, mints or burns.
  abbrev wanted_by : Transaction → Option AssetIssue → Option AssetOp → Map ℕ → Map ℕ
  wanted_by tx (some i) asset_op m = add_to (issued_asset_id env tx.from tx.nonce i) i.supply m
  wanted_by tx none (some o) m = op_delta o.op tx.asset_id o.amount m
  wanted_by tx none none m = m

  unfoldable pub wanted_from : List Transaction → Map ℕ → Map ℕ
  unfolding issued_asset_id lookup put
  wanted_from [] m = m
  wanted_from (tx ∷ txs) m = wanted_from txs (wanted_by tx tx.issue tx.asset_op m)

-- Every wanted change was made, and every change made was wanted.
unfoldable pub all_made : Map ℕ → Map ℕ → Bool
unfolding lookup
all_made got [] = true
all_made got ((id, want) ∷ rest) = (or_zero (lookup id got) == want) && all_made got rest

unfoldable pub all_wanted : Map ℕ → Map ℕ → Bool
unfolding lookup
all_wanted want [] = true
all_wanted want ((id, d) ∷ rest) = is_some (lookup id want) && all_wanted want rest

module _ (env : Env) where
  -- `checkConservation`; `txs` is the list without the coinbase.
  unfoldable pub check_conservation :
      State → List UndoEntry → List Transaction → ℕ → ℕ → Result BlockError (Unit {0})
  unfolding touched_before coin_delta asset_deltas wanted_from drop_zeros all_made all_wanted
  check_conservation s undo txs reward burned =
      let before = touched_before undo in
      let want = drop_zeros (wanted_from env txs []) in
      let got = asset_deltas s before in
      fail_if (not (coin_delta s before == sub64 reward burned)) coin_not_conserved
      >> fail_if (not (all_made got want && all_wanted want got)) asset_not_conserved
