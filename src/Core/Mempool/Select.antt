-- ===== src/Core/Mempool/Select.antt =====
-- core/mempool.go: `Select`, which fills a block template from the candidates. The chain does not move during one call, so
-- an account that is not simulated yet is read from it each time; the cursors, which only save the
-- skipping of nonces that are past, are left out. Each round appends one transaction at most.
use dnas.Base.{
  ℕ, zero, suc, ◌+◌, ltb, leb, ◌==◌, if◌then◌else◌, Bool, false, not, ◌&&◌, ◌||◌, Option, none,
  some, or_zero, List, [], ◌∷◌, ◌++◌, map, add64, sub64,
}
use dnas.Base.Str.{Str, str_lt}
use dnas.Base.Map.{Map, lookup, put}
use dnas.Core.Env.{Env}
use dnas.Core.Params.{max_block_bytes, max_block_verify_ops, max_asset_supply}
use dnas.Core.Tx.{
  AssetIssue, AssetOp, AssetOpKind, NameOp, Output, Transaction, is_asset_op, is_asset_transfer,
  is_issue, is_name_op, is_sponsored, recipients, sender_fee,
}
use dnas.Core.Tx.Auth.{issued_asset_id}
use dnas.Core.Chain.View.{View, account_at, spendable_balance_at}
use dnas.Core.Mempool.{Mempool, is_among, sort_strs, tx_coin_cost}
use dnas.Core.Mempool.Rates.{effective_rates}
use dnas.Core.Mempool.Eligible.{SelCandidate, candidates_or_empty, sort_by_nonce, group}

pub record Sim : Type 0 where
  pub balance : ℕ
  pub nonce : ℕ
  pub assets : Map ℕ

-- The state of the loop, without what was selected.
pub record Template : Type 0 where
  pub cache : Map Sim
  pub claimed : List Str
  pub weight : ℕ
  pub ops : ℕ

abbrev pub or_chain : View → Str → Option Sim → Sim
or_chain view addr none = record {
  balance = spendable_balance_at view addr;
  nonce = (account_at view addr).nonce;
  assets = (account_at view addr).assets;
}
or_chain view addr (some s) = s

-- The closure `get`.
unfoldable pub sim_of : View → Str → Map Sim → Sim
unfolding lookup spendable_balance_at account_at
sim_of view addr cache = or_chain view addr (lookup addr cache)

abbrev pub sim_holding : Str → Sim → ℕ
sim_holding id s = or_zero (lookup id s.assets)

abbrev pub op_affordable : Option AssetOp → ℕ → Bool
op_affordable none held = false
op_affordable (some o) held = elim o.op [
  | AssetOpKind.mint ↦ leb held (add64 held o.amount) && leb (add64 held o.amount) max_asset_supply
  | AssetOpKind.burn ↦ leb o.amount held
  | AssetOpKind.unknown _ ↦ false
]

unfoldable pub affordable : View → Transaction → Map Sim → Bool
unfolding sim_of sender_fee lookup tx_coin_cost
affordable view tx cache =
    let s = sim_of view tx.from cache in
    if is_sponsored tx && ltb (sim_of view tx.fee_payer cache).balance tx.fee
    then false
    else if is_issue tx
    then leb (sender_fee tx) s.balance
    else if is_asset_op tx
    then leb (sender_fee tx) s.balance && op_affordable tx.asset_op (sim_holding tx.asset_id s)
    else if is_asset_transfer tx
    then leb (sender_fee tx) s.balance && leb tx.amount (sim_holding tx.asset_id s)
    else leb (tx_coin_cost tx) s.balance

-- The closure `debitSponsor`.
unfoldable pub debit_sponsor : View → Transaction → Map Sim → Map Sim
unfolding sim_of put
debit_sponsor view tx cache =
    let p = sim_of view tx.fee_payer cache in
    if is_sponsored tx
    then put tx.fee_payer (record p { balance = sub64 p.balance tx.fee }) cache
    else cache

unfoldable pub credit_recipients : View → List Output → Map Sim → Map Sim
unfolding sim_of put
credit_recipients view [] cache = cache
credit_recipients view (o ∷ os) cache =
    let r = sim_of view o.to cache in
    credit_recipients view os (put o.to (record r { balance = add64 r.balance o.amount }) cache)

abbrev pub moved_asset : Option AssetOp → Str → Map ℕ → Map ℕ
moved_asset none id assets = assets
moved_asset (some o) id assets = elim o.op [
  | AssetOpKind.mint ↦ put id (add64 (or_zero (lookup id assets)) o.amount) assets
  | AssetOpKind.burn ↦ put id (sub64 (or_zero (lookup id assets)) o.amount) assets
  | AssetOpKind.unknown _ ↦ assets
]

abbrev pub issued_assets : Env → Transaction → Option AssetIssue → Map ℕ → Map ℕ
issued_assets env tx none assets = assets
issued_assets env tx (some i) assets =
    let id = issued_asset_id env tx.from tx.nonce i in
    put id (add64 (or_zero (lookup id assets)) i.supply) assets

-- The sender after the transaction: its fee or its cost, its nonce and its assets.
unfoldable pub sender_after : Env → Transaction → Sim → Sim
unfolding sender_fee tx_coin_cost issued_asset_id put lookup
sender_after env tx s =
    let next = record s { nonce = add64 s.nonce 1; balance = sub64 s.balance (sender_fee tx) } in
    if is_name_op tx
    then next
    else if is_issue tx
    then record next { assets = issued_assets env tx tx.issue s.assets }
    else if is_asset_op tx
    then record next { assets = moved_asset tx.asset_op tx.asset_id s.assets }
    else if is_asset_transfer tx
    then record next {
      assets = put tx.asset_id (sub64 (or_zero (lookup tx.asset_id s.assets)) tx.amount) s.assets;
    }
    else record s { nonce = add64 s.nonce 1; balance = sub64 s.balance (tx_coin_cost tx) }

unfoldable pub credit_asset : View → Transaction → Map Sim → Map Sim
unfolding sim_of put lookup
credit_asset view tx cache =
    let r = sim_of view tx.to cache in
    put tx.to
      (record r {
        assets = put tx.asset_id (add64 (or_zero (lookup tx.asset_id r.assets)) tx.amount) r.assets;
      })
      cache

-- The last `switch`: the sender pays, then the sponsor, then the recipients are paid.
unfoldable pub simulate : Env → View → Transaction → Map Sim → Map Sim
unfolding sender_after sim_of put debit_sponsor credit_asset credit_recipients recipients
simulate env view tx cache =
    let paid =
      debit_sponsor view tx (put tx.from (sender_after env tx (sim_of view tx.from cache)) cache) in
    if is_name_op tx || is_issue tx || is_asset_op tx
    then paid
    else if is_asset_transfer tx
    then credit_asset view tx paid
    else credit_recipients view (recipients tx) paid

unfoldable pub drop_past : ℕ → List SelCandidate → List SelCandidate
drop_past want [] = []
drop_past want (c ∷ cs) =
    let rest = drop_past want cs in if ltb c.tx.nonce want then rest else c ∷ cs

abbrev pub names_of : Option NameOp → List Str
names_of none = []
names_of (some op) = op.name ∷ []

abbrev pub name_claimed : Option NameOp → List Str → Bool
name_claimed none claimed = false
name_claimed (some op) claimed = is_among op.name claimed

-- The guards on the head of a sender's run.
unfoldable pub is_ready : View → SelCandidate → Template → Bool
unfolding sim_of affordable is_among
is_ready view c t =
    (c.tx.nonce == (sim_of view c.tx.from t.cache).nonce)
    && not (ltb max_block_bytes (t.weight + c.size))
    && not (ltb max_block_verify_ops (t.ops + c.ops))
    && affordable view c.tx t.cache
    && not (name_claimed c.tx.name t.claimed)

unfoldable pub outbids : SelCandidate → Option SelCandidate → Option SelCandidate
unfolding str_lt
outbids c none = some c
outbids c (some best) =
    if ltb best.rate c.rate || ((c.rate == best.rate) && str_lt c.hash best.hash)
    then some c
    else some best

unfoldable pub with_head :
    View → Template → List SelCandidate → Option SelCandidate → Option SelCandidate
unfolding is_ready outbids
with_head view t [] best = best
with_head view t (c ∷ cs) best = if is_ready view c t then outbids c best else best

unfoldable pub best_of :
    View → Map (List SelCandidate) → Template → List Str → Option SelCandidate → Option SelCandidate
unfolding lookup drop_past with_head sim_of
best_of view runs t [] best = best
best_of view runs t (from ∷ senders) best =
    let cs = candidates_or_empty (lookup from runs) in
    best_of view runs t senders
      (with_head view t (drop_past (sim_of view from t.cache).nonce cs) best)

unfoldable pub take_candidate : Env → View → SelCandidate → Template → Template
unfolding simulate
take_candidate env view c t = record {
  cache = simulate env view c.tx t.cache;
  claimed = names_of c.tx.name ++ t.claimed;
  weight = t.weight + c.size;
  ops = t.ops + c.ops;
}

abbrev pub then_rest : Option SelCandidate → (SelCandidate → List Transaction) → List Transaction
then_rest none rest = []
then_rest (some c) rest = c.tx ∷ rest c

-- The loop, for so many more transactions.
unfoldable pub select_loop :
    Env → View → Map (List SelCandidate) → List Str → ℕ → Template → List Transaction
unfolding best_of take_candidate
select_loop env view runs senders zero t = []
select_loop env view runs senders (suc left) t =
    then_rest (best_of view runs t senders none)
      (λ c. select_loop env view runs senders left (take_candidate env view c t))

abbrev pub sorted_runs : Map (List SelCandidate) → Map (List SelCandidate)
sorted_runs runs = map (λ e. (e.0, sort_by_nonce e.1)) runs

-- `Select`
unfoldable pub select : Env → (ℕ → ℕ → ℕ) → View → ℕ → Mempool → List Transaction
unfolding effective_rates group sort_by_nonce sort_strs select_loop
select env quotient view max m =
    let runs = group env quotient view (effective_rates env quotient m) m.txs [] in
    select_loop env view (sorted_runs runs) (sort_strs (map (λ e. e.0) runs)) max
      (record { cache = []; claimed = []; weight = 0; ops = 0 })
