-- ===== src/Core/Mempool/Reconcile.antt =====
-- core/mempool.go: `PruneExpired`, `Remove` and `Reconcile`, which drop what can no longer be mined.
-- Each returns how many it dropped, where the source does, and the pool.
use dnas.Base.{
  ℕ, ◌+◌, ltb, leb, ◌==◌, if◌then◌else◌, not, ◌&&◌, Option, none, some, or_zero, List, [], ◌∷◌,
  is_empty, map, add64,
}
use dnas.Base.Str.{Str, str_eq}
use dnas.Base.Map.{Map, lookup}
use dnas.Base.Map.Nat.{lookup_nat}
use dnas.Core.Env.{Env}
use dnas.Core.Tx.{Transaction, is_sponsored, is_expired_at}
use dnas.Core.Tx.Codec.{tx_hash}
use dnas.Core.Chain.Rules.{sort_times}
use dnas.Core.Mempool.{AccountSource, Mempool, Queue, delete_locked, is_among, queue, tx_coin_cost}
use dnas.Core.Mempool.Package.{tx_at}
use dnas.Core.Mempool.Rates.{tx_rate}

abbrev pub dropped_one : ℕ × Mempool → ℕ × Mempool
dropped_one (n, m) = (n + 1, m)

unfoldable pub prune_from : Env → ℕ → Map Transaction → Mempool → ℕ × Mempool
unfolding is_expired_at delete_locked
prune_from env height [] m = (0, m)
prune_from env height ((h, tx) ∷ txs) m =
    let pruned = dropped_one (prune_from env height txs (delete_locked env h m)) in
    let rest = prune_from env height txs m in if is_expired_at tx height then pruned else rest

unfoldable pub prune_expired : Env → ℕ → Mempool → ℕ × Mempool
unfolding prune_from
prune_expired env tip_height m = prune_from env (add64 tip_height 1) m.txs m

-- `Remove`
unfoldable pub remove : Env → List Transaction → Mempool → Mempool
unfolding delete_locked tx_hash
remove env [] m = m
remove env (tx ∷ txs) m = remove env txs (delete_locked env (tx_hash env tx) m)

-- The fee payers, each once, and the transactions of one.
unfoldable pub payers : Map Transaction → List Str → List Str
unfolding is_among
payers [] found = found
payers ((h, tx) ∷ txs) found =
    payers txs
      (if is_sponsored tx && not (is_among tx.fee_payer found) then tx.fee_payer ∷ found else found)

unfoldable pub sponsored_by : Str → Map Transaction → List Str
unfolding str_eq
sponsored_by payer [] = []
sponsored_by payer ((h, tx) ∷ txs) =
    let rest = sponsored_by payer txs in
    if is_sponsored tx && str_eq tx.fee_payer payer then h ∷ rest else rest

module _ (env : Env) (quotient : ℕ → ℕ → ℕ) where
  unfoldable pub insert_by_rate : Mempool → Str → List Str → List Str
  unfolding tx_at tx_rate
  insert_by_rate m h [] = h ∷ []
  insert_by_rate m h (x ∷ xs) =
      let rest = insert_by_rate m h xs in
      if ltb (tx_rate env quotient (tx_at x m)) (tx_rate env quotient (tx_at h m))
      then x ∷ rest
      else h ∷ x ∷ xs

  -- `sort.Slice(hashes, …)`, the cheapest first.
  unfoldable pub sort_by_rate : Mempool → List Str → List Str
  unfolding insert_by_rate
  sort_by_rate m [] = []
  sort_by_rate m (h ∷ hs) = insert_by_rate m h (sort_by_rate m hs)

unfoldable pub promised : Str → Mempool → ℕ
unfolding lookup
promised payer m = or_zero (lookup payer m.sponsored)

unfoldable pub drop_sponsored : Env → Str → ℕ → List Str → Mempool → ℕ × Mempool
unfolding promised delete_locked
drop_sponsored env payer spendable [] m = (0, m)
drop_sponsored env payer spendable (h ∷ hs) m =
    let dropped = dropped_one (drop_sponsored env payer spendable hs (delete_locked env h m)) in
    if leb (promised payer m) spendable then (0, m) else dropped

abbrev pub drop_entry : Env → Option Str → Mempool → Mempool
drop_entry env none m = m
drop_entry env (some h) m = delete_locked env h m

abbrev pub entry_cost : Option Str → Mempool → ℕ
entry_cost none m = 0
entry_cost (some h) m = tx_coin_cost (tx_at h m)

-- The nonces of one sender, in order: `want` is the next that may stay, `total` what those that
-- stayed cost.
unfoldable pub reconcile_nonces : Env → Str → ℕ → List ℕ → ℕ → ℕ → Mempool → ℕ × Mempool
unfolding queue lookup_nat tx_at tx_coin_cost delete_locked
reconcile_nonces env sender spendable [] want total m = (0, m)
reconcile_nonces env sender spendable (n ∷ ns) want total m =
    let entry = lookup_nat n (queue sender m) in
    let with_it = add64 total (entry_cost entry m) in
    let kept = reconcile_nonces env sender spendable ns (add64 want 1) with_it m in
    let unaffordable =
      dropped_one
        (reconcile_nonces env sender spendable ns want with_it (drop_entry env entry m)) in
    let gap =
      dropped_one (reconcile_nonces env sender spendable ns want total (drop_entry env entry m)) in
    if n == want then (if ltb spendable with_it then unaffordable else kept) else gap

abbrev pub adding : ℕ → ℕ × Mempool → ℕ × Mempool
adding n (k, m) = (n + k, m)

module _ (env : Env) (quotient : ℕ → ℕ → ℕ) (source : AccountSource) where
  -- `txs` is the pool's map when the pass began.
  unfoldable pub reconcile_payer : Map Transaction → Str → Mempool → ℕ × Mempool
  unfolding drop_sponsored sort_by_rate sponsored_by promised
  reconcile_payer txs payer m =
      if leb (promised payer m) (source.spendable_balance payer)
      then (0, m)
      else drop_sponsored env payer (source.spendable_balance payer)
          (sort_by_rate env quotient m (sponsored_by payer txs)) m

  unfoldable pub reconcile_payers : Map Transaction → List Str → Mempool → ℕ × Mempool
  unfolding reconcile_payer
  reconcile_payers txs [] m = (0, m)
  reconcile_payers txs (payer ∷ rest) m =
      let (n, m') = reconcile_payer txs payer m in adding n (reconcile_payers txs rest m')

  -- `reconcileSponsorsLocked`
  unfoldable pub reconcile_sponsors : Mempool → ℕ × Mempool
  unfolding reconcile_payers payers
  reconcile_sponsors m =
      if is_empty m.sponsored then (0, m) else reconcile_payers m.txs (payers m.txs []) m

  unfoldable pub reconcile_sender : Str → Mempool → ℕ × Mempool
  unfolding reconcile_nonces sort_times queue
  reconcile_sender sender m =
      reconcile_nonces env sender (source.spendable_balance sender)
        (sort_times (map (λ e. e.0) (queue sender m))) (source.account sender).nonce 0 m

  unfoldable pub reconcile_senders : Map Queue → Mempool → ℕ × Mempool
  unfolding reconcile_sender
  reconcile_senders [] m = (0, m)
  reconcile_senders ((sender, q) ∷ rest) m =
      let (n, m') = reconcile_sender sender m in adding n (reconcile_senders rest m')

module _ (env : Env) (quotient : ℕ → ℕ → ℕ) where
  abbrev pub reconcile_with : Option AccountSource → Mempool → ℕ × Mempool
  reconcile_with none m = (0, m)
  reconcile_with (some source) m =
      let (n, m') = reconcile_sponsors env quotient source m in
      adding n (reconcile_senders env quotient source m'.by_sender m')

  -- `Reconcile`
  unfoldable pub reconcile : ℕ → Mempool → ℕ × Mempool
  unfolding prune_expired reconcile_sponsors reconcile_senders
  reconcile tip_height m =
      let (n, m') = prune_expired env tip_height m in adding n (reconcile_with m'.accounts m')
