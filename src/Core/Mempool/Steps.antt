-- ===== src/Core/Mempool/Steps.antt =====
-- core/mempool.go: the operations in any order, the chain moving between them. `place_now` is the part
-- of `Add` under the lock on its own: between the checks of one call and its lock, other operations
-- may run_operations.
use dnas.Base.{
  ℕ, true, false, Option, some, is_some, IsU64, List, [], ◌∷◌, refl, arith, inl, inr, Bool-cases,
}
use dnas.Base.Map.{lookup}
use dnas.Base.Map.Nat.{lookup_nat}
use dnas.Base.Map.Sum.{sum_by}
use dnas.Base.Result.{ok, err}
use dnas.Core.Env.{Env}
use dnas.Core.Tx.{Transaction}
use dnas.Core.Tx.Codec.{tx_hash}
use dnas.Core.Tx.Shape.{Check}
use dnas.Core.Valcache.{ValidationCache, verify_cached}
use dnas.Core.Mempool.{
  AccountSource, Mempool, new_mempool_with_limits, use_accounts, use_validation_cache,
}
use dnas.Core.Mempool.Books.{IsMempool, delete_locked-IsMempool}
use dnas.Core.Mempool.Kept.{prune_expired-kept, reconcile-kept, remove-kept}
use dnas.Core.Mempool.Reconcile.{prune_expired, reconcile, remove}
use dnas.Core.Mempool.Rules.{Admission, admissible_locked}
use dnas.Core.Mempool.Admit.{
  AddResult, add_transaction, add_locked, conflict, placed, screen, verified,
}
use dnas.Core.Mempool.Added.{Added, add_locked-Added}

module _ (env : Env) where
  with_cache-IsMempool :
      (cache : Option ValidationCache) (m : Mempool)
      → IsMempool env m
      → IsMempool env (record m { sig_cache = cache })
  with_cache-IsMempool cache m i = record {
    index = i.index;
    stored = i.stored;
    counted = i.counted;
    totals = i.totals;
    room = i.room;
    few = i.few;
  }

  pub use_accounts-IsMempool :
      (source : AccountSource) (height : Option ℕ) (m : Mempool)
      → IsMempool env m
      → IsMempool env (use_accounts source height m)
  unfolding use_accounts
  use_accounts-IsMempool source height m i = record {
    index = i.index;
    stored = i.stored;
    counted = i.counted;
    totals = i.totals;
    room = i.room;
    few = i.few;
  }

  pub initial-IsMempool :
      (max max_bytes fee : ℕ) → IsMempool env (new_mempool_with_limits max max_bytes fee)
  unfolding new_mempool_with_limits lookup lookup_nat sum_by
  initial-IsMempool max max_bytes fee = record {
    index = record {
      txs_map = tt;
      senders_map = tt;
      queues = λ a. tt;
      indexed = λ h tx at. absurd cc;
      listed = λ a n h at. absurd cc;
    };
    stored = λ h tx at. absurd cc;
    counted = refl;
    totals = record { is_map = tt; sums = λ p. refl };
    room = ground arith;
    few = omega arith;
  }

module _ (env : Env) (quotient : ℕ → ℕ → ℕ) (tx : Transaction) where
  Added-IsMempool : (m : Mempool) (o : AddResult) → Added env quotient tx m o → IsMempool env o.1
  Added-IsMempool m (err e, m') a = a.0
  Added-IsMempool m (ok false, m') a = a.0
  Added-IsMempool m (ok true, m') a = a.0

  placed-IsMempool :
      (a : Admission) (o : AddResult) (m : Mempool)
      → IsMempool env m
      → IsMempool env o.1
      → IsMempool env (placed a o m).1
  placed-IsMempool (err e) o m i j = i
  placed-IsMempool (ok _) o m i j = j

  module _ (small : IsU64 tx.fee) where
    pub add_locked-IsMempool :
        (m : Mempool) → IsMempool env m → IsMempool env (add_locked env quotient tx m).1
    add_locked-IsMempool m i =
        Added-IsMempool m (add_locked env quotient tx m)
          (add_locked-Added env quotient tx m i small)

    verified-IsMempool :
        (r : Check × Option ValidationCache) (m : Mempool)
        → IsMempool env m
        → IsMempool env (verified env quotient r tx m).1
    verified-IsMempool (err e, cache) m i = with_cache-IsMempool env cache m i
    verified-IsMempool (ok _, cache) m i =
        add_locked-IsMempool (record m { sig_cache = cache }) (with_cache-IsMempool env cache m i)

    pub add_transaction-IsMempool :
        (m : Mempool) → IsMempool env m → IsMempool env (add_transaction env quotient tx m).1
    unfolding add_transaction
    add_transaction-IsMempool m i =
        placed-IsMempool (screen env tx m) _ m i
          (elim (Bool-cases (is_some (lookup (tx_hash env tx) m.txs))) [
            | inl held ↦ rw held i
            | inr fresh ↦ rw fresh (
                placed-IsMempool (admissible_locked env tx (conflict tx m) m) _ m i
                  (verified-IsMempool (verify_cached env tx m.sig_cache) m i))
          ])

pub data Operation : Type 0 where
  add_tx place_now : (tx : Transaction) → IsU64 tx.fee → Operation
  remove_txs : List Transaction → Operation
  prune : ℕ → Operation
  reconcile_at : ℕ → Operation
  chain_moves : AccountSource → Option ℕ → Operation
  share_cache : ValidationCache → Operation

unfoldable pub run_operations : Env → (ℕ → ℕ → ℕ) → List Operation → Mempool → Mempool
unfolding add_transaction add_locked remove prune_expired reconcile use_accounts
    use_validation_cache
run_operations env quotient [] m = m
run_operations env quotient (add_tx tx small ∷ ops) m =
    run_operations env quotient ops (add_transaction env quotient tx m).1
run_operations env quotient (place_now tx small ∷ ops) m =
    run_operations env quotient ops (add_locked env quotient tx m).1
run_operations env quotient (remove_txs txs ∷ ops) m =
    run_operations env quotient ops (remove env txs m)
run_operations env quotient (prune tip ∷ ops) m =
    run_operations env quotient ops (prune_expired env tip m).1
run_operations env quotient (reconcile_at tip ∷ ops) m =
    run_operations env quotient ops (reconcile env quotient tip m).1
run_operations env quotient (chain_moves source height ∷ ops) m =
    run_operations env quotient ops (use_accounts source height m)
run_operations env quotient (share_cache cache ∷ ops) m =
    run_operations env quotient ops (use_validation_cache cache m)

module _ (env : Env) (quotient : ℕ → ℕ → ℕ) where
  run_from-IsMempool :
      (ops : List Operation) (m : Mempool)
      → IsMempool env m
      → IsMempool env (run_operations env quotient ops m)
  unfolding run_operations
  run_from-IsMempool [] m i = i
  run_from-IsMempool (add_tx tx small ∷ ops) m i =
      run_from-IsMempool ops _ (add_transaction-IsMempool env quotient tx small m i)
  run_from-IsMempool (place_now tx small ∷ ops) m i =
      run_from-IsMempool ops _ (add_locked-IsMempool env quotient tx small m i)
  run_from-IsMempool (remove_txs txs ∷ ops) m i =
      run_from-IsMempool ops _
        (remove-kept env (IsMempool env) (delete_locked-IsMempool env) txs m i)
  run_from-IsMempool (prune tip ∷ ops) m i =
      run_from-IsMempool ops _
        (prune_expired-kept env (IsMempool env) (delete_locked-IsMempool env) tip m i)
  run_from-IsMempool (reconcile_at tip ∷ ops) m i =
      run_from-IsMempool ops _
        (reconcile-kept env (IsMempool env) (delete_locked-IsMempool env) quotient tip m i)
  run_from-IsMempool (chain_moves source height ∷ ops) m i =
      run_from-IsMempool ops _ (use_accounts-IsMempool env source height m i)
  run_from-IsMempool (share_cache cache ∷ ops) m i =
      run_from-IsMempool ops _ (with_cache-IsMempool env (some cache) m i)

  -- After any sequence of operations on an empty pool, of transactions with fees of 64 bits, in any
  -- interleaving and however the chain moves between them, the books agree: every stored transaction
  -- stands under its own hash and under its sender and nonce, no index entry is stale, the byte count is
  -- the sum of the sizes, a sponsor's total the sum of the fees it promised (modulo 2 ^ 64), and there
  -- are no more transactions than the bound.
  pub run_operations-IsMempool :
      (max max_bytes fee : ℕ) (ops : List Operation)
      → IsMempool env (run_operations env quotient ops (new_mempool_with_limits max max_bytes fee))
  run_operations-IsMempool max max_bytes fee ops =
      run_from-IsMempool ops (new_mempool_with_limits max max_bytes fee)
        (initial-IsMempool env max max_bytes fee)
