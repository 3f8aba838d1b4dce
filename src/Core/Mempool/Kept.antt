-- ===== src/Core/Mempool/Kept.antt =====
-- core/mempool.go: the operations that drop go through `deleteLocked`, so what it keeps, they keep.
use dnas.Base.{
  ℕ, ltb, leb, ◌==◌, Option, none, some, List, [], ◌∷◌, inl, inr, Bool-cases, is_empty, add64, map,
}
use dnas.Base.Str.{Str}
use dnas.Base.Map.{Map}
use dnas.Base.Map.Nat.{lookup_nat}
use dnas.Core.Env.{Env}
use dnas.Core.Tx.{Transaction, is_expired_at}
use dnas.Core.Tx.Codec.{tx_hash}
use dnas.Core.Chain.Rules.{sort_times}
use dnas.Core.Mempool.{AccountSource, Mempool, Queue, delete_locked, queue}
use dnas.Core.Mempool.Reconcile.{
  drop_entry, drop_sponsored, promised, prune_expired, prune_from, reconcile, reconcile_nonces,
  reconcile_payer, reconcile_payers, reconcile_sender, reconcile_senders, reconcile_sponsors,
  reconcile_with, remove, sort_by_rate, sponsored_by, payers, entry_cost,
}

module _ (env : Env) (P : Mempool → Type 0)
    (keep : (h : Str) (m : Mempool) → P m → P (delete_locked env h m)) where
  prune_from-kept :
      (height : ℕ) (txs : Map Transaction) (m : Mempool) → P m → P (prune_from env height txs m).1
  unfolding prune_from
  prune_from-kept height [] m i = i
  prune_from-kept height ((h, tx) ∷ txs) m i = elim (Bool-cases (is_expired_at tx height)) [
    | inl old ↦ rw old (prune_from-kept height txs (delete_locked env h m) (keep h m i))
    | inr current ↦ rw current (prune_from-kept height txs m i)
  ]

  pub prune_expired-kept : (tip : ℕ) (m : Mempool) → P m → P (prune_expired env tip m).1
  unfolding prune_expired
  prune_expired-kept tip m i = prune_from-kept (add64 tip 1) m.txs m i

  pub remove-kept : (txs : List Transaction) (m : Mempool) → P m → P (remove env txs m)
  unfolding remove
  remove-kept [] m i = i
  remove-kept (tx ∷ txs) m i =
      remove-kept txs (delete_locked env (tx_hash env tx) m) (keep (tx_hash env tx) m i)

  pub drop_sponsored-kept :
      (payer : Str) (spendable : ℕ) (hs : List Str) (m : Mempool)
      → P m
      → P (drop_sponsored env payer spendable hs m).1
  unfolding drop_sponsored
  drop_sponsored-kept payer spendable [] m i = i
  drop_sponsored-kept payer spendable (h ∷ hs) m i =
      elim (Bool-cases (leb (promised payer m) spendable)) [
        | inl covered ↦ rw covered i
        | inr short ↦
            rw short (drop_sponsored-kept payer spendable hs (delete_locked env h m) (keep h m i))
      ]

  pub drop_entry-kept : (o : Option Str) (m : Mempool) → P m → P (drop_entry env o m)
  drop_entry-kept none m i = i
  drop_entry-kept (some h) m i = keep h m i

  pub reconcile_nonces-kept :
      (sender : Str) (spendable : ℕ) (ns : List ℕ) (want total : ℕ) (m : Mempool)
      → P m
      → P (reconcile_nonces env sender spendable ns want total m).1
  unfolding reconcile_nonces
  reconcile_nonces-kept sender spendable [] want total m i = i
  reconcile_nonces-kept sender spendable (n ∷ ns) want total m i =
      let entry = lookup_nat n (queue sender m) in
      let with_it = add64 total (entry_cost entry m) in
      let left = drop_entry env entry m in
      let i' : P left = drop_entry-kept entry m i in
      elim (Bool-cases (n == want)) [
        | inl next ↦ rw next (elim (Bool-cases (ltb spendable with_it)) [
          | inl short ↦ rw short (reconcile_nonces-kept sender spendable ns want with_it left i')
          | inr covered ↦
              rw covered (reconcile_nonces-kept sender spendable ns (add64 want 1) with_it m i)
        ])
        | inr gap ↦ rw gap (reconcile_nonces-kept sender spendable ns want total left i')
      ]

module _ (env : Env) (P : Mempool → Type 0)
    (keep : (h : Str) (m : Mempool) → P m → P (delete_locked env h m)) (quotient : ℕ → ℕ → ℕ)
    (source : AccountSource) where
  reconcile_payer-kept :
      (txs : Map Transaction) (payer : Str) (m : Mempool)
      → P m
      → P (reconcile_payer env quotient source txs payer m).1
  unfolding reconcile_payer
  reconcile_payer-kept txs payer m i =
      elim (Bool-cases (leb (promised payer m) (source.spendable_balance payer))) [
        | inl covered ↦ rw covered i
        | inr short ↦ rw short (
            drop_sponsored-kept env P keep payer (source.spendable_balance payer)
              (sort_by_rate env quotient m (sponsored_by payer txs)) m i)
      ]

  reconcile_payers-kept :
      (txs : Map Transaction) (payers : List Str) (m : Mempool)
      → P m
      → P (reconcile_payers env quotient source txs payers m).1
  unfolding reconcile_payers
  reconcile_payers-kept txs [] m i = i
  reconcile_payers-kept txs (payer ∷ rest) m i =
      reconcile_payers-kept txs rest (reconcile_payer env quotient source txs payer m).1
        (reconcile_payer-kept txs payer m i)

  pub reconcile_sponsors-kept : (m : Mempool) → P m → P (reconcile_sponsors env quotient source m).1
  unfolding reconcile_sponsors
  reconcile_sponsors-kept m i = elim (Bool-cases (is_empty m.sponsored)) [
    | inl none_left ↦ rw none_left i
    | inr some_left ↦ rw some_left (reconcile_payers-kept m.txs (payers m.txs []) m i)
  ]

  reconcile_senders-kept :
      (senders : Map Queue) (m : Mempool)
      → P m
      → P (reconcile_senders env quotient source senders m).1
  unfolding reconcile_senders reconcile_sender
  reconcile_senders-kept [] m i = i
  reconcile_senders-kept ((sender, q) ∷ rest) m i =
      reconcile_senders-kept rest (reconcile_sender env quotient source sender m).1 (
        reconcile_nonces-kept env P keep sender (source.spendable_balance sender)
          (sort_times (map (λ e. e.0) (queue sender m))) (source.account sender).nonce 0 m i)

module _ (env : Env) (P : Mempool → Type 0)
    (keep : (h : Str) (m : Mempool) → P m → P (delete_locked env h m)) (quotient : ℕ → ℕ → ℕ) where
  reconcile_with-kept :
      (o : Option AccountSource) (m : Mempool) → P m → P (reconcile_with env quotient o m).1
  reconcile_with-kept none m i = i
  reconcile_with-kept (some source) m i =
      let after = (reconcile_sponsors env quotient source m).1 in
      reconcile_senders-kept env P keep quotient source after.by_sender after
        (reconcile_sponsors-kept env P keep quotient source m i)

  pub reconcile-kept : (tip : ℕ) (m : Mempool) → P m → P (reconcile env quotient tip m).1
  unfolding reconcile
  reconcile-kept tip m i =
      let after = (prune_expired env tip m).1 in
      reconcile_with-kept after.accounts after (prune_expired-kept env P keep tip m i)
