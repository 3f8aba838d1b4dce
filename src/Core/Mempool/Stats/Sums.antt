-- ===== src/Core/Mempool/Stats/Sums.antt =====
-- core/mempool.go: the buckets of `Stats` add up, and its bytes are those that the pool counts.
use dnas.Base.{
  ℕ, ◌+◌, ◌/◌, true, false, List, [], ◌∷◌, length, ◌≡◌, refl, sym, ◌∙◌, ap, arith, inl, inr,
  Bool-cases, is_empty,
}
use dnas.Base.Map.{Map}
use dnas.Base.Map.Sum.{sum_by}
use dnas.Core.Env.{Env}
use dnas.Core.Tx.{Transaction}
use dnas.Core.Tx.Codec.{size}
use dnas.Core.Mempool.{Mempool}
use dnas.Core.Mempool.Books.{IsMempool}
use dnas.Core.Mempool.Stats.{
  FeeBucket, any_from, count_all, count_in, empty_buckets, fee_bucket_edges, sizes_in, stats,
}

abbrev pub bucket_counts : List FeeBucket → ℕ
bucket_counts [] = 0
bucket_counts (b ∷ bs) = b.count + bucket_counts bs

abbrev pub bucket_bytes : List FeeBucket → ℕ
bucket_bytes [] = 0
bucket_bytes (b ∷ bs) = b.bytes + bucket_bytes bs

count_in-sums :
    (rate n : ℕ) (bs : List FeeBucket)
    → is_empty bs ≡ false
    → (bucket_counts (count_in rate n bs) ≡ bucket_counts bs + 1)
      × (bucket_bytes (count_in rate n bs) ≡ bucket_bytes bs + n)
      × (is_empty (count_in rate n bs) ≡ false)
unfolding count_in any_from
count_in-sums rate n [] some_there = absurd cc
count_in-sums rate n (b ∷ []) some_there = (omega arith, omega arith, refl)
count_in-sums rate n (b ∷ c ∷ bs) some_there = ground (arith, count_in-sums rate n (c ∷ bs) refl)

count_all-sums :
    (env : Env) (txs : Map Transaction) (bs : List FeeBucket)
    → is_empty bs ≡ false
    → (bucket_counts (count_all env txs bs) ≡ bucket_counts bs + length txs)
      × (bucket_bytes (count_all env txs bs) ≡ bucket_bytes bs + sizes_in env txs)
unfolding count_all sizes_in
count_all-sums env [] bs some_there = (omega arith, omega arith)
count_all-sums env ((h, tx) ∷ txs) bs some_there =
    let n = size env tx in
    let (counts, bytes, still) = count_in-sums (tx.fee / n) n bs some_there in
    let (all_counts, all_bytes) = count_all-sums env txs (count_in (tx.fee / n) n bs) still in
    (omega (arith, counts, all_counts), omega (arith, bytes, all_bytes))

sizes_in-sum : (env : Env) (txs : Map Transaction) → sizes_in env txs ≡ sum_by (size env) txs
unfolding sizes_in sum_by
sizes_in-sum env [] = refl
sizes_in-sum env ((h, tx) ∷ txs) = ap (λ n. size env tx + n) (sizes_in-sum env txs)

no_txs :
    (f : Transaction → ℕ) (txs : Map Transaction)
    → is_empty txs ≡ true
    → (length txs ≡ 0) × (sum_by f txs ≡ 0)
unfolding sum_by
no_txs f [] none_queued = (refl, refl)
no_txs f (e ∷ txs) none_queued = absurd cc

no_buckets :
    (bucket_counts (empty_buckets fee_bucket_edges) ≡ 0)
    × (bucket_bytes (empty_buckets fee_bucket_edges) ≡ 0)
    × (is_empty (empty_buckets fee_bucket_edges) ≡ false)
unfolding empty_buckets
no_buckets = (refl, refl, refl)

-- Of a pool whose books agree: `Stats` counts every transaction in one bucket, the bytes of the buckets
-- add up to its bytes, and these are the bytes that the pool has counted on the way.
pub stats-sums :
    (env : Env) (m : Mempool)
    → IsMempool env m
    → ((stats env m).count ≡ length m.txs)
      × (bucket_counts (stats env m).buckets ≡ length m.txs)
      × (bucket_bytes (stats env m).buckets ≡ (stats env m).bytes)
      × ((stats env m).bytes ≡ m.bytes)
unfolding stats
stats-sums env m i =
    let (no_counts, no_bytes, some_there) = no_buckets in
    elim (Bool-cases (is_empty m.txs)) [
      | inl none_queued ↦
          let (none_long, none_big) = no_txs (size env) m.txs none_queued in
          rw none_queued (sym none_long, sym none_long, refl, sym (i.counted ∙ none_big))
      | inr some_queued ↦
          let (counts, bytes) =
            count_all-sums env m.txs (empty_buckets fee_bucket_edges) some_there in
          rw some_queued (
            refl,
            omega (arith, counts, no_counts),
            omega (arith, bytes, no_bytes),
            sizes_in-sum env m.txs ∙ sym i.counted,
          )
    ]
