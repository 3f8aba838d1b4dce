-- ===== src/Core/Mempool/Stats.antt =====
-- core/mempool.go: `EstimateTip` and `Stats`, the views of the queue by fee rate. Of tips with equal
-- quotients `sort.Slice` may put either first; the model keeps the later one behind.
pub mod Sums
use dnas.Base.{
  ℕ, ◌+◌, ◌-◌, ◌/◌, ltb, leb, ◌==◌, if◌then◌else◌, Bool, true, false, ◌||◌, Option, none, some,
  or_zero, List, [], ◌∷◌, length, get_elem?, is_empty, map,
}
use dnas.Base.Str.{Str}
use dnas.Base.Map.{Map}
use dnas.Core.Env.{Env}
use dnas.Core.Tx.{Transaction}
use dnas.Core.Tx.Codec.{size}
use dnas.Core.Block.{base_fee_for}
use dnas.Core.Chain.Rules.{sort_times}
use dnas.Core.Mempool.{Mempool}

pub record Entry : Type 0 where
  pub rate : ℕ
  pub tip_rate : ℕ
  pub size : ℕ

abbrev tip_above : ℕ → ℕ → ℕ
tip_above fee least = if ltb least fee then fee - least else 0

module _ (env : Env) (quotient : ℕ → ℕ → ℕ) where
  unfoldable pub entry_of : ℕ → Transaction → Entry
  unfolding size base_fee_for
  entry_of base_fee tx =
      let tip = tip_above tx.fee (base_fee_for env tx base_fee) in
      record { rate = quotient tip (size env tx); tip_rate = tip / size env tx; size = size env tx }

  unfoldable pub entries_of : ℕ → Map Transaction → List Entry
  unfolding entry_of
  entries_of base_fee [] = []
  entries_of base_fee ((h, tx) ∷ txs) = entry_of base_fee tx ∷ entries_of base_fee txs

unfoldable pub insert_by_tip : Entry → List Entry → List Entry
insert_by_tip e [] = e ∷ []
insert_by_tip e (f ∷ fs) =
    let rest = insert_by_tip e fs in if ltb e.rate f.rate then f ∷ rest else e ∷ f ∷ fs

unfoldable pub sort_by_tip : List Entry → List Entry
unfolding insert_by_tip
sort_by_tip [] = []
sort_by_tip (e ∷ es) = insert_by_tip e (sort_by_tip es)

unfoldable pub entry_bytes : List Entry → ℕ
entry_bytes [] = 0
entry_bytes (e ∷ es) = e.size + entry_bytes es

-- The tip rate at which the space is filled.
unfoldable pub marginal : ℕ → ℕ → List Entry → ℕ
marginal capacity filled [] = 0
marginal capacity filled (e ∷ es) =
    let rest = marginal capacity (filled + e.size) es in
    if leb capacity (filled + e.size) then e.tip_rate else rest

-- `EstimateTip`
unfoldable pub estimate_tip : Env → (ℕ → ℕ → ℕ) → ℕ → ℕ → Mempool → ℕ
unfolding entries_of entry_bytes marginal sort_by_tip
estimate_tip env quotient base_fee capacity m =
    let entries = entries_of env quotient base_fee m.txs in
    if capacity == 0
    then 0
    else if leb (entry_bytes entries) capacity
    then 0
    else marginal capacity 0 (sort_by_tip entries)

pub record FeeBucket : Type 0 where
  pub from : ℕ
  pub to : ℕ
  pub count : ℕ
  pub bytes : ℕ

pub record MempoolStats : Type 0 where
  pub count : ℕ
  pub bytes : ℕ
  pub min_rate : ℕ
  pub max_rate : ℕ
  pub median_rate : ℕ
  pub buckets : List FeeBucket

abbrev pub fee_bucket_edges : List ℕ
fee_bucket_edges = 1 ∷ 5 ∷ 10 ∷ 25 ∷ 50 ∷ 100 ∷ 250 ∷ 500 ∷ []

abbrev upto : List ℕ → ℕ
upto [] = 0
upto (next ∷ edges) = next - 1

unfoldable pub empty_buckets : List ℕ → List FeeBucket
empty_buckets [] = []
empty_buckets (edge ∷ edges) =
    record { from = edge; to = upto edges; count = 0; bytes = 0 } ∷ empty_buckets edges

unfoldable pub any_from : ℕ → List FeeBucket → Bool
any_from rate [] = false
any_from rate (b ∷ bs) = leb b.from rate || any_from rate bs

-- The last bucket that starts at the rate or below it, else the first.
unfoldable pub count_in : ℕ → ℕ → List FeeBucket → List FeeBucket
unfolding any_from
count_in rate size [] = []
count_in rate size (b ∷ bs) =
    let later = b ∷ count_in rate size bs in
    if any_from rate bs
    then later
    else record b { count = b.count + 1; bytes = b.bytes + size } ∷ bs

unfoldable pub count_all : Env → Map Transaction → List FeeBucket → List FeeBucket
unfolding count_in size
count_all env [] bs = bs
count_all env ((h, tx) ∷ txs) bs =
    count_all env txs (count_in (tx.fee / size env tx) (size env tx) bs)

unfoldable pub sizes_in : Env → Map Transaction → ℕ
unfolding size
sizes_in env [] = 0
sizes_in env ((h, tx) ∷ txs) = size env tx + sizes_in env txs

unfoldable pub rates_in : Env → Map Transaction → List ℕ
unfolding size
rates_in env [] = []
rates_in env ((h, tx) ∷ txs) = tx.fee / size env tx ∷ rates_in env txs

-- `rates[i]`
abbrev rate_at : List ℕ → ℕ → ℕ
rate_at rates i = or_zero (get_elem? rates i)

-- `Stats`
unfoldable pub stats : Env → Mempool → MempoolStats
unfolding count_all empty_buckets sizes_in rates_in sort_times
stats env m =
    let rates = sort_times (rates_in env m.txs) in
    if is_empty m.txs
    then record {
      count = 0;
      bytes = 0;
      min_rate = 0;
      max_rate = 0;
      median_rate = 0;
      buckets = empty_buckets fee_bucket_edges;
    }
    else record {
      count = length m.txs;
      bytes = sizes_in env m.txs;
      min_rate = rate_at rates 0;
      max_rate = rate_at rates (length rates - 1);
      median_rate = rate_at rates (length rates / 2);
      buckets = count_all env m.txs (empty_buckets fee_bucket_edges);
    }
