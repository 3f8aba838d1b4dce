-- ===== src/Core/Mempool.antt =====
-- core/mempool.go: `Mempool`, the transactions that wait for a block, with its indexes, the dynamic
-- fee floor, and the two writes that all operations go through; core/package.go: the index of
-- credits. The chain that the pool reads is what it answers at the moment of the operation
-- (`accounts`, `chain_height`), `none` where none is bound. The mutex is left out: what Go does under
-- the lock is one step. No transaction's hash is the empty string, so a missing one is `none`.
pub mod Package
pub mod Rates
pub mod Rules
pub mod Admit
pub mod Reconcile
pub mod Index
pub mod Books
pub mod Kept
pub mod Room
pub mod Top
pub mod Added
pub mod NextNonce
pub mod Runs
pub mod Nonces
pub mod Pass
pub mod Reconciled
pub mod Steps
pub mod Eligible
pub mod Select
pub mod Stats
pub mod Simulated
pub mod Candidates
pub mod Template
pub mod Tests
use dnas.Base.{
  ℕ, ◌+◌, ◌-◌, ◌*◌, ◌/◌, ◌^◌, ltb, leb, ◌==◌, if◌then◌else◌, Bool, true, false, not, ◌&&◌, ◌||◌,
  Option, none, some, or_zero, List, [], ◌∷◌, ◌++◌, length, is_empty, add64, sub64, mul64, ⊤,
}
use dnas.Base.Str.{Str, str_eq, str_lt}
use dnas.Base.Map.{Map, lookup, put, delete}
use dnas.Base.Map.Nat.{NatMap, lookup_nat, put_nat, delete_nat}
use dnas.Core.Env.{Env}
use dnas.Core.Tx.{
  Output, Transaction, recipients, total_out, sender_fee, is_sponsored, is_issue, is_asset_transfer,
}
use dnas.Core.Tx.Codec.{size}
use dnas.Core.Ledger.{Account}
use dnas.Core.Valcache.{ValidationCache}

abbrev pub default_mempool_size : ℕ
default_mempool_size = 5000

abbrev pub default_mempool_bytes : ℕ
default_mempool_bytes = 32 * 2 ^ 20

abbrev pub fee_floor_max_multiplier : ℕ
fee_floor_max_multiplier = 100

abbrev pub max_per_sender : ℕ
max_per_sender = 64

pub record AccountSource : Type 0 where
  pub account : Str → Account
  pub spendable_balance : Str → ℕ

-- A sender's queue: nonce to hash.
abbrev pub Queue : Type 0
Queue = NatMap Str

pub record Mempool : Type 0 where
  pub txs : Map Transaction
  pub by_sender : Map Queue
  pub sponsored : Map ℕ
  pub bytes : ℕ
  pub max_bytes : ℕ
  pub max : ℕ
  pub min_relay_fee : ℕ
  pub accounts : Option AccountSource
  pub sig_cache : Option ValidationCache
  pub chain_height : Option ℕ
  pub credited_by : Map (List Str)

unfoldable pub new_mempool_with_limits : ℕ → ℕ → ℕ → Mempool
new_mempool_with_limits max max_bytes min_relay_fee = record {
  txs = [];
  by_sender = [];
  sponsored = [];
  bytes = 0;
  max_bytes = if max_bytes == 0 then default_mempool_bytes else max_bytes;
  max = if max == 0 then default_mempool_size else max;
  min_relay_fee = min_relay_fee;
  accounts = none;
  sig_cache = none;
  chain_height = none;
  credited_by = [];
}

abbrev or_height : Option ℕ → Option ℕ → Option ℕ
or_height none old = old
or_height (some height) old = some height

-- `UseAccounts`, and the chain's next answers: a source without a height leaves the one there is.
unfoldable pub use_accounts : AccountSource → Option ℕ → Mempool → Mempool
use_accounts source height m = record m {
  accounts = some source;
  chain_height = or_height height m.chain_height;
}

unfoldable pub use_validation_cache : ValidationCache → Mempool → Mempool
use_validation_cache c m = record m { sig_cache = some c }

abbrev at_most_100 : ℕ → ℕ
at_most_100 fill = if ltb 100 fill then 100 else fill

abbrev larger : ℕ → ℕ → ℕ
larger a b = if ltb a b then b else a

-- The occupancy in percent, of the fuller budget.
unfoldable pub fill : Mempool → ℕ
fill m =
    let by_count = length m.txs * 100 / m.max in
    at_most_100
      (if m.max_bytes == 0 then by_count else larger by_count (m.bytes * 100 / m.max_bytes))

-- `MinFee`
unfoldable pub min_fee : Mempool → ℕ
unfolding fill
min_fee m =
    if m.min_relay_fee == 0 || m.max == 0
    then m.min_relay_fee
    else mul64 m.min_relay_fee (1 + (fee_floor_max_multiplier - 1) * (fill m * fill m) / 10_000)

abbrev pub queue_or_empty : Option Queue → Queue
queue_or_empty none = []
queue_or_empty (some q) = q

-- `m.bySender[addr]`; reading a nil map finds nothing.
unfoldable pub queue : Str → Mempool → Queue
unfolding lookup
queue addr m = queue_or_empty (lookup addr m.by_sender)

abbrev pub hashes_or_empty : Option (List Str) → List Str
hashes_or_empty none = []
hashes_or_empty (some hs) = hs

-- `m.creditedBy[addr]`
unfoldable pub credits : Str → Mempool → List Str
unfolding lookup
credits addr m = hashes_or_empty (lookup addr m.credited_by)

unfoldable pub is_among : Str → List Str → Bool
unfolding str_eq
is_among h [] = false
is_among h (x ∷ xs) = str_eq x h || is_among h xs

unfoldable pub new_recipients : List Str → List Output → List Str
unfolding is_among
new_recipients seen [] = []
new_recipients seen (o ∷ os) =
    let skipped = new_recipients seen os in
    let taken = o.to ∷ new_recipients (o.to ∷ seen) os in
    if is_empty o.to || is_among o.to seen then skipped else taken

unfoldable pub insert_str : Str → List Str → List Str
unfolding str_lt
insert_str s [] = s ∷ []
insert_str s (t ∷ ts) = let rest = insert_str s ts in if str_lt t s then t ∷ rest else s ∷ t ∷ ts

-- `sort.Strings`
unfoldable pub sort_strs : List Str → List Str
unfolding insert_str
sort_strs [] = []
sort_strs (s ∷ ss) = insert_str s (sort_strs ss)

unfoldable pub distinct_recipients : Transaction → List Str
unfolding new_recipients sort_strs recipients
distinct_recipients tx = sort_strs (new_recipients [] (recipients tx))

abbrev pub credits_no_coin : Transaction → Bool
credits_no_coin tx = is_asset_transfer tx || is_issue tx

unfoldable pub add_credits : Str → Str → List Str → Map (List Str) → Map (List Str)
unfolding str_eq put lookup
add_credits h from [] m = m
add_credits h from (addr ∷ addrs) m =
    add_credits h from addrs
      (if str_eq addr from then m else put addr (hashes_or_empty (lookup addr m) ++ (h ∷ [])) m)

-- `indexCreditsLocked`
unfoldable pub index_credits : Str → Transaction → Map (List Str) → Map (List Str)
unfolding add_credits distinct_recipients
index_credits h tx m =
    if credits_no_coin tx then m else add_credits h tx.from (distinct_recipients tx) m

unfoldable pub without_hash : Str → List Str → List Str
unfolding str_eq
without_hash h [] = []
without_hash h (x ∷ xs) = let rest = without_hash h xs in if str_eq x h then xs else x ∷ rest

unfoldable pub remove_credits : Str → List Str → Map (List Str) → Map (List Str)
unfolding put lookup delete without_hash
remove_credits h [] m = m
remove_credits h (addr ∷ addrs) m =
    let left = without_hash h (hashes_or_empty (lookup addr m)) in
    remove_credits h addrs (if is_empty left then delete addr m else put addr left m)

-- `unindexCreditsLocked`
unfoldable pub unindex_credits : Str → Transaction → Map (List Str) → Map (List Str)
unfolding remove_credits distinct_recipients
unindex_credits h tx m =
    if credits_no_coin tx then m else remove_credits h (distinct_recipients tx) m

unfoldable pub add_sponsored : Transaction → Map ℕ → Map ℕ
unfolding put lookup
add_sponsored tx m =
    if is_sponsored tx
    then put tx.fee_payer (add64 (or_zero (lookup tx.fee_payer m)) tx.fee) m
    else m

unfoldable pub remove_sponsored : Transaction → Map ℕ → Map ℕ
unfolding put lookup delete
remove_sponsored tx m =
    let left = sub64 (or_zero (lookup tx.fee_payer m)) tx.fee in
    if is_sponsored tx
    then (if left == 0 then delete tx.fee_payer m else put tx.fee_payer left m)
    else m

-- `insertLocked`
unfoldable pub insert_locked : Env → Str → Transaction → Mempool → Mempool
unfolding put queue put_nat size add_sponsored index_credits
insert_locked env h tx m = record m {
  txs = put h tx m.txs;
  by_sender = put tx.from (put_nat tx.nonce h (queue tx.from m)) m.by_sender;
  bytes = m.bytes + size env tx;
  sponsored = add_sponsored tx m.sponsored;
  credited_by = index_credits h tx m.credited_by;
}

abbrev is_hash : Str → Option Str → Bool
is_hash h none = false
is_hash h (some x) = str_eq x h

-- A queue without the nonce of a transaction, if the nonce is this transaction's.
unfoldable pub leave_queue : Str → Transaction → Queue → Queue
unfolding lookup_nat delete_nat str_eq
leave_queue h tx q = if is_hash h (lookup_nat tx.nonce q) then delete_nat tx.nonce q else q

unfoldable pub leave_sender : Str → Transaction → Option Queue → Map Queue → Map Queue
unfolding leave_queue put delete
leave_sender h tx none m = m
leave_sender h tx (some q) m =
    let left = leave_queue h tx q in if is_empty left then delete tx.from m else put tx.from left m

abbrev delete_found : Env → Str → Option Transaction → Mempool → Mempool
delete_found env h none m = m
delete_found env h (some tx) m = record m {
  txs = delete h m.txs;
  by_sender = leave_sender h tx (lookup tx.from m.by_sender) m.by_sender;
  bytes = m.bytes - size env tx;
  sponsored = remove_sponsored tx m.sponsored;
  credited_by = unindex_credits h tx m.credited_by;
}

-- `deleteLocked`; the byte count stops at 0.
unfoldable pub delete_locked : Env → Str → Mempool → Mempool
unfolding lookup delete leave_sender size remove_sponsored unindex_credits
delete_locked env h m = delete_found env h (lookup h m.txs) m

unfoldable pub get_tx : Str → Mempool → Option Transaction
unfolding lookup
get_tx h m = lookup h m.txs

abbrev cost_of : ℕ → Option ℕ → ℕ
cost_of fee none = 2 ^ 64 - 1
cost_of fee (some out) = add64 out fee

-- `txCoinCost`
unfoldable pub tx_coin_cost : Transaction → ℕ
unfolding sender_fee total_out
tx_coin_cost tx =
    if credits_no_coin tx then sender_fee tx else cost_of (sender_fee tx) (total_out tx)
