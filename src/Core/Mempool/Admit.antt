-- ===== src/Core/Mempool/Admit.antt =====
-- core/mempool.go: `Add`. `add_transaction` is `Add` without another operation in
-- between; `add_locked` is its part under the lock, which an interleaving runs on the pool as it is
-- then. The loop that evicts runs on fuel, one more than the number of transactions held.
use dnas.Base.{
  ℕ, zero, suc, ltb, leb, if◌then◌else◌, Bool, true, false, not, ◌&&◌, Option, none, some, is_some,
  [], ◌∷◌, length, mul64,
}
use dnas.Base.Str.{Str, str_eq}
use dnas.Base.Map.{Map}
use dnas.Base.Map.Nat.{lookup_nat}
use dnas.Base.Result.{Result, ok, err, ◌>>◌, fail_if}
use dnas.Core.Env.{Env}
use dnas.Core.Tx.{Transaction, is_coinbase}
use dnas.Core.Tx.Codec.{size, tx_hash}
use dnas.Core.Tx.Shape.{Check}
use dnas.Core.Tx.Sanity.{check_tx_sanity}
use dnas.Core.Valcache.{ValidationCache, verify_cached}
use dnas.Core.Mempool.{Mempool, Queue, delete_locked, get_tx, insert_locked, min_fee, queue}
use dnas.Core.Mempool.Package.{
  MempoolError, coinbase_refused, too_large, below_floor, replacement_too_low,
  full_nothing_evictable, full_rate_too_low, full_own_queue, insane, unauthorized, tx_at,
}
use dnas.Core.Mempool.Rates.{tx_rate}
use dnas.Core.Mempool.Rules.{Admission, admissible_locked, unmineable, over_budget}

abbrev pub max_relay_tx_bytes : ℕ
max_relay_tx_bytes = 100_000

abbrev pub AddResult : Type 0
AddResult = Result MempoolError Bool × Mempool

abbrev pub insane_if : Check → Admission
insane_if (ok _) = ok tt
insane_if (err e) = err (insane e)

module _ (env : Env) where
  -- The checks before the pool is read.
  unfoldable pub screen : Transaction → Mempool → Admission
  unfolding is_coinbase check_tx_sanity size min_fee
  screen tx m = do
    fail_if (is_coinbase tx) coinbase_refused
    insane_if (check_tx_sanity env tx)
    fail_if (ltb max_relay_tx_bytes (size env tx)) too_large
    fail_if (ltb 0 (min_fee m) && ltb tx.fee (mul64 (min_fee m) (size env tx))) below_floor

-- `conflictLocked`
unfoldable pub conflict : Transaction → Mempool → Option Str
unfolding queue lookup_nat
conflict tx m = lookup_nat tx.nonce (queue tx.from m)

abbrev pub placed : Admission → AddResult → Mempool → AddResult
placed (err e) next m = (err e, m)
placed (ok _) next m = next

-- The last entry of a queue, by nonce.
abbrev pub later_of : ℕ → Str → Option (ℕ × Str) → Option (ℕ × Str)
later_of nonce h none = some (nonce, h)
later_of nonce h (some (top, top_hash)) =
    if ltb top nonce then some (nonce, h) else some (top, top_hash)

unfoldable pub top_entry : Queue → Option (ℕ × Str) → Option (ℕ × Str)
top_entry [] top = top
top_entry ((nonce, h) ∷ q) top = top_entry q (later_of nonce h top)

module _ (env : Env) (quotient : ℕ → ℕ → ℕ) where
  abbrev pub cheaper_of : Str → ℕ → Option (Str × ℕ) → Option (Str × ℕ)
  cheaper_of h rate none = some (h, rate)
  cheaper_of h rate (some (best, best_rate)) =
      if ltb rate best_rate then some (h, rate) else some (best, best_rate)

  abbrev pub with_top : Mempool → Option (ℕ × Str) → Option (Str × ℕ) → Option (Str × ℕ)
  with_top m none best = best
  with_top m (some (top, h)) best = cheaper_of h (tx_rate env quotient (tx_at h m)) best

  unfoldable pub cheapest_top : Mempool → Map Queue → Option (Str × ℕ) → Option (Str × ℕ)
  unfolding top_entry tx_at tx_rate
  cheapest_top m [] best = best
  cheapest_top m ((sender, q) ∷ senders) best =
      cheapest_top m senders (with_top m (top_entry q none) best)

  -- `evictionCandidateLocked`
  unfoldable pub eviction_candidate : Mempool → Option (Str × ℕ)
  unfolding cheapest_top
  eviction_candidate m = cheapest_top m m.by_sender none

  -- What the loop does with a candidate: an error, or the hash that goes.
  abbrev pub judge : Transaction → Option (Str × ℕ) → Mempool → Result MempoolError Str
  judge tx none m = err full_nothing_evictable
  judge tx (some (victim, rate)) m = do
    let v = tx_at victim m
    fail_if (leb (tx_rate env quotient tx) rate) full_rate_too_low
    fail_if (str_eq v.from tx.from && ltb v.nonce tx.nonce) full_own_queue
    ok victim

  unfoldable pub victim_for : Transaction → Mempool → Result MempoolError Str
  unfolding eviction_candidate tx_at tx_rate str_eq
  victim_for tx m = judge tx (eviction_candidate m) m

  abbrev pub after_victim :
      Result MempoolError Str → (Str → Admission × Mempool) → Mempool → Admission × Mempool
  after_victim (err e) k m = (err e, m)
  after_victim (ok victim) k m = k victim

  -- The loop that makes room.
  unfoldable pub evict_for : ℕ → Transaction → Mempool → Admission × Mempool
  unfolding over_budget victim_for delete_locked
  evict_for zero tx m = (err full_nothing_evictable, m)
  evict_for (suc fuel) tx m =
      let evicted =
        after_victim (victim_for tx m) (λ victim. evict_for fuel tx (delete_locked env victim m))
          m in
      if over_budget env (size env tx) m then evicted else (ok tt, m)

  abbrev pub admitted : Str → Transaction → Admission × Mempool → AddResult
  admitted h tx (err e, m) = (err e, m)
  admitted h tx (ok _, m) = (ok true, insert_locked env h tx m)

  -- Replace-by-fee, or a free slot.
  unfoldable pub place : Str → Transaction → Option Str → Mempool → AddResult
  unfolding evict_for insert_locked delete_locked unmineable tx_at
  place h tx none m = admitted h tx (evict_for (suc (length m.txs)) tx m)
  place h tx (some old_hash) m =
      let old = tx_at old_hash m in
      if leb tx.fee old.fee && not (unmineable env old m && not (unmineable env tx m))
      then (err replacement_too_low, m)
      else (ok true, insert_locked env h tx (delete_locked env old_hash m))

  -- `Add` from the lock on.
  unfoldable pub add_locked : Transaction → Mempool → AddResult
  unfolding tx_hash get_tx conflict admissible_locked place
  add_locked tx m =
      let h = tx_hash env tx in
      if is_some (get_tx h m)
      then (ok false, m)
      else placed (admissible_locked env tx (conflict tx m) m) (place h tx (conflict tx m) m) m

  abbrev pub verified : Check × Option ValidationCache → Transaction → Mempool → AddResult
  verified (err e, cache) tx m = (err (unauthorized e), record m { sig_cache = cache })
  verified (ok _, cache) tx m = add_locked tx (record m { sig_cache = cache })

  -- `Add`
  unfoldable pub add_transaction : Transaction → Mempool → AddResult
  unfolding screen tx_hash get_tx conflict admissible_locked verify_cached add_locked
  add_transaction tx m =
      placed (screen env tx m)
        (if is_some (get_tx (tx_hash env tx) m)
          then (ok false, m)
          else placed (admissible_locked env tx (conflict tx m) m)
              (verified (verify_cached env tx m.sig_cache) tx m) m)
        m
