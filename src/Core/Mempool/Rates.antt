-- ===== src/Core/Mempool/Rates.antt =====
-- core/package.go: the rate that a package gives to its head, by which the miner orders what it
-- selects. A rate is the bits of Go's float64, whose order is the order of the quotients: `quotient` is
-- the division.
use dnas.Base.{ℕ, ◌+◌, ltb, ◌==◌, if◌then◌else◌, not, ◌&&◌, List, [], ◌∷◌, add64}
use dnas.Base.Str.{Str}
use dnas.Base.Map.{Map, put}
use dnas.Core.Env.{Env}
use dnas.Core.Tx.{Transaction}
use dnas.Core.Tx.Codec.{size}
use dnas.Core.Mempool.{Mempool, Queue, is_among, queue, without_hash}
use dnas.Core.Mempool.Package.{bytes_of, descendants_locked, tx_at}

unfoldable pub later_nonces : ℕ → Queue → List Str → List Str
unfolding is_among
later_nonces nonce [] out = out
later_nonces nonce ((n, h) ∷ q) out =
    later_nonces nonce q (if ltb nonce n && not (is_among h out) then h ∷ out else out)

-- `packagePricingSetLocked`
unfoldable pub pricing_set : Str → Transaction → Mempool → List Str
unfolding descendants_locked later_nonces without_hash queue
pricing_set h tx m =
    without_hash h (later_nonces tx.nonce (queue tx.from m) (descendants_locked h m))

unfoldable pub fees_of : Mempool → List Str → ℕ → ℕ
unfolding tx_at
fees_of m [] fees = fees
fees_of m (h ∷ hs) fees = fees_of m hs (add64 fees (tx_at h m).fee)

module _ (env : Env) (quotient : ℕ → ℕ → ℕ) where
  -- `txRate`
  unfoldable pub tx_rate : Transaction → ℕ
  unfolding size
  tx_rate tx = quotient tx.fee (size env tx)

  abbrev better : ℕ → ℕ → ℕ
  better own rate = if ltb own rate then rate else own

  -- One round of the second loop of `effectiveRatesLocked`.
  unfoldable pub package_rate : Str → Transaction → Mempool → ℕ
  unfolding tx_rate pricing_set fees_of bytes_of
  package_rate h tx m =
      let set = pricing_set h tx m in
      let total = size env tx + bytes_of env m set in
      let own = if size env tx == 0 then 0 else tx_rate tx in
      if total == 0 then own else better own (quotient (fees_of m set tx.fee) total)

  unfoldable pub rates_from : Mempool → Map Transaction → Map ℕ
  unfolding package_rate put
  rates_from m [] = []
  rates_from m ((h, tx) ∷ txs) = put h (package_rate h tx m) (rates_from m txs)

  -- `effectiveRates`
  unfoldable pub effective_rates : Mempool → Map ℕ
  unfolding rates_from
  effective_rates m = rates_from m m.txs
