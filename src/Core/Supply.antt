-- ===== src/Core/Supply.antt =====
-- core/supply.go: `CumulativeSubsidy`, the coin minted through a height, by epochs. The loop runs on
-- fuel; 34 rounds are enough, since the subsidy of the 34th epoch is 0.
pub mod Minted
use dnas.Base.{
  ℕ, zero, suc, ◌+◌, ◌-◌, ◌*◌, ◌/◌, ltb, leb, ◌==◌, if◌then◌else◌, Option, none, some, add64, mul64,
}
use dnas.Core.Params.{block_reward, halving_interval}

-- The first height after the part of the epoch of `h` that `height` reaches.
unfoldable pub epoch_end : ℕ → ℕ → ℕ
epoch_end h height =
    let next = mul64 (h / halving_interval + 1) halving_interval in
    if ltb (add64 height 1) next then add64 height 1 else next

unfoldable pub subsidy_loop : ℕ → ℕ → ℕ → ℕ → Option ℕ
unfolding block_reward epoch_end
subsidy_loop zero height h total = none
subsidy_loop (suc n) height h total =
    let rest =
      subsidy_loop n height (epoch_end h height)
        (add64 total (mul64 (block_reward h) (epoch_end h height - h))) in
    if ltb height h then some total else if block_reward h == 0 then some total else rest

-- `CumulativeSubsidy`
unfoldable pub cumulative_subsidy : ℕ → Option ℕ
unfolding subsidy_loop
cumulative_subsidy height = subsidy_loop 34 height 1 0
