-- ===== src/Core/Supply/Minted.antt =====
-- core/supply.go: `CumulativeSubsidy` is the sum of the subsidies of the blocks.
use native.Mathlib.Nat.{mul-le-mul_right}
use dnas.Base.{
  ℕ, zero, suc, ◌+◌, ◌-◌, ◌*◌, ◌/◌, ◌^◌, ◌≤◌, ◌<◌, ◌≡◌, refl, ap, ◌∙◌, ltb, leb, ◌==◌,
  if◌then◌else◌, some, add64, mul64, arith, inl, inr, Bool-cases,
}
use dnas.Core.Params.{block_reward, shr, halving_interval, initial_block_reward}
use dnas.Core.Supply.{epoch_end, subsidy_loop, cumulative_subsidy}

-- The subsidies of the heights `from`, …, `from + n - 1`.
unfoldable pub minted_from : ℕ → ℕ → ℕ
unfolding block_reward
minted_from h zero = 0
minted_from h (suc n) = block_reward h + minted_from (h + 1) n

minted_from-add : (n m h : ℕ) → minted_from h (n + m) ≡ minted_from h n + minted_from (h + n) m
unfolding minted_from
minted_from-add zero m h = omega (
  arith,
  ap (λ i. minted_from i m) {x = h} {y = h + 0} (omega arith),
  ap (minted_from h) {x = 0 + m} {y = m} (omega arith),
)
minted_from-add (suc n) m h =
    let shift : h + 1 + n ≡ h + suc n = omega arith in
    let more : suc n + m ≡ suc (n + m) = omega arith in
    ap (minted_from h) more
    ∙ omega (arith, minted_from-add n m (h + 1), ap (λ i. minted_from i m) shift)

minted_from-epoch :
    (n h r : ℕ) → ((k : ℕ) → h ≤ k → k < h + n → block_reward k ≡ r) → minted_from h n ≡ r * n
unfolding minted_from
minted_from-epoch zero h r same = omega arith
minted_from-epoch (suc n) h r same = omega (
  arith,
  same h (omega arith) (omega arith),
  minted_from-epoch n (h + 1) r (λ k low high. same k (omega arith) (omega arith)),
)

-- Halving again makes less.
shr_add : (x k j : ℕ) → shr x (k + j) ≤ shr x k
unfolding shr
shr_add x k zero = omega (arith, ap (shr x) {x = k + 0} {y = k} (omega arith))
shr_add x k (suc j) =
    omega (arith, ap (shr x) {x = k + suc j} {y = suc (k + j)} (omega arith), shr_add x k j)

shr_antitone : (x k l : ℕ) → k ≤ l → shr x l ≤ shr x k
shr_antitone x k l le =
    omega (arith, shr_add x k (l - k), ap (shr x) {x = k + (l - k)} {y = l} (omega arith))

pub block_reward_antitone : (h k : ℕ) → h ≤ k → block_reward k ≤ block_reward h
unfolding block_reward
block_reward_antitone h k le = ground (
  arith,
  shr_antitone initial_block_reward (h / halving_interval) (k / halving_interval) (omega arith),
)

block_reward-le : (h : ℕ) → block_reward h ≤ initial_block_reward
unfolding block_reward shr
block_reward-le h =
    ground (arith, shr_antitone initial_block_reward 0 (h / halving_interval) (omega arith))

-- A block that mints is in one of the first 33 epochs.
block_reward_ends : (h : ℕ) → 33 ≤ h / halving_interval → block_reward h ≡ 0
unfolding block_reward shr
block_reward_ends h late =
    ground (arith, shr_antitone initial_block_reward 33 (h / halving_interval) late)

block_reward_epoch :
    (h k : ℕ) → h / halving_interval ≡ k / halving_interval → block_reward h ≡ block_reward k
unfolding block_reward
block_reward_epoch h k e = ap (λ q. if leb 64 q then 0 else shr initial_block_reward q) e

minted_from-zero : (n h : ℕ) → block_reward h ≡ 0 → minted_from h n ≡ 0
unfolding minted_from
minted_from-zero zero h none_left = refl
minted_from-zero (suc n) h none_left = omega (
  arith,
  minted_from-zero n (h + 1) (omega (arith, block_reward_antitone h (h + 1) (omega arith))),
)

epoch_end_bounds :
    (h height : ℕ)
    → h ≤ height
    → height + 1 < 2 ^ 64
    → h / halving_interval < 33
    → (h < epoch_end h height)
      × (epoch_end h height ≤ height + 1)
      × (epoch_end h height ≤ (h / halving_interval + 1) * halving_interval)
      × (epoch_end h height ≤ 34 * halving_interval)
      × ((epoch_end h height ≤ height)
          → (h / halving_interval + 1 ≤ epoch_end h height / halving_interval))
unfolding epoch_end
epoch_end_bounds h height le room early = ground arith

-- One round adds the subsidies of its epoch.
epoch_minted :
    (h e height : ℕ)
    → h < e
    → e ≤ height + 1
    → e ≤ (h / halving_interval + 1) * halving_interval
    → minted_from h (height + 1 - h) ≡ block_reward h * (e - h) + minted_from e (height + 1 - e)
epoch_minted h e height low high inside =
    let split : e - h + (height + 1 - e) ≡ height + 1 - h = omega arith in
    let here : h + (e - h) ≡ e = omega arith in
    omega (
      arith,
      ap (minted_from h) split,
      minted_from-add (e - h) (height + 1 - e) h,
      ap (λ i. minted_from i (height + 1 - e)) here,
      minted_from-epoch (e - h) h (block_reward h)
          (λ k above below. block_reward_epoch k h (omega arith)),
    )

-- The sums of a round do not wrap.
round_total :
    (r h e total : ℕ)
    → r ≤ initial_block_reward
    → h < e
    → e ≤ 34 * halving_interval
    → total ≤ h * initial_block_reward
    → (add64 total (mul64 r (e - h)) ≡ total + r * (e - h))
      × (total + r * (e - h) ≤ e * initial_block_reward)
round_total r h e total most low high small =
    let step = mul-le-mul_right {m = r} {n = initial_block_reward} (e - h) most in
    (omega (arith, step), omega (arith, step))

subsidy_loop_minted :
    (n height h total : ℕ)
    → h ≤ height + 1
    → height + 1 < 2 ^ 64
    → 1 ≤ n
    → (h ≤ height → 34 ≤ h / halving_interval + n)
    → total ≤ h * initial_block_reward
    → subsidy_loop n height h total ≡ some (total + minted_from h (height + 1 - h))
unfolding subsidy_loop
subsidy_loop_minted zero height h total le room some_fuel fuel small = absurd (omega arith)
subsidy_loop_minted (suc n) height h total le room some_fuel fuel small =
    let e = epoch_end h height in
    let r = block_reward h in
    elim (Bool-cases (ltb height h)) [
      | inl past ↦
          let gone = ap (minted_from h) {x = height + 1 - h} {y = 0} (ground arith) in
          rw past (ap some (unfold minted_from in omega (arith, gone)))
      | inr here ↦
          let reached : h ≤ height = ground arith in
          elim (Bool-cases (r == 0)) [
            | inl spent ↦
                let gone = minted_from-zero (height + 1 - h) h (ground arith) in
                rw (here, spent) (ap some (omega (arith, gone)))
            | inr mints ↦
                let early : h / halving_interval < 33 = ground (arith, block_reward_ends h) in
                let (low, high, inside, bound, next) =
                  epoch_end_bounds h height reached room early in
                let (same, grown) = round_total r h e total (block_reward-le h) low bound small in
                rw (here, mints, same)
                  (subsidy_loop_minted n height e (total + r * (e - h)) high room
                      (omega (arith, fuel reached)) (λ more. omega (arith, next more, fuel reached))
                      grown
                    ∙ ap some (omega (arith, epoch_minted h e height low high inside)))
          ]
    ]

-- `CumulativeSubsidy` returns, and its value is the sum of the subsidies of the heights 1 through
-- `height`. (The height is below 2 ^ 64 - 1.)
pub cumulative_subsidy-minted :
    (height : ℕ) → height + 1 < 2 ^ 64 → cumulative_subsidy height ≡ some (minted_from 1 height)
unfolding cumulative_subsidy
cumulative_subsidy-minted height room =
    let all : height + 1 - 1 ≡ height = omega arith in
    subsidy_loop_minted 34 height 1 0 (omega arith) room (omega arith) (λ _. omega arith)
      (omega arith)
    ∙ ap some (omega (arith, ap (minted_from 1) all))
