-- ===== src/Core/Chain/Rules.antt =====
-- core/blockchain.go: retargeting, the median time, the scheduled commitments and what a block must
-- satisfy before it is applied; core/checkpoint.go.
use dnas.Base.{
  ℕ, zero, suc, ◌+◌, ◌-◌, ◌*◌, ◌/◌, ltb, leb, ◌==◌, if◌then◌else◌, Bool, true, false, not, ◌&&◌,
  Option, none, some, List, [], ◌∷◌, get_elem?, length, take, is_empty, map, min,
}
use dnas.Base.Str.{Str, str_eq}
use dnas.Base.Result.{Result, ok, err, ◌>>◌, ◌>>=◌, fail_if, or_fail}
use mathlib.Core.List.{reverse}
use dnas.Core.Params.{
  max_block_bytes, max_block_txs, max_block_verify_ops, max_future_drift, target_block_time,
}
use dnas.Core.Tx.{Transaction}
use dnas.Core.Env.{Env, Upgrade, is_upgrade_active}
use dnas.Core.Block.{Block, BlockError, block_verify_ops, block_weight, validate_coinbase_shape}
use dnas.Core.Fee.{expected_base_fee}
use dnas.Core.Ledger.{State}
use dnas.Core.Header.{first_is_coinbase, has_valid_pow}
use dnas.Core.Merkle.{merkle_root}
use dnas.Core.Target.{big_to_compact, compact_to_big, genesis_bits, pow_limit}
use dnas.Core.Versionbits.{header}

-- Where the code would panic, on an index out of range, the model has an error. What a node is
-- configured with, its clock, and the functions of the state trie, the compact filters
-- and the history accumulator: the filter header of a block after its parent's (an error is `none`),
-- and the accumulator's root over a chain.
pub record Rules : Type 0 where
  pub no_retarget : Bool
  pub network_time : ℕ
  pub genesis_hash : Str
  pub checkpoints : List (ℕ × Str)
  pub filter_root : Str → Block → Option Str
  pub expected_history_root : List Block → Str
  pub state_root : State → Str

pub data ChainError : Type 0 where
  bad_index bad_prev_hash timestamp_too_early timestamp_too_far : ChainError
  violates_checkpoint wrong_bits wrong_base_fee : ChainError
  no_filter_root wrong_filter_root early_filter_root wrong_history_root early_history_root :
      ChainError
  invalid_pow bad_merkle_root no_coinbase_tx too_many_txs block_too_large : ChainError
  too_expensive first_not_coinbase no_coinbase_recipient : ChainError
  bad_state_root persist_failed no_parent : ChainError
  in_block : BlockError → ChainError
  empty_chain genesis_mismatch fork_beyond_tip : ChainError
  below_checkpoint too_deep : ℕ → ChainError

abbrev pub lwma_window : ℕ
lwma_window = 20

abbrev pub last_of : List Block → Option Block
last_of [] = none
last_of (b ∷ []) = some b
last_of (b ∷ c ∷ blocks) = last_of (c ∷ blocks)

-- The solve time, within [1, 6 * TargetBlockTime].
unfoldable pub solve_time : Block → Block → ℕ
solve_time before cur =
    if ltb (cur.timestamp - before.timestamp) 1
    then 1
    else min (6 * target_block_time) (cur.timestamp - before.timestamp)

-- The sums of the loop of `expectedBits`.
pub record Lwma : Type 0 where
  pub weighted_solve : ℕ
  pub sum_target : ℕ

abbrev lwma_add : ℕ → Lwma → Option Block → Option Block → Option Lwma
unfolding solve_time compact_to_big
lwma_add i sums none cur = none
lwma_add i sums (some before) none = none
lwma_add i sums (some before) (some cur) = some (record {
  weighted_solve = sums.weighted_solve + i * solve_time before cur;
  sum_target = sums.sum_target + compact_to_big cur.bits;
})

-- The loop for the rounds left, from round `i` on: `none` for an index out of range.
unfoldable pub lwma_loop : ℕ → ℕ → List Block → ℕ → Lwma → Option Lwma
unfolding lwma_add
lwma_loop zero i blocks height sums = some sums
lwma_loop (suc n) i blocks height sums =
    let cur = height - lwma_window - 1 + i in
    elim (lwma_add i sums (get_elem? blocks (cur - 1)) (get_elem? blocks cur)) [
      | none ↦ none
      | some sums' ↦ lwma_loop n (i + 1) blocks height sums'
    ]

-- The next target: at least 1, at most `PowLimit`.
unfoldable pub next_target : Lwma → ℕ
unfolding pow_limit
next_target sums =
    let next =
      sums.sum_target
      / lwma_window
      * sums.weighted_solve
      / (target_block_time * lwma_window * (lwma_window + 1) / 2) in
    min pow_limit (if next == 0 then 1 else next)

unfoldable pub retargeted : Option Lwma → Option ℕ
unfolding next_target big_to_compact
retargeted none = none
retargeted (some sums) = some (big_to_compact (next_target sums))

-- `expectedBits`
unfoldable pub expected_bits : Rules → List Block → ℕ → Option ℕ
unfolding lwma_loop genesis_bits retargeted
expected_bits rules blocks height =
    let window =
      lwma_loop lwma_window 1 blocks height (record { weighted_solve = 0; sum_target = 0 }) in
    if rules.no_retarget
    then some genesis_bits
    else if leb height lwma_window
    then some genesis_bits
    else retargeted window

-- `sort.Slice` on timestamps.
unfoldable pub insert_sorted : ℕ → List ℕ → List ℕ
insert_sorted t [] = t ∷ []
insert_sorted t (u ∷ ts) = let rest = insert_sorted t ts in if leb t u then t ∷ u ∷ ts else u ∷ rest

unfoldable pub sort_times : List ℕ → List ℕ
unfolding insert_sorted
sort_times [] = []
sort_times (t ∷ ts) = insert_sorted t (sort_times ts)

-- `medianTimePast`: `none` on an empty chain.
unfoldable pub median_time_past : List Block → Option ℕ
unfolding sort_times
median_time_past blocks =
    let times = sort_times (map (λ b. b.timestamp) (take 11 (reverse blocks))) in
    get_elem? times (length times / 2)

abbrev pinned : List (ℕ × Str) → ℕ → Option Str
pinned [] height = none
pinned ((h, hash) ∷ checkpoints) height =
    let rest = pinned checkpoints height in if h == height then some hash else rest

-- `checkpointAt`
unfoldable pub checkpoint_at : Rules → ℕ → Option Str
checkpoint_at rules height =
    if height == 0 then some rules.genesis_hash else pinned rules.checkpoints height

-- `highestCheckpoint`
unfoldable pub highest_checkpoint : List (ℕ × Str) → ℕ
highest_checkpoint [] = 0
highest_checkpoint ((h, hash) ∷ checkpoints) =
    let rest = highest_checkpoint checkpoints in if ltb rest h then h else rest

abbrev pub violates : Option Str → Str → Bool
violates none hash = false
violates (some pin) hash = not (str_eq hash pin)

abbrev pub differs : Option ℕ → ℕ → Bool
differs none n = true
differs (some want) n = not (n == want)

abbrev pub at_most : Option ℕ → ℕ → Bool
at_most none t = true
at_most (some median) t = leb t median

module _ (env : Env) (rules : Rules) where
  -- `checkCommitments`
  unfoldable pub check_filter_root : Block → Block → Result ChainError (Unit {0})
  unfolding is_upgrade_active
  check_filter_root prev b =
      if is_upgrade_active env Upgrade.filter_commit b.index
      then (or_fail (rules.filter_root prev.filter_root b) no_filter_root >>= λ want.
          fail_if (not (str_eq b.filter_root want)) wrong_filter_root)
      else fail_if (not (is_empty b.filter_root)) early_filter_root

  unfoldable pub check_history_root : List Block → Block → Result ChainError (Unit {0})
  unfolding is_upgrade_active
  check_history_root blocks b =
      let want = rules.expected_history_root blocks in
      if is_upgrade_active env Upgrade.history_root b.index
      then fail_if (not (is_empty want) && not (str_eq b.history_root want)) wrong_history_root
      else fail_if (not (is_empty b.history_root)) early_history_root

  -- The coinbase's checks at the end of `validateBlockStructure`.
  unfoldable pub check_coinbase : List Transaction → ℕ → Result ChainError (Unit {0})
  unfolding validate_coinbase_shape
  check_coinbase [] height = err no_coinbase_tx
  check_coinbase (cb ∷ txs) height = do
    fail_if (not (first_is_coinbase (cb ∷ txs))) first_not_coinbase
    fail_if (is_empty cb.to) no_coinbase_recipient
    elim (validate_coinbase_shape env cb height) [ err e ↦ err (in_block e) | ok u ↦ ok u ]

  -- `validateBlockStructure`, after the parent.
  unfoldable pub validate_on : List Block → Block → Block → Result ChainError (Unit {0})
  unfolding median_time_past checkpoint_at expected_bits expected_base_fee check_filter_root
      check_history_root has_valid_pow header merkle_root block_weight block_verify_ops
      check_coinbase
  validate_on blocks prev b = do
    fail_if (not (b.index == prev.index + 1)) bad_index
    fail_if (not (str_eq b.prev_hash prev.hash)) bad_prev_hash
    fail_if (at_most (median_time_past blocks) b.timestamp) timestamp_too_early
    fail_if (ltb (rules.network_time + max_future_drift) b.timestamp) timestamp_too_far
    fail_if (violates (checkpoint_at rules b.index) b.hash) violates_checkpoint
    fail_if (differs (expected_bits rules blocks b.index) b.bits) wrong_bits
    fail_if (differs (expected_base_fee blocks b.index) b.base_fee) wrong_base_fee
    check_filter_root prev b
    check_history_root blocks b
    fail_if (not (has_valid_pow env (header b))) invalid_pow
    fail_if (not (str_eq (merkle_root env b.transactions) b.merkle_root)) bad_merkle_root
    fail_if (is_empty b.transactions) no_coinbase_tx
    fail_if (ltb (max_block_txs + 1) (length b.transactions)) too_many_txs
    fail_if (ltb max_block_bytes (block_weight env b)) block_too_large
    fail_if (ltb max_block_verify_ops (block_verify_ops b.transactions)) too_expensive
    check_coinbase b.transactions b.index

  unfoldable pub validate_after : List Block → Option Block → Block → Result ChainError (Unit {0})
  unfolding validate_on
  validate_after blocks none b = err no_parent
  validate_after blocks (some prev) b = validate_on blocks prev b

  -- `validateBlockStructure`
  unfoldable pub validate_block_structure : List Block → Block → Result ChainError (Unit {0})
  unfolding validate_after
  validate_block_structure blocks b = validate_after blocks (last_of blocks) b
