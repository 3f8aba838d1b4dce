-- ===== src/Core/Chain/Tests.antt =====
-- Chains of a node with a plain hash function, and the theorems on them.
use dnas.Base.{
  ℕ, zero, suc, ◌<◌, ◌≤◌, ◌+◌, ◌*◌, true, false, some, none, List, [], ◌∷◌, length, ◌≡◌, refl,
  arith,
}
use dnas.Base.Str.{Str, codes, str_eq}
use dnas.Base.Map.{IsMap}
use dnas.Base.Result.{ok}
use dnas.Core.Params.{coin}
use dnas.Core.Tx.{Transaction, coinbase_sender}
use dnas.Core.Env.{Crypto, Env}
use dnas.Core.Block.{Block, block_weight}
use dnas.Core.Chain.Rules.{
  Rules, validate_block_structure, validate_on, median_time_past, insert_sorted, sort_times,
  checkpoint_at, expected_bits, retargeted, next_target, lwma_loop, solve_time, check_filter_root,
  check_history_root, check_coinbase,
}
use dnas.Core.Chain.Adopt.{
  Chain, Store, add_block, add_applied, add_persisted, apply_block, apply_valid, check_root,
}
use dnas.Core.Fee.{expected_base_fee, next_base_fee, fee_after, fee_delta, parent_txs}
use dnas.Core.Chain.Failed.{IsAdded, add_block-IsAdded}
use dnas.Core.Chain.ForkChoice.{outranks_asym}
use dnas.Core.Chain.Reorg.{outranks, reorg_from}
use dnas.Core.Chain.Adopted.{IsChain}
use dnas.Core.Chain.Outcome.{Outcome}
use dnas.Core.Chain.Retarget.{expected_bits-IsMeetable}
use dnas.Core.Chain.Locator.{locator, locator_fork}
use dnas.Core.Chain.Common.{IsAligned, IsFork, locator-locator_fork}
use dnas.Core.Chain.Reachable.{
  added, new, Reachable-IsChain, genesis_block, unhashed_genesis, genesis_prev_hash, new_blockchain,
  reorg_from-Outcome,
}
use dnas.Core.Header.{compute_hash, has_valid_pow, header_preimage, preimage_prefix}
use dnas.Core.Ledger.Run.{run}
use dnas.Core.Merkle.{merkle_root, merkle_root_of, root_loop, next_layer, hash_bytes, tx_hashes}
use dnas.Core.Target.{
  chain_work, genesis_bits, meets_target, compact_to_big, hash_to_big, big_value, pow_limit,
  pow_limit_bits, big_to_compact, byte_len, leading, pack, block_work,
}
use dnas.Core.Versionbits.{header}
use dnas.Samples.{env, plain_tx}

-- A hash is the length of what it hashes.
abbrev short_crypto : Crypto
short_crypto = record env.crypto { sha256 = λ s. length s ∷ [] }

abbrev node : Env
node = record env { crypto = short_crypto }

abbrev rules : Rules
rules = record {
  no_retarget = true;
  network_time = 1_800_000_000;
  genesis_hash = [];
  checkpoints = [];
  filter_root = λ prev b. none;
  expected_history_root = λ blocks. [];
  state_root = λ s. codes "state";
}

-- A log that counts its blocks.
abbrev log : Store ℕ
log = record {
  append = λ b n. (true, n + 1);
  truncate_after = λ height n. (true, height + 1);
  poison = λ n. n;
}

abbrev at_genesis : Chain ℕ
at_genesis = new_blockchain node rules 0

abbrev reward : Transaction
reward = record plain_tx { from = coinbase_sender; to = codes "miner"; amount = 50 * coin }

abbrev unhashed : Block
unhashed = record {
  version = 0;
  index = 1;
  timestamp = 1_735_689_660;
  transactions = reward ∷ [];
  prev_hash = (genesis_block node rules).hash;
  merkle_root = merkle_root node (reward ∷ []);
  state_root = codes "state";
  base_fee = 9;
  bits = genesis_bits;
  nonce = 0;
  hash = [];
  filter_root = [];
  history_root = [];
}

abbrev first_block : Block
first_block = record unhashed { hash = compute_hash node (header unhashed) }

first_block_added : (add_block node rules log first_block at_genesis).0 ≡ ok tt
unfolding run add_block add_applied add_persisted apply_block apply_valid check_root
    validate_block_structure validate_on median_time_past insert_sorted sort_times checkpoint_at
    expected_bits expected_base_fee next_base_fee fee_after fee_delta parent_txs check_filter_root
    check_history_root has_valid_pow header compute_hash header_preimage preimage_prefix
    meets_target compact_to_big hash_to_big big_value pow_limit pow_limit_bits genesis_bits
    big_to_compact byte_len leading pack merkle_root merkle_root_of root_loop next_layer hash_bytes
    tx_hashes block_weight check_coinbase genesis_block unhashed_genesis genesis_prev_hash
    new_blockchain
first_block_added = refl

abbrev grown : Chain ℕ
grown = (add_block node rules log first_block at_genesis).1

Reachable-IsChain_example : IsChain grown
Reachable-IsChain_example = Reachable-IsChain node rules log grown (added first_block (new 0))

reorg_from-Outcome_example :
    Outcome rules 0 (first_block ∷ []) grown (reorg_from node rules log 0 (first_block ∷ []) grown)
reorg_from-Outcome_example =
    reorg_from-Outcome node rules log 0 (first_block ∷ []) grown (added first_block (new 0))

empty-IsMap : IsMap at_genesis.state
unfolding new_blockchain
empty-IsMap = tt

add_block-IsAdded_example :
    IsAdded first_block at_genesis (add_block node rules log first_block at_genesis)
add_block-IsAdded_example = add_block-IsAdded node rules log first_block at_genesis empty-IsMap

abbrev genesis : Block
genesis = genesis_block node rules

two_blocks_outrank :
    outranks
      (genesis ∷ first_block ∷ [])
      (chain_work (genesis ∷ first_block ∷ []))
      0
      (first_block ∷ first_block ∷ [])
    ≡ true
unfolding outranks chain_work block_work compact_to_big genesis_block unhashed_genesis genesis_bits
    big_to_compact byte_len leading pack
two_blocks_outrank = refl

outranks_asym_example :
    outranks
      (genesis ∷ first_block ∷ first_block ∷ [])
      (chain_work (genesis ∷ first_block ∷ first_block ∷ []))
      0
      (first_block ∷ [])
    ≡ false
outranks_asym_example =
    outranks_asym (genesis ∷ []) first_block [] first_block (first_block ∷ []) 0 refl
      two_blocks_outrank

abbrev labelled : Str → Block
labelled h = record genesis { hash = h }

-- Two chains that part after their second block.
abbrev ours : List Block
ours = labelled (0 ∷ []) ∷ labelled (1 ∷ []) ∷ labelled (2 ∷ []) ∷ []

abbrev theirs : List Block
theirs = labelled (0 ∷ []) ∷ labelled (1 ∷ []) ∷ labelled (3 ∷ []) ∷ []

ours-IsAligned : IsAligned ours theirs
ours-IsAligned zero zero i_in j_in same = refl
ours-IsAligned zero (suc zero) i_in j_in same = absurd cc
ours-IsAligned zero (suc (suc zero)) i_in j_in same = absurd cc
ours-IsAligned (suc zero) zero i_in j_in same = absurd cc
ours-IsAligned (suc zero) (suc zero) i_in j_in same = refl
ours-IsAligned (suc zero) (suc (suc zero)) i_in j_in same = absurd cc
ours-IsAligned (suc (suc zero)) zero i_in j_in same = absurd cc
ours-IsAligned (suc (suc zero)) (suc zero) i_in j_in same = absurd cc
ours-IsAligned (suc (suc zero)) (suc (suc zero)) i_in j_in same = refl
ours-IsAligned (suc (suc (suc i))) j i_in j_in same = absurd (omega arith)
ours-IsAligned i (suc (suc (suc j))) i_in j_in same = absurd (omega arith)

locator-locator_fork_example :
    (hashes : List Str) × (locator theirs ≡ some hashes)
    × IsFork ours theirs hashes (locator_fork ours hashes)
locator-locator_fork_example =
    locator-locator_fork ours theirs (omega arith) (omega arith) refl ours-IsAligned

parted_at_one : locator_fork ours ((3 ∷ []) ∷ (1 ∷ []) ∷ (0 ∷ []) ∷ []) ≡ 1
unfolding locator_fork str_eq
parted_at_one = refl

abbrev copies : ℕ → List Block
copies zero = []
copies (suc n) = genesis ∷ copies n

abbrev retargeting : Rules
retargeting = record rules { no_retarget = false }

copies_retarget : expected_bits retargeting (copies 21) 21 ≡ some 503_596_096
unfolding expected_bits retargeted next_target lwma_loop solve_time compact_to_big big_to_compact
    byte_len leading pack pow_limit pow_limit_bits genesis_bits genesis_block unhashed_genesis
copies_retarget = refl

expected_bits-IsMeetable_example :
    (0 < compact_to_big 503_596_096) × (compact_to_big 503_596_096 ≤ pow_limit)
expected_bits-IsMeetable_example =
    expected_bits-IsMeetable retargeting (copies 21) 21 503_596_096 copies_retarget
