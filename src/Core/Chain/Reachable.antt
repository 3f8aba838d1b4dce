-- ===== src/Core/Chain/Reachable.antt =====
-- core/blockchain.go: the chains that a node can come to, from the genesis block on.
use dnas.Base.{
  ℕ, refl, List, [], ◌∷◌, ◌++◌, if◌then◌else◌, is_empty, arith, length, leb, inl, inr, Bool-cases,
}
use dnas.Base.Str.{Str, codes}
use dnas.Core.Params.{initial_base_fee}
use dnas.Core.Env.{Env}
use dnas.Core.Block.{Block}
use dnas.Core.Chain.Rules.{Rules}
use dnas.Core.Chain.Adopt.{Chain, Store, add_block}
use dnas.Core.Chain.Reorg.{reorg_from, replace_chain}
use dnas.Core.Chain.Adopted.{IsChain}
use dnas.Core.Chain.Outcome.{
  Outcome, add_block-IsChain, reorg_from-IsChain, replace_chain-IsChain, reorg_locked-Outcome,
}
use dnas.Core.Header.{compute_hash}
use dnas.Core.Merkle.{merkle_root}
use dnas.Core.Target.{block_work, chain_work, genesis_bits}
use dnas.Core.Chain.Linked.{linked}
use dnas.Core.Versionbits.{header}

abbrev pub genesis_timestamp : ℕ
genesis_timestamp = 1_735_689_600

-- `genesisPrevHash`, with the sentinel of core/params.go.
unfoldable pub genesis_prev_hash : Env → Str
genesis_prev_hash env =
    if is_empty env.network_id then codes "0" else codes "0" ++ codes ":" ++ env.network_id

-- `GenesisBlock`, before its hash and with it.
unfoldable pub unhashed_genesis : Env → Rules → Block
unfolding genesis_prev_hash merkle_root genesis_bits
unhashed_genesis env rules = record {
  version = 0;
  index = 0;
  timestamp = genesis_timestamp;
  transactions = [];
  prev_hash = genesis_prev_hash env;
  merkle_root = merkle_root env [];
  state_root = rules.state_root [];
  base_fee = initial_base_fee;
  bits = genesis_bits;
  nonce = 0;
  hash = [];
  filter_root = [];
  history_root = [];
}

unfoldable pub genesis_block : Env → Rules → Block
unfolding unhashed_genesis compute_hash header
genesis_block env rules = record (unhashed_genesis env rules) {
  hash = compute_hash env (header (unhashed_genesis env rules));
}

-- `NewBlockchain`
unfoldable pub new_blockchain : {S : Type 0} → Env → Rules → S → Chain S
unfolding genesis_block block_work
new_blockchain env rules log = record {
  blocks = genesis_block env rules ∷ [];
  undos = [] ∷ [];
  state = [];
  work = block_work (genesis_block env rules).bits;
  burned = 0;
  store = log;
}

-- One call that changes the chain; the configuration is fixed.
pub data Reachable {S : Type 0} (env : Env) (rules : Rules) (store : Store S)
    : Chain S → Type 0 where
  new : (log : S) → Reachable env rules store (new_blockchain env rules log)
  added :
      (b : Block) {c : Chain S}
      → Reachable env rules store c
      → Reachable env rules store (add_block env rules store b c).1
  reorged :
      (fork : ℕ) (suffix : List Block) {c : Chain S}
      → Reachable env rules store c
      → Reachable env rules store (reorg_from env rules store fork suffix c).1
  replaced :
      (incoming : List Block) {c : Chain S}
      → Reachable env rules store c
      → Reachable env rules store (replace_chain env rules store incoming c).1

module _ {S : Type 0} (env : Env) (rules : Rules) (store : Store S) where
  new_blockchain-IsChain : (log : S) → IsChain (new_blockchain env rules log)
  unfolding new_blockchain IsChain linked chain_work
  new_blockchain-IsChain log = (refl, refl, omega arith)

  -- Whatever blocks are added, and whatever chains and suffixes are offered, valid or not, and whatever
  -- the store answers: the chain has an undo log for each block, each block follows the one before it
  -- by its index and its parent hash, and the recorded work is the sum over the blocks.
  pub Reachable-IsChain : (c : Chain S) → Reachable env rules store c → IsChain c
  Reachable-IsChain c (new log) = new_blockchain-IsChain log
  Reachable-IsChain c (added b r) = add_block-IsChain env rules store b _ (Reachable-IsChain _ r)
  Reachable-IsChain c (reorged fork suffix r) =
      reorg_from-IsChain env rules store fork suffix _ (Reachable-IsChain _ r)
  Reachable-IsChain c (replaced incoming r) =
      replace_chain-IsChain env rules store incoming _ (Reachable-IsChain _ r)

  -- A suffix offered to a chain that a node can have is adopted only above every checkpoint, at the cost
  -- of at most `MaxReorgDepth` blocks, and if it wins the fork choice; the chain is then the shared
  -- blocks and the suffix, and the discarded blocks are those above the fork. Otherwise, after an
  -- error or not, the chain is as before, and only the store may have changed.
  pub reorg_from-Outcome :
      (fork : ℕ) (suffix : List Block) (c : Chain S)
      → Reachable env rules store c
      → Outcome rules fork suffix c (reorg_from env rules store fork suffix c)
  unfolding reorg_from
  reorg_from-Outcome fork [] c r = refl
  reorg_from-Outcome fork (b ∷ suffix) c r = elim (Bool-cases (leb (length c.blocks) fork)) [
    | inl beyond ↦ rw beyond refl
    | inr within ↦
        rw within (reorg_locked-Outcome env rules store fork (b ∷ suffix) c (Reachable-IsChain c r))
  ]
