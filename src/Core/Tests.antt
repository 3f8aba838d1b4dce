-- ===== src/Core/Tests.antt =====
-- core: Merkle proofs, the base fee, the minted supply, deployments and multisig on concrete data.
use dnas.Base.{
  take, ℕ, ◌+◌, ◌^◌, ◌≤◌, ◌<◌, ◌≡◌, refl, true, some, List, [], ◌∷◌, All, length, arith,
}
use dnas.Base.Str.{Str, codes}
use dnas.Base.Result.{ok}
use dnas.Core.Tx.{Transaction, MultisigScript}
use dnas.Core.Tx.Codec.{signing_bytes}
use dnas.Core.Tx.Auth.{verify_multisig}
use dnas.Core.Tx.Auth.Threshold.{IsDistinct, HasSigned, verify_multisig-threshold}
use dnas.Core.Merkle.{MerkleProofStep, merkle_root_of, merkle_proof_of, verify_merkle_proof}
use dnas.Core.Merkle.Proof.{verify_merkle_proof-merkle_proof_of}
use dnas.Core.Block.{Block}
use dnas.Core.Chain.{common_prefix}
use dnas.Core.Chain.Prefix.{hashes, common_prefix_longest}
use dnas.Core.Supply.{cumulative_subsidy}
use dnas.Core.Supply.Minted.{minted_from, cumulative_subsidy-minted}
use dnas.Core.Versionbits.{
  Header, Deployment, DeploymentStatus, validate, last_index, evaluate_deployment,
}
use dnas.Core.Versionbits.Evidence.{Backed, evaluate_deployment-Backed}
use dnas.Core.Ledger.Run.{run}
use dnas.Core.Mmr.{append_hashes, empty_mmr}
use dnas.Core.Mmr.Forest.{Forest, IsRange, append_hashes-peaks, forest_leaves, peaks_of}
use dnas.Samples.{env, block, plain_tx, alice, bob, miner}

abbrev leaves : List Str
leaves = codes "a" ∷ codes "b" ∷ codes "c" ∷ codes "d" ∷ codes "e" ∷ []

verify_merkle_proof-merkle_proof_of_example :
    (proof : List MerkleProofStep) × (merkle_proof_of env leaves 4 ≡ some proof)
    × (verify_merkle_proof env (codes "e") (merkle_root_of env leaves) proof ≡ true)
verify_merkle_proof-merkle_proof_of_example =
    verify_merkle_proof-merkle_proof_of env leaves 4 (codes "e") refl

cumulative_subsidy-minted_example : cumulative_subsidy 3 ≡ some (minted_from 1 3)
cumulative_subsidy-minted_example = cumulative_subsidy-minted 3 (omega arith)

abbrev deployment : Deployment
deployment = record {
  name = codes "script";
  bit = 1;
  start = 1;
  timeout = 100;
  window = 2;
  threshold = 2;
}

abbrev voting : ℕ → Header
voting i = record {
  version = 2 ^ 29 + 2;
  index = i;
  timestamp = 0;
  prev_hash = [];
  merkle_root = [];
  state_root = [];
  base_fee = 1;
  bits = 0;
  nonce = 0;
  hash = [];
  filter_root = [];
  history_root = [];
}

abbrev headers : List Header
headers = voting 0 ∷ voting 1 ∷ voting 2 ∷ voting 3 ∷ []

deployment_valid : validate deployment ≡ true
unfolding validate run
deployment_valid = refl

headers_room : last_index 0 headers + 2 < 2 ^ 63
unfolding last_index
headers_room = omega arith

evaluate_deployment-Backed_example :
    (st : DeploymentStatus) × (evaluate_deployment headers deployment ≡ some st)
    × Backed headers deployment st
evaluate_deployment-Backed_example =
    evaluate_deployment-Backed headers deployment deployment_valid (omega arith) headers_room

abbrev script : MultisigScript
script = record { threshold = 2; pub_keys = alice ∷ bob ∷ miner ∷ [] }

abbrev spend : Transaction
spend = record plain_tx {
  from = 109 ∷ 2 ∷ codes "alicebobminer";
  to = bob;
  amount = 5;
  multisig = some script;
  signatures = miner ∷ alice ∷ [];
}

spend_verifies : verify_multisig env spend script ≡ ok tt
unfolding run
spend_verifies = refl

verify_multisig-threshold_example :
    (used : List Str) × IsDistinct used
    × All (HasSigned env (script.pub_keys) (spend.signatures) (signing_bytes env spend)) used
    × (2 ≤ length used)
verify_multisig-threshold_example = verify_multisig-threshold env spend script spend_verifies

-- Two blocks on top of the sample block.
abbrev forked : Block
forked = record block { hash = codes "x" }

abbrev other : Block
other = record block { hash = codes "y" }

common_prefix_longest_example :
    (take (common_prefix (block ∷ forked ∷ []) (block ∷ other ∷ [])) (hashes (block ∷ forked ∷ []))
      ≡ take
          (common_prefix (block ∷ forked ∷ []) (block ∷ other ∷ []))
          (hashes (block ∷ other ∷ [])))
    × (common_prefix (block ∷ forked ∷ []) (block ∷ other ∷ []) ≤ 2)
    × (common_prefix (block ∷ forked ∷ []) (block ∷ other ∷ []) ≤ 2)
    × (1 ≤ common_prefix (block ∷ forked ∷ []) (block ∷ other ∷ []))
common_prefix_longest_example =
    common_prefix_longest (block ∷ forked ∷ []) (block ∷ other ∷ []) 1 (omega arith) (omega arith)
      refl

append_hashes-peaks_example :
    (forest : Forest) × IsRange 0 forest
    × ((append_hashes env (codes "a" ∷ codes "b" ∷ codes "c" ∷ []) empty_mmr).peaks
        ≡ peaks_of env forest)
    × (forest_leaves forest ≡ codes "a" ∷ codes "b" ∷ codes "c" ∷ [])
append_hashes-peaks_example = append_hashes-peaks env (codes "a" ∷ codes "b" ∷ codes "c" ∷ [])
