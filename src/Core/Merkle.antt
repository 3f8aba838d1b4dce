-- ===== src/Core/Merkle.antt =====
-- core/merkle.go: the Merkle tree of transaction hashes, inclusion proofs, and their verification.
-- A loop over layers runs on fuel, the number of leaves, which is enough since every round at least
-- halves a layer (rounded up).
pub mod Proof
use dnas.Base.{
  ℕ, zero, suc, ◌+◌, ◌/◌, leb, ltb, ◌==◌, if◌then◌else◌, Bool, true, false, Option, none, some,
  List, [], ◌∷◌, ◌++◌, map, length,
}
use dnas.Base.Str.{Str, codes, str_eq}
use dnas.Core.Tx.{Transaction}
use dnas.Core.Tx.Codec.{tx_hash}
use dnas.Core.Env.{Env}

pub record MerkleProofStep : Type 0 where
  pub hash : Str
  pub right : Bool

module _ (env : Env) where
  -- core/block.go: `hashBytes`
  unfoldable pub hash_bytes : Str → Str
  hash_bytes b = env.crypto.hex_encode (env.crypto.sha256 b)

  -- One round of the loop of `merkleRootOf`.
  unfoldable pub next_layer : List Str → List Str
  unfolding hash_bytes
  next_layer [] = []
  next_layer (a ∷ []) = hash_bytes (a ++ a) ∷ []
  next_layer (a ∷ b ∷ layer) = hash_bytes (a ++ b) ∷ next_layer layer

  unfoldable pub root_loop : ℕ → List Str → List Str
  unfolding next_layer
  root_loop zero layer = layer
  root_loop (suc n) layer =
      let more = root_loop n (next_layer layer) in if ltb 1 (length layer) then more else layer

  abbrev pub first : List Str → Str
  first [] = []
  first (h ∷ _) = h

  -- `merkleRootOf`
  unfoldable pub merkle_root_of : List Str → Str
  unfolding root_loop hash_bytes
  merkle_root_of [] = hash_bytes (codes "empty")
  merkle_root_of (l ∷ ls) = first (root_loop (length (l ∷ ls)) (l ∷ ls))

  -- What one round of `merkleProofOf` appends to the proof: the loop over `i` by twos.
  unfoldable pub siblings : ℕ → ℕ → List Str → List MerkleProofStep
  siblings idx i [] = []
  siblings idx i (left ∷ []) =
      if idx == i
      then record { hash = left; right = true } ∷ []
      else if idx == i + 1
      then record { hash = left; right = false } ∷ []
      else []
  siblings idx i (left ∷ right ∷ layer) =
      let rest = siblings idx (i + 2) layer in
      if idx == i
      then record { hash = right; right = true } ∷ rest
      else if idx == i + 1
      then record { hash = left; right = false } ∷ rest
      else rest

  unfoldable pub proof_loop : ℕ → ℕ → List Str → List MerkleProofStep → List MerkleProofStep
  unfolding siblings next_layer
  proof_loop zero idx layer proof = proof
  proof_loop (suc n) idx layer proof =
      let more = proof_loop n (idx / 2) (next_layer layer) (proof ++ siblings idx 0 layer) in
      if ltb 1 (length layer) then more else proof

  -- `merkleProofOf`: `none` for an index out of range. (An int below 0 has no counterpart.)
  unfoldable pub merkle_proof_of : List Str → ℕ → Option (List MerkleProofStep)
  unfolding proof_loop
  merkle_proof_of leaves index =
      if leb (length leaves) index then none else some (proof_loop (length leaves) index leaves [])

  -- `txHashes`
  unfoldable pub tx_hashes : List Transaction → List Str
  unfolding tx_hash
  tx_hashes txs = map (tx_hash env) txs

  -- `MerkleProof`
  unfoldable pub merkle_proof : List Transaction → ℕ → Option (List MerkleProofStep)
  unfolding merkle_proof_of tx_hashes
  merkle_proof txs index = merkle_proof_of (tx_hashes txs) index

  -- core/block.go: `MerkleRoot`
  unfoldable pub merkle_root : List Transaction → Str
  unfolding merkle_root_of tx_hashes
  merkle_root txs = merkle_root_of (tx_hashes txs)

  -- The loop of `VerifyMerkleProof`.
  unfoldable pub fold_proof : Str → List MerkleProofStep → Str
  unfolding hash_bytes
  fold_proof h [] = h
  fold_proof h (s ∷ steps) =
      fold_proof (if s.right then hash_bytes (h ++ s.hash) else hash_bytes (s.hash ++ h)) steps

  -- `VerifyMerkleProof`
  unfoldable pub verify_merkle_proof : Str → Str → List MerkleProofStep → Bool
  unfolding fold_proof
  verify_merkle_proof leaf root proof = str_eq (fold_proof leaf proof) root
