-- ===== src/Core/Merkle/Proof.antt =====
-- core/merkle.go: every proof that `merkleProofOf` builds verifies against `merkleRootOf`.
use dnas.Base.{
  ℕ, zero, suc, ◌+◌, ◌/◌, ◌≤◌, ◌<◌, ◌≡◌, refl, ◌∙◌, sym, ap, leb, true, false, some, List, [], ◌∷◌,
  ◌++◌, length, get_elem?, arith,
}
use dnas.Base.Str.{Str, str_eq, str_eq_self}
use dnas.Core.Env.{Env}
use dnas.Core.Merkle.{
  MerkleProofStep, next_layer, root_loop, first, merkle_root_of, siblings, proof_loop,
  merkle_proof_of, fold_proof, verify_merkle_proof,
}

module _ (env : Env) where
  siblings_before : (idx i : ℕ) (layer : List Str) → idx < i → siblings env idx i layer ≡ []
  unfolding siblings
  siblings_before idx i [] h = refl
  siblings_before idx i (a ∷ []) h = ground arith
  siblings_before idx i (a ∷ b ∷ layer) h =
      ground (arith, siblings_before idx (i + 2) layer (omega arith))

  length-next_layer :
      (layer : List Str)
      → length (next_layer env layer) + length (next_layer env layer) ≤ length layer + 1
  unfolding next_layer
  length-next_layer [] = omega arith
  length-next_layer (a ∷ []) = omega arith
  length-next_layer (a ∷ b ∷ layer) = omega (arith, length-next_layer layer)

  -- One round leads from a leaf's hash to its parent's.
  fold-siblings :
      (k i : ℕ) (layer : List Str) {leaf : Str}
      → get_elem? layer k ≡ some leaf
      → get_elem? (next_layer env layer) (k / 2)
        ≡ some (fold_proof env leaf (siblings env (i + k) i layer))
  unfolding siblings next_layer fold_proof
  fold-siblings k i [] e = cc
  fold-siblings zero i (a ∷ []) e = ground arith
  fold-siblings (suc k) i (a ∷ []) e = cc
  fold-siblings zero i (a ∷ b ∷ layer) e =
      ground (arith, siblings_before (i + 0) (i + 2) layer (omega arith))
  fold-siblings (suc zero) i (a ∷ b ∷ layer) e =
      ground (arith, siblings_before (i + 1) (i + 2) layer (omega arith))
  fold-siblings (suc (suc k)) i (a ∷ b ∷ layer) {leaf = leaf} e =
      let shift : i + suc (suc k) ≡ i + 2 + k = omega arith in
      let half : suc (suc k) / 2 ≡ suc (k / 2) = omega arith in
      ground (
        arith,
        fold-siblings k (i + 2) layer {leaf = leaf} e,
        ap (λ j. siblings env j (i + 2) layer) shift,
        ap (get_elem? (next_layer env (a ∷ b ∷ layer))) half,
      )

  fold-append :
      (p q : List MerkleProofStep) (h : Str)
      → fold_proof env h (p ++ q) ≡ fold_proof env (fold_proof env h p) q
  unfolding fold_proof
  fold-append [] q h = refl
  fold-append (s ∷ p) q h = fold-append p q _

  last_leaf :
      (layer : List Str) (k : ℕ) {leaf : Str}
      → length layer ≤ 1
      → get_elem? layer k ≡ some leaf
      → leaf ≡ first env layer
  last_leaf [] k small e = cc
  last_leaf (a ∷ layer) zero small e = cc
  last_leaf (a ∷ []) (suc k) small e = cc
  last_leaf (a ∷ b ∷ layer) (suc k) small e = absurd (omega arith)

  -- The two loops take as many rounds, and the proof so far leads to the entry of the layer.
  fold-proof_loop :
      (n k : ℕ) (layer : List Str) (proof : List MerkleProofStep) (h : Str)
      → length layer ≤ suc n
      → get_elem? layer k ≡ some (fold_proof env h proof)
      → fold_proof env h (proof_loop env n k layer proof) ≡ first env (root_loop env n layer)
  unfolding proof_loop root_loop
  fold-proof_loop zero k layer proof h fuel e = last_leaf layer k fuel e
  fold-proof_loop (suc n) k layer proof h fuel e =
      let step = siblings env k 0 layer in
      let shift : 0 + k ≡ k = omega arith in
      let here = fold_proof env h (proof ++ step) in
      let parent : get_elem? (next_layer env layer) (k / 2) ≡ some here =
        fold-siblings k 0 layer e
        ∙ ap (λ j. some (fold_proof env (fold_proof env h proof) (siblings env j 0 layer))) shift
        ∙ ap some (sym (fold-append proof step h)) in
      ground (
        arith,
        last_leaf layer k {leaf = fold_proof env h proof},
        fold-proof_loop n (k / 2) (next_layer env layer) (proof ++ step) h
            (omega (arith, length-next_layer layer)) parent,
      )

get_elem?-some :
    (xs : List Str) (i : ℕ) {x : Str} → get_elem? xs i ≡ some x → leb (length xs) i ≡ false
get_elem?-some [] i e = cc
get_elem?-some (x ∷ xs) zero e = ground arith
get_elem?-some (x ∷ xs) (suc i) e = ground (arith, get_elem?-some xs i e)

-- For every leaf there is a proof, and the proof that `merkleProofOf` builds for it verifies against
-- the root that `merkleRootOf` computes.
pub verify_merkle_proof-merkle_proof_of :
    (env : Env) (leaves : List Str) (index : ℕ) (leaf : Str)
    → get_elem? leaves index ≡ some leaf
    → (proof : List MerkleProofStep) × (merkle_proof_of env leaves index ≡ some proof)
      × (verify_merkle_proof env leaf (merkle_root_of env leaves) proof ≡ true)
unfolding merkle_proof_of verify_merkle_proof merkle_root_of
verify_merkle_proof-merkle_proof_of env [] index leaf e = cc
verify_merkle_proof-merkle_proof_of env (l ∷ ls) index leaf e =
    let leaves = l ∷ ls in
    let proof = proof_loop env (length leaves) index leaves [] in
    let agree = fold-proof_loop env (length leaves) index leaves [] leaf (omega arith) e in
    (
      proof,
      rw (get_elem?-some leaves index e) refl,
      ap (str_eq (fold_proof env leaf proof)) (sym agree) ∙ str_eq_self (fold_proof env leaf proof),
    )
