-- ===== src/Core/Chain/Linked.antt =====
-- core/blockchain.go: a block that is applied links to the tip.
use dnas.Base.{
  ℕ, zero, suc, ◌+◌, ◌==◌, Bool, true, not, ◌&&◌, some, List, [], ◌∷◌, ◌++◌, take, ◌≡◌, refl, arith,
  inl, inr, Option-cases,
}
use dnas.Base.Str.{str_eq}
use dnas.Base.Result.{Result, ok, err, fail_if-eq-ok}
use dnas.Core.Env.{Env}
use dnas.Core.Block.{Block}
use dnas.Core.Ledger.{State}
use dnas.Core.Chain.Rules.{
  Rules, ChainError, bad_index, bad_prev_hash, no_parent, last_of, validate_on, validate_after,
  validate_block_structure,
}
use dnas.Core.Chain.Adopt.{Undo, apply_block, apply_valid}

unfoldable pub follows : Block → Block → Bool
follows prev b = (b.index == prev.index + 1) && str_eq b.prev_hash prev.hash

-- Every block but the first follows the one before it.
unfoldable pub linked : List Block → Bool
unfolding follows
linked [] = true
linked (b ∷ []) = true
linked (a ∷ b ∷ blocks) = follows a b && linked (b ∷ blocks)

pub linked-append :
    (blocks : List Block) (prev b : Block)
    → last_of blocks ≡ some prev
    → follows prev b ≡ true
    → linked blocks ≡ true
    → linked (blocks ++ (b ∷ [])) ≡ true
unfolding linked
linked-append [] prev b last next h = absurd cc
linked-append (a ∷ []) prev b last next h = let same : a ≡ prev = cc in rw (same, next) refl
linked-append (a ∷ c ∷ blocks) prev b last next h =
    ground (arith, linked-append (c ∷ blocks) prev b last next)

pub linked-take :
    (n : ℕ) (blocks : List Block) → linked blocks ≡ true → linked (take n blocks) ≡ true
unfolding linked
linked-take zero blocks h = refl
linked-take (suc n) [] h = refl
linked-take (suc zero) (b ∷ []) h = refl
linked-take (suc (suc n)) (b ∷ []) h = refl
linked-take (suc zero) (a ∷ b ∷ blocks) h = refl
linked-take (suc (suc n)) (a ∷ b ∷ blocks) h = ground (arith, linked-take (suc n) (b ∷ blocks))

abbrev refusal : ChainError → Result ChainError (Unit {0})
refusal e = err e

no_parent-ok : refusal no_parent ≡ ok tt → ⊥
no_parent-ok h = cc

module _ (env : Env) (rules : Rules) where
  validate_on-follows :
      (blocks : List Block) (prev b : Block)
      → validate_on env rules blocks prev b ≡ ok tt
      → follows prev b ≡ true
  unfolding validate_on follows
  validate_on-follows blocks prev b h =
      let (index, h₁) = fail_if-eq-ok (not (b.index == prev.index + 1)) bad_index _ h in
      let (hash, h₂) = fail_if-eq-ok (not (str_eq b.prev_hash prev.hash)) bad_prev_hash _ h₁ in
      ground (arith, index, hash)

  validate_block_structure-follows :
      (blocks : List Block) (b : Block)
      → validate_block_structure env rules blocks b ≡ ok tt
      → (prev : Block) × (last_of blocks ≡ some prev) × (follows prev b ≡ true)
  unfolding validate_block_structure validate_after
  validate_block_structure-follows blocks b h = elim (Option-cases (last_of blocks)) [
    | inl none_last ↦ absurd (no_parent-ok (rw none_last at h))
    | inr (prev, last) ↦ (prev, last, validate_on-follows blocks prev b (rw last at h))
  ]

  apply_valid-ok :
      (blocks : List Block) (b : Block) (s : State) (undo : Undo)
      (checked : Result ChainError (Unit {0}))
      → (apply_valid env rules blocks b s checked).0 ≡ ok undo
      → checked ≡ ok tt
  unfolding apply_valid
  apply_valid-ok blocks b s undo (err e) h = absurd cc
  apply_valid-ok blocks b s undo (ok _) h = refl

  pub apply_block-linked :
      (blocks : List Block) (b : Block) (s : State) (undo : Undo)
      → (apply_block env rules blocks b s).0 ≡ ok undo
      → linked blocks ≡ true
      → linked (blocks ++ (b ∷ [])) ≡ true
  unfolding apply_block
  apply_block-linked blocks b s undo h all_linked =
      let (prev, last, next) =
        validate_block_structure-follows blocks b
          (apply_valid-ok blocks b s undo (validate_block_structure env rules blocks b) h) in
      linked-append blocks prev b last next all_linked
