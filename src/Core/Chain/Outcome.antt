-- ===== src/Core/Chain/Outcome.antt =====
-- core/blockchain.go: what adding a block and reorganising the chain leave, on every outcome.
use dnas.Base.{
  ℕ, ◌+◌, ◌-◌, ◌≤◌, ltb, leb, Bool, true, false, some, none, List, [], ◌∷◌, ◌++◌, length, take,
  drop, ◌≡◌, refl, arith, Option, inl, inr, Bool-cases, length-append, length-drop, ltb_false→le,
}
use dnas.Base.Str.{str_eq}
use dnas.Base.Result.{Result, ok, err}
use dnas.Core.Params.{max_reorg_depth}
use dnas.Core.Env.{Env}
use dnas.Core.Block.{Block}
use dnas.Core.Ledger.{State}
use dnas.Core.Chain.{common_prefix}
use dnas.Core.Chain.Rules.{Rules, ChainError, highest_checkpoint}
use dnas.Core.Chain.Adopt.{Chain, Store, Undo, apply_block, add_block, add_applied, add_persisted}
use dnas.Core.Chain.Reorg.{
  Candidate, adopt, apply_suffix, candidate_at, commit, outranks, persist_reorg, reorg_locked,
  reorg_from, replace_chain,
}
use dnas.Core.Chain.Adopted.{
  IsChain, adopt-IsChain, chain_work-append, apply_suffix-ok, candidate_at-IsCandidate,
}
use dnas.Core.Chain.Linked.{apply_block-linked, linked}
use dnas.Core.Target.{chain_work}

-- What `reorgLocked` returned says how the chain before relates to the chain after. Where it adopted
-- the suffix, it was within the guards and outranked the chain, the chain after is the shared blocks
-- and the suffix, and the discarded blocks are those above the fork, at most `MaxReorgDepth`.
-- Otherwise the chain is as before; only the store may have been poisoned.
abbrev pub Outcome :
    {S : Type 0}
    → Rules
    → ℕ
    → List Block
    → Chain S
    → Result ChainError (Option (List Block)) × Chain S
    → Type 0
Outcome rules fork suffix c (err e, d) = d ≡ record c { store = d.store }
Outcome rules fork suffix c (ok none, d) = d ≡ c
Outcome rules fork suffix c (ok (some gone), d) =
    (gone ≡ drop (fork + 1) c.blocks)
    × (length gone ≤ max_reorg_depth)
    × (highest_checkpoint rules.checkpoints ≤ fork)
    × (outranks c.blocks c.work fork suffix ≡ true)
    × (d.blocks ≡ take (fork + 1) c.blocks ++ suffix)

module _ (env : Env) (rules : Rules) {S : Type 0} (store : Store S) where
  -- The guards let the fork through.
  IsGuarded : ℕ → List Block → Chain S → Type 0
  IsGuarded fork suffix c =
      (length (drop (fork + 1) c.blocks) ≤ max_reorg_depth)
      × (highest_checkpoint rules.checkpoints ≤ fork)
      × (outranks c.blocks c.work fork suffix ≡ true)

  commit-Outcome :
      (fork : ℕ) (suffix : List Block) (cand : Candidate) (c : Chain S) (written : Bool × S)
      → IsGuarded fork suffix c
      → cand.cand_blocks ≡ take (fork + 1) c.blocks ++ suffix
      → Outcome rules fork suffix c (commit env rules store fork suffix cand c written)
  unfolding commit IsGuarded
  commit-Outcome fork suffix cand c (false, log) guarded blocks = refl
  commit-Outcome fork suffix cand c (true, log) guarded blocks =
      (refl, guarded.0, guarded.1, guarded.2, blocks)

  adopt-Outcome :
      (fork : ℕ) (suffix : List Block) (c : Chain S) (r : Result ChainError Candidate)
      → apply_suffix env rules suffix (candidate_at fork c) ≡ r
      → IsGuarded fork suffix c
      → IsChain c
      → Outcome rules fork suffix c (adopt env rules store fork suffix c r)
  unfolding adopt candidate_at
  adopt-Outcome fork suffix c (err e) ran guarded h = refl
  adopt-Outcome fork suffix c (ok cand) ran guarded h =
      commit-Outcome fork suffix cand c (persist_reorg store fork suffix c.store) guarded (
        (apply_suffix-ok env rules suffix (candidate_at fork c) cand ran
          (candidate_at-IsCandidate fork c h)).0)

  pub reorg_locked-Outcome :
      (fork : ℕ) (suffix : List Block) (c : Chain S)
      → IsChain c
      → Outcome rules fork suffix c (reorg_locked env rules store fork suffix c)
  unfolding reorg_locked IsGuarded
  reorg_locked-Outcome fork suffix c h =
      elim (Bool-cases (ltb fork (highest_checkpoint rules.checkpoints))) [
        | inl below ↦ rw below refl
        | inr above ↦ elim (Bool-cases (ltb max_reorg_depth (length c.blocks - 1 - fork))) [
          | inl deep ↦ rw (above, deep) refl
          | inr shallow ↦ elim (Bool-cases (outranks c.blocks c.work fork suffix)) [
            | inl better ↦
                rw (above, shallow, better)
                  (adopt-Outcome fork suffix c (apply_suffix env rules suffix (candidate_at fork c))
                    refl
                    (
                      omega (arith, length-drop (fork + 1) c.blocks, ltb_false→le _ _ shallow),
                      ltb_false→le _ _ above,
                      better,
                    )
                    h)
            | inr worse ↦ rw (above, shallow, worse) refl
          ]
        ]
      ]

  pub reorg_locked-IsChain :
      (fork : ℕ) (suffix : List Block) (c : Chain S)
      → IsChain c
      → IsChain (reorg_locked env rules store fork suffix c).1
  unfolding reorg_locked
  reorg_locked-IsChain fork suffix c h =
      elim (Bool-cases (ltb fork (highest_checkpoint rules.checkpoints))) [
        | inl below ↦ rw below h
        | inr above ↦ elim (Bool-cases (ltb max_reorg_depth (length c.blocks - 1 - fork))) [
          | inl deep ↦ rw (above, deep) h
          | inr shallow ↦ elim (Bool-cases (outranks c.blocks c.work fork suffix)) [
            | inl better ↦
                rw (above, shallow, better)
                  (adopt-IsChain env rules store fork suffix c
                    (apply_suffix env rules suffix (candidate_at fork c)) refl h)
            | inr worse ↦ rw (above, shallow, worse) h
          ]
        ]
      ]

  pub replace_chain-IsChain :
      (incoming : List Block) (c : Chain S)
      → IsChain c
      → IsChain (replace_chain env rules store incoming c).1
  unfolding replace_chain
  replace_chain-IsChain [] c h = h
  replace_chain-IsChain (b ∷ incoming) c h = elim (Bool-cases (str_eq b.hash rules.genesis_hash)) [
    | inl same ↦
        let fork = common_prefix c.blocks (b ∷ incoming) - 1 in
        rw same (reorg_locked-IsChain fork (drop (fork + 1) (b ∷ incoming)) c h)
    | inr other ↦ rw other h
  ]

  add_persisted-IsChain :
      (b : Block) (undo : Undo) (s : State) (c : Chain S) (written : Bool × S)
      → linked (c.blocks ++ (b ∷ [])) ≡ true
      → IsChain c
      → IsChain (add_persisted env rules store b undo s c written).1
  unfolding add_persisted IsChain chain_work
  add_persisted-IsChain b undo s c (false, log) next h = h
  add_persisted-IsChain b undo s c (true, log) next h = (
    omega (arith, h.0, length-append c.undos (undo ∷ []), length-append c.blocks (b ∷ [])),
    next,
    omega (arith, h.2, chain_work-append c.blocks (b ∷ [])),
  )

  add_applied-IsChain :
      (b : Block) (c : Chain S) (applied : Result ChainError Undo × State)
      → ((undo : Undo) → applied.0 ≡ ok undo → linked (c.blocks ++ (b ∷ [])) ≡ true)
      → IsChain c
      → IsChain (add_applied env rules store b c applied).1
  unfolding add_applied IsChain
  add_applied-IsChain b c (err e, s) next h = h
  add_applied-IsChain b c (ok undo, s) next h =
      add_persisted-IsChain b undo s c (store.append b c.store) (next undo refl) h

  pub add_block-IsChain :
      (b : Block) (c : Chain S) → IsChain c → IsChain (add_block env rules store b c).1
  unfolding add_block
  add_block-IsChain b c h =
      add_applied-IsChain b c (apply_block env rules c.blocks b c.state)
        (λ undo applied.
          apply_block-linked env rules c.blocks b c.state undo applied (unfold IsChain in h.1))
        h

  pub reorg_from-IsChain :
      (fork : ℕ) (suffix : List Block) (c : Chain S)
      → IsChain c
      → IsChain (reorg_from env rules store fork suffix c).1
  unfolding reorg_from
  reorg_from-IsChain fork [] c h = h
  reorg_from-IsChain fork (b ∷ suffix) c h = elim (Bool-cases (leb (length c.blocks) fork)) [
    | inl beyond ↦ rw beyond h
    | inr within ↦ rw within (reorg_locked-IsChain fork (b ∷ suffix) c h)
  ]
