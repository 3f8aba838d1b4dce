-- ===== src/Core/Chain/Adopted.antt =====
-- core/blockchain.go: what a reorganisation leaves, whether it adopts the suffix or not.
use dnas.Base.{
  ℕ, ◌+◌, Bool, true, false, List, [], ◌∷◌, ◌++◌, length, take, ◌≡◌, refl, sym, ap, ◌∙◌, arith, inl,
  inr, length-append, length-take,
}
use mathlib.Core.List.{append_assoc, append-nil}
use dnas.Base.Result.{Result, ok, err, Result-cases}
use dnas.Core.Env.{Env}
use dnas.Core.Block.{Block}
use dnas.Core.Ledger.{State}
use dnas.Core.Chain.Rules.{Rules, ChainError}
use dnas.Core.Chain.Adopt.{Chain, Store, Undo, apply_block}
use dnas.Core.Chain.Reorg.{Candidate, adopt, apply_suffix, candidate_at, commit, persist_reorg}
use dnas.Core.Chain.Linked.{apply_block-linked, linked, linked-take}
use dnas.Core.Target.{chain_work}

pub chain_work-append :
    (front back : List Block) → chain_work (front ++ back) ≡ chain_work front + chain_work back
unfolding chain_work
chain_work-append [] back = omega arith
chain_work-append (b ∷ front) back = omega (arith, chain_work-append front back)

abbrev refused_suffix : ChainError → Result ChainError Candidate
refused_suffix e = err e

refused_suffix-ok : (e : ChainError) (cand : Candidate) → refused_suffix e ≡ ok cand → ⊥
refused_suffix-ok e cand h = cc

-- A candidate whose undo logs are as many as its blocks, which are linked.
pub IsCandidate : Candidate → Type 0
IsCandidate cand =
    (length cand.cand_undos ≡ length cand.cand_blocks) × (linked cand.cand_blocks ≡ true)

abbrev extended : Candidate → Block → Undo → State → Candidate
extended cand b undo s = record {
  cand_blocks = cand.cand_blocks ++ (b ∷ []);
  cand_undos = cand.cand_undos ++ (undo ∷ []);
  cand_state = s;
}

module _ (env : Env) (rules : Rules) where
  extended-IsCandidate :
      (cand : Candidate) (b : Block) (undo : Undo) (s : State)
      → (apply_block env rules cand.cand_blocks b cand.cand_state).0 ≡ ok undo
      → IsCandidate cand
      → IsCandidate (extended cand b undo s)
  unfolding IsCandidate
  extended-IsCandidate cand b undo s applied h = (
    length-append cand.cand_undos (undo ∷ [])
        ∙ ap (λ n. n + 1) h.0
        ∙ sym (length-append cand.cand_blocks (b ∷ [])),
    apply_block-linked env rules cand.cand_blocks b cand.cand_state undo applied h.1,
  )

  pub apply_suffix-ok :
      (suffix : List Block) (cand cand' : Candidate)
      → apply_suffix env rules suffix cand ≡ ok cand'
      → IsCandidate cand
      → (cand'.cand_blocks ≡ cand.cand_blocks ++ suffix) × IsCandidate cand'
  unfolding apply_suffix
  apply_suffix-ok [] cand cand' h valid =
      let same : cand ≡ cand' = cc in rw (sym same) (sym (append-nil cand.cand_blocks), valid)
  apply_suffix-ok (b ∷ suffix) cand cand' h valid =
      let applied = apply_block env rules cand.cand_blocks b cand.cand_state in
      elim (Result-cases applied.0) [
        | inl (e, refused) ↦ absurd (refused_suffix-ok e cand' (rw (refused, apply_suffix) at h))
        | inr (undo, fine) ↦
            let (blocks, valid') =
              apply_suffix-ok suffix (extended cand b undo applied.1) cand'
                (rw (fine, apply_suffix) at h)
                (extended-IsCandidate cand b undo applied.1 fine valid) in
            (blocks ∙ append_assoc cand.cand_blocks (b ∷ []) suffix, valid')
      ]

-- A chain with an undo log for each block, linked blocks, and the work of its blocks.
unfoldable pub IsChain : {S : Type 0} → Chain S → Type 0
IsChain c =
    (length c.undos ≡ length c.blocks) × (linked c.blocks ≡ true) × (c.work ≡ chain_work c.blocks)

pub candidate_at-IsCandidate :
    {S : Type 0} (fork : ℕ) (c : Chain S) → IsChain c → IsCandidate (candidate_at fork c)
unfolding IsChain IsCandidate candidate_at
candidate_at-IsCandidate fork c h = (
  omega (arith, h.0, length-take (fork + 1) c.undos, length-take (fork + 1) c.blocks),
  linked-take (fork + 1) c.blocks h.1,
)

module _ (env : Env) (rules : Rules) {S : Type 0} (store : Store S) where
  commit-IsChain :
      (fork : ℕ) (suffix : List Block) (cand : Candidate) (c : Chain S) (written : Bool × S)
      → cand.cand_blocks ≡ take (fork + 1) c.blocks ++ suffix
      → IsCandidate cand
      → IsChain c
      → IsChain (commit env rules store fork suffix cand c written).1
  unfolding commit IsChain IsCandidate
  commit-IsChain fork suffix cand c (false, log) blocks valid h = h
  commit-IsChain fork suffix cand c (true, log) blocks valid h = (
    valid.0,
    valid.1,
    sym (chain_work-append (take (fork + 1) c.blocks) suffix) ∙ ap chain_work (sym blocks),
  )

  pub adopt-IsChain :
      (fork : ℕ) (suffix : List Block) (c : Chain S) (r : Result ChainError Candidate)
      → apply_suffix env rules suffix (candidate_at fork c) ≡ r
      → IsChain c
      → IsChain (adopt env rules store fork suffix c r).1
  unfolding adopt
  adopt-IsChain fork suffix c (err e) ran h = h
  adopt-IsChain fork suffix c (ok cand) ran h =
      let (blocks, valid) =
        apply_suffix-ok env rules suffix (candidate_at fork c) cand ran
          (candidate_at-IsCandidate fork c h) in
      commit-IsChain fork suffix cand c (persist_reorg store fork suffix c.store)
        (blocks ∙ ap (λ front. front ++ suffix) (unfold candidate_at in refl)) valid h
