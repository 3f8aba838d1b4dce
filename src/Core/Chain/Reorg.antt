-- ===== src/Core/Chain/Reorg.antt =====
-- core/blockchain.go: the reorganisation, from the fork choice to the chain that is adopted.
use dnas.Base.{
  ℕ, ◌+◌, ◌-◌, ltb, leb, ◌==◌, if◌then◌else◌, Bool, true, false, not, Option, none, some, List, [],
  ◌∷◌, ◌++◌, get_elem?, length, take, drop, add64, sub64,
}
use dnas.Base.Str.{Str, str_eq, str_lt}
use dnas.Base.Result.{Result, ok, err}
use dnas.Core.Params.{max_reorg_depth}
use dnas.Core.Env.{Env}
use dnas.Core.Block.{Block, block_burned}
use dnas.Core.Chain.{common_prefix}
use dnas.Core.Chain.Adopt.{Chain, Store, Undo, apply_block}
use dnas.Core.Chain.Rules.{
  Rules, ChainError, persist_failed, empty_chain, genesis_mismatch, fork_beyond_tip,
  below_checkpoint, too_deep, highest_checkpoint, last_of,
}
use dnas.Core.Ledger.{State, apply_undo}
use dnas.Core.Target.{chain_work}

-- The undo logs above the fork, from the tip down.
unfoldable pub roll_back : List Undo → State → State
unfolding apply_undo
roll_back [] s = s
roll_back (undo ∷ undos) s = apply_undo undo (roll_back undos s)

-- The candidate chain while its suffix is validated.
pub record Candidate : Type 0 where
  pub cand_blocks : List Block
  pub cand_undos : List Undo
  pub cand_state : State

abbrev pub hash_or_none : Option Block → Str
hash_or_none none = []
hash_or_none (some b) = b.hash

-- The tip of the candidate: of the suffix, or the fork.
abbrev pub cand_tip : List Block → ℕ → List Block → Str
cand_tip blocks fork [] = hash_or_none (get_elem? blocks fork)
cand_tip blocks fork (b ∷ suffix) = hash_or_none (last_of (b ∷ suffix))

-- The fork choice: more work, or as much and a smaller tip hash.
unfoldable pub outranks : List Block → ℕ → ℕ → List Block → Bool
unfolding chain_work str_lt
outranks blocks work fork suffix =
    let cand_work = chain_work (take (fork + 1) blocks) + chain_work suffix in
    if ltb cand_work work
    then false
    else if cand_work == work
    then str_lt (cand_tip blocks fork suffix) (hash_or_none (last_of blocks))
    else true

-- The candidate at the fork, on a copy of the state.
unfoldable pub candidate_at : {S : Type 0} → ℕ → Chain S → Candidate
unfolding roll_back
candidate_at fork c = record {
  cand_blocks = take (fork + 1) c.blocks;
  cand_undos = take (fork + 1) c.undos;
  cand_state = roll_back (drop (fork + 1) c.undos) c.state;
}

module _ {S : Type 0} (store : Store S) where
  -- The new suffix into the log: `false` where a write fails, and the log is then poisoned.
  unfoldable pub append_all : List Block → S → Bool × S
  append_all [] log = (true, log)
  append_all (b ∷ blocks) log =
      let (written, log') = store.append b log in
      let more = append_all blocks log' in if written then more else (false, store.poison log')

  unfoldable pub persist_truncated : List Block → Bool × S → Bool × S
  unfolding append_all
  persist_truncated suffix (false, log) = (false, store.poison log)
  persist_truncated suffix (true, log) = append_all suffix log

  unfoldable pub persist_reorg : ℕ → List Block → S → Bool × S
  unfolding persist_truncated
  persist_reorg fork suffix log = persist_truncated suffix (store.truncate_after fork log)

module _ (env : Env) (rules : Rules) where
  -- The loops over the burned fees.
  unfoldable pub unburn : List Block → ℕ → ℕ
  unfolding block_burned
  unburn [] burned = burned
  unburn (b ∷ blocks) burned = sub64 (unburn blocks burned) (block_burned env b)

  unfoldable pub burn : List Block → ℕ → ℕ
  unfolding block_burned
  burn [] burned = burned
  burn (b ∷ blocks) burned = burn blocks (add64 burned (block_burned env b))

  -- The loop over the suffix.
  unfoldable pub apply_suffix : List Block → Candidate → Result ChainError Candidate
  unfolding apply_block
  apply_suffix [] cand = ok cand
  apply_suffix (b ∷ suffix) cand =
      let (r, s) = apply_block env rules cand.cand_blocks b cand.cand_state in
      elim r [
        | err e ↦ err e
        | ok undo ↦ apply_suffix suffix (record {
          cand_blocks = cand.cand_blocks ++ (b ∷ []);
          cand_undos = cand.cand_undos ++ (undo ∷ []);
          cand_state = s;
        })
      ]

  module _ {S : Type 0} (store : Store S) where
    -- What the code returns: an error; or whether the chain was adopted, and then the blocks that it
    -- discarded.
    abbrev pub Reorged : Type 0
    Reorged = Result ChainError (Option (List Block)) × Chain S

    unfoldable pub commit : ℕ → List Block → Candidate → Chain S → Bool × S → Reorged
    unfolding unburn burn chain_work
    commit fork suffix cand c (false, log) = (err persist_failed, record c { store = log })
    commit fork suffix cand c (true, log) =
        let gone = drop (fork + 1) c.blocks in
        (
          ok (some gone),
          record {
            blocks = cand.cand_blocks;
            undos = cand.cand_undos;
            state = cand.cand_state;
            work = chain_work (take (fork + 1) c.blocks) + chain_work suffix;
            burned = burn suffix (unburn gone c.burned);
            store = log;
          },
        )

    unfoldable pub adopt : ℕ → List Block → Chain S → Result ChainError Candidate → Reorged
    unfolding commit persist_reorg
    adopt fork suffix c (err e) = (err e, c)
    adopt fork suffix c (ok cand) =
        commit fork suffix cand c (persist_reorg store fork suffix c.store)

    -- `reorgLocked`, for a fork within the chain.
    unfoldable pub reorg_locked : ℕ → List Block → Chain S → Reorged
    unfolding highest_checkpoint outranks adopt apply_suffix candidate_at
    reorg_locked fork suffix c =
        let least = highest_checkpoint rules.checkpoints in
        let removed = length c.blocks - 1 - fork in
        if ltb fork least
        then (err (below_checkpoint least), c)
        else if ltb max_reorg_depth removed
        then (err (too_deep removed), c)
        else if not (outranks c.blocks c.work fork suffix)
        then (ok none, c)
        else adopt fork suffix c (apply_suffix suffix (candidate_at fork c))

    -- `ReorgFrom`
    unfoldable pub reorg_from : ℕ → List Block → Chain S → Reorged
    unfolding reorg_locked
    reorg_from fork [] c = (ok none, c)
    reorg_from fork (b ∷ suffix) c =
        if leb (length c.blocks) fork
        then (err fork_beyond_tip, c)
        else reorg_locked fork (b ∷ suffix) c

    -- `ReplaceChain`
    unfoldable pub replace_chain : List Block → Chain S → Reorged
    unfolding reorg_locked common_prefix
    replace_chain [] c = (err empty_chain, c)
    replace_chain (b ∷ incoming) c =
        let fork = common_prefix c.blocks (b ∷ incoming) - 1 in
        if not (str_eq b.hash rules.genesis_hash)
        then (err genesis_mismatch, c)
        else reorg_locked fork (drop (fork + 1) (b ∷ incoming)) c
