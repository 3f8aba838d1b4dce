-- ===== src/Core/Mmr.antt =====
-- core/mmr.go: the accumulator over block hashes. The peaks are kept with their heights, the last one
-- first.
pub mod Forest
use dnas.Base.{ℕ, suc, ◌+◌, ◌==◌, if◌then◌else◌, List, [], ◌∷◌, ◌++◌, add64}
use dnas.Base.Str.{Str, codes}
use dnas.Core.Env.{Env}
use dnas.Core.Merkle.{hash_bytes}
use dnas.Core.Tx.Codec.{put_u64}

abbrev pub Peak : Type 0
Peak = ℕ × Str

pub record Mmr : Type 0 where
  pub peaks : List Peak
  pub leaves : ℕ

abbrev pub empty_mmr : Mmr
empty_mmr = record { peaks = []; leaves = 0 }

module _ (env : Env) where
  unfoldable pub mmr_leaf : Str → Str
  unfolding hash_bytes
  mmr_leaf block_hash = hash_bytes env (0 ∷ block_hash)

  unfoldable pub mmr_node : Str → Str → Str
  unfolding hash_bytes
  mmr_node left right = hash_bytes env (1 ∷ (left ++ right))

  -- The loop of `Append`: a peak is merged with the one before it as long as they are equally high.
  unfoldable pub carry : ℕ → Str → List Peak → List Peak
  unfolding mmr_node
  carry height peak [] = (height, peak) ∷ []
  carry height peak ((before_height, before) ∷ peaks) =
      let merged = carry (height + 1) (mmr_node before peak) peaks in
      if height == before_height then merged else (height, peak) ∷ (before_height, before) ∷ peaks

  -- `Append`
  unfoldable pub append_hash : Str → Mmr → Mmr
  unfolding carry mmr_leaf
  append_hash block_hash m = record {
    peaks = carry 0 (mmr_leaf block_hash) m.peaks;
    leaves = add64 m.leaves 1;
  }

  -- The loop of `foldPeaks`.
  unfoldable pub bag : Str → List Peak → Str
  unfolding mmr_node
  bag acc [] = acc
  bag acc ((height, peak) ∷ peaks) = bag (mmr_node peak acc) peaks

  -- `foldPeaks`, on some peak.
  unfoldable pub fold_peaks : Peak → List Peak → ℕ → Str
  unfolding bag hash_bytes put_u64
  fold_peaks (height, last) peaks leaves = hash_bytes env (2 ∷ (put_u64 leaves ++ bag last peaks))

  -- Without a peak Go would panic.
  abbrev fold_some : List Peak → ℕ → Str
  fold_some [] leaves = []
  fold_some (peak ∷ peaks) leaves = fold_peaks peak peaks leaves

  -- `Root`
  unfoldable pub mmr_root : Mmr → Str
  unfolding fold_peaks hash_bytes
  mmr_root m =
      if m.leaves == 0 then hash_bytes env (codes "dnas-mmr-empty") else fold_some m.peaks m.leaves

  -- The range of some hashes, appended in order.
  unfoldable pub append_hashes : List Str → Mmr → Mmr
  unfolding append_hash
  append_hashes [] m = m
  append_hashes (h ∷ hashes) m = append_hashes hashes (append_hash h m)
