-- ===== src/Core/Chain/ForkChoice.antt =====
-- core/blockchain.go: the fork choice cannot flap between two branches.
use dnas.Base.{
  ℕ, zero, suc, ◌+◌, ltb, if◌then◌else◌, ◌==◌, Bool, true, false, List, [], ◌∷◌, ◌++◌, length, take,
  ◌≡◌, refl, sym, ◌∙◌, arith,
}
use dnas.Base.Str.{Str, str_lt, str_lt_asym}
use dnas.Core.Block.{Block}
use dnas.Core.Chain.Rules.{last_of}
use dnas.Core.Chain.Reorg.{outranks, hash_or_none}
use dnas.Core.Chain.Adopted.{chain_work-append}
use dnas.Core.Target.{chain_work}

take_all : (n : ℕ) (front back : List Block) → length front ≡ n → take n (front ++ back) ≡ front
take_all zero [] back h = refl
take_all zero (b ∷ front) back h = absurd (omega arith)
take_all (suc n) [] back h = absurd (omega arith)
take_all (suc n) (b ∷ front) back h = rw (take_all n front back (omega arith)) refl

last_of-append :
    (front : List Block) (b : Block) (back : List Block)
    → last_of (front ++ (b ∷ back)) ≡ last_of (b ∷ back)
last_of-append [] b back = refl
last_of-append (a ∷ []) b back = refl
last_of-append (a ∷ c ∷ front) b back = last_of-append (c ∷ front) b back

-- Two branches by their work and their tips: the one outranks the other.
unfoldable pub ranks : ℕ → Str → ℕ → Str → Bool
unfolding str_lt
ranks cand_work tip' work tip =
    if ltb cand_work work then false else if cand_work == work then str_lt tip' tip else true

ranks_asym : (v : ℕ) (t : Str) (w : ℕ) (u : Str) → ranks v t w u ≡ true → ranks w u v t ≡ false
unfolding ranks
ranks_asym v t w u h = ground (arith, str_lt_asym t u)

outranks-branches :
    (front : List Block) (a : Block) (old : List Block) (b : Block) (suffix : List Block) (fork : ℕ)
    → length front ≡ fork + 1
    → outranks (front ++ (a ∷ old)) (chain_work (front ++ (a ∷ old))) fork (b ∷ suffix)
      ≡ ranks
          (chain_work (front ++ (b ∷ suffix)))
          (hash_or_none (last_of (b ∷ suffix)))
          (chain_work (front ++ (a ∷ old)))
          (hash_or_none (last_of (a ∷ old)))
unfolding outranks ranks
outranks-branches front a old b suffix fork h =
    rw
      (
        take_all (fork + 1) front (a ∷ old) h,
        last_of-append front a old,
        chain_work-append front (b ∷ suffix),
      )
      refl

-- Where two chains part above their shared blocks, each with a block at least of its own, a branch
-- that outranks the other is not outranked by it: after a reorganisation, the discarded branch does
-- not win back.
pub outranks_asym :
    (front : List Block) (a : Block) (old : List Block) (b : Block) (suffix : List Block) (fork : ℕ)
    → length front ≡ fork + 1
    → outranks (front ++ (a ∷ old)) (chain_work (front ++ (a ∷ old))) fork (b ∷ suffix) ≡ true
    → outranks (front ++ (b ∷ suffix)) (chain_work (front ++ (b ∷ suffix))) fork (a ∷ old) ≡ false
outranks_asym front a old b suffix fork h better =
    outranks-branches front b suffix a old fork h
    ∙ ranks_asym (chain_work (front ++ (b ∷ suffix))) (hash_or_none (last_of (b ∷ suffix)))
        (chain_work (front ++ (a ∷ old))) (hash_or_none (last_of (a ∷ old)))
        (sym (outranks-branches front a old b suffix fork h) ∙ better)
