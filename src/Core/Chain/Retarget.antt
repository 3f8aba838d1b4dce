-- ===== src/Core/Chain/Retarget.antt =====
-- core/blockchain.go: the target that `expectedBits` demands can be met.
use dnas.Base.{ℕ, ◌<◌, ◌≤◌, leb, Option, none, some, List, ◌≡◌, sym, arith, inl, inr, Bool-cases}
use dnas.Core.Block.{Block}
use dnas.Core.Chain.Rules.{Lwma, Rules, expected_bits, lwma_window, next_target, retargeted}
use dnas.Core.Target.{
  big_to_compact, compact_to_big, genesis_bits, pow_limit, pow_limit_bits, byte_len, leading, pack,
}
use dnas.Core.Target.Bounds.{big_to_compact-le}

-- A target above 0 that is no easier than `PowLimit`: what `meetsTarget` asks before it looks at the
-- hash.
abbrev pub IsMeetable : ℕ → Type 0
IsMeetable bits = (0 < compact_to_big bits) × (compact_to_big bits ≤ pow_limit)

genesis_bits-IsMeetable : IsMeetable genesis_bits
unfolding genesis_bits pow_limit pow_limit_bits compact_to_big big_to_compact byte_len leading pack
genesis_bits-IsMeetable = (omega arith, omega arith)

pow_limit-some : 0 < pow_limit
unfolding pow_limit pow_limit_bits compact_to_big big_to_compact byte_len leading pack
pow_limit-some = omega arith

next_target-bounds : (sums : Lwma) → (0 < next_target sums) × (next_target sums ≤ pow_limit)
unfolding next_target
next_target-bounds sums = ground (arith, pow_limit-some)

some_bits : {a b : ℕ} → some a ≡ some b → a ≡ b
some_bits h = cc

retargeted-IsMeetable : (o : Option Lwma) (bits : ℕ) → retargeted o ≡ some bits → IsMeetable bits
unfolding retargeted
retargeted-IsMeetable none bits h = absurd cc
retargeted-IsMeetable (some sums) bits h =
    let (positive, limit) = next_target-bounds sums in
    let (some_target, rounded) = big_to_compact-le (next_target sums) positive in
    rw (sym (some_bits h)) (some_target, omega (arith, rounded, limit))

-- Whatever the blocks and their timestamps, the target that `expectedBits` demands of the next block is
-- above 0 and no easier than `PowLimit`: `meetsTarget` refuses no block for its demanded target alone.
pub expected_bits-IsMeetable :
    (rules : Rules) (blocks : List Block) (height bits : ℕ)
    → expected_bits rules blocks height ≡ some bits
    → (0 < compact_to_big bits) × (compact_to_big bits ≤ pow_limit)
unfolding expected_bits
expected_bits-IsMeetable rules blocks height bits h = elim (Bool-cases rules.no_retarget) [
  | inl fixed ↦ rw (sym (some_bits (rw fixed at h))) genesis_bits-IsMeetable
  | inr moving ↦ elim (Bool-cases (leb height lwma_window)) [
    | inl young ↦ rw (sym (some_bits (rw (moving, young) at h))) genesis_bits-IsMeetable
    | inr old ↦ retargeted-IsMeetable _ bits (rw (moving, old) at h)
  ]
]
