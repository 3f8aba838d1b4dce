-- ===== src/Core/Chain/Prefix.antt =====
-- core/blockchain.go: `commonPrefix` is the length of the longest common prefix of hashes.
use dnas.Base.{
  ℕ, zero, suc, ◌≤◌, ◌≡◌, refl, Bool-cases, inl, inr, List, [], ◌∷◌, take, length, arith,
}
use dnas.Base.Str.{Str, str_eq, str_eq_iff}
use dnas.Core.Block.{Block}
use dnas.Core.Chain.{common_prefix}

abbrev pub hashes : List Block → List Str
hashes [] = []
hashes (b ∷ bs) = b.hash ∷ hashes bs

cons_injective : {x y : Str} {xs ys : List Str} → (x ∷ xs) ≡ (y ∷ ys) → (x ≡ y) × (xs ≡ ys)
cons_injective e = (cc, cc)

common_prefix-take :
    (chain other : List Block)
    → take (common_prefix chain other) (hashes chain)
      ≡ take (common_prefix chain other) (hashes other)
unfolding common_prefix
common_prefix-take [] other = refl
common_prefix-take (a ∷ chain) [] = refl
common_prefix-take (a ∷ chain) (b ∷ other) = elim (Bool-cases (str_eq a.hash b.hash)) [
  | inl same ↦ rw (same, (str_eq_iff a.hash b.hash).0 same, common_prefix-take chain other) refl
  | inr apart ↦ rw apart refl
]

common_prefix-bound :
    (chain other : List Block)
    → (common_prefix chain other ≤ length chain) × (common_prefix chain other ≤ length other)
unfolding common_prefix
common_prefix-bound [] other = ground arith
common_prefix-bound (a ∷ chain) [] = ground arith
common_prefix-bound (a ∷ chain) (b ∷ other) = ground (arith, common_prefix-bound chain other)

common_prefix-most :
    (chain other : List Block) (m : ℕ)
    → m ≤ length chain
    → m ≤ length other
    → take m (hashes chain) ≡ take m (hashes other)
    → m ≤ common_prefix chain other
unfolding common_prefix
common_prefix-most chain other zero low high e = omega arith
common_prefix-most [] other (suc m) low high e = low
common_prefix-most (a ∷ chain) [] (suc m) low high e = high
common_prefix-most (a ∷ chain) (b ∷ other) (suc m) low high e =
    let (here, rest) = cons_injective e in
    ground (
      arith,
      str_eq_iff a.hash b.hash,
      common_prefix-most chain other m (omega arith) (omega arith) rest,
    )

-- Two chains agree on the hashes of their first `commonPrefix` blocks, which both have, and on no
-- longer prefix that both have.
pub common_prefix_longest :
    (chain other : List Block) (m : ℕ)
    → m ≤ length chain
    → m ≤ length other
    → take m (hashes chain) ≡ take m (hashes other)
    → (take (common_prefix chain other) (hashes chain)
        ≡ take (common_prefix chain other) (hashes other))
      × (common_prefix chain other ≤ length chain)
      × (common_prefix chain other ≤ length other)
      × (m ≤ common_prefix chain other)
common_prefix_longest chain other m low high e =
    let (fits, fits_other) = common_prefix-bound chain other in
    (common_prefix-take chain other, fits, fits_other, common_prefix-most chain other m low high e)
