-- ===== src/Core/Mmr/Forest.antt =====
-- core/mmr.go: the peaks are the roots of perfect trees over all the hashes that were appended.
use dnas.Base.{
  ℕ, ◌+◌, ◌≤◌, ◌==◌, List, [], ◌∷◌, ◌++◌, ◌≡◌, refl, sym, ap, subst, ◌∙◌, arith, inl, inr,
  Bool-cases, ⊤,
}
use mathlib.Core.List.{append_assoc, append-nil}
use dnas.Base.Str.{Str}
use dnas.Core.Env.{Env}
use dnas.Core.Mmr.{Mmr, Peak, append_hash, append_hashes, carry, empty_mmr, mmr_leaf, mmr_node}

pub data Tree : Type 0 where
  one : Str → Tree
  two : Tree → Tree → Tree

unfoldable pub tree_leaves : Tree → List Str
tree_leaves (one h) = h ∷ []
tree_leaves (two l r) = tree_leaves l ++ tree_leaves r

-- A tree of this height with all its leaves at the bottom.
pub data IsPerfect : ℕ → Tree → Type 0 where
  one_perfect : (h : Str) → IsPerfect 0 (one h)
  two_perfect : {n : ℕ} {l r : Tree} → IsPerfect n l → IsPerfect n r → IsPerfect (n + 1) (two l r)

-- Trees with their heights, the last one first.
abbrev pub Forest : Type 0
Forest = List (ℕ × Tree)

unfoldable pub forest_leaves : Forest → List Str
unfolding tree_leaves
forest_leaves [] = []
forest_leaves ((n, t) ∷ forest) = forest_leaves forest ++ tree_leaves t

-- Perfect trees, each higher than those after it, and none lower than the bound.
abbrev pub IsRange : ℕ → Forest → Type 0
IsRange least [] = ⊤
IsRange least ((n, t) ∷ forest) = (least ≤ n) × IsPerfect n t × IsRange (n + 1) forest

IsRange-le :
    (least less : ℕ) (forest : Forest) → less ≤ least → IsRange least forest → IsRange less forest
IsRange-le least less [] h range = tt
IsRange-le least less ((n, t) ∷ forest) h (bound, perfect, range) =
    (omega (arith, h, bound), perfect, range)

module _ (env : Env) where
  unfoldable pub tree_root : Tree → Str
  unfolding mmr_leaf mmr_node
  tree_root (one h) = mmr_leaf env h
  tree_root (two l r) = mmr_node env (tree_root l) (tree_root r)

  unfoldable pub peaks_of : Forest → List Peak
  unfolding tree_root
  peaks_of [] = []
  peaks_of ((n, t) ∷ forest) = (n, tree_root t) ∷ peaks_of forest

  -- One more perfect tree, not higher than the others.
  carry-IsRange :
      (n : ℕ) (t : Tree) (forest : Forest)
      → IsPerfect n t
      → IsRange n forest
      → (grown : Forest) × IsRange n grown
        × (carry env n (tree_root t) (peaks_of forest) ≡ peaks_of grown)
        × (forest_leaves grown ≡ forest_leaves forest ++ tree_leaves t)
  unfolding carry peaks_of forest_leaves tree_root
  carry-IsRange n t [] perfect range = ((n, t) ∷ [], (omega arith, perfect, tt), refl, refl)
  carry-IsRange n t ((k, u) ∷ forest) perfect (bound, other, range) = elim (Bool-cases (n == k)) [
    | inl same ↦
        let even : n ≡ k = ground arith in
        let (grown, grown_range, peaks, leaves) =
          carry-IsRange (n + 1) (two u t) forest
            (two_perfect (subst (λ x. IsPerfect x u) (sym even) other) perfect)
            (subst (λ x. IsRange (x + 1) forest) (sym even) range) in
        (
          grown,
          IsRange-le (n + 1) n grown (omega arith) grown_range,
          rw (carry, same) peaks,
          leaves ∙ sym (append_assoc (forest_leaves forest) (tree_leaves u) (tree_leaves t)),
        )
    | inr higher ↦ (
      (n, t) ∷ (k, u) ∷ forest,
      (omega arith, perfect, (ground arith, other, range)),
      rw (carry, higher) refl,
      refl,
    )
  ]

  append_hash-IsRange :
      (h : Str) (m : Mmr) (forest : Forest)
      → m.peaks ≡ peaks_of forest
      → IsRange 0 forest
      → (grown : Forest) × IsRange 0 grown
        × ((append_hash env h m).peaks ≡ peaks_of grown)
        × (forest_leaves grown ≡ forest_leaves forest ++ (h ∷ []))
  unfolding append_hash tree_root tree_leaves
  append_hash-IsRange h m forest same range =
      let (grown, grown_range, peaks, leaves) =
        carry-IsRange 0 (one h) forest (one_perfect h) range in
      (grown, grown_range, rw same peaks, leaves)

  append_hashes-IsRange :
      (hashes : List Str) (m : Mmr) (forest : Forest)
      → m.peaks ≡ peaks_of forest
      → IsRange 0 forest
      → (grown : Forest) × IsRange 0 grown
        × ((append_hashes env hashes m).peaks ≡ peaks_of grown)
        × (forest_leaves grown ≡ forest_leaves forest ++ hashes)
  unfolding append_hashes
  append_hashes-IsRange [] m forest same range =
      (forest, range, same, sym (append-nil (forest_leaves forest)))
  append_hashes-IsRange (h ∷ hashes) m forest same range =
      let (next, next_range, next_peaks, next_leaves) = append_hash-IsRange h m forest same range in
      let (grown, grown_range, peaks, leaves) =
        append_hashes-IsRange hashes (append_hash env h m) next next_peaks next_range in
      (
        grown,
        grown_range,
        peaks,
        leaves
            ∙ ap (λ front. front ++ hashes) next_leaves
            ∙ append_assoc (forest_leaves forest) (h ∷ []) hashes,
      )

  -- The peaks after appending any hashes to the empty range, one by one with merging, are the heights
  -- and the roots of a range of perfect trees: each is higher than those after it, and their leaves,
  -- from the first tree on, are the hashes in the order in which they were appended.
  pub append_hashes-peaks :
      (hashes : List Str)
      → (forest : Forest) × IsRange 0 forest
        × ((append_hashes env hashes empty_mmr).peaks ≡ peaks_of forest)
        × (forest_leaves forest ≡ hashes)
  unfolding peaks_of forest_leaves
  append_hashes-peaks hashes = append_hashes-IsRange hashes empty_mmr [] refl tt
