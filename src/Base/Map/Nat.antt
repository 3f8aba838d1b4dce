-- ===== src/Base/Map/Nat.antt =====
-- Go's `map[uint64]V`: an association list as in Base.Map.
use Prim.Native.Nat.{ℕ, ◌+◌}
use mathlib.Core.Path.{◌≡◌, refl}
use mathlib.Core.Bool.{true, false}
use mathlib.Core.List.{List, [], ◌∷◌}
use mathlib.Core.Option.{Option, none, some}
use native.Mathlib.Omega.{arith}
use dnas.Base.Tests.{⊤, ◌==◌, if◌then◌else◌, is_some}
use dnas.Base.Lists.{length}

abbrev pub NatMap : Type 0 → Type 0
NatMap V = List (ℕ × V)

module _ {V : Type 0} where
  unfoldable pub lookup_nat : ℕ → NatMap V → Option V
  lookup_nat k [] = none
  lookup_nat k ((j, v) ∷ m) = if j == k then some v else lookup_nat k m

  unfoldable pub put_nat : ℕ → V → NatMap V → NatMap V
  put_nat k v [] = (k, v) ∷ []
  put_nat k v ((j, w) ∷ m) = if j == k then (j, v) ∷ m else (j, w) ∷ put_nat k v m

  unfoldable pub delete_nat : ℕ → NatMap V → NatMap V
  delete_nat k [] = []
  delete_nat k ((j, w) ∷ m) = if j == k then m else (j, w) ∷ delete_nat k m

  -- No key stands twice.
  abbrev pub IsNatMap : NatMap V → Type 0
  IsNatMap [] = ⊤
  IsNatMap ((j, w) ∷ m) = (lookup_nat j m ≡ none) × IsNatMap m

  pub lookup_nat-put_nat :
      (k j : ℕ) (v : V) (m : NatMap V)
      → lookup_nat j (put_nat k v m) ≡ (if k == j then some v else lookup_nat j m)
  unfolding lookup_nat put_nat
  lookup_nat-put_nat k j v [] = refl
  lookup_nat-put_nat k j v ((i, w) ∷ m) = ground (arith, lookup_nat-put_nat k j v m)

  pub put_nat-IsNatMap : (k : ℕ) (v : V) (m : NatMap V) → IsNatMap m → IsNatMap (put_nat k v m)
  unfolding put_nat lookup_nat
  put_nat-IsNatMap k v [] h = (refl, tt)
  put_nat-IsNatMap k v ((i, w) ∷ m) h =
      ground (arith, put_nat-IsNatMap k v m h.1, lookup_nat-put_nat k i v m)

  lookup_nat-delete_nat_ne :
      (k j : ℕ) (m : NatMap V) → (k == j) ≡ false → lookup_nat j (delete_nat k m) ≡ lookup_nat j m
  unfolding lookup_nat delete_nat
  lookup_nat-delete_nat_ne k j [] h = refl
  lookup_nat-delete_nat_ne k j ((i, w) ∷ m) h = ground (arith, lookup_nat-delete_nat_ne k j m h)

  pub lookup_nat-delete_nat :
      (k j : ℕ) (m : NatMap V)
      → IsNatMap m
      → lookup_nat j (delete_nat k m) ≡ (if k == j then none else lookup_nat j m)
  unfolding lookup_nat delete_nat
  lookup_nat-delete_nat k j [] h = ground arith
  lookup_nat-delete_nat k j ((i, w) ∷ m) h = ground (arith, lookup_nat-delete_nat k j m h.1)

  pub delete_nat-IsNatMap : (k : ℕ) (m : NatMap V) → IsNatMap m → IsNatMap (delete_nat k m)
  unfolding delete_nat lookup_nat
  delete_nat-IsNatMap k [] h = tt
  delete_nat-IsNatMap k ((i, w) ∷ m) h =
      ground (arith, delete_nat-IsNatMap k m h.1, lookup_nat-delete_nat_ne k i m)

  pub length-delete_nat :
      (k : ℕ) (m : NatMap V)
      → is_some (lookup_nat k m) ≡ true
      → length (delete_nat k m) + 1 ≡ length m
  unfolding lookup_nat delete_nat
  length-delete_nat k [] held = absurd cc
  length-delete_nat k ((j, w) ∷ m) held = ground (arith, length-delete_nat k m)
