-- ===== src/Base/Map/Sum.antt =====
-- Sums over the values of a map, and how each write changes them.
use Prim.Native.Nat.{ℕ, ◌+◌, ◌≤◌}
use mathlib.Core.Path.{◌≡◌}
use mathlib.Core.List.{[], ◌∷◌}
use mathlib.Core.Option.{Option, none, some}
use native.Mathlib.Omega.{arith}
use dnas.Base.Str.{Str}
use dnas.Base.Map.{Map, lookup, put, delete}

module _ {V : Type 0} where
  unfoldable pub sum_by : (V → ℕ) → Map V → ℕ
  sum_by f [] = 0
  sum_by f ((j, w) ∷ m) = f w + sum_by f m

  -- What a key contributes: nothing when it is missing.
  abbrev pub weight : (V → ℕ) → Option V → ℕ
  weight f none = 0
  weight f (some v) = f v

  pub sum_by-put :
      (f : V → ℕ) (k : Str) (v : V) (m : Map V)
      → sum_by f (put k v m) + weight f (lookup k m) ≡ sum_by f m + f v
  unfolding sum_by put lookup
  sum_by-put f k v [] = omega arith
  sum_by-put f k v ((i, w) ∷ m) = ground (arith, sum_by-put f k v m)

  pub sum_by-delete :
      (f : V → ℕ) (k : Str) (m : Map V) → sum_by f (delete k m) + weight f (lookup k m) ≡ sum_by f m
  unfolding sum_by delete lookup
  sum_by-delete f k [] = omega arith
  sum_by-delete f k ((i, w) ∷ m) = ground (arith, sum_by-delete f k m)

  pub weight-le-sum_by : (f : V → ℕ) (k : Str) (m : Map V) → weight f (lookup k m) ≤ sum_by f m
  unfolding sum_by lookup
  weight-le-sum_by f k [] = omega arith
  weight-le-sum_by f k ((i, w) ∷ m) = ground (arith, weight-le-sum_by f k m)
