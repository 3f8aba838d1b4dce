-- ===== src/Base/Map.antt =====
-- Go's `map[string]V`: an association list in which a write replaces the entry in place.
pub mod Sum
pub mod Nat
use Prim.Native.Nat.{ℕ}
use mathlib.Core.Path.{◌≡◌, refl}
use mathlib.Core.Logic.{◌≢◌}
use mathlib.Core.Bool.{Bool, true, false}
use mathlib.Core.List.{List, [], ◌∷◌}
use mathlib.Core.Option.{Option, none, some}
use native.Mathlib.Omega.{arith}
use Prim.Native.Nat.{◌+◌}
use dnas.Base.Tests.{⊤, if◌then◌else◌, is_some}
use dnas.Base.Lists.{length}
use dnas.Base.Str.{Str, str_eq, str_eq_iff, str_eq_self}

abbrev pub Map : Type 0 → Type 0
Map V = List (Str × V)

module _ {V : Type 0} where
  -- `v, ok := m[k]`
  unfoldable pub lookup : Str → Map V → Option V
  lookup k [] = none
  lookup k ((j, v) ∷ m) = if str_eq j k then some v else lookup k m

  -- `m[k] = v`
  unfoldable pub put : Str → V → Map V → Map V
  put k v [] = (k, v) ∷ []
  put k v ((j, w) ∷ m) = if str_eq j k then (j, v) ∷ m else (j, w) ∷ put k v m

  -- `delete(m, k)`
  unfoldable pub delete : Str → Map V → Map V
  delete k [] = []
  delete k ((j, w) ∷ m) = if str_eq j k then m else (j, w) ∷ delete k m

  -- No key stands twice.
  abbrev pub IsMap : Map V → Type 0
  IsMap [] = ⊤
  IsMap ((j, w) ∷ m) = (lookup j m ≡ none) × IsMap m

  pub lookup-put_self : (k : Str) (v : V) (m : Map V) → lookup k (put k v m) ≡ some v
  unfolding lookup put
  lookup-put_self k v [] = ground (arith, str_eq_self k)
  lookup-put_self k v (e ∷ m) = ground (arith, str_eq_self k, lookup-put_self k v m)

  pub lookup-put :
      (k j : Str) (v : V) (m : Map V)
      → lookup j (put k v m) ≡ (if str_eq k j then some v else lookup j m)
  unfolding lookup put
  lookup-put k j v [] = refl
  lookup-put k j v ((i, w) ∷ m) =
      ground (arith, str_eq_iff k j, str_eq_iff i k, str_eq_iff i j, lookup-put k j v m)

  pub put-IsMap : (k : Str) (v : V) (m : Map V) → IsMap m → IsMap (put k v m)
  unfolding put lookup
  put-IsMap k v [] h = (refl, tt)
  put-IsMap k v ((i, w) ∷ m) h =
      ground (arith, str_eq_iff i k, str_eq_iff k i, put-IsMap k v m h.1, lookup-put k i v m)

  pub lookup-delete_ne :
      (k j : Str) (m : Map V) → str_eq k j ≡ false → lookup j (delete k m) ≡ lookup j m
  unfolding lookup delete
  lookup-delete_ne k j [] h = refl
  lookup-delete_ne k j ((i, w) ∷ m) h =
      ground (arith, str_eq_iff k j, str_eq_iff i k, str_eq_iff i j, lookup-delete_ne k j m h)

  pub lookup-delete_self : (k : Str) (m : Map V) → IsMap m → lookup k (delete k m) ≡ none
  unfolding lookup delete
  lookup-delete_self k [] h = refl
  lookup-delete_self k ((i, w) ∷ m) h = ground (arith, str_eq_iff i k, lookup-delete_self k m h.1)

  pub lookup-delete :
      (k j : Str) (m : Map V)
      → IsMap m
      → lookup j (delete k m) ≡ (if str_eq k j then none else lookup j m)
  lookup-delete k j m h =
      ground (arith, str_eq_iff k j, lookup-delete_ne k j m, lookup-delete_self k m h)

  pub delete-IsMap : (k : Str) (m : Map V) → IsMap m → IsMap (delete k m)
  unfolding delete lookup
  delete-IsMap k [] h = tt
  delete-IsMap k ((i, w) ∷ m) h =
      ground (arith, str_eq_iff i k, str_eq_iff k i, delete-IsMap k m h.1, lookup-delete_ne k i m)

  pub length-put :
      (k : Str) (v : V) (m : Map V)
      → is_some (lookup k m) ≡ false
      → length (put k v m) ≡ length m + 1
  unfolding lookup put
  length-put k v [] fresh = refl
  length-put k v ((j, w) ∷ m) fresh = ground (arith, length-put k v m)

  pub length-delete :
      (k : Str) (m : Map V) → is_some (lookup k m) ≡ true → length (delete k m) + 1 ≡ length m
  unfolding lookup delete
  length-delete k [] held = absurd cc
  length-delete k ((j, w) ∷ m) held = ground (arith, length-delete k m)
