-- ===== src/Node/Seen.antt =====
-- node/seen.go: `seenSet`, a bounded first-in-first-out set of hashes. A value of `struct{}` in the
-- map carries nothing, so the set is the map to the unit type.
pub mod Bound
use dnas.Base.{
  ℕ, ltb, leb, ◌==◌, if◌then◌else◌, Bool, true, false, Option, is_some, List, [], ◌∷◌, ◌++◌, length,
  ⊤, tail,
}
use dnas.Base.Str.{Str}
use dnas.Base.Map.{Map, lookup, put, delete}

pub record SeenSet : Type 0 where
  pub max : ℕ
  pub set : Map ⊤
  pub order : List Str

unfoldable pub new_seen_set : ℕ → SeenSet
new_seen_set max = record { max = if max == 0 then 1 else max; set = []; order = [] }

-- `s.order[0]` and `s.order[1:]`; on an empty order Go would panic.
unfoldable pub evict : List Str → Map ⊤ → List Str × Map ⊤
unfolding delete
evict [] set = ([], set)
evict (oldest ∷ order) set = (order, delete oldest set)

-- The branch that evicts when full.
unfoldable pub make_room : SeenSet → List Str × Map ⊤
unfolding evict
make_room s = if leb s.max (length s.order) then evict s.order s.set else (s.order, s.set)

unfoldable pub remember : Str → SeenSet → SeenSet
unfolding make_room put
remember h s =
    let (order, set) = make_room s in record s { set = put h tt set; order = order ++ (h ∷ []) }

unfoldable pub seen : Str → SeenSet → Bool × SeenSet
unfolding lookup remember
seen h s = if is_some (lookup h s.set) then (true, s) else (false, remember h s)

unfoldable pub len : SeenSet → ℕ
len s = length s.set

unfoldable pub has : Str → SeenSet → Bool
unfolding lookup
has h s = is_some (lookup h s.set)
