-- ===== src/Node/Seen/Bound.antt =====
-- node/seen.go: the set never outgrows its bound, and its map and its queue hold the same hashes.
use dnas.Base.{
  ℕ, ◌-◌, ◌≤◌, ◌<◌, ◌≡◌, refl, sym, ◌∙◌, inl, inr, Bool-cases, leb, Bool, true, false, ◌||◌,
  is_some, List, [], ◌∷◌, ◌++◌, length, length-append, ⊤, arith,
}
use dnas.Base.Str.{Str, str_eq, str_eq_iff, str_eq_self}
use dnas.Base.Map.{
  length-put, length-delete, Map, lookup, put, IsMap, lookup-put, lookup-delete, put-IsMap,
  delete-IsMap,
}
use dnas.Node.Seen.{SeenSet, new_seen_set, evict, make_room, remember, seen, len, has}

unfoldable pub is_in : Str → List Str → Bool
is_in h [] = false
is_in h (x ∷ xs) = str_eq x h || is_in h xs

abbrev pub IsDistinct : List Str → Type 0
IsDistinct [] = ⊤
IsDistinct (x ∷ xs) = (is_in x xs ≡ false) × IsDistinct xs

pub is_in-append : (h : Str) (xs ys : List Str) → is_in h (xs ++ ys) ≡ (is_in h xs || is_in h ys)
unfolding is_in
is_in-append h [] ys = refl
is_in-append h (x ∷ xs) ys = ground (arith, is_in-append h xs ys)

append-IsDistinct :
    (xs : List Str) (h : Str) → IsDistinct xs → is_in h xs ≡ false → IsDistinct (xs ++ (h ∷ []))
unfolding is_in
append-IsDistinct [] h d fresh = (refl, tt)
append-IsDistinct (x ∷ xs) h d fresh = (
  ground (arith, is_in-append x xs (h ∷ []), str_eq_iff x h, str_eq_iff h x),
  append-IsDistinct xs h d.1 (ground arith),
)

-- The map holds the hashes of the queue, each once.
pub record Agree {V : Type 0} (order : List Str) (set : Map V) : Type 0 where
  pub distinct : IsDistinct order
  pub is_map : IsMap set
  pub as_many : length set ≡ length order
  pub same : (h : Str) → is_some (lookup h set) ≡ is_in h order

-- That, and no more of them than the bound.
pub record IsSeenSet (s : SeenSet) : Type 0 where
  pub room : 1 ≤ s.max
  pub bounded : length s.order ≤ s.max
  pub agree : Agree s.order s.set

pub evict-Agree :
    (order : List Str) (set : Map ⊤)
    → Agree order set
    → Agree (evict order set).0 (evict order set).1
unfolding evict is_in
evict-Agree [] set a = a
evict-Agree (oldest ∷ order) set a = record {
  distinct = a.distinct.1;
  is_map = delete-IsMap oldest set a.is_map;
  as_many = omega (
    arith,
    a.as_many,
    length-delete oldest set (ground (arith, a.same oldest, str_eq_self oldest)),
  );
  same = λ h.
      ground
        (arith, a.same h, lookup-delete oldest h set a.is_map, str_eq_iff oldest h, a.distinct.0);
}

pub insert-Agree :
    {V : Type 0} (h : Str) (v : V) (order : List Str) (set : Map V)
    → Agree order set
    → is_in h order ≡ false
    → Agree (order ++ (h ∷ [])) (put h v set)
unfolding is_in
insert-Agree h v order set a fresh = record {
  distinct = append-IsDistinct order h a.distinct fresh;
  is_map = put-IsMap h v set a.is_map;
  as_many =
      omega (arith, a.as_many, length-put h v set (a.same h ∙ fresh), length-append order (h ∷ []));
  same = λ k. ground (arith, a.same k, lookup-put h k v set, is_in-append k order (h ∷ []));
}

evict_fresh :
    (h : Str) (order : List Str) (set : Map ⊤)
    → is_in h order ≡ false
    → is_in h (evict order set).0 ≡ false
unfolding evict is_in
evict_fresh h [] set fresh = fresh
evict_fresh h (x ∷ order) set fresh = ground arith

length-evict : (order : List Str) (set : Map ⊤) → length (evict order set).0 ≡ length order - 1
unfolding evict
length-evict [] set = refl
length-evict (x ∷ order) set = omega arith

pub new_seen_set-IsSeenSet : (max : ℕ) → IsSeenSet (new_seen_set max)
unfolding new_seen_set lookup is_in
new_seen_set-IsSeenSet max = record {
  room = ground arith;
  bounded = omega arith;
  agree = record { distinct = tt; is_map = tt; as_many = refl; same = λ h. refl };
}

make_room-Agree :
    (h : Str) (s : SeenSet)
    → IsSeenSet s
    → is_in h s.order ≡ false
    → Agree (make_room s).0 (make_room s).1
      × (length (make_room s).0 < s.max)
      × (is_in h (make_room s).0 ≡ false)
unfolding make_room
make_room-Agree h s i fresh = elim (Bool-cases (leb s.max (length s.order))) [
  | inl full ↦ rw full (
    evict-Agree s.order s.set i.agree,
    omega (arith, length-evict s.order s.set, i.bounded, i.room),
    evict_fresh h s.order s.set fresh,
  )
  | inr spare ↦ rw spare (i.agree, ground arith, fresh)
]

remember-IsSeenSet :
    (h : Str) (s : SeenSet) → IsSeenSet s → is_in h s.order ≡ false → IsSeenSet (remember h s)
unfolding remember
remember-IsSeenSet h s i fresh =
    let (a, small, still) = make_room-Agree h s i fresh in
    record {
      room = i.room;
      bounded = omega (arith, small, length-append (make_room s).0 (h ∷ []));
      agree = insert-Agree h tt (make_room s).0 (make_room s).1 a still;
    }

has-remember : (h : Str) (s : SeenSet) → has h (remember h s) ≡ true
unfolding has remember
has-remember h s = ground (arith, lookup-put h h tt (make_room s).1, str_eq_self h)

-- A set that is within its bound, with its map and its queue in agreement, is so again after `seen`;
-- `seen` answers whether the hash was there, and the hash is there afterwards.
pub seen-IsSeenSet :
    (h : Str) (s : SeenSet)
    → IsSeenSet s
    → IsSeenSet (seen h s).1
      × (len (seen h s).1 ≤ s.max)
      × ((seen h s).0 ≡ has h s)
      × (has h (seen h s).1 ≡ true)
unfolding seen len
seen-IsSeenSet h s i = elim (Bool-cases (is_some (lookup h s.set))) [
  | inl held ↦
      rw held
        (i, omega (arith, i.agree.as_many, i.bounded), unfold has in sym held, unfold has in held)
  | inr fresh ↦
      let kept = remember-IsSeenSet h s i (sym (i.agree.same h) ∙ fresh) in
      rw fresh (
        kept,
        omega (arith, kept.agree.as_many, kept.bounded),
        unfold has in sym fresh,
        has-remember h s,
      )
]
