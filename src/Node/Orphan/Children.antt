-- ===== src/Node/Orphan/Children.antt =====
-- node/orphan.go: taking the blocks that wait for a parent keeps the pool within its bounds and gives
-- back what they took.
use dnas.Base.{
  ℕ, ◌&&◌, not, ◌+◌, ◌≤◌, if◌then◌else◌, true, false, is_some, List, [], ◌∷◌, length, ◌≡◌, refl,
  ◌∙◌, arith, inl, inr, Bool-cases, is_empty,
}
use dnas.Base.Str.{Str, str_eq, str_eq_iff}
use dnas.Base.Map.{
  length-delete, Map, lookup, delete, lookup-delete, lookup-delete_self, delete-IsMap,
}
use dnas.Core.Block.{Block}
use dnas.Node.Seen.Bound.{Agree, IsDistinct, is_in}
use dnas.Core.Env.{Env}
use dnas.Base.Map.Sum.{sum_by-delete}
use dnas.Node.Orphan.Filed.{IsUnder, lookup-IsUnder}
use dnas.Node.Orphan.Stored.{IsStored, forget-IsStored, delete-IsStored, leaving-size}
use dnas.Node.Orphan.{
  block_bytes, holds, OrphanPool, forget, forget_all, release, remove_first, take_children, waiting,
}
use dnas.Node.Orphan.Bound.{IsCounted, IsPool, release-total}

is_in-remove_first :
    (h k : Str) (order : List Str)
    → IsDistinct order
    → is_in k (remove_first h order) ≡ (if str_eq h k then false else is_in k order)
unfolding is_in remove_first
is_in-remove_first h k [] d = ground arith
is_in-remove_first h k (x ∷ order) d =
    ground
      (arith, str_eq_iff x h, str_eq_iff h k, str_eq_iff x k, d.0, is_in-remove_first h k order d.1)

remove_first-IsDistinct :
    (h : Str) (order : List Str) → IsDistinct order → IsDistinct (remove_first h order)
unfolding remove_first
remove_first-IsDistinct h [] d = tt
remove_first-IsDistinct h (x ∷ order) d = elim (Bool-cases (str_eq x h)) [
  | inl same ↦ rw same d.1
  | inr other ↦
      rw other
        (ground (arith, is_in-remove_first h x order d.1, d.0), remove_first-IsDistinct h order d.1)
]

length-remove_first :
    (h : Str) (order : List Str)
    → is_in h order ≡ true
    → length (remove_first h order) + 1 ≡ length order
unfolding is_in remove_first
length-remove_first h [] held = absurd cc
length-remove_first h (x ∷ order) held = ground (arith, length-remove_first h order)

remove_first_missing :
    (h : Str) (order : List Str) → is_in h order ≡ false → remove_first h order ≡ order
unfolding is_in remove_first
remove_first_missing h [] missing = refl
remove_first_missing h (x ∷ order) missing = ground (arith, remove_first_missing h order)

delete_missing : {V : Type 0} (h : Str) (m : Map V) → is_some (lookup h m) ≡ false → delete h m ≡ m
unfolding lookup delete
delete_missing h [] missing = refl
delete_missing h ((k, v) ∷ m) missing = ground (arith, delete_missing h m)

forget-length :
    {V : Type 0} (h : Str) (order : List Str) (set : Map V)
    → Agree order set
    → length (delete h set) ≡ length (remove_first h order)
forget-length h order set a = elim (Bool-cases (is_in h order)) [
  | inl held ↦
      omega
        (arith, a.as_many, length-delete h set (a.same h ∙ held), length-remove_first h order held)
  | inr missing ↦
      rw (remove_first_missing h order missing, delete_missing h set (a.same h ∙ missing)) a.as_many
]

pub remove_first-le : (h : Str) (order : List Str) → length (remove_first h order) ≤ length order
remove_first-le h order = elim (Bool-cases (is_in h order)) [
  | inl held ↦ omega (arith, length-remove_first h order held)
  | inr missing ↦ rw (remove_first_missing h order missing) (omega arith)
]

pub forget-Agree :
    {V : Type 0} (h : Str) (order : List Str) (set : Map V)
    → Agree order set
    → Agree (remove_first h order) (delete h set)
forget-Agree h order set a = record {
  distinct = remove_first-IsDistinct h order a.distinct;
  is_map = delete-IsMap h set a.is_map;
  as_many = forget-length h order set a;
  same = λ k.
      ground
        (arith, a.same k, lookup-delete h k set a.is_map, is_in-remove_first h k order a.distinct);
}

forget-IsCounted : (h : Str) (p : OrphanPool) → IsCounted p → IsCounted (forget h p)
unfolding forget release
forget-IsCounted h p c = record {
  agree = forget-Agree h p.order p.have c.agree;
  sizes_map = delete-IsMap h p.sizes c.sizes_map;
  sized = λ k. ground (
    arith,
    c.sized k,
    lookup-delete h k p.sizes c.sizes_map,
    is_in-remove_first h k p.order c.agree.distinct,
  );
  counted = release-total h p.sizes p.bytes c.counted;
}

-- The pool while these blocks are on their way out.
record IsLeaving (env : Env) (blocks : List Block) (p : OrphanPool) : Type 0 where
  pub some_room : 1 ≤ p.max
  pub few : length p.order ≤ p.max
  pub light : p.bytes ≤ p.max_bytes
  pub books : IsCounted p
  pub stored : IsStored env blocks p

forget-IsLeaving :
    (env : Env) (b : Block) (blocks : List Block) (p : OrphanPool)
    → IsLeaving env (b ∷ blocks) p
    → IsLeaving env blocks (forget b.hash p)
unfolding forget release
forget-IsLeaving env b blocks p pool = record {
  some_room = pool.some_room;
  few = omega (arith, pool.few, remove_first-le b.hash p.order);
  light = omega (arith, pool.light);
  books = forget-IsCounted b.hash p pool.books;
  stored =
      forget-IsStored env b blocks p pool.books.agree.distinct pool.books.sizes_map
        (λ k. is_in-remove_first b.hash k p.order pool.books.agree.distinct) pool.stored;
}

-- The bytes of some blocks.
unfoldable pub leaving_bytes : Env → List Block → ℕ
leaving_bytes env [] = 0
leaving_bytes env (b ∷ blocks) = block_bytes env b + leaving_bytes env blocks

-- What is left when these blocks are gone: their bytes are given back, their hashes are not held, and
-- nothing else changes.
pub record IsWithout (env : Env) (blocks : List Block) (p p' : OrphanPool) : Type 0 where
  pub bytes : p'.bytes + leaving_bytes env blocks ≡ p.bytes
  pub have :
      (h : Str) → is_some (lookup h p'.have) ≡ (is_some (lookup h p.have) && not (holds h blocks))
  pub by_prev : p'.by_prev ≡ p.by_prev

forget-bytes :
    (env : Env) (b : Block) (blocks : List Block) (p : OrphanPool)
    → IsLeaving env (b ∷ blocks) p
    → (forget b.hash p).bytes + block_bytes env b ≡ p.bytes
unfolding forget release
forget-bytes env b blocks p pool = ground (
  arith,
  pool.books.counted,
  sum_by-delete (λ n. n) b.hash p.sizes,
  (leaving-size env b blocks p pool.stored).1,
)

forget_all-IsWithout :
    (env : Env) (blocks : List Block) (p : OrphanPool)
    → IsLeaving env blocks p
    → IsLeaving env [] (forget_all blocks p) × IsWithout env blocks p (forget_all blocks p)
unfolding forget_all leaving_bytes holds
forget_all-IsWithout env [] p pool =
    (pool, record { bytes = omega arith; have = λ h. ground arith; by_prev = refl })
forget_all-IsWithout env (b ∷ blocks) p pool =
    let (after, w) =
      forget_all-IsWithout env blocks (forget b.hash p) (forget-IsLeaving env b blocks p pool) in
    (
      after,
      record {
        bytes = omega (arith, w.bytes, forget-bytes env b blocks p pool);
        have = λ h.
            unfold forget in
            unfold release in
            ground (arith, w.have h, lookup-delete b.hash h p.have pool.books.agree.is_map);
        by_prev = w.by_prev;
      },
    )

-- Taking the blocks that wait for a parent, from a pool within its bounds and with its books in order,
-- leaves such a pool. The blocks taken all name the parent, and none waits for it any more; their hashes
-- are no longer held, and every other one as before; and the byte count falls by their sizes.
pub take_children-IsPool :
    (env : Env) (parent : Str) (p : OrphanPool) (h : Str)
    → IsPool env p
    → IsPool env (take_children parent p).1
      × IsUnder parent (take_children parent p).0
      × (is_empty (waiting (lookup parent (take_children parent p).1.by_prev)) ≡ true)
      × (is_some (lookup h (take_children parent p).1.have)
          ≡ (is_some (lookup h p.have) && not (holds h (take_children parent p).0)))
      × ((take_children parent p).1.bytes + leaving_bytes env (take_children parent p).0 ≡ p.bytes)
unfolding take_children holds leaving_bytes
take_children-IsPool env parent p h pool =
    let children = waiting (lookup parent p.by_prev) in
    let q = record p { by_prev = delete parent p.by_prev } in
    let (after, w) = forget_all-IsWithout env children q (record {
      some_room = pool.some_room;
      few = pool.few;
      light = pool.light;
      books = record {
        agree = pool.books.agree;
        sizes_map = pool.books.sizes_map;
        sized = pool.books.sized;
        counted = pool.books.counted;
      };
      stored = delete-IsStored env parent p pool.stored;
    }) in
    elim (Bool-cases (is_empty children)) [
      | inl none_wait ↦ rw none_wait (pool, tt, none_wait, ground arith, omega arith)
      | inr some_wait ↦ rw some_wait (
        record {
          some_room = after.some_room;
          few = after.few;
          light = after.light;
          books = after.books;
          stored = after.stored;
        },
        lookup-IsUnder parent p.by_prev pool.stored.filed,
        rw (w.by_prev, lookup-delete_self parent p.by_prev pool.stored.parents) refl,
        w.have h,
        w.bytes,
      )
    ]
