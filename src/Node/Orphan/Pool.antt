-- ===== src/Node/Orphan/Pool.antt =====
-- node/orphan.go: adding a block keeps the pool within its bounds.
use dnas.Base.{
  ℕ, zero, suc, ◌≤◌, ltb, true, false, not, ◌&&◌, ◌||◌, is_some, List, [], ◌∷◌, length,
  length-append, ◌≡◌, refl, sym, ◌∙◌, arith, inl, inr, Bool, some, ◌++◌, ◌⊎◌, Bool-cases,
  ltb_false→le,
}
use dnas.Base.Str.{Str, str_eq_self}
use dnas.Base.Map.{lookup, lookup-put, lookup-put_self, put-IsMap}
use dnas.Base.Map.Sum.{sum_by, sum_by-put}
use dnas.Core.Block.{Block}
use dnas.Core.Env.{Env}
use dnas.Node.Seen.Bound.{insert-Agree, is_in, is_in-append}
use dnas.Node.Orphan.{
  OrphanPool, add_orphan, block_bytes, evict_from, evict_oldest, hold, make_space, new_orphan_pool,
  release, too_full, waiting,
}
use dnas.Node.Orphan.Filed.{bytes_at, times}
use dnas.Node.Orphan.Stored.{hold-IsStored}
use dnas.Node.Orphan.Bound.{IsPool, IsRoomy, make_space-IsRoomy}

hold-IsPool :
    (env : Env) (b : Block) (p q : OrphanPool)
    → 1 ≤ p.max
    → IsRoomy env (block_bytes env b) p q
    → is_in b.hash q.order ≡ false
    → IsPool env (hold b (block_bytes env b) q)
unfolding hold is_in
hold-IsPool env b p q some_max roomy fresh = record {
  some_room = omega (arith, some_max, roomy.same_max);
  few = omega (arith, roomy.below, length-append q.order (b.hash ∷ []));
  light = roomy.fits;
  books = record {
    agree = insert-Agree b.hash tt q.order q.have roomy.books.agree fresh;
    sizes_map = put-IsMap b.hash (block_bytes env b) q.sizes roomy.books.sizes_map;
    sized = λ k. ground (
      arith,
      roomy.books.sized k,
      lookup-put b.hash k (block_bytes env b) q.sizes,
      is_in-append k q.order (b.hash ∷ []),
    );
    counted = ground (
      arith,
      roomy.books.counted,
      sum_by-put (λ n. n) b.hash (block_bytes env b) q.sizes,
      roomy.books.sized b.hash ∙ fresh,
    );
  };
  stored = hold-IsStored env b q fresh (roomy.books.sized b.hash ∙ fresh) roomy.stored;
}

held_after :
    (b : Block) (size : ℕ) (q : OrphanPool) → is_some (lookup b.hash (hold b size q).have) ≡ true
unfolding hold
held_after b size q = ground (arith, lookup-put b.hash b.hash tt q.have, str_eq_self b.hash)

evict_from_fresh :
    (h : Str) (order : List Str) (p : OrphanPool)
    → p.order ≡ order
    → is_in h p.order ≡ false
    → is_in h (evict_from order p).order ≡ false
unfolding is_in release
evict_from_fresh h [] p same fresh = fresh
evict_from_fresh h (oldest ∷ order) p same fresh = ground (arith, rw same at fresh)

make_space_fresh :
    (h : Str) (fuel size : ℕ) (p : OrphanPool)
    → is_in h p.order ≡ false
    → is_in h (make_space fuel size p).order ≡ false
unfolding make_space evict_oldest
make_space_fresh h zero size p fresh = fresh
make_space_fresh h (suc fuel) size p fresh = elim (Bool-cases (too_full size p)) [
  | inl full ↦ rw full (
      make_space_fresh h fuel size (evict_from p.order p) (evict_from_fresh h p.order p refl fresh))
  | inr settled ↦ rw settled fresh
]

waiting_after :
    (b : Block) (size : ℕ) (q : OrphanPool)
    → lookup b.prev_hash (hold b size q).by_prev
      ≡ some (waiting (lookup b.prev_hash q.by_prev) ++ (b ∷ []))
unfolding hold
waiting_after b size q = lookup-put_self b.prev_hash _ q.by_prev

-- An answer of true: the block is the last of those that wait for its parent. An answer of false: the
-- pool is as it was.
abbrev pub IsAnswered : Block → OrphanPool → Bool × OrphanPool → Type 0
IsAnswered b p (stored, p') =
    (((stored ≡ true)
      × ((others : List Block) × (lookup b.prev_hash p'.by_prev ≡ some (others ++ (b ∷ []))))))
    ⊎ ((stored ≡ false) × (p' ≡ p))

-- Offering a block to a pool that is within its bounds, in number and in bytes, leaves such a pool: the
-- blocks that it stores are one for each hash that it lists, each under the parent that it names, and
-- the byte count is the sum of their sizes. The block is stored exactly if its hash is not held and it
-- fits the bytes by itself; then it is the last of those that wait for its parent, and its hash is held;
-- else the pool is as it was.
pub add_orphan-IsPool :
    (env : Env) (b : Block) (p : OrphanPool)
    → IsPool env p
    → IsPool env (add_orphan env b p).1
      × IsAnswered b p (add_orphan env b p)
      × ((add_orphan env b p).0
          ≡ (not (is_some (lookup b.hash p.have)) && not (ltb p.max_bytes (block_bytes env b))))
      × (is_some (lookup b.hash (add_orphan env b p).1.have)
          ≡ (is_some (lookup b.hash p.have) || (add_orphan env b p).0))
unfolding add_orphan
add_orphan-IsPool env b p pool = elim (Bool-cases (is_some (lookup b.hash p.have))) [
  | inl held ↦ rw held (pool, inr (refl, refl), refl, held)
  | inr fresh ↦ elim (Bool-cases (ltb p.max_bytes (block_bytes env b))) [
    | inl large ↦ rw (fresh, large) (pool, inr (refl, refl), refl, fresh)
    | inr small ↦
        let n = block_bytes env b in
        let roomy =
          make_space-IsRoomy env (length p.order) n p (omega arith) pool.books pool.stored
            pool.some_room (ltb_false→le _ _ small) in
        let absent =
          make_space_fresh b.hash (length p.order) n p
            (sym (pool.books.agree.same b.hash) ∙ fresh) in
        rw (fresh, small)
          (
            hold-IsPool env b p (make_space (length p.order) n p) pool.some_room roomy absent,
            inl (refl, (_, waiting_after b n (make_space (length p.order) n p))),
            refl,
            held_after b n (make_space (length p.order) n p),
          )
  ]
]

pub new_orphan_pool-IsPool :
    (env : Env) (max max_bytes : ℕ) → IsPool env (new_orphan_pool max max_bytes)
unfolding new_orphan_pool lookup is_in sum_by times bytes_at
new_orphan_pool-IsPool env max max_bytes = record {
  some_room = ground arith;
  few = omega arith;
  light = omega arith;
  books = record {
    agree = record { distinct = tt; is_map = tt; as_many = refl; same = λ h. refl };
    sizes_map = tt;
    sized = λ h. refl;
    counted = refl;
  };
  stored = record { once = λ h. refl; measured = λ h. refl; filed = tt; parents = tt };
}
