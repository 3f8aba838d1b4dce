-- ===== src/Node/Orphan/Stored.antt =====
-- node/orphan.go: the blocks that the pool stores under their parents, against its list of hashes.
use dnas.Base.{
  ℕ, ◌+◌, if◌then◌else◌, true, false, is_some, List, [], ◌∷◌, ◌++◌, ◌≡◌, refl, sym, arith, inl, inr,
  Bool-cases,
}
use dnas.Base.Str.{Str, str_eq, str_eq→eq, str_eq_iff, str_eq_self}
use dnas.Base.Map.{Map, lookup, delete, IsMap, lookup-delete, lookup-put, put-IsMap, delete-IsMap}
use dnas.Base.Map.Sum.{sum_by, sum_by-delete}
use dnas.Core.Block.{Block}
use dnas.Core.Env.{Env}
use dnas.Node.Seen.Bound.{IsDistinct, is_in, is_in-append}
use dnas.Node.Orphan.{
  OrphanPool, block_bytes, drop_block, evict_from, forget, release, remove_first, hold,
  size_or_zero, waiting,
}
use dnas.Node.Orphan.Filed.{
  times, bytes_at, IsFiled, times-bytes_at, no_times-bytes_at, sum_by-drop_block, bytes-drop_block,
  drop_block-IsMap, drop_block-IsFiled, put-IsFiled, delete-IsFiled, lookup-IsUnder, append-IsUnder,
  times-append, bytes_at-append, weight-waiting, sum_by-hold,
}

-- The blocks stored, and those that are on their way out, are one for each hash of the order, and a
-- recorded size is the size of the block.
pub record IsStored (env : Env) (leaving : List Block) (p : OrphanPool) : Type 0 where
  pub once :
      (h : Str) → sum_by (times h) p.by_prev + times h leaving ≡ (if is_in h p.order then 1 else 0)
  pub measured :
      (h : Str)
      → sum_by (bytes_at env h) p.by_prev + bytes_at env h leaving ≡ size_or_zero (lookup h p.sizes)
  pub filed : IsFiled p.by_prev
  pub parents : IsMap p.by_prev

module _ (env : Env) where
  pub hold-IsStored :
      (b : Block) (p : OrphanPool)
      → is_in b.hash p.order ≡ false
      → is_some (lookup b.hash p.sizes) ≡ false
      → IsStored env [] p
      → IsStored env [] (hold b (block_bytes env b) p)
  unfolding hold times bytes_at is_in
  hold-IsStored b p fresh unsized s =
      let xs = waiting (lookup b.prev_hash p.by_prev) in
      record {
        once = λ k. ground (
          arith,
          s.once k,
          sum_by-hold (times k) (if str_eq b.hash k then 1 else 0) b p.by_prev refl
              (times-append k xs b),
          is_in-append k p.order (b.hash ∷ []),
          str_eq_iff b.hash k,
          fresh,
        );
        measured = λ k. ground (
          arith,
          s.measured k,
          sum_by-hold (bytes_at env k) (if str_eq b.hash k then block_bytes env b else 0) b
              p.by_prev refl (bytes_at-append env k xs b),
          lookup-put b.hash k (block_bytes env b) p.sizes,
          str_eq_iff b.hash k,
          unsized,
        );
        filed =
            put-IsFiled b.prev_hash (xs ++ (b ∷ [])) p.by_prev
              (append-IsUnder b.prev_hash xs b (lookup-IsUnder b.prev_hash p.by_prev s.filed)
                (str_eq_self b.prev_hash))
              s.filed;
        parents = put-IsMap b.prev_hash (xs ++ (b ∷ [])) p.by_prev s.parents;
      }

  emptied :
      (h k : Str) (m : Map (List Block)) (sizes : Map ℕ)
      → IsMap sizes
      → str_eq h k ≡ true
      → sum_by (times k) m ≡ 0
      → sum_by (bytes_at env k) m ≡ size_or_zero (lookup k (delete h sizes))
  emptied h k m sizes is_map same none_left =
      ground (arith, no_times-bytes_at env k m none_left, lookup-delete h k sizes is_map)

  pub evict_from-IsStored :
      (order : List Str) (p : OrphanPool)
      → p.order ≡ order
      → IsDistinct order
      → IsMap p.sizes
      → IsStored env [] p
      → IsStored env [] (evict_from order p)
  unfolding release times bytes_at is_in
  evict_from-IsStored [] p same distinct is_map s = s
  evict_from-IsStored (oldest ∷ order) p same distinct is_map s =
      let left = drop_block oldest p.by_prev in
      let once : (k : Str) → sum_by (times k) left + 0 ≡ (if is_in k order then 1 else 0) = λ k.
        ground (
          arith,
          rw same at (s.once k),
          sum_by-drop_block oldest k p.by_prev,
          str_eq_iff oldest k,
          distinct.0,
        ) in
      record {
        once = once;
        measured = λ k. elim (Bool-cases (str_eq oldest k)) [
          | inl gone ↦
              let out : is_in k order ≡ false = rw (sym (str_eq→eq oldest k gone)) distinct.0 in
              omega (arith, emptied oldest k left p.sizes is_map gone (ground (arith, once k, out)))
          | inr other ↦ ground (
            arith,
            s.measured k,
            bytes-drop_block env oldest k p.by_prev other,
            lookup-delete oldest k p.sizes is_map,
          )
        ];
        filed = drop_block-IsFiled oldest p.by_prev s.filed;
        parents = drop_block-IsMap oldest p.by_prev s.parents;
      }

  -- A block that leaves with its parent.
  pub forget-IsStored :
      (b : Block) (blocks : List Block) (p : OrphanPool)
      → IsDistinct p.order
      → IsMap p.sizes
      → ((k : Str)
          → is_in k (remove_first b.hash p.order)
            ≡ (if str_eq b.hash k then false else is_in k p.order))
      → IsStored env (b ∷ blocks) p
      → IsStored env blocks (forget b.hash p)
  unfolding forget release times bytes_at
  forget-IsStored b blocks p distinct is_map removed s =
      let once : (k : Str)
          → sum_by (times k) p.by_prev + times k blocks
            ≡ (if is_in k (remove_first b.hash p.order) then 1 else 0) =
        λ k. ground (arith, s.once k, removed k, str_eq_iff b.hash k) in
      record {
        once = once;
        measured = λ k. elim (Bool-cases (str_eq b.hash k)) [
          | inl gone ↦
              let none_left : sum_by (times k) p.by_prev + times k blocks ≡ 0 =
                ground (arith, once k, removed k, gone) in
              omega (
                arith,
                emptied b.hash k p.by_prev p.sizes is_map gone (omega (arith, none_left)),
                times-bytes_at env k blocks (omega (arith, none_left)),
              )
          | inr other ↦ ground (arith, s.measured k, lookup-delete b.hash k p.sizes is_map, other)
        ];
        filed = s.filed;
        parents = s.parents;
      }

  -- The blocks of one parent, taken out of the map.
  pub delete-IsStored :
      (parent : Str) (p : OrphanPool)
      → IsStored env [] p
      → IsStored env
          (waiting (lookup parent p.by_prev))
          (record p { by_prev = delete parent p.by_prev })
  unfolding times bytes_at
  delete-IsStored parent p s =
      let o = lookup parent p.by_prev in
      record {
        once = λ k. omega (
          arith,
          s.once k,
          sum_by-delete (times k) parent p.by_prev,
          weight-waiting (times k) o refl,
        );
        measured = λ k. omega (
          arith,
          s.measured k,
          sum_by-delete (bytes_at env k) parent p.by_prev,
          weight-waiting (bytes_at env k) o refl,
        );
        filed = delete-IsFiled parent p.by_prev s.filed;
        parents = delete-IsMap parent p.by_prev s.parents;
      }

  -- The recorded size of a block that leaves is its size.
  pub leaving-size :
      (b : Block) (blocks : List Block) (p : OrphanPool)
      → IsStored env (b ∷ blocks) p
      → (is_in b.hash p.order ≡ true) × (size_or_zero (lookup b.hash p.sizes) ≡ block_bytes env b)
  unfolding times bytes_at
  leaving-size b blocks p s =
      let one : sum_by (times b.hash) p.by_prev + (1 + times b.hash blocks)
          ≡ (if is_in b.hash p.order then 1 else 0) =
        ground (arith, s.once b.hash, str_eq_self b.hash) in
      let others : sum_by (times b.hash) p.by_prev + times b.hash blocks ≡ 0 =
        ground (arith, one) in
      (
        ground (arith, one),
        ground (
          arith,
          s.measured b.hash,
          str_eq_self b.hash,
          no_times-bytes_at env b.hash p.by_prev (omega (arith, others)),
          times-bytes_at env b.hash blocks (omega (arith, others)),
        ),
      )
