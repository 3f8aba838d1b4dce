-- ===== src/Node/Orphan.antt =====
-- node/orphan.go: `orphanPool`, the blocks that wait for their parent, bounded in number and in bytes.
-- The eviction loop runs on fuel, the number of blocks held.
pub mod Filed
pub mod Stored
pub mod Bound
pub mod Pool
pub mod Children
use dnas.Base.{
  ℕ, zero, suc, ◌+◌, ◌-◌, ◌*◌, ◌^◌, ltb, leb, ◌==◌, if◌then◌else◌, Bool, true, false, not, ◌&&◌,
  ◌||◌, Option, none, some, is_some, is_empty, List, [], ◌∷◌, ◌++◌, length, ⊤,
}
use dnas.Base.Str.{Str, str_eq}
use dnas.Base.Map.{Map, lookup, put, delete}
use dnas.Core.Block.{Block}
use dnas.Core.Env.{Env}
use dnas.Core.Tx.{Transaction}
use dnas.Core.Tx.Codec.{size}

abbrev pub orphan_pool_bytes : ℕ
orphan_pool_bytes = 64 * 2 ^ 20

pub record OrphanPool : Type 0 where
  pub by_prev : Map (List Block)
  pub have : Map ⊤
  pub sizes : Map ℕ
  pub order : List Str
  pub bytes : ℕ
  pub max : ℕ
  pub max_bytes : ℕ

unfoldable pub new_orphan_pool : ℕ → ℕ → OrphanPool
new_orphan_pool max max_bytes = record {
  by_prev = [];
  have = [];
  sizes = [];
  order = [];
  bytes = 0;
  max = if max == 0 then 1 else max;
  max_bytes = if max_bytes == 0 then orphan_pool_bytes else max_bytes;
}

unfoldable pub sizes_from : Env → List Transaction → ℕ
unfolding size
sizes_from env [] = 0
sizes_from env (tx ∷ txs) = size env tx + sizes_from env txs

unfoldable pub block_bytes : Env → Block → ℕ
unfolding sizes_from
block_bytes env b = sizes_from env b.transactions

-- What a missing key reads as.
abbrev pub size_or_zero : Option ℕ → ℕ
size_or_zero none = 0
size_or_zero (some n) = n

-- `releaseLocked`: the count stops at 0.
unfoldable pub release : Str → OrphanPool → OrphanPool
unfolding lookup delete
release h p = record p {
  bytes = p.bytes - size_or_zero (lookup h p.sizes);
  sizes = delete h p.sizes;
}

-- The first block of this hash, out of one list.
unfoldable pub without : Str → List Block → List Block
without h [] = []
without h (b ∷ blocks) = let rest = without h blocks in if str_eq b.hash h then blocks else b ∷ rest

unfoldable pub holds : Str → List Block → Bool
holds h [] = false
holds h (b ∷ blocks) = str_eq b.hash h || holds h blocks

-- And out of the map, whose empty lists go. A hash stands under one parent.
unfoldable pub drop_block : Str → Map (List Block) → Map (List Block)
unfolding without holds
drop_block h [] = []
drop_block h ((prev, blocks) ∷ m) =
    let rest = drop_block h m in
    let left = without h blocks in
    if holds h blocks
    then (if is_empty left then m else (prev, left) ∷ m)
    else (prev, blocks) ∷ rest

abbrev pub evict_from : List Str → OrphanPool → OrphanPool
evict_from [] p = p
evict_from (oldest ∷ order) p =
    let q = release oldest (record p { order = order; have = delete oldest p.have }) in
    record q { by_prev = drop_block oldest q.by_prev }

-- `evictOldestLocked`
unfoldable pub evict_oldest : OrphanPool → OrphanPool
unfolding release drop_block delete
evict_oldest p = evict_from p.order p

unfoldable pub too_full : ℕ → OrphanPool → Bool
too_full size p =
    not (is_empty p.order) && (leb p.max (length p.order) || ltb p.max_bytes (p.bytes + size))

-- The loop of `add`.
unfoldable pub make_space : ℕ → ℕ → OrphanPool → OrphanPool
unfolding too_full evict_oldest
make_space zero size p = p
make_space (suc fuel) size p =
    let evicted = make_space fuel size (evict_oldest p) in if too_full size p then evicted else p

abbrev pub waiting : Option (List Block) → List Block
waiting none = []
waiting (some blocks) = blocks

unfoldable pub hold : Block → ℕ → OrphanPool → OrphanPool
unfolding lookup put
hold b size p = record p {
  by_prev = put b.prev_hash (waiting (lookup b.prev_hash p.by_prev) ++ (b ∷ [])) p.by_prev;
  have = put b.hash tt p.have;
  sizes = put b.hash size p.sizes;
  bytes = p.bytes + size;
  order = p.order ++ (b.hash ∷ []);
}

unfoldable pub add_orphan : Env → Block → OrphanPool → Bool × OrphanPool
unfolding block_bytes make_space hold lookup
add_orphan env b p =
    let n = block_bytes env b in
    if is_some (lookup b.hash p.have)
    then (false, p)
    else if ltb p.max_bytes n
    then (false, p)
    else (true, hold b n (make_space (length p.order) n p))

unfoldable pub remove_first : Str → List Str → List Str
remove_first h [] = []
remove_first h (x ∷ order) =
    let rest = remove_first h order in if str_eq x h then order else x ∷ rest

-- A block that leaves with its parent.
unfoldable pub forget : Str → OrphanPool → OrphanPool
unfolding release remove_first delete
forget h p =
    let q = release h (record p { have = delete h p.have }) in
    record q { order = remove_first h q.order }

unfoldable pub forget_all : List Block → OrphanPool → OrphanPool
unfolding forget
forget_all [] p = p
forget_all (b ∷ blocks) p = forget_all blocks (forget b.hash p)

-- `takeChildren`
unfoldable pub take_children : Str → OrphanPool → List Block × OrphanPool
unfolding forget_all lookup delete
take_children parent p =
    let children = waiting (lookup parent p.by_prev) in
    if is_empty children
    then ([], p)
    else (children, forget_all children (record p { by_prev = delete parent p.by_prev }))
