-- ===== src/Node/Orphan/Filed.antt =====
-- node/orphan.go: counts and bytes of the blocks that stand under their parents, and how each write
-- changes them.
use dnas.Base.{
  ℕ, ◌+◌, ◌-◌, if◌then◌else◌, true, false, is_empty, List, [], ◌∷◌, ◌++◌, ◌≡◌, refl, sym, arith,
  inl, inr, Bool-cases, ⊤, none, some, Option, subst,
}
use dnas.Base.Str.{Str, str_eq, str_eq→eq, str_eq_iff}
use dnas.Base.Map.{Map, lookup, put, delete, IsMap}
use dnas.Base.Map.Sum.{sum_by, sum_by-put, weight}
use dnas.Core.Block.{Block}
use dnas.Core.Env.{Env}
use dnas.Node.Orphan.{block_bytes, drop_block, holds, waiting, without}

-- How many of the blocks have this hash, and their bytes.
unfoldable pub times : Str → List Block → ℕ
times h [] = 0
times h (b ∷ blocks) = (if str_eq b.hash h then 1 else 0) + times h blocks

unfoldable pub bytes_at : Env → Str → List Block → ℕ
bytes_at env h [] = 0
bytes_at env h (b ∷ blocks) =
    (if str_eq b.hash h then block_bytes env b else 0) + bytes_at env h blocks

-- Every block names this parent.
abbrev pub IsUnder : Str → List Block → Type 0
IsUnder prev [] = ⊤
IsUnder prev (b ∷ blocks) = (str_eq b.prev_hash prev ≡ true) × IsUnder prev blocks

-- Every block stands under the parent that it names.
abbrev pub IsFiled : Map (List Block) → Type 0
IsFiled [] = ⊤
IsFiled ((prev, blocks) ∷ m) = IsUnder prev blocks × IsFiled m

holds-times : (h : Str) (blocks : List Block) → holds h blocks ≡ false → times h blocks ≡ 0
unfolding holds times
holds-times h [] out = refl
holds-times h (b ∷ blocks) out = ground (arith, holds-times h blocks)

times-without :
    (h k : Str) (blocks : List Block)
    → holds h blocks ≡ true
    → times k (without h blocks) + (if str_eq h k then 1 else 0) ≡ times k blocks
unfolding holds times without
times-without h k [] held = absurd cc
times-without h k (b ∷ blocks) held =
    ground
      (arith, times-without h k blocks, str_eq_iff b.hash h, str_eq_iff b.hash k, str_eq_iff h k)

bytes_at-without :
    (env : Env) (h k : Str) (blocks : List Block)
    → str_eq h k ≡ false
    → bytes_at env k (without h blocks) ≡ bytes_at env k blocks
unfolding bytes_at without
bytes_at-without env h k [] other = refl
bytes_at-without env h k (b ∷ blocks) other = ground (
  arith,
  bytes_at-without env h k blocks,
  str_eq_iff b.hash h,
  str_eq_iff b.hash k,
  str_eq_iff h k,
)

empty-times : (h : Str) (blocks : List Block) → is_empty blocks ≡ true → times h blocks ≡ 0
unfolding times
empty-times h [] e = refl
empty-times h (b ∷ blocks) e = absurd cc

empty-bytes_at :
    (env : Env) (h : Str) (blocks : List Block) → is_empty blocks ≡ true → bytes_at env h blocks ≡ 0
unfolding bytes_at
empty-bytes_at env h [] e = refl
empty-bytes_at env h (b ∷ blocks) e = absurd cc

-- No block of a hash, no bytes at it.
pub times-bytes_at :
    (env : Env) (h : Str) (blocks : List Block) → times h blocks ≡ 0 → bytes_at env h blocks ≡ 0
unfolding times bytes_at
times-bytes_at env h [] e = refl
times-bytes_at env h (b ∷ blocks) e = ground (arith, times-bytes_at env h blocks)

pub no_times-bytes_at :
    (env : Env) (h : Str) (m : Map (List Block))
    → sum_by (times h) m ≡ 0
    → sum_by (bytes_at env h) m ≡ 0
unfolding sum_by
no_times-bytes_at env h [] e = refl
no_times-bytes_at env h ((prev, blocks) ∷ m) e = omega (
  arith,
  times-bytes_at env h blocks (omega (arith, e)),
  no_times-bytes_at env h m (omega (arith, e)),
)

pub sum_by-drop_block :
    (h k : Str) (m : Map (List Block))
    → sum_by (times k) (drop_block h m) ≡ sum_by (times k) m - (if str_eq h k then 1 else 0)
unfolding sum_by drop_block
sum_by-drop_block h k [] = ground arith
sum_by-drop_block h k ((prev, blocks) ∷ m) = elim (Bool-cases (holds h blocks)) [
  | inl held ↦
      rw held (ground (arith, times-without h k blocks held, empty-times k (without h blocks)))
  | inr out ↦
      rw out (ground (arith, sum_by-drop_block h k m, holds-times h blocks out, str_eq_iff h k))
]

pub bytes-drop_block :
    (env : Env) (h k : Str) (m : Map (List Block))
    → str_eq h k ≡ false
    → sum_by (bytes_at env k) (drop_block h m) ≡ sum_by (bytes_at env k) m
unfolding sum_by drop_block
bytes-drop_block env h k [] other = refl
bytes-drop_block env h k ((prev, blocks) ∷ m) other = elim (Bool-cases (holds h blocks)) [
  | inl held ↦ rw held (
      ground
        (arith, bytes_at-without env h k blocks other, empty-bytes_at env k (without h blocks)))
  | inr out ↦ rw out (ground (arith, bytes-drop_block env h k m other))
]

drop_block-none :
    (h k : Str) (m : Map (List Block)) → lookup k m ≡ none → lookup k (drop_block h m) ≡ none
unfolding lookup drop_block
drop_block-none h k [] e = refl
drop_block-none h k ((prev, blocks) ∷ m) e = elim (Bool-cases (holds h blocks)) [
  | inl held ↦ rw held (ground (arith, e))
  | inr out ↦ rw out (ground (arith, e, drop_block-none h k m))
]

pub drop_block-IsMap : (h : Str) (m : Map (List Block)) → IsMap m → IsMap (drop_block h m)
unfolding drop_block
drop_block-IsMap h [] i = i
drop_block-IsMap h ((prev, blocks) ∷ m) i = elim (Bool-cases (holds h blocks)) [
  | inl held ↦ elim (Bool-cases (is_empty (without h blocks))) [
    | inl gone ↦ rw (held, gone) i.1
    | inr left ↦ rw (held, left) i
  ]
  | inr out ↦ rw out (drop_block-none h prev m i.0, drop_block-IsMap h m i.1)
]

without-IsUnder :
    (h prev : Str) (blocks : List Block) → IsUnder prev blocks → IsUnder prev (without h blocks)
unfolding without
without-IsUnder h prev [] u = u
without-IsUnder h prev (b ∷ blocks) u = elim (Bool-cases (str_eq b.hash h)) [
  | inl same ↦ rw same u.1
  | inr other ↦ rw other (u.0, without-IsUnder h prev blocks u.1)
]

pub drop_block-IsFiled : (h : Str) (m : Map (List Block)) → IsFiled m → IsFiled (drop_block h m)
unfolding drop_block
drop_block-IsFiled h [] f = f
drop_block-IsFiled h ((prev, blocks) ∷ m) f = elim (Bool-cases (holds h blocks)) [
  | inl held ↦ elim (Bool-cases (is_empty (without h blocks))) [
    | inl gone ↦ rw (held, gone) f.1
    | inr left ↦ rw (held, left) (without-IsUnder h prev blocks f.0, f.1)
  ]
  | inr out ↦ rw out (f.0, drop_block-IsFiled h m f.1)
]

pub put-IsFiled :
    (prev : Str) (blocks : List Block) (m : Map (List Block))
    → IsUnder prev blocks
    → IsFiled m
    → IsFiled (put prev blocks m)
unfolding put
put-IsFiled prev blocks [] u f = (u, tt)
put-IsFiled prev blocks ((k, old) ∷ m) u f = elim (Bool-cases (str_eq k prev)) [
  | inl same ↦ rw same (subst (λ x. IsUnder x blocks) (sym (str_eq→eq k prev same)) u, f.1)
  | inr other ↦ rw other (f.0, put-IsFiled prev blocks m u f.1)
]

pub delete-IsFiled : (k : Str) (m : Map (List Block)) → IsFiled m → IsFiled (delete k m)
unfolding delete
delete-IsFiled k [] f = f
delete-IsFiled k ((j, blocks) ∷ m) f = elim (Bool-cases (str_eq j k)) [
  | inl same ↦ rw same f.1
  | inr other ↦ rw other (f.0, delete-IsFiled k m f.1)
]

pub lookup-IsUnder : (k : Str) (m : Map (List Block)) → IsFiled m → IsUnder k (waiting (lookup k m))
unfolding lookup
lookup-IsUnder k [] f = tt
lookup-IsUnder k ((j, blocks) ∷ m) f = elim (Bool-cases (str_eq j k)) [
  | inl same ↦ rw (same, sym (str_eq→eq j k same)) f.0
  | inr other ↦ rw other (lookup-IsUnder k m f.1)
]

pub append-IsUnder :
    (prev : Str) (xs : List Block) (b : Block)
    → IsUnder prev xs
    → str_eq b.prev_hash prev ≡ true
    → IsUnder prev (xs ++ (b ∷ []))
append-IsUnder prev [] b u e = (e, tt)
append-IsUnder prev (x ∷ xs) b u e = (u.0, append-IsUnder prev xs b u.1 e)

pub times-append :
    (k : Str) (xs : List Block) (b : Block)
    → times k (xs ++ (b ∷ [])) ≡ times k xs + (if str_eq b.hash k then 1 else 0)
unfolding times
times-append k [] b = ground arith
times-append k (x ∷ xs) b = ground (arith, times-append k xs b)

pub bytes_at-append :
    (env : Env) (k : Str) (xs : List Block) (b : Block)
    → bytes_at env k (xs ++ (b ∷ []))
      ≡ bytes_at env k xs + (if str_eq b.hash k then block_bytes env b else 0)
unfolding bytes_at
bytes_at-append env k [] b = ground arith
bytes_at-append env k (x ∷ xs) b = ground (arith, bytes_at-append env k xs b)

pub weight-waiting :
    (f : List Block → ℕ) (o : Option (List Block)) → f [] ≡ 0 → weight f o ≡ f (waiting o)
weight-waiting f none e = sym e
weight-waiting f (some blocks) e = refl

-- A measure of the blocks grows by what the one more adds to its list.
pub sum_by-hold :
    (f : List Block → ℕ) (n : ℕ) (b : Block) (m : Map (List Block))
    → f [] ≡ 0
    → f (waiting (lookup b.prev_hash m) ++ (b ∷ [])) ≡ f (waiting (lookup b.prev_hash m)) + n
    → sum_by f (put b.prev_hash (waiting (lookup b.prev_hash m) ++ (b ∷ [])) m) ≡ sum_by f m + n
sum_by-hold f n b m empty more = omega (
  arith,
  sum_by-put f b.prev_hash (waiting (lookup b.prev_hash m) ++ (b ∷ [])) m,
  weight-waiting f (lookup b.prev_hash m) empty,
  more,
)
