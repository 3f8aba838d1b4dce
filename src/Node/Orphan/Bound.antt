-- ===== src/Node/Orphan/Bound.antt =====
-- node/orphan.go: the pool stays within its two bounds, and its byte count is that of what it holds.
use dnas.Base.{
  ℕ, zero, suc, ◌+◌, ◌-◌, ◌≤◌, ◌<◌, leb, true, false, is_some, List, [], ◌∷◌, length, ◌≡◌, refl, ap,
  ◌∙◌, arith, inl, inr, Bool-cases, is_empty,
}
use dnas.Base.Str.{Str, str_eq_iff, str_eq_self}
use dnas.Base.Map.{Map, lookup, delete, IsMap, lookup-delete, delete-IsMap}
use dnas.Base.Map.Sum.{sum_by, sum_by-delete}
use dnas.Node.Seen.{evict}
use dnas.Node.Seen.Bound.{Agree, evict-Agree, is_in}
use dnas.Core.Env.{Env}
use dnas.Node.Orphan.Stored.{IsStored, evict_from-IsStored}
use dnas.Node.Orphan.{
  OrphanPool, evict_from, evict_oldest, make_space, release, size_or_zero, too_full,
}

abbrev pub total : Map ℕ → ℕ
total sizes = sum_by (λ n. n) sizes

-- The books of the pool agree: the hashes held, those of the order and those with a size are the same,
-- and the bytes are the sum of the sizes.
pub record IsCounted (p : OrphanPool) : Type 0 where
  pub agree : Agree p.order p.have
  pub sizes_map : IsMap p.sizes
  pub sized : (h : Str) → is_some (lookup h p.sizes) ≡ is_in h p.order
  pub counted : p.bytes ≡ total p.sizes

-- That, and the bounds; and the blocks stored are one for each hash, each under the parent that it
-- names, and the sizes are theirs.
pub record IsPool (env : Env) (p : OrphanPool) : Type 0 where
  pub some_room : 1 ≤ p.max
  pub few : length p.order ≤ p.max
  pub light : p.bytes ≤ p.max_bytes
  pub books : IsCounted p
  pub stored : IsStored env [] p

pub release-total :
    (h : Str) (sizes : Map ℕ) (bytes : ℕ)
    → bytes ≡ total sizes
    → bytes - size_or_zero (lookup h sizes) ≡ total (delete h sizes)
release-total h sizes bytes e = ground (arith, sum_by-delete (λ n. n) h sizes)

evict_from-IsCounted :
    (order : List Str) (p : OrphanPool)
    → p.order ≡ order
    → IsCounted p
    → IsCounted (evict_from order p)
unfolding release evict is_in
evict_from-IsCounted [] p same c = c
evict_from-IsCounted (oldest ∷ order) p same c =
    let agree : Agree (oldest ∷ order) p.have = rw same at c.agree in
    record {
      agree = evict-Agree (oldest ∷ order) p.have agree;
      sizes_map = delete-IsMap oldest p.sizes c.sizes_map;
      sized = λ h. ground (
        arith,
        rw same at (c.sized h),
        lookup-delete oldest h p.sizes c.sizes_map,
        str_eq_iff oldest h,
        agree.distinct.0,
      );
      counted = release-total oldest p.sizes p.bytes c.counted;
    }

evict_from-length :
    (order : List Str) (p : OrphanPool)
    → p.order ≡ order
    → length (evict_from order p).order ≡ length p.order - 1
unfolding release
evict_from-length [] p same = rw same refl
evict_from-length (oldest ∷ order) p same = rw same (omega arith)

empty_total : (sizes : Map ℕ) → ((h : Str) → is_some (lookup h sizes) ≡ false) → total sizes ≡ 0
unfolding sum_by lookup
empty_total [] none_held = refl
empty_total ((k, n) ∷ sizes) none_held = absurd (ground (arith, none_held k, str_eq_self k))

no_length : {A : Type 0} (xs : List A) → length xs ≤ 0 → xs ≡ []
no_length [] h = refl
no_length (x ∷ xs) h = absurd (omega arith)

some_length : {A : Type 0} (xs : List A) → leb (length xs) 0 ≡ false → is_empty xs ≡ false
some_length [] h = ground arith
some_length (x ∷ xs) h = refl

no_order-bytes : (p : OrphanPool) → IsCounted p → length p.order ≤ 0 → p.bytes ≡ 0
unfolding is_in
no_order-bytes p c none_left =
    let gone : p.order ≡ [] = no_length p.order none_left in
    c.counted ∙ empty_total p.sizes (λ h. c.sized h ∙ ap (is_in h) gone)

-- Room for a block of this size.
pub record IsRoomy (env : Env) (size : ℕ) (p q : OrphanPool) : Type 0 where
  pub books : IsCounted q
  pub stored : IsStored env [] q
  pub below : length q.order < q.max
  pub fits : q.bytes + size ≤ q.max_bytes
  pub same_max : q.max ≡ p.max
  pub same_max_bytes : q.max_bytes ≡ p.max_bytes

settled :
    (env : Env) (size : ℕ) (p : OrphanPool)
    → IsCounted p
    → IsStored env [] p
    → 1 ≤ p.max
    → size ≤ p.max_bytes
    → too_full size p ≡ false
    → IsRoomy env size p p
unfolding too_full
settled env size p c s some_max small full = elim (Bool-cases (leb (length p.order) 0)) [
  | inl none_left ↦
      let zero_bytes = no_order-bytes p c (ground arith) in
      record {
        books = c;
        stored = s;
        below = ground arith;
        fits = omega (arith, zero_bytes, small);
        same_max = refl;
        same_max_bytes = refl;
      }
  | inr some_left ↦
      let filled : is_empty p.order ≡ false = some_length p.order some_left in
      record {
        books = c;
        stored = s;
        below = ground (arith, filled);
        fits = ground (arith, filled);
        same_max = refl;
        same_max_bytes = refl;
      }
]

evict_from-same :
    (order : List Str) (p : OrphanPool)
    → ((evict_from order p).max ≡ p.max) × ((evict_from order p).max_bytes ≡ p.max_bytes)
unfolding release
evict_from-same [] p = (refl, refl)
evict_from-same (oldest ∷ order) p = (refl, refl)

evicted :
    (env : Env) (size : ℕ) (p : OrphanPool) {q : OrphanPool}
    → IsRoomy env size (evict_oldest p) q
    → IsRoomy env size p q
unfolding evict_oldest
evicted env size p roomy =
    let (same_max, same_max_bytes) = evict_from-same p.order p in
    record {
      books = roomy.books;
      stored = roomy.stored;
      below = roomy.below;
      fits = roomy.fits;
      same_max = roomy.same_max ∙ same_max;
      same_max_bytes = roomy.same_max_bytes ∙ same_max_bytes;
    }

some_filled : {A : Type 0} (xs : List A) → is_empty xs ≡ false → 0 < length xs
some_filled [] h = ground arith
some_filled (x ∷ xs) h = omega arith

full_left : (size : ℕ) (p : OrphanPool) → too_full size p ≡ true → 0 < length p.order
unfolding too_full
full_left size p full = some_filled p.order (ground (arith, full))

-- The loop evicts until the block fits; the number of blocks held is fuel enough.
pub make_space-IsRoomy :
    (env : Env) (fuel size : ℕ) (p : OrphanPool)
    → length p.order ≤ fuel
    → IsCounted p
    → IsStored env [] p
    → 1 ≤ p.max
    → size ≤ p.max_bytes
    → IsRoomy env size p (make_space fuel size p)
unfolding make_space
make_space-IsRoomy env zero size p fuel c s some_max small =
    settled env size p c s some_max small (elim (Bool-cases (too_full size p)) [
      | inl full ↦ absurd (omega (arith, full_left size p full))
      | inr settled_already ↦ settled_already
    ])
make_space-IsRoomy env (suc fuel) size p enough c s some_max small =
    elim (Bool-cases (too_full size p)) [
      | inl full ↦
          let (same_max, same_max_bytes) = evict_from-same p.order p in
          rw full (
            evicted env size p (
              unfold evict_oldest in
              make_space-IsRoomy env fuel size (evict_from p.order p)
                (omega (arith, enough, evict_from-length p.order p refl))
                (evict_from-IsCounted p.order p refl c)
                (evict_from-IsStored env p.order p refl c.agree.distinct c.sizes_map s)
                (omega (arith, same_max, some_max)) (omega (arith, same_max_bytes, small))))
      | inr settled_already ↦
          rw settled_already (settled env size p c s some_max small settled_already)
    ]
