-- ===== src/Core/Mempool/Books.antt =====
-- core/mempool.go: what the pool keeps beside the transactions (its index, its byte count, what the
-- sponsors promised) agrees with them after each write.
use dnas.Base.{
  ℕ, ◌+◌, ◌≤◌, ◌<◌, ◌^◌, if◌then◌else◌, Bool, true, false, ◌&&◌, Option, none, some, is_some,
  or_zero, IsU64, u64, add64, sub64, length, ◌≡◌, refl, ◌∙◌, ap, arith, inl, inr, Bool-cases,
}
use dnas.Base.Str.{Str, str_eq, str_eq_iff}
use dnas.Base.Map.{
  Map, lookup, put, delete, IsMap, lookup-put, lookup-delete, put-IsMap, delete-IsMap, length-put,
  length-delete,
}
use dnas.Base.Map.Sum.{sum_by, sum_by-put, sum_by-delete}
use dnas.Core.Env.{Env}
use dnas.Core.Tx.{Transaction, is_sponsored}
use dnas.Core.Tx.Codec.{size, tx_hash}
use dnas.Core.Mempool.{
  Mempool, add_sponsored, delete_found, delete_locked, insert_locked, queue, remove_sponsored,
}
use dnas.Core.Mempool.Index.{IsIndexed, entry, insert-IsIndexed, delete-IsIndexed}

-- What a sponsor promised for one transaction.
abbrev pub share : Str → Transaction → ℕ
share payer tx = if is_sponsored tx && str_eq tx.fee_payer payer then tx.fee else 0

-- The running totals of the sponsors are sums of fees, modulo 2 ^ 64.
pub record IsTotal (sponsored : Map ℕ) (txs : Map Transaction) : Type 0 where
  pub is_map : IsMap sponsored
  pub sums : (p : Str) → or_zero (lookup p sponsored) ≡ u64 (sum_by (share p) txs)

module _ (env : Env) where
  pub record IsMempool (m : Mempool) : Type 0 where
    pub index : IsIndexed m.txs m.by_sender
    pub stored :
        (h : Str) (tx : Transaction)
        → lookup h m.txs ≡ some tx
        → (tx_hash env tx ≡ h) × IsU64 tx.fee
    pub counted : m.bytes ≡ sum_by (size env) m.txs
    pub totals : IsTotal m.sponsored m.txs
    pub room : 1 ≤ m.max
    pub few : length m.txs ≤ m.max

add_sponsored-IsMap : (tx : Transaction) (s : Map ℕ) → IsMap s → IsMap (add_sponsored tx s)
unfolding add_sponsored
add_sponsored-IsMap tx s is_map = elim (Bool-cases (is_sponsored tx)) [
  | inl yes_ ↦
      rw yes_ (put-IsMap tx.fee_payer (add64 (or_zero (lookup tx.fee_payer s)) tx.fee) s is_map)
  | inr no_ ↦ rw no_ is_map
]

remove_sponsored-IsMap : (tx : Transaction) (s : Map ℕ) → IsMap s → IsMap (remove_sponsored tx s)
unfolding remove_sponsored
remove_sponsored-IsMap tx s is_map =
    let left = sub64 (or_zero (lookup tx.fee_payer s)) tx.fee in
    ground (arith, put-IsMap tx.fee_payer left s is_map, delete-IsMap tx.fee_payer s is_map)

lookup-add_sponsored :
    (p : Str) (tx : Transaction) (s : Map ℕ)
    → or_zero (lookup p (add_sponsored tx s)) ≡ (
        if is_sponsored tx && str_eq tx.fee_payer p
        then add64 (or_zero (lookup p s)) tx.fee
        else or_zero (lookup p s))
unfolding add_sponsored
lookup-add_sponsored p tx s = ground (
  arith,
  lookup-put tx.fee_payer p (add64 (or_zero (lookup tx.fee_payer s)) tx.fee) s,
  str_eq_iff tx.fee_payer p,
)

lookup-remove_sponsored :
    (p : Str) (tx : Transaction) (s : Map ℕ)
    → IsMap s
    → or_zero (lookup p (remove_sponsored tx s)) ≡ (
        if is_sponsored tx && str_eq tx.fee_payer p
        then sub64 (or_zero (lookup p s)) tx.fee
        else or_zero (lookup p s))
unfolding remove_sponsored
lookup-remove_sponsored p tx s is_map = ground (
  arith,
  lookup-put tx.fee_payer p (sub64 (or_zero (lookup tx.fee_payer s)) tx.fee) s,
  lookup-delete tx.fee_payer p s is_map,
  str_eq_iff tx.fee_payer p,
)

add64-share :
    (c : Bool) (old fee before after : ℕ)
    → old ≡ u64 before
    → after ≡ before + (if c then fee else 0)
    → (if c then add64 old fee else old) ≡ u64 after
add64-share true old fee before after e f = omega (arith, e, f)
add64-share false old fee before after e f = omega (arith, e, f)

sub64-share :
    (c : Bool) (old fee before after : ℕ)
    → fee < 2 ^ 64
    → old ≡ u64 before
    → after + (if c then fee else 0) ≡ before
    → (if c then sub64 old fee else old) ≡ u64 after
sub64-share true old fee before after small e f = omega (arith, e, f, small)
sub64-share false old fee before after small e f = omega (arith, e, f)

insert-IsTotal :
    (h : Str) (tx : Transaction) (s : Map ℕ) (txs : Map Transaction)
    → lookup h txs ≡ none
    → IsTotal s txs
    → IsTotal (add_sponsored tx s) (put h tx txs)
insert-IsTotal h tx s txs fresh t = record {
  is_map = add_sponsored-IsMap tx s t.is_map;
  sums = λ p.
      lookup-add_sponsored p tx s
      ∙ add64-share (is_sponsored tx && str_eq tx.fee_payer p) (or_zero (lookup p s)) tx.fee
          (sum_by (share p) txs) (sum_by (share p) (put h tx txs)) (t.sums p)
          (omega (arith, rw fresh at (sum_by-put (share p) h tx txs)));
}

delete-IsTotal :
    (h : Str) (tx : Transaction) (s : Map ℕ) (txs : Map Transaction)
    → lookup h txs ≡ some tx
    → IsU64 tx.fee
    → IsTotal s txs
    → IsTotal (remove_sponsored tx s) (delete h txs)
delete-IsTotal h tx s txs held small t = record {
  is_map = remove_sponsored-IsMap tx s t.is_map;
  sums = λ p.
      lookup-remove_sponsored p tx s t.is_map
      ∙ sub64-share (is_sponsored tx && str_eq tx.fee_payer p) (or_zero (lookup p s)) tx.fee
          (sum_by (share p) txs) (sum_by (share p) (delete h txs)) small (t.sums p)
          (rw held at (sum_by-delete (share p) h txs));
}

module _ (env : Env) where
  pub insert_locked-IsMempool :
      (h : Str) (tx : Transaction) (m : Mempool)
      → IsMempool env m
      → lookup h m.txs ≡ none
      → entry tx.from tx.nonce m.by_sender ≡ none
      → tx_hash env tx ≡ h
      → IsU64 tx.fee
      → length m.txs < m.max
      → IsMempool env (insert_locked env h tx m)
  unfolding insert_locked queue
  insert_locked-IsMempool h tx m i fresh free key small spare = record {
    index = insert-IsIndexed h tx m.txs m.by_sender i.index fresh free;
    stored = λ k t held. ground (arith, lookup-put h k tx m.txs, i.stored k t, str_eq_iff h k);
    counted = omega (arith, i.counted, rw fresh at (sum_by-put (size env) h tx m.txs));
    totals = insert-IsTotal h tx m.sponsored m.txs fresh i.totals;
    room = i.room;
    few = omega (arith, spare, length-put h tx m.txs (ap is_some fresh));
  }

  delete_found-IsMempool :
      (h : Str) (o : Option Transaction) (m : Mempool)
      → lookup h m.txs ≡ o
      → IsMempool env m
      → IsMempool env (delete_found env h o m)
  delete_found-IsMempool h none m held i = i
  delete_found-IsMempool h (some tx) m held i = record {
    index = delete-IsIndexed h tx m.txs m.by_sender i.index held;
    stored = λ k t at. ground (arith, lookup-delete h k m.txs i.index.txs_map, i.stored k t);
    counted = omega (arith, i.counted, rw held at (sum_by-delete (size env) h m.txs));
    totals = delete-IsTotal h tx m.sponsored m.txs held (i.stored h tx held).1 i.totals;
    room = i.room;
    few = omega (arith, i.few, length-delete h m.txs (ap is_some held));
  }

  pub delete_locked-IsMempool :
      (h : Str) (m : Mempool) → IsMempool env m → IsMempool env (delete_locked env h m)
  unfolding delete_locked
  delete_locked-IsMempool h m i = delete_found-IsMempool h (lookup h m.txs) m refl i
