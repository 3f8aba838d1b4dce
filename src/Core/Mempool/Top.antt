-- ===== src/Core/Mempool/Top.antt =====
-- core/mempool.go: a candidate for eviction is the last entry of some sender's queue.
use dnas.Base.{
  ℕ, ◌≤◌, ltb, true, Option, none, some, is_some, [], ◌∷◌, ◌≡◌, refl, ap, arith, inl, inr, ◌⊎◌,
  Bool-cases, ⊤, subst,
}
use dnas.Base.Str.{Str, str_eq_iff, str_eq_self}
use dnas.Base.Map.{Map, lookup, IsMap}
use dnas.Base.Map.Nat.{lookup_nat, IsNatMap}
use dnas.Core.Env.{Env}
use dnas.Core.Mempool.{Mempool, Queue}
use dnas.Core.Mempool.Index.{entry, queue_of}
use dnas.Core.Mempool.Package.{tx_at}
use dnas.Core.Mempool.Rates.{tx_rate}
use dnas.Core.Mempool.Admit.{
  cheaper_of, cheapest_top, eviction_candidate, later_of, top_entry, with_top,
}

abbrev AtOrBelow : Option (ℕ × Str) → ℕ → Type 0
AtOrBelow none n = ⊤
AtOrBelow (some (top, h)) n = top ≤ n

-- The entry that `top_entry` finds, and that no nonce of the queue is higher.
abbrev Highest : Queue → Option (ℕ × Str) → ℕ → Str → Type 0
Highest q top n h =
    ((top ≡ some (n, h)) ⊎ (lookup_nat n q ≡ some h))
    × ((k : ℕ) → is_some (lookup_nat k q) ≡ true → k ≤ n)
    × AtOrBelow top n

reached_self : (top : Option (ℕ × Str)) (n : ℕ) (h : Str) → top ≡ some (n, h) → AtOrBelow top n
reached_self none n h e = tt
reached_self (some (t, x)) n h e = ground arith

module _ (k0 : ℕ) (h0 : Str) (q : Queue) (fresh : lookup_nat k0 q ≡ none) where
  Highest-cons :
      (top : Option (ℕ × Str)) (n : ℕ) (h : Str)
      → Highest q (later_of k0 h0 top) n h
      → Highest ((k0, h0) ∷ q) top n h
  unfolding lookup_nat
  Highest-cons none n h (inl here, max, bound) =
      (inr (ground arith), λ k at. ground (arith, max k), tt)
  Highest-cons none n h (inr below, max, bound) =
      (inr (ground arith), λ k at. ground (arith, max k), tt)
  Highest-cons (some (t, x)) n h (found, max, bound) = elim (Bool-cases (ltb t k0)) [
    | inl later ↦ (
      elim found [ inl here ↦ inr (ground arith) | inr below ↦ inr (ground arith) ],
      λ k at. ground (arith, max k),
      ground arith,
    )
    | inr not_later ↦ (
      elim found [ inl here ↦ inl (ground arith) | inr below ↦ inr (ground arith) ],
      λ k at. ground (arith, max k),
      ground arith,
    )
  ]

top_entry-Highest :
    (q : Queue) (top : Option (ℕ × Str)) (n : ℕ) (h : Str)
    → IsNatMap q
    → top_entry q top ≡ some (n, h)
    → Highest q top n h
unfolding top_entry lookup_nat
top_entry-Highest [] top n h is_map found =
    (inl found, λ k at. absurd cc, reached_self top n h found)
top_entry-Highest ((k0, h0) ∷ q) top n h is_map found =
    Highest-cons k0 h0 q is_map.0 top n h
      (top_entry-Highest q (later_of k0 h0 top) n h is_map.1 found)

-- The last entry of some sender.
abbrev pub IsTop : Map Queue → Str → Type 0
IsTop senders h =
    (a : Str) × (n : ℕ) × (entry a n senders ≡ some h)
    × ((k : ℕ) → is_some (entry a k senders) ≡ true → k ≤ n)

-- Each sender of a part of the map has its queue in the whole.
abbrev Part : Map Queue → Map Queue → Type 0
Part [] whole = ⊤
Part ((a, q) ∷ part) whole = (queue_of a whole ≡ q) × Part part whole

-- A part of the rest is a part of a map with one more sender.
Part-cons :
    (a : Str) (q : Queue) (part rest : Map Queue)
    → lookup a rest ≡ none
    → ((b : Str) → is_some (lookup b part) ≡ true → is_some (lookup b rest) ≡ true)
    → Part part rest
    → Part part ((a, q) ∷ rest)
unfolding lookup
Part-cons a q [] rest fresh among p = tt
Part-cons a q ((b, r) ∷ part) rest fresh among p = (
  ground (arith, p.0, among b, fresh, str_eq_iff a b, str_eq_self b),
  Part-cons a q part rest fresh (λ c at. among c (ground arith)) p.1,
)

Part-self : (senders : Map Queue) → IsMap senders → Part senders senders
unfolding lookup
Part-self [] is_map = tt
Part-self ((a, q) ∷ rest) is_map = (
  ground (arith, str_eq_self a),
  Part-cons a q rest rest is_map.0 (λ b at. at) (Part-self rest is_map.1),
)

module _ (env : Env) (quotient : ℕ → ℕ → ℕ) (m : Mempool)
    (queues : (a : Str) → IsNatMap (queue_of a m.by_sender)) where
  abbrev BestIsTop : Option (Str × ℕ) → Type 0
  BestIsTop none = ⊤
  BestIsTop (some (h, rate)) = IsTop m.by_sender h × (rate ≡ tx_rate env quotient (tx_at h m))

  cheaper_of-IsTop :
      (h : Str) (best : Option (Str × ℕ))
      → IsTop m.by_sender h
      → BestIsTop best
      → BestIsTop (cheaper_of env quotient h (tx_rate env quotient (tx_at h m)) best)
  cheaper_of-IsTop h none top b = (top, refl)
  cheaper_of-IsTop h (some (x, best_rate)) top b =
      elim (Bool-cases (ltb (tx_rate env quotient (tx_at h m)) best_rate)) [
        | inl cheaper ↦ rw cheaper (top, refl)
        | inr dearer ↦ rw dearer b
      ]

  with_top-IsTop :
      (a : Str) (o : Option (ℕ × Str)) (best : Option (Str × ℕ))
      → top_entry (queue_of a m.by_sender) none ≡ o
      → BestIsTop best
      → BestIsTop (with_top env quotient m o best)
  with_top-IsTop a none best found b = b
  with_top-IsTop a (some (n, h)) best found b =
      let (at, max, _) = top_entry-Highest (queue_of a m.by_sender) none n h (queues a) found in
      let here : entry a n m.by_sender ≡ some h = elim at [
        | inl no_ ↦ absurd cc
        | inr yes_ ↦ yes_
      ] in
      cheaper_of-IsTop h best (a, n, here, max) b

  cheapest_top-IsTop :
      (part : Map Queue) (best : Option (Str × ℕ))
      → Part part m.by_sender
      → BestIsTop best
      → BestIsTop (cheapest_top env quotient m part best)
  unfolding cheapest_top
  cheapest_top-IsTop [] best p b = b
  cheapest_top-IsTop ((a, q) ∷ part) best p b =
      cheapest_top-IsTop part (with_top env quotient m (top_entry q none) best) p.1
        (with_top-IsTop a (top_entry q none) best (ap (λ r. top_entry r none) p.0) b)

  pub eviction_candidate-IsTop :
      IsMap m.by_sender
      → {h : Str} {rate : ℕ} → eviction_candidate env quotient m ≡ some (h, rate)
      → IsTop m.by_sender h × (rate ≡ tx_rate env quotient (tx_at h m))
  unfolding eviction_candidate
  eviction_candidate-IsTop is_map {h} {rate} found =
      subst BestIsTop found (cheapest_top-IsTop m.by_sender none (Part-self m.by_sender is_map) tt)
