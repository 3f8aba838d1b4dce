-- ===== src/Core/Mempool/NextNonce.antt =====
-- core/mempool.go: the nonce that the rules of admission ask for.
use dnas.Base.{
  ℕ, zero, suc, ◌+◌, ◌-◌, ◌^◌, ◌≤◌, ◌<◌, ltb, ◌==◌, true, Option, none, some, is_some, add64, [],
  ◌∷◌, length, ◌≡◌, refl, arith, inl, inr, Bool-cases, ⊤, subst,
}
use dnas.Base.Map.Nat.{
  lookup_nat, delete_nat, IsNatMap, length-delete_nat, lookup_nat-delete_nat, delete_nat-IsNatMap,
}
use dnas.Base.Result.{ok, >>=-eq-ok, fail_if-eq-ok}
use dnas.Core.Env.{Env}
use dnas.Core.Tx.{Transaction}
use dnas.Core.Mempool.{AccountSource, Mempool, Queue, queue}
use dnas.Core.Mempool.Package.{nonce_used}
use dnas.Core.Mempool.Rules.{admissible_by, admissible_locked, check_slot, next_nonce}

pub next_nonce-filled :
    (fuel : ℕ) (q : Queue) (n k : ℕ)
    → ((j : ℕ) → is_some (lookup_nat j q) ≡ true → j < 2 ^ 64 - 1)
    → n ≤ k
    → k < next_nonce fuel q n
    → is_some (lookup_nat k q) ≡ true
unfolding next_nonce
next_nonce-filled zero q n k small from upto = absurd (omega arith)
next_nonce-filled (suc fuel) q n k small from upto = elim (Bool-cases (is_some (lookup_nat n q))) [
  | inl there ↦ elim (Bool-cases (n == k)) [
    | inl same ↦ ground (arith, there)
    | inr other ↦
        let step : add64 n 1 ≡ n + 1 = omega (arith, small n there) in
        next_nonce-filled fuel q (add64 n 1) k small (ground (arith, step)) (rw there at upto)
  ]
  | inr free ↦ absurd (ground (arith, rw free at upto))
]

-- Nonces that the loop does not read do not change its result.
next_nonce-delete :
    (fuel : ℕ) (q : Queue) (n j : ℕ)
    → IsNatMap q
    → ((i : ℕ) → is_some (lookup_nat i q) ≡ true → i < 2 ^ 64 - 1)
    → j < n
    → (next_nonce fuel (delete_nat j q) n ≡ next_nonce fuel q n) × (j < next_nonce fuel q n)
unfolding next_nonce
next_nonce-delete zero q n j is_map small below = (refl, below)
next_nonce-delete (suc fuel) q n j is_map small below =
    elim (Bool-cases (is_some (lookup_nat n q))) [
      | inl there ↦
          let step : add64 n 1 ≡ n + 1 = omega (arith, small n there) in
          let (same, above) =
            next_nonce-delete fuel q (add64 n 1) j is_map small (ground (arith, step)) in
          (
            ground (arith, lookup_nat-delete_nat j n q is_map, there, same),
            ground (arith, there, above),
          )
      | inr free ↦ (ground (arith, lookup_nat-delete_nat j n q is_map, free), ground (arith, free))
    ]

-- As many steps as the queue has entries are enough to find a free nonce.
pub next_nonce-free :
    (fuel : ℕ) (q : Queue) (n : ℕ)
    → IsNatMap q
    → ((i : ℕ) → is_some (lookup_nat i q) ≡ true → i < 2 ^ 64 - 1)
    → length q ≤ fuel
    → lookup_nat (next_nonce fuel q n) q ≡ none
unfolding next_nonce lookup_nat
next_nonce-free zero [] n is_map small enough = refl
next_nonce-free zero (e ∷ q) n is_map small enough = absurd (omega arith)
next_nonce-free (suc fuel) q n is_map small enough = elim (Bool-cases (is_some (lookup_nat n q))) [
  | inl there ↦
      let step : add64 n 1 ≡ n + 1 = omega (arith, small n there) in
      let (same, above) =
        next_nonce-delete fuel q (add64 n 1) n is_map small (ground (arith, step)) in
      let ih =
        next_nonce-free fuel (delete_nat n q) (add64 n 1) (delete_nat-IsNatMap n q is_map)
          (λ i at. small i (ground (arith, lookup_nat-delete_nat n i q is_map)))
          (omega (arith, length-delete_nat n q there, enough)) in
      rw there (
        ground (
          arith,
          rw same at ih,
          lookup_nat-delete_nat n (next_nonce fuel q (add64 n 1)) q is_map,
          above,
        ))
  | inr free ↦ rw free (ground (arith, free))
]

check_slot-next :
    (confirmed : ℕ) (tx : Transaction) (q : Queue) {v : ⊤}
    → check_slot confirmed tx none q ≡ ok v
    → tx.nonce ≡ next_nonce (length q) q confirmed
unfolding check_slot
check_slot-next confirmed tx q free = ground arith

admissible_by-next :
    (env : Env) (source : AccountSource) (tx : Transaction) (m : Mempool)
    → admissible_by env (some source) tx none m ≡ ok tt
    → ((source.account tx.from).nonce ≤ tx.nonce)
      × (tx.nonce
          ≡ next_nonce (length (queue tx.from m)) (queue tx.from m) (source.account tx.from).nonce)
admissible_by-next env source tx m admissible =
    let confirmed = (source.account tx.from).nonce in
    let (used, rest) = fail_if-eq-ok (ltb tx.nonce confirmed) nonce_used _ admissible in
    let (_, _, slot) = >>=-eq-ok (check_slot confirmed tx none (queue tx.from m)) _ rest in
    (ground arith, check_slot-next confirmed tx (queue tx.from m) slot)

admissible_locked-by :
    (env : Env) (tx : Transaction) (m : Mempool)
    → admissible_locked env tx none m ≡ ok tt
    → (o : Option AccountSource) → m.accounts ≡ o
    → admissible_by env o tx none m ≡ ok tt
unfolding admissible_locked
admissible_locked-by env tx m admissible o bound =
    subst (λ x. admissible_by env x tx none m ≡ ok tt) bound admissible

-- What the rules of admission say of a nonce that takes no other's place.
pub admissible-next :
    (env : Env) (source : AccountSource) (tx : Transaction) (m : Mempool)
    → m.accounts ≡ some source
    → admissible_locked env tx none m ≡ ok tt
    → ((source.account tx.from).nonce ≤ tx.nonce)
      × (tx.nonce
          ≡ next_nonce (length (queue tx.from m)) (queue tx.from m) (source.account tx.from).nonce)
admissible-next env source tx m bound admissible =
    admissible_by-next env source tx m
      (admissible_locked-by env tx m admissible (some source) bound)
