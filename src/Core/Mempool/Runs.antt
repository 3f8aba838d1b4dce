-- ===== src/Core/Mempool/Runs.antt =====
-- core/mempool.go: the queue of each sender is a run of nonces without a gap, from the nonce that the
-- chain expects next, and `Add` keeps it so.
use dnas.Base.{
  ℕ, suc, ◌-◌, ◌^◌, ◌≤◌, ◌<◌, leb, ◌==◌, if◌then◌else◌, true, not, ◌&&◌, Option, none, some,
  is_some, length, ◌≡◌, refl, sym, ◌∙◌, arith, inl, inr, Bool-cases,
}
use dnas.Base.Str.{Str, str_eq, str_eq_iff}
use dnas.Base.Map.{Map, lookup}
use dnas.Base.Result.{ok, err}
use dnas.Core.Env.{Env}
use dnas.Core.Tx.{Transaction}
use dnas.Core.Tx.Codec.{tx_hash}
use dnas.Core.Mempool.{AccountSource, Mempool, Queue, delete_locked, insert_locked, queue}
use dnas.Core.Mempool.Books.{IsMempool}
use dnas.Core.Mempool.Index.{entry, entry-put}
use dnas.Core.Mempool.Package.{tx_at}
use dnas.Core.Mempool.Rules.{Admission, admissible_locked, unmineable}
use dnas.Core.Mempool.Admit.{add_locked, admitted, conflict, evict_for, place, placed}
use dnas.Core.Mempool.Room.{IsRoom, IsVictim, entry-delete_locked, evict_for-IsRoom}
use dnas.Core.Mempool.Added.{
  conflict-entry, tx_at-held, place-none, place-some, add_locked-unfolded,
}
use dnas.Core.Mempool.NextNonce.{next_nonce-filled, admissible-next}

-- Every queued nonce is one the chain expects, now or after those below it, which are queued too.
abbrev pub IsContiguous : (Str → ℕ) → Map Queue → Type 0
IsContiguous confirmed senders =
    (a : Str) (n : ℕ)
    → is_some (entry a n senders) ≡ true
    → (n < 2 ^ 64 - 1)
      × (confirmed a ≤ n)
      × ((k : ℕ) → confirmed a ≤ k → k ≤ n → is_some (entry a k senders) ≡ true)

entry-insert_locked :
    (env : Env) (h : Str) (tx : Transaction) (m : Mempool) (a : Str) (n : ℕ)
    → entry a n (insert_locked env h tx m).by_sender
      ≡ (if str_eq tx.from a && (tx.nonce == n) then some h else entry a n m.by_sender)
unfolding insert_locked queue
entry-insert_locked env h tx m a n = entry-put tx.from a tx.nonce n h m.by_sender

module _ (env : Env) (quotient : ℕ → ℕ → ℕ) (confirmed : Str → ℕ) (tx : Transaction) where
  -- A queue without a gap, that holds all nonces below that of the arriving transaction.
  abbrev Ready : Mempool → Type 0
  Ready m =
      IsContiguous confirmed m.by_sender
      × ((k : ℕ)
          → confirmed tx.from ≤ k
          → k < tx.nonce
          → is_some (entry tx.from k m.by_sender) ≡ true)

  delete_top-Ready :
      (m : Mempool) (v : Str)
      → IsMempool env m
      → IsVictim env quotient tx m v
      → Ready m
      → Ready (delete_locked env v m)
  delete_top-Ready m v i victim (runs, filled) =
      let (a, n, at, max) = victim.top in
      let (t, held, from, nonce) = i.index.listed a n v at in
      let at_v = tx_at-held v t m held in
      let left = entry-delete_locked env v t m i held in
      (
        λ b j there.
            let before : is_some (entry b j m.by_sender) ≡ true = ground (arith, left b j) in
            let (small, from_c, all) = runs b j before in
            (
              small,
              from_c,
              λ k low upto. ground (
                arith,
                left b k,
                left b j,
                all k low upto,
                max j,
                str_eq_iff t.from b,
                before,
                there,
                from,
                nonce,
              ),
            ),
        λ k low below. ground (
          arith,
          left tx.from k,
          filled k low below,
          rw at_v at victim.not_own,
          str_eq_iff t.from tx.from,
        ),
      )

  -- The transaction joins at the end of its queue.
  insert-IsContiguous :
      (h : Str) (m : Mempool)
      → tx.nonce < 2 ^ 64 - 1
      → confirmed tx.from ≤ tx.nonce
      → Ready m
      → IsContiguous confirmed (insert_locked env h tx m).by_sender
  insert-IsContiguous h m small from_c (runs, filled) a n there =
      let at = entry-insert_locked env h tx m a in
      elim (Bool-cases (str_eq tx.from a && (tx.nonce == n))) [
        | inl own ↦
            let same : tx.from ≡ a = ground (arith, str_eq_iff tx.from a) in
            (
              ground arith,
              ground (arith, same),
              λ k low upto. ground (arith, at k, same, filled k (ground (arith, same))),
            )
        | inr other ↦
            let (bound, low_n, all) = runs a n (ground (arith, at n)) in
            (bound, low_n, λ k low upto. ground (arith, at k, all k low upto))
      ]

  admitted-IsContiguous :
      (h : Str) (m : Mempool) (r : Admission × Mempool)
      → tx.nonce < 2 ^ 64 - 1
      → confirmed tx.from ≤ tx.nonce
      → IsRoom env quotient tx Ready m r
      → IsContiguous confirmed (admitted env quotient h tx r).1.by_sender
  admitted-IsContiguous h m (err e, m') small from_c (i', s, ready, over, why) = ready.0
  admitted-IsContiguous h m (ok _, m') small from_c (i', s, ready, few, light) =
      insert-IsContiguous h m' small from_c ready

  same_slots :
      (h old_hash : Str) (old : Transaction) (m : Mempool)
      → IsMempool env m
      → lookup old_hash m.txs ≡ some old
      → entry tx.from tx.nonce m.by_sender ≡ some old_hash
      → old.from ≡ tx.from
      → old.nonce ≡ tx.nonce
      → (a : Str) (n : ℕ)
      → is_some (entry a n (insert_locked env h tx (delete_locked env old_hash m)).by_sender)
        ≡ is_some (entry a n m.by_sender)
  same_slots h old_hash old m i held taken from nonce a n = ground (
    arith,
    entry-insert_locked env h tx (delete_locked env old_hash m) a n,
    entry-delete_locked env old_hash old m i held a n,
    str_eq_iff tx.from a,
    taken,
    from,
    nonce,
  )

  -- The transaction takes the place of one at the same nonce: the same nonces are queued.
  replace-IsContiguous :
      (h old_hash : Str) (old : Transaction) (m : Mempool)
      → IsMempool env m
      → lookup old_hash m.txs ≡ some old
      → entry tx.from tx.nonce m.by_sender ≡ some old_hash
      → old.from ≡ tx.from
      → old.nonce ≡ tx.nonce
      → IsContiguous confirmed m.by_sender
      → IsContiguous confirmed (insert_locked env h tx (delete_locked env old_hash m)).by_sender
  replace-IsContiguous h old_hash old m i held taken from nonce runs a n there =
      let same = λ (b : Str) (k : ℕ). same_slots h old_hash old m i held taken from nonce b k in
      let (bound, low_n, all) = runs a n (sym (same a n) ∙ there) in
      (bound, low_n, λ k low upto. same a k ∙ all k low upto)

module _ (env : Env) (quotient : ℕ → ℕ → ℕ) (tx : Transaction) (m : Mempool)
    (source : AccountSource) (i : IsMempool env m) (bound : m.accounts ≡ some source)
    (small : tx.nonce < 2 ^ 64 - 1)
    (runs : IsContiguous (λ a. (source.account a).nonce) m.by_sender) where
  abbrev account_nonce : Str → ℕ
  account_nonce a = (source.account a).nonce

  free-Ready :
      admissible_locked env tx none m ≡ ok tt
      → (account_nonce tx.from ≤ tx.nonce) × Ready env quotient account_nonce tx m
  unfolding queue
  free-Ready admissible =
      let (from_c, next) = admissible-next env source tx m bound admissible in
      (
        from_c,
        (
          runs,
          λ k low below.
              next_nonce-filled (length (queue tx.from m)) (queue tx.from m) (account_nonce tx.from)
                k (λ j at. (runs tx.from j at).0) low (rw next at below),
        ),
      )

  place-IsContiguous :
      (h : Str) (o : Option Str)
      → conflict tx m ≡ o
      → admissible_locked env tx o m ≡ ok tt
      → IsContiguous account_nonce (place env quotient h tx o m).1.by_sender
  place-IsContiguous h none free admissible =
      let (from_c, ready) = free-Ready admissible in
      rw (place-none env quotient h tx m) (
        admitted-IsContiguous env quotient account_nonce tx h m
          (evict_for env quotient (suc (length m.txs)) tx m) small from_c
          (evict_for-IsRoom env quotient tx (Ready env quotient account_nonce tx)
            (delete_top-Ready env quotient account_nonce tx) (suc (length m.txs)) m i ready
            (omega arith)))
  place-IsContiguous h (some old_hash) taken admissible =
      let at = sym (conflict-entry tx m) ∙ taken in
      let (old, held, from, nonce) = i.index.listed tx.from tx.nonce old_hash at in
      rw (place-some env quotient h tx m old_hash)
        (elim (Bool-cases (
          leb tx.fee (tx_at old_hash m).fee
          && not (unmineable env (tx_at old_hash m) m && not (unmineable env tx m)))) [
            | inl low ↦ rw low runs
            | inr allowed ↦ rw allowed (
                replace-IsContiguous env quotient account_nonce tx h old_hash old m i held at from
                  nonce runs)
          ])

  placed-IsContiguous :
      (a : Admission)
      → admissible_locked env tx (conflict tx m) m ≡ a
      → IsContiguous account_nonce
          (placed a (place env quotient (tx_hash env tx) tx (conflict tx m) m) m).1.by_sender
  placed-IsContiguous (err e) why = runs
  placed-IsContiguous (ok _) why = place-IsContiguous (tx_hash env tx) (conflict tx m) refl why

  -- On a pool whose books agree, bound to a chain, where each sender's queue is a run of nonces without
  -- a gap from the nonce that the chain expects next: the queues are so again after `add_locked`, of a
  -- transaction with any nonce below the last of 64 bits, whatever it answers and evicts.
  pub add_locked-IsContiguous :
      IsContiguous account_nonce (add_locked env quotient tx m).1.by_sender
  add_locked-IsContiguous =
      rw (add_locked-unfolded env quotient tx m)
        (elim (Bool-cases (is_some (lookup (tx_hash env tx) m.txs))) [
          | inl held ↦ rw held runs
          | inr fresh ↦
              rw fresh (placed-IsContiguous (admissible_locked env tx (conflict tx m) m) refl)
        ])
