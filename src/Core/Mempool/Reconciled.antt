-- ===== src/Core/Mempool/Reconciled.antt =====
-- core/mempool.go: `Reconcile` leaves each sender a run of nonces that starts at the account's, whatever
-- the chain has become.
use dnas.Base.{
  ℕ, ◌-◌, ◌^◌, ◌≤◌, ◌<◌, true, false, none, some, is_some, [], ◌∷◌, map, ◌≡◌, refl, sym, ◌∙◌, ap,
  arith, inl, inr, ◌⊎◌, Bool-cases, Option-cases, subst,
}
use dnas.Base.Str.{Str, str_eq, str_eq→eq}
use dnas.Base.Map.{Map, lookup}
use dnas.Base.Map.Nat.{lookup_nat}
use dnas.Core.Env.{Env}
use dnas.Core.Chain.Rules.{sort_times}
use dnas.Core.Mempool.{AccountSource, Mempool, Queue, delete_locked, queue}
use dnas.Core.Mempool.Books.{IsMempool, delete_locked-IsMempool}
use dnas.Core.Mempool.Index.{entry, queue_of}
use dnas.Core.Mempool.Kept.{
  prune_expired-kept, reconcile_sponsors-kept, reconcile_nonces-kept, reconcile-kept,
}
use dnas.Core.Mempool.Reconcile.{
  prune_expired, reconcile, reconcile_sender, reconcile_senders, reconcile_sponsors, reconcile_with,
}
use dnas.Core.Mempool.Room.{Shrinks, Shrinks-refl, Shrinks-trans, delete_locked-Shrinks}
use dnas.Core.Mempool.Runs.{IsContiguous}
use dnas.Core.Mempool.Nonces.{
  is_member-sort_times, sort_times-IsNodup, nonces_of, is_member-nonces_of, nonces_of-IsNodup,
}
use dnas.Core.Mempool.Pass.{IsHalfway, reconcile_nonces-IsHalfway, reconcile_nonces-others}

-- The queue of one sender, as in `IsContiguous`.
abbrev IsRun : ℕ → Str → Map Queue → Type 0
IsRun c a senders =
    (n : ℕ)
    → is_some (entry a n senders) ≡ true
    → (n < 2 ^ 64 - 1) × (c ≤ n) × ((k : ℕ) → c ≤ k → k ≤ n → is_some (entry a k senders) ≡ true)

-- No queued nonce is the last of 64 bits.
abbrev pub IsSmall : Mempool → Type 0
IsSmall m = (a : Str) (n : ℕ) → is_some (entry a n m.by_sender) ≡ true → n < 2 ^ 64 - 1

IsHalfway-IsRun :
    (env : Env) (sender : Str) (c last : ℕ) (m : Mempool)
    → IsHalfway env sender c [] last m
    → IsRun c sender m.by_sender
IsHalfway-IsRun env sender c last m w n at =
    let (low, below) = w.known n at refl in
    (w.small n at, low, λ k from_c upto. w.filled k from_c (omega (arith, upto, below)))

-- The books agree, and nothing came.
abbrev IsBelow : Env → Mempool → Mempool → Type 0
IsBelow env m n = IsMempool env n × Shrinks m n

delete_locked-IsBelow :
    (env : Env) (m : Mempool) (h : Str) (n : Mempool)
    → IsBelow env m n
    → IsBelow env m (delete_locked env h n)
delete_locked-IsBelow env m h n (i, s) =
    (delete_locked-IsMempool env h n i, Shrinks-trans s (delete_locked-Shrinks env h n i))

Shrinks-IsSmall : {m n : Mempool} → Shrinks m n → IsSmall m → IsSmall n
Shrinks-IsSmall {m} {n} s small a j at = elim (Option-cases (entry a j n.by_sender)) [
  | inl gone ↦ absurd (ground (arith, gone, at))
  | inr (k, here) ↦ small a j (ap is_some (s.entries a j k here))
]

no_entry :
    (a : Str) (n : ℕ) (m : Mempool)
    → lookup a m.by_sender ≡ none
    → is_some (entry a n m.by_sender) ≡ true
    → ⊥
unfolding lookup_nat
no_entry a n m none_queued at = ground (arith, none_queued, at)

module _ (env : Env) (quotient : ℕ → ℕ → ℕ) (source : AccountSource) where
  reconcile_sender-IsRun :
      (sender : Str) (m : Mempool)
      → IsMempool env m
      → IsSmall m
      → IsRun
          (source.account sender).nonce
          sender
          (reconcile_sender env quotient source sender m).1.by_sender
  unfolding reconcile_sender queue
  reconcile_sender-IsRun sender m i small =
      let q = queue_of sender m.by_sender in
      let c = (source.account sender).nonce in
      let (last, w) =
        reconcile_nonces-IsHalfway env sender c (source.spendable_balance sender)
          (sort_times (nonces_of q)) c 0 m (omega arith)
          (record {
            books = i;
            distinct =
                sort_times-IsNodup (nonces_of q) (nonces_of-IsNodup q (i.index.queues sender));
            small = small sender;
            queued = λ j among.
                sym (is_member-nonces_of j q) ∙ sym (is_member-sort_times j (nonces_of q)) ∙ among;
            known = λ j at out. absurd (
                ground
                  (arith, is_member-nonces_of j q, is_member-sort_times j (nonces_of q), at, out));
            filled = λ j low upto. absurd (omega (arith, low, upto));
            ahead = λ j among low. low;
          }) in
      IsHalfway-IsRun env sender c last _ w

  reconcile_sender-IsBelow :
      (sender : Str) (m : Mempool)
      → IsMempool env m
      → IsBelow env m (reconcile_sender env quotient source sender m).1
  unfolding reconcile_sender
  reconcile_sender-IsBelow sender m i =
      reconcile_nonces-kept env (IsBelow env m) (delete_locked-IsBelow env m) sender
        (source.spendable_balance sender) (sort_times (map (λ e. e.0) (queue sender m)))
        (source.account sender).nonce 0 m (i, Shrinks-refl m)

  reconcile_sender-others :
      (sender : Str) (m : Mempool) (a : Str)
      → IsMempool env m
      → str_eq sender a ≡ false
      → (c : ℕ) → IsRun c a m.by_sender
      → IsRun c a (reconcile_sender env quotient source sender m).1.by_sender
  unfolding reconcile_sender
  reconcile_sender-others sender m a i other c run n at =
      let same = λ (j : ℕ).
        reconcile_nonces-others env sender (source.account sender).nonce
          (source.spendable_balance sender) (sort_times (map (λ e. e.0) (queue sender m)))
          (source.account sender).nonce 0 m a j i other in
      let (small, low, all) = run n (ap is_some (sym (same n)) ∙ at) in
      (small, low, λ k from_c upto. ap is_some (same k) ∙ all k from_c upto)

  reconcile_senders-IsRun :
      (senders : Map Queue) (m : Mempool) (a : Str)
      → IsMempool env m
      → IsSmall m
      → IsRun (source.account a).nonce a m.by_sender ⊎ (is_some (lookup a senders) ≡ true)
      → IsRun
          (source.account a).nonce
          a
          (reconcile_senders env quotient source senders m).1.by_sender
  unfolding reconcile_senders lookup
  reconcile_senders-IsRun [] m a i small (inl run) = run
  reconcile_senders-IsRun [] m a i small (inr among) = absurd cc
  reconcile_senders-IsRun ((sender, q) ∷ rest) m a i small due =
      let after = (reconcile_sender env quotient source sender m).1 in
      let (i', s) = reconcile_sender-IsBelow sender m i in
      reconcile_senders-IsRun rest after a i' (Shrinks-IsSmall s small)
        (elim (Bool-cases (str_eq sender a)) [
          | inl same ↦ inl (
              subst (λ x. IsRun (source.account x).nonce x after.by_sender)
                (str_eq→eq sender a same) (reconcile_sender-IsRun sender m i small))
          | inr other ↦ elim due [
            | inl run ↦
                inl (reconcile_sender-others sender m a i other (source.account a).nonce run)
            | inr among ↦ inr (rw other at among)
          ]
        ])

  reconcile_senders-IsContiguous :
      (m : Mempool)
      → IsMempool env m
      → IsSmall m
      → IsContiguous
          (λ a. (source.account a).nonce)
          (reconcile_senders env quotient source m.by_sender m).1.by_sender
  reconcile_senders-IsContiguous m i small a =
      reconcile_senders-IsRun m.by_sender m a i small (elim (Option-cases (lookup a m.by_sender)) [
        | inl none_queued ↦ inl (λ n at. absurd (no_entry a n m none_queued at))
        | inr (q, held) ↦ inr (ap is_some held)
      ])

module _ (env : Env) (quotient : ℕ → ℕ → ℕ) where
  reconcile_with-IsContiguous :
      (source : AccountSource) (m : Mempool)
      → IsMempool env m
      → IsSmall m
      → IsContiguous
          (λ a. (source.account a).nonce)
          (reconcile_with env quotient (some source) m).1.by_sender
  reconcile_with-IsContiguous source m i small =
      let after = (reconcile_sponsors env quotient source m).1 in
      let (i', s) : IsBelow env m after =
        reconcile_sponsors-kept env (IsBelow env m) (delete_locked-IsBelow env m) quotient source m
          (i, Shrinks-refl m) in
      reconcile_senders-IsContiguous env quotient source after i' (Shrinks-IsSmall s small)

  -- On a pool whose books agree, bound to a chain, with no queued nonce the last of 64 bits: after
  -- `Reconcile` the queue of every sender is a run of nonces without a gap that starts at the nonce of
  -- the sender's account, however the chain has changed under the pool; the books agree; and what the
  -- pool holds, it held before.
  pub reconcile-IsContiguous :
      (tip : ℕ) (m : Mempool) (source : AccountSource)
      → IsMempool env m
      → m.accounts ≡ some source
      → IsSmall m
      → IsContiguous (λ a. (source.account a).nonce) (reconcile env quotient tip m).1.by_sender
        × IsMempool env (reconcile env quotient tip m).1
        × Shrinks m (reconcile env quotient tip m).1
  unfolding reconcile
  reconcile-IsContiguous tip m source i bound small =
      let after = (prune_expired env tip m).1 in
      let (i', s) : IsBelow env m after =
        prune_expired-kept env (IsBelow env m) (delete_locked-IsBelow env m) tip m
          (i, Shrinks-refl m) in
      let (j, t) : IsBelow env m (reconcile env quotient tip m).1 =
        reconcile-kept env (IsBelow env m) (delete_locked-IsBelow env m) quotient tip m
          (i, Shrinks-refl m) in
      (
        rw (s.same_accounts ∙ bound)
            (reconcile_with-IsContiguous source after i' (Shrinks-IsSmall s small)),
        j,
        t,
      )
