-- ===== src/Core/Mempool/Pass.antt =====
-- core/mempool.go: the loop of `Reconcile` over the nonces of one sender.
use dnas.Base.{
  ℕ, ◌+◌, ◌-◌, ◌^◌, ◌≤◌, ◌<◌, ltb, ◌==◌, if◌then◌else◌, true, false, ◌&&◌, Option, none, some,
  is_some, add64, List, [], ◌∷◌, ◌≡◌, refl, ◌∙◌, arith, inl, inr, Bool-cases,
}
use dnas.Base.Str.{Str, str_eq, str_eq_iff, str_eq_self}
use dnas.Core.Env.{Env}
use dnas.Core.Mempool.{Mempool}
use dnas.Core.Mempool.Books.{IsMempool, delete_locked-IsMempool}
use dnas.Core.Mempool.Index.{entry}
use dnas.Core.Mempool.Kept.{drop_entry-kept}
use dnas.Core.Mempool.Reconcile.{drop_entry, entry_cost, reconcile_nonces}
use dnas.Core.Mempool.Room.{entry-delete_locked}
use dnas.Core.Mempool.Nonces.{is_member, IsNodup, ==→eq}

module _ (env : Env) (sender : Str) (c : ℕ) where
  -- The state of the loop over one sender's nonces.
  pub record IsHalfway (ns : List ℕ) (want : ℕ) (m : Mempool) : Type 0 where
    pub books : IsMempool env m
    pub distinct : IsNodup ns
    pub small : (j : ℕ) → is_some (entry sender j m.by_sender) ≡ true → j < 2 ^ 64 - 1
    pub queued : (j : ℕ) → is_member j ns ≡ true → is_some (entry sender j m.by_sender) ≡ true
    pub known :
        (j : ℕ)
        → is_some (entry sender j m.by_sender) ≡ true
        → is_member j ns ≡ false
        → (c ≤ j) × (j < want)
    pub filled : (j : ℕ) → c ≤ j → j < want → is_some (entry sender j m.by_sender) ≡ true
    pub ahead : (j : ℕ) → is_member j ns ≡ true → c ≤ j → want ≤ j

  keep_step :
      (n : ℕ) (ns : List ℕ) (want : ℕ) (m : Mempool)
      → n ≡ want
      → c ≤ want
      → IsHalfway (n ∷ ns) want m
      → IsHalfway ns (add64 want 1) m
  keep_step n ns want m next from_c w =
      let there : is_some (entry sender n m.by_sender) ≡ true = w.queued n (ground arith) in
      let step : add64 want 1 ≡ want + 1 = omega (arith, w.small n there, next) in
      rw step (record {
        books = w.books;
        distinct = w.distinct.1;
        small = w.small;
        queued = λ j among. w.queued j (ground arith);
        known = λ j at out. ground (arith, w.known j at, out, next, from_c);
        filled = λ j low upto. ground (arith, w.filled j, there, next);
        ahead = λ j among low. ground (arith, w.ahead j, w.distinct.0, next);
      })

  -- Dropping the entry of a nonce empties this slot and no other.
  drop_entry-entry :
      (n : ℕ) (m : Mempool) (o : Option Str)
      → IsMempool env m
      → entry sender n m.by_sender ≡ o
      → (a : Str) (j : ℕ)
      → entry a j (drop_entry env o m).by_sender
        ≡ (if str_eq sender a && (n == j) then none else entry a j m.by_sender)
  drop_entry-entry n m none i at a j = ground (arith, at, str_eq_iff sender a)
  drop_entry-entry n m (some h) i at a j =
      let (t, held, from, nonce) = i.index.listed sender n h at in
      ground (arith, entry-delete_locked env h t m i held a j, from, nonce)

  drop_step :
      (n : ℕ) (ns : List ℕ) (want : ℕ) (m : Mempool)
      → IsHalfway (n ∷ ns) want m
      → IsHalfway ns want (drop_entry env (entry sender n m.by_sender) m)
  drop_step n ns want m w =
      let left = drop_entry-entry n m (entry sender n m.by_sender) w.books refl sender in
      let self = str_eq_self sender in
      record {
        books =
            drop_entry-kept env (IsMempool env) (delete_locked-IsMempool env)
              (entry sender n m.by_sender) m w.books;
        distinct = w.distinct.1;
        small = λ j at. w.small j (ground (arith, left j));
        queued = λ j among. ground (arith, left j, w.queued j, self, w.distinct.0);
        known = λ j at out. ground (arith, left j, w.known j, self, at, out);
        filled = λ j low upto. ground (arith, left j, w.filled j, w.ahead n, self);
        ahead = λ j among low. w.ahead j (ground arith) low;
      }

  pub reconcile_nonces-IsHalfway :
      (spendable : ℕ) (ns : List ℕ) (want total : ℕ) (m : Mempool)
      → c ≤ want
      → IsHalfway ns want m
      → (last : ℕ) × IsHalfway [] last (reconcile_nonces env sender spendable ns want total m).1
  unfolding reconcile_nonces
  reconcile_nonces-IsHalfway spendable [] want total m from_c w = (want, w)
  reconcile_nonces-IsHalfway spendable (n ∷ ns) want total m from_c w =
      let o = entry sender n m.by_sender in
      let with_it = add64 total (entry_cost o m) in
      let left = drop_entry env o m in
      elim (Bool-cases (n == want)) [
        | inl next ↦ rw next (elim (Bool-cases (ltb spendable with_it)) [
          | inl short ↦ rw short (
              reconcile_nonces-IsHalfway spendable ns want with_it left from_c
                (drop_step n ns want m w))
          | inr covered ↦
              let step : add64 want 1 ≡ want + 1 =
                omega (arith, w.small n (w.queued n (ground arith)), ==→eq n want next) in
              rw covered (
                reconcile_nonces-IsHalfway spendable ns (add64 want 1) with_it m
                  (omega (arith, step, from_c))
                  (keep_step n ns want m (==→eq n want next) from_c w))
        ])
        | inr gap ↦ rw gap (
            reconcile_nonces-IsHalfway spendable ns want total left from_c
              (drop_step n ns want m w))
      ]

  -- The other senders' queues stay as they are.
  pub reconcile_nonces-others :
      (spendable : ℕ) (ns : List ℕ) (want total : ℕ) (m : Mempool) (a : Str) (j : ℕ)
      → IsMempool env m
      → str_eq sender a ≡ false
      → entry a j (reconcile_nonces env sender spendable ns want total m).1.by_sender
        ≡ entry a j m.by_sender
  unfolding reconcile_nonces
  reconcile_nonces-others spendable [] want total m a j i other = refl
  reconcile_nonces-others spendable (n ∷ ns) want total m a j i other =
      let o = entry sender n m.by_sender in
      let with_it = add64 total (entry_cost o m) in
      let left = drop_entry env o m in
      let i' = drop_entry-kept env (IsMempool env) (delete_locked-IsMempool env) o m i in
      let same : entry a j left.by_sender ≡ entry a j m.by_sender =
        ground (arith, drop_entry-entry n m o i refl a j, other) in
      elim (Bool-cases (n == want)) [
        | inl next ↦ rw next (elim (Bool-cases (ltb spendable with_it)) [
          | inl short ↦
              rw short (reconcile_nonces-others spendable ns want with_it left a j i' other ∙ same)
          | inr covered ↦
              rw covered (reconcile_nonces-others spendable ns (add64 want 1) with_it m a j i other)
        ])
        | inr gap ↦
            rw gap (reconcile_nonces-others spendable ns want total left a j i' other ∙ same)
      ]
