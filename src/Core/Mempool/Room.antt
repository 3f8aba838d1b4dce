-- ===== src/Core/Mempool/Room.antt =====
-- core/mempool.go: the loop of `Add` that evicts: what it removes, and that it ends with room or with
-- a reason.
use dnas.Base.{
  ℕ, zero, suc, ◌+◌, ◌≤◌, ◌<◌, ltb, leb, ◌==◌, if◌then◌else◌, true, false, ◌&&◌, Option, none, some,
  is_some, length, ◌≡◌, refl, ◌∙◌, ap, arith, inl, inr, Bool-cases, Option-cases, subst,
}
use dnas.Base.Str.{Str, str_eq, str_eq_self}
use dnas.Base.Map.{lookup, lookup-delete, length-delete}
use dnas.Base.Map.Sum.{sum_by-delete}
use dnas.Base.Result.{Result, ok, err, fail_if-eq-ok}
use dnas.Core.Env.{Env}
use dnas.Core.Tx.{Transaction}
use dnas.Core.Tx.Codec.{size}
use dnas.Core.Mempool.{Mempool, delete_found, delete_locked}
use dnas.Core.Mempool.Books.{IsMempool, delete_locked-IsMempool}
use dnas.Core.Mempool.Index.{entry, entry-left}
use dnas.Core.Mempool.Package.{MempoolError, full_rate_too_low, full_own_queue, tx_at}
use dnas.Core.Mempool.Rates.{tx_rate}
use dnas.Core.Mempool.Top.{IsTop, eviction_candidate-IsTop}
use dnas.Core.Mempool.Rules.{Admission, over_budget}
use dnas.Core.Mempool.Admit.{after_victim, eviction_candidate, judge, evict_for, victim_for}

-- What the second pool holds, the first holds; the settings are the same.
pub record Shrinks (m m' : Mempool) : Type 0 where
  pub kept : (k : Str) (t : Transaction) → lookup k m'.txs ≡ some t → lookup k m.txs ≡ some t
  pub entries :
      (a : Str) (n : ℕ) (k : Str) → entry a n m'.by_sender ≡ some k → entry a n m.by_sender ≡ some k
  pub same_max : m'.max ≡ m.max
  pub same_max_bytes : m'.max_bytes ≡ m.max_bytes
  pub same_accounts : m'.accounts ≡ m.accounts
  pub same_height : m'.chain_height ≡ m.chain_height

pub Shrinks-refl : (m : Mempool) → Shrinks m m
Shrinks-refl m = record {
  kept = λ k t at. at;
  entries = λ a n k at. at;
  same_max = refl;
  same_max_bytes = refl;
  same_accounts = refl;
  same_height = refl;
}

pub Shrinks-trans : {l m n : Mempool} → Shrinks l m → Shrinks m n → Shrinks l n
Shrinks-trans s t = record {
  kept = λ k tx at. s.kept k tx (t.kept k tx at);
  entries = λ a n k at. s.entries a n k (t.entries a n k at);
  same_max = t.same_max ∙ s.same_max;
  same_max_bytes = t.same_max_bytes ∙ s.same_max_bytes;
  same_accounts = t.same_accounts ∙ s.same_accounts;
  same_height = t.same_height ∙ s.same_height;
}

-- What the first pool does not hold, the second does not.
pub Shrinks-fresh :
    {m m' : Mempool} (k : Str) → Shrinks m m' → lookup k m.txs ≡ none → lookup k m'.txs ≡ none
Shrinks-fresh {m} {m'} k s fresh = elim (Option-cases (lookup k m'.txs)) [
  | inl gone ↦ gone
  | inr (t, at) ↦ absurd (ground (arith, s.kept k t at, fresh))
]

pub Shrinks-free :
    {m m' : Mempool} (a : Str) (n : ℕ)
    → Shrinks m m'
    → entry a n m.by_sender ≡ none
    → entry a n m'.by_sender ≡ none
Shrinks-free {m} {m'} a n s free = elim (Option-cases (entry a n m'.by_sender)) [
  | inl gone ↦ gone
  | inr (k, at) ↦ absurd (ground (arith, s.entries a n k at, free))
]

module _ (env : Env) where
  delete_found-Shrinks :
      (h : Str) (o : Option Transaction) (m : Mempool)
      → lookup h m.txs ≡ o
      → IsMempool env m
      → Shrinks m (delete_found env h o m)
  delete_found-Shrinks h none m held i = Shrinks-refl m
  delete_found-Shrinks h (some tx) m held i = record {
    kept = λ k t at. ground (arith, lookup-delete h k m.txs i.index.txs_map);
    entries = λ a n k at. ground (arith, entry-left h tx m.txs m.by_sender i.index held a n);
    same_max = refl;
    same_max_bytes = refl;
    same_accounts = refl;
    same_height = refl;
  }

  pub delete_locked-Shrinks :
      (h : Str) (m : Mempool) → IsMempool env m → Shrinks m (delete_locked env h m)
  unfolding delete_locked
  delete_locked-Shrinks h m i = delete_found-Shrinks h (lookup h m.txs) m refl i

  pub delete_locked-length :
      (h : Str) (tx : Transaction) (m : Mempool)
      → lookup h m.txs ≡ some tx
      → length (delete_locked env h m).txs + 1 ≡ length m.txs
  unfolding delete_locked
  delete_locked-length h tx m held = rw held (length-delete h m.txs (ap is_some held))

  module _ (h : Str) (tx : Transaction) (m : Mempool) (i : IsMempool env m)
      (held : lookup h m.txs ≡ some tx) where
    pub delete_locked-gone : lookup h (delete_locked env h m).txs ≡ none
    unfolding delete_locked
    delete_locked-gone =
        rw held (ground (arith, lookup-delete h h m.txs i.index.txs_map, str_eq_self h))

    pub entry-delete_locked :
        (a : Str) (n : ℕ)
        → entry a n (delete_locked env h m).by_sender
          ≡ (if str_eq tx.from a && (tx.nonce == n) then none else entry a n m.by_sender)
    unfolding delete_locked
    entry-delete_locked a n = rw held (entry-left h tx m.txs m.by_sender i.index held a n)

    pub delete_locked-bytes : (delete_locked env h m).bytes + size env tx ≡ m.bytes
    unfolding delete_locked
    delete_locked-bytes =
        rw held (omega (arith, i.counted, rw held at (sum_by-delete (size env) h m.txs)))

within :
    (env : Env) (n : ℕ) (m : Mempool)
    → over_budget env n m ≡ false
    → (length m.txs < m.max) × (m.bytes + n ≤ m.max_bytes)
unfolding over_budget
within env n m fits = ground arith

-- What is known of a victim: the last entry of its sender, cheaper than the arriving transaction, and
-- not one that this transaction waits for.
pub record IsVictim (env : Env) (quotient : ℕ → ℕ → ℕ) (tx : Transaction) (m : Mempool) (v : Str)
    : Type 0 where
  pub top : IsTop m.by_sender v
  pub cheaper : tx_rate env quotient (tx_at v m) < tx_rate env quotient tx
  pub not_own : (str_eq (tx_at v m).from tx.from && ltb (tx_at v m).nonce tx.nonce) ≡ false

module _ (env : Env) (quotient : ℕ → ℕ → ℕ) (tx : Transaction) where
  judge-IsVictim :
      (o : Option (Str × ℕ)) (m : Mempool) {v : Str}
      → IsMempool env m
      → eviction_candidate env quotient m ≡ o
      → judge env quotient tx o m ≡ ok v
      → IsVictim env quotient tx m v
  judge-IsVictim none m i found chosen = absurd cc
  judge-IsVictim (some (h, rate)) m {v} i found chosen =
      let (dear, chosen') =
        fail_if-eq-ok (leb (tx_rate env quotient tx) rate) full_rate_too_low _ chosen in
      let (other, last) =
        fail_if-eq-ok (str_eq (tx_at h m).from tx.from && ltb (tx_at h m).nonce tx.nonce)
          full_own_queue (ok h) chosen' in
      let same : h ≡ v = cc in
      let (top, own_rate) =
        eviction_candidate-IsTop env quotient m i.index.queues i.index.senders_map found in
      subst (IsVictim env quotient tx m) same
        (record { top = top; cheaper = ground (arith, own_rate); not_own = other })

  pub victim_for-IsVictim :
      (m : Mempool) {v : Str}
      → IsMempool env m
      → victim_for env quotient tx m ≡ ok v
      → IsVictim env quotient tx m v
  unfolding victim_for
  victim_for-IsVictim m i chosen =
      judge-IsVictim (eviction_candidate env quotient m) m i refl chosen

  victim_found :
      (m : Mempool) {v : Str}
      → IsMempool env m
      → IsVictim env quotient tx m v
      → (t : Transaction) × (lookup v m.txs ≡ some t)
  victim_found m {v} i victim =
      let (a, n, at, max) = victim.top in let (t, held, _, _) = i.index.listed a n v at in (t, held)

  -- Room, or the reason why there is none; and what was kept on the way.
  abbrev pub IsRoom : (Mempool → Type 0) → Mempool → Admission × Mempool → Type 0
  IsRoom P m (ok _, m') =
      IsMempool env m'
      × Shrinks m m'
      × P m'
      × (length m'.txs < m'.max)
      × (m'.bytes + size env tx ≤ m'.max_bytes)
  IsRoom P m (err e, m') =
      IsMempool env m'
      × Shrinks m m'
      × P m'
      × (over_budget env (size env tx) m' ≡ true)
      × (victim_for env quotient tx m' ≡ err e)

  IsRoom-Shrinks :
      (P : Mempool → Type 0) (m n : Mempool) (r : Admission × Mempool)
      → Shrinks m n
      → IsRoom P n r
      → IsRoom P m r
  IsRoom-Shrinks P m n (ok _, m') s (i, s', p, few, light) = (i, Shrinks-trans s s', p, few, light)
  IsRoom-Shrinks P m n (err e, m') s (i, s', p, over, why) = (i, Shrinks-trans s s', p, over, why)

  module _ (P : Mempool → Type 0)
      (keep : (m : Mempool) (v : Str)
        → IsMempool env m
        → IsVictim env quotient tx m v
        → P m
        → P (delete_locked env v m)) where
    after_victim-IsRoom :
        (fuel : ℕ) (m : Mempool) (o : Result MempoolError Str)
        → ((n : Mempool)
            → IsMempool env n
            → P n
            → length n.txs < fuel
            → IsRoom P n (evict_for env quotient fuel tx n))
        → IsMempool env m
        → P m
        → length m.txs < suc fuel
        → over_budget env (size env tx) m ≡ true
        → victim_for env quotient tx m ≡ o
        → IsRoom P m (
            after_victim env quotient o
              (λ v. evict_for env quotient fuel tx (delete_locked env v m))
              m)
    after_victim-IsRoom fuel m (err e) ih i p enough over chosen =
        (i, Shrinks-refl m, p, over, chosen)
    after_victim-IsRoom fuel m (ok v) ih i p enough over chosen =
        let victim = victim_for-IsVictim m i chosen in
        let (t, held) = victim_found m i victim in
        IsRoom-Shrinks P m (delete_locked env v m)
          (evict_for env quotient fuel tx (delete_locked env v m)) (delete_locked-Shrinks env v m i)
          (ih (delete_locked env v m) (delete_locked-IsMempool env v m i) (keep m v i victim p)
            (omega (arith, delete_locked-length env v t m held, enough)))

    pub evict_for-IsRoom :
        (fuel : ℕ) (m : Mempool)
        → IsMempool env m
        → P m
        → length m.txs < fuel
        → IsRoom P m (evict_for env quotient fuel tx m)
    unfolding evict_for
    evict_for-IsRoom zero m i p enough = absurd (omega arith)
    evict_for-IsRoom (suc fuel) m i p enough = elim (Bool-cases (over_budget env (size env tx) m)) [
      | inl over ↦ rw over (
          after_victim-IsRoom fuel m (victim_for env quotient tx m) (evict_for-IsRoom fuel) i p
            enough over refl)
      | inr fits ↦
          let (few, light) = within env (size env tx) m fits in
          rw fits (i, Shrinks-refl m, p, few, light)
    ]
