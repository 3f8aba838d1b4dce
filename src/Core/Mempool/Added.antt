-- ===== src/Core/Mempool/Added.antt =====
-- core/mempool.go: what `Add` does on each of its branches.
use dnas.Base.{
  ℕ, suc, ◌+◌, ◌≤◌, ◌<◌, leb, if◌then◌else◌, true, false, not, ◌&&◌, Option, none, some, is_some,
  IsU64, length, ◌≡◌, refl, sym, ◌∙◌, ap, arith, inl, inr, ◌⊎◌, Bool-cases, Option-cases, ⊤,
}
use dnas.Base.Str.{Str, str_eq, str_eq_iff}
use dnas.Base.Map.{lookup, lookup-put, lookup-put_self}
use dnas.Base.Result.{ok, err}
use dnas.Core.Env.{Env}
use dnas.Core.Tx.{Transaction}
use dnas.Core.Tx.Codec.{size, tx_hash}
use dnas.Core.Mempool.{Mempool, delete_locked, get_tx, insert_locked, queue}
use dnas.Core.Mempool.Books.{IsMempool, delete_locked-IsMempool, insert_locked-IsMempool}
use dnas.Core.Mempool.Index.{entry}
use dnas.Core.Mempool.Package.{MempoolError, replacement_too_low, tx_at}
use dnas.Core.Mempool.Rules.{Admission, admissible_locked, over_budget, unmineable}
use dnas.Core.Mempool.Admit.{
  AddResult, add_locked, admitted, conflict, evict_for, place, placed, victim_for,
}
use dnas.Core.Mempool.Room.{
  IsRoom, Shrinks, Shrinks-refl, Shrinks-fresh, Shrinks-free, delete_locked-Shrinks,
  delete_locked-length, delete_locked-gone, entry-delete_locked, delete_locked-bytes,
  evict_for-IsRoom,
}

module _ (env : Env) where
  -- The transaction takes the place of one with its sender and nonce.
  pub record IsReplaced (tx : Transaction) (m m' : Mempool) (old_hash : Str) : Type 0 where
    pub old : Transaction
    pub held : lookup old_hash m.txs ≡ some old
    pub same_sender : old.from ≡ tx.from
    pub same_nonce : old.nonce ≡ tx.nonce
    pub deserved :
        (old.fee < tx.fee) ⊎ ((unmineable env old m ≡ true) × (unmineable env tx m ≡ false))
    pub gone : lookup old_hash m'.txs ≡ none
    pub bytes : m'.bytes + size env old ≡ m.bytes + size env tx

  -- Into a free slot there must be room; into a slot that was taken, the old one goes whatever the
  -- byte budget.
  abbrev pub Slot : Transaction → Mempool → Mempool → Option Str → Type 0
  Slot tx m m' none = m'.bytes ≤ m'.max_bytes
  Slot tx m m' (some old_hash) = IsReplaced tx m m' old_hash

  -- A refusal leaves the pool alone, except that the loop may have evicted before it gave up.
  abbrev pub Refused : (ℕ → ℕ → ℕ) → Transaction → MempoolError → Mempool → Mempool → Type 0
  Refused quotient tx e m m' =
      (m' ≡ m)
      ⊎ ((over_budget env (size env tx) m' ≡ true) × (victim_for env quotient tx m' ≡ err e))

  -- What each answer of `add_locked` means, beside the books.
  abbrev pub Added : (ℕ → ℕ → ℕ) → Transaction → Mempool → AddResult → Type 0
  Added quotient tx m (err e, m') = IsMempool env m' × Shrinks m m' × Refused quotient tx e m m'
  Added quotient tx m (ok false, m') =
      IsMempool env m' × (m' ≡ m) × (is_some (lookup (tx_hash env tx) m.txs) ≡ true)
  Added quotient tx m (ok true, m') =
      IsMempool env m'
      × (lookup (tx_hash env tx) m.txs ≡ none)
      × (lookup (tx_hash env tx) m'.txs ≡ some tx)
      × ((k : Str) (t : Transaction)
          → lookup k m'.txs ≡ some t
          → (k ≡ tx_hash env tx) ⊎ (lookup k m.txs ≡ some t))
      × (admissible_locked env tx (conflict tx m) m ≡ ok tt)
      × Slot tx m m' (conflict tx m)

module _ (env : Env) (h : Str) (tx : Transaction) where
  insert_locked-txs :
      (m m' : Mempool)
      → Shrinks m m'
      → (k : Str) (t : Transaction) → lookup k (insert_locked env h tx m').txs ≡ some t
      → (k ≡ h) ⊎ (lookup k m.txs ≡ some t)
  unfolding insert_locked
  insert_locked-txs m m' s k t at = elim (Bool-cases (str_eq h k)) [
    | inl same ↦ inl (ground (arith, str_eq_iff h k))
    | inr other ↦ inr (s.kept k t (ground (arith, lookup-put h k tx m'.txs)))
  ]

  lookup-insert_locked :
      (k : Str) (m : Mempool)
      → lookup k (insert_locked env h tx m).txs ≡ (if str_eq h k then some tx else lookup k m.txs)
  unfolding insert_locked
  lookup-insert_locked k m = lookup-put h k tx m.txs

  insert_locked-held : (m : Mempool) → lookup h (insert_locked env h tx m).txs ≡ some tx
  unfolding insert_locked
  insert_locked-held m = lookup-put_self h tx m.txs

  insert_locked-bytes : (m : Mempool) → (insert_locked env h tx m).bytes ≡ m.bytes + size env tx
  unfolding insert_locked
  insert_locked-bytes m = refl

  insert_locked-max_bytes : (m : Mempool) → (insert_locked env h tx m).max_bytes ≡ m.max_bytes
  unfolding insert_locked
  insert_locked-max_bytes m = refl

pub tx_at-held : (k : Str) (t : Transaction) (m : Mempool) → lookup k m.txs ≡ some t → tx_at k m ≡ t
unfolding tx_at get_tx
tx_at-held k t m held = rw held refl

pub conflict-entry :
    (tx : Transaction) (m : Mempool) → conflict tx m ≡ entry tx.from tx.nonce m.by_sender
unfolding conflict queue
conflict-entry tx m = refl

module _ (env : Env) (quotient : ℕ → ℕ → ℕ) (h : Str) (tx : Transaction) (m : Mempool) where
  pub place-some :
      (old_hash : Str)
      → place env quotient h tx (some old_hash) m ≡ (
          if leb tx.fee (tx_at old_hash m).fee
            && not (unmineable env (tx_at old_hash m) m && not (unmineable env tx m))
          then (err replacement_too_low, m)
          else (ok true, insert_locked env h tx (delete_locked env old_hash m)))
  unfolding place
  place-some old_hash = refl

  pub place-none :
      place env quotient h tx none m
      ≡ admitted env quotient h tx (evict_for env quotient (suc (length m.txs)) tx m)
  unfolding place
  place-none = refl

module _ (env : Env) (quotient : ℕ → ℕ → ℕ) (tx : Transaction) (m : Mempool) (i : IsMempool env m)
    (small : IsU64 tx.fee) (fresh : lookup (tx_hash env tx) m.txs ≡ none)
    (admissible : admissible_locked env tx (conflict tx m) m ≡ ok tt) where
  abbrev own_hash : Str
  own_hash = tx_hash env tx

  admitted-Added :
      (r : Admission × Mempool)
      → conflict tx m ≡ none
      → IsRoom env quotient tx (λ _. ⊤) m r
      → Added env quotient tx m (admitted env quotient own_hash tx r)
  admitted-Added (err e, m') free (i', s, _, over, why) = (i', s, inr (over, why))
  admitted-Added (ok _, m') free (i', s, _, few, light) = (
    insert_locked-IsMempool env own_hash tx m' i' (Shrinks-fresh own_hash s fresh)
        (Shrinks-free tx.from tx.nonce s (sym (conflict-entry tx m) ∙ free)) refl small few,
    fresh,
    insert_locked-held env own_hash tx m',
    insert_locked-txs env own_hash tx m m' s,
    admissible,
    rw free (
        omega (
          arith,
          light,
          insert_locked-bytes env own_hash tx m',
          insert_locked-max_bytes env own_hash tx m',
        )),
  )

  module _ (old_hash : Str) (taken : conflict tx m ≡ some old_hash) where
    abbrev without_old : Mempool
    without_old = delete_locked env old_hash m

    replace-Added :
        (old : Transaction)
        → lookup old_hash m.txs ≡ some old
        → old.from ≡ tx.from
        → old.nonce ≡ tx.nonce
        → (old.fee < tx.fee) ⊎ ((unmineable env old m ≡ true) × (unmineable env tx m ≡ false))
        → Added env quotient tx m (ok true, insert_locked env own_hash tx without_old)
    replace-Added old held from nonce deserved =
        let i' = delete_locked-IsMempool env old_hash m i in
        let s = delete_locked-Shrinks env old_hash m i in
        let free : entry tx.from tx.nonce without_old.by_sender ≡ none = ground (
          arith,
          entry-delete_locked env old_hash old m i held tx.from tx.nonce,
          str_eq_iff old.from tx.from,
        ) in
        (
          insert_locked-IsMempool env own_hash tx without_old i' (Shrinks-fresh own_hash s fresh)
              free refl small
              (omega (arith, delete_locked-length env old_hash old m held, i.few, s.same_max)),
          fresh,
          insert_locked-held env own_hash tx without_old,
          insert_locked-txs env own_hash tx m without_old s,
          admissible,
          rw taken (record {
            old = old;
            held = held;
            same_sender = from;
            same_nonce = nonce;
            deserved = deserved;
            gone = ground (
              arith,
              lookup-insert_locked env own_hash tx old_hash without_old,
              delete_locked-gone env old_hash old m i held,
              str_eq_iff own_hash old_hash,
              fresh,
              held,
            );
            bytes = omega (
              arith,
              delete_locked-bytes env old_hash old m i held,
              insert_locked-bytes env own_hash tx without_old,
            );
          }),
        )

  may_replace :
      (old : Transaction)
      → (leb tx.fee old.fee && not (unmineable env old m && not (unmineable env tx m))) ≡ false
      → (old.fee < tx.fee) ⊎ ((unmineable env old m ≡ true) × (unmineable env tx m ≡ false))
  may_replace old allowed = elim (Bool-cases (leb tx.fee old.fee)) [
    | inl low ↦ inr (ground arith)
    | inr high ↦ inl (ground arith)
  ]

  place-taken :
      (old_hash : Str)
      → conflict tx m ≡ some old_hash
      → Added env quotient tx m (place env quotient own_hash tx (some old_hash) m)
  place-taken old_hash taken =
      let (old, held, from, nonce) =
        i.index.listed tx.from tx.nonce old_hash (sym (conflict-entry tx m) ∙ taken) in
      rw (place-some env quotient own_hash tx m old_hash, tx_at-held old_hash old m held)
        (elim (Bool-cases
          (leb tx.fee old.fee && not (unmineable env old m && not (unmineable env tx m)))) [
            | inl low ↦ rw low (i, Shrinks-refl m, inl refl)
            | inr allowed ↦
                rw allowed
                  (replace-Added old_hash taken old held from nonce (may_replace old allowed))
          ])

  place-Added :
      (o : Option Str)
      → conflict tx m ≡ o
      → Added env quotient tx m (place env quotient own_hash tx o m)
  place-Added none free = rw (place-none env quotient own_hash tx m) (
      admitted-Added (evict_for env quotient (suc (length m.txs)) tx m) free (
        evict_for-IsRoom env quotient tx (λ _. ⊤) (λ n v j victim p. tt) (suc (length m.txs)) m i tt
          (omega arith)))
  place-Added (some old_hash) taken = place-taken old_hash taken

pub add_locked-unfolded :
    (env : Env) (quotient : ℕ → ℕ → ℕ) (tx : Transaction) (m : Mempool)
    → add_locked env quotient tx m ≡ (
        if is_some (lookup (tx_hash env tx) m.txs)
        then (ok false, m)
        else placed
            (admissible_locked env tx (conflict tx m) m)
            (place env quotient (tx_hash env tx) tx (conflict tx m) m)
            m)
unfolding add_locked get_tx
add_locked-unfolded env quotient tx m = refl

module _ (env : Env) (quotient : ℕ → ℕ → ℕ) (tx : Transaction) (m : Mempool) (i : IsMempool env m)
    (small : IsU64 tx.fee) where
  placed-Added :
      (a : Admission)
      → lookup (tx_hash env tx) m.txs ≡ none
      → admissible_locked env tx (conflict tx m) m ≡ a
      → Added env quotient tx m
          (placed a (place env quotient (tx_hash env tx) tx (conflict tx m) m) m)
  placed-Added (err e) fresh why = (i, Shrinks-refl m, inl refl)
  placed-Added (ok _) fresh why =
      place-Added env quotient tx m i small fresh why (conflict tx m) refl

  -- On a pool whose books agree, for a fee of 64 bits, whatever the pool has become since the checks
  -- before the lock. An error leaves the pool as it was, unless the loop that evicts gave up: then some
  -- transactions may be gone and none came. An answer of false leaves it as it was, and the transaction
  -- was there. An answer of true: the transaction was not there, is there now, the rules of admission
  -- hold for it, and what else is there was there before; in a free slot it stays within the byte
  -- budget; in a slot that was taken, it pays a higher fee than the one that left, or it can be mined in
  -- the next block and the other cannot, and the bytes change by the difference of the two. The books
  -- agree afterwards, the number of transactions within its bound.
  pub add_locked-Added : Added env quotient tx m (add_locked env quotient tx m)
  add_locked-Added =
      rw (add_locked-unfolded env quotient tx m)
        (elim (Option-cases (lookup (tx_hash env tx) m.txs)) [
          | inl fresh ↦
              rw fresh (placed-Added (admissible_locked env tx (conflict tx m) m) fresh refl)
          | inr (t, held) ↦ rw held (i, refl, ap is_some held)
        ])
