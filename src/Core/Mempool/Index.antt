-- ===== src/Core/Mempool/Index.antt =====
-- core/mempool.go: the map of transactions and the index by sender and nonce agree after each write.
use dnas.Base.{
  ℕ, ◌==◌, if◌then◌else◌, ◌&&◌, Option, none, some, [], ◌≡◌, refl, arith, inl, inr, Bool-cases,
  is_empty,
}
use dnas.Base.Str.{Str, str_eq, str_eq_iff, str_eq_self, str_eq→eq}
use dnas.Base.Map.{
  Map, lookup, put, delete, IsMap, lookup-put, lookup-delete, put-IsMap, delete-IsMap,
}
use dnas.Base.Map.Nat.{
  lookup_nat, put_nat, delete_nat, IsNatMap, lookup_nat-put_nat, lookup_nat-delete_nat,
  put_nat-IsNatMap, delete_nat-IsNatMap,
}
use dnas.Core.Tx.{Transaction}
use dnas.Core.Mempool.{Queue, leave_queue, leave_sender, queue_or_empty}

abbrev pub queue_of : Str → Map Queue → Queue
queue_of a senders = queue_or_empty (lookup a senders)

-- The entry of a sender at a nonce.
abbrev pub entry : Str → ℕ → Map Queue → Option Str
entry a n senders = lookup_nat n (queue_of a senders)

-- A transaction of this sender and nonce is stored under the hash.
abbrev pub Holds : Str → Str → ℕ → Map Transaction → Type 0
Holds h a n txs = (tx : Transaction) × (lookup h txs ≡ some tx) × (tx.from ≡ a) × (tx.nonce ≡ n)

pub record IsIndexed (txs : Map Transaction) (senders : Map Queue) : Type 0 where
  pub txs_map : IsMap txs
  pub senders_map : IsMap senders
  pub queues : (a : Str) → IsNatMap (queue_of a senders)
  pub indexed :
      (h : Str) (tx : Transaction)
      → lookup h txs ≡ some tx
      → entry tx.from tx.nonce senders ≡ some h
  pub listed : (a : Str) (n : ℕ) (h : Str) → entry a n senders ≡ some h → Holds h a n txs

queue_of-put :
    (f a : Str) (q : Queue) (senders : Map Queue)
    → queue_of a (put f q senders) ≡ (if str_eq f a then q else queue_of a senders)
queue_of-put f a q senders = ground (arith, lookup-put f a q senders)

queue_of-delete :
    (f a : Str) (senders : Map Queue)
    → IsMap senders
    → queue_of a (delete f senders) ≡ (if str_eq f a then [] else queue_of a senders)
queue_of-delete f a senders is_map = ground (arith, lookup-delete f a senders is_map)

pub entry-put :
    (f a : Str) (k n : ℕ) (h : Str) (senders : Map Queue)
    → entry a n (put f (put_nat k h (queue_of f senders)) senders)
      ≡ (if str_eq f a && (k == n) then some h else entry a n senders)
entry-put f a k n h senders = elim (Bool-cases (str_eq f a)) [
  | inl same ↦
      rw (queue_of-put f a (put_nat k h (queue_of f senders)) senders, same)
        (rw (str_eq→eq f a same) (ground (arith, lookup_nat-put_nat k n h (queue_of a senders))))
  | inr other ↦ rw (queue_of-put f a (put_nat k h (queue_of f senders)) senders, other) refl
]

module _ (h : Str) (tx : Transaction) (txs : Map Transaction) (senders : Map Queue)
    (i : IsIndexed txs senders) where
  abbrev joined : Map Queue
  joined = put tx.from (put_nat tx.nonce h (queue_of tx.from senders)) senders

  insert-queues : (a : Str) → IsNatMap (queue_of a joined)
  insert-queues a = elim (Bool-cases (str_eq tx.from a)) [
    | inl same ↦
        rw (queue_of-put tx.from a (put_nat tx.nonce h (queue_of tx.from senders)) senders, same)
          (put_nat-IsNatMap tx.nonce h (queue_of tx.from senders) (i.queues tx.from))
    | inr other ↦
        rw (queue_of-put tx.from a (put_nat tx.nonce h (queue_of tx.from senders)) senders, other)
          (i.queues a)
  ]

  module _ (fresh : lookup h txs ≡ none) (free : entry tx.from tx.nonce senders ≡ none) where
    insert-indexed :
        (k : Str) (t : Transaction)
        → lookup k (put h tx txs) ≡ some t
        → entry t.from t.nonce joined ≡ some k
    insert-indexed k t held = elim (Bool-cases (str_eq h k)) [
      | inl same ↦
          let here : tx ≡ t = ground (arith, lookup-put h k tx txs) in
          rw (← here, ← str_eq→eq h k same)
            (ground
              (arith, entry-put tx.from tx.from tx.nonce tx.nonce h senders, str_eq_self tx.from))
      | inr other ↦
          let before : lookup k txs ≡ some t = ground (arith, lookup-put h k tx txs) in
          ground (
            arith,
            entry-put tx.from t.from tx.nonce t.nonce h senders,
            i.indexed k t before,
            free,
            str_eq_iff tx.from t.from,
          )
    ]

    insert-listed :
        (a : Str) (n : ℕ) (k : Str) → entry a n joined ≡ some k → Holds k a n (put h tx txs)
    insert-listed a n k at = elim (Bool-cases (str_eq tx.from a && (tx.nonce == n))) [
      | inl same ↦ (
        tx,
        ground
            (arith, entry-put tx.from a tx.nonce n h senders, lookup-put h k tx txs, str_eq_self k),
        ground (arith, str_eq_iff tx.from a),
        ground arith,
      )
      | inr other ↦
          let (t, held, from, nonce) =
            i.listed a n k (ground (arith, entry-put tx.from a tx.nonce n h senders)) in
          (t, ground (arith, lookup-put h k tx txs, fresh, held, str_eq_iff h k), from, nonce)
    ]

    pub insert-IsIndexed : IsIndexed (put h tx txs) joined
    insert-IsIndexed = record {
      txs_map = put-IsMap h tx txs i.txs_map;
      senders_map =
          put-IsMap tx.from (put_nat tx.nonce h (queue_of tx.from senders)) senders i.senders_map;
      queues = insert-queues;
      indexed = insert-indexed;
      listed = insert-listed;
    }

leave_queue-own :
    (h : Str) (tx : Transaction) (q : Queue)
    → lookup_nat tx.nonce q ≡ some h
    → leave_queue h tx q ≡ delete_nat tx.nonce q
unfolding leave_queue
leave_queue-own h tx q own = ground (arith, own, str_eq_self h)

module _ (h : Str) (tx : Transaction) (senders : Map Queue) (is_map : IsMap senders)
    (own : entry tx.from tx.nonce senders ≡ some h) where
  left_queue :
      (o : Option Queue) (a : Str)
      → lookup tx.from senders ≡ o
      → queue_of a (leave_sender h tx o senders) ≡ (
          if str_eq tx.from a then delete_nat tx.nonce (queue_of a senders) else queue_of a senders)
  unfolding leave_sender lookup_nat
  left_queue none a held = absurd (ground (arith, own, held))
  left_queue (some q) a held =
      let mine : lookup_nat tx.nonce q ≡ some h = ground (arith, own, held) in
      elim (Bool-cases (is_empty (delete_nat tx.nonce q))) [
        | inl gone ↦ ground (
          arith,
          leave_queue-own h tx q mine,
          queue_of-delete tx.from a senders is_map,
          str_eq_iff tx.from a,
          held,
        )
        | inr left ↦ ground (
          arith,
          leave_queue-own h tx q mine,
          queue_of-put tx.from a (delete_nat tx.nonce q) senders,
          str_eq_iff tx.from a,
          held,
        )
      ]

leave_sender-IsMap :
    (h : Str) (tx : Transaction) (o : Option Queue) (senders : Map Queue)
    → IsMap senders
    → IsMap (leave_sender h tx o senders)
unfolding leave_sender
leave_sender-IsMap h tx none senders is_map = is_map
leave_sender-IsMap h tx (some q) senders is_map =
    elim (Bool-cases (is_empty (leave_queue h tx q))) [
      | inl gone ↦ rw gone (delete-IsMap tx.from senders is_map)
      | inr left ↦ rw left (put-IsMap tx.from (leave_queue h tx q) senders is_map)
    ]

module _ (h : Str) (tx : Transaction) (txs : Map Transaction) (senders : Map Queue)
    (i : IsIndexed txs senders) (held : lookup h txs ≡ some tx) where
  abbrev left : Map Queue
  left = leave_sender h tx (lookup tx.from senders) senders

  left-queue :
      (a : Str)
      → queue_of a left ≡ (
          if str_eq tx.from a then delete_nat tx.nonce (queue_of a senders) else queue_of a senders)
  left-queue a =
      left_queue h tx senders i.senders_map (i.indexed h tx held) (lookup tx.from senders) a refl

  pub entry-left :
      (a : Str) (n : ℕ)
      → entry a n left ≡ (if str_eq tx.from a && (tx.nonce == n) then none else entry a n senders)
  entry-left a n = rw (left-queue a) (elim (Bool-cases (str_eq tx.from a)) [
    | inl same ↦
        rw same (ground (arith, lookup_nat-delete_nat tx.nonce n (queue_of a senders) (i.queues a)))
    | inr other ↦ rw other refl
  ])

  left-queues : (a : Str) → IsNatMap (queue_of a left)
  left-queues a = rw (left-queue a) (elim (Bool-cases (str_eq tx.from a)) [
    | inl same ↦ rw same (delete_nat-IsNatMap tx.nonce (queue_of a senders) (i.queues a))
    | inr other ↦ rw other (i.queues a)
  ])

  delete-indexed :
      (k : Str) (t : Transaction)
      → lookup k (delete h txs) ≡ some t
      → entry t.from t.nonce left ≡ some k
  delete-indexed k t at =
      let before : lookup k txs ≡ some t = ground (arith, lookup-delete h k txs i.txs_map) in
      ground (
        arith,
        entry-left t.from t.nonce,
        i.indexed k t before,
        i.indexed h tx held,
        lookup-delete h k txs i.txs_map,
        str_eq_iff h k,
        str_eq_iff tx.from t.from,
      )

  delete-listed : (a : Str) (n : ℕ) (k : Str) → entry a n left ≡ some k → Holds k a n (delete h txs)
  delete-listed a n k at =
      let before : entry a n senders ≡ some k = ground (arith, entry-left a n) in
      let (t, at_k, from, nonce) = i.listed a n k before in
      (
        t,
        ground (
          arith,
          lookup-delete h k txs i.txs_map,
          at_k,
          held,
          str_eq_iff h k,
          str_eq_iff tx.from a,
          entry-left a n,
        ),
        from,
        nonce,
      )

  pub delete-IsIndexed : IsIndexed (delete h txs) left
  delete-IsIndexed = record {
    txs_map = delete-IsMap h txs i.txs_map;
    senders_map = leave_sender-IsMap h tx (lookup tx.from senders) senders i.senders_map;
    queues = left-queues;
    indexed = delete-indexed;
    listed = delete-listed;
  }
