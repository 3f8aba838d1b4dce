-- ===== src/Node/TxRelay/Requests.antt =====
-- node/txrelay.go: the table of requests stays within its bound, and a transaction is asked for once
-- in a timeout.
use dnas.Base.{
  ℕ, ◌+◌, ◌-◌, ◌≤◌, ◌<◌, ltb, leb, if◌then◌else◌, true, false, not, is_some, none, some, List, [],
  ◌∷◌, ◌++◌, length, length-append, ◌≡◌, refl, sym, ◌∙◌, arith, inl, inr, Bool-cases,
}
use dnas.Base.Str.{Str, str_eq, str_eq_iff, str_eq_self}
use dnas.Base.Map.{
  length-delete, Map, lookup, put, lookup-put, lookup-put_self, lookup-delete, put-IsMap,
  delete-IsMap,
}
use dnas.Node.Seen.Bound.{Agree, is_in, insert-Agree}
use dnas.Node.Orphan.Children.{forget-Agree, remove_first-le}
use dnas.Node.TxRelay.{
  TxRequests, claim, done, drop_oldest, enqueue, in_flight, max_tx_in_flight, new_tx_requests,
  request, tx_request_timeout,
}

-- The map holds the hashes of the queue, each once, and no more of them than the bound.
pub record IsTxRequests (r : TxRequests) : Type 0 where
  pub few : length r.ord ≤ max_tx_in_flight
  pub agree : Agree r.ord r.at

pub new_tx_requests-IsTxRequests : IsTxRequests new_tx_requests
unfolding lookup is_in
new_tx_requests-IsTxRequests = record {
  few = omega arith;
  agree = record { distinct = tt; is_map = tt; as_many = refl; same = λ h. refl };
}

drop_oldest-Agree :
    (ord : List Str) (at : Map ℕ)
    → Agree ord at
    → Agree (drop_oldest ord at).ord (drop_oldest ord at).at
unfolding drop_oldest is_in
drop_oldest-Agree [] at a = a
drop_oldest-Agree (oldest ∷ ord) at a = record {
  distinct = a.distinct.1;
  is_map = delete-IsMap oldest at a.is_map;
  as_many = omega (
    arith,
    a.as_many,
    length-delete oldest at (ground (arith, a.same oldest, str_eq_self oldest)),
  );
  same = λ h.
      ground
        (arith, a.same h, lookup-delete oldest h at a.is_map, str_eq_iff oldest h, a.distinct.0);
}

drop_oldest_fresh :
    (h : Str) (ord : List Str) (at : Map ℕ)
    → is_in h ord ≡ false
    → is_in h (drop_oldest ord at).ord ≡ false
unfolding drop_oldest is_in
drop_oldest_fresh h [] at fresh = fresh
drop_oldest_fresh h (x ∷ ord) at fresh = ground arith

length-drop_oldest :
    (ord : List Str) (at : Map ℕ) → length (drop_oldest ord at).ord ≡ length ord - 1
unfolding drop_oldest
length-drop_oldest [] at = refl
length-drop_oldest (x ∷ ord) at = omega arith

length-put_held :
    (h : Str) (now : ℕ) (at : Map ℕ)
    → is_some (lookup h at) ≡ true
    → length (put h now at) ≡ length at
unfolding lookup put
length-put_held h now [] held = absurd cc
length-put_held h now ((k, v) ∷ at) held = ground (arith, length-put_held h now at)

-- Asking again moves the time of the request and nothing else.
put-Agree :
    (h : Str) (now : ℕ) (ord : List Str) (at : Map ℕ)
    → Agree ord at
    → is_some (lookup h at) ≡ true
    → Agree ord (put h now at)
put-Agree h now ord at a held = record {
  distinct = a.distinct;
  is_map = put-IsMap h now at a.is_map;
  as_many = length-put_held h now at held ∙ a.as_many;
  same = λ k. ground (arith, a.same k, lookup-put h k now at, str_eq_iff h k, held);
}

queued-IsTxRequests :
    (h : Str) (now : ℕ) (ord : List Str) (at : Map ℕ)
    → Agree ord at
    → length ord < max_tx_in_flight
    → is_in h ord ≡ false
    → IsTxRequests (record { at = put h now at; ord = ord ++ (h ∷ []) })
queued-IsTxRequests h now ord at a room fresh = record {
  few = omega (arith, room, length-append ord (h ∷ []));
  agree = insert-Agree h now ord at a fresh;
}

enqueued-IsTxRequests :
    (h : Str) (now : ℕ) (r : TxRequests)
    → IsTxRequests r
    → is_in h r.ord ≡ false
    → IsTxRequests (record (enqueue h r) { at = put h now (enqueue h r).at })
unfolding enqueue
enqueued-IsTxRequests h now r i fresh = elim (Bool-cases (leb max_tx_in_flight (length r.ord))) [
  | inl full ↦ rw full (
      queued-IsTxRequests h now (drop_oldest r.ord r.at).ord (drop_oldest r.ord r.at).at
        (drop_oldest-Agree r.ord r.at i.agree) (omega (arith, length-drop_oldest r.ord r.at, i.few))
        (drop_oldest_fresh h r.ord r.at fresh))
  | inr spare ↦ rw spare (queued-IsTxRequests h now r.ord r.at i.agree (ground arith) fresh)
]

request-IsTxRequests :
    (h : Str) (now : ℕ) (r : TxRequests) → IsTxRequests r → IsTxRequests (request h now r)
unfolding request
request-IsTxRequests h now r i = elim (Bool-cases (is_some (lookup h r.at))) [
  | inl held ↦ rw held (record { few = i.few; agree = put-Agree h now r.ord r.at i.agree held })
  | inr missing ↦ rw missing (enqueued-IsTxRequests h now r i (sym (i.agree.same h) ∙ missing))
]

claimed : (h : Str) (now : ℕ) (r : TxRequests) → IsTxRequests r → IsTxRequests (claim h now r).1
unfolding claim
claimed h now r i = elim (Bool-cases (in_flight now (lookup h r.at))) [
  | inl busy ↦ rw busy i
  | inr free ↦ rw free (request-IsTxRequests h now r i)
]

-- A table whose map and queue hold the same hashes, each once, and at most 8192 of them, is one again
-- after `claim`, whose map then has at most 8192 entries.
pub claim-IsTxRequests :
    (h : Str) (now : ℕ) (r : TxRequests)
    → IsTxRequests r
    → IsTxRequests (claim h now r).1 × (length (claim h now r).1.at ≤ max_tx_in_flight)
claim-IsTxRequests h now r i =
    let after = claimed h now r i in (after, omega (arith, after.few, after.agree.as_many))

lookup-request : (h : Str) (now : ℕ) (r : TxRequests) → lookup h (request h now r).at ≡ some now
unfolding request
lookup-request h now r =
    lookup-put_self h now (if is_some (lookup h r.at) then r else enqueue h r).at

-- After a claim that was granted, the next claim of the same transaction is refused exactly while the
-- timeout of the first runs.
pub claim-claim :
    (h : Str) (now later : ℕ) (r : TxRequests)
    → (claim h now r).0 ≡ true
    → (claim h later (claim h now r).1).0 ≡ not (ltb later (now + tx_request_timeout))
unfolding claim in_flight
claim-claim h now later r granted = elim (Bool-cases (in_flight now (lookup h r.at))) [
  | inl busy ↦ absurd (ground (arith, busy))
  | inr free ↦ rw (free, lookup-request h now r) (ground arith)
]

done_ok : (h : Str) (r : TxRequests) → IsTxRequests r → IsTxRequests (done h r)
unfolding done
done_ok h r i = elim (Bool-cases (is_some (lookup h r.at))) [
  | inl held ↦ rw held (record {
    few = omega (arith, i.few, remove_first-le h r.ord);
    agree = forget-Agree h r.ord r.at i.agree;
  })
  | inr missing ↦ rw missing i
]

lookup-done :
    (h k : Str) (r : TxRequests)
    → IsTxRequests r
    → lookup k (done h r).at ≡ (if str_eq h k then none else lookup k r.at)
unfolding done
lookup-done h k r i = elim (Bool-cases (is_some (lookup h r.at))) [
  | inl held ↦ rw held (lookup-delete h k r.at i.agree.is_map)
  | inr missing ↦ rw missing (ground (arith, str_eq_iff h k, missing))
]

-- In such a table, `done` keeps the agreement and the bound, forgets the request of its transaction
-- and no other, so that the transaction can be claimed at once.
pub done-IsTxRequests :
    (h k : Str) (now : ℕ) (r : TxRequests)
    → IsTxRequests r
    → IsTxRequests (done h r)
      × (lookup k (done h r).at ≡ (if str_eq h k then none else lookup k r.at))
      × ((claim h now (done h r)).0 ≡ true)
unfolding claim in_flight
done-IsTxRequests h k now r i =
    (done_ok h r i, lookup-done h k r i, ground (arith, lookup-done h h r i, str_eq_self h))
