-- ===== src/Core/Ledger/Undo.antt =====
-- core/blockchain.go: the undo log of `set` and `applyUndo`.
use dnas.Base.{
  ◌≡◌, refl, ap, ◌∙◌, if◌then◌else◌, ◌&&◌, Option, none, some, List, [], ◌∷◌, ◌++◌, arith,
}
use dnas.Base.Str.{Str, str_eq, str_eq_iff}
use dnas.Base.Map.{IsMap, lookup, lookup-put, lookup-delete, put-IsMap, delete-IsMap}
use dnas.Core.Tx.Shape.{is_name_key}
use dnas.Core.Ledger.{
  Account, State, UndoEntry, Journal, is_empty_account, write, revert, apply_undo,
}

-- Two ledgers that answer every lookup alike.
abbrev pub SameState : State → State → Type 0
SameState s t = (k : Str) → lookup k s ≡ lookup k t

revert_by : Str → Option Account → State → State
unfolding revert
revert_by a p s = revert (record { addr = a; prev = p }) s

revert_by-IsMap : (a : Str) (p : Option Account) (s : State) → IsMap s → IsMap (revert_by a p s)
unfolding revert_by
revert_by-IsMap a none s h = delete-IsMap a s h
revert_by-IsMap a (some acc) s h = put-IsMap a acc s h

-- What a lookup answers after an entry is reverted.
lookup-revert_by :
    (a : Str) (p : Option Account) (k : Str) (s : State)
    → IsMap s
    → lookup k (revert_by a p s) ≡ (if str_eq a k then p else lookup k s)
unfolding revert_by
lookup-revert_by a none k s h = lookup-delete a k s h
lookup-revert_by a (some acc) k s h = lookup-put a k acc s

pub revert-IsMap : (u : UndoEntry) (s : State) → IsMap s → IsMap (revert u s)
unfolding revert_by
revert-IsMap u s h = revert_by-IsMap u.addr u.prev s h

pub lookup-revert :
    (u : UndoEntry) (k : Str) (s : State)
    → IsMap s
    → lookup k (revert u s) ≡ (if str_eq u.addr k then u.prev else lookup k s)
unfolding revert_by
lookup-revert u k s h = lookup-revert_by u.addr u.prev k s h

pub write-IsMap : (a : Str) (acc : Account) (s : State) → IsMap s → IsMap (write a acc s)
unfolding write
write-IsMap a acc s h = ground (arith, put-IsMap a acc s h, delete-IsMap a s h)

-- A write is seen at its own key alone; an emptied name record is gone.
pub lookup-write :
    (a : Str) (acc : Account) (k : Str) (s : State)
    → IsMap s
    → lookup k (write a acc s) ≡ (
        if str_eq a k
        then (if is_name_key a && is_empty_account acc then none else some acc)
        else lookup k s)
unfolding write
lookup-write a acc k s h = ground (arith, lookup-put a k acc s, lookup-delete a k s h)

pub apply_undo-IsMap : (us : List UndoEntry) (s : State) → IsMap s → IsMap (apply_undo us s)
unfolding apply_undo
apply_undo-IsMap [] s h = h
apply_undo-IsMap (u ∷ us) s h = revert-IsMap u (apply_undo us s) (apply_undo-IsMap us s h)

pub apply_undo-SameState :
    (us : List UndoEntry) (s t : State)
    → IsMap s
    → IsMap t
    → SameState s t
    → SameState (apply_undo us s) (apply_undo us t)
unfolding apply_undo
apply_undo-SameState [] s t hs ht e k = e k
apply_undo-SameState (u ∷ us) s t hs ht e k = ground (
  arith,
  lookup-revert u k (apply_undo us s) (apply_undo-IsMap us s hs),
  lookup-revert u k (apply_undo us t) (apply_undo-IsMap us t ht),
  apply_undo-SameState us s t hs ht e k,
)

pub apply_undo-append :
    (us vs : List UndoEntry) (s : State) → apply_undo (us ++ vs) s ≡ apply_undo us (apply_undo vs s)
unfolding apply_undo
apply_undo-append [] vs s = refl
apply_undo-append (u ∷ us) vs s = ap (revert u) (apply_undo-append us vs s)

-- Reverting the entry that a write logs brings the ledger back.
pub revert-write :
    (a : Str) (acc : Account) (s : State)
    → IsMap s
    → SameState (revert (record { addr = a; prev = lookup a s }) (write a acc s)) s
revert-write a acc s h k = ground (
  arith,
  lookup-revert (record { addr = a; prev = lookup a s }) k (write a acc s) (write-IsMap a acc s h),
  lookup-write a acc k s h,
  str_eq_iff a k,
)

-- The journal is well formed and its log leads back to the ledger `s`.
pub record Restores (s : State) (j : Journal) : Type 0 where
  pub is_map : IsMap j.state
  pub back : SameState (apply_undo j.undo j.state) s

unfoldable pub written : Str → Account → Journal → Journal
written a acc j = record {
  state = write a acc j.state;
  undo = j.undo ++ (record { addr = a; prev = lookup a j.state } ∷ []);
}

pub written-Restores :
    {s : State} (a : Str) (acc : Account) (j : Journal)
    → Restores s j
    → Restores s (written a acc j)
unfolding written apply_undo revert lookup
written-Restores a acc j r = record {
  is_map = write-IsMap a acc j.state r.is_map;
  back = λ k.
      ap (lookup k) (apply_undo-append j.undo (entry ∷ []) (write a acc j.state))
      ∙ (apply_undo-SameState j.undo (revert entry (write a acc j.state)) j.state
            (revert-IsMap entry _ (write-IsMap a acc j.state r.is_map)) r.is_map
            (revert-write a acc j.state r.is_map) k
          ∙ r.back k);
}
  where
    entry : UndoEntry
    entry = record { addr = a; prev = lookup a j.state }
