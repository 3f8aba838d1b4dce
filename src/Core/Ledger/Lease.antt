-- ===== src/Core/Ledger/Lease.antt =====
-- core/name.go: who may change a held name, and how far a lease reaches.
use Prim.Native.Nat.{max}
use dnas.Base.{ℕ, ◌+◌, ◌*◌, ◌^◌, ◌≤◌, ◌<◌, ◌≡◌, true, false, not, is_empty, ◌||◌, arith}
use dnas.Base.Str.{Str, str_eq}
use dnas.Base.Result.{ok, >>=-eq-ok}
use dnas.Core.Tx.{NameOp, NameOpKind}
use dnas.Core.Tx.Shape.{
  valid_name, validate_name_kind, validate_name_op, lease_periods, name_lease_period,
  max_name_leases,
}
use dnas.Core.Ledger.Apply.Name.{NameRecord, held_at, check_owner, next_record}

-- A lease that is bought at once is at most this long.
abbrev pub longest_lease : ℕ
longest_lease = max_name_leases * name_lease_period

validate_name_op-kind :
    (op : NameOp) → validate_name_op op ≡ ok tt → validate_name_kind op.op op ≡ ok tt
unfolding validate_name_op
validate_name_op-kind op e =
    let (_, e₁, _) = >>=-eq-ok (valid_name op.name) _ e in
    let (_, _, kind) = >>=-eq-ok (validate_name_kind op.op op) _ e₁ in kind

module _ (op : NameOp) (from : Str) (height : ℕ) (r : NameRecord) where
  next_record_kind :
      (k : NameOpKind) {r' : NameRecord}
      → validate_name_kind k op ≡ ok tt
      → is_empty from ≡ false
      → height + longest_lease < 2 ^ 64
      → r.expires + longest_lease < 2 ^ 64
      → next_record k op from height r ≡ ok r'
      → ((not (held_at r height) || str_eq r.owner from) ≡ true)
        × ((is_empty r'.owner || held_at r' height) ≡ true)
        × (r'.expires ≤ max height r.expires + longest_lease)
  unfolding next_record check_owner held_at validate_name_kind lease_periods
  next_record_kind NameOpKind.register {r' = r'} v named low high e = ground arith
  next_record_kind NameOpKind.renew {r' = r'} v named low high e = ground arith
  next_record_kind NameOpKind.transfer {r' = r'} v named low high e = ground arith
  next_record_kind NameOpKind.release {r' = r'} v named low high e = ground arith
  next_record_kind (NameOpKind.unknown w) v named low high e = cc

-- A name operation that `Validate` and `applyNameOp` accept changes a name that is held only for its
-- owner; the name it leaves is free, or held at that height; and its lease ends at most ten periods
-- after the height or the lease before. (The sender is not empty, and those sums stay below 2 ^ 64.)
pub next_record_guarded :
    (op : NameOp) (from : Str) (height : ℕ) (r : NameRecord) {r' : NameRecord}
    → validate_name_op op ≡ ok tt
    → is_empty from ≡ false
    → height + longest_lease < 2 ^ 64
    → r.expires + longest_lease < 2 ^ 64
    → next_record op.op op from height r ≡ ok r'
    → ((not (held_at r height) || str_eq r.owner from) ≡ true)
      × ((is_empty r'.owner || held_at r' height) ≡ true)
      × (r'.expires ≤ max height r.expires + longest_lease)
next_record_guarded op from height r v named low high e =
    next_record_kind op from height r op.op (validate_name_op-kind op v) named low high e
