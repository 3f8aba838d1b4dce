-- ===== src/Core/Ledger/Keeps.antt =====
-- What a property of the journal needs in order to be kept by the actions of core/blockchain.go:
-- the rules for the steps, on the error paths too. The operations are in the children.
pub mod Ops
pub mod Block
use dnas.Base.{ℕ, ◌≡◌, refl, if◌then◌else◌, Bool, true, false}
use dnas.Base.Str.{Str}
use dnas.Base.Result.{Result, ok, err}
use dnas.Core.Tx.Errors.{TxError}
use dnas.Core.Block.{BlockError}
use dnas.Core.Ledger.{
  Account, Journal, Action, continue, ◌>>=◌, ◌>>◌, raise_if, checked, pure, read,
}
use dnas.Core.Ledger.Block.{BlockAction, after_tx, and_then}

-- The action keeps `P`, however it ends.
pub record Keeps (P : Journal → Type 0) {A : Type 0} (m : Action A) : Type 0 where
  pub keep : (j : Journal) → P j → P (m j).1

continue-keep :
    {P : Journal → Type 0} {A B : Type 0} (f : A → Action B) (r : Result TxError A) (j : Journal)
    → ((a : A) → Keeps P (f a))
    → P j
    → P (continue f r j).1
continue-keep f (ok a) j kf h = (kf a).keep j h
continue-keep f (err e) j kf h = h

pub after_tx-keep :
    {P : Journal → Type 0} {A : Type 0} (i : ℕ) (rest : BlockAction A)
    (r : Result TxError (Unit {0})) (j : Journal)
    → ((k : Journal) → P k → P (rest k).1)
    → P j
    → P (after_tx i rest r j).1
after_tx-keep i rest (ok _) j kr h = kr j h
after_tx-keep i rest (err e) j kr h = h

pub and_then-keep :
    {P : Journal → Type 0} {A B : Type 0} (rest : A → BlockAction B) (r : Result BlockError A)
    (j : Journal)
    → ((a : A) (k : Journal) → P k → P (rest a k).1)
    → P j
    → P (and_then rest r j).1
and_then-keep rest (ok a) j kr h = kr a j h
and_then-keep rest (err e) j kr h = h

module _ {P : Journal → Type 0} where
  pub bind-Keeps :
      {A B : Type 0} {m : Action A} {f : A → Action B}
      → Keeps P m
      → ((a : A) → Keeps P (f a))
      → Keeps P (m >>= f)
  unfolding ◌>>=◌
  bind-Keeps {m = m} {f = f} km kf = record {
    keep = λ j h. continue-keep f (m j).0 (m j).1 kf (km.keep j h);
  }

  pub then-Keeps :
      {B : Type 0} {m : Action (Unit {0})} {k : Action B} → Keeps P m → Keeps P k → Keeps P (m >> k)
  then-Keeps km kk = bind-Keeps km (λ _. kk)

  pub raise_if-Keeps : (c : Bool) (e : TxError) → Keeps P (raise_if c e)
  unfolding raise_if
  raise_if-Keeps true e = record { keep = λ j h. h }
  raise_if-Keeps false e = record { keep = λ j h. h }

  pub checked-Keeps : {A : Type 0} (r : Result TxError A) → Keeps P (checked r)
  unfolding checked
  checked-Keeps r = record { keep = λ j h. h }

  -- After a check, its success is known.
  pub checked_bind-Keeps :
      {A B : Type 0} (r : Result TxError A) {f : A → Action B}
      → ((a : A) → r ≡ ok a → Keeps P (f a))
      → Keeps P (checked r >>= f)
  unfolding checked ◌>>=◌
  checked_bind-Keeps (ok a) kf = kf a refl
  checked_bind-Keeps (err e) kf = record { keep = λ j h. h }

  pub pure-Keeps : {A : Type 0} (a : A) → Keeps P (pure a)
  unfolding pure
  pure-Keeps a = record { keep = λ j h. h }

  pub read-Keeps : (a : Str) → Keeps P (read a)
  unfolding read
  read-Keeps a = record { keep = λ j h. h }

  pub if-Keeps :
      {A : Type 0} (c : Bool) {m k : Action A}
      → Keeps P m
      → Keeps P k
      → Keeps P (if c then m else k)
  if-Keeps true km kk = km
  if-Keeps false km kk = kk

  pub ruleset rules =
      (bind-Keeps, then-Keeps, raise_if-Keeps, checked-Keeps, pure-Keeps, read-Keeps, if-Keeps)
