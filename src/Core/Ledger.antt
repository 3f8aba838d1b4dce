-- ===== src/Core/Ledger.antt =====
-- core/blockchain.go: accounts, the undo log and the `set` of `applyTxsAndCoinbase`;
-- core/statedb.go: the account map; core/asset.go: `withAssetDelta`.
-- An action on the ledger is a function of the journal (the state and the undo log). The journal
-- comes back after an error too, since what was written stays until `applyUndo` reverts it.
pub mod Apply
pub mod Conservation
pub mod Block
pub mod Run
pub mod Tests
pub mod Undo
pub mod Coin
pub mod Clean
pub mod Keeps
pub mod Rollback
pub mod Guard
pub mod Nonce
pub mod Replay
pub mod Lease
use dnas.Base.{
  ℕ, ◌==◌, if◌then◌else◌, Bool, true, false, ◌&&◌, Option, none, some, or_zero, List, [], ◌∷◌, ◌++◌,
  is_empty, add64, ⊤,
}
use dnas.Base.Str.{Str}
use dnas.Base.Map.{Map, lookup, put, delete}
use dnas.Base.Result.{Result, ok, err}
use dnas.Core.Tx.Errors.{TxError}
use dnas.Core.Tx.Shape.{Check, is_name_key}

pub record Account : Type 0 where
  pub balance : ℕ
  pub nonce : ℕ
  pub assets : Map ℕ
  pub owner : Str
  pub expires : ℕ

abbrev pub zero_account : Account
zero_account = record { balance = 0; nonce = 0; assets = []; owner = []; expires = 0 }

-- `Account.isEmpty`
unfoldable pub is_empty_account : Account → Bool
is_empty_account a =
    a.balance == 0 && a.nonce == 0 && is_empty a.assets && is_empty a.owner && a.expires == 0

-- `a.Assets[id]`
abbrev pub holding : Str → Account → ℕ
holding id a = or_zero (lookup id a.assets)

-- `withAssetDelta`: the delta is given by its 64 bits, so a debit of `x` is `2 ^ 64 - x`.
unfoldable pub with_asset_delta : Str → ℕ → Account → Account
unfolding put delete
with_asset_delta id delta a =
    let v = add64 (holding id a) delta in
    let m = put id v a.assets in record a { assets = if v == 0 then delete id m else m }

abbrev pub State : Type 0
State = Map Account

abbrev pub or_zero_account : Option Account → Account
or_zero_account none = zero_account
or_zero_account (some a) = a

-- `StateDB.Get`: a missing account is the zero account.
abbrev pub get : Str → State → Account
get addr s = or_zero_account (lookup addr s)

pub record UndoEntry : Type 0 where
  pub addr : Str
  pub prev : Option Account

pub record Journal : Type 0 where
  pub state : State
  pub undo : List UndoEntry

abbrev pub Action : Type 0 → Type 0
Action A = Journal → Result TxError A × Journal

abbrev pub continue :
    {A B : Type 0} → (A → Action B) → Result TxError A → Journal → Result TxError B × Journal
continue f (ok a) j = f a j
continue f (err e) j = (err e, j)

infixl 5 ◌>>=◌ ◌>>◌
unfoldable pub ◌>>=◌ : {A B : Type 0} → Action A → (A → Action B) → Action B
◌>>=◌ m f j = let (r, j') = m j in continue f r j'

abbrev pub ◌>>◌ : {B : Type 0} → Action ⊤ → Action B → Action B
m >> k = m >>= λ _. k

unfoldable pub raise_if : Bool → TxError → Action ⊤
raise_if true e j = (err e, j)
raise_if false e j = (ok tt, j)

-- A check that reads no state.
unfoldable pub checked : {A : Type 0} → Result TxError A → Action A
checked r j = (r, j)

unfoldable pub pure : {A : Type 0} → A → Action A
pure a j = (ok a, j)

unfoldable pub read : Str → Action Account
read addr j = (ok (get addr j.state), j)

-- The closure `set`: the prior value is logged first; an emptied name record is removed.
unfoldable pub write : Str → Account → State → State
unfolding is_name_key is_empty_account put delete
write addr acc s =
    if is_name_key addr && is_empty_account acc then delete addr s else put addr acc s

unfoldable pub set : Str → Account → Action ⊤
unfolding write lookup
set addr acc j = (
  ok tt,
  record {
    state = write addr acc j.state;
    undo = j.undo ++ (record { addr = addr; prev = lookup addr j.state } ∷ []);
  },
)

-- One name for the steps above, to unfold them together.
unfoldable pub steps : ⊤
unfolding ◌>>=◌ raise_if checked pure read set
steps = tt

-- One step of `applyUndo`.
unfoldable pub revert : UndoEntry → State → State
unfolding put delete
revert u s = elim u.prev [ some acc ↦ put u.addr acc s | none ↦ delete u.addr s ]

-- `applyUndo`: the last entry is reverted first.
unfoldable pub apply_undo : List UndoEntry → State → State
unfolding revert
apply_undo [] s = s
apply_undo (u ∷ us) s = revert u (apply_undo us s)
