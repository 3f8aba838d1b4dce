-- ===== src/Core/Tx.antt =====
-- core/transaction.go, core/asset.go, core/name.go: the data of a transaction, and its queries.
-- Strings are byte lists, a Go pointer is an `Option`, and an amount is a number below 2 ^ 64.
pub mod Errors
pub mod Shape
pub mod Codec
pub mod Auth
pub mod Sanity
pub mod Height
use dnas.Base.{
  ℕ, ◌+◌, ltb, leb, ◌==◌, if◌then◌else◌, Bool, true, false, not, ◌&&◌, ◌||◌, Option, none, some,
  is_some, List, [], ◌∷◌, map, is_empty, add64,
}
use dnas.Base.Str.{Str, codes, str_eq}

pub record Output : Type 0 where
  pub to : Str
  pub amount : ℕ

pub record AssetIssue : Type 0 where
  pub ticker : Str
  pub supply : ℕ
  pub metadata : Str

-- `Op` is a string: the two that are known, and any other.
pub data AssetOpKind : Type 0 where
  mint burn : AssetOpKind
  unknown : Str → AssetOpKind

pub record AssetOp : Type 0 where
  pub op : AssetOpKind
  pub amount : ℕ
  pub ticker : Str
  pub issue_nonce : ℕ

pub data NameOpKind : Type 0 where
  register renew transfer release : NameOpKind
  unknown : Str → NameOpKind

pub record NameOp : Type 0 where
  pub op : NameOpKind
  pub name : Str
  pub target : Str
  pub periods : ℕ

pub record MultisigScript : Type 0 where
  pub threshold : ℕ
  pub pub_keys : List Str

pub record HtlcScript : Type 0 where
  pub hash : Str
  pub recipient : Str
  pub sender : Str
  pub timeout : ℕ

pub record VaultScript : Type 0 where
  pub hot : Str
  pub cold : Str
  pub unlock : ℕ

-- core/script.go: the predicate and its witness, both hex.
pub record ScriptAuth : Type 0 where
  pub script : Str
  pub args : List Str

pub record Transaction : Type 0 where
  pub from : Str
  pub to : Str
  pub amount : ℕ
  pub fee : ℕ
  pub nonce : ℕ
  pub expiry : ℕ
  pub lock_until : ℕ
  pub memo : Str
  pub outputs : List Output
  pub asset_id : Str
  pub issue : Option AssetIssue
  pub asset_op : Option AssetOp
  pub name : Option NameOp
  pub pub_key : Str
  pub signature : Str
  pub multisig : Option MultisigScript
  pub signatures : List Str
  pub script : Option ScriptAuth
  pub htlc : Option HtlcScript
  pub preimage : Str
  pub vault : Option VaultScript
  pub fee_payer : Str
  pub fee_payer_pub_key : Str
  pub fee_payer_sig : Str

abbrev pub coinbase_sender : Str
coinbase_sender = codes "COINBASE"

unfoldable pub is_coinbase : Transaction → Bool
is_coinbase t = str_eq t.from coinbase_sender

abbrev pub is_multi_output : Transaction → Bool
is_multi_output t = not (is_empty t.outputs)

-- The loop of `TotalOut`: `none` when a sum wraps.
unfoldable pub sum_outputs : ℕ → List Output → Option ℕ
sum_outputs total [] = some total
sum_outputs total (o ∷ os) =
    let rest = sum_outputs (add64 total o.amount) os in
    if ltb (add64 total o.amount) total then none else rest

unfoldable pub total_out : Transaction → Option ℕ
total_out t = if is_multi_output t then sum_outputs 0 t.outputs else some t.amount

-- `outputs()`: any coin transfer as a list of recipients.
unfoldable pub recipients : Transaction → List Output
recipients t = if is_multi_output t then t.outputs else record { to = t.to; amount = t.amount } ∷ []

unfoldable pub coin_amounts : Transaction → List ℕ
unfolding recipients
coin_amounts t = map (λ o. o.amount) (recipients t)

abbrev pub is_multisig : Transaction → Bool
is_multisig t = is_some t.multisig

abbrev pub is_htlc : Transaction → Bool
is_htlc t = is_some t.htlc

abbrev pub is_vault : Transaction → Bool
is_vault t = is_some t.vault

abbrev pub is_script : Transaction → Bool
is_script t = is_some t.script

abbrev pub is_sponsored : Transaction → Bool
is_sponsored t = not (is_empty t.fee_payer)

abbrev pub is_issue : Transaction → Bool
is_issue t = is_some t.issue

abbrev pub is_asset_op : Transaction → Bool
is_asset_op t = is_some t.asset_op

abbrev pub is_name_op : Transaction → Bool
is_name_op t = is_some t.name

abbrev pub is_asset_transfer : Transaction → Bool
is_asset_transfer t = not (is_empty t.asset_id) && not (is_some t.issue) && not (is_some t.asset_op)

-- `(*AssetIssue).IsNonFungible`, on nil too.
abbrev pub is_non_fungible : Option AssetIssue → Bool
is_non_fungible none = false
is_non_fungible (some i) = not (is_empty i.metadata)

unfoldable pub is_expired_at : Transaction → ℕ → Bool
is_expired_at t height = not (t.expiry == 0) && ltb t.expiry height

unfoldable pub is_locked_at : Transaction → ℕ → Bool
is_locked_at t height = not (t.lock_until == 0) && ltb height t.lock_until

-- The part of the fee that the sender pays.
unfoldable pub sender_fee : Transaction → ℕ
sender_fee t = if is_sponsored t then 0 else t.fee
