-- ===== src/Core/Ledger/Clean.antt =====
-- core/transaction.go: what `CheckTxSanity` guarantees of the addresses that a transaction names.
use dnas.Base.{◌≡◌, true, false, List, [], ◌∷◌, All, arith}
use dnas.Base.Str.{Str, has_prefix-append}
use dnas.Base.Result.{ok}
use dnas.Core.Tx.{Output, Transaction, recipients}
use dnas.Core.Tx.Shape.{is_name_key, name_key_prefix, name_state_key}
use dnas.Core.Tx.Sanity.{no_name_keys, check_tx_sanity}
use dnas.Core.Env.{Env}
use dnas.Core.Ledger.Apply.Name.{NameRecord, stored_record}

-- No address of the transaction is a name record's key.
pub record IsClean (tx : Transaction) : Type 0 where
  pub from_plain : is_name_key tx.from ≡ false
  pub to_plain : is_name_key tx.to ≡ false
  pub payer_plain : is_name_key tx.fee_payer ≡ false
  pub outputs_plain : All (λ o. is_name_key o.to ≡ false) tx.outputs

no_name_keys-All :
    (os : List Output) → no_name_keys os ≡ ok tt → All (λ o. is_name_key o.to ≡ false) os
unfolding no_name_keys
no_name_keys-All [] e = tt
no_name_keys-All (o ∷ os) e = ground (arith, no_name_keys-All os)

pub check_tx_sanity-IsClean :
    (env : Env) (tx : Transaction) → check_tx_sanity env tx ≡ ok tt → IsClean tx
unfolding check_tx_sanity
check_tx_sanity-IsClean env tx e = ground (arith, no_name_keys-All tx.outputs)

pub recipients-plain :
    (tx : Transaction) → IsClean tx → All (λ o. is_name_key o.to ≡ false) (recipients tx)
unfolding recipients
recipients-plain tx c = ground arith

pub name_state_key-IsNameKey : (name : Str) → is_name_key (name_state_key name) ≡ true
unfolding is_name_key
name_state_key-IsNameKey name = has_prefix-append name_key_prefix name

pub stored_record-balance : (r : NameRecord) → (stored_record r).balance ≡ 0
stored_record-balance r = ground arith
