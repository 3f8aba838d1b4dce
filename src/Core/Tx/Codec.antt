-- ===== src/Core/Tx/Codec.antt =====
-- core/codec.go: the canonical binary encoding of a transaction, its hash and its size.
use dnas.Base.{
  ℕ, ◌/◌, ◌%◌, ◌^◌, if◌then◌else◌, Option, none, some, List, [], ◌∷◌, ◌++◌, length, is_empty,
}
use dnas.Base.Str.{Str, codes}
use dnas.Core.Tx.{
  Output, AssetIssue, AssetOp, AssetOpKind, NameOp, NameOpKind, MultisigScript, HtlcScript,
  VaultScript, ScriptAuth, Transaction,
}
use dnas.Core.Env.{Env}

-- `binary.BigEndian.PutUint32` and `PutUint64`.
unfoldable pub put_u32 : ℕ → Str
put_u32 v = v / 2 ^ 24 % 256 ∷ v / 2 ^ 16 % 256 ∷ v / 2 ^ 8 % 256 ∷ v % 256 ∷ []

unfoldable pub put_u64 : ℕ → Str
unfolding put_u32
put_u64 v = put_u32 (v / 2 ^ 32) ++ put_u32 v

unfoldable pub put_str : Str → Str
unfolding put_u32
put_str s = put_u32 (length s) ++ s

unfoldable pub put_strs_items : List Str → Str
unfolding put_str
put_strs_items [] = []
put_strs_items (s ∷ ss) = put_str s ++ put_strs_items ss

unfoldable pub put_strs : List Str → Str
unfolding put_strs_items put_u32
put_strs ss = put_u32 (length ss) ++ put_strs_items ss

unfoldable pub put_outputs : List Output → Str
unfolding put_str put_u64
put_outputs [] = []
put_outputs (o ∷ os) = put_str o.to ++ (put_u64 o.amount ++ put_outputs os)

unfoldable pub asset_op_word : AssetOpKind → Str
asset_op_word AssetOpKind.mint = codes "mint"
asset_op_word AssetOpKind.burn = codes "burn"
asset_op_word (AssetOpKind.unknown w) = w

unfoldable pub name_op_word : NameOpKind → Str
name_op_word NameOpKind.register = codes "register"
name_op_word NameOpKind.renew = codes "renew"
name_op_word NameOpKind.transfer = codes "transfer"
name_op_word NameOpKind.release = codes "release"
name_op_word (NameOpKind.unknown w) = w

unfoldable pub put_issue : Option AssetIssue → Str
unfolding put_str put_u64
put_issue none = 0 ∷ []
put_issue (some i) = 1 ∷ (put_str i.ticker ++ put_u64 i.supply)

unfoldable pub put_asset_op : Option AssetOp → Str
unfolding put_str put_u64 asset_op_word
put_asset_op none = []
put_asset_op (some o) =
    5
    ∷ (put_str (asset_op_word o.op)
        ++ (put_u64 o.amount ++ (put_str o.ticker ++ put_u64 o.issue_nonce)))

unfoldable pub put_metadata : Option AssetIssue → Str
unfolding put_str
put_metadata none = []
put_metadata (some i) = if is_empty i.metadata then [] else 6 ∷ put_str i.metadata

unfoldable pub put_name_op : Option NameOp → Str
unfolding put_str put_u64 name_op_word
put_name_op none = []
put_name_op (some n) =
    7 ∷ (put_str (name_op_word n.op) ++ (put_str n.name ++ (put_str n.target ++ put_u64 n.periods)))

-- `signedFields`
unfoldable pub signed_fields : Env → Transaction → Str
unfolding put_str put_u64 put_issue put_outputs put_asset_op put_metadata put_name_op
signed_fields env t =
    put_str t.from
    ++ (put_str t.to
        ++ (put_u64 t.amount
            ++ (put_u64 t.fee
                ++ (put_u64 t.nonce
                    ++ (put_u64 t.expiry
                        ++ (put_u64 t.lock_until
                            ++ (put_str t.asset_id
                                ++ (put_issue t.issue
                                    ++ (put_str t.memo
                                        ++ ((if is_empty env.network_id
                                              then []
                                              else 1 ∷ put_str env.network_id)
                                            ++ ((if is_empty t.outputs
                                                  then []
                                                  else put_u32 (length t.outputs)
                                                    ++ put_outputs t.outputs)
                                                ++ ((if is_empty t.fee_payer
                                                      then []
                                                      else 2 ∷ put_str t.fee_payer)
                                                    ++ (put_asset_op t.asset_op
                                                        ++ (put_metadata t.issue
                                                            ++ put_name_op t.name))))))))))))))

abbrev pub tx_codec_version : ℕ
tx_codec_version = 1

unfoldable pub signing_bytes : Env → Transaction → Str
unfolding signed_fields
signing_bytes env t = tx_codec_version ∷ signed_fields env t

unfoldable pub put_multisig : Option MultisigScript → Str
unfolding put_u64 put_strs
put_multisig none = 0 ∷ []
put_multisig (some m) = 1 ∷ (put_u64 m.threshold ++ put_strs m.pub_keys)

unfoldable pub put_htlc : Option HtlcScript → Str
unfolding put_u64 put_str
put_htlc none = 0 ∷ []
put_htlc (some h) =
    1 ∷ (put_str h.hash ++ (put_str h.recipient ++ (put_str h.sender ++ put_u64 h.timeout)))

unfoldable pub put_vault : Option VaultScript → Str
unfolding put_u64 put_str
put_vault none = []
put_vault (some v) = 4 ∷ (put_str v.hot ++ (put_str v.cold ++ put_u64 v.unlock))

unfoldable pub put_script : Option ScriptAuth → Str
unfolding put_str put_strs
put_script none = []
put_script (some s) = 8 ∷ (put_str s.script ++ put_strs s.args)

-- `canonicalBytes`
unfoldable pub canonical_bytes : Env → Transaction → Str
unfolding signed_fields put_str put_strs put_multisig put_htlc put_vault put_script
canonical_bytes env t =
    tx_codec_version
    ∷ (signed_fields env t
        ++ (put_str t.pub_key
            ++ (put_str t.signature
                ++ (put_multisig t.multisig
                    ++ (put_strs t.signatures
                        ++ (put_htlc t.htlc
                            ++ (put_str t.preimage
                                ++ ((if is_empty t.fee_payer
                                      then []
                                      else 3
                                        ∷ (put_str t.fee_payer_pub_key ++ put_str t.fee_payer_sig))
                                    ++ (put_vault t.vault ++ put_script t.script)))))))))

-- `Transaction.Hash`
unfoldable pub tx_hash : Env → Transaction → Str
unfolding canonical_bytes
tx_hash env t = env.crypto.hex_encode (env.crypto.sha256 (canonical_bytes env t))

-- `Transaction.Size`
unfoldable pub size : Env → Transaction → ℕ
unfolding canonical_bytes
size env t = length (canonical_bytes env t)
