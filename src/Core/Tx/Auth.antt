-- ===== src/Core/Tx/Auth.antt =====
-- core/transaction.go: `VerifySignature` and its branches; core/asset.go: the asset ids.
pub mod Threshold
use dnas.Base.{
  ℕ, ltb, if◌then◌else◌, Bool, false, not, ◌||◌, Option, none, some, List, [], ◌∷◌, ◌++◌, is_empty,
  length, take,
}
use dnas.Base.Str.{Str, codes, str_eq}
use dnas.Base.Result.{Result, ok, err, ◌>>=◌, ◌>>◌, fail_if, or_fail}
use dnas.Core.Tx.{
  AssetIssue, AssetOp, MultisigScript, HtlcScript, VaultScript, Transaction, is_coinbase,
  is_sponsored, is_script,
}
use dnas.Core.Tx.Errors.{TxError}
use dnas.Core.Tx.Shape.{Check}
use dnas.Core.Tx.Codec.{signing_bytes}
use dnas.Core.Env.{Env}

-- `used[pk]`
unfoldable pub contains : Str → List Str → Bool
contains a [] = false
contains a (x ∷ xs) = str_eq x a || contains a xs

module _ (env : Env) where
  -- `AssetID`: "tok" and half the digest of issuer|ticker|nonce.
  unfoldable pub asset_id_of : Str → Str → ℕ → Str
  asset_id_of issuer ticker nonce =
      codes "tok"
      ++ env.crypto.hex_encode (
          take 16 (
            env.crypto.sha256
              (issuer ++ (b'|' ∷ (ticker ++ (b'|' ∷ env.crypto.format_uint nonce))))))

  unfoldable pub non_fungible_asset_id : Str → Str → ℕ → Str → Str
  non_fungible_asset_id issuer ticker nonce metadata =
      codes "nft"
      ++ env.crypto.hex_encode (
          take 16 (
            env.crypto.sha256 (
              codes "nft|"
              ++ (issuer
                  ++ (b'|'
                      ∷ (ticker
                          ++ (b'|' ∷ (env.crypto.format_uint nonce ++ (b'|' ∷ metadata)))))))))

  unfoldable pub issued_asset_id : Str → ℕ → AssetIssue → Str
  unfolding asset_id_of non_fungible_asset_id
  issued_asset_id issuer nonce i =
      if is_empty i.metadata
      then asset_id_of issuer i.ticker nonce
      else non_fungible_asset_id issuer i.ticker nonce i.metadata

  unfoldable pub authorized_by : AssetOp → Str → Str → Bool
  unfolding asset_id_of
  authorized_by o issuer asset_id = str_eq (asset_id_of issuer o.ticker o.issue_nonce) asset_id

  -- The inner loop of `verifyMultisig`: the first member that is not used and whose key verifies.
  unfoldable pub find_member : List Str → Str → Str → List Str → Option Str
  find_member used sig msg [] = none
  find_member used sig msg (pk ∷ pks) =
      let later = find_member used sig msg pks in
      if contains pk used then later else if env.wallet.verify pk sig msg then some pk else later

  -- Its outer loop: the members used, the latest first.
  unfoldable pub match_signatures : List Str → Str → List Str → List Str → Result TxError (List Str)
  unfolding find_member
  match_signatures members msg used [] = ok used
  match_signatures members msg used (sig ∷ sigs) = elim (find_member used sig msg members) [
    | none ↦ err TxError.not_authorized
    | some pk ↦ match_signatures members msg (pk ∷ used) sigs
  ]

  unfoldable pub verify_multisig : Transaction → MultisigScript → Check
  unfolding match_signatures signing_bytes
  verify_multisig t ms = do
    addr ← or_fail (env.wallet.multisig_address ms.threshold ms.pub_keys) TxError.not_authorized
    fail_if (not (str_eq addr t.from)) TxError.not_authorized
    fail_if (ltb (length t.signatures) ms.threshold) TxError.not_authorized
    fail_if (ltb (length ms.pub_keys) (length t.signatures)) TxError.not_authorized
    used ← match_signatures ms.pub_keys (signing_bytes env t) [] t.signatures
    fail_if (ltb (length used) ms.threshold) TxError.not_authorized

  -- The claim branch of `verifyHTLC`: the preimage hashes to the lock and the recipient signed.
  unfoldable pub verify_htlc_claim : Transaction → HtlcScript → Check
  unfolding signing_bytes
  verify_htlc_claim t s = do
    raw ← or_fail (env.crypto.hex_decode t.preimage) TxError.not_authorized
    fail_if (not (str_eq (env.crypto.hex_encode (env.crypto.sha256 raw)) s.hash))
        TxError.not_authorized
    fail_if (not (env.wallet.verify s.recipient t.signature (signing_bytes env t)))
        TxError.not_authorized

  unfoldable pub verify_htlc : Transaction → HtlcScript → Check
  unfolding verify_htlc_claim signing_bytes
  verify_htlc t s = do
    addr ←
        or_fail (env.wallet.htlc_address s.hash s.recipient s.sender s.timeout)
          TxError.not_authorized
    fail_if (not (str_eq addr t.from)) TxError.not_authorized
    if not (is_empty t.preimage)
        then verify_htlc_claim t s
        else fail_if (not (env.wallet.verify s.sender t.signature (signing_bytes env t)))
            TxError.not_authorized

  unfoldable pub verify_vault : Transaction → VaultScript → Check
  unfolding signing_bytes
  verify_vault t v = do
    addr ← or_fail (env.wallet.vault_address v.hot v.cold v.unlock) TxError.not_authorized
    fail_if (not (str_eq addr t.from)) TxError.not_authorized
    fail_if
        (not (
          env.wallet.verify v.cold t.signature (signing_bytes env t)
          || env.wallet.verify v.hot t.signature (signing_bytes env t)))
        TxError.not_authorized

  unfoldable pub verify_single : Transaction → Check
  unfolding signing_bytes
  verify_single t = do
    derived ← or_fail (env.wallet.address_from_pub_key_hex t.pub_key) TxError.not_authorized
    fail_if (not (str_eq derived t.from)) TxError.not_authorized
    fail_if (not (env.wallet.verify t.pub_key t.signature (signing_bytes env t)))
        TxError.not_authorized

  -- `verifySender`, on the scripts that the transaction carries.
  unfoldable pub verify_by :
      Transaction → Option MultisigScript → Option HtlcScript → Option VaultScript → Check
  unfolding verify_multisig verify_htlc verify_vault verify_single
  verify_by t (some ms) htlc vault = verify_multisig t ms
  verify_by t none (some s) vault = verify_htlc t s
  verify_by t none none (some v) = verify_vault t v
  verify_by t none none none = if is_script t then env.scripts.verify_script t else verify_single t

  unfoldable pub verify_sender : Transaction → Check
  unfolding verify_by
  verify_sender t = verify_by t t.multisig t.htlc t.vault

  unfoldable pub verify_sponsor : Transaction → Check
  unfolding signing_bytes
  verify_sponsor t =
      if not (is_sponsored t)
      then ok tt
      else (or_fail (env.wallet.address_from_pub_key_hex t.fee_payer_pub_key) TxError.not_authorized
          >>= λ derived.
              fail_if (not (str_eq derived t.fee_payer)) TxError.not_authorized
              >> fail_if
                  (not
                    (env.wallet.verify t.fee_payer_pub_key t.fee_payer_sig (signing_bytes env t)))
                  TxError.not_authorized)

  -- `VerifySignature`
  unfoldable pub verify_signature : Transaction → Check
  unfolding is_coinbase verify_sender verify_sponsor
  verify_signature t = do
    fail_if (is_coinbase t) TxError.not_authorized
    verify_sender t
    verify_sponsor t
