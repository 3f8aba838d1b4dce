-- ===== src/Core/Tx/Shape.antt =====
-- core/name.go, core/asset.go: the shape rules of names, tickers and operations;
-- core/transaction.go: the shape rules of the authorization fields.
use dnas.Base.{
  ℕ, suc, ltb, leb, ◌==◌, if◌then◌else◌, Bool, true, false, not, ◌&&◌, ◌||◌, ◌++◌, Option, none,
  some, is_some, List, [], ◌∷◌, is_empty, length, ⊤,
}
use dnas.Base.Str.{Str, codes, str_eq, has_prefix}
use dnas.Base.Result.{Result, ok, err, ◌>>◌, fail_if}
use dnas.Core.Params.{max_asset_supply}
use dnas.Core.Tx.{
  AssetIssue, AssetOp, AssetOpKind, NameOp, NameOpKind, Transaction, is_multisig, is_htlc, is_vault,
  is_script,
}
use dnas.Core.Tx.Errors.{TxError}

abbrev pub Check : Type 0
Check = Result TxError ⊤

-- "\x00name:"
abbrev pub name_key_prefix : Str
name_key_prefix = 0 ∷ codes "name:"

abbrev pub name_state_key : Str → Str
name_state_key name = name_key_prefix ++ name

unfoldable pub is_name_key : Str → Bool
is_name_key k = has_prefix name_key_prefix k

abbrev pub min_name_len : ℕ
min_name_len = 3

abbrev pub max_name_len : ℕ
max_name_len = 32

abbrev pub name_lease_period : ℕ
name_lease_period = 100_000

abbrev pub max_name_leases : ℕ
max_name_leases = 10

unfoldable pub is_lower_or_digit : ℕ → Bool
is_lower_or_digit c = (leb b'a' c && leb c b'z') || (leb b'0' c && leb c b'9')

abbrev is_hyphen : Option ℕ → Bool
is_hyphen none = false
is_hyphen (some p) = p == b'-'

-- The loop of `ValidName`: `prev` is `name[i-1]`, `none` at the start.
unfoldable pub valid_name_loop : Option ℕ → Str → Check
unfolding is_lower_or_digit
valid_name_loop prev [] = ok tt
valid_name_loop prev (c ∷ rest) =
    let next = valid_name_loop (some c) rest in
    if is_lower_or_digit c
    then next
    else if c == b'-'
    then (if not (is_some prev) || is_empty rest
        then err TxError.name_hyphen_at_end
        else if is_hyphen prev
        then err TxError.name_two_hyphens
        else next)
    else err TxError.name_charset

unfoldable pub valid_name : Str → Check
unfolding valid_name_loop
valid_name name = do
  fail_if (ltb (length name) min_name_len || ltb max_name_len (length name)) TxError.name_length
  valid_name_loop none name

-- The `switch n.Op` of `NameOp.Validate`.
unfoldable pub validate_name_kind : NameOpKind → NameOp → Check
validate_name_kind NameOpKind.register n =
    fail_if (ltb max_name_leases n.periods) TxError.too_many_periods
validate_name_kind NameOpKind.renew n =
    fail_if (ltb max_name_leases n.periods) TxError.too_many_periods
validate_name_kind NameOpKind.transfer n = fail_if (is_empty n.target) TxError.transfer_needs_target
validate_name_kind NameOpKind.release n =
    fail_if (not (is_empty n.target) || not (n.periods == 0)) TxError.release_takes_no_target
validate_name_kind (NameOpKind.unknown _) n = err TxError.unknown_name_operation

-- `NameOp.Validate`, at an operation that is there.
unfoldable pub validate_name_op : NameOp → Check
validate_name_op n = do
  valid_name n.name
  validate_name_kind n.op n
  fail_if (not (is_empty n.target) && is_name_key n.target) TxError.target_is_name_key

-- `NameOp.periods`: zero is read as one.
unfoldable pub lease_periods : NameOp → ℕ
lease_periods n = if n.periods == 0 then 1 else n.periods

abbrev pub max_ticker_len : ℕ
max_ticker_len = 8

unfoldable pub is_alphanumeric : ℕ → Bool
is_alphanumeric c =
    (leb b'A' c && leb c b'Z') || (leb b'a' c && leb c b'z') || (leb b'0' c && leb c b'9')

unfoldable pub valid_ticker_loop : Str → Check
unfolding is_alphanumeric
valid_ticker_loop [] = ok tt
valid_ticker_loop (c ∷ rest) =
    let next = valid_ticker_loop rest in
    if not (is_alphanumeric c) then err TxError.ticker_charset else next

unfoldable pub valid_ticker : Str → Check
unfolding valid_ticker_loop
valid_ticker t = do
  fail_if (is_empty t || ltb max_ticker_len (length t)) TxError.ticker_length
  valid_ticker_loop t

abbrev pub metadata_hash_len : ℕ
metadata_hash_len = 64

unfoldable pub valid_metadata_loop : Str → Check
valid_metadata_loop [] = ok tt
valid_metadata_loop (c ∷ rest) =
    let next = valid_metadata_loop rest in
    if (ltb c b'0' || ltb b'9' c) && (ltb c b'a' || ltb b'f' c)
    then err TxError.metadata_charset
    else next

unfoldable pub valid_metadata : Str → Check
unfolding valid_metadata_loop
valid_metadata meta = do
  fail_if (not (length meta == metadata_hash_len)) TxError.metadata_length
  valid_metadata_loop meta

-- The checks at the head of `applyIssue`.
unfoldable pub check_issuance : AssetIssue → Check
unfolding valid_ticker valid_metadata
check_issuance i = do
  valid_ticker i.ticker
  fail_if (i.supply == 0 || ltb max_asset_supply i.supply) TxError.asset_supply_range
  if not (is_empty i.metadata)
      then valid_metadata i.metadata >> fail_if (not (i.supply == 1)) TxError.non_fungible_supply
      else ok tt

abbrev pub is_known : AssetOpKind → Bool
is_known AssetOpKind.mint = true
is_known AssetOpKind.burn = true
is_known (AssetOpKind.unknown _) = false

-- `AssetOp.Validate`, at an operation that is there.
unfoldable pub validate_asset_op : AssetOp → Check
validate_asset_op o = do
  fail_if (not (is_known o.op)) TxError.unknown_asset_operation
  fail_if (o.amount == 0 || ltb max_asset_supply o.amount) TxError.asset_op_amount_range
  valid_ticker o.ticker

-- `checkSponsorShape`
unfoldable pub check_sponsor_shape : Transaction → Check
check_sponsor_shape t =
    if is_empty t.fee_payer
    then fail_if (not (is_empty t.fee_payer_pub_key) || not (is_empty t.fee_payer_sig))
        TxError.sponsor_auth_without_payer
    else (fail_if (is_empty t.fee_payer_pub_key || is_empty t.fee_payer_sig)
          TxError.payer_without_sponsor_auth
        >> fail_if (str_eq t.fee_payer t.from) TxError.payer_is_sender)

abbrev pub count_true : List Bool → ℕ
count_true [] = 0
count_true (true ∷ bs) = suc (count_true bs)
count_true (false ∷ bs) = count_true bs

-- The `switch` of `checkAuthShape`.
unfoldable pub check_auth_fields : Transaction → Check
check_auth_fields t =
    let keyed = not (is_empty t.pub_key) in
    let signed = not (is_empty t.signature) in
    let many = not (is_empty t.signatures) in
    let revealed = not (is_empty t.preimage) in
    if is_multisig t
    then fail_if (keyed || signed) TxError.multisig_with_key
      >> fail_if revealed TxError.multisig_with_preimage
    else if is_htlc t
    then fail_if keyed TxError.htlc_with_key >> fail_if many TxError.htlc_with_signatures
    else if is_script t
    then fail_if (keyed || signed) TxError.script_with_key
      >> fail_if many TxError.script_with_signatures
      >> fail_if revealed TxError.script_with_preimage
    else if is_vault t
    then fail_if keyed TxError.vault_with_key
      >> fail_if many TxError.vault_with_signatures
      >> fail_if revealed TxError.vault_with_preimage
    else fail_if many TxError.single_with_signatures
      >> fail_if revealed TxError.single_with_preimage

unfoldable pub check_auth_shape : Transaction → Check
unfolding check_auth_fields check_sponsor_shape
check_auth_shape t = do
  fail_if (ltb 1 (count_true (is_multisig t ∷ is_htlc t ∷ is_vault t ∷ is_script t ∷ [])))
      TxError.many_scripts
  check_auth_fields t
  check_sponsor_shape t
