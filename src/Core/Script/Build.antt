-- ===== src/Core/Script/Build.antt =====
-- core/scriptbuild.go: the builder, whose first error stays, and the predicates it makes.
pub mod Uint
pub mod Code
use dnas.Base.{
  ℕ, zero, suc, ◌+◌, ◌*◌, ◌/◌, ◌%◌, ltb, leb, ◌==◌, if◌then◌else◌, ◌||◌, Option, List, [], ◌∷◌,
  ◌++◌, length,
}
use dnas.Base.Str.{Str}
use dnas.Base.Result.{Result, ok, err, ◌>>=◌, ◌>>◌, fail_if, or_fail}
use dnas.Core.Tx.Codec.{put_u64}
use dnas.Core.Env.{Env}
use dnas.Core.Script.{max_script_bytes, max_script_item_bytes, op_push_data}

pub data BuildError : Type 0 where
  push_length item_limit push_not_hex empty_script bytes_limit threshold : BuildError

-- `ScriptBuilder`: the bytes, or the first error.
abbrev pub ScriptBuilder : Type 0
ScriptBuilder = Result BuildError Str

abbrev pub new_script : ScriptBuilder
new_script = ok []

-- `Op`
unfoldable pub add_op : ℕ → ScriptBuilder → ScriptBuilder
add_op op s = s >>= λ b. fail_if (ltb op op_push_data) BuildError.push_length >> ok (b ++ op ∷ [])

-- What `Push` appends.
unfoldable pub push_code : Str → Str
push_code data_bytes =
    if ltb (length data_bytes) op_push_data
    then length data_bytes ∷ data_bytes
    else op_push_data ∷ length data_bytes / 256 % 256 ∷ length data_bytes % 256 ∷ data_bytes

-- `Push`
unfoldable pub add_push : Str → ScriptBuilder → ScriptBuilder
unfolding push_code
add_push data_bytes s = s >>= λ b.
    fail_if (ltb max_script_item_bytes (length data_bytes)) BuildError.item_limit
    >> ok (b ++ push_code data_bytes)

-- `PushHex`
unfoldable pub add_push_hex : Env → Str → ScriptBuilder → ScriptBuilder
unfolding add_push
add_push_hex env h s = s >>= λ b.
    or_fail (env.crypto.hex_decode h) BuildError.push_not_hex >>= λ raw. add_push raw (ok b)

-- The loop of `PushUint` for the rounds left: it drops leading zeros.
unfoldable pub drop_leading : ℕ → Str → Str
drop_leading zero buf = buf
drop_leading (suc n) [] = []
drop_leading (suc n) (b ∷ buf) = let rest = drop_leading n buf in if b == 0 then rest else b ∷ buf

unfoldable pub uint_item : ℕ → Str
unfolding drop_leading put_u64
uint_item v = if v == 0 then [] else drop_leading 7 (put_u64 v)

-- `PushUint`
unfoldable pub add_push_uint : ℕ → ScriptBuilder → ScriptBuilder
unfolding add_push uint_item
add_push_uint v s = add_push (uint_item v) s

-- The checks of `Build`, and its hex.
unfoldable pub built_bytes : ScriptBuilder → ScriptBuilder
built_bytes s = s >>= λ b.
    fail_if (length b == 0) BuildError.empty_script
    >> fail_if (ltb max_script_bytes (length b)) BuildError.bytes_limit
    >> ok b

unfoldable pub build : Env → ScriptBuilder → ScriptBuilder
unfolding built_bytes
build env s = built_bytes s >>= λ b. ok (env.crypto.hex_encode b)

module _ (env : Env) where
  -- `ScriptPayToPubKey`, to the call of `Build`.
  unfoldable pub pay_to_pub_key : Str → ScriptBuilder
  unfolding add_op add_push_hex
  pay_to_pub_key pub_key_hex = add_op 0x80 (add_push_hex env pub_key_hex new_script)

  -- The loop of `ScriptMultisig`, from the last key on.
  unfoldable pub push_keys : List Str → ScriptBuilder → ScriptBuilder
  unfolding add_push_hex
  push_keys [] s = s
  push_keys (k ∷ keys) s = add_push_hex env k (push_keys keys s)

  -- `ScriptMultisig`
  unfoldable pub multisig : ℕ → List Str → ScriptBuilder
  unfolding add_op add_push_uint push_keys
  multisig m pub_keys_hex =
      fail_if (ltb m 1 || ltb (length pub_keys_hex) m) BuildError.threshold
      >> add_op 0x82 (
          add_push_uint (length pub_keys_hex) (push_keys pub_keys_hex (add_push_uint m new_script)))

  -- `ScriptTimeLock`
  unfoldable pub time_lock : Str → ℕ → ScriptBuilder
  unfolding add_op add_push_uint add_push_hex
  time_lock pub_key_hex height =
      add_op 0x80 (add_push_hex env pub_key_hex (add_op 0x83 (add_push_uint height new_script)))

  -- `ScriptHTLC`
  unfoldable pub htlc : Str → Str → Str → ℕ → ScriptBuilder
  unfolding add_op add_push_uint add_push_hex
  htlc hash_hex recipient_pub_hex sender_pub_hex timeout =
      let claim = add_op 0x80 (
        add_push_hex env recipient_pub_hex
          (add_op 0x85 (add_push_hex env hash_hex (add_op 0x70 (add_op 0x90 new_script))))) in
      let refund = add_op 0x80 (
        add_push_hex env sender_pub_hex
          (add_op 0x83 (add_push_uint timeout (add_op 0x91 claim)))) in
      add_op 0x92 refund

  -- `ScriptVault`
  unfoldable pub vault : Str → Str → ℕ → ScriptBuilder
  unfolding add_op add_push_uint add_push_hex
  vault hot_pub_hex cold_pub_hex unlock =
      let cold = add_op 0x80 (add_push_hex env cold_pub_hex (add_op 0x90 new_script)) in
      let hot =
        add_op 0x80
          (add_push_hex env hot_pub_hex (add_op 0x83 (add_push_uint unlock (add_op 0x91 cold)))) in
      add_op 0x92 hot

  -- `ScriptHashLock`
  unfoldable pub hash_lock : Str → ScriptBuilder
  unfolding add_op add_push_hex
  hash_lock hash_hex = add_op 0x63 (add_push_hex env hash_hex (add_op 0x70 new_script))
