-- ===== src/Core/Target.antt =====
-- core/target.go and core/work.go: compact targets and the work of a chain. A big.Int here is never
-- negative.
pub mod Bounds
use dnas.Base.{
  ℕ, zero, suc, ◌+◌, ◌-◌, ◌*◌, ◌/◌, ◌%◌, ◌^◌, ltb, leb, ◌==◌, if◌then◌else◌, Bool, false, Option,
  none, some, List, [], ◌∷◌,
}
use dnas.Base.Str.{Str}
use dnas.Core.Env.{Crypto}
use dnas.Core.Block.{Block}

abbrev pub mantissa : ℕ → ℕ
mantissa bits = bits % 2 ^ 23

abbrev pub exponent : ℕ → ℕ
exponent bits = bits / 2 ^ 24

-- `CompactToBig`
unfoldable pub compact_to_big : ℕ → ℕ
compact_to_big bits =
    if leb (exponent bits) 3
    then mantissa bits / 256 ^ (3 - exponent bits)
    else mantissa bits * 256 ^ (exponent bits - 3)

-- `(n.BitLen() + 7) / 8`, on fuel `n`: a byte less is a smaller number.
unfoldable pub byte_len : ℕ → ℕ → ℕ
byte_len fuel zero = 0
byte_len zero (suc n) = 0
byte_len (suc fuel) (suc n) = suc (byte_len fuel (suc n / 256))

-- The leading bytes of `n`, which has `n_bytes`, and the end of `BigToCompact`: where the top bit
-- would be set, the mantissa loses a byte.
unfoldable pub leading : ℕ → ℕ → ℕ
leading n_bytes n = if leb n_bytes 3 then n * 256 ^ (3 - n_bytes) else n / 256 ^ (n_bytes - 3)

unfoldable pub pack : ℕ → ℕ → ℕ
pack n_bytes m = if ltb m (2 ^ 23) then n_bytes * 2 ^ 24 + m else (n_bytes + 1) * 2 ^ 24 + m / 256

-- `BigToCompact`
unfoldable pub big_to_compact : ℕ → ℕ
unfolding byte_len leading pack
big_to_compact n = if n == 0 then 0 else pack (byte_len n n) (leading (byte_len n n) n)

unfoldable pub pow_limit_bits : ℕ
unfolding big_to_compact
pow_limit_bits = big_to_compact (2 ^ 244 - 1)

unfoldable pub genesis_bits : ℕ
unfolding big_to_compact
genesis_bits = big_to_compact (2 ^ 240 - 1)

unfoldable pub pow_limit : ℕ
unfolding compact_to_big pow_limit_bits
pow_limit = compact_to_big pow_limit_bits

-- `SetBytes`
unfoldable pub big_value : ℕ → Str → ℕ
big_value n [] = n
big_value n (b ∷ bytes) = big_value (n * 256 + b) bytes

abbrev or_too_big : Option Str → ℕ
unfolding big_value
or_too_big none = 2 ^ 256
or_too_big (some bytes) = big_value 0 bytes

unfoldable pub hash_to_big : Crypto → Str → ℕ
unfolding or_too_big
hash_to_big crypto hash = or_too_big (crypto.hex_decode hash)

-- `meetsTarget`
unfoldable pub meets_target : Crypto → Str → ℕ → Bool
unfolding compact_to_big hash_to_big pow_limit
meets_target crypto hash bits =
    if compact_to_big bits == 0
    then false
    else if ltb pow_limit (compact_to_big bits)
    then false
    else leb (hash_to_big crypto hash) (compact_to_big bits)

-- `BlockWork`
unfoldable pub block_work : ℕ → ℕ
unfolding compact_to_big
block_work bits = if compact_to_big bits == 0 then 0 else 2 ^ 256 / (compact_to_big bits + 1)

-- `ChainWork`
unfoldable pub chain_work : List Block → ℕ
unfolding block_work
chain_work [] = 0
chain_work (b ∷ blocks) = block_work b.bits + chain_work blocks
