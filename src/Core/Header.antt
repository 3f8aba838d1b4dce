-- ===== src/Core/Header.antt =====
-- core/block.go: the preimage of the proof of work, the hash and its test.
use dnas.Base.{ℕ, ◌==◌, if◌then◌else◌, Bool, false, not, ◌&&◌, List, [], ◌∷◌, ◌++◌, is_empty}
use dnas.Base.Str.{Str, str_eq}
use dnas.Base.Result.{Result, ◌>>◌, fail_if}
use dnas.Core.Tx.{Transaction, is_coinbase}
use dnas.Core.Env.{Env, Upgrade, is_upgrade_active}
use dnas.Core.Block.{Block}
use dnas.Core.Versionbits.{Header, header}
use dnas.Core.Merkle.{merkle_root}
use dnas.Core.Target.{meets_target}

-- '|'
abbrev bar : Str
bar = 124 ∷ []

abbrev pub first_is_coinbase : List Transaction → Bool
unfolding is_coinbase
first_is_coinbase [] = false
first_is_coinbase (cb ∷ txs) = is_coinbase cb

pub data SelfInvalid : Type 0 where
  self_pow self_merkle_root self_coinbase : SelfInvalid

module _ (env : Env) where
  abbrev number : ℕ → Str
  number n = env.crypto.format_uint n

  -- The field of a scheduled commitment.
  abbrev committed : Bool → Str → Str
  committed active root = if active then root ++ bar else []

  -- `appendPreimagePrefix`
  unfoldable pub preimage_prefix : Header → Str
  unfolding is_upgrade_active
  preimage_prefix h =
      number h.version
      ++ bar
      ++ number h.index
      ++ bar
      ++ number h.timestamp
      ++ bar
      ++ h.prev_hash
      ++ bar
      ++ h.merkle_root
      ++ bar
      ++ h.state_root
      ++ bar
      ++ number h.base_fee
      ++ bar
      ++ number h.bits
      ++ bar
      ++ committed (is_upgrade_active env Upgrade.filter_commit h.index) h.filter_root
      ++ committed (is_upgrade_active env Upgrade.history_root h.index) h.history_root

  -- `appendPreimage`
  unfoldable pub header_preimage : Header → Str
  unfolding preimage_prefix
  header_preimage h = preimage_prefix h ++ number h.nonce

  -- `ComputeHash` of headers
  unfoldable pub compute_hash : Header → Str
  unfolding header_preimage
  compute_hash h = env.crypto.hex_encode (env.crypto.sha256 (header_preimage h))

  -- `HasValidPoW`
  unfoldable pub has_valid_pow : Header → Bool
  unfolding compute_hash meets_target
  has_valid_pow h = str_eq h.hash (compute_hash h) && meets_target env.crypto h.hash h.bits

  -- `SelfValid`
  unfoldable pub self_valid : Block → Result SelfInvalid (Unit {0})
  unfolding has_valid_pow header merkle_root first_is_coinbase
  self_valid b = do
    fail_if (not (has_valid_pow (header b))) SelfInvalid.self_pow
    fail_if (not (str_eq (merkle_root env b.transactions) b.merkle_root))
        SelfInvalid.self_merkle_root
    fail_if (not (first_is_coinbase b.transactions)) SelfInvalid.self_coinbase

-- `IsPlaceholder`
unfoldable pub is_placeholder : Block → Bool
is_placeholder b = not (b.index == 0) && is_empty b.transactions
