-- ===== src/Core/Env.antt =====
-- What the rules of package core are given: the standard library's hash and encodings, the
-- functions of packages wallet and (core/script.go) the script interpreter as interfaces, and the
-- configuration of core/upgrade.go and core/network.go.
use dnas.Base.{ℕ, leb, Bool, false, Option, none, some, List}
use dnas.Base.Str.{Str, codes}
use dnas.Base.Map.{Map, lookup}
use dnas.Core.Tx.{Transaction}
use dnas.Core.Tx.Shape.{Check}

-- crypto/sha256, encoding/hex and strconv.
pub record Crypto : Type 0 where
  pub sha256 : Str → Str
  pub hex_encode : Str → Str
  pub hex_decode : Str → Option Str
  pub format_uint : ℕ → Str

-- Package wallet: `none` is an error.
pub record Wallet : Type 0 where
  pub verify : Str → Str → Str → Bool
  pub address_from_pub_key_hex : Str → Option Str
  pub multisig_address : ℕ → List Str → Option Str
  pub htlc_address : Str → Str → Str → ℕ → Option Str
  pub vault_address : Str → Str → ℕ → Option Str
  pub script_address : Str → Option Str
  pub validate_address : Str → Bool

-- core/script.go: `verifyScript` and `ScriptNotReady`.
pub record ScriptVm : Type 0 where
  pub verify_script : Transaction → Check
  pub script_not_ready : Transaction → ℕ → Bool

pub data Upgrade : Type 0 where
  dust_limit multi_output vault fee_sponsor checked_addresses unique_coinbase : Upgrade
  asset_ops non_fungible script name_service filter_commit history_root : Upgrade

unfoldable pub upgrade_name : Upgrade → Str
upgrade_name Upgrade.dust_limit = codes "dustlimit"
upgrade_name Upgrade.multi_output = codes "multioutput"
upgrade_name Upgrade.vault = codes "vault"
upgrade_name Upgrade.fee_sponsor = codes "feesponsor"
upgrade_name Upgrade.checked_addresses = codes "checkedaddresses"
upgrade_name Upgrade.unique_coinbase = codes "uniquecoinbase"
upgrade_name Upgrade.asset_ops = codes "assetops"
upgrade_name Upgrade.non_fungible = codes "nonfungible"
upgrade_name Upgrade.script = codes "script"
upgrade_name Upgrade.name_service = codes "nameservice"
upgrade_name Upgrade.filter_commit = codes "filtercommit"
upgrade_name Upgrade.history_root = codes "historyroot"

pub record Env : Type 0 where
  pub crypto : Crypto
  pub wallet : Wallet
  pub scripts : ScriptVm
  pub upgrades : Map ℕ
  pub network_id : Str

abbrev reached : Option ℕ → ℕ → Bool
reached none height = false
reached (some h) height = leb h height

-- `IsUpgradeActive`
unfoldable pub is_upgrade_active : Env → Upgrade → ℕ → Bool
unfolding upgrade_name lookup
is_upgrade_active env u height = reached (lookup (upgrade_name u) env.upgrades) height
