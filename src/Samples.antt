-- ===== src/Samples.antt =====
-- Concrete data for the tests of package core: an environment with a plain hash and a plain
-- signature scheme, a funded ledger, and blocks on it.
use dnas.Base.{ℕ, ◌+◌, true, false, none, some, List, [], ◌∷◌, ◌++◌, take}
use dnas.Base.Str.{Str, codes, str_eq}
use dnas.Base.Result.{ok}
use dnas.Core.Tx.{Transaction, coinbase_sender}
use dnas.Core.Env.{Crypto, Wallet, Env}
use dnas.Core.Block.{Block, coinbase_amount}
use dnas.Core.Ledger.{Account, State}

-- A signature is the public key again, and an address is the public key.
abbrev pub crypto : Crypto
crypto = record {
  sha256 = λ s. take 32 s;
  hex_encode = λ s. s;
  hex_decode = λ s. some s;
  format_uint = λ n. (48 + n) ∷ [];
}

abbrev joined : List Str → Str
joined [] = []
joined (s ∷ ss) = s ++ joined ss

abbrev pub wallet : Wallet
wallet = record {
  verify = λ pk sig msg. str_eq pk sig;
  address_from_pub_key_hex = λ pk. some pk;
  multisig_address = λ m pks. some (109 ∷ m ∷ joined pks);
  htlc_address = λ h r s t. some (104 ∷ (r ++ s));
  vault_address = λ h c u. some (118 ∷ (h ++ c));
  script_address = λ s. some (115 ∷ s);
  validate_address = λ a. true;
}

abbrev pub env : Env
env = record {
  crypto = crypto;
  wallet = wallet;
  scripts = record { verify_script = λ tx. ok tt; script_not_ready = λ tx h. false };
  upgrades = (codes "multioutput", 1) ∷ (codes "nameservice", 1) ∷ [];
  network_id = codes "test";
}

abbrev pub plain_tx : Transaction
plain_tx = record {
  from = [];
  to = [];
  amount = 0;
  fee = 0;
  nonce = 0;
  expiry = 0;
  lock_until = 0;
  memo = [];
  outputs = [];
  asset_id = [];
  issue = none;
  asset_op = none;
  name = none;
  pub_key = [];
  signature = [];
  multisig = none;
  signatures = [];
  script = none;
  htlc = none;
  preimage = [];
  vault = none;
  fee_payer = [];
  fee_payer_pub_key = [];
  fee_payer_sig = [];
}

abbrev pub alice : Str
alice = codes "alice"

abbrev pub bob : Str
bob = codes "bob"

abbrev pub miner : Str
miner = codes "miner"

-- Alice pays Bob.
abbrev pub payment : Transaction
payment = record plain_tx {
  from = alice;
  to = bob;
  amount = 4000;
  fee = 900;
  nonce = 3;
  pub_key = alice;
  signature = alice;
}

abbrev pub account : ℕ → ℕ → Account
account balance nonce = record {
  balance = balance;
  nonce = nonce;
  assets = [];
  owner = [];
  expires = 0;
}

abbrev pub ledger : State
ledger = (alice, account 9000 3) ∷ (bob, account 20 0) ∷ []

abbrev pub coinbase : Transaction
coinbase = record plain_tx {
  from = coinbase_sender;
  to = miner;
  amount = coinbase_amount env 1 (payment ∷ []) 2;
}

abbrev pub block : Block
block = record {
  version = 1;
  index = 1;
  timestamp = 1000;
  transactions = coinbase ∷ payment ∷ [];
  prev_hash = codes "prev";
  merkle_root = [];
  state_root = [];
  base_fee = 2;
  bits = 0;
  nonce = 0;
  hash = [];
  filter_root = [];
  history_root = [];
}
