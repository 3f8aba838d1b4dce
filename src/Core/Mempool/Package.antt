-- ===== src/Core/Mempool/Package.antt =====
-- core/package.go: coin that is still in the pool, the packages of transactions that depend on one
-- another, and their limits. A set is a list of hashes;
-- the depth of a walk is the code's own, and is the fuel. A hash that the pool does not hold reads as
-- the zero transaction.
use dnas.Base.{
  ℕ, zero, suc, ◌+◌, ◌-◌, ◌^◌, ltb, leb, if◌then◌else◌, not, ◌&&◌, ◌||◌, Option, none, some, List,
  [], ◌∷◌, length, is_empty, add64, ⊤,
}
use dnas.Base.Str.{Str, str_eq}
use dnas.Base.Map.Nat.{lookup_nat}
use dnas.Base.Result.{Result, ok, ◌>>◌, fail_if}
use dnas.Core.Env.{Env}
use dnas.Core.Tx.{Output, Transaction, recipients}
use dnas.Core.Tx.Codec.{size}
use dnas.Core.Tx.Errors.{TxError}
use dnas.Core.Mempool.{
  AccountSource, Mempool, Queue, credits, credits_no_coin, distinct_recipients, get_tx, is_among,
  max_per_sender, queue, tx_coin_cost, without_hash,
}

abbrev pub max_package_ancestors : ℕ
max_package_ancestors = 25

abbrev pub max_package_descendants : ℕ
max_package_descendants = 25

abbrev pub max_package_bytes : ℕ
max_package_bytes = 101_000

-- What `Add` refuses with; `PackageLimitError` by what it counts, and how many there would be.
pub data MempoolError : Type 0 where
  coinbase_refused too_large below_floor nonce_used sender_full nonce_gap : MempoolError
  cannot_afford sponsor_cannot_afford replacement_too_low : MempoolError
  full_nothing_evictable full_rate_too_low full_own_queue : MempoolError
  insane unauthorized : TxError → MempoolError
  foreign_ancestors package_bytes ancestor_descendants : ℕ → MempoolError

abbrev zero_transaction : Transaction
zero_transaction = record {
  from = [];
  to = [];
  amount = 0;
  fee = 0;
  nonce = 0;
  expiry = 0;
  lock_until = 0;
  memo = [];
  outputs = [];
  asset_id = [];
  issue = none;
  asset_op = none;
  name = none;
  pub_key = [];
  signature = [];
  multisig = none;
  signatures = [];
  script = none;
  htlc = none;
  preimage = [];
  vault = none;
  fee_payer = [];
  fee_payer_pub_key = [];
  fee_payer_sig = [];
}

abbrev or_zero_tx : Option Transaction → Transaction
or_zero_tx none = zero_transaction
or_zero_tx (some tx) = tx

-- `m.txs[h]`
unfoldable pub tx_at : Str → Mempool → Transaction
unfolding get_tx
tx_at h m = or_zero_tx (get_tx h m)

-- One transaction's outputs to an address; `none` when the total wraps.
unfoldable pub credit_outputs : Str → ℕ → List Output → Option ℕ
unfolding str_eq
credit_outputs addr total [] = some total
credit_outputs addr total (o ∷ os) =
    let skipped = credit_outputs addr total os in
    let counted = credit_outputs addr (add64 total o.amount) os in
    if str_eq o.to addr
    then (if ltb (add64 total o.amount) total then none else counted)
    else skipped

abbrev credit_of : Str → ℕ → Option Transaction → Option ℕ
credit_of addr total none = some total
credit_of addr total (some tx) =
    if credits_no_coin tx then some total else credit_outputs addr total (recipients tx)

abbrev then_credit : Option ℕ → (ℕ → ℕ) → ℕ
then_credit none k = 2 ^ 64 - 1
then_credit (some total) k = k total

unfoldable pub credit_from : Mempool → Str → ℕ → List Str → ℕ
unfolding get_tx credit_outputs recipients
credit_from m addr total [] = total
credit_from m addr total (h ∷ hs) =
    then_credit (credit_of addr total (get_tx h m)) (λ t. credit_from m addr t hs)

-- `pendingCreditLocked`, which saturates.
unfoldable pub pending_credit : Str → Mempool → ℕ
unfolding credit_from credits
pending_credit addr m = credit_from m addr 0 (credits addr m)

abbrev confirmed_by : Option AccountSource → Str → ℕ
confirmed_by none addr = 0
confirmed_by (some source) addr = (source.account addr).nonce

abbrev spendable_by : Option AccountSource → Str → ℕ
spendable_by none addr = 0
spendable_by (some source) addr = source.spendable_balance addr

-- The walk from one transaction, given the walk from its parents.
module _ (m : Mempool) (walk : Transaction → List Str → List Str) where
  unfoldable pub own_step : Option Str → List Str × ℕ → List Str × ℕ
  unfolding is_among tx_at tx_coin_cost
  own_step none (out, cost) = (out, cost)
  own_step (some h) (out, cost) =
      if is_among h out
      then (out, cost)
      else (walk (tx_at h m) (h ∷ out), add64 cost (tx_coin_cost (tx_at h m)))

  -- The nonces from this one, so many of them.
  unfoldable pub own_ancestors : Queue → ℕ → ℕ → List Str × ℕ → List Str × ℕ
  unfolding own_step lookup_nat
  own_ancestors q zero nonce found = found
  own_ancestors q (suc left) nonce found =
      own_ancestors q left (nonce + 1) (own_step (lookup_nat nonce q) found)

  abbrev credit_ancestor : Str → Option Transaction → List Str → List Str
  credit_ancestor h none out = out
  credit_ancestor h (some parent) out = if is_among h out then out else walk parent (h ∷ out)

  unfoldable pub credit_ancestors : List Str → List Str → List Str
  unfolding is_among get_tx
  credit_ancestors [] out = out
  credit_ancestors (h ∷ hs) out = credit_ancestors hs (credit_ancestor h (get_tx h m) out)

  unfoldable pub ancestors_of : ℕ → Transaction → List Str → List Str
  unfolding own_ancestors credit_ancestors tx_coin_cost queue credits
  ancestors_of extra_cost tx out =
      let confirmed = confirmed_by m.accounts tx.from in
      let (found, own_cost) =
        own_ancestors (queue tx.from m) (tx.nonce - confirmed) confirmed (out, 0) in
      let need = add64 (add64 (tx_coin_cost tx) own_cost) extra_cost in
      if leb need (spendable_by m.accounts tx.from)
      then found
      else credit_ancestors (credits tx.from m) found

  unfoldable pub walk_queue : Queue → List Str → List Str
  unfolding is_among tx_at
  walk_queue [] out = out
  walk_queue ((nonce, h) ∷ q) out =
      walk_queue q (if is_among h out then out else walk (tx_at h m) (h ∷ out))

  unfoldable pub queue_cost : Queue → ℕ → ℕ
  unfolding tx_at tx_coin_cost
  queue_cost [] cost = cost
  queue_cost ((nonce, h) ∷ q) cost = queue_cost q (add64 cost (tx_coin_cost (tx_at h m)))

  unfoldable pub walk_recipients : Str → List Str → List Str → List Str
  unfolding walk_queue queue_cost queue str_eq
  walk_recipients from [] out = out
  walk_recipients from (addr ∷ addrs) out = walk_recipients from addrs (
      if str_eq addr from
        || is_empty (queue addr m)
        || leb (queue_cost (queue addr m) 0) (spendable_by m.accounts addr)
      then out
      else walk_queue (queue addr m) out)

-- `collectAncestors`
unfoldable pub collect_ancestors : Mempool → ℕ → ℕ → Transaction → List Str → List Str
unfolding ancestors_of
collect_ancestors m zero extra_cost tx out = out
collect_ancestors m (suc depth) extra_cost tx out =
    ancestors_of m (collect_ancestors m depth 0) extra_cost tx out

unfoldable pub ancestors_locked : Transaction → ℕ → Mempool → List Str
unfolding collect_ancestors
ancestors_locked tx extra_cost m =
    collect_ancestors m (max_per_sender + max_package_ancestors + 2) extra_cost tx []

-- `walkDescendants`
unfoldable pub walk_descendants : Mempool → ℕ → Transaction → List Str → List Str
unfolding walk_recipients distinct_recipients
walk_descendants m zero tx out = out
walk_descendants m (suc depth) tx out =
    if credits_no_coin tx
    then out
    else walk_recipients m (walk_descendants m depth) tx.from (distinct_recipients tx) out

abbrev descendants_from : Mempool → Str → Option Transaction → List Str
descendants_from m h none = []
descendants_from m h (some tx) =
    without_hash h (walk_descendants m (max_package_ancestors + 2) tx [])

-- `descendantsLocked`
unfoldable pub descendants_locked : Str → Mempool → List Str
unfolding walk_descendants without_hash get_tx
descendants_locked h m = descendants_from m h (get_tx h m)

unfoldable pub foreign_count : Mempool → Str → List Str → ℕ
unfolding tx_at str_eq
foreign_count m from [] = 0
foreign_count m from (h ∷ hs) =
    (if str_eq (tx_at h m).from from then 0 else 1) + foreign_count m from hs

unfoldable pub bytes_of : Env → Mempool → List Str → ℕ
unfolding tx_at size
bytes_of env m [] = 0
bytes_of env m (h ∷ hs) = size env (tx_at h m) + bytes_of env m hs

unfoldable pub check_descendants : Mempool → Str → List Str → Result MempoolError ⊤
unfolding tx_at descendants_locked str_eq
check_descendants m from [] = ok tt
check_descendants m from (h ∷ hs) =
    let n = length (descendants_locked h m) + 1 in
    fail_if (not (str_eq (tx_at h m).from from) && ltb max_package_descendants n)
      (ancestor_descendants n)
    >> check_descendants m from hs

-- `packageLimitsLocked`
unfoldable pub package_limits : Env → Transaction → Mempool → Result MempoolError ⊤
unfolding ancestors_locked foreign_count bytes_of check_descendants
package_limits env tx m = do
  let ancestors = ancestors_locked tx 0 m
  let foreign = foreign_count m tx.from ancestors
  let bytes = size env tx + bytes_of env m ancestors
  fail_if (ltb max_package_ancestors foreign) (foreign_ancestors foreign)
  fail_if (ltb max_package_bytes bytes) (package_bytes bytes)
  check_descendants m tx.from ancestors
